-- ===== src/Live/Pipeline.antt =====
-- packages/adapters-bybit/src/livePipeline.ts: the engine on the live broker, with the journal, the
-- recovery gate and the reconciliation. The journal is the list of its entries, and `stamp` is a time as
-- a number. What the venue answers to the two requests of a reconciliation is an argument of the
-- function that goes on after the `await`, since anything may be called before. Logging is left out.
pub mod Calls
pub mod Restart
pub mod Corrected
pub mod Gate
use ztrade.Prelude.{
  ℕ, ◌+◌, String, Bool, true, false, Option, none, some, List, [], ◌∷◌, ◌++◌, if◌then◌else◌, length,
}
use ztrade.Prelude.Int.{ℤ}
use ztrade.Prelude.Double.{Double}
use ztrade.Prelude.Table.{Table, string_eq, lookup, insert}
use ztrade.Execution.OrderState.{OrderRecord, nought}
use ztrade.Execution.Journal.{
  JournalEntry, open_order, event, RecoveredState, recover_state, RecoveryGate, new_gate,
  mark_reconciled, block, can_trade,
}
use ztrade.Execution.Journal as Journal
use ztrade.Execution.Reconciler.{
  ExchangeOrder, ExchangePosition, Drift, ReconcileResult, contains, add_key, reconcile,
  position_corrections,
}
use ztrade.Execution.Engine.{Engine, override_position, restore_orders}
use ztrade.Live.AccountEvents.{AccountEvent}
use ztrade.Live.Broker.{LiveBroker, VenuePosition, ingest_order_event}

pub record PipelineStats : Type 0 where
  pub reconciliations : ℕ
  pub drifts_found : ℕ
  pub corrections : ℕ
  pub journaled : ℕ

pub record LivePipeline (F V S : Type 0) : Type 0 where
  pub engine : Engine F (LiveBroker F V) S
  pub gate : RecoveryGate
  pub streamed_positions : Table String F
  pub journaled_opens : List String
  pub journal : List (JournalEntry F)
  pub stats : PipelineStats

-- What the venue answers: its open orders and its positions.
abbrev pub VenueView : Type 0 → Type 0
VenueView F = List ExchangeOrder × List (VenuePosition F)

-- The keys of a map, and the symbols of the orders and of the positions, each added to a set.
abbrev pub add_held : {F : Type 0} → List (ExchangePosition F) → List String → List String
add_held [] symbols = symbols
add_held (p ∷ ps) symbols = add_held ps (add_key p.held symbols)

abbrev pub add_traded : {F : Type 0} → Table String (OrderRecord F) → List String → List String
add_traded [] symbols = symbols
add_traded ((id, order) ∷ orders) symbols = add_traded orders (add_key order.symbol symbols)

abbrev pub add_streamed : {F : Type 0} → Table String F → List String → List String
add_streamed [] symbols = symbols
add_streamed ((symbol, size) ∷ m) symbols = add_streamed m (add_key symbol symbols)

module _ {F V S : Type 0} where
  -- The marker of an order that the engine knows, before its first event.
  unfoldable pub journal_open :
      String → F → Option (OrderRecord F) → LivePipeline F V S → LivePipeline F V S
  journal_open id at none p = p
  journal_open id at (some order) p = if contains p.journaled_opens id then p else record p {
    journal = p.journal ++ (open_order at id order.symbol order.side order.qty ∷ []);
    journaled_opens = add_key id p.journaled_opens;
    stats = record p.stats { journaled = p.stats.journaled + 1 };
  }

  unfoldable pub journal_event :
      String → F → AccountEvent F → LivePipeline F V S → LivePipeline F V S
  journal_event id at (_, ev, _) p = record p {
    journal = p.journal ++ (event at id ev ∷ []);
    stats = record p.stats { journaled = p.stats.journaled + 1 };
  }

  abbrev pub feed : AccountEvent F → LivePipeline F V S → LivePipeline F V S
  feed ev p = record p {
    engine = record p.engine { broker_state = ingest_order_event ev p.engine.broker_state };
  }

  module _ (stamp : ℤ → F) where
    unfoldable pub handle_account_event : AccountEvent F → LivePipeline F V S → LivePipeline F V S
    unfolding journal_open journal_event
    handle_account_event ev p =
        let opened = journal_open ev.0 (stamp ev.2) (lookup ev.0 p.engine.orders) p in
        feed ev (journal_event ev.0 (stamp ev.2) ev opened)

module _ {F : Type 0} ⦃d : Double F⦄ where
  abbrev pub signed_size : String → F → F
  signed_size side size = if string_eq.beq side "Sell" then d.neg size else size

  abbrev pub exchange_positions : List (VenuePosition F) → List (ExchangePosition F)
  exchange_positions [] = []
  exchange_positions (p ∷ raw) =
      record { held = p.symbol; signed_size = signed_size p.side p.size } ∷ exchange_positions raw

module _ {F V S : Type 0} ⦃d : Double F⦄ where
  unfoldable pub on_streamed_position :
      String → F → String → LivePipeline F V S → LivePipeline F V S
  on_streamed_position symbol size side p = record p {
    streamed_positions = insert symbol (signed_size side (d.abs size)) p.streamed_positions;
  }

  unfoldable pub engine_position_symbols :
      List (ExchangePosition F) → LivePipeline F V S → List String
  engine_position_symbols ps p =
      add_streamed p.streamed_positions (add_traded p.engine.orders (add_held ps []))

  -- `engine.positionOf`
  abbrev pub position_of : String → Engine F (LiveBroker F V) S → F
  position_of symbol e = Journal.get_or_nought (lookup symbol e.positions)

  abbrev pub local_from :
      List String → Engine F (LiveBroker F V) S → Table String F → Table String F
  local_from [] e m = m
  local_from (s ∷ symbols) e m = local_from symbols e (insert s (position_of s e) m)

  abbrev pub local_positions : List String → Engine F (LiveBroker F V) S → Table String F
  local_positions symbols e = local_from symbols e []

  abbrev pub override_each :
      Table String F → Engine F (LiveBroker F V) S → Engine F (LiveBroker F V) S
  override_each [] e = e
  override_each ((symbol, size) ∷ m) e = override_each m (override_position symbol size e)

  -- `runReconciliation` until the venue is asked, and from its answer on.
  unfoldable pub begin_reconciliation : LivePipeline F V S → LivePipeline F V S
  begin_reconciliation p = record p {
    stats = record p.stats { reconciliations = p.stats.reconciliations + 1 };
  }

  abbrev pub outcome : VenueView F → LivePipeline F V S → ReconcileResult F
  outcome (orders, positions) p =
      let ps = exchange_positions positions in
      reconcile p.engine.orders (local_positions (engine_position_symbols ps p) p.engine) orders ps

  abbrev correct : ReconcileResult F → LivePipeline F V S → LivePipeline F V S
  correct result p =
      let fixes = position_corrections result in
      record p {
        engine = override_each fixes p.engine;
        stats = record p.stats {
          drifts_found = p.stats.drifts_found + length result.drift;
          corrections = p.stats.corrections + length fixes;
        };
      }

  unfoldable pub finish_reconciliation :
      VenueView F → LivePipeline F V S → LivePipeline F V S × Bool
  unfolding engine_position_symbols
  finish_reconciliation view p =
      let result = outcome view p in ((if result.clean then p else correct result p), result.clean)

  -- `coldStart` until the venue is asked.
  unfoldable pub begin_cold_start : LivePipeline F V S → LivePipeline F V S
  unfolding begin_reconciliation
  begin_cold_start p =
      let recovered = recover_state p.journal in
      begin_reconciliation (record p {
        gate = block p.gate;
        engine = override_each recovered.positions (restore_orders recovered.orders p.engine);
      })

  -- The rest, with what the venue answers, or `none` where a request threw, and the time. The marker
  -- is written after a clean pass alone.
  abbrev pub opened_gate : F → LivePipeline F V S × Bool → LivePipeline F V S
  opened_gate now (p, clean) = record p {
    gate = mark_reconciled p.gate;
    journal =
        if clean
        then p.journal ++ (Journal.reconciled now "cold start reconciled" ∷ [])
        else p.journal;
  }

  unfoldable pub finish_cold_start :
      F → Option (VenueView F) → LivePipeline F V S → LivePipeline F V S × Bool
  unfolding finish_reconciliation
  finish_cold_start now none p = (p, false)
  finish_cold_start now (some view) p = (opened_gate now (finish_reconciliation view p), true)
