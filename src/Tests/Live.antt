-- ===== src/Tests/Live.antt =====
-- The live adapter on small data: a venue that counts the requests it gets.
use ztrade.Prelude.{
  ℕ, ◌+◌, String, ◌≡◌, refl, true, false, ◌&&◌, Option, none, some, List, [], ◌∷◌, if◌then◌else◌,
}
use ztrade.Prelude.Int.{ℤ, pos, ◌+ℤ◌, ◌-ℤ◌, ◌*ℤ◌, neg_ℤ}
use ztrade.Prelude.Table.{Table, lookup, string_eq}
use ztrade.Prelude.Double.{Units, whole_units}
use ztrade.Core.Intent.{OrderIntent, OrderSide, ExecutionStyle}
use ztrade.Execution.OrderState.{fill, acknowledge, new_order, buy}
use ztrade.Execution.Journal.{can_trade, recover_state}
use ztrade.Execution.Reconciler.{
  drifts, reconcile, position_corrections, by_symbol, contains, size_in,
}
use ztrade.Execution.Engine.{override_position, Intent, order_intent, cancel_intent, Engine}
use ztrade.Execution.Engine.Replayed.{handle_all}
use ztrade.Live.AccountEvents.{AccountEvent}
use ztrade.Live.Broker.{
  VenueApi, answered, LiveBroker, LiveConfig, live_broker, cancel_order, RestAnswer, no_answer,
}
use ztrade.Live.Broker.Stream.{silent_stream}
use ztrade.Live.Broker.Cancelling.{cancel_never_sent}
use ztrade.Live.Pipeline.{
  LivePipeline, VenueView, exchange_positions, engine_position_symbols, position_of,
  begin_cold_start, finish_cold_start, finish_reconciliation,
}
use ztrade.Live.Pipeline.Calls.{
  PipelineCall, account, streamed, reconciled_with, cold_answered, new_pipeline, run_pipeline,
}
use ztrade.Live.Pipeline.Gate.{cold_start_shuts}
use ztrade.Live.Pipeline.Restart.{IsForgotten, restart_forgets}
use ztrade.Live.Pipeline.Corrected.{is_apart, placed, finish_corrects}
use ztrade.Live.PrivateWs.{
  WsConfig, WsEvent, started, stopped_by_caller, socket_opened, received, socket_closed,
  auth_answer, execution_rows, ws_run, new_private_ws,
}
use ztrade.Live.PrivateWs.Arming.{IsArmed, subscribed-IsArmed}
use ztrade.Live.PrivateWs.Quiet.{quiet_until_start}
use ztrade.Live.PrivateWs.Counts.{IsCounted, counts-IsCounted}

abbrev units : ℕ → Units
units n = some (pos n)

-- The venue's state is the number of requests.
abbrev api : VenueApi ℕ
api = record {
  create_order = λ body n. (n + 1, answered "x");
  cancel_at = λ category symbol id n. (n + 1, answered tt);
  cancel_every = λ category coin n. (n + 1, answered none);
}

abbrev config : LiveConfig
config = record { category = "linear"; trading_enabled = true }

abbrev print : Units → String
print x = "2"

-- It counts the intents, and lets them pass.
abbrev risk : OrderIntent Units → Table String Units → ℕ → ℕ × Option String
risk intent positions n = (n + 1, none)

abbrev intent : OrderIntent Units
intent = record {
  key = "a";
  symbol = "BTC";
  side = OrderSide.buy;
  qty = units 2;
  style = ExecutionStyle.market;
  reduce_only = false;
  max_slippage_bps = none;
  stop_loss = none;
  take_profit = none;
  rationale = "r";
}

-- A strategy that buys on each event, with what it buys as the event.
abbrev on_event : OrderIntent Units → ℤ → ℕ → Table String Units → ℕ → List (Intent Units) × ℕ × ℕ
on_event wanted now seq positions n = (order_intent wanted ∷ [], seq + 1, n)

abbrev link_id : String → String
link_id key = key

abbrev stamp : ℤ → Units
stamp n = some n

abbrev engine : Engine Units (LiveBroker Units ℕ) ℕ
engine = record {
  now = pos 0;
  orders = ("a", new_order "a" "BTC" buy (units 2)) ∷ [];
  positions = ("BTC", units 3) ∷ [];
  decisions = [];
  intent_seq = 0;
  transitions = [];
  broker_state = record { exchange_ids = []; outbox = []; venue = 0 };
  strategy_state = 0;
}

abbrev tape : List (OrderIntent Units × ℤ)
tape = (intent, pos 1) ∷ (intent, pos 2) ∷ []

silent_stream_example :
    (handle_all (live_broker api config print) risk on_event link_id stamp tape engine).positions
    ≡ engine.positions
silent_stream_example = silent_stream api config print risk on_event link_id stamp tape engine refl

-- A strategy that cancels on each event.
abbrev asks_cancel : ℕ → ℤ → ℕ → Table String Units → ℕ → List (Intent Units) × ℕ × ℕ
asks_cancel n now seq positions m = (cancel_intent "BTC" "a" "late" ∷ [], seq + 1, m)

abbrev cancel_fails : (category symbol link_id : String) → ℕ → ℕ × RestAnswer (Unit {0})
cancel_fails category symbol id n = (n + 5, no_answer "down")

cancel_never_sent_example :
    (handle_all
        (live_broker (record api { cancel_at = cancel_fails }) config print)
        risk
        asks_cancel
        link_id
        stamp
        ((1, pos 1) ∷ (2, pos 2) ∷ [])
        engine
      ≡ handle_all
          (live_broker api config print)
          risk
          asks_cancel
          link_id
          stamp
          ((1, pos 1) ∷ (2, pos 2) ∷ [])
          engine)
    × ((cancel_order api config print "a" engine.broker_state).1.accepted ≡ false)
cancel_never_sent_example =
    cancel_never_sent api config print cancel_fails risk asks_cancel link_id stamp
      ((1, pos 1) ∷ (2, pos 2) ∷ []) engine "a" engine.broker_state

-- The venue holds five, and an order that the engine knows.
abbrev view : VenueView Units
view = ([], record { symbol = "BTC"; side = "Buy"; size = units 5; entry_price = units 9 } ∷ [])

abbrev pipeline : LivePipeline Units ℕ ℕ
pipeline = new_pipeline engine

abbrev filled : AccountEvent Units
filled = ("a", fill (units 2) (units 9) (units 0) true, pos 7)

abbrev before_answer : List (PipelineCall Units ℕ ℕ)
before_answer = account filled ∷ cold_answered (units 8) none ∷ streamed "BTC" (units 5) "Buy" ∷ []

cold_start_shuts_example :
    let waiting = run_pipeline stamp before_answer (begin_cold_start pipeline) in
    (can_trade waiting.gate ≡ false)
    × (can_trade (finish_cold_start (units 9) (some view) waiting).0.gate ≡ true)
cold_start_shuts_example =
    cold_start_shuts stamp before_answer pipeline (units 9) view (refl, (refl, (refl, tt)))

abbrev life : List (PipelineCall Units ℕ ℕ)
life = account ("a", acknowledge "x", pos 6) ∷ account filled ∷ reconciled_with view ∷ []

restart_forgets_example :
    let recovered = recover_state (run_pipeline stamp life (new_pipeline engine)).journal in
    (recovered.positions ≡ []) × IsForgotten (lookup "a" recovered.orders)
restart_forgets_example = restart_forgets stamp life engine "a" (refl, (refl, (refl, tt)))

finish_corrects_example :
    let ps = exchange_positions view.1 in
    position_of "BTC" (finish_reconciliation view pipeline).0.engine ≡ (
      if contains (engine_position_symbols ps pipeline) "BTC" && is_apart ps engine "BTC"
      then placed (size_in (by_symbol ps) "BTC")
      else position_of "BTC" engine)
finish_corrects_example = finish_corrects view pipeline "BTC"

-- It is five: the venue's, not the engine's three.
corrected_to_five : position_of "BTC" (finish_reconciliation view pipeline).0.engine ≡ units 5
unfolding finish_reconciliation engine_position_symbols reconcile position_corrections
    override_position drifts new_order ◌+ℤ◌ ◌-ℤ◌ ◌*ℤ◌ neg_ℤ
corrected_to_five = refl

abbrev ws_config : WsConfig
ws_config = record { dead_mans_window_sec = some 5; auth_window_ms = none }

abbrev sign : ℤ → String
sign expires = "s"

-- A connection that is stopped, and an answer that comes late.
abbrev ws_events : List (WsEvent Units)
ws_events =
    started
    ∷ socket_opened (pos 1)
    ∷ received (pos 2) (auth_answer true)
    ∷ received (pos 3) (
        execution_rows (
          some (
            record {
              exec_link_id = "a";
              exec_qty = units 2;
              exec_price = units 9;
              exec_fee = units 0;
              exec_is_maker = true;
              exec_time = pos 3;
            }
            ∷ [])))
    ∷ socket_closed
    ∷ []

subscribed-IsArmed_example : IsArmed (ws_run ws_config sign ws_events new_private_ws)
subscribed-IsArmed_example = subscribed-IsArmed ws_config sign ws_events

counts-IsCounted_example : IsCounted (ws_run ws_config sign ws_events new_private_ws)
counts-IsCounted_example = counts-IsCounted ws_config sign ws_events

abbrev late : List (WsEvent Units)
late = socket_closed ∷ received (pos 4) (auth_answer true) ∷ []

quiet_until_start_example :
    (ws_run ws_config sign (stopped_by_caller ∷ late) (new_private_ws {F = Units})).opened ≡ 0
quiet_until_start_example =
    quiet_until_start ws_config sign stopped_by_caller late new_private_ws refl (refl, (refl, tt))
