-- ===== src/Live/Pipeline/Restart.antt =====
-- What a restart finds in the journal that the pipeline has written.
use ztrade.Prelude.{
  String, ◌≡◌, refl, sym, ◌∙◌, inl, inr, Bool, true, false, Option, none, some, List, [], ◌∷◌, ◌++◌,
  arith, Bool-cases, Option-cases, All,
}
use ztrade.Prelude.Int.{ℤ}
use mathlib.Core.Path.{subst}
use mathlib.Core.Option.{some-injective, none-ne-some}
use ztrade.Execution.Engine.{Engine}
use ztrade.Live.Broker.{LiveBroker}
use ztrade.Prelude.Double.{Double}
use ztrade.Prelude.Table.{Table, string_eq, lookup, insert, lookup-insert}
use ztrade.Execution.OrderState.{
  OrderState, OrderRecord, OrderEvent, ApplyResult, ok, refused, new_order, apply_order_event,
  order_of, nought,
}
use ztrade.Execution.Journal.{
  JournalEntry, open_order, event, reconciled, RecoveredState, recover_result, recover_step,
  recover_from, recover_state,
}
use ztrade.Execution.Reconciler.{contains}
use ztrade.Live.AccountEvents.{AccountEvent, is_streamed}
use ztrade.Live.Pipeline.{
  LivePipeline, VenueView, outcome, handle_account_event, on_streamed_position,
  begin_reconciliation, finish_reconciliation, begin_cold_start, finish_cold_start, opened_gate,
}
use ztrade.Live.Pipeline.Calls.{
  PipelineCall, account, engine_ran, streamed, reconciling, reconciled_with, cold_starting,
  cold_answered, new_pipeline, call_pipeline, run_pipeline,
}

-- What the pipeline writes: no submission and no expiry.
abbrev pub is_written : {F : Type 0} → JournalEntry F → Bool
is_written (open_order at id symbol side qty) = true
is_written (event at id ev) = is_streamed ev
is_written (reconciled at detail) = true

abbrev pub is_unsent : OrderState → Bool
is_unsent OrderState.new = true
is_unsent OrderState.rejected = true
is_unsent _ = false

-- A call whose account event, if it brings one, comes from the streams.
abbrev pub from_stream : {F V S : Type 0} → PipelineCall F V S → Bool
from_stream (account ev) = is_streamed ev.1
from_stream _ = true

module _ {F : Type 0} ⦃d : Double F⦄ where
  -- Never sent, and nothing filled.
  abbrev pub IsUnsent : OrderRecord F → Type 0
  IsUnsent order = (is_unsent order.state ≡ true) × (order.filled_qty ≡ nought)

  -- Of an order that may be there.
  abbrev pub IsForgotten : Option (OrderRecord F) → Type 0
  IsForgotten none = Unit
  IsForgotten (some order) = IsUnsent order

  -- A streamed event leaves such an order such, and no fill is accepted.
  apply-IsUnsent :
      (order : OrderRecord F) (ev : OrderEvent F)
      → is_streamed ev ≡ true
      → IsUnsent order
      → IsUnsent (order_of (apply_order_event order ev))
  unfolding apply_order_event
  apply-IsUnsent order ev h u = ground arith

  recover-no_position :
      (id : String) (order : OrderRecord F) (ev : OrderEvent F) (s : RecoveredState F)
      → IsUnsent order
      → (recover_result id order ev (apply_order_event order ev) s).positions ≡ s.positions
  unfolding apply_order_event recover_result
  recover-no_position id order ev s u = ground arith

  record IsStuck (s : RecoveredState F) : Type 0 where
    no_positions : s.positions ≡ []
    unsent :
        (id : String) (order : OrderRecord F) → lookup id s.orders ≡ some order → IsUnsent order

  insert-IsUnsent :
      (id : String) (o : OrderRecord F) (m : Table String (OrderRecord F))
      → IsUnsent o
      → (j : String) (order : OrderRecord F) → (lookup j m ≡ some order → IsUnsent order)
      → lookup j (insert id o m) ≡ some order
      → IsUnsent order
  insert-IsUnsent id o m u j order before found =
      let found' = sym (lookup-insert id j o m) ∙ found in
      elim (Bool-cases (string_eq.beq id j)) [
        | inl same ↦ subst IsUnsent (some-injective _ _ (rw same at found')) u
        | inr other ↦ before (rw other at found')
      ]

  result-IsUnsent :
      (id : String) (existing : OrderRecord F) (ev : OrderEvent F) (result : ApplyResult F)
      (s : RecoveredState F)
      → IsUnsent (order_of result)
      → (j : String) (order : OrderRecord F) → (lookup j s.orders ≡ some order → IsUnsent order)
      → lookup j (recover_result id existing ev result s).orders ≡ some order
      → IsUnsent order
  unfolding recover_result
  result-IsUnsent id existing ev (refused e o) s u j order before found = before found
  result-IsUnsent id existing ev (ok o moved) s u j order before found =
      insert-IsUnsent id o s.orders u j order before found

  recover_result-IsStuck :
      (id : String) (order : OrderRecord F) (ev : OrderEvent F) (s : RecoveredState F)
      → is_streamed ev ≡ true
      → IsUnsent order
      → IsStuck s
      → IsStuck (recover_result id order ev (apply_order_event order ev) s)
  recover_result-IsStuck id order ev s h u stuck = record {
    no_positions = recover-no_position id order ev s u ∙ stuck.no_positions;
    unsent = λ j found_order.
        result-IsUnsent id order ev (apply_order_event order ev) s (apply-IsUnsent order ev h u) j
          found_order (stuck.unsent j found_order);
  }

  recover_step-IsStuck :
      (entry : JournalEntry F) (s : RecoveredState F)
      → is_written entry ≡ true
      → IsStuck s
      → IsStuck (recover_step entry s)
  unfolding recover_step new_order
  recover_step-IsStuck (reconciled at detail) s h stuck = record {
    no_positions = stuck.no_positions;
    unsent = stuck.unsent;
  }
  recover_step-IsStuck (open_order at id symbol side qty) s h stuck = record {
    no_positions = stuck.no_positions;
    unsent = λ j order.
        insert-IsUnsent id (new_order id symbol side qty) s.orders (refl, refl) j order
          (stuck.unsent j order);
  }
  recover_step-IsStuck (event at id ev) s h stuck = elim (Option-cases (lookup id s.orders)) [
    | inl unknown ↦ rw unknown stuck
    | inr (order, known) ↦
        rw known (recover_result-IsStuck id order ev s h (stuck.unsent id order known) stuck)
  ]

  recover_from-IsStuck :
      (entries : List (JournalEntry F)) (s : RecoveredState F)
      → All (λ entry. is_written entry ≡ true) entries
      → IsStuck s
      → IsStuck (recover_from entries s)
  unfolding recover_from
  recover_from-IsStuck [] s h stuck = stuck
  recover_from-IsStuck (entry ∷ entries) s h stuck =
      recover_from-IsStuck entries (recover_step entry s) h.1
        (recover_step-IsStuck entry s h.0 stuck)

  abbrev Written : List (JournalEntry F) → Type 0
  Written entries = All (λ entry. is_written entry ≡ true) entries

  Written-append :
      (entries : List (JournalEntry F)) (entry : JournalEntry F)
      → Written entries
      → is_written entry ≡ true
      → Written (entries ++ (entry ∷ []))
  Written-append [] entry h w = (w, tt)
  Written-append (x ∷ entries) entry h w = (h.0, Written-append entries entry h.1 w)

  module _ {V S : Type 0} (stamp : ℤ → F) where
    account-Written :
        (ev : AccountEvent F) (p : LivePipeline F V S)
        → is_streamed ev.1 ≡ true
        → Written p.journal
        → Written (handle_account_event stamp ev p).journal
    unfolding handle_account_event
    account-Written ev p h w = elim (Option-cases (lookup ev.0 p.engine.orders)) [
      | inl unknown ↦ simp unknown (Written-append p.journal (event (stamp ev.2) ev.0 ev.1) w h)
      | inr (order, known) ↦ elim (Bool-cases (contains p.journaled_opens ev.0)) [
        | inl old ↦ simp (known, old) (Written-append p.journal (event (stamp ev.2) ev.0 ev.1) w h)
        | inr fresh ↦
            let opened = open_order (stamp ev.2) ev.0 order.symbol order.side order.qty in
            simp (known, fresh)
              (Written-append (p.journal ++ (opened ∷ [])) (event (stamp ev.2) ev.0 ev.1)
                (Written-append p.journal opened w refl) h)
      ]
    ]

    finish-journal :
        (view : VenueView F) (p : LivePipeline F V S)
        → (finish_reconciliation view p).0.journal ≡ p.journal
    unfolding finish_reconciliation
    finish-journal view p = elim (Bool-cases ((outcome view p).clean)) [
      | inl clean ↦ simp clean refl
      | inr drifted ↦ simp drifted refl
    ]

    opened-Written :
        (now : F) (q : LivePipeline F V S) (clean : Bool)
        → Written q.journal
        → Written (opened_gate now (q, clean)).journal
    opened-Written now q true w =
        Written-append q.journal (reconciled now "cold start reconciled") w refl
    opened-Written now q false w = w

    cold-Written :
        (now : F) (view : VenueView F) (p : LivePipeline F V S)
        → Written p.journal
        → Written (finish_cold_start now (some view) p).0.journal
    unfolding finish_cold_start
    cold-Written now view p w =
        opened-Written now (finish_reconciliation view p).0 (finish_reconciliation view p).1
          (rw (finish-journal view p) w)

    call-Written :
        (c : PipelineCall F V S) (p : LivePipeline F V S)
        → from_stream c ≡ true
        → Written p.journal
        → Written (call_pipeline stamp c p).journal
    unfolding call_pipeline begin_reconciliation begin_cold_start on_streamed_position
        finish_cold_start
    call-Written (account ev) p h w = account-Written ev p h w
    call-Written (engine_ran engine) p h w = w
    call-Written (streamed symbol size side) p h w = w
    call-Written reconciling p h w = w
    call-Written (reconciled_with view) p h w = rw (finish-journal view p) w
    call-Written cold_starting p h w = w
    call-Written (cold_answered now none) p h w = w
    call-Written (cold_answered now (some view)) p h w = cold-Written now view p w

    run-Written :
        (calls : List (PipelineCall F V S)) (p : LivePipeline F V S)
        → All (λ c. from_stream c ≡ true) calls
        → Written p.journal
        → Written (run_pipeline stamp calls p).journal
    unfolding run_pipeline
    run-Written [] p h w = w
    run-Written (c ∷ calls) p h w =
        run-Written calls (call_pipeline stamp c p) h.1 (call-Written c p h.0 w)

    -- However long a fresh pipeline has run and whatever its account streams have brought, the journal
    -- that it has written recovers no position, and every order that it recovers is as if it had never
    -- been sent: new or rejected, with nothing filled. The pipeline journals the opening of an order
    -- and what the streams say, but not the submission between, so recovery refuses every
    -- acknowledgement and every fill.
    pub restart_forgets :
        (calls : List (PipelineCall F V S)) (engine : Engine F (LiveBroker F V) S) (id : String)
        → All (λ c. from_stream c ≡ true) calls
        → let recovered = recover_state (run_pipeline stamp calls (new_pipeline engine)).journal in
          (recovered.positions ≡ []) × IsForgotten (lookup id recovered.orders)
    unfolding recover_state
    restart_forgets calls engine id h =
        let journal = (run_pipeline stamp calls (new_pipeline engine)).journal in
        let stuck =
          recover_from-IsStuck journal
            (record { orders = []; positions = []; last_reconciled_at = none })
            (run-Written calls (new_pipeline engine) h tt)
            (record {
              no_positions = refl;
              unsent = λ id order found. absurd (none-ne-some order found);
            }) in
        (
          stuck.no_positions,
          elim (Option-cases (lookup id (recover_state journal).orders)) [
            | inl unknown ↦ rw unknown tt
            | inr (order, known) ↦ rw known (stuck.unsent id order known)
          ],
        )
