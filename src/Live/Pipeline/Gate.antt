-- ===== src/Live/Pipeline/Gate.antt =====
-- When the gate of the live pipeline is open.
use ztrade.Prelude.{
  ◌≡◌, refl, ap, ◌∙◌, inl, inr, Bool, true, false, none, some, List, [], ◌∷◌, arith, Bool-cases,
  Option-cases, All,
}
use ztrade.Prelude.Int.{ℤ}
use ztrade.Prelude.Double.{Double}
use ztrade.Prelude.Table.{string_eq, lookup}
use ztrade.Execution.Journal.{can_trade}
use ztrade.Execution.Reconciler.{contains}
use ztrade.Live.AccountEvents.{AccountEvent}
use ztrade.Live.Pipeline.{
  LivePipeline, VenueView, outcome, handle_account_event, on_streamed_position,
  begin_reconciliation, finish_reconciliation, begin_cold_start, finish_cold_start,
}
use ztrade.Live.Pipeline.Calls.{
  PipelineCall, account, engine_ran, streamed, reconciling, reconciled_with, cold_starting,
  cold_answered, call_pipeline, run_pipeline,
}

-- Only the end of a cold start for which the venue has answered can open the gate.
abbrev pub may_open : {F V S : Type 0} → PipelineCall F V S → Bool
may_open (cold_answered now (some view)) = true
may_open _ = false

module _ {F V S : Type 0} ⦃d : Double F⦄ (stamp : ℤ → F) where
  account-gate :
      (ev : AccountEvent F) (p : LivePipeline F V S)
      → (handle_account_event stamp ev p).gate ≡ p.gate
  unfolding handle_account_event
  account-gate ev p = elim (Option-cases (lookup ev.0 p.engine.orders)) [
    | inl unknown ↦ simp unknown refl
    | inr (order, known) ↦ elim (Bool-cases (contains p.journaled_opens ev.0)) [
      | inl old ↦ simp (known, old) refl
      | inr fresh ↦ simp (known, fresh) refl
    ]
  ]

  finish-gate :
      (view : VenueView F) (p : LivePipeline F V S) → (finish_reconciliation view p).0.gate ≡ p.gate
  unfolding finish_reconciliation
  finish-gate view p = elim (Bool-cases ((outcome view p).clean)) [
    | inl clean ↦ simp clean refl
    | inr drifted ↦ simp drifted refl
  ]

  call-shut :
      (c : PipelineCall F V S) (p : LivePipeline F V S)
      → may_open c ≡ false
      → can_trade p.gate ≡ false
      → can_trade (call_pipeline stamp c p).gate ≡ false
  unfolding call_pipeline begin_reconciliation begin_cold_start on_streamed_position
      finish_cold_start
  call-shut (account ev) p no_key shut = ap can_trade (account-gate ev p) ∙ shut
  call-shut (engine_ran engine) p no_key shut = shut
  call-shut (streamed symbol size side) p no_key shut = shut
  call-shut reconciling p no_key shut = shut
  call-shut (reconciled_with view) p no_key shut = ap can_trade (finish-gate view p) ∙ shut
  call-shut cold_starting p no_key shut = refl
  call-shut (cold_answered now none) p no_key shut = shut
  call-shut (cold_answered now (some view)) p no_key shut = absurd (ground arith)

  run-shut :
      (calls : List (PipelineCall F V S)) (p : LivePipeline F V S)
      → All (λ c. may_open c ≡ false) calls
      → can_trade p.gate ≡ false
      → can_trade (run_pipeline stamp calls p).gate ≡ false
  unfolding run_pipeline
  run-shut [] p h shut = shut
  run-shut (c ∷ calls) p h shut =
      run-shut calls (call_pipeline stamp c p) h.1 (call-shut c p h.0 shut)

  -- A cold start fails closed: once it has begun, the gate is shut and stays shut through any calls,
  -- the end of a cold start whose requests threw included, until one ends for which the venue has
  -- answered; and that end opens it.
  pub cold_start_shuts :
      (calls : List (PipelineCall F V S)) (p : LivePipeline F V S) (now : F) (view : VenueView F)
      → All (λ c. may_open c ≡ false) calls
      → let waiting = run_pipeline stamp calls (begin_cold_start p) in
        (can_trade waiting.gate ≡ false)
        × (can_trade (finish_cold_start now (some view) waiting).0.gate ≡ true)
  unfolding begin_cold_start finish_cold_start begin_reconciliation
  cold_start_shuts calls p now view h = (run-shut calls (begin_cold_start p) h refl, refl)
