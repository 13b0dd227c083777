-- ===== src/Live/Pipeline/Calls.antt =====
-- The calls of the live pipeline, in any order.
use ztrade.Prelude.{String, Option, List, [], ◌∷◌}
use ztrade.Prelude.Int.{ℤ}
use ztrade.Prelude.Double.{Double}
use ztrade.Execution.Journal.{new_gate}
use ztrade.Execution.Engine.{Engine}
use ztrade.Live.AccountEvents.{AccountEvent}
use ztrade.Live.Broker.{LiveBroker}
use ztrade.Live.Pipeline.{
  LivePipeline, VenueView, handle_account_event, on_streamed_position, begin_reconciliation,
  finish_reconciliation, begin_cold_start, finish_cold_start,
}

-- Between two calls of the pipeline its engine may have run, to any state.
pub data PipelineCall (F V S : Type 0) : Type 0 where
  account : AccountEvent F → PipelineCall F V S
  engine_ran : Engine F (LiveBroker F V) S → PipelineCall F V S
  streamed : String → F → String → PipelineCall F V S
  reconciling : PipelineCall F V S
  reconciled_with : VenueView F → PipelineCall F V S
  cold_starting : PipelineCall F V S
  cold_answered : F → Option (VenueView F) → PipelineCall F V S

abbrev pub new_pipeline : {F V S : Type 0} → Engine F (LiveBroker F V) S → LivePipeline F V S
new_pipeline engine = record {
  engine = engine;
  gate = new_gate;
  streamed_positions = [];
  journaled_opens = [];
  journal = [];
  stats = record { reconciliations = 0; drifts_found = 0; corrections = 0; journaled = 0 };
}

module _ {F V S : Type 0} ⦃d : Double F⦄ (stamp : ℤ → F) where
  unfoldable pub call_pipeline : PipelineCall F V S → LivePipeline F V S → LivePipeline F V S
  call_pipeline (account ev) p = handle_account_event stamp ev p
  call_pipeline (engine_ran engine) p = record p { engine = engine }
  call_pipeline (streamed symbol size side) p = on_streamed_position symbol size side p
  call_pipeline reconciling p = begin_reconciliation p
  call_pipeline (reconciled_with view) p = (finish_reconciliation view p).0
  call_pipeline cold_starting p = begin_cold_start p
  call_pipeline (cold_answered now view) p = (finish_cold_start now view p).0

  unfoldable pub run_pipeline : List (PipelineCall F V S) → LivePipeline F V S → LivePipeline F V S
  run_pipeline [] p = p
  run_pipeline (c ∷ calls) p = run_pipeline calls (call_pipeline c p)
