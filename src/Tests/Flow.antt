-- ===== src/Tests/Flow.antt =====
-- The bus, the ring, the simulated venue, the engine, the scheduler and the strategies, on small data.
use ztrade.Prelude.{
  ℕ, String, ◌≡◌, refl, ◌↔◌, true, false, Option, none, some, List, [], ◌∷◌, arith, codes,
}
use ztrade.Prelude.Int.{ℤ, pos, ◌+ℤ◌}
use ztrade.Prelude.Table.{Table, string_eq, lookup}
use ztrade.Prelude.Double.{Units, whole_units}
use ztrade.Core.Intent.{OrderIntent, OrderSide, ExecutionStyle}
use ztrade.Core.Book.{BookSides}
use ztrade.Core.Bus.{subject_matches, split_tokens}
use ztrade.Core.Bus.Subjects.{Matches, subject_matches-iff-Matches}
use ztrade.Features.RingBuffer.{RingBuffer, new_ring}
use ztrade.Features.RingBuffer.Window.{push_all, IsWindow, push_all-IsWindow}
use ztrade.Features.Rolling.{Ema, Atr}
use ztrade.Execution.Journal.{recover_state}
use ztrade.Execution.SimBroker.{
  SimConfig, SimBroker, SubmitAck, taken, not_taken, new_sim, submit, cancel_order, drain_events,
}
use ztrade.Execution.SimBroker.Fills.{fill_times, FillsOnce}
use ztrade.Execution.SimBroker.Runs.{
  SimCall, booking, submitting, stepping, draining, run_sim, new_run, emitted, run_sim-FillsOnce,
}
use ztrade.Execution.Engine.{Broker, BrokerAck, Engine, new_engine}
use ztrade.Execution.Engine.Mirrored.{Agrees}
use ztrade.Execution.Engine.Replayed.{handle_all, all_entries, recovers_engine}
use ztrade.Execution.Scheduler.{
  RateScheduler, new_scheduler, observe_rejection, take_token, can_send,
}
use ztrade.Execution.Scheduler.Backoff.{succeeded, rejected, calls_scheduler, shut_in_backoff}
use ztrade.Execution.Strategies.{
  StrategyEvent, kline, Canary, flat_canary, flat_breakout, flat_vwap, canary_bar, breakout_bar,
  vwap_bar, strategy_event,
}
use ztrade.Execution.Strategies.Alternation.{Alternates, sides, tape_intents, strategies-Alternate}

abbrev units : ℕ → Units
units n = some (pos n)

subject_matches-iff-Matches_example :
    (subject_matches (codes "md.*.book") (codes "md.BTCUSDT.book") ≡ true)
    ↔ Matches (split_tokens (codes "md.*.book")) (split_tokens (codes "md.BTCUSDT.book"))
subject_matches-iff-Matches_example =
    subject_matches-iff-Matches (codes "md.*.book") (codes "md.BTCUSDT.book")

abbrev ring : RingBuffer ℕ
ring = record { capacity = 2; slots = 0 ∷ 0 ∷ []; head = 0; count = 0 }

push_all-IsWindow_example : IsWindow 2 (7 ∷ 8 ∷ 9 ∷ []) (push_all (7 ∷ 8 ∷ 9 ∷ []) ring)
unfolding new_ring
push_all-IsWindow_example = push_all-IsWindow 2 0 (7 ∷ 8 ∷ 9 ∷ []) ring refl

abbrev empty_ring : RingBuffer Units
empty_ring = record { capacity = 2; slots = units 0 ∷ units 0 ∷ []; head = 0; count = 0 }

abbrev ema : Ema Units
ema = record {
  k = whole_units.div (units 2) (units 3);
  seed = record { buffer = empty_ring; total = units 0 };
  current = none;
}

abbrev atr : Atr Units
atr = record {
  period = 2;
  prev_close = none;
  atr_seed = record { buffer = empty_ring; total = units 0 };
  atr = none;
}

abbrev bars : List (Units × Units × Units)
bars = (units 9, units 5, units 7) ∷ []

abbrev config : SimConfig Units
config = record {
  latency_ms = pos 50;
  maker_fee_rate = units 0;
  taker_fee_rate = units 1;
  queue_ahead_factor = units 1;
  sim_slippage_bps = units 500;
}

abbrev book : BookSides Units
book = record {
  bids = record { price = units 99; size = units 5 } ∷ [];
  asks = record { price = units 101; size = units 5 } ∷ [];
}

abbrev intent : OrderIntent Units
intent = record {
  key = "k";
  symbol = "BTCUSDT";
  side = OrderSide.buy;
  qty = units 2;
  style = ExecutionStyle.market;
  reduce_only = false;
  max_slippage_bps = none;
  stop_loss = none;
  take_profit = none;
  rationale = "r";
}

abbrev calls : List (SimCall Units)
calls =
    booking "BTCUSDT" book
    ∷ submitting "a" intent (pos 100)
    ∷ stepping (pos 120) "BTCUSDT" book (units 0) none
    ∷ draining
    ∷ stepping (pos 160) "BTCUSDT" book (units 0) none
    ∷ submitting "a" intent (pos 200)
    ∷ stepping (pos 300) "BTCUSDT" book (units 0) none
    ∷ []

run_sim-FillsOnce_example :
    FillsOnce
      (pos 50)
      (lookup "a" (run_sim config calls new_run).accepted)
      (fill_times "a" (emitted (run_sim config calls new_run)))
run_sim-FillsOnce_example = run_sim-FillsOnce config calls "a"

-- The simulated venue as the engine's broker.
abbrev ack_of : SubmitAck Units → BrokerAck
ack_of (taken id) = record { accepted = true; reason = none }
ack_of (not_taken refusal) = record { accepted = false; reason = some "refused" }

abbrev broker : Broker Units (SimBroker Units)
broker = record {
  submit_order = λ id intent at s. let (s', ack) = submit config id intent at s in (s', ack_of ack);
  cancel_order = λ id at s.
      let (s', accepted) = cancel_order config id at s in
      (s', record { accepted = accepted; reason = none });
  drain = drain_events;
}

abbrev no_veto :
    OrderIntent Units → Table String Units → Canary Units → Canary Units × Option String
no_veto order positions state = (state, none)

abbrev key : String → String → ℕ → String
key id symbol seq = symbol

abbrev why : OrderSide → String
why side = "cross"

abbrev canary :
    StrategyEvent Units
    → ℤ
    → ℕ
    → Table String Units
    → Canary Units
    → List (ztrade.Execution.Engine.Intent Units) × ℕ × Canary Units
canary =
    strategy_event key why "canary@1" "BTCUSDT" (units 1) (λ close volume. canary_bar 1 2 close)

abbrev tape : List (StrategyEvent Units × ℤ)
tape =
    (kline "BTCUSDT" (units 10) (units 1) true, pos 10)
    ∷ (kline "BTCUSDT" (units 14) (units 1) true, pos 20)
    ∷ []

abbrev stamp : ℤ → Units
stamp at = some at

recovers_engine_example :
    Agrees (handle_all broker no_veto canary (λ k. k) stamp tape (new_engine new_sim flat_canary)) (
      recover_state
        (all_entries broker no_veto canary (λ k. k) stamp tape (new_engine new_sim flat_canary)))
recovers_engine_example =
    recovers_engine broker no_veto canary (λ k. k) stamp tape new_sim flat_canary

abbrev scheduler : RateScheduler Units
unfolding new_scheduler
scheduler =
    new_scheduler (pos 0)
      (("order", record { refill_per_second = units 10; capacity = units 20 }) ∷ [])

abbrev limited : RateScheduler Units
limited = record scheduler { limit_hits = 1; backoff_until = ("order", pos 1500) ∷ [] }

abbrev no_header : Option String → Units
no_header text = none

shut_in_backoff_example :
    let later =
      calls_scheduler no_header (succeeded ∷ rejected "market" 10018 (pos 1100) ∷ []) limited in
    (take_token "order" (pos 1400) later ≡ some (false, later))
    × (can_send "order" (pos 1400) later ≡ some (false, later))
unfolding observe_rejection new_scheduler ◌+ℤ◌
shut_in_backoff_example =
    shut_in_backoff no_header "order" 10006 (pos 1000) (pos 1400)
      (succeeded ∷ rejected "market" 10018 (pos 1100) ∷ []) scheduler limited refl
      (tt, ((λ e. ground (arith, e, string_eq.beq_iff "market" "order")), tt)) (omega arith)

abbrev seen : List (StrategyEvent Units × ℤ × Table String Units)
seen =
    (kline "BTCUSDT" (units 10) (units 1) true, pos 10, [])
    ∷ (kline "BTCUSDT" (units 14) (units 1) true, pos 20, [])
    ∷ []

strategies-Alternate_example :
    Alternates none (
      sides (
        tape_intents key why "s" "BTCUSDT"
          (units 1)
          (λ close volume. canary_bar 1 2 close)
          seen
          0
          flat_canary))
    × Alternates none (
        sides (
          tape_intents key why "s" "BTCUSDT"
            (units 1)
            (λ close volume. breakout_bar 1 close)
            seen
            0
            flat_breakout))
    × Alternates none (
        sides
          (tape_intents key why "s" "BTCUSDT" (units 1) (vwap_bar 2 (units 1)) seen 0 flat_vwap))
strategies-Alternate_example =
    strategies-Alternate key why "s" "BTCUSDT" (units 1) (units 1) 1 2 1 2 seen
