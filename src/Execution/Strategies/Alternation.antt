-- ===== src/Execution/Strategies/Alternation.antt =====
-- A strategy never repeats a side.
use ztrade.Prelude.{
  ℕ, ◌+◌, String, ◌≡◌, ◌≢◌, inl, inr, not, ◌||◌, Option, none, some, List, [], ◌∷◌, ◌++◌, arith,
  Bool-cases,
}
use ztrade.Prelude.Int.{ℤ}
use ztrade.Prelude.Double.{Double}
use ztrade.Prelude.Table.{Table, string_eq}
use ztrade.Core.Intent.{OrderSide}
use ztrade.Execution.Engine.{Intent, order_intent, cancel_intent}
use ztrade.Execution.Strategies.{
  StrategyEvent, kline, other, Canary, Breakout, VwapReversion, flat_canary, flat_breakout,
  flat_vwap, canary_bar, breakout_bar, vwap_bar, intents_of, strategy_event,
}

-- The sides that are ordered, in order.
abbrev pub sides : {F : Type 0} → List (Intent F) → List OrderSide
sides [] = []
sides (order_intent intent ∷ intents) = intent.side ∷ sides intents
sides (cancel_intent symbol target reason ∷ intents) = sides intents

-- No side follows itself, the one before the list included.
abbrev pub Alternates : Option OrderSide → List OrderSide → Type 0
Alternates last [] = Unit
Alternates last (side ∷ rest) = (some side ≢ last) × Alternates (some side) rest

-- A signal is never the side taken last, and becomes it.
abbrev Turns : {S : Type 0} → (S → Option OrderSide) → S → Option OrderSide × S → Type 0
Turns last s (none, next) = last next ≡ last s
Turns last s (some side, next) = (some side ≢ last s) × (last next ≡ some side)

module _ {F : Type 0} ⦃d : Double F⦄ where
  canary_bar-Turns :
      (fast slow : ℕ) (close : F) (s : Canary F)
      → Turns (λ s. s.last_side) s (canary_bar fast slow close s)
  unfolding canary_bar
  canary_bar-Turns fast slow close s = ground arith

  breakout_bar-Turns :
      (lookback : ℕ) (close : F) (s : Breakout F)
      → Turns (λ s. s.held) s (breakout_bar lookback close s)
  unfolding breakout_bar
  breakout_bar-Turns lookback close s = ground arith

  vwap_bar-Turns :
      (window : ℕ) (band close volume : F) (s : VwapReversion F)
      → Turns (λ s. s.faded) s (vwap_bar window band close volume s)
  unfolding vwap_bar
  vwap_bar-Turns window band close volume s = ground arith

-- A strategy on a tape of events, each with the engine's clock and positions then: all its intents.
module _ {F S : Type 0} ⦃d : Double F⦄ (make_key : String → String → ℕ → String)
    (why : OrderSide → String) (id symbol : String) (qty : F)
    (bar : F → F → S → Option OrderSide × S) where
  unfoldable pub tape_intents :
      List (StrategyEvent F × ℤ × Table String F) → ℕ → S → List (Intent F)
  tape_intents [] seq s = []
  tape_intents ((event, now, positions) ∷ tape) seq s =
      let (intents, seq', next) =
        strategy_event make_key why id symbol qty bar event now seq positions s in
      intents ++ tape_intents tape seq' next

  -- One signal, and what follows it.
  signal-Alternates :
      (last : S → Option OrderSide) (traded : String) (seq : ℕ) (s : S) (r : Option OrderSide × S)
      (rest : ℕ → S → List (Intent F))
      → Turns last s r
      → ((seq' : ℕ) (s' : S) → Alternates (last s') (sides (rest seq' s')))
      → let made = intents_of make_key why id traded qty seq r.0 in
        Alternates (last s) (sides (made.0 ++ rest made.1 r.1))
  signal-Alternates last traded seq s (none, next) rest h follow = rw (← h) (follow seq next)
  signal-Alternates last traded seq s (some side, next) rest h follow =
      (h.0, rw (← h.1) (follow (seq + 1) next))

  tape-Alternates :
      (last : S → Option OrderSide)
      → ((close volume : F) (s : S) → Turns last s (bar close volume s))
      → (tape : List (StrategyEvent F × ℤ × Table String F)) (seq : ℕ) (s : S)
      → Alternates (last s) (sides (tape_intents tape seq s))
  unfolding tape_intents strategy_event
  tape-Alternates last turns [] seq s = tt
  tape-Alternates last turns ((other, now, positions) ∷ tape) seq s =
      tape-Alternates last turns tape seq s
  tape-Alternates last turns ((kline traded close volume closed, now, positions) ∷ tape) seq s =
      elim (Bool-cases (not closed || not (string_eq.beq symbol traded))) [
        | inl skipped ↦ rw skipped (tape-Alternates last turns tape seq s)
        | inr seen ↦ rw seen (
            signal-Alternates last traded seq s (bar close volume s) (tape_intents tape)
              (turns close volume s) (λ seq' s'. tape-Alternates last turns tape seq' s'))
      ]

-- No strategy repeats itself: on any tape of events, whatever the sizes of its windows, the orders of
-- the canary, of the breakout and of the VWAP reversion each alternate between buying and selling.
pub strategies-Alternate :
    {F : Type 0} ⦃d : Double F⦄ (make_key : String → String → ℕ → String) (why : OrderSide → String)
    (id symbol : String) (qty band : F) (fast slow lookback window : ℕ)
    (tape : List (StrategyEvent F × ℤ × Table String F))
    → Alternates none (
        sides (
          tape_intents make_key why id symbol qty
            (λ close volume. canary_bar fast slow close)
            tape
            0
            flat_canary))
      × Alternates none (
          sides (
            tape_intents make_key why id symbol qty
              (λ close volume. breakout_bar lookback close)
              tape
              0
              flat_breakout))
      × Alternates none
          (sides (tape_intents make_key why id symbol qty (vwap_bar window band) tape 0 flat_vwap))
strategies-Alternate make_key why id symbol qty band fast slow lookback window tape = (
  tape-Alternates make_key why id symbol qty _ (λ s. s.last_side)
      (λ close volume s. canary_bar-Turns fast slow close s) tape 0 flat_canary,
  tape-Alternates make_key why id symbol qty _ (λ s. s.held)
      (λ close volume s. breakout_bar-Turns lookback close s) tape 0 flat_breakout,
  tape-Alternates make_key why id symbol qty _ (λ s. s.faded)
      (λ close volume s. vwap_bar-Turns window band close volume s) tape 0 flat_vwap,
)
