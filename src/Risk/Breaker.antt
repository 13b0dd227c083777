-- ===== src/Risk/Breaker.antt =====
-- packages/risk/src/breaker.ts: NORMAL, DEGRADED, HALT. Times are whole milliseconds. The listener
-- `onTransition` is called with each transition as it is added to the history, and has no way back
-- into the breaker: the history stands for its calls.
pub mod History
use ztrade.Prelude.{
  ℕ, String, Bool, true, false, not, Option, none, some, List, [], ◌∷◌, ◌++◌, leb, if◌then◌else◌,
}
use ztrade.Prelude.Int.{ℤ}

pub data BreakerState : Type 0 where
  normal degraded halt : BreakerState

-- What stands in the text of a reason.
pub data TripReason (F : Type 0) : Type 0 where
  daily_loss : (loss_pct limit : F) → TripReason F
  drawdown : (fraction limit : F) → TripReason F
  stated : String → TripReason F

pub record BreakerTransition (F : Type 0) : Type 0 where
  pub from : BreakerState
  pub to : BreakerState
  pub reason : TripReason F
  pub at : ℤ

abbrev pub is_normal : BreakerState → Bool
is_normal normal = true
is_normal _ = false

abbrev pub blocks_new_risk : BreakerState → Bool
blocks_new_risk state = not (is_normal state)

abbrev pub requires_flatten : BreakerState → Bool
requires_flatten halt = true
requires_flatten _ = false

abbrev pub severity : BreakerState → ℕ
severity normal = 0
severity degraded = 1
severity halt = 2

pub record CircuitBreaker (F : Type 0) : Type 0 where
  pub current : BreakerState
  pub current_reason : Option (TripReason F)
  pub history : List (BreakerTransition F)

module _ {F : Type 0} where
  unfoldable pub new_breaker : CircuitBreaker F
  new_breaker = record { current = normal; current_reason = none; history = [] }

  apply : BreakerState → TripReason F → ℤ → CircuitBreaker F → CircuitBreaker F × Bool
  apply to reason at b = (
    record {
      current = to;
      current_reason = if is_normal to then none else some reason;
      history = b.history ++ (record { from = b.current; to = to; reason = reason; at = at } ∷ []);
    },
    true,
  )

  unfoldable pub escalate :
      BreakerState → TripReason F → ℤ → CircuitBreaker F → CircuitBreaker F × Bool
  unfolding apply
  escalate to reason at b =
      if leb (severity to) (severity b.current) then (b, false) else apply to reason at b

  unfoldable pub reset : TripReason F → ℤ → CircuitBreaker F → CircuitBreaker F × Bool
  unfolding apply
  reset reason at b = if is_normal b.current then (b, false) else apply normal reason at b
