-- ===== src/Risk/Breaker/History.antt =====
-- The breaker moves only up, but by a reset, and its history tells how it came where it is.
use ztrade.Prelude.{
  ◌≤◌, ◌≡◌, refl, sym, ◌∙◌, ◌≢◌, Bool, true, false, none, List, [], ◌∷◌, ◌++◌, arith, All,
}
use ztrade.Prelude.Int.{ℤ}
use ztrade.Risk.Breaker.{
  BreakerState, normal, TripReason, BreakerTransition, severity, CircuitBreaker, new_breaker,
  escalate, reset,
}

-- A walk from one state along a history.
abbrev pub Walk : {F : Type 0} → BreakerState → List (BreakerTransition F) → BreakerState → Type 0
Walk s [] t = s ≡ t
Walk s (h ∷ history) t = (h.from ≡ s) × (h.from ≢ h.to) × Walk h.to history t

Walk-append :
    {F : Type 0} (s t : BreakerState) (history : List (BreakerTransition F))
    (h : BreakerTransition F)
    → Walk s history t
    → h.from ≡ t
    → h.from ≢ h.to
    → Walk s (history ++ (h ∷ [])) h.to
Walk-append s t [] h w e n = (e ∙ sym w, n, refl)
Walk-append s t (g ∷ history) h w e n = (w.0, w.1, Walk-append g.to t history h w.2 e n)

pub record IsConsistent {F : Type 0} (b : CircuitBreaker F) : Type 0 where
  pub walked : Walk normal b.history b.current
  pub reason_kept : b.current ≢ normal → b.current_reason ≢ none
  pub no_reason : b.current ≡ normal → b.current_reason ≡ none

-- A call of one of the two methods.
pub data Call (F : Type 0) : Type 0 where
  escalating : BreakerState → TripReason F → ℤ → Call F
  resetting : TripReason F → ℤ → Call F

module _ {F : Type 0} where
  abbrev pub call : Call F → CircuitBreaker F → CircuitBreaker F
  call (escalating to reason at) b = (escalate to reason at b).0
  call (resetting reason at) b = (reset reason at b).0

  unfoldable pub calls_after : List (Call F) → CircuitBreaker F → CircuitBreaker F
  calls_after [] b = b
  calls_after (c ∷ cs) b = calls_after cs (call c b)

  call-IsConsistent : (c : Call F) (b : CircuitBreaker F) → IsConsistent b → IsConsistent (call c b)
  unfolding escalate reset
  call-IsConsistent (escalating to reason at) b h = ground (
    arith,
    Walk-append normal b.current b.history
        (record { from = b.current; to = to; reason = reason; at = at }) h.walked refl,
  )
  call-IsConsistent (resetting reason at) b h = ground (
    arith,
    Walk-append normal b.current b.history
        (record { from = b.current; to = normal; reason = reason; at = at }) h.walked refl,
  )

  calls-IsConsistent :
      (cs : List (Call F)) (b : CircuitBreaker F) → IsConsistent b → IsConsistent (calls_after cs b)
  unfolding calls_after
  calls-IsConsistent [] b h = h
  calls-IsConsistent (c ∷ cs) b h = calls-IsConsistent cs (call c b) (call-IsConsistent c b h)

  -- After any calls the history is an unbroken walk from NORMAL to the current state, each entry a
  -- real change of state that begins where the one before it ended, and a reason is held exactly
  -- while the state is not NORMAL.
  pub history-IsConsistent : (cs : List (Call F)) → IsConsistent (calls_after cs new_breaker)
  unfolding new_breaker
  history-IsConsistent cs =
      calls-IsConsistent cs new_breaker
        (record { walked = refl; reason_kept = λ n. absurd (n refl); no_reason = λ e. refl })

  abbrev pub is_reset : Call F → Bool
  is_reset (resetting reason at) = true
  is_reset _ = false

  escalate-rises :
      (c : Call F) (b : CircuitBreaker F)
      → is_reset c ≡ false
      → severity b.current ≤ severity (call c b).current
  unfolding escalate reset
  escalate-rises c b h = ground arith

  -- Without a reset the severity never falls, whatever is reported and in whatever order: the
  -- breaker does not clear itself.
  pub severity_latched :
      (cs : List (Call F)) (b : CircuitBreaker F)
      → All (λ c. is_reset c ≡ false) cs
      → severity b.current ≤ severity (calls_after cs b).current
  unfolding calls_after
  severity_latched [] b h = omega arith
  severity_latched (c ∷ cs) b h =
      omega (arith, escalate-rises c b h.0, severity_latched cs (call c b) h.1)
