-- ===== src/Server/Breaker/Halted.antt =====
-- How long the breaker halts trading.
use ztrade.Prelude.{
  ◌+◌, ◌*◌, ◌<◌, ◌≡◌, refl, sym, ap, inl, inr, Bool, true, false, ◌&&◌, none, some, List, [], ◌∷◌,
  arith, ltb, if◌then◌else◌, Bool-cases, All,
}
use mathlib.Core.Bool.{true≢false}
use ztrade.Prelude.Double.{Double}
use ztrade.Server.Breaker.{
  BreakerConfig, AccountBreaker, Reading, cooled, consecutive_losses, check_day, day_start_equity,
  reset, evaluate, losing_streak, daily_loss, loss_pct,
}
use ztrade.Server.Breaker.Agrees.{
  trip-sets, evaluate-off, evaluate-day, evaluate-streak, has_streak, day_start-rest,
}

-- One call of `evaluate`.
pub record BreakerCall (F : Type 0) : Type 0 where
  pub config : BreakerConfig F
  pub reading : Reading F
  pub equity_now : F

module _ {F : Type 0} ⦃d : Double F⦄ where
  -- Tripped at the time of a reading, with the cooldown of a configuration.
  abbrev HasTripped : BreakerConfig F → Reading F → AccountBreaker F → Type 0
  HasTripped cfg r b =
      (b.tripped ≡ true)
      × (b.resume_at ≡ (
          if ltb 0 cfg.cooldown_minutes then some (r.now + cfg.cooldown_minutes * 60000) else none))

  -- The answers of calls one after another.
  abbrev pub answers : List (BreakerCall F) → AccountBreaker F → List Bool
  answers [] b = []
  answers (c ∷ calls) b =
      let (after, halted) = evaluate c.config c.reading c.equity_now b in
      halted ∷ answers calls after

  evaluate-tripped :
      (cfg : BreakerConfig F) (r : Reading F) (current : F) (b : AccountBreaker F)
      → cfg.enabled ≡ true
      → b.tripped ≡ true
      → cooled b.resume_at r.now ≡ false
      → evaluate cfg r current b ≡ (b, true)
  unfolding evaluate
  evaluate-tripped cfg r current b on is_tripped hot = simp (on, is_tripped, hot) refl

  check_day-trips :
      (cfg : BreakerConfig F) (r : Reading F) (equity : F) (b : AccountBreaker F)
      → (check_day cfg r (b, equity)).1 ≡ true
      → HasTripped cfg r (check_day cfg r (b, equity)).0
  check_day-trips cfg r equity b halted =
      let loss = loss_pct r.pnl_today equity in
      let (is_tripped, _, resumes) = trip-sets cfg r (daily_loss loss cfg.max_daily_loss_pct) b in
      elim (Bool-cases (
        d.lt (d.literal 0 0) cfg.max_daily_loss_pct
        && (d.lt (d.literal 0 0) equity && d.lt r.pnl_today (d.literal 0 0)))) [
          | inr no_loss ↦ absurd (true≢false (sym (simp no_loss at halted)))
          | inl is_loss ↦ elim (Bool-cases (d.le cfg.max_daily_loss_pct loss)) [
            | inl above ↦ simp (is_loss, above) (is_tripped, resumes)
            | inr below ↦ absurd (true≢false (sym (simp (is_loss, below) at halted)))
          ]
        ]

  -- A call that finds the breaker quiet and halts has tripped it.
  evaluate-trips :
      (cfg : BreakerConfig F) (r : Reading F) (current : F) (b : AccountBreaker F)
      → b.tripped ≡ false
      → (evaluate cfg r current b).1 ≡ true
      → HasTripped cfg r (evaluate cfg r current b).0
  evaluate-trips cfg r current b quiet halted = elim (Bool-cases cfg.enabled) [
    | inr off ↦ absurd (true≢false (sym (rw (evaluate-off cfg r current b quiet off) at halted)))
    | inl on ↦ elim (Bool-cases (has_streak cfg r)) [
      | inl streak ↦
          let (is_tripped, _, resumes) =
            trip-sets cfg r (losing_streak (consecutive_losses r.results)) b in
          rw (evaluate-streak cfg r current b quiet on streak) (is_tripped, resumes)
      | inr few ↦
          let day = evaluate-day cfg r current b quiet on few in
          rw day (
            check_day-trips cfg r (day_start_equity r current b).1 (day_start_equity r current b).0
              (rw day at halted))
    ]
  ]

  reset-quiet : (r : Reading F) (b : AccountBreaker F) → (reset r b).tripped ≡ false
  unfolding reset
  reset-quiet r b = elim (Bool-cases b.tripped) [
    | inr quiet ↦ simp quiet refl
    | inl is_tripped ↦
        simp is_tripped
          (ap (λ (x : AccountBreaker F). x.tripped) (day_start-rest r (d.literal 0 0) _))
  ]

  evaluate-cooled :
      (cfg : BreakerConfig F) (r : Reading F) (current : F) (b : AccountBreaker F)
      → cfg.enabled ≡ true
      → has_streak cfg r ≡ true
      → b.tripped ≡ true
      → cooled b.resume_at r.now ≡ true
      → (evaluate cfg r current b).1 ≡ true
  unfolding evaluate
  evaluate-cooled cfg r current b on streak is_tripped cold =
      simp (on, is_tripped, cold, reset-quiet r b, streak) refl

  evaluate-halts :
      (cfg : BreakerConfig F) (r : Reading F) (current : F) (b : AccountBreaker F)
      → cfg.enabled ≡ true
      → has_streak cfg r ≡ true
      → (evaluate cfg r current b).1 ≡ true
  evaluate-halts cfg r current b on streak = elim (Bool-cases b.tripped) [
    | inr quiet ↦ rw (evaluate-streak cfg r current b quiet on streak) refl
    | inl is_tripped ↦ elim (Bool-cases (cooled b.resume_at r.now)) [
      | inl cold ↦ evaluate-cooled cfg r current b on streak is_tripped cold
      | inr hot ↦ rw (evaluate-tripped cfg r current b on is_tripped hot) refl
    ]
  ]

  -- While an enabled breaker sees a streak of the length that trips it, it halts trading, whatever its
  -- state: also when its cooldown has just elapsed, or right after a reset.
  pub streak_halts :
      (calls : List (BreakerCall F)) (b : AccountBreaker F)
      → All (λ c. (c.config.enabled ≡ true) × (has_streak c.config c.reading ≡ true)) calls
      → All (λ halted. halted ≡ true) (answers calls b)
  streak_halts [] b h = tt
  streak_halts (c ∷ calls) b h =
      (evaluate-halts c.config c.reading c.equity_now b h.0.0 h.0.1, streak_halts calls _ h.1)

  -- A call that the cooldown reaches.
  abbrev pub IsDuring : BreakerConfig F → Reading F → BreakerCall F → Type 0
  IsDuring cfg r c =
      (c.config.enabled ≡ true)
      × (0 < cfg.cooldown_minutes → c.reading.now < r.now + cfg.cooldown_minutes * 60000)

  cooled-HasTripped :
      (cfg : BreakerConfig F) (r : Reading F) (b : AccountBreaker F) (c : BreakerCall F)
      → HasTripped cfg r b
      → IsDuring cfg r c
      → cooled b.resume_at c.reading.now ≡ false
  cooled-HasTripped cfg r b c h during = ground (arith, h.1, during.1)

  stays_halted :
      (cfg : BreakerConfig F) (r : Reading F) (b : AccountBreaker F)
      → HasTripped cfg r b
      → (calls : List (BreakerCall F)) → All (IsDuring cfg r) calls
      → All (λ halted. halted ≡ true) (answers calls b)
  stays_halted cfg r b h [] during = tt
  stays_halted cfg r b h (c ∷ calls) during =
      rw
        (evaluate-tripped c.config c.reading c.equity_now b during.0.0 h.0
          (cooled-HasTripped cfg r b c h during.0))
        (refl, stays_halted cfg r b h calls during.1)

  -- When an evaluation trips a quiet breaker, every later evaluation with no manual reset since halts
  -- trading too, whatever is lost or won, and whatever limits are set meanwhile, as long as the
  -- breaker is enabled and, where the cooldown is positive, the cooldown has not elapsed.
  pub halted_in_cooldown :
      (cfg : BreakerConfig F) (r : Reading F) (current : F) (b : AccountBreaker F)
      → b.tripped ≡ false
      → (evaluate cfg r current b).1 ≡ true
      → (calls : List (BreakerCall F)) → All (IsDuring cfg r) calls
      → All (λ halted. halted ≡ true) (answers calls (evaluate cfg r current b).0)
  halted_in_cooldown cfg r current b quiet halted calls during =
      stays_halted cfg r (evaluate cfg r current b).0 (evaluate-trips cfg r current b quiet halted)
        calls during
