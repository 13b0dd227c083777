-- ===== src/Server/Breaker/Agrees.antt =====
-- The class and the pure helper of the same file.
use ztrade.Prelude.{
  ◌+◌, ◌*◌, ◌≡◌, refl, ap, ◌∙◌, inl, inr, Bool, true, false, ◌&&◌, Option, none, some, arith, ltb,
  leb, if◌then◌else◌, Bool-cases, Option-cases,
}
use ztrade.Prelude.Double.{Double}
use ztrade.Server.Breaker.{
  BreakerConfig, TripReason, AccountBreaker, Reading, start_of_utc_day, on_record,
  consecutive_losses, day_start_equity, trip, evaluate, should_trip, check_day, loss_pct,
  daily_loss, losing_streak,
}

abbrev pub is_reason : {F : Type 0} → Option (TripReason F) → Bool
is_reason none = false
is_reason (some _) = true

module _ {F : Type 0} ⦃d : Double F⦄ where
  -- Recording the day's equity touches nothing else.
  pub day_start-rest :
      (r : Reading F) (current : F) (b : AccountBreaker F)
      → record (day_start_equity r current b).0 { day_start = b.day_start } ≡ b
  unfolding day_start_equity
  day_start-rest r current b =
      ground (arith, Option-cases (on_record b.day_start (start_of_utc_day r.now)))

  -- What tripping sets.
  pub trip-sets :
      (cfg : BreakerConfig F) (r : Reading F) (reason : TripReason F) (b : AccountBreaker F)
      → ((trip cfg r reason b).tripped ≡ true)
        × ((trip cfg r reason b).trip_reason ≡ some reason)
        × ((trip cfg r reason b).resume_at ≡ (
            if ltb 0 cfg.cooldown_minutes
            then some (r.now + cfg.cooldown_minutes * 60000)
            else none))
  unfolding trip
  trip-sets cfg r reason b =
      let same = day_start-rest r (d.literal 0 0) _ in
      (
        ap (λ (x : AccountBreaker F). x.tripped) same,
        ap (λ (x : AccountBreaker F). x.trip_reason) same,
        ap (λ (x : AccountBreaker F). x.resume_at) same,
      )

  check_day-agrees :
      (cfg : BreakerConfig F) (r : Reading F) (equity : F) (b : AccountBreaker F)
      → cfg.enabled ≡ true
      → (ltb 0 cfg.max_consecutive_losses
          && leb cfg.max_consecutive_losses (consecutive_losses r.results))
        ≡ false
      → b.tripped ≡ false
      → b.trip_reason ≡ none
      → let verdict = should_trip cfg (consecutive_losses r.results) r.pnl_today equity in
        let (after, halted) = check_day cfg r (b, equity) in
        (halted ≡ is_reason verdict) × (after.tripped ≡ halted) × (after.trip_reason ≡ verdict)
  unfolding should_trip
  check_day-agrees cfg r equity b on few quiet unnamed =
      let loss = loss_pct r.pnl_today equity in
      let (is_tripped, is_named, _) = trip-sets cfg r (daily_loss loss cfg.max_daily_loss_pct) b in
      elim (Bool-cases (
        d.lt (d.literal 0 0) cfg.max_daily_loss_pct
        && (d.lt (d.literal 0 0) equity && d.lt r.pnl_today (d.literal 0 0)))) [
          | inr no_loss ↦ simp (on, few, no_loss) (refl, quiet, unnamed)
          | inl is_loss ↦ elim (Bool-cases (d.le cfg.max_daily_loss_pct loss)) [
            | inl above ↦ simp (on, few, is_loss, above) (refl, is_tripped, is_named)
            | inr below ↦ simp (on, few, is_loss, below) (refl, quiet, unnamed)
          ]
        ]

  abbrev pub has_streak : BreakerConfig F → Reading F → Bool
  has_streak cfg r =
      ltb 0 cfg.max_consecutive_losses
      && leb cfg.max_consecutive_losses (consecutive_losses r.results)

  -- The three ways of a call on a breaker that has not tripped.
  pub evaluate-off :
      (cfg : BreakerConfig F) (r : Reading F) (current : F) (b : AccountBreaker F)
      → b.tripped ≡ false
      → cfg.enabled ≡ false
      → evaluate cfg r current b ≡ (b, false)
  unfolding evaluate
  evaluate-off cfg r current b quiet off = simp (quiet, off) refl

  pub evaluate-streak :
      (cfg : BreakerConfig F) (r : Reading F) (current : F) (b : AccountBreaker F)
      → b.tripped ≡ false
      → cfg.enabled ≡ true
      → has_streak cfg r ≡ true
      → evaluate cfg r current b
        ≡ (trip cfg r (losing_streak (consecutive_losses r.results)) b, true)
  unfolding evaluate
  evaluate-streak cfg r current b quiet on streak = simp (quiet, on, streak) refl

  pub evaluate-day :
      (cfg : BreakerConfig F) (r : Reading F) (current : F) (b : AccountBreaker F)
      → b.tripped ≡ false
      → cfg.enabled ≡ true
      → has_streak cfg r ≡ false
      → evaluate cfg r current b ≡ check_day cfg r (day_start_equity r current b)
  unfolding evaluate
  evaluate-day cfg r current b quiet on few = simp (quiet, on, few) refl

  -- A breaker that has not tripped halts trading exactly if `shouldTrip` gives a reason for the same
  -- losses, result of the day and equity at its start; it is then tripped for that reason, and
  -- otherwise it stays untripped with no reason.
  pub evaluate-should_trip :
      (cfg : BreakerConfig F) (r : Reading F) (current : F) (b : AccountBreaker F)
      → b.tripped ≡ false
      → b.trip_reason ≡ none
      → let verdict =
          should_trip cfg
            (consecutive_losses r.results)
            r.pnl_today
            (day_start_equity r current b).1 in
        let (after, halted) = evaluate cfg r current b in
        (halted ≡ is_reason verdict) × (after.tripped ≡ halted) × (after.trip_reason ≡ verdict)
  unfolding should_trip
  evaluate-should_trip cfg r current b quiet unnamed =
      let losses = consecutive_losses r.results in
      let same = day_start-rest r current b in
      elim (Bool-cases cfg.enabled) [
        | inr off ↦ rw (evaluate-off cfg r current b quiet off) (simp off (refl, quiet, unnamed))
        | inl on ↦ elim (Bool-cases (has_streak cfg r)) [
          | inl streak ↦
              let (is_tripped, is_named, _) = trip-sets cfg r (losing_streak losses) b in
              rw (evaluate-streak cfg r current b quiet on streak)
                (simp (on, streak) (refl, is_tripped, is_named))
          | inr few ↦ rw (evaluate-day cfg r current b quiet on few) (
              check_day-agrees cfg r (day_start_equity r current b).1
                (day_start_equity r current b).0 on few
                (ap (λ (x : AccountBreaker F). x.tripped) same ∙ quiet)
                (ap (λ (x : AccountBreaker F). x.trip_reason) same ∙ unnamed))
        ]
      ]
