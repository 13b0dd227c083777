-- ===== src/Tests/Breakers.antt =====
-- The server's breaker, on small data.
use ztrade.Prelude.{ℕ, ◌≡◌, refl, true, false, none, some, [], ◌∷◌, arith, All}
use ztrade.Prelude.Int.{pos, negsuc, ◌*ℤ◌}
use ztrade.Prelude.Double.{Units, whole_units}
use ztrade.Server.Breaker.{
  BreakerConfig, AccountBreaker, Reading, day_start_equity, evaluate, should_trip,
}
use ztrade.Server.Breaker.Agrees.{is_reason, evaluate-should_trip}
use ztrade.Server.Breaker.Halted.{BreakerCall, answers, streak_halts, halted_in_cooldown}

abbrev config : BreakerConfig Units
config = record {
  enabled = true;
  max_daily_loss_pct = some (pos 5);
  max_consecutive_losses = 2;
  cooldown_minutes = 1;
  flatten_on_trip = false;
}

abbrev quiet : AccountBreaker Units
quiet = record {
  tripped = false;
  trip_reason = none;
  tripped_at = none;
  resume_at = none;
  day_start = none;
}

-- Two losses in a row, a minute after midnight.
abbrev losing : Reading Units
losing = record {
  now = 60000;
  results = some (negsuc 3) ∷ some (negsuc 1) ∷ some (pos 7) ∷ [];
  pnl_today = some (pos 1);
  latest_equity = none;
}

-- One loss of six in a day that began with three.
abbrev bad_day : Reading Units
bad_day = record {
  now = 60000;
  results = some (negsuc 5) ∷ [];
  pnl_today = some (negsuc 5);
  latest_equity = none;
}

evaluate-should_trip_example :
    let verdict =
      should_trip config 1 (some (negsuc 5)) (day_start_equity bad_day (some (pos 3)) quiet).1 in
    let (after, halted) = evaluate config bad_day (some (pos 3)) quiet in
    (halted ≡ is_reason verdict) × (after.tripped ≡ halted) × (after.trip_reason ≡ verdict)
evaluate-should_trip_example = evaluate-should_trip config bad_day (some (pos 3)) quiet refl refl

-- The breaker trips at both.
losing_trips : (evaluate config losing (some (pos 100)) quiet).1 ≡ true
unfolding evaluate
losing_trips = refl

bad_day_trips : (evaluate config bad_day (some (pos 3)) quiet).1 ≡ true
unfolding evaluate day_start_equity ◌*ℤ◌
bad_day_trips = refl

abbrev next_call : ℕ → BreakerCall Units
next_call now = record {
  config = config;
  reading = record losing { now = now };
  equity_now = some (pos 100);
}

-- The second call is at the end of the cooldown.
streak_halts_example :
    All
      (λ halted. halted ≡ true)
      (answers (next_call 60000 ∷ next_call 120000 ∷ next_call 120001 ∷ []) quiet)
streak_halts_example =
    streak_halts (next_call 60000 ∷ next_call 120000 ∷ next_call 120001 ∷ []) quiet
      ((refl, refl), ((refl, refl), ((refl, refl), tt)))

abbrev later_call : ℕ → BreakerCall Units
later_call now = record {
  config = config;
  reading = record losing { now = now; results = some (pos 9) ∷ [] };
  equity_now = some (pos 200);
}

halted_in_cooldown_example :
    All
      (λ halted. halted ≡ true)
      (answers
        (later_call 70000 ∷ later_call 119999 ∷ [])
        (evaluate config losing (some (pos 100)) quiet).0)
halted_in_cooldown_example =
    halted_in_cooldown config losing (some (pos 100)) quiet refl losing_trips
      (later_call 70000 ∷ later_call 119999 ∷ [])
      ((refl, λ h. omega arith), ((refl, λ h. omega arith), tt))
