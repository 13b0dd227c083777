-- ===== src/Server/Breaker.antt =====
-- apps/server/src/engine/circuitBreaker.ts: the account's breaker above the limits of a trade. What the
-- database and the clock answer during a call is its reading; the configuration, a setting, is an
-- argument of the calls that read it. An event reads the state, which can record the day's equity.
pub mod Agrees
pub mod Halted
use ztrade.Prelude.{
  ℕ, suc, ◌+◌, ◌-◌, ◌*◌, ◌%◌, Bool, true, false, not, ◌&&◌, Option, none, some, List, [], ◌∷◌, ltb,
  leb, ◌==◌, if◌then◌else◌,
}
use ztrade.Prelude.Double.{Double}

pub record BreakerConfig (F : Type 0) : Type 0 where
  pub enabled : Bool
  pub max_daily_loss_pct : F
  pub max_consecutive_losses : ℕ
  pub cooldown_minutes : ℕ
  pub flatten_on_trip : Bool

-- The text of a reason shows these data.
pub data TripReason (F : Type 0) : Type 0 where
  losing_streak : ℕ → TripReason F
  daily_loss : (loss_pct limit : F) → TripReason F

pub record DayStart (F : Type 0) : Type 0 where
  pub day : ℕ
  pub equity : F

-- `day_start` is the setting `day_start_equity`.
pub record AccountBreaker (F : Type 0) : Type 0 where
  pub tripped : Bool
  pub trip_reason : Option (TripReason F)
  pub tripped_at : Option ℕ
  pub resume_at : Option ℕ
  pub day_start : Option (DayStart F)

-- The time, the results of the last trades that were settled, the latest first, what was realised
-- today, and the last equity point.
pub record Reading (F : Type 0) : Type 0 where
  pub now : ℕ
  pub results : List F
  pub pnl_today : F
  pub latest_equity : Option F

abbrev pub start_of_utc_day : ℕ → ℕ
start_of_utc_day now = now - now % 86400000

abbrev pub cooled : Option ℕ → ℕ → Bool
cooled none now = false
cooled (some t) now = leb t now

module _ {F : Type 0} ⦃d : Double F⦄ where
  abbrev nought : F
  nought = d.literal 0 0

  abbrev pub consecutive_losses : List F → ℕ
  consecutive_losses [] = 0
  consecutive_losses (pnl ∷ results) =
      let rest = consecutive_losses results in if d.lt pnl nought then suc rest else 0

  -- The equity that is on record for the day.
  abbrev pub on_record : Option (DayStart F) → ℕ → Option F
  on_record none today = none
  on_record (some s) today = if s.day == today && d.lt nought s.equity then some s.equity else none

  abbrev or_nought : Option F → F
  or_nought none = nought
  or_nought (some x) = x

  abbrev fresh_equity : Reading F → F → F
  fresh_equity r current = if d.lt nought current then current else or_nought r.latest_equity

  abbrev record_equity : ℕ → F → AccountBreaker F → AccountBreaker F
  record_equity today equity b =
      if d.lt nought equity
      then record b { day_start = some (record { day = today; equity = equity }) }
      else b

  unfoldable pub day_start_equity : Reading F → F → AccountBreaker F → AccountBreaker F × F
  day_start_equity r current b = elim (on_record b.day_start (start_of_utc_day r.now)) [
    | some equity ↦ (b, equity)
    | none ↦
        let equity = fresh_equity r current in
        (record_equity (start_of_utc_day r.now) equity b, equity)
  ]

  -- The event carries the state, which is read with no equity at hand.
  abbrev pub announced_state : Reading F → AccountBreaker F → AccountBreaker F
  announced_state r b = (day_start_equity r nought b).0

  unfoldable pub trip :
      BreakerConfig F → Reading F → TripReason F → AccountBreaker F → AccountBreaker F
  trip cfg r reason b = announced_state r (record b {
    tripped = true;
    trip_reason = some reason;
    tripped_at = some r.now;
    resume_at =
        if ltb 0 cfg.cooldown_minutes then some (r.now + cfg.cooldown_minutes * 60000) else none;
  })

  unfoldable pub reset : Reading F → AccountBreaker F → AccountBreaker F
  reset r b =
      if b.tripped
      then announced_state r
          (record b { tripped = false; trip_reason = none; tripped_at = none; resume_at = none })
      else b

  abbrev pub expire : Reading F → AccountBreaker F → AccountBreaker F
  expire r b = if b.tripped && cooled b.resume_at r.now then reset r b else b

  abbrev pub loss_pct : F → F → F
  loss_pct pnl equity = d.mul (d.div (d.abs pnl) equity) (d.literal 100 0)

  -- The part of the checks on the day's loss.
  abbrev pub check_day :
      BreakerConfig F → Reading F → AccountBreaker F × F → AccountBreaker F × Bool
  check_day cfg r (b, equity) =
      if d.lt nought cfg.max_daily_loss_pct && (d.lt nought equity && d.lt r.pnl_today nought)
      then if d.le cfg.max_daily_loss_pct (loss_pct r.pnl_today equity)
        then (trip cfg r (daily_loss (loss_pct r.pnl_today equity) cfg.max_daily_loss_pct) b, true)
        else (b, false)
      else (b, false)

  unfoldable pub evaluate :
      BreakerConfig F → Reading F → F → AccountBreaker F → AccountBreaker F × Bool
  evaluate cfg r current before =
      let b = expire r before in
      if not cfg.enabled
      then (b, false)
      else if b.tripped
      then (b, true)
      else if ltb 0 cfg.max_consecutive_losses
          && leb cfg.max_consecutive_losses (consecutive_losses r.results)
      then (trip cfg r (losing_streak (consecutive_losses r.results)) b, true)
      else check_day cfg r (day_start_equity r current b)

  -- `shouldTrip`
  unfoldable pub should_trip : BreakerConfig F → ℕ → F → F → Option (TripReason F)
  should_trip cfg losses pnl equity =
      if not cfg.enabled
      then none
      else if ltb 0 cfg.max_consecutive_losses && leb cfg.max_consecutive_losses losses
      then some (losing_streak losses)
      else if d.lt nought cfg.max_daily_loss_pct && (d.lt nought equity && d.lt pnl nought)
      then if d.le cfg.max_daily_loss_pct (loss_pct pnl equity)
        then some (daily_loss (loss_pct pnl equity) cfg.max_daily_loss_pct)
        else none
      else none
