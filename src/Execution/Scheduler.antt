-- ===== src/Execution/Scheduler.antt =====
-- packages/execution/src/scheduler.ts: a token bucket for each category of endpoint, and the back-off
-- after a rejection. Event times are whole milliseconds. A category is its name; `none` stands for the
-- exception that an unknown one throws. `to_number` is JavaScript's `Number` on a header.
pub mod Backoff
use ztrade.Prelude.{
  ℕ, ◌+◌, ◌-◌, ◌*◌, ◌^◌, String, Bool, true, false, ◌||◌, Option, none, some, [], ◌∷◌, ◌==◌,
  if◌then◌else◌, min,
}
use ztrade.Prelude.Int.{ℤ, pos, negsuc, ltb_ℤ, ◌+ℤ◌, ◌-ℤ◌}
use ztrade.Prelude.Double.{Double}
use ztrade.Prelude.Table.{Table, string_eq, lookup, insert}

pub record BucketConfig (F : Type 0) : Type 0 where
  pub refill_per_second : F
  pub capacity : F

pub record TokenBucket (F : Type 0) : Type 0 where
  pub config : BucketConfig F
  pub tokens : F
  pub last_refill : ℤ

pub record RateScheduler (F : Type 0) : Type 0 where
  pub buckets : Table String (TokenBucket F)
  pub backoff_until : Table String ℤ
  pub limit_hits : ℕ

abbrev is_limit_code : ℕ → Bool
is_limit_code code = code == 10006 || code == 10018

-- The delay after the `n`-th rejection in a row.
abbrev pub delay : ℕ → ℕ
delay n = min 30000 (500 * 2 ^ (n - 1))

abbrev header_value : Option String → Option String → Option String
header_value (some text) upper = some text
header_value none upper = upper

abbrev pub until_or_zero : Option ℤ → ℤ
until_or_zero none = pos 0
until_or_zero (some t) = t

module _ {F : Type 0} where
  -- `backoffUntil.get(category) ?? 0`
  abbrev pub until : String → RateScheduler F → ℤ
  until category s = until_or_zero (lookup category s.backoff_until)

  unfoldable pub observe_success : RateScheduler F → RateScheduler F
  observe_success s = record s { limit_hits = 0 }

  unfoldable pub observe_rejection : String → ℕ → ℤ → RateScheduler F → Bool × RateScheduler F
  observe_rejection category code now s =
      let hits = s.limit_hits + 1 in
      if is_limit_code code
      then (
        true,
        record s {
          limit_hits = hits;
          backoff_until = insert category (now +ℤ pos (delay hits)) s.backoff_until;
        },
      )
      else (false, s)

module _ {F : Type 0} ⦃d : Double F⦄ where
  abbrev of_int : ℤ → F
  of_int (pos n) = d.literal n 0
  of_int (negsuc n) = d.neg (d.literal (n + 1) 0)

  abbrev nought : F
  nought = d.literal 0 0

  abbrev pub new_bucket : BucketConfig F → ℤ → TokenBucket F
  new_bucket config now = record { config = config; tokens = config.capacity; last_refill = now }

  new_buckets : Table String (BucketConfig F) → ℤ → Table String (TokenBucket F)
  new_buckets [] now = []
  new_buckets ((category, config) ∷ configs) now =
      (category, new_bucket config now) ∷ new_buckets configs now

  unfoldable pub new_scheduler : ℤ → Table String (BucketConfig F) → RateScheduler F
  unfolding new_buckets
  new_scheduler now configs = record {
    buckets = new_buckets configs now;
    backoff_until = [];
    limit_hits = 0;
  }

  unfoldable pub refill : ℤ → TokenBucket F → TokenBucket F
  refill now b =
      let elapsed = d.max nought (of_int (now -ℤ b.last_refill)) in
      record b {
        tokens =
            d.min b.config.capacity (
              d.add b.tokens (d.mul (d.div elapsed (d.literal 1000 0)) b.config.refill_per_second));
        last_refill = now;
      }

  unfoldable pub try_take : ℤ → TokenBucket F → Bool × TokenBucket F
  unfolding refill
  try_take now b =
      let filled = refill now b in
      if d.lt filled.tokens (d.literal 1 0)
      then (false, filled)
      else (true, record filled { tokens = d.sub filled.tokens (d.literal 1 0) })

  unfoldable pub bucket_wait_ms : ℤ → TokenBucket F → F × TokenBucket F
  unfolding refill
  bucket_wait_ms now b =
      let filled = refill now b in
      let deficit = d.sub (d.literal 1 0) filled.tokens in
      if d.le (d.literal 1 0) filled.tokens then (nought, filled) else (
        d.ceil (d.mul (d.div deficit filled.config.refill_per_second) (d.literal 1000 0)),
        filled,
      )

  unfoldable pub sync_from_header : F → TokenBucket F → TokenBucket F
  sync_from_header remaining b = record b { tokens = d.min b.tokens (d.max nought remaining) }

  abbrev put_bucket : String → TokenBucket F → RateScheduler F → RateScheduler F
  put_bucket category b s = record s { buckets = insert category b s.buckets }

  abbrev can_send_from :
      String → ℤ → RateScheduler F → Option (TokenBucket F) → Option (Bool × RateScheduler F)
  can_send_from category now s none = none
  can_send_from category now s (some b) =
      let (wait, filled) = bucket_wait_ms now b in
      some (d.eq wait nought, put_bucket category filled s)

  unfoldable pub can_send : String → ℤ → RateScheduler F → Option (Bool × RateScheduler F)
  can_send category now s =
      if ltb_ℤ now (until category s)
      then some (false, s)
      else can_send_from category now s (lookup category s.buckets)

  abbrev take_from :
      String → ℤ → RateScheduler F → Option (TokenBucket F) → Option (Bool × RateScheduler F)
  take_from category now s none = none
  take_from category now s (some b) =
      let (granted, left) = try_take now b in some (granted, put_bucket category left s)

  unfoldable pub take_token : String → ℤ → RateScheduler F → Option (Bool × RateScheduler F)
  take_token category now s =
      if ltb_ℤ now (until category s)
      then some (false, s)
      else take_from category now s (lookup category s.buckets)

  abbrev wait_from :
      String → ℤ → RateScheduler F → Option (TokenBucket F) → Option (F × RateScheduler F)
  wait_from category now s none = none
  wait_from category now s (some b) =
      let (wait, filled) = bucket_wait_ms now b in
      let backoff = d.max nought (of_int (until category s -ℤ now)) in
      some (d.max backoff wait, put_bucket category filled s)

  unfoldable pub wait_ms : String → ℤ → RateScheduler F → Option (F × RateScheduler F)
  wait_ms category now s = wait_from category now s (lookup category s.buckets)

  abbrev sync_bucket :
      String → F → RateScheduler F → Option (TokenBucket F) → Option (RateScheduler F)
  sync_bucket category remaining s none = none
  sync_bucket category remaining s (some b) =
      some (put_bucket category (sync_from_header remaining b) s)

  unfoldable pub observe_headers :
      (to_number : Option String → F)
      → String
      → Table String String
      → RateScheduler F
      → Option (RateScheduler F)
  observe_headers to_number category headers s =
      let remaining = to_number (
        header_value (lookup "x-bapi-limit-status" headers)
          (lookup "X-Bapi-Limit-Status" headers)) in
      if d.is_finite remaining
      then sync_bucket category remaining s (lookup category s.buckets)
      else some s
