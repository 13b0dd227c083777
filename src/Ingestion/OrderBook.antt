-- ===== src/Ingestion/OrderBook.antt =====
-- packages/ingestion/src/orderbook.ts: reconstruction of the level-2 book. A finite number is
-- written by its integer multiple of 2 ^ -1074, on which `<` and `===` are those of the doubles, and
-- `number` stands for `Number` with `Number.isFinite`: `none` is a value that is not finite.
pub mod Levels
pub mod Sound
pub mod Served
pub mod Mirror
use ztrade.Prelude.{
  ℕ, ◌+◌, String, Bool, true, false, Option, none, some, List, [], ◌∷◌, if◌then◌else◌, take,
}
use ztrade.Prelude.Int.{ℤ, pos, negsuc, ◌+ℤ◌, ltb_ℤ, leb_ℤ, ◌==ℤ◌}
use ztrade.Prelude.Table.{Table, int_eq, lookup, insert, erase}

pub data BookHealth : Type 0 where
  empty healthy stale : BookHealth

pub data Reason : Type 0 where
  before_snapshot awaiting_snapshot : Reason
  duplicate : (u : ℤ) → Reason
  sequence_gap : (expected received : ℤ) → Reason
  crossed_book : (bid ask : ℤ) → Reason
  invalidated : String → Reason

pub record ApplyResult : Type 0 where
  pub applied : Bool
  pub gap : Option (ℤ × ℤ)
  pub reason : Option Reason

pub record Stats : Type 0 where
  pub snapshots : ℕ
  pub deltas : ℕ
  pub gaps : ℕ
  pub crossed : ℕ
  pub rejected : ℕ

pub data UpdateType : Type 0 where
  snapshot_update delta_update : UpdateType

pub record BookUpdate (Raw : Type 0) : Type 0 where
  pub type : UpdateType
  pub u : ℤ
  pub seq : Option ℤ
  pub bids : List (Raw × Raw)
  pub asks : List (Raw × Raw)
  pub exchange_ts : ℤ

abbrev pub Levels : Type 0
Levels = Table ℤ ℤ

pub record OrderBook : Type 0 where
  pub symbol : String
  pub depth : ℕ
  pub bid_levels : Levels
  pub ask_levels : Levels
  pub last_u : ℤ
  pub last_seq : ℤ
  pub health : BookHealth
  pub stale_reason : Option Reason
  pub last_update_ts : ℤ
  pub stats : Stats

unfoldable pub new_book : String → ℕ → OrderBook
new_book symbol depth = record {
  symbol = symbol;
  depth = depth;
  bid_levels = [];
  ask_levels = [];
  last_u = negsuc 0;
  last_seq = negsuc 0;
  health = empty;
  stale_reason = none;
  last_update_ts = pos 0;
  stats = record { snapshots = 0; deltas = 0; gaps = 0; crossed = 0; rejected = 0 };
}

-- A round of the loop of `maxKey`, on the best price so far.
abbrev better_max : ℤ → Option ℤ → Option ℤ
better_max price none = some price
better_max price (some best) = if ltb_ℤ best price then some price else some best

abbrev better_min : ℤ → Option ℤ → Option ℤ
better_min price none = some price
better_min price (some best) = if ltb_ℤ price best then some price else some best

abbrev pub max_key_from : Option ℤ → Levels → Option ℤ
max_key_from best [] = best
max_key_from best ((price, size) ∷ levels) = max_key_from (better_max price best) levels

abbrev pub min_key_from : Option ℤ → Levels → Option ℤ
min_key_from best [] = best
min_key_from best ((price, size) ∷ levels) = min_key_from (better_min price best) levels

unfoldable pub max_key : Levels → Option ℤ
max_key levels = max_key_from none levels

unfoldable pub min_key : Levels → Option ℤ
min_key levels = min_key_from none levels

pub data Direction : Type 0 where
  ascending descending : Direction

-- Whether the comparator of `sortLevels` leaves `a` before `b`.
abbrev pub before : Direction → ℤ × ℤ → ℤ × ℤ → Bool
before ascending a b = leb_ℤ a.0 b.0
before descending a b = leb_ℤ b.0 a.0

-- `Array.prototype.sort`, which is stable, as an insertion sort.
abbrev insert_level : Direction → ℤ × ℤ → Levels → Levels
insert_level dir a [] = a ∷ []
insert_level dir a (b ∷ levels) =
    if before dir a b then a ∷ b ∷ levels else b ∷ insert_level dir a levels

unfoldable pub sort_levels : Direction → Levels → Levels
sort_levels dir [] = []
sort_levels dir (a ∷ levels) = insert_level dir a (sort_levels dir levels)

mark_stale : Reason → OrderBook → OrderBook
mark_stale reason book = record book { health = stale; stale_reason = some reason }

abbrev refusal : Reason → ApplyResult
refusal reason = record { applied = false; gap = none; reason = some reason }

abbrev applied_result : ApplyResult
applied_result = record { applied = true; gap = none; reason = none }

-- The comparison in `validate`.
validate_best : Option ℤ → Option ℤ → OrderBook → OrderBook × ApplyResult
unfolding mark_stale
validate_best (some bid) (some ask) book =
    if leb_ℤ ask bid
    then (
      mark_stale (crossed_book bid ask)
          (record book { stats = record (book.stats) { crossed = book.stats.crossed + 1 } }),
      refusal (crossed_book bid ask),
    )
    else (book, applied_result)
validate_best _ _ book = (book, applied_result)

unfoldable pub validate : OrderBook → OrderBook × ApplyResult
unfolding validate_best
validate book = validate_best (max_key book.bid_levels) (min_key book.ask_levels) book

module _ {Raw : Type 0} (number : Raw → Option ℤ) where
  abbrev set_parsed : Option ℤ → Option ℤ → Levels → Levels
  set_parsed (some price) (some size) levels =
      if size ==ℤ pos 0 then erase price levels else insert price size levels
  set_parsed _ _ levels = levels

  abbrev pub set_level : Raw × Raw → Levels → Levels
  set_level level levels = set_parsed (number level.0) (number level.1) levels

  -- `for (const [price, size] of …) setLevel(levels, price, size)`
  unfoldable pub set_levels : List (Raw × Raw) → Levels → Levels
  set_levels [] levels = levels
  set_levels (l ∷ ls) levels = set_levels ls (set_level l levels)

  abbrev or_minus_one : Option ℤ → ℤ
  or_minus_one (some seq) = seq
  or_minus_one none = negsuc 0

  abbrev or_last : Option ℤ → ℤ → ℤ
  or_last (some seq) last = seq
  or_last none last = last

  unfoldable pub apply_snapshot : BookUpdate Raw → OrderBook → OrderBook × ApplyResult
  apply_snapshot update book = validate (record book {
    bid_levels = set_levels update.bids [];
    ask_levels = set_levels update.asks [];
    last_u = update.u;
    last_seq = or_minus_one update.seq;
    last_update_ts = update.exchange_ts;
    stats = record (book.stats) { snapshots = book.stats.snapshots + 1 };
    health = healthy;
    stale_reason = none;
  })

  -- `applyDelta` past its two guards, on a healthy book.
  unfoldable pub apply_in_order : BookUpdate Raw → OrderBook → OrderBook × ApplyResult
  unfolding mark_stale
  apply_in_order update book =
      let expected = book.last_u +ℤ pos 1 in
      if update.u ==ℤ expected
      then validate (record book {
        bid_levels = set_levels update.bids book.bid_levels;
        ask_levels = set_levels update.asks book.ask_levels;
        last_u = update.u;
        last_seq = or_last update.seq book.last_seq;
        last_update_ts = update.exchange_ts;
        stats = record (book.stats) { deltas = book.stats.deltas + 1 };
      })
      else if leb_ℤ update.u book.last_u
      then (book, refusal (duplicate update.u))
      else (
        mark_stale (sequence_gap expected update.u)
            (record book { stats = record (book.stats) { gaps = book.stats.gaps + 1 } }),
        record {
          applied = false;
          gap = some (expected, update.u);
          reason = some (sequence_gap expected update.u);
        },
      )

  abbrev reject_update : Reason → OrderBook → OrderBook × ApplyResult
  reject_update reason book = (
    record book { stats = record (book.stats) { rejected = book.stats.rejected + 1 } },
    refusal reason,
  )

  -- The guards of `applyDelta`.
  unfoldable pub apply_delta : BookHealth → BookUpdate Raw → OrderBook → OrderBook × ApplyResult
  apply_delta empty update book = reject_update before_snapshot book
  apply_delta stale update book = reject_update awaiting_snapshot book
  apply_delta healthy update book = apply_in_order update book

  abbrev apply_typed : UpdateType → BookUpdate Raw → OrderBook → OrderBook × ApplyResult
  apply_typed snapshot_update update book = apply_snapshot update book
  apply_typed delta_update update book = apply_delta book.health update book

  unfoldable pub apply : BookUpdate Raw → OrderBook → OrderBook × ApplyResult
  apply update book = apply_typed update.type update book

abbrev invalidate_at : BookHealth → Reason → OrderBook → OrderBook
unfolding mark_stale
invalidate_at empty reason book = book
invalidate_at _ reason book = mark_stale reason book

unfoldable pub invalidate : String → OrderBook → OrderBook
unfolding mark_stale
invalidate reason book = invalidate_at book.health (invalidated reason) book

unfoldable pub reset : OrderBook → OrderBook
reset book = record book {
  bid_levels = [];
  ask_levels = [];
  last_u = negsuc 0;
  last_seq = negsuc 0;
  health = empty;
  stale_reason = none;
}

pub record OrderBookSnapshot : Type 0 where
  pub bids : Levels
  pub asks : Levels

unfoldable pub unsafe_snapshot : OrderBook → OrderBookSnapshot
unsafe_snapshot book = record {
  bids = take book.depth (sort_levels descending book.bid_levels);
  asks = take book.depth (sort_levels ascending book.ask_levels);
}

abbrev snapshot_at : BookHealth → OrderBook → Option OrderBookSnapshot
snapshot_at healthy book = some (unsafe_snapshot book)
snapshot_at _ book = none

unfoldable pub snapshot : OrderBook → Option OrderBookSnapshot
snapshot book = snapshot_at book.health book
