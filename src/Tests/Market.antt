-- ===== src/Tests/Market.antt =====
-- The book and the bars.
use ztrade.Prelude.{ℕ, ◌+◌, ◌≡◌, refl, Option, none, some, List, [], ◌∷◌, take}
use ztrade.Prelude.Int.{ℤ, pos, ◌+ℤ◌}
use ztrade.Prelude.Table.{int_eq, string_eq}
use ztrade.Prelude.Double.{Units, whole_units}
use ztrade.Ingestion.OrderBook.{
  BookUpdate, snapshot_update, OrderBook, OrderBookSnapshot, new_book, set_levels, apply, snapshot,
  sort_levels, ascending, descending, apply_snapshot, apply_delta, apply_in_order, validate,
  max_key, min_key, unsafe_snapshot,
}
use ztrade.Ingestion.OrderBook.Sound.{Call, update, after}
use ztrade.Ingestion.OrderBook.Mirror.{
  Venue, venue_bids, venue_asks, start_update, deliver, served_is_venue,
}
use ztrade.Ingestion.Bars.{buy, Bar, BarAggregator, Trade, start_bar}

abbrev level : ℕ → ℕ → ℤ × ℤ
level price size = (pos price, pos size)

abbrev start : BookUpdate ℤ
start = record {
  type = snapshot_update;
  u = pos 10;
  seq = none;
  bids = level 99 5 ∷ level 98 7 ∷ [];
  asks = level 101 4 ∷ [];
  exchange_ts = pos 1000;
}

abbrev calls : List (Call ℤ)
calls = update start ∷ []

abbrev shown : OrderBookSnapshot
shown = record { bids = level 99 5 ∷ level 98 7 ∷ []; asks = level 101 4 ∷ [] }

served : snapshot (after some calls (new_book "BTCUSDT" 50)) ≡ some shown
unfolding snapshot after new_book apply apply_snapshot validate max_key min_key set_levels
    sort_levels unsafe_snapshot
served = refl

abbrev venue : Venue ℤ
venue = record {
  base = 10;
  start_bids = level 99 5 ∷ [];
  start_asks = level 101 4 ∷ [];
  bid_changes = λ n. level 98 n ∷ [];
  ask_changes = λ n. [];
}

-- The first delta twice, then the second.
abbrev messages : List (ℕ × Option ℤ × ℤ)
messages = (0, none, pos 1) ∷ (0, none, pos 2) ∷ (1, none, pos 3) ∷ []

abbrev followed : OrderBook
followed =
    deliver some venue messages
      (apply some (start_update some venue (level 99 5 ∷ []) (level 101 4 ∷ []) none (pos 0))
        (new_book "BTCUSDT" 50)).0

abbrev followed_shown : OrderBookSnapshot
followed_shown = record { bids = level 99 5 ∷ level 98 1 ∷ []; asks = level 101 4 ∷ [] }

followed_serves : snapshot followed ≡ some followed_shown
unfolding snapshot deliver new_book apply apply_snapshot apply_delta apply_in_order validate max_key
    min_key set_levels sort_levels unsafe_snapshot ◌+ℤ◌
followed_serves = refl

served_is_venue_example :
    (n : ℕ) × (followed.last_u ≡ pos (10 + n))
    × (followed_shown.bids ≡ take followed.depth (sort_levels descending (venue_bids some venue n)))
    × (followed_shown.asks ≡ take followed.depth (sort_levels ascending (venue_asks some venue n)))
unfolding set_levels
served_is_venue_example =
    served_is_venue some venue (level 99 5 ∷ []) (level 101 4 ∷ []) none (pos 0)
      (new_book "BTCUSDT" 50) messages followed_shown refl refl followed_serves

abbrev trade : ℕ → Trade Units
trade ts = record {
  symbol = "BTCUSDT";
  price = some (pos 100);
  size = some (pos 1);
  side = buy;
  ts = ts;
}

abbrev quiet : BarAggregator Units
quiet = record { interval_ms = 60; interval_label = "1m"; current = []; emitted = [] }

abbrev first_bar : Bar Units
first_bar = start_bar "1m" 60 (trade 70)
