-- ===== src/Ingestion/OrderBook/Served.antt =====
-- What `snapshot()` hands out.
use ztrade.Prelude.{
  ℕ, zero, suc, ◌≤◌, String, ◌≡◌, inl, inr, Option, some, List, [], ◌∷◌, arith, Option-cases,
  length, take, All, All-imp,
}
use ztrade.Prelude.Int.{ℤ, ◌<ℤ◌, ◌≤ℤ◌}
use ztrade.Ingestion.OrderBook.{
  healthy, OrderBook, OrderBookSnapshot, Levels, new_book, max_key, min_key, snapshot,
  unsafe_snapshot, ascending, descending, sort_levels,
}
use ztrade.Ingestion.OrderBook.Levels.{
  IsSorted, max_key-bound, min_key-bound, max_key-none, min_key-none, sort_levels-All, take-All,
  sort_levels-IsSorted, take-IsSorted,
}
use ztrade.Ingestion.OrderBook.Sound.{IsSound, HasSize, Below, Call, after, reached-IsSound}

-- Every bid is priced below every ask.
abbrev pub IsUncrossed : Levels → Levels → Type 0
IsUncrossed bids asks = All (λ b. All (λ a. b.0 <ℤ a.0) asks) bids

asks_above :
    (x best : ℤ) (asks : Levels)
    → x <ℤ best
    → All (λ a. best ≤ℤ a.0) asks
    → All (λ a. x <ℤ a.0) asks
asks_above x best [] h k = tt
asks_above x best (a ∷ asks) h k = (omega arith, asks_above x best asks h k.1)

bids_below :
    (bid ask : ℤ) (bids asks : Levels)
    → bid <ℤ ask
    → All (λ b. b.0 ≤ℤ bid) bids
    → All (λ a. ask ≤ℤ a.0) asks
    → IsUncrossed bids asks
bids_below bid ask [] asks h k l = tt
bids_below bid ask (b ∷ bids) asks h k l =
    (asks_above b.0 ask asks (omega arith) l, bids_below bid ask bids asks h k.1 l)

no_asks : (bids : Levels) → IsUncrossed bids []
no_asks [] = tt
no_asks (b ∷ bids) = (tt, no_asks bids)

IsUncrossed-of_best :
    (bids asks : Levels) → Below (max_key bids) (min_key asks) → IsUncrossed bids asks
IsUncrossed-of_best bids asks h = elim (Option-cases (max_key bids)) [
  | inl e ↦ rw (max_key-none bids e) tt
  | inr (bid, e) ↦ elim (Option-cases (min_key asks)) [
    | inl n ↦ rw (min_key-none asks n) (no_asks bids)
    | inr (ask, n) ↦
        bids_below bid ask bids asks (rw (e, n) at h) (max_key-bound bids bid e)
          (min_key-bound asks ask n)
  ]
]

restrict :
    (bids asks : Levels) (n : ℕ)
    → IsUncrossed bids asks
    → IsUncrossed (take n (sort_levels descending bids)) (take n (sort_levels ascending asks))
restrict bids asks n h =
    take-All (λ b. All (λ a. b.0 <ℤ a.0) (take n (sort_levels ascending asks))) n
      (sort_levels descending bids)
      (sort_levels-All (λ b. All (λ a. b.0 <ℤ a.0) (take n (sort_levels ascending asks))) descending
        bids
        (All-imp bids
          (λ b k.
            take-All (λ a. b.0 <ℤ a.0) n (sort_levels ascending asks)
              (sort_levels-All (λ a. b.0 <ℤ a.0) ascending asks k))
          h))

length-take-le : (n : ℕ) (levels : Levels) → length (take n levels) ≤ n
length-take-le zero levels = omega arith
length-take-le (suc n) [] = omega arith
length-take-le (suc n) (l ∷ levels) = omega (arith, length-take-le n levels)

-- What a consumer may rely on.
pub record IsTradable (depth : ℕ) (s : OrderBookSnapshot) : Type 0 where
  pub uncrossed : IsUncrossed s.bids s.asks
  pub bids_descend : IsSorted descending s.bids
  pub asks_ascend : IsSorted ascending s.asks
  pub bids_sized : All HasSize s.bids
  pub asks_sized : All HasSize s.asks
  pub bids_fit : length s.bids ≤ depth
  pub asks_fit : length s.asks ≤ depth

unsafe_snapshot-IsTradable :
    (book : OrderBook)
    → IsSound book
    → book.health ≡ healthy
    → IsTradable book.depth (unsafe_snapshot book)
unfolding unsafe_snapshot
unsafe_snapshot-IsTradable book h live = record {
  uncrossed =
      restrict book.bid_levels book.ask_levels book.depth
        (IsUncrossed-of_best book.bid_levels book.ask_levels (h.uncrossed live));
  bids_descend = take-IsSorted descending book.depth _ (sort_levels-IsSorted descending _);
  asks_ascend = take-IsSorted ascending book.depth _ (sort_levels-IsSorted ascending _);
  bids_sized = take-All HasSize book.depth _ (sort_levels-All HasSize descending _ h.bids_sized);
  asks_sized = take-All HasSize book.depth _ (sort_levels-All HasSize ascending _ h.asks_sized);
  bids_fit = length-take-le book.depth _;
  asks_fit = length-take-le book.depth _;
}

snapshot-healthy :
    (book : OrderBook) (s : OrderBookSnapshot)
    → snapshot book ≡ some s
    → (book.health ≡ healthy) × (unsafe_snapshot book ≡ s)
unfolding snapshot
snapshot-healthy book s h = ground arith

-- A sound book serves what a consumer may rely on.
pub sound-IsTradable :
    (book : OrderBook) (s : OrderBookSnapshot)
    → IsSound book
    → snapshot book ≡ some s
    → IsTradable book.depth s
sound-IsTradable book s h e =
    let (live, served) = snapshot-healthy book s e in
    rw (← served) (unsafe_snapshot-IsTradable book h live)

-- Whatever was called before, in whatever order: if the book serves a snapshot at all, every bid in
-- it is priced below every ask, bids descend and asks ascend, no size is zero, and neither side has
-- more levels than the depth.
pub snapshot-IsTradable :
    {Raw : Type 0} (number : Raw → Option ℤ) (symbol : String) (depth : ℕ) (calls : List (Call Raw))
    (s : OrderBookSnapshot)
    → snapshot (after number calls (new_book symbol depth)) ≡ some s
    → IsTradable (after number calls (new_book symbol depth)).depth s
snapshot-IsTradable number symbol depth calls s h =
    sound-IsTradable (after number calls (new_book symbol depth)) s
      (reached-IsSound number symbol depth calls) h
