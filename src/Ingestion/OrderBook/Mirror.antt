-- ===== src/Ingestion/OrderBook/Mirror.antt =====
-- "A book that might be wrong serves nothing": the reconstruction against the venue's own book.
use ztrade.Prelude.{
  ℕ, zero, suc, ◌+◌, ◌≡◌, refl, sym, ap, ◌≢◌, ◌⊎◌, inl, inr, true, Option, some, List, [], ◌∷◌,
  arith, Bool-cases, Option-cases, take,
}
use mathlib.Core.Path.{subst}
use ztrade.Prelude.Int.{ℤ, pos, ◌+ℤ◌, ◌==ℤ◌, leb_ℤ}
use ztrade.Ingestion.OrderBook.{
  healthy, stale, OrderBook, OrderBookSnapshot, Levels, BookUpdate, snapshot_update, delta_update,
  max_key, min_key, snapshot, unsafe_snapshot, set_levels, apply, apply_delta, apply_in_order,
  validate, apply_snapshot, sort_levels, descending, ascending,
}

-- The venue's stream: `base` is the update id of its snapshot, `start` the levels there, and
-- `changes n` the levels of the delta with the id `base + n + 1`.
pub record Venue (Raw : Type 0) : Type 0 where
  pub base : ℕ
  pub start_bids : Levels
  pub start_asks : Levels
  pub bid_changes : ℕ → List (Raw × Raw)
  pub ask_changes : ℕ → List (Raw × Raw)

validate-cases :
    (book : OrderBook) → ((validate book).0.health ≡ stale) ⊎ ((validate book).0 ≡ book)
unfolding validate
validate-cases book = elim (Option-cases (max_key book.bid_levels)) [
  | inl no_bid ↦ ground arith
  | inr (bid, best_bid) ↦ elim (Option-cases (min_key book.ask_levels)) [
    | inl no_ask ↦ ground arith
    | inr (ask, best_ask) ↦ ground arith
  ]
]

same_index :
    (base n m : ℕ) (last : ℤ)
    → last ≡ pos (base + m)
    → (pos (base + n + 1) ==ℤ (last +ℤ pos 1)) ≡ true
    → n ≡ m
unfolding ◌+ℤ◌
same_index base n m last at h = ground arith

module _ {Raw : Type 0} (number : Raw → Option ℤ) (venue : Venue Raw) where
  -- The venue's book after its first `n` deltas.
  pub venue_bids : ℕ → Levels
  venue_bids zero = venue.start_bids
  venue_bids (suc n) = set_levels number (venue.bid_changes n) (venue_bids n)

  pub venue_asks : ℕ → Levels
  venue_asks zero = venue.start_asks
  venue_asks (suc n) = set_levels number (venue.ask_changes n) (venue_asks n)

  -- The message of the delta number `n`.
  abbrev pub delta : ℕ → Option ℤ → ℤ → BookUpdate Raw
  delta n seq ts = record {
    type = delta_update;
    u = pos (venue.base + n + 1);
    seq = seq;
    bids = venue.bid_changes n;
    asks = venue.ask_changes n;
    exchange_ts = ts;
  }

  -- What the network does with the deltas: any of them, in any order, any number of times.
  unfoldable pub deliver : List (ℕ × Option ℤ × ℤ) → OrderBook → OrderBook
  deliver [] book = book
  deliver ((n, seq, ts) ∷ messages) book = deliver messages (apply number (delta n seq ts) book).0

  -- The book is stale, or it is the venue's book at the update id that it carries.
  abbrev pub Mirrors : OrderBook → Type 0
  Mirrors book =
      (book.health ≡ stale)
      ⊎ ((n : ℕ) × (book.health ≡ healthy)
          × (book.last_u ≡ pos (venue.base + n))
          × (book.bid_levels ≡ venue_bids n)
          × (book.ask_levels ≡ venue_asks n))

  validate-Mirrors : (book : OrderBook) → Mirrors book → Mirrors (validate book).0
  validate-Mirrors book h = elim (validate-cases book) [
    | inl crossed ↦ inl crossed
    | inr same ↦ rw same h
  ]

  next-Mirrors :
      (n : ℕ) (seq : Option ℤ) (ts : ℤ) (book : OrderBook) (m : ℕ)
      → book.health ≡ healthy
      → book.last_u ≡ pos (venue.base + m)
      → book.bid_levels ≡ venue_bids m
      → book.ask_levels ≡ venue_asks m
      → Mirrors (apply_in_order number (delta n seq ts) book).0
  unfolding apply_in_order venue_bids venue_asks
  next-Mirrors n seq ts book m live at bids asks =
      elim (Bool-cases (pos (venue.base + n + 1) ==ℤ (book.last_u +ℤ pos 1))) [
        | inl next ↦ rw next (
            let e = same_index venue.base n m book.last_u at next in
            validate-Mirrors _ (inr (suc m, live, ap pos (omega (arith, e)), cc e, cc e)))
        | inr other ↦ rw other (elim (Bool-cases (leb_ℤ (pos (venue.base + n + 1)) book.last_u)) [
          | inl old ↦ rw old (inr (m, live, at, bids, asks))
          | inr gap ↦ rw gap (inl refl)
        ])
      ]

  apply-Mirrors :
      (n : ℕ) (seq : Option ℤ) (ts : ℤ) (book : OrderBook)
      → Mirrors book
      → Mirrors (apply number (delta n seq ts) book).0
  unfolding apply apply_delta
  apply-Mirrors n seq ts book (inl h) = inl (ground arith)
  apply-Mirrors n seq ts book (inr (m, live, at, bids, asks)) =
      subst (λ health. Mirrors (apply_delta number health (delta n seq ts) book).0) (sym live)
        (next-Mirrors n seq ts book m live at bids asks)

  deliver-Mirrors :
      (messages : List (ℕ × Option ℤ × ℤ)) (book : OrderBook)
      → Mirrors book
      → Mirrors (deliver messages book)
  unfolding deliver
  deliver-Mirrors [] book h = h
  deliver-Mirrors ((n, seq, ts) ∷ messages) book h =
      deliver-Mirrors messages (apply number (delta n seq ts) book).0
        (apply-Mirrors n seq ts book h)

  not_served :
      (book : OrderBook) → book.health ≡ stale → (s : OrderBookSnapshot) → snapshot book ≢ some s
  unfolding snapshot
  not_served book h s e = ground arith

  -- The book that a snapshot of the venue's start leaves.
  abbrev pub start_update : List (Raw × Raw) → List (Raw × Raw) → Option ℤ → ℤ → BookUpdate Raw
  start_update bids asks seq ts = record {
    type = snapshot_update;
    u = pos venue.base;
    seq = seq;
    bids = bids;
    asks = asks;
    exchange_ts = ts;
  }

  start-Mirrors :
      (bids asks : List (Raw × Raw)) (seq : Option ℤ) (ts : ℤ) (book : OrderBook)
      → set_levels number bids [] ≡ venue.start_bids
      → set_levels number asks [] ≡ venue.start_asks
      → Mirrors (apply number (start_update bids asks seq ts) book).0
  unfolding apply apply_snapshot venue_bids venue_asks
  start-Mirrors bids asks seq ts book hb ha =
      validate-Mirrors _ (inr (zero, refl, ap pos (omega arith), hb, ha))

  -- After a snapshot of the venue's book, the network may lose, repeat and reorder the deltas that
  -- follow in any way: whenever the book serves a snapshot, its levels are the venue's own at one
  -- number of deltas `n`, the update id is that of `n`, and the levels shown are those, sorted and
  -- cut to the depth.
  pub served_is_venue :
      (bids asks : List (Raw × Raw)) (seq : Option ℤ) (ts : ℤ) (old : OrderBook)
      (messages : List (ℕ × Option ℤ × ℤ)) (s : OrderBookSnapshot)
      → set_levels number bids [] ≡ venue.start_bids
      → set_levels number asks [] ≡ venue.start_asks
      → let book = deliver messages (apply number (start_update bids asks seq ts) old).0 in
        snapshot book ≡ some s
        → (n : ℕ) × (book.last_u ≡ pos (venue.base + n))
          × (s.bids ≡ take book.depth (sort_levels descending (venue_bids n)))
          × (s.asks ≡ take book.depth (sort_levels ascending (venue_asks n)))
  unfolding snapshot unsafe_snapshot
  served_is_venue bids asks seq ts old messages s hb ha shown =
      let book = deliver messages (apply number (start_update bids asks seq ts) old).0 in
      elim (deliver-Mirrors messages _ (start-Mirrors bids asks seq ts old hb ha)) [
        | inl gone ↦ absurd (not_served book gone s shown)
        | inr (n, live, at, b, a) ↦ (n, at, ground (arith, live), ground (arith, live))
      ]
