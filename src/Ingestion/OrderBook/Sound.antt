-- ===== src/Ingestion/OrderBook/Sound.antt =====
-- The invariant of the book between two calls.
use ztrade.Prelude.{
  ℕ, String, ◌≡◌, refl, ◌≢◌, inl, inr, false, Option, none, some, List, [], ◌∷◌, arith, Bool-cases,
  Option-cases, All,
}
use ztrade.Prelude.Int.{ℤ, ◌+ℤ◌, pos, negsuc, ◌<ℤ◌, ◌==ℤ◌}
use ztrade.Prelude.Table.{int_eq, insert, erase}
use ztrade.Ingestion.OrderBook.{
  empty, healthy, stale, BookUpdate, OrderBook, Levels, new_book, max_key, min_key, validate,
  set_parsed, set_level, set_levels, apply_snapshot, apply_in_order, apply_delta, apply, invalidate,
  reset,
}

abbrev pub Below : Option ℤ → Option ℤ → Type 0
Below (some bid) (some ask) = bid <ℤ ask
Below _ _ = Unit

abbrev pub HasSize : ℤ × ℤ → Type 0
HasSize l = (l.1 ==ℤ pos 0) ≡ false

-- A healthy book is not crossed; a reason is kept exactly while the book is stale; an empty book
-- has no levels and no update id; and no level has size zero.
pub record IsSound (book : OrderBook) : Type 0 where
  pub uncrossed : book.health ≡ healthy → Below (max_key book.bid_levels) (min_key book.ask_levels)
  pub reason_if_stale : book.health ≡ stale → book.stale_reason ≢ none
  pub none_unless_stale : book.health ≢ stale → book.stale_reason ≡ none
  pub nothing_if_empty :
      book.health ≡ empty
      → (book.bid_levels ≡ []) × (book.ask_levels ≡ []) × (book.last_u ≡ negsuc 0)
  pub bids_sized : All HasSize book.bid_levels
  pub asks_sized : All HasSize book.ask_levels

insert-sized :
    (price size : ℤ) (levels : Levels)
    → (size ==ℤ pos 0) ≡ false
    → All HasSize levels
    → All HasSize (insert price size levels)
insert-sized price size [] n h = (n, tt)
insert-sized price size (l ∷ levels) n h = elim (Bool-cases (l.0 ==ℤ price)) [
  | inl e ↦ rw e (n, h.1)
  | inr e ↦ rw e (h.0, insert-sized price size levels n h.1)
]

erase-sized : (price : ℤ) (levels : Levels) → All HasSize levels → All HasSize (erase price levels)
erase-sized price [] h = tt
erase-sized price (l ∷ levels) h = elim (Bool-cases (l.0 ==ℤ price)) [
  | inl e ↦ rw e (erase-sized price levels h.1)
  | inr e ↦ rw e (h.0, erase-sized price levels h.1)
]

validate-IsSound :
    (book : OrderBook)
    → book.health ≡ healthy
    → book.stale_reason ≡ none
    → All HasSize book.bid_levels
    → All HasSize book.ask_levels
    → IsSound (validate book).0
unfolding validate
validate-IsSound book h r b a = elim (Option-cases (max_key book.bid_levels)) [
  | inl no_bid ↦ ground arith
  | inr (bid, best_bid) ↦ elim (Option-cases (min_key book.ask_levels)) [
    | inl no_ask ↦ ground arith
    | inr (ask, best_ask) ↦ ground arith
  ]
]

module _ {Raw : Type 0} (number : Raw → Option ℤ) where
  set_parsed-sized :
      (price size : Option ℤ) (levels : Levels)
      → All HasSize levels
      → All HasSize (set_parsed number price size levels)
  set_parsed-sized (some price) (some size) levels h = elim (Bool-cases (size ==ℤ pos 0)) [
    | inl e ↦ rw e (erase-sized price levels h)
    | inr e ↦ rw e (insert-sized price size levels e h)
  ]
  set_parsed-sized none _ levels h = h
  set_parsed-sized (some price) none levels h = h

  set_levels-sized :
      (ls : List (Raw × Raw)) (levels : Levels)
      → All HasSize levels
      → All HasSize (set_levels number ls levels)
  unfolding set_levels
  set_levels-sized [] levels h = h
  set_levels-sized (l ∷ ls) levels h =
      set_levels-sized ls (set_level number l levels)
        (set_parsed-sized (number l.0) (number l.1) levels h)

  apply_snapshot-IsSound :
      (update : BookUpdate Raw) (book : OrderBook) → IsSound (apply_snapshot number update book).0
  unfolding apply_snapshot
  apply_snapshot-IsSound update book =
      validate-IsSound _ refl refl (set_levels-sized update.bids [] tt)
        (set_levels-sized update.asks [] tt)

  apply_in_order-IsSound :
      (update : BookUpdate Raw) (book : OrderBook)
      → book.health ≡ healthy
      → IsSound book
      → IsSound (apply_in_order number update book).0
  unfolding apply_in_order
  apply_in_order-IsSound update book live h =
      elim (Bool-cases (update.u ==ℤ (book.last_u +ℤ pos 1))) [
        | inl next ↦ rw next (
            validate-IsSound _ live (h.none_unless_stale (λ e. cc))
              (set_levels-sized update.bids book.bid_levels h.bids_sized)
              (set_levels-sized update.asks book.ask_levels h.asks_sized))
        | inr gap ↦ rw gap (ground arith)
      ]

  apply_delta-IsSound :
      (update : BookUpdate Raw) (book : OrderBook)
      → IsSound book
      → IsSound (apply_delta number book.health update book).0
  unfolding apply_delta
  apply_delta-IsSound update book h = ground (arith, apply_in_order-IsSound update book)

  -- Every update keeps the invariant: a snapshot or a delta, in any state of the book.
  pub apply-IsSound :
      (update : BookUpdate Raw) (book : OrderBook)
      → IsSound book
      → IsSound (apply number update book).0
  unfolding apply
  apply-IsSound update book h =
      ground (arith, apply_snapshot-IsSound update book, apply_delta-IsSound update book h)

pub invalidate-IsSound :
    (reason : String) (book : OrderBook) → IsSound book → IsSound (invalidate reason book)
unfolding invalidate
invalidate-IsSound reason book h = ground arith

reset-IsSound : (book : OrderBook) → IsSound (reset book)
unfolding reset max_key min_key
reset-IsSound book = ground arith

pub new_book-IsSound : (symbol : String) (depth : ℕ) → IsSound (new_book symbol depth)
unfolding new_book max_key min_key
new_book-IsSound symbol depth = ground arith

-- A call of one of the methods that change the book.
pub data Call (Raw : Type 0) : Type 0 where
  update : BookUpdate Raw → Call Raw
  invalidated : String → Call Raw
  resetting : Call Raw

module _ {Raw : Type 0} (number : Raw → Option ℤ) where
  unfoldable pub after : List (Call Raw) → OrderBook → OrderBook
  after [] book = book
  after (update up ∷ calls) book = after calls (apply number up book).0
  after (invalidated reason ∷ calls) book = after calls (invalidate reason book)
  after (resetting ∷ calls) book = after calls (reset book)

  after-IsSound :
      (calls : List (Call Raw)) (book : OrderBook) → IsSound book → IsSound (after calls book)
  unfolding after
  after-IsSound [] book h = h
  after-IsSound (update up ∷ calls) book h =
      after-IsSound calls (apply number up book).0 (apply-IsSound number up book h)
  after-IsSound (invalidated reason ∷ calls) book h =
      after-IsSound calls (invalidate reason book) (invalidate-IsSound reason book h)
  after-IsSound (resetting ∷ calls) book h = after-IsSound calls (reset book) (reset-IsSound book)

  -- After any calls in any order the book meets its invariant.
  pub reached-IsSound :
      (symbol : String) (depth : ℕ) (calls : List (Call Raw))
      → IsSound (after calls (new_book symbol depth))
  reached-IsSound symbol depth calls =
      after-IsSound calls (new_book symbol depth) (new_book-IsSound symbol depth)
