-- ===== src/Core/Book.antt =====
-- packages/core/src/events.ts: the touch of a book snapshot, and what a market order would pay.
use ztrade.Prelude.{ℕ, Bool, Option, none, some, List, [], ◌∷◌, if◌then◌else◌, take}
use ztrade.Prelude.Double.{Double}
use ztrade.Core.Intent.{OrderSide}

pub record BookLevel (F : Type 0) : Type 0 where
  pub price : F
  pub size : F

pub record BookSides (F : Type 0) : Type 0 where
  pub bids : List (BookLevel F)
  pub asks : List (BookLevel F)

pub record Touch (F : Type 0) : Type 0 where
  pub bid : Option F
  pub ask : Option F
  pub mid : Option F

abbrev pub first_price : {F : Type 0} → List (BookLevel F) → Option F
first_price [] = none
first_price (l ∷ levels) = some l.price

module _ {F : Type 0} ⦃d : Double F⦄ where
  abbrev mid_of : Option F → Option F → Option F
  mid_of (some bid) (some ask) = some (d.div (d.add bid ask) (d.literal 2 0))
  mid_of _ _ = none

  abbrev pub top_of_book : BookSides F → Touch F
  top_of_book book = record {
    bid = first_price book.bids;
    ask = first_price book.asks;
    mid = mid_of (first_price book.bids) (first_price book.asks);
  }

  -- The loop of `sweepPrice`: what remains, and what has been paid.
  unfoldable pub sweep_levels : List (BookLevel F) → F → F → F × F
  sweep_levels [] remaining notional = (remaining, notional)
  sweep_levels (l ∷ levels) remaining notional =
      let taken = d.min remaining l.size in
      let notional' = d.add notional (d.mul taken l.price) in
      let remaining' = d.sub remaining taken in
      if d.le remaining' (d.literal 0 0)
      then (remaining', notional')
      else sweep_levels levels remaining' notional'

  abbrev taken_side : BookSides F → OrderSide → List (BookLevel F)
  taken_side book OrderSide.buy = book.asks
  taken_side book OrderSide.sell = book.bids

  unfoldable pub sweep_price : BookSides F → OrderSide → F → Option F
  unfolding sweep_levels
  sweep_price book side qty =
      let (remaining, notional) = sweep_levels (taken_side book side) qty (d.literal 0 0) in
      if d.le qty (d.literal 0 0)
      then none
      else if d.lt (d.literal 0 0) remaining
      then none
      else some (d.div notional qty)

  -- The distance that a sweep lies on the wrong side of the mid, in basis points.
  abbrev pub adverse_bps : OrderSide → F → F → F
  adverse_bps OrderSide.buy sweep mid = d.mul (d.div (d.sub sweep mid) mid) (d.literal 10000 0)
  adverse_bps OrderSide.sell sweep mid = d.mul (d.div (d.sub mid sweep) mid) (d.literal 10000 0)

  abbrev bps_of : OrderSide → F → Option F → Option F
  bps_of side mid none = none
  bps_of side mid (some sweep) = some (adverse_bps side sweep mid)

  abbrev slippage_at : BookSides F → OrderSide → F → Option F → Option F
  slippage_at book side qty none = none
  slippage_at book side qty (some mid) =
      if d.le mid (d.literal 0 0) then none else bps_of side mid (sweep_price book side qty)

  unfoldable pub slippage_bps : BookSides F → OrderSide → F → Option F
  slippage_bps book side qty = slippage_at book side qty (top_of_book book).mid

  abbrev pub bps_epsilon : F
  bps_epsilon = d.literal 1 6

  abbrev pub exceeds_limit_bps : F → F → Bool
  exceeds_limit_bps actual limit_bps = d.lt (d.add limit_bps bps_epsilon) actual

  abbrev size_total : List (BookLevel F) → F → F
  size_total [] total = total
  size_total (l ∷ levels) total = size_total levels (d.add total l.size)

  -- `levels.slice(0, depth).reduce(…)` on each side.
  unfoldable pub book_imbalance : BookSides F → ℕ → F
  book_imbalance book depth =
      let bid_size = size_total (take depth book.bids) (d.literal 0 0) in
      let ask_size = size_total (take depth book.asks) (d.literal 0 0) in
      let total = d.add bid_size ask_size in
      if d.eq total (d.literal 0 0) then d.literal 0 0 else d.div (d.sub bid_size ask_size) total
