-- ===== src/Server/Risk/Sizing.antt =====
-- What an allowed entry is worth.
use ztrade.Prelude.{◌<◌, ◌≡◌, inl, inr, true, false, Option, some, arith, Bool-cases, Option-cases}
use mathlib.Core.Path.{subst}
use ztrade.Prelude.Table.{string_eq}
use ztrade.Prelude.Double.{Double, IsOrdered, ◌≼◌, ◌≺◌}
use ztrade.Core.Decimal.{Decimal}
use ztrade.Server.Risk.Booked.{
  Member, includes-Member, IsFree, has_symbol-IsFree, HasSlot, booked-HasSlot, exposed,
  exposure-exposed,
}
use ztrade.Server.Risk.{
  EntryRequest, entry, includes, has_symbol, booked, count_symbols, current_exposure,
  intended_notional, headroom, clamped, quantity_for, assess_risk,
}

module _ {F : Type 0} ⦃d : Double F⦄ where
  -- The ceilings are numbers, not NaN.
  pub record AreNumbers (q : EntryRequest F) : Type 0 where
    pub request_num :
        intended_notional q.limits q.account_equity ≼ intended_notional q.limits q.account_equity
    pub position_num : q.limits.max_position_size ≼ q.limits.max_position_size
    pub headroom_num : headroom q ≼ headroom q
    pub equity_num : q.account_equity ≼ q.account_equity

module _ {F : Type 0} ⦃d : Double F⦄ (decimal_of : F → Option Decimal)
    (number_of : Decimal → F) where
  -- The quantity is the one for a notional within every ceiling.
  pub record IsSized (q : EntryRequest F) (quantity : F) : Type 0 where
    pub wish : F
    pub sized : quantity_for decimal_of number_of wish q.price q.instrument.qty_step ≡ some quantity
    pub by_position : wish ≼ q.limits.max_position_size
    pub by_request : wish ≼ intended_notional q.limits q.account_equity
    pub by_headroom : wish ≼ d.sub q.limits.global_risk_cap (exposed q)
    pub by_equity : d.literal 0 0 ≺ q.account_equity → wish ≼ q.account_equity

  -- What the checks promise of an entry of a quantity: the symbol is traded and free, no count is
  -- exceeded, there is headroom, and the exchange takes an order of that size.
  pub record WithinLimits (q : EntryRequest F) (notional quantity : F) : Type 0 where
    pub is_pair : Member q.wanted q.pairs
    pub is_free : IsFree q.wanted q.open_positions × IsFree q.wanted q.open_trades
    pub day_room : 0 < q.limits.max_trades_per_day → q.trades_today < q.limits.max_trades_per_day
    pub slot_room :
        0 < q.limits.max_open_positions
        → HasSlot q.limits.max_open_positions q.open_positions q.open_trades
    pub has_headroom : d.le q.limits.global_risk_cap (exposed q) ≡ false
    pub is_sized : IsSized q quantity
    pub value : notional ≡ d.mul quantity q.price
    pub not_small : d.lt quantity q.instrument.min_order_qty ≡ false
    pub not_cheap : d.lt notional q.instrument.min_notional ≡ false
    pub not_large : d.lt q.instrument.max_order_qty quantity ≡ false

  module _ (laws : IsOrdered F) where
    open laws use {min_le, le_trans, refl_of_le}

    -- The least of the ceilings is below each.
    clamped_le :
        (q : EntryRequest F)
        → AreNumbers q
        → (clamped q ≼ intended_notional q.limits q.account_equity)
          × (clamped q ≼ q.limits.max_position_size)
          × (clamped q ≼ headroom q)
          × (d.literal 0 0 ≺ q.account_equity → clamped q ≼ q.account_equity)
    clamped_le q n =
        let wish = intended_notional q.limits q.account_equity in
        let two = d.min wish q.limits.max_position_size in
        let three = d.min two (headroom q) in
        let (below_wish, below_size) =
          min_le wish q.limits.max_position_size n.request_num n.position_num in
        let (below_two, below_room) =
          min_le two (headroom q) (refl_of_le two wish below_wish).0 n.headroom_num in
        let (below_three, below_equity) =
          min_le three q.account_equity (refl_of_le three two below_two).0 n.equity_num in
        elim (Bool-cases (d.lt (d.literal 0 0) q.account_equity)) [
          | inl has ↦ rw has (
            le_trans _ _ _ below_three (le_trans _ _ _ below_two below_wish),
            le_trans _ _ _ below_three (le_trans _ _ _ below_two below_size),
            le_trans _ _ _ below_three below_room,
            λ h. below_equity,
          )
          | inr not_known ↦ rw not_known (
            le_trans _ _ _ below_two below_wish,
            le_trans _ _ _ below_two below_size,
            below_room,
            λ h. cc,
          )
        ]

    -- What the guards say of an entry.
    assess-guards :
        (q : EntryRequest F) (notional quantity : F)
        → assess_risk decimal_of number_of q ≡ some (entry notional quantity)
        → ((includes q.pairs q.wanted ≡ true)
            × (has_symbol q.wanted (booked q) ≡ false)
            × (0 < q.limits.max_trades_per_day → q.trades_today < q.limits.max_trades_per_day)
            × (0 < q.limits.max_open_positions
                → count_symbols (booked q) < q.limits.max_open_positions)
            × (d.le q.limits.global_risk_cap (current_exposure q) ≡ false))
          × ((quantity_for decimal_of number_of (clamped q) q.price q.instrument.qty_step
                ≡ some quantity)
              × (notional ≡ d.mul quantity q.price)
              × (d.lt quantity q.instrument.min_order_qty ≡ false)
              × (d.lt notional q.instrument.min_notional ≡ false)
              × (d.lt q.instrument.max_order_qty quantity ≡ false))
    unfolding assess_risk
    assess-guards q notional quantity h = ground (
      arith,
      Option-cases (quantity_for decimal_of number_of (clamped q) q.price q.instrument.qty_step),
    )

    -- Where the ceilings are numbers: a position is opened only in a pair of the strategy that no
    -- position and no open trade holds, below the day's count, with fewer symbols in use than the
    -- account may have, and with the value of the positions and of the open trades that are not among
    -- them below the global cap; its quantity is the one computed for a notional no larger than the
    -- strategy's wish, the position limit, what that cap leaves and, where it is known, the equity; and
    -- the exchange's minimum and maximum admit it.
    pub assess-WithinLimits :
        (q : EntryRequest F) (notional quantity : F)
        → AreNumbers q
        → assess_risk decimal_of number_of q ≡ some (entry notional quantity)
        → WithinLimits q notional quantity
    assess-WithinLimits q notional quantity n h =
        let ((pair, free, day, slot, cap), (size, value, small, cheap, large)) =
          assess-guards q notional quantity h in
        let (request, position, room, equity) = clamped_le q n in
        let same = exposure-exposed q in
        record {
          is_pair = (includes-Member q.wanted q.pairs).0 pair;
          is_free = has_symbol-IsFree q.wanted q.open_positions q.open_trades free;
          day_room = day;
          slot_room = λ some_limit. booked-HasSlot q q.limits.max_open_positions (slot some_limit);
          has_headroom = subst (λ x. d.le q.limits.global_risk_cap x ≡ false) same cap;
          is_sized = record {
            wish = clamped q;
            sized = size;
            by_position = position;
            by_request = request;
            by_headroom = subst (λ x. clamped q ≼ d.sub q.limits.global_risk_cap x) same room;
            by_equity = equity;
          };
          value = value;
          not_small = small;
          not_cheap = cheap;
          not_large = large;
        }
