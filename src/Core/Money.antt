-- ===== src/Core/Money.antt =====
-- packages/core/src/money.ts over decimals: `toDecimal` has been applied to the inputs.
use ztrade.Prelude.{
  ℕ, ◌+◌, ◌*◌, ◌≡◌, ap, Bool, true, false, ◌&&◌, Option, none, some, arith, if◌then◌else◌,
}
use ztrade.Prelude.Int.{ℤ, pos, neg_ℤ, ◌*ℤ◌, *ℤ_parts, neg_parts, eq_of_parts, pos_part, neg_part}
use ztrade.Core.Decimal.{
  RoundingMode, down, half_up, Decimal, of_bigint, zero_decimal, add, sub, mul, neg, div,
  round_to_step, sign, Sign, plus,
}

pub data PositionSide : Type 0 where
  long short : PositionSide

unfoldable pub round_qty_down : Decimal → Decimal → Option Decimal
round_qty_down qty step = round_to_step step down qty

unfoldable pub round_to_tick : Decimal → Decimal → RoundingMode → Option Decimal
round_to_tick price tick mode = round_to_step tick mode price

abbrev is_positive : Sign → Bool
is_positive plus = true
is_positive _ = false

abbrev then_step : Decimal → Option Decimal → Option Decimal
then_step step (some raw) = round_to_step step down raw
then_step step none = none

unfoldable pub quantity_for_notional : Decimal → Decimal → Decimal → Option Decimal
quantity_for_notional notional price step =
    if is_positive (sign price) && (is_positive (sign notional) && is_positive (sign step))
    then then_step step (div price (step.s + 8) down notional)
    else some zero_decimal

unfoldable pub notional_of : Decimal → Decimal → Decimal
notional_of price qty = mul price qty

abbrev signed : PositionSide → Decimal → Decimal
signed long delta = delta
signed short delta = neg delta

unfoldable pub gross_pnl : PositionSide → Decimal → Decimal → Decimal → Decimal
gross_pnl side size entry exit = mul (signed side (sub exit entry)) size

unfoldable pub round_trip_fees : Decimal → Decimal → Decimal → Decimal → Decimal
round_trip_fees size entry exit fee_rate = mul (add (mul entry size) (mul exit size)) fee_rate

unfoldable pub net_pnl : PositionSide → Decimal → Decimal → Decimal → Decimal → Decimal
unfolding gross_pnl round_trip_fees
net_pnl side size entry exit fee_rate =
    sub (gross_pnl side size entry exit) (round_trip_fees size entry exit fee_rate)

-- The two factors of `protectivePrices`, from the fractions.
abbrev prices_of : PositionSide → Decimal → Decimal → Decimal → Decimal × Decimal
prices_of long e sl tp = (mul e (sub (of_bigint (pos 1)) sl), mul e (add (of_bigint (pos 1)) tp))
prices_of short e sl tp = (mul e (add (of_bigint (pos 1)) sl), mul e (sub (of_bigint (pos 1)) tp))

abbrev both_prices :
    PositionSide → Decimal → Option Decimal → Option Decimal → Option (Decimal × Decimal)
both_prices side e (some sl) (some tp) = some (prices_of side e sl tp)
both_prices side e _ _ = none

-- The stop loss and the take profit.
unfoldable pub protective_prices :
    Decimal → PositionSide → Decimal → Decimal → Option (Decimal × Decimal)
protective_prices entry side stop_loss_pct take_profit_pct =
    both_prices side entry (div (of_bigint (pos 100)) 12 half_up stop_loss_pct)
      (div (of_bigint (pos 100)) 12 half_up take_profit_pct)

neg_mul : (a b : ℤ) → neg_ℤ a *ℤ b ≡ neg_ℤ (a *ℤ b)
neg_mul a b = eq_of_parts _ _ (
    omega (
      arith,
      *ℤ_parts (neg_ℤ a) b,
      *ℤ_parts a b,
      neg_parts (a *ℤ b),
      ap (λ (t : ℕ). t * pos_part b) (neg_parts a),
      ap (λ (t : ℕ). t * neg_part b) (neg_parts a),
    ))

-- The gross results of the two sides of one trade are exactly opposite: what a long gains, a short
-- of the same size between the same prices loses, to the last digit.
pub gross_pnl-opposite :
    (size entry exit : Decimal)
    → gross_pnl short size entry exit ≡ neg (gross_pnl long size entry exit)
unfolding gross_pnl mul neg
gross_pnl-opposite size entry exit =
    ap (λ c. record { c = c; s = (sub exit entry).s + size.s }) (neg_mul (sub exit entry).c size.c)
