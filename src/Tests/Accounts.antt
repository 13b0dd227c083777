-- ===== src/Tests/Accounts.antt =====
-- The server's sizing, its trade rows and its averages, on small data.
use ztrade.Prelude.{
  ℕ, ◌+◌, ◌≤◌, String, ◌≡◌, refl, true, Option, none, some, [], ◌∷◌, arith, if◌then◌else◌,
}
use ztrade.Prelude.Int.{pos, ◌+ℤ◌, ◌-ℤ◌, ◌*ℤ◌, neg_ℤ}
use ztrade.Prelude.Table.{string_eq}
use ztrade.Prelude.Double.{Units, whole_units, whole_units-IsOrdered}
use ztrade.Core.Decimal.{Decimal, sign, mul, div, round_to_step, apply_rounding, quot, raise}
use ztrade.Core.Money.{long, quantity_for_notional}
use ztrade.Server.Risk.{fixed_notional, EntryRequest, quantity_for, intended_by, assess_risk, entry}
use ztrade.Server.Risk.Sizing.{WithinLimits, AreNumbers, assess-WithinLimits}
use ztrade.Server.Database.{open_trade, TradeRow, TradeBook, changes, get_trade, insert_trade}
use ztrade.Server.Trades.{reconcile_paper}
use ztrade.Server.Trades.Counts.{times}
use ztrade.Server.Trades.Once.{IsBook, fresh, opened, papered, settled_once}
use ztrade.Server.Trades.Paper.{is_some, due_among, reconcile_paper-settles}
use ztrade.Server.Trades.Ratchet.{IsTightened, trail_all, trailing_tightens}
use ztrade.Features.Rolling.{Ema, new_ema, new_mean}
use ztrade.Features.RingBuffer.{new_ring}

abbrev units : ℕ → Units
units n = some (pos n)

abbrev decimal_of : Units → Option Decimal
decimal_of none = none
decimal_of (some n) = some (record { c = n; s = 0 })

abbrev number_of : Decimal → Units
number_of x = some x.c

abbrev clock : TradeRow Units → ℕ
clock t = 9

abbrev request : EntryRequest Units
request = record {
  limits = record {
    sizing_mode = fixed_notional;
    max_position_size = units 50;
    max_trades_per_day = 5;
    max_open_positions = 3;
    global_risk_cap = units 200;
    equity_pct = units 5;
    risk_per_trade_pct = units 1;
    stop_loss_pct = units 2;
    take_profit_pct = units 4;
  };
  pairs = "BTC" ∷ "ETH" ∷ [];
  open_positions = record { held_symbol = "ETH"; entry_price = units 10; held_size = units 3 } ∷ [];
  open_trades = [];
  trades_today = 1;
  account_equity = units 100;
  wanted = "BTC";
  price = units 7;
  instrument = record {
    qty_step = units 1;
    min_order_qty = units 1;
    max_order_qty = units 20;
    min_notional = units 5;
  };
}

-- 50 at a price of 7 buys 7 units, which are worth 49.
sized_down : assess_risk decimal_of number_of request ≡ some (entry (units 49) (units 7))
unfolding assess_risk sign quantity_for intended_by quantity_for_notional div mul round_to_step
    apply_rounding quot raise ◌*ℤ◌ ◌-ℤ◌ ◌+ℤ◌
sized_down = refl

numbers : AreNumbers request
unfolding intended_by ◌*ℤ◌ ◌-ℤ◌ ◌+ℤ◌
numbers = record { request_num = refl; position_num = refl; headroom_num = refl; equity_num = refl }

assess-WithinLimits_example : WithinLimits decimal_of number_of request (units 49) (units 7)
assess-WithinLimits_example =
    assess-WithinLimits decimal_of number_of whole_units-IsOrdered request (units 49) (units 7)
      numbers sized_down

abbrev bought : TradeRow Units
bought = record {
  id = "t1";
  opened_at = 1;
  closed_at = none;
  traded = "BTC";
  side = long;
  size = units 2;
  entry_at = units 100;
  exit_at = none;
  pnl = units 0;
  fees = units 0;
  status = open_trade;
  close_reason = none;
  strategy_id = none;
  exchange_order_id = none;
  stop_loss = some (units 90);
  take_profit = some (units 120);
  paper = true;
}

abbrev empty_book : TradeBook Units
empty_book = record { rows = []; announced = [] }

abbrev one_trade : TradeBook Units
one_trade = record { rows = bought ∷ []; announced = [] }

was_opened : insert_trade bought empty_book ≡ some one_trade
unfolding insert_trade
was_opened = refl

abbrev stopped : TradeBook Units
stopped = (reconcile_paper decimal_of number_of clock (("BTC", units 85) ∷ []) one_trade).0

stopped-IsBook : IsBook decimal_of number_of clock stopped
stopped-IsBook =
    papered (("BTC", units 85) ∷ []) one_trade
      (opened bought empty_book one_trade refl was_opened fresh)

settled_once_example :
    (times "t1" stopped.rows ≤ 1)
    × (times "t1" stopped.announced + changes "t1" stopped.rows ≡ times "t1" stopped.rows)
settled_once_example = settled_once decimal_of number_of clock stopped stopped-IsBook "t1"

reconcile_paper-settles_example :
    (is_some (reconcile_paper decimal_of number_of clock (("BTC", units 85) ∷ []) one_trade).1
      ≡ true)
    × ((id : String)
        → changes id stopped.rows ≡ (
            if due_among (("BTC", units 85) ∷ []) id (bought ∷ [])
            then 0
            else changes id one_trade.rows))
reconcile_paper-settles_example =
    reconcile_paper-settles decimal_of number_of clock (("BTC", units 85) ∷ []) one_trade refl
      (record { size_reads = refl; entry_reads = refl; stop_reads = refl; target_reads = refl }, tt)

trailing_tightens_example :
    (s : TradeRow Units) × (get_trade "t1"
        (trail_all
          ((("BTC", units 110) ∷ [], units 5) ∷ (("BTC", units 104) ∷ [], units 5) ∷ [])
          one_trade).rows
      ≡ some s)
    × IsTightened bought s
trailing_tightens_example =
    trailing_tightens whole_units-IsOrdered
      ((("BTC", units 110) ∷ [], units 5) ∷ (("BTC", units 104) ∷ [], units 5) ∷ []) one_trade
      (λ id. ground arith) "t1" bought refl

abbrev average : Ema Units
average = record {
  k = units 0;
  seed = record {
    buffer = record { capacity = 2; slots = units 0 ∷ units 0 ∷ []; head = 0; count = 0 };
    total = units 0;
  };
  current = none;
}

average_made : new_ema 2 ≡ some average
unfolding new_ema new_ring new_mean ◌+ℤ◌ ◌-ℤ◌ ◌*ℤ◌ neg_ℤ
average_made = refl
