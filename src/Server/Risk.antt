-- ===== src/Server/Risk.antt =====
-- apps/server/src/engine/risk.ts: whether a position may be opened, and how large. The rows that the
-- database gives are arguments. `decimal_of` and `number_of` stand for the conversions between doubles
-- and decimals, which go through the engine's printing of numbers. `none` is an exception, also where
-- a double has no decimal.
pub mod Booked
pub mod Sizing
use ztrade.Prelude.{
  ◌>>=◌, ℕ, suc, String, Bool, true, false, not, ◌&&◌, ◌||◌, Option, none, some, List, [], ◌∷◌,
  ◌++◌, ltb, leb, if◌then◌else◌,
}
use ztrade.Prelude.Double.{Double}
use ztrade.Prelude.Table.{string_eq}
use ztrade.Core.Decimal.{Decimal, RoundingMode, half_up}
use ztrade.Core.Money.{
  quantity_for_notional, round_to_tick, protective_prices, PositionSide, long, short,
}

pub data SizingMode : Type 0 where
  fixed_notional percent_equity risk_based : SizingMode

pub record TradeLimits (F : Type 0) : Type 0 where
  pub sizing_mode : SizingMode
  pub max_position_size : F
  pub max_trades_per_day : ℕ
  pub max_open_positions : ℕ
  pub global_risk_cap : F
  pub equity_pct : F
  pub risk_per_trade_pct : F
  pub stop_loss_pct : F
  pub take_profit_pct : F

-- A position of the exchange, or an open trade of the database.
pub record Holding (F : Type 0) : Type 0 where
  pub held_symbol : String
  pub entry_price : F
  pub held_size : F

pub record Instrument (F : Type 0) : Type 0 where
  pub qty_step : F
  pub min_order_qty : F
  pub max_order_qty : F
  pub min_notional : F

pub record EntryRequest (F : Type 0) : Type 0 where
  pub limits : TradeLimits F
  pub pairs : List String
  pub open_positions : List (Holding F)
  pub open_trades : List (Holding F)
  pub trades_today : ℕ
  pub account_equity : F
  pub wanted : String
  pub price : F
  pub instrument : Instrument F

pub data Denial : Type 0 where
  not_a_pair daily_cap already_open too_many global_cap no_capital too_small too_cheap too_large :
      Denial

pub data RiskVerdict (F : Type 0) : Type 0 where
  entry : (notional quantity : F) → RiskVerdict F
  no_entry : Denial → RiskVerdict F

abbrev pub has_symbol : {F : Type 0} → String → List (Holding F) → Bool
has_symbol s [] = false
has_symbol s (h ∷ holdings) = if string_eq.beq h.held_symbol s then true else has_symbol s holdings

abbrev pub includes : List String → String → Bool
includes [] s = false
includes (p ∷ pairs) s = if string_eq.beq p s then true else includes pairs s

-- The size of the set of the symbols.
abbrev pub count_symbols : {F : Type 0} → List (Holding F) → ℕ
count_symbols [] = 0
count_symbols (h ∷ holdings) =
    if has_symbol h.held_symbol holdings
    then count_symbols holdings
    else suc (count_symbols holdings)

module _ {F : Type 0} ⦃d : Double F⦄ where
  abbrev nought : F
  nought = d.literal 0 0

  abbrev hundredth : F → F
  hundredth x = d.div x (d.literal 100 0)

  abbrev pub booked : EntryRequest F → List (Holding F)
  booked q = q.open_positions ++ q.open_trades

  abbrev pub exposure_from : List (Holding F) → F → F
  exposure_from [] total = total
  exposure_from (h ∷ holdings) total =
      exposure_from holdings (d.add total (d.mul h.entry_price h.held_size))

  -- Trades whose symbol the exchange does not report.
  abbrev pub paper_only : List (Holding F) → List (Holding F) → List (Holding F)
  paper_only positions [] = []
  paper_only positions (t ∷ trades) =
      if has_symbol t.held_symbol positions
      then paper_only positions trades
      else t ∷ paper_only positions trades

  abbrev pub current_exposure : EntryRequest F → F
  current_exposure q =
      d.add (exposure_from q.open_positions nought)
        (exposure_from (paper_only q.open_positions q.open_trades) nought)

  unfoldable pub intended_by : SizingMode → TradeLimits F → F → F
  intended_by percent_equity l equity =
      if d.lt nought equity then d.mul equity (hundredth l.equity_pct) else l.max_position_size
  intended_by risk_based l equity =
      if d.le equity nought || d.le l.stop_loss_pct nought
      then l.max_position_size
      else d.div (d.mul equity (hundredth l.risk_per_trade_pct)) (hundredth l.stop_loss_pct)
  intended_by fixed_notional l equity = l.max_position_size

  abbrev pub intended_notional : TradeLimits F → F → F
  intended_notional l equity = intended_by l.sizing_mode l equity

  abbrev pub headroom : EntryRequest F → F
  headroom q = d.sub q.limits.global_risk_cap (current_exposure q)

  -- `Math.min(...candidates)`
  abbrev pub clamped : EntryRequest F → F
  clamped q =
      let three =
        d.min (d.min (intended_notional q.limits q.account_equity) q.limits.max_position_size)
          (headroom q) in
      if d.lt nought q.account_equity then d.min three q.account_equity else three

  module _ (decimal_of : F → Option Decimal) (number_of : Decimal → F) where
    unfoldable pub quantity_for : F → F → F → Option F
    quantity_for notional price step =
        if d.le price nought
          || (d.le step nought || (not (d.is_finite notional) || d.le notional nought))
        then some nought
        else do
          p ← decimal_of price
          n ← decimal_of notional
          s ← decimal_of step
          quantity ← quantity_for_notional n p s
          some (number_of quantity)

    -- `roundToTick` of the server.
    unfoldable pub tick_price : F → F → Option F
    tick_price price tick = if d.le tick nought || not (d.is_finite price) then some price else do
      p ← decimal_of price
      s ← decimal_of tick
      rounded ← round_to_tick p s half_up
      some (number_of rounded)

    unfoldable pub stop_and_target : F → PositionSide → TradeLimits F → Option (F × F)
    stop_and_target entry_price side l = do
      e ← decimal_of entry_price
      sl ← decimal_of l.stop_loss_pct
      tp ← decimal_of l.take_profit_pct
      prices ← protective_prices e side sl tp
      some (number_of prices.0, number_of prices.1)

    -- The checks on the quantity.
    abbrev check_size : EntryRequest F → Option F → Option (RiskVerdict F)
    check_size q none = none
    check_size q (some quantity) =
        let actual = d.mul quantity q.price in
        if d.lt quantity q.instrument.min_order_qty
        then some (no_entry too_small)
        else if d.lt actual q.instrument.min_notional
        then some (no_entry too_cheap)
        else if d.lt q.instrument.max_order_qty quantity
        then some (no_entry too_large)
        else some (entry actual quantity)

    abbrev check_capital : EntryRequest F → Option (RiskVerdict F)
    check_capital q =
        if d.le q.limits.global_risk_cap (current_exposure q)
        then some (no_entry global_cap)
        else if d.le (clamped q) nought
        then some (no_entry no_capital)
        else check_size q (quantity_for (clamped q) q.price q.instrument.qty_step)

    unfoldable pub assess_risk : EntryRequest F → Option (RiskVerdict F)
    assess_risk q =
        if not (includes q.pairs q.wanted)
        then some (no_entry not_a_pair)
        else if ltb 0 q.limits.max_trades_per_day && leb q.limits.max_trades_per_day q.trades_today
        then some (no_entry daily_cap)
        else if has_symbol q.wanted (booked q)
        then some (no_entry already_open)
        else if ltb 0 q.limits.max_open_positions
            && leb q.limits.max_open_positions (count_symbols (booked q))
        then some (no_entry too_many)
        else check_capital q

  -- Where the trailing stop would stand.
  abbrev pub trail_candidate : PositionSide → F → F → F
  trail_candidate long mark pct = d.sub mark (d.mul mark (hundredth pct))
  trail_candidate short mark pct = d.add mark (d.mul mark (hundredth pct))

  abbrev trail_move : PositionSide → F → Option F → Option F
  trail_move side candidate none = some candidate
  trail_move long candidate (some stop) = if d.lt stop candidate then some candidate else none
  trail_move short candidate (some stop) = if d.lt candidate stop then some candidate else none

  unfoldable pub trailing_stop_for : PositionSide → F → Option F → F → Option F
  trailing_stop_for side mark stop pct =
      if d.le pct nought || d.le mark nought
      then none
      else trail_move side (trail_candidate side mark pct) stop
