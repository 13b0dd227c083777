-- ===== src/Risk/Engine.antt =====
-- packages/risk/src/engine.ts: the single gate that every intent passes. Times are whole
-- milliseconds, all other numbers doubles. The text of a reason is left out: a denial carries the
-- check that it failed.
pub mod Limits
pub mod Rate
use ztrade.Prelude.{
  ℕ, String, Bool, true, false, not, ◌&&◌, ◌||◌, Option, none, some, List, [], ◌∷◌, ◌++◌, leb,
  if◌then◌else◌, length,
}
use Prim.Native.String.{compare, ◌++◌ as str_append}
use Prim.Native.Nat.{Ordering}
use ztrade.Prelude.Int.{ℤ, ◌-ℤ◌, ltb_ℤ}
use ztrade.Prelude.Double.{Double}
use ztrade.Prelude.Table.{Table, string_eq, lookup}
use ztrade.Core.Intent.{OrderIntent, ExecutionStyle, limit}
use ztrade.Risk.Breaker.{
  BreakerState, halt, TripReason, CircuitBreaker, blocks_new_risk, new_breaker, escalate,
}

pub record RiskLimits (F : Type 0) : Type 0 where
  pub max_position_notional : F
  pub max_aggregate_notional : F
  pub max_leverage : F
  pub max_daily_loss_pct : F
  pub max_drawdown_pct : F
  pub max_correlated_notional : F
  pub correlation_threshold : F
  pub max_orders_per_window : ℕ
  pub rate_window_ms : ℤ
  pub max_price_deviation_pct : F

pub record PortfolioState (F : Type 0) : Type 0 where
  pub positions : Table String F
  pub marks : Table String F
  pub equity : F
  pub day_start_equity : F
  pub high_water_mark : F
  pub realised_pnl_today : F
  pub correlations : Table String F

-- `[a, b].sort().join("|")`
abbrev pub correlation_key : String → String → String
correlation_key a b = elim (compare b a) [
  | Ordering.lt ↦ str_append b (str_append "|" a)
  | _ ↦ str_append a (str_append "|" b)
]

pub data RiskCheck : Type 0 where
  breaker position_notional aggregate_notional leverage daily_loss drawdown correlation order_rate :
      RiskCheck
  price_band sanity : RiskCheck

pub data RiskDecision (F : Type 0) : Type 0 where
  allowed : OrderIntent F → RiskDecision F
  denied : RiskCheck → OrderIntent F → RiskDecision F

pub record RiskContext (F : Type 0) : Type 0 where
  pub portfolio : PortfolioState F
  pub mark : F
  pub at : ℤ

pub record RiskEngine (F : Type 0) : Type 0 where
  pub limits : RiskLimits F
  pub circuit : CircuitBreaker F
  pub recent_orders : List ℤ
  pub decisions : List (RiskDecision F)

-- Timestamps before the cutoff are dropped from the front.
unfoldable pub drop_before : ℤ → List ℤ → List ℤ
drop_before cutoff [] = []
drop_before cutoff (t ∷ times) = if ltb_ℤ t cutoff then drop_before cutoff times else t ∷ times

abbrev pub price_of : {F : Type 0} → ExecutionStyle F → Option F
price_of (limit price tif) = some price
price_of _ = none

module _ {F : Type 0} ⦃d : Double F⦄ where
  abbrev pub nought : F
  nought = d.literal 0 0

  unfoldable pub new_engine : RiskLimits F → RiskEngine F
  new_engine limits = record {
    limits = limits;
    circuit = new_breaker;
    recent_orders = [];
    decisions = [];
  }

  abbrev or_nought : Option F → F
  or_nought (some x) = x
  or_nought none = nought

  -- A position's value, if its symbol has a mark.
  abbrev add_value : F → Option F → F → F
  add_value size (some mark) total = d.add total (d.mul (d.abs size) mark)
  add_value size none total = total

  total_from : F → Table String F → Table String F → F
  total_from total marks [] = total
  total_from total marks ((symbol, size) ∷ positions) =
      total_from (add_value size (lookup symbol marks) total) marks positions

  unfoldable pub total_notional : PortfolioState F → F
  unfolding total_from
  total_notional p = total_from nought p.marks p.positions

  -- Whether a position held in another symbol counts as the same trade.
  abbrev is_correlated : F → Option F → Bool
  is_correlated threshold none = false
  is_correlated threshold (some c) = d.le threshold (d.abs c)

  abbrev counts_with : PortfolioState F → String → F → String → F → Bool
  counts_with p symbol threshold held size =
      not (d.eq size nought)
      && (string_eq.beq held symbol
          || is_correlated threshold (lookup (correlation_key symbol held) p.correlations))

  correlated_from : PortfolioState F → String → F → F → Table String F → F
  correlated_from p symbol threshold total [] = total
  correlated_from p symbol threshold total ((held, size) ∷ positions) =
      correlated_from p symbol threshold
        (if counts_with p symbol threshold held size
          then add_value size (lookup held p.marks) total
          else total)
        positions

  unfoldable pub correlated_notional : PortfolioState F → String → F → F
  unfolding correlated_from
  correlated_notional p symbol threshold = correlated_from p symbol threshold nought p.positions

  -- The first condition of `evaluatePortfolio`.
  evaluate_loss : RiskLimits F → PortfolioState F → ℤ → CircuitBreaker F → CircuitBreaker F
  evaluate_loss l p at b =
      let loss_pct = d.div (d.neg p.realised_pnl_today) p.day_start_equity in
      if d.lt nought p.day_start_equity && d.le l.max_daily_loss_pct loss_pct
      then (escalate halt (TripReason.daily_loss loss_pct l.max_daily_loss_pct) at b).0
      else b

  evaluate_drawdown : RiskLimits F → PortfolioState F → ℤ → CircuitBreaker F → CircuitBreaker F
  evaluate_drawdown l p at b =
      let fallen = d.div (d.sub p.high_water_mark p.equity) p.high_water_mark in
      if d.lt nought p.high_water_mark && d.le l.max_drawdown_pct fallen
      then (escalate halt (TripReason.drawdown fallen l.max_drawdown_pct) at b).0
      else b

  unfoldable pub evaluate_portfolio :
      PortfolioState F → ℤ → RiskEngine F → RiskEngine F × BreakerState
  unfolding evaluate_loss evaluate_drawdown
  evaluate_portfolio p at engine =
      let b =
        evaluate_drawdown engine.limits p at (evaluate_loss engine.limits p at engine.circuit) in
      (record engine { circuit = b }, b.current)

  abbrev pub deviation : F → F → F
  deviation price mark = d.div (d.abs (d.sub price mark)) mark

  -- Check 3.
  abbrev pub out_of_band : RiskLimits F → F → Option F → Bool
  out_of_band l mark none = false
  out_of_band l mark (some price) = d.lt l.max_price_deviation_pct (deviation price mark)

  -- The quantities that the caps compare.
  abbrev pub notional_of : OrderIntent F → RiskContext F → F
  notional_of intent ctx = d.mul intent.qty ctx.mark

  abbrev pub projected : OrderIntent F → RiskContext F → F
  projected intent ctx =
      d.add (d.mul (d.abs (or_nought (lookup intent.symbol ctx.portfolio.positions))) ctx.mark)
        (notional_of intent ctx)

  abbrev pub aggregate : OrderIntent F → RiskContext F → F
  aggregate intent ctx = d.add (total_notional ctx.portfolio) (notional_of intent ctx)

  abbrev pub correlated : RiskLimits F → OrderIntent F → RiskContext F → F
  correlated l intent ctx =
      d.add (correlated_notional ctx.portfolio intent.symbol l.correlation_threshold)
        (notional_of intent ctx)

  -- Checks 4 to 7, on an intent that may add exposure.
  unfoldable pub evaluate_caps : RiskLimits F → OrderIntent F → RiskContext F → RiskDecision F
  evaluate_caps l intent ctx =
      if d.lt l.max_position_notional (projected intent ctx)
      then denied position_notional intent
      else if d.lt l.max_aggregate_notional (aggregate intent ctx)
      then denied aggregate_notional intent
      else if d.lt nought ctx.portfolio.equity
          && d.lt l.max_leverage (d.div (aggregate intent ctx) ctx.portfolio.equity)
      then denied leverage intent
      else if d.lt l.max_correlated_notional (correlated l intent ctx)
      then denied correlation intent
      else allowed intent

  -- Checks 2 and 3, on the timestamps that are left in the window.
  evaluate_rate : RiskLimits F → OrderIntent F → RiskContext F → List ℤ → RiskDecision F
  unfolding evaluate_caps
  evaluate_rate l intent ctx recent =
      if leb l.max_orders_per_window (length recent)
      then denied order_rate intent
      else if out_of_band l ctx.mark (price_of intent.style)
      then denied price_band intent
      else if intent.reduce_only
      then allowed intent
      else evaluate_caps l intent ctx

  -- `evaluate`: the decision, and the timestamps that it leaves. The window is pruned only where the
  -- first two checks pass.
  evaluate : OrderIntent F → RiskContext F → RiskEngine F → RiskDecision F × List ℤ
  unfolding evaluate_rate
  evaluate intent ctx engine =
      let recent = drop_before (ctx.at -ℤ engine.limits.rate_window_ms) engine.recent_orders in
      if not (d.is_finite intent.qty) || d.le intent.qty nought
      then (denied sanity intent, engine.recent_orders)
      else if not (d.is_finite ctx.mark) || d.le ctx.mark nought
      then (denied sanity intent, engine.recent_orders)
      else if blocks_new_risk engine.circuit.current && not intent.reduce_only
      then (denied breaker intent, engine.recent_orders)
      else (evaluate_rate engine.limits intent ctx recent, recent)

  abbrev pub is_allowed : RiskDecision F → Bool
  is_allowed (allowed intent) = true
  is_allowed (denied check intent) = false

  unfoldable pub check :
      OrderIntent F → RiskContext F → RiskEngine F → RiskDecision F × RiskEngine F
  unfolding evaluate
  check intent ctx engine =
      let (decision, recent) = evaluate intent ctx engine in
      (
        decision,
        record engine {
          decisions = engine.decisions ++ (decision ∷ []);
          recent_orders = if is_allowed decision then recent ++ (ctx.at ∷ []) else recent;
        },
      )
