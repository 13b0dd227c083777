-- ===== src/Risk/Engine/Limits.antt =====
-- What the gate lets through.
use ztrade.Prelude.{◌<◌, ◌≡◌, refl, ◌≢◌, ◌↔◌, ◌⊎◌, true, false, arith, length}
use ztrade.Prelude.Int.{◌-ℤ◌}
use ztrade.Prelude.Double.{Double, IsOrdered, ◌≼◌, ◌≺◌}
use ztrade.Core.Intent.{OrderIntent, ExecutionStyle, limit, passive, twap, iceberg, market}
use ztrade.Risk.Breaker.{normal}
use ztrade.Risk.Engine.{
  RiskLimits, allowed, denied, RiskContext, RiskEngine, nought, projected, aggregate, correlated,
  check, drop_before, sanity, breaker, evaluate_caps, out_of_band, price_of,
}

module _ {F : Type 0} ⦃d : Double F⦄ where
  -- The caps, each a `<=` between numbers.
  pub record WithinCaps (l : RiskLimits F) (intent : OrderIntent F) (ctx : RiskContext F)
      : Type 0 where
    pub by_position : projected intent ctx ≼ l.max_position_notional
    pub by_aggregate : aggregate intent ctx ≼ l.max_aggregate_notional
    pub by_leverage :
        nought ≺ ctx.portfolio.equity
        → d.div (aggregate intent ctx) ctx.portfolio.equity ≼ l.max_leverage
    pub by_correlation : correlated l intent ctx ≼ l.max_correlated_notional

  -- The quantities that the caps compare are numbers, not NaN.
  pub record AreNumbers (l : RiskLimits F) (intent : OrderIntent F) (ctx : RiskContext F)
      : Type 0 where
    pub limits_num :
        (l.max_position_notional ≼ l.max_position_notional)
        × (l.max_aggregate_notional ≼ l.max_aggregate_notional)
        × (l.max_leverage ≼ l.max_leverage)
        × (l.max_correlated_notional ≼ l.max_correlated_notional)
    pub values_num :
        (projected intent ctx ≼ projected intent ctx)
        × (aggregate intent ctx ≼ aggregate intent ctx)
        × (d.div (aggregate intent ctx) ctx.portfolio.equity
            ≼ d.div (aggregate intent ctx) ctx.portfolio.equity)
        × (correlated l intent ctx ≼ correlated l intent ctx)

  -- A limit order asks no price further from the mark than the limit.
  abbrev InBand : RiskLimits F → F → ExecutionStyle F → Type 0
  InBand l mark (limit price tif) =
      d.lt l.max_price_deviation_pct (d.div (d.abs (d.sub price mark)) mark) ≡ false
  InBand l mark _ = Unit

  out_of_band-InBand :
      (l : RiskLimits F) (mark : F) (style : ExecutionStyle F)
      → (out_of_band l mark (price_of style) ≡ false) ↔ InBand l mark style
  out_of_band-InBand l mark market = (λ h. tt, λ h. refl)
  out_of_band-InBand l mark (limit price tif) = (λ h. h, λ h. h)
  out_of_band-InBand l mark (passive repegs) = (λ h. tt, λ h. refl)
  out_of_band-InBand l mark (twap window slices) = (λ h. tt, λ h. refl)
  out_of_band-InBand l mark (iceberg display) = (λ h. tt, λ h. refl)

  -- A value that is finite and is not zero or less.
  abbrev IsPositive : F → Type 0
  IsPositive x = (d.is_finite x ≡ true) × (d.le x nought ≡ false)

  -- What an intent has to meet.
  pub record Passes (engine : RiskEngine F) (intent : OrderIntent F) (ctx : RiskContext F)
      : Type 0 where
    pub has_qty : IsPositive intent.qty
    pub has_mark : IsPositive ctx.mark
    pub has_room :
        length (drop_before (ctx.at -ℤ engine.limits.rate_window_ms) engine.recent_orders)
        < engine.limits.max_orders_per_window
    pub in_band : InBand engine.limits ctx.mark intent.style
    pub is_quiet : intent.reduce_only ≡ false → engine.circuit.current ≡ normal
    pub has_caps : intent.reduce_only ≡ false → WithinCaps engine.limits intent ctx

  module _ (laws : IsOrdered F) where
    open laws use {le_of_not_lt, not_lt_of_le}

    -- A cap lets through what is not above it.
    under : (cap x : F) → cap ≼ cap → x ≼ x → (d.lt cap x ≡ false) ↔ (x ≼ cap)
    under cap x a b = (λ h. le_of_not_lt cap x a b h, λ h. not_lt_of_le x cap h)

    caps-WithinCaps :
        (l : RiskLimits F) (intent : OrderIntent F) (ctx : RiskContext F)
        → AreNumbers l intent ctx
        → (evaluate_caps l intent ctx ≡ allowed intent) ↔ WithinCaps l intent ctx
    unfolding evaluate_caps
    caps-WithinCaps l intent ctx n =
        let (a, b, c, e) = n.limits_num in
        let (u, v, w, x) = n.values_num in
        let position = under _ _ a u in
        let aggregated = under _ _ b v in
        let levered = under _ _ c w in
        let together = under _ _ e x in
        (
          λ h. ground (arith, position, aggregated, levered, together),
          λ g. ground (
            arith,
            position.1 g.by_position,
            aggregated.1 g.by_aggregate,
            levered.1,
            g.by_leverage,
            together.1 g.by_correlation,
          ),
        )

    pub allowed-WithinCaps :
        (intent : OrderIntent F) (ctx : RiskContext F) (engine : RiskEngine F)
        → AreNumbers engine.limits intent ctx
        → ((check intent ctx engine).0 ≡ allowed intent) ↔ Passes engine intent ctx
    unfolding check
    allowed-WithinCaps intent ctx engine n =
        let caps = caps-WithinCaps engine.limits intent ctx n in
        let band = out_of_band-InBand engine.limits ctx.mark intent.style in
        (
          λ h. ground (arith, caps, band),
          λ g. ground (
            arith,
            g.has_qty,
            g.has_mark,
            g.has_room,
            band.1 g.in_band,
            g.is_quiet,
            g.has_caps,
            caps,
          ),
        )

  -- While the breaker is not NORMAL, whatever is allowed only reduces.
  pub tripped_blocks :
      (intent : OrderIntent F) (ctx : RiskContext F) (engine : RiskEngine F)
      → engine.circuit.current ≢ normal
      → intent.reduce_only ≡ false
      → ((check intent ctx engine).0 ≡ denied breaker intent)
        ⊎ ((check intent ctx engine).0 ≡ denied sanity intent)
  unfolding check
  tripped_blocks intent ctx engine h r = ground arith
