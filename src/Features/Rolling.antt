-- ===== src/Features/Rolling.antt =====
-- packages/features/src/incremental.ts: the rolling primitives, over doubles. A period is a natural
-- number; `Math.log` and `Math.sqrt` are parameters. The constructors throw where the period is zero,
-- since the ring buffer's does.

pub mod WarmUp
use ztrade.Prelude.{ℕ, ◌+◌, ◌-◌, Option, none, some, ltb, leb, ◌==◌, if◌then◌else◌}
use ztrade.Prelude.Double.{Double}
use ztrade.Features.RingBuffer.{RingBuffer, new_ring, push, is_full, clear}

module _ {F : Type 0} ⦃d : Double F⦄ where
  abbrev pub of_nat : ℕ → F
  of_nat n = d.literal n 0

  abbrev pub nought : F
  nought = of_nat 0

pub record RollingMean (F : Type 0) : Type 0 where
  pub buffer : RingBuffer F
  pub total : F

pub record Ema (F : Type 0) : Type 0 where
  pub k : F
  pub seed : RollingMean F
  pub current : Option F

pub record RollingVariance (F : Type 0) : Type 0 where
  pub samples : RingBuffer F
  pub mean : F
  pub m2 : F

pub record Atr (F : Type 0) : Type 0 where
  pub period : ℕ
  pub prev_close : Option F
  pub atr_seed : RollingMean F
  pub atr : Option F

pub record RealisedVolatility (F : Type 0) : Type 0 where
  pub variance_of : RollingVariance F
  pub prev_price : Option F
  pub periods_per_year : ℕ

module _ {F : Type 0} ⦃d : Double F⦄ where
  abbrev pub with_ring : {A : Type 0} → (RingBuffer F → A) → Option (RingBuffer F) → Option A
  with_ring make none = none
  with_ring make (some r) = some (make r)

  unfoldable pub new_mean : ℕ → Option (RollingMean F)
  unfolding new_ring
  new_mean period = with_ring (λ r. record { buffer = r; total = nought }) (new_ring period nought)

  abbrev less_evicted : Option F → F → F
  less_evicted none total = total
  less_evicted (some x) total = d.sub total x

  abbrev pub mean_value : RollingMean F → F
  mean_value m = if m.buffer.count == 0 then nought else d.div m.total (of_nat m.buffer.count)

  -- `RollingMean.update`
  unfoldable pub update_mean : F → RollingMean F → Option F × RollingMean F
  unfolding push
  update_mean value m =
      let (evicted, r) = push value m.buffer in
      let next : RollingMean F = record {
        buffer = r;
        total = less_evicted evicted (d.add m.total value);
      } in
      (if is_full r then some (mean_value next) else none, next)

  unfoldable pub new_ema : ℕ → Option (Ema F)
  unfolding new_mean
  new_ema period =
      with_ring
        (λ r. record {
          k = d.div (of_nat 2) (of_nat (period + 1));
          seed = record { buffer = r; total = nought };
          current = none;
        })
        (new_ring period nought)

  -- `current` once it is seeded, else the seed's answer.
  abbrev seeded : F → Ema F → Option F → Ema F
  seeded value e none =
      let (answer, m) = update_mean value e.seed in record e { seed = m; current = answer }
  seeded value e (some current) = record e {
    current = some (d.add (d.mul value e.k) (d.mul current (d.sub (of_nat 1) e.k)));
  }

  -- `Ema.update`: what it returns is `current`.
  unfoldable pub update_ema : F → Ema F → Option F × Ema F
  unfolding update_mean
  update_ema value e = let next = seeded value e e.current in (next.current, next)

  -- `RollingVariance.update`, with what the buffer put out.
  abbrev welford : F → RollingVariance F → RingBuffer F → Option F → RollingVariance F
  welford value v r none =
      let delta = d.sub value v.mean in
      let mean = d.add v.mean (d.div delta (of_nat r.count)) in
      record { samples = r; mean = mean; m2 = d.add v.m2 (d.mul delta (d.sub value mean)) }
  welford value v r (some evicted) =
      let step = d.sub value evicted in
      let mean = d.add v.mean (d.div step (of_nat r.count)) in
      let m2 = d.add v.m2 (d.mul step (d.sub (d.add (d.sub value mean) evicted) v.mean)) in
      record { samples = r; mean = mean; m2 = if d.lt m2 nought then nought else m2 }

  unfoldable pub update_variance : F → RollingVariance F → RollingVariance F
  unfolding push
  update_variance value v = let (evicted, r) = push value v.samples in welford value v r evicted

  abbrev pub variance : RollingVariance F → F
  variance v = if ltb v.samples.count 2 then nought else d.div v.m2 (of_nat (v.samples.count - 1))

  abbrev true_range : F → F → Option F → F
  true_range high low none = d.sub high low
  true_range high low (some close) =
      d.max (d.max (d.sub high low) (d.abs (d.sub high close))) (d.abs (d.sub low close))

  abbrev smoothed : F → Atr F → Option F → Atr F
  smoothed tr a none =
      let (answer, m) = update_mean tr a.atr_seed in record a { atr_seed = m; atr = answer }
  smoothed tr a (some current) = record a {
    atr = some (d.div (d.add (d.mul current (of_nat (a.period - 1))) tr) (of_nat a.period));
  }

  -- `Atr.update`
  unfoldable pub update_atr : F → F → F → Atr F → Option F × Atr F
  unfolding update_mean
  update_atr high low close a =
      let tr = true_range high low a.prev_close in
      let next = smoothed tr (record a { prev_close = some close }) a.atr in (next.atr, next)

  unfoldable pub new_atr : ℕ → Option (Atr F)
  unfolding new_mean
  new_atr period =
      with_ring
        (λ r. record {
          period = period;
          prev_close = none;
          atr_seed = record { buffer = r; total = nought };
          atr = none;
        })
        (new_ring period nought)

  -- The `reset` of each.
  unfoldable pub reset_mean : RollingMean F → RollingMean F
  unfolding clear
  reset_mean m = record { buffer = clear m.buffer; total = nought }

  unfoldable pub reset_ema : Ema F → Ema F
  unfolding reset_mean
  reset_ema e = record e { seed = reset_mean e.seed; current = none }

  unfoldable pub reset_variance : RollingVariance F → RollingVariance F
  unfolding clear
  reset_variance v = record { samples = clear v.samples; mean = nought; m2 = nought }

  unfoldable pub reset_atr : Atr F → Atr F
  unfolding reset_mean
  reset_atr a = record a { prev_close = none; atr_seed = reset_mean a.atr_seed; atr = none }

  unfoldable pub reset_volatility : RealisedVolatility F → RealisedVolatility F
  unfolding reset_variance
  reset_volatility v = record v { variance_of = reset_variance v.variance_of; prev_price = none }

  module _ (log sqrt : F → F) where
    abbrev pub volatility : RealisedVolatility F → Option F
    volatility v =
        if leb 2 v.variance_of.samples.count
        then some (d.mul (sqrt (variance v.variance_of)) (sqrt (of_nat v.periods_per_year)))
        else none

    -- The return that `price` makes, if there is a positive price before it.
    abbrev feed : F → Option F → RollingVariance F → RollingVariance F
    feed price none v = v
    feed price (some prev) v =
        if d.lt nought prev then update_variance (log (d.div price prev)) v else v

    unfoldable pub update_volatility : F → RealisedVolatility F → Option F × RealisedVolatility F
    unfolding update_variance
    update_volatility price v =
        if d.le price nought
        then (volatility v, v)
        else let next : RealisedVolatility F = record v {
          variance_of = feed price v.prev_price v.variance_of;
          prev_price = some price;
        } in
          (volatility next, next)
