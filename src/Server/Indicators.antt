-- ===== src/Server/Indicators.antt =====
-- apps/server/src/strategies/indicators.ts: the exponential average over a whole series of closes.
pub mod Parity
use ztrade.Prelude.{ℕ, ◌+◌, ◌||◌, List, [], ◌∷◌, ltb, ◌==◌, if◌then◌else◌, length, take, drop}
use ztrade.Prelude.Double.{Double}

module _ {F : Type 0} ⦃d : Double F⦄ where
  -- `values.reduce((a, b) => a + b, total)`
  abbrev pub sum_from : List F → F → F
  sum_from [] total = total
  sum_from (x ∷ values) total = sum_from values (d.add total x)

  -- The loop from the seed on.
  abbrev pub ema_from : F → F → List F → List F
  ema_from k prev [] = []
  ema_from k prev (x ∷ values) =
      let next = d.add (d.mul x k) (d.mul prev (d.sub (d.literal 1 0) k)) in
      next ∷ ema_from k next values

  abbrev pub seeded_ema : F → F → List F → List F
  seeded_ema k prev values = prev ∷ ema_from k prev values

  unfoldable pub ema : List F → ℕ → List F
  ema values period =
      if period == 0 || ltb (length values) period
      then []
      else seeded_ema (d.div (d.literal 2 0) (d.literal (period + 1) 0))
          (d.div (sum_from (take period values) (d.literal 0 0)) (d.literal period 0))
          (drop period values)
