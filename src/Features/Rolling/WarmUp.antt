-- ===== src/Features/Rolling/WarmUp.antt =====
-- When an indicator first has a value.
use ztrade.Prelude.{
  ℕ, ◌+◌, ◌≤◌, ◌<◌, ◌≡◌, ◌≢◌, ◌↔◌, ◌⊎◌, inl, inr, Option, none, some, List, [], ◌∷◌, arith, ◌==◌,
  Bool-cases, Option-cases, length,
}
use ztrade.Prelude.Double.{Double}
use ztrade.Features.RingBuffer.{new_ring, push}
use ztrade.Features.Rolling.{
  RollingMean, Ema, Atr, update_mean, new_ema, update_ema, new_atr, update_atr,
}

-- After `n` values the indicator is still warming up, with all of them in its seed, or it is past
-- its period and has a value.
abbrev IsWarming : {F : Type 0} → ℕ → ℕ → RollingMean F → Option F → Type 0
IsWarming period n seed current =
    ((current ≡ none) × (n < period) × (seed.buffer.count ≡ n) × (seed.buffer.capacity ≡ period))
    ⊎ ((current ≢ none) × (period ≤ n))

nothing_before : (n : ℕ) → 0 + n ≡ n
nothing_before n = omega arith

module _ {F : Type 0} ⦃d : Double F⦄ where
  update_mean-IsWarming :
      (period n : ℕ) (x : F) (m : RollingMean F)
      → n < period
      → m.buffer.count ≡ n
      → m.buffer.capacity ≡ period
      → IsWarming period (n + 1) (update_mean x m).1 (update_mean x m).0
  unfolding update_mean push
  update_mean-IsWarming period n x m h e c = ground arith

  update_ema-IsWarming :
      (period n : ℕ) (x : F) (e : Ema F)
      → IsWarming period n e.seed e.current
      → IsWarming period (n + 1) (update_ema x e).1.seed (update_ema x e).1.current
  unfolding update_ema
  update_ema-IsWarming period n x e (inl (fresh, few, counted, sized)) =
      rw fresh (update_mean-IsWarming period n x e.seed few counted sized)
  update_ema-IsWarming period n x e (inr (has, many)) = elim (Option-cases e.current) [
    | inl fresh ↦ absurd (has fresh)
    | inr (v, known) ↦ rw known (inr (λ h. cc, omega arith))
  ]

  update_atr-IsWarming :
      (period n : ℕ) (high low close : F) (a : Atr F)
      → IsWarming period n a.atr_seed a.atr
      → IsWarming period
          (n + 1)
          (update_atr high low close a).1.atr_seed
          (update_atr high low close a).1.atr
  unfolding update_atr
  update_atr-IsWarming period n high low close a (inl (fresh, few, counted, sized)) =
      rw fresh (update_mean-IsWarming period n _ a.atr_seed few counted sized)
  update_atr-IsWarming period n high low close a (inr (has, many)) = elim (Option-cases a.atr) [
    | inl fresh ↦ absurd (has fresh)
    | inr (v, known) ↦ rw known (inr (λ h. cc, omega arith))
  ]

  unfoldable pub ema_all : List F → Ema F → Ema F
  ema_all [] e = e
  ema_all (x ∷ xs) e = ema_all xs (update_ema x e).1

  -- The bars are high, low and close.
  unfoldable pub atr_all : List (F × F × F) → Atr F → Atr F
  atr_all [] a = a
  atr_all ((high, low, close) ∷ bars) a = atr_all bars (update_atr high low close a).1

  ema_all-IsWarming :
      (period n : ℕ) (xs : List F) (e : Ema F)
      → IsWarming period n e.seed e.current
      → IsWarming period (n + length xs) (ema_all xs e).seed (ema_all xs e).current
  unfolding ema_all
  ema_all-IsWarming period n [] e h = let s : n + 0 ≡ n = omega arith in rw s h
  ema_all-IsWarming period n (x ∷ xs) e h =
      let s : n + length (x ∷ xs) ≡ (n + 1) + length xs = omega arith in
      rw s (
        ema_all-IsWarming period (n + 1) xs (update_ema x e).1
          (update_ema-IsWarming period n x e h))

  atr_all-IsWarming :
      (period n : ℕ) (bars : List (F × F × F)) (a : Atr F)
      → IsWarming period n a.atr_seed a.atr
      → IsWarming period (n + length bars) (atr_all bars a).atr_seed (atr_all bars a).atr
  unfolding atr_all
  atr_all-IsWarming period n [] a h = let s : n + 0 ≡ n = omega arith in rw s h
  atr_all-IsWarming period n ((high, low, close) ∷ bars) a h =
      let s : n + length ((high, low, close) ∷ bars) ≡ (n + 1) + length bars = omega arith in
      rw s (
        atr_all-IsWarming period (n + 1) bars (update_atr high low close a).1
          (update_atr-IsWarming period n high low close a h))

  warm_iff :
      (period n : ℕ) (seed : RollingMean F) (current : Option F)
      → IsWarming period n seed current
      → (current ≡ none) ↔ (n < period)
  warm_iff period n seed current (inl (fresh, few, counted, sized)) = (λ h. few, λ h. fresh)
  warm_iff period n seed current (inr (has, many)) =
      (λ h. absurd (has h), λ h. absurd (omega arith))

  -- An EMA and an ATR of a positive period have no value for exactly the first `period - 1` updates
  -- and have one ever after, whatever they are fed.
  pub warm_up :
      (period : ℕ) (e : Ema F) (a : Atr F) (xs : List F) (bars : List (F × F × F))
      → new_ema period ≡ some e
      → new_atr period ≡ some a
      → (((ema_all xs e).current ≡ none) ↔ (length xs < period))
        × (((atr_all bars a).atr ≡ none) ↔ (length bars < period))
  unfolding new_ema new_atr new_ring
  warm_up period e a xs bars h k = elim (Bool-cases (period == 0)) [
    | inl z ↦ ground (arith, h, z)
    | inr z ↦
        let start_ema : IsWarming period 0 e.seed e.current = ground (arith, h, z) in
        let start_atr : IsWarming period 0 a.atr_seed a.atr = ground (arith, k, z) in
        (
          rw (nothing_before (length xs)) at (
              warm_iff period (0 + length xs) (ema_all xs e).seed (ema_all xs e).current
                (ema_all-IsWarming period 0 xs e start_ema)),
          rw (nothing_before (length bars)) at (
              warm_iff period (0 + length bars) (atr_all bars a).atr_seed (atr_all bars a).atr
                (atr_all-IsWarming period 0 bars a start_atr)),
        )
  ]
