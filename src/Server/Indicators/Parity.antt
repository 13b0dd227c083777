-- ===== src/Server/Indicators/Parity.antt =====
-- The average over a whole series and the one that is kept incrementally.
use ztrade.Prelude.{
  ℕ, zero, suc, ◌+◌, ◌<◌, ◌≡◌, refl, sym, ap, ◌∙◌, true, false, Option, none, some, List, [], ◌∷◌,
  arith, ltb, ◌==◌, if◌then◌else◌, length, take, drop,
}
use mathlib.Core.Option.{none-ne-some}
use ztrade.Prelude.Double.{Double}
use ztrade.Features.RingBuffer.{new_ring, push}
use ztrade.Features.Rolling.{RollingMean, Ema, update_mean, new_mean, new_ema, update_ema}
use ztrade.Server.Indicators.{sum_from, ema_from, seeded_ema, ema}

module _ {F : Type 0} ⦃d : Double F⦄ where
  abbrev given : Option F → List F → List F
  given none later = later
  given (some x) later = x ∷ later

  -- The values that the incremental average gives, one update after another.
  abbrev pub fed : List F → Ema F → List F
  fed [] e = []
  fed (x ∷ values) e = let (answer, next) = update_ema x e in given answer (fed values next)

  -- A seed that has taken `n` values.
  record IsFilling (period n : ℕ) (total : F) (m : RollingMean F) : Type 0 where
    has_count : m.buffer.count ≡ n
    has_capacity : m.buffer.capacity ≡ period
    has_total : m.total ≡ total

  update-IsFilling :
      (period n : ℕ) (total x : F) (m : RollingMean F)
      → n < period
      → IsFilling period n total m
      → IsFilling period (n + 1) (d.add total x) (update_mean x m).1
  unfolding update_mean push
  update-IsFilling period n total x m h f = record {
    has_count = ground (arith, h, f.has_count, f.has_capacity);
    has_capacity = f.has_capacity;
    has_total = ground (arith, h, f.has_count, f.has_capacity, f.has_total);
  }

  update-answer :
      (period n : ℕ) (total x : F) (m : RollingMean F)
      → n < period
      → IsFilling period n total m
      → (update_mean x m).0
        ≡ (if n + 1 == period then some (d.div (d.add total x) (d.literal period 0)) else none)
  unfolding update_mean push
  update-answer period n total x m h f = ground (arith, h, f.has_count, f.has_capacity, f.has_total)

  abbrev step : F → F → F → F
  step k prev x = d.add (d.mul x k) (d.mul prev (d.sub (d.literal 1 0) k))

  update_ema-known :
      (x : F) (e : Ema F) (v : F)
      → e.current ≡ some v
      → update_ema x e ≡ (some (step e.k v x), record e { current = some (step e.k v x) })
  unfolding update_ema
  update_ema-known x e v known = simp known refl

  update_ema-seeding :
      (x : F) (e : Ema F)
      → e.current ≡ none
      → update_ema x e ≡ (
        (update_mean x e.seed).0,
        record e { seed = (update_mean x e.seed).1; current = (update_mean x e.seed).0 },
      )
  unfolding update_ema
  update_ema-seeding x e fresh = simp fresh refl

  fed-known :
      (values : List F) (e : Ema F) (v : F)
      → e.current ≡ some v
      → fed values e ≡ ema_from e.k v values
  fed-known [] e v known = refl
  fed-known (x ∷ values) e v known =
      let next : Ema F = record e { current = some (step e.k v x) } in
      ap (λ (u : Option F × Ema F). given u.0 (fed values u.1)) (update_ema-known x e v known)
      ∙ ap (λ later. step e.k v x ∷ later) (fed-known values next (step e.k v x) refl)

  -- What is left to give, from a seed that lacks `suc m` values.
  abbrev rest_of : ℕ → ℕ → F → F → List F → List F
  rest_of period m k total values =
      if ltb (length values) (suc m)
      then []
      else seeded_ema k (d.div (sum_from (take (suc m) values) total) (d.literal period 0))
          (drop (suc m) values)

  rest_of-suc :
      (period m : ℕ) (k total x : F) (values : List F)
      → rest_of period m k (d.add total x) values ≡ rest_of period (suc m) k total (x ∷ values)
  rest_of-suc period m k total x values =
      let same : ltb (suc (length values)) (suc (suc m)) ≡ ltb (length values) (suc m) =
        ground arith in
      rw same refl

  rest_of-zero :
      (period : ℕ) (k total x : F) (values : List F)
      → seeded_ema k (d.div (d.add total x) (d.literal period 0)) values
        ≡ rest_of period zero k total (x ∷ values)
  rest_of-zero period k total x values =
      let enough : ltb (suc (length values)) 1 ≡ false = ground arith in rw enough refl

  fed-filling :
      (values : List F) (period n m : ℕ) (total : F) (e : Ema F)
      → n + suc m ≡ period
      → e.current ≡ none
      → IsFilling period n total e.seed
      → fed values e ≡ rest_of period m e.k total values
  fed-filling [] period n m total e size fresh f = ground arith
  fed-filling (x ∷ values) period n zero total e size fresh f =
      let v = d.div (d.add total x) (d.literal period 0) in
      let next : Ema F = record e {
        seed = (update_mean x e.seed).1;
        current = (update_mean x e.seed).0;
      } in
      let at_size : (n + 1 == period) ≡ true = ground arith in
      let answered : (update_mean x e.seed).0 ≡ some v =
        rw at_size at (update-answer period n total x e.seed (omega arith) f) in
      ap (λ (u : Option F × Ema F). given u.0 (fed values u.1)) (update_ema-seeding x e fresh)
      ∙ ap (λ o. given o (fed values next)) answered
      ∙ ap (λ later. v ∷ later) (fed-known values next v answered)
      ∙ rest_of-zero period e.k total x values
  fed-filling (x ∷ values) period n (suc m) total e size fresh f =
      let next : Ema F = record e {
        seed = (update_mean x e.seed).1;
        current = (update_mean x e.seed).0;
      } in
      let below : (n + 1 == period) ≡ false = ground arith in
      let unanswered : (update_mean x e.seed).0 ≡ none =
        rw below at (update-answer period n total x e.seed (omega arith) f) in
      ap (λ (u : Option F × Ema F). given u.0 (fed values u.1)) (update_ema-seeding x e fresh)
      ∙ ap (λ o. given o (fed values next)) unanswered
      ∙ fed-filling values period (n + 1) m (d.add total x) next (omega arith) unanswered
          (update-IsFilling period n total x e.seed (omega arith) f)
      ∙ rest_of-suc period m e.k total x values

  new_ema-zero : new_ema {F = F} 0 ≡ none
  unfolding new_ema new_mean new_ring
  new_ema-zero = refl

  new_ema-made :
      (m : ℕ) (e : Ema F)
      → new_ema (suc m) ≡ some e
      → (e.current ≡ none)
        × (e.k ≡ d.div (d.literal 2 0) (d.literal (suc m + 1) 0))
        × IsFilling (suc m) 0 (d.literal 0 0) e.seed
  unfolding new_ema new_mean new_ring
  new_ema-made m e made = (
    ground (arith, made),
    ground (arith, made),
    record {
      has_count = ground (arith, made);
      has_capacity = ground (arith, made);
      has_total = ground (arith, made);
    },
  )

  ema-rest :
      (m : ℕ) (values : List F)
      → ema values (suc m)
        ≡ rest_of (suc m) m (d.div (d.literal 2 0) (d.literal (suc m + 1) 0)) (d.literal 0 0) values
  unfolding ema
  ema-rest m values = let positive : (suc m == 0) ≡ false = ground arith in rw positive refl

  -- The series that the server computes from all closes at once is, value by value and to the last
  -- bit, what the incremental average of the features gives when it is fed the same closes one by
  -- one: for every positive period and every list, shorter than the period or not.
  pub ema-fed :
      (period : ℕ) (e : Ema F) (values : List F)
      → new_ema period ≡ some e
      → ema values period ≡ fed values e
  ema-fed zero e values made = absurd (none-ne-some e (sym new_ema-zero ∙ made))
  ema-fed (suc m) e values made =
      let (fresh, k_is, f) = new_ema-made m e made in
      ema-rest m values
      ∙ ap (λ k. rest_of (suc m) m k (d.literal 0 0) values) (sym k_is)
      ∙ sym (fed-filling values (suc m) 0 m (d.literal 0 0) e (omega arith) fresh f)
