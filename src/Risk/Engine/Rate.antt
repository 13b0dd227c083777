-- ===== src/Risk/Engine/Rate.antt =====
-- The rate limit, over any row of checks.
use ztrade.Prelude.{
  ℕ, suc, ◌+◌, ◌≤◌, ◌<◌, ◌≡◌, refl, sym, ap, ◌∙◌, ◌⊎◌, inl, inr, true, false, List, [], ◌∷◌, ◌++◌,
  arith, if◌then◌else◌, Bool-cases, length, length-append,
}
use mathlib.Core.Path.{subst}
use mathlib.Core.List.{append_assoc}
use ztrade.Prelude.Int.{ℤ, ltb_ℤ, ◌≤ℤ◌, ◌-ℤ◌, -ℤ_parts}
use ztrade.Risk.Engine.{
  drop_before, Double, OrderIntent, RiskEngine, RiskLimits, check, RiskContext, is_allowed,
  new_engine,
}

-- How many of the times are at the cutoff or after it.
pub count_since : ℤ → List ℤ → ℕ
count_since cutoff [] = 0
count_since cutoff (t ∷ times) =
    if ltb_ℤ t cutoff then count_since cutoff times else suc (count_since cutoff times)

count_since-append :
    (cutoff : ℤ) (xs ys : List ℤ)
    → count_since cutoff (xs ++ ys) ≡ count_since cutoff xs + count_since cutoff ys
unfolding count_since
count_since-append cutoff [] ys = omega arith
count_since-append cutoff (x ∷ xs) ys = ground (arith, count_since-append cutoff xs ys)

count_since-le : (cutoff : ℤ) (xs : List ℤ) → count_since cutoff xs ≤ length xs
unfolding count_since
count_since-le cutoff [] = omega arith
count_since-le cutoff (x ∷ xs) = ground (arith, count_since-le cutoff xs)

count_since_later :
    (c c' : ℤ) (xs : List ℤ) → c ≤ℤ c' → count_since c xs ≡ 0 → count_since c' xs ≡ 0
unfolding count_since
count_since_later c c' [] h k = refl
count_since_later c c' (x ∷ xs) h k = ground (arith, count_since_later c c' xs)

-- What `drop_before` takes away is before the cutoff.
dropped :
    (cutoff : ℤ) (times : List ℤ)
    → (front : List ℤ) × (times ≡ front ++ drop_before cutoff times)
      × (count_since cutoff front ≡ 0)
unfolding drop_before count_since
dropped cutoff [] = ([], refl, refl)
dropped cutoff (t ∷ times) = elim (Bool-cases (ltb_ℤ t cutoff)) [
  | inl e ↦
      let (front, split, none_left) = dropped cutoff times in
      (t ∷ front, rw e (ap (λ l. t ∷ l) split), rw e none_left)
  | inr e ↦ ([], rw e refl, refl)
]

abbrev pub Checks : Type 0 → Type 0
Checks F = List (OrderIntent F × RiskContext F)

-- Event time does not go back, from `first` over the checks to `last`.
abbrev pub IsAscending : {F : Type 0} → ℤ → Checks F → ℤ → Type 0
IsAscending first [] last = first ≤ℤ last
IsAscending first ((intent, ctx) ∷ checks) last = (first ≤ℤ ctx.at) × IsAscending ctx.at checks last

-- All accepted times but those that the engine still holds are out of the window at `now`.
abbrev Covers : {F : Type 0} → RiskLimits F → ℤ → RiskEngine F → List ℤ → Type 0
Covers l now engine log =
    (front : List ℤ) × (log ≡ front ++ engine.recent_orders)
    × (count_since (now -ℤ l.rate_window_ms) front ≡ 0)
    × (engine.limits ≡ l)

split_twice :
    (log front recent taken rest : List ℤ)
    → log ≡ front ++ recent
    → recent ≡ taken ++ rest
    → log ≡ (front ++ taken) ++ rest
split_twice log front recent taken rest h k =
    h ∙ ap (λ r. front ++ r) k ∙ sym (append_assoc front taken rest)

window_moves : (now at window : ℤ) → now ≤ℤ at → now -ℤ window ≤ℤ at -ℤ window
window_moves now at window h = omega (arith, -ℤ_parts now window, -ℤ_parts at window)

module _ {F : Type 0} ⦃d : Double F⦄ where
  -- The engine and the times of all accepted intents so far, after a row of checks.
  unfoldable pub check_all : Checks F → RiskEngine F × List ℤ → RiskEngine F × List ℤ
  check_all [] s = s
  check_all ((intent, ctx) ∷ checks) s =
      let (decision, engine) = check intent ctx s.0 in
      check_all checks (engine, (if is_allowed decision then s.1 ++ (ctx.at ∷ []) else s.1))

  check_effect :
      (intent : OrderIntent F) (ctx : RiskContext F) (engine : RiskEngine F)
      → let r = check intent ctx engine in
        let kept = drop_before (ctx.at -ℤ engine.limits.rate_window_ms) engine.recent_orders in
        (r.1.limits ≡ engine.limits)
        × (((is_allowed r.0 ≡ false) × (r.1.recent_orders ≡ engine.recent_orders))
            ⊎ ((is_allowed r.0 ≡ false) × (r.1.recent_orders ≡ kept))
            ⊎ ((is_allowed r.0 ≡ true)
                × (r.1.recent_orders ≡ kept ++ (ctx.at ∷ []))
                × (length kept < engine.limits.max_orders_per_window)))
  unfolding check
  check_effect intent ctx engine = ground arith

  -- A check keeps track of the window, and an accepted one finds room in it.
  check-Covers :
      (l : RiskLimits F) (now : ℤ) (intent : OrderIntent F) (ctx : RiskContext F)
      (engine : RiskEngine F) (log : List ℤ)
      → now ≤ℤ ctx.at
      → Covers l now engine log
      → Covers l ctx.at
          (check intent ctx engine).1
          (if is_allowed (check intent ctx engine).0 then log ++ (ctx.at ∷ []) else log)
  check-Covers l now intent ctx engine log h (front, split, out, same) =
      let (limits_same, cases) = check_effect intent ctx engine in
      let later = count_since_later _ _ front (window_moves now ctx.at l.rate_window_ms h) out in
      let (taken, taken_split, taken_out) =
        dropped (ctx.at -ℤ engine.limits.rate_window_ms) engine.recent_orders in
      let both_out : count_since (ctx.at -ℤ l.rate_window_ms) (front ++ taken) ≡ 0 = omega (
        arith,
        later,
        count_since-append (ctx.at -ℤ l.rate_window_ms) front taken,
        subst (λ (m : RiskLimits F). count_since (ctx.at -ℤ m.rate_window_ms) taken ≡ 0) same
            taken_out,
      ) in
      elim cases [
        | inl (no_order, kept) ↦
            rw no_order (front, split ∙ ap (λ r. front ++ r) (sym kept), later, limits_same ∙ same)
        | inr (inl (no_order, kept)) ↦ rw no_order (
          front ++ taken,
          split_twice log front engine.recent_orders taken _ split taken_split
              ∙ ap (λ r. (front ++ taken) ++ r) (sym kept),
          both_out,
          limits_same ∙ same,
        )
        | inr (inr (yes_order, kept, room)) ↦ rw yes_order (
          front ++ taken,
          ap (λ r. r ++ (ctx.at ∷ []))
                (split_twice log front engine.recent_orders taken _ split taken_split)
              ∙ append_assoc (front ++ taken) _ (ctx.at ∷ [])
              ∙ ap (λ r. (front ++ taken) ++ r) (sym kept),
          both_out,
          limits_same ∙ same,
        )
      ]

  check_all-Covers :
      (l : RiskLimits F) (first last : ℤ) (checks : Checks F) (s : RiskEngine F × List ℤ)
      → IsAscending first checks last
      → Covers l first s.0 s.1
      → Covers l last (check_all checks s).0 (check_all checks s).1
  unfolding check_all
  check_all-Covers l first last [] s a (front, split, out, same) = (
    front,
    split,
    count_since_later _ _ front (window_moves first last l.rate_window_ms a) out,
    same,
  )
  check_all-Covers l first last ((intent, ctx) ∷ checks) s a c =
      check_all-Covers l ctx.at last checks _ a.1 (check-Covers l first intent ctx s.0 s.1 a.0 c)

  recent_fits :
      (l : RiskLimits F) (intent : OrderIntent F) (ctx : RiskContext F) (engine : RiskEngine F)
      → engine.limits ≡ l
      → is_allowed (check intent ctx engine).0 ≡ true
      → length (check intent ctx engine).1.recent_orders ≤ l.max_orders_per_window
  recent_fits l intent ctx engine same yes_order = elim (check_effect intent ctx engine).1 [
    | inl (no_order, kept) ↦ cc
    | inr (inl (no_order, kept)) ↦ cc
    | inr (inr (order, kept, room)) ↦
        rw (← same, kept)
          (omega (
            arith,
            room,
            length-append
                (drop_before (ctx.at -ℤ engine.limits.rate_window_ms) engine.recent_orders)
                (ctx.at ∷ []),
          ))
  ]

  accepted_count :
      (l : RiskLimits F) (intent : OrderIntent F) (ctx : RiskContext F) (engine : RiskEngine F)
      (log : List ℤ)
      → Covers l ctx.at engine log
      → is_allowed (check intent ctx engine).0 ≡ true
      → count_since (ctx.at -ℤ l.rate_window_ms) (log ++ (ctx.at ∷ [])) ≤ l.max_orders_per_window
  accepted_count l intent ctx engine log covers yes_order =
      let (front, split, out, same) =
        check-Covers l ctx.at intent ctx engine log (omega arith) covers in
      let cutoff = ctx.at -ℤ l.rate_window_ms in
      let recent = (check intent ctx engine).1.recent_orders in
      let held : log ++ (ctx.at ∷ []) ≡ front ++ recent = rw yes_order at split in
      let counted : count_since cutoff (log ++ (ctx.at ∷ [])) ≤ length recent =
        rw held
          (omega (arith, count_since-append cutoff front recent, count_since-le cutoff recent)) in
      omega (arith, counted, recent_fits l intent ctx engine covers.3 yes_order)

  -- However intents arrive, in event time that does not go back: whenever an intent is allowed, at
  -- most `maxOrdersPerWindow` intents, that one included, were allowed in the window that ends with
  -- it.
  pub allowed_in_window :
      (l : RiskLimits F) (first : ℤ) (checks : Checks F) (intent : OrderIntent F)
      (ctx : RiskContext F)
      → IsAscending first checks ctx.at
      → let s = check_all checks (new_engine l, []) in
        is_allowed (check intent ctx s.0).0 ≡ true
        → count_since (ctx.at -ℤ l.rate_window_ms) (s.1 ++ (ctx.at ∷ [])) ≤ l.max_orders_per_window
  unfolding new_engine count_since
  allowed_in_window l first checks intent ctx a yes_order =
      let s = check_all checks (new_engine l, []) in
      accepted_count l intent ctx s.0 s.1
        (check_all-Covers l first ctx.at checks (new_engine l, []) a ([], refl, refl, refl))
        yes_order
