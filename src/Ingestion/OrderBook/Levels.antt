-- ===== src/Ingestion/OrderBook/Levels.antt =====
-- The levels of one side: what an update leaves at a price, the best price, and the sorted view.
use ztrade.Prelude.{
  ℕ, zero, suc, ◌≡◌, refl, ap, ◌∙◌, ◌≢◌, inl, inr, true, false, Option, none, some, List, [], ◌∷◌,
  arith, if◌then◌else◌, Bool-cases, take, All,
}
use ztrade.Prelude.Int.{ℤ, pos, ◌≤ℤ◌, ltb_ℤ, ◌==ℤ◌}
use ztrade.Prelude.Table.{int_eq, lookup, lookup-insert, lookup-erase}
use ztrade.Ingestion.OrderBook.{
  Levels, max_key, max_key_from, min_key, min_key_from, better_max, better_min, Direction,
  ascending, descending, before, insert_level, sort_levels, set_parsed, set_level, set_levels,
}

module _ {Raw : Type 0} (number : Raw → Option ℤ) where
  -- What one raw level leaves at a price: nothing at a size of zero, the size at any other, and
  -- what was there if it is about another price or does not parse.
  abbrev pub size_parsed : Option ℤ → Option ℤ → ℤ → Option ℤ → Option ℤ
  size_parsed (some price) (some size) p old =
      if price ==ℤ p then (if size ==ℤ pos 0 then none else some size) else old
  size_parsed _ _ p old = old

  unfoldable pub size_after : List (Raw × Raw) → ℤ → Option ℤ → Option ℤ
  size_after [] p old = old
  size_after (l ∷ ls) p old = size_after ls p (size_parsed (number l.0) (number l.1) p old)

  lookup-set_parsed :
      (price size : Option ℤ) (p : ℤ) (levels : Levels)
      → lookup p (set_parsed number price size levels) ≡ size_parsed price size p (lookup p levels)
  lookup-set_parsed (some price) (some size) p levels =
      ground (arith, lookup-insert price p size levels, lookup-erase price p levels)
  lookup-set_parsed none _ p levels = refl
  lookup-set_parsed (some price) none p levels = refl

  -- After the updates of a message, the size at every price is that of the last update of that
  -- price which parses, none if that size is zero, and the old size if there is no such update.
  pub lookup-set_levels :
      (ls : List (Raw × Raw)) (p : ℤ) (levels : Levels)
      → lookup p (set_levels number ls levels) ≡ size_after ls p (lookup p levels)
  unfolding set_levels size_after
  lookup-set_levels [] p levels = refl
  lookup-set_levels (l ∷ ls) p levels =
      lookup-set_levels ls p (set_level number l levels)
      ∙ ap (size_after ls p) (lookup-set_parsed (number l.0) (number l.1) p levels)

-- The best price so far is a bound, and it only improves.
abbrev AtMost : Option ℤ → ℤ → Type 0
AtMost none best = Unit
AtMost (some price) best = price ≤ℤ best

abbrev AtLeast : Option ℤ → ℤ → Type 0
AtLeast none best = Unit
AtLeast (some price) best = best ≤ℤ price

max_key_from-bound :
    (start : Option ℤ) (levels : Levels) (best : ℤ)
    → max_key_from start levels ≡ some best
    → AtMost start best × All (λ l. l.0 ≤ℤ best) levels
max_key_from-bound none [] best h = cc
max_key_from-bound (some x) [] best h = ground arith
max_key_from-bound start (l ∷ levels) best h =
    ground (arith, max_key_from-bound (better_max l.0 start) levels best h)

min_key_from-bound :
    (start : Option ℤ) (levels : Levels) (best : ℤ)
    → min_key_from start levels ≡ some best
    → AtLeast start best × All (λ l. best ≤ℤ l.0) levels
min_key_from-bound none [] best h = cc
min_key_from-bound (some x) [] best h = ground arith
min_key_from-bound start (l ∷ levels) best h =
    ground (arith, min_key_from-bound (better_min l.0 start) levels best h)

pub max_key-bound :
    (levels : Levels) (best : ℤ) → max_key levels ≡ some best → All (λ l. l.0 ≤ℤ best) levels
unfolding max_key
max_key-bound levels best h = (max_key_from-bound none levels best h).1

pub min_key-bound :
    (levels : Levels) (best : ℤ) → min_key levels ≡ some best → All (λ l. best ≤ℤ l.0) levels
unfolding min_key
min_key-bound levels best h = (min_key_from-bound none levels best h).1

max_key_from-some : (x : ℤ) (levels : Levels) → max_key_from (some x) levels ≢ none
max_key_from-some x [] h = cc
max_key_from-some x (l ∷ levels) h = elim (Bool-cases (ltb_ℤ x l.0)) [
  | inl p ↦ max_key_from-some l.0 levels (rw p at h)
  | inr p ↦ max_key_from-some x levels (rw p at h)
]

min_key_from-some : (x : ℤ) (levels : Levels) → min_key_from (some x) levels ≢ none
min_key_from-some x [] h = cc
min_key_from-some x (l ∷ levels) h = elim (Bool-cases (ltb_ℤ l.0 x)) [
  | inl p ↦ min_key_from-some l.0 levels (rw p at h)
  | inr p ↦ min_key_from-some x levels (rw p at h)
]

pub max_key-none : (levels : Levels) → max_key levels ≡ none → levels ≡ []
unfolding max_key
max_key-none [] h = refl
max_key-none (l ∷ levels) h = absurd (max_key_from-some l.0 levels h)

pub min_key-none : (levels : Levels) → min_key levels ≡ none → levels ≡ []
unfolding min_key
min_key-none [] h = refl
min_key-none (l ∷ levels) h = absurd (min_key_from-some l.0 levels h)

-- What holds of every level holds of the sorted levels, and of the first of them.
module _ (P : ℤ × ℤ → Type 0) where
  insert_level-All :
      (dir : Direction) (a : ℤ × ℤ) (levels : Levels)
      → P a
      → All P levels
      → All P (insert_level dir a levels)
  insert_level-All dir a [] p h = (p, tt)
  insert_level-All dir a (b ∷ levels) p h = elim (Bool-cases (before dir a b)) [
    | inl e ↦ rw e (p, h)
    | inr e ↦ rw e (h.0, insert_level-All dir a levels p h.1)
  ]

  pub sort_levels-All :
      (dir : Direction) (levels : Levels) → All P levels → All P (sort_levels dir levels)
  unfolding sort_levels
  sort_levels-All dir [] h = tt
  sort_levels-All dir (a ∷ levels) h =
      insert_level-All dir a (sort_levels dir levels) h.0 (sort_levels-All dir levels h.1)

  pub take-All : (n : ℕ) (levels : Levels) → All P levels → All P (take n levels)
  take-All zero levels h = tt
  take-All (suc n) [] h = tt
  take-All (suc n) (l ∷ levels) h = (h.0, take-All n levels h.1)

-- Every level stands before all that follow it.
abbrev pub IsSorted : Direction → Levels → Type 0
IsSorted dir [] = Unit
IsSorted dir (a ∷ levels) = All (λ b. before dir a b ≡ true) levels × IsSorted dir levels

before_trans :
    (dir : Direction) (a b c : ℤ × ℤ)
    → before dir a b ≡ true
    → before dir b c ≡ true
    → before dir a c ≡ true
before_trans ascending a b c h k = ground arith
before_trans descending a b c h k = ground arith

before_total : (dir : Direction) (a b : ℤ × ℤ) → before dir a b ≡ false → before dir b a ≡ true
before_total ascending a b h = ground arith
before_total descending a b h = ground arith

before-All :
    (dir : Direction) (a b : ℤ × ℤ) (levels : Levels)
    → before dir a b ≡ true
    → All (λ c. before dir b c ≡ true) levels
    → All (λ c. before dir a c ≡ true) levels
before-All dir a b [] h k = tt
before-All dir a b (c ∷ levels) h k =
    (before_trans dir a b c h k.0, before-All dir a b levels h k.1)

insert_level-IsSorted :
    (dir : Direction) (a : ℤ × ℤ) (levels : Levels)
    → IsSorted dir levels
    → IsSorted dir (insert_level dir a levels)
insert_level-IsSorted dir a [] h = (tt, tt)
insert_level-IsSorted dir a (b ∷ levels) h = elim (Bool-cases (before dir a b)) [
  | inl e ↦ rw e ((e, before-All dir a b levels e h.0), h)
  | inr e ↦ rw e (
    insert_level-All (λ c. before dir b c ≡ true) dir a levels (before_total dir a b e) h.0,
    insert_level-IsSorted dir a levels h.1,
  )
]

pub sort_levels-IsSorted :
    (dir : Direction) (levels : Levels) → IsSorted dir (sort_levels dir levels)
unfolding sort_levels
sort_levels-IsSorted dir [] = tt
sort_levels-IsSorted dir (a ∷ levels) =
    insert_level-IsSorted dir a (sort_levels dir levels) (sort_levels-IsSorted dir levels)

pub take-IsSorted :
    (dir : Direction) (n : ℕ) (levels : Levels) → IsSorted dir levels → IsSorted dir (take n levels)
take-IsSorted dir zero levels h = tt
take-IsSorted dir (suc n) [] h = tt
take-IsSorted dir (suc n) (l ∷ levels) h =
    (take-All (λ b. before dir l b ≡ true) n levels h.0, take-IsSorted dir n levels h.1)
