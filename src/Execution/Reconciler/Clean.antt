-- ===== src/Execution/Reconciler/Clean.antt =====
-- What a clean result says.
use ztrade.Prelude.{
  String, ◌≡◌, refl, sym, ap, ◌∙◌, ◌↔◌, ◌⊎◌, inl, inr, Bool, true, false, ◌&&◌, Option, none, some,
  List, [], ◌∷◌, ◌++◌, arith, if◌then◌else◌, Bool-cases, All,
}
use mathlib.Core.Path.{subst}
use ztrade.Prelude.Double.{Double}
use ztrade.Prelude.Table.{Table}
use ztrade.Execution.OrderState.{OrderRecord, is_live, nought}
use ztrade.Execution.Reconciler.{
  ExchangeOrder, ExchangePosition, Drift, contains, add_keys, phantoms, untracked, by_symbol,
  is_empty, ids_of, live_ids, differs, mismatches, drifts, reconcile, string_eq, add_key, insert,
  by_symbol_from, size_in, lookup,
}

-- An order of the list has the id.
abbrev HasOrder : String → List ExchangeOrder → Type 0
HasOrder id [] = ⊥
HasOrder id (o ∷ os) = (o.link_id ≡ id) ⊎ HasOrder id os

-- An order of the table is kept under the id and is live.
abbrev HasLive : {F : Type 0} → String → Table String (OrderRecord F) → Type 0
HasLive id [] = ⊥
HasLive id ((j, order) ∷ orders) = ((j ≡ id) × (is_live order ≡ true)) ⊎ HasLive id orders

-- The last size that the list has for the symbol.
abbrev latest : {F : Type 0} → String → List (ExchangePosition F) → F → F
latest s [] size = size
latest s (p ∷ ps) size = latest s ps (if string_eq.beq p.held s then p.signed_size else size)

module _ {F : Type 0} ⦃d : Double F⦄ where
  abbrev held_size : String → Table String F → F
  held_size s [] = d.literal 0 0
  held_size s ((k, size) ∷ m) = if string_eq.beq k s then size else held_size s m

  -- The sizes of a symbol differ by no more than the tolerance of 1e-8.
  abbrev IsNear : Table String F → List (ExchangePosition F) → String → Type 0
  IsNear local ps s =
      d.lt (d.literal 1 8) (d.abs (d.sub (held_size s local) (latest s ps (d.literal 0 0)))) ≡ false

-- The two views agree: the exchange lists every live order, every order of the exchange is live
-- here, and no symbol of either side has sizes that differ.
pub record Agree {F : Type 0} ⦃d : Double F⦄ (orders : Table String (OrderRecord F))
    (local : Table String F) (os : List ExchangeOrder) (ps : List (ExchangePosition F))
    : Type 0 where
  pub known : All (λ o. is_live o.1 ≡ true → HasOrder o.0 os) orders
  pub tracked : All (λ o. HasLive o.link_id orders) os
  pub here : All (λ entry. IsNear local ps entry.0) local
  pub there : All (λ p. IsNear local ps p.held) ps

contains-HasOrder :
    (id : String) (os : List ExchangeOrder) → (contains (ids_of os) id ≡ true) ↔ HasOrder id os
contains-HasOrder id [] = ground arith
contains-HasOrder id (o ∷ os) =
    ground (arith, string_eq.beq_iff o.link_id id, contains-HasOrder id os)

contains-HasLive :
    {F : Type 0} (id : String) (orders : Table String (OrderRecord F))
    → (contains (live_ids orders) id ≡ true) ↔ HasLive id orders
contains-HasLive id [] = ground arith
contains-HasLive id ((j, order) ∷ orders) =
    ground (arith, string_eq.beq_iff j id, contains-HasLive id orders)

-- What holds of the symbols that a collection has, each one counted once.
module _ (P : String → Type 0) where
  All-contains : (x : String) (ys : List String) → contains ys x ≡ true → All P ys → P x
  All-contains x [] h all = absurd (ground arith)
  All-contains x (y ∷ ys) h (first, all) = elim (Bool-cases (string_eq.beq y x)) [
    | inl same ↦ subst P ((string_eq.beq_iff y x).0 same) first
    | inr other ↦ All-contains x ys (simp other at h) all
  ]

  All-snoc : (x : String) (ys : List String) → All P (ys ++ (x ∷ [])) ↔ P x × All P ys
  All-snoc x [] = (λ h. h, λ h. h)
  All-snoc x (y ∷ ys) =
      let (there, back) = All-snoc x ys in
      (λ h. let (a, b) = there h.1 in (a, (h.0, b)), λ h. (h.1.0, back (h.0, h.1.1)))

  All-add_key : (x : String) (ys : List String) → All P (add_key x ys) ↔ P x × All P ys
  All-add_key x ys = elim (Bool-cases (contains ys x)) [
    | inl old ↦ rw old (λ h. (All-contains x ys old h, h), λ h. h.1)
    | inr new ↦ rw new (All-snoc x ys)
  ]

  All-add_keys :
      {F : Type 0} (m : Table String F) (keys : List String)
      → All P (add_keys m keys) ↔ All (λ entry. P entry.0) m × All P keys
  All-add_keys [] keys = (λ h. (tt, h), λ h. h.1)
  All-add_keys ((k, v) ∷ m) keys =
      let (there, back) = All-add_keys m (add_key k keys) in
      let (split, join) = All-add_key k keys in
      (
        λ h. let (a, b) = there h in let (x, c) = split b in ((x, a), c),
        λ h. back (h.0.1, join (h.0.0, h.1)),
      )

  All-insert :
      {F : Type 0} (k : String) (v : F) (m : Table String F)
      → All (λ entry. P entry.0) (insert k v m) ↔ P k × All (λ entry. P entry.0) m
  All-insert k v [] = (λ h. h, λ h. h)
  All-insert k v ((j, w) ∷ m) = elim (Bool-cases (string_eq.beq j k)) [
    | inl same ↦ rw same (λ h. (subst P ((string_eq.beq_iff j k).0 same) h.0, h), λ h. h.1)
    | inr other ↦
        let (there, back) = All-insert k v m in
        rw other (λ h. let (a, b) = there h.1 in (a, (h.0, b)), λ h. (h.1.0, back (h.0, h.1.1)))
  ]

  All-by_symbol_from :
      {F : Type 0} (ps : List (ExchangePosition F)) (m : Table String F)
      → All (λ entry. P entry.0) (by_symbol_from ps m)
        ↔ All (λ p. P p.held) ps × All (λ entry. P entry.0) m
  All-by_symbol_from [] m = (λ h. (tt, h), λ h. h.1)
  All-by_symbol_from (p ∷ ps) m =
      let (there, back) = All-by_symbol_from ps (insert p.held p.signed_size m) in
      let (split, join) = All-insert p.held p.signed_size m in
      (
        λ h. let (a, b) = there h in let (x, c) = split b in ((x, a), c),
        λ h. back (h.0.1, join (h.0.0, h.1)),
      )

is_empty-append :
    {F : Type 0} (xs ys : List (Drift F)) → is_empty (xs ++ ys) ≡ (is_empty xs && is_empty ys)
is_empty-append [] ys = refl
is_empty-append (x ∷ xs) ys = refl

and_true : (a b : Bool) → (a && b) ≡ true → (a ≡ true) × (b ≡ true)
and_true a b h = ground arith

module _ {F : Type 0} ⦃d : Double F⦄ where
  no_untracked :
      (orders : Table String (OrderRecord F)) (os : List ExchangeOrder)
      → (is_empty {F = F} (untracked (live_ids orders) os) ≡ true)
        ↔ All (λ o. HasLive o.link_id orders) os
  no_untracked orders [] = ground arith
  no_untracked orders (o ∷ os) =
      ground (arith, contains-HasLive o.link_id orders, no_untracked orders os)

  no_phantoms :
      (os : List ExchangeOrder) (orders : Table String (OrderRecord F))
      → (is_empty (phantoms (ids_of os) orders) ≡ true)
        ↔ All (λ o. is_live o.1 ≡ true → HasOrder o.0 os) orders
  no_phantoms os [] = ground arith
  no_phantoms os ((id, order) ∷ orders) =
      ground (arith, contains-HasOrder id os, no_phantoms os orders)

  if_some :
      (b : Bool) (x : F) (o : Option F)
      → (elim (if b then some x else o) as (λ _. F) [ none ↦ nought | some size ↦ size ])
        ≡ (if b then x else (elim o as (λ _. F) [ none ↦ nought | some size ↦ size ]))
  if_some true x o = refl
  if_some false x o = refl

  size_in-held : (s : String) (m : Table String F) → size_in m s ≡ held_size s m
  size_in-held s [] = refl
  size_in-held s ((k, size) ∷ m) =
      if_some (string_eq.beq k s) size (lookup s m)
      ∙ ap (λ x. if string_eq.beq k s then size else x) (size_in-held s m)

  held_size-insert :
      (k s : String) (size : F) (m : Table String F)
      → held_size s (insert k size m) ≡ (if string_eq.beq k s then size else held_size s m)
  held_size-insert k s size [] = refl
  held_size-insert k s size ((j, w) ∷ m) = ground (
    arith,
    string_eq.beq_iff k s,
    string_eq.beq_iff j k,
    string_eq.beq_iff j s,
    held_size-insert k s size m,
  )

  held_size-latest :
      (s : String) (ps : List (ExchangePosition F)) (m : Table String F)
      → held_size s (by_symbol_from ps m) ≡ latest s ps (held_size s m)
  held_size-latest s [] m = refl
  held_size-latest s (p ∷ ps) m =
      held_size-latest s ps (insert p.held p.signed_size m)
      ∙ ap (latest s ps) (held_size-insert p.held s p.signed_size m)

  -- The test of the third loop is the spec's.
  differs-near :
      (local : Table String F) (ps : List (ExchangePosition F)) (s : String)
      → differs local (by_symbol ps) s
        ≡ d.lt (d.literal 1 8) (d.abs (d.sub (held_size s local) (latest s ps (d.literal 0 0))))
  differs-near local ps s =
      ap (λ x. d.lt (d.literal 1 8) (d.abs (d.sub x (size_in (by_symbol ps) s))))
        (size_in-held s local)
      ∙ ap (λ x. d.lt (d.literal 1 8) (d.abs (d.sub (held_size s local) x)))
          (size_in-held s (by_symbol ps) ∙ held_size-latest s ps [])

  no_mismatches :
      (local : Table String F) (ps : List (ExchangePosition F)) (symbols : List String)
      → (is_empty (mismatches local (by_symbol ps) symbols) ≡ true) ↔ All (IsNear local ps) symbols
  no_mismatches local ps [] = ground arith
  no_mismatches local ps (s ∷ symbols) =
      let near = differs-near local ps s in
      let (there, back) = no_mismatches local ps symbols in
      elim (Bool-cases (differs local (by_symbol ps) s)) [
        | inl apart ↦
            rw apart (λ h. absurd (ground arith), λ h. absurd (ground (arith, h.0, near, apart)))
        | inr same ↦ rw same (λ h. (sym near ∙ same, there h), λ h. back h.1)
      ]

  -- The result is clean exactly when the two views agree: the exchange lists every order that is
  -- live here, every order of the exchange is live here, and of no symbol that either side holds are
  -- the two sizes (0 where a side has none, the last that the exchange lists) more than 1e-8 apart.
  pub reconcile-Agree :
      (orders : Table String (OrderRecord F)) (local : Table String F) (os : List ExchangeOrder)
      (ps : List (ExchangePosition F))
      → ((reconcile orders local os ps).clean ≡ true) ↔ Agree orders local os ps
  unfolding reconcile drifts
  reconcile-Agree orders local os ps =
      let symbols = add_keys (by_symbol ps) (add_keys local []) in
      let one = no_phantoms os orders in
      let two = no_untracked orders os in
      let three = no_mismatches local ps symbols in
      let keys = All-add_keys (IsNear local ps) (by_symbol ps) (add_keys local []) in
      let mine = All-add_keys (IsNear local ps) local [] in
      let theirs = All-by_symbol_from (IsNear local ps) ps [] in
      let found = untracked (live_ids orders) os ++ mismatches local (by_symbol ps) symbols in
      let first = is_empty-append (phantoms (ids_of os) orders) found in
      let second =
        is_empty-append (untracked (live_ids orders) os)
          (mismatches local (by_symbol ps) symbols) in
      (
        λ h.
            let (a, bc) = and_true _ _ (rw first at h) in
            let (b, c) = and_true _ _ (rw second at bc) in
            let (x, y) = keys.0 (three.0 c) in
            record {
              known = one.0 a;
              tracked = two.0 b;
              here = (mine.0 y).0;
              there = (theirs.0 x).0;
            },
        λ g.
            let all = keys.1 (theirs.1 (g.there, tt), mine.1 (g.here, tt)) in
            rw (first, second, one.1 g.known, two.1 g.tracked, three.1 all) refl,
      )
