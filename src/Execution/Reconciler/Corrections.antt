-- ===== src/Execution/Reconciler/Corrections.antt =====
-- What the corrections do to the positions.
use ztrade.Prelude.{
  String, ◌≡◌, refl, ap, ◌∙◌, Bool, true, false, ◌&&◌, ◌||◌, none, some, List, [], ◌∷◌, ◌++◌, arith,
  if◌then◌else◌,
}
use ztrade.Prelude.Double.{Double}
use ztrade.Prelude.Table.{Table, string_eq, lookup, insert, lookup-insert}
use ztrade.Execution.OrderState.{OrderRecord}
use ztrade.Execution.Reconciler.{
  ExchangeOrder, ExchangePosition, Drift, contains, add_key, add_keys, phantoms, untracked,
  by_symbol, ids_of, live_ids, size_in, differs, mismatches, drifts, reconcile, corrections_from,
  position_corrections,
}

-- `m.has(k)`
abbrev pub has_key : {F : Type 0} → Table String F → String → Bool
has_key [] k = false
has_key ((j, v) ∷ m) k = if string_eq.beq j k then true else has_key m k

contains-append :
    (xs : List String) (x y : String)
    → contains (xs ++ (x ∷ [])) y ≡ (contains xs y || string_eq.beq x y)
contains-append [] x y = ground arith
contains-append (z ∷ xs) x y = ground (arith, contains-append xs x y)

pub contains-add_key :
    (x y : String) (xs : List String)
    → contains (add_key x xs) y ≡ (contains xs y || string_eq.beq x y)
contains-add_key x y xs = ground (arith, contains-append xs x y, string_eq.beq_iff x y)

contains-add_keys :
    {F : Type 0} (m : Table String F) (keys : List String) (y : String)
    → contains (add_keys m keys) y ≡ (contains keys y || has_key m y)
contains-add_keys [] keys y = ground arith
contains-add_keys ((k, v) ∷ m) keys y =
    ground (arith, contains-add_keys m (add_key k keys) y, contains-add_key k y keys)

module _ {F : Type 0} ⦃d : Double F⦄ where
  skip_phantoms :
      (known : List String) (orders : Table String (OrderRecord F)) (rest : List (Drift F))
      (m : Table String F)
      → corrections_from (phantoms known orders ++ rest) m ≡ corrections_from rest m
  skip_phantoms known [] rest m = refl
  skip_phantoms known ((id, order) ∷ orders) rest m =
      ground (arith, skip_phantoms known orders rest m)

  skip_untracked :
      (tracked : List String) (os : List ExchangeOrder) (rest : List (Drift F)) (m : Table String F)
      → corrections_from (untracked tracked os ++ rest) m ≡ corrections_from rest m
  skip_untracked tracked [] rest m = refl
  skip_untracked tracked (o ∷ os) rest m = ground (arith, skip_untracked tracked os rest m)

  lookup-mismatches :
      (local exchange : Table String F) (symbols : List String) (m : Table String F) (s : String)
      → lookup s (corrections_from (mismatches local exchange symbols) m) ≡ (
          if contains symbols s && differs local exchange s
          then some (size_in exchange s)
          else lookup s m)
  lookup-mismatches local exchange [] m s = refl
  lookup-mismatches local exchange (t ∷ symbols) m s = ground (
    arith,
    string_eq.beq_iff t s,
    lookup-insert t s (size_in exchange t) m,
    lookup-mismatches local exchange symbols m s,
    lookup-mismatches local exchange symbols (insert t (size_in exchange t) m) s,
  )

  -- The exchange wins: a symbol is corrected exactly where one of the two sides holds it and the
  -- sizes differ by more than the tolerance, and then to the exchange's size, with zero for a
  -- position that the exchange does not report.
  pub lookup-position_corrections :
      (orders : Table String (OrderRecord F)) (local : Table String F) (os : List ExchangeOrder)
      (ps : List (ExchangePosition F)) (s : String)
      → lookup s (position_corrections (reconcile orders local os ps)) ≡ (
          if (has_key local s || has_key (by_symbol ps) s) && differs local (by_symbol ps) s
          then some (size_in (by_symbol ps) s)
          else none)
  unfolding position_corrections reconcile drifts
  lookup-position_corrections orders local os ps s =
      let exchange = by_symbol ps in
      let symbols = add_keys exchange (add_keys local []) in
      ap (lookup s) (
        skip_phantoms (ids_of os) orders
          (untracked (live_ids orders) os ++ mismatches local exchange symbols) []
        ∙ skip_untracked (live_ids orders) os (mismatches local exchange symbols) [])
      ∙ lookup-mismatches local exchange symbols [] s
      ∙ rw (contains-add_keys exchange (add_keys local []) s, contains-add_keys local [] s) refl
