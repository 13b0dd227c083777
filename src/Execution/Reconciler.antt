-- ===== src/Execution/Reconciler.antt =====
-- packages/execution/src/reconciler.ts: the difference between the local view and the venue's. A
-- `Set` is a list without repetitions in insertion order. The text `detail` of a drift is left out,
-- but for the state that it shows.
pub mod Clean
pub mod Corrections
use ztrade.Prelude.{String, Bool, true, false, not, none, some, List, [], ◌∷◌, ◌++◌, if◌then◌else◌}
use ztrade.Prelude.Double.{Double}
use ztrade.Prelude.Table.{Table, string_eq, lookup, insert}
use ztrade.Execution.OrderState.{OrderState, OrderRecord, is_live, nought}

pub record ExchangeOrder : Type 0 where
  pub link_id : String
  pub traded : String

pub record ExchangePosition (F : Type 0) : Type 0 where
  pub held : String
  pub signed_size : F

pub data Drift (F : Type 0) : Type 0 where
  phantom_order : String → OrderState → Drift F
  untracked_order : (id symbol : String) → Drift F
  position_mismatch : String → (local_size exchange_size : F) → Drift F

pub record ReconcileResult (F : Type 0) : Type 0 where
  pub drift : List (Drift F)
  pub clean : Bool

-- `set.has(x)`
abbrev pub contains : List String → String → Bool
contains [] x = false
contains (y ∷ ys) x = if string_eq.beq y x then true else contains ys x

-- `set.add(x)`
abbrev pub add_key : String → List String → List String
add_key x ys = if contains ys x then ys else ys ++ (x ∷ [])

-- The keys of a map are added one after the other.
abbrev pub add_keys : {F : Type 0} → Table String F → List String → List String
add_keys [] keys = keys
add_keys ((k, v) ∷ m) keys = add_keys m (add_key k keys)

abbrev pub ids_of : List ExchangeOrder → List String
ids_of [] = []
ids_of (o ∷ os) = o.link_id ∷ ids_of os

-- `localOrderIds` after the first loop.
abbrev pub live_ids : {F : Type 0} → Table String (OrderRecord F) → List String
live_ids [] = []
live_ids ((id, order) ∷ orders) = if is_live order then id ∷ live_ids orders else live_ids orders

-- What the first loop finds.
abbrev pub phantoms : {F : Type 0} → List String → Table String (OrderRecord F) → List (Drift F)
phantoms known [] = []
phantoms known ((id, order) ∷ orders) =
    if not (is_live order)
    then phantoms known orders
    else if not (contains known id)
    then phantom_order id order.state ∷ phantoms known orders
    else phantoms known orders

-- What the second loop finds.
abbrev pub untracked : {F : Type 0} → List String → List ExchangeOrder → List (Drift F)
untracked tracked [] = []
untracked tracked (o ∷ os) =
    if not (contains tracked o.link_id)
    then untracked_order o.link_id o.traded ∷ untracked tracked os
    else untracked tracked os

-- `exchangeBySymbol`
abbrev pub by_symbol_from :
    {F : Type 0} → List (ExchangePosition F) → Table String F → Table String F
by_symbol_from [] m = m
by_symbol_from (p ∷ ps) m = by_symbol_from ps (insert p.held p.signed_size m)

abbrev pub by_symbol : {F : Type 0} → List (ExchangePosition F) → Table String F
by_symbol ps = by_symbol_from ps []

abbrev pub is_empty : {F : Type 0} → List (Drift F) → Bool
is_empty [] = true
is_empty (x ∷ xs) = false

module _ {F : Type 0} ⦃d : Double F⦄ where
  abbrev pub size_epsilon : F
  size_epsilon = d.literal 1 8

  abbrev pub size_in : Table String F → String → F
  size_in m symbol = elim (lookup symbol m) [ none ↦ nought | some size ↦ size ]

  -- The condition of the third loop.
  abbrev pub differs : Table String F → Table String F → String → Bool
  differs local exchange symbol =
      d.lt size_epsilon (d.abs (d.sub (size_in local symbol) (size_in exchange symbol)))

  abbrev pub mismatches : Table String F → Table String F → List String → List (Drift F)
  mismatches local exchange [] = []
  mismatches local exchange (s ∷ symbols) =
      if differs local exchange s
      then position_mismatch s (size_in local s) (size_in exchange s)
        ∷ mismatches local exchange symbols
      else mismatches local exchange symbols

  unfoldable pub drifts :
      Table String (OrderRecord F)
      → Table String F
      → List ExchangeOrder
      → List (ExchangePosition F)
      → List (Drift F)
  drifts orders local venue_orders venue_positions =
      let exchange = by_symbol venue_positions in
      phantoms (ids_of venue_orders) orders
      ++ (untracked (live_ids orders) venue_orders
          ++ mismatches local exchange (add_keys exchange (add_keys local [])))

  unfoldable pub reconcile :
      Table String (OrderRecord F)
      → Table String F
      → List ExchangeOrder
      → List (ExchangePosition F)
      → ReconcileResult F
  reconcile orders local venue_orders venue_positions =
      let found = drifts orders local venue_orders venue_positions in
      record { drift = found; clean = is_empty found }

  -- The loop of `positionCorrections`.
  abbrev pub correct_by : Drift F → Table String F → Table String F
  correct_by (position_mismatch symbol local_size exchange_size) m = insert symbol exchange_size m
  correct_by _ m = m

  abbrev pub corrections_from : List (Drift F) → Table String F → Table String F
  corrections_from [] m = m
  corrections_from (x ∷ xs) m = corrections_from xs (correct_by x m)

  unfoldable pub position_corrections : ReconcileResult F → Table String F
  position_corrections result = corrections_from result.drift []
