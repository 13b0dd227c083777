-- ===== src/Live/Pipeline/Corrected.antt =====
-- The engine's positions after a reconciliation.
use ztrade.Prelude.{
  String, ◌≡◌, refl, ap, ◌∙◌, inl, inr, Bool, true, false, ◌&&◌, ◌||◌, Option, none, some, List, [],
  ◌∷◌, arith, if◌then◌else◌, Bool-cases,
}
use mathlib.Core.Bool.{false≢true}
use ztrade.Prelude.Double.{Double}
use ztrade.Prelude.Table.{
  Table, string_eq, lookup, insert, lookup-insert, lookup-erase, Distinct, insert-Distinct,
}
use ztrade.Execution.OrderState.{OrderRecord, nought}
use ztrade.Execution.Reconciler.{
  ExchangePosition, ExchangeOrder, Drift, contains, add_key, by_symbol, by_symbol_from, size_in,
  size_epsilon, corrections_from, position_corrections, reconcile, is_empty, drifts,
  ReconcileResult,
}
use ztrade.Execution.Reconciler.Corrections.{contains-add_key, has_key, lookup-position_corrections}
use ztrade.Execution.Engine.{Engine, override_position}
use ztrade.Live.Broker.{LiveBroker}
use ztrade.Live.Pipeline.{
  LivePipeline, add_held, add_traded, add_streamed, engine_position_symbols, position_of,
  local_from, local_positions, override_each, finish_reconciliation, VenueView, exchange_positions,
  outcome,
}

has_key-insert :
    {F : Type 0} (k : String) (v : F) (m : Table String F) (s : String)
    → has_key (insert k v m) s ≡ (string_eq.beq k s || has_key m s)
has_key-insert k v [] s = ground arith
has_key-insert k v ((j, w) ∷ m) s = ground (arith, string_eq.beq_iff j k, has_key-insert k v m s)

-- A map has a key where it gives a value.
has_key-lookup :
    {F : Type 0} (m : Table String F) (s : String) → (has_key m s ≡ false) → lookup s m ≡ none
has_key-lookup [] s h = refl
has_key-lookup ((j, w) ∷ m) s h = ground (arith, has_key-lookup m s)

module _ {F : Type 0} where
  -- Adding to the set of symbols loses none.
  contains-add_held :
      (ps : List (ExchangePosition F)) (m : Table String F) (symbols : List String) (s : String)
      → (has_key m s ≡ true → contains symbols s ≡ true)
      → has_key (by_symbol_from ps m) s ≡ true
      → contains (add_held ps symbols) s ≡ true
  contains-add_held [] m symbols s h k = h k
  contains-add_held (p ∷ ps) m symbols s h k =
      contains-add_held ps (insert p.held p.signed_size m) (add_key p.held symbols) s
        (λ q.
          ground
            (arith, h, contains-add_key p.held s symbols, has_key-insert p.held p.signed_size m s))
        k

  contains-add_traded :
      (orders : Table String (OrderRecord F)) (symbols : List String) (s : String)
      → contains symbols s ≡ true
      → contains (add_traded orders symbols) s ≡ true
  contains-add_traded [] symbols s h = h
  contains-add_traded ((id, order) ∷ orders) symbols s h =
      contains-add_traded orders (add_key order.symbol symbols) s
        (ground (arith, contains-add_key order.symbol s symbols))

  contains-add_streamed :
      (m : Table String F) (symbols : List String) (s : String)
      → contains symbols s ≡ true
      → contains (add_streamed m symbols) s ≡ true
  contains-add_streamed [] symbols s h = h
  contains-add_streamed ((k, size) ∷ m) symbols s h =
      contains-add_streamed m (add_key k symbols) s (ground (arith, contains-add_key k s symbols))

module _ {F : Type 0} ⦃d : Double F⦄ where
  corrections_from-Distinct :
      (xs : List (Drift F)) (m : Table String F) → Distinct m → Distinct (corrections_from xs m)
  corrections_from-Distinct [] m h = h
  corrections_from-Distinct (Drift.phantom_order id state ∷ xs) m h =
      corrections_from-Distinct xs m h
  corrections_from-Distinct (Drift.untracked_order id symbol ∷ xs) m h =
      corrections_from-Distinct xs m h
  corrections_from-Distinct (Drift.position_mismatch symbol mine theirs ∷ xs) m h =
      corrections_from-Distinct xs (insert symbol theirs m) (insert-Distinct symbol theirs m h)

  -- A position of size zero is dropped, and reads as zero.
  abbrev pub placed : F → F
  placed size = if d.eq size (d.literal 0 0) then nought else size

  abbrev placed_or : Option F → F → F
  placed_or none before = before
  placed_or (some size) before = placed size

  empty-corrections : (xs : List (Drift F)) → is_empty xs ≡ true → corrections_from xs [] ≡ []
  empty-corrections [] h = refl
  empty-corrections (x ∷ xs) h = absurd (false≢true h)

  clean-corrections :
      (orders : List ExchangeOrder) (ps : List (ExchangePosition F)) (mine : Table String F)
      (known : Table String (OrderRecord F))
      → (reconcile known mine orders ps).clean ≡ true
      → position_corrections (reconcile known mine orders ps) ≡ []
  unfolding reconcile position_corrections
  clean-corrections orders ps mine known h = empty-corrections (drifts known mine orders ps) h

  corrections-Distinct : (result : ReconcileResult F) → Distinct (position_corrections result)
  unfolding position_corrections
  corrections-Distinct result = corrections_from-Distinct result.drift [] tt

  module _ {V S : Type 0} where
    position_of-override :
        (k : String) (size : F) (e : Engine F (LiveBroker F V) S) (s : String)
        → position_of s (override_position k size e)
          ≡ (if string_eq.beq k s then placed size else position_of s e)
    unfolding override_position
    position_of-override k size e s =
        ground (arith, lookup-erase k s e.positions, lookup-insert k s size e.positions)

    position_of-override_each :
        (m : Table String F) (e : Engine F (LiveBroker F V) S) (s : String)
        → Distinct m
        → position_of s (override_each m e) ≡ placed_or (lookup s m) (position_of s e)
    position_of-override_each [] e s h = refl
    position_of-override_each ((k, size) ∷ m) e s h = ground (
      arith,
      string_eq.beq_iff k s,
      position_of-override_each m (override_position k size e) s h.1,
      position_of-override k size e s,
      h.0,
    )

    lookup-local_from :
        (symbols : List String) (e : Engine F (LiveBroker F V) S) (m : Table String F) (s : String)
        → lookup s (local_from symbols e m)
          ≡ (if contains symbols s then some (position_of s e) else lookup s m)
    lookup-local_from [] e m s = refl
    lookup-local_from (k ∷ symbols) e m s = ground (
      arith,
      string_eq.beq_iff k s,
      lookup-local_from symbols e (insert k (position_of k e) m) s,
      lookup-insert k s (position_of k e) m,
    )

    -- The sets of symbols: what the venue holds is among what is reconciled.
    has_key-symbols :
        (ps : List (ExchangePosition F)) (p : LivePipeline F V S) (s : String)
        → has_key (by_symbol ps) s ≡ true
        → contains (engine_position_symbols ps p) s ≡ true
    unfolding engine_position_symbols
    has_key-symbols ps p s h =
        contains-add_streamed p.streamed_positions (add_traded p.engine.orders (add_held ps [])) s (
          contains-add_traded p.engine.orders (add_held ps []) s
            (contains-add_held ps [] [] s (λ q. absurd (false≢true q)) h))

    has_key-local_from :
        (symbols : List String) (e : Engine F (LiveBroker F V) S) (m : Table String F) (s : String)
        → has_key (local_from symbols e m) s ≡ (contains symbols s || has_key m s)
    has_key-local_from [] e m s = refl
    has_key-local_from (k ∷ symbols) e m s = ground (
      arith,
      string_eq.beq_iff k s,
      has_key-local_from symbols e (insert k (position_of k e) m) s,
      has_key-insert k (position_of k e) m s,
    )

    -- The engine's position and the venue's are further apart than the tolerance.
    abbrev pub is_apart : List (ExchangePosition F) → Engine F (LiveBroker F V) S → String → Bool
    is_apart ps e s = d.lt size_epsilon (d.abs (d.sub (position_of s e) (size_in (by_symbol ps) s)))

    lookup-corrections :
        (orders : List ExchangeOrder) (ps : List (ExchangePosition F)) (p : LivePipeline F V S)
        (s : String)
        → let symbols = engine_position_symbols ps p in
          lookup s (
            position_corrections
              (reconcile p.engine.orders (local_positions symbols p.engine) orders ps))
          ≡ (if contains symbols s && is_apart ps p.engine s
              then some (size_in (by_symbol ps) s)
              else none)
    lookup-corrections orders ps p s =
        let symbols = engine_position_symbols ps p in
        let mine = local_positions symbols p.engine in
        ground (
          arith,
          lookup-position_corrections p.engine.orders mine orders ps s,
          has_key-local_from symbols p.engine [] s,
          lookup-local_from symbols p.engine [] s,
          has_key-symbols ps p s,
        )

    pub finish_corrects :
        (view : VenueView F) (p : LivePipeline F V S) (s : String)
        → let ps = exchange_positions view.1 in
          position_of s (finish_reconciliation view p).0.engine ≡ (
            if contains (engine_position_symbols ps p) s && is_apart ps p.engine s
            then placed (size_in (by_symbol ps) s)
            else position_of s p.engine)
    unfolding finish_reconciliation
    finish_corrects view p s =
        let ps = exchange_positions view.1 in
        let symbols = engine_position_symbols ps p in
        let fixes = position_corrections (outcome view p) in
        let found = lookup-corrections view.0 ps p s in
        elim (Bool-cases ((outcome view p).clean)) [
          | inl clean ↦
              let none_found : lookup s fixes ≡ none = ap (lookup s) (
                clean-corrections view.0 ps (local_positions symbols p.engine) p.engine.orders
                  clean) in
              simp clean (ground (arith, none_found, found))
          | inr drifted ↦ simp drifted (
              position_of-override_each fixes p.engine s (corrections-Distinct (outcome view p))
              ∙ ground (arith, found))
        ]
