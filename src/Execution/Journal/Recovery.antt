-- ===== src/Execution/Journal/Recovery.antt =====
-- What recovery rebuilds: each order from its own entries alone, each position from accepted fills.
use ztrade.Prelude.{
  String, ◌≡◌, refl, ◌∙◌, ◌⊎◌, inl, inr, Bool, Option, none, some, List, [], ◌∷◌, ◌++◌, arith,
  if◌then◌else◌, Option-cases,
}
use mathlib.Core.Option
use ztrade.Prelude.Double.{Double}
use ztrade.Prelude.Table.{string_eq, lookup-insert}
use ztrade.Execution.OrderState.{
  OrderRecord, new_order, apply_order_event, fill, ok, refused, ApplyError, order_of,
}
use ztrade.Execution.OrderState.Machine.{apply-Follows}
use ztrade.Execution.Journal.{
  JournalEntry, open_order, event, reconciled, OrderEvent, recover_step, recover_from,
  recover_state, RecoveredState, lookup, get_or_nought, signed,
}

module _ {F : Type 0} ⦃d : Double F⦄ where
  -- What an entry means for the one order `id`: only its own opening and its own events matter.
  abbrev life_step : String → JournalEntry F → Option (OrderRecord F) → Option (OrderRecord F)
  life_step id (reconciled at detail) life = life
  life_step id (open_order at j symbol side qty) life =
      if string_eq.beq j id then some (new_order j symbol side qty) else life
  life_step id (event at j e) life =
      if string_eq.beq j id
      then Option.map (λ order. order_of (apply_order_event order e)) life
      else life

  -- The life of one order: from its last opening on, its events through the state machine.
  unfoldable pub life_from :
      String → List (JournalEntry F) → Option (OrderRecord F) → Option (OrderRecord F)
  life_from id [] life = life
  life_from id (entry ∷ entries) life = life_from id entries (life_step id entry life)

  lookup-recover_step :
      (id : String) (entry : JournalEntry F) (s : RecoveredState F)
      → lookup id (recover_step entry s).orders ≡ life_step id entry (lookup id s.orders)
  unfolding recover_step
  lookup-recover_step id (reconciled at detail) s = refl
  lookup-recover_step id (open_order at j symbol side qty) s =
      lookup-insert j id (new_order j symbol side qty) s.orders
  lookup-recover_step id (event at j e) s = elim (Option-cases (lookup j s.orders)) [
    | inl unknown ↦ ground (arith, string_eq.beq_iff j id)
    | inr (order, known) ↦ ground (
      arith,
      string_eq.beq_iff j id,
      apply-Follows order e,
      lookup-insert j id (order_of (apply_order_event order e)) s.orders,
    )
  ]

  lookup-recover_from :
      (id : String) (entries : List (JournalEntry F)) (s : RecoveredState F)
      → lookup id (recover_from entries s).orders ≡ life_from id entries (lookup id s.orders)
  unfolding recover_from life_from
  lookup-recover_from id [] s = refl
  lookup-recover_from id (entry ∷ entries) s =
      rw (← lookup-recover_step id entry s) (lookup-recover_from id entries (recover_step entry s))

  -- Recovery rebuilds every order exactly as the state machine left it: the order that is found
  -- under an id is its last opening with its own events applied, and no entry of another order, no
  -- refused event and no marker has a part in it.
  pub lookup-recover_state :
      (id : String) (entries : List (JournalEntry F))
      → lookup id (recover_state entries).orders ≡ life_from id entries none
  unfolding recover_state
  lookup-recover_state id entries = lookup-recover_from id entries _

  recover_from-append :
      (xs : List (JournalEntry F)) (entry : JournalEntry F) (s : RecoveredState F)
      → recover_from (xs ++ (entry ∷ [])) s ≡ recover_step entry (recover_from xs s)
  unfolding recover_from
  recover_from-append [] entry s = refl
  recover_from-append (x ∷ xs) entry s = recover_from-append xs entry (recover_step x s)

  recover_state-append :
      (xs : List (JournalEntry F)) (entry : JournalEntry F)
      → recover_state (xs ++ (entry ∷ [])) ≡ recover_step entry (recover_state xs)
  unfolding recover_state
  recover_state-append xs entry = recover_from-append xs entry _

  -- A journalled fill that the state machine accepts moves the position of the order's symbol by
  -- the quantity, with the sign of the order's side, and no other position.
  pub position_of_fill :
      (xs : List (JournalEntry F)) (at : F) (id : String) (qty price fee : F) (is_maker : Bool)
      {order next : OrderRecord F} {moved : Bool} (symbol : String)
      → life_from id xs none ≡ some order
      → apply_order_event order (fill qty price fee is_maker) ≡ ok next moved
      → lookup symbol
          (recover_state (xs ++ (event at id (fill qty price fee is_maker) ∷ []))).positions
        ≡ (if string_eq.beq order.symbol symbol
            then some (
                d.add
                  (get_or_nought (lookup order.symbol (recover_state xs).positions))
                  (signed order.side qty))
            else lookup symbol (recover_state xs).positions)
  unfolding recover_step
  position_of_fill xs at id qty price fee is_maker {order} {next} {moved} symbol h k =
      rw
        (
          recover_state-append xs (event at id (fill qty price fee is_maker)),
          lookup-recover_state id xs ∙ h,
          k,
        )
        (lookup-insert order.symbol symbol
          (d.add (get_or_nought (lookup order.symbol (recover_state xs).positions))
            (signed order.side qty))
          (recover_state xs).positions)

  -- A fill that is refused, or that names an order which was never opened, changes nothing that is
  -- recovered.
  pub recover_state-skip :
      (xs : List (JournalEntry F)) (at : F) (id : String) (e : OrderEvent F)
      → ((life_from id xs none ≡ none)
          ⊎ ((order : OrderRecord F) × (error : ApplyError F) × (life_from id xs none ≡ some order)
              × (apply_order_event order e ≡ refused error order)))
      → recover_state (xs ++ (event at id e ∷ [])) ≡ recover_state xs
  unfolding recover_step
  recover_state-skip xs at id e (inl unknown) =
      rw (recover_state-append xs (event at id e), lookup-recover_state id xs ∙ unknown)
  recover_state-skip xs at id e (inr (order, error, known, no_good)) =
      rw (recover_state-append xs (event at id e), lookup-recover_state id xs ∙ known, no_good)
