-- ===== src/Execution/OrderState/Machine.antt =====
-- The shape of an order's life: refusals, terminal states, and how far an order can go.
use ztrade.Prelude.{
  ℕ, ◌+◌, ◌≤◌, String, ◌≡◌, refl, Bool, true, false, ◌&&◌, List, [], ◌∷◌, arith, if◌then◌else◌,
}
use ztrade.Prelude.Double.{Double}
use ztrade.Execution.OrderState.{
  OrderEvent, OrderRecord, ApplyResult, ok, refused, fill_after_end, is_terminal, is_fill,
  can_transition, apply_order_event, OrderState, order_of, new_order, ◌∷◌, Side, new, submitted,
  ack, partial,
}

module _ {F : Type 0} ⦃d : Double F⦄ where
  -- A terminal order never changes: a fill is refused as one that came after the end, and every
  -- other event is accepted as a repetition without a transition.
  pub apply-terminal :
      (order : OrderRecord F) (event : OrderEvent F)
      → is_terminal order.state ≡ true
      → apply_order_event order event
        ≡ (if is_fill event then refused (fill_after_end order.state) order else ok order false)
  unfolding apply_order_event
  apply-terminal order event h = rw h

  -- What a result says of the order that it came from.
  abbrev pub Follows : OrderRecord F → ApplyResult F → Type 0
  Follows order (refused e order') = order' ≡ order
  Follows order (ok order' false) =
      (order'.state ≡ order.state)
      × (order'.revision ≡ order.revision)
      × (order'.filled_qty ≡ order.filled_qty)
      × (order'.qty ≡ order.qty)
  Follows order (ok order' true) =
      (can_transition order.state order'.state ≡ true)
      × (order'.revision ≡ order.revision + 1)
      × (order'.qty ≡ order.qty)
      × (order'.order_link_id ≡ order.order_link_id)
      × (order'.symbol ≡ order.symbol)
      × (order'.side ≡ order.side)

  -- Every event, in every state: a refusal returns the order as it was, an acceptance without a
  -- transition keeps state, revision and quantities, and a transition is one of the legal table,
  -- raises the revision by one and keeps the order's identity and quantity.
  pub apply-Follows :
      (order : OrderRecord F) (event : OrderEvent F) → Follows order (apply_order_event order event)
  unfolding apply_order_event
  apply-Follows order event = ground arith

-- How far an order has come.
abbrev rank : OrderState → ℕ
rank new = 0
rank submitted = 1
rank ack = 2
rank partial = 3
rank _ = 4

rank-le : (s : OrderState) → rank s ≤ 4
rank-le s = ground arith

-- A fill that moved the order.
abbrev is_moved : {F : Type 0} → ApplyResult F → Bool
is_moved (ok order moved) = moved
is_moved (refused e order) = false

module _ {F : Type 0} ⦃d : Double F⦄ where
  -- What is left of an order after a sequence of events.
  unfoldable pub replay : OrderRecord F → List (OrderEvent F) → OrderRecord F
  replay order [] = order
  replay order (e ∷ es) = replay (order_of (apply_order_event order e)) es

  -- How many fills were accepted along the way.
  abbrev pub accepted_fills : OrderRecord F → List (OrderEvent F) → ℕ
  accepted_fills order [] = 0
  accepted_fills order (e ∷ es) =
      (if is_fill e && is_moved (apply_order_event order e) then 1 else 0)
      + accepted_fills (order_of (apply_order_event order e)) es

  rank-apply :
      (order : OrderRecord F) (e : OrderEvent F)
      → (order_of (apply_order_event order e)).revision + rank order.state
        ≤ rank (order_of (apply_order_event order e)).state
          + order.revision
          + (if is_fill e && is_moved (apply_order_event order e) then 1 else 0)
  unfolding apply_order_event
  rank-apply order e = ground arith

  rank-replay :
      (order : OrderRecord F) (es : List (OrderEvent F))
      → (replay order es).revision + rank order.state
        ≤ rank (replay order es).state + order.revision + accepted_fills order es
  unfolding replay
  rank-replay order [] = omega arith
  rank-replay order (e ∷ es) =
      ground (arith, rank-apply order e, rank-replay (order_of (apply_order_event order e)) es)

  -- An order is not moved for ever: whatever events arrive, in whatever order and however often,
  -- a new order makes at most four transitions beside one for each fill that it accepts; a refused
  -- fill causes none.
  pub revision-replay :
      (id symbol : String) (side : Side) (qty : F) (es : List (OrderEvent F))
      → (replay (new_order id symbol side qty) es).revision
        ≤ 4 + accepted_fills (new_order id symbol side qty) es
  unfolding new_order
  revision-replay id symbol side qty es =
      let order = new_order id symbol side qty in
      omega (arith, rank-replay order es, rank-le (replay order es).state)

  terminal_stays :
      (order : OrderRecord F) (e : OrderEvent F)
      → is_terminal order.state ≡ true
      → order_of (apply_order_event order e) ≡ order
  unfolding apply_order_event
  terminal_stays order e h = ground arith

  -- Once an order is filled, cancelled, rejected or expired, no later events change anything in it.
  pub replay-terminal :
      (order : OrderRecord F) (es : List (OrderEvent F))
      → is_terminal order.state ≡ true
      → replay order es ≡ order
  unfolding replay
  replay-terminal order [] h = refl
  replay-terminal order (e ∷ es) h = rw (terminal_stays order e h) (replay-terminal order es h)
