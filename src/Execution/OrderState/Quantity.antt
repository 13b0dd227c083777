-- ===== src/Execution/OrderState/Quantity.antt =====
-- What the state machine says of the filled quantity, over the laws of IEEE-754 comparison.
use ztrade.Prelude.{◌+◌, String, ◌≡◌, refl, Bool, true, false, List, [], ◌∷◌, arith, All}
use ztrade.Prelude.Double.{Double, IsOrdered, ◌≼◌}
use ztrade.Execution.OrderState.{
  partial, filled, Side, OrderEvent, fill, OrderRecord, ok, can_transition, new_order,
  apply_order_event, order_of, nought, qty_epsilon,
}
use ztrade.Execution.OrderState.Machine.{replay}

module _ {F : Type 0} ⦃d : Double F⦄ where
  -- The filled quantity is within the order's, and a filled order has it all, up to the tolerance.
  pub record InBounds (order : OrderRecord F) : Type 0 where
    pub limit_num : d.add order.qty qty_epsilon ≼ d.add order.qty qty_epsilon
    pub filled_nonneg : nought ≼ order.filled_qty
    pub at_most : order.filled_qty ≼ d.add order.qty qty_epsilon
    pub complete : order.state ≡ filled → d.sub order.qty qty_epsilon ≼ order.filled_qty

  -- A fill's quantity is a number, not NaN.
  abbrev pub HasNumber : OrderEvent F → Type 0
  HasNumber (fill qty price fee is_maker) = qty ≼ qty
  HasNumber _ = Unit

  module _ (laws : IsOrdered F) where
    open laws use {
      literal_nonneg, refl_of_le, le_trans, le_of_not_lt, le_of_not_le, le_of_lt, add_nan, add_le,
    }

    -- Every event keeps the bounds.
    pub apply-InBounds :
        (order : OrderRecord F) (e : OrderEvent F)
        → HasNumber e
        → InBounds order
        → InBounds (order_of (apply_order_event order e))
    unfolding apply_order_event
    apply-InBounds order (fill qty price fee is_maker) n h = ground (
      arith,
      literal_nonneg 0 0,
      le_of_not_le qty nought,
      refl_of_le nought nought,
      add_le order.filled_qty qty,
      refl_of_le nought order.filled_qty,
      refl_of_le order.filled_qty (d.add order.filled_qty qty),
      le_trans nought order.filled_qty (d.add order.filled_qty qty),
      le_of_not_lt (d.add order.qty qty_epsilon) (d.add order.filled_qty qty),
    )
    apply-InBounds order _ n h = ground arith

    new_order-InBounds :
        (id symbol : String) (side : Side) (qty : F)
        → nought ≼ qty
        → InBounds (new_order id symbol side qty)
    unfolding new_order
    new_order-InBounds id symbol side qty h =
        let p = add_le qty qty_epsilon h (literal_nonneg 1 9) in
        record {
          limit_num = (refl_of_le _ _ p).1;
          filled_nonneg = literal_nonneg 0 0;
          at_most = le_trans _ _ _ h p;
          complete = λ e. cc;
        }

    replay-InBounds :
        (order : OrderRecord F) (es : List (OrderEvent F))
        → All HasNumber es
        → InBounds order
        → InBounds (replay order es)
    unfolding replay
    replay-InBounds order [] n h = h
    replay-InBounds order (e ∷ es) n h =
        replay-InBounds (order_of (apply_order_event order e)) es n.1 (apply-InBounds order e n.0 h)

    -- From a new order of a quantity that is not negative, any sequence of events whose fills carry
    -- numbers leaves the filled quantity at zero or more, within the order's quantity plus the
    -- tolerance, and at the quantity less the tolerance or more if the order is filled.
    pub filled-InBounds :
        (id symbol : String) (side : Side) (qty : F) (es : List (OrderEvent F))
        → nought ≼ qty
        → All HasNumber es
        → InBounds (replay (new_order id symbol side qty) es)
    filled-InBounds id symbol side qty es h n =
        replay-InBounds _ es n (new_order-InBounds id symbol side qty h)

    -- On an order whose filled quantity is not negative, a fill that is accepted as a transition raises
    -- it by the fill's, or leaves it where rounding loses the fill: it never goes down.
    pub fill_grows :
        (order : OrderRecord F) (qty price fee : F) (is_maker : Bool) {order' : OrderRecord F}
        → nought ≼ order.filled_qty
        → qty ≼ qty
        → apply_order_event order (fill qty price fee is_maker) ≡ ok order' true
        → (order'.filled_qty ≡ d.add order.filled_qty qty) × (order.filled_qty ≼ order'.filled_qty)
    unfolding apply_order_event
    fill_grows order qty price fee is_maker nonneg n h = ground (
      arith,
      literal_nonneg 0 0,
      le_of_not_le qty nought,
      refl_of_le nought nought,
      add_le order.filled_qty qty,
    )

    -- A fill whose quantity is NaN passes every guard: on an order that may fill it is accepted,
    -- and leaves the order partly filled by a quantity that is NaN.
    pub fill_nan :
        (order : OrderRecord F) (qty price fee : F) (is_maker : Bool)
        → can_transition order.state partial ≡ true
        → d.le qty qty ≡ false
        → (order' : OrderRecord F) × (apply_order_event order (fill qty price fee is_maker)
            ≡ ok order' true)
          × (order'.state ≡ partial)
          × (d.le order'.filled_qty order'.filled_qty ≡ false)
    unfolding apply_order_event
    fill_nan order qty price fee is_maker may nan = (
      record order {
        filled_qty = d.add order.filled_qty qty;
        avg_price = nought;
        fees_paid = d.add order.fees_paid fee;
        state = partial;
        revision = order.revision + 1;
      },
      ground (
        arith,
        refl_of_le qty nought,
        add_nan order.filled_qty qty,
        le_of_lt nought (d.add order.filled_qty qty),
        refl_of_le nought (d.add order.filled_qty qty),
        le_of_lt (d.add order.qty qty_epsilon) (d.add order.filled_qty qty),
        refl_of_le (d.add order.qty qty_epsilon) (d.add order.filled_qty qty),
        refl_of_le (d.sub order.qty qty_epsilon) (d.add order.filled_qty qty),
      ),
      refl,
      add_nan order.filled_qty qty nan,
    )
