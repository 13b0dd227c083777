-- ===== src/Tests/Orders.antt =====
-- Orders and their journal, in whole units.
use ztrade.Prelude.{ℕ, ◌+◌, ◌≤◌, ◌≡◌, refl, ◌↔◌, true, false, none, some, List, [], ◌∷◌}
use ztrade.Prelude.Int.{pos}
use ztrade.Prelude.Table.{string_eq}
use ztrade.Prelude.Double.{Units, whole_units, whole_units-IsOrdered}
use ztrade.Execution.OrderState.{
  filled, partial, submitted, buy, OrderEvent, submit, acknowledge, fill, cancel, OrderRecord, ok,
  new_order, apply_order_event,
}
use ztrade.Execution.OrderState.Machine.{
  Follows, apply-Follows, accepted_fills, replay, revision-replay,
}
use ztrade.Execution.OrderState.Quantity.{InBounds, filled-InBounds, fill_nan}
use ztrade.Execution.Journal.{JournalEntry, open_order, event}
use ztrade.Execution.Reconciler.{ExchangeOrder, ExchangePosition, reconcile}
use ztrade.Execution.Reconciler.Clean.{Agree, reconcile-Agree}

abbrev units : ℕ → Units
units n = some (pos n)

abbrev order : OrderRecord Units
unfolding new_order
order = new_order "a" "BTCUSDT" buy (units 5)

abbrev fill_two : OrderEvent Units
fill_two = fill (units 2) (units 100) (units 1) true

abbrev events : List (OrderEvent Units)
events =
    submit ∷ fill_two ∷ acknowledge "x" ∷ fill (units 3) (units 90) (units 1) false ∷ cancel ∷ []

-- The order is filled by the two fills; the cancellation comes too late.

filled-InBounds_example : InBounds (replay (new_order "a" "BTCUSDT" buy (units 5)) events)
filled-InBounds_example =
    filled-InBounds whole_units-IsOrdered "a" "BTCUSDT" buy (units 5) events refl
      (tt, (refl, (tt, (refl, (tt, tt)))))

apply-Follows_example : Follows order (apply_order_event order submit)
apply-Follows_example = apply-Follows order submit

revision-replay_example :
    (replay (new_order "a" "BTCUSDT" buy (units 5)) events).revision
    ≤ 4 + accepted_fills (new_order "a" "BTCUSDT" buy (units 5)) events
revision-replay_example = revision-replay "a" "BTCUSDT" buy (units 5) events

abbrev done : OrderRecord Units
done = record order { state = filled; filled_qty = units 5 }

abbrev sent : OrderRecord Units
sent = record order { state = submitted; revision = 1 }

abbrev after_two : OrderRecord Units
after_two = record sent {
  filled_qty = units 2;
  avg_price = units 100;
  fees_paid = units 1;
  state = partial;
  revision = 2;
}

fill_nan_example :
    (order' : OrderRecord Units) × (apply_order_event sent (fill none (units 100) (units 1) true)
      ≡ ok order' true)
    × (order'.state ≡ partial)
    × (whole_units.le order'.filled_qty order'.filled_qty ≡ false)
fill_nan_example = fill_nan whole_units-IsOrdered sent none (units 100) (units 1) true refl refl

abbrev entries : List (JournalEntry Units)
entries =
    open_order (units 1) "a" "BTCUSDT" buy (units 5)
    ∷ open_order (units 1) "b" "ETHUSDT" buy (units 9)
    ∷ event (units 2) "a" submit
    ∷ []

-- The venue does not know order "a", has an order that nobody here knows, and another position.
abbrev venue_orders : List ExchangeOrder
venue_orders = record { link_id = "x"; traded = "ETHUSDT" } ∷ []

abbrev venue_positions : List (ExchangePosition Units)
venue_positions = record { held = "BTCUSDT"; signed_size = units 3 } ∷ []

reconcile-Agree_example :
    ((reconcile (("a", sent) ∷ []) (("BTCUSDT", units 2) ∷ []) venue_orders venue_positions).clean
      ≡ true)
    ↔ Agree (("a", sent) ∷ []) (("BTCUSDT", units 2) ∷ []) venue_orders venue_positions
reconcile-Agree_example =
    reconcile-Agree (("a", sent) ∷ []) (("BTCUSDT", units 2) ∷ []) venue_orders venue_positions
