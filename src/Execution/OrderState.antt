-- ===== src/Execution/OrderState.antt =====
-- packages/execution/src/orderState.ts: the order state machine, a pure function of an order and
-- an event. Texts of errors are constructors that carry the values shown in the text.
pub mod Machine
pub mod Quantity
use ztrade.Prelude.{
  ℕ, ◌+◌, String, Bool, true, false, not, ◌||◌, Option, none, some, List, [], ◌∷◌, ◌==◌,
  if◌then◌else◌,
}
use ztrade.Prelude.Double.{Double}

pub data OrderState : Type 0 where
  new submitted ack partial filled cancelled rejected expired : OrderState

pub data Side : Type 0 where
  buy sell : Side

pub data OrderEvent (F : Type 0) : Type 0 where
  submit : OrderEvent F
  acknowledge : String → OrderEvent F
  fill : (qty price fee : F) → (is_maker : Bool) → OrderEvent F
  cancel : OrderEvent F
  reject : String → OrderEvent F
  expire : OrderEvent F

abbrev ordinal : OrderState → ℕ
ordinal new = 0
ordinal submitted = 1
ordinal ack = 2
ordinal partial = 3
ordinal filled = 4
ordinal cancelled = 5
ordinal rejected = 6
ordinal expired = 7

-- `Set.has`
abbrev has : List OrderState → OrderState → Bool
has [] s = false
has (t ∷ ts) s = ordinal t == ordinal s || has ts s

abbrev pub terminal_states : List OrderState
terminal_states = filled ∷ cancelled ∷ rejected ∷ expired ∷ []

abbrev pub is_terminal : OrderState → Bool
is_terminal s = has terminal_states s

abbrev pub legal : OrderState → List OrderState
legal new = submitted ∷ rejected ∷ []
legal submitted = ack ∷ partial ∷ filled ∷ rejected ∷ cancelled ∷ expired ∷ []
legal ack = partial ∷ filled ∷ cancelled ∷ expired ∷ rejected ∷ []
legal partial = partial ∷ filled ∷ cancelled ∷ expired ∷ []
legal filled = []
legal cancelled = []
legal rejected = []
legal expired = []

abbrev pub can_transition : OrderState → OrderState → Bool
can_transition from to = has (legal from) to

pub record OrderRecord (F : Type 0) : Type 0 where
  pub order_link_id : String
  pub exchange_order_id : Option String
  pub symbol : String
  pub side : Side
  pub qty : F
  pub filled_qty : F
  pub avg_price : F
  pub fees_paid : F
  pub state : OrderState
  pub reject_reason : Option String
  pub revision : ℕ

pub data ApplyError (F : Type 0) : Type 0 where
  fill_after_end : OrderState → ApplyError F
  fill_not_positive : ApplyError F
  overfill : (filled_qty qty : F) → ApplyError F
  illegal : (from to : OrderState) → ApplyError F

pub data ApplyResult (F : Type 0) : Type 0 where
  ok : OrderRecord F → (transitioned : Bool) → ApplyResult F
  refused : ApplyError F → OrderRecord F → ApplyResult F

abbrev pub is_fill : {F : Type 0} → OrderEvent F → Bool
is_fill (fill q p f m) = true
is_fill _ = false

abbrev is_partial : OrderState → Bool
is_partial partial = true
is_partial _ = false

-- The patch has been applied to `next` already; `order` is what a refusal returns.
transition : {F : Type 0} → OrderRecord F → OrderState → OrderRecord F → ApplyResult F
transition order to next =
    if can_transition order.state to
    then ok (record next { state = to; revision = order.revision + 1 }) true
    else refused (illegal order.state to) order

module _ {F : Type 0} ⦃d : Double F⦄ where
  abbrev pub nought : F
  nought = d.literal 0 0

  abbrev pub qty_epsilon : F
  qty_epsilon = d.literal 1 9

  unfoldable pub new_order : String → String → Side → F → OrderRecord F
  new_order id symbol side qty = record {
    order_link_id = id;
    exchange_order_id = none;
    symbol = symbol;
    side = side;
    qty = qty;
    filled_qty = nought;
    avg_price = nought;
    fees_paid = nought;
    state = new;
    reject_reason = none;
    revision = 0;
  }

  -- The case `fill` of the switch.
  apply_fill : OrderRecord F → F → F → F → ApplyResult F
  unfolding transition
  apply_fill order qty price fee =
      let filled_qty = d.add order.filled_qty qty in
      let avg_price =
        if d.lt nought filled_qty
        then d.div (d.add (d.mul order.avg_price order.filled_qty) (d.mul price qty)) filled_qty
        else nought in
      let complete = d.le (d.sub order.qty qty_epsilon) filled_qty in
      if d.le qty nought
      then refused fill_not_positive order
      else if d.lt (d.add order.qty qty_epsilon) filled_qty
      then refused (overfill filled_qty order.qty) order
      else transition order (if complete then filled else partial) (record order {
        filled_qty = filled_qty;
        avg_price = avg_price;
        fees_paid = d.add order.fees_paid fee;
      })

  -- The switch of `applyOrderEvent`.
  dispatch : OrderRecord F → OrderEvent F → ApplyResult F
  unfolding transition apply_fill
  dispatch order submit = transition order submitted order
  dispatch order (acknowledge id) =
      if is_partial order.state
      then ok (record order { exchange_order_id = some id }) false
      else transition order ack (record order { exchange_order_id = some id })
  dispatch order (fill qty price fee is_maker) = apply_fill order qty price fee
  dispatch order cancel = transition order cancelled order
  dispatch order (reject reason) =
      transition order rejected (record order { reject_reason = some reason })
  dispatch order expire = transition order expired order

  unfoldable pub apply_order_event : OrderRecord F → OrderEvent F → ApplyResult F
  unfolding dispatch
  apply_order_event order event =
      if is_terminal order.state
      then (if is_fill event then refused (fill_after_end order.state) order else ok order false)
      else dispatch order event

  unfoldable pub remaining_qty : OrderRecord F → F
  remaining_qty order = d.max nought (d.sub order.qty order.filled_qty)

abbrev pub is_live : {F : Type 0} → OrderRecord F → Bool
is_live order = not (is_terminal order.state)

-- The order that a caller holds after a result.
abbrev pub order_of : {F : Type 0} → ApplyResult F → OrderRecord F
order_of (ok order transitioned) = order
order_of (refused error order) = order
