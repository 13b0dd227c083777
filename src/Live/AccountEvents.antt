-- ===== src/Live/AccountEvents.antt =====
-- packages/adapters-bybit/src/accountEvents.ts: what a message of the private stream means for an
-- order. Times are whole milliseconds.
use ztrade.Prelude.{
  String, ◌≡◌, refl, Bool, true, false, ◌&&◌, ◌||◌, Option, none, some, List, [], ◌∷◌, arith,
  if◌then◌else◌,
}
use ztrade.Prelude.Int.{ℤ}
use ztrade.Prelude.Table.{string_eq}
use ztrade.Execution.OrderState.{OrderEvent, acknowledge, fill, cancel, reject}

pub record RawExecution (F : Type 0) : Type 0 where
  pub exec_link_id : String
  pub exec_qty : F
  pub exec_price : F
  pub exec_fee : F
  pub exec_is_maker : Bool
  pub exec_time : ℤ

pub record RawOrderUpdate : Type 0 where
  pub update_link_id : String
  pub order_id : String
  pub order_status : String
  pub updated_time : ℤ

-- An order, what happened to it, and when.
abbrev pub AccountEvent : Type 0 → Type 0
AccountEvent F = String × OrderEvent F × ℤ

unfoldable pub execution_to_event : {F : Type 0} → RawExecution F → AccountEvent F
execution_to_event x =
    (x.exec_link_id, fill x.exec_qty x.exec_price x.exec_fee x.exec_is_maker, x.exec_time)

abbrev pub one_of : List String → String → Bool
one_of [] s = false
one_of (t ∷ texts) s = string_eq.beq t s || one_of texts s

-- The cases of the switch; the three of fills and the default have no event.
abbrev pub status_event : {F : Type 0} → String → String → Option (OrderEvent F)
status_event status id =
    if one_of ("New" ∷ "Untriggered" ∷ []) status
    then some (acknowledge id)
    else if one_of ("Cancelled" ∷ "Deactivated" ∷ []) status
    then some cancel
    else if one_of ("Rejected" ∷ []) status
    then some (reject "Rejected by exchange")
    else none

abbrev made : {F : Type 0} → RawOrderUpdate → Option (OrderEvent F) → Option (AccountEvent F)
made u none = none
made u (some event) = some (u.update_link_id, event, u.updated_time)

unfoldable pub order_update_to_event : {F : Type 0} → RawOrderUpdate → Option (AccountEvent F)
order_update_to_event u = made u (status_event u.order_status u.order_id)

unfoldable pub is_handled_order_status : String → Bool
is_handled_order_status status =
    one_of ("New" ∷ "Untriggered" ∷ "Cancelled" ∷ "Deactivated" ∷ "Rejected" ∷ []) status

-- The events that the streams can give: a status update is no fill and no submission, and an
-- execution is a fill.
abbrev pub is_streamed : {F : Type 0} → OrderEvent F → Bool
is_streamed (acknowledge id) = true
is_streamed (fill q p f m) = true
is_streamed cancel = true
is_streamed (reject why) = true
is_streamed _ = false

abbrev pub is_update : {F : Type 0} → OrderEvent F → Bool
is_update (acknowledge id) = true
is_update cancel = true
is_update (reject why) = true
is_update _ = false

abbrev pub holds_of : {A : Type 0} → (A → Bool) → Option A → Bool
holds_of test none = false
holds_of test (some x) = test x

-- An order update gives an event exactly if its status is one that is handled, for the update's own
-- order and time, and the event is never a fill: fills come from executions alone.
pub order_update_lem :
    (F : Type 0) (u : RawOrderUpdate)
    → holds_of
        (λ (e : AccountEvent F). is_update e.1 && string_eq.beq e.0 u.update_link_id)
        (order_update_to_event u)
      ≡ is_handled_order_status u.order_status
unfolding order_update_to_event is_handled_order_status
order_update_lem F u = ground (arith, (string_eq.beq_iff u.update_link_id u.update_link_id).1 refl)
