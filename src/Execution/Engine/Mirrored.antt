-- ===== src/Execution/Engine/Mirrored.antt =====
-- One event at a time: the orders and positions of the engine and of a recovery move alike.
use ztrade.Prelude.{String, ◌≡◌, refl, ap, ◌∙◌, inl, inr, true, some, Option-cases}
use ztrade.Prelude.Int.{ℤ}
use ztrade.Prelude.Double.{Double}
use ztrade.Prelude.Table.{string_eq, lookup, insert, insert-insert, lookup-insert, beq_refl}
use ztrade.Execution.OrderState.{
  Side, OrderEvent, submit, reject, OrderRecord, ApplyResult, ok, refused, new_order,
  apply_order_event,
}
use ztrade.Execution.Journal.{
  open_order, event, RecoveredState, book_fill, recover_result, recover_event, recover_step,
}
use ztrade.Execution.Engine.{Engine, apply_drained, drain_known, put_if_ok, reject_known}

pub submit_fresh :
    {F : Type 0} ⦃d : Double F⦄ (id symbol : String) (side : Side) (qty : F)
    → (order : OrderRecord F) × (apply_order_event (new_order id symbol side qty) submit
        ≡ ok order true)
unfolding apply_order_event new_order
submit_fresh id symbol side qty = (_, refl)

module _ {F B S : Type 0} ⦃d : Double F⦄ where
  -- The recovered state holds the engine's orders and positions.
  abbrev pub Agrees : Engine F B S → RecoveredState F → Type 0
  Agrees e r = (r.orders ≡ e.orders) × (r.positions ≡ e.positions)

  pub recover_result-Agrees :
      (id : String) (ev : OrderEvent F) (at : ℤ) (existing : OrderRecord F) (e : Engine F B S)
      (r : RecoveredState F) (result : ApplyResult F)
      → Agrees e r
      → Agrees (apply_drained id ev at existing e result) (recover_result id existing ev result r)
  unfolding recover_result
  recover_result-Agrees id ev at existing e r (refused error order) h = h
  recover_result-Agrees id ev at existing e r (ok order transitioned) h =
      (ap (insert id order) h.0, ap (book_fill existing ev) h.1)

  pub drain_known-Agrees :
      (id : String) (ev : OrderEvent F) (at : ℤ) (stamp : F) (e : Engine F B S)
      (r : RecoveredState F)
      → Agrees e r
      → Agrees (drain_known id ev at e (lookup id e.orders)) (recover_step (event stamp id ev) r)
  unfolding recover_step recover_event
  drain_known-Agrees id ev at stamp e r h =
      let same : lookup id r.orders ≡ lookup id e.orders = ap (lookup id) h.0 in
      elim (Option-cases (lookup id e.orders)) [
        | inl unknown ↦ rw (same, unknown) h
        | inr (existing, found) ↦
            rw (same, found)
              (recover_result-Agrees id ev at existing e r (apply_order_event existing ev) h)
      ]

  -- An opening and its submission in the journal, against the order that the engine puts in its map.
  pub opened-Agrees :
      (id symbol : String) (side : Side) (qty : F) (opened at : F) (e : Engine F B S)
      (r : RecoveredState F)
      → Agrees e r
      → Agrees (put_if_ok id (apply_order_event (new_order id symbol side qty) submit) e) (
          recover_step (event at id submit) (recover_step (open_order opened id symbol side qty) r))
  unfolding recover_step recover_event recover_result book_fill
  opened-Agrees id symbol side qty opened at e r h =
      let fresh = new_order id symbol side qty in
      let (order, legal) = submit_fresh id symbol side qty in
      let there : lookup id (insert id fresh r.orders) ≡ some fresh =
        lookup-insert id id fresh r.orders ∙ rw (beq_refl {K = String} id) refl in
      rw (there, legal) (insert-insert id order fresh r.orders ∙ ap (insert id order) h.0, h.1)

  pub put_if_ok-Agrees :
      (id reason : String) (existing : OrderRecord F) (e : Engine F B S) (r : RecoveredState F)
      (result : ApplyResult F)
      → Agrees e r
      → Agrees (put_if_ok id result e) (recover_result id existing (reject reason) result r)
  unfolding recover_result book_fill
  put_if_ok-Agrees id reason existing e r (refused error order) h = h
  put_if_ok-Agrees id reason existing e r (ok order transitioned) h =
      (ap (insert id order) h.0, h.1)

  -- A rejection by the broker.
  pub rejected-Agrees :
      (id reason : String) (at : F) (e : Engine F B S) (r : RecoveredState F)
      → Agrees e r
      → Agrees
          (reject_known id reason e (lookup id e.orders))
          (recover_step (event at id (reject reason)) r)
  unfolding recover_step recover_event
  rejected-Agrees id reason at e r h =
      let same : lookup id r.orders ≡ lookup id e.orders = ap (lookup id) h.0 in
      elim (Option-cases (lookup id e.orders)) [
        | inl unknown ↦ rw (same, unknown) h
        | inr (existing, found) ↦
            rw (same, found)
              (put_if_ok-Agrees id reason existing e r (apply_order_event existing (reject reason))
                h)
      ]

-- The journal that the engine's work makes: every opening with its submission, every rejection, and
-- every event that the broker reports, whatever becomes of it. `stamp` turns a time into the entry's.
