-- ===== src/Live/PrivateWs/Counts.antt =====
-- What the account stream hands on, and what it counts.
use ztrade.Prelude.{
  ℕ, ◌+◌, String, ◌≡◌, refl, inl, inr, Bool, true, false, none, some, List, [], ◌∷◌, arith,
  if◌then◌else◌, Option-cases,
}
use ztrade.Prelude.Int.{ℤ}
use ztrade.Prelude.Double.{Double}
use ztrade.Execution.OrderState.{OrderEvent, fill}
use ztrade.Live.AccountEvents.{
  AccountEvent, RawExecution, RawOrderUpdate, execution_to_event, order_update_to_event, is_update,
}
use ztrade.Live.PrivateWs.{
  Emission, account_event, OrderRow, WsMessage, WsConfig, PrivateWs, WsEvent, started,
  stopped_by_caller, socket_opened, received, socket_closed, socket_failed, timer_fired, no_json,
  auth_answer, control, order_rows, execution_rows, position_rows, wallet_rows, other_topic,
  take_order, handle_order, handle_execution, handle_position, handle_message, ws_step, ws_run,
  new_private_ws, arm_dead_mans_switch, stop, start, on_close, on_timer, schedule_reconnect,
}

abbrev pub is_fill : {F : Type 0} → OrderEvent F → Bool
is_fill (fill q p f m) = true
is_fill _ = false

-- How many of the account events that were handed on pass a test.
abbrev pub one : Bool → ℕ
one b = if b then 1 else 0

abbrev pub tally : {F : Type 0} → (OrderEvent F → Bool) → List (Emission F) → ℕ
tally test [] = 0
tally test (account_event (id, event, at) ∷ xs) = one (test event) + tally test xs
tally test (_ ∷ xs) = tally test xs

module _ {F : Type 0} where
  -- The counters agree with what was handed on.
  pub record IsCounted (p : PrivateWs F) : Type 0 where
    pub fills : tally is_fill p.emitted ≡ p.stats.executions
    pub updates : tally is_update p.emitted ≡ p.stats.order_events

  -- A status gives no event, or an update of an order.
  is_update-update :
      (u : RawOrderUpdate) (event : AccountEvent F)
      → order_update_to_event u ≡ some event
      → (is_update event.1 ≡ true) × (is_fill event.1 ≡ false)
  unfolding order_update_to_event
  is_update-update u (id, event, at) h = ground arith

  take_order-IsCounted :
      (u : RawOrderUpdate) (p : PrivateWs F)
      → IsCounted p
      → IsCounted (take_order (order_update_to_event u) p)
  take_order-IsCounted u p h = elim (Option-cases (order_update_to_event {F = F} u)) [
    | inl silent ↦ rw silent h
    | inr (event, tells) ↦
        let kind = is_update-update u event tells in
        rw tells (record {
          fills = ground (arith, kind, h.fills);
          updates = ground (arith, kind, h.updates);
        })
  ]

  handle_order-IsCounted :
      (now : ℤ) (rows : List OrderRow) (p : PrivateWs F)
      → IsCounted p
      → IsCounted (handle_order now rows p)
  unfolding handle_order
  handle_order-IsCounted now [] p h = h
  handle_order-IsCounted now (row ∷ rows) p h =
      handle_order-IsCounted now rows (take_order _ p) (take_order-IsCounted _ p h)

  handle_execution-IsCounted :
      (rows : List (RawExecution F)) (p : PrivateWs F)
      → IsCounted p
      → IsCounted (handle_execution rows p)
  unfolding handle_execution execution_to_event
  handle_execution-IsCounted [] p h = h
  handle_execution-IsCounted (x ∷ rows) p h =
      handle_execution-IsCounted rows _
        (record { fills = ground (arith, h.fills); updates = ground (arith, h.updates) })

  handle_position-IsCounted :
      (rows : List (String × F × String)) (p : PrivateWs F)
      → IsCounted p
      → IsCounted (handle_position rows p)
  unfolding handle_position
  handle_position-IsCounted [] p h = h
  handle_position-IsCounted ((symbol, size, side) ∷ rows) p h =
      handle_position-IsCounted rows _ (record { fills = h.fills; updates = h.updates })

  -- What moves neither the counters of the rows nor what was handed on.
  abbrev IsAside : PrivateWs F → PrivateWs F → Type 0
  IsAside p q =
      (q.emitted ≡ p.emitted)
      × (q.stats.executions ≡ p.stats.executions)
      × (q.stats.order_events ≡ p.stats.order_events)

  aside-IsCounted : (p q : PrivateWs F) → IsAside p q → IsCounted p → IsCounted q
  aside-IsCounted p q (same, runs, orders) h = record {
    fills = rw (same, runs) h.fills;
    updates = rw (same, orders) h.updates;
  }

  on_close-IsAside : (p : PrivateWs F) → IsAside p (on_close p)
  unfolding on_close schedule_reconnect
  on_close-IsAside p = ground arith

  on_timer-IsAside : (p : PrivateWs F) → IsAside p (on_timer p)
  unfolding on_timer
  on_timer-IsAside p = ground arith

module _ {F : Type 0} ⦃d : Double F⦄ (config : WsConfig) (sign : ℤ → String) where
  message-IsCounted :
      (now : ℤ) (m : WsMessage F) (p : PrivateWs F)
      → IsCounted p
      → IsCounted (handle_message config sign now m p)
  unfolding handle_message arm_dead_mans_switch
  message-IsCounted now no_json p h = aside-IsCounted p _ (refl, refl, refl) h
  message-IsCounted now (auth_answer true) p h = aside-IsCounted p _ (refl, refl, refl) h
  message-IsCounted now (auth_answer false) p h = aside-IsCounted p _ (refl, refl, refl) h
  message-IsCounted now control p h = h
  message-IsCounted now (order_rows none) p h = aside-IsCounted p _ (refl, refl, refl) h
  message-IsCounted now (order_rows (some rows)) p h = handle_order-IsCounted now rows p h
  message-IsCounted now (execution_rows none) p h = aside-IsCounted p _ (refl, refl, refl) h
  message-IsCounted now (execution_rows (some rows)) p h = handle_execution-IsCounted rows p h
  message-IsCounted now (position_rows none) p h = aside-IsCounted p _ (refl, refl, refl) h
  message-IsCounted now (position_rows (some rows)) p h = handle_position-IsCounted rows p h
  message-IsCounted now (wallet_rows none) p h = aside-IsCounted p _ (refl, refl, refl) h
  message-IsCounted now (wallet_rows (some [])) p h = h
  message-IsCounted now (wallet_rows (some (row ∷ rows))) p h = record {
    fills = h.fills;
    updates = h.updates;
  }
  message-IsCounted now other_topic p h = h

  step-IsCounted :
      (event : WsEvent F) (p : PrivateWs F) → IsCounted p → IsCounted (ws_step config sign event p)
  unfolding ws_step start stop
  step-IsCounted started p h = aside-IsCounted p _ (refl, refl, refl) h
  step-IsCounted stopped_by_caller p h = aside-IsCounted p _ (refl, refl, refl) h
  step-IsCounted (socket_opened now) p h = aside-IsCounted p _ (refl, refl, refl) h
  step-IsCounted (received now message) p h = message-IsCounted now message p h
  step-IsCounted socket_closed p h = aside-IsCounted p _ (on_close-IsAside p) h
  step-IsCounted (socket_failed n) p h = aside-IsCounted p _ (refl, refl, refl) h
  step-IsCounted timer_fired p h = aside-IsCounted p _ (on_timer-IsAside p) h

  run-IsCounted :
      (events : List (WsEvent F)) (p : PrivateWs F)
      → IsCounted p
      → IsCounted (ws_run config sign events p)
  unfolding ws_run
  run-IsCounted [] p h = h
  run-IsCounted (event ∷ events) p h =
      run-IsCounted events (ws_step config sign event p) (step-IsCounted event p h)

  pub counts-IsCounted :
      (events : List (WsEvent F)) → IsCounted (ws_run config sign events new_private_ws)
  counts-IsCounted events =
      run-IsCounted events new_private_ws (record { fills = refl; updates = refl })
