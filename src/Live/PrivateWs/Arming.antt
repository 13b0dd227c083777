-- ===== src/Live/PrivateWs/Arming.antt =====
-- The dead-man's switch of the account stream.
use ztrade.Prelude.{
  ℕ, String, ◌≡◌, refl, inl, inr, Bool, true, false, not, ◌&&◌, ◌||◌, Option, none, some, List, [],
  ◌∷◌, arith, leb, ◌==◌, Bool-cases,
}
use ztrade.Prelude.Int.{ℤ}
use ztrade.Prelude.Double.{Double}
use ztrade.Live.PrivateWs.Rows.{
  IsRead, handle_order-IsRead, handle_execution-IsRead, handle_position-IsRead,
}
use ztrade.Live.PrivateWs.{
  send_on, Frame, auth_frame, set_dcp_frame, subscribe_frame, ConnectionState, ready, WsMessage,
  WsConfig, PrivateWs, WsEvent, started, stopped_by_caller, socket_opened, received, socket_closed,
  socket_failed, timer_fired, no_json, auth_answer, control, order_rows, execution_rows,
  position_rows, wallet_rows, other_topic, handle_message, ws_step, ws_run, new_private_ws,
  dead_mans_switch_payload, or_default, arm_dead_mans_switch, auth_result, stop, start, on_close,
  on_timer, schedule_reconnect,
}

-- The frame asks for a window that the venue takes.
abbrev pub is_arming : Frame → Bool
is_arming (set_dcp_frame w) = leb 10 w && leb w 300
is_arming _ = false

abbrev is_subscribe : Frame → Bool
is_subscribe subscribe_frame = true
is_subscribe _ = false

abbrev is_ready : ConnectionState → Bool
is_ready ready = true
is_ready _ = false

abbrev pub armed : ℕ → List (ℕ × Frame) → Bool
armed n [] = false
armed n ((k, frame) ∷ sent) = k == n && is_arming frame || armed n sent

-- The last frame first: what was sent before a subscription has armed its socket.
abbrev pub armed_first : List (ℕ × Frame) → Bool
armed_first [] = true
armed_first ((n, frame) ∷ sent) = (not (is_subscribe frame) || armed n sent) && armed_first sent

abbrev armed_current : Option ℕ → List (ℕ × Frame) → Bool
armed_current none sent = true
armed_current (some n) sent = armed n sent

payload-is_arming : (w : ℕ) → is_arming (dead_mans_switch_payload w) ≡ true
payload-is_arming w = ground arith

armed_subscribed :
    (at : Option ℕ) (w : ℕ) (sent : List (ℕ × Frame))
    → armed_first sent ≡ true
    → let after = send_on at subscribe_frame (send_on at (dead_mans_switch_payload w) sent) in
      (armed_first after ≡ true) × (armed_current at after ≡ true)
armed_subscribed none w sent h = (h, refl)
armed_subscribed (some n) w sent h =
    (ground (arith, payload-is_arming w), ground (arith, payload-is_arming w))

authenticated :
    (at : Option ℕ) (expires : ℤ) (signature : String) (sent : List (ℕ × Frame))
    → armed_first sent ≡ true
    → armed_first (send_on at (auth_frame expires signature) sent) ≡ true
authenticated none expires signature sent h = h
authenticated (some n) expires signature sent h = ground arith

module _ {F : Type 0} where
  pub record IsArmed (p : PrivateWs F) : Type 0 where
    pub subscriptions : armed_first p.sent ≡ true
    pub current : is_ready p.state ≡ true → armed_current p.socket p.sent ≡ true

  rows-IsArmed : (p q : PrivateWs F) → IsRead p q → IsArmed p → IsArmed q
  rows-IsArmed p q s h = record { subscriptions = rw s h.subscriptions; current = rw s h.current }

  not_ready-IsArmed :
      (p : PrivateWs F) → armed_first p.sent ≡ true → is_ready p.state ≡ false → IsArmed p
  not_ready-IsArmed p h waits = record { subscriptions = h; current = λ q. absurd (ground arith) }

  auth_result-IsArmed :
      (config : WsConfig) (success : Bool) (p : PrivateWs F)
      → IsArmed p
      → IsArmed (auth_result config success p)
  unfolding arm_dead_mans_switch
  auth_result-IsArmed config true p h =
      let both =
        armed_subscribed p.socket (or_default 15 config.dead_mans_window_sec) p.sent
          h.subscriptions in
      record { subscriptions = both.0; current = λ q. both.1 }
  auth_result-IsArmed config false p h = not_ready-IsArmed _ h.subscriptions refl

  on_close-IsArmed : (p : PrivateWs F) → IsArmed p → IsArmed (on_close p)
  unfolding on_close schedule_reconnect
  on_close-IsArmed p h = elim (Bool-cases p.auth_rejected) [
    | inl rejected ↦ simp rejected (not_ready-IsArmed _ h.subscriptions refl)
    | inr accepted ↦ elim (Bool-cases (p.stopped || p.reconnect_timer)) [
      | inl idle ↦ simp (accepted, idle) (not_ready-IsArmed _ h.subscriptions refl)
      | inr again ↦ simp (accepted, again) (not_ready-IsArmed _ h.subscriptions refl)
    ]
  ]

  on_timer-IsArmed : (p : PrivateWs F) → IsArmed p → IsArmed (on_timer p)
  unfolding on_timer
  on_timer-IsArmed p h = elim (Bool-cases p.reconnect_timer) [
    | inl due ↦ simp due (not_ready-IsArmed _ h.subscriptions refl)
    | inr idle ↦ simp idle h
  ]

module _ {F : Type 0} ⦃d : Double F⦄ (config : WsConfig) (sign : ℤ → String) where
  message-IsArmed :
      (now : ℤ) (m : WsMessage F) (p : PrivateWs F)
      → IsArmed p
      → IsArmed (handle_message config sign now m p)
  unfolding handle_message
  message-IsArmed now no_json p h = record { subscriptions = h.subscriptions; current = h.current }
  message-IsArmed now (auth_answer success) p h = auth_result-IsArmed config success p h
  message-IsArmed now control p h = h
  message-IsArmed now (order_rows none) p h = record {
    subscriptions = h.subscriptions;
    current = h.current;
  }
  message-IsArmed now (order_rows (some rows)) p h =
      rows-IsArmed p _ (handle_order-IsRead now rows p) h
  message-IsArmed now (execution_rows none) p h = record {
    subscriptions = h.subscriptions;
    current = h.current;
  }
  message-IsArmed now (execution_rows (some rows)) p h =
      rows-IsArmed p _ (handle_execution-IsRead rows p) h
  message-IsArmed now (position_rows none) p h = record {
    subscriptions = h.subscriptions;
    current = h.current;
  }
  message-IsArmed now (position_rows (some rows)) p h =
      rows-IsArmed p _ (handle_position-IsRead rows p) h
  message-IsArmed now (wallet_rows none) p h = record {
    subscriptions = h.subscriptions;
    current = h.current;
  }
  message-IsArmed now (wallet_rows (some [])) p h = h
  message-IsArmed now (wallet_rows (some (row ∷ rows))) p h = record {
    subscriptions = h.subscriptions;
    current = h.current;
  }
  message-IsArmed now other_topic p h = h

  step-IsArmed :
      (event : WsEvent F) (p : PrivateWs F) → IsArmed p → IsArmed (ws_step config sign event p)
  unfolding ws_step start stop
  step-IsArmed started p h = not_ready-IsArmed _ h.subscriptions refl
  step-IsArmed stopped_by_caller p h = not_ready-IsArmed _ h.subscriptions refl
  step-IsArmed (socket_opened now) p h =
      not_ready-IsArmed _ (authenticated p.socket _ (sign _) p.sent h.subscriptions) refl
  step-IsArmed (received now message) p h = message-IsArmed now message p h
  step-IsArmed socket_closed p h = on_close-IsArmed p h
  step-IsArmed (socket_failed n) p h = not_ready-IsArmed _ h.subscriptions refl
  step-IsArmed timer_fired p h = on_timer-IsArmed p h

  run-IsArmed :
      (events : List (WsEvent F)) (p : PrivateWs F)
      → IsArmed p
      → IsArmed (ws_run config sign events p)
  unfolding ws_run
  run-IsArmed [] p h = h
  run-IsArmed (event ∷ events) p h =
      run-IsArmed events (ws_step config sign event p) (step-IsArmed event p h)

  -- From a new connection and through any events, late ones of old sockets included, every
  -- subscription was sent after the dead-man's switch was armed on the same socket, with a window of
  -- 10 to 300 seconds; and in the state READY the current socket, if there is one, is armed.
  pub subscribed-IsArmed :
      (events : List (WsEvent F)) → IsArmed (ws_run config sign events new_private_ws)
  subscribed-IsArmed events = run-IsArmed events new_private_ws (not_ready-IsArmed _ refl refl)
