-- ===== src/Live/PrivateWs/Quiet.antt =====
-- When the account stream stays away from the venue.
use ztrade.Prelude.{
  String, ◌≡◌, refl, ap, ◌∙◌, inl, inr, Bool, true, false, not, ◌&&◌, ◌||◌, none, some, List, [],
  ◌∷◌, arith, Bool-cases, All,
}
use ztrade.Prelude.Int.{ℤ}
use ztrade.Prelude.Double.{Double}
use ztrade.Live.PrivateWs.Rows.{
  IsRead, handle_order-IsRead, handle_execution-IsRead, handle_position-IsRead,
}
use ztrade.Live.PrivateWs.{
  auth_result, WsMessage, WsConfig, PrivateWs, WsEvent, started, stopped_by_caller, socket_opened,
  received, socket_closed, socket_failed, timer_fired, no_json, auth_answer, control, order_rows,
  execution_rows, position_rows, wallet_rows, other_topic, handle_message, ws_step, ws_run,
  arm_dead_mans_switch, stop, on_close, on_timer, schedule_reconnect,
}

abbrev pub is_start : {F : Type 0} → WsEvent F → Bool
is_start started = true
is_start _ = false

module _ {F : Type 0} where
  -- Stopped or refused, with no reconnect pending.
  abbrev pub is_quiet : PrivateWs F → Bool
  is_quiet p = (p.stopped || p.auth_rejected) && not p.reconnect_timer

  -- Quiet, with the sockets of `p` and no more.
  abbrev StaysQuiet : PrivateWs F → PrivateWs F → Type 0
  StaysQuiet p q = (is_quiet q ≡ true) × (q.opened ≡ p.opened)

  rows-quiet : (p q : PrivateWs F) → IsRead p q → is_quiet p ≡ true → StaysQuiet p q
  rows-quiet p q s h = (rw s h, ap (λ (x : PrivateWs F). x.opened) s)

  on_close-quiet : (p : PrivateWs F) → is_quiet p ≡ true → StaysQuiet p (on_close p)
  unfolding on_close schedule_reconnect
  on_close-quiet p h = elim (Bool-cases p.auth_rejected) [
    | inl rejected ↦ simp rejected (ground arith, refl)
    | inr accepted ↦
        let still : p.stopped ≡ true = ground arith in simp (accepted, still) (ground arith, refl)
  ]

  on_timer-quiet : (p : PrivateWs F) → is_quiet p ≡ true → StaysQuiet p (on_timer p)
  unfolding on_timer
  on_timer-quiet p h =
      let idle : p.reconnect_timer ≡ false = ground arith in simp idle (ground arith, refl)

module _ {F : Type 0} ⦃d : Double F⦄ (config : WsConfig) (sign : ℤ → String) where
  message-quiet :
      (now : ℤ) (m : WsMessage F) (p : PrivateWs F)
      → is_quiet p ≡ true
      → StaysQuiet p (handle_message config sign now m p)
  unfolding handle_message arm_dead_mans_switch
  message-quiet now no_json p h = (h, refl)
  message-quiet now (auth_answer true) p h = (h, refl)
  message-quiet now (auth_answer false) p h = (ground arith, refl)
  message-quiet now control p h = (h, refl)
  message-quiet now (order_rows none) p h = (h, refl)
  message-quiet now (order_rows (some rows)) p h = rows-quiet p _ (handle_order-IsRead now rows p) h
  message-quiet now (execution_rows none) p h = (h, refl)
  message-quiet now (execution_rows (some rows)) p h =
      rows-quiet p _ (handle_execution-IsRead rows p) h
  message-quiet now (position_rows none) p h = (h, refl)
  message-quiet now (position_rows (some rows)) p h =
      rows-quiet p _ (handle_position-IsRead rows p) h
  message-quiet now (wallet_rows none) p h = (h, refl)
  message-quiet now (wallet_rows (some [])) p h = (h, refl)
  message-quiet now (wallet_rows (some (row ∷ rows))) p h = (h, refl)
  message-quiet now other_topic p h = (h, refl)

  step-quiet :
      (event : WsEvent F) (p : PrivateWs F)
      → is_start event ≡ false
      → is_quiet p ≡ true
      → StaysQuiet p (ws_step config sign event p)
  unfolding ws_step stop
  step-quiet started p no_start h = absurd (ground arith)
  step-quiet stopped_by_caller p no_start h = (refl, refl)
  step-quiet (socket_opened now) p no_start h = (h, refl)
  step-quiet (received now message) p no_start h = message-quiet now message p h
  step-quiet socket_closed p no_start h = on_close-quiet p h
  step-quiet (socket_failed n) p no_start h = (h, refl)
  step-quiet timer_fired p no_start h = on_timer-quiet p h

  run-quiet :
      (events : List (WsEvent F)) (p : PrivateWs F)
      → All (λ e. is_start e ≡ false) events
      → is_quiet p ≡ true
      → (ws_run config sign events p).opened ≡ p.opened
  unfolding ws_run
  run-quiet [] p h quiet = refl
  run-quiet (event ∷ events) p h quiet =
      let (still, same) = step-quiet event p h.0 quiet in
      run-quiet events (ws_step config sign event p) h.1 still ∙ same

  -- A stop, or the venue's refusal of the key with no reconnect pending.
  abbrev pub quiets : WsEvent F → PrivateWs F → Bool
  quiets stopped_by_caller p = true
  quiets (received now (auth_answer false)) p = not p.reconnect_timer
  quiets _ p = false

  quiets-is_quiet :
      (event : WsEvent F) (p : PrivateWs F)
      → quiets event p ≡ true
      → StaysQuiet p (ws_step config sign event p)
  unfolding ws_step stop handle_message auth_result
  quiets-is_quiet stopped_by_caller p h = (refl, refl)
  quiets-is_quiet (received now (auth_answer false)) p h = (ground arith, refl)
  quiets-is_quiet _ p h = absurd (ground arith)

  -- No socket is made again after `stop`, and none after the venue has refused the key with no
  -- reconnect pending, through any events, until `start` is called.
  pub quiet_until_start :
      (event : WsEvent F) (events : List (WsEvent F)) (p : PrivateWs F)
      → quiets event p ≡ true
      → All (λ e. is_start e ≡ false) events
      → (ws_run config sign (event ∷ events) p).opened ≡ p.opened
  unfolding ws_run
  quiet_until_start event events p quieted h =
      let (quiet, same) = quiets-is_quiet event p quieted in
      run-quiet events (ws_step config sign event p) h quiet ∙ same
