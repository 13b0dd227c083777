-- ===== src/Live/PrivateWs.antt =====
-- packages/adapters-bybit/src/privateWs.ts: the account stream. A socket is known by the number of
-- sockets made before it; what its library does to it comes as a WsEvent, also after a `close()`, and
-- each may come from any socket that was made. A frame is a WsMessage once JSON.parse and the zod
-- schemas have read it, where `none` is data that a schema refuses. `sign` is the signature of
-- `wsAuthPayload` under the key of the configuration. Times and the dead-man window are whole, and
-- logging is left out.
pub mod Rows
pub mod Arming
pub mod Quiet
pub mod Counts
use ztrade.Prelude.{
  ℕ, ◌+◌, String, Bool, true, false, ◌||◌, Option, none, some, List, [], ◌∷◌, leb, if◌then◌else◌,
}
use ztrade.Prelude.Int.{ℤ, pos, ◌+ℤ◌}
use ztrade.Prelude.Double.{Double}
use ztrade.Live.AccountEvents.{
  AccountEvent, RawExecution, RawOrderUpdate, execution_to_event, order_update_to_event,
}

-- `ERROR` is `broken`.
pub data ConnectionState : Type 0 where
  disconnected connecting authenticating ready broken : ConnectionState

pub data Frame : Type 0 where
  auth_frame : (expires : ℤ) (signature : String) → Frame
  set_dcp_frame : (time_window : ℕ) → Frame
  subscribe_frame : Frame

-- A row of an order message; `updatedTime` is optional.
pub record OrderRow : Type 0 where
  pub row_link_id : String
  pub row_order_id : String
  pub row_status : String
  pub row_updated : Option ℤ

pub data WsMessage (F : Type 0) : Type 0 where
  no_json : WsMessage F
  auth_answer : (success : Bool) → WsMessage F
  control : WsMessage F
  order_rows : Option (List OrderRow) → WsMessage F
  execution_rows : Option (List (RawExecution F)) → WsMessage F
  position_rows : Option (List (String × F × String)) → WsMessage F
  wallet_rows : Option (List (Option F × Option F)) → WsMessage F
  other_topic : WsMessage F

-- What the callbacks of the configuration are given.
pub data Emission (F : Type 0) : Type 0 where
  account_event : AccountEvent F → Emission F
  position : (symbol : String) (size : F) (side : String) → Emission F
  wallet : (equity available : F) → Emission F

pub record WsStats : Type 0 where
  pub reconnects : ℕ
  pub auth_failures : ℕ
  pub dead_mans_armed : ℕ
  pub order_events : ℕ
  pub executions : ℕ
  pub invalid : ℕ

-- `opened` counts the sockets that were made. `sent`, `closing` and `emitted` record the calls of the
-- sockets' `send` and `close` and of the callbacks, the last one first.
pub record PrivateWs (F : Type 0) : Type 0 where
  pub socket : Option ℕ
  pub state : ConnectionState
  pub stopped : Bool
  pub auth_rejected : Bool
  pub reconnect_timer : Bool
  pub stats : WsStats
  pub opened : ℕ
  pub sent : List (ℕ × Frame)
  pub closing : List ℕ
  pub emitted : List (Emission F)

pub record WsConfig : Type 0 where
  pub dead_mans_window_sec : Option ℕ
  pub auth_window_ms : Option ℕ

abbrev pub new_private_ws : {F : Type 0} → PrivateWs F
new_private_ws = record {
  socket = none;
  state = disconnected;
  stopped = false;
  auth_rejected = false;
  reconnect_timer = false;
  stats = record {
    reconnects = 0;
    auth_failures = 0;
    dead_mans_armed = 0;
    order_events = 0;
    executions = 0;
    invalid = 0;
  };
  opened = 0;
  sent = [];
  closing = [];
  emitted = [];
}

-- packages/security/src/signer.ts: Bybit accepts 10..300 seconds.
abbrev pub dead_mans_switch_payload : ℕ → Frame
dead_mans_switch_payload window =
    let at_most = if leb window 300 then window else 300 in
    set_dcp_frame (if leb 10 at_most then at_most else 10)

abbrev pub or_default : {A : Type 0} → A → Option A → A
or_default x none = x
or_default x (some y) = y

abbrev pub close_current : Option ℕ → List ℕ → List ℕ
close_current none closing = closing
close_current (some n) closing = n ∷ closing

abbrev pub send_on : Option ℕ → Frame → List (ℕ × Frame) → List (ℕ × Frame)
send_on none frame sent = sent
send_on (some n) frame sent = (n, frame) ∷ sent

module _ {F : Type 0} where
  abbrev pub open_socket : PrivateWs F → PrivateWs F
  open_socket p = record p { state = connecting; socket = some p.opened; opened = p.opened + 1 }

  unfoldable pub start : PrivateWs F → PrivateWs F
  start p = open_socket (record p { stopped = false; auth_rejected = false })

  unfoldable pub stop : PrivateWs F → PrivateWs F
  stop p = record p {
    stopped = true;
    reconnect_timer = false;
    closing = close_current p.socket p.closing;
    socket = none;
    state = disconnected;
  }

  abbrev pub send : Frame → PrivateWs F → PrivateWs F
  send frame p = record p { sent = send_on p.socket frame p.sent }

  abbrev pub count_invalid : PrivateWs F → PrivateWs F
  count_invalid p = record p { stats = record p.stats { invalid = p.stats.invalid + 1 } }

  abbrev pub emit : Emission F → PrivateWs F → PrivateWs F
  emit x p = record p { emitted = x ∷ p.emitted }

  unfoldable pub schedule_reconnect : PrivateWs F → PrivateWs F
  schedule_reconnect p =
      if p.stopped || p.reconnect_timer then p else record p { reconnect_timer = true }

  -- The handler of `onClose`.
  unfoldable pub on_close : PrivateWs F → PrivateWs F
  unfolding schedule_reconnect
  on_close p =
      if p.auth_rejected
      then record p { state = broken }
      else schedule_reconnect (record p { state = disconnected })

  -- The handler of `onError`, on the socket that failed.
  abbrev pub on_error : ℕ → PrivateWs F → PrivateWs F
  on_error n p = record p { state = broken; closing = n ∷ p.closing }

  -- The timer's callback, if it is set.
  unfoldable pub on_timer : PrivateWs F → PrivateWs F
  on_timer p =
      if p.reconnect_timer
      then open_socket (record p {
        reconnect_timer = false;
        stats = record p.stats { reconnects = p.stats.reconnects + 1 };
      })
      else p

module _ {F : Type 0} (config : WsConfig) where
  unfoldable pub arm_dead_mans_switch : PrivateWs F → PrivateWs F
  arm_dead_mans_switch p =
      let q = send (dead_mans_switch_payload (or_default 15 config.dead_mans_window_sec)) p in
      record q { stats = record q.stats { dead_mans_armed = q.stats.dead_mans_armed + 1 } }

  abbrev pub subscribe : PrivateWs F → PrivateWs F
  subscribe p = record (send subscribe_frame p) { state = ready }

  abbrev pub auth_result : Bool → PrivateWs F → PrivateWs F
  unfolding arm_dead_mans_switch
  auth_result true p = subscribe (arm_dead_mans_switch p)
  auth_result false p = record p {
    stats = record p.stats { auth_failures = p.stats.auth_failures + 1 };
    auth_rejected = true;
    state = broken;
    closing = close_current p.socket p.closing;
  }

module _ {F : Type 0} where
  abbrev pub take_order : Option (AccountEvent F) → PrivateWs F → PrivateWs F
  take_order none p = p
  take_order (some event) p =
      emit (account_event event)
        (record p { stats = record p.stats { order_events = p.stats.order_events + 1 } })

  unfoldable pub handle_order : ℤ → List OrderRow → PrivateWs F → PrivateWs F
  handle_order now [] p = p
  handle_order now (row ∷ rows) p =
      let update : RawOrderUpdate = record {
        update_link_id = row.row_link_id;
        order_id = row.row_order_id;
        order_status = row.row_status;
        updated_time = or_default now row.row_updated;
      } in
      handle_order now rows (take_order (order_update_to_event update) p)

  unfoldable pub handle_execution : List (RawExecution F) → PrivateWs F → PrivateWs F
  handle_execution [] p = p
  handle_execution (x ∷ rows) p = handle_execution rows (
      emit (account_event (execution_to_event x))
        (record p { stats = record p.stats { executions = p.stats.executions + 1 } }))

  unfoldable pub handle_position : List (String × F × String) → PrivateWs F → PrivateWs F
  handle_position [] p = p
  handle_position ((symbol, size, side) ∷ rows) p =
      handle_position rows (emit (position symbol size side) p)

  -- Only the first row counts.
  abbrev pub handle_wallet : ⦃d : Double F⦄ → List (Option F × Option F) → PrivateWs F → PrivateWs F
  handle_wallet [] p = p
  handle_wallet ⦃d⦄ ((equity, available) ∷ rows) p =
      emit (wallet (or_default (d.literal 0 0) equity) (or_default (d.literal 0 0) available)) p

module _ {F : Type 0} ⦃d : Double F⦄ (config : WsConfig) (sign : ℤ → String) where
  abbrev pub authenticate : ℤ → PrivateWs F → PrivateWs F
  authenticate now p =
      let expires = now +ℤ pos (or_default 10000 config.auth_window_ms) in
      send (auth_frame expires (sign expires)) (record p { state = authenticating })

  unfoldable pub handle_message : ℤ → WsMessage F → PrivateWs F → PrivateWs F
  unfolding handle_order handle_execution handle_position
  handle_message now no_json p = count_invalid p
  handle_message now (auth_answer success) p = auth_result config success p
  handle_message now control p = p
  handle_message now (order_rows none) p = count_invalid p
  handle_message now (order_rows (some rows)) p = handle_order now rows p
  handle_message now (execution_rows none) p = count_invalid p
  handle_message now (execution_rows (some rows)) p = handle_execution rows p
  handle_message now (position_rows none) p = count_invalid p
  handle_message now (position_rows (some rows)) p = handle_position rows p
  handle_message now (wallet_rows none) p = count_invalid p
  handle_message now (wallet_rows (some rows)) p = handle_wallet rows p
  handle_message now other_topic p = p

-- The calls of the class and of its handlers; `now` is the clock's reading.
pub data WsEvent (F : Type 0) : Type 0 where
  started stopped_by_caller : WsEvent F
  socket_opened : (now : ℤ) → WsEvent F
  received : (now : ℤ) → WsMessage F → WsEvent F
  socket_closed : WsEvent F
  socket_failed : ℕ → WsEvent F
  timer_fired : WsEvent F

module _ {F : Type 0} ⦃d : Double F⦄ (config : WsConfig) (sign : ℤ → String) where
  unfoldable pub ws_step : WsEvent F → PrivateWs F → PrivateWs F
  unfolding start stop handle_message on_close on_timer
  ws_step started p = start p
  ws_step stopped_by_caller p = stop p
  ws_step (socket_opened now) p = authenticate config sign now p
  ws_step (received now message) p = handle_message config sign now message p
  ws_step socket_closed p = on_close p
  ws_step (socket_failed n) p = on_error n p
  ws_step timer_fired p = on_timer p

  unfoldable pub ws_run : List (WsEvent F) → PrivateWs F → PrivateWs F
  unfolding ws_step
  ws_run [] p = p
  ws_run (event ∷ events) p = ws_run events (ws_step event p)
