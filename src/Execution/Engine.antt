-- ===== src/Execution/Engine.antt =====
-- packages/execution/src/engine.ts: the loop that backtest, paper and live trading share. The strategy,
-- the broker and the risk gate are parameters, functions on states that they keep: the broker's, and
-- one for the strategy and the gate, whose `check` may change it; `link_id` is the
-- hash that names an order. Event times are whole milliseconds. `onTransition` only observes: its calls
-- are a list. An `await` is the end of the broker's call: nothing else runs on the engine's state
-- within `handle`.
pub mod Mirrored
pub mod Replayed
use ztrade.Prelude.{ℕ, String, Bool, Option, none, some, List, [], ◌∷◌, ◌++◌, if◌then◌else◌, length}
use ztrade.Prelude.Int.{ℤ, pos, ltb_ℤ}
use ztrade.Prelude.Double.{Double}
use ztrade.Prelude.Table.{Table, string_eq, lookup, insert, erase}
use ztrade.Core.Intent.{OrderIntent, OrderSide}
use ztrade.Execution.OrderState.{
  Side, buy, sell, OrderEvent, submit, reject, OrderRecord, ApplyError, ApplyResult, ok, refused,
  new_order, apply_order_event,
}
use ztrade.Execution.Journal.{book_fill}

-- `Intent`
pub data Intent (F : Type 0) : Type 0 where
  order_intent : OrderIntent F → Intent F
  cancel_intent : (symbol target reason : String) → Intent F

-- What `submit` and `cancel` of a broker answer.
pub record BrokerAck : Type 0 where
  pub accepted : Bool
  pub reason : Option String

-- `Broker`, on a state of type `B`.
pub record Broker (F B : Type 0) : Type 0 where
  pub submit_order : String → OrderIntent F → ℤ → B → B × BrokerAck
  pub cancel_order : String → ℤ → B → B × BrokerAck
  pub drain : B → List (String × OrderEvent F × ℤ) × B

pub data DecisionKind : Type 0 where
  submitted vetoed rejected cancelled : DecisionKind

pub data Detail (F : Type 0) : Type 0 where
  stated : String → Detail F
  failed : ApplyError F → Detail F

-- The side is `none` where the source writes "-".
pub record DecisionRecord (F : Type 0) : Type 0 where
  pub at : ℤ
  pub seq : ℕ
  pub kind : DecisionKind
  pub id : String
  pub traded : String
  pub side : Option Side
  pub amount : F
  pub detail : Detail F

pub record Engine (F B S : Type 0) : Type 0 where
  pub now : ℤ
  pub orders : Table String (OrderRecord F)
  pub positions : Table String F
  pub decisions : List (DecisionRecord F)
  pub intent_seq : ℕ
  pub transitions : List (OrderRecord F)
  pub broker_state : B
  pub strategy_state : S

abbrev pub to_side : OrderSide → Side
to_side OrderSide.buy = buy
to_side OrderSide.sell = sell

abbrev pub or_else : String → Option String → String
or_else text none = text
or_else text (some reason) = reason

abbrev pub note : {F : Type 0} → Bool → OrderRecord F → List (OrderRecord F) → List (OrderRecord F)
note transitioned order transitions =
    if transitioned then transitions ++ (order ∷ []) else transitions

restore_each :
    {F : Type 0}
    → Table String (OrderRecord F)
    → Table String (OrderRecord F)
    → Table String (OrderRecord F)
restore_each [] orders = orders
restore_each ((id, order) ∷ restored) orders = restore_each restored (insert id order orders)

module _ {F B S : Type 0} where
  -- A new engine; the clock starts at zero.
  abbrev pub new_engine : B → S → Engine F B S
  new_engine state strategy = record {
    now = pos 0;
    orders = [];
    positions = [];
    decisions = [];
    intent_seq = 0;
    transitions = [];
    broker_state = state;
    strategy_state = strategy;
  }

  -- `decisions.push`, with the running number.
  abbrev pub decide :
      ℤ → DecisionKind → String → String → Option Side → F → Detail F → Engine F B S → Engine F B S
  decide at kind id symbol side qty detail e = record e {
    decisions =
        e.decisions
        ++ (record {
          at = at;
          seq = length e.decisions;
          kind = kind;
          id = id;
          traded = symbol;
          side = side;
          amount = qty;
          detail = detail;
        }
            ∷ []);
  }

module _ {F B S : Type 0} ⦃d : Double F⦄ where
  unfoldable pub override_position : String → F → Engine F B S → Engine F B S
  override_position symbol size e = record e {
    positions =
        if d.eq size (d.literal 0 0)
        then erase symbol e.positions
        else insert symbol size e.positions;
  }

  unfoldable pub restore_orders : Table String (OrderRecord F) → Engine F B S → Engine F B S
  unfolding restore_each
  restore_orders restored e = record e { orders = restore_each restored e.orders }

  abbrev pub apply_drained :
      String → OrderEvent F → ℤ → OrderRecord F → Engine F B S → ApplyResult F → Engine F B S
  apply_drained id event at existing e (refused error order) =
      decide at rejected id existing.symbol (some existing.side) existing.qty (failed error) e
  apply_drained id event at existing e (ok order transitioned) = record e {
    orders = insert id order e.orders;
    transitions = note transitioned order e.transitions;
    positions = book_fill existing event e.positions;
  }

  abbrev pub drain_known :
      String → OrderEvent F → ℤ → Engine F B S → Option (OrderRecord F) → Engine F B S
  drain_known id event at e none = e
  drain_known id event at e (some existing) =
      apply_drained id event at existing e (apply_order_event existing event)

  -- The loop of `drainBroker`.
  unfoldable pub drain_each : List (String × OrderEvent F × ℤ) → Engine F B S → Engine F B S
  drain_each [] e = e
  drain_each ((id, event, at) ∷ events) e =
      drain_each events (drain_known id event at e (lookup id e.orders))

  abbrev pub put_if_ok : String → ApplyResult F → Engine F B S → Engine F B S
  put_if_ok id (ok order transitioned) e = record e { orders = insert id order e.orders }
  put_if_ok id (refused error order) e = e

  abbrev pub reject_known : String → String → Engine F B S → Option (OrderRecord F) → Engine F B S
  reject_known id reason e none = e
  reject_known id reason e (some current) =
      put_if_ok id (apply_order_event current (reject reason)) e

module _ {E F B S : Type 0} ⦃d : Double F⦄ (broker : Broker F B)
    (risk : OrderIntent F → Table String F → S → S × Option String)
    (on_event : E → ℤ → ℕ → Table String F → S → List (Intent F) × ℕ × S)
    (link_id : String → String) where
  -- The decision on a submission, and the rejection of the order if the broker refused it.
  unfoldable pub answer_submit : String → OrderIntent F → BrokerAck → Engine F B S → Engine F B S
  answer_submit id intent ack e =
      let decided =
        decide e.now (if ack.accepted then submitted else rejected) id intent.symbol
          (some (to_side intent.side)) intent.qty
          (stated (if ack.accepted then intent.rationale else or_else "rejected" ack.reason)) e in
      if ack.accepted
      then decided
      else reject_known id (or_else "rejected" ack.reason) decided (lookup id decided.orders)

  -- The order is recorded as submitted, then sent.
  unfoldable pub send_order : String → OrderIntent F → Engine F B S → Engine F B S
  send_order id intent e =
      let fresh = new_order id intent.symbol (to_side intent.side) intent.qty in
      let noted = put_if_ok id (apply_order_event fresh submit) e in
      let (state, ack) = broker.submit_order id intent e.now e.broker_state in
      answer_submit id intent ack (record noted { broker_state = state })

  abbrev pub risk_answer : String → OrderIntent F → Engine F B S → Option String → Engine F B S
  risk_answer id intent e (some veto) =
      decide e.now vetoed id intent.symbol (some (to_side intent.side)) intent.qty (stated veto) e
  risk_answer id intent e none = send_order id intent e

  unfoldable pub process_intent : Intent F → Engine F B S → Engine F B S
  process_intent (cancel_intent symbol target reason) e =
      let (state, ack) = broker.cancel_order target e.now e.broker_state in
      decide e.now cancelled target symbol none (d.literal 0 0)
        (stated (if ack.accepted then reason else or_else "cancel failed" ack.reason))
        (record e { broker_state = state })
  process_intent (order_intent intent) e =
      let (after, veto) = risk intent e.positions e.strategy_state in
      risk_answer (link_id intent.key) intent (record e { strategy_state = after }) veto

  unfoldable pub process_each : List (Intent F) → Engine F B S → Engine F B S
  process_each [] e = e
  process_each (i ∷ intents) e = process_each intents (process_intent i e)

  abbrev pub drain_broker : Engine F B S → Engine F B S
  drain_broker e =
      let (events, state) = broker.drain e.broker_state in
      drain_each events (record e { broker_state = state })

  -- The strategy sees the event and the positions after the drain.
  abbrev pub run_strategy : E → Engine F B S → Engine F B S
  run_strategy event e =
      let (intents, seq, state) = on_event event e.now e.intent_seq e.positions e.strategy_state in
      process_each intents (record e { intent_seq = seq; strategy_state = state })

  unfoldable pub handle : E → ℤ → Engine F B S → Engine F B S
  handle event exchange_ts e =
      let at = if ltb_ℤ e.now exchange_ts then exchange_ts else e.now in
      run_strategy event (drain_broker (record e { now = at }))
