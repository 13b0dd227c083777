-- ===== src/Live/Broker/Stream.antt =====
-- What moves a position of the engine when the live broker stands behind it.
use ztrade.Prelude.{
  ℕ, String, ◌≡◌, refl, sym, ap, ◌∙◌, inl, inr, Option, none, some, List, [], ◌∷◌, if◌then◌else◌,
  Bool-cases, Option-cases,
}
use ztrade.Prelude.Int.{ℤ, ltb_ℤ}
use ztrade.Prelude.Double.{Double}
use ztrade.Prelude.Table.{Table, lookup, string_eq}
use ztrade.Core.Intent.{OrderIntent}
use ztrade.Execution.OrderState.{
  ApplyResult, ok, refused, submit, reject, new_order, apply_order_event,
}
use ztrade.Execution.Engine.{
  Broker, Intent, order_intent, cancel_intent, BrokerAck, Engine, to_side, or_else, put_if_ok,
  reject_known, answer_submit, send_order, process_intent, process_each, drain_each, handle, decide,
  rejected, stated, run_strategy,
}
use ztrade.Execution.Engine.Replayed.{handle_all}
use mathlib.Core.Path.{subst}
use ztrade.Live.Broker.{
  VenueApi, LiveConfig, LiveBroker, RestAnswer, answered, rest_error, no_answer, OrderBody,
  submit_answer, order_body, send_body, live_broker,
}
use ztrade.Live.Broker as Live

module _ {F V S : Type 0} ⦃d : Double F⦄ where
  -- The same positions, and the same events that wait.
  record IsStill (e after : Engine F (LiveBroker F V) S) : Type 0 where
    same_positions : after.positions ≡ e.positions
    same_outbox : after.broker_state.outbox ≡ e.broker_state.outbox

  refl-IsStill : (e : Engine F (LiveBroker F V) S) → IsStill e e
  refl-IsStill e = record { same_positions = refl; same_outbox = refl }

  trans-IsStill : (a b c : Engine F (LiveBroker F V) S) → IsStill a b → IsStill b c → IsStill a c
  trans-IsStill a b c h k = record {
    same_positions = k.same_positions ∙ h.same_positions;
    same_outbox = k.same_outbox ∙ h.same_outbox;
  }

  put_if_ok-IsStill :
      (id : String) (result : ApplyResult F) (e : Engine F (LiveBroker F V) S)
      → IsStill e (put_if_ok id result e)
  put_if_ok-IsStill id (ok order moved) e = record { same_positions = refl; same_outbox = refl }
  put_if_ok-IsStill id (refused error order) e = refl-IsStill e

  reject_known-IsStill :
      (id reason : String) (e : Engine F (LiveBroker F V) S)
      → IsStill e (reject_known id reason e (lookup id e.orders))
  reject_known-IsStill id reason e = elim (Option-cases (lookup id e.orders)) [
    | inl unknown ↦ rw unknown (refl-IsStill e)
    | inr (order, known) ↦
        rw known (put_if_ok-IsStill id (apply_order_event order (reject reason)) e)
  ]

module _ {F V : Type 0} (api : VenueApi V) (config : LiveConfig) (print : F → String) where
  submit_answer-outbox :
      (id : String) (b : LiveBroker F V) (answer : RestAnswer String)
      → (submit_answer api config print id b answer).0.outbox ≡ b.outbox
  submit_answer-outbox id b (answered exchange_id) = refl
  submit_answer-outbox id b (rest_error code why message) = refl
  submit_answer-outbox id b (no_answer why) = refl

  send_body-outbox :
      (id : String) (intent : OrderIntent F) (body : Option OrderBody) (b : LiveBroker F V)
      → (send_body api config print id intent body b).0.outbox ≡ b.outbox
  send_body-outbox id intent none b = refl
  send_body-outbox id intent (some body) b =
      let (venue, answer) = api.create_order body b.venue in
      submit_answer-outbox id (record b { venue = venue }) answer

  -- Sending an order pushes no event.
  submit-outbox :
      (id : String) (intent : OrderIntent F) (b : LiveBroker F V)
      → (Live.submit api config print id intent b).0.outbox ≡ b.outbox
  unfolding Live.submit
  submit-outbox id intent b = elim (Bool-cases config.trading_enabled) [
    | inl on ↦ simp on (send_body-outbox id intent (order_body config print id intent) b)
    | inr off ↦ simp off refl
  ]

  cancel-outbox :
      (id : String) (b : LiveBroker F V) → (Live.cancel_order api config print id b).0 ≡ b
  unfolding Live.cancel_order
  cancel-outbox id b = elim (Bool-cases config.trading_enabled) [
    | inl on ↦ simp on refl
    | inr off ↦ simp off refl
  ]

  module _ {E S : Type 0} ⦃d : Double F⦄
      (risk : OrderIntent F → Table String F → S → S × Option String)
      (on_event : E → ℤ → ℕ → Table String F → S → List (Intent F) × ℕ × S)
      (link_id : String → String) where
    abbrev broker : Broker F (LiveBroker F V)
    broker = live_broker api config print

    answer_submit-IsStill :
        (id : String) (intent : OrderIntent F) (ack : BrokerAck) (e : Engine F (LiveBroker F V) S)
        → IsStill e (answer_submit broker risk on_event link_id id intent ack e)
    unfolding answer_submit
    answer_submit-IsStill id intent ack e = elim (Bool-cases ack.accepted) [
      | inl yes_sir ↦ simp yes_sir (record { same_positions = refl; same_outbox = refl })
      | inr no_sir ↦
          let why = or_else "rejected" ack.reason in
          let decided =
            decide e.now rejected id intent.symbol (some (to_side intent.side)) intent.qty
              (stated why) e in
          let kept = reject_known-IsStill id why decided in
          simp no_sir
            (record { same_positions = kept.same_positions; same_outbox = kept.same_outbox })
    ]

    send_order-IsStill :
        (id : String) (intent : OrderIntent F) (e : Engine F (LiveBroker F V) S)
        → IsStill e (send_order broker risk on_event link_id id intent e)
    unfolding send_order
    send_order-IsStill id intent e =
        let fresh = new_order id intent.symbol (to_side intent.side) intent.qty in
        let noted = put_if_ok id (apply_order_event fresh submit) e in
        let (state, ack) = broker.submit_order id intent e.now e.broker_state in
        let sent : Engine F (LiveBroker F V) S = record noted { broker_state = state } in
        let kept = put_if_ok-IsStill id (apply_order_event fresh submit) e in
        trans-IsStill e sent _
          (record {
            same_positions = kept.same_positions;
            same_outbox = submit-outbox id intent e.broker_state;
          })
          (answer_submit-IsStill id intent ack sent)

    process_intent-IsStill :
        (i : Intent F) (e : Engine F (LiveBroker F V) S)
        → IsStill e (process_intent broker risk on_event link_id i e)
    unfolding process_intent
    process_intent-IsStill (cancel_intent symbol target reason) e = record {
      same_positions = refl;
      same_outbox = ap (λ (b : LiveBroker F V). b.outbox) (cancel-outbox target e.broker_state);
    }
    process_intent-IsStill (order_intent intent) e =
        let (after, verdict) = risk intent e.positions e.strategy_state in
        let asked : Engine F (LiveBroker F V) S = record e { strategy_state = after } in
        let kept = send_order-IsStill (link_id intent.key) intent asked in
        elim (Option-cases verdict) [
          | inl passes ↦
              rw passes
                (record { same_positions = kept.same_positions; same_outbox = kept.same_outbox })
          | inr (veto, denied) ↦ rw denied (record { same_positions = refl; same_outbox = refl })
        ]

    process_each-IsStill :
        (intents : List (Intent F)) (e : Engine F (LiveBroker F V) S)
        → IsStill e (process_each broker risk on_event link_id intents e)
    unfolding process_each
    process_each-IsStill [] e = refl-IsStill e
    process_each-IsStill (i ∷ intents) e =
        trans-IsStill e (process_intent broker risk on_event link_id i e) _
          (process_intent-IsStill i e)
          (process_each-IsStill intents (process_intent broker risk on_event link_id i e))

    -- One event of the engine, while the stream is silent.
    handle-IsStill :
        (event : E) (ts : ℤ) (e : Engine F (LiveBroker F V) S)
        → e.broker_state.outbox ≡ []
        → IsStill e (handle broker risk on_event link_id event ts e)
    unfolding handle drain_each
    handle-IsStill event ts e silent =
        let at = if ltb_ℤ e.now ts then ts else e.now in
        let drained : Engine F (LiveBroker F V) S = record e {
          now = at;
          broker_state = record e.broker_state { outbox = [] };
        } in
        let (intents, seq, state) = on_event event at e.intent_seq e.positions e.strategy_state in
        let ready : Engine F (LiveBroker F V) S = record drained {
          intent_seq = seq;
          strategy_state = state;
        } in
        let kept = process_each-IsStill intents ready in
        subst
          (λ (x : Engine F (LiveBroker F V) S).
            IsStill e (run_strategy broker risk on_event link_id event x))
          (sym (ap (λ events. drain_each events drained) silent))
          (record {
            same_positions = kept.same_positions;
            same_outbox = kept.same_outbox ∙ sym silent;
          })

    -- While the account stream is silent no position moves, whatever the strategy sends and however
    -- the venue answers: what the venue's REST interface says of an order never counts as a fill.
    pub silent_stream :
        (stamp : ℤ → F) (tape : List (E × ℤ)) (e : Engine F (LiveBroker F V) S)
        → e.broker_state.outbox ≡ []
        → (handle_all broker risk on_event link_id stamp tape e).positions ≡ e.positions
    unfolding handle_all
    silent_stream stamp [] e silent = refl
    silent_stream stamp ((event, ts) ∷ tape) e silent =
        let kept = handle-IsStill event ts e silent in
        silent_stream stamp tape (handle broker risk on_event link_id event ts e)
          (kept.same_outbox ∙ silent)
        ∙ kept.same_positions
