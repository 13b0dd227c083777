-- ===== src/Execution/Engine/Replayed.antt =====
-- The engine and a cold start agree: what the journal gives back is what the engine holds.
use ztrade.Prelude.{
  ℕ, String, ◌≡◌, refl, inl, inr, Option, none, some, List, [], ◌∷◌, ◌++◌, if◌then◌else◌,
  Bool-cases, Option-cases,
}
use ztrade.Prelude.Int.{ℤ, ltb_ℤ}
use ztrade.Prelude.Double.{Double}
use ztrade.Prelude.Table.{Table, string_eq, lookup}
use ztrade.Core.Intent.{OrderIntent}
use ztrade.Execution.OrderState.{OrderEvent, submit, reject, new_order, apply_order_event}
use ztrade.Execution.Journal.{
  JournalEntry, open_order, event, RecoveredState, recover_step, recover_from, recover_state,
}
use ztrade.Execution.Engine.{
  Intent, order_intent, cancel_intent, BrokerAck, Broker, Engine, to_side, or_else, drain_known,
  drain_each, put_if_ok, answer_submit, send_order, process_intent, new_engine, process_each,
  drain_broker, handle,
}
use ztrade.Execution.Engine.Mirrored.{Agrees, drain_known-Agrees, opened-Agrees, rejected-Agrees}

module _ {E F B S : Type 0} ⦃d : Double F⦄ (broker : Broker F B)
    (risk : OrderIntent F → Table String F → S → S × Option String)
    (on_event : E → ℤ → ℕ → Table String F → S → List (Intent F) × ℕ × S)
    (link_id : String → String) (stamp : ℤ → F) where
  abbrev pub drained_entries : List (String × OrderEvent F × ℤ) → List (JournalEntry F)
  drained_entries [] = []
  drained_entries ((id, ev, at) ∷ events) = event (stamp at) id ev ∷ drained_entries events

  abbrev answer_entries : String → BrokerAck → ℤ → List (JournalEntry F)
  answer_entries id ack now =
      if ack.accepted
      then []
      else event (stamp now) id (reject (or_else "rejected" ack.reason)) ∷ []

  abbrev order_entries :
      String → OrderIntent F → Engine F B S → Option String → List (JournalEntry F)
  order_entries id intent e (some veto) = []
  order_entries id intent e none =
      open_order (stamp e.now) id intent.symbol (to_side intent.side) intent.qty
      ∷ event (stamp e.now) id submit
      ∷ answer_entries id (broker.submit_order id intent e.now e.broker_state).1 e.now

  abbrev intent_entries : Intent F → Engine F B S → List (JournalEntry F)
  intent_entries (cancel_intent symbol target reason) e = []
  intent_entries (order_intent intent) e =
      order_entries (link_id intent.key) intent e (risk intent e.positions e.strategy_state).1

  unfoldable pub intents_entries : List (Intent F) → Engine F B S → List (JournalEntry F)
  intents_entries [] e = []
  intents_entries (i ∷ intents) e =
      intent_entries i e
      ++ intents_entries intents (process_intent broker risk on_event link_id i e)

  drain_each-Agrees :
      (events : List (String × OrderEvent F × ℤ)) (e : Engine F B S) (r : RecoveredState F)
      → Agrees e r
      → Agrees (drain_each events e) (recover_from (drained_entries events) r)
  unfolding drain_each recover_from
  drain_each-Agrees [] e r h = h
  drain_each-Agrees ((id, ev, at) ∷ events) e r h =
      drain_each-Agrees events (drain_known id ev at e (lookup id e.orders))
        (recover_step (event (stamp at) id ev) r) (drain_known-Agrees id ev at (stamp at) e r h)

  answer_submit-Agrees :
      (id : String) (intent : OrderIntent F) (ack : BrokerAck) (t : ℤ) (e : Engine F B S)
      (r : RecoveredState F)
      → Agrees e r
      → Agrees
          (answer_submit broker risk on_event link_id id intent ack e)
          (recover_from (answer_entries id ack t) r)
  unfolding answer_submit recover_from
  answer_submit-Agrees id intent ack t e r h = elim (Bool-cases ack.accepted) [
    | inl yes_ack ↦ rw yes_ack h
    | inr no_ack ↦ rw no_ack (rejected-Agrees id (or_else "rejected" ack.reason) (stamp t) _ r h)
  ]

  process_intent-Agrees :
      (i : Intent F) (e : Engine F B S) (r : RecoveredState F)
      → Agrees e r
      → Agrees
          (process_intent broker risk on_event link_id i e)
          (recover_from (intent_entries i e) r)
  unfolding process_intent send_order recover_from
  process_intent-Agrees (cancel_intent symbol target reason) e r h = h
  process_intent-Agrees (order_intent intent) e r h =
      let id = link_id intent.key in
      let answer = broker.submit_order id intent e.now e.broker_state in
      let side = to_side intent.side in
      let (after, verdict) = risk intent e.positions e.strategy_state in
      let asked = record e { strategy_state = after } in
      let noted =
        put_if_ok id (apply_order_event (new_order id intent.symbol side intent.qty) submit)
          asked in
      elim (Option-cases verdict) [
        | inr (veto, denied) ↦ rw denied h
        | inl allowed ↦ rw allowed (
            answer_submit-Agrees id intent answer.1 e.now (record noted { broker_state = answer.0 })
              (recover_step (event (stamp e.now) id submit)
                (recover_step (open_order (stamp e.now) id intent.symbol side intent.qty) r))
              (opened-Agrees id intent.symbol side intent.qty (stamp e.now) (stamp e.now) asked r
                h))
      ]

  recover_from-append :
      (xs ys : List (JournalEntry F)) (r : RecoveredState F)
      → recover_from (xs ++ ys) r ≡ recover_from ys (recover_from xs r)
  unfolding recover_from
  recover_from-append [] ys r = refl
  recover_from-append (x ∷ xs) ys r = recover_from-append xs ys (recover_step x r)

  process_each-Agrees :
      (intents : List (Intent F)) (e : Engine F B S) (r : RecoveredState F)
      → Agrees e r
      → Agrees
          (process_each broker risk on_event link_id intents e)
          (recover_from (intents_entries intents e) r)
  unfolding process_each intents_entries recover_from
  process_each-Agrees [] e r h = h
  process_each-Agrees (i ∷ intents) e r h =
      let next = process_intent broker risk on_event link_id i e in
      rw (recover_from-append (intent_entries i e) (intents_entries intents next) r) (
        process_each-Agrees intents next (recover_from (intent_entries i e) r)
          (process_intent-Agrees i e r h))

  -- The entries of one `handle`.
  unfoldable pub handle_entries : E → ℤ → Engine F B S → List (JournalEntry F)
  handle_entries ev ts e =
      let at = if ltb_ℤ e.now ts then ts else e.now in
      let timed = record e { now = at } in
      let drained = drain_broker broker risk on_event link_id timed in
      let (intents, seq, state) =
        on_event ev drained.now drained.intent_seq drained.positions drained.strategy_state in
      drained_entries (broker.drain e.broker_state).0
      ++ intents_entries intents (record drained { intent_seq = seq; strategy_state = state })

  handle-Agrees :
      (ev : E) (ts : ℤ) (e : Engine F B S) (r : RecoveredState F)
      → Agrees e r
      → Agrees
          (handle broker risk on_event link_id ev ts e)
          (recover_from (handle_entries ev ts e) r)
  unfolding handle handle_entries
  handle-Agrees ev ts e r h =
      let at = if ltb_ℤ e.now ts then ts else e.now in
      let (events, state) = broker.drain e.broker_state in
      let begun = record e { now = at; broker_state = state } in
      let drained = drain_each events begun in
      let (intents, seq, after) =
        on_event ev drained.now drained.intent_seq drained.positions drained.strategy_state in
      let ready = record drained { intent_seq = seq; strategy_state = after } in
      rw (recover_from-append (drained_entries events) (intents_entries intents ready) r) (
        process_each-Agrees intents ready (recover_from (drained_entries events) r)
          (drain_each-Agrees events begun r h))

  unfoldable pub handle_all : List (E × ℤ) → Engine F B S → Engine F B S
  handle_all [] e = e
  handle_all ((ev, ts) ∷ tape) e = handle_all tape (handle broker risk on_event link_id ev ts e)

  unfoldable pub all_entries : List (E × ℤ) → Engine F B S → List (JournalEntry F)
  all_entries [] e = []
  all_entries ((ev, ts) ∷ tape) e =
      handle_entries ev ts e ++ all_entries tape (handle broker risk on_event link_id ev ts e)

  handle_all-Agrees :
      (tape : List (E × ℤ)) (e : Engine F B S) (r : RecoveredState F)
      → Agrees e r
      → Agrees (handle_all tape e) (recover_from (all_entries tape e) r)
  unfolding handle_all all_entries recover_from
  handle_all-Agrees [] e r h = h
  handle_all-Agrees ((ev, ts) ∷ tape) e r h =
      let next = handle broker risk on_event link_id ev ts e in
      rw (recover_from-append (handle_entries ev ts e) (all_entries tape next) r) (
        handle_all-Agrees tape next (recover_from (handle_entries ev ts e) r)
          (handle-Agrees ev ts e r h))

  -- Recovery and the engine compute the same: for any strategy, broker and risk gate, with whatever
  -- states they keep, and any tape of events, recoverState on the list of the openings, submissions,
  -- rejections and reported events of the run, in their order, gives exactly the orders and the
  -- positions that the engine holds at its end. The list is that of this statement; no store of the
  -- program holds all of it.
  pub recovers_engine :
      (tape : List (E × ℤ)) (state : B) (strategy : S)
      → let start = new_engine state strategy in
        Agrees (handle_all tape start) (recover_state (all_entries tape start))
  unfolding recover_state
  recovers_engine tape state strategy =
      handle_all-Agrees tape (new_engine state strategy)
        (record { orders = []; positions = []; last_reconciled_at = none }) (refl, refl)
