-- ===== src/Execution/SimBroker/Runs.antt =====
-- Runs of the simulated venue: any calls in any order.
use ztrade.Prelude.{
  String, ◌≡◌, refl, sym, ap, ◌∙◌, inl, inr, true, false, Option, none, some, List, [], ◌∷◌, ◌++◌,
  arith, Bool-cases, Option-cases,
}
use ztrade.Prelude.Int.{ℤ, ◌+ℤ◌}
use mathlib.Core.List.{append-nil}
use ztrade.Prelude.Double.{Double}
use ztrade.Prelude.Table.{
  Table, string_eq, lookup, insert, erase, lookup-insert, lookup-erase, Distinct, insert-Distinct,
  erase-Distinct,
}
use ztrade.Core.Intent.{OrderIntent}
use ztrade.Core.Book.{BookSides}
use ztrade.Execution.OrderState.{cancel}
use ztrade.Execution.SimBroker.{
  SimConfig, PendingOrder, Emission, SimBroker, new_sim, update_book, drain_events, submit,
  SubmitAck, taken, not_taken, cancel_order, cancel_each, cancel_all, step_order, step_each, step,
  was_seen, guard, limit_of,
}
use ztrade.Execution.SimBroker.Touched.{step_order-kept}
use ztrade.Execution.SimBroker.Fills.{
  Inv, erase-Inv, emit-Inv, step_order-Inv, FillsOnce, times, fill_times,
}

-- A call of the broker.
pub data SimCall (F : Type 0) : Type 0 where
  submitting : String → OrderIntent F → ℤ → SimCall F
  cancelling : String → ℤ → SimCall F
  cancelling_all : ℤ → SimCall F
  draining : SimCall F
  booking : String → BookSides F → SimCall F
  stepping : ℤ → String → BookSides F → (volume : F) → (trade_price : Option F) → SimCall F

-- The broker with all that it has put out before, and when each order was accepted.
pub record SimRun (F : Type 0) : Type 0 where
  pub broker : SimBroker F
  pub drained : List (Emission F)
  pub accepted : Table String ℤ

-- All that has been emitted, drained or not.
abbrev pub emitted : {F : Type 0} → SimRun F → List (Emission F)
emitted run = run.drained ++ run.broker.outbox

abbrev note_accepted : {F : Type 0} → String → ℤ → SubmitAck F → Table String ℤ → Table String ℤ
note_accepted id at (taken exchange_id) m = insert id at m
note_accepted id at (not_taken refusal) m = m

abbrev pub new_run : {F : Type 0} → SimRun F
new_run = record { broker = new_sim; drained = []; accepted = [] }

module _ {F : Type 0} ⦃d : Double F⦄ (config : SimConfig F) where
  unfoldable pub call_sim : SimCall F → SimRun F → SimRun F
  call_sim (submitting id intent at) run =
      let (broker, ack) = submit config id intent at run.broker in
      record run { broker = broker; accepted = note_accepted id at ack run.accepted }
  call_sim (cancelling id at) run = record run { broker = (cancel_order config id at run.broker).0 }
  call_sim (cancelling_all at) run = record run { broker = (cancel_all config at run.broker).0 }
  call_sim draining run =
      let (events, broker) = drain_events run.broker in
      record run { broker = broker; drained = run.drained ++ events }
  call_sim (booking symbol book) run = record run { broker = update_book symbol book run.broker }
  call_sim (stepping now symbol book volume trade_price) run = record run {
    broker = step config now symbol book volume trade_price run.broker;
  }

  unfoldable pub run_sim : List (SimCall F) → SimRun F → SimRun F
  run_sim [] run = run
  run_sim (c ∷ calls) run = run_sim calls (call_sim c run)

  module _ (j : String) where
    -- The invariant for one id.
    abbrev Good : List (Emission F) → Table String ℤ → SimBroker F → Type 0
    Good drained accepted s =
        Inv config.latency_ms j drained (lookup j accepted) s × Distinct s.working

    -- The orders that the loop has still to process are in the map as they were.
    step_each-Good :
        (now : ℤ) (symbol : String) (book : BookSides F) (volume : F) (trade_price : Option F)
        (orders : Table String (PendingOrder F)) (drained : List (Emission F))
        (accepted : Table String ℤ) (s : SimBroker F)
        → Distinct orders
        → ((o : PendingOrder F) → lookup j orders ≡ some o → lookup j s.working ≡ some o)
        → Good drained accepted s
        → Good drained accepted (step_each config now symbol book volume trade_price orders s)
    unfolding step_each
    step_each-Good now symbol book volume trade_price [] drained accepted s distinct held h = h
    step_each-Good now symbol book volume trade_price ((id, order) ∷ orders) drained accepted s
          distinct held h =
        let next = step_order config now symbol book volume trade_price id order s in
        let here : string_eq.beq id j ≡ true → lookup j s.working ≡ some order =
          λ e. held order (rw e refl) in
        step_each-Good now symbol book volume trade_price orders drained accepted next distinct.1
          (λ o k. elim (Bool-cases (string_eq.beq id j)) [
            | inl e ↦
                let same : id ≡ j = (string_eq.beq_iff id j).0 e in
                let absent : lookup j orders ≡ none = rw same at distinct.0 in
                ground (arith, absent, k)
            | inr e ↦
                step_order-kept config id (λ m. lookup j m ≡ some o)
                  (λ p m q. lookup-insert id j p m ∙ rw e q) (λ m q. lookup-erase id j m ∙ rw e q)
                  now symbol book volume trade_price order s (held o (rw e k))
          ])
          (
            step_order-Inv config.latency_ms j drained (lookup j accepted) config now symbol book
                volume trade_price id order s h.0 here,
            step_order-kept config id Distinct (λ p m q. insert-Distinct id p m q)
                (λ m q. erase-Distinct id m q) now symbol book volume trade_price order s h.1,
          )

    cancel_order-Good :
        (id : String) (at : ℤ) (drained : List (Emission F)) (accepted : Table String ℤ)
        (s : SimBroker F)
        → Good drained accepted s
        → Good drained accepted (cancel_order config id at s).0
    unfolding cancel_order
    cancel_order-Good id at drained accepted s h = elim (Option-cases (lookup id s.working)) [
      | inl unknown ↦ rw unknown h
      | inr (o, found) ↦ rw found (
        emit-Inv config.latency_ms j drained (lookup j accepted) id cancel _
            (record s { working = erase id s.working }) refl
            (erase-Inv config.latency_ms j drained (lookup j accepted) id s h.0),
        erase-Distinct id s.working h.1,
      )
    ]

    cancel_each-Good :
        (orders : Table String (PendingOrder F)) (at : ℤ) (drained : List (Emission F))
        (accepted : Table String ℤ) (s : SimBroker F)
        → Good drained accepted s
        → Good drained accepted (cancel_each config orders at s)
    unfolding cancel_each
    cancel_each-Good [] at drained accepted s h = h
    cancel_each-Good ((id, o) ∷ orders) at drained accepted s h =
        cancel_each-Good orders at drained accepted _ (cancel_order-Good id at drained accepted s h)

    none_filled :
        (latency : ℤ) (o : Option ℤ) (ats : List ℤ) → o ≡ none → FillsOnce latency o ats → ats ≡ []
    none_filled latency o [] e h = refl
    none_filled latency none (at ∷ ats) e h = elim h [ ]
    none_filled latency (some t) (at ∷ ats) e h = cc

    remember-Inv :
        (id : String) (drained : List (Emission F)) (accepted : Option ℤ) (s : SimBroker F)
        → Inv config.latency_ms j drained accepted s
        → Inv config.latency_ms j drained accepted
            (record s { seen_link_ids = id ∷ s.seen_link_ids })
    remember-Inv id drained accepted s h = record {
      unfilled = h.unfilled;
      due = h.due;
      once = h.once;
      known = λ n. ground (arith, h.known n);
    }

    -- A new order under a fresh id.
    accept-Inv :
        (id : String) (at : ℤ) (o : PendingOrder F) (drained : List (Emission F))
        (accepted : Table String ℤ) (s : SimBroker F)
        → was_seen id s.seen_link_ids ≡ false
        → o.visible_at ≡ at +ℤ config.latency_ms
        → Inv config.latency_ms j drained (lookup j accepted) s
        → Inv config.latency_ms j drained
            (lookup j (insert id at accepted))
            (record s { working = insert id o s.working; seen_link_ids = id ∷ s.seen_link_ids })
    accept-Inv id at o drained accepted s fresh shown h = elim (Bool-cases (string_eq.beq id j)) [
      | inl e ↦
          let same : id ≡ j = (string_eq.beq_iff id j).0 e in
          let unaccepted : lookup j accepted ≡ none = elim (Option-cases (lookup j accepted)) [
            | inl n ↦ n
            | inr (t, had) ↦
                let seen : was_seen j s.seen_link_ids ≡ true = h.known (λ n. cc) in
                let unseen : was_seen j s.seen_link_ids ≡ false = rw same at fresh in cc
          ] in
          let unfilled : times j drained s.outbox ≡ [] =
            none_filled config.latency_ms (lookup j accepted) (times j drained s.outbox) unaccepted
              h.once in
          let now : lookup j (insert id at accepted) ≡ some at =
            lookup-insert id j at accepted ∙ rw e refl in
          record {
            unfilled = λ p q. unfilled;
            due = λ p q.
                let is_o : o ≡ p = ground (arith, lookup-insert id j o s.working, q, e) in
                (at, now, ap (λ x. x.visible_at) (sym is_o) ∙ shown);
            once = rw (unfilled) tt;
            known = λ n. rw e refl;
          }
      | inr e ↦
          let other : lookup j (insert id at accepted) ≡ lookup j accepted =
            lookup-insert id j at accepted ∙ rw e refl in
          record {
            unfilled = λ p q. h.unfilled p (ground (arith, lookup-insert id j o s.working, q, e));
            due = λ p q.
                let (t, when, later) =
                  h.due p (ground (arith, lookup-insert id j o s.working, q, e)) in
                (t, other ∙ when, later);
            once = rw other h.once;
            known = λ n. rw e (h.known (λ m. n (other ∙ m)));
          }
    ]

    submit-Good :
        (id : String) (intent : OrderIntent F) (at : ℤ) (drained : List (Emission F))
        (accepted : Table String ℤ) (s : SimBroker F)
        → Good drained accepted s
        → let r = submit config id intent at s in
          Good drained (note_accepted id at r.1 accepted) r.0
    unfolding submit
    submit-Good id intent at drained accepted s h =
        elim (Bool-cases (was_seen id s.seen_link_ids)) [
          | inl old ↦ rw old h
          | inr fresh ↦ elim (Option-cases (lookup intent.symbol s.books)) [
            | inl missing ↦
                rw (fresh, missing) (remember-Inv id drained (lookup j accepted) s h.0, h.1)
            | inr (book, found) ↦
                elim (Option-cases
                  (guard config book intent (limit_of book intent.side intent.style))) [
                    | inr (why, refused) ↦
                        rw (fresh, found, refused)
                          (remember-Inv id drained (lookup j accepted) s h.0, h.1)
                    | inl passed ↦
                        rw (fresh, found, passed)
                          (
                            accept-Inv id at _ drained accepted s fresh refl h.0,
                            insert-Distinct id _ s.working h.1,
                          )
                  ]
          ]
        ]

    drain-Inv :
        (drained : List (Emission F)) (accepted : Option ℤ) (s : SimBroker F)
        → Inv config.latency_ms j drained accepted s
        → Inv config.latency_ms j (drained ++ s.outbox) accepted (record s { outbox = [] })
    unfolding times
    drain-Inv drained accepted s h =
        let same : times j (drained ++ s.outbox) [] ≡ times j drained s.outbox =
          ap (fill_times j) (append-nil (drained ++ s.outbox)) in
        record {
          unfilled = λ p q. same ∙ h.unfilled p q;
          due = h.due;
          once = rw same h.once;
          known = h.known;
        }

    call_sim-Good :
        (c : SimCall F) (run : SimRun F)
        → Good run.drained run.accepted run.broker
        → Good (call_sim c run).drained (call_sim c run).accepted (call_sim c run).broker
    unfolding call_sim cancel_all drain_events update_book step
    call_sim-Good (submitting id intent at) run h =
        submit-Good id intent at run.drained run.accepted run.broker h
    call_sim-Good (cancelling id at) run h =
        cancel_order-Good id at run.drained run.accepted run.broker h
    call_sim-Good (cancelling_all at) run h =
        cancel_each-Good run.broker.working at run.drained run.accepted run.broker h
    call_sim-Good draining run h =
        (drain-Inv run.drained (lookup j run.accepted) run.broker h.0, h.1)
    call_sim-Good (booking symbol book) run h =
        (record { unfilled = h.0.unfilled; due = h.0.due; once = h.0.once; known = h.0.known }, h.1)
    call_sim-Good (stepping now symbol book volume trade_price) run h =
        step_each-Good now symbol book volume trade_price run.broker.working run.drained
          run.accepted (record (run.broker) { books = insert symbol book run.broker.books }) h.1
          (λ o k. k)
          (
            record { unfilled = h.0.unfilled; due = h.0.due; once = h.0.once; known = h.0.known },
            h.1,
          )

    run_sim-Good :
        (calls : List (SimCall F)) (run : SimRun F)
        → Good run.drained run.accepted run.broker
        → Good (run_sim calls run).drained (run_sim calls run).accepted (run_sim calls run).broker
    unfolding run_sim
    run_sim-Good [] run h = h
    run_sim-Good (c ∷ calls) run h = run_sim-Good calls (call_sim c run) (call_sim-Good c run h)

  -- No lookahead and no double fill: whatever is called, in whatever order, a link id has fills only
  -- if it was accepted, then at most one of them in all that the broker ever emits, and that one at
  -- an event time a whole latency after the acceptance or later.
  pub run_sim-FillsOnce :
      (calls : List (SimCall F)) (j : String)
      → let run = run_sim calls new_run in
        FillsOnce config.latency_ms (lookup j run.accepted) (fill_times j (emitted run))
  unfolding times
  run_sim-FillsOnce calls j =
      (run_sim-Good j calls new_run (
        record { unfilled = λ o k. refl; due = λ o k. cc; once = tt; known = λ n. absurd (n refl) },
        tt,
      )).0.once
