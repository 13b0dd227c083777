-- ===== src/Execution/SimBroker/Fills.antt =====
-- When and how often an order of the simulated venue fills.
use ztrade.Prelude.{
  String, ◌≡◌, refl, sym, ap, ◌∙◌, ◌≢◌, inl, inr, Bool, true, false, not, ◌&&◌, ◌||◌, Option, none,
  some, List, [], ◌∷◌, ◌++◌, arith, if◌then◌else◌, Bool-cases, Option-cases,
}
use ztrade.Prelude.Int.{ℤ, ltb_ℤ, ◌+ℤ◌, ◌≤ℤ◌}
use mathlib.Core.List.{append-nil, append_assoc}
use ztrade.Prelude.Double.{Double}
use ztrade.Prelude.Table.{string_eq, lookup, insert, erase, lookup-insert, lookup-erase}
use ztrade.Core.Book.{BookSides, sweep_price, top_of_book}
use ztrade.Execution.OrderState.{OrderEvent, is_fill}
use ztrade.Execution.SimBroker.{
  SimConfig, PendingOrder, Emission, SimBroker, was_seen, emit, fill_at, fill_order, fill_limit,
  trades_through, at_level, step_order,
}

-- The times of an order's fills.
abbrev pub fill_times : {F : Type 0} → String → List (Emission F) → List ℤ
fill_times j [] = []
fill_times j ((id, event, at) ∷ es) =
    if string_eq.beq id j && is_fill event then at ∷ fill_times j es else fill_times j es

-- The times over what has been drained and what waits in the outbox.
unfoldable pub times : {F : Type 0} → String → List (Emission F) → List (Emission F) → List ℤ
times j drained outbox = fill_times j (drained ++ outbox)

fill_times-append :
    {F : Type 0} (j : String) (es es' : List (Emission F))
    → fill_times j (es ++ es') ≡ fill_times j es ++ fill_times j es'
fill_times-append j [] es' = refl
fill_times-append j ((id, event, at) ∷ es) es' = ground (arith, fill_times-append j es es')

pub times-emit :
    {F : Type 0} (j : String) (drained outbox : List (Emission F)) (id : String)
    (event : OrderEvent F) (at : ℤ)
    → times j drained (outbox ++ ((id, event, at) ∷ [])) ≡ (
        if string_eq.beq id j && is_fill event
        then times j drained outbox ++ (at ∷ [])
        else times j drained outbox)
unfolding times
times-emit j drained outbox id event at =
    rw (← append_assoc drained outbox ((id, event, at) ∷ [])) (
      fill_times-append j (drained ++ outbox) ((id, event, at) ∷ [])
      ∙ elim (Bool-cases (string_eq.beq id j && is_fill event)) [
        | inl e ↦ rw e refl
        | inr e ↦ rw e (append-nil (fill_times j (drained ++ outbox)))
      ])

-- An order that was accepted at a time fills at most once, and not before a whole latency after.
abbrev pub FillsOnce : ℤ → Option ℤ → List ℤ → Type 0
FillsOnce latency accepted [] = Unit
FillsOnce latency none (at ∷ ats) = ⊥
FillsOnce latency (some t) (at ∷ ats) = (ats ≡ []) × (t +ℤ latency ≤ℤ at)

module _ {F : Type 0} (latency : ℤ) (j : String) (drained : List (Emission F))
    (accepted : Option ℤ) where
  -- A working order under the id has not filled, and becomes visible a latency after its acceptance.
  pub record Inv (s : SimBroker F) : Type 0 where
    pub unfilled :
        (o : PendingOrder F) → lookup j s.working ≡ some o → times j drained s.outbox ≡ []
    pub due :
        (o : PendingOrder F)
        → lookup j s.working ≡ some o
        → (t : ℤ) × (accepted ≡ some t) × (o.visible_at ≡ t +ℤ latency)
    pub once : FillsOnce latency accepted (times j drained s.outbox)
    pub known : accepted ≢ none → was_seen j s.seen_link_ids ≡ true

  -- Another version of the order takes its place.
  pub insert-Inv :
      (id : String) (order o : PendingOrder F) (s : SimBroker F)
      → Inv s
      → (string_eq.beq id j ≡ true → lookup j s.working ≡ some order)
      → o.visible_at ≡ order.visible_at
      → Inv (record s { working = insert id o s.working })
  insert-Inv id order o s h own same = elim (Bool-cases (string_eq.beq id j)) [
    | inl e ↦ record {
      unfilled = λ p q. h.unfilled order (own e);
      due = λ p q.
          let (t, when, shown) = h.due order (own e) in
          let is_o : o ≡ p = ground (arith, lookup-insert id j o s.working, q, e) in
          (t, when, ap (λ x. x.visible_at) (sym is_o) ∙ same ∙ shown);
      once = h.once;
      known = h.known;
    }
    | inr e ↦ record {
      unfilled = λ p q. h.unfilled p (ground (arith, lookup-insert id j o s.working, q, e));
      due = λ p q. h.due p (ground (arith, lookup-insert id j o s.working, q, e));
      once = h.once;
      known = h.known;
    }
  ]

  pub erase-Inv :
      (id : String) (s : SimBroker F) → Inv s → Inv (record s { working = erase id s.working })
  erase-Inv id s h = record {
    unfilled = λ p q. h.unfilled p (ground (arith, lookup-erase id j s.working, q));
    due = λ p q. h.due p (ground (arith, lookup-erase id j s.working, q));
    once = h.once;
    known = h.known;
  }

  -- An event that is no fill.
  pub emit-Inv :
      (id : String) (event : OrderEvent F) (at : ℤ) (s : SimBroker F)
      → is_fill event ≡ false
      → Inv s
      → Inv (emit id event at s)
  emit-Inv id event at s quiet h =
      let same : times j drained (s.outbox ++ ((id, event, at) ∷ [])) ≡ times j drained s.outbox =
        ground (arith, times-emit j drained s.outbox id event at, quiet) in
      record {
        unfilled = λ p q. same ∙ h.unfilled p q;
        due = h.due;
        once = rw same h.once;
        known = h.known;
      }

  module _ ⦃d : Double F⦄ (config : SimConfig F) where
    -- A fill takes the order from the map, at a time when it is visible.
    fill_at-Inv :
        (id : String) (order now_order : PendingOrder F) (price rate : F) (maker : Bool) (now : ℤ)
        (s : SimBroker F)
        → Inv s
        → (string_eq.beq id j ≡ true → lookup j s.working ≡ some order)
        → order.visible_at ≤ℤ now
        → Inv (fill_at config id now_order price rate maker now s)
    fill_at-Inv id order o price rate maker now s h own visible =
        elim (Bool-cases (string_eq.beq id j)) [
          | inl e ↦
              let (t, when, shown) = h.due order (own e) in
              let grown : times j drained (fill_at config id o price rate maker now s).outbox
                  ≡ now ∷ [] =
                times-emit j drained s.outbox id _ now ∙ rw (e, h.unfilled order (own e)) refl in
              record {
                unfilled = λ p q. ground (arith, lookup-erase id j s.working, q, e);
                due = λ p q. ground (arith, lookup-erase id j s.working, q, e);
                once = rw (grown, when) (refl, rw (← shown) visible);
                known = h.known;
              }
          | inr e ↦
              let same : times j drained (fill_at config id o price rate maker now s).outbox
                  ≡ times j drained s.outbox =
                times-emit j drained s.outbox id _ now ∙ rw e refl in
              record {
                unfilled =
                    λ p q. same ∙ h.unfilled p (ground (arith, lookup-erase id j s.working, q));
                due = λ p q. h.due p (ground (arith, lookup-erase id j s.working, q));
                once = rw same h.once;
                known = h.known;
              }
        ]

    fill_limit-Inv :
        (id : String) (order : PendingOrder F) (limit : F) (now : ℤ) (volume : F)
        (trade_price bid ask : Option F) (s : SimBroker F)
        → Inv s
        → (string_eq.beq id j ≡ true → lookup j s.working ≡ some order)
        → order.visible_at ≤ℤ now
        → Inv (fill_limit config id order limit now volume trade_price bid ask s)
    fill_limit-Inv id order limit now volume trade_price none ask s h own visible = h
    fill_limit-Inv id order limit now volume trade_price (some bid) none s h own visible = h
    fill_limit-Inv id order limit now volume trade_price (some bid) (some ask) s h own visible =
        let o = record order { queue_ahead = d.sub order.queue_ahead volume } in
        let queued = insert-Inv id order o s h own refl in
        let still : string_eq.beq id j ≡ true → lookup j (insert id o s.working) ≡ some o =
          λ e. ground (arith, lookup-insert id j o s.working, e) in
        elim (Bool-cases (trades_through config order.side limit bid ask)) [
          | inl through ↦
              rw through
                (fill_at-Inv id order order limit config.maker_fee_rate true now s h own visible)
          | inr at ↦
              rw at
                (elim (Bool-cases
                  (not (at_level config limit trade_price) || d.le volume (d.literal 0 0))) [
                    | inl away ↦ rw away h
                    | inr near ↦
                        rw near
                          (elim (Bool-cases
                            (d.lt (d.literal 0 0) (d.sub order.queue_ahead volume))) [
                              | inl behind ↦ rw behind queued
                              | inr first ↦ rw first (
                                  fill_at-Inv id o order limit config.maker_fee_rate true now
                                    (record s { working = insert id o s.working }) queued still
                                    visible)
                            ])
                  ])
        ]

    fill_order-Inv :
        (id : String) (order : PendingOrder F) (book : BookSides F) (now : ℤ) (volume : F)
        (trade_price limit : Option F) (s : SimBroker F)
        → Inv s
        → (string_eq.beq id j ≡ true → lookup j s.working ≡ some order)
        → order.visible_at ≤ℤ now
        → Inv (fill_order config id order book now volume trade_price s limit)
    fill_order-Inv id order book now volume trade_price (some limit) s h own visible =
        fill_limit-Inv id order limit now volume trade_price (top_of_book book).bid
          (top_of_book book).ask s h own visible
    fill_order-Inv id order book now volume trade_price none s h own visible =
        elim (Option-cases (sweep_price book order.side (d.sub order.qty order.done_qty))) [
          | inl thin ↦ rw thin h
          | inr (price, deep) ↦
              rw deep
                (fill_at-Inv id order order price config.taker_fee_rate false now s h own visible)
        ]

    -- One order of a step, which is in the map as the loop has it.
    pub step_order-Inv :
        (now : ℤ) (symbol : String) (book : BookSides F) (volume : F) (trade_price : Option F)
        (id : String) (order : PendingOrder F) (s : SimBroker F)
        → Inv s
        → (string_eq.beq id j ≡ true → lookup j s.working ≡ some order)
        → Inv (step_order config now symbol book volume trade_price id order s)
    unfolding step_order
    step_order-Inv now symbol book volume trade_price id order s h own =
        let o = record order { acked = true } in
        elim (Bool-cases (string_eq.beq order.ordered symbol)) [
          | inr other ↦ rw other h
          | inl this ↦ elim (Bool-cases (ltb_ℤ now order.visible_at)) [
            | inl early ↦ rw (this, early) h
            | inr late ↦
                let visible : order.visible_at ≤ℤ now = ground (arith, late) in
                let put = record s { working = insert id o s.working } in
                elim (Bool-cases order.acked) [
                  | inl was ↦
                      let same : o ≡ order = ground (arith, was) in
                      rw (this, late, was)
                        (fill_order-Inv id o book now volume trade_price order.limit_price s h
                          (λ e. own e ∙ ap some (sym same)) visible)
                  | inr not_yet ↦
                      rw (this, late, not_yet)
                        (fill_order-Inv id o book now volume trade_price order.limit_price _
                          (emit-Inv id _ now put refl (insert-Inv id order o s h own refl))
                          (λ e. ground (arith, lookup-insert id j o s.working, e)) visible)
                ]
          ]
        ]
