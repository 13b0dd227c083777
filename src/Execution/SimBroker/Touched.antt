-- ===== src/Execution/SimBroker/Touched.antt =====
-- A step touches the working orders only under the id that it processes.
use ztrade.Prelude.{String, inl, inr, true, not, ◌||◌, Option, none, some, Bool-cases, Option-cases}
use ztrade.Prelude.Int.{ℤ, ltb_ℤ}
use ztrade.Prelude.Double.{Double}
use ztrade.Prelude.Table.{Table, string_eq, insert, erase}
use ztrade.Core.Book.{BookSides, sweep_price, top_of_book}
use ztrade.Execution.SimBroker.{
  SimConfig, PendingOrder, SimBroker, fill_order, fill_limit, trades_through, at_level, step_order,
}

-- What holds of the map and is kept by writes and removals under the id is kept by the step.
module _ {F : Type 0} ⦃d : Double F⦄ (config : SimConfig F) (id : String)
    (P : Table String (PendingOrder F) → Type 0)
    (put : (o : PendingOrder F) (m : Table String (PendingOrder F)) → P m → P (insert id o m))
    (cut : (m : Table String (PendingOrder F)) → P m → P (erase id m)) where
  fill_limit-kept :
      (order : PendingOrder F) (limit : F) (now : ℤ) (volume : F) (trade_price bid ask : Option F)
      (s : SimBroker F)
      → P s.working
      → P (fill_limit config id order limit now volume trade_price bid ask s).working
  fill_limit-kept order limit now volume trade_price none ask s h = h
  fill_limit-kept order limit now volume trade_price (some bid) none s h = h
  fill_limit-kept order limit now volume trade_price (some bid) (some ask) s h =
      let o = record order { queue_ahead = d.sub order.queue_ahead volume } in
      elim (Bool-cases (trades_through config order.side limit bid ask)) [
        | inl through ↦ rw through (cut s.working h)
        | inr at ↦
            rw at
              (elim (Bool-cases
                (not (at_level config limit trade_price) || d.le volume (d.literal 0 0))) [
                  | inl away ↦ rw away h
                  | inr near ↦
                      rw near
                        (elim (Bool-cases (d.lt (d.literal 0 0) (d.sub order.queue_ahead volume))) [
                          | inl behind ↦ rw behind (put o s.working h)
                          | inr first ↦ rw first (cut (insert id o s.working) (put o s.working h))
                        ])
                ])
      ]

  fill_order-kept :
      (order : PendingOrder F) (book : BookSides F) (now : ℤ) (volume : F)
      (trade_price limit : Option F) (s : SimBroker F)
      → P s.working
      → P (fill_order config id order book now volume trade_price s limit).working
  fill_order-kept order book now volume trade_price (some limit) s h =
      fill_limit-kept order limit now volume trade_price (top_of_book book).bid
        (top_of_book book).ask s h
  fill_order-kept order book now volume trade_price none s h =
      elim (Option-cases (sweep_price book order.side (d.sub order.qty order.done_qty))) [
        | inl thin ↦ rw thin h
        | inr (price, deep) ↦ rw deep (cut s.working h)
      ]

  pub step_order-kept :
      (now : ℤ) (symbol : String) (book : BookSides F) (volume : F) (trade_price : Option F)
      (order : PendingOrder F) (s : SimBroker F)
      → P s.working
      → P (step_order config now symbol book volume trade_price id order s).working
  unfolding step_order
  step_order-kept now symbol book volume trade_price order s h =
      let o = record order { acked = true } in
      elim (Bool-cases (string_eq.beq order.ordered symbol)) [
        | inr other ↦ rw other h
        | inl this ↦ elim (Bool-cases (ltb_ℤ now order.visible_at)) [
          | inl early ↦ rw (this, early) h
          | inr late ↦ elim (Bool-cases order.acked) [
            | inl was ↦
                rw (this, late, was)
                  (fill_order-kept o book now volume trade_price order.limit_price s h)
            | inr not_yet ↦
                rw (this, late, not_yet)
                  (fill_order-kept o book now volume trade_price order.limit_price _
                    (put o s.working h))
          ]
        ]
      ]
