-- ===== src/Execution/SimBroker.antt =====
-- packages/adapters-sim/src/simBroker.ts: the simulated venue. Event times are whole milliseconds. An
-- order that is pending stands under its link id in the map, so the id is left out of the order. The
-- orders of a step are objects that the map shares: each is processed once, and is changed by its own
-- processing alone. An asynchronous method runs to its end, since it awaits only its own calls.

pub mod Fills
pub mod Touched
pub mod Runs
use ztrade.Prelude.{
  ℕ, String, Bool, true, false, not, ◌&&◌, ◌||◌, Option, none, some, List, [], ◌∷◌, ◌++◌,
  if◌then◌else◌, length,
}
use ztrade.Prelude.Int.{ℤ, ltb_ℤ, ◌+ℤ◌}
use ztrade.Prelude.Double.{Double}
use ztrade.Prelude.Table.{Table, string_eq, lookup, insert, erase}
use ztrade.Core.Intent.{OrderIntent, OrderSide, ExecutionStyle, TimeInForce}
use ztrade.Core.Book.{
  BookSides, BookLevel, top_of_book, sweep_price, exceeds_limit_bps, adverse_bps,
}
use ztrade.Execution.OrderState.{OrderEvent, acknowledge, fill, cancel}
use Prim.Native.String.{◌++◌ as str_append}

pub record SimConfig (F : Type 0) : Type 0 where
  pub latency_ms : ℤ
  pub maker_fee_rate : F
  pub taker_fee_rate : F
  pub queue_ahead_factor : F
  pub sim_slippage_bps : F

pub record PendingOrder (F : Type 0) : Type 0 where
  pub ordered : String
  pub side : OrderSide
  pub qty : F
  pub done_qty : F
  pub limit_price : Option F
  pub is_post_only : Bool
  pub visible_at : ℤ
  pub queue_ahead : F
  pub acked : Bool

abbrev pub Emission : Type 0 → Type 0
Emission F = String × OrderEvent F × ℤ

pub record SimBroker (F : Type 0) : Type 0 where
  pub working : Table String (PendingOrder F)
  pub outbox : List (Emission F)
  pub books : Table String (BookSides F)
  pub seen_link_ids : List String

pub data SimRefusal (F : Type 0) : Type 0 where
  duplicate_link_id no_book insufficient_depth : SimRefusal F
  slippage : (bps limit_bps : F) → SimRefusal F

pub data SubmitAck (F : Type 0) : Type 0 where
  taken : (exchange_order_id : String) → SubmitAck F
  not_taken : SimRefusal F → SubmitAck F

-- `set.has`
abbrev pub was_seen : String → List String → Bool
was_seen id [] = false
was_seen id (x ∷ xs) = if string_eq.beq x id then true else was_seen id xs

abbrev pub sim_id : String → String
sim_id id = str_append "sim-" id

module _ {F : Type 0} where
  abbrev pub new_sim : SimBroker F
  new_sim = record { working = []; outbox = []; books = []; seen_link_ids = [] }

  abbrev pub emit : String → OrderEvent F → ℤ → SimBroker F → SimBroker F
  emit id event at s = record s { outbox = s.outbox ++ ((id, event, at) ∷ []) }

  unfoldable pub update_book : String → BookSides F → SimBroker F → SimBroker F
  update_book symbol book s = record s { books = insert symbol book s.books }

  unfoldable pub drain_events : SimBroker F → List (Emission F) × SimBroker F
  drain_events s = (s.outbox, record s { outbox = [] })

  abbrev near_touch : ⦃d : Double F⦄ → BookSides F → OrderSide → Option F
  near_touch book OrderSide.buy = (top_of_book book).bid
  near_touch book OrderSide.sell = (top_of_book book).ask

  abbrev limit_of : ⦃d : Double F⦄ → BookSides F → OrderSide → ExecutionStyle F → Option F
  limit_of book side (ExecutionStyle.limit price tif) = some price
  limit_of book side (ExecutionStyle.passive max_repegs) = near_touch book side
  limit_of book side _ = none

  abbrev posts_only : ExecutionStyle F → Bool
  posts_only (ExecutionStyle.passive max_repegs) = true
  posts_only (ExecutionStyle.limit price TimeInForce.post_only) = true
  posts_only _ = false

module _ {F : Type 0} ⦃d : Double F⦄ (config : SimConfig F) where
  open config use {latency_ms, maker_fee_rate, taker_fee_rate, queue_ahead_factor, sim_slippage_bps}

  abbrev side_levels : BookSides F → OrderSide → List (BookLevel F)
  side_levels book OrderSide.buy = book.bids
  side_levels book OrderSide.sell = book.asks

  abbrev is_near : F → F → Bool
  is_near x y = d.lt (d.abs (d.sub x y)) (d.literal 1 9)

  -- `levels.find(…)?.size ?? 0`
  abbrev size_at : F → List (BookLevel F) → F
  size_at price [] = d.literal 0 0
  size_at price (l ∷ levels) = if is_near l.price price then l.size else size_at price levels

  abbrev queue_ahead_at : BookSides F → OrderSide → Option F → F
  queue_ahead_at book side none = d.literal 0 0
  queue_ahead_at book side (some price) =
      d.mul (size_at price (side_levels book side)) queue_ahead_factor

  abbrev limit_or : Option F → F
  limit_or none = sim_slippage_bps
  limit_or (some bps) = bps

  abbrev over_limit : OrderSide → F → Option F → F → Option (SimRefusal F)
  over_limit side limit_bps none swept = none
  over_limit side limit_bps (some mid) swept =
      if d.lt (d.literal 0 0) mid && exceeds_limit_bps (adverse_bps side swept mid) limit_bps
      then some (slippage (adverse_bps side swept mid) limit_bps)
      else none

  -- The guard on marketable orders, by what the sweep gives.
  abbrev depth_guard : BookSides F → OrderIntent F → Option F → Option (SimRefusal F)
  depth_guard book intent none = some insufficient_depth
  depth_guard book intent (some swept) =
      over_limit intent.side (limit_or intent.max_slippage_bps) (top_of_book book).mid swept

  abbrev guard : BookSides F → OrderIntent F → Option F → Option (SimRefusal F)
  guard book intent none = depth_guard book intent (sweep_price book intent.side intent.qty)
  guard book intent (some price) = none

  abbrev accept :
      String
      → OrderIntent F
      → ℤ
      → BookSides F
      → SimBroker F
      → Option (SimRefusal F)
      → SimBroker F × SubmitAck F
  accept id intent at book s (some refusal) = (s, not_taken refusal)
  accept id intent at book s none =
      let limit = limit_of book intent.side intent.style in
      (
        record s {
          working =
              insert id
                (record {
                  ordered = intent.symbol;
                  side = intent.side;
                  qty = intent.qty;
                  done_qty = d.literal 0 0;
                  limit_price = limit;
                  is_post_only = posts_only intent.style;
                  visible_at = at +ℤ latency_ms;
                  queue_ahead = queue_ahead_at book intent.side limit;
                  acked = false;
                })
                s.working;
        },
        taken (sim_id id),
      )

  abbrev submit_on :
      String → OrderIntent F → ℤ → SimBroker F → Option (BookSides F) → SimBroker F × SubmitAck F
  submit_on id intent at s none = (s, not_taken no_book)
  submit_on id intent at s (some book) =
      accept id intent at book s (guard book intent (limit_of book intent.side intent.style))

  -- A link id that passes the first test is remembered, whatever becomes of the order.
  unfoldable pub submit : String → OrderIntent F → ℤ → SimBroker F → SimBroker F × SubmitAck F
  submit id intent at s =
      if was_seen id s.seen_link_ids
      then (s, not_taken duplicate_link_id)
      else submit_on id intent at (record s { seen_link_ids = id ∷ s.seen_link_ids })
          (lookup intent.symbol s.books)

  abbrev cancel_found : String → ℤ → SimBroker F → Option (PendingOrder F) → SimBroker F × Bool
  cancel_found id at s none = (s, false)
  cancel_found id at s (some order) =
      (emit id cancel (at +ℤ latency_ms) (record s { working = erase id s.working }), true)

  unfoldable pub cancel_order : String → ℤ → SimBroker F → SimBroker F × Bool
  cancel_order id at s = cancel_found id at s (lookup id s.working)

  -- The keys of the map, as they were when the loop began.
  cancel_each : Table String (PendingOrder F) → ℤ → SimBroker F → SimBroker F
  cancel_each [] at s = s
  cancel_each ((id, order) ∷ orders) at s = cancel_each orders at (cancel_order id at s).0

  unfoldable pub cancel_all : ℤ → SimBroker F → SimBroker F × ℕ
  unfolding cancel_each
  cancel_all at s = (cancel_each s.working at s, length s.working)

  abbrev fill_at : String → PendingOrder F → F → F → Bool → ℤ → SimBroker F → SimBroker F
  fill_at id order price rate is_maker now s =
      let remaining = d.sub order.qty order.done_qty in
      emit id (fill remaining price (d.mul (d.mul remaining price) rate) is_maker) now
        (record s { working = erase id s.working })

  abbrev fill_market : String → PendingOrder F → ℤ → SimBroker F → Option F → SimBroker F
  fill_market id order now s none = s
  fill_market id order now s (some price) = fill_at id order price taker_fee_rate false now s

  abbrev trades_through : OrderSide → F → F → F → Bool
  trades_through OrderSide.buy limit bid ask = d.lt ask limit
  trades_through OrderSide.sell limit bid ask = d.lt limit bid

  abbrev at_level : F → Option F → Bool
  at_level limit none = false
  at_level limit (some price) = is_near price limit

  -- A price at the level consumes the queue ahead, and fills when none of it is left.
  abbrev fill_in_queue : String → PendingOrder F → F → ℤ → F → Option F → SimBroker F → SimBroker F
  fill_in_queue id order limit now volume trade_price s =
      let ahead = d.sub order.queue_ahead volume in
      let queued = record s {
        working = insert id (record order { queue_ahead = ahead }) s.working;
      } in
      if not (at_level limit trade_price) || d.le volume (d.literal 0 0)
      then s
      else if d.lt (d.literal 0 0) ahead
      then queued
      else fill_at id order limit maker_fee_rate true now queued

  abbrev fill_limit :
      String
      → PendingOrder F
      → F
      → ℤ
      → F
      → Option F
      → Option F
      → Option F
      → SimBroker F
      → SimBroker F
  fill_limit id order limit now volume trade_price (some bid) (some ask) s =
      if trades_through order.side limit bid ask
      then fill_at id order limit maker_fee_rate true now s
      else fill_in_queue id order limit now volume trade_price s
  fill_limit id order limit now volume trade_price _ _ s = s

  abbrev acknowledged : String → PendingOrder F → ℤ → SimBroker F → SimBroker F
  acknowledged id order now s =
      if order.acked
      then s
      else emit id (acknowledge (sim_id id)) now
          (record s { working = insert id (record order { acked = true }) s.working })

  abbrev fill_order :
      String
      → PendingOrder F
      → BookSides F
      → ℤ
      → F
      → Option F
      → SimBroker F
      → Option F
      → SimBroker F
  fill_order id order book now volume trade_price s none =
      fill_market id order now s (sweep_price book order.side (d.sub order.qty order.done_qty))
  fill_order id order book now volume trade_price s (some limit) =
      fill_limit id order limit now volume trade_price (top_of_book book).bid (top_of_book book).ask
        s

  -- The body of the loop of `step`.
  unfoldable pub step_order :
      ℤ → String → BookSides F → F → Option F → String → PendingOrder F → SimBroker F → SimBroker F
  step_order now symbol book volume trade_price id order s =
      if not (string_eq.beq order.ordered symbol)
      then s
      else if ltb_ℤ now order.visible_at
      then s
      else fill_order id (record order { acked = true }) book now volume trade_price
          (acknowledged id order now s) order.limit_price

  unfoldable pub step_each :
      ℤ
      → String
      → BookSides F
      → F
      → Option F
      → Table String (PendingOrder F)
      → SimBroker F
      → SimBroker F
  step_each now symbol book volume trade_price [] s = s
  step_each now symbol book volume trade_price ((id, order) ∷ orders) s =
      step_each now symbol book volume trade_price orders
        (step_order now symbol book volume trade_price id order s)

  unfoldable pub step : ℤ → String → BookSides F → F → Option F → SimBroker F → SimBroker F
  step now symbol book volume trade_price s =
      step_each now symbol book volume trade_price s.working
        (record s { books = insert symbol book s.books })
