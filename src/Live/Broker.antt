-- ===== src/Live/Broker.antt =====
-- packages/adapters-bybit/src/liveBroker.ts: the broker over the venue's REST interface. The venue is
-- a state of its own with the answers of rest.ts as functions on it, `print` is `String(number)` and
-- `number_of` is `Number(text)`. An `await` is the end of the venue's call. Logging is left out.
pub mod Stream
pub mod Cancelling
use Prim.Native.String
use ztrade.Prelude.{
  ℕ, String, Bool, true, false, not, ◌||◌, Option, none, some, List, [], ◌∷◌, ◌++◌, if◌then◌else◌,
}
use ztrade.Prelude.Int.{ℤ, pos, ◌==ℤ◌}
use ztrade.Prelude.Double.{Double}
use ztrade.Prelude.Table.{Table, string_eq, lookup, insert}
use ztrade.Core.Intent.{
  OrderIntent, OrderSide, TimeInForce, post_only, ExecutionStyle, market, limit, passive, twap,
  iceberg,
}
use ztrade.Execution.OrderState.{OrderEvent, acknowledge}
use ztrade.Execution.Engine.{Broker, BrokerAck}
use ztrade.Execution.Reconciler.{ExchangeOrder}
use ztrade.Live.AccountEvents.{AccountEvent}

-- What `BybitRest` gives back or throws: a `BybitRestError` has a code,
-- the venue's text and the message of the error.
pub data RestAnswer (A : Type 0) : Type 0 where
  answered : A → RestAnswer A
  rest_error : (ret_code : ℤ) (ret_msg message : String) → RestAnswer A
  no_answer : String → RestAnswer A

pub data OrderType : Type 0 where
  market_type limit_type : OrderType

-- The body of `/v5/order/create`.
pub record OrderBody : Type 0 where
  pub category : String
  pub traded : String
  pub side : OrderSide
  pub qty_text : String
  pub link_id : String
  pub reduce_only : Bool
  pub order_type : OrderType
  pub price_text : Option String
  pub time_in_force : Option TimeInForce
  pub stop_text : Option String
  pub target_text : Option String

pub record VenueApi (V : Type 0) : Type 0 where
  -- The answer is the exchange's order id.
  pub create_order : OrderBody → V → V × RestAnswer String
  pub cancel_at : (category symbol link_id : String) → V → V × RestAnswer (Unit {0})
  -- The length of the list in the answer, if it has one.
  pub cancel_every : (category settle_coin : String) → V → V × RestAnswer (Option ℕ)

pub record LiveBroker (F V : Type 0) : Type 0 where
  pub exchange_ids : Table String String
  pub outbox : List (AccountEvent F)
  pub venue : V

pub record LiveConfig : Type 0 where
  pub category : String
  pub trading_enabled : Bool

pub record SubmitAck : Type 0 where
  pub accepted : Bool
  pub exchange_order_id : Option String
  pub duplicate : Bool
  pub reason : Option String

pub record RawPosition : Type 0 where
  pub symbol : String
  pub side : String
  pub size_text : String
  pub avg_price_text : String

pub record VenuePosition (F : Type 0) : Type 0 where
  pub symbol : String
  pub side : String
  pub size : F
  pub entry_price : F

-- `DUPLICATE_ORDER_CODE` and `ORDER_NOT_FOUND_CODES`
abbrev pub duplicate_order_code : ℤ
duplicate_order_code = pos 110072

abbrev pub not_found : ℤ → Bool
not_found code = code ==ℤ pos 110001 || code ==ℤ pos 170213

abbrev refusal : String → SubmitAck
refusal why = record {
  accepted = false;
  exchange_order_id = none;
  duplicate = false;
  reason = some why;
}

abbrev pub refused_cancel : String → BrokerAck
refused_cancel why = record { accepted = false; reason = some why }

-- A cancel that was sent: an order that is not there any more is as good as cancelled.
abbrev pub cancel_answer : RestAnswer (Unit {0}) → BrokerAck
cancel_answer (answered _) = record { accepted = true; reason = none }
cancel_answer (rest_error code why message) =
    if not_found code
    then record { accepted = true; reason = some "Order already inactive" }
    else refused_cancel message
cancel_answer (no_answer why) = refused_cancel why

abbrev pub printed : {F : Type 0} → (F → String) → Option F → Option String
printed print none = none
printed print (some x) = some (print x)

module _ {F : Type 0} (config : LiveConfig) (print : F → String) where
  abbrev pub base_body : String → OrderIntent F → OrderBody
  base_body id intent = record {
    category = config.category;
    traded = intent.symbol;
    side = intent.side;
    qty_text = print intent.qty;
    link_id = id;
    reduce_only = intent.reduce_only;
    order_type = market_type;
    price_text = none;
    time_in_force = none;
    stop_text = printed print intent.stop_loss;
    target_text = printed print intent.take_profit;
  }

  -- The switch of `orderBody`; the styles that should have been expanded throw.
  abbrev pub styled : ExecutionStyle F → OrderBody → Option OrderBody
  styled market body = some body
  styled (limit price tif) body = some (record body {
    order_type = limit_type;
    price_text = some (print price);
    time_in_force = some tif;
  })
  styled (passive repegs) body =
      some (record body { order_type = limit_type; time_in_force = some post_only })
  styled (twap window slices) body = none
  styled (iceberg display) body = none

  unfoldable pub order_body : String → OrderIntent F → Option OrderBody
  order_body id intent = styled intent.style (base_body id intent)

abbrev style_name : {F : Type 0} → ExecutionStyle F → String
style_name market = "market"
style_name (limit price tif) = "limit"
style_name (passive repegs) = "passive"
style_name (twap window slices) = "twap"
style_name (iceberg display) = "iceberg"

abbrev unexpanded : {F : Type 0} → ExecutionStyle F → String
unexpanded style =
    String.◌++◌ "Style "
      (String.◌++◌ (style_name style) " must be expanded before reaching the broker")

pub data SymbolAnswer : Type 0 where
  symbol_found symbol_thrown : String → SymbolAnswer

unfoldable pub symbol_of : String → SymbolAnswer
symbol_of id =
    symbol_thrown (String.◌++◌ "cancel(" (String.◌++◌ id ") needs a symbol; use cancelWithSymbol"))

module _ {F V : Type 0} (api : VenueApi V) (config : LiveConfig) (print : F → String) where
  -- What `submit` makes of the venue's answer.
  abbrev pub submit_answer :
      String → LiveBroker F V → RestAnswer String → LiveBroker F V × SubmitAck
  submit_answer id b (answered exchange_id) = (
    record b { exchange_ids = insert id exchange_id b.exchange_ids },
    record {
      accepted = true;
      exchange_order_id = some exchange_id;
      duplicate = false;
      reason = none;
    },
  )
  submit_answer id b (rest_error code why message) = (
    b,
    if code ==ℤ duplicate_order_code
        then record {
          accepted = false;
          exchange_order_id = lookup id b.exchange_ids;
          duplicate = true;
          reason = some "Duplicate orderLinkId (idempotent retry)";
        }
        else refusal why,
  )
  submit_answer id b (no_answer why) =
      (b, refusal (String.◌++◌ "Network error (retry with same id): " why))

  abbrev pub send_body :
      String → OrderIntent F → Option OrderBody → LiveBroker F V → LiveBroker F V × SubmitAck
  send_body id intent none b = (b, refusal (unexpanded intent.style))
  send_body id intent (some body) b =
      let (venue, answer) = api.create_order body b.venue in
      submit_answer id (record b { venue = venue }) answer

  unfoldable pub submit : String → OrderIntent F → LiveBroker F V → LiveBroker F V × SubmitAck
  unfolding order_body
  submit id intent b =
      if not config.trading_enabled
      then (
        b,
        record { accepted = true; exchange_order_id = none; duplicate = false; reason = none },
      )
      else send_body id intent (order_body config print id intent) b

  -- The request to cancel, if its symbol is found; what `symbolOf` throws is caught.
  abbrev pub request_cancel : String → SymbolAnswer → LiveBroker F V → LiveBroker F V × BrokerAck
  request_cancel id (symbol_thrown message) b = (b, refused_cancel message)
  request_cancel id (symbol_found symbol) b =
      let (venue, answer) = api.cancel_at config.category symbol id b.venue in
      (record b { venue = venue }, cancel_answer answer)

  unfoldable pub cancel_order : String → LiveBroker F V → LiveBroker F V × BrokerAck
  unfolding symbol_of
  cancel_order id b =
      if not config.trading_enabled
      then (b, record { accepted = true; reason = none })
      else request_cancel id (symbol_of id) b

  unfoldable pub cancel_with_symbol : String → String → LiveBroker F V → LiveBroker F V × BrokerAck
  cancel_with_symbol id symbol b =
      if not config.trading_enabled
      then (b, record { accepted = true; reason = none })
      else let (venue, answer) = api.cancel_at config.category symbol id b.venue in
        (record b { venue = venue }, cancel_answer answer)

  abbrev count_of : RestAnswer (Option ℕ) → ℕ
  count_of (answered (some n)) = n
  count_of _ = 0

  unfoldable pub cancel_all : LiveBroker F V → LiveBroker F V × ℕ
  cancel_all b =
      if not config.trading_enabled
      then (b, 0)
      else let (venue, answer) = api.cancel_every config.category "USDT" b.venue in
        (record b { venue = venue }, count_of answer)

  -- The broker that the engine is given.
  abbrev pub live_broker : Broker F (LiveBroker F V)
  live_broker = record {
    submit_order = λ id intent at b.
        let (after, ack) = submit id intent b in
        (after, record { accepted = ack.accepted; reason = ack.reason });
    cancel_order = λ id at b. cancel_order id b;
    drain = λ b. (b.outbox, record b { outbox = [] });
  }

abbrev learn : {F : Type 0} → String → OrderEvent F → Table String String → Table String String
learn id (acknowledge exchange_id) ids = insert id exchange_id ids
learn id _ ids = ids

module _ {F V : Type 0} where
  unfoldable pub ingest_order_event : AccountEvent F → LiveBroker F V → LiveBroker F V
  ingest_order_event (id, event, at) b = record b {
    exchange_ids = learn id event b.exchange_ids;
    outbox = b.outbox ++ ((id, event, at) ∷ []);
  }

module _ {F : Type 0} ⦃d : Double F⦄ (number_of : String → F) where
  -- `positions` of the list that the venue answers.
  unfoldable pub open_positions : List RawPosition → List (VenuePosition F)
  open_positions [] = []
  open_positions (p ∷ raw) =
      let rest = open_positions raw in
      if d.lt (d.literal 0 0) (number_of p.size_text)
      then record {
        symbol = p.symbol;
        side = p.side;
        size = number_of p.size_text;
        entry_price = number_of p.avg_price_text;
      }
        ∷ rest
      else rest
