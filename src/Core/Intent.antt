-- ===== src/Core/Intent.antt =====
-- packages/core/src/intent.ts: what a strategy may ask for.
use ztrade.Prelude.{String, Bool, Option}

pub data OrderSide : Type 0 where
  buy sell : OrderSide

pub data TimeInForce : Type 0 where
  gtc ioc fok post_only : TimeInForce

pub data ExecutionStyle (F : Type 0) : Type 0 where
  market : ExecutionStyle F
  limit : (price : F) → TimeInForce → ExecutionStyle F
  passive : (max_repegs : F) → ExecutionStyle F
  twap : (window_ms slices : F) → ExecutionStyle F
  iceberg : (display_qty : F) → ExecutionStyle F

pub record OrderIntent (F : Type 0) : Type 0 where
  pub key : String
  pub symbol : String
  pub side : OrderSide
  pub qty : F
  pub style : ExecutionStyle F
  pub reduce_only : Bool
  pub max_slippage_bps : Option F
  pub stop_loss : Option F
  pub take_profit : Option F
  pub rationale : String
