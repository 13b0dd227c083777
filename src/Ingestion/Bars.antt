-- ===== src/Ingestion/Bars.antt =====
-- packages/ingestion/src/bars.ts: trades into bars of a fixed width. Times are whole milliseconds at
-- or after the epoch, prices and sizes doubles. The listener `onBar` is called with each closed bar:
-- the calls are kept in order in `emitted`.
pub mod Closing
use ztrade.Prelude.{
  ℕ, ◌+◌, ◌*◌, ◌/◌, String, Bool, true, false, not, Option, none, some, List, [], ◌∷◌, ◌++◌, ltb,
  ◌==◌, if◌then◌else◌,
}
use ztrade.Prelude.Double.{Double}
use ztrade.Prelude.Table.{Table, string_eq, lookup, insert, erase}

pub data TradeSide : Type 0 where
  buy sell : TradeSide

pub record Bar (F : Type 0) : Type 0 where
  pub symbol : String
  pub interval : String
  pub open_time : ℕ
  pub opening : F
  pub high : F
  pub low : F
  pub close : F
  pub volume : F
  pub trades : ℕ
  pub buy_volume : F
  pub closed : Bool

pub record BarAggregator (F : Type 0) : Type 0 where
  pub interval_ms : ℕ
  pub interval_label : String
  pub current : Table String (Bar F)
  pub emitted : List (Bar F)

pub record Trade (F : Type 0) : Type 0 where
  pub symbol : String
  pub price : F
  pub size : F
  pub side : TradeSide
  pub ts : ℕ

-- `Math.floor(ts / intervalMs) * intervalMs`
abbrev pub bucket_of : ℕ → ℕ → ℕ
bucket_of interval_ms ts = ts / interval_ms * interval_ms

abbrev emit_closed : {F : Type 0} → Bar F → List (Bar F) → List (Bar F)
emit_closed bar emitted = emitted ++ (record bar { closed = true } ∷ [])

module _ {F : Type 0} ⦃d : Double F⦄ where
  abbrev buy_size : TradeSide → F → F
  buy_size buy size = size
  buy_size sell size = d.literal 0 0

  abbrev pub start_bar : String → ℕ → Trade F → Bar F
  start_bar label bucket t = record {
    symbol = t.symbol;
    interval = label;
    open_time = bucket;
    opening = t.price;
    high = t.price;
    low = t.price;
    close = t.price;
    volume = t.size;
    trades = 1;
    buy_volume = buy_size t.side t.size;
    closed = false;
  }

  abbrev add_buy : TradeSide → F → F → F
  add_buy buy total size = d.add total size
  add_buy sell total size = total

  abbrev pub extend_bar : Trade F → Bar F → Bar F
  extend_bar t bar = record bar {
    high = d.max bar.high t.price;
    low = d.min bar.low t.price;
    close = t.price;
    volume = d.add bar.volume t.size;
    trades = bar.trades + 1;
    buy_volume = add_buy t.side bar.buy_volume t.size;
  }

  -- `onTrade`, by the bar that is open for the symbol.
  abbrev on_trade_at : ℕ → Option (Bar F) → Trade F → BarAggregator F → BarAggregator F
  on_trade_at bucket none t agg = record agg {
    current = insert t.symbol (start_bar agg.interval_label bucket t) agg.current;
  }
  on_trade_at bucket (some bar) t agg =
      if not (bar.open_time == bucket)
      then (if ltb bar.open_time bucket
          then record agg {
            emitted = emit_closed bar agg.emitted;
            current = insert t.symbol (start_bar agg.interval_label bucket t) agg.current;
          }
          else agg)
      else record agg { current = insert t.symbol (extend_bar t bar) agg.current }

  unfoldable pub on_trade : Trade F → BarAggregator F → BarAggregator F
  on_trade t agg = on_trade_at (bucket_of agg.interval_ms t.ts) (lookup t.symbol agg.current) t agg

  -- The loop of `closeExpired` over a copy of the entries.
  unfoldable pub close_from : ℕ → Table String (Bar F) → BarAggregator F → BarAggregator F
  close_from bucket [] agg = agg
  close_from bucket ((symbol, bar) ∷ bars) agg = close_from bucket bars (
      if ltb bar.open_time bucket
      then record agg { emitted = emit_closed bar agg.emitted; current = erase symbol agg.current }
      else agg)

  unfoldable pub close_expired : ℕ → BarAggregator F → BarAggregator F
  unfolding close_from
  close_expired now agg = close_from (bucket_of agg.interval_ms now) agg.current agg

  unfoldable pub pending : String → BarAggregator F → Option (Bar F)
  pending symbol agg = lookup symbol agg.current

-- The events that `onEvent` tells apart.
pub data BarInput (F : Type 0) : Type 0 where
  trade_event : Trade F → BarInput F
  other_event : BarInput F

unfoldable pub on_event :
    {F : Type 0} → ⦃d : Double F⦄ → BarInput F → BarAggregator F → BarAggregator F
on_event (trade_event trade) a = on_trade trade a
on_event other_event a = a

-- A kline event of the bus.
pub record KlineEvent (F : Type 0) : Type 0 where
  pub symbol : String
  pub interval : String
  pub opening : F
  pub high : F
  pub low : F
  pub close : F
  pub volume : F
  pub closed : Bool
  pub exchange_ts : ℕ
  pub local_recv_ts : ℕ
  pub seq : ℕ

unfoldable pub bar_to_event : {F : Type 0} → Bar F → ℕ → ℕ → KlineEvent F
bar_to_event bar local_recv_ts seq = record {
  symbol = bar.symbol;
  interval = bar.interval;
  opening = bar.opening;
  high = bar.high;
  low = bar.low;
  close = bar.close;
  volume = bar.volume;
  closed = bar.closed;
  exchange_ts = bar.open_time;
  local_recv_ts = local_recv_ts;
  seq = seq;
}
