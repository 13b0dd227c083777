-- ===== src/Execution/Strategies.antt =====
-- packages/execution/src/canary.ts and strategies.ts: the strategies that ship with the engine, as
-- functions from an event and a state. `long`, `short` and `flat` are the side held last, if any. The
-- key of an intent is made by `make_key` from the strategy's id, the symbol and the running number, and
-- its rationale, a text for people, by `why` from the side.
-- Only klines concern them; every other event is `other`.
pub mod Alternation
use ztrade.Prelude.{
  ℕ, ◌+◌, ◌*◌, String, Bool, true, false, not, ◌&&◌, ◌||◌, Option, none, some, List, [], ◌∷◌, ◌++◌,
  ltb, leb, ◌==◌, if◌then◌else◌, length,
}
use ztrade.Prelude.Int.{ℤ}
use ztrade.Prelude.Double.{Double}
use ztrade.Prelude.Table.{Table, string_eq}
use ztrade.Core.Intent.{OrderIntent, OrderSide, ExecutionStyle}
use ztrade.Execution.Engine.{Intent, order_intent}
use ztrade.Features.RingBuffer.Slots.{drop, last_n}

pub data StrategyEvent (F : Type 0) : Type 0 where
  kline : (symbol : String) (close volume : F) (closed : Bool) → StrategyEvent F
  other : StrategyEvent F

-- `xs.slice(-n)`, which is the whole list for zero.
abbrev pub tail_slice : {F : Type 0} → ℕ → List F → List F
tail_slice n xs = if n == 0 then xs else last_n n xs

-- `push`, then `shift` where the list has grown beyond the limit.
abbrev pub push_within : {F : Type 0} → ℕ → F → List F → List F
push_within limit x xs = let ys = xs ++ (x ∷ []) in if ltb limit (length ys) then drop 1 ys else ys

abbrev same_side : OrderSide → Option OrderSide → Bool
same_side OrderSide.buy (some OrderSide.buy) = true
same_side OrderSide.sell (some OrderSide.sell) = true
same_side _ _ = false

-- The side, if it is not the one taken last.
abbrev pub on_change : OrderSide → Option OrderSide → Option OrderSide
on_change side last = if same_side side last then none else some side

abbrev pub taken_or : Option OrderSide → Option OrderSide → Option OrderSide
taken_or none last = last
taken_or (some side) last = some side

pub record Canary (F : Type 0) : Type 0 where
  pub closes : List F
  pub last_side : Option OrderSide

pub record Breakout (F : Type 0) : Type 0 where
  pub past_closes : List F
  pub held : Option OrderSide

pub record VwapReversion (F : Type 0) : Type 0 where
  pub price_volume : List F
  pub volumes : List F
  pub faded : Option OrderSide

abbrev pub flat_canary : {F : Type 0} → Canary F
flat_canary = record { closes = []; last_side = none }

abbrev pub flat_breakout : {F : Type 0} → Breakout F
flat_breakout = record { past_closes = []; held = none }

abbrev pub flat_vwap : {F : Type 0} → VwapReversion F
flat_vwap = record { price_volume = []; volumes = []; faded = none }

module _ {F : Type 0} ⦃d : Double F⦄ where
  abbrev total_of : List F → F → F
  total_of [] total = total
  total_of (x ∷ xs) total = total_of xs (d.add total x)

  -- `xs.reduce((a, b) => a + b, 0)`
  abbrev pub sum_of : List F → F
  sum_of xs = total_of xs (d.literal 0 0)

  abbrev pub mean_of : List F → F
  mean_of xs = d.div (sum_of xs) (d.literal (length xs) 0)

  abbrev infinity : F
  infinity = d.div (d.literal 1 0) (d.literal 0 0)

  abbrev max_from : List F → F → F
  max_from [] best = best
  max_from (x ∷ xs) best = max_from xs (d.max best x)

  abbrev min_from : List F → F → F
  min_from [] best = best
  min_from (x ∷ xs) best = min_from xs (d.min best x)

  -- `CanaryStrategy.onEvent` on a closed bar of its symbol.
  unfoldable pub canary_bar : (fast slow : ℕ) → F → Canary F → Option OrderSide × Canary F
  canary_bar fast slow close s =
      let closes = push_within (slow * 4) close s.closes in
      let fast_ma = mean_of (tail_slice fast closes) in
      let slow_ma = mean_of (tail_slice slow closes) in
      let side = if d.lt slow_ma fast_ma then OrderSide.buy else OrderSide.sell in
      let signal = if ltb (length closes) slow then none else on_change side s.last_side in
      (signal, record { closes = closes; last_side = taken_or signal s.last_side })

  abbrev break_side : F → Bool → List F → Option OrderSide → Option OrderSide
  break_side close ready window position =
      if not ready
      then none
      else if d.lt (max_from window (d.neg infinity)) close
          && not (same_side OrderSide.buy position)
      then some OrderSide.buy
      else if d.lt close (min_from window infinity) && not (same_side OrderSide.sell position)
      then some OrderSide.sell
      else none

  -- `BreakoutStrategy.onEvent` on a closed bar: the window does not hold the bar itself.
  unfoldable pub breakout_bar : (lookback : ℕ) → F → Breakout F → Option OrderSide × Breakout F
  breakout_bar lookback close s =
      let signal =
        break_side close (leb lookback (length s.past_closes)) (tail_slice lookback s.past_closes)
          s.held in
      (
        signal,
        record {
          past_closes = push_within (lookback * 3) close s.past_closes;
          held = taken_or signal s.held;
        },
      )

  abbrev fade_side : F → F → F → Option OrderSide → Option OrderSide
  fade_side close vwap band position =
      let deviation = d.mul (d.div (d.sub close vwap) vwap) (d.literal 100 0) in
      if d.le deviation (d.neg band) && not (same_side OrderSide.buy position)
      then some OrderSide.buy
      else if d.le band deviation && not (same_side OrderSide.sell position)
      then some OrderSide.sell
      else none

  -- `VwapReversionStrategy.onEvent` on a closed bar.
  unfoldable pub vwap_bar :
      (window : ℕ)
      → (band : F) → (close volume : F) → VwapReversion F
      → Option OrderSide × VwapReversion F
  vwap_bar window band close volume s =
      let v = if d.lt (d.literal 0 0) volume then volume else d.literal 1 0 in
      let price_volume = s.price_volume ++ (d.mul close v ∷ []) in
      let volumes = s.volumes ++ (v ∷ []) in
      let full = ltb window (length price_volume) in
      let kept_pv = if full then drop 1 price_volume else price_volume in
      let kept_v = if full then drop 1 volumes else volumes in
      let total = sum_of kept_v in
      let signal =
        if ltb (length kept_pv) window
        then none
        else if d.le total (d.literal 0 0)
        then none
        else fade_side close (d.div (sum_of kept_pv) total) band s.faded in
      (signal, record { price_volume = kept_pv; volumes = kept_v; faded = taken_or signal s.faded })

  -- One market order for a signal.
  abbrev intents_of :
      (String → String → ℕ → String)
      → (OrderSide → String)
      → String
      → String
      → F
      → ℕ
      → Option OrderSide
      → List (Intent F) × ℕ
  intents_of make_key why id symbol qty seq none = ([], seq)
  intents_of make_key why id symbol qty seq (some side) = (
    order_intent (record {
      key = make_key id symbol seq;
      symbol = symbol;
      side = side;
      qty = qty;
      style = ExecutionStyle.market;
      reduce_only = false;
      max_slippage_bps = none;
      stop_loss = none;
      take_profit = none;
      rationale = why side;
    })
        ∷ [],
    seq + 1,
  )

  -- The part that the three share: events that are no closed kline of the symbol change nothing.
  unfoldable pub strategy_event :
      {S : Type 0}
      → (String → String → ℕ → String)
      → (why : OrderSide → String) → (id own_symbol : String) → (qty : F)
      → (bar : F → F → S → Option OrderSide × S) → StrategyEvent F
      → ℤ
      → ℕ
      → Table String F
      → S
      → List (Intent F) × ℕ × S
  strategy_event make_key why id own_symbol qty bar other now seq positions s = ([], seq, s)
  strategy_event make_key why id own_symbol qty bar (kline symbol close volume closed) now seq
        positions s =
      let (signal, next) = bar close volume s in
      let (intents, seq') = intents_of make_key why id symbol qty seq signal in
      if not closed || not (string_eq.beq own_symbol symbol)
      then ([], seq, s)
      else (intents, seq', next)
