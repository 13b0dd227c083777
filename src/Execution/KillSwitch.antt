-- ===== src/Execution/KillSwitch.antt =====
-- packages/execution/src/killSwitch.ts: the worker. The venue is a state of its own that answers each
-- request; an answer that throws is `threw`, and of a JSON answer only the list of positions is read.
-- `number_of` is `Number(text)` and `print` is `String(number)`. Texts of a request are code points:
-- header texts are bytes, so `timingSafeEqual` of the two buffers is their equality.
pub mod Flatten
use ztrade.Prelude.{
  ℕ, String, Bool, true, false, not, ◌&&◌, ◌||◌, Option, none, some, List, [], ◌∷◌, ◌++◌, ◌==◌,
  if◌then◌else◌, length, codes,
}
use ztrade.Prelude.Int.{ℤ}
use ztrade.Prelude.Text.{Text, same_text}
use ztrade.Prelude.Table.{string_eq}
use ztrade.Prelude.Double.{Double}

pub record OpenPosition : Type 0 where
  pub symbol : String
  pub side : String
  pub size_text : String

pub record CloseBody : Type 0 where
  pub category : String
  pub closed_symbol : String
  pub closing_side : String
  pub order_type : String
  pub qty_text : String
  pub reduce_only : Bool

pub data KillRequest : Type 0 where
  cancel_everything list_positions : (settle_coin : String) → KillRequest
  close_position : CloseBody → KillRequest

pub data KillAnswer : Type 0 where
  threw : KillAnswer
  answered : Option (List OpenPosition) → KillAnswer

pub data CloseResult : Type 0 where
  sent : CloseResult
  failed : (symbol : String) → CloseResult

pub data PanicStep : Type 0 where
  cancel_step : (threw : Bool) → PanicStep
  list_step : (count : Option ℕ) → PanicStep
  close_step : (closed : ℕ) (results : List CloseResult) → PanicStep

-- `(listed && listed.result && listed.result.list) || []`
abbrev pub listed_in : KillAnswer → List OpenPosition
listed_in threw = []
listed_in (answered none) = []
listed_in (answered (some positions)) = positions

abbrev has_thrown : KillAnswer → Bool
has_thrown threw = true
has_thrown (answered list) = false

abbrev counted : KillAnswer → Option ℕ
counted threw = none
counted answer = some (length (listed_in answer))

abbrev close_result : String → KillAnswer → CloseResult
close_result symbol threw = failed symbol
close_result symbol (answered list) = sent

abbrev pub opposite : String → String
opposite side = if string_eq.beq side "Buy" then "Sell" else "Buy"

module _ {F : Type 0} ⦃d : Double F⦄ (number_of : String → F) (print : F → String) where
  abbrev pub is_held : OpenPosition → Bool
  is_held p =
      let size = number_of p.size_text in not (not (d.is_finite size) || d.le size (d.literal 0 0))

  abbrev pub closing : OpenPosition → CloseBody
  closing p = record {
    category = "linear";
    closed_symbol = p.symbol;
    closing_side = opposite p.side;
    order_type = "Market";
    qty_text = print (number_of p.size_text);
    reduce_only = true;
  }

  module _ {V : Type 0} (dry_run : Bool) (venue : KillRequest → V → V × KillAnswer) where
    -- `bybitPost`
    abbrev pub bybit_post : KillRequest → V → V × KillAnswer
    bybit_post request v = if dry_run then (v, answered none) else venue request v

    -- `bybitGet`
    abbrev pub bybit_get : KillRequest → V → V × KillAnswer
    bybit_get request v = if dry_run then (v, answered (some [])) else venue request v

    -- The loop over the positions, with the results so far.
    unfoldable pub close_each : List OpenPosition → List CloseResult → V → V × List CloseResult
    close_each [] closes v = (v, closes)
    close_each (p ∷ positions) closes v =
        let (v', answer) = bybit_post (close_position (closing p)) v in
        let skipped = close_each positions closes v in
        let tried = close_each positions (closes ++ (close_result p.symbol answer ∷ [])) v' in
        if is_held p then tried else skipped

    unfoldable pub panic : String → V → V × List PanicStep
    unfolding close_each
    panic settle_coin v =
        let (v1, cancelled) = bybit_post (cancel_everything settle_coin) v in
        let (v2, listed) = bybit_get (list_positions settle_coin) v1 in
        let (v3, closes) = close_each (listed_in listed) [] v2 in
        (
          v3,
          cancel_step (has_thrown cancelled)
              ∷ list_step (counted listed)
              ∷ close_step (length closes) closes
              ∷ [],
        )

-- The worker's variables.
pub record KillSwitch : Type 0 where
  pub armed : Bool
  pub last_trigger : Option ℤ

pub record HttpRequest : Type 0 where
  pub method : String
  pub url : String
  pub authorization : Text

pub data HttpAnswer : Type 0 where
  health : (armed : Bool) (last_trigger : Option ℤ) → HttpAnswer
  unauthorised not_found rearmed : HttpAnswer
  triggered : (at : ℤ) (steps : List PanicStep) → HttpAnswer

abbrev pub new_switch : KillSwitch
new_switch = record { armed = true; last_trigger = none }

abbrev pub after_prefix : Text → Text → Option Text
after_prefix [] text = some text
after_prefix (c ∷ start) [] = none
after_prefix (c ∷ start) (e ∷ text) = if c == e then after_prefix start text else none

abbrev pub or_text : Text → Option Text → Text
or_text text none = text
or_text text (some rest) = rest

-- `replace(/^Bearer /, "")`
abbrev pub presented : Text → Text
presented header = or_text header (after_prefix (codes "Bearer ") header)

abbrev pub authorised : Text → HttpRequest → Bool
authorised token request = same_text (presented request.authorization) token

module _ {F V : Type 0} ⦃d : Double F⦄ (number_of : String → F) (print : F → String)
    (dry_run : Bool) (venue : KillRequest → V → V × KillAnswer) (settle_coin : String)
    (token : Text) where
  -- The handler of the server, at the clock's reading.
  unfoldable pub handle_request : ℤ → HttpRequest → KillSwitch × V → (KillSwitch × V) × HttpAnswer
  unfolding panic
  handle_request now request (s, v) =
      let is_post = string_eq.beq request.method "POST" in
      let (v', steps) = panic number_of print dry_run venue settle_coin v in
      if string_eq.beq request.url "/health"
      then ((s, v), health s.armed s.last_trigger)
      else if not (authorised token request)
      then ((s, v), unauthorised)
      else if is_post && string_eq.beq request.url "/kill"
      then ((record { armed = false; last_trigger = some now }, v'), triggered now steps)
      else if is_post && string_eq.beq request.url "/rearm"
      then ((record s { armed = true }, v), rearmed)
      else ((s, v), not_found)
