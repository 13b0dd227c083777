-- ===== src/Tests/Panic.antt =====
-- The kill switch on a venue that answers the list and throws at every order.
use ztrade.Prelude.{
  ℕ, ◌+◌, String, ◌≡◌, refl, true, false, none, some, List, [], ◌∷◌, if◌then◌else◌, codes,
}
use ztrade.Prelude.Int.{pos}
use ztrade.Prelude.Text.{Text}
use ztrade.Prelude.Table.{string_eq}
use ztrade.Prelude.Double.{Units, whole_units}
use ztrade.Execution.KillSwitch.{
  OpenPosition, KillRequest, cancel_everything, list_positions, KillAnswer, threw, answered, panic,
  HttpRequest, new_switch, handle_request,
}
use ztrade.Execution.KillSwitch.Flatten.{recorded, closings, panic_flattens, kill_needs_token}

abbrev number_of : String → Units
number_of text =
    if string_eq.beq text "2"
    then some (pos 2)
    else if string_eq.beq text "0"
    then some (pos 0)
    else none

abbrev print : Units → String
print x = "2"

abbrev positions : List OpenPosition
positions =
    record { symbol = "BTC"; side = "Buy"; size_text = "2" }
    ∷ record { symbol = "ETH"; side = "Buy"; size_text = "0" }
    ∷ record { symbol = "SOL"; side = "Sell"; size_text = "2" }
    ∷ []

-- The state counts the requests.
abbrev venue : KillRequest → ℕ → ℕ × KillAnswer
venue (list_positions coin) n = (n + 1, answered (some positions))
venue _ n = (n + 1, threw)

panic_flattens_example :
    ((panic number_of print false (recorded venue) "USDT" ([], 0)).0.0
      ≡ cancel_everything "USDT" ∷ list_positions "USDT" ∷ closings number_of print positions)
    × ((panic number_of print true venue "USDT" 0).0 ≡ 0)
panic_flattens_example = panic_flattens number_of print venue "USDT" 0

-- Two of the three are closed.
two_closed : (panic number_of print false venue "USDT" 0).0 ≡ 4
unfolding panic
two_closed = refl

abbrev token : Text
token = codes "secret"

abbrev request : HttpRequest
request = record { method = "POST"; url = "/kill"; authorization = codes "Bearer secret" }

kill_needs_token_example :
    let after =
      (handle_request number_of print false venue "USDT" token (pos 9) request (new_switch, 0)).0 in
    (after.1 ≡ (panic number_of print false venue "USDT" 0).0)
    × (after.0.last_trigger ≡ some (pos 9))
kill_needs_token_example =
    kill_needs_token number_of print venue false "USDT" token (pos 9) request new_switch 0
