-- ===== src/Server/Trades.antt =====
-- apps/server/src/engine/reconciler.ts over the trade rows. A throw leaves what was written before it.
-- `clock` gives the time that is read when a trade is settled, `decimal_of` and `number_of` convert
-- between doubles and decimals (`none` is a throw).
pub mod Counts
pub mod Once
pub mod Paper
pub mod Trailed
pub mod Ratchet
use ztrade.Prelude.{
  ◌>>=◌, ℕ, String, Bool, true, false, Option, none, some, List, [], ◌∷◌, ◌++◌, if◌then◌else◌,
}
use ztrade.Prelude.Double.{Double}
use ztrade.Prelude.Table.{Table, lookup, string_eq}
use ztrade.Core.Decimal.{Decimal}
use ztrade.Core.Money.{gross_pnl, round_trip_fees, PositionSide, long, short}
use ztrade.Server.Risk.{trailing_stop_for}
use ztrade.Server.Database.{
  CloseReason, Closing, TradeBook, TradeRow, close_trade, on_exchange, open_rows, stop_loss_hit,
  take_profit_hit, update_trade_protection,
}

abbrev has_position : String → List String → Bool
has_position s [] = false
has_position s (p ∷ positions) = if string_eq.beq p s then true else has_position s positions

module _ {F : Type 0} where
  -- A settlement that closed a row announces it.
  abbrev pub announce :
      TradeBook F → List (TradeRow F) × Option (TradeRow F) → TradeBook F × Option (TradeRow F)
  announce b (rows, none) = (record b { rows = rows }, none)
  announce b (rows, some closed) =
      (record { rows = rows; announced = b.announced ++ closed ∷ [] }, some closed)

  abbrev pub pushed :
      Option (TradeRow F)
      → TradeBook F × Option (List (TradeRow F))
      → TradeBook F × Option (List (TradeRow F))
  pushed (some closed) (b, some settled) = (b, some (closed ∷ settled))
  pushed _ run = run

  -- The rounds over the open trades: the book, and what was settled unless a round threw.
  abbrev pub rounds :
      (TradeBook F → TradeRow F → Option (TradeBook F × Option (TradeRow F)))
      → List (TradeRow F)
      → TradeBook F
      → TradeBook F × Option (List (TradeRow F))
  rounds round [] b = (b, some [])
  rounds round (t ∷ trades) b = elim (round b t) [
    | none ↦ (b, none)
    | some (after, closed) ↦ pushed closed (rounds round trades after)
  ]

module _ {F : Type 0} ⦃d : Double F⦄ where
  abbrev hits : Option F → (F → Bool) → Bool
  hits none test = false
  hits (some level) test = test level

  abbrev exit_at_level :
      Option F → (F → Bool) → CloseReason → Option (F × CloseReason) → Option (F × CloseReason)
  exit_at_level none test reason otherwise = otherwise
  exit_at_level (some level) test reason otherwise =
      if test level then some (level, reason) else otherwise

  unfoldable pub exit_for : PositionSide → Option F → Option F → F → Option (F × CloseReason)
  exit_for long stop target mark =
      exit_at_level stop (λ level. d.le mark level) stop_loss_hit
        (exit_at_level target (λ level. d.le level mark) take_profit_hit none)
  exit_for short stop target mark =
      exit_at_level stop (λ level. d.le level mark) stop_loss_hit
        (exit_at_level target (λ level. d.le mark level) take_profit_hit none)

  -- Why a position that is gone was closed: `inferred?.reason ?? "EXCHANGE"`.
  abbrev inferred_reason : Option (F × CloseReason) → CloseReason
  inferred_reason none = on_exchange
  inferred_reason (some (_, reason)) = reason

  -- At which price and why a round of the loops settles a trade, if it does.
  abbrev pub paper_choice : Table String F → TradeRow F → Option (F × CloseReason)
  paper_choice marks t =
      if t.paper
      then elim (lookup t.traded marks) [
        | none ↦ none
        | some mark ↦ exit_for t.side t.stop_loss t.take_profit mark
      ]
      else none

  abbrev pub live_choice : List String → (String → Option F) → TradeRow F → Option (F × CloseReason)
  live_choice positions price_for t =
      if t.paper
      then none
      else if has_position t.traded positions
      then none
      else elim (price_for t.traded) [
        | none ↦ none
        | some price ↦
            some (price, inferred_reason (exit_for t.side t.stop_loss t.take_profit price))
      ]

  module _ (decimal_of : F → Option Decimal) (number_of : Decimal → F)
      (clock : TradeRow F → ℕ) where
    -- The server's `grossPnl` and `roundTripFees`, at the taker's rate 0.00055.
    abbrev pub gross_of : TradeRow F → F → Option F
    gross_of t exit = do
      x ← decimal_of exit
      e ← decimal_of t.entry_at
      q ← decimal_of t.size
      some (number_of (gross_pnl t.side q e x))

    abbrev pub fees_of : TradeRow F → F → Option F
    fees_of t exit = do
      q ← decimal_of t.size
      e ← decimal_of t.entry_at
      x ← decimal_of exit
      rate ← decimal_of (d.literal 55 5)
      some (number_of (round_trip_fees q e x rate))

    abbrev pub closing_of : TradeRow F → F → CloseReason → F → F → Closing F
    closing_of t exit reason paid gross = record {
      at = clock t;
      exit_price = exit;
      earned = d.sub gross paid;
      paid = paid;
      reason = reason;
    }

    unfoldable pub settle :
        TradeBook F → TradeRow F → F → CloseReason → Option (TradeBook F × Option (TradeRow F))
    settle b t exit reason = do
      paid ← fees_of t exit
      gross ← gross_of t exit
      some (announce b (close_trade t.id (closing_of t exit reason paid gross) b.rows))

    abbrev pub settle_if :
        (TradeRow F → Option (F × CloseReason))
        → TradeBook F
        → TradeRow F
        → Option (TradeBook F × Option (TradeRow F))
    settle_if choice b t = elim (choice t) [
      | none ↦ some (b, none)
      | some (price, reason) ↦ settle b t price reason
    ]

    unfoldable pub reconcile_paper :
        Table String F → TradeBook F → TradeBook F × Option (List (TradeRow F))
    reconcile_paper marks b = rounds (settle_if (paper_choice marks)) (open_rows b.rows) b

    unfoldable pub reconcile_live :
        List String → (String → Option F) → TradeBook F → TradeBook F × Option (List (TradeRow F))
    reconcile_live positions price_for b =
        rounds (settle_if (live_choice positions price_for)) (open_rows b.rows) b

  abbrev pub trail_rounds :
      Table String F → F → List (TradeRow F) → TradeBook F → TradeBook F × List (TradeRow F × F)
  trail_rounds marks pct [] b = (b, [])
  trail_rounds marks pct (t ∷ trades) b = elim (lookup t.traded marks) [
    | none ↦ trail_rounds marks pct trades b
    | some mark ↦ elim (trailing_stop_for t.side mark t.stop_loss pct) [
      | none ↦ trail_rounds marks pct trades b
      | some stop ↦
          let (after, moved) =
            trail_rounds marks pct trades
              (update_trade_protection t.id (some stop) t.take_profit b) in
          (after, (record t { stop_loss = some stop }, stop) ∷ moved)
    ]
  ]

  unfoldable pub apply_trailing_stops :
      Table String F → F → TradeBook F → TradeBook F × List (TradeRow F × F)
  apply_trailing_stops marks pct b =
      if d.le pct (d.literal 0 0) then (b, []) else trail_rounds marks pct (open_rows b.rows) b
