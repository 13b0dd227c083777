-- ===== src/Server/Database.antt =====
-- apps/server/src/db.ts: the trade rows, and the statements on them that the engine's reconciler uses.
-- A book is the rows with what settlements have announced on the bus.
use ztrade.Prelude.{
  ℕ, suc, String, Bool, true, false, ◌&&◌, Option, none, some, List, [], ◌∷◌, ◌++◌, ◌==◌,
  if◌then◌else◌,
}
use ztrade.Prelude.Table.{string_eq}
use ztrade.Core.Money.{PositionSide}

pub data TradeStatus : Type 0 where
  filled_trade open_trade cancelled_trade rejected_trade : TradeStatus

pub data CloseReason : Type 0 where
  stop_loss_hit take_profit_hit trailing_stop_hit by_signal by_hand by_emergency on_exchange :
      CloseReason

pub record TradeRow (F : Type 0) : Type 0 where
  pub id : String
  pub opened_at : ℕ
  pub closed_at : Option ℕ
  pub traded : String
  pub side : PositionSide
  pub size : F
  pub entry_at : F
  pub exit_at : Option F
  pub pnl : F
  pub fees : F
  pub status : TradeStatus
  pub close_reason : Option CloseReason
  pub strategy_id : Option String
  pub exchange_order_id : Option String
  pub stop_loss : Option F
  pub take_profit : Option F
  pub paper : Bool

pub record TradeBook (F : Type 0) : Type 0 where
  pub rows : List (TradeRow F)
  pub announced : List (TradeRow F)

pub record Closing (F : Type 0) : Type 0 where
  pub at : ℕ
  pub exit_price : F
  pub earned : F
  pub paid : F
  pub reason : CloseReason

abbrev is_open_status : TradeStatus → Bool
is_open_status open_trade = true
is_open_status _ = false

-- `closed_at IS NULL`
abbrev pub not_closed : Option ℕ → Bool
not_closed none = true
not_closed (some _) = false

module _ {F : Type 0} where
  -- `WHERE id = @id AND closed_at IS NULL`
  abbrev pub closable : String → TradeRow F → Bool
  closable id r = string_eq.beq r.id id && not_closed r.closed_at

  abbrev pub closed_row : Closing F → TradeRow F → TradeRow F
  closed_row c r = record r {
    closed_at = some c.at;
    exit_at = some c.exit_price;
    pnl = c.earned;
    fees = c.paid;
    close_reason = some c.reason;
    status = filled_trade;
  }

  abbrev pub close_rows : String → Closing F → List (TradeRow F) → List (TradeRow F)
  close_rows id c [] = []
  close_rows id c (r ∷ rows) = (if closable id r then closed_row c r else r) ∷ close_rows id c rows

  -- `result.changes` of the update.
  abbrev pub changes : String → List (TradeRow F) → ℕ
  changes id [] = 0
  changes id (r ∷ rows) = if closable id r then suc (changes id rows) else changes id rows

  abbrev pub get_trade : String → List (TradeRow F) → Option (TradeRow F)
  get_trade id [] = none
  get_trade id (r ∷ rows) = if string_eq.beq r.id id then some r else get_trade id rows

  unfoldable pub close_trade :
      String → Closing F → List (TradeRow F) → List (TradeRow F) × Option (TradeRow F)
  close_trade id c rows =
      let after = close_rows id c rows in
      if changes id rows == 0 then (after, none) else (after, get_trade id after)

  abbrev pub protect_rows : String → Option F → Option F → List (TradeRow F) → List (TradeRow F)
  protect_rows id stop target [] = []
  protect_rows id stop target (r ∷ rows) =
      (if string_eq.beq r.id id then record r { stop_loss = stop; take_profit = target } else r)
      ∷ protect_rows id stop target rows

  unfoldable pub update_trade_protection : String → Option F → Option F → TradeBook F → TradeBook F
  update_trade_protection id stop target b = record b { rows = protect_rows id stop target b.rows }

  abbrev pub open_rows : List (TradeRow F) → List (TradeRow F)
  open_rows [] = []
  open_rows (r ∷ rows) =
      if not_closed r.closed_at && is_open_status r.status
      then r ∷ open_rows rows
      else open_rows rows

  -- `id` is the primary key: a second row of an id is refused.
  unfoldable pub insert_trade : TradeRow F → TradeBook F → Option (TradeBook F)
  insert_trade r b = elim (get_trade r.id b.rows) [
    | none ↦ some (record b { rows = b.rows ++ r ∷ [] })
    | some _ ↦ none
  ]
