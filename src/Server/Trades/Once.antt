-- ===== src/Server/Trades/Once.antt =====
-- How often a trade is settled, over any calls.
use ztrade.Prelude.{
  ℕ, ◌+◌, ◌≤◌, String, ◌≡◌, ap, inl, inr, Option, none, some, List, [], ◌∷◌, arith, Bool-cases,
  Option-cases, ◌>>=◌, bind-some,
}
use mathlib.Core.Path.{subst}
use mathlib.Core.Option.{some-injective}
use ztrade.Prelude.Double.{Double}
use ztrade.Prelude.Table.{string_eq, Table, lookup}
use ztrade.Core.Decimal.{Decimal}
use ztrade.Server.Risk.{trailing_stop_for}
use ztrade.Server.Database.{
  TradeRow, TradeBook, Closing, changes, close_trade, insert_trade, CloseReason, open_rows,
}
use ztrade.Server.Trades.{
  announce, fees_of, gross_of, closing_of, settle, reconcile_paper, reconcile_live, trail_rounds,
  apply_trailing_stops, settle_if, paper_choice, live_choice,
}
use ztrade.Server.Trades.Counts.{
  times, IsCounted, announce-IsCounted, insert-IsCounted, protect-IsCounted, rounds-kept,
}

module _ {F : Type 0} ⦃d : Double F⦄ (decimal_of : F → Option Decimal) (number_of : Decimal → F)
    (clock : TradeRow F → ℕ) where
  settle-made :
      (b after : TradeBook F) (t : TradeRow F) (exit : F) (reason : CloseReason)
      (closed : Option (TradeRow F))
      → settle decimal_of number_of clock b t exit reason ≡ some (after, closed)
      → (c : Closing F) × (announce b (close_trade t.id c b.rows) ≡ (after, closed))
  unfolding settle
  settle-made b after t exit reason closed done =
      let end : F → F → Option (TradeBook F × Option (TradeRow F)) = λ paid gross. some (
        announce b (
          close_trade t.id (closing_of decimal_of number_of clock t exit reason paid gross)
            b.rows)) in
      let (paid, _, rest) =
        bind-some (fees_of decimal_of number_of clock t exit)
          (λ paid. gross_of decimal_of number_of clock t exit >>= end paid) _ done in
      let (gross, _, made) =
        bind-some (gross_of decimal_of number_of clock t exit) (end paid) _ rest in
      (closing_of decimal_of number_of clock t exit reason paid gross, some-injective _ _ made)

  settle-IsCounted :
      (b after : TradeBook F) (t : TradeRow F) (exit : F) (reason : CloseReason)
      (closed : Option (TradeRow F))
      → settle decimal_of number_of clock b t exit reason ≡ some (after, closed)
      → IsCounted b
      → IsCounted after
  settle-IsCounted b after t exit reason closed done h =
      let (c, made) = settle-made b after t exit reason closed done in
      subst IsCounted (ap (λ x. x.0) made) (announce-IsCounted b t.id c h)

  -- The calls that change the rows, in any order: positions are opened, a trade that was read at any
  -- time is settled by anyone, stops are moved, and the loops run.
  pub data IsBook : TradeBook F → Type 0 where
    fresh : IsBook (record { rows = []; announced = [] })
    opened :
        (r : TradeRow F) (b after : TradeBook F)
        → r.closed_at ≡ none
        → insert_trade r b ≡ some after
        → IsBook b
        → IsBook after
    settled :
        (t : TradeRow F) (exit : F) (reason : CloseReason) (b after : TradeBook F)
        (closed : Option (TradeRow F))
        → settle decimal_of number_of clock b t exit reason ≡ some (after, closed)
        → IsBook b
        → IsBook after
    papered :
        (marks : Table String F) (b : TradeBook F)
        → IsBook b
        → IsBook (reconcile_paper decimal_of number_of clock marks b).0
    mirrored :
        (positions : List String) (price_for : String → Option F) (b : TradeBook F)
        → IsBook b
        → IsBook (reconcile_live decimal_of number_of clock positions price_for b).0
    trailed :
        (marks : Table String F) (pct : F) (b : TradeBook F)
        → IsBook b
        → IsBook (apply_trailing_stops marks pct b).0

  settle_if-IsCounted :
      (choice : TradeRow F → Option (F × CloseReason)) (b after : TradeBook F) (t : TradeRow F)
      (closed : Option (TradeRow F))
      → settle_if decimal_of number_of clock choice b t ≡ some (after, closed)
      → IsCounted b
      → IsCounted after
  settle_if-IsCounted choice b after t closed went h = elim (Option-cases (choice t)) [
    | inl passed ↦
        subst IsCounted (ap (λ x. x.0) (some-injective _ _ (rw (passed, settle_if) at went))) h
    | inr ((price, reason), chosen) ↦
        settle-IsCounted b after t price reason closed (rw (chosen, settle_if) at went) h
  ]

  trail-IsCounted :
      (marks : Table String F) (pct : F) (trades : List (TradeRow F)) (b : TradeBook F)
      → IsCounted b
      → IsCounted (trail_rounds marks pct trades b).0
  trail-IsCounted marks pct [] b h = h
  trail-IsCounted marks pct (t ∷ trades) b h =
      let skipped = trail-IsCounted marks pct trades b h in
      elim (Option-cases (lookup t.traded marks)) [
        | inl unknown ↦ rw (unknown, trail_rounds) skipped
        | inr (mark, known) ↦ elim (Option-cases (trailing_stop_for t.side mark t.stop_loss pct)) [
          | inl stays ↦ rw (known, trail_rounds, stays) skipped
          | inr (stop, moves) ↦
              rw (known, trail_rounds, moves)
                (trail-IsCounted marks pct trades _
                  (protect-IsCounted t.id (some stop) t.take_profit b h))
        ]
      ]

  book-IsCounted : (b : TradeBook F) → IsBook b → IsCounted b
  unfolding reconcile_paper reconcile_live apply_trailing_stops
  book-IsCounted b (fresh) = λ i. ground arith
  book-IsCounted b (opened r before after is_open made h) =
      insert-IsCounted r before after is_open made (book-IsCounted before h)
  book-IsCounted b (settled t exit reason before after closed done h) =
      settle-IsCounted before after t exit reason closed done (book-IsCounted before h)
  book-IsCounted b (papered marks before h) =
      rounds-kept IsCounted _ (settle_if-IsCounted (paper_choice marks)) (open_rows before.rows)
        before (book-IsCounted before h)
  book-IsCounted b (mirrored positions price_for before h) =
      rounds-kept IsCounted _ (settle_if-IsCounted (live_choice positions price_for))
        (open_rows before.rows) before (book-IsCounted before h)
  book-IsCounted b (trailed marks pct before h) = elim (Bool-cases (d.le pct (d.literal 0 0))) [
    | inl unset ↦ rw unset (book-IsCounted before h)
    | inr is_set ↦
        rw is_set
          (trail-IsCounted marks pct (open_rows before.rows) before (book-IsCounted before h))
  ]

  -- However open trades are inserted, settled, reconciled and trailed, in whatever order, also with
  -- trades that were read earlier: no id has two rows, and a row is either open and its trade never
  -- announced as settled, or closed and its trade announced exactly once. So two settlements of one
  -- trade never count its result twice.
  pub settled_once :
      (b : TradeBook F)
      → IsBook b
      → (id : String)
      → (times id b.rows ≤ 1) × (times id b.announced + changes id b.rows ≡ times id b.rows)
  settled_once b h id = book-IsCounted b h id
