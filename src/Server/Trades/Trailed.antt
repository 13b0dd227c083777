-- ===== src/Server/Trades/Trailed.antt =====
-- The row of an id after a pass of the trailing stops.
use ztrade.Prelude.{
  ◌≤◌, String, ◌≡◌, refl, ap, ◌∙◌, inl, inr, Option, none, some, List, [], ◌∷◌, arith,
  if◌then◌else◌, Bool-cases, Option-cases,
}
use ztrade.Prelude.Double.{Double}
use ztrade.Prelude.Table.{Table, lookup, string_eq}
use ztrade.Server.Risk.{trailing_stop_for}
use ztrade.Server.Database.{
  TradeRow, TradeBook, get_trade, protect_rows, update_trade_protection, open_rows,
}
use ztrade.Server.Trades.{trail_rounds}
use ztrade.Server.Trades.Counts.{times, times-protect_rows}

module _ {F : Type 0} where
  -- No two rows have one id.
  abbrev pub HasKeys : List (TradeRow F) → Type 0
  HasKeys rows = (id : String) → times id rows ≤ 1

  abbrev pub protected : Option F → Option F → Option (TradeRow F) → Option (TradeRow F)
  protected stop target none = none
  protected stop target (some r) = some (record r { stop_loss = stop; take_profit = target })

  pub get-protect_rows :
      (i id : String) (stop target : Option F) (rows : List (TradeRow F))
      → get_trade i (protect_rows id stop target rows) ≡ (
          if string_eq.beq id i then protected stop target (get_trade i rows) else get_trade i rows)
  get-protect_rows i id stop target [] = ground arith
  get-protect_rows i id stop target (r ∷ rows) = ground (
    arith,
    string_eq.beq_iff id i,
    string_eq.beq_iff r.id i,
    string_eq.beq_iff r.id id,
    get-protect_rows i id stop target rows,
  )

  pub get-missing :
      (i : String) (rows : List (TradeRow F)) → times i rows ≡ 0 → get_trade i rows ≡ none
  get-missing i [] h = refl
  get-missing i (r ∷ rows) h = ground (arith, get-missing i rows)

  pub times-open_rows :
      (i : String) (rows : List (TradeRow F)) → times i (open_rows rows) ≤ times i rows
  times-open_rows i [] = ground arith
  times-open_rows i (r ∷ rows) = ground (arith, times-open_rows i rows)

  pub get-open_rows :
      (i : String) (rows : List (TradeRow F)) (t : TradeRow F)
      → times i rows ≤ 1
      → get_trade i (open_rows rows) ≡ some t
      → get_trade i rows ≡ some t
  get-open_rows i [] t h k = ground arith
  get-open_rows i (r ∷ rows) t h k =
      ground (arith, times-open_rows i rows, get-missing i (open_rows rows), get-open_rows i rows t)

module _ {F : Type 0} ⦃d : Double F⦄ where
  -- Where the trade's stop goes, if it moves.
  abbrev pub next_stop : Table String F → F → TradeRow F → Option F
  next_stop marks pct t = elim (lookup t.traded marks) [
    | none ↦ none
    | some mark ↦ trailing_stop_for t.side mark t.stop_loss pct
  ]

  abbrev pub moved_by : Option F → Option F → Option (TradeRow F) → Option (TradeRow F)
  moved_by none target row = row
  moved_by (some stop) target row = protected (some stop) target row

  abbrev pub trailed_by :
      Table String F → F → Option (TradeRow F) → Option (TradeRow F) → Option (TradeRow F)
  trailed_by marks pct none row = row
  trailed_by marks pct (some t) row = moved_by (next_stop marks pct t) t.take_profit row

  abbrev pub moved_book : Option F → TradeRow F → TradeBook F → TradeBook F
  moved_book none t b = b
  moved_book (some stop) t b = update_trade_protection t.id (some stop) t.take_profit b

  -- One round of the loop.
  pub trail_round :
      (marks : Table String F) (pct : F) (t : TradeRow F) (trades : List (TradeRow F))
      (b : TradeBook F)
      → (trail_rounds marks pct (t ∷ trades) b).0
        ≡ (trail_rounds marks pct trades (moved_book (next_stop marks pct t) t b)).0
  trail_round marks pct t trades b = elim (Option-cases (lookup t.traded marks)) [
    | inl unknown ↦ rw (unknown, trail_rounds, next_stop) refl
    | inr (mark, known) ↦ elim (Option-cases (trailing_stop_for t.side mark t.stop_loss pct)) [
      | inl stays ↦ rw (known, trail_rounds, next_stop, stays) refl
      | inr (stop, moves) ↦ rw (known, trail_rounds, next_stop, moves) refl
    ]
  ]

  pub times-moved_book :
      (stop : Option F) (t : TradeRow F) (i : String) (b : TradeBook F)
      → times i (moved_book stop t b).rows ≡ times i b.rows
  unfolding update_trade_protection
  times-moved_book none t i b = refl
  times-moved_book (some s) t i b = times-protect_rows i t.id (some s) t.take_profit b.rows

  pub get-moved_book :
      (stop : Option F) (t : TradeRow F) (i : String) (b : TradeBook F)
      → get_trade i (moved_book stop t b).rows ≡ (
          if string_eq.beq t.id i
          then moved_by stop t.take_profit (get_trade i b.rows)
          else get_trade i b.rows)
  unfolding update_trade_protection
  get-moved_book none t i b = ground arith
  get-moved_book (some s) t i b = get-protect_rows i t.id (some s) t.take_profit b.rows

  pub times-trail_rounds :
      (marks : Table String F) (pct : F) (i : String) (trades : List (TradeRow F)) (b : TradeBook F)
      → times i (trail_rounds marks pct trades b).0.rows ≡ times i b.rows
  times-trail_rounds marks pct i [] b = refl
  times-trail_rounds marks pct i (t ∷ trades) b =
      ap (λ (x : TradeBook F). times i x.rows) (trail_round marks pct t trades b)
      ∙ times-trail_rounds marks pct i trades _
      ∙ times-moved_book (next_stop marks pct t) t i b

  pub get-trail_rounds :
      (marks : Table String F) (pct : F) (i : String) (trades : List (TradeRow F)) (b : TradeBook F)
      → times i trades ≤ 1
      → get_trade i (trail_rounds marks pct trades b).0.rows
        ≡ trailed_by marks pct (get_trade i trades) (get_trade i b.rows)
  get-trail_rounds marks pct i [] b h = refl
  get-trail_rounds marks pct i (t ∷ trades) b h =
      let after = moved_book (next_stop marks pct t) t b in
      ap (λ (x : TradeBook F). get_trade i x.rows) (trail_round marks pct t trades b)
      ∙ get-trail_rounds marks pct i trades after (ground arith)
      ∙ elim (Bool-cases (string_eq.beq t.id i)) [
        | inl same ↦
            rw (same, get-missing i trades (ground arith))
              (rw same at (get-moved_book (next_stop marks pct t) t i b))
        | inr other ↦ rw other (
            ap (trailed_by marks pct (get_trade i trades))
              (rw other at (get-moved_book (next_stop marks pct t) t i b)))
      ]
