-- ===== src/Server/Trades/Counts.antt =====
-- How many rows of a trade there are and how many of them are open, under each statement.
use ztrade.Prelude.{
  ℕ, suc, ◌+◌, ◌≤◌, String, ◌≡◌, refl, inl, inr, Option, none, some, List, [], ◌∷◌, ◌++◌, arith,
  if◌then◌else◌, Option-cases,
}
use ztrade.Prelude.Table.{string_eq}
use ztrade.Server.Database.{
  TradeRow, TradeBook, Closing, close_rows, changes, get_trade, close_trade, protect_rows,
  insert_trade, update_trade_protection,
}
use ztrade.Server.Trades.{announce, pushed, rounds}

module _ {F : Type 0} where
  -- The rows of an id, and those of them that are open.
  abbrev pub times : String → List (TradeRow F) → ℕ
  times id [] = 0
  times id (r ∷ rows) = if string_eq.beq r.id id then suc (times id rows) else times id rows

  pub times-append :
      (id : String) (xs ys : List (TradeRow F)) → times id (xs ++ ys) ≡ times id xs + times id ys
  times-append id [] ys = ground arith
  times-append id (x ∷ xs) ys = ground (arith, times-append id xs ys)

  pub changes-append :
      (id : String) (xs ys : List (TradeRow F))
      → changes id (xs ++ ys) ≡ changes id xs + changes id ys
  changes-append id [] ys = ground arith
  changes-append id (x ∷ xs) ys = ground (arith, changes-append id xs ys)

  pub changes_le : (id : String) (rows : List (TradeRow F)) → changes id rows ≤ times id rows
  changes_le id [] = ground arith
  changes_le id (r ∷ rows) = ground (arith, changes_le id rows)

  pub times-close_rows :
      (i id : String) (c : Closing F) (rows : List (TradeRow F))
      → times i (close_rows id c rows) ≡ times i rows
  times-close_rows i id c [] = refl
  times-close_rows i id c (r ∷ rows) = ground (arith, times-close_rows i id c rows)

  pub changes-close_rows :
      (i id : String) (c : Closing F) (rows : List (TradeRow F))
      → changes i (close_rows id c rows) ≡ (if string_eq.beq id i then 0 else changes i rows)
  changes-close_rows i id c [] = ground arith
  changes-close_rows i id c (r ∷ rows) = ground (
    arith,
    string_eq.beq_iff id i,
    string_eq.beq_iff r.id i,
    string_eq.beq_iff r.id id,
    changes-close_rows i id c rows,
  )

  pub times-protect_rows :
      (i id : String) (stop target : Option F) (rows : List (TradeRow F))
      → times i (protect_rows id stop target rows) ≡ times i rows
  times-protect_rows i id stop target [] = refl
  times-protect_rows i id stop target (r ∷ rows) =
      ground (arith, times-protect_rows i id stop target rows)

  pub changes-protect_rows :
      (i id : String) (stop target : Option F) (rows : List (TradeRow F))
      → changes i (protect_rows id stop target rows) ≡ changes i rows
  changes-protect_rows i id stop target [] = refl
  changes-protect_rows i id stop target (r ∷ rows) =
      ground (arith, changes-protect_rows i id stop target rows)

  pub get_trade-none :
      (id : String) (rows : List (TradeRow F)) → get_trade id rows ≡ none → times id rows ≡ 0
  get_trade-none id [] h = refl
  get_trade-none id (r ∷ rows) h = ground (arith, get_trade-none id rows)

  pub get_trade-id :
      (id : String) (rows : List (TradeRow F)) (r : TradeRow F)
      → get_trade id rows ≡ some r
      → r.id ≡ id
  get_trade-id id [] r h = ground arith
  get_trade-id id (x ∷ rows) r h = ground (arith, string_eq.beq_iff x.id id, get_trade-id id rows r)

  -- Every trade is open and never announced, or announced once and closed.
  abbrev pub IsCounted : TradeBook F → Type 0
  IsCounted b =
      (i : String)
      → (times i b.rows ≤ 1) × (times i b.announced + changes i b.rows ≡ times i b.rows)

  pub announce-IsCounted :
      (b : TradeBook F) (id : String) (c : Closing F)
      → IsCounted b
      → IsCounted (announce b (close_trade id c b.rows)).0
  unfolding close_trade
  announce-IsCounted b id c h i = elim (Option-cases (get_trade id (close_rows id c b.rows))) [
    | inl missing ↦ ground (
      arith,
      h i,
      changes_le id b.rows,
      times-close_rows i id c b.rows,
      times-close_rows id id c b.rows,
      changes-close_rows i id c b.rows,
      string_eq.beq_iff id i,
      get_trade-none id (close_rows id c b.rows) missing,
    )
    | inr (r, found) ↦ ground (
      arith,
      h i,
      changes_le i b.rows,
      times-close_rows i id c b.rows,
      changes-close_rows i id c b.rows,
      string_eq.beq_iff id i,
      get_trade-id id (close_rows id c b.rows) r found,
      times-append i b.announced (r ∷ []),
    )
  ]

  pub insert-IsCounted :
      (r : TradeRow F) (b after : TradeBook F)
      → r.closed_at ≡ none
      → insert_trade r b ≡ some after
      → IsCounted b
      → IsCounted after
  unfolding insert_trade
  insert-IsCounted r b after is_open made h i = ground (
    arith,
    h i,
    string_eq.beq_iff r.id i,
    get_trade-none r.id b.rows,
    times-append i b.rows (r ∷ []),
    changes-append i b.rows (r ∷ []),
  )

  pub protect-IsCounted :
      (id : String) (stop target : Option F) (b : TradeBook F)
      → IsCounted b
      → IsCounted (update_trade_protection id stop target b)
  unfolding update_trade_protection
  protect-IsCounted id stop target b h i = ground (
    arith,
    h i,
    times-protect_rows i id stop target b.rows,
    changes-protect_rows i id stop target b.rows,
  )

  pub pushed-book :
      (closed : Option (TradeRow F)) (run : TradeBook F × Option (List (TradeRow F)))
      → (pushed closed run).0 ≡ run.0
  pushed-book none run = refl
  pushed-book (some c) (b, none) = refl
  pushed-book (some c) (b, some settled) = refl

  -- What every round keeps, the loop keeps.
  pub rounds-kept :
      (P : TradeBook F → Type 0)
      (round : TradeBook F → TradeRow F → Option (TradeBook F × Option (TradeRow F)))
      → ((b after : TradeBook F) (t : TradeRow F) (closed : Option (TradeRow F))
          → round b t ≡ some (after, closed)
          → P b
          → P after)
      → (trades : List (TradeRow F)) (b : TradeBook F) → P b
      → P (rounds round trades b).0
  rounds-kept P round keep [] b h = h
  rounds-kept P round keep (t ∷ trades) b h = elim (Option-cases (round b t)) [
    | inl threw ↦ rw (threw, rounds) h
    | inr ((after, closed), went) ↦
        rw (went, rounds, pushed-book closed (rounds round trades after))
          (rounds-kept P round keep trades after (keep b after t closed went h))
  ]
