-- ===== src/Server/Trades/Paper.antt =====
-- Which paper trades a pass settles.
use ztrade.Prelude.{
  ℕ, String, ◌≡◌, refl, sym, ap, ◌∙◌, inl, inr, Bool, true, false, ◌&&◌, ◌||◌, Option, none, some,
  List, [], ◌∷◌, arith, if◌then◌else◌, Option-cases, All, ◌>>=◌,
}
use ztrade.Prelude.Double.{Double}
use ztrade.Prelude.Table.{Table, lookup, string_eq}
use ztrade.Core.Decimal.{Decimal}
use ztrade.Core.Money.{PositionSide, long, short}
use ztrade.Server.Database.{
  TradeRow, TradeBook, CloseReason, get_trade, Closing, close_rows, changes, close_trade, open_rows,
}
use ztrade.Server.Trades.{
  announce, pushed, rounds, exit_for, settle, fees_of, gross_of, closing_of, settle_if,
  paper_choice, reconcile_paper,
}
use ztrade.Server.Trades.Counts.{changes-close_rows, pushed-book}

abbrev pub is_some : {A : Type 0} → Option A → Bool
is_some none = false
is_some (some _) = true

of_is_some : {A : Type 0} (o : Option A) → is_some o ≡ true → (x : A) × (o ≡ some x)
of_is_some none h = absurd (ground arith)
of_is_some (some x) h = (x, refl)

pushed-returns :
    {F : Type 0} (closed : Option (TradeRow F)) (run : TradeBook F × Option (List (TradeRow F)))
    → is_some (pushed closed run).1 ≡ is_some run.1
pushed-returns none run = refl
pushed-returns (some c) (b, none) = refl
pushed-returns (some c) (b, some settled) = refl

changes-announce :
    {F : Type 0} (b : TradeBook F) (closed : String) (c : Closing F) (id : String)
    → changes id (announce b (close_trade closed c b.rows)).0.rows
      ≡ (if string_eq.beq closed id then 0 else changes id b.rows)
unfolding close_trade
changes-announce b closed c id = ground (
  arith,
  changes-close_rows id closed c b.rows,
  Option-cases (get_trade closed (close_rows closed c b.rows)),
)

module _ {F : Type 0} ⦃d : Double F⦄ where
  abbrev at_or_below : F → Option F → Bool
  at_or_below x none = false
  at_or_below x (some level) = d.le x level

  abbrev at_or_above : F → Option F → Bool
  at_or_above x none = false
  at_or_above x (some level) = d.le level x

  -- The mark has reached the stop or the target.
  abbrev pub is_hit : PositionSide → Option F → Option F → F → Bool
  is_hit long stop target mark = at_or_below mark stop || at_or_above mark target
  is_hit short stop target mark = at_or_above mark stop || at_or_below mark target

  -- A paper trade whose symbol has a mark that hits one of its levels.
  abbrev pub is_due : Table String F → TradeRow F → Bool
  is_due marks t = t.paper && elim (lookup t.traded marks) [
    | none ↦ false
    | some mark ↦ is_hit t.side t.stop_loss t.take_profit mark
  ]

  abbrev pub due_among : Table String F → String → List (TradeRow F) → Bool
  due_among marks id [] = false
  due_among marks id (t ∷ trades) =
      (is_due marks t && string_eq.beq t.id id) || due_among marks id trades

  module _ (decimal_of : F → Option Decimal) (number_of : Decimal → F)
      (clock : TradeRow F → ℕ) where
    abbrev level_reads : Option F → Bool
    level_reads none = true
    level_reads (some level) = is_some (decimal_of level)

    -- The numbers of a trade that a settlement converts have decimals.
    pub record Reads (t : TradeRow F) : Type 0 where
      pub size_reads : is_some (decimal_of t.size) ≡ true
      pub entry_reads : is_some (decimal_of t.entry_at) ≡ true
      pub stop_reads : level_reads t.stop_loss ≡ true
      pub target_reads : level_reads t.take_profit ≡ true

    -- A trade is due where a choice is made, and then at one of its levels.
    paper_choice-due :
        (marks : Table String F) (t : TradeRow F) → is_some (paper_choice marks t) ≡ is_due marks t
    unfolding exit_for
    paper_choice-due marks t = ground (arith, Option-cases (lookup t.traded marks))

    paper_choice_level :
        (marks : Table String F) (t : TradeRow F) (price : F) (reason : CloseReason)
        → Reads t
        → paper_choice marks t ≡ some (price, reason)
        → is_some (decimal_of price) ≡ true
    unfolding exit_for
    paper_choice_level marks t price reason r h =
        ground (arith, Option-cases (lookup t.traded marks))

    fees_of-returns :
        (t : TradeRow F) (exit : F)
        → is_some (decimal_of (d.literal 55 5)) ≡ true
        → Reads t
        → is_some (decimal_of exit) ≡ true
        → is_some (fees_of decimal_of number_of clock t exit) ≡ true
    fees_of-returns t exit rate r reads =
        let (q, q_is) = of_is_some _ r.size_reads in
        let (e, e_is) = of_is_some _ r.entry_reads in
        let (x, x_is) = of_is_some _ reads in
        let (f, f_is) = of_is_some _ rate in rw (fees_of, q_is, e_is, x_is, f_is) refl

    gross_of-returns :
        (t : TradeRow F) (exit : F)
        → Reads t
        → is_some (decimal_of exit) ≡ true
        → is_some (gross_of decimal_of number_of clock t exit) ≡ true
    gross_of-returns t exit r reads =
        let (q, q_is) = of_is_some _ r.size_reads in
        let (e, e_is) = of_is_some _ r.entry_reads in
        let (x, x_is) = of_is_some _ reads in rw (gross_of, x_is, e_is, q_is) refl

    settle-returns :
        (b : TradeBook F) (t : TradeRow F) (exit : F) (reason : CloseReason)
        → is_some (decimal_of (d.literal 55 5)) ≡ true
        → Reads t
        → is_some (decimal_of exit) ≡ true
        → (c : Closing F) × (settle decimal_of number_of clock b t exit reason
            ≡ some (announce b (close_trade t.id c b.rows)))
    unfolding settle
    settle-returns b t exit reason rate r reads =
        let (paid, fees) = of_is_some _ (fees_of-returns t exit rate r reads) in
        let (gross, profit) = of_is_some _ (gross_of-returns t exit r reads) in
        let end : F → F → Option (TradeBook F × Option (TradeRow F)) = λ p g. some (
          announce b
            (close_trade t.id (closing_of decimal_of number_of clock t exit reason p g) b.rows)) in
        (
          closing_of decimal_of number_of clock t exit reason paid gross,
          ap (λ (o : Option F). o >>= λ p. gross_of decimal_of number_of clock t exit >>= end p)
                fees
              ∙ ap (λ (o : Option F). o >>= end paid) profit,
        )

    -- One round: it returns, and closes the rows of the trade exactly if it is due.
    settle_if-returns :
        (marks : Table String F) (b : TradeBook F) (t : TradeRow F)
        → is_some (decimal_of (d.literal 55 5)) ≡ true
        → Reads t
        → (after : TradeBook F) × (closed : Option (TradeRow F)) × (settle_if decimal_of number_of
              clock
              (paper_choice marks)
              b
              t
            ≡ some (after, closed))
          × ((id : String)
              → changes id after.rows
                ≡ (if is_due marks t && string_eq.beq t.id id then 0 else changes id b.rows))
    settle_if-returns marks b t rate r = elim (Option-cases (paper_choice marks t)) [
      | inl passed ↦ (
        b,
        none,
        rw (passed, settle_if) refl,
        λ id. rw (sym (paper_choice-due marks t), passed) refl,
      )
      | inr ((price, reason), chosen) ↦
          let (c, done) =
            settle-returns b t price reason rate r
              (paper_choice_level marks t price reason r chosen) in
          (
            (announce b (close_trade t.id c b.rows)).0,
            (announce b (close_trade t.id c b.rows)).1,
            rw (chosen, settle_if, done) refl,
            λ id. rw (sym (paper_choice-due marks t), chosen) (changes-announce b t.id c id),
          )
    ]

    rounds-settles :
        (marks : Table String F)
        → is_some (decimal_of (d.literal 55 5)) ≡ true
        → (trades : List (TradeRow F)) (b : TradeBook F) → All Reads trades
        → (is_some (rounds (settle_if decimal_of number_of clock (paper_choice marks)) trades b).1
            ≡ true)
          × ((id : String)
              → changes id
                  (rounds
                    (settle_if decimal_of number_of clock (paper_choice marks))
                    trades
                    b).0.rows
                ≡ (if due_among marks id trades then 0 else changes id b.rows))
    rounds-settles marks rate [] b r = (refl, λ id. refl)
    rounds-settles marks rate (t ∷ trades) b r =
        let (after, closed, went, one) = settle_if-returns marks b t rate r.0 in
        let (returns, rest) = rounds-settles marks rate trades after r.1 in
        rw
          (
            went,
            rounds,
            pushed-book closed
                (rounds (settle_if decimal_of number_of clock (paper_choice marks)) trades after),
          )
          (
            rw
                (pushed-returns closed
                  (rounds (settle_if decimal_of number_of clock (paper_choice marks)) trades after))
                returns,
            λ id. ground (arith, one id, rest id),
          )

    -- Where the numbers of the open trades have decimals, as the fee rate has, a paper pass does not
    -- throw, and it closes exactly the open paper trades whose mark has reached the stop or the target:
    -- afterwards the open rows of an id are gone if a trade of that id was due, and otherwise they are
    -- as many as before.
    pub reconcile_paper-settles :
        (marks : Table String F) (b : TradeBook F)
        → is_some (decimal_of (d.literal 55 5)) ≡ true
        → All Reads (open_rows b.rows)
        → (is_some (reconcile_paper decimal_of number_of clock marks b).1 ≡ true)
          × ((id : String)
              → changes id (reconcile_paper decimal_of number_of clock marks b).0.rows
                ≡ (if due_among marks id (open_rows b.rows) then 0 else changes id b.rows))
    unfolding reconcile_paper
    reconcile_paper-settles marks b rate r = rounds-settles marks rate (open_rows b.rows) b r
