-- ===== src/Server/Trades/Ratchet.antt =====
-- What trailing does to a stop.
use ztrade.Prelude.{
  String, ◌≡◌, refl, sym, ap, ◌∙◌, inl, inr, some, List, [], ◌∷◌, arith, Bool-cases, Option-cases,
}
use mathlib.Core.Option.{some-injective, none-ne-some}
use ztrade.Prelude.Double.{Double, IsOrdered, ◌≼◌}
use ztrade.Prelude.Table.{Table, lookup, string_eq}
use ztrade.Core.Money.{long, short}
use ztrade.Server.Risk.{trailing_stop_for}
use ztrade.Server.Database.{TradeRow, TradeBook, get_trade, open_rows}
use ztrade.Server.Trades.{apply_trailing_stops}
use ztrade.Server.Trades.Trailed.{
  HasKeys, times-open_rows, get-open_rows, next_stop, trailed_by, times-trail_rounds,
  get-trail_rounds,
}

module _ {F : Type 0} ⦃d : Double F⦄ where
  -- A stop that stays, or moves the way that locks in profit, and a row that is otherwise the same.
  pub record IsTightened (r s : TradeRow F) : Type 0 where
    pub long_up :
        (x : F)
        → r.side ≡ long
        → r.stop_loss ≡ some x
        → x ≼ x
        → (y : F) × (s.stop_loss ≡ some y) × (x ≼ y)
    pub short_down :
        (x : F)
        → r.side ≡ short
        → r.stop_loss ≡ some x
        → x ≼ x
        → (y : F) × (s.stop_loss ≡ some y) × (y ≼ x)
    pub same_rest : record s { stop_loss = r.stop_loss } ≡ r

  refl-IsTightened : (r : TradeRow F) → IsTightened r r
  refl-IsTightened r = record {
    long_up = λ x side is num. (x, is, num);
    short_down = λ x side is num. (x, is, num);
    same_rest = refl;
  }

  module _ (laws : IsOrdered F) where
    open laws use {le_of_lt, le_trans, refl_of_le}

    trans-IsTightened : (r s t : TradeRow F) → IsTightened r s → IsTightened s t → IsTightened r t
    trans-IsTightened r s t h k =
        let same_side = ap (λ (u : TradeRow F). u.side) h.same_rest in
        record {
          long_up = λ x side is num.
              let (y, s_is, up) = h.long_up x side is num in
              let (z, t_is, further) = k.long_up y (same_side ∙ side) s_is (refl_of_le x y up).1 in
              (z, t_is, le_trans x y z up further);
          short_down = λ x side is num.
              let (y, s_is, down) = h.short_down x side is num in
              let (z, t_is, further) =
                k.short_down y (same_side ∙ side) s_is (refl_of_le y x down).0 in
              (z, t_is, le_trans z y x further down);
          same_rest =
              ap (λ (u : TradeRow F). record u { stop_loss = r.stop_loss }) k.same_rest
              ∙ h.same_rest;
        }

    stop-IsTightened :
        (mark pct stop : F) (t : TradeRow F)
        → trailing_stop_for t.side mark t.stop_loss pct ≡ some stop
        → IsTightened t (record t { stop_loss = some stop })
    unfolding trailing_stop_for
    stop-IsTightened mark pct stop t h = record {
      long_up = λ x side is num. (stop, refl, le_of_lt x stop (ground arith));
      short_down = λ x side is num. (stop, refl, le_of_lt stop x (ground arith));
      same_rest = refl;
    }

    next-IsTightened :
        (marks : Table String F) (pct stop : F) (t : TradeRow F)
        → next_stop marks pct t ≡ some stop
        → IsTightened t (record t { stop_loss = some stop })
    next-IsTightened marks pct stop t h = elim (Option-cases (lookup t.traded marks)) [
      | inl unknown ↦ absurd (none-ne-some stop (rw (unknown, next_stop) at h))
      | inr (mark, known) ↦ stop-IsTightened mark pct stop t (rw (known, next_stop) at h)
    ]

    -- A row after one pass.
    trailed-IsTightened :
        (marks : Table String F) (pct : F) (i : String) (b : TradeBook F) (r : TradeRow F)
        → HasKeys b.rows
        → get_trade i b.rows ≡ some r
        → (s : TradeRow F) × (trailed_by marks pct
              (get_trade i (open_rows b.rows))
              (get_trade i b.rows)
            ≡ some s)
          × IsTightened r s
    trailed-IsTightened marks pct i b r keys found =
        elim (Option-cases (get_trade i (open_rows b.rows))) [
          | inl not_open ↦ (r, rw (not_open, found) refl, refl-IsTightened r)
          | inr (t, is_open) ↦
              let same =
                some-injective _ _ (sym (get-open_rows i b.rows t (keys i) is_open) ∙ found) in
              let is_row = is_open ∙ ap some same in
              elim (Option-cases (next_stop marks pct r)) [
                | inl stays ↦ (r, rw (is_row, found, stays) refl, refl-IsTightened r)
                | inr (stop, moves) ↦ (
                  record r { stop_loss = some stop },
                  rw (is_row, found, moves) refl,
                  next-IsTightened marks pct stop r moves,
                )
              ]
        ]

    pass-IsTightened :
        (marks : Table String F) (pct : F) (i : String) (b : TradeBook F) (r : TradeRow F)
        → HasKeys b.rows
        → get_trade i b.rows ≡ some r
        → (s : TradeRow F) × (get_trade i (apply_trailing_stops marks pct b).0.rows ≡ some s)
          × IsTightened r s
    unfolding apply_trailing_stops
    pass-IsTightened marks pct i b r keys found = elim (Bool-cases (d.le pct (d.literal 0 0))) [
      | inl unset ↦ (r, rw unset found, refl-IsTightened r)
      | inr is_set ↦
          let few = times-open_rows i b.rows in
          let (s, is, tight) = trailed-IsTightened marks pct i b r keys found in
          (
            s,
            rw is_set (
                get-trail_rounds marks pct i (open_rows b.rows) b (omega (arith, few, keys i))
                ∙ is),
            tight,
          )
    ]

  pass-HasKeys :
      (marks : Table String F) (pct : F) (b : TradeBook F)
      → HasKeys b.rows
      → HasKeys (apply_trailing_stops marks pct b).0.rows
  unfolding apply_trailing_stops
  pass-HasKeys marks pct b keys i = elim (Bool-cases (d.le pct (d.literal 0 0))) [
    | inl unset ↦ rw unset (keys i)
    | inr is_set ↦ rw (is_set, times-trail_rounds marks pct i (open_rows b.rows) b) (keys i)
  ]

  -- Passes one after another, each with its marks and its percentage.
  abbrev pub trail_all : List (Table String F × F) → TradeBook F → TradeBook F
  trail_all [] b = b
  trail_all ((marks, pct) ∷ passes) b = trail_all passes (apply_trailing_stops marks pct b).0

  -- However often stops are trailed, with any marks and percentages: where no id has two rows, every
  -- row is still there, nothing of it but its stop has changed, and a stop that is a number never
  -- loosens: a long's does not go down and a short's does not go up.
  pub trailing_tightens :
      IsOrdered F
      → (passes : List (Table String F × F)) (b : TradeBook F) → HasKeys b.rows
      → (id : String) (r : TradeRow F) → get_trade id b.rows ≡ some r
      → (s : TradeRow F) × (get_trade id (trail_all passes b).rows ≡ some s) × IsTightened r s
  trailing_tightens laws [] b keys id r found = (r, found, refl-IsTightened r)
  trailing_tightens laws ((marks, pct) ∷ passes) b keys id r found =
      let (s, is, tight) = pass-IsTightened laws marks pct id b r keys found in
      let (t, at_last, further) =
        trailing_tightens laws passes (apply_trailing_stops marks pct b).0
          (pass-HasKeys marks pct b keys) id s is in
      (t, at_last, trans-IsTightened laws r s t tight further)
