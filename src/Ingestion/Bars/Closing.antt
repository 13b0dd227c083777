-- ===== src/Ingestion/Bars/Closing.antt =====
-- A bar that has been closed is never reopened, and what is open is well formed.
use ztrade.Prelude.{
  ℕ, ◌+◌, ◌≤◌, ◌<◌, String, ◌≡◌, refl, inl, inr, true, false, Option, none, some, [], ◌∷◌, ◌++◌,
  arith, ltb, ◌==◌, Bool-cases, Option-cases,
}
use mathlib.Core.Path.{subst}
use ztrade.Prelude.Double.{Double, IsOrdered, ◌≼◌}
use ztrade.Prelude.Table.{string_eq, lookup, insert, lookup-insert}
use ztrade.Ingestion.Bars.{Bar, BarAggregator, Trade, bucket_of, start_bar, extend_bar, on_trade}

-- The bucket of a time begins at the time or before it, and less than an interval before.
bucket_bounds : (w ts : ℕ) → 0 < w → (bucket_of w ts ≤ ts) × (ts < bucket_of w ts + w)
bucket_bounds w ts h = grind arith

module _ {F : Type 0} ⦃d : Double F⦄ where
  -- How the prices of a bar stand.
  pub record IsBar (symbol : String) (bar : Bar F) : Type 0 where
    pub named : bar.symbol ≡ symbol
    pub still_open : bar.closed ≡ false
    pub traded : 0 < bar.trades
    pub high_top : (bar.opening ≼ bar.high) × (bar.close ≼ bar.high)
    pub low_bottom : (bar.low ≼ bar.opening) × (bar.low ≼ bar.close)

  abbrev OptionIsBar : String → Option (Bar F) → Type 0
  OptionIsBar symbol none = Unit
  OptionIsBar symbol (some bar) = IsBar symbol bar

  -- Every open bar is well formed.
  abbrev pub AreBars : BarAggregator F → Type 0
  AreBars agg = (symbol : String) → OptionIsBar symbol (lookup symbol agg.current)

  module _ (laws : IsOrdered F) where
    open laws use {refl_of_le, le_trans, min_le, max_le}

    start-IsBar :
        (label : String) (bucket : ℕ) (t : Trade F)
        → t.price ≼ t.price
        → IsBar t.symbol (start_bar label bucket t)
    start-IsBar label bucket t h = record {
      named = refl;
      still_open = refl;
      traded = omega arith;
      high_top = (h, h);
      low_bottom = (h, h);
    }

    extend-IsBar :
        (t : Trade F) (bar : Bar F)
        → t.price ≼ t.price
        → IsBar t.symbol bar
        → IsBar t.symbol (extend_bar t bar)
    extend-IsBar t bar h b =
        let top = max_le bar.high t.price (refl_of_le bar.opening bar.high b.high_top.0).1 h in
        let bottom = min_le bar.low t.price (refl_of_le bar.low bar.opening b.low_bottom.0).0 h in
        record {
          named = b.named;
          still_open = b.still_open;
          traded = omega arith;
          high_top = (le_trans bar.opening bar.high _ b.high_top.0 top.0, top.1);
          low_bottom = (le_trans _ bar.low bar.opening bottom.0 b.low_bottom.0, bottom.1);
        }

    insert-AreBars :
        (t : Trade F) (bar : Bar F) (agg : BarAggregator F) (symbol : String)
        → IsBar t.symbol bar
        → AreBars agg
        → OptionIsBar symbol (lookup symbol (insert t.symbol bar agg.current))
    insert-AreBars t bar agg symbol b h =
        rw (lookup-insert t.symbol symbol bar agg.current)
          (elim (Bool-cases (string_eq.beq t.symbol symbol)) [
            | inl same ↦
                rw same
                  (subst (λ name. IsBar name bar) ((string_eq.beq_iff t.symbol symbol).0 same) b)
            | inr other ↦ rw other (h symbol)
          ])

    -- Every trade at a price that is a number keeps each open bar well formed: it carries its own
    -- symbol, is open, has at least one trade, and its high is at or above its open and its close, as
    -- its low is at or below them.
    pub on_trade-AreBars :
        (t : Trade F) (agg : BarAggregator F)
        → t.price ≼ t.price
        → AreBars agg
        → AreBars (on_trade t agg)
    unfolding on_trade
    on_trade-AreBars t agg p h symbol = elim (Option-cases (lookup t.symbol agg.current)) [
      | inl first ↦
          rw first (insert-AreBars t _ agg symbol (start-IsBar agg.interval_label _ t p) h)
      | inr (bar, known) ↦
          let b : IsBar t.symbol bar = rw known at (h t.symbol) in
          let bucket = bucket_of agg.interval_ms t.ts in
          rw known (elim (Bool-cases (bar.open_time == bucket)) [
            | inl now ↦ rw now (insert-AreBars t _ agg symbol (extend-IsBar t bar p b) h)
            | inr other ↦ rw other (elim (Bool-cases (ltb bar.open_time bucket)) [
              | inl later ↦
                  rw later
                    (insert-AreBars t _ agg symbol (start-IsBar agg.interval_label bucket t p) h)
              | inr late ↦ rw late (h symbol)
            ])
          ])
    ]

  -- A symbol that has an open bar keeps one, and its bucket never moves back: an older trade leaves
  -- the whole aggregator as it is, a trade of the same bucket closes nothing, and a trade of a later
  -- one closes exactly the bar that was open and opens the later bucket.
  pub on_trade_moves_on :
      (t : Trade F) (agg : BarAggregator F) (bar : Bar F)
      → lookup t.symbol agg.current ≡ some bar
      → let bucket = bucket_of agg.interval_ms t.ts in
        (bucket < bar.open_time → on_trade t agg ≡ agg)
        × (bucket ≡ bar.open_time
            → ((on_trade t agg).emitted ≡ agg.emitted)
              × (lookup t.symbol (on_trade t agg).current ≡ some (extend_bar t bar)))
        × (bar.open_time < bucket
            → ((on_trade t agg).emitted ≡ agg.emitted ++ (record bar { closed = true } ∷ []))
              × (lookup t.symbol (on_trade t agg).current
                  ≡ some (start_bar agg.interval_label bucket t)))
  unfolding on_trade
  on_trade_moves_on t agg bar known =
      let bucket = bucket_of agg.interval_ms t.ts in
      ground (
        arith,
        string_eq.beq_iff t.symbol t.symbol,
        lookup-insert t.symbol t.symbol (extend_bar t bar) agg.current,
        lookup-insert t.symbol t.symbol (start_bar agg.interval_label bucket t) agg.current,
      )
