-- ===== src/Ingestion/Feed/Fresh.antt =====
-- Which books the feed hands on.
use ztrade.Prelude.{
  ◌+◌, String, ◌≡◌, refl, ◌∙◌, inl, inr, Bool, true, false, ◌||◌, Option, none, some, List, [], ◌∷◌,
  arith, Bool-cases, Option-cases, All,
}
use mathlib.Core.Path.{subst}
use mathlib.Core.Option.{some-injective}
use ztrade.Prelude.Int.{ℤ}
use ztrade.Prelude.Table.{Table, string_eq, lookup, insert}
use ztrade.Ingestion.OrderBook.{
  OrderBook, BookUpdate, new_book, apply, apply_snapshot, apply_delta, apply_in_order, validate,
  invalidate, snapshot,
}
use ztrade.Ingestion.OrderBook.Served.{IsTradable, sound-IsTradable}
use ztrade.Ingestion.OrderBook.Sound.{IsSound, apply-IsSound, invalidate-IsSound, new_book-IsSound}
use ztrade.Ingestion.Feed.{
  FeedMessage, no_json, control, book_message, other_data, Emitted, book_event, data_event, Feed,
  new_books, new_feed, invalidate_each, emit_each, emit_book, after_apply, handle_book,
  read_message, handle_feed_message, start_feed, stop_feed, feed_closed, feed_timer, FeedEvent,
  feed_started, feed_stopped, feed_connected, socket_closed, timer_fired, message_came,
  socket_failed, feed_step, feed_run,
}

-- A sound book of depth 50.
abbrev IsKept : OrderBook → Type 0
IsKept book = IsSound book × (book.depth ≡ 50)

abbrev AllKept : Table String OrderBook → Type 0
AllKept books = All (λ (entry : String × OrderBook). IsKept entry.1) books

abbrev pub IsServed : {E : Type 0} → Emitted E → Type 0
IsServed (book_event symbol book ts seq) = IsTradable 50 book
IsServed (data_event event) = Unit

lookup-AllKept :
    (s : String) (books : Table String OrderBook) (book : OrderBook)
    → AllKept books
    → lookup s books ≡ some book
    → IsKept book
lookup-AllKept s [] book h e = absurd (ground arith)
lookup-AllKept s ((k, b) ∷ books) book h e = elim (Bool-cases (string_eq.beq k s)) [
  | inl here ↦ subst IsKept (some-injective _ _ (rw here at e)) h.0
  | inr there ↦ lookup-AllKept s books book h.1 (rw there at e)
]

insert-AllKept :
    (s : String) (book : OrderBook) (books : Table String OrderBook)
    → IsKept book
    → AllKept books
    → AllKept (insert s book books)
insert-AllKept s book [] h k = (h, tt)
insert-AllKept s book ((j, b) ∷ books) h k = elim (Bool-cases (string_eq.beq j s)) [
  | inl here ↦ simp here (h, k.1)
  | inr there ↦ simp there (k.0, insert-AllKept s book books h k.1)
]

new_book-depth : (s : String) → (new_book s 50).depth ≡ 50
unfolding new_book
new_book-depth s = refl

new_books-AllKept :
    (symbols : List String) (books : Table String OrderBook)
    → AllKept books
    → AllKept (new_books symbols books)
new_books-AllKept [] books h = h
new_books-AllKept (s ∷ symbols) books h =
    new_books-AllKept symbols (insert s (new_book s 50) books)
      (insert-AllKept s (new_book s 50) books (new_book-IsSound s 50, new_book-depth s) h)

invalidate-depth :
    (reason : String) (book : OrderBook) → (invalidate reason book).depth ≡ book.depth
unfolding invalidate
invalidate-depth reason book = ground arith

invalidate_each-AllKept :
    (reason : String) (books : Table String OrderBook)
    → AllKept books
    → AllKept (invalidate_each reason books)
invalidate_each-AllKept reason [] h = tt
invalidate_each-AllKept reason ((s, book) ∷ books) h = (
  (invalidate-IsSound reason book h.0.0, invalidate-depth reason book ∙ h.0.1),
  invalidate_each-AllKept reason books h.1,
)

module _ {Raw : Type 0} (number : Raw → Option ℤ) where
  apply-depth :
      (update : BookUpdate Raw) (book : OrderBook) → (apply number update book).0.depth ≡ book.depth
  unfolding apply apply_snapshot apply_delta apply_in_order validate
  apply-depth update book = ground arith

module _ {E : Type 0} where
  record IsFed (f : Feed E) : Type 0 where
    kept : AllKept f.books
    served : All IsServed f.emitted

  -- The books and what was handed on are the same.
  aside-IsFed : (f g : Feed E) → g.books ≡ f.books → g.emitted ≡ f.emitted → IsFed f → IsFed g
  aside-IsFed f g same_books same_emitted h = record {
    kept = rw same_books h.kept;
    served = rw same_emitted h.served;
  }

  emit_each-IsServed :
      (events : List E) (emitted : List (Emitted E))
      → All IsServed emitted
      → All IsServed (emit_each events emitted)
  emit_each-IsServed [] emitted h = h
  emit_each-IsServed (event ∷ events) emitted h =
      emit_each-IsServed events (data_event event ∷ emitted) (tt, h)

  emit_book-IsFed :
      (symbol : String) (ts : ℤ) (book : OrderBook) (f : Feed E)
      → IsKept book
      → IsFed f
      → IsFed (emit_book symbol ts (snapshot book) f)
  emit_book-IsFed symbol ts book f k h = elim (Option-cases (snapshot book)) [
    | inl nothing ↦ rw nothing h
    | inr (served, e) ↦ rw e (record {
      kept = h.kept;
      served = (
        subst (λ depth. IsTradable depth served) k.1 (sound-IsTradable book served k.0 e),
        h.served,
      );
    })
  ]

  after_apply-IsFed :
      (symbol : String) (ts : ℤ) (book : OrderBook) (gap : Option (ℤ × ℤ)) (applied : Bool)
      (f : Feed E)
      → IsKept book
      → IsFed f
      → IsFed (after_apply symbol ts book gap applied f)
  after_apply-IsFed symbol ts book (some gap) applied f k h =
      aside-IsFed f _ (ground arith) (ground arith) h
  after_apply-IsFed symbol ts book none true f k h = emit_book-IsFed symbol ts book f k h
  after_apply-IsFed symbol ts book none false f k h = h

  closed-IsFed : (f : Feed E) → IsFed f → IsFed (feed_closed f)
  unfolding feed_closed
  closed-IsFed f h = elim (Bool-cases (f.stopped || f.reconnect_timer)) [
    | inl idle ↦ simp idle (record {
      kept = invalidate_each-AllKept "socket closed" f.books h.kept;
      served = h.served;
    })
    | inr again ↦ simp again (record {
      kept = invalidate_each-AllKept "socket closed" f.books h.kept;
      served = h.served;
    })
  ]

  module _ {Raw : Type 0} (number : Raw → Option ℤ) where
    message-IsFed : (m : FeedMessage Raw E) (f : Feed E) → IsFed f → IsFed (read_message number m f)
    unfolding handle_book
    message-IsFed no_json f h = aside-IsFed f _ refl refl h
    message-IsFed control f h = h
    message-IsFed (book_message none) f h = aside-IsFed f _ refl refl h
    message-IsFed (book_message (some m)) f h =
        elim (Option-cases (lookup m.message_symbol f.books)) [
          | inl unknown ↦ rw unknown h
          | inr (book, known) ↦
              let old = lookup-AllKept m.message_symbol f.books book h.kept known in
              let (book', result) = apply number m.update book in
              let new : IsKept book' = (
                apply-IsSound number m.update book old.0,
                apply-depth number m.update book ∙ old.1,
              ) in
              rw known (
                after_apply-IsFed m.message_symbol m.update.exchange_ts book' result.gap
                  result.applied _ new
                  (record {
                    kept = insert-AllKept m.message_symbol book' f.books new h.kept;
                    served = h.served;
                  }))
        ]
    message-IsFed (other_data none) f h = aside-IsFed f _ refl refl h
    message-IsFed (other_data (some (used, events))) f h = record {
      kept = h.kept;
      served = emit_each-IsServed (events f.seq) f.emitted h.served;
    }

    module _ (symbols intervals : List String) where
      step-IsFed :
          (event : FeedEvent Raw E) (f : Feed E)
          → IsFed f
          → IsFed (feed_step number symbols intervals event f)
      unfolding feed_step start_feed stop_feed feed_closed feed_timer handle_feed_message
      step-IsFed feed_started f h = aside-IsFed f _ refl refl h
      step-IsFed feed_stopped f h = aside-IsFed f _ refl refl h
      step-IsFed feed_connected f h = aside-IsFed f _ refl refl h
      step-IsFed (message_came m) f h =
          message-IsFed m (record f { stats = record f.stats { messages = f.stats.messages + 1 } })
            (record { kept = h.kept; served = h.served })
      step-IsFed socket_closed f h = closed-IsFed f h
      step-IsFed (socket_failed n) f h = aside-IsFed f _ refl refl h
      step-IsFed timer_fired f h = aside-IsFed f _ (ground arith) (ground arith) h

      run-IsFed :
          (events : List (FeedEvent Raw E)) (f : Feed E)
          → IsFed f
          → IsFed (feed_run number symbols intervals events f)
      unfolding feed_run
      run-IsFed [] f h = h
      run-IsFed (event ∷ events) f h =
          run-IsFed events (feed_step number symbols intervals event f) (step-IsFed event f h)

      -- Through any starts, stops, disconnects and messages from the beginning, every book that is handed
      -- to a consumer can be traded on: every bid is below every ask, bids descend and asks ascend, no
      -- size is zero, and neither side has more than 50 levels.
      pub run-IsServed :
          (events : List (FeedEvent Raw E))
          → All IsServed (feed_run number symbols intervals events (new_feed symbols)).emitted
      run-IsServed events =
          (run-IsFed events (new_feed symbols)
            (record { kept = new_books-AllKept symbols [] tt; served = tt })).served
