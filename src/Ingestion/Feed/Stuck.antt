-- ===== src/Ingestion/Feed/Stuck.antt =====
-- A book that has become stale.
use ztrade.Prelude.{
  ℕ, ◌+◌, String, ◌≡◌, refl, sym, ap, ◌∙◌, inl, inr, Bool, true, false, not, ◌&&◌, ◌||◌, Option,
  none, some, List, [], ◌∷◌, arith, if◌then◌else◌, Bool-cases, Option-cases, All,
}
use mathlib.Core.Path.{subst}
use ztrade.Prelude.Int.{ℤ}
use ztrade.Prelude.Table.{string_eq, lookup, insert, lookup-insert, beq_refl}
use ztrade.Ingestion.OrderBook.{
  OrderBook, BookUpdate, UpdateType, snapshot_update, delta_update, BookHealth, stale, apply,
  apply_delta, snapshot,
}
use ztrade.Ingestion.Feed.{
  after_apply, Topic, book_topic, FeedFrame, subscribe, unsubscribe, FeedMessage, BookMessage,
  no_json, control, book_message, other_data, Emitted, book_event, data_event, Feed, emit_each,
  apply_to, handle_book, read_message, handle_feed_message, FeedEvent, message_came, feed_step,
  feed_run,
}

abbrev is_snapshot : UpdateType → Bool
is_snapshot snapshot_update = true
is_snapshot delta_update = false

-- A snapshot of the symbol's book.
abbrev pub brings_snapshot : {Raw E : Type 0} → String → FeedMessage Raw E → Bool
brings_snapshot s (book_message (some m)) =
    string_eq.beq m.message_symbol s && is_snapshot m.update.type
brings_snapshot s _ = false

abbrev pub book_events : {E : Type 0} → String → List (Emitted E) → ℕ
book_events s [] = 0
book_events s (book_event k book ts seq ∷ xs) =
    (if string_eq.beq k s then 1 else 0) + book_events s xs
book_events s (data_event event ∷ xs) = book_events s xs

abbrev names_book : String → List Topic → Bool
names_book s [] = false
names_book s (book_topic k ∷ topics) = string_eq.beq k s || names_book s topics
names_book s (_ ∷ topics) = names_book s topics

abbrev frame_names : String → FeedFrame → Bool
frame_names s (subscribe topics) = names_book s topics
frame_names s (unsubscribe topics) = names_book s topics

abbrev pub book_frames : String → List (ℕ × FeedFrame) → ℕ
book_frames s [] = 0
book_frames s ((n, frame) ∷ sent) = (if frame_names s frame then 1 else 0) + book_frames s sent

abbrev is_stale : BookHealth → Bool
is_stale stale = true
is_stale _ = false

abbrev has_stale : Option OrderBook → Bool
has_stale none = false
has_stale (some book) = is_stale book.health

-- A delta on a stale book is refused, with no gap to report.
stale_delta :
    {Raw : Type 0} (number : Raw → Option ℤ) (update : BookUpdate Raw) (book : OrderBook)
    → is_stale book.health ≡ true
    → is_snapshot update.type ≡ false
    → let (after, result) = apply number update book in
      (is_stale after.health ≡ true) × (result.gap ≡ none) × (result.applied ≡ false)
unfolding apply apply_delta
stale_delta number update book h k = ground arith

module _ {E : Type 0} where
  abbrev pub is_stuck : String → Feed E → Bool
  is_stuck s f = has_stale (lookup s f.books)

  -- Still stale, with nothing said of it.
  pub record IsMute (s : String) (f g : Feed E) : Type 0 where
    stuck : is_stuck s g ≡ is_stuck s f
    events : book_events s g.emitted ≡ book_events s f.emitted
    frames : book_frames s g.sent ≡ book_frames s f.sent

  trans-IsMute : (s : String) (f g h : Feed E) → IsMute s f g → IsMute s g h → IsMute s f h
  trans-IsMute s f g h a b = record {
    stuck = b.stuck ∙ a.stuck;
    events = b.events ∙ a.events;
    frames = b.frames ∙ a.frames;
  }

  emit_each-mute :
      (s : String) (events : List E) (emitted : List (Emitted E))
      → book_events s (emit_each events emitted) ≡ book_events s emitted
  emit_each-mute s [] emitted = refl
  emit_each-mute s (event ∷ events) emitted = emit_each-mute s events (data_event event ∷ emitted)

  -- What follows another symbol's update says nothing of this one.
  other-IsMute :
      (s k : String) (ts : ℤ) (book : OrderBook) (gap : Option (ℤ × ℤ)) (applied : Bool)
      (f : Feed E)
      → string_eq.beq k s ≡ false
      → IsMute s f (after_apply k ts book gap applied f)
  other-IsMute s k ts book (some gap) applied f other = elim (Bool-cases f.connected) [
    | inl on ↦ elim (Option-cases f.socket) [
      | inl nowhere ↦ simp (on, nowhere) (record { stuck = refl; events = refl; frames = refl })
      | inr (n, at) ↦
          simp (on, at) (record { stuck = refl; events = refl; frames = ground (arith, other) })
    ]
    | inr off ↦ simp off (record { stuck = refl; events = refl; frames = refl })
  ]
  other-IsMute s k ts book none true f other = elim (Option-cases (snapshot book)) [
    | inl nothing ↦ rw nothing (record { stuck = refl; events = refl; frames = refl })
    | inr (served, e) ↦
        rw e (record { stuck = refl; events = ground (arith, other); frames = refl })
  ]
  other-IsMute s k ts book none false f other = record {
    stuck = refl;
    events = refl;
    frames = refl;
  }

  module _ {Raw : Type 0} (number : Raw → Option ℤ) where
    own-IsMute :
        (m : BookMessage Raw) (book : OrderBook) (f : Feed E)
        → lookup m.message_symbol f.books ≡ some book
        → is_stale book.health ≡ true
        → is_snapshot m.update.type ≡ false
        → IsMute m.message_symbol f (apply_to number (some book) m f)
    own-IsMute m book f known h k =
        let (still, no_gap, refused) = stale_delta number m.update book h k in
        let (after, result) = apply number m.update book in
        simp (no_gap, refused)
          (record {
            stuck =
                ap has_stale (lookup-insert m.message_symbol m.message_symbol after f.books)
                ∙ rw (beq_refl m.message_symbol, known) (still ∙ sym h);
            events = refl;
            frames = refl;
          })

    message-IsMute :
        (s : String) (m : FeedMessage Raw E) (f : Feed E)
        → brings_snapshot s m ≡ false
        → is_stuck s f ≡ true
        → IsMute s f (read_message number m f)
    unfolding handle_book
    message-IsMute s no_json f h k = record { stuck = refl; events = refl; frames = refl }
    message-IsMute s control f h k = record { stuck = refl; events = refl; frames = refl }
    message-IsMute s (book_message none) f h k = record {
      stuck = refl;
      events = refl;
      frames = refl;
    }
    message-IsMute s (book_message (some m)) f h k =
        elim (Option-cases (lookup m.message_symbol f.books)) [
          | inl unknown ↦ rw unknown (record { stuck = refl; events = refl; frames = refl })
          | inr (book, known) ↦ elim (Bool-cases (string_eq.beq m.message_symbol s)) [
            | inl own ↦
                let same = (string_eq.beq_iff m.message_symbol s).0 own in
                rw known (
                  subst (λ x. IsMute x f (apply_to number (some book) m f)) same
                    (own-IsMute m book f known (rw (sym same, known) at k)
                      (ground (arith, own, h))))
            | inr other ↦
                let (after, result) = apply number m.update book in
                let moved : Feed E = record f { books = insert m.message_symbol after f.books } in
                rw known (
                  trans-IsMute s f moved _
                    (record {
                      stuck =
                          ap has_stale
                            (lookup-insert m.message_symbol s after f.books ∙ rw other refl);
                      events = refl;
                      frames = refl;
                    })
                    (other-IsMute s m.message_symbol m.update.exchange_ts after result.gap
                      result.applied moved other))
          ]
        ]
    message-IsMute s (other_data none) f h k = record { stuck = refl; events = refl; frames = refl }
    message-IsMute s (other_data (some (used, events))) f h k = record {
      stuck = refl;
      events = emit_each-mute s (events f.seq) f.emitted;
      frames = refl;
    }

    abbrev pub is_message : String → FeedEvent Raw E → Bool
    is_message s (message_came m) = not (brings_snapshot s m)
    is_message s _ = false

    module _ (symbols intervals : List String) where
      step-IsMute :
          (s : String) (event : FeedEvent Raw E) (f : Feed E)
          → is_message s event ≡ true
          → is_stuck s f ≡ true
          → IsMute s f (feed_step number symbols intervals event f)
      unfolding feed_step handle_feed_message
      step-IsMute s (message_came m) f h k =
          let counted : Feed E = record f {
            stats = record f.stats { messages = f.stats.messages + 1 };
          } in
          trans-IsMute s f counted _ (record { stuck = refl; events = refl; frames = refl })
            (message-IsMute s m counted (ground (arith, h)) k)
      step-IsMute s _ f h k = absurd (ground arith)

      -- Once the book of a symbol is stale, whether by a gap, a disconnect or a crossed update, no
      -- message but a snapshot of it has any effect for the symbol: none of its books is handed on, so
      -- no stale price escapes, and no request for its book is sent either.
      pub stale-IsMute :
          (s : String) (events : List (FeedEvent Raw E)) (f : Feed E)
          → All (λ e. is_message s e ≡ true) events
          → is_stuck s f ≡ true
          → IsMute s f (feed_run number symbols intervals events f)
      unfolding feed_run
      stale-IsMute s [] f h k = record { stuck = refl; events = refl; frames = refl }
      stale-IsMute s (event ∷ events) f h k =
          let next = feed_step number symbols intervals event f in
          let one = step-IsMute s event f h.0 k in
          trans-IsMute s f next _ one (stale-IsMute s events next h.1 (one.stuck ∙ k))
