-- ===== src/Ingestion/Feed.antt =====
-- packages/ingestion/src/bybitWs.ts: the public stream over the order books. A socket is known by the
-- number of sockets made before it, and what its library does comes as a FeedEvent. A message is what
-- JSON.parse and the schemas have read, `none` where a schema refuses it. What normalize.ts makes of
-- trades, tickers and bars comes with the message: how far it moves `seq`, and the events from there.
-- The latency tracker and logging are left out.
pub mod Fresh
pub mod Stuck
use ztrade.Prelude.{
  ℕ, ◌+◌, String, Bool, true, false, ◌||◌, Option, none, some, List, [], ◌∷◌, ◌++◌, if◌then◌else◌,
}
use ztrade.Prelude.Int.{ℤ}
use ztrade.Prelude.Table.{Table, string_eq, lookup, insert}
use ztrade.Ingestion.OrderBook.{
  OrderBook, OrderBookSnapshot, BookUpdate, ApplyResult, healthy, new_book, apply, invalidate,
  snapshot,
}

pub data Topic : Type 0 where
  book_topic trade_topic ticker_topic : (symbol : String) → Topic
  kline_topic : (interval symbol : String) → Topic

pub data FeedFrame : Type 0 where
  subscribe unsubscribe : List Topic → FeedFrame

pub record BookMessage (Raw : Type 0) : Type 0 where
  pub message_symbol : String
  pub update : BookUpdate Raw

pub data FeedMessage (Raw E : Type 0) : Type 0 where
  no_json control : FeedMessage Raw E
  book_message : Option (BookMessage Raw) → FeedMessage Raw E
  other_data : Option (ℕ × (ℕ → List E)) → FeedMessage Raw E

pub data Emitted (E : Type 0) : Type 0 where
  book_event : (symbol : String) (book : OrderBookSnapshot) (exchange_ts : ℤ) (seq : ℕ) → Emitted E
  data_event : E → Emitted E

pub record FeedStats : Type 0 where
  pub reconnects : ℕ
  pub messages : ℕ
  pub invalid : ℕ
  pub gaps : ℕ

-- `opened`, `sent`, `closing` and `emitted` record what was asked of the sockets and handed to
-- `onEvent`, the last one first.
pub record Feed (E : Type 0) : Type 0 where
  pub socket : Option ℕ
  pub books : Table String OrderBook
  pub seq : ℕ
  pub connected : Bool
  pub stopped : Bool
  pub reconnect_timer : Bool
  pub stats : FeedStats
  pub opened : ℕ
  pub sent : List (ℕ × FeedFrame)
  pub closing : List ℕ
  pub emitted : List (Emitted E)

abbrev pub new_books : List String → Table String OrderBook → Table String OrderBook
new_books [] books = books
new_books (symbol ∷ symbols) books = new_books symbols (insert symbol (new_book symbol 50) books)

abbrev pub new_feed : {E : Type 0} → List String → Feed E
new_feed symbols = record {
  socket = none;
  books = new_books symbols [];
  seq = 0;
  connected = false;
  stopped = false;
  reconnect_timer = false;
  stats = record { reconnects = 0; messages = 0; invalid = 0; gaps = 0 };
  opened = 0;
  sent = [];
  closing = [];
  emitted = [];
}

abbrev pub invalidate_each : String → Table String OrderBook → Table String OrderBook
invalidate_each reason [] = []
invalidate_each reason ((symbol, book) ∷ books) =
    (symbol, invalidate reason book) ∷ invalidate_each reason books

abbrev kline_topics : String → List String → List Topic
kline_topics symbol [] = []
kline_topics symbol (interval ∷ intervals) =
    kline_topic interval symbol ∷ kline_topics symbol intervals

unfoldable pub topics : List String → List String → List Topic
topics [] intervals = []
topics (symbol ∷ symbols) intervals =
    (book_topic symbol ∷ trade_topic symbol ∷ ticker_topic symbol ∷ kline_topics symbol intervals)
    ++ topics symbols intervals

abbrev pub send_to : Option ℕ → FeedFrame → List (ℕ × FeedFrame) → List (ℕ × FeedFrame)
send_to none frame sent = sent
send_to (some n) frame sent = (n, frame) ∷ sent

abbrev close_asked : Option ℕ → List ℕ → List ℕ
close_asked none closing = closing
close_asked (some n) closing = n ∷ closing

module _ {E : Type 0} where
  abbrev pub open_feed : Feed E → Feed E
  open_feed f = record f { socket = some f.opened; opened = f.opened + 1 }

  unfoldable pub start_feed : Feed E → Feed E
  start_feed f = open_feed (record f { stopped = false })

  unfoldable pub stop_feed : Feed E → Feed E
  stop_feed f = record f {
    stopped = true;
    reconnect_timer = false;
    closing = close_asked f.socket f.closing;
    socket = none;
    connected = false;
  }

  abbrev pub send_frame : FeedFrame → Feed E → Feed E
  send_frame frame f = if f.connected then record f { sent = send_to f.socket frame f.sent } else f

  abbrev pub schedule : Feed E → Feed E
  schedule f = if f.stopped || f.reconnect_timer then f else record f { reconnect_timer = true }

  -- The handler of `onClose`.
  unfoldable pub feed_closed : Feed E → Feed E
  feed_closed f =
      schedule (record f { connected = false; books = invalidate_each "socket closed" f.books })

  unfoldable pub feed_timer : Feed E → Feed E
  feed_timer f =
      if f.reconnect_timer
      then open_feed (record f {
        reconnect_timer = false;
        stats = record f.stats { reconnects = f.stats.reconnects + 1 };
      })
      else f

  abbrev pub resubscribe_book : String → Feed E → Feed E
  resubscribe_book symbol f =
      send_frame (subscribe (book_topic symbol ∷ []))
        (send_frame (unsubscribe (book_topic symbol ∷ [])) f)

  abbrev pub count_gap : Feed E → Feed E
  count_gap f = record f { stats = record f.stats { gaps = f.stats.gaps + 1 } }

  abbrev pub count_refused : Feed E → Feed E
  count_refused f = record f { stats = record f.stats { invalid = f.stats.invalid + 1 } }

  abbrev pub emit_book : String → ℤ → Option OrderBookSnapshot → Feed E → Feed E
  emit_book symbol ts none f = f
  emit_book symbol ts (some book) f = record f {
    seq = f.seq + 1;
    emitted = book_event symbol book ts f.seq ∷ f.emitted;
  }

  -- What follows `book.apply`.
  abbrev pub after_apply : String → ℤ → OrderBook → Option (ℤ × ℤ) → Bool → Feed E → Feed E
  after_apply symbol ts book (some gap) applied f = resubscribe_book symbol (count_gap f)
  after_apply symbol ts book none applied f =
      if applied then emit_book symbol ts (snapshot book) f else f

  abbrev pub emit_each : List E → List (Emitted E) → List (Emitted E)
  emit_each [] emitted = emitted
  emit_each (event ∷ events) emitted = emit_each events (data_event event ∷ emitted)

  module _ {Raw : Type 0} (number : Raw → Option ℤ) where
    abbrev pub apply_to : Option OrderBook → BookMessage Raw → Feed E → Feed E
    apply_to none m f = f
    apply_to (some book) m f =
        let (book', result) = apply number m.update book in
        after_apply m.message_symbol m.update.exchange_ts book' result.gap result.applied
          (record f { books = insert m.message_symbol book' f.books })

    unfoldable pub handle_book : Option (BookMessage Raw) → Feed E → Feed E
    handle_book none f = count_refused f
    handle_book (some m) f = apply_to (lookup m.message_symbol f.books) m f

    abbrev pub read_message : FeedMessage Raw E → Feed E → Feed E
    unfolding handle_book
    read_message no_json f = count_refused f
    read_message control f = f
    read_message (book_message m) f = handle_book m f
    read_message (other_data none) f = count_refused f
    read_message (other_data (some (used, events))) f = record f {
      seq = f.seq + used;
      emitted = emit_each (events f.seq) f.emitted;
    }

    unfoldable pub handle_feed_message : FeedMessage Raw E → Feed E → Feed E
    handle_feed_message m f =
        read_message m (record f { stats = record f.stats { messages = f.stats.messages + 1 } })

pub data FeedEvent (Raw E : Type 0) : Type 0 where
  feed_started feed_stopped feed_connected socket_closed timer_fired : FeedEvent Raw E
  message_came : FeedMessage Raw E → FeedEvent Raw E
  socket_failed : ℕ → FeedEvent Raw E

module _ {Raw E : Type 0} (number : Raw → Option ℤ) (symbols intervals : List String) where
  unfoldable pub feed_step : FeedEvent Raw E → Feed E → Feed E
  unfolding start_feed stop_feed feed_closed feed_timer handle_feed_message topics
  feed_step feed_started f = start_feed f
  feed_step feed_stopped f = stop_feed f
  feed_step feed_connected f =
      send_frame (subscribe (topics symbols intervals)) (record f { connected = true })
  feed_step (message_came m) f = handle_feed_message number m f
  feed_step socket_closed f = feed_closed f
  feed_step (socket_failed n) f = record f { closing = n ∷ f.closing }
  feed_step timer_fired f = feed_timer f

  unfoldable pub feed_run : List (FeedEvent Raw E) → Feed E → Feed E
  unfolding feed_step
  feed_run [] f = f
  feed_run (event ∷ events) f = feed_run events (feed_step event f)
