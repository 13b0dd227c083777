-- ===== src/Tests/Feeds.antt =====
-- The public stream: a snapshot, a delta that crosses the book, and a delta after it.
use ztrade.Prelude.{ℕ, String, ◌≡◌, refl, true, Option, none, some, List, [], ◌∷◌, All}
use ztrade.Prelude.Int.{ℤ, pos, ◌+ℤ◌}
use ztrade.Ingestion.OrderBook.{
  snapshot, snapshot_update, delta_update, new_book, apply, apply_snapshot, apply_delta,
  apply_in_order, validate, set_levels, max_key, min_key,
}
use ztrade.Ingestion.Feed.{
  FeedMessage, book_message, FeedEvent, feed_started, feed_connected, message_came, Feed, new_feed,
  feed_step, feed_run, start_feed, topics, handle_feed_message, handle_book,
}
use ztrade.Ingestion.Feed.Fresh.{IsServed, run-IsServed}
use ztrade.Ingestion.Feed.Stuck.{is_stuck, IsMute, stale-IsMute}

abbrev number : ℤ → Option ℤ
number n = some n

abbrev crossing : FeedMessage ℤ ℕ
crossing = book_message (
    some (record {
      message_symbol = "BTC";
      update = record {
        type = delta_update;
        u = pos 8;
        seq = none;
        bids = (pos 12, pos 1) ∷ [];
        asks = [];
        exchange_ts = pos 2;
      };
    }))

abbrev events : List (FeedEvent ℤ ℕ)
events =
    feed_started
    ∷ feed_connected
    ∷ message_came (
        book_message (
          some (record {
            message_symbol = "BTC";
            update = record {
              type = snapshot_update;
              u = pos 7;
              seq = none;
              bids = (pos 9, pos 1) ∷ [];
              asks = (pos 10, pos 1) ∷ [];
              exchange_ts = pos 1;
            };
          })))
    ∷ message_came crossing
    ∷ []

abbrev symbols : List String
symbols = "BTC" ∷ []

run-IsServed_example : All IsServed (feed_run number symbols [] events (new_feed symbols)).emitted
run-IsServed_example = run-IsServed number symbols [] events

abbrev crossed : Feed ℕ
unfolding feed_run feed_step start_feed topics handle_feed_message handle_book
crossed = feed_run number symbols [] events (new_feed symbols)

-- The crossed update makes the book stale.
crossed-is_stuck : is_stuck "BTC" crossed ≡ true
unfolding feed_run feed_step start_feed topics handle_feed_message handle_book new_book apply
    apply_snapshot apply_delta apply_in_order validate set_levels max_key min_key snapshot ◌+ℤ◌
crossed-is_stuck = refl

stale-IsMute_example :
    IsMute "BTC" crossed
      (feed_run number symbols [] (message_came crossing ∷ message_came crossing ∷ []) crossed)
stale-IsMute_example =
    stale-IsMute number symbols [] "BTC" (message_came crossing ∷ message_came crossing ∷ [])
      crossed (refl, (refl, tt)) crossed-is_stuck
