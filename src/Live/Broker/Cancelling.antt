-- ===== src/Live/Broker/Cancelling.antt =====
-- What becomes of the cancels that the engine asks of the live broker.
use ztrade.Prelude.{
  ℕ, String, ◌≡◌, refl, ap, inl, inr, not, Option, List, [], Bool-cases, Option-cases,
}
use ztrade.Prelude.Int.{ℤ}
use ztrade.Prelude.Double.{Double}
use ztrade.Prelude.Table.{Table}
use ztrade.Core.Intent.{OrderIntent}
use ztrade.Execution.Engine.{Intent, Engine}
use ztrade.Execution.Engine.Replayed.{handle_all}
use ztrade.Live.Broker.{
  VenueApi, RestAnswer, answered, rest_error, no_answer, LiveConfig, LiveBroker, live_broker,
}
use ztrade.Live.Broker as Live

module _ {F V : Type 0} (api : VenueApi V) (config : LiveConfig) (print : F → String)
    (cancel_at : (category symbol link_id : String) → V → V × RestAnswer (Unit {0})) where
  same_answer :
      (id : String) (b : LiveBroker F V) (answer : RestAnswer String)
      → Live.submit_answer (record api { cancel_at = cancel_at }) config print id b answer
        ≡ Live.submit_answer api config print id b answer
  same_answer id b (answered exchange_id) = refl
  same_answer id b (rest_error code why message) = refl
  same_answer id b (no_answer why) = refl

  same_submit :
      (id : String) (intent : OrderIntent F) (b : LiveBroker F V)
      → Live.submit (record api { cancel_at = cancel_at }) config print id intent b
        ≡ Live.submit api config print id intent b
  unfolding Live.submit
  same_submit id intent b = elim (Option-cases (Live.order_body config print id intent)) [
    | inl unexpanded ↦ rw unexpanded refl
    | inr (body, made) ↦
        let (venue, answer) = api.create_order body b.venue in
        rw (made, same_answer id (record b { venue = venue }) answer) refl
  ]

  same_cancel :
      (id : String) (b : LiveBroker F V)
      → Live.cancel_order (record api { cancel_at = cancel_at }) config print id b
        ≡ Live.cancel_order api config print id b
  unfolding Live.cancel_order Live.symbol_of
  same_cancel id b = refl

  -- The venue's answers to a cancel make no other broker.
  same_broker :
      live_broker (record api { cancel_at = cancel_at }) config print ≡ live_broker api config print
  same_broker = λ i. record {
    submit_order = λ id intent at b.
        let (after, ack) = same_submit id intent b i in
        (after, record { accepted = ack.accepted; reason = ack.reason });
    cancel_order = λ id at b. same_cancel id b i;
    drain = λ b. (b.outbox, record b { outbox = [] });
  }

  module _ {E S : Type 0} ⦃d : Double F⦄
      (risk : OrderIntent F → Table String F → S → S × Option String)
      (on_event : E → ℤ → ℕ → Table String F → S → List (Intent F) × ℕ × S)
      (link_id : String → String) where
    -- No cancel that the engine asks is ever sent: a run of the engine over the live broker is the same
    -- run, the venue with it, whatever the venue would do and answer when asked to cancel an order. Where
    -- trading is enabled the broker answers each of them with a refusal, for every order; only in paper
    -- mode is it accepted.
    pub cancel_never_sent :
        (stamp : ℤ → F) (tape : List (E × ℤ)) (e : Engine F (LiveBroker F V) S) (target : String)
        (b : LiveBroker F V)
        → let without = record api { cancel_at = cancel_at } in
          (handle_all (live_broker without config print) risk on_event link_id stamp tape e
            ≡ handle_all (live_broker api config print) risk on_event link_id stamp tape e)
          × ((Live.cancel_order api config print target b).1.accepted ≡ not config.trading_enabled)
    unfolding Live.cancel_order Live.symbol_of
    cancel_never_sent stamp tape e target b = (
      ap (λ broker. handle_all broker risk on_event link_id stamp tape e) same_broker,
      elim (Bool-cases config.trading_enabled) [ inl on ↦ simp on refl | inr off ↦ simp off refl ],
    )
