-- ===== src/Lib.antt =====
-- ZTrade: the core of a trading system that executes orders, in exact terms.
--
-- The program. Market data comes in (packages/ingestion): an order book mirrors the venue's by a
-- snapshot and deltas, and trades are gathered in bars. A strategy states intents (packages/core);
-- each passes one gate, the risk engine with its circuit breaker (packages/risk). What passes
-- becomes an order (packages/execution), a state machine that the venue's events drive. One engine
-- runs backtest, paper and live trading: it drains the broker, lets the strategy see the event, and
-- sends what the risk gate lets pass; behind the broker's interface stands the venue or a simulation
-- (packages/adapters-sim). Live (packages/adapters-bybit), a private stream brings what became of the
-- orders, and a pipeline journals it before the engine sees it; a worker of its own can cancel and
-- close everything. A cold start rebuilds orders and positions from the journal by the same
-- state machine. Strategies read features that are kept incrementally (packages/features). Amounts
-- of money are decimals (packages/core). The server (apps/server) has an engine of its own, which
-- sizes an entry under the operator's limits, keeps its trades in a database, closes and trails them
-- as prices move, and halts after losses. Around this stands the security plane (packages/security):
-- signals from outside are authenticated and fire once, what was done is kept in a hash-linked audit
-- chain, and an API key that may withdraw stops the startup.
--
-- The files, each with its source:
--   Prelude            numbers with their Boolean tests, lists; Prelude/Int, Prelude/Text (texts as
--                      code points), Prelude/Table (maps as association lists) and
--                      Prelude/Double (see below)
--   Core/Intent        packages/core/src/intent.ts
--   Core/Decimal       packages/core/src/decimal.ts; `add`, `sub`, `round_to_step`, `apply_rounding`
--                      are the methods and functions of those names. Proofs in Multiples, Rounding,
--                      Step, Exact; Core/Decimal/Text: its texts. Proofs in Text/Digits and
--                      Text/RoundTrip
--   Core/Money         packages/core/src/money.ts
--   Core/Book          packages/core/src/events.ts: the functions on a book snapshot
--   Core/Bus           packages/core/src/bus.ts. Proofs in Subjects
--   Execution/OrderState  packages/execution/src/orderState.ts: `apply_order_event` is
--                      applyOrderEvent, with `dispatch` its switch. Proofs in Machine and Quantity
--   Execution/Journal  packages/execution/src/journal.ts: FileJournal, recoverState, RecoveryGate.
--                      Proofs in File and Recovery
--   Execution/KillSwitch  packages/execution/src/killSwitch.ts: the worker. Proofs in Flatten
--   Execution/Reconciler  packages/execution/src/reconciler.ts. Proofs in Clean and Corrections
--   Execution/SimBroker  packages/adapters-sim/src/simBroker.ts: the class as a record. Proofs in Fills
--                      (one order's facts), Touched (what a step leaves alone) and Runs
--   Execution/Engine   packages/execution/src/engine.ts and broker.ts: `handle` is the method, over any
--                      strategy, broker and risk gate. Proofs in Mirrored and Replayed
--   Execution/Scheduler  packages/execution/src/scheduler.ts. Proofs in Backoff
--   Execution/Strategies  packages/execution/src/canary.ts and strategies.ts, in the form that the
--                      engine takes. Proofs in Alternation
--   Features/RingBuffer, Features/Rolling  packages/features/src/incremental.ts. Proofs in
--                      RingBuffer/Slots, RingBuffer/Window and Rolling/WarmUp
--   Ingestion/OrderBook  packages/ingestion/src/orderbook.ts: the class as a record, each method a
--                      function to the next record. Proofs in Levels, Sound, Served, Mirror
--   Ingestion/Feed     packages/ingestion/src/bybitWs.ts: the class over the books, its handlers as
--                      steps. Proofs in Fresh and Stuck
--   Ingestion/Bars     packages/ingestion/src/bars.ts. Proofs in Closing
--   Risk/Breaker       packages/risk/src/breaker.ts. Proofs in History
--   Risk/Engine        packages/risk/src/engine.ts: `check` and `evaluate` are the methods of those
--                      names. Proofs in Limits and Rate
--   Security/AuditChain  packages/security/src/auditChain.ts. Proofs in Evidence and Tamper
--   Security/SignalAuth  packages/security/src/signalAuth.ts. Proofs in Replay
--   Security/KeyScope  packages/security/src/keyScope.ts. Proofs in Withdrawal
--   Live/AccountEvents  packages/adapters-bybit/src/accountEvents.ts
--   Live/Broker        packages/adapters-bybit/src/liveBroker.ts, as a broker of Execution/Engine over a
--                      venue that answers as it likes. Proofs in Stream and Cancelling
--   Live/PrivateWs     packages/adapters-bybit/src/privateWs.ts: the class and its handlers, with the
--                      dead-man payload of packages/security/src/signer.ts. Proofs in Rows, Arming,
--                      Quiet and Counts
--   Live/Pipeline      packages/adapters-bybit/src/livePipeline.ts: an async method is two functions, up
--                      to its await and from there. Proofs in Gate, Restart and Corrected
--   Server/Indicators  apps/server/src/strategies/indicators.ts: the exponential average. Proofs in
--                      Parity
--   Server/Risk        apps/server/src/engine/risk.ts: `assess_risk` is assessRisk. Proofs in Booked, Sizing
--   Server/Breaker     apps/server/src/engine/circuitBreaker.ts: `evaluate` and `should_trip` are the
--                      method and the helper of those names. Proofs in Agrees and Halted
--   Server/Database    apps/server/src/db.ts: the trade rows
--   Server/Trades      apps/server/src/engine/reconciler.ts over those rows. Proofs in Counts,
--                      Once, Paper, Trailed and Ratchet
--   Tests              runs on small data
--
-- State and calls. A class is a record of its mutable fields, and a method a function from the record
-- to the next one and the result. Errors are constructors of a result type.
--
-- Numbers. A JavaScript number that counts or is a whole time is a natural number or an integer. Any
-- other is an element of a type with the instance `Double`: its operations are parameters, its
-- comparisons are Boolean tests that may all be false (NaN), and the record `IsOrdered` names the
-- laws of IEEE comparison and addition that proofs use. The tests instantiate it by whole numbers with a NaN.
-- A bigint is an integer with no bound. Prices of the book are read from texts by a parameter.
--
-- Parameters. SHA-256, HMAC, `JSON.stringify`, `JSON.parse` and the conversions between
-- doubles and decimals are arguments; hypotheses name what is relied on: the length of a digest, an
-- injective printer, a codec that reads back what it printed.
--
-- Fuel. Only the printing of a natural number runs on fuel, which is the number and one more, and a
-- theorem shows that this is enough; every other loop of the sources that are modelled is over a list,
-- or counts down.
--
-- Not modelled: the text of messages (an error carries the data that its message shows),
-- the normalisation of market data and its latency tracker, child orders (smartExec.ts), the feature store, the REST client, all input and output, and
-- the packages that are not named above. Of the server's indicators.ts one function is modelled, and
-- of its db.ts the trade rows; the rest of the server, its routes, exchange clients, notifications and
-- intelligence, is not.
pub mod Prelude
pub mod Core
pub mod Execution
pub mod Features
pub mod Ingestion
pub mod Risk
pub mod Security
pub mod Live
pub mod Server
pub mod Tests
