-- ===== src/Lib.antt =====
-- The order path of the trading system: a request is validated, stored as an order, sent to an
-- exchange, and cancelled. This library models the parts that decide what is stored and sent, and
-- proves what holds of them on every path, faults of PostgreSQL, Redis and the exchange included.
--
-- Prelude holds the shared names: native numbers, strings (strip, upper), Boolean tests and `==`.
-- Failure holds the exceptions as values (execution_gateway/exchange/errors.py and others).
--
-- Schema is packages/schemas/src/schemas/order.py: Enums and Statuses its enumerations and status
-- sets, Order its models, Decimal the comparison of two decimal texts, Validate the two validators
-- (`normalize_request_after_validation`, `normalize_order_after_validation`); Normal has their
-- theorems. An order is split into Origin and Terms, which a transition never writes, and Progress,
-- which it always writes.
--
-- StateMachine is apps/execution_gateway/src/execution_gateway/state_machine: OrderStatus for
-- order_state_machine.py, Conditional for conditional_order_state_machine.py, Graph for the
-- theorems.
--
-- Store is what the repositories of packages/storage/src/storage/repositories work on: Tables the
-- rows of order_intents, orders and outbox_events with the versioned UPDATE of order_repo.py, Redis
-- the hashes and indexes with the upsert script of order_state_repo.py, Action the monad of the
-- coroutines. An action takes a World, the store and an oracle that says in advance what the clock,
-- the id generator, and each call of the database and of Redis will do, and returns a result or a
-- failure with the world it leaves. A transaction puts the tables back when its body fails. What
-- PostgreSQL gives back for a quantity or a price that is stored as a numeric is an argument, a
-- function on texts (`as_numeric`); a text that is no number is one of the faults of a statement,
-- and an exchange error code that is no number fails the transition.
--
-- Service is services/order_state_service.py with the repositories' methods (Repository): creating,
-- changing and loading one order (OrderState), by its other ids too (Lookups), and listing the open
-- orders of a symbol (Lists) or all in pages (Pages; Ascending, Paging and Batches for its
-- theorem). Keeps and Finds have the rules for invariants of actions and for what a load returns;
-- Transitions what the two transactions leave behind; Agreement the agreement of the tables and the
-- projections; Consistency, Loads, ListLoads, Found, LookupLoads and Reads that every method keeps
-- it, and which orders it finds.
--
-- Gateway is gateway/transition_service.py (Transition), submission_service.py (Submission) and
-- cancellation_service.py (Cancellation) for one order, and the batch submission (Batch, Leverage).
-- Cancellation has children for a batch (Batch, Answers, Chunks) and for all open orders (All). The
-- client of an exchange (Client) is a record of actions, an argument of the model: what other tasks
-- do to the store while a call is awaited is part of that action. Core is what core.py does with
-- the events of the user data stream and the results of reconciliation (Core/Conditional for
-- conditional orders); in Core, Resolve says what the lookups find, Moves, Effects and
-- ConditionalEffects what one event does to the table `orders`, Inputs and Streams what a sequence
-- of them does, and Fills what a late partial fill does to a row. StatusChange, Terminal, Conflict,
-- Undo, Outcomes, Intake, Cancels, Consistency, Batch/Loops and Batch/Consistency have the
-- theorems. The text of an exception, and the client of each market, are arguments too.
--
-- Ids is packages/common/src/common/ids.py: Binary shifts and masks, Snowflake the generator,
-- Unique and Series its theorems. Binance is the order router of adapters/binance (Router) and what
-- its requests say (Requests). Intents is execution_gateway/handlers: the deduplication of intents
-- with the store of keys that is kept in memory, and their way to the gateway (Handler; Once for
-- its theorem). The store in Redis, whose keys expire, is not modelled.
--
-- Outbox is the transactional outbox: Rows the statements of outbox_repo.py on outbox_events, World
-- and Publisher the publisher of publishers/outbox_publisher.py, with the broker, the other tasks
-- and the faults of the database as answers given in advance. Claims has the exclusiveness of
-- claims, Delivery and Retries what every path keeps, Progress, InHand and Rounds that all is
-- published in the end; Ends has the rules for what an action leaves.
--
-- Samples has concrete orders, worlds and clients; Witnesses applies each property to them.
--
-- Three loops have fuel. The wait for the next millisecond has one unit for each reading of the
-- clock, which is enough once a reading has passed the last time; the chunks of a batch have one
-- unit for each order, which is enough since a chunk takes at least one; the pages of open orders
-- have one for each page, and one more than there are orders is enough. All else is structural.
-- Numbers are unbounded, as in Python. A decimal text is kept as a text; raw responses are texts.
-- The generator of order ids never raises here, and the lengths and patterns that pydantic checks
-- of a field are not modelled.
--
-- Not modelled: the other lists of the state service, the position services, the polling of the
-- reconciliation and recovery workers, and transport. Locks of an order are not modelled: each
-- function runs while the lock is held, and an event is applied before the next one. A row whose
-- expiry in Redis has passed is a row that is not there.
pub mod Prelude
pub mod Failure
pub mod Schema
pub mod StateMachine
pub mod Store
pub mod Service
pub mod Gateway
pub mod Binance
pub mod Ids
pub mod Intents
pub mod Outbox
pub mod Samples
pub mod Witnesses
