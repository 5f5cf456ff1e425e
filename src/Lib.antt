-- ===== src/Lib.antt =====
-- OmniTrade's trading pipeline: the coordinator of src/coordinator, the parts of src/market and
-- src/persistence that it works on, and the funding-rate arbitrage of src/strategy/funding_arb on top.
--
-- A submission (`Orchestrator.submit`) asks the store whether an earlier failure blocks it, stores
-- the intent, plans one leg for each venue of its split from the registry's instruments and their
-- quotes, validates the plan against the venues' balances, applies the risk limits, lets the executor
-- send the orders and wait for their fills, and lets the reconciler reverse what was filled when not
-- all legs are. Each part writes to the store, and the store keeps an audit trail.
--
-- The arbitrage daemon scans in rounds (`_tick`): the monitor refreshes the cached funding rates of
-- all pairs of perpetuals, the comparator ranks the pairs, and the runner closes the hedged positions
-- that no longer pay and opens new ones by submitting intents to the coordinator.
--
-- Files:
--   Prelude, Exec         shared names and lemmas; computations over a state that return or raise,
--                         with rules for invariants (Exec/Preserves) and postconditions (Exec/Ensures)
--   Float                 Python's floats as an interface; Float/Fixed is an instance for examples
--   World                 what the methods change and who answers them: the tables, the journal of
--                         audit events and requests in order, the venues' adapters, the clocks
--   Market                src/market: Instrument (instrument.py, asset.py), Quote (quote.py),
--                         Registry and Loader (registry.py), Pairs (pair_matcher.py), Books
--                         (orderbook_cache.py), Fetcher (quote_fetcher.py)
--   Persistence           src/persistence/store.py: Store (intents, legs, audit, blocking), Listing
--                         (list_intents), Tables (instruments, funding rates), Pnl (get_daily_pnl),
--                         Trail (the statuses that the journal shows)
--   Coordinator           src/coordinator: StateMachine, AccountType, Intent, Plan, Planner,
--                         Validator, Risk, Reconciler and Orchestrator are each for the file of that
--                         name, Leg and Executor for executor.py; a method has its source's name,
--                         without a leading underscore
--   Funding               src/strategy/funding_arb: Comparator, Monitor, Runner, Premium
--                         (premium_tracker.py) and Positions (position_manager.py, with the hedged
--                         positions of store.py); RateCache (src/market/funding_rate_cache.py);
--                         Daemon (the runner over the coordinator, src/cli/main.py)
--   Commands              src/cli/main.py: cancel and ack, by which an operator resolves an intent
--   Strategies            src/strategies: HedgeVolume and SpreadArbitrage, which do not use the
--                         coordinator
--   Samples               concrete data, and the theorems at it
--
-- A method is a function from the world to an outcome and the next world. A raise keeps what was
-- written before it. An intent's or a leg's status is a constructor for each text of the source;
-- products, sides and market types stay texts. Reasons for a refusal are constructors that carry the
-- numbers which the source formats. Floats are used through the operations of Float alone, so no
-- theorem rests on a law of arithmetic. Time stamps of rows are counts of microseconds. A leverage
-- and the time-out of an execution are integers, which may be negative; the numbers that stay natural
-- are counts, limits and priorities.
--
-- Concurrent tasks (`asyncio.gather`) run one after another in the order of the legs, and
-- compensations run before cancellations: one of the orders that the event loop may take. What a
-- venue answers may depend on everything that was done before. The messages of the streams within
-- their grace period, and the number of polling rounds that start before the deadline, come from the
-- environment, so that loop has as many rounds as its clock allows, and every theorem holds for all
-- of them. The source asks for the exposure of a venue once for all its legs; the query changes
-- nothing, so it is written once for each leg.
--
-- The tables of instruments, funding rates and hedged positions are kept apart from those of intents
-- and legs, since no method writes both. A list that the database or the program sorts is sorted by
-- insertion, which is stable. A loop that runs for ever (`run`, `run_loop`) is modelled by one round,
-- and the loop of a stream by the list of the events that its waits end with.
--
-- Not modelled: timing and metrics, on which no branch depends; the network adapters, which are the
-- parameter Exchange, and the creation of the stream clients; the command line but for the daemon's
-- submission, cancel and ack; the volume engine and the arbitrage engine, which do not use the
-- coordinator; the test of balances of the spread strategy; the store's migrations.
pub mod Prelude
pub mod Funding
pub mod Float
pub mod Exec
pub mod Market
pub mod Coordinator
pub mod World
pub mod Persistence
pub mod Commands
pub mod Strategies
mod Samples
