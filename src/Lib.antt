-- ===== src/Lib.antt =====
-- dex-arbitrage: a model of the arbitrage engine, and theorems about it.
--
-- The engine (src/engine.rs) polls blocks, asks the reorg detector whether the chain moved, searches
-- routes over the pool graph, prices them, checks the risk limits, reserves a nonce and submits.
--
-- Prelude: tests on numbers, words of a given width with Rust's saturating and checked operations,
--   lists, hash maps as association lists, signed integers, and locks.
-- Types: src/types.rs, field by field.
-- Reorg: src/reorg/mod.rs. The deque is a list with the tip first. `update_chain` is one function
--   of the state; its pruning loop has one round more than the chain has entries, and each round
--   drops one. The mutexes are the flags of `Held`; what `lock` does in a thread that already holds
--   the mutex is the parameter `relock`, which is `false` by the documentation of `parking_lot`.
-- Nonce: src/execution/nonce_manager.rs. The node's answers and the clock are arguments.
-- Graph: src/graph/model.rs, src/graph/snapshot.rs and src/graph/updater.rs. `build` takes the spot
--   rates of src/amm/, which are in f64, as an argument, and is `none` where the source would panic
--   on an index.
--   Graph.Distance is src/graph/distance_cache.rs; its fuel is one round for each token and each
--   anchor, since a round takes one vertex from the queue and a token is queued once.
-- Detector: src/detector/. Detector.Search is the search of paths by rounds, Detector.Find the loops
--   of `find_candidates`, over the graph and its distance cache, Detector.Select the choice of
--   candidates. The clock is read once, so that the memo tables of the source are left out; the
--   environment, the text of an address, the cutoff and the capacity of a route, in f64, are arguments.
-- Router: src/router/split_optimizer.rs, with split_decision.rs and v3_limits.rs. The quotes of the
--   pools and the order in which they arrive are arguments. The loop that assigns the input has 16
--   rounds, since each takes an eighth of it, rounded down, or all that is left.
--   Router.V2Legs and Router.V2Split are src/router/v2_split.rs, over the operations on f64 of
--   Router.Float, which are an argument; the bisection has the source's 80 rounds.
--   Router.QuoteCache is the cache of src/router/exact_quoter.rs. Its loops have as many rounds as
--   there are keys in the queue, or segments, since each takes one away.
-- Gas: src/risk/gas_tracker.rs. The node's answers, one for each attempt, the decoding of their bytes
--   and the clock are arguments.
-- Risk: src/risk/limits.rs, with the day as an argument, and in Risk.Depeg src/risk/depeg_guard.rs.
-- Resume: src/engine.rs, `handle_reorg_event`, between Reorg and Graph.
-- Submission: src/engine.rs, the end of `process_candidate`: a transaction's way through the nonce
--   and the risk manager, with the answers of src/execution/submitter.rs as arguments.
-- Amm: the integer quotes of src/amm/. The solver of the stable curve has as fuel the 255 rounds of
--   the source's own loop.
-- Valuation: src/risk/valuation.rs.
-- Capital: src/execution/capital_selector.rs, which uses Valuation. The clock, the environment and
--   the call of the node are arguments.
-- Breaker: src/rpc/scheduler.rs, the circuit breaker of a provider and `ProviderState::request`.
--
-- Addresses, hashes and days are numbers. Logging and metrics are left out.
-- U256 is a number, with the checked, saturating and wrapping operations of the source written out.
-- The spot rates, the fallback quotes and the search for quantities over them, which are in f64, are
-- not modelled, nor are the rest of the router, the validator and the building of transactions. The
-- discovery of pools, the RPC clients, the telemetry and the configuration are input and output.
pub mod Amm
pub mod Breaker
pub mod Capital
pub mod Detector
pub mod Gas
pub mod Graph
pub mod Nonce
pub mod Prelude
pub mod Reorg
pub mod Resume
pub mod Risk
pub mod Router
pub mod Submission
pub mod Types
pub mod Valuation
