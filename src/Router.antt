-- ===== src/Router.antt =====
-- src/router/: how an input is split over the pools of a pair, and the cache of the quotes.
pub mod Limits
pub mod QuoteCache
pub mod Segments
pub mod SegmentMaps
pub mod CacheCalls
pub mod QuoteHistory
pub mod Float
pub mod V2Legs
pub mod V2Split
pub mod V2Rebalance
pub mod V2Totals
pub mod V2Capacity
pub mod Split
pub mod Optimize
pub mod Sums
pub mod Greedy
pub mod Slices
pub mod Plans
pub mod Pair
mod V2Examples
mod Examples
