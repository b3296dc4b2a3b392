-- ===== src/Tests.antt =====
-- Runs of the model on concrete inputs, and the theorems at such inputs.
mod ArbCache
mod Search
mod Dexes
mod Arb
mod Trade
mod Strategy
mod Worker
mod Index
mod Pools
mod Searcher
mod Backfill
mod OverrideCache
mod ObjectPool
