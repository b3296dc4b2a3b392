-- ===== src/Lib.antt =====
-- The arbitrage bot of poison-dart: a strategy hears of swaps, a cache keeps the coins that they
-- touch, workers look for a round trip from SUI to SUI that gains something, and a trader builds the
-- transaction for it.
--
-- How the parts interact. bin/arb/src/strategy/mod.rs, `process_event`, puts the coins of the swaps
-- of an event into the `ArbCache` of strategy/arb_cache.rs and sends up to ten items to the channel of
-- the workers. A worker calls `Arb::find_opportunity` of bin/arb/src/arb.rs, which asks
-- bin/arb/src/defi/mod.rs for the paths from SUI to the coin and back, tries amounts of a grid on
-- them, refines the best by the search of bin/arb/src/common/search.rs, and has the trader of
-- bin/arb/src/defi/trade.rs build the transaction, with a flash loan (defi/navi.rs) and, in an
-- auction, a bid (defi/shio.rs).
--
-- Which file models which part:
--   Source       bin/arb/src/types.rs, `Source`
--   ArbCache     bin/arb/src/strategy/arb_cache.rs, all of it
--   Search       bin/arb/src/common/search.rs, `golden_section_search_maximize` at u64
--   Dex          the readers of the trait `Dex` in bin/arb/src/defi/mod.rs, `Path` of defi/trade.rs
--   Paths        defi/mod.rs, `find_sell_paths`, `find_buy_paths`, `dfs`
--   Best         defi/mod.rs, `find_best_path_exact_in`, `PathTradeResult`
--   Arb          bin/arb/src/arb.rs, `TrialCtx`, `trial`, `find_opportunity`
--   Trade        defi/trade.rs, `TradeCtx`; Trade.Navi, Trade.Shio, Trade.Trader are defi/navi.rs,
--                defi/shio.rs and `Trader`
--   Simulator    crates/simulator/src/lib.rs, `SimEpoch`, `SimulateCtx`
--   Index.Cache, Index.Files, Index.FileDb, Index.Backfill
--                crates/dex-indexer/src/lib.rs, file_db.rs, strategy.rs, and the texts of pools in types.rs
--   Move         crates/utils/src/object.rs, on the objects of the chain
--   Pools        defi/cetus.rs, turbos.rs, kriya_amm.rs, kriya_clmm.rs, flowx_clmm.rs, aftermath.rs,
--                blue_move.rs, deepbook_v2.rs, and the trait `Dex` over them; Trade.Exec are the actions
--                that their methods are made of
--   Simulator.OverrideCache
--                crates/simulator/src/db_simulator/override_cache.rs
--   ObjectPool   crates/object-pool/src/lib.rs
--   Searcher     defi/indexer_searcher.rs
--   Index        crates/dex-indexer/src/types.rs, `Protocol`, `Pool`, `SwapEvent`
--   Strategy     bin/arb/src/strategy/mod.rs, `process_event` and what it calls
--   Worker       bin/arb/src/strategy/worker.rs, `handle_arb_item` and what it calls
--   Base         results, lists, maps, machine words, signed numbers
-- The children of a file prove what their names say. A record has the fields of the struct, less
-- clients and handles; a method that changes its receiver takes it and returns it; `?` and `ensure!`
-- are the bind of `Result`; a JoinSet is the list of what its tasks return, in the order in which
-- they end. A Path is called DexPath here.
--
-- Bounds and fuel. Words of 64 and 16 bits wrap where the code adds to them. The search runs its loop
-- of a thousand rounds by recursion on their number. The depth-first search has fuel for one call
-- more than a path has hops, which its own guard makes enough. The loop over the gas budget has fuel,
-- and enough of it ends the loop whenever some budget would. Amounts of the grid are ten to the
-- seventh up to ten to the sixteenth.
--
-- Outside, as arguments with the laws that are used: the simulator, the objects
-- of the chain and the values of Move, the builder
-- of transactions of the SDK, the digest of a transaction, the parsing of events and of digests, the
-- node that is asked for the epoch, the clocks, the order in which tasks end. The database under the
-- override cache changes while the cache is asked: its updates are events of the run. Not modelled:
-- the graph of strategy/graph_path_finder.rs, which a constant switches off; the worker's loop over
-- the channel; `swap_tx` of the pools, which is for tests; the decoding of
-- events in crates/dex-indexer/src/protocols; the engine crates/burberry; the simulators but for the
-- overrides of db_simulator; and all that is input, output or
-- logging.
pub mod Base
pub mod Source
pub mod ArbCache
pub mod Search
pub mod Dex
pub mod Paths
pub mod Best
pub mod Arb
pub mod Trade
pub mod Simulator
pub mod Strategy
pub mod Worker
pub mod Index
pub mod Move
pub mod Pools
pub mod Searcher
pub mod ObjectPool
mod Tests
