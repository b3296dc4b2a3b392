-- ===== src/Index/Backfill.antt =====
-- `crates/dex-indexer/src/strategy.rs`: the pools of one protocol are asked for, page by page, and
-- added to the cache and to the file. The tasks of the protocols are run one at a time.
pub mod Saved
use poison_dart.Base.{
  ℕ, Bool, true, false, Option, none, some, List, [], ◌∷◌, if◌then◌else◌, Result, ok, err, ◌>>=◌,
}
use poison_dart.Index.{Protocol, Pool}
use poison_dart.Index.Cache.{PoolCache, add_pool}
use poison_dart.Index.FileDb.{Disk, FileDb, flush, pool_count}
use poison_dart.Index.Files.{Serde}

-- A page of events `A` with ids `E`.
pub record Page (A E : Type 0) : Type 0 where
  pub events : List A
  pub has_next_page : Bool
  pub next_cursor : Option E

pub record IndexState (E : Type 0) : Type 0 where
  pub pool_cache : PoolCache
  pub db : FileDb E
  pub disk : Disk E

-- `data.last().map(|e| e.id)`.
unfoldable pub last_id : {A E : Type 0} → (A → E) → List A → Option E
last_id id [] = none
last_id id (event ∷ []) = some (id event)
last_id id (event ∷ next ∷ events) = last_id id (next ∷ events)

-- The loop over the events of a page. Events that are no pool are skipped.
unfoldable pub add_events :
    {A : Type 0} → (A → Result Pool) → List A → PoolCache → PoolCache × List Pool
unfolding add_pool
add_events sui_event_to_pool [] cache = (cache, [])
add_events sui_event_to_pool (event ∷ events) cache = elim (sui_event_to_pool event) [
  | ok pool ↦
      let added = add_events sui_event_to_pool events (add_pool cache pool) in
      (added.0, pool ∷ added.1)
  | err _ ↦ add_events sui_event_to_pool events cache
]

unfoldable pub next_cursor : {A E : Type 0} → (A → E) → Page A E → Option E
unfolding last_id
next_cursor id page = if page.has_next_page then page.next_cursor else last_id id page.events

module _ {A E : Type 0} (id : A → E) (sui_event_to_pool : A → Result Pool) (serde : Serde) where
  -- The node's answers, each to the cursor that it is asked with. Without a further answer the loop
  -- still waits.
  unfoldable pub backfill_pools_for_protocol :
      Protocol
      → (cursor : Option E) → (answers : List (Option E → Result (Page A E))) → IndexState E
      → IndexState E × Option (Result (Unit {0}))
  unfolding add_events next_cursor flush pool_count
  backfill_pools_for_protocol protocol cursor [] s = (s, none)
  backfill_pools_for_protocol protocol cursor (answer ∷ answers) s = elim (answer cursor) [
    | err m ↦ (s, some (err m))
    | ok page ↦ elim (page.events) [
      | [] ↦ (s, some (do count ← pool_count s.db s.disk protocol; ok tt))
      | event ∷ events ↦
          let added = add_events sui_event_to_pool (event ∷ events) s.pool_cache in
          elim (flush serde s.db s.disk protocol added.1 (next_cursor id page)) [
            | err m ↦ (record s { pool_cache = added.0 }, some (err m))
            | ok saved ↦
                backfill_pools_for_protocol protocol (next_cursor id page) answers
                  (record { pool_cache = added.0; db = saved.0; disk = saved.1 })
          ]
    ]
  ]
