-- ===== src/Index/FileDb.antt =====
-- `crates/dex-indexer/src/file_db.rs`. A file is the list of its lines; the disk fails only in that a
-- file is not there.
pub mod Paths
pub mod Reload
use poison_dart.Base.{
  ℕ, Bool, true, false, Option, none, some, List, [], ◌∷◌, ◌++◌, map, String, str_dec, ite, length,
  if◌then◌else◌, ◌==◌, Result, ok, err, ok_or, ◌>>=◌,
}
use poison_dart.Base.Map.{Map, insert}
use poison_dart.Index.{Protocol, to_string, Pool}
use poison_dart.Index.Cache.{PoolCache, new, add_pool}
use poison_dart.Index.Files.{Serde, pool_to_string, pool_try_from}
use Prim.Native.String.{◌++◌ as ◌⧺◌}

-- `derive(PartialEq)`: the place of the variant.
unfoldable pub discriminant : Protocol → ℕ
discriminant Protocol.cetus = 0
discriminant Protocol.turbos = 1
discriminant Protocol.aftermath = 2
discriminant Protocol.kriya_amm = 3
discriminant Protocol.kriya_clmm = 4
discriminant Protocol.flowx_amm = 5
discriminant Protocol.flowx_clmm = 6
discriminant Protocol.deepbook_v2 = 7
discriminant Protocol.deepbook_v3 = 8
discriminant Protocol.volo = 9
discriminant Protocol.blue_move = 10
discriminant Protocol.sui_swap = 11
discriminant Protocol.interest = 12
discriminant Protocol.abex = 13
discriminant Protocol.baby_swap = 14
discriminant Protocol.navi = 15

-- The map of cursors, over the ids `E` of events.
abbrev pub Cursors : Type 0 → Type 0
Cursors E = Protocol → Option (Option E)

unfoldable pub insert_cursor : {E : Type 0} → Cursors E → Protocol → Option E → Cursors E
unfolding discriminant
insert_cursor m protocol cursor p =
    if discriminant p == discriminant protocol then some cursor else m p

pub record Disk (E : Type 0) : Type 0 where
  pub files : Map (List String)
  -- `processed_cursors.json`.
  pub cursors_file : Option (Cursors E)

pub record FileDb (E : Type 0) : Type 0 where
  pub pools_paths : Protocol → Option String
  pub processed_cursors : Cursors E

unfoldable pub path_of : (base_path : String) → List Protocol → Protocol → Option String
unfolding to_string discriminant
path_of base_path [] p = none
path_of base_path (protocol ∷ protocols) p =
    let rest = path_of base_path protocols p in
    if discriminant p == discriminant protocol
    then some (base_path ⧺ ("/" ⧺ (to_string protocol ⧺ "_pools.txt")))
    else rest

unfoldable pub lines_of : Option (List String) → List String
lines_of none = []
lines_of (some lines) = lines

module _ (serde : Serde) where
  -- The loop over the lines of a file.
  unfoldable pub load_lines : PoolCache → List String → Result PoolCache
  unfolding pool_try_from add_pool
  load_lines cache [] = ok cache
  load_lines cache (line ∷ lines) = do
    pool ← pool_try_from serde line
    load_lines (add_pool cache pool) lines

  unfoldable pub read_lines : List String → Result (List Pool)
  unfolding pool_try_from
  read_lines [] = ok []
  read_lines (line ∷ lines) = do
    pool ← pool_try_from serde line
    pools ← read_lines lines
    ok (pool ∷ pools)

module _ {E : Type 0} where
  unfoldable pub new_db : Disk E → (base_path : String) → List Protocol → FileDb E
  unfolding path_of
  new_db disk base_path protocols = record {
    pools_paths = path_of base_path protocols;
    processed_cursors = elim (disk.cursors_file) [ some cursors ↦ cursors | none ↦ λ _. none ];
  }

  module _ (serde : Serde) where
    unfoldable pub flush :
        FileDb E → Disk E → Protocol → List Pool → Option E → Result (FileDb E × Disk E)
    unfolding pool_to_string insert_cursor lines_of
    flush db disk protocol pools cursor = do
      pool_path ← ok_or (db.pools_paths protocol) "Protocol not supported"
      let cursors = insert_cursor db.processed_cursors protocol cursor
      ok (
        record db { processed_cursors = cursors },
        record {
          files =
              insert disk.files pool_path
                (lines_of (disk.files pool_path) ++ map (pool_to_string serde) pools);
          cursors_file = some cursors;
        },
      )

    -- The loop over the protocols.
    unfoldable pub load_protocols : FileDb E → Disk E → PoolCache → List Protocol → Result PoolCache
    unfolding load_lines
    load_protocols db disk cache [] = ok cache
    load_protocols db disk cache (protocol ∷ protocols) = do
      pool_path ← ok_or (db.pools_paths protocol) "Protocol not supported"
      loaded ← elim (disk.files pool_path) [
        | some lines ↦ load_lines serde cache lines
        | none ↦ ok cache
      ]
      load_protocols db disk loaded protocols

    unfoldable pub load_token_pools : FileDb E → Disk E → List Protocol → Result PoolCache
    unfolding load_protocols
    load_token_pools db disk protocols = load_protocols db disk new protocols

    unfoldable pub get_all_pools : FileDb E → Disk E → Protocol → Result (List Pool)
    unfolding read_lines
    get_all_pools db disk protocol = do
      pool_path ← ok_or (db.pools_paths protocol) "Protocol not supported"
      lines ← ok_or (disk.files pool_path) "No such file"
      read_lines serde lines

  unfoldable pub pool_count : FileDb E → Disk E → Protocol → Result ℕ
  pool_count db disk protocol = do
    pool_path ← ok_or (db.pools_paths protocol) "Protocol not supported"
    lines ← ok_or (disk.files pool_path) "No such file"
    ok (length lines)
