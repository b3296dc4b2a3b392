-- ===== src/Index/Backfill/Saved.antt =====
-- What is on the disk while the pools of a protocol are filled in.
use mathlib.Core.List.Perm
use mathlib.Core.List.{Perm}
use poison_dart.Base.{◌≡◌, List, String, ok}
use poison_dart.Index.{Protocol, Pool}
use poison_dart.Index.Backfill.{IndexState}
use poison_dart.Index.Cache.{new, add_pools}
use poison_dart.Index.FileDb.{FileDb, new_db, load_token_pools}
use poison_dart.Index.FileDb.Reload.{pools_in}
use poison_dart.Index.Files.{Serde}

-- A restart comes to the same state, up to the order in which pools were added: the database that is
-- made anew of the disk is the one at hand, and the pools that are loaded of the files of all
-- protocols are those that the cache at hand was made of.
pub record IsSaved {E : Type 0} (serde : Serde) (base_path : String) (protocols : List Protocol)
    (s : IndexState E) : Type 0 where
  pub restarted : new_db s.disk base_path protocols ≡ s.db
  pub held : List Pool
  pub made : s.pool_cache ≡ add_pools new held
  pub loaded : List Pool
  pub stored : pools_in serde s.db.pools_paths s.disk.files protocols ≡ ok loaded
  pub reloaded : load_token_pools serde s.db s.disk protocols ≡ ok (add_pools new loaded)
  pub same : Perm loaded held
