-- ===== src/Tests/Searcher.antt =====
-- Runs of the searcher, over an index of two pools of the chain.
use poison_dart.Base.{
  ℕ, ◌≡◌, refl, true, false, none, some, List, [], ◌∷◌, String, str_dec, All, ok, if◌then◌else◌,
  ◌==◌,
}
use poison_dart.Dex.{DexPath, sui_coin_type}
use poison_dart.Index.{Protocol, Pool, PoolExtra}
use poison_dart.Move.{ObjectArg, MoveOps, Chain}
use poison_dart.Pools.Dexes.{AnyDex}
use poison_dart.Searcher.{Cells, Indexer, find_dexes, find_test_path}
use poison_dart.Searcher.Finds.{IsFrom, IsAlong, find_dexes-IsFrom, find_test_path-IsAlong}

-- Every field of an object is there, and open.
abbrev move : MoveOps Unit Unit
move = record {
  extract_field_from_move_struct = λ _ _. some tt;
  type_params = λ _. sui_coin_type ∷ "A" ∷ [];
  as_struct = λ _. some tt;
  as_vector = λ _. some (tt ∷ []);
  as_address = λ _. some 1;
  as_u32 = λ _. some 1;
  as_u64 = λ _. some 700;
  as_u128 = λ _. some 700;
  as_bool = λ _. some true;
}

abbrev chain : Chain Unit Unit Unit
chain = record {
  get_object = λ i. some (record { id = i; initial_shared_version = some 1; contents = some tt });
  get_object_layout = λ _. some tt;
  simple_deserialize = λ _ _. ok tt;
  object_id = λ _. 6;
  type_tag = λ t. ok t;
}

abbrev cells : Cells
cells = record {
  turbos_cell = none;
  blue_move_cell = none;
  deepbook_v2_cell = none;
  kriya_clmm_cell = none;
  cetus_cell = none;
  flowx_clmm_cell = none;
  aftermath_cell = none;
}

abbrev pool : Protocol → ℕ → Pool
pool protocol i = record {
  protocol = protocol;
  pool = i;
  tokens =
      record { token_type = sui_coin_type; decimals = 9 }
      ∷ record { token_type = "A"; decimals = 6 }
      ∷ [];
  extra = PoolExtra.no_extra;
}

-- The pool of an unsupported protocol is skipped.
abbrev pools : List Pool
pools = pool Protocol.kriya_amm 31 ∷ pool Protocol.navi 32 ∷ pool Protocol.turbos 33 ∷ []

abbrev indexer : Indexer
indexer = record {
  get_pools_by_token = λ _. some pools;
  get_pools_by_token01 = λ _ _. some pools;
  get_pool_by_id =
      λ i. if i == 31 then some (pool Protocol.kriya_amm 31) else some (pool Protocol.turbos 33);
}

abbrev kriya : AnyDex
kriya = AnyDex.kriya_amm (record {
  pool = pool Protocol.kriya_amm 31;
  pool_arg = ObjectArg.shared_object 31 1 true;
  liquidity = 700;
  coin_in_type = sui_coin_type;
  coin_out_type = "A";
  type_params = sui_coin_type ∷ "A" ∷ [];
})

abbrev turbos : (coin_in_type coin_out_type : String) → AnyDex
turbos coin_in_type coin_out_type = AnyDex.turbos (record {
  pool = pool Protocol.turbos 33;
  pool_arg = ObjectArg.shared_object 33 1 true;
  liquidity = 700;
  coin_in_type = coin_in_type;
  coin_out_type = coin_out_type;
  type_params = sui_coin_type ∷ "A" ∷ [];
  versioned = ObjectArg.shared_object 6 1 false;
  clock = ObjectArg.shared_object 6 1 false;
})

find_run :
    find_dexes chain move cells indexer (λ _. false) sui_coin_type (some "A")
    ≡ ok (kriya ∷ turbos sui_coin_type "A" ∷ [])
unfolding find_dexes str_dec
find_run = refl

find_dexes-IsFrom_example : All (IsFrom sui_coin_type) (kriya ∷ turbos sui_coin_type "A" ∷ [])
find_dexes-IsFrom_example =
    find_dexes-IsFrom chain move cells indexer (λ _. false) sui_coin_type (some "A") _ find_run

-- There and back.
abbrev round : DexPath AnyDex
round = record { path = kriya ∷ turbos "A" sui_coin_type ∷ [] }

test_run : find_test_path chain move cells indexer (31 ∷ 33 ∷ []) ≡ ok round
unfolding find_test_path str_dec
test_run = refl

find_test_path-IsAlong_example :
    IsAlong chain move cells indexer sui_coin_type (31 ∷ 33 ∷ []) round.path
find_test_path-IsAlong_example =
    find_test_path-IsAlong chain move cells indexer (31 ∷ 33 ∷ []) round test_run
