-- ===== src/Pools/KriyaClmm.antt =====
-- `bin/arb/src/defi/kriya_clmm.rs`: the pool.
pub mod Swap
pub mod Flash
use poison_dart.Base.{
  ℕ, zero, Bool, true, false, not, Option, none, some, List, [], ◌∷◌, String, str_dec, ite,
  if◌then◌else◌, Result, ok, err, ensure, ok_or, get_elem?, ◌>>=◌, ◌>>◌,
}
use poison_dart.Index.{Protocol, Pool, PoolExtra, token_type_at}
use poison_dart.Move.{
  ObjectArg, Object, MoveOps, Chain, shared_obj_arg, extract_bool_from_move_struct,
  extract_struct_from_move_struct, extract_u64_from_move_struct, extract_u128_from_move_struct,
}
use poison_dart.Pools.{
  sui_clock, pool_object, parse_pool, known_object, get_or_init, other_coin, coin_across, is_first,
}

abbrev pub kriya_clmm : String
kriya_clmm = "0xbd8d4489782042c6fafad4de4bc6a5e0b84a43c6c00647ffd7062d1e2bb7549e"

abbrev pub version_id : String
version_id = "0xf5145a7ac345ca8736cf8c76047d00d6d378f30e81be6f6eb557184d9de93c78"

pub record ObjectArgs : Type 0 where
  pub version : ObjectArg
  pub clock : ObjectArg

pub record KriyaClmm : Type 0 where
  pub pool : Pool
  pub pool_arg : ObjectArg
  pub liquidity : ℕ
  pub coin_in_type : String
  pub coin_out_type : String
  pub type_params : List String
  pub version : ObjectArg
  pub clock : ObjectArg

module _ {C L S V : Type 0} (chain : Chain C L S) (move : MoveOps S V) where
  -- The objects are fetched once, and kept in the cell `cache`.
  unfoldable pub get_object_args : (cache : Option ObjectArgs) → Result ObjectArgs
  unfolding get_or_init known_object
  get_object_args cache = get_or_init cache (do
    version ← known_object chain version_id false
    clock ← known_object chain sui_clock false
    ok (record { version = version; clock = clock }))

  unfoldable pub new :
      (cache : Option ObjectArgs) → Pool → (coin_in_type : String) → Result KriyaClmm
  unfolding pool_object parse_pool other_coin shared_obj_arg extract_bool_from_move_struct
      extract_struct_from_move_struct extract_u64_from_move_struct extract_u128_from_move_struct
      get_object_args
  new cache pool coin_in_type = do
    ensure (elim (pool.protocol) [ Protocol.kriya_clmm ↦ true | _ ↦ false ]) "not a KriyaClmm pool"
    pool_obj ← pool_object chain pool
    parsed_pool ← parse_pool chain pool pool_obj
    liquidity ← extract_u128_from_move_struct move parsed_pool "liquidity"
    coin_out_type ← other_coin pool coin_in_type
    args ← get_object_args cache
    ok (record {
      pool = pool;
      pool_arg = shared_obj_arg pool_obj true;
      liquidity = liquidity;
      coin_in_type = coin_in_type;
      coin_out_type = coin_out_type;
      type_params = move.type_params parsed_pool;
      version = args.version;
      clock = args.clock;
    })

unfoldable pub flip : KriyaClmm → KriyaClmm
flip d = record d { coin_in_type = d.coin_out_type; coin_out_type = d.coin_in_type }

unfoldable pub is_a2b : KriyaClmm → Bool
unfolding is_first
is_a2b d = is_first d.pool d.coin_in_type
