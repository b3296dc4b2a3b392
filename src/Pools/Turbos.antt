-- ===== src/Pools/Turbos.antt =====
-- `bin/arb/src/defi/turbos.rs`: the pool.
pub mod Swap
use poison_dart.Base.{
  ℕ, zero, Bool, true, false, not, Option, none, some, List, [], ◌∷◌, String, str_dec, ite,
  if◌then◌else◌, Result, ok, err, ensure, ok_or, get_elem?, ◌>>=◌, ◌>>◌,
}
use poison_dart.Index.{Protocol, Pool, PoolExtra, token_type_at}
use poison_dart.Move.{
  ObjectArg, Object, MoveOps, Chain, shared_obj_arg, extract_bool_from_move_struct,
  extract_struct_from_move_struct, extract_u64_from_move_struct, extract_u128_from_move_struct,
}
use poison_dart.Pools.{
  sui_clock, pool_object, parse_pool, known_object, get_or_init, other_coin, coin_across, is_first,
}

abbrev pub versioned_id : String
versioned_id = "0xf1cf0e81048df168ebeb1b8030fad24b3e0b53ae827c25053fff0779c1445b6f"

pub record ObjectArgs : Type 0 where
  pub versioned : ObjectArg
  pub clock : ObjectArg

pub record Turbos : Type 0 where
  pub pool : Pool
  pub pool_arg : ObjectArg
  pub liquidity : ℕ
  pub coin_in_type : String
  pub coin_out_type : String
  pub type_params : List String
  pub versioned : ObjectArg
  pub clock : ObjectArg

module _ {C L S V : Type 0} (chain : Chain C L S) (move : MoveOps S V) where
  -- The objects are fetched once, and kept in the cell `cache`.
  unfoldable pub get_object_args : (cache : Option ObjectArgs) → Result ObjectArgs
  unfolding get_or_init known_object
  get_object_args cache = get_or_init cache (do
    versioned ← known_object chain versioned_id false
    clock ← known_object chain sui_clock false
    ok (record { versioned = versioned; clock = clock }))

  unfoldable pub new : (cache : Option ObjectArgs) → Pool → (coin_in_type : String) → Result Turbos
  unfolding pool_object parse_pool other_coin shared_obj_arg extract_bool_from_move_struct
      extract_struct_from_move_struct extract_u64_from_move_struct extract_u128_from_move_struct
      get_object_args
  new cache pool coin_in_type = do
    ensure (elim (pool.protocol) [ Protocol.turbos ↦ true | _ ↦ false ]) "not a Turbos pool"
    pool_obj ← pool_object chain pool
    parsed_pool ← parse_pool chain pool pool_obj
    unlocked ← extract_bool_from_move_struct move parsed_pool "unlocked"
    ensure unlocked "pool is locked"
    liquidity ← extract_u128_from_move_struct move parsed_pool "liquidity"
    coin_out_type ← other_coin pool coin_in_type
    args ← get_object_args cache
    ok (record {
      pool = pool;
      pool_arg = shared_obj_arg pool_obj true;
      liquidity = liquidity;
      coin_in_type = coin_in_type;
      coin_out_type = coin_out_type;
      type_params = move.type_params parsed_pool;
      versioned = args.versioned;
      clock = args.clock;
    })

unfoldable pub flip : Turbos → Turbos
flip d = record d { coin_in_type = d.coin_out_type; coin_out_type = d.coin_in_type }

unfoldable pub is_a2b : Turbos → Bool
unfolding is_first
is_a2b d = is_first d.pool d.coin_in_type
