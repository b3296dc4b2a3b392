-- ===== src/Pools/Cetus.antt =====
-- `bin/arb/src/defi/cetus.rs`: the pool.
pub mod Swap
pub mod Flash
use poison_dart.Base.{
  ℕ, zero, Bool, true, false, not, Option, none, some, List, [], ◌∷◌, String, str_dec, ite,
  if◌then◌else◌, Result, ok, err, ensure, ok_or, get_elem?, ◌>>=◌, ◌>>◌,
}
use poison_dart.Index.{Protocol, Pool, PoolExtra, token_type_at}
use poison_dart.Move.{
  ObjectArg, Object, MoveOps, Chain, shared_obj_arg, extract_bool_from_move_struct,
  extract_struct_from_move_struct, extract_u64_from_move_struct, extract_u128_from_move_struct,
}
use poison_dart.Pools.{
  sui_clock, pool_object, parse_pool, known_object, get_or_init, other_coin, coin_across, is_first,
}

abbrev pub config_id : String
config_id = "0xdaa46292632c3c4d8f31f23ea0f9b36a28ff3677e9684980e4438403a67a3d8f"

abbrev pub partner_id : String
partner_id = "0x639b5e433da31739e800cd085f356e64cae222966d0f1b11bd9dc76b322ff58b"

abbrev pub cetus_dex : String
cetus_dex = "0xeffc8ae61f439bb34c9b905ff8f29ec56873dcedf81c7123ff2f1f67c45ec302"

pub record ObjectArgs : Type 0 where
  pub config : ObjectArg
  pub partner : ObjectArg
  pub clock : ObjectArg

pub record Cetus : Type 0 where
  pub pool : Pool
  pub pool_arg : ObjectArg
  pub liquidity : ℕ
  pub coin_in_type : String
  pub coin_out_type : String
  pub type_params : List String
  pub config : ObjectArg
  pub partner : ObjectArg
  pub clock : ObjectArg

module _ {C L S V : Type 0} (chain : Chain C L S) (move : MoveOps S V) where
  -- The objects are fetched once, and kept in the cell `cache`.
  unfoldable pub get_object_args : (cache : Option ObjectArgs) → Result ObjectArgs
  unfolding get_or_init known_object
  get_object_args cache = get_or_init cache (do
    config ← known_object chain config_id false
    partner ← known_object chain partner_id true
    clock ← known_object chain sui_clock false
    ok (record { config = config; partner = partner; clock = clock }))

  unfoldable pub new : (cache : Option ObjectArgs) → Pool → (coin_in_type : String) → Result Cetus
  unfolding pool_object parse_pool other_coin shared_obj_arg extract_bool_from_move_struct
      extract_struct_from_move_struct extract_u64_from_move_struct extract_u128_from_move_struct
      get_object_args
  new cache pool coin_in_type = do
    ensure (elim (pool.protocol) [ Protocol.cetus ↦ true | _ ↦ false ]) "not a Cetus pool"
    pool_obj ← pool_object chain pool
    parsed_pool ← parse_pool chain pool pool_obj
    is_pause ← extract_bool_from_move_struct move parsed_pool "is_pause"
    ensure (not is_pause) "pool is paused"
    liquidity ← extract_u128_from_move_struct move parsed_pool "liquidity"
    coin_out_type ← other_coin pool coin_in_type
    args ← get_object_args cache
    ok (record {
      pool = pool;
      pool_arg = shared_obj_arg pool_obj true;
      liquidity = liquidity;
      coin_in_type = coin_in_type;
      coin_out_type = coin_out_type;
      type_params = move.type_params parsed_pool;
      config = args.config;
      partner = args.partner;
      clock = args.clock;
    })

unfoldable pub flip : Cetus → Cetus
flip d = record d { coin_in_type = d.coin_out_type; coin_out_type = d.coin_in_type }

unfoldable pub is_a2b : Cetus → Bool
unfolding is_first
is_a2b d = is_first d.pool d.coin_in_type
