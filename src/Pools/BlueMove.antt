-- ===== src/Pools/BlueMove.antt =====
-- `bin/arb/src/defi/blue_move.rs`: the pool.
pub mod Swap
use poison_dart.Base.{
  ℕ, zero, Bool, true, false, not, Option, none, some, List, [], ◌∷◌, String, str_dec, ite,
  if◌then◌else◌, Result, ok, err, ensure, ok_or, get_elem?, ◌>>=◌, ◌>>◌,
}
use poison_dart.Index.{Protocol, Pool, PoolExtra, token_type_at}
use poison_dart.Move.{
  ObjectArg, Object, MoveOps, Chain, shared_obj_arg, extract_bool_from_move_struct,
  extract_struct_from_move_struct, extract_u64_from_move_struct, extract_u128_from_move_struct,
}
use poison_dart.Pools.{
  sui_clock, pool_object, parse_pool, known_object, get_or_init, other_coin, coin_across, is_first,
}

abbrev pub dex_info_id : String
dex_info_id = "0x3f2d9f724f4a1ce5e71676448dc452be9a6243dac9c5b975a588c8c867066e92"

pub record ObjectArgs : Type 0 where
  pub dex_info : ObjectArg

pub record BlueMove : Type 0 where
  pub pool : Pool
  pub liquidity : ℕ
  pub coin_in_type : String
  pub coin_out_type : String
  pub type_params : List String
  pub dex_info : ObjectArg

module _ {C L S V : Type 0} (chain : Chain C L S) (move : MoveOps S V) where
  -- The objects are fetched once, and kept in the cell `cache`.
  unfoldable pub get_object_args : (cache : Option ObjectArgs) → Result ObjectArgs
  unfolding get_or_init known_object
  get_object_args cache =
      get_or_init cache
        (do dex_info ← known_object chain dex_info_id true; ok (record { dex_info = dex_info }))

  unfoldable pub new :
      (cache : Option ObjectArgs) → Pool → (coin_in_type : String) → Result BlueMove
  unfolding pool_object parse_pool coin_across shared_obj_arg extract_bool_from_move_struct
      extract_struct_from_move_struct extract_u64_from_move_struct extract_u128_from_move_struct
      get_object_args
  new cache pool coin_in_type = do
    ensure (elim (pool.protocol) [ Protocol.blue_move ↦ true | _ ↦ false ]) "not a BlueMove pool"
    pool_obj ← pool_object chain pool
    parsed_pool ← parse_pool chain pool pool_obj
    is_freeze ← extract_bool_from_move_struct move parsed_pool "is_freeze"
    ensure (not is_freeze) "pool is frozen"
    lsp_supply ← extract_struct_from_move_struct move parsed_pool "lsp_supply"
    liquidity ← extract_u64_from_move_struct move lsp_supply "value"
    coin_out_type ← coin_across pool coin_in_type
    args ← get_object_args cache
    ok (record {
      pool = pool;
      liquidity = liquidity;
      coin_in_type = coin_in_type;
      coin_out_type = coin_out_type;
      type_params = move.type_params parsed_pool;
      dex_info = args.dex_info;
    })

unfoldable pub flip : BlueMove → BlueMove
flip d = record d { coin_in_type = d.coin_out_type; coin_out_type = d.coin_in_type }

unfoldable pub is_a2b : BlueMove → Bool
unfolding is_first
is_a2b d = is_first d.pool d.coin_in_type
