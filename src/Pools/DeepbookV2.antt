-- ===== src/Pools/DeepbookV2.antt =====
-- `bin/arb/src/defi/deepbook_v2.rs`: the pool.
pub mod Swap
use poison_dart.Base.{
  ℕ, zero, Bool, true, false, not, Option, none, some, List, [], ◌∷◌, String, str_dec, ite,
  if◌then◌else◌, Result, ok, err, ensure, ok_or, get_elem?, ◌>>=◌, ◌>>◌,
}
use poison_dart.Index.{Protocol, Pool, PoolExtra, token_type_at}
use poison_dart.Move.{
  ObjectArg, Object, MoveOps, Chain, shared_obj_arg, extract_bool_from_move_struct,
  extract_struct_from_move_struct, extract_u64_from_move_struct, extract_u128_from_move_struct,
}
use poison_dart.Pools.{
  sui_clock, pool_object, parse_pool, known_object, get_or_init, other_coin, coin_across, is_first,
}

abbrev pub account_cap_id : String
account_cap_id = "0xc1928315ba33482366465426bdb179c7000f557838ae5d945e96263373f24b32"

pub record ObjectArgs : Type 0 where
  pub account_cap : ObjectArg
  pub clock : ObjectArg

pub record DeepbookV2 : Type 0 where
  pub pool : Pool
  pub pool_arg : ObjectArg
  pub coin_in_type : String
  pub coin_out_type : String
  pub type_params : List String
  pub account_cap : ObjectArg
  pub clock : ObjectArg

module _ {C L S V : Type 0} (chain : Chain C L S) (move : MoveOps S V) where
  -- The objects are fetched once, and kept in the cell `cache`.
  unfoldable pub get_object_args : (cache : Option ObjectArgs) → Result ObjectArgs
  unfolding get_or_init known_object
  get_object_args cache = get_or_init cache (do
    obj ← ok_or (chain.get_object (chain.object_id account_cap_id)) "unwrap"
    clock ← known_object chain sui_clock false
    ok (record { account_cap = ObjectArg.imm_or_owned_object obj.id; clock = clock }))

  unfoldable pub new :
      (cache : Option ObjectArgs) → Pool → (coin_in_type : String) → Result DeepbookV2
  unfolding pool_object parse_pool coin_across shared_obj_arg extract_bool_from_move_struct
      extract_struct_from_move_struct extract_u64_from_move_struct extract_u128_from_move_struct
      get_object_args
  new cache pool coin_in_type = do
    ensure (elim (pool.protocol) [ Protocol.deepbook_v2 ↦ true | _ ↦ false ])
        "not a DeepbookV2 pool"
    pool_obj ← pool_object chain pool
    parsed_pool ← parse_pool chain pool pool_obj
    coin_out_type ← coin_across pool coin_in_type
    args ← get_object_args cache
    ok (record {
      pool = pool;
      pool_arg = shared_obj_arg pool_obj true;
      coin_in_type = coin_in_type;
      coin_out_type = coin_out_type;
      type_params = move.type_params parsed_pool;
      account_cap = args.account_cap;
      clock = args.clock;
    })

unfoldable pub flip : DeepbookV2 → DeepbookV2
flip d = record d { coin_in_type = d.coin_out_type; coin_out_type = d.coin_in_type }

unfoldable pub liquidity : DeepbookV2 → ℕ
liquidity d = 0

unfoldable pub is_a2b : DeepbookV2 → Bool
unfolding is_first
is_a2b d = is_first d.pool d.coin_in_type
