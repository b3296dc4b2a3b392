-- ===== src/Pools/FlowxClmm.antt =====
-- `bin/arb/src/defi/flowx_clmm.rs`: the pool.
pub mod Swap
pub mod Flash
use poison_dart.Base.{
  ℕ, zero, Bool, true, false, not, Option, none, some, List, [], ◌∷◌, reverse, String, str_dec, ite,
  if◌then◌else◌, Result, ok, err, ensure, ok_or, get_elem?, ◌>>=◌, ◌>>◌,
}
use poison_dart.Index.{Protocol, Pool, PoolExtra, token_type_at}
use poison_dart.Move.{
  ObjectArg, Object, MoveOps, Chain, shared_obj_arg, extract_bool_from_move_struct,
  extract_struct_from_move_struct, extract_u64_from_move_struct, extract_u128_from_move_struct,
}
use poison_dart.Pools.{
  sui_clock, pool_object, parse_pool, known_object, get_or_init, other_coin, coin_across, is_first,
}

abbrev pub flowx_clmm : String
flowx_clmm = "0x25929e7f29e0a30eb4e692952ba1b5b65a3a4d65ab5f2a32e1ba3edcb587f26d"

abbrev pub versioned_id : String
versioned_id = "0x67624a1533b5aff5d0dfcf5e598684350efd38134d2d245f475524c03a64e656"

abbrev pub pool_registry_id : String
pool_registry_id = "0x27565d24a4cd51127ac90e4074a841bbe356cca7bf5759ddc14a975be1632abc"

pub record ObjectArgs : Type 0 where
  pub pool_registry : ObjectArg
  pub versioned : ObjectArg
  pub clock : ObjectArg

pub record FlowxClmm : Type 0 where
  pub pool : Pool
  pub liquidity : ℕ
  pub coin_in_type : String
  pub coin_out_type : String
  pub fee : ℕ
  pub type_params : List String
  pub pool_registry : ObjectArg
  pub versioned : ObjectArg
  pub clock : ObjectArg

module _ {C L S V : Type 0} (chain : Chain C L S) (move : MoveOps S V) where
  -- The objects are fetched once, and kept in the cell `cache`.
  unfoldable pub get_object_args : (cache : Option ObjectArgs) → Result ObjectArgs
  unfolding get_or_init known_object
  get_object_args cache = get_or_init cache (do
    pool_registry ← known_object chain pool_registry_id true
    versioned ← known_object chain versioned_id false
    clock ← known_object chain sui_clock false
    ok (record { pool_registry = pool_registry; versioned = versioned; clock = clock }))

  unfoldable pub new :
      (cache : Option ObjectArgs) → Pool → (coin_in_type : String) → Result FlowxClmm
  unfolding pool_object parse_pool coin_across shared_obj_arg extract_bool_from_move_struct
      extract_struct_from_move_struct extract_u64_from_move_struct extract_u128_from_move_struct
      get_object_args
  new cache pool coin_in_type = do
    ensure (elim (pool.protocol) [ Protocol.flowx_clmm ↦ true | _ ↦ false ]) "not a FlowxClmm pool"
    pool_obj ← pool_object chain pool
    parsed_pool ← parse_pool chain pool pool_obj
    liquidity ← extract_u128_from_move_struct move parsed_pool "liquidity"
    coin_out_type ← coin_across pool coin_in_type
    fee ← elim (pool.extra) [
      | PoolExtra.flowx_clmm fee_rate ↦ ok fee_rate
      | _ ↦ err "invalid pool extra"
    ]
    tag_in ← chain.type_tag coin_in_type
    tag_out ← chain.type_tag coin_out_type
    args ← get_object_args cache
    ok (record {
      pool = pool;
      liquidity = liquidity;
      coin_in_type = coin_in_type;
      coin_out_type = coin_out_type;
      fee = fee;
      type_params = tag_in ∷ tag_out ∷ [];
      pool_registry = args.pool_registry;
      versioned = args.versioned;
      clock = args.clock;
    })

unfoldable pub flip : FlowxClmm → FlowxClmm
flip d = record d {
  coin_in_type = d.coin_out_type;
  coin_out_type = d.coin_in_type;
  type_params = reverse d.type_params;
}

unfoldable pub is_a2b : FlowxClmm → Bool
unfolding is_first
is_a2b d = is_first d.pool d.coin_in_type
