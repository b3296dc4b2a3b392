-- ===== src/Pools/KriyaAmm.antt =====
-- `bin/arb/src/defi/kriya_amm.rs`: the pool.
pub mod Swap
use poison_dart.Base.{
  ℕ, zero, Bool, true, false, not, Option, none, some, List, [], ◌∷◌, String, str_dec, ite,
  if◌then◌else◌, Result, ok, err, ensure, ok_or, get_elem?, ◌>>=◌, ◌>>◌,
}
use poison_dart.Index.{Protocol, Pool, PoolExtra, token_type_at}
use poison_dart.Move.{
  ObjectArg, Object, MoveOps, Chain, shared_obj_arg, extract_bool_from_move_struct,
  extract_struct_from_move_struct, extract_u64_from_move_struct, extract_u128_from_move_struct,
}
use poison_dart.Pools.{
  sui_clock, pool_object, parse_pool, known_object, get_or_init, other_coin, coin_across, is_first,
}

pub record KriyaAmm : Type 0 where
  pub pool : Pool
  pub pool_arg : ObjectArg
  pub liquidity : ℕ
  pub coin_in_type : String
  pub coin_out_type : String
  pub type_params : List String

module _ {C L S V : Type 0} (chain : Chain C L S) (move : MoveOps S V) where
  unfoldable pub new : Pool → (coin_in_type : String) → Result KriyaAmm
  unfolding pool_object parse_pool other_coin shared_obj_arg extract_bool_from_move_struct
      extract_struct_from_move_struct extract_u64_from_move_struct extract_u128_from_move_struct
  new pool coin_in_type = do
    ensure (elim (pool.protocol) [ Protocol.kriya_amm ↦ true | _ ↦ false ]) "not a KriyaAmm pool"
    pool_obj ← pool_object chain pool
    parsed_pool ← parse_pool chain pool pool_obj
    is_swap_enabled ← extract_bool_from_move_struct move parsed_pool "is_swap_enabled"
    ensure is_swap_enabled "swap is not enabled"
    lsp_supply ← extract_struct_from_move_struct move parsed_pool "lsp_supply"
    liquidity ← extract_u64_from_move_struct move lsp_supply "value"
    coin_out_type ← other_coin pool coin_in_type
    ok (record {
      pool = pool;
      pool_arg = shared_obj_arg pool_obj true;
      liquidity = liquidity;
      coin_in_type = coin_in_type;
      coin_out_type = coin_out_type;
      type_params = move.type_params parsed_pool;
    })

unfoldable pub flip : KriyaAmm → KriyaAmm
flip d = record d { coin_in_type = d.coin_out_type; coin_out_type = d.coin_in_type }

unfoldable pub is_a2b : KriyaAmm → Bool
unfolding is_first
is_a2b d = is_first d.pool d.coin_in_type
