-- ===== src/Pools/Aftermath.antt =====
-- `bin/arb/src/defi/aftermath.rs`: the pool, of any number of coins, each with a balance, a weight
-- and fees of its own.
pub mod Swap
use poison_dart.Base.{
  ℕ, suc, Bool, true, false, Option, none, some, List, [], ◌∷◌, ◌++◌, String, ite, str_dec, Result,
  ok, err, ensure, ok_or, get_elem?, ◌>>=◌, ◌>>◌,
}
use poison_dart.Index.{Protocol, Token, Pool, token_index}
use poison_dart.Move.{
  ObjectArg, MoveOps, Chain, id, shared_obj_arg, extract_struct_from_move_struct,
  extract_u64_from_move_struct, extract_u64_vec_from_move_struct, extract_u128_vec_from_move_struct,
}
use poison_dart.Pools.Price.{calculate_expected_out}
use poison_dart.Pools.{pool_object, parse_pool, known_object, get_or_init}

abbrev pub pool_registry_id : String
pool_registry_id = "0xfcc774493db2c45c79f688f88d28023a3e7d98e4ee9f48bbf5c7990f651577ae"

abbrev pub protocol_fee_vault_id : String
protocol_fee_vault_id = "0xf194d9b1bcad972e45a7dd67dd49b3ee1e3357a00a50850c52cd51bb450e13b4"

abbrev pub treasury_id : String
treasury_id = "0x28e499dff5e864a2eafe476269a4f5035f1c16f338da7be18b103499abf271ce"

abbrev pub insurance_fund_id : String
insurance_fund_id = "0xf0c40d67b078000e18032334c3325c47b9ec9f3d9ae4128be820d54663d14e3b"

abbrev pub referral_vault_id : String
referral_vault_id = "0x35d35b0e5b177593d8c3a801462485572fc30861e6ce96a55af6dc4730709278"

pub record ObjectArgs : Type 0 where
  pub pool_registry : ObjectArg
  pub protocol_fee_vault : ObjectArg
  pub treasury : ObjectArg
  pub insurance_fund : ObjectArg
  pub referral_vault : ObjectArg

-- The struct, with the shared objects in one field.
pub record Aftermath : Type 0 where
  pub pool_arg : ObjectArg
  pub liquidity : ℕ
  pub coin_in_type : String
  pub coin_out_type : String
  pub type_params : List String
  pub object_args : ObjectArgs
  pub balances : List ℕ
  pub weights : List ℕ
  pub swap_fee_in : ℕ
  pub swap_fee_out : ℕ
  pub index_in : ℕ
  pub index_out : ℕ

module _ {C L S V : Type 0} (chain : Chain C L S) (move : MoveOps S V) where
  -- The objects are fetched once, and kept in the cell `cache`.
  unfoldable pub get_object_args : (cache : Option ObjectArgs) → Result ObjectArgs
  unfolding get_or_init known_object
  get_object_args cache = get_or_init cache (do
    pool_registry ← known_object chain pool_registry_id false
    protocol_fee_vault ← known_object chain protocol_fee_vault_id false
    treasury ← known_object chain treasury_id true
    insurance_fund ← known_object chain insurance_fund_id true
    referral_vault ← known_object chain referral_vault_id false
    ok (record {
      pool_registry = pool_registry;
      protocol_fee_vault = protocol_fee_vault;
      treasury = treasury;
      insurance_fund = insurance_fund;
      referral_vault = referral_vault;
    }))

  -- A swap of the pool towards one coin: `base` has what all of them share, the fees beside it.
  unfoldable pub towards :
      Aftermath
      → (fees_swap_in fees_swap_out : List ℕ) → (coin_out_type : String) → (index_out : ℕ)
      → Result Aftermath
  towards base fees_swap_in fees_swap_out coin_out_type index_out = do
    coin_out_type_tag ← chain.type_tag coin_out_type
    swap_fee_in ← ok_or (get_elem? fees_swap_in base.index_in) "index out of bounds"
    swap_fee_out ← ok_or (get_elem? fees_swap_out index_out) "index out of bounds"
    ok (record base {
      coin_out_type = coin_out_type;
      type_params = base.type_params ++ coin_out_type_tag ∷ [];
      swap_fee_in = swap_fee_in;
      swap_fee_out = swap_fee_out;
      index_out = index_out;
    })

  -- The loop over the tokens, from an index on: one swap towards each other coin.
  unfoldable pub towards_each :
      Aftermath
      → (fees_swap_in fees_swap_out : List ℕ) → (index : ℕ) → List Token
      → Result (List Aftermath)
  unfolding towards
  towards_each base fees_swap_in fees_swap_out index [] = ok []
  towards_each base fees_swap_in fees_swap_out index (t ∷ ts) =
      let rest = towards_each base fees_swap_in fees_swap_out (suc index) ts in
      ite (str_dec t.token_type base.coin_in_type) rest
        (do d ← towards base fees_swap_in fees_swap_out t.token_type index; ds ← rest; ok (d ∷ ds))

  -- What `new` reads before it looks at the coin that goes out: all but this coin and the fees, and
  -- the fees of all coins.
  unfoldable pub prepare :
      (cache : Option ObjectArgs)
      → Pool
      → (coin_in_type : String) → Result (Aftermath × List ℕ × List ℕ)
  unfolding pool_object parse_pool extract_struct_from_move_struct extract_u64_from_move_struct
      extract_u128_vec_from_move_struct extract_u64_vec_from_move_struct token_index shared_obj_arg
      get_object_args
  prepare cache pool coin_in_type = do
    ensure (elim (pool.protocol) [ Protocol.aftermath ↦ true | _ ↦ false ]) "not a Aftermath pool"
    pool_obj ← pool_object chain pool
    parsed_pool ← parse_pool chain pool pool_obj
    lp_supply ← extract_struct_from_move_struct move parsed_pool "lp_supply"
    liquidity ← extract_u64_from_move_struct move lp_supply "value"
    balances ← extract_u128_vec_from_move_struct move parsed_pool "normalized_balances"
    weights ← extract_u64_vec_from_move_struct move parsed_pool "weights"
    fees_swap_in ← extract_u64_vec_from_move_struct move parsed_pool "fees_swap_in"
    fees_swap_out ← extract_u64_vec_from_move_struct move parsed_pool "fees_swap_out"
    index_in ← ok_or (token_index pool coin_in_type) "unwrap"
    coin_in_type_tag ← chain.type_tag coin_in_type
    object_args ← get_object_args cache
    let base : Aftermath = record {
      pool_arg = shared_obj_arg pool_obj true;
      liquidity = liquidity;
      coin_in_type = coin_in_type;
      coin_out_type = coin_in_type;
      type_params = move.type_params parsed_pool ++ coin_in_type_tag ∷ [];
      object_args = object_args;
      balances = balances;
      weights = weights;
      swap_fee_in = 0;
      swap_fee_out = 0;
      index_in = index_in;
      index_out = index_in;
    }
    ok (base, fees_swap_in, fees_swap_out)

  unfoldable pub new :
      (cache : Option ObjectArgs)
      → Pool
      → (coin_in_type : String) → (coin_out_type : Option String) → Result (List Aftermath)
  unfolding prepare token_index towards towards_each
  new cache pool coin_in_type coin_out_type = do
    p ← prepare cache pool coin_in_type
    elim coin_out_type [
      | some coin_out ↦ do
        index_out ← ok_or (token_index pool coin_out) "unwrap"
        d ← towards p.0 p.1 p.2 coin_out index_out
        ok (d ∷ [])
      | none ↦ towards_each p.0 p.1 p.2 0 pool.tokens
    ]

-- `flip` exchanges the two coins, and nothing else.
unfoldable pub flip : Aftermath → Aftermath
flip d = record d { coin_in_type = d.coin_out_type; coin_out_type = d.coin_in_type }

unfoldable pub object_id : Aftermath → ℕ
unfolding id
object_id d = id d.pool_arg

unfoldable pub nth : List ℕ → ℕ → Result ℕ
nth xs i = ok_or (get_elem? xs i) "index out of bounds"

unfoldable pub expect_amount_out : Aftermath → (amount_in : ℕ) → Result ℕ
unfolding nth calculate_expected_out
expect_amount_out d amount_in = do
  balance_in ← nth d.balances d.index_in
  balance_out ← nth d.balances d.index_out
  weight_in ← nth d.weights d.index_in
  weight_out ← nth d.weights d.index_out
  calculate_expected_out balance_in balance_out weight_in weight_out d.swap_fee_in d.swap_fee_out
      amount_in

unfoldable pub is_a2b : Aftermath → Bool
is_a2b d = false
