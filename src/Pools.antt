-- ===== src/Pools.antt =====
-- `bin/arb/src/defi`: the pools of the protocols, each with its swap and some with a flash loan. What
-- they share is here: the reading of a pool's object, the other coin, the direction of a swap.
pub mod Balances
pub mod Price
pub mod KriyaAmm
pub mod Turbos
pub mod BlueMove
pub mod DeepbookV2
pub mod KriyaClmm
pub mod Cetus
pub mod FlowxClmm
pub mod Aftermath
pub mod Dexes
pub mod Extend
pub mod Swaps
pub mod BalanceLoans
pub mod Loans
pub mod BalanceRepayments
pub mod Repayments
pub mod Laws
pub mod Added
pub mod Coins
use poison_dart.Base.{
  ℕ, zero, Bool, true, false, Option, none, some, List, String, get_elem?, ite, str_dec, Result, ok,
  err, ok_or, ◌>>=◌,
}
use poison_dart.Index.{Protocol, Pool, token_type_at, token_index}
use poison_dart.Move.{ObjectArg, Object, Chain, shared_obj_arg}
use poison_dart.Trade.{Argument, Builder, TradeCtx, default_ctx, split_coin, transfer_arg}
use poison_dart.Trade.Exec.{Exec}

-- `CETUS_AGGREGATOR` of `defi/mod.rs`.
abbrev pub cetus_aggregator : String
cetus_aggregator = "0x11451575c775a3e633437b827ecbc1eb51a5964b0302210b28f5b89880be21a2"

-- `SUI_CLOCK_OBJECT_ID` of the SDK.
abbrev pub sui_clock : String
sui_clock = "0x6"

-- `MIN_SQRT_PRICE_X64` and `MAX_SQRT_PRICE_X64` of `config.rs`.
abbrev pub min_sqrt_price_x64 : ℕ
min_sqrt_price_x64 = 4295048016

abbrev pub max_sqrt_price_x64 : ℕ
max_sqrt_price_x64 = 79226673515401279992447579055

-- An element of `type_params`. An index out of bounds panics, here an error.
unfoldable pub type_param : List String → ℕ → Result String
type_param type_params i = ok_or (get_elem? type_params i) "index out of bounds"

module _ {C L S : Type 0} (chain : Chain C L S) where
  open chain use {get_object, get_object_layout, simple_deserialize, object_id}

  unfoldable pub pool_object : Pool → Result (Object C)
  pool_object pool = ok_or (get_object pool.pool) "pool not found"

  unfoldable pub parse_pool : Pool → Object C → Result S
  parse_pool pool pool_obj = do
    layout ← ok_or (get_object_layout pool.pool) "pool layout not found"
    move_obj ← ok_or pool_obj.contents "not a move object"
    simple_deserialize move_obj layout

  -- An object that the bot knows by its id. It panics without it, here an error.
  unfoldable pub known_object : (id : String) → (is_mutable : Bool) → Result ObjectArg
  unfolding shared_obj_arg
  known_object id is_mutable = do
    obj ← ok_or (get_object (object_id id)) "unwrap"
    ok (shared_obj_arg obj is_mutable)

-- `OnceCell::get_or_init`.
unfoldable pub get_or_init : {A : Type 0} → Option A → Result A → Result A
get_or_init cache init = elim cache [ some a ↦ ok a | none ↦ init ]

-- The coin that is not put in, as most pools find it,
unfoldable pub other_coin : Pool → (coin_in_type : String) → Result String
unfolding token_type_at
other_coin pool coin_in_type = do
  token0 ← token_type_at pool 0
  ite (str_dec token0 coin_in_type) (token_type_at pool 1) (ok token0)

-- and as the others do.
unfoldable pub is_first : Pool → (coin_in_type : String) → Bool
unfolding token_index
is_first pool coin_in_type = elim (token_index pool coin_in_type) [ some zero ↦ true | _ ↦ false ]

unfoldable pub coin_across : Pool → (coin_in_type : String) → Result String
unfolding is_first token_type_at
coin_across pool coin_in_type = elim (is_first pool coin_in_type) [
  | true ↦ token_type_at pool 1
  | false ↦ token_type_at pool 0
]

-- The transaction of a single swap, for a method that swaps a coin.
module _ {B : Type 0} (builder : Builder B ObjectArg) where
  unfoldable pub swap_alone :
      (swap : Argument → Exec B Argument) → (recipient coin_in amount_in : ℕ) → Result (TradeCtx B)
  unfolding split_coin default_ctx transfer_arg
  swap_alone swap recipient coin_in amount_in = do
    coin ←
        split_coin builder (default_ctx builder) (ObjectArg.imm_or_owned_object coin_in) amount_in
    out ← swap coin.0 coin.1
    ok (transfer_arg builder out.1 recipient out.0)
