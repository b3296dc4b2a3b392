-- ===== src/Index.antt =====
-- `crates/dex-indexer/src/types.rs`: pools with their tokens, swap events, and the protocols.
pub mod Names
pub mod Pairs
pub mod Cache
pub mod Files
pub mod FileDb
pub mod Backfill
use poison_dart.Base.{
  ℕ, zero, suc, Option, none, some, List, [], ◌∷◌, ◌++◌, map, String, ite, str_dec, get_elem?,
  length, Result, ok, err, ok_or, ◌>>=◌,
}
use poison_dart.Dex.{sui_coin_type}

pub data Protocol : Type 0 where
  cetus turbos aftermath kriya_amm kriya_clmm flowx_amm flowx_clmm deepbook_v2 deepbook_v3 volo
        blue_move sui_swap interest abex baby_swap navi :
      Protocol

-- `Display`.
unfoldable pub to_string : Protocol → String
to_string Protocol.cetus = "cetus"
to_string Protocol.turbos = "turbos"
to_string Protocol.aftermath = "aftermath"
to_string Protocol.kriya_amm = "kriya_amm"
to_string Protocol.kriya_clmm = "kriya_clmm"
to_string Protocol.flowx_amm = "flowx_amm"
to_string Protocol.flowx_clmm = "flowx_clmm"
to_string Protocol.deepbook_v2 = "deepbook_v2"
to_string Protocol.deepbook_v3 = "deepbook_v3"
to_string Protocol.volo = "volo"
to_string Protocol.blue_move = "blue_move"
to_string Protocol.sui_swap = "suiswap"
to_string Protocol.interest = "interest"
to_string Protocol.abex = "abex"
to_string Protocol.baby_swap = "babyswap"
to_string Protocol.navi = "navi"

-- The arms of the `match` in `TryFrom<&str>`, in order.
abbrev pub arms : List (String × Protocol)
arms =
    ("cetus", Protocol.cetus)
    ∷ ("turbos", Protocol.turbos)
    ∷ ("aftermath", Protocol.aftermath)
    ∷ ("kriya_amm", Protocol.kriya_amm)
    ∷ ("kriya_clmm", Protocol.kriya_clmm)
    ∷ ("flowx_amm", Protocol.flowx_amm)
    ∷ ("flowx_clmm", Protocol.flowx_clmm)
    ∷ ("deepbook_v2", Protocol.deepbook_v2)
    ∷ ("deepbook_v3", Protocol.deepbook_v3)
    ∷ ("volo", Protocol.volo)
    ∷ ("blue_move", Protocol.blue_move)
    ∷ ("suiswap", Protocol.sui_swap)
    ∷ ("interest", Protocol.interest)
    ∷ ("abex", Protocol.abex)
    ∷ ("babyswap", Protocol.baby_swap)
    ∷ ("navi", Protocol.navi)
    ∷ []

unfoldable pub match_arms : String → List (String × Protocol) → Result Protocol
match_arms value [] = err "Unsupported protocol"
match_arms value (arm ∷ rest) = ite (str_dec value arm.0) (ok arm.1) (match_arms value rest)

unfoldable pub try_from : String → Result Protocol
unfolding match_arms
try_from value = match_arms value arms

pub record Token : Type 0 where
  pub token_type : String
  pub decimals : ℕ

-- What a pool keeps of its protocol. Fees are in units of the protocol.
pub data PoolExtra : Type 0 where
  no_extra : PoolExtra
  cetus : (fee_rate : ℕ) → PoolExtra
  turbos : (fee : ℕ) → PoolExtra
  aftermath :
      (lp_type : String) (fees_swap_in fees_swap_out fees_deposit fees_withdraw : List ℕ)
      → PoolExtra
  kriya_amm : (lp_fee_percent protocol_fee_percent : ℕ) → PoolExtra
  kriya_clmm : (fee_rate : ℕ) → PoolExtra
  flowx_amm : (fee_rate : ℕ) → PoolExtra
  flowx_clmm : (fee_rate : ℕ) → PoolExtra
  deepbook_v2 : (taker_fee_rate maker_rebate_rate tick_size lot_size : ℕ) → PoolExtra

pub record Pool : Type 0 where
  pub protocol : Protocol
  pub pool : ℕ
  pub tokens : List Token
  pub extra : PoolExtra

-- `token0_type` and `token1_type`. An index out of bounds panics, here an error.
unfoldable pub token_type_at : Pool → ℕ → Result String
token_type_at p i = do t ← ok_or (get_elem? p.tokens i) "index out of bounds"; ok t.token_type

-- `iter().position(...)`.
unfoldable pub position : String → List Token → Option ℕ
position token_type [] = none
position token_type (t ∷ ts) =
    ite (str_dec t.token_type token_type) (some 0)
      (elim (position token_type ts) [ none ↦ none | some i ↦ some (suc i) ])

unfoldable pub token_index : Pool → String → Option ℕ
unfolding position
token_index p token_type = position token_type p.tokens

-- The two loops of `token01_pairs`: each token with those after it.
unfoldable pub pairs_of : List Token → List (String × String)
pairs_of [] = []
pairs_of (t ∷ ts) = map (λ u. (t.token_type, u.token_type)) ts ++ pairs_of ts

unfoldable pub token01_pairs : Pool → List (String × String)
unfolding pairs_of
token01_pairs p = pairs_of p.tokens

pub record SwapEvent : Type 0 where
  pub protocol : Protocol
  pub pool : Option ℕ
  pub coins_in : List String
  pub coins_out : List String

-- An event without a coin panics: none.
unfoldable pub involved_coin_one_side : SwapEvent → Option String
involved_coin_one_side e = elim (get_elem? e.coins_in 0) [
  | none ↦ none
  | some coin_in ↦ ite (str_dec coin_in sui_coin_type) (get_elem? e.coins_out 0) (some coin_in)
]
