-- ===== src/Index/Cache.antt =====
-- `crates/dex-indexer/src/lib.rs`, and what `file_db.rs` and `strategy.rs` do with the cache of pools.
-- The maps that threads share are passed on; a `HashSet` of pools is the list of its pools.
pub mod Filed
pub mod Found
use poison_dart.Base.{
  ℕ, ◌≡◌, ap, Bool, true, false, Option, none, some, List, [], ◌∷◌, map, String, str_dec, ite,
  if◌then◌else◌, ◌==◌,
}
use poison_dart.Base.Texts.{str_lt}
use poison_dart.Dex.{sui_coin_type}
use poison_dart.Index.{Protocol, Pool, Token, token01_pairs}

unfoldable pub supported_protocols : List Protocol
supported_protocols =
    Protocol.cetus ∷ Protocol.turbos ∷ Protocol.aftermath ∷ Protocol.kriya_amm ∷ Protocol.kriya_clmm
    ∷ Protocol.flowx_clmm ∷ Protocol.deepbook_v2 ∷ Protocol.blue_move ∷ []

unfoldable pub token01_key : (token0_type token1_type : String) → String × String
unfolding str_lt
token01_key token0_type token1_type =
    if str_lt token0_type token1_type
    then (token0_type, token1_type)
    else (token1_type, token0_type)

unfoldable pub normalize_coin_type : String → String
normalize_coin_type coin_type =
    ite
      (str_dec coin_type
        "0x0000000000000000000000000000000000000000000000000000000000000002::sui::SUI")
      sui_coin_type coin_type

-- Pools are equal when their ids are.
unfoldable pub contains : ℕ → List Pool → Bool
contains id [] = false
contains id (p ∷ ps) = let rest = contains id ps in if p.pool == id then true else rest

-- `HashSet::insert` keeps what is there.
unfoldable pub insert_pool : Pool → List Pool → List Pool
unfolding contains
insert_pool p ps = if contains p.pool ps then ps else p ∷ ps

pub pair_dec : (a b : String × String) → Dec (a ≡ b)
pair_dec a b = elim (str_dec a.0 b.0) [
  | no n ↦ no (λ e. n (ap (λ (p : String × String). p.0) e))
  | yes e ↦ elim (str_dec a.1 b.1) [
    | no n ↦ no (λ e. n (ap (λ (p : String × String). p.1) e))
    | yes e' ↦ yes (λ i. (e i, e' i))
  ]
]

module _ {K : Type 0} (key_dec : (a b : K) → Dec (a ≡ b)) where
  -- `entry(key).or_default().insert(pool)`.
  unfoldable pub file_under : (K → Option (List Pool)) → K → Pool → K → Option (List Pool)
  unfolding insert_pool
  file_under m key pool j =
      ite (key_dec j key)
        (some (insert_pool pool (elim (m key) [ some pools ↦ pools | none ↦ [] ]))) (m j)

  unfoldable pub file_all : (K → Option (List Pool)) → List K → Pool → K → Option (List Pool)
  unfolding file_under
  file_all m [] pool = m
  file_all m (key ∷ keys) pool = file_all (file_under m key pool) keys pool

pub record PoolCache : Type 0 where
  pub token_pools : String → Option (List Pool)
  pub token01_pools : String × String → Option (List Pool)
  pub pool_map : ℕ → Option Pool

abbrev pub new : PoolCache
new = record { token_pools = λ _. none; token01_pools = λ _. none; pool_map = λ _. none }

unfoldable pub token_keys : Pool → List String
token_keys pool = map (λ (t : Token). t.token_type) pool.tokens

unfoldable pub pair_keys : Pool → List (String × String)
unfolding token01_key token01_pairs
pair_keys pool = map (λ (pair : String × String). token01_key pair.0 pair.1) (token01_pairs pool)

-- What a pool that is loaded, or that is made of an event, changes.
unfoldable pub add_pool : PoolCache → Pool → PoolCache
unfolding file_all token_keys pair_keys
add_pool cache pool = record {
  token_pools = file_all str_dec cache.token_pools (token_keys pool) pool;
  token01_pools = file_all pair_dec cache.token01_pools (pair_keys pool) pool;
  pool_map = λ id. if id == pool.pool then some pool else cache.pool_map id;
}

unfoldable pub add_pools : PoolCache → List Pool → PoolCache
unfolding add_pool
add_pools cache [] = cache
add_pools cache (pool ∷ pools) = add_pools (add_pool cache pool) pools

unfoldable pub get_pools_by_token : PoolCache → String → Option (List Pool)
get_pools_by_token cache token_type = cache.token_pools token_type

unfoldable pub get_pools_by_token01 : PoolCache → String → String → Option (List Pool)
unfolding token01_key
get_pools_by_token01 cache token0_type token1_type =
    cache.token01_pools (token01_key token0_type token1_type)

unfoldable pub get_pool_by_id : PoolCache → ℕ → Option Pool
get_pool_by_id cache pool_id = cache.pool_map pool_id
