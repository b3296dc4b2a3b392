-- ===== src/Paths.antt =====
-- `bin/arb/src/defi/mod.rs`, `Defi::find_sell_paths`, `Defi::find_buy_paths` and `dfs`: the paths
-- from a coin to SUI over the pools that the searcher finds, and back.
pub mod Routes
pub mod Selected
pub mod Count
pub mod Ends
use poison_dart.Base.{
  ℕ, zero, suc, Bool, true, false, not, ◌&&◌, ◌||◌, Option, none, some, List, [], ◌∷◌, ◌++◌, map,
  reverse, String, ltb, leb, ◌==◌, if◌then◌else◌, ite, str_dec, length, take, Result, ok, err,
  ◌>>=◌,
}
use poison_dart.Base.Map
use poison_dart.Base.Map.{Map}
use poison_dart.Dex.{DexOps, DexPath, sui_coin_type, is_native_coin}

abbrev pub max_hop_count : ℕ
max_hop_count = 2

abbrev pub max_pool_count : ℕ
max_pool_count = 10

abbrev pub min_liquidity : ℕ
min_liquidity = 1000

-- `bin/arb/src/config.rs`.
abbrev pub pegged_coin_types : List String
pegged_coin_types =
    sui_coin_type ∷ "0x5d4b302506645c37ff133b98c4b50a5ae14841659738d6d733d59d0d217a93bf::coin::COIN"
    ∷ "0xc060006111016b8a020ad5b33834984a437aaa7d3c74c18e09a95d48aceab08c::coin::COIN"
    ∷ "0xaf8cd5edc19c4512f4259f0bee101a40d41ebed738ade5874359610ef8eeced5::coin::COIN"
    ∷ "0xb231fcda8bbddb31f2ef02e6161444aec64a514e2c89279584ac9806ce9cf037::coin::COIN"
    ∷ "0xdba34672e30cb065b1f93e3ab55318768fd6fef66c15942c9f7cb846e2f900e7::usdc::USDC"
    ∷ "0xce7ff77a83ea0cb6fd39bd8748e2ec89a3f41e8efdc3f4eb123e0ca37b184db2::buck::BUCK" ∷ []

-- The sets of texts and of object ids.
unfoldable pub has_coin : List String → String → Bool
has_coin [] coin = false
has_coin (c ∷ coins) coin = ite (str_dec c coin) true (has_coin coins coin)

unfoldable pub has_id : List ℕ → ℕ → Bool
has_id [] id = false
has_id (i ∷ ids) id = i == id || has_id ids id

module _ {ℓ} {D : Type ℓ} where
  -- `Vec::retain`.
  unfoldable pub retain : (D → Bool) → List D → List D
  retain keep [] = []
  retain keep (d ∷ ds) = if keep d then d ∷ retain keep ds else retain keep ds

-- The variables of the two loops. The head of a stack is its top.
pub record Hops {ℓ} (D : Type ℓ) : Type ℓ where
  pub all_hops : Map (List D)
  pub new_stack : List String
  pub visited : List String
  pub visited_dexes : List ℕ

module _ {ℓ} {D : Type ℓ} (ops : DexOps D) where
  open ops use {coin_out_type, liquidity, object_id}

  -- `sort_by_key(Reverse(liquidity))`, a stable sort.
  unfoldable pub sort_in : D → List D → List D
  sort_in d [] = d ∷ []
  sort_in d (e ∷ ds) = if ltb (liquidity d) (liquidity e) then e ∷ sort_in d ds else d ∷ e ∷ ds

  unfoldable pub sort_by_liquidity : List D → List D
  unfolding sort_in
  sort_by_liquidity [] = []
  sort_by_liquidity (d ∷ ds) = sort_in d (sort_by_liquidity ds)

  -- Which of the pools that were found are kept.
  unfoldable pub select : (visited_dexes : List ℕ) → List D → List D
  unfolding retain sort_by_liquidity has_id
  select visited_dexes found =
      let dexes = retain (λ d. leb min_liquidity (liquidity d)) found in
      if ltb max_pool_count (length dexes)
      then take max_pool_count
          (sort_by_liquidity (retain (λ d. not (has_id visited_dexes (object_id d))) dexes))
      else dexes

  -- `for dex in &dexes`.
  unfoldable pub note_dexes : List D → Hops D → Hops D
  unfolding has_coin
  note_dexes [] h = h
  note_dexes (d ∷ ds) h = note_dexes ds (record h {
    new_stack =
        if has_coin h.visited (coin_out_type d) then h.new_stack else coin_out_type d ∷ h.new_stack;
    visited_dexes = object_id d ∷ h.visited_dexes;
  })

  -- The kept pools of a coin enter the hops, unless there are none.
  unfoldable pub add_hops : String → List D → Hops D → Hops D
  unfolding note_dexes
  add_hops coin_type [] h = h
  add_hops coin_type (d ∷ ds) h =
      let h' = note_dexes (d ∷ ds) h in
      record h' { all_hops = Map.insert h'.all_hops coin_type (d ∷ ds) }

  module _ (find_dexes : String → Option String → Result (List D)) where
    -- The body of the inner loop.
    unfoldable pub visit : (is_last_hop : Bool) → String → Hops D → Hops D
    unfolding add_hops select has_coin is_native_coin
    visit is_last_hop coin_type h =
        if has_coin h.visited coin_type || is_native_coin coin_type
        then h
        else (let h' = record h { visited = coin_type ∷ h.visited } in
            let coin_out_type =
              if has_coin pegged_coin_types coin_type || is_last_hop
              then some sui_coin_type
              else none in
            elim (find_dexes coin_type coin_out_type) [
              | ok found ↦ add_hops coin_type (select h'.visited_dexes found) h'
              | err _ ↦ h'
            ])

    -- `while let Some(coin_type) = stack.pop()`.
    unfoldable pub drain : (is_last_hop : Bool) → (stack : List String) → Hops D → Hops D
    unfolding visit
    drain is_last_hop [] h = h
    drain is_last_hop (coin_type ∷ stack) h =
        drain is_last_hop stack (visit is_last_hop coin_type h)

    -- `for nth_hop in 0..MAX_HOP_COUNT`, by the number of hops left.
    unfoldable pub collect : (left : ℕ) → (stack : List String) → Hops D → Hops D
    unfolding drain
    collect zero stack h = h
    collect (suc zero) stack h = drain true stack (record h { new_stack = [] })
    collect (suc (suc left)) stack h =
        let h' = drain false stack (record h { new_stack = [] }) in
        collect (suc left) h'.new_stack h'

    unfoldable pub all_hops_from : String → Map (List D)
    unfolding collect
    all_hops_from coin_in_type =
        (collect max_hop_count (coin_in_type ∷ []) (record {
          all_hops = Map.empty;
          new_stack = [];
          visited = [];
          visited_dexes = [];
        })).all_hops

  -- The loop of `dfs` over the pools of a hop, with the recursive call for an argument.
  unfoldable pub dfs_each :
      (String → List D → List (List D)) → (path : List D) → List D → List (List D)
  dfs_each go path [] = []
  dfs_each go path (d ∷ ds) = go (coin_out_type d) (path ++ d ∷ []) ++ dfs_each go path ds

  -- `dfs`, with fuel for its depth: the routes in the order in which they are pushed.
  unfoldable pub dfs : (fuel : ℕ) → String → (path : List D) → Map (List D) → List (List D)
  unfolding dfs_each is_native_coin
  dfs zero coin_type path hops = []
  dfs (suc fuel) coin_type path hops = elim (is_native_coin coin_type) [
    | true ↦ path ∷ []
    | false ↦ elim (leb max_hop_count (length path)) [
      | true ↦ []
      | false ↦ elim (hops coin_type) [
        | none ↦ []
        | some dexes ↦ dfs_each (λ coin path'. dfs fuel coin path' hops) path dexes
      ]
    ]
  ]

  module _ (find_dexes : String → Option String → Result (List D)) where
    unfoldable pub find_sell_paths : String → Result (List (DexPath D))
    unfolding all_hops_from dfs is_native_coin
    find_sell_paths coin_in_type =
        if is_native_coin coin_in_type
        then ok (record { path = [] } ∷ [])
        else ok (
            map (λ r. record { path = r })
              (dfs (suc max_hop_count) coin_in_type [] (all_hops_from find_dexes coin_in_type)))

    unfoldable pub find_buy_paths : String → Result (List (DexPath D))
    unfolding find_sell_paths
    find_buy_paths coin_out_type = do
      paths ← find_sell_paths coin_out_type
      ok (map (λ p. record { path = map ops.flip (reverse p.path) }) paths)
