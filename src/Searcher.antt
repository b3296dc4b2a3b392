-- ===== src/Searcher.antt =====
-- `bin/arb/src/defi/indexer_searcher.rs`: the pools of a coin, made of what the index has of it.

pub mod Finds
use poison_dart.Base.{
  ℕ, Bool, true, false, Option, none, some, List, [], ◌∷◌, ◌++◌, map, String, reverse, get_elem?,
  Result, ok, err, ok_or, ◌>>=◌,
}
use poison_dart.Dex.{DexPath, sui_coin_type}
use poison_dart.Index.{Protocol, Pool}
use poison_dart.Move.{MoveOps, Chain}
use poison_dart.Pools.KriyaAmm as kriya_amm_pool
use poison_dart.Pools.Turbos as turbos_pool
use poison_dart.Pools.BlueMove as blue_move_pool
use poison_dart.Pools.DeepbookV2 as deepbook_v2_pool
use poison_dart.Pools.KriyaClmm as kriya_clmm_pool
use poison_dart.Pools.Cetus as cetus_pool
use poison_dart.Pools.FlowxClmm as flowx_clmm_pool
use poison_dart.Pools.Aftermath as aftermath_pool
use poison_dart.Pools.Dexes.{AnyDex, coin_out_type}

-- `Vec::pop`, of which only the value is used.
unfoldable pub pop : {A : Type 0} → List A → Option A
pop [] = none
pop (a ∷ []) = some a
pop (a ∷ b ∷ rest) = pop (b ∷ rest)

-- The cells of the protocols that keep the shared objects.
pub record Cells : Type 0 where
  pub turbos_cell : Option turbos_pool.ObjectArgs
  pub blue_move_cell : Option blue_move_pool.ObjectArgs
  pub deepbook_v2_cell : Option deepbook_v2_pool.ObjectArgs
  pub kriya_clmm_cell : Option kriya_clmm_pool.ObjectArgs
  pub cetus_cell : Option cetus_pool.ObjectArgs
  pub flowx_clmm_cell : Option flowx_clmm_pool.ObjectArgs
  pub aftermath_cell : Option aftermath_pool.ObjectArgs

-- What the searcher asks of the index.
pub record Indexer : Type 0 where
  pub get_pools_by_token : String → Option (List Pool)
  pub get_pools_by_token01 : String → String → Option (List Pool)
  pub get_pool_by_id : ℕ → Option Pool

module _ {C L S V : Type 0} (chain : Chain C L S) (move : MoveOps S V) (cells : Cells) where
  unfoldable pub new_dexes :
      Pool → (token_in_type : String) → (token_out_type : Option String) → Result (List AnyDex)
  unfolding kriya_amm_pool.new turbos_pool.new blue_move_pool.new deepbook_v2_pool.new
      kriya_clmm_pool.new cetus_pool.new flowx_clmm_pool.new aftermath_pool.new
  new_dexes pool token_in_type token_out_type = elim (pool.protocol) [
    | Protocol.kriya_amm ↦ do
      dex ← kriya_amm_pool.new chain move pool token_in_type
      ok (AnyDex.kriya_amm dex ∷ [])
    | Protocol.turbos ↦ do
      dex ← turbos_pool.new chain move cells.turbos_cell pool token_in_type
      ok (AnyDex.turbos dex ∷ [])
    | Protocol.blue_move ↦ do
      dex ← blue_move_pool.new chain move cells.blue_move_cell pool token_in_type
      ok (AnyDex.blue_move dex ∷ [])
    | Protocol.deepbook_v2 ↦ do
      dex ← deepbook_v2_pool.new chain move cells.deepbook_v2_cell pool token_in_type
      ok (AnyDex.deepbook_v2 dex ∷ [])
    | Protocol.kriya_clmm ↦ do
      dex ← kriya_clmm_pool.new chain move cells.kriya_clmm_cell pool token_in_type
      ok (AnyDex.kriya_clmm dex ∷ [])
    | Protocol.cetus ↦ do
      dex ← cetus_pool.new chain move cells.cetus_cell pool token_in_type
      ok (AnyDex.cetus dex ∷ [])
    | Protocol.flowx_clmm ↦ do
      dex ← flowx_clmm_pool.new chain move cells.flowx_clmm_cell pool token_in_type
      ok (AnyDex.flowx_clmm dex ∷ [])
    | Protocol.aftermath ↦ do
      dexes ← aftermath_pool.new chain move cells.aftermath_cell pool token_in_type token_out_type
      ok (map AnyDex.aftermath dexes)
    | _ ↦ err "unsupported protocol"
  ]

  module _ (panics : Pool → Bool) where
    -- The tasks of the pools, in the order in which they end. An error skips its pool; a task that
    -- panics ends the loop.
    unfoldable pub join_dexes :
        (token_in_type : String) (token_out_type : Option String) → List Pool → List AnyDex
    unfolding new_dexes
    join_dexes token_in_type token_out_type [] = []
    join_dexes token_in_type token_out_type (pool ∷ pools) =
        let rest = join_dexes token_in_type token_out_type pools in
        elim (panics pool) [
          | true ↦ []
          | false ↦ elim (new_dexes pool token_in_type token_out_type) [
            | ok dexes ↦ dexes ++ rest
            | err _ ↦ rest
          ]
        ]

  module _ (indexer : Indexer) where
    unfoldable pub find_dexes :
        (panics : Pool → Bool) → String → Option String → Result (List AnyDex)
    unfolding join_dexes
    find_dexes panics token_in_type token_out_type = do
      pools ←
          ok_or
            (elim token_out_type [
              | some token_out ↦ indexer.get_pools_by_token01 token_in_type token_out
              | none ↦ indexer.get_pools_by_token token_in_type
            ])
            "pools not found"
      ok (join_dexes panics token_in_type token_out_type pools)

    -- The loop of `find_test_path`.
    unfoldable pub test_path : (coin_in : String) → List ℕ → Result (List AnyDex)
    unfolding new_dexes coin_out_type pop
    test_path coin_in [] = ok []
    test_path coin_in (pool_id ∷ ids) = do
      pool ← ok_or (indexer.get_pool_by_id pool_id) "pool not found"
      dexes ← new_dexes pool coin_in none
      dex ← ok_or (pop dexes) "unwrap"
      rest ← test_path (coin_out_type dex) ids
      ok (dex ∷ rest)

    unfoldable pub find_test_path : List ℕ → Result (DexPath AnyDex)
    unfolding test_path
    find_test_path path = do dexes ← test_path sui_coin_type path; ok (record { path = dexes })
