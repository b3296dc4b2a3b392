-- ===== src/Searcher/Finds.antt =====
-- What the searcher finds.
use poison_dart.Base.{
  ℕ, ◌≡◌, refl, inl, inr, Bool, Option, none, some, List, [], ◌∷◌, String, All, All-append, All-map,
  Result, ok, err, ◌>>=◌, Result-cases, Bool-cases, Option-cases, ok_err_elim, ok_injective,
  some_injective, subst,
}
use poison_dart.Dex.{DexPath, sui_coin_type}
use poison_dart.Index.{Protocol, Pool}
use poison_dart.Move.{MoveOps, Chain}
use poison_dart.Paths.Selected.{FindsFrom}
use poison_dart.Pools.KriyaAmm as kriya_amm_pool
use poison_dart.Pools.Turbos as turbos_pool
use poison_dart.Pools.BlueMove as blue_move_pool
use poison_dart.Pools.DeepbookV2 as deepbook_v2_pool
use poison_dart.Pools.KriyaClmm as kriya_clmm_pool
use poison_dart.Pools.Cetus as cetus_pool
use poison_dart.Pools.FlowxClmm as flowx_clmm_pool
use poison_dart.Pools.Aftermath as aftermath_pool
use poison_dart.Pools.Coins.{
  kriya_amm_coin, turbos_coin, blue_move_coin, deepbook_v2_coin, kriya_clmm_coin, cetus_coin,
  flowx_clmm_coin, aftermath_coin,
}
use poison_dart.Pools.Dexes.{AnyDex, coin_in_type, coin_out_type, dex_ops}
use poison_dart.Searcher.{
  Cells, Indexer, new_dexes, join_dexes, find_dexes, pop, test_path, find_test_path,
}

abbrev pub IsFrom : String → AnyDex → Type 0
IsFrom coin d = coin_in_type d ≡ coin

module _ {C L S V : Type 0} (chain : Chain C L S) (move : MoveOps S V) (cells : Cells) where
  single :
      {X : Type 0} (coin : String) (r : Result X) (f : X → AnyDex) (ds : List AnyDex)
      → ((x : X) → r ≡ ok x → IsFrom coin (f x))
      → (r >>= λ x. ok (f x ∷ [])) ≡ ok ds
      → All (IsFrom coin) ds
  single coin (ok x) f ds h e = subst (All (IsFrom coin)) (ok_injective e) (h x refl, tt)
  single coin (err m) f ds h e = absurd cc

  by_protocol :
      (p : Protocol) (pool : Pool) (coin : String) (out : Option String) (ds : List AnyDex)
      → pool.protocol ≡ p
      → new_dexes chain move cells pool coin out ≡ ok ds
      → All (IsFrom coin) ds
  unfolding new_dexes coin_in_type
  by_protocol Protocol.kriya_amm pool coin out ds s e =
      single coin (kriya_amm_pool.new chain move pool coin) AnyDex.kriya_amm ds
        (λ d q. kriya_amm_coin chain move pool coin d q) (rw (new_dexes, s) at e)
  by_protocol Protocol.turbos pool coin out ds s e =
      single coin (turbos_pool.new chain move cells.turbos_cell pool coin) AnyDex.turbos ds
        (λ d q. turbos_coin chain move cells.turbos_cell pool coin d q) (rw (new_dexes, s) at e)
  by_protocol Protocol.blue_move pool coin out ds s e =
      single coin (blue_move_pool.new chain move cells.blue_move_cell pool coin) AnyDex.blue_move ds
        (λ d q. blue_move_coin chain move cells.blue_move_cell pool coin d q)
        (rw (new_dexes, s) at e)
  by_protocol Protocol.deepbook_v2 pool coin out ds s e =
      single coin (deepbook_v2_pool.new chain move cells.deepbook_v2_cell pool coin)
        AnyDex.deepbook_v2 ds
        (λ d q. deepbook_v2_coin chain move cells.deepbook_v2_cell pool coin d q)
        (rw (new_dexes, s) at e)
  by_protocol Protocol.kriya_clmm pool coin out ds s e =
      single coin (kriya_clmm_pool.new chain move cells.kriya_clmm_cell pool coin) AnyDex.kriya_clmm
        ds (λ d q. kriya_clmm_coin chain move cells.kriya_clmm_cell pool coin d q)
        (rw (new_dexes, s) at e)
  by_protocol Protocol.cetus pool coin out ds s e =
      single coin (cetus_pool.new chain move cells.cetus_cell pool coin) AnyDex.cetus ds
        (λ d q. cetus_coin chain move cells.cetus_cell pool coin d q) (rw (new_dexes, s) at e)
  by_protocol Protocol.flowx_clmm pool coin out ds s e =
      single coin (flowx_clmm_pool.new chain move cells.flowx_clmm_cell pool coin) AnyDex.flowx_clmm
        ds (λ d q. flowx_clmm_coin chain move cells.flowx_clmm_cell pool coin d q)
        (rw (new_dexes, s) at e)
  by_protocol Protocol.aftermath pool coin out ds s e =
      elim (Result-cases (aftermath_pool.new chain move cells.aftermath_cell pool coin out)) [
        | inr (m, q) ↦ ok_err_elim {m = m} e (rw (new_dexes, s, q) refl)
        | inl (found, q) ↦ subst (All (IsFrom coin)) (ok_injective (rw (new_dexes, s, q) at e)) (
            All-map AnyDex.aftermath (IsFrom coin) found
              (aftermath_coin chain move cells.aftermath_cell pool coin out found q))
      ]
  by_protocol Protocol.flowx_amm pool coin out ds s e =
      ok_err_elim {m = "unsupported protocol"} e (rw (new_dexes, s) refl)
  by_protocol Protocol.deepbook_v3 pool coin out ds s e =
      ok_err_elim {m = "unsupported protocol"} e (rw (new_dexes, s) refl)
  by_protocol Protocol.volo pool coin out ds s e =
      ok_err_elim {m = "unsupported protocol"} e (rw (new_dexes, s) refl)
  by_protocol Protocol.sui_swap pool coin out ds s e =
      ok_err_elim {m = "unsupported protocol"} e (rw (new_dexes, s) refl)
  by_protocol Protocol.interest pool coin out ds s e =
      ok_err_elim {m = "unsupported protocol"} e (rw (new_dexes, s) refl)
  by_protocol Protocol.abex pool coin out ds s e =
      ok_err_elim {m = "unsupported protocol"} e (rw (new_dexes, s) refl)
  by_protocol Protocol.baby_swap pool coin out ds s e =
      ok_err_elim {m = "unsupported protocol"} e (rw (new_dexes, s) refl)
  by_protocol Protocol.navi pool coin out ds s e =
      ok_err_elim {m = "unsupported protocol"} e (rw (new_dexes, s) refl)

  new_dexes-IsFrom :
      (pool : Pool) (coin : String) (out : Option String) (ds : List AnyDex)
      → new_dexes chain move cells pool coin out ≡ ok ds
      → All (IsFrom coin) ds
  new_dexes-IsFrom pool coin out ds e = by_protocol pool.protocol pool coin out ds refl e

  module _ (indexer : Indexer) (panics : Pool → Bool) where
    join_dexes-IsFrom :
        (coin : String) (out : Option String) (pools : List Pool)
        → All (IsFrom coin) (join_dexes chain move cells panics coin out pools)
    unfolding join_dexes
    join_dexes-IsFrom coin out [] = tt
    join_dexes-IsFrom coin out (pool ∷ pools) = elim (Bool-cases (panics pool)) [
      | inl p ↦ rw (p, join_dexes) tt
      | inr p ↦ elim (Result-cases (new_dexes chain move cells pool coin out)) [
        | inl (ds, q) ↦
            rw (p, join_dexes, q)
              (All-append (IsFrom coin) ds _ (new_dexes-IsFrom pool coin out ds q)
                (join_dexes-IsFrom coin out pools))
        | inr (m, q) ↦ rw (p, join_dexes, q) (join_dexes-IsFrom coin out pools)
      ]
    ]

    -- The searcher answers with pools that take the coin that it is asked for, whatever the index
    -- holds, in whatever order the tasks of the pools end and whichever of them panic.
    pub find_dexes-IsFrom :
        (coin : String) (out : Option String) (ds : List AnyDex)
        → find_dexes chain move cells indexer panics coin out ≡ ok ds
        → All (IsFrom coin) ds
    unfolding find_dexes
    find_dexes-IsFrom coin none ds e = elim (Option-cases (indexer.get_pools_by_token coin)) [
      | inl q ↦ ok_err_elim {m = "pools not found"} e (rw (find_dexes, q) refl)
      | inr (pools, q) ↦
          subst (All (IsFrom coin)) (ok_injective (rw (find_dexes, q) at e))
            (join_dexes-IsFrom coin none pools)
    ]
    find_dexes-IsFrom coin (some t) ds e =
        elim (Option-cases (indexer.get_pools_by_token01 coin t)) [
          | inl q ↦ ok_err_elim {m = "pools not found"} e (rw (find_dexes, q) refl)
          | inr (pools, q) ↦
              subst (All (IsFrom coin)) (ok_injective (rw (find_dexes, q) at e))
                (join_dexes-IsFrom coin (some t) pools)
        ]

    -- So the paths of the bot are found over the index.
    pub find_dexes-FindsFrom : FindsFrom dex_ops (find_dexes chain move cells indexer panics)
    unfolding dex_ops
    find_dexes-FindsFrom = find_dexes-IsFrom

  -- A path over the pools with these ids, in order: each takes the coin that the one before gives.
  abbrev pub IsAlong : Indexer → (coin : String) → List ℕ → List AnyDex → Type 0
  IsAlong indexer coin [] [] = Unit
  IsAlong indexer coin (i ∷ ids) (d ∷ ds) =
      (pool : Pool) × (found : List AnyDex) × (indexer.get_pool_by_id i ≡ some pool)
      × (new_dexes chain move cells pool coin none ≡ ok found)
      × (pop found ≡ some d)
      × (coin_in_type d ≡ coin)
      × IsAlong indexer (coin_out_type d) ids ds
  IsAlong indexer coin _ _ = ⊥

  pop-All : (P : AnyDex → Type 0) (ds : List AnyDex) (d : AnyDex) → All P ds → pop ds ≡ some d → P d
  unfolding pop
  pop-All P [] d h e = absurd cc
  pop-All P (x ∷ []) d h e = subst P (some_injective e) h.0
  pop-All P (x ∷ y ∷ ds) d h e = pop-All P (y ∷ ds) d h.1 e

  test_path-IsAlong :
      (indexer : Indexer) (coin : String) (ids : List ℕ) (ds : List AnyDex)
      → test_path chain move cells indexer coin ids ≡ ok ds
      → IsAlong indexer coin ids ds
  unfolding test_path
  test_path-IsAlong indexer coin [] ds e = subst (IsAlong indexer coin []) (ok_injective e) tt
  test_path-IsAlong indexer coin (i ∷ ids) ds e = elim (Option-cases (indexer.get_pool_by_id i)) [
    | inl q ↦ ok_err_elim {m = "pool not found"} e (rw (test_path, q) refl)
    | inr (pool, q) ↦ elim (Result-cases (new_dexes chain move cells pool coin none)) [
      | inr (m, q') ↦ ok_err_elim {m = m} e (rw (test_path, q, q') refl)
      | inl (found, q') ↦ elim (Option-cases (pop found)) [
        | inl r ↦ ok_err_elim {m = "unwrap"} e (rw (test_path, q, q', r) refl)
        | inr (d, r) ↦
            elim (Result-cases (test_path chain move cells indexer (coin_out_type d) ids)) [
              | inr (m, q'') ↦ ok_err_elim {m = m} e (rw (test_path, q, q', r, q'') refl)
              | inl (rest, q'') ↦
                  subst (IsAlong indexer coin (i ∷ ids))
                    (ok_injective (rw (test_path, q, q', r, q'') at e))
                    (
                      pool,
                      found,
                      q,
                      q',
                      r,
                      pop-All (IsFrom coin) found d (new_dexes-IsFrom pool coin none found q') r,
                      test_path-IsAlong indexer (coin_out_type d) ids rest q'',
                    )
            ]
      ]
    ]
  ]

  -- A test path that is found starts at SUI and goes over the pools with the ids that were asked for,
  -- in order; each pool takes the coin that the one before it gives.
  pub find_test_path-IsAlong :
      (indexer : Indexer) (ids : List ℕ) (path : DexPath AnyDex)
      → find_test_path chain move cells indexer ids ≡ ok path
      → IsAlong indexer sui_coin_type ids path.path
  unfolding find_test_path
  find_test_path-IsAlong indexer ids path e =
      elim (Result-cases (test_path chain move cells indexer sui_coin_type ids)) [
        | inr (m, q) ↦ ok_err_elim {m = m} e (rw (find_test_path, q) refl)
        | inl (ds, q) ↦
            subst (λ (p : DexPath AnyDex). IsAlong indexer sui_coin_type ids p.path)
              (ok_injective (rw (find_test_path, q) at e))
              (test_path-IsAlong indexer sui_coin_type ids ds q)
      ]
