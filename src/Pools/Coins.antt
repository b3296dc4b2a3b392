-- ===== src/Pools/Coins.antt =====
-- A pool is made for the coin that it is asked for.
use poison_dart.Base.{
  ◌≡◌, refl, Option, none, some, List, [], ◌∷◌, String, ok, All, arith, str_dec, if_pos, if_neg,
  subst, inl, inr, Result-cases, ok_err_elim, ok_injective, ℕ, suc,
}
use poison_dart.Index.{Pool, Token}
use poison_dart.Move.{MoveOps, Chain}
use poison_dart.Pools.Aftermath as aftermath_pool
use poison_dart.Pools.Aftermath.{Aftermath}
use poison_dart.Pools.KriyaAmm as kriya_amm_pool
use poison_dart.Pools.KriyaAmm.{KriyaAmm}
use poison_dart.Pools.Turbos as turbos_pool
use poison_dart.Pools.Turbos.{Turbos}
use poison_dart.Pools.BlueMove as blue_move_pool
use poison_dart.Pools.BlueMove.{BlueMove}
use poison_dart.Pools.DeepbookV2 as deepbook_v2_pool
use poison_dart.Pools.DeepbookV2.{DeepbookV2}
use poison_dart.Pools.KriyaClmm as kriya_clmm_pool
use poison_dart.Pools.KriyaClmm.{KriyaClmm}
use poison_dart.Pools.Cetus as cetus_pool
use poison_dart.Pools.Cetus.{Cetus}
use poison_dart.Pools.FlowxClmm as flowx_clmm_pool
use poison_dart.Pools.FlowxClmm.{FlowxClmm}

module _ {C L S V : Type 0} (chain : Chain C L S) (move : MoveOps S V) where
  pub kriya_amm_coin :
      (pool : Pool) (coin : String) (d : KriyaAmm)
      → kriya_amm_pool.new chain move pool coin ≡ ok d
      → d.coin_in_type ≡ coin
  unfolding kriya_amm_pool.new
  kriya_amm_coin pool coin d e = ground arith

  pub turbos_coin :
      (cell : Option turbos_pool.ObjectArgs) (pool : Pool) (coin : String) (d : Turbos)
      → turbos_pool.new chain move cell pool coin ≡ ok d
      → d.coin_in_type ≡ coin
  unfolding turbos_pool.new
  turbos_coin cell pool coin d e = ground arith

  pub blue_move_coin :
      (cell : Option blue_move_pool.ObjectArgs) (pool : Pool) (coin : String) (d : BlueMove)
      → blue_move_pool.new chain move cell pool coin ≡ ok d
      → d.coin_in_type ≡ coin
  unfolding blue_move_pool.new
  blue_move_coin cell pool coin d e = ground arith

  pub deepbook_v2_coin :
      (cell : Option deepbook_v2_pool.ObjectArgs) (pool : Pool) (coin : String) (d : DeepbookV2)
      → deepbook_v2_pool.new chain move cell pool coin ≡ ok d
      → d.coin_in_type ≡ coin
  unfolding deepbook_v2_pool.new
  deepbook_v2_coin cell pool coin d e = ground arith

  pub kriya_clmm_coin :
      (cell : Option kriya_clmm_pool.ObjectArgs) (pool : Pool) (coin : String) (d : KriyaClmm)
      → kriya_clmm_pool.new chain move cell pool coin ≡ ok d
      → d.coin_in_type ≡ coin
  unfolding kriya_clmm_pool.new
  kriya_clmm_coin cell pool coin d e = ground arith

  pub cetus_coin :
      (cell : Option cetus_pool.ObjectArgs) (pool : Pool) (coin : String) (d : Cetus)
      → cetus_pool.new chain move cell pool coin ≡ ok d
      → d.coin_in_type ≡ coin
  unfolding cetus_pool.new
  cetus_coin cell pool coin d e = ground arith

  pub flowx_clmm_coin :
      (cell : Option flowx_clmm_pool.ObjectArgs) (pool : Pool) (coin : String) (d : FlowxClmm)
      → flowx_clmm_pool.new chain move cell pool coin ≡ ok d
      → d.coin_in_type ≡ coin
  unfolding flowx_clmm_pool.new
  flowx_clmm_coin cell pool coin d e = ground arith

  -- The swaps of a pool of many coins.
  towards_coin :
      (base d : Aftermath) (fees_swap_in fees_swap_out : List ℕ) (out : String) (index_out : ℕ)
      → aftermath_pool.towards chain move base fees_swap_in fees_swap_out out index_out ≡ ok d
      → d.coin_in_type ≡ base.coin_in_type
  unfolding aftermath_pool.towards
  towards_coin base d fees_swap_in fees_swap_out out index_out e = ground arith

  towards_each_coin :
      (base : Aftermath) (fees_swap_in fees_swap_out : List ℕ) (index : ℕ) (ts : List Token)
      (ds : List Aftermath)
      → aftermath_pool.towards_each chain move base fees_swap_in fees_swap_out index ts ≡ ok ds
      → All (λ (d : Aftermath). d.coin_in_type ≡ base.coin_in_type) ds
  unfolding aftermath_pool.towards_each
  towards_each_coin base fees_swap_in fees_swap_out index [] ds e = ground arith
  towards_each_coin base fees_swap_in fees_swap_out index (t ∷ ts) ds e =
      let each = aftermath_pool.towards_each chain move base fees_swap_in fees_swap_out in
      let ih = towards_each_coin base fees_swap_in fees_swap_out (suc index) ts in
      elim (str_dec t.token_type base.coin_in_type) [
        | yes q ↦ ih ds (rw (if_pos (str_dec t.token_type base.coin_in_type) q) at e)
        | no n ↦
            let e' = rw (if_neg (str_dec t.token_type base.coin_in_type) n) at e in
            elim (Result-cases (
              aftermath_pool.towards chain move base fees_swap_in fees_swap_out t.token_type
                index)) [
                  | inr (m, q) ↦ ok_err_elim {m = m} e' (rw q refl)
                  | inl (d, q) ↦ elim (Result-cases (each (suc index) ts)) [
                    | inr (m, q') ↦ ok_err_elim {m = m} e' (rw (q, q') refl)
                    | inl (rest, q') ↦
                        subst (All (λ (d : Aftermath). d.coin_in_type ≡ base.coin_in_type))
                          (ok_injective (rw (q, q') at e'))
                          (
                            towards_coin base d fees_swap_in fees_swap_out t.token_type index q,
                            ih rest q',
                          )
                  ]
                ]
      ]

  prepare_coin :
      (cell : Option aftermath_pool.ObjectArgs) (pool : Pool) (coin : String) (base : Aftermath)
      (fees_in fees_out : List ℕ)
      → aftermath_pool.prepare chain move cell pool coin ≡ ok (base, fees_in, fees_out)
      → base.coin_in_type ≡ coin
  unfolding aftermath_pool.prepare
  prepare_coin cell pool coin base fees_in fees_out e = ground arith

  pub aftermath_coin :
      (cell : Option aftermath_pool.ObjectArgs) (pool : Pool) (coin : String) (out : Option String)
      (ds : List Aftermath)
      → aftermath_pool.new chain move cell pool coin out ≡ ok ds
      → All (λ (d : Aftermath). d.coin_in_type ≡ coin) ds
  unfolding aftermath_pool.new
  aftermath_coin cell pool coin (some o) ds e = ground arith
  aftermath_coin cell pool coin none ds e =
      elim (Result-cases (aftermath_pool.prepare chain move cell pool coin)) [
        | inr (m, q) ↦ ok_err_elim {m = m} e (rw (aftermath_pool.new, q) refl)
        | inl ((base, fees_in, fees_out), q) ↦
            subst (λ c. All (λ (d : Aftermath). d.coin_in_type ≡ c) ds)
              (prepare_coin cell pool coin base fees_in fees_out q)
              (towards_each_coin base fees_in fees_out 0 pool.tokens ds
                (rw (aftermath_pool.new, q) at e))
      ]
