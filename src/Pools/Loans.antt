-- ===== src/Pools/Loans.antt =====
-- What the flash swaps of the pools add to a transaction.
use poison_dart.Base.{
  ℕ, ◌+◌, ◌≡◌, refl, ap, none, some, List, [], ◌∷◌, ◌++◌, ◌∙◌, String, get_elem?, if◌then◌else◌,
  err,
}
use poison_dart.Move.{ObjectArg}
use poison_dart.Pools.Cetus as cetus_pool
use poison_dart.Pools.Cetus.{Cetus, cetus_dex}
use poison_dart.Pools.Cetus.Flash as cetus_flash
use poison_dart.Pools.KriyaClmm as kriya_pool
use poison_dart.Pools.KriyaClmm.{KriyaClmm, kriya_clmm}
use poison_dart.Pools.KriyaClmm.Flash as kriya_flash
use poison_dart.Pools.FlowxClmm as flowx_pool
use poison_dart.Pools.FlowxClmm.{FlowxClmm, flowx_clmm}
use poison_dart.Pools.FlowxClmm.Flash as flowx_flash
use poison_dart.Pools.Dexes.{AnyDex}
use poison_dart.Pools.Extend.{extend_flashloan_tx}
use poison_dart.Trade.{Argument, Command, PureValue, Builder, FlashResult}
use poison_dart.Trade.Exec.Rules.{
  Extends, Reads-return, Reads-obj, Reads-pure, Reads-obj_then, Reads-pure_then, Extends-read,
  Extends-bind, Extends-map, Extends-weaken,
}
use poison_dart.Trade.Exec.Calls.{Extends-call_at, Extends-call}
use poison_dart.Pools.BalanceLoans.{IsBalanceLoan, balance_loan}

-- The loan of each protocol, at place `k`.
abbrev pub IsFlashSwap : (k : ℕ) → AnyDex → FlashResult → List Command → Type 0
IsFlashSwap k (AnyDex.cetus d) flash cs =
    (args : List Argument) × (flash.coin_out ≡ Argument.nested_result k 0)
    × (flash.receipt ≡ Argument.nested_result k 1)
    × (cs
        ≡ Command.move_call cetus_dex "cetus"
            (if cetus_pool.is_a2b d then "flash_swap_a2b" else "flash_swap_b2a") d.type_params args
          ∷ [])
IsFlashSwap k (AnyDex.kriya_clmm d) flash cs =
    IsBalanceLoan (λ _. Unit {0}) (Command.move_call kriya_clmm "trade" "flash_swap" d.type_params)
      (kriya_pool.is_a2b d) d.type_params k flash cs
IsFlashSwap k (AnyDex.flowx_clmm d) flash cs =
    (args : List Argument) × (rest : List Command) × (flash.pool ≡ some (Argument.result k))
    × IsBalanceLoan (λ args'. get_elem? args' 0 ≡ some (Argument.result k))
        (Command.move_call flowx_clmm "pool" "swap" d.type_params) (flowx_pool.is_a2b d)
        d.type_params (k + 1) flash rest
    × (cs ≡ Command.move_call flowx_clmm "pool_manager" "borrow_mut_pool" d.type_params args ∷ rest)
IsFlashSwap k _ flash cs = ⊥

-- How many commands it is.
abbrev pub loan_size : AnyDex → ℕ
loan_size (AnyDex.cetus d) = 1
loan_size (AnyDex.kriya_clmm d) = 3
loan_size (AnyDex.flowx_clmm d) = 4
loan_size _ = 0

module _ {B : Type 0} (builder : Builder B ObjectArg) where
  pub refused :
      {A : Type 0} {S : A → List Command → Type 0} (k n : ℕ) (m : String)
      → Extends builder k n S (λ _. err m)
  refused k n m = record { at = λ ctx a ctx' h l room e. absurd cc }

  cetus_loan :
      (d : Cetus) (k amount_in : ℕ)
      → Extends builder k 1
          (IsFlashSwap k (AnyDex.cetus d))
          (cetus_flash.extend_flashloan_tx builder d amount_in)
  unfolding cetus_flash.extend_flashloan_tx cetus_flash.build_flashloan_args
  cetus_loan d k amount_in =
      Extends-read builder k 1 (cetus_flash.build_flashloan_args builder d amount_in) _
        (Reads-obj_then builder _ _ λ _. Reads-obj_then builder _ _ λ _.
          Reads-obj_then builder _ _ λ _. Reads-pure_then builder _ _ λ _.
            Reads-pure_then builder _ _
              λ _. Reads-obj_then builder _ _ λ _. Reads-return builder {P = λ _. Unit {0}} _ tt)
        λ args _.
          Extends-map builder k 1 _
            (λ last_idx. record {
              coin_out = Argument.nested_result last_idx 0;
              receipt = Argument.nested_result last_idx 1;
              pool = none;
            })
            (Extends-call_at builder k _)
            λ last_idx cs (at, same). (
              args,
              ap (λ i. Argument.nested_result i 0) at,
              ap (λ i. Argument.nested_result i 1) at,
              same,
            )

  kriya_loan :
      (d : KriyaClmm) (k amount_in : ℕ)
      → Extends builder k 3
          (IsFlashSwap k (AnyDex.kriya_clmm d))
          (kriya_flash.extend_flashloan_tx builder d amount_in)
  unfolding kriya_flash.extend_flashloan_tx kriya_flash.build_flashloan_args
  kriya_loan d k amount_in =
      Extends-weaken builder k 3 _
        (balance_loan builder (λ _. Unit {0})
          (Command.move_call kriya_clmm "trade" "flash_swap" d.type_params) (kriya_pool.is_a2b d)
          d.type_params k none (kriya_flash.build_flashloan_args builder d amount_in)
          (Reads-obj_then builder _ _ λ _. Reads-pure_then builder _ _ λ _.
            Reads-pure_then builder _ _ λ _. Reads-pure_then builder _ _ λ _.
              Reads-pure_then builder _ _ λ _.
                Reads-obj_then builder _ _ λ _.
                  Reads-obj_then builder _ _ λ _. Reads-return builder {P = λ _. Unit {0}} _ tt))
        λ flash cs (_, loan). loan

  flowx_borrow :
      (d : FlowxClmm) (k : ℕ)
      → Extends builder k 1
          (λ pool cs.
            (args : List Argument) × (pool ≡ Argument.result k)
            × (cs
                ≡ Command.move_call flowx_clmm "pool_manager" "borrow_mut_pool" d.type_params args
                  ∷ []))
          (flowx_flash.borrow_mut_pool builder d)
  unfolding flowx_flash.borrow_mut_pool
  flowx_borrow d k = Extends-read builder k 1 _ _ (Reads-obj builder d.pool_registry) λ registry _.
      Extends-read builder k 1 _ _ (Reads-pure builder (PureValue.u64 d.fee)) λ fee _.
        Extends-weaken builder k 1 _ (Extends-call builder k _)
          λ pool cs (named, same). (registry ∷ fee ∷ [], named, same)

  flowx_loan :
      (d : FlowxClmm) (k amount_in : ℕ)
      → Extends builder k 4
          (IsFlashSwap k (AnyDex.flowx_clmm d))
          (flowx_flash.extend_flashloan_tx builder d amount_in)
  unfolding flowx_flash.extend_flashloan_tx flowx_flash.build_flashloan_args
  flowx_loan d k amount_in =
      Extends-bind builder k 1 3 (flowx_flash.borrow_mut_pool builder d) _ (flowx_borrow d k)
        λ pool cs (args, named, same).
          Extends-weaken builder (k + 1) 3 _
            (balance_loan builder (λ args'. get_elem? args' 0 ≡ some pool)
              (Command.move_call flowx_clmm "pool" "swap" d.type_params) (flowx_pool.is_a2b d)
              d.type_params (k + 1) (some pool)
              (flowx_flash.build_flashloan_args builder d pool amount_in)
              (Reads-pure_then builder _ _ λ _. Reads-pure_then builder _ _ λ _.
                Reads-pure_then builder _ _ λ _. Reads-pure_then builder _ _ λ _.
                  Reads-obj_then builder _ _
                    λ _. Reads-obj_then builder _ _ λ _. Reads-return builder _ refl))
            λ flash rest (borrowed, (args', rest', first, received, receipt, same')). (
              args,
              rest,
              borrowed ∙ ap some named,
              (args', rest', first ∙ ap some named, received, receipt, same'),
              ap (λ ds. ds ++ rest) same,
            )

  pub extend_flashloan_tx-Extends :
      (now_millis : ℕ) (d : AnyDex) (k amount_in : ℕ)
      → Extends builder k
          (loan_size d)
          (IsFlashSwap k d)
          (λ ctx. extend_flashloan_tx builder now_millis d ctx amount_in)
  unfolding extend_flashloan_tx
  extend_flashloan_tx-Extends now_millis (AnyDex.cetus d) k amount_in = cetus_loan d k amount_in
  extend_flashloan_tx-Extends now_millis (AnyDex.kriya_clmm d) k amount_in =
      kriya_loan d k amount_in
  extend_flashloan_tx-Extends now_millis (AnyDex.flowx_clmm d) k amount_in =
      flowx_loan d k amount_in
  extend_flashloan_tx-Extends now_millis (AnyDex.kriya_amm d) k amount_in =
      refused k 0 "flashloan not supported"
  extend_flashloan_tx-Extends now_millis (AnyDex.turbos d) k amount_in =
      refused k 0 "flashloan not supported"
  extend_flashloan_tx-Extends now_millis (AnyDex.blue_move d) k amount_in =
      refused k 0 "flashloan not supported"
  extend_flashloan_tx-Extends now_millis (AnyDex.deepbook_v2 d) k amount_in =
      refused k 0 "flashloan not supported"
  extend_flashloan_tx-Extends now_millis (AnyDex.aftermath d) k amount_in =
      refused k 0 "flashloan not supported"
