-- ===== src/Pools/Repayments.antt =====
-- What the repayments of flash swaps add to a transaction.
use poison_dart.Base.{ℕ, ◌≡◌, refl, some, List, [], ◌∷◌, get_elem?, if◌then◌else◌, ok_or}
use poison_dart.Move.{ObjectArg}
use poison_dart.Pools.Cetus as cetus_pool
use poison_dart.Pools.Cetus.{Cetus, cetus_dex}
use poison_dart.Pools.Cetus.Flash as cetus_flash
use poison_dart.Pools.KriyaClmm as kriya_pool
use poison_dart.Pools.KriyaClmm.{KriyaClmm, kriya_clmm}
use poison_dart.Pools.KriyaClmm.Flash as kriya_flash
use poison_dart.Pools.FlowxClmm as flowx_pool
use poison_dart.Pools.FlowxClmm.{FlowxClmm, flowx_clmm}
use poison_dart.Pools.FlowxClmm.Flash as flowx_flash
use poison_dart.Pools.Loans.{refused}
use poison_dart.Pools.Dexes.{AnyDex}
use poison_dart.Pools.Extend.{extend_repay_tx}
use poison_dart.Trade.{Argument, Command, Builder, FlashResult}
use poison_dart.Trade.Exec.Rules.{
  Reads, Extends, Reads-return, Reads-obj, Reads-obj_then, Extends-read, Extends-lift,
  Extends-weaken,
}
use poison_dart.Trade.Exec.Calls.{Extends-call}
use poison_dart.Pools.BalanceRepayments.{IsBalanceRepayment, Extends-Arguments, balance_repayment}

-- The repayment of each protocol, at place `k`, with the coin and the receipt of the loan.
abbrev pub IsRepaid :
    (k : ℕ) → AnyDex → (coin : Argument) → FlashResult → Argument → List Command → Type 0
IsRepaid k (AnyDex.cetus d) coin flash rest cs =
    (args : List Argument) × (get_elem? args 3 ≡ some coin)
    × (get_elem? args 4 ≡ some flash.receipt)
    × (rest ≡ Argument.result k)
    × (cs
        ≡ Command.move_call cetus_dex "cetus"
            (if cetus_pool.is_a2b d then "repay_flash_swap_a2b" else "repay_flash_swap_b2a")
            d.type_params args
          ∷ [])
IsRepaid k (AnyDex.kriya_clmm d) coin flash rest cs =
    IsBalanceRepayment (Command.move_call kriya_clmm "trade" "swap_receipt_debts" [])
      (Command.move_call kriya_clmm "trade" "repay_flash_swap" d.type_params) (kriya_pool.is_a2b d)
      d.type_params k coin flash.receipt rest cs
IsRepaid k (AnyDex.flowx_clmm d) coin flash rest cs =
    IsBalanceRepayment (Command.move_call flowx_clmm "pool" "swap_receipt_debts" [])
      (Command.move_call flowx_clmm "pool" "pay" d.type_params) (flowx_pool.is_a2b d) d.type_params
      k coin flash.receipt rest cs
IsRepaid k _ coin flash rest cs = ⊥

abbrev pub repayment_size : AnyDex → ℕ
repayment_size (AnyDex.cetus d) = 1
repayment_size (AnyDex.kriya_clmm d) = 5
repayment_size (AnyDex.flowx_clmm d) = 5
repayment_size _ = 0

module _ {B : Type 0} (builder : Builder B ObjectArg) where
  cetus_args :
      (d : Cetus) (coin receipt : Argument)
      → Reads builder
          (λ args. (get_elem? args 3 ≡ some coin) × (get_elem? args 4 ≡ some receipt))
          (cetus_flash.build_repay_args builder d coin receipt)
  unfolding cetus_flash.build_repay_args
  cetus_args d coin receipt = Reads-obj_then builder _ _ λ _.
      Reads-obj_then builder _ _
        λ _. Reads-obj_then builder _ _ λ _. Reads-return builder _ (refl, refl)

  pub extend_repay_tx-Extends :
      (now_millis : ℕ) (d : AnyDex) (k : ℕ) (coin : Argument) (flash : FlashResult)
      → Extends builder k
          (repayment_size d)
          (IsRepaid k d coin flash)
          (λ ctx. extend_repay_tx builder now_millis d ctx coin flash)
  unfolding extend_repay_tx cetus_flash.extend_repay_tx kriya_flash.extend_repay_tx
      kriya_flash.build_repay_args flowx_flash.extend_repay_tx flowx_flash.build_repay_args
  extend_repay_tx-Extends now_millis (AnyDex.cetus d) k coin flash =
      Extends-read builder k 1 (cetus_flash.build_repay_args builder d coin flash.receipt) _
        (cetus_args d coin flash.receipt)
        λ args (paid, receipt).
          Extends-weaken builder k 1 _ (Extends-call builder k _)
            λ rest cs (named, same). (args, paid, receipt, named, same)
  extend_repay_tx-Extends now_millis (AnyDex.kriya_clmm d) k coin flash =
      balance_repayment builder (Command.move_call kriya_clmm "trade" "swap_receipt_debts" [])
        (Command.move_call kriya_clmm "trade" "repay_flash_swap" d.type_params)
        (kriya_pool.is_a2b d) d.type_params k coin flash.receipt
        (λ repay_coin. kriya_flash.build_repay_args builder d repay_coin flash.receipt)
        λ repay_coin k'. Extends-read builder k' 2 _ _ (Reads-obj builder d.pool_arg) λ pool _.
          Extends-Arguments builder pool d.version _ d.type_params repay_coin flash.receipt k'
  extend_repay_tx-Extends now_millis (AnyDex.flowx_clmm d) k coin flash =
      Extends-lift builder k 5 (ok_or flash.pool "missing pool") _ λ pool _.
        balance_repayment builder (Command.move_call flowx_clmm "pool" "swap_receipt_debts" [])
          (Command.move_call flowx_clmm "pool" "pay" d.type_params) (flowx_pool.is_a2b d)
          d.type_params k coin flash.receipt
          (λ repay_coin. flowx_flash.build_repay_args builder d pool repay_coin flash.receipt)
          λ repay_coin k'.
            Extends-Arguments builder pool d.versioned _ d.type_params repay_coin flash.receipt k'
  extend_repay_tx-Extends now_millis (AnyDex.kriya_amm d) k coin flash =
      refused builder k 0 "flashloan not supported"
  extend_repay_tx-Extends now_millis (AnyDex.turbos d) k coin flash =
      refused builder k 0 "flashloan not supported"
  extend_repay_tx-Extends now_millis (AnyDex.blue_move d) k coin flash =
      refused builder k 0 "flashloan not supported"
  extend_repay_tx-Extends now_millis (AnyDex.deepbook_v2 d) k coin flash =
      refused builder k 0 "flashloan not supported"
  extend_repay_tx-Extends now_millis (AnyDex.aftermath d) k coin flash =
      refused builder k 0 "flashloan not supported"
