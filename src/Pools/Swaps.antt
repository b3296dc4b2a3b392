-- ===== src/Pools/Swaps.antt =====
-- What a swap adds to a transaction, whichever the protocol of the pool.
use poison_dart.Base.{ℕ, ◌≡◌, refl, Option, some, List, String, get_elem?, if◌then◌else◌, ok_or}
use poison_dart.Move.{ObjectArg}
use poison_dart.Pools.{cetus_aggregator}
use poison_dart.Pools.KriyaAmm.{KriyaAmm}
use poison_dart.Pools.KriyaAmm.Swap as kriya_amm_swap
use poison_dart.Pools.Turbos.{Turbos}
use poison_dart.Pools.Turbos.Swap as turbos_swap
use poison_dart.Pools.BlueMove.{BlueMove}
use poison_dart.Pools.BlueMove.Swap as blue_move_swap
use poison_dart.Pools.DeepbookV2.{DeepbookV2}
use poison_dart.Pools.DeepbookV2.Swap as deepbook_v2_swap
use poison_dart.Pools.KriyaClmm.{KriyaClmm}
use poison_dart.Pools.KriyaClmm.Swap as kriya_clmm_swap
use poison_dart.Pools.Cetus as cetus_pool
use poison_dart.Pools.Cetus.{Cetus}
use poison_dart.Pools.Cetus.Swap as cetus_swap
use poison_dart.Pools.FlowxClmm as flowx_clmm_pool
use poison_dart.Pools.FlowxClmm.{FlowxClmm}
use poison_dart.Pools.FlowxClmm.Swap as flowx_clmm_swap
use poison_dart.Pools.Aftermath.{Aftermath, expect_amount_out}
use poison_dart.Pools.Aftermath.Swap as aftermath_swap
use poison_dart.Pools.Dexes.{AnyDex, is_a2b}
use poison_dart.Pools.Extend.{extend_trade_tx}
use poison_dart.Trade.{Argument, Command, Builder}
use poison_dart.Trade.Exec.{Exec, ◌>>=◌, call}
use poison_dart.Trade.Exec.Rules.{
  Reads, Extends, Reads-return, Reads-obj_then, Reads-pure_then, Reads-lift_then, Extends-read,
  Extends-weaken, Extends-lift,
}
use poison_dart.Trade.Exec.Calls.{IsOne, Extends-call}

-- A single call, on arguments of which the coin is the one at `place`.
abbrev IsCallOn :
    (call_on : List Argument → Command) (place k : ℕ) (coin : Argument)
    → Argument
    → List Command
    → Type 0
IsCallOn call_on place k coin out cs =
    (args : List Argument) × (get_elem? args place ≡ some coin)
    × IsOne (Argument.result k) (call_on args) out cs

-- The call that swaps, on its arguments.
abbrev pub direction : AnyDex → String
direction d = if is_a2b d then "swap_a2b" else "swap_b2a"

abbrev pub swap_command : AnyDex → List Argument → Command
swap_command (AnyDex.kriya_amm d) =
    Command.move_call cetus_aggregator "kriya_amm" (direction (AnyDex.kriya_amm d)) d.type_params
swap_command (AnyDex.turbos d) =
    Command.move_call cetus_aggregator "turbos" (direction (AnyDex.turbos d)) d.type_params
swap_command (AnyDex.blue_move d) =
    Command.move_call cetus_aggregator "bluemove" (direction (AnyDex.blue_move d)) d.type_params
swap_command (AnyDex.deepbook_v2 d) =
    Command.move_call cetus_aggregator "deepbook" (direction (AnyDex.deepbook_v2 d)) d.type_params
swap_command (AnyDex.kriya_clmm d) =
    Command.move_call cetus_aggregator "kriya_clmm" (direction (AnyDex.kriya_clmm d)) d.type_params
swap_command (AnyDex.cetus d) =
    Command.move_call cetus_pool.cetus_dex "cetus" (direction (AnyDex.cetus d)) d.type_params
swap_command (AnyDex.flowx_clmm d) =
    Command.move_call flowx_clmm_pool.flowx_clmm "swap_router" "swap_exact_input" d.type_params
swap_command (AnyDex.aftermath d) =
    Command.move_call aftermath_swap.aftermath_dex "swap" "swap_exact_in" d.type_params

-- The parameter that takes the coin, in the declarations of the contracts.
abbrev pub coin_place : AnyDex → ℕ
coin_place (AnyDex.cetus d) = 3
coin_place (AnyDex.flowx_clmm d) = 2
coin_place (AnyDex.aftermath d) = 6
coin_place _ = 1

-- A swap at place `k`: one call, which takes the coin, and whose result is the coin that comes out.
abbrev pub IsSwap : (k : ℕ) → AnyDex → (coin : Argument) → Argument → List Command → Type 0
IsSwap k d = IsCallOn (swap_command d) (coin_place d) k

module _ {B : Type 0} (builder : Builder B ObjectArg) where
  Extends-IsCallOn :
      (call_on : List Argument → Command) (place k : ℕ) (coin : Argument)
      (build : Exec B (List Argument))
      → Reads builder (λ args. get_elem? args place ≡ some coin) build
      → Extends builder k 1
          (IsCallOn call_on place k coin)
          (build >>= λ args. call builder (call_on args))
  Extends-IsCallOn call_on place k coin build reads =
      Extends-read builder k 1 build _ reads λ args at.
        Extends-weaken builder k 1 _ (Extends-call builder k (call_on args))
          λ out cs one. (args, at, one)

  kriya_amm_args :
      (d : KriyaAmm) (coin : Argument)
      → Reads builder
          (λ args. get_elem? args 1 ≡ some coin)
          (kriya_amm_swap.build_swap_args builder d coin)
  unfolding kriya_amm_swap.build_swap_args
  kriya_amm_args d coin = Reads-obj_then builder _ _ λ _. Reads-return builder _ refl

  turbos_args :
      (d : Turbos) (coin : Argument)
      → Reads builder
          (λ args. get_elem? args 1 ≡ some coin)
          (turbos_swap.build_swap_args builder d coin)
  unfolding turbos_swap.build_swap_args
  turbos_args d coin = Reads-obj_then builder _ _ λ _.
      Reads-obj_then builder _ _ λ _. Reads-obj_then builder _ _ λ _. Reads-return builder _ refl

  blue_move_args :
      (d : BlueMove) (coin : Argument)
      → Reads builder
          (λ args. get_elem? args 1 ≡ some coin)
          (blue_move_swap.build_swap_args builder d coin)
  unfolding blue_move_swap.build_swap_args
  blue_move_args d coin = Reads-obj_then builder _ _ λ _. Reads-return builder _ refl

  deepbook_v2_args :
      (d : DeepbookV2) (coin : Argument)
      → Reads builder
          (λ args. get_elem? args 1 ≡ some coin)
          (deepbook_v2_swap.build_swap_args builder d coin)
  unfolding deepbook_v2_swap.build_swap_args
  deepbook_v2_args d coin = Reads-obj_then builder _ _ λ _.
      Reads-obj_then builder _ _ λ _. Reads-obj_then builder _ _ λ _. Reads-return builder _ refl

  kriya_clmm_args :
      (d : KriyaClmm) (coin : Argument)
      → Reads builder
          (λ args. get_elem? args 1 ≡ some coin)
          (kriya_clmm_swap.build_swap_args builder d coin)
  unfolding kriya_clmm_swap.build_swap_args
  kriya_clmm_args d coin = Reads-obj_then builder _ _ λ _.
      Reads-obj_then builder _ _ λ _. Reads-obj_then builder _ _ λ _. Reads-return builder _ refl

  cetus_args :
      (d : Cetus) (coin : Argument)
      → Reads builder
          (λ args. get_elem? args 3 ≡ some coin)
          (cetus_swap.build_swap_args builder d coin)
  unfolding cetus_swap.build_swap_args
  cetus_args d coin = Reads-obj_then builder _ _ λ _. Reads-obj_then builder _ _ λ _.
      Reads-obj_then builder _ _ λ _. Reads-obj_then builder _ _ λ _. Reads-return builder _ refl

  flowx_clmm_args :
      (now_millis : ℕ) (d : FlowxClmm) (coin : Argument)
      → Reads builder
          (λ args. get_elem? args 2 ≡ some coin)
          (flowx_clmm_swap.build_swap_args builder now_millis d coin)
  unfolding flowx_clmm_swap.build_swap_args
  flowx_clmm_args now_millis d coin = Reads-obj_then builder _ _ λ _.
      Reads-pure_then builder _ _ λ _. Reads-pure_then builder _ _ λ _.
        Reads-pure_then builder _ _ λ _. Reads-pure_then builder _ _ λ _.
          Reads-obj_then builder _ _
            λ _. Reads-obj_then builder _ _ λ _. Reads-return builder _ refl

  aftermath_args :
      (d : Aftermath) (coin : Argument) (amount_in : ℕ)
      → Reads builder
          (λ args. get_elem? args 6 ≡ some coin)
          (aftermath_swap.build_swap_args builder d coin amount_in)
  unfolding aftermath_swap.build_swap_args
  aftermath_args d coin amount_in = Reads-obj_then builder _ _ λ _. Reads-obj_then builder _ _ λ _.
      Reads-obj_then builder _ _ λ _. Reads-obj_then builder _ _ λ _.
        Reads-obj_then builder _ _ λ _. Reads-obj_then builder _ _ λ _.
          Reads-lift_then builder (expect_amount_out d amount_in) _ λ _.
            Reads-pure_then builder _ _
              λ _. Reads-pure_then builder _ _ λ _. Reads-return builder _ refl

  pub extend_trade_tx-Extends :
      (now_millis : ℕ) (d : AnyDex) (k sender : ℕ) (coin : Argument) (amount_in : Option ℕ)
      → Extends builder k 1
          (IsSwap k d coin)
          (λ ctx. extend_trade_tx builder now_millis d ctx sender coin amount_in)
  unfolding extend_trade_tx is_a2b
  extend_trade_tx-Extends now_millis (AnyDex.kriya_amm d) k sender coin amount_in =
      Extends-IsCallOn _ 1 k coin _ (kriya_amm_args d coin)
  extend_trade_tx-Extends now_millis (AnyDex.turbos d) k sender coin amount_in =
      Extends-IsCallOn _ 1 k coin _ (turbos_args d coin)
  extend_trade_tx-Extends now_millis (AnyDex.blue_move d) k sender coin amount_in =
      Extends-IsCallOn _ 1 k coin _ (blue_move_args d coin)
  extend_trade_tx-Extends now_millis (AnyDex.deepbook_v2 d) k sender coin amount_in =
      Extends-IsCallOn _ 1 k coin _ (deepbook_v2_args d coin)
  extend_trade_tx-Extends now_millis (AnyDex.kriya_clmm d) k sender coin amount_in =
      Extends-IsCallOn _ 1 k coin _ (kriya_clmm_args d coin)
  extend_trade_tx-Extends now_millis (AnyDex.cetus d) k sender coin amount_in =
      Extends-IsCallOn _ 3 k coin _ (cetus_args d coin)
  extend_trade_tx-Extends now_millis (AnyDex.flowx_clmm d) k sender coin amount_in =
      Extends-IsCallOn _ 2 k coin _ (flowx_clmm_args now_millis d coin)
  extend_trade_tx-Extends now_millis (AnyDex.aftermath d) k sender coin amount_in =
      Extends-lift builder k 1 (ok_or amount_in "amount_in is required") _
        λ amount e. Extends-IsCallOn _ 6 k coin _ (aftermath_args d coin amount)
