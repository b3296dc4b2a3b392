-- ===== src/Pools/FlowxClmm/Swap.antt =====
-- `bin/arb/src/defi/flowx_clmm.rs`: the swap. The clock of the machine is an argument.
use poison_dart.Base.{ℕ, ◌+◌, ◌-◌, ◌%◌, ◌^◌, Option, none, List, [], ◌∷◌, Result, if◌then◌else◌}
use poison_dart.Move.{ObjectArg}
use poison_dart.Pools.{min_sqrt_price_x64, max_sqrt_price_x64, swap_alone}
use poison_dart.Pools.FlowxClmm.{FlowxClmm, flowx_clmm, is_a2b}
use poison_dart.Trade.{Argument, Command, PureValue, Builder, TradeCtx}
use poison_dart.Trade.Exec.{Exec, return, input_obj, input_pure, call, ◌>>=◌}

-- The price that a swap may not pass, one inside the bounds of the pool.
unfoldable pub sqrt_price_limit : FlowxClmm → ℕ
unfolding is_a2b
sqrt_price_limit d = if is_a2b d then min_sqrt_price_x64 + 1 else max_sqrt_price_x64 - 1

module _ {B : Type 0} (builder : Builder B ObjectArg) (now_millis : ℕ) where
  unfoldable pub build_swap_args : FlowxClmm → (coin_in_arg : Argument) → Exec B (List Argument)
  unfolding sqrt_price_limit input_obj input_pure return ◌>>=◌
  build_swap_args d coin_in_arg = do
    pool_registry_arg ← input_obj builder d.pool_registry
    fee ← input_pure builder (PureValue.u64 d.fee)
    amount_out_min ← input_pure builder (PureValue.u64 0)
    limit ← input_pure builder (PureValue.u128 (sqrt_price_limit d))
    deadline ← input_pure builder (PureValue.u64 ((now_millis % 2 ^ 64 + 18000) % 2 ^ 64))
    versioned_arg ← input_obj builder d.versioned
    clock_arg ← input_obj builder d.clock
    return (
        pool_registry_arg ∷ fee ∷ coin_in_arg ∷ amount_out_min ∷ limit ∷ deadline ∷ versioned_arg
        ∷ clock_arg ∷ [])

  unfoldable pub extend_trade_tx :
      FlowxClmm → (sender : ℕ) → (coin_in : Argument) → (amount_in : Option ℕ) → Exec B Argument
  unfolding build_swap_args call ◌>>=◌
  extend_trade_tx d sender coin_in amount_in = do
    arguments ← build_swap_args d coin_in
    call builder
        (Command.move_call flowx_clmm "swap_router" "swap_exact_input" d.type_params arguments)

  unfoldable pub build_swap_tx :
      FlowxClmm → (sender recipient coin_in amount_in : ℕ) → Result (TradeCtx B)
  unfolding swap_alone extend_trade_tx
  build_swap_tx d sender recipient coin_in amount_in =
      swap_alone builder (λ coin. extend_trade_tx d sender coin none) recipient coin_in amount_in
