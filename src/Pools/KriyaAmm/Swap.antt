-- ===== src/Pools/KriyaAmm/Swap.antt =====
-- `bin/arb/src/defi/kriya_amm.rs`: the swap.
use poison_dart.Base.{ℕ, Option, none, List, [], ◌∷◌, Result, if◌then◌else◌}
use poison_dart.Move.{ObjectArg}
use poison_dart.Pools.{cetus_aggregator, swap_alone}
use poison_dart.Trade.{Argument, Command, Builder, TradeCtx}
use poison_dart.Trade.Exec.{Exec, return, input_obj, input_pure, call, ◌>>=◌}
use poison_dart.Pools.KriyaAmm.{KriyaAmm, is_a2b}

module _ {B : Type 0} (builder : Builder B ObjectArg) where
  unfoldable pub build_swap_args : KriyaAmm → (coin_in_arg : Argument) → Exec B (List Argument)
  unfolding input_obj input_pure ◌>>=◌ return
  build_swap_args d coin_in_arg = do
    pool_arg ← input_obj builder d.pool_arg
    return (pool_arg ∷ coin_in_arg ∷ [])

  unfoldable pub extend_trade_tx :
      KriyaAmm → (sender : ℕ) → (coin_in : Argument) → (amount_in : Option ℕ) → Exec B Argument
  unfolding is_a2b build_swap_args call ◌>>=◌
  extend_trade_tx d sender coin_in amount_in = do
    let function = if is_a2b d then "swap_a2b" else "swap_b2a"
    arguments ← build_swap_args d coin_in
    call builder (Command.move_call cetus_aggregator "kriya_amm" function d.type_params arguments)

  unfoldable pub build_swap_tx :
      KriyaAmm → (sender recipient coin_in amount_in : ℕ) → Result (TradeCtx B)
  unfolding swap_alone extend_trade_tx
  build_swap_tx d sender recipient coin_in amount_in =
      swap_alone builder (λ coin. extend_trade_tx d sender coin none) recipient coin_in amount_in
