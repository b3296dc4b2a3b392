-- ===== src/Pools/Aftermath/Swap.antt =====
-- `bin/arb/src/defi/aftermath.rs`: the swap.
use poison_dart.Base.{ℕ, ◌%◌, ◌^◌, Option, some, List, [], ◌∷◌, String, Result, ok_or}
use poison_dart.Move.{ObjectArg}
use poison_dart.Pools.{swap_alone}
use poison_dart.Pools.Aftermath.{Aftermath, expect_amount_out}
use poison_dart.Trade.{Argument, Command, PureValue, Builder, TradeCtx}
use poison_dart.Trade.Exec.{Exec, return, lift, input_obj, input_pure, call, ◌>>=◌}

abbrev pub aftermath_dex : String
aftermath_dex = "0xc4049b2d1cc0f6e017fda8260e4377cecd236bd7f56a54fee120816e72e2e0dd"

abbrev pub slippage : ℕ
slippage = 900_000_000_000_000_000

module _ {B : Type 0} (builder : Builder B ObjectArg) where
  unfoldable pub build_swap_args :
      Aftermath → (coin_in_arg : Argument) → (amount_in : ℕ) → Exec B (List Argument)
  unfolding input_obj input_pure lift expect_amount_out return ◌>>=◌
  build_swap_args d coin_in_arg amount_in = do
    pool_arg ← input_obj builder d.pool_arg
    pool_registry_arg ← input_obj builder d.object_args.pool_registry
    protocol_fee_vault_arg ← input_obj builder d.object_args.protocol_fee_vault
    treasury_arg ← input_obj builder d.object_args.treasury
    insurance_fund_arg ← input_obj builder d.object_args.insurance_fund
    referral_vault_arg ← input_obj builder d.object_args.referral_vault
    amount_out ← lift (expect_amount_out d amount_in)
    expect_amount_out_arg ← input_pure builder (PureValue.u64 amount_out)
    slippage_arg ← input_pure builder (PureValue.u64 (slippage % 2 ^ 64))
    return (
        pool_arg ∷ pool_registry_arg ∷ protocol_fee_vault_arg ∷ treasury_arg ∷ insurance_fund_arg
        ∷ referral_vault_arg ∷ coin_in_arg ∷ expect_amount_out_arg ∷ slippage_arg ∷ [])

  unfoldable pub extend_trade_tx :
      Aftermath → (sender : ℕ) → (coin_in : Argument) → (amount_in : Option ℕ) → Exec B Argument
  unfolding lift build_swap_args call ◌>>=◌
  extend_trade_tx d sender coin_in amount_in = do
    amount ← lift (ok_or amount_in "amount_in is required")
    arguments ← build_swap_args d coin_in amount
    call builder (Command.move_call aftermath_dex "swap" "swap_exact_in" d.type_params arguments)

  unfoldable pub build_swap_tx :
      Aftermath → (sender recipient coin_in amount_in : ℕ) → Result (TradeCtx B)
  unfolding swap_alone extend_trade_tx
  build_swap_tx d sender recipient coin_in amount_in =
      swap_alone builder (λ coin. extend_trade_tx d sender coin (some amount_in)) recipient coin_in
        amount_in
