-- ===== src/Pools/Cetus/Flash.antt =====
-- `bin/arb/src/defi/cetus.rs`: the flash swap and its repayment.
use poison_dart.Base.{ℕ, true, none, List, [], ◌∷◌, if◌then◌else◌}
use poison_dart.Move.{ObjectArg}
use poison_dart.Pools.Cetus.{Cetus, cetus_dex, is_a2b}
use poison_dart.Trade.{Argument, Command, PureValue, Builder, FlashResult}
use poison_dart.Trade.Exec.{Exec, return, input_obj, input_pure, call_at, call, ◌>>=◌}

module _ {B : Type 0} (builder : Builder B ObjectArg) where
  unfoldable pub build_flashloan_args : Cetus → (amount_in : ℕ) → Exec B (List Argument)
  unfolding input_obj input_pure return ◌>>=◌
  build_flashloan_args d amount_in = do
    config_arg ← input_obj builder d.config
    pool_arg ← input_obj builder d.pool_arg
    partner_arg ← input_obj builder d.partner
    amount ← input_pure builder (PureValue.u64 amount_in)
    by_amount_in ← input_pure builder (PureValue.flag true)
    clock_arg ← input_obj builder d.clock
    return (config_arg ∷ pool_arg ∷ partner_arg ∷ amount ∷ by_amount_in ∷ clock_arg ∷ [])

  unfoldable pub build_repay_args : Cetus → (coin receipt : Argument) → Exec B (List Argument)
  unfolding input_obj return ◌>>=◌
  build_repay_args d coin receipt = do
    config_arg ← input_obj builder d.config
    pool_arg ← input_obj builder d.pool_arg
    partner_arg ← input_obj builder d.partner
    return (config_arg ∷ pool_arg ∷ partner_arg ∷ coin ∷ receipt ∷ [])

  unfoldable pub extend_flashloan_tx : Cetus → (amount_in : ℕ) → Exec B FlashResult
  unfolding build_flashloan_args call_at return ◌>>=◌ is_a2b
  extend_flashloan_tx d amount_in = do
    let function = if is_a2b d then "flash_swap_a2b" else "flash_swap_b2a"
    arguments ← build_flashloan_args d amount_in
    last_idx ←
        call_at builder (Command.move_call cetus_dex "cetus" function d.type_params arguments)
    return (record {
      coin_out = Argument.nested_result last_idx 0;
      receipt = Argument.nested_result last_idx 1;
      pool = none;
    })

  unfoldable pub extend_repay_tx : Cetus → (coin : Argument) → FlashResult → Exec B Argument
  unfolding build_repay_args call ◌>>=◌ is_a2b
  extend_repay_tx d coin flash_res = do
    let function = if is_a2b d then "repay_flash_swap_a2b" else "repay_flash_swap_b2a"
    arguments ← build_repay_args d coin flash_res.receipt
    call builder (Command.move_call cetus_dex "cetus" function d.type_params arguments)
