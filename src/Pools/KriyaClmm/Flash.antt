-- ===== src/Pools/KriyaClmm/Flash.antt =====
-- `bin/arb/src/defi/kriya_clmm.rs`: the flash swap and its repayment.
use poison_dart.Base.{ℕ, true, none, List, [], ◌∷◌, if◌then◌else◌}
use poison_dart.Move.{ObjectArg}
use poison_dart.Pools.{min_sqrt_price_x64, max_sqrt_price_x64}
use poison_dart.Pools.KriyaClmm.{KriyaClmm, kriya_clmm, is_a2b}
use poison_dart.Pools.Balances.{repay_balances, receive}
use poison_dart.Trade.{Argument, Command, PureValue, Builder, FlashResult}
use poison_dart.Trade.Exec.{Exec, return, input_obj, input_pure, call_at, perform, split_arg, ◌>>=◌}

module _ {B : Type 0} (builder : Builder B ObjectArg) where
  unfoldable pub build_flashloan_args : KriyaClmm → (amount_in : ℕ) → Exec B (List Argument)
  unfolding input_obj input_pure return ◌>>=◌ is_a2b
  build_flashloan_args d amount_in = do
    pool_arg ← input_obj builder d.pool_arg
    a2b ← input_pure builder (PureValue.flag (is_a2b d))
    by_amount_in ← input_pure builder (PureValue.flag true)
    amount ← input_pure builder (PureValue.u64 amount_in)
    let limit = if is_a2b d then min_sqrt_price_x64 else max_sqrt_price_x64
    sqrt_price_limit ← input_pure builder (PureValue.u128 limit)
    clock_arg ← input_obj builder d.clock
    version_arg ← input_obj builder d.version
    return
        (pool_arg ∷ a2b ∷ by_amount_in ∷ amount ∷ sqrt_price_limit ∷ clock_arg ∷ version_arg ∷ [])

  unfoldable pub build_repay_args : KriyaClmm → (coin receipt : Argument) → Exec B (List Argument)
  unfolding input_obj repay_balances return ◌>>=◌ is_a2b
  build_repay_args d coin receipt = do
    pool_arg ← input_obj builder d.pool_arg
    balances ← repay_balances builder (is_a2b d) d.type_params coin
    version_arg ← input_obj builder d.version
    return (pool_arg ∷ receipt ∷ balances.0 ∷ balances.1 ∷ version_arg ∷ [])

  unfoldable pub extend_flashloan_tx : KriyaClmm → (amount_in : ℕ) → Exec B FlashResult
  unfolding build_flashloan_args call_at receive return ◌>>=◌ is_a2b
  extend_flashloan_tx d amount_in = do
    arguments ← build_flashloan_args d amount_in
    last_idx ←
        call_at builder (Command.move_call kriya_clmm "trade" "flash_swap" d.type_params arguments)
    coin_out ← receive builder (is_a2b d) d.type_params last_idx
    return
        (record { coin_out = coin_out; receipt = Argument.nested_result last_idx 2; pool = none })

  unfoldable pub extend_repay_tx : KriyaClmm → (coin : Argument) → FlashResult → Exec B Argument
  unfolding call_at split_arg build_repay_args perform return ◌>>=◌ is_a2b
  extend_repay_tx d coin flash_res = do
    let receipt = flash_res.receipt
    last_idx ←
        call_at builder
          (Command.move_call kriya_clmm "trade" "swap_receipt_debts" [] (receipt ∷ []))
    let repay_amount = Argument.nested_result last_idx (if is_a2b d then 0 else 1)
    repay_coin ← split_arg builder coin repay_amount
    arguments ← build_repay_args d repay_coin receipt
    _ ←
        perform builder
          (Command.move_call kriya_clmm "trade" "repay_flash_swap" d.type_params arguments)
    return coin
