-- ===== src/Pools/FlowxClmm/Flash.antt =====
-- `bin/arb/src/defi/flowx_clmm.rs`: the flash swap and its repayment, which the pool says that it
-- does not support.
use poison_dart.Base.{ℕ, true, some, List, [], ◌∷◌, if◌then◌else◌, ok_or}
use poison_dart.Move.{ObjectArg}
use poison_dart.Pools.FlowxClmm.{FlowxClmm, flowx_clmm, is_a2b}
use poison_dart.Pools.FlowxClmm.Swap.{sqrt_price_limit}
use poison_dart.Pools.Balances.{repay_balances, receive}
use poison_dart.Trade.{Argument, Command, PureValue, Builder, FlashResult}
use poison_dart.Trade.Exec.{
  Exec, return, lift, input_obj, input_pure, call_at, call, perform, split_arg, ◌>>=◌,
}

module _ {B : Type 0} (builder : Builder B ObjectArg) where
  unfoldable pub build_flashloan_args :
      FlowxClmm → (pool_arg : Argument) → (amount_in : ℕ) → Exec B (List Argument)
  unfolding input_obj input_pure sqrt_price_limit return ◌>>=◌ is_a2b
  build_flashloan_args d pool_arg amount_in = do
    a2b ← input_pure builder (PureValue.flag (is_a2b d))
    by_amount_in ← input_pure builder (PureValue.flag true)
    amount ← input_pure builder (PureValue.u64 amount_in)
    limit ← input_pure builder (PureValue.u128 (sqrt_price_limit d))
    versioned_arg ← input_obj builder d.versioned
    clock_arg ← input_obj builder d.clock
    return (pool_arg ∷ a2b ∷ by_amount_in ∷ amount ∷ limit ∷ versioned_arg ∷ clock_arg ∷ [])

  unfoldable pub build_repay_args :
      FlowxClmm → (pool coin receipt : Argument) → Exec B (List Argument)
  unfolding input_obj repay_balances return ◌>>=◌ is_a2b
  build_repay_args d pool coin receipt = do
    balances ← repay_balances builder (is_a2b d) d.type_params coin
    versioned_arg ← input_obj builder d.versioned
    return (pool ∷ receipt ∷ balances.0 ∷ balances.1 ∷ versioned_arg ∷ [])

  unfoldable pub borrow_mut_pool : FlowxClmm → Exec B Argument
  unfolding input_obj input_pure call ◌>>=◌
  borrow_mut_pool d = do
    pool_registry ← input_obj builder d.pool_registry
    fee ← input_pure builder (PureValue.u64 d.fee)
    call builder (
        Command.move_call flowx_clmm "pool_manager" "borrow_mut_pool" d.type_params
          (pool_registry ∷ fee ∷ []))

  unfoldable pub extend_flashloan_tx : FlowxClmm → (amount_in : ℕ) → Exec B FlashResult
  unfolding borrow_mut_pool build_flashloan_args call_at receive return ◌>>=◌ is_a2b
  extend_flashloan_tx d amount_in = do
    pool ← borrow_mut_pool d
    arguments ← build_flashloan_args d pool amount_in
    last_idx ← call_at builder (Command.move_call flowx_clmm "pool" "swap" d.type_params arguments)
    coin_out ← receive builder (is_a2b d) d.type_params last_idx
    return (record {
      coin_out = coin_out;
      receipt = Argument.nested_result last_idx 2;
      pool = some pool;
    })

  unfoldable pub extend_repay_tx : FlowxClmm → (coin : Argument) → FlashResult → Exec B Argument
  unfolding lift call_at split_arg build_repay_args perform return ◌>>=◌ is_a2b
  extend_repay_tx d coin flash_res = do
    let receipt = flash_res.receipt
    pool ← lift (ok_or flash_res.pool "missing pool")
    last_idx ←
        call_at builder (Command.move_call flowx_clmm "pool" "swap_receipt_debts" [] (receipt ∷ []))
    let repay_amount = Argument.nested_result last_idx (if is_a2b d then 0 else 1)
    repay_coin ← split_arg builder coin repay_amount
    arguments ← build_repay_args d pool repay_coin receipt
    _ ← perform builder (Command.move_call flowx_clmm "pool" "pay" d.type_params arguments)
    return coin
