-- ===== src/Trade/Navi.antt =====
-- `bin/arb/src/defi/navi.rs`: the flash loan of the first pool that cannot lend. The four shared
-- objects are fetched once, when the bot starts.
pub mod Loan
use poison_dart.Base.{ℕ, none, List, [], ◌∷◌, String, Result, ok, err, ◌>>=◌}
use poison_dart.Dex.{sui_coin_type}
use poison_dart.Trade.{
  Argument, Command, PureValue, Builder, TradeCtx, FlashResult, command, pure, obj,
  last_command_idx, issue, coin_from_balance, coin_into_balance,
}

abbrev pub navi_protocol : String
navi_protocol = "0x834a86970ae93a73faf4fff16ae40bdb72b91c47be585fff19a2af60a19ddca3"

pub record Navi (O : Type 0) : Type 0 where
  pub pool : O
  pub config : O
  pub storage : O
  pub clock : O

module _ {B O : Type 0} (builder : Builder B O) (navi : Navi O) where
  unfoldable pub extend_flashloan_tx :
      TradeCtx B → (amount_in : ℕ) → Result (FlashResult × TradeCtx B)
  unfolding obj pure command last_command_idx coin_from_balance
  extend_flashloan_tx ctx amount_in = do
    config ← obj builder ctx navi.config
    pool ← obj builder config.1 navi.pool
    amount ← pure builder pool.1 (PureValue.u64 amount_in)
    let ctx' = command builder amount.1 (
        Command.move_call navi_protocol "lending" "flash_loan_with_ctx" (sui_coin_type ∷ [])
          (config.0 ∷ pool.0 ∷ amount.0 ∷ []))
    let last_idx = last_command_idx builder ctx'
    let coin_out = coin_from_balance builder ctx' (Argument.nested_result last_idx 0) sui_coin_type
    ok (
      record { coin_out = coin_out.0; receipt = Argument.nested_result last_idx 1; pool = none },
      coin_out.1,
    )

  unfoldable pub extend_repay_tx :
      TradeCtx B → (coin : Argument) → FlashResult → Result (Argument × TradeCtx B)
  unfolding obj issue coin_into_balance coin_from_balance
  extend_repay_tx ctx coin flash_res = do
    let repay = coin_into_balance builder ctx coin sui_coin_type
    clock ← obj builder repay.1 navi.clock
    storage ← obj builder clock.1 navi.storage
    pool ← obj builder storage.1 navi.pool
    let balance = issue builder pool.1 (
        Command.move_call navi_protocol "lending" "flash_repay_with_ctx" (sui_coin_type ∷ [])
          (clock.0 ∷ storage.0 ∷ pool.0 ∷ flash_res.receipt ∷ repay.0 ∷ []))
    ok (coin_from_balance builder balance.1 balance.0 sui_coin_type)
