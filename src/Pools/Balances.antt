-- ===== src/Pools/Balances.antt =====
-- `bin/arb/src/defi/kriya_clmm.rs` and `flowx_clmm.rs`, whose flash swaps deal in balances of both
-- coins.
use poison_dart.Base.{ℕ, Bool, true, false, List, String, if◌then◌else◌}
use poison_dart.Move.{ObjectArg}
use poison_dart.Pools.{type_param}
use poison_dart.Trade.{Argument, Builder}
use poison_dart.Trade.Exec.{
  Exec, return, lift, destroy_zero, zero_balance, from_balance, into_balance, ◌>>=◌,
}

module _ {B : Type 0} (builder : Builder B ObjectArg) where
  -- The balances of both coins: the coin that pays, and nothing of the other.
  unfoldable pub repay_balances :
      (is_a2b : Bool) (type_params : List String) (coin : Argument) → Exec B (Argument × Argument)
  unfolding lift type_param zero_balance into_balance return ◌>>=◌
  repay_balances true type_params coin = do
    type0 ← lift (type_param type_params 0)
    balance_a ← into_balance builder coin type0
    type1 ← lift (type_param type_params 1)
    balance_b ← zero_balance builder type1
    return (balance_a, balance_b)
  repay_balances false type_params coin = do
    type0 ← lift (type_param type_params 0)
    balance_a ← zero_balance builder type0
    type1 ← lift (type_param type_params 1)
    balance_b ← into_balance builder coin type1
    return (balance_a, balance_b)

  -- What is received of a call that returns both balances: nothing of the coin put in, whose empty
  -- balance is destroyed, and the coin of the other.
  unfoldable pub receive :
      (is_a2b : Bool) (type_params : List String) (last_idx : ℕ) → Exec B Argument
  unfolding lift type_param destroy_zero from_balance ◌>>=◌
  receive is_a2b type_params last_idx = do
    coin_in_type ← lift (type_param type_params (if is_a2b then 0 else 1))
    coin_out_type ← lift (type_param type_params (if is_a2b then 1 else 0))
    _ ←
        destroy_zero builder (Argument.nested_result last_idx (if is_a2b then 0 else 1))
          coin_in_type
    from_balance builder (Argument.nested_result last_idx (if is_a2b then 1 else 0)) coin_out_type
