-- ===== src/Pools/Added.antt =====
-- What the methods of the pools add to a transaction that keeps step.
use poison_dart.Base.{ℕ, ◌+◌, ◌≤◌, ◌^◌, ◌≡◌, refl, Option, List, length, ok}
use poison_dart.Move.{ObjectArg}
use poison_dart.Pools.Dexes.{AnyDex}
use poison_dart.Pools.Extend.{extend_trade_tx, extend_flashloan_tx, extend_repay_tx}
use poison_dart.Pools.Loans.{IsFlashSwap, loan_size, extend_flashloan_tx-Extends}
use poison_dart.Pools.Repayments.{IsRepaid, repayment_size, extend_repay_tx-Extends}
use poison_dart.Pools.Swaps.{IsSwap, extend_trade_tx-Extends}
use poison_dart.Trade.{Argument, Command, Builder, TradeCtx, FlashResult}
use poison_dart.Trade.Step.{issued, IsInStep, Adds}

module _ {B : Type 0} (builder : Builder B ObjectArg) (now_millis : ℕ) (d : AnyDex)
    (ctx : TradeCtx B) where
  -- If the count of a transaction keeps step with its commands and there is room for one more, a
  -- swap that succeeds, of a pool of any protocol, adds one command: the call of the protocol, with
  -- the type parameters that the pool holds, on arguments of which the coin that goes in is the one
  -- at the place that the contract declares for it. Where the protocol has a function for each
  -- direction, it is that of the pool's direction; FlowX and Aftermath have one function, whose
  -- direction is in the type parameters alone. The coin that comes out is the result of this very
  -- command, and the count still keeps step.
  pub extend_trade_tx-IsSwap :
      (sender : ℕ) (coin : Argument) (amount_in : Option ℕ) (out : Argument) (ctx' : TradeCtx B)
      → IsInStep builder ctx
      → length (issued builder ctx) + 1 ≤ 2 ^ 16
      → extend_trade_tx builder now_millis d ctx sender coin amount_in ≡ ok (out, ctx')
      → (cs : List Command) × Adds builder ctx ctx' cs
        × (length cs ≡ 1)
        × IsSwap (length (issued builder ctx)) d coin out cs
  extend_trade_tx-IsSwap sender coin amount_in out ctx' h room e =
      (extend_trade_tx-Extends builder now_millis d (length (issued builder ctx)) sender coin
          amount_in).at
        ctx out ctx' h refl room e

  -- Under the same conditions, a flash swap that succeeds is one of a protocol that has it. It adds
  -- the call of the protocol and, where this returns balances of both coins, the two commands that
  -- destroy the empty one and make a coin of the other. The coin and the receipt are the values of
  -- these very commands, and a pool that had to be borrowed first is the one that is swapped on.
  pub extend_flashloan_tx-IsFlashSwap :
      (amount_in : ℕ) (flash : FlashResult) (ctx' : TradeCtx B)
      → IsInStep builder ctx
      → length (issued builder ctx) + loan_size d ≤ 2 ^ 16
      → extend_flashloan_tx builder now_millis d ctx amount_in ≡ ok (flash, ctx')
      → (cs : List Command) × Adds builder ctx ctx' cs
        × (length cs ≡ loan_size d)
        × IsFlashSwap (length (issued builder ctx)) d flash cs
  extend_flashloan_tx-IsFlashSwap amount_in flash ctx' h room e =
      (extend_flashloan_tx-Extends builder now_millis d (length (issued builder ctx)) amount_in).at
        ctx flash ctx' h refl room e

  -- Under the same conditions, a repayment that succeeds adds the call of the protocol, which takes
  -- the receipt of the loan. Of Cetus this is all, and what is left is its result. The others ask for
  -- the debt of the receipt, split it off the coin and make the balances that the call takes, this
  -- part of the coin that went in and nothing of the other; what is left is the coin itself.
  pub extend_repay_tx-IsRepaid :
      (coin : Argument) (flash : FlashResult) (rest : Argument) (ctx' : TradeCtx B)
      → IsInStep builder ctx
      → length (issued builder ctx) + repayment_size d ≤ 2 ^ 16
      → extend_repay_tx builder now_millis d ctx coin flash ≡ ok (rest, ctx')
      → (cs : List Command) × Adds builder ctx ctx' cs
        × (length cs ≡ repayment_size d)
        × IsRepaid (length (issued builder ctx)) d coin flash rest cs
  extend_repay_tx-IsRepaid coin flash rest ctx' h room e =
      (extend_repay_tx-Extends builder now_millis d (length (issued builder ctx)) coin flash).at ctx
        rest ctx' h refl room e
