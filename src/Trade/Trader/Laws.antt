-- ===== src/Trade/Trader/Laws.antt =====
-- What the trader may expect of the pools' methods: each extends a transaction that keeps step by
-- commands of a known number. The methods of the pools fill this interface.
use poison_dart.Base.{ℕ, Option, List}
use poison_dart.Trade.{Argument, Command, Builder, FlashResult}
use poison_dart.Trade.Exec.Rules.{Extends}
use poison_dart.Trade.Trader.{TradeOps}

pub record TradeLaws {D B O : Type 0} (builder : Builder B O) (trade : TradeOps D B) : Type 1 where
  -- The commands of a method at place `k`, with what it takes and gives.
  pub IsSwap : (k : ℕ) → D → (coin_in coin_out : Argument) → List Command → Type 0
  pub IsLoan : (k : ℕ) → D → FlashResult → List Command → Type 0
  pub IsRepaid :
      (k : ℕ) → D → (coin : Argument) → FlashResult → (rest : Argument) → List Command → Type 0
  pub loan_size : D → ℕ
  pub repayment_size : D → ℕ
  pub swap :
      (d : D) (k sender : ℕ) (coin : Argument) (amount_in : Option ℕ)
      → Extends builder k 1
          (IsSwap k d coin)
          (λ ctx. trade.extend_trade_tx d ctx sender coin amount_in)
  pub loan :
      (d : D) (k amount_in : ℕ)
      → Extends builder k
          (loan_size d)
          (IsLoan k d)
          (λ ctx. trade.extend_flashloan_tx d ctx amount_in)
  pub repayment :
      (d : D) (k : ℕ) (coin : Argument) (flash : FlashResult)
      → Extends builder k
          (repayment_size d)
          (IsRepaid k d coin flash)
          (λ ctx. trade.extend_repay_tx d ctx coin flash)
