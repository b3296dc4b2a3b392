-- ===== src/Trade/Trader/Parts.antt =====
-- The parts of the transaction of a path with a flash loan.
use poison_dart.Base.{
  ℕ, ◌+◌, ◌≡◌, refl, ap, ◌∙◌, inl, inr, Bool, true, false, List, [], ◌∷◌, ◌++◌, arith, length,
  if◌then◌else◌, Bool-cases, subst,
}
use poison_dart.Source.{Source}
use poison_dart.Trade.{Argument, Command, Builder, FlashResult}
use poison_dart.Trade.Step.{Adds}
use poison_dart.Trade.Exec.Rules.{Extends}
use poison_dart.Trade.Navi.{Navi}
use poison_dart.Trade.Navi.Loan.{
  loan_commands, repay_commands, extend_flashloan_tx-IsLoan, extend_repay_tx-IsRepayment,
}
use poison_dart.Trade.Trader.{TradeOps, borrow, repay}
use poison_dart.Trade.Trader.Laws.{TradeLaws}
use poison_dart.Trade.Trader.Chain.{IsChain}
use poison_dart.Trade.Trader.Bids.{IsBid}

module _ {D B O : Type 0} (builder : Builder B O) (trade : TradeOps D B)
    (laws : TradeLaws builder trade) (navi : Navi O) where
  -- The loan at the start, of the first pool or of the lender.
  abbrev pub IsBorrowed : (lends : Bool) → D → FlashResult → List Command → Type 0
  IsBorrowed true first flash cs = laws.IsLoan 0 first flash cs
  IsBorrowed false first flash cs =
      (config : Argument) × (pool : Argument) × (amount : Argument) × (cs
        ≡ loan_commands 0 config pool amount)
      × (flash.receipt ≡ Argument.nested_result 0 1)
      × (flash.coin_out ≡ Argument.result 1)

  abbrev pub borrowed_size : (lends : Bool) → D → ℕ
  borrowed_size true first = laws.loan_size first
  borrowed_size false first = 2

  pub borrow-IsBorrowed :
      (sender : ℕ) (first : D) (amount_in : ℕ)
      → Extends builder 0
          (borrowed_size (trade.support_flashloan first) first)
          (IsBorrowed (trade.support_flashloan first) first)
          (λ ctx. borrow builder trade sender navi first ctx amount_in)
  unfolding borrow
  borrow-IsBorrowed sender first amount_in = elim (Bool-cases (trade.support_flashloan first)) [
    | inl s ↦ rw (s, borrow) (laws.loan first 0 amount_in)
    | inr s ↦
        rw (s, borrow)
          (record {
            at = λ ctx flash ctx' h l room e.
                let (config, pool, amount, adds, receipt, coin) =
                  extend_flashloan_tx-IsLoan builder navi ctx amount_in (flash, ctx') h
                    (omega arith) e in
                (
                  loan_commands 0 config pool amount,
                  subst (λ n. Adds builder ctx ctx' (loan_commands n config pool amount)) l adds,
                  refl,
                  (
                    config,
                    pool,
                    amount,
                    refl,
                    receipt ∙ ap (λ n. Argument.nested_result n 1) l,
                    coin ∙ ap (λ n. Argument.result (n + 1)) l,
                  ),
                );
          })
  ]

  -- The repayment of the loan at place `k`, with the coin of the last swap.
  abbrev pub IsPaidBack :
      (lends : Bool) (k : ℕ)
      → D
      → (coin : Argument) → FlashResult
      → (profit : Argument) → List Command
      → Type 0
  IsPaidBack true k first coin flash profit cs = laws.IsRepaid k first coin flash profit cs
  IsPaidBack false k first coin flash profit cs =
      (clock : Argument) × (storage : Argument) × (pool : Argument) × (cs
        ≡ repay_commands k coin clock storage pool flash.receipt)
      × (profit ≡ Argument.result (k + 2))

  abbrev pub repaid_size : (lends : Bool) → D → ℕ
  repaid_size true first = laws.repayment_size first
  repaid_size false first = 3

  pub repay-IsPaidBack :
      (sender : ℕ) (first : D) (k : ℕ) (coin : Argument) (flash : FlashResult)
      → Extends builder k
          (repaid_size (trade.support_flashloan first) first)
          (IsPaidBack (trade.support_flashloan first) k first coin flash)
          (λ ctx. repay builder trade sender navi first ctx coin flash)
  unfolding repay
  repay-IsPaidBack sender first k coin flash = elim (Bool-cases (trade.support_flashloan first)) [
    | inl s ↦ rw (s, repay) (laws.repayment first k coin flash)
    | inr s ↦
        rw (s, repay)
          (record {
            at = λ ctx profit ctx' h l room e.
                let (clock, storage, pool, adds, rest) =
                  extend_repay_tx-IsRepayment builder navi ctx coin flash (profit, ctx') h
                    (omega arith) e in
                (
                  repay_commands k coin clock storage pool flash.receipt,
                  subst
                      (λ n.
                        Adds builder ctx ctx'
                          (repay_commands n coin clock storage pool flash.receipt))
                      l adds,
                  refl,
                  (clock, storage, pool, refl, rest ∙ ap (λ n. Argument.result (n + 2)) l),
                );
          })
  ]

  -- The transaction of a path that starts with the pool `first`, by its parts: the loan, the swaps,
  -- each on the coin of the one before, the repayment with the coin of the last, the bid, which is
  -- split off what is left, and the transfer of what is left.
  abbrev pub IsTrade : (first : D) (rest : List D) (source : Source) → List Command → Type 0
  IsTrade first rest source all =
      let lends = trade.support_flashloan first in
      (flash : FlashResult) × (coin : Argument) × (profit : Argument) × (recipient : Argument)
      × (loan : List Command) × (chain : List Command) × (repayment : List Command) × (bid : List
          Command)
      × IsBorrowed lends first flash loan
      × IsChain builder trade laws (length loan) (if lends then rest else first ∷ rest)
          flash.coin_out coin chain
      × IsPaidBack lends (length loan + length chain) first coin flash profit repayment
      × IsBid (length loan + length chain + length repayment) source profit bid
      × (all
          ≡ loan
            ++ (chain
                ++ (repayment ++ (bid ++ Command.transfer_objects (profit ∷ []) recipient ∷ []))))
