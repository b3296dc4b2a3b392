-- ===== src/Pools/Laws.antt =====
-- The pools of the protocols fill the interface of the trader.
use poison_dart.Base.{ℕ}
use poison_dart.Move.{ObjectArg}
use poison_dart.Pools.Extend.{trade_ops, extend_trade_tx, extend_flashloan_tx, extend_repay_tx}
use poison_dart.Pools.Loans.{IsFlashSwap, loan_size, extend_flashloan_tx-Extends}
use poison_dart.Pools.Repayments.{IsRepaid, repayment_size, extend_repay_tx-Extends}
use poison_dart.Pools.Swaps.{IsSwap, extend_trade_tx-Extends}
use poison_dart.Trade.{Builder}
use poison_dart.Trade.Trader.Laws.{TradeLaws}

unfoldable pub pool_laws :
    {B : Type 0} (builder : Builder B ObjectArg) (now_millis : ℕ)
    → TradeLaws builder (trade_ops builder now_millis)
unfolding trade_ops extend_trade_tx extend_flashloan_tx extend_repay_tx
pool_laws builder now_millis = record {
  IsSwap = IsSwap;
  IsLoan = IsFlashSwap;
  IsRepaid = IsRepaid;
  loan_size = loan_size;
  repayment_size = repayment_size;
  swap = λ d k sender coin amount_in.
      extend_trade_tx-Extends builder now_millis d k sender coin amount_in;
  loan = λ d k amount_in. extend_flashloan_tx-Extends builder now_millis d k amount_in;
  repayment = λ d k coin flash. extend_repay_tx-Extends builder now_millis d k coin flash;
}
