-- ===== src/Trade/Trader/Whole.antt =====
-- The whole transaction of a path with a flash loan.
use poison_dart.Base.{
  ℕ, suc, ◌+◌, ◌≤◌, ◌^◌, ◌≡◌, refl, ap, ◌∙◌, inl, inr, Bool, true, false, some, List, [], ◌∷◌, ◌++◌,
  arith, length, length-append, ok, if◌then◌else◌, Result-cases, ok_err_elim, ok_injective, subst,
}
use poison_dart.Dex.{DexPath}
use poison_dart.Source.{Source}
use poison_dart.Trade.{Argument, Command, Builder, TradeCtx, FlashResult, default_ctx, transfer_arg}
use poison_dart.Trade.Step.{issued, IsInStep, Adds, transfer_arg-Adds, Adds-append}
use poison_dart.Trade.Navi.{Navi}
use poison_dart.Trade.Shio.{Shio}
use poison_dart.Trade.Trader.{TradeOps, swaps, borrow, swaps_after, repay, bid, flashloan_commands}
use poison_dart.Trade.Trader.Laws.{TradeLaws}
use poison_dart.Trade.Trader.Chain.{swaps-IsChain}
use poison_dart.Trade.Trader.Bids.{bid-IsBid}
use poison_dart.Trade.Trader.Parts.{
  IsTrade, borrowed_size, repaid_size, borrow-IsBorrowed, repay-IsPaidBack,
}

module _ {D B O : Type 0} (builder : Builder B O) (trade : TradeOps D B)
    (laws : TradeLaws builder trade) (navi : Navi O) where
  swaps_few :
      (lends : Bool) (first : D) (rest : List D)
      → length (if lends then rest else first ∷ rest) ≤ suc (length rest)
  swaps_few true first rest = omega arith
  swaps_few false first rest = omega arith

  grown :
      (a b : TradeCtx B) (cs : List Command) (n : ℕ)
      → Adds builder a b cs
      → length (issued builder a) ≡ n
      → length (issued builder b) ≡ n + length cs
  grown a b cs n adds l = ap length adds.0 ∙ length-append (issued builder a) cs ∙ omega arith

  -- The start of a transaction.
  default_ctx-IsInStep : IsInStep builder (default_ctx builder)
  unfolding default_ctx
  default_ctx-IsInStep = rw (builder.commands-default) refl

  -- What the four parts give, one after the other.
  from_parts :
      (first : D) (rest : List D) (source : Source) (sender : ℕ) (shio shio' : Shio O)
      (amount_in : ℕ) (flash : FlashResult) (coin profit : Argument)
      (ctx1 ctx2 ctx3 ctx4 : TradeCtx B)
      → let lends = trade.support_flashloan first in
        borrowed_size builder trade laws navi lends first
            + suc (length rest)
            + repaid_size builder trade laws navi lends first
            + 4
          ≤ 2 ^ 16
        → borrow builder trade sender navi first (default_ctx builder) amount_in ≡ ok (flash, ctx1)
        → swaps builder trade sender
            (if lends then rest else first ∷ rest)
            ctx1
            flash.coin_out
            (some amount_in)
          ≡ ok (coin, ctx2)
        → repay builder trade sender navi first ctx2 coin flash ≡ ok (profit, ctx3)
        → bid builder trade sender navi source shio ctx3 profit ≡ ok (ctx4, shio')
        → let done = transfer_arg builder ctx4 sender profit in
          IsTrade builder trade laws navi first rest source (issued builder done)
          × IsInStep builder done
  unfolding default_ctx
  from_parts first rest source sender shio shio' amount_in flash coin profit ctx1 ctx2 ctx3 ctx4
        room e1 e2 e3 e4 =
      let lends = trade.support_flashloan first in
      let ds = if lends then rest else first ∷ rest in
      let few = swaps_few lends first rest in
      let (loan, adds1, size1, borrowed) =
        (borrow-IsBorrowed builder trade laws navi sender first amount_in).at (default_ctx builder)
          flash ctx1 default_ctx-IsInStep (ap length builder.commands-default) (omega arith) e1 in
      let at1 : length (issued builder ctx1) ≡ length loan =
        ap length (adds1.0 ∙ ap (λ cs. cs ++ loan) builder.commands-default) in
      let (chain, adds2, size2, chained) =
        (swaps-IsChain builder trade laws sender (length loan) ds flash.coin_out
            (some amount_in)).at
          ctx1 coin ctx2 adds1.1 at1 (omega arith) e2 in
      let at2 : length (issued builder ctx2) ≡ length loan + length chain =
        grown ctx1 ctx2 chain (length loan) adds2 at1 in
      let (repayment, adds3, size3, paid) =
        (repay-IsPaidBack builder trade laws navi sender first (length loan + length chain) coin
            flash).at
          ctx2 profit ctx3 adds2.1 at2 (omega arith) e3 in
      let at3 : length (issued builder ctx3) ≡ length loan + length chain + length repayment =
        grown ctx2 ctx3 repayment (length loan + length chain) adds3 at2 in
      let (bids, adds4, size4, is_bid) =
        bid-IsBid builder trade sender navi source shio shio' ctx3 ctx4
          (length loan + length chain + length repayment) profit adds3.1 at3 (omega arith) e4 in
      let (recipient, adds5) = transfer_arg-Adds builder ctx4 sender profit adds4.1 in
      let done = transfer_arg builder ctx4 sender profit in
      let last = Command.transfer_objects (profit ∷ []) recipient ∷ [] in
      let all = Adds-append builder (default_ctx builder) ctx1 done loan _ adds1 (
        Adds-append builder ctx1 ctx2 done chain _ adds2 (
          Adds-append builder ctx2 ctx3 done repayment _ adds3
            (Adds-append builder ctx3 ctx4 done bids last adds4 adds5))) in
      (
        (
          flash,
          coin,
          profit,
          recipient,
          loan,
          chain,
          repayment,
          bids,
          borrowed,
          chained,
          paid,
          is_bid,
          all.0
              ∙ ap (λ cs. cs ++ (loan ++ (chain ++ (repayment ++ (bids ++ last)))))
                  builder.commands-default,
        ),
        all.1,
      )

  -- If a transaction with a flash loan is built, for a path of few enough pools, then its commands
  -- are these, in this order: the loan, of the first pool if it lends and of the lender if not, with
  -- the receipt; the swaps of the pools that are left, each on the coin that the one before gave,
  -- the first on the borrowed one; the repayment with the coin of the last swap and that receipt; in
  -- an auction, a bid split off the coin that is left; and the transfer of that coin. Every result
  -- that a command refers to is that of the command that is meant.
  pub flashloan_commands-IsTrade :
      (path : DexPath D) (first : D) (rest : List D) (source : Source) (sender amount_in : ℕ)
      (shio shio' : Shio O) (done : TradeCtx B)
      → path.path ≡ first ∷ rest
      → borrowed_size builder trade laws navi (trade.support_flashloan first) first
          + suc (length rest)
          + repaid_size builder trade laws navi (trade.support_flashloan first) first
          + 4
        ≤ 2 ^ 16
      → flashloan_commands builder trade sender navi path amount_in source shio ≡ ok (done, shio')
      → IsTrade builder trade laws navi first rest source (issued builder done)
        × IsInStep builder done
  unfolding flashloan_commands swaps_after
  flashloan_commands-IsTrade path first rest source sender amount_in shio shio' done p room e =
      let lends = trade.support_flashloan first in
      elim (Result-cases (borrow builder trade sender navi first (default_ctx builder) amount_in)) [
        | inr (m, q) ↦ ok_err_elim {m = m} e (rw (p, flashloan_commands, q))
        | inl (flash, q) ↦
            elim (Result-cases (
              swaps builder trade sender (if lends then rest else first ∷ rest) flash.1
                flash.0.coin_out (some amount_in))) [
                  | inr (m, q') ↦ ok_err_elim {m = m} e (rw (p, flashloan_commands, q, q'))
                  | inl (coin, q') ↦
                      elim (Result-cases
                        (repay builder trade sender navi first coin.1 coin.0 flash.0)) [
                          | inr (m, q'') ↦
                              ok_err_elim {m = m} e (rw (p, flashloan_commands, q, q', q''))
                          | inl (profit, q'') ↦
                              elim (Result-cases
                                (bid builder trade sender navi source shio profit.1 profit.0)) [
                                  | inr (m, b) ↦
                                      ok_err_elim {m = m} e
                                        (rw (p, flashloan_commands, q, q', q'', b))
                                  | inl (paid, b) ↦
                                      subst
                                        (λ (r : TradeCtx B × Shio O).
                                          IsTrade builder trade laws navi first rest source
                                            (issued builder r.0)
                                          × IsInStep builder r.0)
                                        (ok_injective
                                          (rw (p, flashloan_commands, q, q', q'', b) at e))
                                        (from_parts first rest source sender shio paid.1 amount_in
                                          flash.0 coin.0 profit.0 flash.1 coin.1 profit.1 paid.0
                                          room q q' q'' b)
                                ]
                        ]
                ]
      ]
