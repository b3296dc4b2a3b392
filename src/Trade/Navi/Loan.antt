-- ===== src/Trade/Navi/Loan.antt =====
-- What the two halves of the flash loan add to a transaction.
use poison_dart.Base.{
  ℕ, ◌+◌, ◌^◌, ◌≤◌, ◌≡◌, ap, ◌∙◌, inl, inr, none, List, [], ◌∷◌, arith, length, length-append, ok,
  Result-cases, ok_err_elim, ok_injective, subst,
}
use poison_dart.Dex.{sui_coin_type}
use poison_dart.Trade.{
  Argument, Command, PureValue, Builder, TradeCtx, FlashResult, command, pure, obj,
  last_command_idx, issue, coin_from_balance, coin_into_balance,
}
use poison_dart.Trade.Step.{
  issued, IsInStep, Adds, Keeps, command-Adds, pure-Keeps, obj-Keeps, Keeps-IsInStep, Keeps-trans,
  last_command_idx-Adds, Adds-append, Keeps-Adds, issue-Adds,
}
use poison_dart.Trade.Navi.{Navi, navi_protocol, extend_flashloan_tx, extend_repay_tx}

-- The commands of a loan at place `n`, on the three inputs.
abbrev pub loan_commands : (n : ℕ) → (config pool amount : Argument) → List Command
loan_commands n config pool amount =
    Command.move_call navi_protocol "lending" "flash_loan_with_ctx" (sui_coin_type ∷ [])
      (config ∷ pool ∷ amount ∷ [])
    ∷ Command.move_call "0x2" "coin" "from_balance" (sui_coin_type ∷ [])
        (Argument.nested_result n 0 ∷ [])
    ∷ []

-- The commands of a repayment at place `n`, on the coin that pays, the three objects and the receipt.
abbrev pub repay_commands : (n : ℕ) → (coin clock storage pool receipt : Argument) → List Command
repay_commands n coin clock storage pool receipt =
    Command.move_call "0x2" "coin" "into_balance" (sui_coin_type ∷ []) (coin ∷ [])
    ∷ Command.move_call navi_protocol "lending" "flash_repay_with_ctx" (sui_coin_type ∷ [])
        (clock ∷ storage ∷ pool ∷ receipt ∷ Argument.result n ∷ [])
    ∷ Command.move_call "0x2" "coin" "from_balance" (sui_coin_type ∷ [])
        (Argument.result (n + 1) ∷ [])
    ∷ []

module _ {B O : Type 0} (builder : Builder B O) (navi : Navi O) (ctx : TradeCtx B) where
  -- What a loan is, at the end of a transaction.
  abbrev pub IsLoan : FlashResult × TradeCtx B → Type 0
  IsLoan (flash, ctx') =
      let n = length (issued builder ctx) in
      (config : Argument) × (pool : Argument) × (amount : Argument) × Adds builder ctx ctx'
        (loan_commands n config pool amount)
      × (flash.receipt ≡ Argument.nested_result n 1)
      × (flash.coin_out ≡ Argument.result (n + 1))

  command-IsLoan :
      (before : TradeCtx B) (config pool amount : Argument)
      → IsInStep builder ctx
      → length (issued builder ctx) + 2 ≤ 2 ^ 16
      → Keeps builder ctx before
      → let ctx' = command builder before (
          Command.move_call navi_protocol "lending" "flash_loan_with_ctx"
            (sui_coin_type ∷ [])
            (config ∷ pool ∷ amount ∷ [])) in
        let last_idx = last_command_idx builder ctx' in
        let coin_out =
          coin_from_balance builder ctx' (Argument.nested_result last_idx 0) sui_coin_type in
        IsLoan (
          record {
            coin_out = coin_out.0;
            receipt = Argument.nested_result last_idx 1;
            pool = none;
          },
          coin_out.1,
        )
  unfolding coin_from_balance
  command-IsLoan before config pool amount h room keeps =
      let n = length (issued builder ctx) in
      let c =
        Command.move_call navi_protocol "lending" "flash_loan_with_ctx" (sui_coin_type ∷ [])
          (config ∷ pool ∷ amount ∷ []) in
      let ctx' = command builder before c in
      let adds =
        Keeps-Adds builder ctx before ctx' (c ∷ []) keeps
          (command-Adds builder before c (Keeps-IsInStep builder ctx before keeps h)) in
      let at = last_command_idx-Adds builder ctx ctx' c adds (omega arith) in
      let l = ap length adds.0 ∙ length-append (issued builder ctx) (c ∷ []) in
      let d =
        Command.move_call "0x2" "coin" "from_balance" (sui_coin_type ∷ [])
          (Argument.nested_result (last_command_idx builder ctx') 0 ∷ []) in
      let (adds', named) = issue-Adds builder ctx' d adds.1 (omega arith) in
      let done = (issue builder ctx' d).1 in
      (
        config,
        pool,
        amount,
        subst
            (λ i. Adds builder ctx done (
              c
              ∷ Command.move_call "0x2" "coin" "from_balance" (sui_coin_type ∷ [])
                  (Argument.nested_result i 0 ∷ [])
              ∷ []))
            at (Adds-append builder ctx ctx' done (c ∷ []) (d ∷ []) adds adds'),
        ap (λ i. Argument.nested_result i 1) at,
        named ∙ ap Argument.result l,
      )

  -- If the count of a transaction keeps step with its commands, of which there are few enough, a
  -- loan that succeeds adds two commands, the call of the lender and the one that makes a coin of
  -- the first thing that this call returns. The receipt is the second thing that it returns, the
  -- coin is the result of the second command, and the count still keeps step.
  pub extend_flashloan_tx-IsLoan :
      (amount_in : ℕ) (r : FlashResult × TradeCtx B)
      → IsInStep builder ctx
      → length (issued builder ctx) + 2 ≤ 2 ^ 16
      → extend_flashloan_tx builder navi ctx amount_in ≡ ok r
      → IsLoan r
  unfolding extend_flashloan_tx
  extend_flashloan_tx-IsLoan amount_in r h room e =
      elim (Result-cases (obj builder ctx navi.config)) [
        | inr (m, q) ↦ ok_err_elim {m = m} e (rw (q, extend_flashloan_tx))
        | inl (config, q) ↦ elim (Result-cases (obj builder config.1 navi.pool)) [
          | inr (m, q') ↦ ok_err_elim {m = m} e (rw (q, extend_flashloan_tx, q'))
          | inl (pool, q') ↦ elim (Result-cases (pure builder pool.1 (PureValue.u64 amount_in))) [
            | inr (m, q'') ↦ ok_err_elim {m = m} e (rw (q, extend_flashloan_tx, q', q''))
            | inl (amount, q'') ↦
                let keeps =
                  Keeps-trans builder ctx config.1 amount.1
                    (obj-Keeps builder ctx navi.config config.0 config.1 q)
                    (Keeps-trans builder config.1 pool.1 amount.1
                      (obj-Keeps builder config.1 navi.pool pool.0 pool.1 q')
                      (pure-Keeps builder pool.1 (PureValue.u64 amount_in) amount.0 amount.1
                        q'')) in
                subst IsLoan (ok_injective (rw (q, extend_flashloan_tx, q', q'') at e))
                  (command-IsLoan amount.1 config.0 pool.0 amount.0 h room keeps)
          ]
        ]
      ]

  -- What a repayment is, at the end of a transaction.
  abbrev pub IsRepayment : (coin receipt : Argument) → Argument × TradeCtx B → Type 0
  IsRepayment coin receipt (rest, ctx') =
      let n = length (issued builder ctx) in
      (clock : Argument) × (storage : Argument) × (pool : Argument) × Adds builder ctx ctx'
        (repay_commands n coin clock storage pool receipt)
      × (rest ≡ Argument.result (n + 2))

  issue-IsRepayment :
      (before : TradeCtx B) (coin clock storage pool receipt : Argument)
      → IsInStep builder ctx
      → length (issued builder ctx) + 3 ≤ 2 ^ 16
      → let repay = coin_into_balance builder ctx coin sui_coin_type in
        Keeps builder repay.1 before
        → let balance = issue builder before (
            Command.move_call navi_protocol "lending" "flash_repay_with_ctx"
              (sui_coin_type ∷ [])
              (clock ∷ storage ∷ pool ∷ receipt ∷ repay.0 ∷ [])) in
          IsRepayment coin receipt (coin_from_balance builder balance.1 balance.0 sui_coin_type)
  unfolding coin_into_balance coin_from_balance
  issue-IsRepayment before coin clock storage pool receipt h room keeps =
      let n = length (issued builder ctx) in
      let c = Command.move_call "0x2" "coin" "into_balance" (sui_coin_type ∷ []) (coin ∷ []) in
      let repay = issue builder ctx c in
      let (adds, named) = issue-Adds builder ctx c h (omega arith) in
      let at_call = ap length (keeps.0 ∙ adds.0) ∙ length-append (issued builder ctx) (c ∷ []) in
      let call = λ (a : Argument).
        Command.move_call navi_protocol "lending" "flash_repay_with_ctx" (sui_coin_type ∷ [])
          (clock ∷ storage ∷ pool ∷ receipt ∷ a ∷ []) in
      let d = call repay.0 in
      let balance = issue builder before d in
      let (adds', named') =
        issue-Adds builder before d (Keeps-IsInStep builder repay.1 before keeps adds.1)
          (omega arith) in
      let at_rest = ap length adds'.0 ∙ length-append (issued builder before) (d ∷ []) in
      let rest = λ (a : Argument).
        Command.move_call "0x2" "coin" "from_balance" (sui_coin_type ∷ []) (a ∷ []) in
      let f = rest balance.0 in
      let done = (issue builder balance.1 f).1 in
      let (adds'', named'') = issue-Adds builder balance.1 f adds'.1 (omega arith) in
      let all = Adds-append builder ctx repay.1 done (c ∷ []) (d ∷ f ∷ []) adds (
        Adds-append builder repay.1 balance.1 done (d ∷ []) (f ∷ [])
          (Keeps-Adds builder repay.1 before balance.1 (d ∷ []) keeps adds') adds'') in
      (
        clock,
        storage,
        pool,
        subst (λ a. Adds builder ctx done (c ∷ call a ∷ rest (Argument.result (n + 1)) ∷ [])) named
            (subst (λ a. Adds builder ctx done (c ∷ d ∷ rest a ∷ []))
              (named' ∙ ap Argument.result at_call) all),
        named''
            ∙ ap Argument.result
                (let e : length (issued builder balance.1) ≡ n + 2 = omega arith in e),
      )

  -- If there is room for three commands, a repayment that succeeds adds three: the coin is turned
  -- into a balance, the lender is called with the receipt and the result of the first, and the
  -- result of the second is turned into the coin that is left, which is returned.
  pub extend_repay_tx-IsRepayment :
      (coin : Argument) (flash_res : FlashResult) (r : Argument × TradeCtx B)
      → IsInStep builder ctx
      → length (issued builder ctx) + 3 ≤ 2 ^ 16
      → extend_repay_tx builder navi ctx coin flash_res ≡ ok r
      → IsRepayment coin flash_res.receipt r
  unfolding extend_repay_tx coin_into_balance coin_from_balance
  extend_repay_tx-IsRepayment coin flash_res r h room e =
      let repay = coin_into_balance builder ctx coin sui_coin_type in
      elim (Result-cases (obj builder repay.1 navi.clock)) [
        | inr (m, q) ↦ ok_err_elim {m = m} e (rw (q, extend_repay_tx))
        | inl (clock, q) ↦ elim (Result-cases (obj builder clock.1 navi.storage)) [
          | inr (m, q') ↦ ok_err_elim {m = m} e (rw (q, extend_repay_tx, q'))
          | inl (storage, q') ↦ elim (Result-cases (obj builder storage.1 navi.pool)) [
            | inr (m, q'') ↦ ok_err_elim {m = m} e (rw (q, extend_repay_tx, q', q''))
            | inl (pool, q'') ↦
                let keeps =
                  Keeps-trans builder repay.1 clock.1 pool.1
                    (obj-Keeps builder repay.1 navi.clock clock.0 clock.1 q)
                    (Keeps-trans builder clock.1 storage.1 pool.1
                      (obj-Keeps builder clock.1 navi.storage storage.0 storage.1 q')
                      (obj-Keeps builder storage.1 navi.pool pool.0 pool.1 q'')) in
                subst (IsRepayment coin flash_res.receipt)
                  (ok_injective (rw (q, extend_repay_tx, q', q'') at e))
                  (issue-IsRepayment pool.1 coin clock.0 storage.0 pool.0 flash_res.receipt h room
                    keeps)
          ]
        ]
      ]
