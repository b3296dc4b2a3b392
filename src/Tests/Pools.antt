-- ===== src/Tests/Pools.antt =====
-- Runs of the pools' methods, on a builder that is the list of its commands.
use poison_dart.Base.{
  ℕ, ◌+◌, ◌≡◌, refl, sym, ap, true, none, List, [], ◌∷◌, ◌++◌, String, arith, length, ok,
  ok_injective, if◌then◌else◌, str_dec,
}
use poison_dart.Dex.{DexPath, sui_coin_type}
use poison_dart.Index.{Protocol, Pool, PoolExtra}
use poison_dart.Move.{ObjectArg}
use poison_dart.Pools.Dexes.{AnyDex}
use poison_dart.Pools.Extend.{trade_ops, extend_trade_tx, extend_flashloan_tx, extend_repay_tx}
use poison_dart.Pools.Loans.{IsFlashSwap, loan_size}
use poison_dart.Pools.Repayments.{IsRepaid, repayment_size}
use poison_dart.Pools.Swaps.{IsSwap}
use poison_dart.Pools.Added.{
  extend_trade_tx-IsSwap, extend_flashloan_tx-IsFlashSwap, extend_repay_tx-IsRepaid,
}
use poison_dart.Pools.Laws.{pool_laws}
use poison_dart.Pools.Price.{fixed_one, calc_spot_price_fixed_with_fees, calculate_expected_out}
use poison_dart.Pools.Price.Quote.{quote_at, calculate_expected_out-eq}
use poison_dart.Source.{public}
use poison_dart.Trade.{Argument, Command, PureValue, Builder, TradeCtx, FlashResult}
use poison_dart.Trade.Navi.{Navi}
use poison_dart.Trade.Shio.{Shio}
use poison_dart.Trade.Step.{IsInStep, Adds}
use poison_dart.Trade.Trader.{flashloan_commands}
use poison_dart.Trade.Trader.Parts.{IsTrade}
use poison_dart.Trade.Trader.Whole.{flashloan_commands-IsTrade}

-- Inputs are named by what they hold.
abbrev number : PureValue → Argument
number (PureValue.u64 n) = Argument.input n
number (PureValue.u128 n) = Argument.input n
number (PureValue.flag b) = Argument.input (if b then 1 else 0)

abbrev object : ObjectArg → Argument
object (ObjectArg.shared_object i _ _) = Argument.input i
object (ObjectArg.imm_or_owned_object i) = Argument.input i

abbrev lists : Builder (List Command) ObjectArg
lists = record {
  default = [];
  commands = λ b. b;
  command = λ b c. b ++ c ∷ [];
  pure = λ b n. ok (number n, b);
  obj = λ b o. ok (object o, b);
  transfer_arg = λ b r a. b ++ Command.transfer_objects (a ∷ []) (Argument.input r) ∷ [];
  commands-default = refl;
  commands-command = λ b c. refl;
  commands-pure = λ b b' n a e. sym (ap (λ (r : Argument × List Command). r.1) (ok_injective e));
  commands-obj = λ b b' o a e. sym (ap (λ (r : Argument × List Command). r.1) (ok_injective e));
  commands-transfer_arg = λ b r a. (Argument.input r, refl);
}

abbrev shared : ℕ → ObjectArg
shared i = ObjectArg.shared_object i 1 true

abbrev pool : Protocol → ℕ → Pool
pool protocol i = record {
  protocol = protocol;
  pool = i;
  tokens =
      record { token_type = sui_coin_type; decimals = 9 }
      ∷ record { token_type = "A"; decimals = 6 }
      ∷ [];
  extra = PoolExtra.no_extra;
}

-- A pool that gives A for SUI, and one that gives SUI for A.
abbrev kriya : AnyDex
kriya = AnyDex.kriya_clmm (record {
  pool = pool Protocol.kriya_clmm 11;
  pool_arg = shared 11;
  liquidity = 5000;
  coin_in_type = sui_coin_type;
  coin_out_type = "A";
  type_params = sui_coin_type ∷ "A" ∷ [];
  version = shared 12;
  clock = shared 6;
})

abbrev turbos : AnyDex
turbos = AnyDex.turbos (record {
  pool = pool Protocol.turbos 21;
  pool_arg = shared 21;
  liquidity = 4000;
  coin_in_type = "A";
  coin_out_type = sui_coin_type;
  type_params = sui_coin_type ∷ "A" ∷ "fee" ∷ [];
  versioned = shared 22;
  clock = shared 6;
})

abbrev start : TradeCtx (List Command)
start = record { ptb = []; command_count = 0 }

abbrev swapped : TradeCtx (List Command)
swapped = record {
  ptb =
      Command.move_call "0x11451575c775a3e633437b827ecbc1eb51a5964b0302210b28f5b89880be21a2"
        "turbos" "swap_b2a" (sui_coin_type ∷ "A" ∷ "fee" ∷ [])
        (Argument.input 21 ∷ Argument.input 70 ∷ Argument.input 6 ∷ Argument.input 22 ∷ [])
      ∷ [];
  command_count = 1;
}

swap_run :
    extend_trade_tx lists 1000 turbos start 1 (Argument.input 70) none
    ≡ ok (Argument.result 0, swapped)
unfolding extend_trade_tx str_dec
swap_run = refl

extend_trade_tx-IsSwap_example :
    (cs : List Command) × Adds lists start swapped cs
    × (length cs ≡ 1)
    × IsSwap 0 turbos (Argument.input 70) (Argument.result 0) cs
extend_trade_tx-IsSwap_example =
    extend_trade_tx-IsSwap lists 1000 turbos start 1 (Argument.input 70) none (Argument.result 0)
      swapped refl (omega arith) swap_run

abbrev lent : FlashResult
lent = record { coin_out = Argument.result 2; receipt = Argument.nested_result 0 2; pool = none }

abbrev kriya_clmm : String
kriya_clmm = "0xbd8d4489782042c6fafad4de4bc6a5e0b84a43c6c00647ffd7062d1e2bb7549e"

abbrev loan_commands : List Command
loan_commands =
    Command.move_call kriya_clmm "trade" "flash_swap" (sui_coin_type ∷ "A" ∷ []) (
      Argument.input 11
      ∷ Argument.input 1
      ∷ Argument.input 1
      ∷ Argument.input 500
      ∷ Argument.input 4295048016
      ∷ Argument.input 6
      ∷ Argument.input 12
      ∷ [])
    ∷ Command.move_call "0x2" "balance" "destroy_zero" (sui_coin_type ∷ [])
        (Argument.nested_result 0 0 ∷ [])
    ∷ Command.move_call "0x2" "coin" "from_balance" ("A" ∷ []) (Argument.nested_result 0 1 ∷ [])
    ∷ []

abbrev borrowed : TradeCtx (List Command)
borrowed = record { ptb = loan_commands; command_count = 3 }

loan_run : extend_flashloan_tx lists 1000 kriya start 500 ≡ ok (lent, borrowed)
unfolding extend_flashloan_tx str_dec
loan_run = refl

extend_flashloan_tx-IsFlashSwap_example :
    (cs : List Command) × Adds lists start borrowed cs
    × (length cs ≡ loan_size kriya)
    × IsFlashSwap 0 kriya lent cs
extend_flashloan_tx-IsFlashSwap_example =
    extend_flashloan_tx-IsFlashSwap lists 1000 kriya start 500 lent borrowed refl (omega arith)
      loan_run

abbrev repay_commands : (k : ℕ) → (coin receipt : Argument) → List Command
repay_commands k coin receipt =
    Command.move_call kriya_clmm "trade" "swap_receipt_debts" [] (receipt ∷ [])
    ∷ Command.split_coins coin (Argument.nested_result k 0 ∷ [])
    ∷ Command.move_call "0x2" "coin" "into_balance" (sui_coin_type ∷ [])
        (Argument.result (k + 1) ∷ [])
    ∷ Command.move_call "0x2" "balance" "zero" ("A" ∷ []) []
    ∷ Command.move_call kriya_clmm "trade" "repay_flash_swap" (sui_coin_type ∷ "A" ∷ []) (
        Argument.input 11
        ∷ receipt
        ∷ Argument.result (k + 2)
        ∷ Argument.result (k + 3)
        ∷ Argument.input 12
        ∷ [])
    ∷ []

abbrev repaid : TradeCtx (List Command)
repaid = record {
  ptb = repay_commands 0 (Argument.input 70) (Argument.nested_result 0 2);
  command_count = 5;
}

repay_run :
    extend_repay_tx lists 1000 kriya start (Argument.input 70) lent ≡ ok (Argument.input 70, repaid)
unfolding extend_repay_tx str_dec
repay_run = refl

extend_repay_tx-IsRepaid_example :
    (cs : List Command) × Adds lists start repaid cs
    × (length cs ≡ repayment_size kriya)
    × IsRepaid 0 kriya (Argument.input 70) lent (Argument.input 70) cs
extend_repay_tx-IsRepaid_example =
    extend_repay_tx-IsRepaid lists 1000 kriya start (Argument.input 70) lent (Argument.input 70)
      repaid refl (omega arith) repay_run

-- From SUI to A and back, borrowed of the first pool.
abbrev round : DexPath AnyDex
round = record { path = kriya ∷ turbos ∷ [] }

abbrev navi : Navi ObjectArg
navi = record { pool = shared 101; config = shared 102; storage = shared 103; clock = shared 6 }

abbrev states : Shio ObjectArg
states = record { global_states = shared 7 ∷ []; state_idx = 0 }

abbrev whole : TradeCtx (List Command)
whole = record {
  ptb =
      loan_commands
      ++ Command.move_call "0x11451575c775a3e633437b827ecbc1eb51a5964b0302210b28f5b89880be21a2"
          "turbos" "swap_b2a" (sui_coin_type ∷ "A" ∷ "fee" ∷ [])
          (Argument.input 21 ∷ Argument.result 2 ∷ Argument.input 6 ∷ Argument.input 22 ∷ [])
        ∷ []
      ++ repay_commands 4 (Argument.result 3) (Argument.nested_result 0 2)
      ++ Command.transfer_objects (Argument.result 3 ∷ []) (Argument.input 1) ∷ [];
  command_count = 10;
}

whole_run :
    flashloan_commands lists (trade_ops lists 1000) 1 navi round 500 public states
    ≡ ok (whole, states)
unfolding flashloan_commands trade_ops str_dec
whole_run = refl

flashloan_commands-IsTrade_example :
    IsTrade lists
      (trade_ops lists 1000)
      (pool_laws lists 1000)
      navi
      kriya
      (turbos ∷ [])
      public
      whole.ptb
    × IsInStep lists whole
unfolding pool_laws trade_ops
flashloan_commands-IsTrade_example =
    flashloan_commands-IsTrade lists (trade_ops lists 1000) (pool_laws lists 1000) navi round kriya
      (turbos ∷ []) public 1 500 states states whole refl (omega arith) whole_run

-- Balances of one to two, without fees.
calculate_expected_out-eq_example :
    calculate_expected_out 1000 2000 fixed_one fixed_one 0 0 500
    ≡ quote_at (calc_spot_price_fixed_with_fees 1000 2000 fixed_one fixed_one 0 0) 500
calculate_expected_out-eq_example =
    calculate_expected_out-eq 1000 2000 fixed_one fixed_one 0 0 500 (omega arith)

quote_run : calculate_expected_out 1000 2000 fixed_one fixed_one 0 0 500 ≡ ok 1000
unfolding calculate_expected_out
quote_run = refl
