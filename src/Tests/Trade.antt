-- ===== src/Tests/Trade.antt =====
-- Runs of the transactions, on a builder that is the list of its commands.
use poison_dart.Base.{
  ℕ, suc, ◌+◌, ◌%◌, ◌≤◌, ◌<◌, ◌≡◌, refl, sym, ap, true, false, none, some, if◌then◌else◌, List, [],
  ◌∷◌, ◌++◌, String, arith, get_elem?, ok, err, ok_injective, str_dec,
}
use poison_dart.Base.Int.{pos, negsuc, ◌+ℤ◌}
use poison_dart.Dex.{DexPath, sui_coin_type}
use poison_dart.Source.{Source, shio, deadline, opp_tx_digest}
use poison_dart.Arb.{bid_for}
use poison_dart.Simulator.Owner.{Owner}
use poison_dart.Trade.{Argument, Command, PureValue, Builder, TradeCtx, FlashResult}
use poison_dart.Trade.Navi.{Navi, extend_flashloan_tx, extend_repay_tx}
use poison_dart.Trade.Navi.Loan.{
  IsLoan, IsRepayment, loan_commands, repay_commands, extend_flashloan_tx-IsLoan,
  extend_repay_tx-IsRepayment,
}
use poison_dart.Trade.Shio.{Shio, next_idx, next_state}
use poison_dart.Trade.Shio.Rounds.{IsInTurn, next_state-IsInTurn}
use poison_dart.Trade.Trader.{
  TradeOps, SimulateResult, gas_budget, finalize, read_result, flashloan_commands,
}
use poison_dart.Trade.Trader.Outcome.{IsRoundTrip, read_result-IsRoundTrip}
use poison_dart.Trade.Trader.Budget.{IsFirst, finalize-IsFirst}
use poison_dart.Trade.Trader.Refused.{flashloan_commands-bid_for}
use poison_dart.Tests.Dexes.{Pool, pool_ops, flip, cetus, kriya}

-- Inputs are named by what they hold.
abbrev number : PureValue → Argument
number (PureValue.u64 n) = Argument.input n
number (PureValue.u128 n) = Argument.input n
number (PureValue.flag b) = Argument.input (if b then 1 else 0)

abbrev lists : Builder (List Command) ℕ
lists = record {
  default = [];
  commands = λ b. b;
  command = λ b c. b ++ c ∷ [];
  pure = λ b n. ok (number n, b);
  obj = λ b o. ok (Argument.input o, b);
  transfer_arg = λ b r a. b ++ Command.transfer_objects (a ∷ []) (Argument.input r) ∷ [];
  commands-default = refl;
  commands-command = λ b c. refl;
  commands-pure = λ b b' n a e. sym (ap (λ (r : Argument × List Command). r.1) (ok_injective e));
  commands-obj = λ b b' o a e. sym (ap (λ (r : Argument × List Command). r.1) (ok_injective e));
  commands-transfer_arg = λ b r a. (Argument.input r, refl);
}

abbrev navi : Navi ℕ
navi = record { pool = 101; config = 102; storage = 103; clock = 104 }

abbrev start : TradeCtx (List Command)
start = record { ptb = []; command_count = 0 }

abbrev loan : FlashResult × TradeCtx (List Command)
loan = (
  record { coin_out = Argument.result 1; receipt = Argument.nested_result 0 1; pool = none },
  record {
    ptb = loan_commands 0 (Argument.input 102) (Argument.input 101) (Argument.input 500);
    command_count = 2;
  },
)

flash : extend_flashloan_tx lists navi start 500 ≡ ok loan
unfolding extend_flashloan_tx
flash = refl

extend_flashloan_tx-IsLoan_example : IsLoan lists navi start loan
extend_flashloan_tx-IsLoan_example =
    extend_flashloan_tx-IsLoan lists navi start 500 loan refl (omega arith) flash

abbrev repaid : Argument × TradeCtx (List Command)
repaid = (
  Argument.result 2,
  record {
    ptb =
        repay_commands 0 (Argument.result 1) (Argument.input 104) (Argument.input 103)
          (Argument.input 101) (Argument.nested_result 0 1);
    command_count = 3;
  },
)

paid : extend_repay_tx lists navi start (Argument.result 1) loan.0 ≡ ok repaid
unfolding extend_repay_tx
paid = refl

extend_repay_tx-IsRepayment_example :
    IsRepayment lists navi start (Argument.result 1) (Argument.nested_result 0 1) repaid
extend_repay_tx-IsRepayment_example =
    extend_repay_tx-IsRepayment lists navi start (Argument.result 1) loan.0 repaid refl
      (omega arith) paid

-- The pools of the tests add no command of their own.
abbrev trade_ops : TradeOps Pool (List Command)
trade_ops = record {
  support_flashloan = λ p. false;
  extend_flashloan_tx = λ p ctx n. err "flashloan not supported";
  extend_repay_tx = λ p ctx c f. err "flashloan not supported";
  extend_trade_tx = λ p ctx sender coin amount. ok (coin, ctx);
}

abbrev states : Shio ℕ
states = record { global_states = 7 ∷ 8 ∷ []; state_idx = 2 }

abbrev auction : Source
auction =
    shio (record { opp_tx_digest = 3; bid_amount = 0; start = 1; arb_found = 0; deadline = 9 })

abbrev round : DexPath Pool
round = record { path = flip cetus ∷ kriya ∷ [] }

flashloan_commands-bid_for_example :
    (m : String) × (flashloan_commands lists trade_ops 1 navi round 500 (bid_for 7 9 auction) states
      ≡ err m)
unfolding deadline
flashloan_commands-bid_for_example =
    flashloan_commands-bid_for lists trade_ops 1 navi states round 500 7 9 9 auction refl
      (omega arith) (omega arith)

next_state-IsInTurn_example :
    ((state : ℕ) × ((next_state states).0 ≡ some state)
      × (get_elem? states.global_states (next_idx states).0 ≡ some state))
    × IsInTurn (next_state states).1
    × (suc (next_idx states).0 < 2 → (next_idx (next_state states).1).0 ≡ suc (next_idx states).0)
    × (suc (next_idx states).0 ≡ 2 → (next_idx (next_state states).1).0 ≡ 0)
next_state-IsInTurn_example = next_state-IsInTurn states (omega arith, omega arith)

-- The digest of a transaction is its budget, modulo a hundred.
abbrev digest : ℕ → ℕ
digest budget = budget % 100

finalize-IsFirst_example :
    (j : ℕ) × (j ≤ 5)
    × (finalize (λ b. b) digest 10 auction ≡ some (gas_budget + j))
    × IsFirst (λ b. b) digest 3 gas_budget j
unfolding opp_tx_digest
finalize-IsFirst_example =
    finalize-IsFirst (λ b. b) digest auction 10 3 5 refl (omega arith) (omega arith) (omega arith)

abbrev simulated : SimulateResult
simulated = record {
  is_success = true;
  net_gas_usage = pos 20;
  balance_changes =
      record { owner = Owner.address_owner 4; coin_type = "0x2::sui::SUI"; amount = negsuc 6 }
      ∷ record { owner = Owner.address_owner 1; coin_type = "0x2::sui::SUI"; amount = pos 30 }
      ∷ [];
  cache_misses = 0;
}

-- A gain of thirty on five hundred, with a gas of twenty.
read_round :
    read_result pool_ops some round 1 500 simulated
    ≡ ok (record { amount_out = 550; gas_cost = pos 20; cache_misses = 0 })
unfolding read_result ◌+ℤ◌ str_dec
read_round = refl

read_result-IsRoundTrip_example :
    IsRoundTrip pool_ops round 500
      (pos 30)
      (pos 20)
      true
      (read_result pool_ops some round 1 500 simulated)
unfolding read_result ◌+ℤ◌ str_dec
read_result-IsRoundTrip_example =
    read_result-IsRoundTrip pool_ops some round 1 500 simulated sui_coin_type (pos 30) refl refl
      refl refl (omega arith)
