-- ===== src/Trade.antt =====
-- `bin/arb/src/defi/trade.rs`, `TradeCtx`: a transaction under construction, with a count of its
-- commands beside the builder of the SDK. The builder is outside: its operations and what they do to
-- the list of its commands are the record `Builder`. Module and function names are literals that are
-- valid identifiers, so the checks on them are left out.
pub mod Step
pub mod Exec
pub mod Navi
pub mod Shio
pub mod Trader
use poison_dart.Base.{
  ℕ, ◌+◌, ◌-◌, ◌%◌, ◌^◌, ◌≡◌, Bool, Option, List, [], ◌∷◌, ◌++◌, String, Result, ok, err, ◌>>=◌,
}

-- `Argument`: a value that a command can take.
pub data Argument : Type 0 where
  input : (index : ℕ) → Argument
  result : (index : ℕ) → Argument
  nested_result : (index position : ℕ) → Argument

-- The commands that the bot issues. Type tags are texts.
pub data Command : Type 0 where
  split_coins : (coin : Argument) (amounts : List Argument) → Command
  transfer_objects : (objects : List Argument) (recipient : Argument) → Command
  move_call :
      (package_id module_name function : String) (type_arguments : List String)
      (arguments : List Argument)
      → Command

-- The values that the bot passes as inputs of their own.
pub data PureValue : Type 0 where
  u64 u128 : (value : ℕ) → PureValue
  flag : (value : Bool) → PureValue

-- `ProgrammableTransactionBuilder` of the SDK, for objects of type `O`: an input adds no command, a
-- command is added at the end.
pub record Builder (B O : Type 0) : Type 0 where
  pub default : B
  pub commands : B → List Command
  pub command : B → Command → B
  pub pure : B → PureValue → Result (Argument × B)
  pub obj : B → O → Result (Argument × B)
  pub transfer_arg : B → (recipient : ℕ) → Argument → B
  pub commands-default : commands default ≡ []
  pub commands-command : (b : B) (c : Command) → commands (command b c) ≡ commands b ++ c ∷ []
  pub commands-pure :
      (b b' : B) (n : PureValue) (a : Argument) → pure b n ≡ ok (a, b') → commands b' ≡ commands b
  pub commands-obj :
      (b b' : B) (o : O) (a : Argument) → obj b o ≡ ok (a, b') → commands b' ≡ commands b
  pub commands-transfer_arg :
      (b : B) (recipient : ℕ) (a : Argument)
      → (r : Argument) × (commands (transfer_arg b recipient a)
          ≡ commands b ++ transfer_objects (a ∷ []) r ∷ [])

-- The count is a `u16`, which wraps.
pub record TradeCtx (B : Type 0) : Type 0 where
  pub ptb : B
  pub command_count : ℕ

-- `FlashResult`. Some pools are borrowed themselves, for the time of the loan.
pub record FlashResult : Type 0 where
  pub coin_out : Argument
  pub receipt : Argument
  pub pool : Option Argument

module _ {B O : Type 0} (builder : Builder B O) where
  unfoldable pub default_ctx : TradeCtx B
  default_ctx = record { ptb = builder.default; command_count = 0 }

  unfoldable pub command : TradeCtx B → Command → TradeCtx B
  command ctx cmd = record {
    ptb = builder.command ctx.ptb cmd;
    command_count = (ctx.command_count + 1) % 2 ^ 16;
  }

  unfoldable pub transfer_arg : TradeCtx B → (recipient : ℕ) → Argument → TradeCtx B
  transfer_arg ctx recipient coin_arg = record {
    ptb = builder.transfer_arg ctx.ptb recipient coin_arg;
    command_count = (ctx.command_count + 1) % 2 ^ 16;
  }

  -- The methods of the builder, which `TradeCtx` dereferences to.
  unfoldable pub pure : TradeCtx B → PureValue → Result (Argument × TradeCtx B)
  pure ctx n = do r ← builder.pure ctx.ptb n; ok (r.0, record ctx { ptb = r.1 })

  unfoldable pub obj : TradeCtx B → O → Result (Argument × TradeCtx B)
  obj ctx o = do r ← builder.obj ctx.ptb o; ok (r.0, record ctx { ptb = r.1 })

  unfoldable pub last_command_idx : TradeCtx B → ℕ
  last_command_idx ctx = (ctx.command_count + 2 ^ 16 - 1) % 2 ^ 16

  -- A command, and the result of it.
  unfoldable pub issue : TradeCtx B → Command → Argument × TradeCtx B
  unfolding command last_command_idx
  issue ctx cmd = let ctx' = command ctx cmd in (result (last_command_idx ctx'), ctx')

  unfoldable pub split_coin_arg : TradeCtx B → (coin amount : Argument) → Argument × TradeCtx B
  unfolding issue
  split_coin_arg ctx coin amount = issue ctx (split_coins coin (amount ∷ []))

  unfoldable pub split_coin :
      TradeCtx B → (coin : O) → (amount : ℕ) → Result (Argument × TradeCtx B)
  unfolding obj pure split_coin_arg
  split_coin ctx coin amount = do
    c ← obj ctx coin
    a ← pure c.1 (PureValue.u64 amount)
    ok (split_coin_arg a.1 c.0 a.0)

  unfoldable pub balance_destroy_zero :
      TradeCtx B → (balance : Argument) → (coin_type : String) → TradeCtx B
  unfolding command
  balance_destroy_zero ctx balance coin_type =
      command ctx (move_call "0x2" "balance" "destroy_zero" (coin_type ∷ []) (balance ∷ []))

  unfoldable pub balance_zero : TradeCtx B → (coin_type : String) → Argument × TradeCtx B
  unfolding issue
  balance_zero ctx coin_type = issue ctx (move_call "0x2" "balance" "zero" (coin_type ∷ []) [])

  unfoldable pub coin_from_balance :
      TradeCtx B → (balance : Argument) → (coin_type : String) → Argument × TradeCtx B
  unfolding issue
  coin_from_balance ctx balance coin_type =
      issue ctx (move_call "0x2" "coin" "from_balance" (coin_type ∷ []) (balance ∷ []))

  unfoldable pub coin_into_balance :
      TradeCtx B → (coin : Argument) → (coin_type : String) → Argument × TradeCtx B
  unfolding issue
  coin_into_balance ctx coin coin_type =
      issue ctx (move_call "0x2" "coin" "into_balance" (coin_type ∷ []) (coin ∷ []))
