-- ===== src/Trade/Exec.antt =====
-- The methods that extend a transaction, as actions on it: `&mut TradeCtx` is a state that comes back
-- beside the value, `?` the bind.
pub mod Rules
pub mod Calls
use poison_dart.Base.{ℕ, String, Result, ok, err}
use poison_dart.Trade.{
  Argument, Command, PureValue, Builder, TradeCtx, pure, obj, command, last_command_idx, issue,
  split_coin_arg, balance_destroy_zero, balance_zero, coin_from_balance, coin_into_balance,
}

abbrev pub Exec : Type 0 → Type 0 → Type 0
Exec B A = TradeCtx B → Result (A × TradeCtx B)

module _ {B A : Type 0} where
  unfoldable pub return : A → Exec B A
  return a ctx = ok (a, ctx)

  unfoldable pub lift : Result A → Exec B A
  lift r ctx = elim r [ ok a ↦ ok (a, ctx) | err m ↦ err m ]

module _ {B A C : Type 0} where
  infixl 5 ◌>>=◌
  unfoldable pub ◌>>=◌ : Exec B A → (A → Exec B C) → Exec B C
  ◌>>=◌ m f ctx = elim (m ctx) [ ok r ↦ f r.0 r.1 | err e ↦ err e ]

module _ {B O : Type 0} (builder : Builder B O) where
  unfoldable pub input_pure : PureValue → Exec B Argument
  unfolding pure
  input_pure v ctx = pure builder ctx v

  unfoldable pub input_obj : O → Exec B Argument
  unfolding obj
  input_obj o ctx = obj builder ctx o

  -- `ctx.command(...)` and `ctx.last_command_idx()`.
  unfoldable pub call_at : Command → Exec B ℕ
  unfolding command last_command_idx
  call_at c ctx = let ctx' = command builder ctx c in ok (last_command_idx builder ctx', ctx')

  -- `ctx.command(...)` and `Argument::Result(ctx.last_command_idx())`.
  unfoldable pub call : Command → Exec B Argument
  unfolding issue
  call c ctx = ok (issue builder ctx c)

  -- `ctx.command(...)` alone.
  unfoldable pub perform : Command → Exec B (Unit {0})
  unfolding command
  perform c ctx = ok (tt, command builder ctx c)

  -- The methods of `TradeCtx` that add a command.
  unfoldable pub split_arg : (coin amount : Argument) → Exec B Argument
  unfolding split_coin_arg
  split_arg coin amount ctx = ok (split_coin_arg builder ctx coin amount)

  unfoldable pub destroy_zero : (balance : Argument) → (coin_type : String) → Exec B (Unit {0})
  unfolding balance_destroy_zero
  destroy_zero balance coin_type ctx = ok (tt, balance_destroy_zero builder ctx balance coin_type)

  unfoldable pub zero_balance : (coin_type : String) → Exec B Argument
  unfolding balance_zero
  zero_balance coin_type ctx = ok (balance_zero builder ctx coin_type)

  unfoldable pub from_balance : (balance : Argument) → (coin_type : String) → Exec B Argument
  unfolding coin_from_balance
  from_balance balance coin_type ctx = ok (coin_from_balance builder ctx balance coin_type)

  unfoldable pub into_balance : (coin : Argument) → (coin_type : String) → Exec B Argument
  unfolding coin_into_balance
  into_balance coin coin_type ctx = ok (coin_into_balance builder ctx coin coin_type)
