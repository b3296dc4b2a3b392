-- ===== src/Trade/Shio.antt =====
-- `bin/arb/src/defi/shio.rs`: the bid of an auction, on one of the global states in turn.
pub mod Rounds
use poison_dart.Base.{
  ℕ, zero, suc, ◌+◌, ◌≡◌, Option, none, some, List, [], ◌∷◌, String, ltb, leb, if◌then◌else◌,
  length, get_elem?, Result, ok, err, ensure, ok_or, ◌>>=◌, ◌>>◌,
}
use poison_dart.Dex.{sui_coin_type}
use poison_dart.Trade.{
  Argument, Command, PureValue, Builder, TradeCtx, command, pure, obj, coin_into_balance,
}

abbrev pub shio_package : String
shio_package = "0x1889977f0fb56ae730e7bda8e8e32859ce78874458c74910d36121a81a615123"

-- The counter is shared by all workers; a bid reads and moves it.
pub record Shio (O : Type 0) : Type 0 where
  pub global_states : List O
  pub state_idx : ℕ

module _ {O : Type 0} where
  -- The index to use now, and the counter after it. A fetch past the end starts again.
  unfoldable pub next_idx : Shio O → ℕ × Shio O
  next_idx shio =
      if leb (length shio.global_states) shio.state_idx
      then (0, record shio { state_idx = 1 })
      else (shio.state_idx, record shio { state_idx = shio.state_idx + 1 })

  -- An index out of bounds panics: none.
  unfoldable pub next_state : Shio O → Option O × Shio O
  unfolding next_idx
  next_state shio = let (idx, shio') = next_idx shio in (get_elem? shio.global_states idx, shio')

module _ {B O : Type 0} (builder : Builder B O) where
  unfoldable pub submit_bid :
      Shio O → TradeCtx B → (coin_bid : Argument) → (bid_amount : ℕ) → Result (TradeCtx B × Shio O)
  unfolding next_state obj pure command coin_into_balance
  submit_bid shio ctx coin_bid bid_amount = do
    ensure (ltb 0 bid_amount) "bid_amount must be greater than 0"
    let (state, shio') = next_state shio
    global_state ← ok_or state "index out of bounds"
    s ← obj builder ctx global_state
    bid ← pure builder s.1 (PureValue.u64 bid_amount)
    let fee = coin_into_balance builder bid.1 coin_bid sui_coin_type
    ok (
      command builder fee.1
          (Command.move_call shio_package "auctioneer" "submit_bid" [] (s.0 ∷ bid.0 ∷ fee.0 ∷ [])),
      shio',
    )
