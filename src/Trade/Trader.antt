-- ===== src/Trade/Trader.antt =====
-- `bin/arb/src/defi/trade.rs`, `Trader`: the transaction of a path, and the reading of its simulation.
-- The pools' methods that extend a transaction, the making of the transaction from its commands and
-- the simulator are arguments.
pub mod Outcome
pub mod Budget
pub mod Refused
pub mod Laws
pub mod Chain
pub mod Bids
pub mod Parts
pub mod Whole
use poison_dart.Base.{
  ℕ, zero, suc, ◌+◌, ◌%◌, ◌^◌, Bool, true, false, not, ◌&&◌, ◌||◌, Option, none, some, List, [],
  ◌∷◌, String, ltb, leb, ◌==◌, if◌then◌else◌, ite, str_dec, Result, ok, err, ensure, ok_or, ◌>>=◌,
  ◌>>◌,
}
use poison_dart.Base.Int.{ℤ, pos, pos_part, ◌+ℤ◌, is_nonnegative}
use poison_dart.Dex.{DexOps, DexPath, is_native_coin, is_empty, first_in, last_out}
use poison_dart.Source.{Source, public, is_shio, bid_amount, opp_tx_digest}
use poison_dart.Best.{TradeType, TradeResult}
use poison_dart.Simulator.Owner.{Owner, is_owned_by}
use poison_dart.Trade.{
  Argument, PureValue, Builder, TradeCtx, FlashResult, default_ctx, transfer_arg, pure, split_coin,
  split_coin_arg,
}
use poison_dart.Trade.Navi as navi_pool
use poison_dart.Trade.Navi.{Navi}
use poison_dart.Trade.Shio.{Shio, submit_bid}

abbrev pub gas_budget : ℕ
gas_budget = 10_000_000_000

-- The methods of the trait `Dex` that extend a transaction.
pub record TradeOps (D B : Type 0) : Type 0 where
  pub support_flashloan : D → Bool
  pub extend_flashloan_tx : D → TradeCtx B → ℕ → Result (FlashResult × TradeCtx B)
  pub extend_repay_tx : D → TradeCtx B → Argument → FlashResult → Result (Argument × TradeCtx B)
  pub extend_trade_tx :
      D → TradeCtx B → (sender : ℕ) → Argument → Option ℕ → Result (Argument × TradeCtx B)

module _ {D B O : Type 0} (builder : Builder B O) (trade : TradeOps D B) (sender : ℕ) where
  -- The swaps of a path, each on the coin that the last one gave. The first is told the amount.
  unfoldable pub swaps :
      List D
      → TradeCtx B
      → (coin_in : Argument) → (amount_in : Option ℕ) → Result (Argument × TradeCtx B)
  swaps [] ctx coin_in amount_in = ok (coin_in, ctx)
  swaps (d ∷ ds) ctx coin_in amount_in = do
    r ← trade.extend_trade_tx d ctx sender coin_in amount_in
    swaps ds r.1 r.0 none

  -- `get_swap_trade_tx`, up to the end of the commands. `coin_in` is the mocked coin.
  unfoldable pub swap_commands : DexPath D → (coin_in : O) → (amount_in : ℕ) → Result (TradeCtx B)
  unfolding is_empty default_ctx split_coin swaps transfer_arg
  swap_commands path coin_in amount_in = do
    ensure (not (is_empty path)) "empty path"
    coin ← split_coin builder (default_ctx builder) coin_in amount_in
    out ← swaps path.path coin.1 coin.0 (some amount_in)
    ok (transfer_arg builder out.1 sender out.0)

  module _ (navi : Navi O) where
    -- The loan and the coin that it gives, the swaps that are left, and the repayment.
    unfoldable pub borrow : D → TradeCtx B → ℕ → Result (FlashResult × TradeCtx B)
    unfolding navi_pool.extend_flashloan_tx
    borrow first ctx amount_in =
        if trade.support_flashloan first
        then trade.extend_flashloan_tx first ctx amount_in
        else navi_pool.extend_flashloan_tx builder navi ctx amount_in

    unfoldable pub swaps_after : D → (rest : List D) → List D
    swaps_after first rest = if trade.support_flashloan first then rest else first ∷ rest

    unfoldable pub repay : D → TradeCtx B → Argument → FlashResult → Result (Argument × TradeCtx B)
    unfolding navi_pool.extend_repay_tx
    repay first ctx coin flash_res =
        if trade.support_flashloan first
        then trade.extend_repay_tx first ctx coin flash_res
        else navi_pool.extend_repay_tx builder navi ctx coin flash_res

    -- The bid of an auction, taken from the profit.
    unfoldable pub bid :
        Source → Shio O → TradeCtx B → (coin_profit : Argument) → Result (TradeCtx B × Shio O)
    unfolding is_shio bid_amount pure split_coin_arg submit_bid
    bid source shio ctx coin_profit = elim (is_shio source) [
      | false ↦ ok (ctx, shio)
      | true ↦ do
        amount ← pure builder ctx (PureValue.u64 (bid_amount source))
        let coin_bid = split_coin_arg builder amount.1 coin_profit amount.0
        submit_bid builder shio coin_bid.1 coin_bid.0 (bid_amount source)
    ]

    -- `get_flashloan_trade_tx`, up to the end of the commands.
    unfoldable pub flashloan_commands :
        DexPath D → (amount_in : ℕ) → Source → Shio O → Result (TradeCtx B × Shio O)
    unfolding default_ctx borrow swaps_after swaps repay bid transfer_arg
    flashloan_commands path amount_in source shio = elim (path.path) [
      | [] ↦ err "empty path"
      | first ∷ rest ↦ do
        flash ← borrow first (default_ctx builder) amount_in
        coin ← swaps (swaps_after first rest) flash.1 flash.0.coin_out (some amount_in)
        profit ← repay first coin.1 coin.0 flash.0
        done ← bid source shio profit.1 profit.0
        ok (transfer_arg builder done.0 sender profit.0, done.1)
    ]

module _ {Tx : Type 0} (new_programmable : (gas_budget : ℕ) → Tx) (digest : Tx → ℕ) where
  -- `while tx_data.digest() <= opp_tx_digest`, on fuel; with none, the loop goes on.
  unfoldable pub raise_budget : (fuel opp_tx_digest budget : ℕ) → Option Tx
  raise_budget zero opp budget = none
  raise_budget (suc fuel) opp budget = elim (leb (digest (new_programmable budget)) opp) [
    | true ↦ raise_budget fuel opp ((budget + 1) % 2 ^ 64)
    | false ↦ some (new_programmable budget)
  ]

  unfoldable pub finalize : (fuel : ℕ) → Source → Option Tx
  unfolding opp_tx_digest raise_budget
  finalize fuel source = elim (opp_tx_digest source) [
    | none ↦ some (new_programmable gas_budget)
    | some opp ↦ raise_budget fuel opp gas_budget
  ]

-- What the code reads of a simulation. Owners and senders are numbers, type tags texts.
pub record BalanceChange : Type 0 where
  pub owner : Owner
  pub coin_type : String
  pub amount : ℤ

pub record SimulateResult : Type 0 where
  pub is_success : Bool
  pub net_gas_usage : ℤ
  pub balance_changes : List BalanceChange
  pub cache_misses : ℕ

-- The loop over the balance changes, up to the first one of the sender in the coin.
unfoldable pub change_of : (sender : ℕ) → (coin_out : String) → List BalanceChange → Option ℤ
unfolding is_owned_by
change_of sender coin_out [] = none
change_of sender coin_out (bc ∷ bcs) =
    if is_owned_by sender bc.owner && ite (str_dec bc.coin_type coin_out) true false
    then some bc.amount
    else change_of sender coin_out bcs

module _ {D : Type 0} (ops : DexOps D) where
  -- `get_trade_result`, from the simulation on. The coin types of pools are read as type tags by
  -- `tag`.
  unfoldable pub read_result :
      (tag : String → Option String)
      → DexPath D
      → (sender amount_in : ℕ) → SimulateResult
      → Result TradeResult
  unfolding first_in last_out change_of is_native_coin
  read_result tag path sender amount_in resp = do
    ensure resp.is_success "status"
    coin_in_type ← ok_or (first_in ops path.path) "empty path"
    coin_out_type ← ok_or (last_out ops path.path) "empty path"
    coin_in ← ok_or (tag coin_in_type) "invalid coin_in_type"
    coin_out ← ok_or (tag coin_out_type) "invalid coin_out_type"
    change ← ok_or (change_of sender coin_out resp.balance_changes) "no balance change for owner"
    let round_trip = ite (str_dec coin_in coin_out) true false && is_native_coin coin_out_type
    let amount_out = if round_trip then change +ℤ pos amount_in +ℤ resp.net_gas_usage else change
    ensure (is_nonnegative amount_out) "negative amount_out"
    ok (record {
      amount_out = pos_part amount_out % 2 ^ 64;
      gas_cost = resp.net_gas_usage;
      cache_misses = resp.cache_misses;
    })
