-- ===== src/Trade/Trader/Refused.antt =====
-- A bid in an auction that no transaction is built for.
use poison_dart.Base.{
  ℕ, ◌<◌, ◌≡◌, inl, inr, true, some, String, arith, err, Result-cases, List-cases,
}
use poison_dart.Dex.{DexPath}
use poison_dart.Source.{Source, is_shio, bid_amount, deadline}
use poison_dart.Arb.{bid_for}
use poison_dart.Arb.Bid.{bid_for-deadline}
use poison_dart.Trade.{Argument, PureValue, Builder, TradeCtx, default_ctx, pure}
use poison_dart.Trade.Navi.{Navi}
use poison_dart.Trade.Shio.{Shio, submit_bid}
use poison_dart.Trade.Trader.{TradeOps, swaps, borrow, swaps_after, repay, bid, flashloan_commands}

module _ {D B O : Type 0} (builder : Builder B O) (trade : TradeOps D B) (sender : ℕ)
    (navi : Navi O) (shio_states : Shio O) where
  bid-zero :
      (source : Source) (ctx : TradeCtx B) (coin_profit : Argument)
      → is_shio source ≡ true
      → bid_amount source ≡ 0
      → (m : String) × (bid builder trade sender navi source shio_states ctx coin_profit ≡ err m)
  unfolding bid submit_bid
  bid-zero source ctx coin_profit s z = elim (Result-cases (pure builder ctx (PureValue.u64 0))) [
    | inl (amount, q) ↦ ("bid_amount must be greater than 0", rw (s, bid, z, q))
    | inr (m, q) ↦ (m, rw (s, bid, z, q))
  ]

  flashloan_commands-zero :
      (path : DexPath D) (amount_in : ℕ) (source : Source)
      → is_shio source ≡ true
      → bid_amount source ≡ 0
      → (m : String) × (flashloan_commands builder trade sender navi path amount_in source
            shio_states
          ≡ err m)
  unfolding flashloan_commands
  flashloan_commands-zero path amount_in source s z = elim (List-cases path.path) [
    | inl e ↦ ("empty path", rw (e, flashloan_commands))
    | inr (first, rest, e) ↦
        elim (Result-cases
          (borrow builder trade sender navi first (default_ctx builder) amount_in)) [
            | inr (m, q) ↦ (m, rw (e, flashloan_commands, q))
            | inl (flash, q) ↦
                elim (Result-cases (
                  swaps builder trade sender (swaps_after builder trade sender navi first rest)
                    flash.1 flash.0.coin_out (some amount_in))) [
                      | inr (m, q') ↦ (m, rw (e, flashloan_commands, q, q'))
                      | inl (coin, q') ↦
                          elim (Result-cases
                            (repay builder trade sender navi first coin.1 coin.0 flash.0)) [
                              | inr (m, q'') ↦ (m, rw (e, flashloan_commands, q, q', q''))
                              | inl (profit, q'') ↦
                                  let (m, b) = bid-zero source profit.1 profit.0 s z in
                                  (m, rw (e, flashloan_commands, q, q', q'', b))
                            ]
                    ]
          ]
  ]

  -- For an auction whose deadline is still to come and a profit below ten, no transaction of any
  -- path is built: the bid is nothing, which the auction refuses.
  pub flashloan_commands-bid_for :
      (path : DexPath D) (amount_in now profit d : ℕ) (source : Source)
      → deadline source ≡ some d
      → now < d
      → profit < 10
      → (m : String) × (flashloan_commands builder trade sender navi path amount_in
            (bid_for now profit source)
            shio_states
          ≡ err m)
  flashloan_commands-bid_for path amount_in now profit d source e before small =
      let (_, _, when) = bid_for-deadline now profit source in
      let (iff, bids) = when d e in
      flashloan_commands-zero path amount_in (bid_for now profit source) (iff.1 before)
        (let b = (bids before).0 in omega arith)
