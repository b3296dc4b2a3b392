-- ===== src/Tests/Worker.antt =====
-- A worker on an item of an auction.
use poison_dart.Base.{ℕ, ◌≡◌, refl, some, true, List, [], ◌∷◌, String, Result, ok}
use poison_dart.Base.Int.{pos}
use poison_dart.Source.{Source, shio, TransactionDigest}
use poison_dart.ArbCache.{ArbItem}
use poison_dart.Arb.{ArbResult, default_trial}
use poison_dart.Simulator.Owner.{Owner}
use poison_dart.Trade.Trader.{SimulateResult}
use poison_dart.Worker.{notify_via_telegram, shio_submit_bid, handle_arb_item}
use poison_dart.Worker.Handled.{AreActions, handle_arb_item-AreActions}
use poison_dart.Tests.Dexes.{Pool, ocean}

abbrev auction : Source
auction =
    shio
      (record { opp_tx_digest = 9; bid_amount = 90; start = 100; arb_found = 150; deadline = 200 })

abbrev item : ArbItem ℕ
item = record { coin = ocean; pool_id = some 2; tx_digest = 9; sim_ctx = 7; source = auction }

abbrev found : ArbResult Pool ℕ
found = record {
  best_trial_result = default_trial;
  cache_misses = 0;
  source = auction;
  tx_data = 40;
}

abbrev fix : ℕ → Result ℕ
fix tx = ok 41

abbrev simulate : ℕ → ℕ → Result SimulateResult
simulate tx ctx = ok (record {
  is_success = true;
  net_gas_usage = pos 3;
  balance_changes =
      record { owner = Owner.address_owner 1; coin_type = "0x2::sui::SUI"; amount = pos 10 } ∷ [];
  cache_misses = 0;
})

abbrev find : ArbItem ℕ → Result (ArbResult Pool ℕ)
find _ = ok found

abbrev messages : TransactionDigest → ℕ → ArbResult Pool ℕ → List String
messages digest tx r = "found" ∷ []

bid_submitted :
    handle_arb_item 1 fix simulate find messages item
    ≡ shio_submit_bid 41 90 9 ∷ notify_via_telegram "found" ∷ []
unfolding handle_arb_item
bid_submitted = refl

handle_arb_item-AreActions_example :
    AreActions 1 fix simulate find messages item (handle_arb_item 1 fix simulate find messages item)
handle_arb_item-AreActions_example = handle_arb_item-AreActions 1 fix simulate find messages item
