-- ===== src/Tests/Arb.antt =====
-- Runs of the search for paths, of trials and of opportunities.
use poison_dart.Base.{
  ℕ, ◌<◌, ◌≤◌, ◌*◌, ◌/◌, ◌↔◌, false, All, Any, length, ◌^◌, ◌≡◌, refl, true, none, some, List, [],
  ◌∷◌, String, Result, ok, err, arith, str_dec,
}
use poison_dart.Dex.{DexPath, sui_coin_type}
use poison_dart.Base.Map
use poison_dart.Base.Map.{Map}
use poison_dart.Base.Int.{pos, ◌-ℤ◌}
use poison_dart.Source.{Source, public, shio, bid_amount, is_shio, deadline, opp_tx_digest}
use poison_dart.Best.{Joined, find_best_path_exact_in}
use poison_dart.Best.Choice.{IsChoice, find_best_path-IsChoice}
use poison_dart.Paths.{dfs, find_sell_paths, find_buy_paths}
use poison_dart.Paths.Routes.{IsRoute, dfs-IsRoute}
use poison_dart.Paths.Ends.{IsPath, find_sell_paths-IsPath, find_buy_paths-IsPath}
use poison_dart.Arb.{TrialCtx, TrialResult, ArbResult, trial, bid_for, find_opportunity}
use poison_dart.Arb.Trial.{IsGain, trial-none, trial-IsGain}
use poison_dart.Arb.Bid.{bid_for-deadline}
use poison_dart.Arb.Opportunity.{IsOutcome, find_opportunity-IsOutcome}
use poison_dart.Tests.Dexes.{
  Pool, pool_ops, flip, ocean, cetus, kriya, find_dexes, find_dexes-FindsFrom, simulate,
  simulate-HasEnded, in_order, in_order-IsOrder,
}

abbrev sells : List (DexPath Pool)
sells = record { path = cetus ∷ [] } ∷ record { path = kriya ∷ [] } ∷ []

abbrev buys : List (DexPath Pool)
buys = record { path = flip cetus ∷ [] } ∷ record { path = flip kriya ∷ [] } ∷ []

-- The shallow pool is left out.
sell_ocean : find_sell_paths pool_ops find_dexes ocean ≡ ok sells
unfolding find_sell_paths str_dec
sell_ocean = refl

buy_ocean : find_buy_paths pool_ops find_dexes ocean ≡ ok buys
unfolding find_buy_paths str_dec
buy_ocean = refl

sell_sui : find_sell_paths pool_ops find_dexes sui_coin_type ≡ ok (record { path = [] } ∷ [])
unfolding find_sell_paths str_dec
sell_sui = refl

abbrev ctx : TrialCtx Pool
ctx = record { coin_type = ocean; pool_id = some 2; buy_paths = buys; sell_paths = sells }

abbrev billion : TrialResult Pool
billion = record {
  coin_type = ocean;
  amount_in = 10 ^ 9;
  profit = 10 ^ 9;
  trade_path = record { path = flip cetus ∷ kriya ∷ [] };
  cache_misses = 1;
}

trial-billion : trial pool_ops simulate ctx (10 ^ 9) ≡ ok billion
unfolding trial str_dec ◌-ℤ◌
trial-billion = refl

abbrev auction : Source
auction =
    shio (record { opp_tx_digest = 3; bid_amount = 0; start = 1; arb_found = 0; deadline = 9 })

abbrev build_tx : ℕ → DexPath Pool → Source → Result ℕ
build_tx amount path source = ok amount

abbrev found : ArbResult Pool ℕ
found = record { best_trial_result = billion; cache_misses = 1; source = public; tx_data = 10 ^ 9 }

-- The grid alone finds a trade of a SUI.
find_ocean :
    find_opportunity pool_ops find_dexes simulate in_order build_tx ocean (some 2) false 7 public
    ≡ ok found
unfolding find_opportunity str_dec find_buy_paths ◌-ℤ◌
find_ocean = refl

trial-none_example :
    (m : String) × (trial pool_ops simulate (record ctx { pool_id = none }) (10 ^ 9) ≡ err m)
trial-none_example = trial-none pool_ops simulate (record ctx { pool_id = none }) (10 ^ 9) refl

trial-IsGain_example : IsGain pool_ops simulate ctx (10 ^ 9) billion
trial-IsGain_example =
    trial-IsGain pool_ops simulate ctx (10 ^ 9) simulate-HasEnded billion trial-billion
      (omega arith)

find_opportunity-IsOutcome_example :
    IsOutcome pool_ops find_dexes simulate in_order build_tx ocean
      (some 2)
      7
      public
      (find_opportunity pool_ops find_dexes simulate in_order build_tx ocean (some 2) true 7 public)
find_opportunity-IsOutcome_example =
    find_opportunity-IsOutcome pool_ops find_dexes simulate in_order build_tx ocean (some 2) 7
      public true in_order-IsOrder

bid_for-deadline_example :
    let t = bid_for 7 25 auction in
    (10 * bid_amount t ≤ 9 * 25)
    × (is_shio t ≡ false → bid_amount t ≡ 0)
    × ((d : ℕ)
        → deadline auction ≡ some d
        → ((is_shio t ≡ true) ↔ (7 < d))
          × (7 < d → (bid_amount t ≡ 25 / 10 * 9) × (opp_tx_digest t ≡ opp_tx_digest auction)))
bid_for-deadline_example = bid_for-deadline 7 25 auction

find_sell_paths-IsPath_example :
    (paths : List (DexPath Pool)) × (find_sell_paths pool_ops find_dexes ocean ≡ ok paths)
    × All (IsPath pool_ops ocean sui_coin_type) paths
    × (length paths ≤ 100)
find_sell_paths-IsPath_example =
    find_sell_paths-IsPath pool_ops find_dexes find_dexes-FindsFrom ocean

find_buy_paths-IsPath_example :
    (paths : List (DexPath Pool)) × (find_buy_paths pool_ops find_dexes ocean ≡ ok paths)
    × All (IsPath pool_ops sui_coin_type ocean) paths
    × (length paths ≤ 100)
find_buy_paths-IsPath_example = find_buy_paths-IsPath pool_ops find_dexes find_dexes-FindsFrom ocean

abbrev hops : Map (List Pool)
hops = Map.insert Map.empty ocean (cetus ∷ kriya ∷ [])

dfs-IsRoute_example :
    Any (λ s. s ≡ kriya ∷ []) (dfs pool_ops 3 ocean [] hops)
    ↔ (IsRoute pool_ops hops ocean (kriya ∷ []) × (length (kriya ∷ []) ≤ 2))
dfs-IsRoute_example = dfs-IsRoute pool_ops hops ocean (kriya ∷ [])

abbrev joined : List Joined
joined =
    (1, some (ok (record { amount_out = 40; gas_cost = pos 3; cache_misses = 0 })))
    ∷ (0, some (err "dry run failed"))
    ∷ []

choose_kriya :
    find_best_path_exact_in sells 20 joined
    ≡ ok (record {
      path = record { path = kriya ∷ [] };
      amount_in = 20;
      amount_out = 40;
      gas_cost = pos 3;
      cache_misses = 0;
    })
unfolding find_best_path_exact_in
choose_kriya = refl

find_best_path-IsChoice_example : IsChoice sells 20 joined (find_best_path_exact_in sells 20 joined)
find_best_path-IsChoice_example =
    find_best_path-IsChoice sells 20 joined (omega arith, (omega arith, tt))
