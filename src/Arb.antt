-- ===== src/Arb.antt =====
-- `bin/arb/src/arb.rs`: trials of an amount over the paths of a coin, the grid of amounts, the
-- search round the best of them, and the opportunity that comes out.
-- The simulations are outside: `simulate` says what the tasks of `find_best_path_exact_in` return,
-- in the order in which they end, `order` in which order the tasks of the grid end, `build_tx` what
-- the trader builds. Graph-based path finding is switched off by a constant in the source.
pub mod Trial
pub mod Tasks
pub mod Grid
pub mod Bid
pub mod Opportunity
use poison_dart.Base.{
  ℕ, zero, suc, map, ◌+◌, ◌*◌, ◌/◌, ◌%◌, ◌^◌, Bool, true, false, not, ◌&&◌, ◌||◌, Option, none,
  some, List, [], ◌∷◌, ◌++◌, String, ltb, leb, if◌then◌else◌, min, Result, ok, err, ensure, ok_or,
  ◌>>=◌, ◌>>◌,
}
use poison_dart.Base.Words.{u64_max}
use poison_dart.Base.Int.{ℤ, pos_part, is_positive}
use poison_dart.Dex.{DexOps, DexPath, is_disjoint, contains_pool, any}
use poison_dart.Paths.{find_sell_paths, find_buy_paths}
use poison_dart.Best.{TradeType, PathTradeResult, Joined, find_best_path_exact_in, profit}
use poison_dart.Search.{Goal, golden_section_search_maximize}
use poison_dart.Source.{Source, deadline, with_bid_amount, with_arb_found_time}

pub record TrialCtx {ℓ} (D : Type ℓ) : Type ℓ where
  pub coin_type : String
  pub pool_id : Option ℕ
  pub buy_paths : List (DexPath D)
  pub sell_paths : List (DexPath D)

pub record TrialResult {ℓ} (D : Type ℓ) : Type ℓ where
  pub coin_type : String
  pub amount_in : ℕ
  pub profit : ℕ
  pub trade_path : DexPath D
  pub cache_misses : ℕ

-- `starting_grid.checked_mul(10u64.pow(inc)).context("Grid overflow")`.
unfoldable pub grid : ℕ → Result ℕ
grid inc =
    let amount = 1_000_000 * 10 ^ inc in
    if leb amount u64_max then ok amount else err "Grid overflow"

-- The amounts of the loop over `inc`, with `left` rounds to go.
unfoldable pub grids : (inc left : ℕ) → Result (List ℕ)
unfolding grid
grids inc zero = ok []
grids inc (suc left) = do amount ← grid inc; amounts ← grids (suc inc) left; ok (amount ∷ amounts)

-- `Vec::is_empty`, negated.
abbrev pub nonempty {ℓ} : {A : Type ℓ} → List A → Bool
nonempty [] = false
nonempty (x ∷ xs) = true

module _ {ℓ} {D : Type ℓ} where
  abbrev pub default_trial : TrialResult D
  default_trial = record {
    coin_type = "";
    amount_in = 0;
    profit = 0;
    trade_path = record { path = [] };
    cache_misses = 0;
  }

  abbrev pub unwrap_or_default : Result (TrialResult D) → TrialResult D
  unwrap_or_default (ok t) = t
  unwrap_or_default (err _) = default_trial

  -- `PartialOrd` of `TrialResult` compares the profits alone.
  abbrev pub more_profit : TrialResult D → TrialResult D → Bool
  more_profit t best = ltb best.profit t.profit

  -- The trials that have ended: the best so far, and the most cache misses.
  unfoldable pub join_trials :
      List (Option (Result (TrialResult D))) → TrialResult D × ℕ → TrialResult D × ℕ
  join_trials [] best = best
  join_trials (none ∷ rs) best = best
  join_trials (some (err _) ∷ rs) best = join_trials rs best
  join_trials (some (ok t) ∷ rs) best = join_trials rs (
    if more_profit t best.0 then t else best.0,
    if ltb best.1 t.cache_misses then t.cache_misses else best.1,
  )

module _ {ℓ} {D : Type ℓ} (ops : DexOps D) where
  -- `TrialCtx::new`.
  unfoldable pub new_trial_ctx :
      (String → Option String → Result (List D)) → String → Option ℕ → Result (TrialCtx D)
  unfolding contains_pool
  new_trial_ctx find_dexes coin_type pool_id = do
    buy_paths ← find_buy_paths ops find_dexes coin_type
    ensure (nonempty buy_paths) "no buy paths found"
    sell_paths ← find_sell_paths ops find_dexes coin_type
    ensure (nonempty sell_paths) "no sell paths found"
    ensure
        (elim pool_id [
          | none ↦ true
          | some id ↦
              any (λ p. contains_pool ops p (some id)) buy_paths
              || any (λ p. contains_pool ops p (some id)) sell_paths
        ])
        "no paths found for the fluctuating pool"
    ok (record {
      coin_type = coin_type;
      pool_id = pool_id;
      buy_paths = buy_paths;
      sell_paths = sell_paths;
    })

  -- The sell paths that can follow the best buy path, appended to it.
  unfoldable pub trade_paths :
      Option ℕ → (best_buy_path : DexPath D) → List (DexPath D) → List (DexPath D)
  unfolding is_disjoint contains_pool
  trade_paths pool_id best [] = []
  trade_paths pool_id best (p ∷ ps) =
      if is_disjoint ops best p && (contains_pool ops best pool_id || contains_pool ops p pool_id)
      then record { path = best.path ++ p.path } ∷ trade_paths pool_id best ps
      else trade_paths pool_id best ps

  module _ (simulate : List (DexPath D) → ℕ → TradeType → List Joined) where
    -- `TrialCtx::trial`. The profit of an empty path, at which the code panics, is an error here:
    -- no task is spawned on an empty path.
    unfoldable pub trial : TrialCtx D → ℕ → Result (TrialResult D)
    unfolding trade_paths find_best_path_exact_in profit
    trial ctx amount_in = do
      best_buy ←
          find_best_path_exact_in ctx.buy_paths amount_in
            (simulate ctx.buy_paths amount_in TradeType.swap)
      let paths = trade_paths ctx.pool_id best_buy.path ctx.sell_paths
      ensure (nonempty paths) "no trade paths found"
      best ← find_best_path_exact_in paths amount_in (simulate paths amount_in TradeType.flashloan)
      gain ← ok_or (profit ops best) "empty path"
      ok (
          if is_positive gain
          then record {
            coin_type = ctx.coin_type;
            amount_in = amount_in;
            profit = pos_part gain % 2 ^ 64;
            trade_path = best.path;
            cache_misses = best.cache_misses;
          }
          else default_trial)

pub record ArbResult (D Tx : Type 0) : Type 0 where
  pub best_trial_result : TrialResult D
  pub cache_misses : ℕ
  pub source : Source
  pub tx_data : Tx

module _ {D : Type 0} (ops : DexOps D)
    (simulate : List (DexPath D) → ℕ → TradeType → List Joined) where
  -- `TrialGoal::evaluate`, with `unwrap_or_default`.
  unfoldable pub trial_goal : TrialCtx D → Goal (TrialResult D) (Unit {0})
  unfolding trial
  trial_goal ctx amount_in env =
      let t = unwrap_or_default (trial ops simulate ctx amount_in) in ((t.profit, t), env)

  -- The golden-section search round the best trial of the grid.
  unfoldable pub refine :
      (use_gss : Bool) → TrialCtx D → TrialResult D × ℕ → Result (TrialResult D × ℕ)
  unfolding trial_goal join_trials golden_section_search_maximize
  refine false ctx best = ok best
  refine true ctx best = do
    found ←
        golden_section_search_maximize (trial_goal ctx) (best.0.amount_in / 10)
          (min (best.0.amount_in * 10) u64_max) tt
    let ((_, _, t), _) = found
    ok (join_trials (some (ok t) ∷ []) best)

-- The source that the transaction is built for.
unfoldable pub bid_for : (now profit : ℕ) → Source → Source
unfolding with_bid_amount with_arb_found_time deadline
bid_for now profit source =
    with_bid_amount
      (elim (deadline source) [ none ↦ source | some _ ↦ with_arb_found_time source now ])
      (profit / 10 * 9)

module _ {D Tx : Type 0} (ops : DexOps D) (find_dexes : String → Option String → Result (List D))
    (simulate : List (DexPath D) → ℕ → TradeType → List Joined)
    (order : List (Result (TrialResult D)) → List (Option (Result (TrialResult D))))
    (build_tx : ℕ → DexPath D → Source → Result Tx) where
  -- `Arb::find_opportunity`.
  unfoldable pub find_opportunity :
      String → Option ℕ → (use_gss : Bool) → (now : ℕ) → Source → Result (ArbResult D Tx)
  unfolding new_trial_ctx grids trial join_trials refine bid_for
  find_opportunity coin_type pool_id use_gss now source = do
    ctx ← new_trial_ctx ops find_dexes coin_type pool_id
    amounts ← grids 1 10
    let grid_best = join_trials (order (map (trial ops simulate ctx) amounts)) (default_trial, 0)
    ensure (ltb 0 grid_best.0.profit) "No profitable grid found"
    best ← refine ops simulate use_gss ctx grid_best
    ensure (ltb 0 best.0.profit) "No profitable trade path found"
    let source' = bid_for now best.0.profit source
    tx_data ← build_tx best.0.amount_in best.0.trade_path source'
    ok (record {
      best_trial_result = best.0;
      cache_misses = best.1;
      source = source';
      tx_data = tx_data;
    })
