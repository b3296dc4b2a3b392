-- ===== src/Arb/Opportunity.antt =====
-- What `Arb::find_opportunity` returns.
use poison_dart.Base.{
  ℕ, ◌<◌, ◌≡◌, refl, Bool, subst, inl, inr, ◌⊎◌, Option, List, ltb, map, Bool-cases, Result, ok,
  err, Result-cases, String, lt→ltb, ltb→lt, ltb→zero, lt_of_lt_of_le,
}
use poison_dart.Dex.{DexOps, DexPath}
use poison_dart.Best.{TradeType, Joined}
use poison_dart.Source.{Source}
use poison_dart.Arb.{
  TrialCtx, TrialResult, ArbResult, default_trial, join_trials, trial, bid_for, new_trial_ctx,
  find_opportunity,
}
use poison_dart.Arb.Tasks.{IsOrder}
use poison_dart.Arb.Grid.{amounts, IsRun, GridAtMost, refine-IsIdle, grid_best, GridAtMost-le}

module _ {D Tx : Type 0} (ops : DexOps D) (find_dexes : String → Option String → Result (List D))
    (simulate : List (DexPath D) → ℕ → TradeType → List Joined)
    (order : List (Result (TrialResult D)) → List (Option (Result (TrialResult D))))
    (build_tx : ℕ → DexPath D → Source → Result Tx) (coin_type : String) (pool_id : Option ℕ)
    (now : ℕ) (source : Source) where
  -- The transaction for a trial.
  abbrev pub built : TrialResult D → Result Tx
  built t = build_tx t.amount_in t.trade_path (bid_for now t.profit source)

  -- What a result says: a run of the paths that were found, that gains no less than any trial of the
  -- grid, and the transaction for it; or why there is none.
  abbrev pub IsOutcome : Result (ArbResult D Tx) → Type 0
  IsOutcome (ok r) =
      (ctx : TrialCtx D) × (new_trial_ctx ops find_dexes coin_type pool_id ≡ ok ctx)
      × IsRun ops simulate ctx r.best_trial_result
      × GridAtMost ops simulate ctx r.best_trial_result.profit
      × (r.source ≡ bid_for now r.best_trial_result.profit source)
      × (built r.best_trial_result ≡ ok r.tx_data)
  IsOutcome (err m) =
      (new_trial_ctx ops find_dexes coin_type pool_id ≡ err m)
      ⊎ ((ctx : TrialCtx D) × (new_trial_ctx ops find_dexes coin_type pool_id ≡ ok ctx)
          × (GridAtMost ops simulate ctx 0
              ⊎ ((t : TrialResult D) × IsRun ops simulate ctx t × (built t ≡ err m))))

  -- If every task of the grid ends, in whatever order, then an opportunity is the trial of its
  -- amount on the paths of the coin, gains something and no less than any trial of the grid, and
  -- comes with the transaction for it. There is an error only when there are no paths, when no
  -- trial of the grid gains anything, or when the transaction for a trial that gains is refused;
  -- the search round the best of the grid never makes one.
  pub find_opportunity-IsOutcome :
      (use_gss : Bool)
      → ((tasks : List (Result (TrialResult D))) → IsOrder tasks (order tasks))
      → IsOutcome (
          find_opportunity ops find_dexes simulate order build_tx coin_type pool_id use_gss now
            source)
  unfolding find_opportunity
  find_opportunity-IsOutcome use_gss ordered =
      elim (Result-cases (new_trial_ctx ops find_dexes coin_type pool_id)) [
        | inr (m, e) ↦ rw (e, find_opportunity) (inl e)
        | inl (ctx, e) ↦
            let js = order (map (trial ops simulate ctx) amounts) in
            let best = join_trials js (default_trial, 0) in
            let (run, most) =
              grid_best ops simulate ctx js (ordered (map (trial ops simulate ctx) amounts)) in
            elim (Bool-cases (ltb 0 best.0.profit)) [
              | inr n ↦
                  rw (e, find_opportunity, n)
                    (inr (
                      ctx,
                      e,
                      inl (subst (GridAtMost ops simulate ctx) (ltb→zero best.0.profit n) most),
                    ))
              | inl n ↦
                  let (here, small) = run (ltb→lt 0 best.0.profit n) in
                  let (r, q, idle, le) =
                    refine-IsIdle ops simulate ctx use_gss best (λ gain. here) small.0 small.1 in
                  let gain : 0 < r.0.profit = lt_of_lt_of_le (ltb→lt 0 best.0.profit n) le in
                  elim (Result-cases (built r.0)) [
                    | inl (tx, b) ↦
                        rw (e, find_opportunity, n, q, lt→ltb 0 r.0.profit gain, b)
                          (
                            ctx,
                            e,
                            (idle gain, gain),
                            GridAtMost-le ops simulate ctx best.0.profit r.0.profit le most,
                            refl,
                            b,
                          )
                    | inr (m, b) ↦
                        rw (e, find_opportunity, n, q, lt→ltb 0 r.0.profit gain, b)
                          (inr (ctx, e, inr (r.0, (idle gain, gain), b)))
                  ]
            ]
      ]
