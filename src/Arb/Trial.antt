-- ===== src/Arb/Trial.antt =====
-- What a trial of an amount trades.
use poison_dart.Base.{
  ℕ, ◌<◌, ◌≡◌, ◌%◌, ◌^◌, refl, inl, inr, true, ◌||◌, Option, none, some, List, [], ◌∷◌, ◌++◌, arith,
  All, Any, Any-imp, get_elem?, length, String, ap, ◌∙◌, Any_elim, All-imp, All-Any_elim, subst,
  Bool-cases, Option-cases, Result, ok, err, Result-cases, ok_err_elim, ok_injective, sym, zero,
  suc,
}
use poison_dart.Base.Int.{ℤ, pos_part, is_positive}
use poison_dart.Dex.{DexOps, DexPath, is_disjoint, contains_pool}
use poison_dart.Best.{TradeType, Joined, PathTradeResult, find_best_path_exact_in, profit}
use poison_dart.Best.Choice.{HasEnded, IsChoice, find_best_path-IsChoice}
use poison_dart.Arb.{TrialCtx, TrialResult, nonempty, trade_paths, trial}

module _ {D : Type 0} where
  -- A list has an item that stands at one of its places.
  get_elem?-Any : (xs : List D) (i : ℕ) (x : D) → get_elem? xs i ≡ some x → Any (λ y. y ≡ x) xs
  get_elem?-Any [] i x h = absurd (cc)
  get_elem?-Any (y ∷ ys) zero x h = inl cc
  get_elem?-Any (y ∷ ys) (suc i) x h = inr (get_elem?-Any ys i x h)

module _ {D : Type 0} where
  -- A path that was chosen is one of the paths.
  pub chosen-Any :
      (paths : List (DexPath D)) (amount_in : ℕ) (joined : List Joined) (r : PathTradeResult D)
      → All (HasEnded (length paths)) joined
      → find_best_path_exact_in paths amount_in joined ≡ ok r
      → Any (λ p. p ≡ r.path) paths
  chosen-Any paths amount_in joined r h e =
      Any_elim _ (λ j w. get_elem?-Any paths j.0 r.path w.0) joined
        (chosen joined (find_best_path_exact_in paths amount_in joined) e
          (find_best_path-IsChoice paths amount_in joined h))
    where
      chosen :
          (js : List Joined) (found : Result (PathTradeResult D))
          → found ≡ ok r
          → IsChoice paths amount_in js found
          → Any (λ j. (get_elem? paths j.0 ≡ some r.path) × (Unit {0})) js
      chosen js (err m) q c = absurd cc
      chosen js (ok r') q c =
          Any-imp _ (λ j. (get_elem? paths j.0 ≡ some r.path) × (Unit {0}))
            (λ j w. (
              w.0
                  ∙ ap
                      (λ (x : Result (PathTradeResult D)). elim x [
                        | ok v ↦ some v.path
                        | err _ ↦ none
                      ])
                      q,
              tt,
            ))
            js c.3

module _ {D : Type 0} (ops : DexOps D) where
  -- A buy path and a sell path in one: they share no pool, and one of them has the pool that moved.
  pub record IsTrade (pool_id : Option ℕ) (best : DexPath D) (sells : List (DexPath D))
      (trade : DexPath D) : Type 0 where
    pub sell : DexPath D
    pub known : Any (λ p. p ≡ sell) sells
    pub joined : trade.path ≡ best.path ++ sell.path
    pub disjoint : is_disjoint ops best sell ≡ true
    pub contains : contains_pool ops best pool_id || contains_pool ops sell pool_id ≡ true

  IsTrade-cons :
      (pool_id : Option ℕ) (best p : DexPath D) (ps : List (DexPath D)) (trade : DexPath D)
      → IsTrade pool_id best ps trade
      → IsTrade pool_id best (p ∷ ps) trade
  IsTrade-cons pool_id best p ps trade t = record {
    sell = t.sell;
    known = inr t.known;
    joined = t.joined;
    disjoint = t.disjoint;
    contains = t.contains;
  }

  trade_paths-IsTrade :
      (pool_id : Option ℕ) (best : DexPath D) (sells : List (DexPath D))
      → All (IsTrade pool_id best sells) (trade_paths ops pool_id best sells)
  unfolding trade_paths
  trade_paths-IsTrade pool_id best [] = tt
  trade_paths-IsTrade pool_id best (p ∷ ps) =
      let rest =
        All-imp (IsTrade pool_id best ps) (IsTrade pool_id best (p ∷ ps))
          (IsTrade-cons pool_id best p ps) (trade_paths ops pool_id best ps)
          (trade_paths-IsTrade pool_id best ps) in
      elim (Bool-cases (is_disjoint ops best p)) [
        | inl d ↦
            elim (Bool-cases (contains_pool ops best pool_id || contains_pool ops p pool_id)) [
              | inl c ↦
                  rw (d, c, trade_paths)
                    (
                      record {
                        sell = p;
                        known = inl refl;
                        joined = refl;
                        disjoint = d;
                        contains = c;
                      },
                      rest,
                    )
              | inr c ↦ rw (d, c, trade_paths) rest
            ]
        | inr d ↦ rw (d, trade_paths) rest
      ]

  trade_paths-none :
      (best : DexPath D) (sells : List (DexPath D)) → trade_paths ops none best sells ≡ []
  unfolding trade_paths contains_pool
  trade_paths-none best [] = refl
  trade_paths-none best (p ∷ ps) = elim (Bool-cases (is_disjoint ops best p)) [
    | inl d ↦ rw (d, trade_paths, contains_pool) (trade_paths-none best ps)
    | inr d ↦ rw (d, trade_paths, contains_pool) (trade_paths-none best ps)
  ]

  module _ (simulate : List (DexPath D) → ℕ → TradeType → List Joined) (ctx : TrialCtx D)
      (amount_in : ℕ) where
    -- Without a pool to look for, a trial of any amount is an error, whatever the simulations say.
    pub trial-none : ctx.pool_id ≡ none → (m : String) × (trial ops simulate ctx amount_in ≡ err m)
    unfolding trial
    trial-none e =
        elim (Result-cases (
          find_best_path_exact_in ctx.buy_paths amount_in
            (simulate ctx.buy_paths amount_in TradeType.swap))) [
              | inl (best, q) ↦ (
                "no trade paths found",
                rw (q, trial, e, trade_paths-none best.path ctx.sell_paths),
              )
              | inr (m, q) ↦ (m, rw (q, trial))
            ]

    -- The two choices that a trial which gains something has made, and what it makes of the second.
    pub record Ran (t : TrialResult D) : Type 0 where
      pub buy : PathTradeResult D
      pub best : PathTradeResult D
      pub bought :
          find_best_path_exact_in ctx.buy_paths amount_in
            (simulate ctx.buy_paths amount_in TradeType.swap)
          ≡ ok buy
      pub traded :
          let paths = trade_paths ops ctx.pool_id buy.path ctx.sell_paths in
          find_best_path_exact_in paths amount_in (simulate paths amount_in TradeType.flashloan)
          ≡ ok best
      pub path : t.trade_path ≡ best.path
      pub amount : t.amount_in ≡ amount_in
      pub gain : (g : ℤ) × (profit ops best ≡ some g) × (t.profit ≡ pos_part g % 2 ^ 64)

    pub trial-Ran :
        (t : TrialResult D) → trial ops simulate ctx amount_in ≡ ok t → 0 < t.profit → Ran t
    unfolding trial
    trial-Ran t e gain =
        elim (Result-cases (
          find_best_path_exact_in ctx.buy_paths amount_in
            (simulate ctx.buy_paths amount_in TradeType.swap))) [
              | inr (m, q) ↦ ok_err_elim {m = m} e (rw (q, trial))
              | inl (buy, q) ↦
                  let paths = trade_paths ops ctx.pool_id buy.path ctx.sell_paths in
                  elim (Bool-cases (nonempty paths)) [
                    | inr n ↦ ok_err_elim {m = "no trade paths found"} e (rw (q, trial, n))
                    | inl n ↦
                        elim (Result-cases (
                          find_best_path_exact_in paths amount_in
                            (simulate paths amount_in TradeType.flashloan))) [
                              | inr (m, q') ↦ ok_err_elim {m = m} e (rw (q, trial, n, q'))
                              | inl (best, q') ↦ elim (Option-cases (profit ops best)) [
                                | inl p ↦ ok_err_elim {m = "empty path"} e (rw (q, trial, n, q', p))
                                | inr (g, p) ↦ elim (Bool-cases (is_positive g)) [
                                  | inl positive ↦
                                      let same =
                                        ok_injective (rw (q, trial, n, q', p, positive) at e) in
                                      record {
                                        buy = buy;
                                        best = best;
                                        bought = q;
                                        traded = q';
                                        path = sym (ap (λ (x : TrialResult D). x.trade_path) same);
                                        amount = sym (ap (λ (x : TrialResult D). x.amount_in) same);
                                        gain =
                                            (g, p, sym (ap (λ (x : TrialResult D). x.profit) same));
                                      }
                                  | inr negative ↦
                                      let same =
                                        ok_injective (rw (q, trial, n, q', p, negative) at e) in
                                      absurd (
                                        let gained_none : 0 < 0 =
                                          subst (λ (x : TrialResult D). 0 < x.profit) (sym same)
                                            gain in
                                        omega arith)
                                ]
                              ]
                            ]
                  ]
            ]

    -- The paths that are simulated in the second place.
    abbrev pub candidates : PathTradeResult D → List (DexPath D)
    candidates buy = trade_paths ops ctx.pool_id buy.path ctx.sell_paths

    -- What a trial that gains something says. Both choices are simulated trades: of the paths and the
    -- amount, with none that gives more.
    pub record IsGain (t : TrialResult D) : Type 0 where
      pub buy : PathTradeResult D
      pub bought :
          IsChoice ctx.buy_paths amount_in
            (simulate ctx.buy_paths amount_in TradeType.swap)
            (ok buy)
      pub known : Any (λ p. p ≡ buy.path) ctx.buy_paths
      pub best : PathTradeResult D
      pub traded :
          IsChoice
            (candidates buy)
            amount_in
            (simulate (candidates buy) amount_in TradeType.flashloan)
            (ok best)
      pub path : t.trade_path ≡ best.path
      pub trade : IsTrade ctx.pool_id buy.path ctx.sell_paths t.trade_path
      pub amount : t.amount_in ≡ amount_in
      pub gain : (g : ℤ) × (profit ops best ≡ some g) × (t.profit ≡ pos_part g % 2 ^ 64)

    -- If the tasks of every simulation end, each on one of the paths, then a trial that gains
    -- something has bought on a buy path, by a simulated swap than which none gives more. It trades,
    -- of the paths that go on from there, by the simulated trade with a flash loan than which none
    -- gives more: this buy path and, after it, a sell path; the two share no pool, and one of them has
    -- the pool that moved. Its profit is that of this simulated trade.
    pub trial-IsGain :
        ((paths : List (DexPath D)) (amount : ℕ) (type : TradeType)
          → All (HasEnded (length paths)) (simulate paths amount type))
        → (t : TrialResult D) → trial ops simulate ctx amount_in ≡ ok t
        → 0 < t.profit
        → IsGain t
    trial-IsGain ended t e gain =
        let ran = trial-Ran t e gain in
        let paths = candidates ran.buy in
        let P = IsTrade ctx.pool_id ran.buy.path ctx.sell_paths in
        record {
          buy = ran.buy;
          bought =
              subst
                (IsChoice ctx.buy_paths amount_in (simulate ctx.buy_paths amount_in TradeType.swap))
                ran.bought
                (find_best_path-IsChoice ctx.buy_paths amount_in _
                  (ended ctx.buy_paths amount_in TradeType.swap));
          known =
              chosen-Any ctx.buy_paths amount_in _ ran.buy
                (ended ctx.buy_paths amount_in TradeType.swap) ran.bought;
          best = ran.best;
          traded =
              subst (IsChoice paths amount_in (simulate paths amount_in TradeType.flashloan))
                ran.traded
                (find_best_path-IsChoice paths amount_in _
                  (ended paths amount_in TradeType.flashloan));
          path = ran.path;
          trade =
              All-Any_elim {C = P t.trade_path} P (λ r. r ≡ ran.best.path)
                (λ r w k. subst P (k ∙ sym ran.path) w) paths
                (trade_paths-IsTrade ctx.pool_id ran.buy.path ctx.sell_paths)
                (chosen-Any paths amount_in _ ran.best (ended paths amount_in TradeType.flashloan)
                  ran.traded);
          amount = ran.amount;
          gain = ran.gain;
        }
