-- ===== src/Arb/Grid.antt =====
-- The best trial of the grid of amounts, and of the search round it.
use poison_dart.Base.{
  ℕ, ◌<◌, ◌≤◌, ◌≡◌, ◌*◌, ◌/◌, ◌^◌, refl, sym, Bool, subst, true, false, Option, none, some, List,
  [], ◌∷◌, min, map, arith, All, All-imp, All-map, Result, ok, err,
}
use poison_dart.Base.Words.{u64_max}
use poison_dart.Dex.{DexOps, DexPath}
use poison_dart.Best.{TradeType, Joined}
use poison_dart.Search.From.{search-Good}
use poison_dart.Arb.{
  TrialCtx, TrialResult, default_trial, grid, grids, join_trials, trial, trial_goal, refine,
  unwrap_or_default,
}
use poison_dart.Arb.Trial.{trial-Ran}
use poison_dart.Arb.Tasks.{
  Gives, join_trials-Gives, join_trials-IsTop, IsOrder, IsOrder-from, IsOrder-All,
}

-- The amounts of the grid.
abbrev pub amounts : List ℕ
amounts =
    10 ^ 7
    ∷ 10 ^ 8
    ∷ 10 ^ 9
    ∷ 10 ^ 10
    ∷ 10 ^ 11
    ∷ 10 ^ 12
    ∷ 10 ^ 13
    ∷ 10 ^ 14
    ∷ 10 ^ 15
    ∷ 10 ^ 16
    ∷ []

abbrev pub IsSmall : ℕ → Type 0
IsSmall a = (0 < a) × (a ≤ 10 ^ 16)

amounts-IsSmall : All IsSmall amounts
amounts-IsSmall = ground arith

pub grids-amounts : grids 1 10 ≡ ok amounts
unfolding grids grid
grids-amounts = refl

module _ {D : Type 0} (ops : DexOps D) (simulate : List (DexPath D) → ℕ → TradeType → List Joined)
    (ctx : TrialCtx D) where
  -- A trial of its own amount that gains something.
  abbrev pub IsRun : TrialResult D → Type 0
  IsRun t = (trial ops simulate ctx t.amount_in ≡ ok t) × (0 < t.profit)

  -- The best so far: nothing, or a run.
  abbrev pub IsIdle : TrialResult D → Type 0
  IsIdle t = 0 < t.profit → trial ops simulate ctx t.amount_in ≡ ok t

  trial-IsIdle : (amount : ℕ) (t : TrialResult D) → trial ops simulate ctx amount ≡ ok t → IsIdle t
  trial-IsIdle amount t e gain =
      let ran = trial-Ran ops simulate ctx amount t e gain in
      subst (λ a. trial ops simulate ctx a ≡ ok t) (sym ran.amount) e

  unwrap_or_default-IsIdle :
      (amount : ℕ) (r : Result (TrialResult D))
      → trial ops simulate ctx amount ≡ r
      → IsIdle (unwrap_or_default r)
  unwrap_or_default-IsIdle amount (ok t) e = trial-IsIdle amount t e
  unwrap_or_default-IsIdle amount (err m) e = λ gain. absurd (omega arith)

  -- The search from a trial of the grid returns, and what it returns gains no less.
  pub refine-IsIdle :
      (use_gss : Bool) (best : TrialResult D × ℕ)
      → IsIdle best.0
      → 0 < best.0.amount_in
      → best.0.amount_in ≤ 10 ^ 16
      → (r : TrialResult D × ℕ) × (refine ops simulate use_gss ctx best ≡ ok r)
        × IsIdle r.0
        × (best.0.profit ≤ r.0.profit)
  unfolding refine trial_goal
  refine-IsIdle false best h low high = (best, refl, h, omega arith)
  refine-IsIdle true best h low high =
      let (found, env, e, idle) =
        search-Good (trial_goal ops simulate ctx) (λ a. IsIdle a.2)
          (λ x env. unwrap_or_default-IsIdle x (trial ops simulate ctx x) refl)
          (best.0.amount_in / 10) (min (best.0.amount_in * 10) u64_max) tt (ground arith) in
      let js : List (Option (Result (TrialResult D))) = some (ok found.2) ∷ [] in
      (
        join_trials js best,
        rw (e, refine),
        join_trials-Gives IsIdle js best h (idle, tt),
        (join_trials-IsTop js best (tt, tt)).1,
      )

  -- A trial of the grid gains at most as much as `r`.
  abbrev pub GridAtMost : ℕ → Type 0
  GridAtMost gain =
      All (λ a. Gives (λ t. t.profit ≤ gain) (some (trial ops simulate ctx a))) amounts

  pub GridAtMost-le : (m n : ℕ) → m ≤ n → GridAtMost m → GridAtMost n
  GridAtMost-le m n le h =
      All-imp (λ a. Gives (λ t. t.profit ≤ m) (some (trial ops simulate ctx a)))
        (λ a. Gives (λ t. t.profit ≤ n) (some (trial ops simulate ctx a)))
        (λ a. gives_le (trial ops simulate ctx a)) amounts h
    where
      gives_le :
          (r : Result (TrialResult D))
          → Gives (λ t. t.profit ≤ m) (some r)
          → Gives (λ t. t.profit ≤ n) (some r)
      gives_le (err e) g = tt
      gives_le (ok t) g = omega arith

  -- What holds of the best of the grid.
  abbrev pub IsSmallRun : TrialResult D → Type 0
  IsSmallRun t = 0 < t.profit → (trial ops simulate ctx t.amount_in ≡ ok t) × IsSmall t.amount_in

  trial-IsSmallRun :
      (a : ℕ) (r : Result (TrialResult D))
      → trial ops simulate ctx a ≡ r
      → IsSmall a
      → Gives IsSmallRun (some r)
  trial-IsSmallRun a (err m) e small = tt
  trial-IsSmallRun a (ok t) e small = λ gain.
      let same = (trial-Ran ops simulate ctx a t e gain).amount in
      subst (λ b. (trial ops simulate ctx b ≡ ok t) × IsSmall b) (sym same) (e, small)

  pub grid_best :
      (js : List (Option (Result (TrialResult D))))
      → IsOrder (map (trial ops simulate ctx) amounts) js
      → let best = join_trials js (default_trial, 0) in IsSmallRun best.0 × GridAtMost best.0.profit
  grid_best js order =
      let tasks = map (trial ops simulate ctx) amounts in
      let runs = IsOrder-from tasks js order IsSmallRun (
        All-map (trial ops simulate ctx) (λ r. Gives IsSmallRun (some r)) amounts
          (All-imp IsSmall (λ a. Gives IsSmallRun (some (trial ops simulate ctx a)))
            (λ a. trial-IsSmallRun a (trial ops simulate ctx a) refl) amounts amounts-IsSmall)) in
      let best = join_trials js (default_trial, 0) in
      let any = All-imp (Gives IsSmallRun) (Gives (λ t. Unit {0})) gives_any js runs in
      (
        join_trials-Gives IsSmallRun js (default_trial, 0) (λ gain. absurd (omega arith)) runs,
        IsOrder-All tasks js order (λ t. t.profit ≤ best.0.profit)
            (join_trials-IsTop js (default_trial, 0) any).0,
      )
    where
      gives_any :
          (j : Option (Result (TrialResult D))) → Gives IsSmallRun j → Gives (λ t. Unit {0}) j
      gives_any none g = g
      gives_any (some (err m)) g = tt
      gives_any (some (ok t)) g = tt
