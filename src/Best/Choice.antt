-- ===== src/Best/Choice.antt =====
-- The path that is chosen gives the most.
use poison_dart.Base.{
  ℕ, ap, subst, All-Any_elim, Any-imp, ◌≤◌, ◌<◌, ◌≡◌, refl, inl, inr, ◌⊎◌, none, some, List, [],
  ◌∷◌, true, false, ltb, arith, length, get_elem?, get_elem?-some, All, Any, All-imp, Bool-cases,
  Result, ok, err,
}
use poison_dart.Dex.{DexPath}
use poison_dart.Best.{
  TradeResult, default_trade, PathTradeResult, Joined, better, join_best, find_best_path_exact_in,
}

-- A task ended without a failure to join, on one of `n` paths.
abbrev pub HasEnded : ℕ → Joined → Type 0
HasEnded n (idx, none) = ⊥
HasEnded n (idx, some r) = idx < n

-- No trade of a task gives more than `amount`.
abbrev pub GivesAtMost : ℕ → Joined → Type 0
GivesAtMost amount (idx, some (ok t)) = t.amount_out ≤ amount
GivesAtMost amount (idx, _) = Unit

-- What the loop promises of its answer, given the tasks and the best before them.
abbrev IsMost : List Joined → ℕ × TradeResult → ℕ × TradeResult → Type 0
IsMost js best r = All (GivesAtMost r.1.amount_out) js × (best.1.amount_out ≤ r.1.amount_out)

abbrev IsFrom : List Joined → ℕ × TradeResult → ℕ × TradeResult → Type 0
IsFrom js best r = (r ≡ best) ⊎ Any (λ j. j ≡ (r.0, some (ok r.1))) js

-- The loop goes on with the better one.
join_best-step :
    (P : ℕ × TradeResult → Type 0) (idx : ℕ) (t : TradeResult) (js : List Joined)
    (best : ℕ × TradeResult)
    → (better t best.1 ≡ true → P (join_best js (idx, t)))
    → (better t best.1 ≡ false → P (join_best js best))
    → P (join_best ((idx, some (ok t)) ∷ js) best)
unfolding join_best
join_best-step P idx t js best f g = elim (Bool-cases (better t best.1)) [
  | inl e ↦ rw (e, join_best) (f e)
  | inr e ↦ rw (e, join_best) (g e)
]

join_best-IsMost :
    (n : ℕ) (js : List Joined) (best : ℕ × TradeResult)
    → All (HasEnded n) js
    → IsMost js best (join_best js best)
unfolding join_best
join_best-IsMost n [] best h = (tt, omega arith)
join_best-IsMost n ((idx, none) ∷ js) best h = absurd h.0
join_best-IsMost n ((idx, some (err _)) ∷ js) best h =
    let (all, le) = join_best-IsMost n js best h.1 in ((tt, all), le)
join_best-IsMost n ((idx, some (ok t)) ∷ js) best h =
    join_best-step (IsMost ((idx, some (ok t)) ∷ js) best) idx t js best
      (λ e. let (all, le) = join_best-IsMost n js (idx, t) h.1 in ((le, all), ground arith))
      (λ e. let (all, le) = join_best-IsMost n js best h.1 in ((ground arith, all), le))

join_best-IsFrom : (js : List Joined) (best : ℕ × TradeResult) → IsFrom js best (join_best js best)
unfolding join_best
join_best-IsFrom [] best = inl refl
join_best-IsFrom ((idx, none) ∷ js) best = inl refl
join_best-IsFrom ((idx, some (err _)) ∷ js) best = elim (join_best-IsFrom js best) [
  | inl e ↦ inl e
  | inr h ↦ inr (inr h)
]
join_best-IsFrom ((idx, some (ok t)) ∷ js) best =
    join_best-step (IsFrom ((idx, some (ok t)) ∷ js) best) idx t js best
      (λ e. elim (join_best-IsFrom js (idx, t)) [ inl q ↦ inr (inl (rw q)) | inr h ↦ inr (inr h) ])
      (λ e. elim (join_best-IsFrom js best) [ inl q ↦ inl q | inr h ↦ inr (inr h) ])

-- A winner that gives something comes from a task.
winner :
    (js : List Joined)
    → let best = join_best js (0, default_trade) in
      ltb 0 best.1.amount_out ≡ true → Any (λ j. j ≡ (best.0, some (ok best.1))) js
winner js e = elim (join_best-IsFrom js (0, default_trade)) [
  | inl q ↦ absurd (ground (arith, ap (λ (b : ℕ × TradeResult). b.1.amount_out) q))
  | inr h ↦ h
]

module _ {D : Type 0} where
  -- The choice, read off the tasks: an error when no trade gives anything; else a trade of one of
  -- the paths, with no other that gives more.
  abbrev pub IsChoice : List (DexPath D) → ℕ → List Joined → Result (PathTradeResult D) → Type 0
  IsChoice paths amount_in joined (err _) = All (GivesAtMost 0) joined
  IsChoice paths amount_in joined (ok r) =
      All (GivesAtMost r.amount_out) joined
      × (0 < r.amount_out)
      × (r.amount_in ≡ amount_in)
      × Any
          (λ j.
            (get_elem? paths j.0 ≡ some r.path)
            × (j.1
                ≡ some (
                    ok (record {
                      amount_out = r.amount_out;
                      gas_cost = r.gas_cost;
                      cache_misses = r.cache_misses;
                    }))))
          joined

  -- If every task ends, each on one of the paths, the choice is the trade that gives the most, in
  -- whatever order the tasks end; it is an error exactly when no trade gives anything.
  pub find_best_path-IsChoice :
      (paths : List (DexPath D)) (amount_in : ℕ) (joined : List Joined)
      → All (HasEnded (length paths)) joined
      → IsChoice paths amount_in joined (find_best_path_exact_in paths amount_in joined)
  unfolding find_best_path_exact_in
  find_best_path-IsChoice paths amount_in joined h =
      let best = join_best joined (0, default_trade) in
      let (all, le) = join_best-IsMost (length paths) joined (0, default_trade) h in
      elim (Bool-cases (ltb 0 best.1.amount_out)) [
        | inl e ↦
            let found = winner joined e in
            let (path, q) = get_elem?-some paths best.0 (
              All-Any_elim (HasEnded (length paths)) (λ j. j ≡ (best.0, some (ok best.1)))
                (λ j b w. subst (HasEnded (length paths)) w b) joined h found) in
            rw (e, find_best_path_exact_in, q)
              (
                all,
                ground arith,
                refl,
                Any-imp (λ j. j ≡ (best.0, some (ok best.1))) _ (λ j w. rw w (q, refl)) joined
                    found,
              )
        | inr e ↦
            rw (e, find_best_path_exact_in)
              (All-imp (GivesAtMost best.1.amount_out) (GivesAtMost 0) (at_most_zero (ground arith))
                joined all)
      ]
    where
      at_most_zero : {n : ℕ} → n ≤ 0 → (j : Joined) → GivesAtMost n j → GivesAtMost 0 j
      at_most_zero z (idx, none) b = tt
      at_most_zero z (idx, some (err _)) b = tt
      at_most_zero z (idx, some (ok t)) b = omega arith
