-- ===== src/Arb/Tasks.antt =====
-- The trials that are joined, in the order in which their tasks end: the best of them.
use poison_dart.Base.{
  ℕ, ◌≤◌, ◌≡◌, sym, subst, inl, inr, true, false, Option, none, some, List, [], ◌∷◌, arith, All,
  Any, All-imp, All-Any_elim, Bool-cases, Result, ok, err,
}
use poison_dart.Arb.{TrialResult, more_profit, join_trials}

module _ {D : Type 0} where
  -- What a joined task gives, if it is a trial at all; a task that fails to join gives nothing.
  abbrev pub Gives : (TrialResult D → Type 0) → Option (Result (TrialResult D)) → Type 0
  Gives P none = ⊥
  Gives P (some (err _)) = Unit
  Gives P (some (ok t)) = P t

  join_trials-step :
      (P : TrialResult D → Type 0) (t : TrialResult D) (js : List (Option (Result (TrialResult D))))
      (best : TrialResult D × ℕ)
      → (more_profit t best.0 ≡ true → (m : ℕ) → P (join_trials js (t, m)).0)
      → (more_profit t best.0 ≡ false → (m : ℕ) → P (join_trials js (best.0, m)).0)
      → P (join_trials (some (ok t) ∷ js) best).0
  unfolding join_trials
  join_trials-step P t js best f g = elim (Bool-cases (more_profit t best.0)) [
    | inl e ↦ rw (e, join_trials) (f e _)
    | inr e ↦ rw (e, join_trials) (g e _)
  ]

  -- The best is one that was given, or the first.
  pub join_trials-Gives :
      (P : TrialResult D → Type 0) (js : List (Option (Result (TrialResult D))))
      (best : TrialResult D × ℕ)
      → P best.0
      → All (Gives P) js
      → P (join_trials js best).0
  unfolding join_trials
  join_trials-Gives P [] best h k = h
  join_trials-Gives P (none ∷ js) best h k = h
  join_trials-Gives P (some (err _) ∷ js) best h k = join_trials-Gives P js best h k.1
  join_trials-Gives P (some (ok t) ∷ js) best h k =
      join_trials-step P t js best (λ e m. join_trials-Gives P js (t, m) k.0 k.1)
        (λ e m. join_trials-Gives P js (best.0, m) h k.1)

  abbrev pub GainsAtMost : TrialResult D → Option (Result (TrialResult D)) → Type 0
  GainsAtMost r = Gives (λ t. t.profit ≤ r.profit)

  abbrev pub IsTop :
      List (Option (Result (TrialResult D))) → TrialResult D × ℕ → TrialResult D → Type 0
  IsTop js best r = All (GainsAtMost r) js × (best.0.profit ≤ r.profit)

  -- No trial that was joined gains more.
  pub join_trials-IsTop :
      (js : List (Option (Result (TrialResult D)))) (best : TrialResult D × ℕ)
      → All (Gives (λ t. Unit {0})) js
      → IsTop js best (join_trials js best).0
  unfolding join_trials
  join_trials-IsTop [] best k = (tt, omega arith)
  join_trials-IsTop (none ∷ js) best k = absurd k.0
  join_trials-IsTop (some (err _) ∷ js) best k =
      let (all, le) = join_trials-IsTop js best k.1 in ((tt, all), le)
  join_trials-IsTop (some (ok t) ∷ js) best k =
      join_trials-step (IsTop (some (ok t) ∷ js) best) t js best
        (λ e m. let (all, le) = join_trials-IsTop js (t, m) k.1 in ((le, all), ground arith))
        (λ e m. let (all, le) = join_trials-IsTop js (best.0, m) k.1 in ((ground arith, all), le))

  -- Every task ends and is joined once or more, and nothing else is joined.
  pub record IsOrder (tasks : List (Result (TrialResult D)))
      (js : List (Option (Result (TrialResult D)))) : Type 0 where
    pub from : All (λ j. Any (λ t. j ≡ some t) tasks) js
    pub all : All (λ t. Any (λ j. j ≡ some t) js) tasks

module _ {D : Type 0} (tasks : List (Result (TrialResult D)))
    (js : List (Option (Result (TrialResult D)))) (order : IsOrder tasks js) where
  -- What every task gives, every joined task gives, and the other way round.
  pub IsOrder-from :
      (P : TrialResult D → Type 0) → All (λ r. Gives P (some r)) tasks → All (Gives P) js
  IsOrder-from P h =
      All-imp (λ j. Any (λ r. j ≡ some r) tasks) (Gives P)
        (λ j m.
          All-Any_elim {C = Gives P j} (λ r. Gives P (some r)) (λ r. j ≡ some r)
            (λ r g e. subst (Gives P) (sym e) g) tasks h m)
        js order.from

  pub IsOrder-All :
      (P : TrialResult D → Type 0) → All (Gives P) js → All (λ r. Gives P (some r)) tasks
  IsOrder-All P h =
      All-imp (λ r. Any (λ j. j ≡ some r) js) (λ r. Gives P (some r))
        (λ r m.
          All-Any_elim {C = Gives P (some r)} (Gives P) (λ j. j ≡ some r)
            (λ j g e. subst (Gives P) e g) js h m)
        tasks order.all
