-- ===== src/Search/Best.antt =====
-- What the search returns, among all that it evaluates. A goal is watched by a log of the inputs
-- with their values, which nothing reads.
use Prim.Native.Nat.{compare}
use poison_dart.Base.{
  min as min_ℕ, ℕ, zero, suc, ◌+◌, ◌≤◌, ◌≡◌, refl, inl, inr, List, [], ◌∷◌, ltb, leb, arith, length,
  All, Any, All-imp, Bool-cases, Ordering-cases,
}
use poison_dart.Base.Words.{add64, sub64}
use poison_dart.Search.{
  Goal, State, shorten, consider, probe_left, probe_right, probe, ends, start, iterate_left,
  iterate, loop, finish, search_state,
}

abbrev pub Entry : Type 0 → Type 0
Entry Out = ℕ × ℕ × Out

-- The best of a log.
abbrev pub IsBest : {Out : Type 0} → Entry Out → List (Entry Out) → Type 0
IsBest {Out} best log =
    All {A = Entry Out} (λ e. e.1 ≤ best.1) log × Any {A = Entry Out} (λ e. e ≡ best) log

module _ {Out Env : Type 0} where
  abbrev pub watched : Goal Out Env → Goal Out (Env × List (Entry Out))
  watched goal x (env, log) = let (r, env') = goal x env in (r, (env', (x, r.0, r.1) ∷ log))

  -- What the loop keeps: the best of the log is the state's, and the log has at most `n` entries.
  abbrev pub Holds : ℕ → State Out (Env × List (Entry Out)) → Type 0
  Holds n st = IsBest (st.max_in, st.max_f, st.max_out) st.env.1 × (length st.env.1 ≤ n)

  consider-Holds :
      (n x f : ℕ) (out : Out) (st : State Out (Env × List (Entry Out))) (log : List (Entry Out))
      → st.env.1 ≡ (x, f, out) ∷ log
      → IsBest (st.max_in, st.max_f, st.max_out) log × (length log ≤ n)
      → Holds (suc n) (consider x f out st)
  unfolding consider
  consider-Holds n x f out st log e (b, l) = elim (Bool-cases (ltb st.max_f f)) [
    | inl h ↦
        rw (h, consider, e)
          (
            (
              (
                omega arith,
                All-imp (λ (a : Entry Out). a.1 ≤ st.max_f) (λ a. a.1 ≤ f) (λ a k. ground arith) log
                    b.0,
              ),
              inl refl,
            ),
            omega arith,
          )
    | inr h ↦ rw (h, consider, e) (((ground arith, b.0), inr b.1), omega arith)
  ]

  module _ (goal : Goal Out Env) (n : ℕ) where
    probe-Holds :
        (x : ℕ) (st : State Out (Env × List (Entry Out)))
        → Holds n st
        → Holds (suc n) (probe (watched goal) x st)
    unfolding probe
    probe-Holds x st h = consider-Holds n x _ _ _ st.env.1 refl h

    probe_left-Holds :
        (x : ℕ) (st : State Out (Env × List (Entry Out)))
        → Holds n st
        → Holds (suc n) (probe_left (watched goal) x st)
    unfolding probe_left
    probe_left-Holds x st h = consider-Holds n x _ _ _ st.env.1 refl h

    probe_right-Holds :
        (x : ℕ) (st : State Out (Env × List (Entry Out)))
        → Holds n st
        → Holds (suc n) (probe_right (watched goal) x st)
    unfolding probe_right
    probe_right-Holds x st h = consider-Holds n x _ _ _ st.env.1 refl h

    iterate_left-Holds :
        (temp : ℕ) (st : State Out (Env × List (Entry Out)))
        → Holds n st
        → Holds (suc n) (iterate_left (watched goal) temp st)
    unfolding iterate_left
    iterate_left-Holds temp st h = elim (Ordering-cases (compare temp st.mid_left)) [
      | inl e ↦
          rw (e, iterate_left)
            (probe_left-Holds temp (record st { mid_right = st.mid_left; fr = st.fl }) h)
      | inr (inl e) ↦ rw (e, iterate_left) (probe_right-Holds (min_ℕ (add64 temp 1) st.right) st h)
      | inr (inr e) ↦ rw (e, iterate_left) (probe_right-Holds temp st h)
    ]

    iterate-Holds :
        (st : State Out (Env × List (Entry Out)))
        → Holds n st
        → Holds (suc n) (iterate (watched goal) st)
    unfolding iterate
    iterate-Holds st h = elim (Bool-cases (ltb st.fl st.fr)) [
      | inl e ↦
          rw (e, iterate)
            (probe_right-Holds (add64 st.mid_left (shorten (sub64 st.right st.mid_left)))
              (record st { left = st.mid_left; mid_left = st.mid_right; fl = st.fr }) h)
      | inr e ↦
          rw (e, iterate)
            (iterate_left-Holds (sub64 st.mid_right (shorten (sub64 st.mid_right st.left)))
              (record st { right = st.mid_right }) h)
    ]

  module _ (goal : Goal Out Env) where
    ends-Holds : (min max : ℕ) (env : Env) → Holds 2 (ends (watched goal) min max (env, []))
    unfolding ends
    ends-Holds min max env =
        let e = goal min env in
        let e' = goal max e.1 in
        elim (Bool-cases (ltb e.0.0 e'.0.0)) [
          | inl h ↦ rw (h, ends) (((omega arith, (ground arith, tt)), inl refl), omega arith)
          | inr h ↦ rw (h, ends) (((ground arith, (omega arith, tt)), inr (inl refl)), omega arith)
        ]

    start-Holds : (min max : ℕ) (env : Env) → Holds 4 (start (watched goal) min max (env, []))
    unfolding start
    start-Holds min max env =
        let st = ends (watched goal) min max (env, []) in
        let st' = probe_left (watched goal) st.mid_left st in
        probe_right-Holds goal 3 st'.mid_right st'
          (probe_left-Holds goal 2 st.mid_left st (ends-Holds min max env))

    loop-Holds :
        (tries n m : ℕ) (st : State Out (Env × List (Entry Out)))
        → n + tries ≤ m
        → Holds n st
        → Holds m (loop (watched goal) tries st)
    unfolding loop
    loop-Holds zero n m st r h = (h.0, omega arith)
    loop-Holds (suc tries) n m st r h = elim (Bool-cases (ltb 3 (sub64 st.right st.left))) [
      | inl e ↦
          rw (e, loop)
            (loop-Holds tries (suc n) m (iterate (watched goal) st) (omega arith)
              (iterate-Holds goal n st h))
      | inr e ↦ rw (e, loop) (h.0, omega arith)
    ]

    finish-Holds :
        (n : ℕ) (st : State Out (Env × List (Entry Out)))
        → Holds n st
        → Holds (suc (suc n)) (finish (watched goal) st)
    unfolding finish
    finish-Holds n st h =
        let st' = probe (watched goal) (add64 1 st.left) st in
        let one = probe-Holds goal n (add64 1 st.left) st h in
        elim (Bool-cases (leb st.right (add64 1 st.left))) [
          | inl e ↦ rw (e, finish) (h.0, omega arith)
          | inr e ↦ elim (Bool-cases (leb st'.right (add64 2 st'.left))) [
            | inl e' ↦ rw (e, finish, e') (one.0, omega arith)
            | inr e' ↦ rw (e, finish, e') (probe-Holds goal (suc n) (add64 2 st'.left) st' one)
          ]
        ]

    pub search_state-Holds :
        (min max : ℕ) (env : Env) → Holds 1006 (search_state (watched goal) min max (env, []))
    unfolding search_state
    search_state-Holds min max env =
        finish-Holds 1004 (loop (watched goal) 1000 (start (watched goal) min max (env, []))) (
          loop-Holds 1000 4 1004 (start (watched goal) min max (env, [])) (omega arith)
            (start-Holds min max env))
