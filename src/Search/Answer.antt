-- ===== src/Search/Answer.antt =====
-- The answer of the search, for any goal.
use Prim.Native.Nat.{compare}
use poison_dart.Base.{
  min as min_ℕ, ℕ, zero, suc, ◌≤◌, ◌<◌, ◌≡◌, refl, ap, ◌∙◌, inl, inr, List, [], ltb, leb, ok,
  length, Bool-cases, Ordering-cases, lt→ltb,
}
use poison_dart.Base.Words.{add64, sub64}
use poison_dart.Search.{
  Goal, State, shorten, consider, probe_left, probe_right, probe, ends, start, iterate_left,
  iterate, loop, finish, search_state, golden_section_search_maximize,
}
use poison_dart.Search.Best.{Entry, IsBest, watched, search_state-Holds}

module _ {Out Env : Type 0} where
  -- A state without the log.
  abbrev forget : State Out (Env × List (Entry Out)) → State Out Env
  forget st = record {
    left = st.left;
    right = st.right;
    mid_left = st.mid_left;
    mid_right = st.mid_right;
    fl = st.fl;
    fr = st.fr;
    max_in = st.max_in;
    max_f = st.max_f;
    max_out = st.max_out;
    env = st.env.0;
  }

  forget-consider :
      (x f : ℕ) (out : Out) (st : State Out (Env × List (Entry Out)))
      → forget (consider x f out st) ≡ consider x f out (forget st)
  unfolding consider
  forget-consider x f out st = elim (Bool-cases (ltb st.max_f f)) [
    | inl h ↦ rw (h, consider)
    | inr h ↦ rw (h, consider)
  ]

  module _ (goal : Goal Out Env) where
    forget-probe :
        (x : ℕ) (st : State Out (Env × List (Entry Out)))
        → forget (probe (watched goal) x st) ≡ probe goal x (forget st)
    unfolding probe
    forget-probe x st =
        let r = watched goal x st.env in forget-consider x r.0.0 r.0.1 (record st { env = r.1 })

    forget-probe_left :
        (x : ℕ) (st : State Out (Env × List (Entry Out)))
        → forget (probe_left (watched goal) x st) ≡ probe_left goal x (forget st)
    unfolding probe_left
    forget-probe_left x st =
        let r = watched goal x st.env in
        forget-consider x r.0.0 r.0.1 (record st { mid_left = x; fl = r.0.0; env = r.1 })

    forget-probe_right :
        (x : ℕ) (st : State Out (Env × List (Entry Out)))
        → forget (probe_right (watched goal) x st) ≡ probe_right goal x (forget st)
    unfolding probe_right
    forget-probe_right x st =
        let r = watched goal x st.env in
        forget-consider x r.0.0 r.0.1 (record st { mid_right = x; fr = r.0.0; env = r.1 })

    forget-ends :
        (min max : ℕ) (env : Env) (log : List (Entry Out))
        → forget (ends (watched goal) min max (env, log)) ≡ ends goal min max env
    unfolding ends
    forget-ends min max env log = refl

    forget-start :
        (min max : ℕ) (env : Env) (log : List (Entry Out))
        → forget (start (watched goal) min max (env, log)) ≡ start goal min max env
    unfolding start
    forget-start min max env log =
        let st = ends (watched goal) min max (env, log) in
        let st' = probe_left (watched goal) st.mid_left st in
        forget-probe_right st'.mid_right st'
        ∙ ap (λ s. probe_right goal s.mid_right s) (forget-probe_left st.mid_left st)

    forget-iterate_left :
        (temp : ℕ) (st : State Out (Env × List (Entry Out)))
        → forget (iterate_left (watched goal) temp st) ≡ iterate_left goal temp (forget st)
    unfolding iterate_left
    forget-iterate_left temp st = elim (Ordering-cases (compare temp st.mid_left)) [
      | inl e ↦
          rw (e, iterate_left)
            (forget-probe_left temp (record st { mid_right = st.mid_left; fr = st.fl }))
      | inr (inl e) ↦ rw (e, iterate_left) (forget-probe_right (min_ℕ (add64 temp 1) st.right) st)
      | inr (inr e) ↦ rw (e, iterate_left) (forget-probe_right temp st)
    ]

    forget-iterate :
        (st : State Out (Env × List (Entry Out)))
        → forget (iterate (watched goal) st) ≡ iterate goal (forget st)
    unfolding iterate
    forget-iterate st = elim (Bool-cases (ltb st.fl st.fr)) [
      | inl e ↦
          rw (e, iterate)
            (forget-probe_right (add64 st.mid_left (shorten (sub64 st.right st.mid_left)))
              (record st { left = st.mid_left; mid_left = st.mid_right; fl = st.fr }))
      | inr e ↦
          rw (e, iterate)
            (forget-iterate_left (sub64 st.mid_right (shorten (sub64 st.mid_right st.left)))
              (record st { right = st.mid_right }))
    ]

    forget-loop :
        (tries : ℕ) (st : State Out (Env × List (Entry Out)))
        → forget (loop (watched goal) tries st) ≡ loop goal tries (forget st)
    unfolding loop
    forget-loop zero st = refl
    forget-loop (suc tries) st = elim (Bool-cases (ltb 3 (sub64 st.right st.left))) [
      | inl e ↦
          rw (e, loop)
            (forget-loop tries (iterate (watched goal) st)
              ∙ ap (loop goal tries) (forget-iterate st))
      | inr e ↦ rw (e, loop)
    ]

    forget-finish :
        (st : State Out (Env × List (Entry Out)))
        → forget (finish (watched goal) st) ≡ finish goal (forget st)
    unfolding finish
    forget-finish st =
        let st' = probe (watched goal) (add64 1 st.left) st in
        let one = forget-probe (add64 1 st.left) st in
        elim (Bool-cases (leb st.right (add64 1 st.left))) [
          | inl e ↦ rw (e, finish)
          | inr e ↦ elim (Bool-cases (leb st'.right (add64 2 st'.left))) [
            | inl e' ↦ rw (e, finish, e', ← one, e')
            | inr e' ↦ rw (e, finish, e', ← one, e') (forget-probe (add64 2 st'.left) st')
          ]
        ]

    forget-search_state :
        (min max : ℕ) (env : Env) (log : List (Entry Out))
        → forget (search_state (watched goal) min max (env, log)) ≡ search_state goal min max env
    unfolding search_state
    forget-search_state min max env log =
        forget-finish (loop (watched goal) 1000 (start (watched goal) min max (env, log)))
        ∙ ap (finish goal) (
            forget-loop 1000 (start (watched goal) min max (env, log))
            ∙ ap (loop goal 1000) (forget-start min max env log))

    -- The search returns, when the bounds are in order: the best input that it evaluated, with the
    -- value and the output of that evaluation; the same search with a log, which answers alike,
    -- shows all evaluations, at most 1006 of them.
    pub search-IsBest :
        (min max : ℕ) (env : Env)
        → min < max
        → (best : Entry Out) × (env' : Env) × (log : List (Entry Out))
          × (golden_section_search_maximize goal min max env ≡ ok (best, env'))
          × (golden_section_search_maximize (watched goal) min max (env, [])
              ≡ ok (best, (env', log)))
          × IsBest best log
          × (length log ≤ 1006)
    unfolding golden_section_search_maximize
    search-IsBest min max env h =
        let st = search_state (watched goal) min max (env, []) in
        let (best, count) = search_state-Holds goal min max env in
        (
          (st.max_in, st.max_f, st.max_out),
          st.env.0,
          st.env.1,
          rw (lt→ltb min max h, ← forget-search_state min max env []),
          rw (lt→ltb min max h),
          best,
          count,
        )
