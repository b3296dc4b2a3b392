-- ===== src/Search/From.antt =====
-- What every evaluation of the goal has, the answer of the search has too.
use Prim.Native.Nat.{compare}
use poison_dart.Base.{
  min as min_ℕ, ℕ, zero, suc, ◌<◌, ◌≡◌, inl, inr, ltb, leb, ok, Bool-cases, Ordering-cases, lt→ltb,
}
use poison_dart.Base.Words.{add64, sub64}
use poison_dart.Search.{
  Goal, State, shorten, consider, probe_left, probe_right, probe, ends, start, iterate_left,
  iterate, loop, finish, search_state, golden_section_search_maximize,
}
use poison_dart.Search.Best.{Entry}

module _ {Out Env : Type 0} (goal : Goal Out Env) (P : Entry Out → Type 0)
    (good : (x : ℕ) (env : Env) → P (x, (goal x env).0.0, (goal x env).0.1)) where
  abbrev Good : State Out Env → Type 0
  Good st = P (st.max_in, st.max_f, st.max_out)

  consider-Good :
      (x f : ℕ) (out : Out) (st : State Out Env)
      → P (x, f, out)
      → Good st
      → Good (consider x f out st)
  unfolding consider
  consider-Good x f out st p h = elim (Bool-cases (ltb st.max_f f)) [
    | inl e ↦ rw (e, consider) p
    | inr e ↦ rw (e, consider) h
  ]

  probe-Good : (x : ℕ) (st : State Out Env) → Good st → Good (probe goal x st)
  unfolding probe
  probe-Good x st h = consider-Good x _ _ _ (good x st.env) h

  probe_left-Good : (x : ℕ) (st : State Out Env) → Good st → Good (probe_left goal x st)
  unfolding probe_left
  probe_left-Good x st h = consider-Good x _ _ _ (good x st.env) h

  probe_right-Good : (x : ℕ) (st : State Out Env) → Good st → Good (probe_right goal x st)
  unfolding probe_right
  probe_right-Good x st h = consider-Good x _ _ _ (good x st.env) h

  iterate_left-Good : (temp : ℕ) (st : State Out Env) → Good st → Good (iterate_left goal temp st)
  unfolding iterate_left
  iterate_left-Good temp st h = elim (Ordering-cases (compare temp st.mid_left)) [
    | inl e ↦
        rw (e, iterate_left)
          (probe_left-Good temp (record st { mid_right = st.mid_left; fr = st.fl }) h)
    | inr (inl e) ↦ rw (e, iterate_left) (probe_right-Good (min_ℕ (add64 temp 1) st.right) st h)
    | inr (inr e) ↦ rw (e, iterate_left) (probe_right-Good temp st h)
  ]

  iterate-Good : (st : State Out Env) → Good st → Good (iterate goal st)
  unfolding iterate
  iterate-Good st h = elim (Bool-cases (ltb st.fl st.fr)) [
    | inl e ↦
        rw (e, iterate)
          (probe_right-Good (add64 st.mid_left (shorten (sub64 st.right st.mid_left)))
            (record st { left = st.mid_left; mid_left = st.mid_right; fl = st.fr }) h)
    | inr e ↦
        rw (e, iterate)
          (iterate_left-Good (sub64 st.mid_right (shorten (sub64 st.mid_right st.left)))
            (record st { right = st.mid_right }) h)
  ]

  start-Good : (min max : ℕ) (env : Env) → Good (start goal min max env)
  unfolding start ends
  start-Good min max env =
      let st = ends goal min max env in
      let st' = probe_left goal st.mid_left st in
      probe_right-Good st'.mid_right st' (
        probe_left-Good st.mid_left st (
          let e = goal min env in
          elim (Bool-cases (ltb e.0.0 (goal max e.1).0.0)) [
            | inl h ↦ rw (h, ends) (good max e.1)
            | inr h ↦ rw (h, ends) (good min env)
          ]))

  loop-Good : (tries : ℕ) (st : State Out Env) → Good st → Good (loop goal tries st)
  unfolding loop
  loop-Good zero st h = h
  loop-Good (suc tries) st h = elim (Bool-cases (ltb 3 (sub64 st.right st.left))) [
    | inl e ↦ rw (e, loop) (loop-Good tries (iterate goal st) (iterate-Good st h))
    | inr e ↦ rw (e, loop) h
  ]

  finish-Good : (st : State Out Env) → Good st → Good (finish goal st)
  unfolding finish
  finish-Good st h =
      let st' = probe goal (add64 1 st.left) st in
      let one = probe-Good (add64 1 st.left) st h in
      elim (Bool-cases (leb st.right (add64 1 st.left))) [
        | inl e ↦ rw (e, finish) h
        | inr e ↦ elim (Bool-cases (leb st'.right (add64 2 st'.left))) [
          | inl e' ↦ rw (e, finish, e') one
          | inr e' ↦ rw (e, finish, e') (probe-Good (add64 2 st'.left) st' one)
        ]
      ]

  -- A search between bounds that are in order returns an answer of this kind.
  pub search-Good :
      (min max : ℕ) (env : Env)
      → min < max
      → (best : Entry Out) × (env' : Env) × (golden_section_search_maximize goal min max env
          ≡ ok (best, env'))
        × P best
  unfolding golden_section_search_maximize search_state
  search-Good min max env h =
      let st = search_state goal min max env in
      let begun = start goal min max env in
      (
        (st.max_in, st.max_f, st.max_out),
        st.env,
        rw (lt→ltb min max h),
        finish-Good (loop goal 1000 begun) (loop-Good 1000 begun (start-Good min max env)),
      )
