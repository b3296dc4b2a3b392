-- ===== src/Search.antt =====
-- `bin/arb/src/common/search.rs`: the golden-section search for the input that maximises a goal.
-- It is modelled at `u64`, the type at which `bin/arb/src/arb.rs` calls it. An evaluation of the
-- goal may change an environment, which is passed on from call to call.
pub mod Best
pub mod Answer
pub mod Section
pub mod From
use Prim.Native.Nat.{compare, Ordering}
use poison_dart.Base.{ℕ, zero, suc, ◌/◌, min, true, false, ltb, leb, if◌then◌else◌, Result, ok, err}
use poison_dart.Base.Words.{add64, sub64, mul64}

-- `SearchGoal::evaluate`: the value of an input, and what comes with it.
abbrev pub Goal : Type 0 → Type 0 → Type 0
Goal Out Env = ℕ → Env → (ℕ × Out) × Env

-- The two numbers whose quotient is the golden ratio.
abbrev pub golden_u : ℕ
golden_u = 14566495

abbrev pub golden_d : ℕ
golden_d = 9002589

-- The closure `c`: a length, shortened by the golden ratio.
unfoldable pub shorten : ℕ → ℕ
shorten x =
    if ltb (mul64 x golden_d) x then mul64 (x / golden_u) golden_d else mul64 x golden_d / golden_u

-- The variables of the loop.
pub record State (Out Env : Type 0) : Type 0 where
  pub left : ℕ
  pub right : ℕ
  pub mid_left : ℕ
  pub mid_right : ℕ
  pub fl : ℕ
  pub fr : ℕ
  pub max_in : ℕ
  pub max_f : ℕ
  pub max_out : Out
  pub env : Env

module _ {Out Env : Type 0} where
  -- `if f > max_f { max_f = f; max_in = x; max_out = out; }`
  unfoldable pub consider : ℕ → ℕ → Out → State Out Env → State Out Env
  consider x f out st =
      if ltb st.max_f f then record st { max_in = x; max_f = f; max_out = out } else st

  module _ (goal : Goal Out Env) where
    unfoldable pub probe_left : ℕ → State Out Env → State Out Env
    unfolding consider
    probe_left x st =
        let ((f, out), env) = goal x st.env in
        consider x f out (record st { mid_left = x; fl = f; env = env })

    unfoldable pub probe_right : ℕ → State Out Env → State Out Env
    unfolding consider
    probe_right x st =
        let ((f, out), env) = goal x st.env in
        consider x f out (record st { mid_right = x; fr = f; env = env })

    -- A point that is only compared with the best one so far.
    unfoldable pub probe : ℕ → State Out Env → State Out Env
    unfolding consider
    probe x st = let ((f, out), env) = goal x st.env in consider x f out (record st { env = env })

    -- The values at the two ends, and the first two inner points.
    unfoldable pub ends : (min max : ℕ) → Env → State Out Env
    ends left right env =
        let ((fl, out_l), env) = goal left env in
        let ((fr, out_r), env) = goal right env in
        let delta = shorten (sub64 right left) in
        let mid_left = sub64 right delta in
        let mid_right = add64 left delta in
        record {
          left = left;
          right = right;
          mid_left = mid_left;
          mid_right = if leb mid_right mid_left then min (add64 mid_left 1) right else mid_right;
          fl = fl;
          fr = fr;
          max_in = if ltb fl fr then right else left;
          max_f = if ltb fl fr then fr else fl;
          max_out = if ltb fl fr then out_r else out_l;
          env = env;
        }

    -- What stands before the loop.
    unfoldable pub start : (min max : ℕ) → Env → State Out Env
    unfolding ends probe_left probe_right
    start left right env =
        let st = ends left right env in
        let st' = probe_left st.mid_left st in probe_right st'.mid_right st'

    -- The `else` branch of the loop's body, whose right end has moved.
    unfoldable pub iterate_left : (temp : ℕ) → State Out Env → State Out Env
    unfolding probe_left probe_right
    iterate_left temp st = elim (compare temp st.mid_left) [
      | Ordering.lt ↦ probe_left temp (record st { mid_right = st.mid_left; fr = st.fl })
      | Ordering.eq ↦ probe_right (min (add64 temp 1) st.right) st
      | Ordering.gt ↦ probe_right temp st
    ]

    unfoldable pub iterate : State Out Env → State Out Env
    unfolding iterate_left
    iterate st =
        if ltb st.fl st.fr
        then probe_right (add64 st.mid_left (shorten (sub64 st.right st.mid_left)))
            (record st { left = st.mid_left; mid_left = st.mid_right; fl = st.fr })
        else iterate_left (sub64 st.mid_right (shorten (sub64 st.mid_right st.left)))
            (record st { right = st.mid_right })

    -- The loop: the number counts the tries that are left of the thousand.
    unfoldable pub loop : ℕ → State Out Env → State Out Env
    unfolding iterate
    loop zero st = st
    loop (suc tries) st = elim (ltb 3 (sub64 st.right st.left)) [
      | true ↦ loop tries (iterate st)
      | false ↦ st
    ]

    -- The inner points of the last interval: the first two, unless the right end comes first.
    unfoldable pub finish : State Out Env → State Out Env
    unfolding probe
    finish st =
        if leb st.right (add64 1 st.left)
        then st
        else (let st' = probe (add64 1 st.left) st in
            if leb st'.right (add64 2 st'.left) then st' else probe (add64 2 st'.left) st')

    unfoldable pub search_state : (min max : ℕ) → Env → State Out Env
    unfolding start loop finish
    search_state min max env = finish (loop 1000 (start min max env))

    unfoldable pub golden_section_search_maximize :
        (min max : ℕ) → Env → Result ((ℕ × ℕ × Out) × Env)
    unfolding search_state
    golden_section_search_maximize min max env =
        if ltb min max
        then (let st = search_state min max env in ok ((st.max_in, st.max_f, st.max_out), st.env))
        else err "assertion failed: min < max"
