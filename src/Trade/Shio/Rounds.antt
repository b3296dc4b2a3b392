-- ===== src/Trade/Shio/Rounds.antt =====
-- The turns of the global states, and the bids that are refused.
use poison_dart.Base.{
  ℕ, suc, ◌≤◌, ◌<◌, ◌≡◌, refl, inl, inr, true, false, some, leb, arith, length, get_elem?,
  get_elem?-some, Bool-cases, ap,
}
use poison_dart.Trade.Shio.{Shio, next_idx, next_state}

module _ {O : Type 0} where
  -- The counter never passes the number of states by more than the next turn.
  abbrev pub IsInTurn : Shio O → Type 0
  IsInTurn shio = (0 < length shio.global_states) × (shio.state_idx ≤ length shio.global_states)

  next_idx_lem :
      (shio : Shio O)
      → IsInTurn shio
      → let (idx, shio') = next_idx shio in
        (idx < length shio.global_states)
        × (shio'.state_idx ≡ suc idx)
        × (shio'.global_states ≡ shio.global_states)
  unfolding next_idx
  next_idx_lem shio (some_state, le) =
      elim (Bool-cases (leb (length shio.global_states) shio.state_idx)) [
        | inl e ↦ rw (e, next_idx) (omega arith, refl, refl)
        | inr e ↦ rw (e, next_idx) (ground arith, omega arith, refl)
      ]

  next_turn :
      (shio : Shio O) (idx : ℕ)
      → shio.state_idx ≡ suc idx
      → (suc idx < length shio.global_states → (next_idx shio).0 ≡ suc idx)
        × (length shio.global_states ≤ suc idx → (next_idx shio).0 ≡ 0)
  unfolding next_idx
  next_turn shio idx e = (
    (λ h.
        let b : leb (length shio.global_states) shio.state_idx ≡ false = ground arith in
        rw (b, next_idx) e),
    (λ h.
        let b : leb (length shio.global_states) shio.state_idx ≡ true = ground arith in
        rw (b, next_idx) refl),
  )

  -- If there are states and the counter is in turn, a bid gets a state, never one out of bounds, and
  -- the counter is in turn again; the bid after it gets the state after this one, or the first after
  -- the last.
  pub next_state-IsInTurn :
      (shio : Shio O)
      → IsInTurn shio
      → let idx = (next_idx shio).0 in
        let shio' = (next_state shio).1 in
        ((state : O) × ((next_state shio).0 ≡ some state)
          × (get_elem? shio.global_states idx ≡ some state))
        × IsInTurn shio'
        × (suc idx < length shio.global_states → (next_idx shio').0 ≡ suc idx)
        × (suc idx ≡ length shio.global_states → (next_idx shio').0 ≡ 0)
  unfolding next_state next_idx
  next_state-IsInTurn shio h =
      let (idx_lt, turn, same) = next_idx_lem shio h in
      let (state, e) = get_elem?-some shio.global_states (next_idx shio).0 idx_lt in
      let shio' = (next_state shio).1 in
      let l = ap length same in
      let (low, high) = next_turn shio' (next_idx shio).0 turn in
      (
        (state, e, e),
        (omega arith, omega arith),
        (λ k. low (omega arith)),
        (λ k. high (omega arith)),
      )
