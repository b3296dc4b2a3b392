-- ===== src/Strategy/Epoch.antt =====
-- When the strategy asks for the epoch.
use poison_dart.Base.{
  ℕ, ◌+◌, ◌^◌, ◌≤◌, ◌<◌, ◌≡◌, refl, sym, ap, ◌∙◌, inl, inr, true, false, Option, some, none, ltb,
  Option-cases, Bool-cases, Result, ok, err, arith,
}
use poison_dart.Base.Words.{add64}
use poison_dart.Simulator.{SimEpoch, is_stale}
use poison_dart.Strategy.{ArbStrategy, fetch_epoch, get_latest_epoch}

-- The end of an epoch, which must not overflow.
abbrev pub end_of : SimEpoch → ℕ
end_of epoch = epoch.epoch_start_timestamp + epoch.epoch_duration_ms

-- What is held after an answer.
abbrev pub held : Result SimEpoch → Option SimEpoch
held (ok epoch) = some epoch
held (err _) = none

module _ {O : Type 0} where
  fetch_epoch-held :
      (s : ArbStrategy O) (fetched : Result SimEpoch)
      → s.epoch ≡ none
      → ((fetch_epoch s fetched).1 ≡ fetched) × ((fetch_epoch s fetched).0.epoch ≡ held fetched)
  unfolding fetch_epoch
  fetch_epoch-held s (ok epoch) e = (refl, refl)
  fetch_epoch-held s (err m) e = (refl, e)

  -- Whatever was held, the answer of a call is what is held after it.
  get_latest_epoch-held :
      (s : ArbStrategy O) (now : ℕ) (fetched : Result SimEpoch)
      → (get_latest_epoch s now fetched).0.epoch ≡ held (get_latest_epoch s now fetched).1
  unfolding get_latest_epoch
  get_latest_epoch-held s now fetched = elim (Option-cases s.epoch) [
    | inl q ↦
        let (answer, kept) = fetch_epoch-held s fetched q in
        rw (get_latest_epoch, q) (kept ∙ ap held (sym answer))
    | inr (epoch, q) ↦ elim (Bool-cases (is_stale now epoch)) [
      | inl stale ↦
          let (answer, kept) = fetch_epoch-held (record s { epoch = none }) fetched refl in
          rw (get_latest_epoch, q, stale) (kept ∙ ap held (sym answer))
      | inr fresh ↦ rw (get_latest_epoch, q, fresh) q
    ]
  ]

  get_latest_epoch-holding :
      (s : ArbStrategy O) (now : ℕ) (fetched : Result SimEpoch) (epoch : SimEpoch)
      → end_of epoch < 2 ^ 64
      → s.epoch ≡ some epoch
      → let again = get_latest_epoch s now fetched in
        (end_of epoch ≤ now → again ≡ (s, ok epoch))
        × (now < end_of epoch → (again.1 ≡ fetched) × (again.0.epoch ≡ held fetched))
  unfolding get_latest_epoch is_stale
  get_latest_epoch-holding s now fetched epoch room q =
      let sum : add64 epoch.epoch_start_timestamp epoch.epoch_duration_ms ≡ end_of epoch =
        omega arith in
      (
        λ h.
            let fresh : ltb now (end_of epoch) ≡ false = ground arith in
            rw (get_latest_epoch, q, is_stale, sum, fresh)
              (λ i. (record s { epoch = q i }, ok epoch)),
        λ h.
            let stale : ltb now (end_of epoch) ≡ true = ground arith in
            rw (get_latest_epoch, q, is_stale, sum, stale)
              (fetch_epoch-held (record s { epoch = none }) fetched refl),
      )

  -- After a call that answered with an epoch, whether it was held or came of the node, the next call
  -- answers with it from the end of this epoch on, whatever the node would say, and changes nothing.
  -- Before its end, the answer is that of the node: an epoch is held from then on, and without one
  -- none is held. The end of the epoch does not overflow.
  pub get_latest_epoch-end_of :
      (s : ArbStrategy O) (now now' : ℕ) (fetched fetched' : Result SimEpoch) (epoch : SimEpoch)
      → end_of epoch < 2 ^ 64
      → (get_latest_epoch s now fetched).1 ≡ ok epoch
      → let s' = (get_latest_epoch s now fetched).0 in
        let again = get_latest_epoch s' now' fetched' in
        (end_of epoch ≤ now' → again ≡ (s', ok epoch))
        × (now' < end_of epoch → (again.1 ≡ fetched') × (again.0.epoch ≡ held fetched'))
  get_latest_epoch-end_of s now now' fetched fetched' epoch room e =
      get_latest_epoch-holding (get_latest_epoch s now fetched).0 now' fetched' epoch room
        (get_latest_epoch-held s now fetched ∙ ap held e)
