-- ===== src/Simulator/OverrideCache/Seen.antt =====
-- What a simulation sees of the objects.
use poison_dart.Base.{
  ℕ, ◌≤◌, ◌≡◌, refl, ap, subst, ◌∙◌, inl, inr, true, leb, none, some, ok, Bool-cases, Result-cases,
  ok_err_elim, arith,
}
use poison_dart.Simulator.OverrideCache.{OverrideCache, SimObject, get_object}
use poison_dart.Simulator.Owner.{Owner, is_child_of}
use poison_dart.Simulator.OverrideCache.Children.{find_object_lt_or_eq_version, read_child_object}

is_child_of_lem :
    (parent : ℕ) (owner : Owner)
    → is_child_of parent owner ≡ true
    → owner ≡ Owner.object_owner parent
unfolding is_child_of
is_child_of_lem parent (Owner.address_owner a) e = absurd cc
is_child_of_lem parent (Owner.object_owner p) e = ap Owner.object_owner (ground arith)
is_child_of_lem parent (Owner.shared v) e = absurd cc
is_child_of_lem parent Owner.immutable e = absurd cc

module _ {C : Type 0} (clock_contents : C) where
  -- A child that is read is owned by its parent, is not above the bound of versions, and is the
  -- object that the cache has under its id.
  pub read_child_object_lem :
      (cache cache' : OverrideCache C) (parent child bound : ℕ) (o : SimObject C)
      → read_child_object clock_contents cache parent child bound ≡ ok (ok (some o), cache')
      → (o.owner ≡ Owner.object_owner parent)
        × (o.version ≤ bound)
        × (get_object clock_contents cache child ≡ ok (some o, cache'))
  unfolding read_child_object find_object_lt_or_eq_version is_child_of
  read_child_object_lem cache cache' parent child bound o e =
      elim (Result-cases (get_object clock_contents cache child)) [
        | inr (m, q) ↦
            ok_err_elim {m = m} e (rw (read_child_object, find_object_lt_or_eq_version, q) refl)
        | inl ((none, c), q) ↦
            let e' = rw (read_child_object, find_object_lt_or_eq_version, q) at e in absurd cc
        | inl ((some p, c), q) ↦ elim (Bool-cases (leb p.version bound)) [
          | inr l ↦
              let e' = rw (read_child_object, find_object_lt_or_eq_version, q, l) at e in absurd cc
          | inl l ↦ elim (Bool-cases (is_child_of parent p.owner)) [
            | inr k ↦
                let e' = rw (read_child_object, find_object_lt_or_eq_version, q, l, k) at e in
                absurd cc
            | inl k ↦
                let e' : ok (ok (some p), c) ≡ ok (ok (some o), cache') =
                  rw (read_child_object, find_object_lt_or_eq_version, q, l, k) at e in
                let same : p ≡ o = cc in
                (
                  subst (λ (x : SimObject C). x.owner ≡ Owner.object_owner parent) same
                      (is_child_of_lem parent p.owner k),
                  subst (λ (x : SimObject C). x.version ≤ bound) same (ground arith),
                  q ∙ (let both : ok (some p, c) ≡ ok (some o, cache') = cc in both),
                )
          ]
        ]
      ]
