-- ===== src/Simulator/OverrideCache/Children.antt =====
-- The children of objects, and received objects, in
-- `crates/simulator/src/db_simulator/override_cache.rs`.
use poison_dart.Base.{
  ℕ, Bool, false, ◌||◌, not, Option, none, some, leb, if◌then◌else◌, Result, ok, err, ◌>>=◌,
}
use poison_dart.Simulator.OverrideCache.{OverrideCache, SimObject, get_object}
use poison_dart.Simulator.Owner.{is_child_of, is_owned_by}
use poison_dart.Simulator.OverrideCache.Keys.{get_object_by_key}

-- The default of the trait, by the marker that only the database has.
unfoldable pub have_received_object_at_version :
    {C : Type 0} → OverrideCache C → (object_id version epoch_id : ℕ) → Bool
have_received_object_at_version cache object_id version epoch_id = elim (cache.fallback) [
  | some fallback ↦ fallback.have_received_object_at_version object_id version epoch_id
  | none ↦ false
]

module _ {C : Type 0} (clock_contents : C) where
  unfoldable pub find_object_lt_or_eq_version :
      OverrideCache C → (object_id version : ℕ) → Result (Option (SimObject C) × OverrideCache C)
  unfolding get_object
  find_object_lt_or_eq_version cache object_id version = do
    (found, cache') ← get_object clock_contents cache object_id
    ok (elim found [
      | none ↦ (none, cache')
      | some o ↦ if leb o.version version then (some o, cache') else (none, cache')
    ])

  -- What the database answered is recorded even where the access is refused.
  unfoldable pub read_child_object :
      OverrideCache C
      → (parent child child_version_upper_bound : ℕ)
      → Result (Result (Option (SimObject C)) × OverrideCache C)
  unfolding find_object_lt_or_eq_version is_child_of
  read_child_object cache parent child child_version_upper_bound = do
    (found, cache') ← find_object_lt_or_eq_version cache child child_version_upper_bound
    ok (
      elim found [
        | none ↦ ok none
        | some o ↦
            if is_child_of parent o.owner then ok (some o) else err "InvalidChildObjectAccess"
      ],
      cache',
    )

  unfoldable pub get_object_received_at_version :
      OverrideCache C
      → (owner receiving_object_id receive_object_at_version epoch_id : ℕ)
      → Result (Option (SimObject C))
  unfolding get_object_by_key is_owned_by have_received_object_at_version
  get_object_received_at_version cache owner receiving_object_id receive_object_at_version
        epoch_id =
      do
        found ← get_object_by_key clock_contents cache receiving_object_id receive_object_at_version
        ok (elim found [
          | none ↦ none
          | some o ↦
              if not (is_owned_by owner o.owner)
                || have_received_object_at_version cache receiving_object_id
                    receive_object_at_version epoch_id
              then none
              else some o
        ])
