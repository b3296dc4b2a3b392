-- ===== src/Simulator/OverrideCache/Keys.antt =====
-- The look-ups by key of `crates/simulator/src/db_simulator/override_cache.rs`.
use poison_dart.Base.{
  ℕ, Bool, true, false, Option, none, some, List, [], ◌∷◌, ◌==◌, if◌then◌else◌, Result, ok, err,
  ok_or, ◌>>=◌,
}
use poison_dart.Simulator.OverrideCache.{
  OverrideCache, ObjectReadResultKind, SimObject, ObjectRef, with_fallback, get_override,
  compute_object_reference,
}

module _ {C : Type 0} (clock_contents : C) (cache : OverrideCache C) where
  unfoldable pub get_object_by_key : (object_id version : ℕ) → Result (Option (SimObject C))
  unfolding get_override
  get_object_by_key object_id version =
      let of_fallback =
        with_fallback cache (λ fallback. fallback.get_object_by_key object_id version) in
      elim (get_override clock_contents cache object_id) [
        | none ↦ ok of_fallback
        | some r ↦ elim (r.object) [
          | ObjectReadResultKind.object o ↦
              if o.version == version then ok (some o) else ok of_fallback
          | ObjectReadResultKind.deleted_shared_object _ _ ↦ ok none
          | ObjectReadResultKind.cancelled_transaction_shared_object _ ↦ err "unreachable"
        ]
      ]

  unfoldable pub multi_get_objects_by_key : List (ℕ × ℕ) → Result (List (Option (SimObject C)))
  unfolding get_object_by_key
  multi_get_objects_by_key [] = ok []
  multi_get_objects_by_key (key ∷ keys) = do
    found ← get_object_by_key key.0 key.1
    rest ← multi_get_objects_by_key keys
    ok (found ∷ rest)

  unfoldable pub object_exists_by_key : (object_id version : ℕ) → Result Bool
  unfolding get_object_by_key
  object_exists_by_key object_id version = do
    found ← get_object_by_key object_id version
    ok (elim found [ some _ ↦ true | none ↦ false ])

  unfoldable pub multi_object_exists_by_key : List (ℕ × ℕ) → Result (List Bool)
  unfolding object_exists_by_key
  multi_object_exists_by_key [] = ok []
  multi_object_exists_by_key (key ∷ keys) = do
    exists ← object_exists_by_key key.0 key.1
    rest ← multi_object_exists_by_key keys
    ok (exists ∷ rest)

  -- `_get_live_objref`.
  unfoldable pub get_live_objref : (digest : SimObject C → ℕ) (object_id : ℕ) → Result ObjectRef
  unfolding get_override compute_object_reference
  get_live_objref digest object_id = elim (get_override clock_contents cache object_id) [
    | some r ↦ elim (r.object) [
      | ObjectReadResultKind.object o ↦ ok (compute_object_reference digest o)
      | ObjectReadResultKind.deleted_shared_object _ _ ↦ err "ObjectNotFound"
      | ObjectReadResultKind.cancelled_transaction_shared_object _ ↦ err "unreachable"
    ]
    | none ↦ elim (cache.fallback) [
      | some fallback ↦ fallback.get_live_objref object_id
      | none ↦ err "No fallback"
    ]
  ]

  unfoldable pub check_owned_objects_are_live : List ObjectRef → Result (Unit {0})
  unfolding get_object_by_key
  check_owned_objects_are_live [] = ok tt
  check_owned_objects_are_live ((id, version, _) ∷ refs) = do
    found ← get_object_by_key id version
    live ← ok_or found "ObjectVersionUnavailableForConsumption"
    check_owned_objects_are_live refs
