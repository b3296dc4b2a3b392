-- ===== src/Simulator/OverrideCache.antt =====
-- `crates/simulator/src/db_simulator/override_cache.rs`: objects that the caller gives stand before
-- those of the database. A panic is an error of the results here.
pub mod Keys
pub mod Children
pub mod Seen
pub mod Recorded
use poison_dart.Base.{
  ℕ, ◌≡◌, Bool, true, false, not, ◌&&◌, ◌||◌, Option, none, some, List, [], ◌∷◌, leb, if◌then◌else◌,
  ◌==◌, Result, ok, err, ok_or, ◌>>=◌,
}
use poison_dart.Simulator.Owner.{Owner}

-- An object of the chain, with contents `C`.
pub record SimObject (C : Type 0) : Type 0 where
  pub id : ℕ
  pub version : ℕ
  pub owner : Owner
  pub contents : C

pub data ObjectReadResultKind (C : Type 0) : Type 0 where
  object : SimObject C → ObjectReadResultKind C
  deleted_shared_object : (version digest : ℕ) → ObjectReadResultKind C
  cancelled_transaction_shared_object : (version : ℕ) → ObjectReadResultKind C

pub record ObjectReadResult (C : Type 0) : Type 0 where
  pub id : ℕ
  pub object : ObjectReadResultKind C

-- `ObjectRef`: the id, the version and the digest.
abbrev pub ObjectRef : Type 0
ObjectRef = ℕ × ℕ × ℕ

pub data ObjectOrTombstone (C : Type 0) : Type 0 where
  object : SimObject C → ObjectOrTombstone C
  tombstone : ObjectRef → ObjectOrTombstone C

-- What is asked of the cache of the node. Another thread writes it while transactions run, so it is
-- what the node has at one time.
pub record WritebackCache (C : Type 0) : Type 0 where
  pub get_object : ℕ → Option (SimObject C)
  pub get_package_object : ℕ → Option (SimObject C)
  pub get_object_by_key : ℕ → ℕ → Option (SimObject C)
  pub get_latest_object_ref_or_tombstone : ℕ → Option ObjectRef
  pub get_latest_object_or_tombstone : ℕ → Option (ObjectRef × ObjectOrTombstone C)
  pub get_live_objref : ℕ → Result ObjectRef
  pub have_received_object_at_version : ℕ → ℕ → ℕ → Bool

-- The objects that were read of the database, each under its id and its version.
abbrev pub Versioned : Type 0 → Type 0
Versioned C = ℕ → ℕ → Option (SimObject C)

pub record OverrideCache (C : Type 0) : Type 0 where
  pub fallback : Option (WritebackCache C)
  pub overrides : List (ObjectReadResult C)
  pub versioned_cache : Versioned C

abbrev pub new :
    {C : Type 0} → Option (WritebackCache C) → List (ObjectReadResult C) → OverrideCache C
new fallback overrides = record {
  fallback = fallback;
  overrides = overrides;
  versioned_cache = λ _ _. none;
}

abbrev pub sui_clock_object_id : ℕ
sui_clock_object_id = 6

-- `iter().find(|o| o.id() == *object_id)`.
unfoldable pub find : {C : Type 0} → ℕ → List (ObjectReadResult C) → Option (ObjectReadResult C)
find id [] = none
find id (o ∷ os) = let rest = find id os in if o.id == id then some o else rest

abbrev pub with_fallback :
    {C A : Type 0} → OverrideCache C → (WritebackCache C → Option A) → Option A
with_fallback cache ask = elim (cache.fallback) [ some fallback ↦ ask fallback | none ↦ none ]

unfoldable pub get_versioned_object_for_comparison :
    {C : Type 0} → OverrideCache C → (object_id version : ℕ) → Option (SimObject C)
get_versioned_object_for_comparison cache object_id version =
    cache.versioned_cache object_id version

-- The object of the clock, which is made anew with the contents of the time.
unfoldable pub latest_clock_obj : {C : Type 0} → C → SimObject C
latest_clock_obj clock_contents = record {
  id = sui_clock_object_id;
  version = 1;
  owner = Owner.shared 1;
  contents = clock_contents;
}

unfoldable pub compute_object_reference : {C : Type 0} → (SimObject C → ℕ) → SimObject C → ObjectRef
compute_object_reference digest o = (o.id, o.version, digest o)

-- An object of the database is recorded.
unfoldable pub record_versioned :
    {C : Type 0} → OverrideCache C → ℕ → Option (SimObject C) → OverrideCache C
record_versioned cache id none = cache
record_versioned cache id (some o) = record cache {
  versioned_cache =
      λ i v. if (i == id) && (v == o.version) then some o else cache.versioned_cache i v;
}

module _ {C : Type 0} (clock_contents : C) where
  unfoldable pub get_override : OverrideCache C → (object_id : ℕ) → Option (ObjectReadResult C)
  unfolding latest_clock_obj find
  get_override cache object_id =
      if object_id == sui_clock_object_id
      then some (record {
        id = sui_clock_object_id;
        object = ObjectReadResultKind.object (latest_clock_obj clock_contents);
      })
      else find object_id cache.overrides

  unfoldable pub get_override_object : OverrideCache C → ℕ → Result (Option (SimObject C))
  unfolding get_override
  get_override_object cache object_id = elim (get_override cache object_id) [
    | none ↦ ok none
    | some r ↦ elim (r.object) [
      | ObjectReadResultKind.object o ↦ ok (some o)
      | ObjectReadResultKind.deleted_shared_object _ _ ↦ ok none
      | ObjectReadResultKind.cancelled_transaction_shared_object _ ↦ err "unreachable"
    ]
  ]

  unfoldable pub get_package_object : OverrideCache C → ℕ → Result (Option (SimObject C))
  unfolding get_override
  get_package_object cache id = elim (get_override cache id) [
    | none ↦ ok (with_fallback cache (λ fallback. fallback.get_package_object id))
    | some r ↦ elim (r.object) [
      | ObjectReadResultKind.object o ↦ ok (some o)
      | ObjectReadResultKind.deleted_shared_object _ _ ↦ ok none
      | ObjectReadResultKind.cancelled_transaction_shared_object _ ↦ err "unreachable"
    ]
  ]

  unfoldable pub get_object : OverrideCache C → ℕ → Result (Option (SimObject C) × OverrideCache C)
  unfolding get_override record_versioned
  get_object cache id = elim (get_override cache id) [
    | none ↦
        let obj = with_fallback cache (λ fallback. fallback.get_object id) in
        ok (obj, record_versioned cache id obj)
    | some r ↦ elim (r.object) [
      | ObjectReadResultKind.object o ↦ ok (some o, cache)
      | ObjectReadResultKind.deleted_shared_object _ _ ↦ ok (none, cache)
      | ObjectReadResultKind.cancelled_transaction_shared_object _ ↦ err "unreachable"
    ]
  ]

  module _ (digest : SimObject C → ℕ) where
    unfoldable pub get_latest_object_ref_or_tombstone :
        OverrideCache C → ℕ → Result (Option ObjectRef)
    unfolding get_override_object compute_object_reference
    get_latest_object_ref_or_tombstone cache object_id = do
      found ← get_override_object cache object_id
      ok (elim found [
        | some o ↦ some (compute_object_reference digest o)
        | none ↦
            with_fallback cache (λ fallback. fallback.get_latest_object_ref_or_tombstone object_id)
      ])

    unfoldable pub get_latest_object_or_tombstone :
        OverrideCache C → ℕ → Result (Option (ObjectRef × ObjectOrTombstone C))
    unfolding get_override compute_object_reference
    get_latest_object_or_tombstone cache object_id = elim (get_override cache object_id) [
      | none ↦
          ok (with_fallback cache (λ fallback. fallback.get_latest_object_or_tombstone object_id))
      | some r ↦ elim (r.object) [
        | ObjectReadResultKind.object o ↦
            ok (some (compute_object_reference digest o, ObjectOrTombstone.object o))
        | ObjectReadResultKind.deleted_shared_object _ _ ↦
            ok (elim (with_fallback cache (λ fallback. fallback.get_object object_id)) [
              | some undeleted ↦
                  let object_ref = compute_object_reference digest undeleted in
                  some (object_ref, ObjectOrTombstone.tombstone object_ref)
              | none ↦ none
            ])
        | ObjectReadResultKind.cancelled_transaction_shared_object _ ↦ err "unreachable"
      ]
    ]
