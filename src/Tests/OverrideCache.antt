-- ===== src/Tests/OverrideCache.antt =====
-- A cache over a database of two objects, one of which is overridden and one a child of it.
use poison_dart.Base.{
  ℕ, ◌≤◌, ◌≡◌, refl, false, none, some, List, [], ◌∷◌, Any, ◌==◌, if◌then◌else◌, ok, err,
}
use poison_dart.Simulator.OverrideCache.{
  WritebackCache, ObjectReadResult, ObjectReadResultKind, OverrideCache, SimObject, new, get_object,
  get_versioned_object_for_comparison,
}
use poison_dart.Simulator.Owner.{Owner}
use poison_dart.Simulator.OverrideCache.Children.{read_child_object}
use poison_dart.Simulator.OverrideCache.Keys.{get_object_by_key, check_owned_objects_are_live}
use poison_dart.Simulator.OverrideCache.Recorded.{
  Event, run, ask, databases, get_versioned_object_for_comparison-some,
}
use poison_dart.Simulator.OverrideCache.Seen.{read_child_object_lem}

-- The contents are numbers.
abbrev parent : ℕ → SimObject ℕ
parent version = record { id = 40; version = version; owner = Owner.shared 1; contents = 0 }

abbrev kid : SimObject ℕ
kid = record { id = 41; version = 7; owner = Owner.object_owner 40; contents = 5 }

abbrev database : WritebackCache ℕ
database = record {
  get_object = λ id. if id == 41 then some kid else if id == 40 then some (parent 7) else none;
  get_package_object = λ _. none;
  get_object_by_key = λ id version. if id == 40 then some (parent 7) else none;
  get_latest_object_ref_or_tombstone = λ _. none;
  get_latest_object_or_tombstone = λ _. none;
  get_live_objref = λ _. err "ObjectNotFound";
  have_received_object_at_version = λ _ _ _. false;
}

-- The parent is overridden by its next version, and the object 42 is deleted.
abbrev overrides : List (ObjectReadResult ℕ)
overrides =
    record { id = 40; object = ObjectReadResultKind.object (parent 8) }
    ∷ record { id = 42; object = ObjectReadResultKind.deleted_shared_object 3 9 }
    ∷ []

abbrev cache : OverrideCache ℕ
cache = new (some database) overrides

-- The child is read, and then the database forgets it.
abbrev empty_database : WritebackCache ℕ
empty_database = record database { get_object = λ _. none }

abbrev script : List (Event ℕ)
script =
    Event.reads_object 40
    ∷ Event.reads_child 40 41 9
    ∷ Event.updates empty_database
    ∷ Event.reads_object 41
    ∷ []

abbrev after : OverrideCache ℕ
after = run 1000 cache (Event.reads_object 40 ∷ Event.reads_child 40 41 9 ∷ [])

abbrev final : OverrideCache ℕ
final = run 1000 cache script

child_run : read_child_object 1000 cache 40 41 9 ≡ ok (ok (some kid), after)
unfolding read_child_object get_object
child_run = refl

-- A parent that is another object is refused.
refused :
    (c : OverrideCache ℕ) × (read_child_object 1000 cache 39 41 9
      ≡ ok (err "InvalidChildObjectAccess", c))
unfolding read_child_object
refused = (after, refl)

read_child_object_lem_example :
    (kid.owner ≡ Owner.object_owner 40)
    × (kid.version ≤ 9)
    × (get_object 1000 cache 41 ≡ ok (some kid, after))
read_child_object_lem_example = read_child_object_lem 1000 cache after 40 41 9 kid child_run

-- The child was recorded, the override of its parent was not.
recorded : get_versioned_object_for_comparison final 41 7 ≡ some kid
unfolding get_versioned_object_for_comparison read_child_object get_object
recorded = refl

not_recorded : get_versioned_object_for_comparison final 40 8 ≡ none
unfolding get_versioned_object_for_comparison read_child_object get_object
not_recorded = refl

get_versioned_object_for_comparison-some_example :
    Any (λ d. ask d 41 ≡ some kid) (databases (some database) script) × (kid.version ≡ 7)
get_versioned_object_for_comparison-some_example =
    get_versioned_object_for_comparison-some 1000 (some database) overrides script 41 7 kid recorded

-- By its old version the parent is still found in the database.
old_version : get_object_by_key 1000 cache 40 7 ≡ ok (some (parent 7))
unfolding get_object_by_key
old_version = refl

live :
    check_owned_objects_are_live 1000 cache ((40, 8, 0) ∷ (42, 3, 9) ∷ [])
    ≡ err "ObjectVersionUnavailableForConsumption"
unfolding check_owned_objects_are_live
live = refl
