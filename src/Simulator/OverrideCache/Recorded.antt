-- ===== src/Simulator/OverrideCache/Recorded.antt =====
-- What the cache records of the database.
use poison_dart.Base.{
  ℕ, ◌≡◌, refl, sym, ap, subst, ◌∙◌, inl, inr, ◌==◌, leb, ◌&&◌, Option, none, some, List, [], ◌∷◌,
  All, All-members, Any, Any-imp, Result, ok, err, Bool-cases, Option-cases, Result-cases,
  ok_err_elim, ok_injective, some_injective, arith,
}
use poison_dart.Simulator.OverrideCache.{
  get_versioned_object_for_comparison, WritebackCache, ObjectReadResult, ObjectReadResultKind,
  OverrideCache, SimObject, new, record_versioned, get_override, get_object, with_fallback,
}
use poison_dart.Simulator.OverrideCache.Children.{find_object_lt_or_eq_version, read_child_object}

-- What a database has under an id, if there is a database.
abbrev pub ask : {C : Type 0} → Option (WritebackCache C) → ℕ → Option (SimObject C)
ask none id = none
ask (some database) id = database.get_object id

-- Of the databases with the property, one has the object.
abbrev pub HasHad :
    {C : Type 0} → (Option (WritebackCache C) → Type 0) → (id : ℕ) → SimObject C → Type 0
HasHad {C} P id o = (database : Option (WritebackCache C)) × P database × (ask database id ≡ some o)

-- The recorded objects have their versions, and were in the database at some time.
abbrev IsRecorded : {C : Type 0} → (Option (WritebackCache C) → Type 0) → OverrideCache C → Type 0
IsRecorded {C} P cache =
    (id version : ℕ) (o : SimObject C)
    → get_versioned_object_for_comparison cache id version ≡ some o
    → HasHad P id o × (o.version ≡ version)

with_fallback-ask :
    {C : Type 0} (cache : OverrideCache C) (id : ℕ)
    → with_fallback cache (λ fallback. fallback.get_object id) ≡ ask cache.fallback id
with_fallback-ask cache id = by_cases cache.fallback refl
  where
    by_cases :
        (f : Option (WritebackCache _))
        → cache.fallback ≡ f
        → with_fallback cache (λ fallback. fallback.get_object id) ≡ ask cache.fallback id
    by_cases none q = rw q refl
    by_cases (some w) q = rw q refl

record_versioned-fallback :
    {C : Type 0} (cache : OverrideCache C) (id : ℕ) (obj : Option (SimObject C))
    → (record_versioned cache id obj).fallback ≡ cache.fallback
unfolding record_versioned
record_versioned-fallback cache id none = refl
record_versioned-fallback cache id (some o) = refl

record_versioned-IsRecorded :
    {C : Type 0} (P : Option (WritebackCache C) → Type 0) (cache : OverrideCache C) (id : ℕ)
    (obj : Option (SimObject C))
    → P cache.fallback
    → ask cache.fallback id ≡ obj
    → IsRecorded P cache
    → IsRecorded P (record_versioned cache id obj)
unfolding record_versioned get_versioned_object_for_comparison
record_versioned-IsRecorded P cache id none now q h i v o e = h i v o e
record_versioned-IsRecorded {C} P cache id (some p) now q h i v o e =
    elim (Bool-cases ((i == id) && (v == p.version))) [
      | inr n ↦ h i v o (rw (record_versioned, n) at e)
      | inl y ↦
          let same : p ≡ o = some_injective (rw (record_versioned, y) at e) in
          let at_id : i ≡ id = ground arith in
          let at_version : v ≡ p.version = ground arith in
          (
            (cache.fallback, now, ap (ask cache.fallback) at_id ∙ q ∙ ap some same),
            sym (at_version ∙ ap (λ (x : SimObject C). x.version) same),
          )
    ]

-- The database is written by another thread, if there is one.
abbrev pub updated :
    {C : Type 0} → Option (WritebackCache C) → WritebackCache C → Option (WritebackCache C)
updated none database = none
updated (some _) database = some database

-- What happens to the cache, in order: it is asked while a transaction runs, or the database under
-- it changes.
pub data Event (C : Type 0) : Type 0 where
  reads_object : (id : ℕ) → Event C
  reads_child : (parent child child_version_upper_bound : ℕ) → Event C
  updates : WritebackCache C → Event C

-- The databases that there were, one after the other.
abbrev pub databases :
    {C : Type 0} → Option (WritebackCache C) → List (Event C) → List (Option (WritebackCache C))
databases now [] = now ∷ []
databases now (Event.reads_object _ ∷ es) = databases now es
databases now (Event.reads_child _ _ _ ∷ es) = databases now es
databases now (Event.updates database ∷ es) = now ∷ databases (updated now database) es

databases-All :
    {C : Type 0} (P : Option (WritebackCache C) → Type 0) (now : Option (WritebackCache C))
    (es : List (Event C))
    → All P (databases now es)
    → P now
databases-All P now [] h = h.0
databases-All P now (Event.reads_object _ ∷ es) h = databases-All P now es h
databases-All P now (Event.reads_child _ _ _ ∷ es) h = databases-All P now es h
databases-All P now (Event.updates database ∷ es) h = h.0

module _ {C : Type 0} (clock_contents : C) where
  -- A panic ends the run of the transaction, not the cache.
  abbrev pub after : OverrideCache C → Event C → OverrideCache C
  after cache (Event.reads_object id) = elim (get_object clock_contents cache id) [
    | ok answer ↦ answer.1
    | err _ ↦ cache
  ]
  after cache (Event.reads_child parent child bound) =
      elim (read_child_object clock_contents cache parent child bound) [
        | ok answer ↦ answer.1
        | err _ ↦ cache
      ]
  after cache (Event.updates database) = record cache { fallback = updated cache.fallback database }

  abbrev pub run : OverrideCache C → List (Event C) → OverrideCache C
  run cache [] = cache
  run cache (e ∷ es) = run (after cache e) es

  -- A look-up leaves the database as it is, and records only what is in it.
  abbrev Keeps : OverrideCache C → OverrideCache C → Type 1
  Keeps cache cache' =
      (cache'.fallback ≡ cache.fallback)
      × ((P : Option (WritebackCache C) → Type 0)
          → P cache.fallback
          → IsRecorded P cache
          → IsRecorded P cache')

  get_object-Keeps :
      (cache : OverrideCache C) (id : ℕ) (answer : Option (SimObject C) × OverrideCache C)
      → get_object clock_contents cache id ≡ ok answer
      → Keeps cache answer.1
  unfolding get_object
  get_object-Keeps cache id answer e = elim (Option-cases (get_override clock_contents cache id)) [
    | inl q ↦
        subst (λ (a : Option (SimObject C) × OverrideCache C). Keeps cache a.1)
          (ok_injective (rw (get_object, q) at e))
          (
            record_versioned-fallback cache id _,
            λ P now h.
                record_versioned-IsRecorded P cache id _ now (sym (with_fallback-ask cache id)) h,
          )
    | inr (r, q) ↦ by_kind r q r.object refl
  ]
    where
      by_kind :
          (r : ObjectReadResult C)
          → get_override clock_contents cache id ≡ some r
          → (kind : ObjectReadResultKind C) → r.object ≡ kind
          → Keeps cache answer.1
      by_kind r q (ObjectReadResultKind.object o) k =
          subst (λ (a : Option (SimObject C) × OverrideCache C). Keeps cache a.1)
            (ok_injective (rw (get_object, q, k) at e)) (refl, λ P now h. h)
      by_kind r q (ObjectReadResultKind.deleted_shared_object _ _) k =
          subst (λ (a : Option (SimObject C) × OverrideCache C). Keeps cache a.1)
            (ok_injective (rw (get_object, q, k) at e)) (refl, λ P now h. h)
      by_kind r q (ObjectReadResultKind.cancelled_transaction_shared_object _) k =
          ok_err_elim {m = "unreachable"} e (rw (get_object, q, k) refl)

  -- The cache after a child is read is the one after its look-up.
  read_child_object-get_object :
      (cache : OverrideCache C) (parent child bound : ℕ)
      (answer : Result (Option (SimObject C)) × OverrideCache C)
      → read_child_object clock_contents cache parent child bound ≡ ok answer
      → (found : Option (SimObject C)) × (get_object clock_contents cache child
          ≡ ok (found, answer.1))
  unfolding read_child_object find_object_lt_or_eq_version
  read_child_object-get_object cache parent child bound answer e =
      elim (Result-cases (get_object clock_contents cache child)) [
        | inr (m, q) ↦
            ok_err_elim {m = m} e (rw (read_child_object, find_object_lt_or_eq_version, q) refl)
        | inl ((none, c), q) ↦
            (none, moved none c q (rw (read_child_object, find_object_lt_or_eq_version, q) at e))
        | inl ((some o, c), q) ↦ elim (Bool-cases (leb o.version bound)) [
          | inl l ↦ (
            some o,
            moved (some o) c q (rw (read_child_object, find_object_lt_or_eq_version, q, l) at e),
          )
          | inr l ↦ (
            some o,
            moved (some o) c q (rw (read_child_object, find_object_lt_or_eq_version, q, l) at e),
          )
        ]
      ]
    where
      moved :
          (found : Option (SimObject C)) (c : OverrideCache C)
          → get_object clock_contents cache child ≡ ok (found, c)
          → {r : Result (Option (SimObject C))} → ok (r, c) ≡ ok answer
          → get_object clock_contents cache child ≡ ok (found, answer.1)
      moved found c q e' =
          subst (λ d. get_object clock_contents cache child ≡ ok (found, d))
            (ap (λ (a : Result (Option (SimObject C)) × OverrideCache C). a.1) (ok_injective e')) q

  after-Keeps :
      (cache : OverrideCache C) (e : Event C) (P : Option (WritebackCache C) → Type 0)
      (es : List (Event C))
      → All P (databases cache.fallback (e ∷ es))
      → IsRecorded P cache
      → All P (databases (after cache e).fallback es) × IsRecorded P (after cache e)
  unfolding get_versioned_object_for_comparison
  after-Keeps cache (Event.reads_object id) P es all h =
      elim (Result-cases (get_object clock_contents cache id)) [
        | inr (m, q) ↦ rw (after, q) (all, h)
        | inl (answer, q) ↦
            let (same, keeps) = get_object-Keeps cache id answer q in
            rw (after, q)
              (
                subst (λ f. All P (databases f es)) (sym same) all,
                keeps P (databases-All P cache.fallback es all) h,
              )
      ]
  after-Keeps cache (Event.reads_child parent child bound) P es all h =
      elim (Result-cases (read_child_object clock_contents cache parent child bound)) [
        | inr (m, q) ↦ rw (after, q) (all, h)
        | inl (answer, q) ↦
            let (found, e) = read_child_object-get_object cache parent child bound answer q in
            let (same, keeps) = get_object-Keeps cache child (found, answer.1) e in
            rw (after, q)
              (
                subst (λ f. All P (databases f es)) (sym same) all,
                keeps P (databases-All P cache.fallback es all) h,
              )
      ]
  after-Keeps cache (Event.updates database) P es all h = (all.1, h)

  run-IsRecorded :
      (P : Option (WritebackCache C) → Type 0) (es : List (Event C)) (cache : OverrideCache C)
      → All P (databases cache.fallback es)
      → IsRecorded P cache
      → IsRecorded P (run cache es)
  run-IsRecorded P [] cache all h = h
  run-IsRecorded P (e ∷ es) cache all h =
      let (all', h') = after-Keeps cache e P es all h in run-IsRecorded P es (after cache e) all' h'

  -- Whatever was asked of a new cache, and however the database changed under it meanwhile: what the
  -- cache recorded under an id and a version has this version, and was under this id in one of the
  -- databases that there were.
  pub get_versioned_object_for_comparison-some :
      (fallback : Option (WritebackCache C)) (overrides : List (ObjectReadResult C))
      (es : List (Event C)) (id version : ℕ) (o : SimObject C)
      → get_versioned_object_for_comparison (run (new fallback overrides) es) id version ≡ some o
      → Any (λ database. ask database id ≡ some o) (databases fallback es) × (o.version ≡ version)
  unfolding get_versioned_object_for_comparison
  get_versioned_object_for_comparison-some fallback overrides es id version o e =
      let P : Option (WritebackCache C) → Type 0 =
        λ d. Any (λ database. database ≡ d) (databases fallback es) in
      let ((d, known, found), at_version) =
        run-IsRecorded P es (new fallback overrides)
          (All-members P (databases fallback es) (λ d m. m)) (λ i v p q. absurd cc) id version o
          e in
      (
        Any-imp _ _ (λ database q. ap (λ f. ask f id) q ∙ found) (databases fallback es) known,
        at_version,
      )
