-- ===== src/ObjectPool.antt =====
-- `crates/object-pool/src/lib.rs`. An object is known by its place in the list, and the state is the
-- count of its references, that of the pool included.
pub mod Even
use poison_dart.Base.{ℕ, zero, suc, Option, none, some, List, [], ◌∷◌, leb, ◌==◌, if◌then◌else◌}

abbrev pub ObjectPool : Type 0
ObjectPool = List ℕ

unfoldable pub new : (num_objects : ℕ) → ObjectPool
new zero = []
new (suc n) = 1 ∷ new n

-- `min_by_key(|obj| Arc::strong_count(obj))`, of which this is the count.
unfoldable pub min_count : ObjectPool → Option ℕ
min_count [] = none
min_count (c ∷ cs) = elim (min_count cs) [
  | none ↦ some c
  | some m ↦ some (if leb c m then c else m)
]

-- The first object with this count is cloned: its place, and the counts after it.
unfoldable pub clone_first : ℕ → ObjectPool → Option (ℕ × ObjectPool)
clone_first m [] = none
clone_first m (c ∷ cs) =
    let rest = clone_first m cs in
    if c == m
    then some (0, suc c ∷ cs)
    else elim rest [ none ↦ none | some (i, ds) ↦ some (suc i, c ∷ ds) ]

-- Without an object `unwrap` panics: none.
unfoldable pub get : ObjectPool → Option (ℕ × ObjectPool)
unfolding min_count clone_first
get pool = elim (min_count pool) [ none ↦ none | some m ↦ clone_first m pool ]
