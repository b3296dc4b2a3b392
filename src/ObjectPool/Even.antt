-- ===== src/ObjectPool/Even.antt =====
-- The objects are handed out evenly.
use poison_dart.Base.{
  ℕ, zero, suc, ◌+◌, ◌≤◌, ◌≡◌, sym, subst, inl, inr, none, some, [], ◌∷◌, All, All-imp, leb, ◌==◌,
  Bool-cases, Option-cases, some_injective, arith,
}
use poison_dart.ObjectPool.{ObjectPool, new, min_count, clone_first, get}

-- No object has two references more than another.
abbrev pub IsEven : ObjectPool → Type 0
IsEven pool = (low : ℕ) × All (λ c. (low ≤ c) × (c ≤ low + 1)) pool

-- No count is below the least one, which is there.
min_count_lem : (pool : ObjectPool) (m : ℕ) → min_count pool ≡ some m → All (λ c. m ≤ c) pool
unfolding min_count
min_count_lem [] m e = absurd cc
min_count_lem (c ∷ cs) m e = elim (Option-cases (min_count cs)) [
  | inl q ↦ (ground arith, none_below cs q)
  | inr (k, q) ↦ elim (Bool-cases (leb c k)) [
    | inl l ↦
        let same : c ≡ m = some_injective (rw (min_count, q, l) at e) in
        (omega arith, All-imp _ _ (λ d h. ground arith) cs (min_count_lem cs k q))
    | inr l ↦
        let same : k ≡ m = some_injective (rw (min_count, q, l) at e) in
        (ground arith, All-imp _ _ (λ d h. omega arith) cs (min_count_lem cs k q))
  ]
]
  where
    none_below : (cs : ObjectPool) → min_count cs ≡ none → All (λ c. m ≤ c) cs
    none_below [] q = tt
    none_below (d ∷ ds) q = absurd (ground arith)

min_count-All :
    (P : ℕ → Type 0) (pool : ObjectPool) (m : ℕ) → All P pool → min_count pool ≡ some m → P m
unfolding min_count
min_count-All P [] m h e = absurd cc
min_count-All P (c ∷ cs) m h e = elim (Option-cases (min_count cs)) [
  | inl q ↦ subst P (some_injective (rw (min_count, q) at e)) h.0
  | inr (k, q) ↦ elim (Bool-cases (leb c k)) [
    | inl l ↦ subst P (some_injective (rw (min_count, q, l) at e)) h.0
    | inr l ↦ subst P (some_injective (rw (min_count, q, l) at e)) (min_count-All P cs k h.1 q)
  ]
]

clone_first-All :
    (P : ℕ → Type 0) (m : ℕ) (pool : ObjectPool) (answer : ℕ × ObjectPool)
    → All P pool
    → P (suc m)
    → clone_first m pool ≡ some answer
    → All P answer.1
unfolding clone_first
clone_first-All P m [] answer h k e = absurd cc
clone_first-All P m (c ∷ cs) answer h k e = elim (Bool-cases (c == m)) [
  | inl l ↦
      let at_m : c ≡ m = ground arith in
      subst (λ (a : ℕ × ObjectPool). All P a.1) (some_injective (rw (clone_first, l) at e))
        (subst (λ n. P (suc n)) (sym at_m) k, h.1)
  | inr l ↦ elim (Option-cases (clone_first m cs)) [
    | inl q ↦ let e' = rw (clone_first, l, q) at e in absurd cc
    | inr (a, q) ↦
        subst (λ (a : ℕ × ObjectPool). All P a.1) (some_injective (rw (clone_first, l, q) at e))
          (h.0, clone_first-All P m cs a h.1 k q)
  ]
]

get-IsEven :
    (pool : ObjectPool) (answer : ℕ × ObjectPool)
    → IsEven pool
    → get pool ≡ some answer
    → IsEven answer.1
unfolding get
get-IsEven pool answer (low, h) e = elim (Option-cases (min_count pool)) [
  | inl q ↦ let e' = rw (get, q) at e in absurd cc
  | inr (m, q) ↦
      let (below, above) = min_count-All (λ c. (low ≤ c) × (c ≤ low + 1)) pool m h q in
      (
        m,
        clone_first-All (λ c. (m ≤ c) × (c ≤ m + 1)) m pool answer
            (All-both m low pool below (min_count_lem pool m q) h) (omega arith, omega arith)
            (rw (get, q) at e),
      )
]
  where
    All-both :
        (m low : ℕ) (cs : ObjectPool)
        → low ≤ m
        → All (λ c. m ≤ c) cs
        → All (λ c. (low ≤ c) × (c ≤ low + 1)) cs
        → All (λ c. (m ≤ c) × (c ≤ m + 1)) cs
    All-both m low [] l h k = tt
    All-both m low (c ∷ cs) l h k =
        let top : c ≤ low + 1 = k.0.1 in ((h.0, omega arith), All-both m low cs l h.1 k.1)

-- The pool after some objects were handed out.
abbrev pub gets : ℕ → ObjectPool → ObjectPool
gets zero pool = pool
gets (suc k) pool = elim (get pool) [ some answer ↦ gets k answer.1 | none ↦ pool ]

gets_lem : (k : ℕ) (pool : ObjectPool) → IsEven pool → IsEven (gets k pool)
gets_lem zero pool h = h
gets_lem (suc k) pool h = elim (Option-cases (get pool)) [
  | inl q ↦ rw (gets, q) h
  | inr (answer, q) ↦ rw (gets, q) (gets_lem k answer.1 (get-IsEven pool answer h q))
]

new-IsEven : (n : ℕ) → All (λ c. (1 ≤ c) × (c ≤ 1 + 1)) (new n)
unfolding new
new-IsEven zero = tt
new-IsEven (suc n) = ((omega arith, omega arith), new-IsEven n)

-- However many objects a new pool hands out, as long as none is given back, the counts of any two
-- objects differ by one at most.
pub gets-IsEven : (num_objects k : ℕ) → IsEven (gets k (new num_objects))
gets-IsEven num_objects k = gets_lem k (new num_objects) (1, new-IsEven num_objects)
