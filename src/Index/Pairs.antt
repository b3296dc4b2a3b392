-- ===== src/Index/Pairs.antt =====
-- The pairs of tokens under which a pool is filed.
use poison_dart.Base.{
  ℕ, zero, suc, ◌<◌, ◌≡◌, ◌↔◌, refl, ap, inl, inr, some, List, [], ◌∷◌, ◌++◌, map, String, Any,
  Any-append_left, Any-append_right, get_elem?, some_injective, arith, ◌⊎◌, subst,
}
use poison_dart.Index.{Token, Pool, pairs_of, token01_pairs}

-- Two tokens of a list, the first one before the second.
abbrev pub AreInOrder : List Token → String × String → Type 0
AreInOrder ts (a, b) =
    (i : ℕ) × (j : ℕ) × (t : Token) × (u : Token) × (i < j)
    × (get_elem? ts i ≡ some t)
    × (get_elem? ts j ≡ some u)
    × (t.token_type ≡ a)
    × (u.token_type ≡ b)

Any-append_elim :
    {A : Type 0} (P : A → Type 0) (xs ys : List A) → Any P (xs ++ ys) → Any P xs ⊎ Any P ys
Any-append_elim P [] ys h = inr h
Any-append_elim P (x ∷ xs) ys (inl h) = inl (inl h)
Any-append_elim P (x ∷ xs) ys (inr h) = elim (Any-append_elim P xs ys h) [
  | inl k ↦ inl (inr k)
  | inr k ↦ inr k
]

later :
    (t : Token) (us : List Token) (p : String × String)
    → Any (λ q. q ≡ p) (map (λ (u : Token). (t.token_type, u.token_type)) us)
    → (j : ℕ) × (u : Token) × (get_elem? us j ≡ some u)
      × (t.token_type ≡ p.0)
      × (u.token_type ≡ p.1)
later t [] p h = absurd h
later t (u ∷ us) p (inl h) =
    (0, u, refl, ap (λ (q : String × String). q.0) h, ap (λ (q : String × String). q.1) h)
later t (u ∷ us) p (inr h) = let (j, v, e, a, b) = later t us p h in (suc j, v, e, a, b)

later_member :
    (t : Token) (us : List Token) (j : ℕ) (u : Token)
    → get_elem? us j ≡ some u
    → Any
        (λ (q : String × String). q ≡ (t.token_type, u.token_type))
        (map (λ (v : Token). (t.token_type, v.token_type)) us)
later_member t [] j u e = absurd cc
later_member t (v ∷ us) zero u e =
    inl (ap (λ (w : Token). (t.token_type, w.token_type)) (some_injective e))
later_member t (v ∷ us) (suc j) u e = inr (later_member t us j u e)

pairs_of-AreInOrder :
    (ts : List Token) (p : String × String) → Any (λ q. q ≡ p) (pairs_of ts) → AreInOrder ts p
unfolding pairs_of
pairs_of-AreInOrder [] p h = absurd h
pairs_of-AreInOrder (t ∷ ts) p h =
    elim (Any-append_elim (λ q. q ≡ p) (map (λ (u : Token). (t.token_type, u.token_type)) ts)
      (pairs_of ts) h) [
        | inl k ↦
            let (j, u, e, a, b) = later t ts p k in (0, suc j, t, u, omega arith, refl, e, a, b)
        | inr k ↦
            let (i, j, u, v, l, e, e', a, b) = pairs_of-AreInOrder ts p k in
            (suc i, suc j, u, v, omega arith, e, e', a, b)
      ]

pairs_of_member :
    (ts : List Token) (i j : ℕ) (t u : Token)
    → i < j
    → get_elem? ts i ≡ some t
    → get_elem? ts j ≡ some u
    → Any (λ (q : String × String). q ≡ (t.token_type, u.token_type)) (pairs_of ts)
unfolding pairs_of
pairs_of_member [] i j t u l e e' = absurd cc
pairs_of_member (v ∷ ts) zero zero t u l e e' = absurd (omega arith)
pairs_of_member (v ∷ ts) zero (suc j) t u l e e' =
    Any-append_left (λ (q : String × String). q ≡ (t.token_type, u.token_type))
      (map (λ (w : Token). (v.token_type, w.token_type)) ts) (pairs_of ts)
      (subst
        (λ (x : Token).
          Any (λ (q : String × String). q ≡ (x.token_type, u.token_type))
            (map (λ (w : Token). (v.token_type, w.token_type)) ts))
        (some_injective e) (later_member v ts j u e'))
pairs_of_member (v ∷ ts) (suc i) zero t u l e e' = absurd (omega arith)
pairs_of_member (v ∷ ts) (suc i) (suc j) t u l e e' =
    Any-append_right (λ (q : String × String). q ≡ (t.token_type, u.token_type))
      (map (λ (w : Token). (v.token_type, w.token_type)) ts) (pairs_of ts)
      (pairs_of_member ts i j t u (omega arith) e e')

-- A pool is filed under exactly the pairs of types of two of its tokens, in the order in which the
-- pool has them.
pub token01_pairs-AreInOrder :
    (pool : Pool) (p : String × String)
    → Any (λ q. q ≡ p) (token01_pairs pool) ↔ AreInOrder pool.tokens p
unfolding token01_pairs
token01_pairs-AreInOrder pool p = (
  pairs_of-AreInOrder pool.tokens p,
  λ (i, j, t, u, l, e, e', a, b).
      subst (λ (q : String × String). Any (λ r. r ≡ q) (pairs_of pool.tokens))
        (let same : (t.token_type, u.token_type) ≡ p = cc in same)
        (pairs_of_member pool.tokens i j t u l e e'),
)
