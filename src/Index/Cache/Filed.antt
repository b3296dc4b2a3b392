-- ===== src/Index/Cache/Filed.antt =====
-- A map from keys to pools, as the pools are filed.
use poison_dart.Base.{
  ℕ, ◌≡◌, ◌∙◌, refl, sym, ap, subst, inl, inr, true, Option, none, some, List, [], ◌∷◌, All, Any,
  Bool-cases, ◌==◌, some_injective, if_pos, if_neg, arith,
}
use poison_dart.Index.{Pool}
use poison_dart.Index.Cache.{contains, insert_pool, file_under, file_all}

-- A pool with this id is in the list.
abbrev pub Has : ℕ → List Pool → Type 0
Has id = Any (λ p. p.pool ≡ id)

abbrev pub Finds : Option (List Pool) → ℕ → Type 0
Finds found id = (pools : List Pool) × (found ≡ some pools) × Has id pools

contains-Has : (id : ℕ) (ps : List Pool) → contains id ps ≡ true → Has id ps
unfolding contains
contains-Has id [] h = absurd cc
contains-Has id (p ∷ ps) h = elim (Bool-cases (p.pool == id)) [
  | inl e ↦ inl (ground arith)
  | inr e ↦ inr (contains-Has id ps (rw (contains, e) at h))
]

insert_pool-Has : (p : Pool) (ps : List Pool) → Has p.pool (insert_pool p ps)
unfolding insert_pool
insert_pool-Has p ps = elim (Bool-cases (contains p.pool ps)) [
  | inl e ↦ rw (insert_pool, e) (contains-Has p.pool ps e)
  | inr e ↦ rw (insert_pool, e) (inl refl)
]

insert_pool-keeps : (p : Pool) (ps : List Pool) (id : ℕ) → Has id ps → Has id (insert_pool p ps)
unfolding insert_pool
insert_pool-keeps p ps id h = elim (Bool-cases (contains p.pool ps)) [
  | inl e ↦ rw (insert_pool, e) h
  | inr e ↦ rw (insert_pool, e) (inr h)
]

insert_pool-All :
    (P : Pool → Type 0) (p : Pool) (ps : List Pool) → P p → All P ps → All P (insert_pool p ps)
unfolding insert_pool
insert_pool-All P p ps x h = elim (Bool-cases (contains p.pool ps)) [
  | inl e ↦ rw (insert_pool, e) h
  | inr e ↦ rw (insert_pool, e) (x, h)
]

abbrev stored : {K : Type 0} → (K → Option (List Pool)) → K → List Pool
stored m key = elim (m key) [ some pools ↦ pools | none ↦ [] ]

-- What is filed under a key has the property.
abbrev pub AllFiled : {K : Type 0} → (K → Pool → Type 0) → (K → Option (List Pool)) → Type 0
AllFiled P m = (key : _) (ps : List Pool) → m key ≡ some ps → All (P key) ps

module _ {K : Type 0} (key_dec : (a b : K) → Dec (a ≡ b)) where
  file_under-AllFiled :
      (P : K → Pool → Type 0) (m : K → Option (List Pool)) (key : K) (p : Pool)
      → P key p
      → AllFiled P m
      → AllFiled P (file_under key_dec m key p)
  unfolding file_under
  file_under-AllFiled P m key p x h j ps e = elim (key_dec j key) [
    | no n ↦ h j ps (rw (file_under, if_neg (key_dec j key) n) at e)
    | yes q ↦
        let e' : some (insert_pool p (stored m key)) ≡ some ps =
          rw (file_under, if_pos (key_dec j key) q) at e in
        subst (λ k. All (P k) ps) (sym q)
          (subst (All (P key)) (some_injective e')
            (insert_pool-All (P key) p _ x (before (m key) refl)))
  ]
    where
      before :
          (o : Option (List Pool))
          → m key ≡ o
          → All (P key) (elim o [ some pools ↦ pools | none ↦ [] ])
      before none e = tt
      before (some pools) e = h key pools e

  pub file_all-AllFiled :
      (P : K → Pool → Type 0) (m : K → Option (List Pool)) (keys : List K) (p : Pool)
      → All (λ key. P key p) keys
      → AllFiled P m
      → AllFiled P (file_all key_dec m keys p)
  unfolding file_all
  file_all-AllFiled P m [] p x h = h
  file_all-AllFiled P m (key ∷ keys) p x h =
      file_all-AllFiled P (file_under key_dec m key p) keys p x.1
        (file_under-AllFiled P m key p x.0 h)

  file_under-Finds :
      (m : K → Option (List Pool)) (key : K) (p : Pool)
      → Finds (file_under key_dec m key p key) p.pool
  unfolding file_under
  file_under-Finds m key p =
      (insert_pool p (stored m key), if_pos (key_dec key key) refl _ _, insert_pool-Has p _)

  file_under_keeps :
      (m : K → Option (List Pool)) (key : K) (p : Pool) (j : K) (id : ℕ)
      → Finds (m j) id
      → Finds (file_under key_dec m key p j) id
  unfolding file_under
  file_under_keeps m key p j id (ps, e, h) = elim (key_dec j key) [
    | no n ↦ (ps, if_neg (key_dec j key) n _ _ ∙ e, h)
    | yes q ↦ (
      insert_pool p (stored m key),
      if_pos (key_dec j key) q _ _,
      insert_pool-keeps p _ id (
          subst (λ o. Has id (elim o [ some pools ↦ pools | none ↦ [] ])) (sym (ap m (sym q) ∙ e))
            h),
    )
  ]

  pub file_all_keeps :
      (m : K → Option (List Pool)) (keys : List K) (p : Pool) (j : K) (id : ℕ)
      → Finds (m j) id
      → Finds (file_all key_dec m keys p j) id
  unfolding file_all
  file_all_keeps m [] p j id h = h
  file_all_keeps m (key ∷ keys) p j id h =
      file_all_keeps (file_under key_dec m key p) keys p j id (file_under_keeps m key p j id h)

  pub file_all-Finds :
      (m : K → Option (List Pool)) (keys : List K) (p : Pool) (j : K)
      → Any (λ key. key ≡ j) keys
      → Finds (file_all key_dec m keys p j) p.pool
  unfolding file_all
  file_all-Finds m [] p j h = absurd h
  file_all-Finds m (key ∷ keys) p j (inl e) =
      file_all_keeps (file_under key_dec m key p) keys p j p.pool
        (subst (λ k. Finds (file_under key_dec m key p k) p.pool) e (file_under-Finds m key p))
  file_all-Finds m (key ∷ keys) p j (inr h) = file_all-Finds (file_under key_dec m key p) keys p j h
