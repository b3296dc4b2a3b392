-- ===== src/Index/Cache/Found.antt =====
-- What is found in the index, of the pools that were added to it.
use poison_dart.Base.{
  ℕ, ◌≡◌, ◌∙◌, ◌⊎◌, ◌↔◌, refl, sym, ap, subst, inl, inr, Option, none, some, List, [], ◌∷◌, map,
  String, All, All-Any_elim, All-members, Any, Any-imp, Bool-cases, if◌then◌else◌, str_dec, ◌==◌,
  arith,
}
use poison_dart.Base.Texts.{str_lt, str_lt-cases}
use poison_dart.Index.{Pool, Token, token01_pairs}
use poison_dart.Index.Pairs.{AreInOrder, token01_pairs-AreInOrder}
use poison_dart.Index.Cache.{
  PoolCache, new, add_pool, add_pools, file_all, token_keys, pair_keys, pair_dec, token01_key,
  get_pools_by_token, get_pools_by_token01, get_pool_by_id,
}
use poison_dart.Index.Cache.Filed.{
  Finds, AllFiled, file_all-AllFiled, file_all_keeps, file_all-Finds,
}

-- One of the maps of the cache.
module _ {K : Type 0} (key_dec : (a b : K) → Dec (a ≡ b)) (keys : Pool → List K)
    (view : PoolCache → K → Option (List Pool)) (view_new : (k : K) → view new k ≡ none)
    (view_add : (cache : PoolCache) (p : Pool)
      → view (add_pool cache p) ≡ file_all key_dec (view cache) (keys p) p) where
  add_pools-AllFiled :
      (P : K → Pool → Type 0) (cache : PoolCache) (pools : List Pool)
      → All (λ p. All (λ key. P key p) (keys p)) pools
      → AllFiled P (view cache)
      → AllFiled P (view (add_pools cache pools))
  unfolding add_pools
  add_pools-AllFiled P cache [] x h = h
  add_pools-AllFiled P cache (p ∷ pools) x h = add_pools-AllFiled P (add_pool cache p) pools x.1 (
      subst (AllFiled P) (sym (view_add cache p))
        (file_all-AllFiled key_dec P (view cache) (keys p) p x.0 h))

  add_pools_keeps :
      (cache : PoolCache) (pools : List Pool) (k : K) (id : ℕ)
      → Finds (view cache k) id
      → Finds (view (add_pools cache pools) k) id
  unfolding add_pools
  add_pools_keeps cache [] k id h = h
  add_pools_keeps cache (p ∷ pools) k id h = add_pools_keeps (add_pool cache p) pools k id (
      subst (λ m. Finds (m k) id) (sym (view_add cache p))
        (file_all_keeps key_dec (view cache) (keys p) p k id h))

  add_pools-Finds :
      (cache : PoolCache) (pools : List Pool) (k : K) (id : ℕ)
      → Any (λ p. (p.pool ≡ id) × Any (λ j. j ≡ k) (keys p)) pools
      → Finds (view (add_pools cache pools) k) id
  unfolding add_pools
  add_pools-Finds cache [] k id h = absurd h
  add_pools-Finds cache (p ∷ pools) k id (inl (e, h)) =
      add_pools_keeps (add_pool cache p) pools k id (
        subst (λ m. Finds (m k) id) (sym (view_add cache p))
          (subst (Finds (file_all key_dec (view cache) (keys p) p k)) e
            (file_all-Finds key_dec (view cache) (keys p) p k h)))
  add_pools-Finds cache (p ∷ pools) k id (inr h) = add_pools-Finds (add_pool cache p) pools k id h

  view_iff :
      (pools : List Pool) (k : K) (id : ℕ)
      → Finds (view (add_pools new pools) k) id
        ↔ Any (λ p. (p.pool ≡ id) × Any (λ j. j ≡ k) (keys p)) pools
  view_iff pools k id = (
    λ (ps, e, h).
        All-Any_elim (P k) (λ q. q.pool ≡ id)
          (λ q s e'. Any-imp _ _ (λ p x. (x.0 ∙ e', x.1)) pools s) ps
          (add_pools-AllFiled P new pools
            (All-members _ pools (λ p m. All-members _ (keys p) (λ key n.
              Any-imp _ _
                (λ p' e'. (
                  ap (λ (r : Pool). r.pool) e',
                  subst (λ r. Any (λ j. j ≡ key) (keys r)) (sym e') n,
                ))
                pools m)))
            (λ key qs e'. absurd (let q : view new key ≡ none = view_new key in cc)) k ps e)
          h,
    add_pools-Finds new pools k id,
  )
    where
      P : K → Pool → Type 0
      P key q = Any (λ p. (p.pool ≡ q.pool) × Any (λ j. j ≡ key) (keys p)) pools

map-Any :
    {A B : Type 0} (f : A → B) (P : B → Type 0) (xs : List A)
    → Any P (map f xs)
    → Any (λ x. P (f x)) xs
map-Any f P [] h = absurd h
map-Any f P (x ∷ xs) (inl h) = inl h
map-Any f P (x ∷ xs) (inr h) = inr (map-Any f P xs h)

Any-map :
    {A B : Type 0} (f : A → B) (P : B → Type 0) (xs : List A)
    → Any (λ x. P (f x)) xs
    → Any P (map f xs)
Any-map f P [] h = absurd h
Any-map f P (x ∷ xs) (inl h) = inl h
Any-map f P (x ∷ xs) (inr h) = inr (Any-map f P xs h)

-- After pools were added, by loading them or by their events, exactly those are found under a token
-- that have it, each by its id.
pub get_pools_by_token-Finds :
    (pools : List Pool) (token_type : String) (id : ℕ)
    → Finds (get_pools_by_token (add_pools new pools) token_type) id
      ↔ Any (λ p. (p.pool ≡ id) × Any (λ (t : Token). t.token_type ≡ token_type) p.tokens) pools
unfolding get_pools_by_token token_keys add_pool
get_pools_by_token-Finds pools token_type id = (
  λ h.
      Any-imp _ _
        (λ p (e, k). (e, map-Any (λ (t : Token). t.token_type) (λ j. j ≡ token_type) p.tokens k))
        pools ((by_token pools).0 h),
  λ h. (by_token pools).1 (
      Any-imp _ _
        (λ p (e, k). (e, Any-map (λ (t : Token). t.token_type) (λ j. j ≡ token_type) p.tokens k))
        pools h),
)
  where
    by_token :
        (pools : List Pool)
        → Finds ((add_pools new pools).token_pools token_type) id
          ↔ Any (λ p. (p.pool ≡ id) × Any (λ j. j ≡ token_type) (token_keys p)) pools
    by_token pools =
        view_iff str_dec token_keys (λ cache. cache.token_pools) (λ k. refl) (λ cache p. refl) pools
          token_type id

token01_key_comm : (a b : String) → token01_key a b ≡ token01_key b a
unfolding token01_key
token01_key_comm a b = elim (str_lt-cases a b) [
  | inl (e, f) ↦ rw (token01_key, e, f) refl
  | inr (inl (e, f)) ↦ rw (token01_key, e, f) refl
  | inr (inr e) ↦ λ i. token01_key (e i) (sym e i)
]

abbrev Same : (p q : String × String) → Type 0
Same p q = p ≡ q

-- The key of two tokens tells which two they are.
token01_key-cases :
    (c d a b : String) → token01_key c d ≡ token01_key a b → Same (c, d) (a, b) ⊎ Same (c, d) (b, a)
unfolding token01_key
token01_key-cases c d a b e = elim (Bool-cases (str_lt c d)) [
  | inl q ↦ elim (Bool-cases (str_lt a b)) [
    | inl r ↦ inl (rw (token01_key, q, r) at e)
    | inr r ↦ inr (rw (token01_key, q, r) at e)
  ]
  | inr q ↦ elim (Bool-cases (str_lt a b)) [
    | inl r ↦ inr (swapped (rw (token01_key, q, r) at e))
    | inr r ↦ inl (swapped (rw (token01_key, q, r) at e))
  ]
]
  where
    swapped : {a b c d : String} → Same (d, c) (a, b) → Same (c, d) (b, a)
    swapped e = λ i. ((e i).1, (e i).0)

abbrev pub AreTogether : (token0_type token1_type : String) → Pool → Type 0
AreTogether a b p = AreInOrder p.tokens (a, b) ⊎ AreInOrder p.tokens (b, a)

Any-pick :
    {A : Type 0} (P : A → Type 0) (xs : List A) → Any P xs → (x : A) × P x × Any (λ y. y ≡ x) xs
Any-pick P [] h = absurd h
Any-pick P (x ∷ xs) (inl h) = (x, h, inl refl)
Any-pick P (x ∷ xs) (inr h) = let (y, k, m) = Any-pick P xs h in (y, k, inr m)

pair_keys-AreTogether :
    (p : Pool) (a b : String) → Any (λ j. j ≡ token01_key a b) (pair_keys p) ↔ AreTogether a b p
unfolding pair_keys
pair_keys-AreTogether p a b = (
  λ h.
      let (pair, e, m) =
        Any-pick (λ q. key q ≡ token01_key a b) (token01_pairs p)
          (map-Any key (λ j. j ≡ token01_key a b) (token01_pairs p) h) in
      elim (token01_key-cases pair.0 pair.1 a b e) [
        | inl q ↦ inl (subst (AreInOrder p.tokens) q ((token01_pairs-AreInOrder p pair).0 m))
        | inr q ↦ inr (subst (AreInOrder p.tokens) q ((token01_pairs-AreInOrder p pair).0 m))
      ],
  λ h.
      Any-map key (λ j. j ≡ token01_key a b) (token01_pairs p)
        (elim h [
          | inl k ↦
              Any-imp _ _ (λ q e. ap key e) (token01_pairs p)
                ((token01_pairs-AreInOrder p (a, b)).1 k)
          | inr k ↦
              Any-imp _ _ (λ q e. ap key e ∙ token01_key_comm b a) (token01_pairs p)
                ((token01_pairs-AreInOrder p (b, a)).1 k)
        ]),
)
  where
    key : String × String → String × String
    key pair = token01_key pair.0 pair.1

-- After pools were added, exactly those are found under two tokens, in whatever order these are
-- given, that have both.
pub get_pools_by_token01-Finds :
    (pools : List Pool) (token0_type token1_type : String) (id : ℕ)
    → Finds (get_pools_by_token01 (add_pools new pools) token0_type token1_type) id
      ↔ Any (λ p. (p.pool ≡ id) × AreTogether token0_type token1_type p) pools
unfolding get_pools_by_token01 add_pool
get_pools_by_token01-Finds pools a b id = (
  λ h. Any-imp _ _ (λ p (e, k). (e, (pair_keys-AreTogether p a b).0 k)) pools (by_pair.0 h),
  λ h. by_pair.1 (Any-imp _ _ (λ p (e, k). (e, (pair_keys-AreTogether p a b).1 k)) pools h),
)
  where
    by_pair :
        Finds ((add_pools new pools).token01_pools (token01_key a b)) id
        ↔ Any (λ p. (p.pool ≡ id) × Any (λ j. j ≡ token01_key a b) (pair_keys p)) pools
    by_pair =
        view_iff pair_dec pair_keys (λ cache. cache.token01_pools) (λ k. refl) (λ cache p. refl)
          pools (token01_key a b) id

-- The last pool with an id.
abbrev pub latest : ℕ → List Pool → Option Pool
latest id [] = none
latest id (p ∷ ps) = elim (latest id ps) [
  | some q ↦ some q
  | none ↦ if id == p.pool then some p else none
]

by_id :
    (cache : PoolCache) (pools : List Pool) (id : ℕ)
    → get_pool_by_id (add_pools cache pools) id
      ≡ elim (latest id pools) [ some p ↦ some p | none ↦ get_pool_by_id cache id ]
unfolding add_pools add_pool get_pool_by_id
by_id cache [] id = refl
by_id cache (p ∷ ps) id = by_id (add_pool cache p) ps id ∙ ground arith

-- A pool is found by its id as it was added last.
pub get_pool_by_id-latest :
    (pools : List Pool) (id : ℕ) → get_pool_by_id (add_pools new pools) id ≡ latest id pools
unfolding get_pool_by_id
get_pool_by_id-latest pools id = by_id new pools id ∙ ground arith
