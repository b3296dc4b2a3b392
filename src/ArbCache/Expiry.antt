-- ===== src/ArbCache/Expiry.antt =====
-- What the cache holds at a time: the entries that have not expired; and `remove_expired`.
use poison_dart.Base.{
  ℕ, ◌⊎◌, if_pos, if_neg, ◌≤◌, ◌<◌, ◌≡◌, ◌↔◌, refl, sym, ap, inl, inr, Option, none, some, List, [],
  ◌∷◌, String, true, leb, if◌then◌else◌, fun_ext, arith, All, Any, str_dec, Option-cases,
  Bool-cases,
}
use poison_dart.Base.Map
use poison_dart.Base.Map.{Map}
use poison_dart.ArbCache.{ArbCache, ArbEntry, HeapItem, remove_expired, remove_expired_loop}
use poison_dart.ArbCache.Invariant.{Tied, IsValid, absent, stale, current, look, top_earliest}

module _ {ℓ} {Ctx : Type ℓ} where
  abbrev pub unless_expired : ℕ → Option (ArbEntry Ctx) → Option (ArbEntry Ctx)
  unless_expired now none = none
  unless_expired now (some e) = if leb e.expires_at now then none else some e

  -- The abstract cache: each coin with its entry, if that is still alive at `now`.
  abbrev pub alive : ℕ → Map (ArbEntry Ctx) → Map (ArbEntry Ctx)
  alive now m k = unless_expired now (m k)

  pub alive_empty : {m : Map (ArbEntry Ctx)} → Tied m [] → (k : String) → m k ≡ none
  alive_empty {m} t k = elim (Option-cases (m k)) [
    | inl p ↦ p
    | inr (e, p) ↦ absurd (t.covered k e p)
  ]

  -- To remove an expired entry changes nothing in the abstract cache.
  pub alive-remove :
      (now : ℕ) (m : Map (ArbEntry Ctx)) (coin : String) (e : ArbEntry Ctx)
      → m coin ≡ some e
      → leb e.expires_at now ≡ true
      → alive now (Map.remove m coin) ≡ alive now m
  alive-remove now m coin e p q = fun_ext (λ k. elim (str_dec k coin) [
    | yes r ↦ rw (if_pos (str_dec k coin) r) (ground (arith, ap m r))
    | no r ↦ rw (if_neg (str_dec k coin) r)
  ])

  -- If the entry at the top is alive, all are.
  pub alive_all :
      (now : ℕ) {m : Map (ArbEntry Ctx)} {top : HeapItem} {heap : List HeapItem}
      → Tied m (top ∷ heap)
      → now < top.expires_at
      → alive now m ≡ m
  alive_all now {m} t h = fun_ext (λ k. elim (Option-cases (m k)) [
    | inl p ↦ rw p
    | inr (e, p) ↦ rw p (ground (arith, top_earliest t p))
  ])

  remove_expired_loop-All :
      (P : HeapItem → Type 0) (now : ℕ) (heap : List HeapItem) (m : Map (ArbEntry Ctx))
      → All P heap
      → All P (remove_expired_loop now heap m).1.1
  unfolding remove_expired_loop
  remove_expired_loop-All P now [] m h = tt
  remove_expired_loop-All P now (top ∷ heap) m h = ground (
    arith,
    remove_expired_loop-All P now heap m h.1,
    remove_expired_loop-All P now heap (Map.remove m top.coin) h.1,
  )

  remove_expired_loop-alive :
      (now : ℕ) (heap : List HeapItem) (m : Map (ArbEntry Ctx))
      → Tied m heap
      → ((remove_expired_loop now heap m).1.0 ≡ alive now m)
        × Tied (remove_expired_loop now heap m).1.0 (remove_expired_loop now heap m).1.1
  unfolding remove_expired_loop
  remove_expired_loop-alive now [] m t = (fun_ext (λ k. rw (alive_empty t k)), t)
  remove_expired_loop-alive now (top ∷ heap) m t = elim (look t) [
    | absent p t' ↦ rw (p, remove_expired_loop) (remove_expired_loop-alive now heap m t')
    | stale e p g t' ↦ rw (p, remove_expired_loop, g) (remove_expired_loop-alive now heap m t')
    | current e p g s t' ↦ elim (Bool-cases (leb e.expires_at now)) [
      | inl x ↦
          rw (p, remove_expired_loop, g, x, ← alive-remove now m top.coin e p x)
            (remove_expired_loop-alive now heap (Map.remove m top.coin) t')
      | inr x ↦ rw (p, remove_expired_loop, g, x) (sym (alive_all now t (ground arith)), t)
    ]
  ]

  abbrev pub IsExpired : ℕ → Option (ArbEntry Ctx) → Type 0
  IsExpired now none = ⊥
  IsExpired now (some e) = e.expires_at ≤ now

  IsExpired-remove_iff :
      (now : ℕ) (m : Map (ArbEntry Ctx)) (coin : String) (e : ArbEntry Ctx)
      → m coin ≡ some e
      → leb e.expires_at now ≡ true
      → (k : String) → ((coin ≡ k) ⊎ IsExpired now (Map.remove m coin k)) ↔ IsExpired now (m k)
  IsExpired-remove_iff now m coin e p x k = elim (str_dec k coin) [
    | yes r ↦ rw (if_pos (str_dec k coin) r, r, p) ((λ _. ground arith), (λ _. inl refl))
    | no r ↦
        rw (if_neg (str_dec k coin) r)
          ((λ h. elim h [ inl q ↦ absurd (r (sym q)) | inr q ↦ q ]), inr)
  ]

  none-IsExpired :
      (now : ℕ) {m : Map (ArbEntry Ctx)} {top : HeapItem} {heap : List HeapItem}
      → Tied m (top ∷ heap)
      → now < top.expires_at
      → (k : String) → ¬ IsExpired now (m k)
  none-IsExpired now {m} t h k = elim (Option-cases (m k)) [
    | inl p ↦ rw p (λ x. x)
    | inr (e, p) ↦ rw p (λ x. omega (arith, top_earliest t p))
  ]

  remove_expired_loop-coins :
      (now : ℕ) (heap : List HeapItem) (m : Map (ArbEntry Ctx))
      → Tied m heap
      → (k : String) → Any (λ c. c ≡ k) (remove_expired_loop now heap m).0 ↔ IsExpired now (m k)
  unfolding remove_expired_loop
  remove_expired_loop-coins now [] m t k = rw (alive_empty t k) ((λ x. x), (λ x. x))
  remove_expired_loop-coins now (top ∷ heap) m t k = elim (look t) [
    | absent p t' ↦ rw (p, remove_expired_loop) (remove_expired_loop-coins now heap m t' k)
    | stale e p g t' ↦ rw (p, remove_expired_loop, g) (remove_expired_loop-coins now heap m t' k)
    | current e p g s t' ↦ elim (Bool-cases (leb e.expires_at now)) [
      | inl x ↦
          let ih = remove_expired_loop-coins now heap (Map.remove m top.coin) t' k in
          let step = IsExpired-remove_iff now m top.coin e p x k in
          rw (p, remove_expired_loop, g, x)
            (
              (λ h. step.0 (elim h [ inl q ↦ inl q | inr q ↦ inr (ih.0 q) ])),
              (λ h. elim (step.1 h) [ inl q ↦ inl q | inr q ↦ inr (ih.1 q) ]),
            )
      | inr x ↦
          rw (p, remove_expired_loop, g, x)
            ((λ h. absurd h), (λ h. absurd (none-IsExpired now t (ground arith) k h)))
    ]
  ]

  -- `remove_expired` keeps exactly the entries that expire after `now`, it returns exactly the
  -- coins whose entries it removes, and the cache stays valid.
  pub remove_expired-alive :
      (c : ArbCache Ctx) (now : ℕ)
      → IsValid c
      → let (c', coins) = remove_expired c now in
        (c'.map ≡ alive now c.map)
        × ((k : String) → Any (λ coin. coin ≡ k) coins ↔ IsExpired now (c.map k))
        × IsValid c'
  unfolding remove_expired
  remove_expired-alive c now v =
      let (map, tied) = remove_expired_loop-alive now c.heap c.map v.tied in
      (
        map,
        remove_expired_loop-coins now c.heap c.map v.tied,
        record { tied = tied; fresh = remove_expired_loop-All _ now c.heap c.map v.fresh },
      )
