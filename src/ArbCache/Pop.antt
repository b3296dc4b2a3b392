-- ===== src/ArbCache/Pop.antt =====
-- `pop_one` against the abstract cache: it takes the entry that expires first.
use poison_dart.Base.{
  ℕ, ◌≤◌, ◌≡◌, refl, inl, inr, Option, none, some, List, [], ◌∷◌, ltb, String, fun_ext, arith, All,
  Bool-cases,
}
use poison_dart.Base.Map
use poison_dart.Base.Map.{Map}
use poison_dart.ArbCache.{ArbCache, ArbEntry, ArbItem, HeapItem, new_item, pop_one, pop_one_loop}
use poison_dart.ArbCache.Invariant.{Tied, IsValid, absent, stale, current, look, top_earliest}
use poison_dart.ArbCache.Expiry.{alive, alive_empty, alive-remove, alive_all}

module _ {ℓ} {Ctx : Type ℓ} where
  -- An item taken from an abstract cache: it carries an entry of its coin, none of the others
  -- expires before that one, and the entry is gone afterwards.
  pub record IsTaken (m : Map (ArbEntry Ctx)) (item : ArbItem Ctx) (after : Map (ArbEntry Ctx))
      : Type ℓ where
    pub entry : ArbEntry Ctx
    pub held : m item.coin ≡ some entry
    pub digest : item.tx_digest ≡ entry.digest
    pub context : item.sim_ctx ≡ entry.sim_ctx
    pub origin : item.source ≡ entry.source
    pub earliest : (k : String) (e : ArbEntry Ctx) → m k ≡ some e → entry.expires_at ≤ e.expires_at
    pub gone : after ≡ Map.remove m item.coin

  -- An answer of `pop_one` on an abstract cache.
  abbrev pub IsAnswer : Map (ArbEntry Ctx) → Option (ArbItem Ctx) → Map (ArbEntry Ctx) → Type ℓ
  IsAnswer m none after = (m ≡ Map.empty) × (after ≡ Map.empty)
  IsAnswer m (some item) after = IsTaken m item after

  pop_one_loop-IsAnswer :
      (now : ℕ) (heap : List HeapItem) (m : Map (ArbEntry Ctx))
      → Tied m heap
      → let (item, stores) = pop_one_loop now heap m in
        IsAnswer (alive now m) item stores.0 × Tied stores.0 stores.1
  unfolding pop_one_loop new_item
  pop_one_loop-IsAnswer now [] m t =
      ((fun_ext (λ k. rw (alive_empty t k)), fun_ext (alive_empty t)), t)
  pop_one_loop-IsAnswer now (top ∷ heap) m t = elim (look t) [
    | absent p t' ↦ rw (p, pop_one_loop) (pop_one_loop-IsAnswer now heap m t')
    | stale e p g t' ↦ rw (p, pop_one_loop, g) (pop_one_loop-IsAnswer now heap m t')
    | current e p g s t' ↦ elim (Bool-cases (ltb now e.expires_at)) [
      | inl x ↦ rw (p, pop_one_loop, g, x, alive_all now t (ground arith)) (taken p s, t')
      | inr x ↦
          rw (p, pop_one_loop, g, x, ← alive-remove now m top.coin e p (ground arith))
            (pop_one_loop-IsAnswer now heap (Map.remove m top.coin) t')
    ]
  ]
    where
      taken :
          {e : ArbEntry Ctx}
          → m top.coin ≡ some e
          → top.expires_at ≡ e.expires_at
          → IsTaken m (new_item top.coin top.pool_id e) (Map.remove m top.coin)
      taken {e} p s = record {
        entry = e;
        held = p;
        digest = refl;
        context = refl;
        origin = refl;
        earliest = λ k e' q. omega (arith, top_earliest t q);
        gone = refl;
      }

  pop_one_loop-All :
      (P : HeapItem → Type 0) (now : ℕ) (heap : List HeapItem) (m : Map (ArbEntry Ctx))
      → All P heap
      → All P (pop_one_loop now heap m).1.1
  unfolding pop_one_loop
  pop_one_loop-All P now [] m h = tt
  pop_one_loop-All P now (top ∷ heap) m h = ground (
    arith,
    pop_one_loop-All P now heap m h.1,
    pop_one_loop-All P now heap (Map.remove m top.coin) h.1,
  )

  -- On a valid cache `pop_one` answers as the abstract cache does. It returns an item when some
  -- entry is alive: one whose entry expires first, with the digest, the context and the source of
  -- that entry; the cache then holds the other entries that are alive. It returns none when no
  -- entry is alive, and the map is then empty. The cache stays valid.
  pub pop_one-IsAnswer :
      (c : ArbCache Ctx) (now : ℕ)
      → IsValid c
      → let (c', item) = pop_one c now in IsAnswer (alive now c.map) item c'.map × IsValid c'
  unfolding pop_one
  pop_one-IsAnswer c now v =
      let (answer, tied) = pop_one_loop-IsAnswer now c.heap c.map v.tied in
      (answer, record { tied = tied; fresh = pop_one_loop-All _ now c.heap c.map v.fresh })
