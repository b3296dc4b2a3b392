-- ===== src/ArbCache/Invariant.antt =====
-- What ties the map of the cache to its heap.
use poison_dart.Base.{
  ◌+◌, ◌^◌, ◌≤◌, ◌<◌, ◌≡◌, ◌≢◌, refl, sym, ◌∙◌, inl, inr, Option, none, some, List, ◌∷◌, String,
  ◌==◌, true, false, Option-cases, Bool-cases, arith, ap, ℕ, All, Any, Any_elim, All-imp, Any-All,
}
use mathlib.Core.Option.{some-injective}
use poison_dart.Base.Map
use poison_dart.Base.Map.{Map}
use poison_dart.ArbCache.{ArbCache, ArbEntry, HeapItem, ObjectId, new, insert, next_generation}
use poison_dart.Source.{Source, TransactionDigest}
use poison_dart.ArbCache.Order.{Before, Sorted, push-All, push-Any_new, push-Any_old, push-Sorted}

module _ {ℓ} {Ctx : Type ℓ} where
  -- The heap item that stands for an entry, and a heap item that does not contradict it.
  abbrev pub ItemOf : String → ArbEntry Ctx → HeapItem → Type 0
  ItemOf k e h = (h.coin ≡ k) × (h.generation ≡ e.generation) × (h.expires_at ≡ e.expires_at)

  abbrev pub Agrees : String → ArbEntry Ctx → HeapItem → Type 0
  Agrees k e h = h.coin ≡ k → h.generation ≡ e.generation → h.expires_at ≡ e.expires_at

  pub record Tied (m : Map (ArbEntry Ctx)) (heap : List HeapItem) : Type ℓ where
    pub sorted : Sorted heap
    pub covered : (k : String) (e : ArbEntry Ctx) → m k ≡ some e → Any (ItemOf k e) heap
    pub agrees : (k : String) (e : ArbEntry Ctx) → m k ≡ some e → All (Agrees k e) heap

  pub record IsValid (c : ArbCache Ctx) : Type ℓ where
    pub tied : Tied c.map c.heap
    pub fresh : All (λ h. h.generation ≤ c.generation_counter) c.heap

  module _ {m : Map (ArbEntry Ctx)} {top : HeapItem} {heap : List HeapItem}
      (t : Tied m (top ∷ heap)) where
    -- A stale item can go: no entry rests on it.
    pub Tied-stale :
        ((e : ArbEntry Ctx) → m top.coin ≡ some e → e.generation ≢ top.generation) → Tied m heap
    Tied-stale stale = record {
      sorted = t.sorted.1;
      covered = λ k e p. elim (t.covered k e p) [
        | inl h ↦ absurd (stale e (ap m h.0 ∙ p) (sym h.1))
        | inr h ↦ h
      ];
      agrees = λ k e p. (t.agrees k e p).1;
    }

    -- So can an item together with its coin's entry.
    pub Tied-remove : Tied (Map.remove m top.coin) heap
    Tied-remove = record {
      sorted = t.sorted.1;
      covered = λ k e p.
          let (other, was) = Map.remove-some m top.coin k e p in
          elim (t.covered k e was) [ inl h ↦ absurd (other (sym h.0)) | inr h ↦ h ];
      agrees = λ k e p. (t.agrees k e (Map.remove-some m top.coin k e p).1).1;
    }

    -- No entry expires before the item at the top.
    pub top_earliest :
        {k : String} {e : ArbEntry Ctx} → m k ≡ some e → top.expires_at ≤ e.expires_at
    top_earliest {k} {e} p = elim (t.covered k e p) [
      | inl h ↦ omega (arith, h.2)
      | inr h ↦
          Any_elim (λ h. Before top h × ItemOf k e h) (λ h b. ground arith) heap
            (Any-All (Before top) (ItemOf k e) (λ h. Before top h × ItemOf k e h) (λ h b i. (b, i))
              heap t.sorted.0 h)
    ]

  -- What the loops find at the top of the heap: no entry, a newer entry, or the item's own.
  pub data Top (m : Map (ArbEntry Ctx)) (top : HeapItem) (heap : List HeapItem) : Type ℓ where
    absent : m top.coin ≡ none → Tied m heap → Top m top heap
    stale :
        (e : ArbEntry Ctx)
        → m top.coin ≡ some e
        → (e.generation == top.generation) ≡ false
        → Tied m heap
        → Top m top heap
    current :
        (e : ArbEntry Ctx)
        → m top.coin ≡ some e
        → (e.generation == top.generation) ≡ true
        → top.expires_at ≡ e.expires_at
        → Tied (Map.remove m top.coin) heap
        → Top m top heap

  pub look :
      {m : Map (ArbEntry Ctx)} {top : HeapItem} {heap : List HeapItem}
      → Tied m (top ∷ heap)
      → Top m top heap
  look {m} {top} t = elim (Option-cases (m top.coin)) [
    | inl p ↦ absent p (Tied-stale t (λ e q. cc))
    | inr (e, p) ↦ elim (Bool-cases (e.generation == top.generation)) [
      | inl g ↦ current e p g ((t.agrees _ e p).0 refl (ground arith)) (Tied-remove t)
      | inr g ↦ stale e p g (Tied-stale t (λ e' q r. ground (arith, some-injective (sym p ∙ q))))
    ]
  ]

  pub new-IsValid : (d : ℕ) → IsValid (new {Ctx = Ctx} d)
  unfolding new
  new-IsValid d = record {
    tied = record { sorted = tt; covered = λ k e p. cc; agrees = λ k e p. cc };
    fresh = tt;
  }

  pub next_generation_lem :
      (c : ArbCache Ctx)
      → c.generation_counter + 1 < 2 ^ 64
      → next_generation c ≡ c.generation_counter + 1
  unfolding next_generation
  next_generation_lem c h = omega arith

  module _ (c : ArbCache Ctx) (now : ℕ) (coin : String) (pool_id : Option ObjectId)
      (digest : TransactionDigest) (sim_ctx : Ctx) (source : Source) (v : IsValid c)
      (room : c.generation_counter + 1 < 2 ^ 64) where
    abbrev inserted : ArbCache Ctx
    inserted = insert c now coin pool_id digest sim_ctx source

    insert-covered :
        (k : String) (e : ArbEntry Ctx) → inserted.map k ≡ some e → Any (ItemOf k e) inserted.heap
    unfolding insert
    insert-covered k e p = elim (Map.insert-some c.map coin k _ e p) [
      | inl (q, r) ↦
          push-Any_new (ItemOf k e) _ c.heap (q, ap (λ e. e.generation) r, ap (λ e. e.expires_at) r)
      | inr (q, r) ↦ push-Any_old (ItemOf k e) _ c.heap (v.tied.covered k e r)
    ]

    -- The generations in the heap are older than the new one.
    older :
        (k : String) (e : ArbEntry Ctx) → next_generation c ≡ e.generation → All (Agrees k e) c.heap
    older k e q =
        All-imp (λ h. h.generation ≤ c.generation_counter) (Agrees k e)
          (λ h b _ g. absurd (omega (arith, next_generation_lem c room))) c.heap v.fresh

    insert-Agrees :
        (k : String) (e : ArbEntry Ctx) → inserted.map k ≡ some e → All (Agrees k e) inserted.heap
    unfolding insert
    insert-Agrees k e p = elim (Map.insert-some c.map coin k _ e p) [
      | inl (_, r) ↦
          push-All (Agrees k e) _ c.heap (λ _ _. ap (λ e. e.expires_at) r)
            (older k e (ap (λ e. e.generation) r))
      | inr (q, r) ↦ push-All (Agrees k e) _ c.heap (λ s. absurd (q (sym s))) (v.tied.agrees k e r)
    ]

    -- A new entry keeps the cache valid, as long as the counter of generations has room.
    pub insert-IsValid : IsValid (insert c now coin pool_id digest sim_ctx source)
    unfolding insert
    insert-IsValid = record {
      tied = record {
        sorted = push-Sorted _ c.heap v.tied.sorted;
        covered = insert-covered;
        agrees = insert-Agrees;
      };
      fresh =
          push-All (λ h. h.generation ≤ next_generation c) _ c.heap (omega arith)
            (All-imp (λ h. h.generation ≤ c.generation_counter)
              (λ h. h.generation ≤ next_generation c)
              (λ h b. omega (arith, next_generation_lem c room)) c.heap v.fresh);
    }
