-- ===== src/ArbCache/Order.antt =====
-- The heap's order: expiry first, then generation; `push` keeps the items in it.
use poison_dart.Base.{◌≤◌, ◌<◌, ◌≡◌, ◌⊎◌, inl, inr, List, [], ◌∷◌, arith, All, Any, All-imp}
use poison_dart.ArbCache.{HeapItem, push}

-- The first item leaves the heap no later than the second.
abbrev pub Before : HeapItem → HeapItem → Type 0
Before a b =
    (a.expires_at < b.expires_at) ⊎ ((a.expires_at ≡ b.expires_at) × (a.generation ≤ b.generation))

abbrev pub Sorted : List HeapItem → Type 0
Sorted [] = Unit
Sorted (x ∷ heap) = All (Before x) heap × Sorted heap

Before-trans : (a b c : HeapItem) → Before a b → Before b c → Before a c
Before-trans a b c h k = ground arith

-- An item of the new heap is the pushed one or one of the old.
pub push-All {κ} :
    (P : HeapItem → Type κ) (x : HeapItem) (heap : List HeapItem)
    → P x
    → All P heap
    → All P (push x heap)
unfolding push
push-All P x [] p h = (p, tt)
push-All P x (y ∷ heap) p h = ground (arith, push-All P x heap p h.1)

pub push-Any_new :
    (P : HeapItem → Type 0) (x : HeapItem) (heap : List HeapItem) → P x → Any P (push x heap)
unfolding push
push-Any_new P x [] p = inl p
push-Any_new P x (y ∷ heap) p = ground (arith, push-Any_new P x heap p)

pub push-Any_old :
    (P : HeapItem → Type 0) (x : HeapItem) (heap : List HeapItem) → Any P heap → Any P (push x heap)
unfolding push
push-Any_old P x (y ∷ heap) (inl h) = ground arith
push-Any_old P x (y ∷ heap) (inr h) = ground (arith, push-Any_old P x heap h)
push-Any_old P x [] h = absurd h

pub push-Sorted : (x : HeapItem) (heap : List HeapItem) → Sorted heap → Sorted (push x heap)
unfolding push
push-Sorted x [] s = (tt, tt)
push-Sorted x (y ∷ heap) s = ground (
  arith,
  push-Sorted x heap s.1,
  push-All (Before y) x heap,
  λ (h : Before x y). All-imp (Before y) (Before x) (λ b. Before-trans x y b h) heap s.0,
)
