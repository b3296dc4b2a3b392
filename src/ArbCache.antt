-- ===== src/ArbCache.antt =====
-- `bin/arb/src/strategy/arb_cache.rs`: pending arbitrage items, one for each coin, that expire.
-- An `Instant` and a `Duration` are numbers of one unit; the time at which a method reads the
-- clock is its argument `now`. The context of a simulation is only stored: it is a parameter.
pub mod Order
pub mod Invariant
pub mod Expiry
pub mod Pop
pub mod History
use Prim.Native.Nat.{compare, Ordering}
use poison_dart.Base.{
  ℕ, ◌+◌, ◌%◌, ◌^◌, true, false, Option, none, some, List, [], ◌∷◌, String, leb, ltb, ◌==◌,
}
use poison_dart.Base.Map
use poison_dart.Base.Map.{Map}
use poison_dart.Source.{Source, TransactionDigest}

abbrev pub ObjectId : Type 0
ObjectId = ℕ

pub record ArbItem {ℓ} (Ctx : Type ℓ) : Type ℓ where
  pub coin : String
  pub pool_id : Option ObjectId
  pub tx_digest : TransactionDigest
  pub sim_ctx : Ctx
  pub source : Source

pub record ArbEntry {ℓ} (Ctx : Type ℓ) : Type ℓ where
  pub digest : TransactionDigest
  pub sim_ctx : Ctx
  pub generation : ℕ
  pub expires_at : ℕ
  pub source : Source

pub record HeapItem : Type 0 where
  pub expires_at : ℕ
  pub generation : ℕ
  pub coin : String
  pub pool_id : Option ObjectId

-- `Ordering::then` and `Ordering::reverse`.
abbrev pub then_with : Ordering → Ordering → Ordering
then_with Ordering.eq o = o
then_with o _ = o

abbrev pub reversed : Ordering → Ordering
reversed Ordering.lt = Ordering.gt
reversed Ordering.eq = Ordering.eq
reversed Ordering.gt = Ordering.lt

-- The order of the heap's items: the greatest is the one that expires first.
unfoldable pub cmp : HeapItem → HeapItem → Ordering
cmp a b =
    reversed (then_with (compare a.expires_at b.expires_at) (compare a.generation b.generation))

-- `BinaryHeap`: the items, the greatest first, so `peek` and `pop` are at the head.
unfoldable pub push : HeapItem → List HeapItem → List HeapItem
unfolding cmp
push x [] = x ∷ []
push x (y ∷ heap) = elim (cmp x y) [ Ordering.lt ↦ y ∷ push x heap | _ ↦ x ∷ y ∷ heap ]

pub record ArbCache {ℓ} (Ctx : Type ℓ) : Type ℓ where
  pub map : Map (ArbEntry Ctx)
  pub heap : List HeapItem
  pub generation_counter : ℕ
  pub expiration_duration : ℕ

-- What the two loops change: the map and the heap.
abbrev pub Stores {ℓ} : Type ℓ → Type ℓ
Stores Ctx = Map (ArbEntry Ctx) × List HeapItem

module _ {ℓ} {Ctx : Type ℓ} where
  unfoldable pub new : ℕ → ArbCache Ctx
  new expiration_duration = record {
    map = Map.empty;
    heap = [];
    generation_counter = 0;
    expiration_duration = expiration_duration;
  }

  -- `ArbItem::new`.
  unfoldable pub new_item : String → Option ObjectId → ArbEntry Ctx → ArbItem Ctx
  new_item coin pool_id entry = record {
    coin = coin;
    pool_id = pool_id;
    tx_digest = entry.digest;
    sim_ctx = entry.sim_ctx;
    source = entry.source;
  }

  -- The counter is a `u64`.
  unfoldable pub next_generation : ArbCache Ctx → ℕ
  next_generation c = (c.generation_counter + 1) % 2 ^ 64

  unfoldable pub insert :
      ArbCache Ctx
      → (now : ℕ) → String
      → Option ObjectId
      → TransactionDigest
      → Ctx
      → Source
      → ArbCache Ctx
  insert c now coin pool_id digest sim_ctx source =
      let generation = next_generation c in
      let expires_at = now + c.expiration_duration in
      record c {
        generation_counter = generation;
        map = Map.insert c.map coin (record {
          digest = digest;
          sim_ctx = sim_ctx;
          generation = generation;
          expires_at = expires_at;
          source = source;
        });
        heap =
            push
              (record {
                expires_at = expires_at;
                generation = generation;
                coin = coin;
                pool_id = pool_id;
              })
              c.heap;
      }

  unfoldable pub get : ArbCache Ctx → String → Option (TransactionDigest × Ctx)
  get c coin = elim (c.map coin) [ none ↦ none | some entry ↦ some (entry.digest, entry.sim_ctx) ]

  -- The loop of `remove_expired`: the coins that it collects, and the stores.
  unfoldable pub remove_expired_loop :
      (now : ℕ) → List HeapItem → Map (ArbEntry Ctx) → List String × Stores Ctx
  remove_expired_loop now [] m = ([], (m, []))
  remove_expired_loop now (top ∷ heap) m = elim (m top.coin) [
    | none ↦ remove_expired_loop now heap m
    | some entry ↦ elim (entry.generation == top.generation) [
      | false ↦ remove_expired_loop now heap m
      | true ↦ elim (leb entry.expires_at now) [
        | true ↦
            let (coins, stores) = remove_expired_loop now heap (Map.remove m top.coin) in
            (top.coin ∷ coins, stores)
        | false ↦ ([], (m, top ∷ heap))
      ]
    ]
  ]

  unfoldable pub remove_expired : ArbCache Ctx → (now : ℕ) → ArbCache Ctx × List String
  remove_expired c now =
      let (coins, stores) = remove_expired_loop now c.heap c.map in
      (record c { map = stores.0; heap = stores.1 }, coins)

  -- The loop of `pop_one`.
  unfoldable pub pop_one_loop :
      (now : ℕ) → List HeapItem → Map (ArbEntry Ctx) → Option (ArbItem Ctx) × Stores Ctx
  pop_one_loop now [] m = (none, (m, []))
  pop_one_loop now (top ∷ heap) m = elim (m top.coin) [
    | none ↦ pop_one_loop now heap m
    | some entry ↦ elim (entry.generation == top.generation) [
      | false ↦ pop_one_loop now heap m
      | true ↦ elim (ltb now entry.expires_at) [
        | true ↦ (some (new_item top.coin top.pool_id entry), (Map.remove m top.coin, heap))
        | false ↦ pop_one_loop now heap (Map.remove m top.coin)
      ]
    ]
  ]

  unfoldable pub pop_one : ArbCache Ctx → (now : ℕ) → ArbCache Ctx × Option (ArbItem Ctx)
  pop_one c now =
      let (item, stores) = pop_one_loop now c.heap c.map in
      (record c { map = stores.0; heap = stores.1 }, item)
