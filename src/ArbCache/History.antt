-- ===== src/ArbCache/History.antt =====
-- The cache over time: any sequence of calls on a new one.
use poison_dart.Base.{ℕ, ◌+◌, ◌≤◌, ◌<◌, ◌^◌, Option, List, [], ◌∷◌, String, arith, length}
use poison_dart.Source.{Source, TransactionDigest}
use poison_dart.ArbCache.{ArbCache, ObjectId, new, insert, remove_expired, pop_one}
use poison_dart.ArbCache.Invariant.{IsValid, new-IsValid, insert-IsValid, next_generation_lem}
use poison_dart.ArbCache.Expiry.{remove_expired-alive}
use poison_dart.ArbCache.Pop.{pop_one-IsAnswer}

pub data Call {ℓ} (Ctx : Type ℓ) : Type ℓ where
  inserts : String → Option ObjectId → TransactionDigest → Ctx → Source → Call Ctx
  removes_expired : Call Ctx
  pops_one : Call Ctx

module _ {ℓ} {Ctx : Type ℓ} where
  -- A call, with the time at which it reads the clock.
  unfoldable pub step : ArbCache Ctx → ℕ × Call Ctx → ArbCache Ctx
  step c (now, inserts coin pool_id digest sim_ctx source) =
      insert c now coin pool_id digest sim_ctx source
  step c (now, removes_expired) = (remove_expired c now).0
  step c (now, pops_one) = (pop_one c now).0

  unfoldable pub run : ArbCache Ctx → List (ℕ × Call Ctx) → ArbCache Ctx
  unfolding step
  run c [] = c
  run c (call ∷ calls) = run (step c call) calls

  step-IsValid :
      (c : ArbCache Ctx) (call : ℕ × Call Ctx)
      → IsValid c
      → c.generation_counter + 1 < 2 ^ 64
      → IsValid (step c call) × ((step c call).generation_counter ≤ c.generation_counter + 1)
  unfolding step insert remove_expired pop_one
  step-IsValid c (now, inserts coin pool_id digest sim_ctx source) v room = (
    insert-IsValid c now coin pool_id digest sim_ctx source v room,
    omega (arith, next_generation_lem c room),
  )
  step-IsValid c (now, removes_expired) v room = ((remove_expired-alive c now v).2, omega arith)
  step-IsValid c (now, pops_one) v room = ((pop_one-IsAnswer c now v).1, omega arith)

  run_from-IsValid :
      (c : ArbCache Ctx) (calls : List (ℕ × Call Ctx))
      → IsValid c
      → c.generation_counter + length calls < 2 ^ 64
      → IsValid (run c calls)
  unfolding run
  run_from-IsValid c [] v room = v
  run_from-IsValid c (call ∷ calls) v room =
      let (v', g) = step-IsValid c call v (omega arith) in
      run_from-IsValid (step c call) calls v' (omega arith)

  -- A new cache is valid after any calls at any times, as long as they are fewer than 2^64.
  pub run-IsValid :
      (d : ℕ) (calls : List (ℕ × Call Ctx)) → length calls < 2 ^ 64 → IsValid (run (new d) calls)
  unfolding new
  run-IsValid d calls room = run_from-IsValid (new d) calls (new-IsValid d) (omega arith)
