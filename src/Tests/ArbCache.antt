-- ===== src/Tests/ArbCache.antt =====
-- Runs of `bin/arb/src/strategy/arb_cache.rs` and of the marks of `bin/arb/src/types.rs`.
use poison_dart.Base.{
  ℕ, ◌<◌, ◌≤◌, ◌≡◌, ◌↔◌, refl, none, some, List, [], ◌∷◌, String, true, arith, str_dec, Any,
}
use poison_dart.Source
use poison_dart.Source.Laws
use poison_dart.Source.{Source, public, shio, with_arb_found_time, with_bid_amount, deadline}
use poison_dart.ArbCache.{
  new, new_item, insert, get, push, next_generation, remove_expired, remove_expired_loop, pop_one,
  pop_one_loop,
}
use poison_dart.ArbCache.Invariant
use poison_dart.ArbCache.Invariant.{IsValid, new-IsValid}
use poison_dart.ArbCache.Expiry
use poison_dart.ArbCache.Expiry.{alive, IsExpired}
use poison_dart.ArbCache.Pop
use poison_dart.ArbCache.Pop.{IsAnswer}
use poison_dart.ArbCache.History
use poison_dart.ArbCache.History.{Call, inserts, removes_expired, pops_one, run}

program : Unit {0}
unfolding new new_item insert get push next_generation remove_expired remove_expired_loop pop_one
    pop_one_loop run str_dec
program = tt

-- Two coins, the first of them inserted again later.
abbrev calls : List (ℕ × Call ℕ)
calls =
    (0, inserts "A" none 10 7 public)
    ∷ (2, inserts "B" (some 5) 11 7 public)
    ∷ (3, inserts "A" none 12 7 public)
    ∷ []

-- The item of `A` is the one inserted last, so `B` comes out first.
pop_B :
    (pop_one (run (new 5) calls) 4).1
    ≡ some (record { coin = "B"; pool_id = some 5; tx_digest = 11; sim_ctx = 7; source = public })
unfolding program
pop_B = refl

expire_B : (remove_expired (run (new 5) calls) 7).1 ≡ "B" ∷ []
unfolding program
expire_B = refl

get_A : get (run (new 5) calls) "A" ≡ some (12, 7)
unfolding program
get_A = refl

run-IsValid_example : IsValid (run {Ctx = ℕ} (new 5) calls)
run-IsValid_example = History.run-IsValid 5 calls (omega arith)

insert-IsValid_example : IsValid (insert {Ctx = ℕ} (new 5) 0 "A" none 10 7 public)
unfolding new
insert-IsValid_example =
    Invariant.insert-IsValid (new 5) 0 "A" none 10 7 public (new-IsValid 5) (omega arith)

remove_expired-alive_example :
    let (c, coins) = remove_expired (run {Ctx = ℕ} (new 5) calls) 7 in
    (c.map ≡ alive 7 (run {Ctx = ℕ} (new 5) calls).map)
    × ((k : String)
        → Any (λ coin. coin ≡ k) coins ↔ IsExpired 7 ((run {Ctx = ℕ} (new 5) calls).map k))
    × IsValid c
remove_expired-alive_example = Expiry.remove_expired-alive (run (new 5) calls) 7 run-IsValid_example

pop_one-IsAnswer_example :
    let (c, item) = pop_one (run {Ctx = ℕ} (new 5) calls) 4 in
    IsAnswer (alive 4 (run {Ctx = ℕ} (new 5) calls).map) item c.map × IsValid c
pop_one-IsAnswer_example = Pop.pop_one-IsAnswer (run (new 5) calls) 4 run-IsValid_example

abbrev auction : Source
auction =
    shio (record { opp_tx_digest = 9; bid_amount = 0; start = 100; arb_found = 0; deadline = 200 })

with_arb_found_time-deadline_example :
    let t = with_arb_found_time auction 150 in
    ((Source.is_shio t ≡ true) ↔ (150 < 200))
    × (200 ≤ 150
        → (Source.opp_tx_digest t ≡ none)
          × (with_bid_amount t 8 ≡ t)
          × (with_arb_found_time t 8 ≡ t))
    × (150 < 200
        → (Source.opp_tx_digest t ≡ some 9)
          × (deadline t ≡ some 200)
          × (Source.bid_amount (with_bid_amount t 8) ≡ 8))
unfolding deadline Source.opp_tx_digest
with_arb_found_time-deadline_example = Laws.with_arb_found_time-deadline auction 150 200 8 refl
