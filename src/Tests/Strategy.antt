-- ===== src/Tests/Strategy.antt =====
-- Runs of the strategy on the swaps of one coin.
use poison_dart.Base.{
  ℕ, ◌≤◌, ◌<◌, ◌≡◌, refl, Option, none, some, List, [], ◌∷◌, String, arith, str_dec, ok, err,
}
use poison_dart.Source.{TransactionDigest}
use poison_dart.Simulator.{SimEpoch}
use poison_dart.ArbCache.{
  pop_one_loop, push, next_generation, new_item, remove_expired_loop, ObjectId,
}
use poison_dart.Strategy.{ArbStrategy, Clock, public_tx, get_latest_epoch}
use poison_dart.Strategy.Sound.{IsSound}
use poison_dart.Strategy.Epoch.{end_of, held, get_latest_epoch-end_of}
use poison_dart.Strategy.History.{Step, handles, receives, run, new_strategy, run-IsSound}

abbrev epoch : SimEpoch
epoch = record {
  epoch_id = 3;
  epoch_start_timestamp = 1000;
  epoch_duration_ms = 500;
  gas_price = 750;
}

abbrev clock : Clock
clock = record { current_time_ms = 1600; at_insert = λ i. 10; at_pop = λ i. 11; at_expiry = 12 }

-- A swap is the coin and the pool that it involves.
abbrev parse : String × ℕ → Option (String × Option ObjectId)
parse (coin, pool) = some (coin, some pool)

abbrev parse_digest : String → Option TransactionDigest
parse_digest s = some 5

abbrev read_object : TransactionDigest → ℕ → Option ℕ
read_object d o = some o

abbrev steps : List (Step (String × ℕ) ℕ)
steps =
    handles clock (err "no node") (public_tx 5 (("A", 1) ∷ ("B", 2) ∷ ("A", 1) ∷ []))
    ∷ receives
    ∷ handles clock (err "no node") (public_tx 6 (("B", 2) ∷ []))
    ∷ []

-- Both coins are sent, and stay recent.
two_coins :
    (run parse parse_digest read_object
      (new_strategy parse parse_digest read_object 8 epoch 100)
      steps).recent_arbs
    ≡ "B" ∷ "A" ∷ []
unfolding run new_strategy str_dec pop_one_loop push next_generation new_item remove_expired_loop
two_coins = refl

run-IsSound_example : IsSound (
    run parse parse_digest read_object
      (new_strategy parse parse_digest read_object 8 epoch 100)
      steps)
run-IsSound_example = run-IsSound parse parse_digest read_object 8 epoch 100 steps (omega arith)

-- Without an epoch, the node is asked at 1200; its epoch, which ends at 1500, is then good at 1600.
abbrev fresh_strategy : ArbStrategy ℕ
fresh_strategy = record (new_strategy parse parse_digest read_object 8 epoch 100) { epoch = none }

fetched_run : (get_latest_epoch fresh_strategy 1200 (ok epoch)).1 ≡ ok epoch
unfolding get_latest_epoch
fetched_run = refl

get_latest_epoch-end_of_example :
    let s' = (get_latest_epoch fresh_strategy 1200 (ok epoch)).0 in
    let again = get_latest_epoch s' 1600 (err "no node") in
    (end_of epoch ≤ 1600 → again ≡ (s', ok epoch))
    × (1600 < end_of epoch → (again.1 ≡ err "no node") × (again.0.epoch ≡ held (err "no node")))
get_latest_epoch-end_of_example =
    get_latest_epoch-end_of fresh_strategy 1200 1600 (ok epoch) (err "no node") epoch (omega arith)
      fetched_run
