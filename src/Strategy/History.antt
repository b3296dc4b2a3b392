-- ===== src/Strategy/History.antt =====
-- The strategy over time: events, and items that the workers take from the channel.
use poison_dart.Base.{
  ℕ, ◌+◌, ◌^◌, ◌≤◌, ◌<◌, Option, some, List, [], ◌∷◌, String, arith, length, Result,
}
use poison_dart.Source.{TransactionDigest}
use poison_dart.Simulator.{SimEpoch}
use poison_dart.ArbCache.{ObjectId, new}
use poison_dart.ArbCache.Invariant.{new-IsValid}
use poison_dart.Strategy.{ArbStrategy, Clock, Event, process_event}
use poison_dart.Strategy.Sound.{IsSound}
use poison_dart.Strategy.Events.{size, process_event-IsSound}

pub data Step (E Obj : Type 0) : Type 0 where
  handles : Clock → (fetched : Result SimEpoch) → Event E Obj → Step E Obj
  receives : Step E Obj

abbrev pub received : {A : Type 0} → List A → List A
received [] = []
received (x ∷ xs) = xs

module _ {E Obj O : Type 0} (parse : E → Option (String × Option ObjectId))
    (parse_digest : String → Option TransactionDigest)
    (new_object_read_result : TransactionDigest → Obj → Option O) where
  unfoldable pub step : ArbStrategy O → Step E Obj → ArbStrategy O
  unfolding process_event
  step s (handles clock fetched event) =
      process_event parse parse_digest new_object_read_result clock fetched event s
  step s receives = record s { channel = received s.channel }

  unfoldable pub run : ArbStrategy O → List (Step E Obj) → ArbStrategy O
  unfolding step
  run s [] = s
  run s (x ∷ xs) = run (step s x) xs

  -- The swap events of all steps.
  abbrev pub total : List (Step E Obj) → ℕ
  total [] = 0
  total (handles clock fetched event ∷ xs) =
      size parse parse_digest new_object_read_result event + total xs
  total (receives ∷ xs) = total xs

  length-received-le : {A : Type 0} (xs : List A) → length (received xs) ≤ length xs
  length-received-le [] = omega arith
  length-received-le (x ∷ xs) = omega arith

  run_from-IsSound :
      (s : ArbStrategy O) (xs : List (Step E Obj))
      → IsSound s
      → s.arb_cache.generation_counter + total xs < 2 ^ 64
      → IsSound (run s xs)
  unfolding run
  run_from-IsSound s [] h room = h
  run_from-IsSound s (receives ∷ xs) h room =
      run_from-IsSound (record s { channel = received s.channel }) xs
        (record {
          valid = h.valid;
          recent = h.recent;
          waiting = omega (arith, h.waiting, length-received-le s.channel);
        })
        room
  run_from-IsSound s (handles clock fetched event ∷ xs) h room =
      let (sound, grows) =
        process_event-IsSound parse parse_digest new_object_read_result clock fetched event s h
          (omega arith) in
      run_from-IsSound
        (process_event parse parse_digest new_object_read_result clock fetched event s) xs sound
        (omega arith)

  -- `ArbStrategy::new`, with the epoch that the node answered.
  unfoldable pub new_strategy : (recent_arbs : ℕ) → SimEpoch → (five_seconds : ℕ) → ArbStrategy O
  unfolding new
  new_strategy recent_arbs epoch five_seconds = record {
    channel = [];
    arb_cache = new five_seconds;
    recent_arbs = [];
    max_recent_arbs = recent_arbs;
    epoch = some epoch;
  }

  -- A new strategy is sound after any sequence of events and of items taken by workers, as long as
  -- the swap events are fewer than 2^64 in all: its cache is valid, at most as many coins are recent
  -- as may be, and at most ten items wait.
  pub run-IsSound :
      (recent_arbs : ℕ) (epoch : SimEpoch) (five_seconds : ℕ) (xs : List (Step E Obj))
      → total xs < 2 ^ 64
      → IsSound (run (new_strategy recent_arbs epoch five_seconds) xs)
  unfolding new_strategy
  run-IsSound recent_arbs epoch five_seconds xs room =
      run_from-IsSound (new_strategy recent_arbs epoch five_seconds) xs
        (record { valid = new-IsValid five_seconds; recent = omega arith; waiting = omega arith })
        (omega arith)
