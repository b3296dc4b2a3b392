-- ===== src/Strategy/Events.antt =====
-- The strategy's state stays sound through every event and every item that a worker takes.
use poison_dart.Base.{
  ℕ, ◌+◌, ◌^◌, ◌≤◌, ◌<◌, ◌≡◌, inl, inr, Option, some, List, [], ◌∷◌, String, arith, length, ap,
  Result, Result-cases, Bool-cases, Option-cases, List-cases, some_injective, subst,
}
use poison_dart.Source.{Source, TransactionDigest, public}
use poison_dart.Simulator.{SimEpoch, SimulateCtx, new_ctx}
use poison_dart.ArbCache.{ArbCache, ObjectId}
use poison_dart.Strategy.{
  ArbStrategy, CoinPools, Clock, Event, public_tx, private_tx, shio_item, ShioItem, has_pair,
  involved_coin_pools, get_latest_epoch, insert_all, on_new_tx_effects, potential_opportunity,
  on_new_shio_item, on_event, process_event,
}
use poison_dart.Strategy.Sound.{
  IsSound, Grows, dispatch-IsSound, insert_all-IsValid, get_latest_epoch-Keeps,
}

module _ {E Obj O : Type 0} (parse : E → Option (String × Option ObjectId))
    (parse_digest : String → Option TransactionDigest)
    (new_object_read_result : TransactionDigest → Obj → Option O) where
  -- The swap events that an event may carry.
  abbrev pub size : Event E Obj → ℕ
  size (public_tx digest events) = length events
  size private_tx = 0
  size (shio_item item) = length item.events

  length-involved-le : (es : List E) → length (involved_coin_pools parse es) ≤ length es
  unfolding involved_coin_pools
  length-involved-le [] = omega arith
  length-involved-le (e ∷ es) =
      let rest = length-involved-le es in
      elim (Option-cases (parse e)) [
        | inl q ↦ rw (q, involved_coin_pools) (omega arith)
        | inr (p, q) ↦ elim (Bool-cases (has_pair (involved_coin_pools parse es) p)) [
          | inl b ↦ rw (q, involved_coin_pools, b) (omega arith)
          | inr b ↦ rw (q, involved_coin_pools, b) (omega arith)
        ]
      ]

  -- Sound, with at most `n` insertions more.
  abbrev pub Goes : ℕ → ArbStrategy O → ArbStrategy O → Type 0
  Goes n s s' = IsSound s' × Grows n s s'

  -- The epoch is asked for, and the coins of an event are inserted.
  inserted-Goes :
      (clock : Clock) (fetched : Result SimEpoch) (ps : CoinPools) (digest : TransactionDigest)
      (source : Source) (ctx : SimulateCtx O) (n : ℕ) (s : ArbStrategy O)
      → IsSound s
      → length ps ≤ n
      → s.arb_cache.generation_counter + n < 2 ^ 64
      → let s' = (get_latest_epoch s clock.current_time_ms fetched).0 in
        Goes n s (record s' { arb_cache = insert_all clock 0 ps digest ctx source s'.arb_cache })
  inserted-Goes clock fetched ps digest source ctx n s h le room =
      let (sound, same) = get_latest_epoch-Keeps s clock.current_time_ms fetched h in
      let s' = (get_latest_epoch s clock.current_time_ms fetched).0 in
      let g = ap (λ (c : ArbCache (SimulateCtx O)). c.generation_counter) same in
      let (v, le') =
        insert_all-IsValid clock 0 ps digest ctx source s'.arb_cache sound.valid (omega arith) in
      (record { valid = v; recent = sound.recent; waiting = sound.waiting }, omega arith)

  fetched-Goes :
      (clock : Clock) (fetched : Result SimEpoch) (n : ℕ) (s : ArbStrategy O)
      → IsSound s
      → Goes n s (get_latest_epoch s clock.current_time_ms fetched).0
  fetched-Goes clock fetched n s h =
      let (sound, same) = get_latest_epoch-Keeps s clock.current_time_ms fetched h in
      let g = ap (λ (c : ArbCache (SimulateCtx O)). c.generation_counter) same in
      (sound, omega arith)

  on_new_tx_effects-Goes :
      (clock : Clock) (fetched : Result SimEpoch) (digest : TransactionDigest) (events : List E)
      (s : ArbStrategy O)
      → IsSound s
      → s.arb_cache.generation_counter + length events < 2 ^ 64
      → Goes
          (length events)
          s
          (on_new_tx_effects parse parse_digest new_object_read_result clock fetched digest events
            s).0
  unfolding on_new_tx_effects
  on_new_tx_effects-Goes clock fetched digest events s h room =
      let le = length-involved-le events in
      elim (List-cases (involved_coin_pools parse events)) [
        | inl q ↦ rw (q, on_new_tx_effects) (h, omega arith)
        | inr (p, ps, q) ↦
            elim (Result-cases (get_latest_epoch s clock.current_time_ms fetched).1) [
              | inr (m, e) ↦
                  rw (q, on_new_tx_effects, e) (fetched-Goes clock fetched (length events) s h)
              | inl (epoch, e) ↦
                  rw (q, on_new_tx_effects, e)
                    (inserted-Goes clock fetched (p ∷ ps) digest public (new_ctx epoch [])
                      (length events) s h (rw q at le) room)
            ]
      ]

  -- What is found in an item of an auction are no more coins than it has events.
  found-le :
      (item : ShioItem E Obj) (found : TransactionDigest × CoinPools × List O)
      → potential_opportunity parse parse_digest new_object_read_result item ≡ some found
      → length found.1 ≤ length item.events
  unfolding potential_opportunity
  found-le item found e =
      let le = length-involved-le item.events in
      elim (List-cases (involved_coin_pools parse item.events)) [
        | inl q ↦ absurd (let f = rw (q, potential_opportunity) at e in cc)
        | inr (p, ps, q) ↦ elim (Option-cases (parse_digest item.tx_digest)) [
          | inl d ↦ absurd (let f = rw (q, potential_opportunity, d) at e in cc)
          | inr (digest, d) ↦
              let f = rw (q, potential_opportunity, d) at e in
              let same = some_injective f in
              subst
                (λ (x : TransactionDigest × CoinPools × List O). length x.1 ≤ length item.events)
                same (rw q at le)
        ]
      ]

  on_new_shio_item-Goes :
      (clock : Clock) (fetched : Result SimEpoch) (item : ShioItem E Obj) (s : ArbStrategy O)
      → IsSound s
      → s.arb_cache.generation_counter + length item.events < 2 ^ 64
      → Goes
          (length item.events)
          s
          (on_new_shio_item parse parse_digest new_object_read_result clock fetched item s).0
  unfolding on_new_shio_item
  on_new_shio_item-Goes clock fetched item s h room =
      elim (Option-cases (potential_opportunity parse parse_digest new_object_read_result item)) [
        | inl q ↦ rw (q, on_new_shio_item) (h, omega arith)
        | inr (found, q) ↦
            elim (Result-cases (get_latest_epoch s clock.current_time_ms fetched).1) [
              | inr (m, e) ↦
                  rw (q, on_new_shio_item, e) (fetched-Goes clock fetched (length item.events) s h)
              | inl (epoch, e) ↦
                  rw (q, on_new_shio_item, e)
                    (inserted-Goes clock fetched found.1 found.0 _ _ (length item.events) s h
                      (found-le item found q) room)
            ]
      ]

  -- A strategy whose cache is valid, with no more recent coins than it may have and at most ten
  -- items in its channel, is so after any event, of whatever kind, handled or failed, as long as
  -- the cache's counter has room for the events.
  pub process_event-IsSound :
      (clock : Clock) (fetched : Result SimEpoch) (event : Event E Obj) (s : ArbStrategy O)
      → IsSound s
      → s.arb_cache.generation_counter + size event < 2 ^ 64
      → Goes
          (size event)
          s
          (process_event parse parse_digest new_object_read_result clock fetched event s)
  unfolding process_event on_event
  process_event-IsSound clock fetched event s h room =
      let (sound, grows) = on_event-Goes event room in
      let s' = (on_event parse parse_digest new_object_read_result clock fetched event s).0 in
      elim (Result-cases
        (on_event parse parse_digest new_object_read_result clock fetched event s).1) [
          | inr (m, e) ↦ rw (process_event, e) (sound, grows)
          | inl (t, e) ↦
              let (done, grows') = dispatch-IsSound clock s' sound in
              rw (process_event, e) (done, omega arith)
        ]
    where
      on_event-Goes :
          (event : Event E Obj)
          → s.arb_cache.generation_counter + size event < 2 ^ 64
          → Goes
              (size event)
              s
              (on_event parse parse_digest new_object_read_result clock fetched event s).0
      on_event-Goes (public_tx digest events) room =
          on_new_tx_effects-Goes clock fetched digest events s h room
      on_event-Goes private_tx room = (h, omega arith)
      on_event-Goes (shio_item item) room = on_new_shio_item-Goes clock fetched item s h room
