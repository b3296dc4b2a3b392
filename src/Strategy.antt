-- ===== src/Strategy.antt =====
-- `bin/arb/src/strategy/mod.rs`: an event puts the coins of its swaps into the cache, and up to ten
-- items go from the cache to the channel of the workers.
-- Outside are the parsing of events and objects, the node that is asked for the epoch, and the
-- clocks. A set of coins and pools is the list in which it is walked.
pub mod Sound
pub mod Events
pub mod History
pub mod Epoch
use poison_dart.Base.{
  ℕ, zero, suc, ◌-◌, ◌<◌, ◌≡◌, Bool, true, false, not, ◌&&◌, ◌||◌, Option, none, some, List, [],
  ◌∷◌, ◌++◌, String, ltb, ◌==◌, if◌then◌else◌, ite, str_dec, length, Result, ok, err,
}
use poison_dart.Base.Words.{sub64}
use poison_dart.Paths.{has_coin}
use poison_dart.Source.{Source, TransactionDigest, public, shio, is_shio}
use poison_dart.Simulator.{SimEpoch, SimulateCtx, is_stale, new_ctx, with_gas_price}
use poison_dart.ArbCache.{ArbCache, ArbItem, ObjectId, insert, pop_one, remove_expired}

-- `crates/shio`: what the strategy reads of an item.
pub record ShioItem (E Obj : Type 0) : Type 0 where
  pub events : List E
  pub tx_digest : String
  pub gas_price : ℕ
  pub deadline_timestamp_ms : ℕ
  pub created_mutated_objects : List Obj

pub data Event (E Obj : Type 0) : Type 0 where
  public_tx : (tx_digest : TransactionDigest) (events : List E) → Event E Obj
  private_tx : Event E Obj
  shio_item : ShioItem E Obj → Event E Obj

-- The clocks: the time of day, and an `Instant` for each insertion, each pop and the expiry.
pub record Clock : Type 0 where
  pub current_time_ms : ℕ
  pub at_insert : ℕ → ℕ
  pub at_pop : ℕ → ℕ
  pub at_expiry : ℕ

-- The channel holds the items that no worker has received yet.
pub record ArbStrategy (O : Type 0) : Type 0 where
  pub channel : List (ArbItem (SimulateCtx O))
  pub arb_cache : ArbCache (SimulateCtx O)
  pub recent_arbs : List String
  pub max_recent_arbs : ℕ
  pub epoch : Option SimEpoch

abbrev pub CoinPools : Type 0
CoinPools = List (String × Option ObjectId)

-- `HashSet::insert` of a coin with its pool.
abbrev pub same_pool : Option ObjectId → Option ObjectId → Bool
same_pool none none = true
same_pool (some i) (some j) = i == j
same_pool _ _ = false

unfoldable pub has_pair : CoinPools → String × Option ObjectId → Bool
has_pair [] p = false
has_pair (q ∷ qs) p = (ite (str_dec q.0 p.0) true false && same_pool q.1 p.1) || has_pair qs p

-- What the tasks over the events give: the involved coin and the pool of each swap event.
unfoldable pub involved_coin_pools :
    {E : Type 0} → (E → Option (String × Option ObjectId)) → List E → CoinPools
unfolding has_pair
involved_coin_pools parse [] = []
involved_coin_pools parse (e ∷ es) =
    let rest = involved_coin_pools parse es in
    elim (parse e) [ none ↦ rest | some p ↦ if has_pair rest p then rest else p ∷ rest ]

-- `filter_map(... .ok())`.
abbrev pub filter_map : {A B : Type 0} → (A → Option B) → List A → List B
filter_map f [] = []
filter_map f (x ∷ xs) = elim (f x) [ none ↦ filter_map f xs | some y ↦ y ∷ filter_map f xs ]

-- `VecDeque::pop_front`, and the removal of the first occurrence.
abbrev pub pop_front : List String → List String
pop_front [] = []
pop_front (x ∷ xs) = xs

unfoldable pub remove_first : String → List String → List String
remove_first coin [] = []
remove_first coin (x ∷ xs) = ite (str_dec x coin) xs (x ∷ remove_first coin xs)

-- `for coin in expired_coins`.
unfoldable pub forget_expired : List String → List String → List String
unfolding remove_first
forget_expired [] recent = recent
forget_expired (coin ∷ coins) recent = forget_expired coins (remove_first coin recent)

module _ {O : Type 0} where
  -- The node is asked for the epoch.
  unfoldable pub fetch_epoch :
      ArbStrategy O → (fetched : Result SimEpoch) → ArbStrategy O × Result SimEpoch
  fetch_epoch s (ok epoch) = (record s { epoch = some epoch }, ok epoch)
  fetch_epoch s (err m) = (s, err m)

  -- The state after the call, and its answer. `fetched` is what the node answers, if it is asked.
  unfoldable pub get_latest_epoch :
      ArbStrategy O → (now : ℕ) → (fetched : Result SimEpoch) → ArbStrategy O × Result SimEpoch
  unfolding is_stale fetch_epoch
  get_latest_epoch s now fetched = elim s.epoch [
    | none ↦ fetch_epoch s fetched
    | some epoch ↦
        if not (is_stale now epoch)
        then (s, ok epoch)
        else fetch_epoch (record s { epoch = none }) fetched
  ]

  -- The loop that inserts, the `i`-th at its time.
  unfoldable pub insert_all :
      Clock
      → (i : ℕ) → CoinPools
      → TransactionDigest
      → SimulateCtx O
      → Source
      → ArbCache (SimulateCtx O)
      → ArbCache (SimulateCtx O)
  unfolding insert
  insert_all clock i [] digest ctx source cache = cache
  insert_all clock i (p ∷ ps) digest ctx source cache =
      insert_all clock (suc i) ps digest ctx source
        (insert cache (clock.at_insert i) p.0 p.1 digest ctx source)

  -- An item that was popped: sent, and its coin noted, unless the coin is a recent one.
  unfoldable pub offer : ArbItem (SimulateCtx O) → ArbStrategy O → ArbStrategy O
  unfolding has_coin is_shio
  offer item s =
      if not (has_coin s.recent_arbs item.coin) || is_shio item.source
      then (let recent = s.recent_arbs ++ item.coin ∷ [] in
          record s {
            channel = s.channel ++ item ∷ [];
            recent_arbs =
                if ltb s.max_recent_arbs (length recent) then pop_front recent else recent;
          })
      else s

  -- `for _ in 0..num_to_send`.
  unfoldable pub send_items : Clock → (i num_to_send : ℕ) → ArbStrategy O → ArbStrategy O
  unfolding pop_one offer
  send_items clock i zero s = s
  send_items clock i (suc n) s =
      let (cache, item) = pop_one s.arb_cache (clock.at_pop i) in
      elim item [
        | none ↦ record s { arb_cache = cache }
        | some item ↦ send_items clock (suc i) n (offer item (record s { arb_cache = cache }))
      ]

  -- What follows an event that was handled.
  unfoldable pub dispatch : Clock → ArbStrategy O → ArbStrategy O
  unfolding send_items forget_expired remove_expired
  dispatch clock s =
      let channel_len = length s.channel in
      let s' = if ltb channel_len 10 then send_items clock 0 (10 - channel_len) s else s in
      let (cache, expired_coins) = remove_expired s'.arb_cache clock.at_expiry in
      record s' { arb_cache = cache; recent_arbs = forget_expired expired_coins s'.recent_arbs }

module _ {E Obj O : Type 0} (parse : E → Option (String × Option ObjectId))
    (parse_digest : String → Option TransactionDigest)
    (new_object_read_result : TransactionDigest → Obj → Option O) where
  unfoldable pub on_new_tx_effects :
      Clock
      → (fetched : Result SimEpoch) → TransactionDigest
      → List E
      → ArbStrategy O
      → ArbStrategy O × Result (Unit {0})
  unfolding involved_coin_pools get_latest_epoch insert_all new_ctx
  on_new_tx_effects clock fetched tx_digest events s = elim (involved_coin_pools parse events) [
    | [] ↦ (s, ok tt)
    | p ∷ ps ↦
        let (s', epoch) = get_latest_epoch s clock.current_time_ms fetched in
        elim epoch [
          | err m ↦ (s', err m)
          | ok epoch ↦ (
            record s' {
              arb_cache =
                  insert_all clock 0 (p ∷ ps) tx_digest (new_ctx epoch []) public s'.arb_cache;
            },
            ok tt,
          )
        ]
  ]

  -- `get_potential_opportunity`.
  unfoldable pub potential_opportunity :
      ShioItem E Obj → Option (TransactionDigest × CoinPools × List O)
  unfolding involved_coin_pools
  potential_opportunity item = elim (involved_coin_pools parse item.events) [
    | [] ↦ none
    | p ∷ ps ↦ elim (parse_digest item.tx_digest) [
      | none ↦ none
      | some digest ↦
          some (
            digest,
            p ∷ ps,
            filter_map (new_object_read_result digest) item.created_mutated_objects,
          )
    ]
  ]

  unfoldable pub on_new_shio_item :
      Clock
      → (fetched : Result SimEpoch) → ShioItem E Obj
      → ArbStrategy O
      → ArbStrategy O × Result (Unit {0})
  unfolding potential_opportunity get_latest_epoch insert_all new_ctx with_gas_price
  on_new_shio_item clock fetched item s = elim (potential_opportunity item) [
    | none ↦ (s, ok tt)
    | some found ↦
        let (s', epoch) = get_latest_epoch s clock.current_time_ms fetched in
        elim epoch [
          | err m ↦ (s', err m)
          | ok epoch ↦
              let source = shio (record {
                opp_tx_digest = found.0;
                bid_amount = 0;
                start = clock.current_time_ms;
                arb_found = 0;
                deadline = sub64 item.deadline_timestamp_ms 20;
              }) in
              (
                record s' {
                  arb_cache =
                      insert_all clock 0 found.1 found.0
                        (with_gas_price item.gas_price (new_ctx epoch found.2)) source s'.arb_cache;
                },
                ok tt,
              )
        ]
  ]

  unfoldable pub on_event :
      Clock
      → (fetched : Result SimEpoch) → Event E Obj
      → ArbStrategy O
      → ArbStrategy O × Result (Unit {0})
  unfolding on_new_tx_effects on_new_shio_item
  on_event clock fetched (public_tx digest events) s =
      on_new_tx_effects clock fetched digest events s
  on_event clock fetched private_tx s = (s, ok tt)
  on_event clock fetched (shio_item item) s = on_new_shio_item clock fetched item s

  unfoldable pub process_event :
      Clock → (fetched : Result SimEpoch) → Event E Obj → ArbStrategy O → ArbStrategy O
  unfolding on_event dispatch
  process_event clock fetched event s =
      let (s', result) = on_event clock fetched event s in
      elim result [ err _ ↦ s' | ok _ ↦ dispatch clock s' ]
