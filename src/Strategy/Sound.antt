-- ===== src/Strategy/Sound.antt =====
-- What holds of the strategy's state through every event.
use poison_dart.Base.{
  ℕ, zero, suc, ◌+◌, ◌-◌, ◌^◌, ◌≤◌, ◌<◌, ◌≡◌, refl, ◌∙◌, inl, inr, not, ◌||◌, Option, none, some,
  List, [], ◌∷◌, ◌++◌, String, ltb, arith, length, length-append, Result, ok, err, Bool-cases,
  Option-cases,
}
use poison_dart.Paths.{has_coin}
use poison_dart.Source.{Source, TransactionDigest, is_shio}
use poison_dart.Simulator.{SimEpoch, SimulateCtx, is_stale}
use poison_dart.ArbCache.{ArbCache, ArbItem, insert, pop_one, remove_expired}
use poison_dart.ArbCache.Invariant.{IsValid, insert-IsValid, next_generation_lem}
use poison_dart.ArbCache.Expiry.{remove_expired-alive}
use poison_dart.ArbCache.Pop.{pop_one-IsAnswer}
use poison_dart.Strategy.{
  ArbStrategy, CoinPools, Clock, pop_front, remove_first, fetch_epoch, get_latest_epoch, insert_all,
  offer, send_items, forget_expired, dispatch,
}

length-remove_first-le :
    (coin : String) (xs : List String) → length (remove_first coin xs) ≤ length xs
unfolding remove_first
length-remove_first-le coin [] = omega arith
length-remove_first-le coin (x ∷ xs) = ground (arith, length-remove_first-le coin xs)

length-forget_expired-le : (coins xs : List String) → length (forget_expired coins xs) ≤ length xs
unfolding forget_expired
length-forget_expired-le [] xs = omega arith
length-forget_expired-le (c ∷ cs) xs =
    omega (arith, length-forget_expired-le cs (remove_first c xs), length-remove_first-le c xs)

length-pop_front : (xs : List String) → length (pop_front xs) ≡ length xs - 1
length-pop_front [] = omega arith
length-pop_front (x ∷ xs) = omega arith

module _ {O : Type 0} where
  -- The cache is valid, the recent coins are at most as many as they may be, and at most ten items
  -- wait in the channel.
  pub record IsSound (s : ArbStrategy O) : Type 0 where
    pub valid : IsValid s.arb_cache
    pub recent : length s.recent_arbs ≤ s.max_recent_arbs
    pub waiting : length s.channel ≤ 10

  -- An offer puts at most one item into the channel.
  offer-IsSound :
      (item : ArbItem (SimulateCtx O)) (s : ArbStrategy O)
      → IsSound s
      → length s.channel < 10
      → IsSound (offer item s) × (length (offer item s).channel ≤ suc (length s.channel))
  unfolding offer
  offer-IsSound item s h room =
      let l = length-append s.recent_arbs (item.coin ∷ []) in
      let c = length-append s.channel (item ∷ []) in
      elim (Bool-cases (not (has_coin s.recent_arbs item.coin) || is_shio item.source)) [
        | inr n ↦ rw (n, offer) (h, omega arith)
        | inl n ↦
            elim (Bool-cases (ltb s.max_recent_arbs (length (s.recent_arbs ++ item.coin ∷ [])))) [
              | inl b ↦
                  rw (n, offer, b)
                    (
                      record {
                        valid = h.valid;
                        recent =
                            omega
                              (arith, length-pop_front (s.recent_arbs ++ item.coin ∷ []), h.recent);
                        waiting = omega arith;
                      },
                      omega arith,
                    )
              | inr b ↦
                  rw (n, offer, b)
                    (
                      record { valid = h.valid; recent = ground arith; waiting = omega arith },
                      omega arith,
                    )
            ]
      ]

  -- An offer leaves the cache as it is.
  offer_arb_cache :
      (item : ArbItem (SimulateCtx O)) (s : ArbStrategy O)
      → (offer item s).arb_cache.generation_counter ≡ s.arb_cache.generation_counter
  unfolding offer
  offer_arb_cache item s =
      elim (Bool-cases (not (has_coin s.recent_arbs item.coin) || is_shio item.source)) [
        | inl n ↦ rw (n, offer)
        | inr n ↦ rw (n, offer)
      ]

  send_items-IsSound :
      (clock : Clock) (i n : ℕ) (s : ArbStrategy O)
      → IsSound s
      → length s.channel + n ≤ 10
      → IsSound (send_items clock i n s)
        × ((send_items clock i n s).arb_cache.generation_counter ≡ s.arb_cache.generation_counter)
  unfolding send_items offer pop_one
  send_items-IsSound clock i zero s h room = (h, refl)
  send_items-IsSound clock i (suc n) s h room =
      let popped = pop_one s.arb_cache (clock.at_pop i) in
      let s' : ArbStrategy O = record s { arb_cache = popped.0 } in
      let sound : IsSound s' = record {
        valid = (pop_one-IsAnswer s.arb_cache (clock.at_pop i) h.valid).1;
        recent = h.recent;
        waiting = h.waiting;
      } in
      elim (Option-cases popped.1) [
        | inl q ↦ rw (q, send_items) (sound, refl)
        | inr (item, q) ↦
            let (sound', le) = offer-IsSound item s' sound (omega arith) in
            let (sent, g) =
              send_items-IsSound clock (suc i) n (offer item s') sound' (omega arith) in
            rw (q, send_items) (sent, g ∙ offer_arb_cache item s')
      ]

  -- The count of insertions stands between two calls.
  abbrev pub Grows : ℕ → ArbStrategy O → ArbStrategy O → Type 0
  Grows n s s' = s'.arb_cache.generation_counter ≤ s.arb_cache.generation_counter + n

  pub dispatch-IsSound :
      (clock : Clock) (s : ArbStrategy O)
      → IsSound s
      → IsSound (dispatch clock s) × Grows 0 s (dispatch clock s)
  unfolding dispatch remove_expired
  dispatch-IsSound clock s h = elim (Bool-cases (ltb (length s.channel) 10)) [
    | inl r ↦
        let (sent, g) = send_items-IsSound clock 0 (10 - length s.channel) s h (ground arith) in
        rw (r, dispatch) (after (send_items clock 0 (10 - length s.channel) s) sent, omega arith)
    | inr r ↦ rw (r, dispatch) (after s h, omega arith)
  ]
    where
      after :
          (s : ArbStrategy O)
          → IsSound s
          → let (cache, coins) = remove_expired s.arb_cache clock.at_expiry in
            IsSound
              (record s { arb_cache = cache; recent_arbs = forget_expired coins s.recent_arbs })
      after s h = record {
        valid = (remove_expired-alive s.arb_cache clock.at_expiry h.valid).2;
        recent = omega (
          arith,
          h.recent,
          length-forget_expired-le (remove_expired s.arb_cache clock.at_expiry).1 s.recent_arbs,
        );
        waiting = h.waiting;
      }

  pub insert_all-IsValid :
      (clock : Clock) (i : ℕ) (ps : CoinPools) (digest : TransactionDigest) (ctx : SimulateCtx O)
      (source : Source) (cache : ArbCache (SimulateCtx O))
      → IsValid cache
      → cache.generation_counter + length ps < 2 ^ 64
      → IsValid (insert_all clock i ps digest ctx source cache)
        × ((insert_all clock i ps digest ctx source cache).generation_counter
            ≤ cache.generation_counter + length ps)
  unfolding insert_all insert
  insert_all-IsValid clock i [] digest ctx source cache v room = (v, omega arith)
  insert_all-IsValid clock i (p ∷ ps) digest ctx source cache v room =
      let g = next_generation_lem cache (omega arith) in
      let (v', le) =
        insert_all-IsValid clock (suc i) ps digest ctx source
          (insert cache (clock.at_insert i) p.0 p.1 digest ctx source)
          (insert-IsValid cache (clock.at_insert i) p.0 p.1 digest ctx source v (omega arith))
          (omega arith) in
      (v', omega arith)

  -- The epoch changes nothing else.
  abbrev pub Keeps : ArbStrategy O → ArbStrategy O → Type 0
  Keeps s s' = IsSound s' × (s'.arb_cache ≡ s.arb_cache)

  with_epoch-Keeps :
      (s : ArbStrategy O) (e : Option SimEpoch) → IsSound s → Keeps s (record s { epoch = e })
  with_epoch-Keeps s e h =
      (record { valid = h.valid; recent = h.recent; waiting = h.waiting }, refl)

  fetch_epoch-Keeps :
      (s : ArbStrategy O) (fetched : Result SimEpoch)
      → IsSound s
      → Keeps s (fetch_epoch s fetched).0
  unfolding fetch_epoch
  fetch_epoch-Keeps s (ok e) h = with_epoch-Keeps s (some e) h
  fetch_epoch-Keeps s (err m) h = (h, refl)

  pub get_latest_epoch-Keeps :
      (s : ArbStrategy O) (now : ℕ) (fetched : Result SimEpoch)
      → IsSound s
      → Keeps s (get_latest_epoch s now fetched).0
  unfolding get_latest_epoch
  get_latest_epoch-Keeps s now fetched h = elim (Option-cases s.epoch) [
    | inl q ↦ rw (q, get_latest_epoch) (fetch_epoch-Keeps s fetched h)
    | inr (e, q) ↦ elim (Bool-cases (is_stale now e)) [
      | inl n ↦
          rw (q, get_latest_epoch, n)
            (fetch_epoch-Keeps (record s { epoch = none }) fetched (with_epoch-Keeps s none h).0)
      | inr n ↦ rw (q, get_latest_epoch, n) (h, refl)
    ]
  ]
