-- ===== src/Paths/Selected.antt =====
-- What the two loops of `find_sell_paths` collect: at most ten liquid pools for a coin.
use poison_dart.Base.{
  ℕ, zero, suc, ◌≤◌, ◌≡◌, refl, inl, inr, ◌||◌, not, Bool, true, false, Option, none, some, List,
  [], ◌∷◌, String, leb, ltb, if◌then◌else◌, arith, length, All, All-take, length-take-le, Result,
  ok, Result-cases, Bool-cases,
}
use poison_dart.Base.Map
use poison_dart.Base.Map.{Map}
use poison_dart.Dex.{DexOps, is_native_coin, sui_coin_type}
use poison_dart.Paths.{
  max_hop_count, max_pool_count, min_liquidity, Hops, pegged_coin_types, has_coin, has_id, retain,
  sort_in, sort_by_liquidity, select, note_dexes, add_hops, visit, drain, collect, all_hops_from,
}

module _ {D : Type 0} (ops : DexOps D) where
  -- A searcher answers with pools of the coin that it is asked for.
  abbrev pub FindsFrom : (String → Option String → Result (List D)) → Type 0
  FindsFrom find_dexes =
      (coin : String) (out : Option String) (dexes : List D)
      → find_dexes coin out ≡ ok dexes
      → All (λ d. ops.coin_in_type d ≡ coin) dexes

  abbrev pub IsHop : String → D → Type 0
  IsHop coin d = (ops.coin_in_type d ≡ coin) × (min_liquidity ≤ ops.liquidity d)

  abbrev pub AreHops : Map (List D) → Type 0
  AreHops hops =
      (coin : String) (dexes : List D)
      → hops coin ≡ some dexes
      → All (IsHop coin) dexes × (length dexes ≤ max_pool_count)

  retain-All : (P : D → Type 0) (keep : D → Bool) (ds : List D) → All P ds → All P (retain keep ds)
  unfolding retain
  retain-All P keep [] h = tt
  retain-All P keep (d ∷ ds) h = ground (arith, retain-All P keep ds h.1)

  retain-liquid :
      (coin : String) (ds : List D)
      → All (λ d. ops.coin_in_type d ≡ coin) ds
      → All (IsHop coin) (retain (λ d. leb min_liquidity (ops.liquidity d)) ds)
  unfolding retain
  retain-liquid coin [] h = tt
  retain-liquid coin (d ∷ ds) h = ground (arith, retain-liquid coin ds h.1)

  sort_in-All : (P : D → Type 0) (d : D) (ds : List D) → P d → All P ds → All P (sort_in ops d ds)
  unfolding sort_in
  sort_in-All P d [] p h = (p, tt)
  sort_in-All P d (e ∷ ds) p h = ground (arith, sort_in-All P d ds p h.1)

  sort-All : (P : D → Type 0) (ds : List D) → All P ds → All P (sort_by_liquidity ops ds)
  unfolding sort_by_liquidity
  sort-All P [] h = tt
  sort-All P (d ∷ ds) h = sort_in-All P d (sort_by_liquidity ops ds) h.0 (sort-All P ds h.1)

  pub select-IsHop :
      (coin : String) (ids : List ℕ) (found : List D)
      → All (λ d. ops.coin_in_type d ≡ coin) found
      → All (IsHop coin) (select ops ids found) × (length (select ops ids found) ≤ max_pool_count)
  unfolding select
  select-IsHop coin ids found h =
      let liquid = retain (λ d. leb min_liquidity (ops.liquidity d)) found in
      let fresh = retain (λ d. not (has_id ids (ops.object_id d))) liquid in
      elim (Bool-cases (ltb max_pool_count (length liquid))) [
        | inl e ↦
            rw (e, select)
              (
                All-take (IsHop coin) max_pool_count (sort_by_liquidity ops fresh) (
                    sort-All (IsHop coin) fresh
                      (retain-All (IsHop coin) _ liquid (retain-liquid coin found h))),
                length-take-le max_pool_count (sort_by_liquidity ops fresh),
              )
        | inr e ↦ rw (e, select) (retain-liquid coin found h, ground arith)
      ]

  note_dexes-hops : (ds : List D) (h : Hops D) → (note_dexes ops ds h).all_hops ≡ h.all_hops
  unfolding note_dexes
  note_dexes-hops [] h = refl
  note_dexes-hops (d ∷ ds) h = note_dexes-hops ds _

  add_hops-AreHops :
      (coin : String) (ds : List D) (h : Hops D)
      → AreHops h.all_hops
      → All (IsHop coin) ds × (length ds ≤ max_pool_count)
      → AreHops (add_hops ops coin ds h).all_hops
  unfolding add_hops
  add_hops-AreHops coin [] h good p = good
  add_hops-AreHops coin (d ∷ ds) h good p = λ c dexes e.
      elim (Map.insert-some (note_dexes ops (d ∷ ds) h).all_hops coin c (d ∷ ds) dexes e) [
        | inl (q, r) ↦ rw (← q, ← r) p
        | inr (q, r) ↦ good c dexes (rw (note_dexes-hops (d ∷ ds) h) at r)
      ]

  module _ (find_dexes : String → Option String → Result (List D))
      (law : FindsFrom find_dexes) where
    visit-AreHops :
        (last : Bool) (coin : String) (h : Hops D)
        → AreHops h.all_hops
        → AreHops (visit ops find_dexes last coin h).all_hops
    unfolding visit
    visit-AreHops last coin h good =
        let out = if has_coin pegged_coin_types coin || last then some sui_coin_type else none in
        let h' = record h { visited = coin ∷ h.visited } in
        elim (Bool-cases (has_coin h.visited coin || is_native_coin coin)) [
          | inl e ↦ rw (e, visit) good
          | inr e ↦ elim (Result-cases (find_dexes coin out)) [
            | inl (found, f) ↦
                rw (e, visit, f)
                  (add_hops-AreHops coin (select ops h'.visited_dexes found) h' good
                    (select-IsHop coin h'.visited_dexes found (law coin out found f)))
            | inr (_, f) ↦ rw (e, visit, f) good
          ]
        ]

    drain-AreHops :
        (last : Bool) (stack : List String) (h : Hops D)
        → AreHops h.all_hops
        → AreHops (drain ops find_dexes last stack h).all_hops
    unfolding drain
    drain-AreHops last [] h good = good
    drain-AreHops last (coin ∷ stack) h good =
        drain-AreHops last stack (visit ops find_dexes last coin h) (visit-AreHops last coin h good)

    collect-AreHops :
        (left : ℕ) (stack : List String) (h : Hops D)
        → AreHops h.all_hops
        → AreHops (collect ops find_dexes left stack h).all_hops
    unfolding collect
    collect-AreHops zero stack h good = good
    collect-AreHops (suc zero) stack h good =
        drain-AreHops true stack (record h { new_stack = [] }) good
    collect-AreHops (suc (suc left)) stack h good =
        let h' = drain ops find_dexes false stack (record h { new_stack = [] }) in
        collect-AreHops (suc left) h'.new_stack h'
          (drain-AreHops false stack (record h { new_stack = [] }) good)

    pub all_hops_from-AreHops : (coin : String) → AreHops (all_hops_from ops find_dexes coin)
    unfolding all_hops_from
    all_hops_from-AreHops coin =
        collect-AreHops max_hop_count (coin ∷ [])
          (record { all_hops = Map.empty; new_stack = []; visited = []; visited_dexes = [] })
          (λ c ds e. cc)
