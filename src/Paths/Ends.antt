-- ===== src/Paths/Ends.antt =====
-- Where the paths that are found begin and end.
use mathlib.Core.List.{reverse-cons, map-append}
use poison_dart.Base.{
  suc, ◌≤◌, ◌≡◌, refl, sym, ◌∙◌, inl, inr, true, Option, subst, List, [], ◌∷◌, ◌++◌, map, reverse,
  String, arith, length, length-append, length-map, All, All-append, All-imp, All-map, All-Any_elim,
  Result, ok, Bool-cases,
}
use poison_dart.Base.Map.{Map}
use poison_dart.Dex.{DexOps, DexPath, sui_coin_type, is_native_coin}
use poison_dart.Paths.{
  max_hop_count, min_liquidity, dfs, all_hops_from, find_sell_paths, find_buy_paths,
}
use poison_dart.Paths.Routes.{IsRoute, Extends, dfs_sound}
use poison_dart.Paths.Count.{length-dfs-le}
use poison_dart.Paths.Selected.{FindsFrom, AreHops, IsHop, all_hops_from-AreHops}

is_native_coin→eq : (coin : String) → is_native_coin coin ≡ true → coin ≡ sui_coin_type
unfolding is_native_coin
is_native_coin→eq coin h = ground arith

module _ {D : Type 0} (ops : DexOps D) where
  open ops use {coin_in_type, coin_out_type, liquidity, flip}

  -- Each pool takes the coin that the one before it gives.
  abbrev pub Connects : (from to : String) → List D → Type 0
  Connects from to [] = from ≡ to
  Connects from to (d ∷ ds) = (coin_in_type d ≡ from) × Connects (coin_out_type d) to ds

  abbrev pub IsLiquid : D → Type 0
  IsLiquid d = min_liquidity ≤ liquidity d

  -- A path between two coins over at most two liquid pools.
  pub record IsPath (from to : String) (p : DexPath D) : Type 0 where
    pub connects : Connects from to p.path
    pub short : length p.path ≤ max_hop_count
    pub liquid : All IsLiquid p.path

  route-Connects :
      (hops : Map (List D))
      → AreHops ops hops
      → (coin : String) (r : List D) → IsRoute ops hops coin r
      → Connects coin sui_coin_type r × All IsLiquid r
  route-Connects hops good coin [] n = (is_native_coin→eq coin n, tt)
  route-Connects hops good coin (d ∷ ds) (n, (dexes, p, m), route) =
      let (rest, liquid) = route-Connects hops good (coin_out_type d) ds route in
      let hop =
        All-Any_elim {C = IsHop ops coin d} (IsHop ops coin) (λ e. e ≡ d)
          (λ e h q. subst (IsHop ops coin) q h) dexes (good coin dexes p).0 m in
      ((hop.0, rest), (hop.1, liquid))

  Connects-append :
      (a b c : String) (xs ys : List D)
      → Connects a b xs
      → Connects b c ys
      → Connects a c (xs ++ ys)
  Connects-append a b c [] ys h k = rw h k
  Connects-append a b c (x ∷ xs) ys h k = (h.0, Connects-append (coin_out_type x) b c xs ys h.1 k)

  -- Walked backwards with its pools flipped, a path leads back.
  Connects-flip :
      (from to : String) (ds : List D)
      → Connects from to ds
      → Connects to from (map flip (reverse ds))
  Connects-flip from to [] h = sym h
  Connects-flip from to (d ∷ ds) h =
      rw (reverse-cons d ds, map-append)
        (Connects-append to (coin_out_type d) from (map flip (reverse ds)) (flip d ∷ [])
          (Connects-flip (coin_out_type d) to ds h.1)
          (ops.coin_in_type-flip d, ops.coin_out_type-flip d ∙ h.0))

  All-flip : (ds : List D) → All IsLiquid ds → All IsLiquid (map flip (reverse ds))
  All-flip [] h = tt
  All-flip (d ∷ ds) h =
      rw (reverse-cons d ds, map-append)
        (All-append IsLiquid (map flip (reverse ds)) (flip d ∷ []) (All-flip ds h.1)
          (rw (ops.liquidity-flip d) h.0, tt))

  length-flip : (ds : List D) → length (map flip (reverse ds)) ≡ length ds
  length-flip [] = refl
  length-flip (d ∷ ds) =
      rw (reverse-cons d ds, map-append)
        (omega (arith, length-append (map flip (reverse ds)) (flip d ∷ []), length-flip ds))

  module _ (find_dexes : String → Option String → Result (List D))
      (law : FindsFrom ops find_dexes) where
    route-IsPath :
        (coin : String) (r : List D)
        → Extends ops (all_hops_from ops find_dexes coin) coin max_hop_count [] r
        → IsPath coin sui_coin_type (record { path = r })
    route-IsPath coin r (r', e, route, l) =
        let (c, liquid) =
          route-Connects (all_hops_from ops find_dexes coin)
            (all_hops_from-AreHops ops find_dexes law coin) coin r' route in
        rw e (record { connects = c; short = l; liquid = liquid })

    -- Over a searcher that answers with pools of the coin asked for, the sell paths of a coin are
    -- found without an error, and they are at most a hundred. Each leads from the coin to SUI, each
    -- pool of it takes the coin that the one before gives, and it has at most two pools, each of at
    -- least the minimal liquidity.
    pub find_sell_paths-IsPath :
        (coin : String)
        → (paths : List (DexPath D)) × (find_sell_paths ops find_dexes coin ≡ ok paths)
          × All (IsPath coin sui_coin_type) paths
          × (length paths ≤ 100)
    unfolding find_sell_paths
    find_sell_paths-IsPath coin = elim (Bool-cases (is_native_coin coin)) [
      | inl n ↦ (
        record { path = [] } ∷ [],
        rw (n, find_sell_paths),
        (record { connects = is_native_coin→eq coin n; short = omega arith; liquid = tt }, tt),
        omega arith,
      )
      | inr n ↦
          let hops = all_hops_from ops find_dexes coin in
          let routes = dfs ops (suc max_hop_count) coin [] hops in
          (
            map (λ r. record { path = r }) routes,
            rw (n, find_sell_paths),
            All-map (λ r. record { path = r }) (IsPath coin sui_coin_type) routes
                (All-imp (Extends ops hops coin max_hop_count [])
                  (λ r. IsPath coin sui_coin_type (record { path = r })) (route-IsPath coin) routes
                  (dfs_sound ops hops max_hop_count coin [] refl)),
            omega (
              arith,
              length-map {B = DexPath D} (λ r. record { path = r }) routes,
              length-dfs-le ops hops (all_hops_from-AreHops ops find_dexes law coin) max_hop_count
                  coin [] refl,
            ),
          )
    ]

    flip-IsPath :
        (coin : String) (p : DexPath D)
        → IsPath coin sui_coin_type p
        → IsPath sui_coin_type coin (record { path = map flip (reverse p.path) })
    flip-IsPath coin p v = record {
      connects = Connects-flip coin sui_coin_type p.path v.connects;
      short = omega (arith, length-flip p.path, v.short);
      liquid = All-flip p.path v.liquid;
    }

    -- Over a searcher that answers with pools of the coin asked for, the buy paths of a coin are
    -- found without an error, and they are at most a hundred. Each leads from SUI to the coin, each
    -- pool of it takes the coin that the one before gives, and it has at most two pools, each of at
    -- least the minimal liquidity.
    pub find_buy_paths-IsPath :
        (coin : String)
        → (paths : List (DexPath D)) × (find_buy_paths ops find_dexes coin ≡ ok paths)
          × All (IsPath sui_coin_type coin) paths
          × (length paths ≤ 100)
    unfolding find_buy_paths
    find_buy_paths-IsPath coin =
        let (paths, e, all, few) = find_sell_paths-IsPath coin in
        let turn =
          λ (p : DexPath D). let q : DexPath D = record { path = map flip (reverse p.path) } in q in
        (
          map turn paths,
          rw (e, find_buy_paths),
          All-map turn (IsPath sui_coin_type coin) paths (
              All-imp (IsPath coin sui_coin_type) (λ p. IsPath sui_coin_type coin (turn p))
                (flip-IsPath coin) paths all),
          omega (arith, length-map turn paths),
        )
