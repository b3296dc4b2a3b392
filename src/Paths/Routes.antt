-- ===== src/Paths/Routes.antt =====
-- The depth-first search finds exactly the routes over the hops, and its fuel suffices.
use mathlib.Core.List.{append-nil, append_assoc}
use poison_dart.Base.{
  ℕ, zero, suc, ◌+◌, ◌≤◌, ◌≡◌, refl, sym, subst, ◌∙◌, inl, inr, ◌↔◌, true, false, some, List, [],
  ◌∷◌, ◌++◌, String, leb, arith, length, length-append, All, Any, All-imp, All-append,
  Any-append_left, Any-append_right, Any-imp, All-Any_elim, Bool-cases, Option-cases,
}
use poison_dart.Base.Map.{Map}
use poison_dart.Dex.{DexOps, is_native_coin}
use poison_dart.Paths.{max_hop_count, dfs, dfs_each}

module _ {D : Type 0} (ops : DexOps D) where
  -- A route from a coin: pools of the hops, each of the coin that the last one gives, up to the
  -- first native coin.
  abbrev pub IsRoute : Map (List D) → String → List D → Type 0
  IsRoute hops coin [] = is_native_coin coin ≡ true
  IsRoute hops coin (d ∷ ds) =
      (is_native_coin coin ≡ false)
      × ((dexes : List D) × (hops coin ≡ some dexes) × Any (λ e. e ≡ d) dexes)
      × IsRoute hops (ops.coin_out_type d) ds

  -- What the search adds to a path.
  abbrev pub Extends : Map (List D) → String → ℕ → List D → List D → Type 0
  Extends hops coin k path r =
      (r' : List D) × (r ≡ path ++ r') × IsRoute hops coin r' × (length r' ≤ k)

  dfs_each-All :
      (P : List D → Type 0) (go : String → List D → List (List D)) (path : List D) (dexes : List D)
      → All (λ d. All P (go (ops.coin_out_type d) (path ++ d ∷ []))) dexes
      → All P (dfs_each ops go path dexes)
  unfolding dfs_each
  dfs_each-All P go path [] h = tt
  dfs_each-All P go path (d ∷ ds) h =
      All-append P (go (ops.coin_out_type d) (path ++ d ∷ [])) (dfs_each ops go path ds) h.0
        (dfs_each-All P go path ds h.1)

  dfs_each-Any :
      (P : List D → Type 0) (go : String → List D → List (List D)) (path : List D) (dexes : List D)
      → Any (λ d. Any P (go (ops.coin_out_type d) (path ++ d ∷ []))) dexes
      → Any P (dfs_each ops go path dexes)
  unfolding dfs_each
  dfs_each-Any P go path [] h = absurd h
  dfs_each-Any P go path (d ∷ ds) (inl h) =
      Any-append_left P (go (ops.coin_out_type d) (path ++ d ∷ [])) (dfs_each ops go path ds) h
  dfs_each-Any P go path (d ∷ ds) (inr h) =
      Any-append_right P (go (ops.coin_out_type d) (path ++ d ∷ [])) (dfs_each ops go path ds)
        (dfs_each-Any P go path ds h)

  -- An item's membership, kept beside the item.
  All-members : (xs : List D) → All (λ d. Any (λ e. e ≡ d) xs) xs
  All-members [] = tt
  All-members (x ∷ xs) = (
    inl refl,
    All-imp (λ d. Any (λ e. e ≡ d) xs) (λ d. Any (λ e. e ≡ d) (x ∷ xs)) (λ d h. inr h) xs
        (All-members xs),
  )

  module _ (hops : Map (List D)) where
    step-Extends :
        (k : ℕ) (coin : String) (path dexes : List D)
        → is_native_coin coin ≡ false
        → hops coin ≡ some dexes
        → (d : D) → Any (λ e. e ≡ d) dexes
        → (r : List D) → Extends hops (ops.coin_out_type d) k (path ++ d ∷ []) r
        → Extends hops coin (suc k) path r
    step-Extends k coin path dexes n p d m r (r', e, route, l) =
        (d ∷ r', e ∙ append_assoc path (d ∷ []) r', (n, (dexes, p, m), route), omega arith)

    pub dfs_sound :
        (k : ℕ) (coin : String) (path : List D)
        → length path + k ≡ max_hop_count
        → All (Extends hops coin k path) (dfs ops (suc k) coin path hops)
    unfolding dfs
    dfs_sound zero coin path e = elim (Bool-cases (is_native_coin coin)) [
      | inl n ↦ rw (n, dfs) (([], sym (append-nil path), n, omega arith), tt)
      | inr n ↦ rw (n, dfs, (let h : leb max_hop_count (length path) ≡ true = ground arith in h)) tt
    ]
    dfs_sound (suc k) coin path e = elim (Bool-cases (is_native_coin coin)) [
      | inl n ↦ rw (n, dfs) (([], sym (append-nil path), n, omega arith), tt)
      | inr n ↦
          let h : leb max_hop_count (length path) ≡ false = ground arith in
          elim (Option-cases (hops coin)) [
            | inl p ↦ rw (n, dfs, h, p) tt
            | inr (dexes, p) ↦
                rw (n, dfs, h, p)
                  (dfs_each-All (Extends hops coin (suc k) path) (λ c q. dfs ops (suc k) c q hops)
                    path dexes
                    (All-imp (λ d. Any (λ e. e ≡ d) dexes) _
                      (λ d m.
                        All-imp (Extends hops (ops.coin_out_type d) k (path ++ d ∷ []))
                          (Extends hops coin (suc k) path) (step-Extends k coin path dexes n p d m)
                          (dfs ops (suc k) (ops.coin_out_type d) (path ++ d ∷ []) hops)
                          (dfs_sound k (ops.coin_out_type d) (path ++ d ∷ [])
                            (omega (arith, length-append path (d ∷ [])))))
                      dexes (All-members dexes)))
          ]
    ]

    dfs_complete :
        (k : ℕ) (coin : String) (path r : List D)
        → length path + k ≡ max_hop_count
        → IsRoute hops coin r
        → length r ≤ k
        → Any (λ s. s ≡ path ++ r) (dfs ops (suc k) coin path hops)
    unfolding dfs
    dfs_complete k coin path [] e n l = rw (n, dfs) (inl (sym (append-nil path)))
    dfs_complete zero coin path (d ∷ ds) e h l = absurd (omega arith)
    dfs_complete (suc k) coin path (d ∷ ds) e (n, (dexes, p, m), route) l =
        let h : leb max_hop_count (length path) ≡ false = ground arith in
        let go = λ (c : String) (q : List D). dfs ops (suc k) c q hops in
        let found =
          dfs_complete k (ops.coin_out_type d) (path ++ d ∷ []) ds
            (omega (arith, length-append path (d ∷ []))) route (omega arith) in
        rw (n, dfs, h, p)
          (dfs_each-Any (λ s. s ≡ path ++ d ∷ ds) go path dexes
            (Any-imp (λ e. e ≡ d) _ (λ e q. rw q (rw (append_assoc path (d ∷ []) ds) at found))
              dexes m))

  -- The search from a coin pushes a route exactly when it is a route over the hops of at most two
  -- pools.
  pub dfs-IsRoute :
      (hops : Map (List D)) (coin : String) (r : List D)
      → Any (λ s. s ≡ r) (dfs ops (suc max_hop_count) coin [] hops)
        ↔ (IsRoute hops coin r × (length r ≤ max_hop_count))
  dfs-IsRoute hops coin r = (
    (λ h.
        All-Any_elim (Extends hops coin max_hop_count []) (λ s. s ≡ r)
          (λ s (r', e, route, l) q.
            subst (λ x. IsRoute hops coin x × (length x ≤ max_hop_count)) (sym e ∙ q) (route, l))
          (dfs ops (suc max_hop_count) coin [] hops) (dfs_sound hops max_hop_count coin [] refl) h),
    λ h. dfs_complete hops max_hop_count coin [] r refl h.0 h.1,
  )
