-- ===== src/Paths/Count.antt =====
-- How many routes the depth-first search can push.
use native.Mathlib.Nat.{le_trans}
use poison_dart.Base.{
  ℕ, zero, suc, ◌+◌, ◌*◌, ◌≤◌, ◌≡◌, inl, inr, true, false, List, [], ◌∷◌, ◌++◌, String, leb, arith,
  length, length-append, Bool-cases, Option-cases,
}
use poison_dart.Base.Map.{Map}
use poison_dart.Dex.{DexOps, is_native_coin}
use poison_dart.Paths.{max_hop_count, max_pool_count, dfs, dfs_each}
use poison_dart.Paths.Selected.{AreHops}

-- Ten to the number of hops.
abbrev pub most_routes : ℕ → ℕ
most_routes zero = 1
most_routes (suc hops) = max_pool_count * most_routes hops

most_routes-pos : (k : ℕ) → 1 ≤ most_routes k
most_routes-pos zero = omega arith
most_routes-pos (suc k) = omega (arith, most_routes-pos k)

mul-mono-le : (a b c : ℕ) → a ≤ b → a * c ≤ b * c
mul-mono-le a b c h = grind arith

module _ {D : Type 0} (ops : DexOps D) where
  length-dfs_each :
      (b : ℕ) (go : String → List D → List (List D)) (path : List D)
      → ((d : D) → length (go (ops.coin_out_type d) (path ++ d ∷ [])) ≤ b)
      → (dexes : List D) → length (dfs_each ops go path dexes) ≤ length dexes * b
  unfolding dfs_each
  length-dfs_each b go path h [] = omega arith
  length-dfs_each b go path h (d ∷ ds) = omega (
    arith,
    length-append (go (ops.coin_out_type d) (path ++ d ∷ [])) (dfs_each ops go path ds),
    h d,
    length-dfs_each b go path h ds,
  )

  module _ (hops : Map (List D)) (good : AreHops ops hops) where
    pub length-dfs-le :
        (k : ℕ) (coin : String) (path : List D)
        → length path + k ≡ max_hop_count
        → length (dfs ops (suc k) coin path hops) ≤ most_routes k
    unfolding dfs
    length-dfs-le zero coin path e = elim (Bool-cases (is_native_coin coin)) [
      | inl n ↦ rw (n, dfs) (omega arith)
      | inr n ↦
          let h : leb max_hop_count (length path) ≡ true = ground arith in
          rw (n, dfs, h) (omega arith)
    ]
    length-dfs-le (suc k) coin path e = elim (Bool-cases (is_native_coin coin)) [
      | inl n ↦ rw (n, dfs) (omega (arith, most_routes-pos k))
      | inr n ↦
          let h : leb max_hop_count (length path) ≡ false = ground arith in
          elim (Option-cases (hops coin)) [
            | inl p ↦ rw (n, dfs, h, p) (omega arith)
            | inr (dexes, p) ↦
                let few = (good coin dexes p).1 in
                let all =
                  length-dfs_each (most_routes k) (λ c q. dfs ops (suc k) c q hops) path
                    (λ d.
                      length-dfs-le k (ops.coin_out_type d) (path ++ d ∷ [])
                        (omega (arith, length-append path (d ∷ []))))
                    dexes in
                rw (n, dfs, h, p)
                  (le_trans all (mul-mono-le (length dexes) max_pool_count (most_routes k) few))
          ]
    ]
