-- ===== src/Dex.antt =====
-- `bin/arb/src/defi/mod.rs` and `trade.rs`: what the rest of the bot sees of a pool, and paths.
use poison_dart.Base.{
  ℕ, ◌≡◌, Bool, false, ◌||◌, not, Option, none, some, List, [], ◌∷◌, String, ◌==◌, str_dec, ite,
  true,
}

-- `SUI_COIN_TYPE` of the SDK.
abbrev pub sui_coin_type : String
sui_coin_type = "0x2::sui::SUI"

-- `utils::coin::is_native_coin`.
unfoldable pub is_native_coin : String → Bool
is_native_coin coin_type = ite (str_dec coin_type sui_coin_type) true false

-- The methods of the trait `Dex` that read or turn a pool. A law says what each implementation in
-- the repository does: `flip` exchanges the two coins.
pub record DexOps {ℓ} (D : Type ℓ) : Type ℓ where
  pub coin_in_type : D → String
  pub coin_out_type : D → String
  pub liquidity : D → ℕ
  pub object_id : D → ℕ
  pub flip : D → D
  pub coin_in_type-flip : (d : D) → coin_in_type (flip d) ≡ coin_out_type d
  pub coin_out_type-flip : (d : D) → coin_out_type (flip d) ≡ coin_in_type d
  pub liquidity-flip : (d : D) → liquidity (flip d) ≡ liquidity d
  pub object_id-flip : (d : D) → object_id (flip d) ≡ object_id d

pub record DexPath {ℓ} (D : Type ℓ) : Type ℓ where
  pub path : List D

module _ {ℓ} {D : Type ℓ} where
  unfoldable pub is_empty : DexPath D → Bool
  is_empty p = elim p.path [ [] ↦ true | _ ↦ false ]

  -- `iter().any(...)`.
  unfoldable pub any : (D → Bool) → List D → Bool
  any test [] = false
  any test (d ∷ ds) = test d || any test ds

module _ {ℓ} {D : Type ℓ} (ops : DexOps D) where
  open ops use {object_id}

  -- Two pools are equal if their object ids are.
  abbrev pub same_dex : D → D → Bool
  same_dex d e = object_id d == object_id e

  unfoldable pub is_disjoint : DexPath D → DexPath D → Bool
  unfolding any
  is_disjoint p q = not (any (λ d. any (same_dex d) q.path) p.path)

  unfoldable pub contains_pool : DexPath D → Option ℕ → Bool
  unfolding any
  contains_pool p none = false
  contains_pool p (some pool_id) = any (λ d. object_id d == pool_id) p.path

  -- `coin_in_type` and `coin_out_type` of a path. The empty path panics: none.
  unfoldable pub first_in : List D → Option String
  first_in [] = none
  first_in (d ∷ ds) = some (ops.coin_in_type d)

  unfoldable pub last_out : List D → Option String
  last_out [] = none
  last_out (d ∷ []) = some (ops.coin_out_type d)
  last_out (d ∷ e ∷ ds) = last_out (e ∷ ds)
