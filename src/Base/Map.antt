-- ===== src/Base/Map.antt =====
-- `HashMap` and `DashMap` with texts for keys, where the code only reads, writes and removes by key.
use poison_dart.Base.{String, Option, none, some, ite, ◌≡◌, ◌≢◌, ◌⊎◌, arith, str_dec}

abbrev pub Map {ℓ} : Type ℓ → Type ℓ
Map V = String → Option V

module _ {ℓ} {V : Type ℓ} where
  abbrev pub empty : Map V
  empty k = none

  abbrev pub insert : Map V → String → V → Map V
  insert m k v j = ite (str_dec j k) (some v) (m j)

  abbrev pub remove : Map V → String → Map V
  remove m k j = ite (str_dec j k) none (m j)

  -- What is left after a removal was there before, under another key.
  pub remove-some :
      (m : Map V) (k j : String) (v : V) → remove m k j ≡ some v → (j ≢ k) × (m j ≡ some v)
  remove-some m k j v h = ground arith

  -- What is there after a write was written, or stands under another key.
  pub insert-some :
      (m : Map V) (k j : String) (v w : V)
      → insert m k v j ≡ some w
      → ((k ≡ j) × (v ≡ w)) ⊎ ((j ≢ k) × (m j ≡ some w))
  insert-some m k j v w h = ground arith
