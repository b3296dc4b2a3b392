-- ===== src/Base/Results.antt =====
-- `eyre::Result`: a value or a message. `ensure` is the macro, `ok_or` the conversion of an
-- `Option`, and a `do` block is a chain of `?`.
use Prim.Native.String.{String}
use mathlib.Core.Bool.{Bool}
use mathlib.Core.Logic.{◌⊎◌, inl, inr}
use mathlib.Core.Path.{◌≡◌, refl}
use mathlib.Core.Option.{Option, none, some}
use poison_dart.Base.Tests.{if◌then◌else◌}

pub data Result {ℓ} (T : Type ℓ) : Type ℓ where
  ok : (value : T) → Result T
  err : (message : String) → Result T

infixl 5 ◌>>=◌ ◌>>◌
abbrev pub ◌>>=◌ {ℓ κ} : {S : Type ℓ} {T : Type κ} → Result S → (S → Result T) → Result T
r >>= next = elim r [ ok value ↦ next value | err message ↦ err message ]

abbrev pub ◌>>◌ {ℓ κ} : {S : Type ℓ} {T : Type κ} → Result S → Result T → Result T
r >> next = elim r [ ok _ ↦ next | err message ↦ err message ]

abbrev pub ensure : Bool → String → Result (Unit {0})
ensure holds message = if holds then ok tt else err message

abbrev pub ok_or {ℓ} : {T : Type ℓ} → Option T → String → Result T
ok_or o message = elim o [ some value ↦ ok value | none ↦ err message ]

pub Result-cases {ℓ} :
    {T : Type ℓ} (r : Result T) → ((v : T) × (r ≡ ok v)) ⊎ ((m : String) × (r ≡ err m))
Result-cases (ok v) = inl (v, refl)
Result-cases (err m) = inr (m, refl)

-- A result is not both a value and an error.
pub ok_err_elim {ℓ κ} :
    {T : Type ℓ} {C : Type κ} {r : Result T} {v : T} {m : String} → r ≡ ok v → r ≡ err m → C
ok_err_elim e f = absurd cc

pub ok_injective {ℓ} : {T : Type ℓ} {v w : T} → ok v ≡ ok w → v ≡ w
ok_injective e = cc

pub some_injective {ℓ} : {T : Type ℓ} {v w : T} → some v ≡ some w → v ≡ w
some_injective e = cc
