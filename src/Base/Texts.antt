-- ===== src/Base/Texts.antt =====
-- The order of texts.
use Prim.Native.Nat.{ℕ, Ordering, compare as compare_ℕ}
use Prim.Native.Char.{code}
use Prim.Native.String.compare
use Prim.Native.String.{String, [], ◌∷◌, compare, then}
use mathlib.Core.Bool.{Bool, true, false}
use mathlib.Core.Logic.{◌⊎◌, inl, inr}
use mathlib.Core.Path.{◌≡◌, refl, sym, ap, ◌∙◌}
use native.Mathlib.Omega.{arith}
use text.Mathlib.TextEquality.{path_by_compare}

abbrev opposite : Ordering → Ordering
opposite Ordering.lt = Ordering.gt
opposite Ordering.eq = Ordering.eq
opposite Ordering.gt = Ordering.lt

compare_ℕ-opposite : (m n : ℕ) → compare_ℕ n m ≡ opposite (compare_ℕ m n)
compare_ℕ-opposite m n = ground arith

then-opposite : (o p : Ordering) → then (opposite o) (opposite p) ≡ opposite (then o p)
then-opposite Ordering.lt p = refl
then-opposite Ordering.eq p = refl
then-opposite Ordering.gt p = refl

compare-opposite : (s t : String) → compare t s ≡ opposite (compare s t)
compare-opposite [] [] = compare.nil-nil ∙ ap opposite (sym compare.nil-nil)
compare-opposite [] (d ∷ t) = compare.cons-nil d t ∙ ap opposite (sym (compare.nil-cons d t))
compare-opposite (c ∷ s) [] = compare.nil-cons c s ∙ ap opposite (sym (compare.cons-nil c s))
compare-opposite (c ∷ s) (d ∷ t) =
    compare.cons-cons d c t s
    ∙ (λ i. then (compare_ℕ-opposite (code c) (code d) i) (compare-opposite s t i))
    ∙ then-opposite (compare_ℕ (code c) (code d)) (compare s t)
    ∙ ap opposite (sym (compare.cons-cons c d s t))

-- `a < b` on `&str`.
unfoldable pub str_lt : String → String → Bool
str_lt a b = elim (compare a b) [ Ordering.lt ↦ true | _ ↦ false ]

by_order :
    (o : Ordering) (a b : String)
    → compare a b ≡ o
    → ((str_lt a b ≡ true) × (str_lt b a ≡ false))
      ⊎ ((str_lt a b ≡ false) × (str_lt b a ≡ true))
      ⊎ (a ≡ b)
unfolding str_lt
by_order Ordering.lt a b e = inl (rw (str_lt, e) refl, rw (str_lt, compare-opposite a b, e) refl)
by_order Ordering.eq a b e = inr (inr (path_by_compare a b e))
by_order Ordering.gt a b e =
    inr (inl (rw (str_lt, e) refl, rw (str_lt, compare-opposite a b, e) refl))

-- One of two different texts is less, and only one.
pub str_lt-cases :
    (a b : String)
    → ((str_lt a b ≡ true) × (str_lt b a ≡ false))
      ⊎ ((str_lt a b ≡ false) × (str_lt b a ≡ true))
      ⊎ (a ≡ b)
str_lt-cases a b = by_order (compare a b) a b refl
