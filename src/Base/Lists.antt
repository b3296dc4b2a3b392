-- ===== src/Base/Lists.antt =====
-- Lists measured by native numbers, and predicates on all or some of their items.
use Prim.Native.Nat.{ℕ, zero, suc, ◌+◌, ◌≤◌, ◌<◌}
use mathlib.Core.List.{List, [], ◌∷◌, ◌++◌, map}
use mathlib.Core.Logic.{◌⊎◌, inl, inr}
use mathlib.Core.Option.{Option, none, some}
use mathlib.Core.Path.{◌≡◌, refl, ap}
use native.Mathlib.Omega.{arith}

module _ {ℓ} {A : Type ℓ} where
  abbrev pub length : List A → ℕ
  length [] = 0
  length (x ∷ xs) = suc (length xs)

  abbrev pub get_elem? : List A → ℕ → Option A
  get_elem? [] i = none
  get_elem? (x ∷ xs) zero = some x
  get_elem? (x ∷ xs) (suc i) = get_elem? xs i

  abbrev pub take : ℕ → List A → List A
  take zero xs = []
  take (suc n) [] = []
  take (suc n) (x ∷ xs) = x ∷ take n xs

  pub length-append : (xs ys : List A) → length (xs ++ ys) ≡ length xs + length ys
  length-append [] ys = omega arith
  length-append (x ∷ xs) ys = omega (arith, length-append xs ys)

-- Every item has the property; some item has it.
abbrev pub All {ℓ κ} : {A : Type ℓ} → (A → Type κ) → List A → Type κ
All P [] = Unit
All P (x ∷ xs) = P x × All P xs

abbrev pub Any {ℓ} : {A : Type ℓ} → (A → Type 0) → List A → Type 0
Any P [] = ⊥
Any P (x ∷ xs) = P x ⊎ Any P xs

module _ {ℓ} {A : Type ℓ} where
  pub All-imp {κ κ'} :
      (P : A → Type κ) (Q : A → Type κ')
      → ((a : A) → P a → Q a)
      → (xs : List A) → All P xs
      → All Q xs
  All-imp P Q f [] h = tt
  All-imp P Q f (x ∷ xs) h = (f x h.0, All-imp P Q f xs h.1)

  -- An item with `Q` among items with `P` has both.
  pub Any-All :
      (P Q R : A → Type 0)
      → ((a : A) → P a → Q a → R a)
      → (xs : List A) → All P xs
      → Any Q xs
      → Any R xs
  Any-All P Q R f (x ∷ xs) h (inl q) = inl (f x h.0 q)
  Any-All P Q R f (x ∷ xs) h (inr q) = inr (Any-All P Q R f xs h.1 q)
  Any-All P Q R f [] h q = absurd q

  pub Any_elim : {C : Type 0} (P : A → Type 0) → ((a : A) → P a → C) → (xs : List A) → Any P xs → C
  Any_elim P f [] h = absurd h
  Any_elim P f (x ∷ xs) (inl h) = f x h
  Any_elim P f (x ∷ xs) (inr h) = Any_elim P f xs h

module _ {ℓ} {A : Type ℓ} where
  pub All-append {κ} : (P : A → Type κ) (xs ys : List A) → All P xs → All P ys → All P (xs ++ ys)
  All-append P [] ys h k = k
  All-append P (x ∷ xs) ys h k = (h.0, All-append P xs ys h.1 k)

  pub Any-append_left : (P : A → Type 0) (xs ys : List A) → Any P xs → Any P (xs ++ ys)
  Any-append_left P [] ys h = absurd h
  Any-append_left P (x ∷ xs) ys (inl h) = inl h
  Any-append_left P (x ∷ xs) ys (inr h) = inr (Any-append_left P xs ys h)

  pub Any-append_right : (P : A → Type 0) (xs ys : List A) → Any P ys → Any P (xs ++ ys)
  Any-append_right P [] ys h = h
  Any-append_right P (x ∷ xs) ys h = inr (Any-append_right P xs ys h)

  pub All-take {κ} : (P : A → Type κ) (n : ℕ) (xs : List A) → All P xs → All P (take n xs)
  All-take P zero xs h = tt
  All-take P (suc n) [] h = tt
  All-take P (suc n) (x ∷ xs) h = (h.0, All-take P n xs h.1)

  pub length-take-le : (n : ℕ) (xs : List A) → length (take n xs) ≤ n
  length-take-le zero xs = omega arith
  length-take-le (suc n) [] = omega arith
  length-take-le (suc n) (x ∷ xs) = omega (arith, length-take-le n xs)

  pub All-map {κ κ'} :
      {B : Type κ} (f : A → B) (P : B → Type κ') (xs : List A)
      → All (λ x. P (f x)) xs
      → All P (map f xs)
  All-map f P [] h = tt
  All-map f P (x ∷ xs) h = (h.0, All-map f P xs h.1)

  pub length-map {κ} : {B : Type κ} (f : A → B) (xs : List A) → length (map f xs) ≡ length xs
  length-map f [] = refl
  length-map f (x ∷ xs) = ap suc (length-map f xs)

  pub Any-imp : (P Q : A → Type 0) → ((a : A) → P a → Q a) → (xs : List A) → Any P xs → Any Q xs
  Any-imp P Q f [] h = absurd h
  Any-imp P Q f (x ∷ xs) (inl h) = inl (f x h)
  Any-imp P Q f (x ∷ xs) (inr h) = inr (Any-imp P Q f xs h)

  -- What all items have, an item that is found has too.
  pub All-Any_elim {κ κ'} :
      {C : Type κ'} (P : A → Type κ) (Q : A → Type 0)
      → ((a : A) → P a → Q a → C)
      → (xs : List A) → All P xs
      → Any Q xs
      → C
  All-Any_elim P Q f [] h k = absurd k
  All-Any_elim P Q f (x ∷ xs) h (inl k) = f x h.0 k
  All-Any_elim P Q f (x ∷ xs) h (inr k) = All-Any_elim P Q f xs h.1 k

pub List-cases {ℓ} :
    {A : Type ℓ} (xs : List A) → (xs ≡ []) ⊎ ((x : A) × (ys : List A) × (xs ≡ x ∷ ys))
List-cases [] = inl refl
List-cases (x ∷ xs) = inr (x, xs, refl)

pub get_elem?-some {ℓ} :
    {A : Type ℓ} (xs : List A) (i : ℕ) → i < length xs → (x : A) × (get_elem? xs i ≡ some x)
get_elem?-some [] i h = absurd (omega arith)
get_elem?-some (x ∷ xs) zero h = (x, refl)
get_elem?-some (x ∷ xs) (suc i) h = get_elem?-some xs i (omega arith)

-- What each member has, all have.
pub All-members :
    {A : Type 0} (Q : A → Type 0) (xs : List A) → ((x : A) → Any (λ y. y ≡ x) xs → Q x) → All Q xs
All-members Q [] f = tt
All-members Q (x ∷ xs) f = (f x (inl refl), All-members Q xs (λ y h. f y (inr h)))
