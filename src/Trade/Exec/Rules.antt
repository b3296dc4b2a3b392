-- ===== src/Trade/Exec/Rules.antt =====
-- What an action adds to a transaction, with one rule for each way to build an action.
use mathlib.Core.List.{append-nil}
use poison_dart.Base.{
  ℕ, ◌+◌, ◌≤◌, ◌^◌, ◌≡◌, refl, ap, sym, ◌∙◌, inl, inr, List, [], ◌++◌, Result, ok, err,
  Result-cases, ok_err_elim, ok_injective, arith, length, length-append, subst,
}
use poison_dart.Trade.{Argument, Command, PureValue, Builder, TradeCtx}
use poison_dart.Trade.Step.{
  issued, IsInStep, Adds, Keeps, pure-Keeps, obj-Keeps, Keeps-IsInStep, Keeps-trans, Adds-append,
  Keeps-Adds,
}
use poison_dart.Trade.Exec.{Exec, return, lift, ◌>>=◌, input_pure, input_obj}

module _ {B A C : Type 0} where
  pub bind_inversion :
      (m : Exec B A) (f : A → Exec B C) (ctx : TradeCtx B) (r : C × TradeCtx B)
      → (m >>= f) ctx ≡ ok r
      → (a : A) × (mid : TradeCtx B) × (m ctx ≡ ok (a, mid)) × (f a mid ≡ ok r)
  unfolding ◌>>=◌
  bind_inversion m f ctx r e = elim (Result-cases (m ctx)) [
    | inl ((a, mid), q) ↦ (a, mid, q, rw (q, ◌>>=◌) at e)
    | inr (x, q) ↦ ok_err_elim {m = x} e (rw (q, ◌>>=◌))
  ]

module _ {B A C : Type 0} where
  pub bind_runs :
      (m : Exec B A) (f : A → Exec B C) (ctx mid : TradeCtx B) (a : A)
      → m ctx ≡ ok (a, mid)
      → (m >>= f) ctx ≡ f a mid
  unfolding ◌>>=◌
  bind_runs m f ctx mid a e = rw (e, ◌>>=◌) refl

module _ {B O : Type 0} (builder : Builder B O) where
  -- An action that adds no command, and what holds of its value.
  pub record Reads {A : Type 0} (P : A → Type 0) (m : Exec B A) : Type 0 where
    pub at :
        (ctx : TradeCtx B) (a : A) (ctx' : TradeCtx B)
        → m ctx ≡ ok (a, ctx')
        → Keeps builder ctx ctx' × P a

  -- An action at place `k` that adds `n` commands, and what holds of its value and of these.
  pub record Extends {A : Type 0} (k n : ℕ) (S : A → List Command → Type 0) (m : Exec B A)
      : Type 0 where
    pub at :
        (ctx : TradeCtx B) (a : A) (ctx' : TradeCtx B)
        → IsInStep builder ctx
        → length (issued builder ctx) ≡ k
        → k + n ≤ 2 ^ 16
        → m ctx ≡ ok (a, ctx')
        → (cs : List Command) × Adds builder ctx ctx' cs × (length cs ≡ n) × S a cs

  module _ {A : Type 0} {P : A → Type 0} where
    pub Reads-return : (a : A) → P a → Reads P (return a)
    unfolding return
    Reads-return a p = record {
      at = λ ctx b ctx' e.
          let same : (a, ctx) ≡ (b, ctx') = ok_injective e in
          (
            (
              ap (λ (r : A × TradeCtx B). issued builder r.1) (sym same),
              ap (λ (r : A × TradeCtx B). r.1.command_count) (sym same),
            ),
            subst (λ (r : A × TradeCtx B). P r.0) same p,
          );
    }

  pub Reads-lift : {A : Type 0} (r : Result A) → Reads (λ a. r ≡ ok a) (lift r)
  unfolding lift return
  Reads-lift (ok a) = Reads-return a refl
  Reads-lift (err m) = record { at = λ ctx a ctx' e. absurd cc }

  pub Reads-obj : (o : O) → Reads (λ _. Unit {0}) (input_obj builder o)
  unfolding input_obj
  Reads-obj o = record { at = λ ctx a ctx' e. (obj-Keeps builder ctx o a ctx' e, tt) }

  pub Reads-pure : (v : PureValue) → Reads (λ _. Unit {0}) (input_pure builder v)
  unfolding input_pure
  Reads-pure v = record { at = λ ctx a ctx' e. (pure-Keeps builder ctx v a ctx' e, tt) }

  module _ {A C : Type 0} {Q : A → Type 0} {P : C → Type 0} where
    pub Reads-bind :
        (m : Exec B A) (f : A → Exec B C)
        → Reads Q m
        → ((a : A) → Q a → Reads P (f a))
        → Reads P (m >>= f)
    Reads-bind m f rm rf = record {
      at = λ ctx c ctx' e.
          let (a, mid, first, second) = bind_inversion m f ctx (c, ctx') e in
          let (keeps, q) = rm.at ctx a mid first in
          let (keeps', p) = (rf a q).at mid c ctx' second in
          (Keeps-trans builder ctx mid ctx' keeps keeps', p);
    }

  -- Inputs and results before other actions.
  module _ {C : Type 0} {P : C → Type 0} where
    pub Reads-obj_then :
        (o : O) (f : Argument → Exec B C)
        → ((a : Argument) → Reads P (f a))
        → Reads P (input_obj builder o >>= f)
    Reads-obj_then o f rest = Reads-bind _ f (Reads-obj o) λ a _. rest a

    pub Reads-pure_then :
        (v : PureValue) (f : Argument → Exec B C)
        → ((a : Argument) → Reads P (f a))
        → Reads P (input_pure builder v >>= f)
    Reads-pure_then v f rest = Reads-bind _ f (Reads-pure v) λ a _. rest a

    pub Reads-lift_then :
        {A : Type 0} (r : Result A) (f : A → Exec B C)
        → ((a : A) → Reads P (f a))
        → Reads P (lift r >>= f)
    Reads-lift_then r f rest = Reads-bind _ f (Reads-lift r) λ a _. rest a

  module _ {A C : Type 0} {S : C → List Command → Type 0} where
    pub Extends-read :
        {Q : A → Type 0} (k n : ℕ) (m : Exec B A) (f : A → Exec B C)
        → Reads Q m
        → ((a : A) → Q a → Extends k n S (f a))
        → Extends k n S (m >>= f)
    Extends-read k n m f rm ef = record {
      at = λ ctx c ctx' h l room e.
          let (a, mid, first, second) = bind_inversion m f ctx (c, ctx') e in
          let (keeps, q) = rm.at ctx a mid first in
          let (cs, adds, size, s) =
            (ef a q).at mid c ctx' (Keeps-IsInStep builder ctx mid keeps h) (ap length keeps.0 ∙ l)
              room second in
          (cs, Keeps-Adds builder ctx mid ctx' cs keeps adds, size, s);
    }

    pub Extends-lift :
        (k n : ℕ) (r : Result A) (f : A → Exec B C)
        → ((a : A) → r ≡ ok a → Extends k n S (f a))
        → Extends k n S (lift r >>= f)
    unfolding ◌>>=◌ lift
    Extends-lift k n (ok a) f ef = ef a refl
    Extends-lift k n (err m) f ef = record { at = λ ctx c ctx' h l room e. absurd cc }

    -- An action that adds commands of its own, before another.
    pub Extends-bind :
        {R : A → List Command → Type 0} (k m n : ℕ) (x : Exec B A) (f : A → Exec B C)
        → Extends k m R x
        → ((a : A) (cs : List Command) → R a cs → Extends (k + m) n (λ c ds. S c (cs ++ ds)) (f a))
        → Extends k (m + n) S (x >>= f)
    Extends-bind k m n x f ex ef = record {
      at = λ ctx c ctx' h l room e.
          let (a, mid, first, second) = bind_inversion x f ctx (c, ctx') e in
          let (cs, adds, size, r) = ex.at ctx a mid h l (omega arith) first in
          let grown = ap length adds.0 ∙ length-append (issued builder ctx) cs in
          let (ds, adds', size', s) =
            (ef a cs r).at mid c ctx' adds.1 (omega arith) (omega arith) second in
          (
            cs ++ ds,
            Adds-append builder ctx mid ctx' cs ds adds adds',
            length-append cs ds ∙ omega arith,
            s,
          );
    }

  module _ {A : Type 0} {S : A → List Command → Type 0} where
    pub Extends-return : (k : ℕ) (a : A) → S a [] → Extends k 0 S (return a)
    unfolding return
    Extends-return k a s = record {
      at = λ ctx b ctx' h l room e.
          let same : (a, ctx) ≡ (b, ctx') = ok_injective e in
          (
            [],
            subst (λ (r : A × TradeCtx B). Adds builder ctx r.1 []) same
                (sym (append-nil (issued builder ctx)), h),
            refl,
            subst (λ (r : A × TradeCtx B). S r.0 []) same s,
          );
    }

    pub Extends-resize : (k n n' : ℕ) (m : Exec B A) → n ≡ n' → Extends k n S m → Extends k n' S m
    Extends-resize k n n' m e em = subst (λ i. Extends k i S m) e em

    pub Extends-weaken :
        {R : A → List Command → Type 0} (k n : ℕ) (m : Exec B A)
        → Extends k n R m
        → ((a : A) (cs : List Command) → R a cs → S a cs)
        → Extends k n S m
    Extends-weaken k n m em w = record {
      at = λ ctx a ctx' h l room e.
          let (cs, adds, size, r) = em.at ctx a ctx' h l room e in (cs, adds, size, w a cs r);
    }

  module _ {A C : Type 0} {S : C → List Command → Type 0} where
    -- An action that adds no command, after one that adds some.
    pub Extends-then_read :
        {R : A → List Command → Type 0} (k n : ℕ) (m : Exec B A) (f : A → Exec B C)
        → Extends k n R m
        → ((a : A) (cs : List Command) → R a cs → Reads (λ c. S c cs) (f a))
        → Extends k n S (m >>= f)
    Extends-then_read k n m f em rf = record {
      at = λ ctx c ctx' h l room e.
          let (a, mid, first, second) = bind_inversion m f ctx (c, ctx') e in
          let (cs, adds, size, r) = em.at ctx a mid h l room first in
          let (keeps, s) = (rf a cs r).at mid c ctx' second in
          (cs, (keeps.0 ∙ adds.0, Keeps-IsInStep builder mid ctx' keeps adds.1), size, s);
    }

    pub Extends-map :
        {R : A → List Command → Type 0} (k n : ℕ) (m : Exec B A) (g : A → C)
        → Extends k n R m
        → ((a : A) (cs : List Command) → R a cs → S (g a) cs)
        → Extends k n S (m >>= λ a. return (g a))
    Extends-map k n m g em w = Extends-then_read k n m _ em λ a cs r. Reads-return (g a) (w a cs r)
