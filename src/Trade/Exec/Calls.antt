-- ===== src/Trade/Exec/Calls.antt =====
-- The actions that add a single command, and the rule for one before other actions.
use poison_dart.Base.{
  ℕ, ◌+◌, ◌<◌, ◌^◌, ◌≡◌, refl, ap, sym, ◌∙◌, List, [], ◌∷◌, ◌++◌, ok, ok_injective, arith, length,
  subst, String,
}
use poison_dart.Trade.{Argument, Command, Builder, TradeCtx, issue, command, last_command_idx}
use poison_dart.Trade.Step.{issued, Adds, command-Adds, last_command_idx-Adds}
use poison_dart.Trade.Exec.{
  Exec, ◌>>=◌, call_at, call, perform, split_arg, destroy_zero, zero_balance, from_balance,
  into_balance,
}
use poison_dart.Trade.Exec.Rules.{Extends, Extends-bind}

-- A single command and its value.
abbrev pub IsOne : {A : Type 0} → A → Command → A → List Command → Type 0
IsOne v c a cs = (a ≡ v) × (cs ≡ c ∷ [])

-- The calls of the framework.
abbrev pub framework : (module_name function coin_type : String) → List Argument → Command
framework module_name function coin_type =
    Command.move_call "0x2" module_name function (coin_type ∷ [])

module _ {B O : Type 0} (builder : Builder B O) where
  Extends-IsOne :
      {A : Type 0} (k : ℕ) (c : Command) (v : A) (val : TradeCtx B → A) (m : Exec B A)
      → ((ctx : TradeCtx B) → m ctx ≡ ok (val (command builder ctx c), command builder ctx c))
      → ((ctx ctx' : TradeCtx B)
          → Adds builder ctx ctx' (c ∷ [])
          → length (issued builder ctx) ≡ k
          → k < 2 ^ 16
          → val ctx' ≡ v)
      → Extends builder k 1 (IsOne v c) m
  Extends-IsOne {A} k c v val m runs named = record {
    at = λ ctx a ctx' h l room e.
        let same : (val (command builder ctx c), command builder ctx c) ≡ (a, ctx') =
          ok_injective (sym (runs ctx) ∙ e) in
        let adds = command-Adds builder ctx c h in
        (
          c ∷ [],
          subst (λ (r : A × TradeCtx B). Adds builder ctx r.1 (c ∷ [])) same adds,
          refl,
          (
            ap (λ (r : A × TradeCtx B). r.0) (sym same)
                ∙ named ctx (command builder ctx c) adds l (omega arith),
            refl,
          ),
        );
  }

  pub Extends-call_at : (k : ℕ) (c : Command) → Extends builder k 1 (IsOne k c) (call_at builder c)
  unfolding call_at
  Extends-call_at k c =
      Extends-IsOne k c k (last_command_idx builder) (call_at builder c) (λ ctx. refl)
        λ ctx ctx' adds l room. last_command_idx-Adds builder ctx ctx' c adds (omega arith) ∙ l

  -- A command whose value is its result.
  result_command :
      (k : ℕ) (c : Command) (m : Exec B Argument)
      → ((ctx : TradeCtx B) → m ctx ≡ ok (issue builder ctx c))
      → Extends builder k 1 (IsOne (Argument.result k) c) m
  unfolding issue
  result_command k c m runs =
      Extends-IsOne k c (Argument.result k) (λ ctx. Argument.result (last_command_idx builder ctx))
        m runs
        λ ctx ctx' adds l room.
          ap Argument.result (last_command_idx-Adds builder ctx ctx' c adds (omega arith) ∙ l)

  pub Extends-call :
      (k : ℕ) (c : Command) → Extends builder k 1 (IsOne (Argument.result k) c) (call builder c)
  unfolding call
  Extends-call k c = result_command k c (call builder c) λ ctx. refl

  pub Extends-split_arg :
      (k : ℕ) (coin amount : Argument)
      → Extends builder k 1
          (IsOne (Argument.result k) (Command.split_coins coin (amount ∷ [])))
          (split_arg builder coin amount)
  unfolding split_arg
  Extends-split_arg k coin amount = result_command k _ (split_arg builder coin amount) λ ctx. refl

  pub Extends-zero_balance :
      (k : ℕ) (t : String)
      → Extends builder k 1
          (IsOne (Argument.result k) (framework "balance" "zero" t []))
          (zero_balance builder t)
  unfolding zero_balance
  Extends-zero_balance k t = result_command k _ (zero_balance builder t) λ ctx. refl

  pub Extends-from_balance :
      (k : ℕ) (b : Argument) (t : String)
      → Extends builder k 1
          (IsOne (Argument.result k) (framework "coin" "from_balance" t (b ∷ [])))
          (from_balance builder b t)
  unfolding from_balance
  Extends-from_balance k b t = result_command k _ (from_balance builder b t) λ ctx. refl

  pub Extends-into_balance :
      (k : ℕ) (c : Argument) (t : String)
      → Extends builder k 1
          (IsOne (Argument.result k) (framework "coin" "into_balance" t (c ∷ [])))
          (into_balance builder c t)
  unfolding into_balance
  Extends-into_balance k c t = result_command k _ (into_balance builder c t) λ ctx. refl

  pub Extends-perform : (k : ℕ) (c : Command) → Extends builder k 1 (IsOne tt c) (perform builder c)
  unfolding perform
  Extends-perform k c =
      Extends-IsOne k c tt (λ _. tt) (perform builder c) (λ ctx. refl) λ ctx ctx' adds l room. refl

  pub Extends-destroy_zero :
      (k : ℕ) (b : Argument) (t : String)
      → Extends builder k 1
          (IsOne tt (framework "balance" "destroy_zero" t (b ∷ [])))
          (destroy_zero builder b t)
  unfolding destroy_zero
  Extends-destroy_zero k b t =
      Extends-IsOne k _ tt (λ _. tt) (destroy_zero builder b t) (λ ctx. refl)
        λ ctx ctx' adds l room. refl

  module _ {A C : Type 0} {S : C → List Command → Type 0} where
    -- A single command before other actions.
    pub Extends-then :
        (k n : ℕ) (c : Command) (v : A) (m : Exec B A) (f : A → Exec B C)
        → Extends builder k 1 (IsOne v c) m
        → Extends builder (k + 1) n (λ b ds. S b (c ∷ ds)) (f v)
        → Extends builder k (1 + n) S (m >>= f)
    Extends-then k n c v m f em ef = Extends-bind builder k 1 n m f em λ a cs (named, same).
        subst
          (λ (p : A × List Command). Extends builder (k + 1) n (λ b ds. S b (p.1 ++ ds)) (f p.0))
          (let e : (v, c ∷ []) ≡ (a, cs) = cc in e) ef
