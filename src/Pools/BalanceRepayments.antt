-- ===== src/Pools/BalanceRepayments.antt =====
-- The repayments of flash swaps in balances of both coins.
use poison_dart.Base.{ℕ, ◌+◌, ◌≡◌, refl, ap, Bool, true, false, List, [], ◌∷◌, ◌++◌, String, ok}
use poison_dart.Move.{ObjectArg}
use poison_dart.Pools.{type_param}
use poison_dart.Pools.Balances.{repay_balances}
use poison_dart.Trade.{Argument, Command, Builder}
use poison_dart.Trade.Exec.{
  Exec, ◌>>=◌, return, input_obj, call_at, lift, zero_balance, into_balance, perform, split_arg,
}
use poison_dart.Trade.Exec.Rules.{
  Extends, Reads-return, Reads-obj_then, Extends-lift, Extends-bind, Extends-map, Extends-then_read,
}
use poison_dart.Trade.Exec.Calls.{
  framework, Extends-call_at, Extends-then, Extends-split_arg, Extends-zero_balance,
  Extends-into_balance, Extends-perform,
}
use poison_dart.Pools.BalanceLoans.{index_in}

-- The balances of both coins, at places `k` and `k + 1`: the coin that pays and an empty one.
abbrev pub balance_commands : (is_a2b : Bool) → (type0 type1 : String) → Argument → List Command
balance_commands true type0 type1 coin =
    framework "coin" "into_balance" type0 (coin ∷ []) ∷ framework "balance" "zero" type1 [] ∷ []
balance_commands false type0 type1 coin =
    framework "balance" "zero" type0 [] ∷ framework "coin" "into_balance" type1 (coin ∷ []) ∷ []

abbrev Balances :
    (is_a2b : Bool) (type_params : List String) (coin : Argument) (k : ℕ)
    → Argument × Argument
    → List Command
    → Type 0
Balances is_a2b type_params coin k balances cs =
    (type0 : String) × (type1 : String) × (type_param type_params 0 ≡ ok type0)
    × (type_param type_params 1 ≡ ok type1)
    × (balances ≡ (Argument.result k, Argument.result (k + 1)))
    × (cs ≡ balance_commands is_a2b type0 type1 coin)

-- The repayment with balances: the debt of the receipt is asked for and split off the coin, the
-- balances of both coins are made, and the call takes the receipt and these.
abbrev pub IsBalanceRepayment :
    (debts : List Argument → Command) (pay : List Argument → Command) (is_a2b : Bool)
    (type_params : List String) (k : ℕ) (coin receipt : Argument)
    → Argument
    → List Command
    → Type 0
IsBalanceRepayment debts pay is_a2b type_params k coin receipt rest cs =
    (type0 : String) × (type1 : String) × (pool : Argument) × (version : Argument) × (type_param
        type_params 0
      ≡ ok type0)
    × (type_param type_params 1 ≡ ok type1)
    × (rest ≡ coin)
    × (cs
        ≡ debts (receipt ∷ [])
            ∷ Command.split_coins coin (Argument.nested_result k (index_in is_a2b) ∷ [])
            ∷ balance_commands is_a2b type0 type1 (Argument.result (k + 1))
          ++ pay (
              pool
              ∷ receipt
              ∷ Argument.result (k + 1 + 1)
              ∷ Argument.result (k + 1 + 1 + 1)
              ∷ version
              ∷ [])
            ∷ [])

-- The arguments of the call, with the balances made on the way.
abbrev pub Arguments :
    (is_a2b : Bool) (type_params : List String) (coin receipt : Argument) (k : ℕ)
    → List Argument
    → List Command
    → Type 0
Arguments is_a2b type_params coin receipt k args cs =
    (type0 : String) × (type1 : String) × (pool : Argument) × (version : Argument) × (type_param
        type_params 0
      ≡ ok type0)
    × (type_param type_params 1 ≡ ok type1)
    × (args ≡ pool ∷ receipt ∷ Argument.result k ∷ Argument.result (k + 1) ∷ version ∷ [])
    × (cs ≡ balance_commands is_a2b type0 type1 coin)

module _ {B : Type 0} (builder : Builder B ObjectArg) where
  repay_balances-Balances :
      (is_a2b : Bool) (type_params : List String) (coin : Argument) (k : ℕ)
      → Extends builder k 2
          (Balances is_a2b type_params coin k)
          (repay_balances builder is_a2b type_params coin)
  unfolding repay_balances
  repay_balances-Balances true type_params coin k = Extends-lift builder k 2 _ _ λ type0 e.
      Extends-then builder k 1 _ _ _
        (λ balance_a. lift (type_param type_params 1) >>= λ type1.
          zero_balance builder type1 >>= λ balance_b. return (balance_a, balance_b))
        (Extends-into_balance builder k coin type0)
        (Extends-lift builder (k + 1) 1 _ _ λ type1 e'.
          Extends-map builder (k + 1) 1 (zero_balance builder type1)
            (λ balance_b. (Argument.result k, balance_b))
            (Extends-zero_balance builder (k + 1) type1)
            λ b cs (named, same). (type0, type1, e, e', cc, cc))
  repay_balances-Balances false type_params coin k = Extends-lift builder k 2 _ _ λ type0 e.
      Extends-then builder k 1 _ _ _
        (λ balance_a. lift (type_param type_params 1) >>= λ type1.
          into_balance builder coin type1 >>= λ balance_b. return (balance_a, balance_b))
        (Extends-zero_balance builder k type0)
        (Extends-lift builder (k + 1) 1 _ _ λ type1 e'.
          Extends-map builder (k + 1) 1 (into_balance builder coin type1)
            (λ balance_b. (Argument.result k, balance_b))
            (Extends-into_balance builder (k + 1) coin type1)
            λ b cs (named, same). (type0, type1, e, e', cc, cc))

  -- The part of the arguments after the pool.
  pub Extends-Arguments :
      (pool : Argument) (version : ObjectArg) (is_a2b : Bool) (type_params : List String)
      (coin receipt : Argument) (k : ℕ)
      → Extends builder k 2 (Arguments is_a2b type_params coin receipt k) (
          repay_balances builder is_a2b type_params coin >>= λ balances.
          input_obj builder version >>= λ version_arg.
          return (pool ∷ receipt ∷ balances.0 ∷ balances.1 ∷ version_arg ∷ []))
  Extends-Arguments pool version is_a2b type_params coin receipt k =
      Extends-then_read builder k 2 _ _ (repay_balances-Balances is_a2b type_params coin k)
        λ balances cs (type0, type1, e, e', named, same).
          Reads-obj_then builder version _ λ version_arg. Reads-return builder _ (
            type0,
            type1,
            pool,
            version_arg,
            e,
            e',
            ap (λ (b : Argument × Argument). pool ∷ receipt ∷ b.0 ∷ b.1 ∷ version_arg ∷ []) named,
            same,
          )

  -- The whole repayment, on arguments that are built with the balances.
  pub balance_repayment :
      (debts pay : List Argument → Command) (is_a2b : Bool) (type_params : List String) (k : ℕ)
      (coin receipt : Argument) (build : Argument → Exec B (List Argument))
      → ((repay_coin : Argument) (k' : ℕ)
          → Extends builder k' 2
              (Arguments is_a2b type_params repay_coin receipt k')
              (build repay_coin))
      → Extends builder k 5 (IsBalanceRepayment debts pay is_a2b type_params k coin receipt) (
          call_at builder (debts (receipt ∷ [])) >>= λ last_idx.
          split_arg builder coin (Argument.nested_result last_idx (index_in is_a2b))
          >>= λ repay_coin. build repay_coin >>= λ arguments.
              perform builder (pay arguments) >>= λ _. return coin)
  balance_repayment debts pay is_a2b type_params k coin receipt build builds =
      let debt = Argument.nested_result k (index_in is_a2b) in
      Extends-then builder k 4 (debts (receipt ∷ [])) k _ _
        (Extends-call_at builder k (debts (receipt ∷ [])))
        (Extends-then builder (k + 1) 3 (Command.split_coins coin (debt ∷ []))
          (Argument.result (k + 1)) (split_arg builder coin debt)
          (λ repay_coin.
            build repay_coin >>= λ arguments. perform builder (pay arguments) >>= λ _. return coin)
          (Extends-split_arg builder (k + 1) coin debt)
          (Extends-bind builder (k + 1 + 1) 2 1 (build (Argument.result (k + 1))) _
            (builds (Argument.result (k + 1)) (k + 1 + 1))
            λ args cs (type0, type1, pool, version, e, e', named, same).
              Extends-map builder (k + 1 + 1 + 2) 1 (perform builder (pay args)) (λ _. coin)
                (Extends-perform builder (k + 1 + 1 + 2) (pay args))
                λ done ds (_, last).
                  (type0, type1, pool, version, e, e', refl, grown named same last)))
    where
      grown :
          {args : List Argument} {cs ds : List Command} {xs : List Argument} {bs : List Command}
          {c d : Command}
          → args ≡ xs
          → cs ≡ bs
          → ds ≡ pay args ∷ []
          → c ∷ d ∷ cs ++ ds ≡ c ∷ d ∷ bs ++ pay xs ∷ []
      grown named same last = cc
