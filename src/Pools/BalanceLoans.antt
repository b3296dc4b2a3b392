-- ===== src/Pools/BalanceLoans.antt =====
-- The flash swaps that return balances of both coins.
use poison_dart.Base.{ℕ, ◌+◌, ◌≡◌, refl, Bool, Option, List, [], ◌∷◌, String, if◌then◌else◌, ok}
use poison_dart.Move.{ObjectArg}
use poison_dart.Pools.{type_param}
use poison_dart.Pools.Balances.{receive}
use poison_dart.Trade.{Argument, Command, Builder, FlashResult}
use poison_dart.Trade.Exec.{Exec, ◌>>=◌, return, call_at, destroy_zero, from_balance}
use poison_dart.Trade.Exec.Rules.{
  Reads, Extends, Extends-read, Extends-lift, Extends-map, Extends-weaken,
}
use poison_dart.Trade.Exec.Calls.{
  framework, Extends-call_at, Extends-then, Extends-destroy_zero, Extends-from_balance,
}

-- Which of the two coins goes in, and which comes out.
abbrev pub index_in : (is_a2b : Bool) → ℕ
index_in is_a2b = if is_a2b then 0 else 1

abbrev pub index_out : (is_a2b : Bool) → ℕ
index_out is_a2b = if is_a2b then 1 else 0

-- The two commands after a call, the one before place `k`, that returned both balances at `from`.
abbrev Receives :
    (is_a2b : Bool) (type_params : List String) (from k : ℕ) → Argument → List Command → Type 0
Receives is_a2b type_params from k coin cs =
    (type_in : String) × (type_out : String) × (type_param type_params (index_in is_a2b)
      ≡ ok type_in)
    × (type_param type_params (index_out is_a2b) ≡ ok type_out)
    × (coin ≡ Argument.result (k + 1))
    × (cs
        ≡ framework "balance" "destroy_zero" type_in
            (Argument.nested_result from (index_in is_a2b) ∷ [])
          ∷ framework "coin" "from_balance" type_out
              (Argument.nested_result from (index_out is_a2b) ∷ [])
          ∷ [])

-- A call of both balances, on arguments of which `P` holds, followed by the two commands that
-- receive the coin.
abbrev pub IsBalanceLoan :
    (P : List Argument → Type 0) (call_on : List Argument → Command) (is_a2b : Bool)
    (type_params : List String) (k : ℕ)
    → FlashResult
    → List Command
    → Type 0
IsBalanceLoan P call_on is_a2b type_params k flash cs =
    (args : List Argument) × (rest : List Command) × P args
    × Receives is_a2b type_params k (k + 1) flash.coin_out rest
    × (flash.receipt ≡ Argument.nested_result k 2)
    × (cs ≡ call_on args ∷ rest)

module _ {B : Type 0} (builder : Builder B ObjectArg) where
  receive-Receives :
      (is_a2b : Bool) (type_params : List String) (from k : ℕ)
      → Extends builder k 2
          (Receives is_a2b type_params from k)
          (receive builder is_a2b type_params from)
  unfolding receive
  receive-Receives is_a2b type_params from k = Extends-lift builder k 2 _ _ λ type_in e.
      Extends-lift builder k 2 _ _ λ type_out e'.
        let none_left = Argument.nested_result from (index_in is_a2b) in
        let received = Argument.nested_result from (index_out is_a2b) in
        Extends-then builder k 1 (framework "balance" "destroy_zero" type_in (none_left ∷ [])) tt
          (destroy_zero builder none_left type_in) (λ _. from_balance builder received type_out)
          (Extends-destroy_zero builder k none_left type_in)
          (Extends-weaken builder (k + 1) 1 (from_balance builder received type_out)
            (Extends-from_balance builder (k + 1) received type_out)
            λ coin cs (named, same). (type_in, type_out, e, e', named, cc))

  pub balance_loan :
      (P : List Argument → Type 0) (call_on : List Argument → Command) (is_a2b : Bool)
      (type_params : List String) (k : ℕ) (pool : Option Argument) (build : Exec B (List Argument))
      → Reads builder P build
      → Extends builder k 3
          (λ flash cs. (flash.pool ≡ pool) × IsBalanceLoan P call_on is_a2b type_params k flash cs)
          (build >>= λ args. call_at builder (call_on args) >>= λ last_idx.
            receive builder is_a2b type_params last_idx >>= λ coin_out. return (record {
              coin_out = coin_out;
              receipt = Argument.nested_result last_idx 2;
              pool = pool;
            }))
  balance_loan P call_on is_a2b type_params k pool build reads =
      Extends-read builder k 3 build _ reads λ args p.
        Extends-then builder k 2 (call_on args) k (call_at builder (call_on args)) _
          (Extends-call_at builder k (call_on args))
          (Extends-map builder (k + 1) 2 (receive builder is_a2b type_params k) _
            (receive-Receives is_a2b type_params k (k + 1))
            λ coin_out cs received. (refl, (args, cs, p, received, refl, refl)))
