-- ===== src/Trade/Trader/Bids.antt =====
-- The bid in a transaction: it is split off the profit.
use mathlib.Core.List.{append-nil}
use poison_dart.Base.{
  subst, ℕ, ◌+◌, ◌≤◌, ◌^◌, ◌≡◌, refl, ap, sym, ◌∙◌, inl, inr, true, false, List, [], ◌∷◌, arith,
  length, ok, ltb, Result-cases, Bool-cases, Option-cases, ok_err_elim, ok_injective,
}
use poison_dart.Dex.{sui_coin_type}
use poison_dart.Source.{Source, is_shio, bid_amount}
use poison_dart.Trade.{Argument, Command, PureValue, Builder, TradeCtx, pure, obj, split_coin_arg}
use poison_dart.Trade.Step.{issued, IsInStep, Adds}
use poison_dart.Trade.Exec.{Exec, input_pure, input_obj, split_arg, into_balance, perform, ◌>>=◌}
use poison_dart.Trade.Exec.Rules.{
  Extends, Extends-read, Reads-pure, Reads-obj, Extends-weaken, bind_runs,
}
use poison_dart.Trade.Exec.Calls.{
  framework, Extends-then, Extends-split_arg, Extends-into_balance, Extends-perform,
}
use poison_dart.Trade.Navi.{Navi}
use poison_dart.Trade.Shio.{Shio, shio_package, next_state, submit_bid}
use poison_dart.Trade.Trader.{TradeOps, bid}

-- The commands of a bid at place `k` of a transaction.
abbrev bid_commands : (k : ℕ) → (profit amount state bid : Argument) → List Command
bid_commands k profit amount state bid =
    Command.split_coins profit (amount ∷ [])
    ∷ framework "coin" "into_balance" sui_coin_type (Argument.result k ∷ [])
    ∷ Command.move_call shio_package "auctioneer" "submit_bid" []
        (state ∷ bid ∷ Argument.result (k + 1) ∷ [])
    ∷ []

abbrev pub IsBid : (k : ℕ) → Source → (profit : Argument) → List Command → Type 0
IsBid k source profit cs = elim (is_shio source) [
  | false ↦ cs ≡ []
  | true ↦
      (amount : Argument) × (state : Argument) × (bid : Argument) × (cs
        ≡ bid_commands k profit amount state bid)
]

module _ {D B O : Type 0} (builder : Builder B O) (trade : TradeOps D B) (sender : ℕ)
    (navi : Navi O) where
  -- The bid on a state, as actions.
  abbrev submit_on : (amount : ℕ) → O → (coin : Argument) → Exec B (Unit {0})
  submit_on amount state coin = input_obj builder state >>= λ s.
      input_pure builder (PureValue.u64 amount) >>= λ b.
      into_balance builder coin sui_coin_type >>= λ fee.
      perform builder
        (Command.move_call shio_package "auctioneer" "submit_bid" [] (s ∷ b ∷ fee ∷ []))

  abbrev bid_on : (amount : ℕ) → O → (profit : Argument) → Exec B (Unit {0})
  bid_on amount state profit = input_pure builder (PureValue.u64 amount) >>= λ a.
      split_arg builder profit a >>= λ coin. submit_on amount state coin

  abbrev AreBid : (k : ℕ) → (profit : Argument) → Unit {0} → List Command → Type 0
  AreBid k profit done cs =
      (amount : Argument) × (state : Argument) × (bid : Argument) × (cs
        ≡ bid_commands k profit amount state bid)

  bid_on-AreBid :
      (k amount : ℕ) (state : O) (profit : Argument)
      → Extends builder k 3 (AreBid k profit) (bid_on amount state profit)
  bid_on-AreBid k amount state profit =
      Extends-read builder k 3 _ _ (Reads-pure builder (PureValue.u64 amount)) λ a _.
        Extends-then builder k 2 (Command.split_coins profit (a ∷ [])) (Argument.result k) _
          (submit_on amount state) (Extends-split_arg builder k profit a)
          (Extends-read builder (k + 1) 2 _ _ (Reads-obj builder state) λ s _.
            Extends-read builder (k + 1) 2 _ _ (Reads-pure builder (PureValue.u64 amount)) λ b _.
              Extends-then builder (k + 1) 1
                (framework "coin" "into_balance" sui_coin_type (Argument.result k ∷ []))
                (Argument.result (k + 1)) _
                (λ fee.
                  perform builder (
                    Command.move_call shio_package "auctioneer" "submit_bid" [] (s ∷ b ∷ fee ∷ [])))
                (Extends-into_balance builder (k + 1) (Argument.result k) sui_coin_type)
                (Extends-weaken builder (k + 1 + 1) 1 _ (Extends-perform builder (k + 1 + 1) _)
                  λ done cs (_, same). (a, s, b, cc)))

  submit_bid-submit_on :
      (amount : ℕ) (shio shio' : Shio O) (ctx ctx' : TradeCtx B) (coin : Argument)
      → submit_bid builder shio ctx coin amount ≡ ok (ctx', shio')
      → (state : O) × (submit_on amount state coin ctx ≡ ok (tt, ctx'))
  unfolding submit_bid ◌>>=◌ input_pure input_obj into_balance perform
  submit_bid-submit_on amount shio shio' ctx ctx' coin e = elim (Bool-cases (ltb 0 amount)) [
    | inr z ↦ ok_err_elim {m = "bid_amount must be greater than 0"} e (rw (submit_bid, z))
    | inl p ↦ elim (Option-cases ((next_state shio).0)) [
      | inl none_left ↦ ok_err_elim {m = "index out of bounds"} e (rw (submit_bid, p, none_left))
      | inr (state, found) ↦ elim (Result-cases (obj builder ctx state)) [
        | inr (m, q) ↦ ok_err_elim {m = m} e (rw (submit_bid, p, found, q))
        | inl (s, q) ↦ elim (Result-cases (pure builder s.1 (PureValue.u64 amount))) [
          | inr (m, q') ↦ ok_err_elim {m = m} e (rw (submit_bid, p, found, q, q'))
          | inl (b, q') ↦ (
            state,
            bind_runs (input_obj builder state) _ ctx s.1 s.0 q
                ∙ bind_runs (input_pure builder (PureValue.u64 amount)) _ s.1 b.1 b.0 q'
                ∙ ap (λ (r : TradeCtx B × Shio O). ok (tt, r.0))
                    (ok_injective (rw (submit_bid, p, found, q, q') at e)),
          )
        ]
      ]
    ]
  ]

  bid-bid_on :
      (source : Source) (shio shio' : Shio O) (ctx ctx' : TradeCtx B) (profit : Argument)
      → is_shio source ≡ true
      → bid builder trade sender navi source shio ctx profit ≡ ok (ctx', shio')
      → (state : O) × (bid_on (bid_amount source) state profit ctx ≡ ok (tt, ctx'))
  unfolding bid input_pure split_arg
  bid-bid_on source shio shio' ctx ctx' profit s e =
      elim (Result-cases (pure builder ctx (PureValue.u64 (bid_amount source)))) [
        | inr (m, q) ↦ ok_err_elim {m = m} e (rw (s, bid, q))
        | inl (a, q) ↦
            let coin = split_coin_arg builder a.1 profit a.0 in
            let (state, runs) =
              submit_bid-submit_on (bid_amount source) shio shio' coin.1 ctx' coin.0
                (rw (s, bid, q) at e) in
            (
              state,
              bind_runs (input_pure builder (PureValue.u64 (bid_amount source))) _ ctx a.1 a.0 q
                  ∙ bind_runs (split_arg builder profit a.0) _ a.1 coin.1 coin.0 refl
                  ∙ runs,
            )
      ]

  -- A bid adds three commands, and a trade that is no bid none.
  pub bid-IsBid :
      (source : Source) (shio shio' : Shio O) (ctx ctx' : TradeCtx B) (k : ℕ) (profit : Argument)
      → IsInStep builder ctx
      → length (issued builder ctx) ≡ k
      → k + 3 ≤ 2 ^ 16
      → bid builder trade sender navi source shio ctx profit ≡ ok (ctx', shio')
      → (cs : List Command) × Adds builder ctx ctx' cs × (length cs ≤ 3) × IsBid k source profit cs
  unfolding bid
  bid-IsBid source shio shio' ctx ctx' k profit h l room e = elim (Bool-cases (is_shio source)) [
    | inl s ↦
        let (state, runs) = bid-bid_on source shio shio' ctx ctx' profit s e in
        let (cs, adds, size, are) =
          (bid_on-AreBid k (bid_amount source) state profit).at ctx tt ctx' h l room runs in
        (cs, adds, omega arith, rw (s, IsBid) are)
    | inr s ↦
        let same : (ctx, shio) ≡ (ctx', shio') = ok_injective (rw (s, bid) at e) in
        (
          [],
          subst (λ (r : TradeCtx B × Shio O). Adds builder ctx r.0 []) same
              (sym (append-nil (issued builder ctx)), h),
          omega arith,
          rw (s, IsBid) refl,
        )
  ]
