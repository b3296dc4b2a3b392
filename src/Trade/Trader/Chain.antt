-- ===== src/Trade/Trader/Chain.antt =====
-- The swaps of a path, in a transaction.
use poison_dart.Base.{ℕ, ◌+◌, ◌≡◌, refl, none, Option, List, [], ◌∷◌, ◌++◌, arith, length}
use poison_dart.Trade.{Argument, Command, Builder}
use poison_dart.Trade.Exec.{return}
use poison_dart.Trade.Exec.Rules.{
  Extends, Extends-bind, Extends-weaken, Extends-return, Extends-resize,
}
use poison_dart.Trade.Exec as exec
use poison_dart.Trade.Trader.{TradeOps, swaps}
use poison_dart.Trade.Trader.Laws.{TradeLaws}

module _ {D B O : Type 0} (builder : Builder B O) (trade : TradeOps D B)
    (laws : TradeLaws builder trade) where
  -- The commands of the swaps of a path from place `k` on: each pool takes the coin that the one
  -- before gave.
  abbrev pub IsChain : (k : ℕ) → List D → (coin out : Argument) → List Command → Type 0
  IsChain k [] coin out cs = (out ≡ coin) × (cs ≡ [])
  IsChain k (d ∷ ds) coin out cs =
      (mid : Argument) × (first : List Command) × (rest : List Command) × laws.IsSwap k d coin mid
        first
      × IsChain (k + 1) ds mid out rest
      × (cs ≡ first ++ rest)

  pub swaps-IsChain :
      (sender k : ℕ) (ds : List D) (coin : Argument) (amount_in : Option ℕ)
      → Extends builder k
          (length ds)
          (IsChain k ds coin)
          (λ ctx. swaps builder trade sender ds ctx coin amount_in)
  unfolding swaps return exec.◌>>=◌
  swaps-IsChain sender k [] coin amount_in = Extends-return builder k coin (refl, refl)
  swaps-IsChain sender k (d ∷ ds) coin amount_in =
      Extends-resize builder k (1 + length ds) (length (d ∷ ds)) _ (omega arith) (
        Extends-bind builder k 1 (length ds)
          (λ ctx. trade.extend_trade_tx d ctx sender coin amount_in)
          (λ mid ctx. swaps builder trade sender ds ctx mid none)
          (laws.swap d k sender coin amount_in)
          λ mid first swap.
            Extends-weaken builder (k + 1) (length ds) _ (swaps-IsChain sender (k + 1) ds mid none)
              λ out rest chain. (mid, first, rest, swap, chain, refl))
