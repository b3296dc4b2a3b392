-- ===== src/Trade/Trader/Budget.antt =====
-- The digest of a bid: the gas budget is raised until the digest is above that of the opportunity.
use poison_dart.Base.{
  ℕ, zero, suc, ◌+◌, ◌%◌, ◌^◌, ◌≤◌, ◌<◌, ◌≡◌, inl, inr, true, false, some, leb, arith, Bool-cases,
  ap, sym, ◌∙◌, subst,
}
use poison_dart.Source.{Source, opp_tx_digest}
use poison_dart.Trade.Trader.{gas_budget, raise_budget, finalize}

module _ {Tx : Type 0} (new_programmable : (gas_budget : ℕ) → Tx) (digest : Tx → ℕ) where
  abbrev digest_at : ℕ → ℕ
  digest_at budget = digest (new_programmable budget)

  -- The first budget from `budget` on, with a digest above `opp`.
  abbrev pub IsFirst : (opp budget : ℕ) → ℕ → Type 0
  IsFirst opp budget j =
      (opp < digest_at (budget + j)) × ((i : ℕ) → i < j → digest_at (budget + i) ≤ opp)

  -- What the loop finds within `k` steps.
  abbrev Finds : (fuel opp budget k : ℕ) → Type 0
  Finds fuel opp budget k =
      (j : ℕ) × (j ≤ k)
      × (raise_budget new_programmable digest fuel opp budget
          ≡ some (new_programmable (budget + j)))
      × IsFirst opp budget j

  plus_zero : (b : ℕ) → b + 0 ≡ b
  plus_zero b = omega arith

  plus_suc : (b k : ℕ) → b + suc k ≡ suc b + k
  plus_suc b k = omega arith

  raise_budget-here :
      (fuel opp budget k : ℕ) → leb (digest_at budget) opp ≡ false → Finds (suc fuel) opp budget k
  unfolding raise_budget
  raise_budget-here fuel opp budget k n = (
    0,
    omega arith,
    rw (n, raise_budget, plus_zero budget),
    (rw (plus_zero budget) (ground arith), λ i l. absurd (omega arith)),
  )

  first-suc :
      (opp budget j : ℕ)
      → digest_at budget ≤ opp
      → IsFirst opp (suc budget) j
      → (i : ℕ) → i < suc j
      → digest_at (budget + i) ≤ opp
  first-suc opp budget j here first zero l = rw (plus_zero budget) here
  first-suc opp budget j here first (suc i) l = rw (plus_suc budget i) (first.1 i (omega arith))

  raise_budget-later :
      (fuel opp budget k : ℕ)
      → leb (digest_at budget) opp ≡ true
      → suc budget < 2 ^ 64
      → Finds fuel opp (suc budget) k
      → Finds (suc fuel) opp budget (suc k)
  unfolding raise_budget
  raise_budget-later fuel opp budget k n room (j, le, e, first) =
      let next : (budget + 1) % 2 ^ 64 ≡ suc budget = omega arith in
      (
        suc j,
        omega arith,
        rw (n, raise_budget, next)
            (e ∙ ap (λ b. some (new_programmable b)) (sym (plus_suc budget j))),
        (
          subst (λ b. opp < digest_at b) (sym (plus_suc budget j)) first.0,
          first-suc opp budget j (ground arith) first,
        ),
      )

  raise_budget-IsFirst :
      (fuel opp budget k : ℕ)
      → k < fuel
      → budget + fuel < 2 ^ 64
      → opp < digest_at (budget + k)
      → Finds fuel opp budget k
  unfolding raise_budget
  raise_budget-IsFirst zero opp budget k h room above = absurd (omega arith)
  raise_budget-IsFirst (suc fuel) opp budget zero h room above =
      raise_budget-here fuel opp budget 0
        (let now = subst (λ b. opp < digest_at b) (plus_zero budget) above in ground arith)
  raise_budget-IsFirst (suc fuel) opp budget (suc k) h room above =
      elim (Bool-cases (leb (digest_at budget) opp)) [
        | inr n ↦ raise_budget-here fuel opp budget (suc k) n
        | inl n ↦ raise_budget-later fuel opp budget k n (omega arith) (
            raise_budget-IsFirst fuel opp (suc budget) k (omega arith) (omega arith)
              (subst (λ b. opp < digest_at b) (plus_suc budget k) above))
      ]

  -- For a bid in an auction: if some budget that is less than `fuel` above the usual one, and no
  -- budget so far overflows, gives a digest above that of the opportunity, then the loop ends, with
  -- the transaction of the first such budget.
  pub finalize-IsFirst :
      (source : Source) (fuel opp k : ℕ)
      → opp_tx_digest source ≡ some opp
      → k < fuel
      → gas_budget + fuel < 2 ^ 64
      → opp < digest (new_programmable (gas_budget + k))
      → (j : ℕ) × (j ≤ k)
        × (finalize new_programmable digest fuel source ≡ some (new_programmable (gas_budget + j)))
        × IsFirst opp gas_budget j
  unfolding finalize
  finalize-IsFirst source fuel opp k e h room above =
      rw (e, finalize) (raise_budget-IsFirst fuel opp gas_budget k h room above)
