-- ===== src/Arb/Bid.antt =====
-- The source that a transaction is built for.
use poison_dart.Base.{
  ℕ, ◌<◌, ◌≤◌, ◌≡◌, ◌*◌, ◌/◌, refl, ◌↔◌, inl, inr, true, false, some, ltb, arith, Bool-cases,
}
use poison_dart.Source.{
  Source, public, shio, shio_deadline_missed, with_bid_amount, with_arb_found_time, bid_amount,
  deadline, is_shio, opp_tx_digest,
}
use poison_dart.Arb.{bid_for}

-- The source that a transaction is built for bids at most nine tenths of the profit, and nothing
-- unless it is an auction. An auction stays one exactly when its deadline is still to come, and then
-- it keeps its digest and bids nine for each full ten of the profit.
pub bid_for-deadline :
    (now profit : ℕ) (s : Source)
    → let t = bid_for now profit s in
      (10 * bid_amount t ≤ 9 * profit)
      × (is_shio t ≡ false → bid_amount t ≡ 0)
      × ((d : ℕ)
          → deadline s ≡ some d
          → ((is_shio t ≡ true) ↔ (now < d))
            × (now < d → (bid_amount t ≡ profit / 10 * 9) × (opp_tx_digest t ≡ opp_tx_digest s)))
unfolding bid_for bid_amount deadline is_shio opp_tx_digest with_bid_amount with_arb_found_time
bid_for-deadline now profit public = (omega arith, λ h. refl, λ d e. absurd cc)
bid_for-deadline now profit (shio_deadline_missed m) = (omega arith, λ h. refl, λ d e. absurd cc)
bid_for-deadline now profit (shio a) = elim (Bool-cases (ltb now a.deadline)) [
  | inl h ↦ rw (h, bid_for, with_arb_found_time) (omega arith, λ n. absurd cc, λ d e. ground arith)
  | inr h ↦ rw (h, bid_for, with_arb_found_time) (omega arith, λ n. refl, λ d e. ground arith)
]
