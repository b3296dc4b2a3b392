-- ===== src/Source/Laws.antt =====
-- What marking an opportunity with its time and its bid does to it.
use poison_dart.Base.{ℕ, ◌≤◌, ◌<◌, ◌≡◌, ◌↔◌, true, none, some, arith}
use poison_dart.Source.{
  Source, public, shio, shio_deadline_missed, is_shio, opp_tx_digest, deadline, bid_amount,
  with_bid_amount, with_arb_found_time,
}

-- An auction that is stamped with a time stays an auction exactly when that time is before its
-- deadline, and then it keeps its digest and its deadline and takes a bid. Stamped later, it has no
-- digest left, and a bid or another stamp does not change it.
pub with_arb_found_time-deadline :
    (s : Source) (found d bid : ℕ)
    → deadline s ≡ some d
    → let t = with_arb_found_time s found in
      ((is_shio t ≡ true) ↔ (found < d))
      × (d ≤ found
          → (opp_tx_digest t ≡ none)
            × (with_bid_amount t bid ≡ t)
            × (with_arb_found_time t bid ≡ t))
      × (found < d
          → (opp_tx_digest t ≡ opp_tx_digest s)
            × (deadline t ≡ some d)
            × (bid_amount (with_bid_amount t bid) ≡ bid))
unfolding is_shio opp_tx_digest deadline bid_amount with_bid_amount with_arb_found_time
with_arb_found_time-deadline (shio a) found d bid e = ground arith
with_arb_found_time-deadline public found d bid e = cc
with_arb_found_time-deadline (shio_deadline_missed a) found d bid e = cc
