-- ===== src/Source.antt =====
-- `bin/arb/src/types.rs`: where an opportunity comes from.
pub mod Laws
use poison_dart.Base.{ℕ, Bool, true, false, Option, none, some, ltb, if◌then◌else◌}

-- A digest is its 32 bytes read as one number, which keeps the order of the bytes.
abbrev pub TransactionDigest : Type 0
TransactionDigest = ℕ

pub record Auction : Type 0 where
  pub opp_tx_digest : TransactionDigest
  pub bid_amount : ℕ
  pub start : ℕ
  pub arb_found : ℕ
  pub deadline : ℕ

pub record Missed : Type 0 where
  pub start : ℕ
  pub arb_found : ℕ
  pub deadline : ℕ

pub data Source : Type 0 where
  public : Source
  shio : Auction → Source
  shio_deadline_missed : Missed → Source

unfoldable pub is_shio : Source → Bool
is_shio (shio a) = true
is_shio _ = false

unfoldable pub opp_tx_digest : Source → Option TransactionDigest
opp_tx_digest (shio a) = some a.opp_tx_digest
opp_tx_digest _ = none

unfoldable pub deadline : Source → Option ℕ
deadline (shio a) = some a.deadline
deadline _ = none

unfoldable pub bid_amount : Source → ℕ
bid_amount (shio a) = a.bid_amount
bid_amount _ = 0

unfoldable pub with_bid_amount : Source → ℕ → Source
with_bid_amount (shio a) bid = shio (record a { bid_amount = bid })
with_bid_amount s bid = s

unfoldable pub with_arb_found_time : Source → ℕ → Source
with_arb_found_time (shio a) found =
    if ltb found a.deadline
    then shio (record a { arb_found = found })
    else shio_deadline_missed (record { start = a.start; arb_found = found; deadline = a.deadline })
with_arb_found_time s found = s
