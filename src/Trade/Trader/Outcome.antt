-- ===== src/Trade/Trader/Outcome.antt =====
-- What the reading of a simulation gives, and the profit of a trade that comes back to SUI.
use poison_dart.Base.{
  ℕ, ◌%◌, ◌^◌, ◌<◌, ◌≡◌, refl, ap, inl, inr, Bool, true, false, Option, some, String, arith, ite,
  str_dec, Result, ok, err, Bool-cases, ◌⊎◌,
}
use poison_dart.Base.Int.{ℤ, pos, negsuc, pos_part, ◌+ℤ◌, ◌-ℤ◌, is_nonnegative}
use poison_dart.Dex.{DexOps, DexPath, sui_coin_type, is_native_coin, first_in, last_out}
use poison_dart.Best.{TradeResult, new_path_trade, profit}
use poison_dart.Trade.Trader.{SimulateResult, change_of, read_result}

-- The amount after a trade: what was put in, the change and the gas that was paid.
abbrev pub amount_back : (change : ℤ) → (amount_in : ℕ) → (gas : ℤ) → ℤ
amount_back change amount_in gas = change +ℤ pos amount_in +ℤ gas

-- The amount that is read off a round trip, less the amount put in and the gas, is the change.
round_trip_profit :
    (change gas : ℤ) (amount_in : ℕ)
    → let out = change +ℤ pos amount_in +ℤ gas in
      is_nonnegative out ≡ true
      → pos_part out < 2 ^ 64
      → pos (pos_part out % 2 ^ 64) -ℤ pos amount_in -ℤ gas ≡ change
unfolding ◌+ℤ◌ ◌-ℤ◌
round_trip_profit (pos a) (pos g) n h l = ground arith
round_trip_profit (pos a) (negsuc g) n h l = ground arith
round_trip_profit (negsuc a) (pos g) n h l = ground arith
round_trip_profit (negsuc a) (negsuc g) n h l = ground arith

is_native_coin_sui : is_native_coin sui_coin_type ≡ true
unfolding is_native_coin str_dec
is_native_coin_sui = refl

str_dec_refl : {A : Type 0} (s : String) (x y : A) → ite (str_dec s s) x y ≡ x
str_dec_refl s x y = ground arith

module _ {D : Type 0} (ops : DexOps D) (path : DexPath D) (amount_in : ℕ) (change gas : ℤ)
    (is_success : Bool) where
  -- What is read of a round trip.
  abbrev pub IsRoundTrip : Result TradeResult → Type 0
  IsRoundTrip (ok r) =
      (is_success ≡ true)
      × (is_nonnegative (amount_back change amount_in gas) ≡ true)
      × (r.gas_cost ≡ gas)
      × (profit ops (new_path_trade path amount_in r) ≡ some change)
  IsRoundTrip (err m) =
      (is_success ≡ false) ⊎ (is_nonnegative (amount_back change amount_in gas) ≡ false)

module _ {D : Type 0} (ops : DexOps D) (tag : String → Option String) where
  -- For a path from SUI to SUI, whose simulation changes the sender's balance of SUI, first of all,
  -- by an amount that leaves less than 2 ^ 64, the reading is an error exactly if the simulation
  -- failed or the amount that comes back is negative, and the profit of the trade is that change.
  pub read_result-IsRoundTrip :
      (path : DexPath D) (sender amount_in : ℕ) (resp : SimulateResult) (t : String) (change : ℤ)
      → first_in ops path.path ≡ some sui_coin_type
      → last_out ops path.path ≡ some sui_coin_type
      → tag sui_coin_type ≡ some t
      → change_of sender t resp.balance_changes ≡ some change
      → pos_part (amount_back change amount_in resp.net_gas_usage) < 2 ^ 64
      → IsRoundTrip ops path amount_in change resp.net_gas_usage resp.is_success
          (read_result ops tag path sender amount_in resp)
  unfolding read_result new_path_trade profit str_dec
  read_result-IsRoundTrip path sender amount_in resp t change first last tagged found small =
      elim (Bool-cases resp.is_success) [
        | inr s ↦ rw (s, read_result) (inl refl)
        | inl s ↦
            elim (Bool-cases (is_nonnegative (amount_back change amount_in resp.net_gas_usage))) [
              | inr n ↦
                  rw
                    (
                      s,
                      read_result,
                      first,
                      last,
                      tagged,
                      found,
                      str_dec_refl t,
                      is_native_coin_sui,
                      n,
                    )
                    (inr n)
              | inl n ↦
                  rw
                    (
                      s,
                      read_result,
                      first,
                      last,
                      tagged,
                      found,
                      str_dec_refl t,
                      is_native_coin_sui,
                      n,
                    )
                    (
                      refl,
                      n,
                      refl,
                      rw (profit, first, last)
                          (ap some (round_trip_profit change resp.net_gas_usage amount_in n small)),
                    )
            ]
      ]
