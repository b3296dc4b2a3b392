-- ===== src/Pools/Price/Quote.antt =====
-- The quote is the amount at the spot price, rounded down.
use native.Mathlib.Nat.{div-div-eq-div-mul, mul-div-mul_right}
use poison_dart.Base.{
  ℕ, zero, suc, ◌*◌, ◌/◌, ◌%◌, ◌^◌, ◌<◌, ◌≡◌, ap, ◌∙◌, Result, ok, err, ◌>>=◌, arith, true, false,
  inl, inr, Result-cases, ltb, ◌==◌,
}
use poison_dart.Pools.Price.{
  fixed_one, mul_u256, convert_int_to_fixed, convert_fixed_to_int, div_down, calculate_expected_out,
  calc_spot_price_fixed_with_fees,
}

-- What the quote is, by the spot price with the fees.
abbrev pub quote_at : Result ℕ → (amount_in : ℕ) → Result ℕ
quote_at (ok zero) amount_in = err "Division by zero"
quote_at (ok (suc p)) amount_in = ok (amount_in * fixed_one / suc p % 2 ^ 64)
quote_at (err m) amount_in = err m

convert_int_to_fixed_lem : (a : ℕ) → a < 2 ^ 64 → convert_int_to_fixed a ≡ ok (a * fixed_one)
unfolding convert_int_to_fixed mul_u256
convert_int_to_fixed_lem a small = ground arith

-- Two divisions in a row round down like one.
one_rounding : (a p : ℕ) → a * fixed_one * fixed_one / p / fixed_one ≡ a * fixed_one / p
one_rounding a p =
    div-div-eq-div-mul (a * fixed_one * fixed_one) p fixed_one
    ∙ mul-div-mul_right (a * fixed_one) p (omega arith)

quotient_lem :
    (a p : ℕ)
    → a < 2 ^ 64
    → (div_down (a * fixed_one) (suc p) >>= λ q. ok (convert_fixed_to_int q))
      ≡ ok (a * fixed_one / suc p % 2 ^ 64)
unfolding div_down mul_u256 convert_fixed_to_int
quotient_lem a p small =
    let fits : ltb (a * fixed_one * fixed_one) (2 ^ 256) ≡ true = ground arith in
    let positive : (suc p == 0) ≡ false = ground arith in
    rw (positive, fits) (ap (λ q. ok (q % 2 ^ 64)) (one_rounding a (suc p)))

module _ (balance_in balance_out weight_in weight_out swap_fee_in swap_fee_out amount_in : ℕ) where
  -- For an amount of 64 bits, the quote is the amount over the spot price with the fees, rounded
  -- down once, not once for each division, and cut to 64 bits. It is an error exactly if the price is
  -- one, or is zero.
  pub calculate_expected_out-eq :
      amount_in < 2 ^ 64
      → calculate_expected_out balance_in balance_out weight_in weight_out swap_fee_in swap_fee_out
          amount_in
        ≡ quote_at
            (calc_spot_price_fixed_with_fees balance_in balance_out weight_in weight_out swap_fee_in
              swap_fee_out)
            amount_in
  unfolding calculate_expected_out div_down
  calculate_expected_out-eq small =
      elim (Result-cases (
        calc_spot_price_fixed_with_fees balance_in balance_out weight_in weight_out swap_fee_in
          swap_fee_out)) [
            | inr (m, q) ↦ rw (calculate_expected_out, q)
            | inl (zero, q) ↦
                rw (calculate_expected_out, q, convert_int_to_fixed_lem amount_in small, div_down)
            | inl (suc p, q) ↦
                rw (calculate_expected_out, q, convert_int_to_fixed_lem amount_in small)
                  (quotient_lem amount_in p small)
          ]
