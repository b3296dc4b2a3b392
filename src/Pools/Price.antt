-- ===== src/Pools/Price.antt =====
-- `bin/arb/src/defi/aftermath.rs`: the amount that a swap is expected to give. A product that does
-- not fit 256 bits panics, here an error.
pub mod Quote
use poison_dart.Base.{
  ℕ, zero, ◌-◌, ◌*◌, ◌/◌, ◌%◌, ◌^◌, ◌==◌, ltb, if◌then◌else◌, Result, ok, err, ◌>>=◌,
}

-- `ONE`.
abbrev pub fixed_one : ℕ
fixed_one = 1_000_000_000_000_000_000

unfoldable pub mul_u256 : ℕ → ℕ → Result ℕ
mul_u256 a b = if ltb (a * b) (2 ^ 256) then ok (a * b) else err "arithmetic operation overflow"

unfoldable pub convert_int_to_fixed : ℕ → Result ℕ
unfolding mul_u256
convert_int_to_fixed a = mul_u256 a fixed_one

-- `low_u64`.
unfoldable pub convert_fixed_to_int : ℕ → ℕ
convert_fixed_to_int a = a / fixed_one % 2 ^ 64

unfoldable pub div_down : ℕ → ℕ → Result ℕ
unfolding mul_u256
div_down a b =
    if b == 0 then err "Division by zero" else (do scaled ← mul_u256 a fixed_one; ok (scaled / b))

unfoldable pub mul_down : ℕ → ℕ → Result ℕ
unfolding mul_u256
mul_down a b = do product ← mul_u256 a b; ok (product / fixed_one)

unfoldable pub complement : ℕ → ℕ
complement x = if ltb x fixed_one then fixed_one - x else 0

unfoldable pub calc_spot_price : (balance_in balance_out weight_in weight_out : ℕ) → Result ℕ
unfolding mul_u256 div_down
calc_spot_price balance_in balance_out weight_in weight_out = do
  scaled_in ← mul_u256 balance_in fixed_one
  per_weight_in ← div_down scaled_in weight_in
  scaled_out ← mul_u256 balance_out fixed_one
  per_weight_out ← div_down scaled_out weight_out
  div_down per_weight_in per_weight_out

unfoldable pub calc_spot_price_fixed_with_fees :
    (balance_in balance_out weight_in weight_out swap_fee_in swap_fee_out : ℕ) → Result ℕ
unfolding calc_spot_price mul_down complement div_down
calc_spot_price_fixed_with_fees balance_in balance_out weight_in weight_out swap_fee_in
      swap_fee_out =
    do
      spot_price_no_fees ← calc_spot_price balance_in balance_out weight_in weight_out
      fees_scalar ← mul_down (complement swap_fee_in) (complement swap_fee_out)
      div_down spot_price_no_fees fees_scalar

unfoldable pub calculate_expected_out :
    (balance_in balance_out weight_in weight_out swap_fee_in swap_fee_out amount_in : ℕ) → Result ℕ
unfolding calc_spot_price_fixed_with_fees convert_int_to_fixed div_down convert_fixed_to_int
calculate_expected_out balance_in balance_out weight_in weight_out swap_fee_in swap_fee_out
      amount_in =
    do
      spot_price ←
          calc_spot_price_fixed_with_fees balance_in balance_out weight_in weight_out swap_fee_in
            swap_fee_out
      amount ← convert_int_to_fixed amount_in
      quotient ← div_down amount spot_price
      ok (convert_fixed_to_int quotient)
