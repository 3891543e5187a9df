-- ===== src/Primitives/Float/Bounds.antt =====
-- Rounding, and bounds that are whole numbers.
use nimiq_core_rs_albatross.Base.{
  ℕ, ◌+◌, ◌-◌, ◌*◌, ◌/◌, ◌%◌, ◌^◌, ◌≤◌, ◌<◌, ◌≡◌, subst, arith, Bool-cases, ltb, ◌==◌, inl, inr,
}
use native.Mathlib.Nat.{
  div-le_of_le-mul, lt_of_mul-lt-mul_right, div-add-mod, mul_comm, mul-le-mul_right, one-le-pow,
  mul_right_comm,
}
use nimiq_core_rs_albatross.Primitives.Float.{
  F64, round_half_even, scale, round_to_f64, one_minus, times, floor,
}

-- A quotient that leaves a rest is less than a bound of the number.
below_bound : (num den bound : ℕ) → num ≤ bound * den → 0 < num % den → num / den < bound
below_bound num den bound h rest =
    let whole : den * (num / den) + num % den ≡ num = div-add-mod num den in
    let less : (num / den) * den < bound * den =
      subst (λ x. x < bound * den) (mul_comm den (num / den)) (omega (arith, whole, h, rest)) in
    lt_of_mul-lt-mul_right den less

round_half_even_le :
    (num den bound : ℕ) → 0 < den → num ≤ bound * den → round_half_even num den ≤ bound
unfolding round_half_even
round_half_even_le num den bound p h =
    let low = div-le_of_le-mul den (subst (λ x. num ≤ x) (mul_comm bound den) h) in
    elim (Bool-cases (ltb (2 * (num % den)) den)) [
      | inl down ↦ ground (arith, down, low)
      | inr other ↦
          let less = below_bound num den bound h (ground (arith, other, p)) in
          ground (arith, other, less)
    ]

-- A double that is at most a whole number.
abbrev pub Within : ℕ → F64 → Type 0
Within bound x = x.mantissa ≤ bound * 2 ^ x.shift

pub two_pow_positive : (k : ℕ) → 0 < 2 ^ k
two_pow_positive k = one-le-pow k 2 (omega arith)

round_to_f64-Within :
    (num den bound : ℕ) → 0 < den → num ≤ bound * den → Within bound (round_to_f64 num den)
unfolding round_to_f64
round_to_f64-Within num den bound p h = elim (Bool-cases (num == 0)) [
  | inl z ↦ ground (arith, z)
  | inr nz ↦
      let k = scale 128 num den in
      let scaled : num * 2 ^ k ≤ bound * den * 2 ^ k = mul-le-mul_right (2 ^ k) h in
      let swapped : bound * den * 2 ^ k ≡ bound * 2 ^ k * den = mul_right_comm bound den (2 ^ k) in
      let rounded =
        round_half_even_le (num * 2 ^ k) den (bound * 2 ^ k) p
          (subst (λ x. num * 2 ^ k ≤ x) swapped scaled) in
      ground (arith, nz, rounded)
]

pub one_minus-Within : (x : F64) → Within 1 (one_minus x)
unfolding one_minus
one_minus-Within x =
    round_to_f64-Within (2 ^ x.shift - x.mantissa) (2 ^ x.shift) 1 (two_pow_positive x.shift)
      (omega arith)

pub times-Within : (x : F64) (n : ℕ) → Within 1 x → Within n (times x n)
unfolding times
times-Within x n h =
    round_to_f64-Within (x.mantissa * n) (2 ^ x.shift) n (two_pow_positive x.shift) (
      subst (λ y. x.mantissa * n ≤ y) (mul_comm (2 ^ x.shift) n)
        (mul-le-mul_right n (omega (arith, h))))

pub floor_le : (x : F64) (bound : ℕ) → Within bound x → floor x ≤ bound
unfolding floor
floor_le x bound h =
    div-le_of_le-mul (2 ^ x.shift) (subst (λ y. x.mantissa ≤ y) (mul_comm bound (2 ^ x.shift)) h)
