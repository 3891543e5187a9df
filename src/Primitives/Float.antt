-- ===== src/Primitives/Float.antt =====
-- The arithmetic of f64 that the program uses: numbers from 0, as a mantissa over a power of two,
-- each operation rounded to 53 bits, to nearest and a tie to the even mantissa. Numbers of 2^53 and
-- more, infinities and what is too small for a normal number do not come up in these uses.
pub mod Bounds
use nimiq_core_rs_albatross.Base.{
  ℕ, zero, suc, ◌+◌, ◌-◌, ◌*◌, ◌/◌, ◌%◌, ◌^◌, ltb, leb, ◌==◌, if◌then◌else◌,
}

-- `mantissa / 2^shift`
pub record F64 : Type 0 where
  pub mantissa : ℕ
  pub shift : ℕ

unfoldable pub round_half_even : ℕ → ℕ → ℕ
round_half_even num den =
    if ltb (2 * (num % den)) den
    then num / den
    else if ltb den (2 * (num % den))
    then num / den + 1
    else num / den + (num / den) % 2

-- How often `num / den` is doubled until it has 53 bits before the point.
unfoldable pub scale : ℕ → ℕ → ℕ → ℕ
scale zero num den = 0
scale (suc fuel) num den =
    let rest = scale fuel (2 * num) den in if leb (2 ^ 52 * den) num then 0 else rest + 1

-- The nearest double to `num / den`; 128 doublings reach every quotient from 2^(-76).
unfoldable pub round_to_f64 : ℕ → ℕ → F64
unfolding round_half_even scale
round_to_f64 num den =
    if num == 0
    then record { mantissa = 0; shift = 0 }
    else (let k = scale 128 num den in
        record { mantissa = round_half_even (num * 2 ^ k) den; shift = k })

-- `1f64 - x`, or 0 where that is negative.
unfoldable pub one_minus : F64 → F64
unfolding round_to_f64
one_minus x = round_to_f64 (2 ^ x.shift - x.mantissa) (2 ^ x.shift)

-- `x * f64::from(n)`, for an `n` that a double holds exactly.
unfoldable pub times : F64 → ℕ → F64
unfolding round_to_f64
times x n = round_to_f64 (x.mantissa * n) (2 ^ x.shift)

unfoldable pub floor : F64 → ℕ
floor x = x.mantissa / 2 ^ x.shift
