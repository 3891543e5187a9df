-- ===== src/Account/Vesting/Cap.antt =====
-- How much of a vesting contract is still locked.
use nimiq_core_rs_albatross.Base.{
  ℕ, ◌+◌, ◌-◌, ◌*◌, ◌/◌, ◌≤◌, ◌<◌, ◌≡◌, arith, order_cases, inl, inr,
}
use native.Mathlib.Nat.{div-eq_of_lt-le, div-mul-le_self, le-div_iff_mul-le, mul-le-mul_right}
use nimiq_core_rs_albatross.Account.Vesting.{VestingContract, min_cap}

-- Where the contract has steps: in step `k` after the start, that many step amounts are free, and
-- the rest of the total amount is locked.
pub min_cap_steps :
    (v : VestingContract) (k time : ℕ)
    → 0 < v.time_step
    → 0 < v.step_amount
    → v.start_time + k * v.time_step ≤ time
    → time < v.start_time + (k + 1) * v.time_step
    → min_cap v time ≡ v.total_amount - k * v.step_amount
unfolding min_cap
min_cap_steps v k time p q lo hi =
    let e : (time - v.start_time) / v.time_step ≡ k =
      div-eq_of_lt-le v.time_step (omega (arith, lo)) (omega (arith, lo, hi)) in
    ground (arith, e, p, q, lo)

div_mono : (a b d : ℕ) → 0 < d → a ≤ b → a / d ≤ b / d
div_mono a b d p h = (le-div_iff_mul-le p).1 (omega (arith, div-mul-le_self a d, h))

-- From the start on, what is locked does not grow.
pub min_cap_antitone :
    (v : VestingContract) (time later : ℕ)
    → v.start_time ≤ time
    → time ≤ later
    → min_cap v later ≤ min_cap v time
unfolding min_cap
min_cap_antitone v time later h l =
    let steps = λ (t : ℕ). (t - v.start_time) / v.time_step in
    elim (order_cases v.time_step 0) [
      | inl neg ↦ ground (arith, neg)
      | inr (inl zero_step) ↦ ground (arith, zero_step)
      | inr (inr p) ↦
          let more =
            div_mono (time - v.start_time) (later - v.start_time) v.time_step p
              (omega (arith, l)) in
          let product = mul-le-mul_right v.step_amount more in ground (arith, product, h, l)
    ]
