-- ===== src/Account/Htlc/Cap.antt =====
-- What must stay in a hashed time-locked contract, against its total amount.
use nimiq_core_rs_albatross.Base.{ℕ, ◌≤◌, ◌≡◌, arith, Bool-cases, ◌==◌, inl, inr}
use nimiq_core_rs_albatross.Primitives.Coin.{Coin, max_safe_value, try_from}
use nimiq_core_rs_albatross.Primitives.Float.{round_to_f64, one_minus, times}
use nimiq_core_rs_albatross.Primitives.Float.Bounds.{one_minus-Within, times-Within, floor_le}
use nimiq_core_rs_albatross.Account.Outcome.{ok}
use nimiq_core_rs_albatross.Account.Htlc.{HashedTimeLockedContract, cap_value, min_cap}

cap_value_le :
    (v : HashedTimeLockedContract) (hash_depth : ℕ) → cap_value v hash_depth ≤ v.total_amount
unfolding cap_value
cap_value_le v hash_depth = elim (Bool-cases (v.hash_count == 0)) [
  | inl z ↦ ground (arith, z)
  | inr nz ↦
      let ratio = one_minus (round_to_f64 hash_depth v.hash_count) in
      let bounded = floor_le (times ratio v.total_amount) v.total_amount (
        times-Within ratio v.total_amount
          (one_minus-Within (round_to_f64 hash_depth v.hash_count))) in
      ground (arith, nz, bounded)
]

-- Where the total amount is in range, the cap of every depth is a coin, so that its conversion
-- never fails, and at most the total amount, whatever the doubles round.
pub min_cap_bounded :
    (v : HashedTimeLockedContract) (hash_depth : ℕ)
    → v.total_amount ≤ max_safe_value
    → (cap : Coin) × (min_cap v hash_depth ≡ ok cap) × (cap ≤ v.total_amount)
unfolding min_cap try_from
min_cap_bounded v hash_depth r = (
  cap_value v hash_depth,
  ground (arith, cap_value_le v hash_depth, r),
  cap_value_le v hash_depth,
)
