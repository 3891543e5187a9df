-- ===== src/Primitives/Coin/Checked.antt =====
-- What the checked operations on coins return, and the sum that does not wrap.
use nimiq_core_rs_albatross.Base.{
  ℕ, ◌+◌, ◌-◌, ◌*◌, ◌≤◌, ◌<◌, ◌≡◌, some, none, List, [], ◌∷◌, arith, leb, if◌then◌else◌,
}
use nimiq_core_rs_albatross.Primitives.Word.{u64_mod}
use nimiq_core_rs_albatross.Primitives.Coin.{
  Coin, max_safe_value, checked_add, checked_sub, checked_mul, add, sum_from, sum,
}

-- Of two coins in range the checked sum is the sum of the numbers, exactly if that is in range;
-- the test on 64 bits never decides.
pub checked_add_lem :
    (a b : Coin)
    → a ≤ max_safe_value
    → b ≤ max_safe_value
    → checked_add a b ≡ (if leb (a + b) max_safe_value then some (a + b) else none)
unfolding checked_add
checked_add_lem a b ha hb = ground arith

pub checked_sub_lem :
    (a b : Coin) → a ≤ max_safe_value → checked_sub a b ≡ (if leb b a then some (a - b) else none)
unfolding checked_sub
checked_sub_lem a b ha = ground arith

-- If the checked sum of a coin in range and another one exists, it is the sum of the numbers, it
-- is in range, and subtracting the second coin gives the first again.
pub checked_sub-checked_add :
    (a b c : Coin)
    → a ≤ max_safe_value
    → checked_add a b ≡ some c
    → (checked_sub c b ≡ some a) × (c ≡ a + b) × (c ≤ max_safe_value)
unfolding checked_add checked_sub
checked_sub-checked_add a b c ha h = ground arith

-- If the checked difference of a coin in range and another one exists, it is the difference of the
-- numbers, it is in range, and adding the second coin gives the first again.
pub checked_add-checked_sub :
    (a b c : Coin)
    → a ≤ max_safe_value
    → checked_sub a b ≡ some c
    → (checked_add c b ≡ some a) × (a ≡ c + b) × (c ≤ max_safe_value)
unfolding checked_add checked_sub
checked_add-checked_sub a b c ha h = ground arith

-- A product that is returned is the product of the numbers, and in range.
pub checked_mul_sound :
    (a t c : Coin) → checked_mul a t ≡ some c → (c ≡ a * t) × (c ≤ max_safe_value)
unfolding checked_mul
checked_mul_sound a t c h = ground arith

-- The sum of the numbers, with no bound.
abbrev pub total : List Coin → ℕ
total [] = 0
total (c ∷ cs) = c + total cs

sum_from_lem :
    (acc : Coin) (cs : List Coin) → acc + total cs < u64_mod → sum_from acc cs ≡ acc + total cs
unfolding sum_from add
sum_from_lem acc [] h = omega arith
sum_from_lem acc (c ∷ cs) h = omega (arith, sum_from_lem (add acc c) cs (omega arith))

-- If the total of a list of coins fits in 64 bits, the sum, a fold by the wrapping operator, is
-- that total.
pub sum_lem : (cs : List Coin) → total cs < u64_mod → sum cs ≡ total cs
unfolding sum
sum_lem cs h = omega (arith, sum_from_lem 0 cs (omega arith))
