-- ===== src/Primitives/Coin.antt =====
-- primitives/src/coin.rs: amounts in Lunas. A coin is the u64 that it wraps; the checked
-- operations keep it at most MAX_SAFE_VALUE, and the operators `+` and `-` are those of u64.
pub mod Checked
use nimiq_core_rs_albatross.Base.{
  ℕ, ◌/◌, ◌%◌, Bool, Option, none, some, List, [], ◌∷◌, leb, ◌==◌, if◌then◌else◌,
}
use nimiq_core_rs_albatross.Primitives.Word.{
  add_u64, sub_u64, checked_add_u64, checked_sub_u64, checked_mul_u64,
}

abbrev pub Coin : Type 0
Coin = ℕ

abbrev pub zero_coin : Coin
zero_coin = 0

abbrev pub lunas_per_coin : ℕ
lunas_per_coin = 100000

-- JavaScript's Number.MAX_SAFE_INTEGER: 2^53 - 1
abbrev pub max_safe_value : ℕ
max_safe_value = 9007199254740991

unfoldable pub is_zero : Coin → Bool
is_zero c = c == 0

unfoldable pub try_from : ℕ → Option Coin
try_from val = if leb val max_safe_value then some val else none

abbrev and_then : Option ℕ → (ℕ → Option Coin) → Option Coin
and_then none f = none
and_then (some v) f = f v

unfoldable pub checked_add : Coin → Coin → Option Coin
unfolding try_from
checked_add self rhs = and_then (checked_add_u64 self rhs) try_from

unfoldable pub checked_sub : Coin → Coin → Option Coin
unfolding try_from
checked_sub self rhs = and_then (checked_sub_u64 self rhs) try_from

unfoldable pub checked_mul : Coin → ℕ → Option Coin
unfolding try_from
checked_mul self times = and_then (checked_mul_u64 self times) try_from

-- The operators `+` and `-`
unfoldable pub add : Coin → Coin → Coin
add self rhs = add_u64 self rhs

unfoldable pub sub : Coin → Coin → Coin
sub self rhs = sub_u64 self rhs

unfoldable pub div : Coin → ℕ → Coin
div self rhs = self / rhs

unfoldable pub rem : Coin → ℕ → Coin
rem self rhs = self % rhs

-- `fold(Coin::ZERO, Add::add)`
unfoldable pub sum_from : Coin → List Coin → Coin
unfolding add
sum_from acc [] = acc
sum_from acc (c ∷ cs) = sum_from (add acc c) cs

unfoldable pub sum : List Coin → Coin
unfolding sum_from
sum cs = sum_from zero_coin cs
