-- ===== src/Account/Balance.antt =====
-- primitives/account/src/lib.rs: `Account::balance_add`, `balance_sub` and `balance_sufficient`,
-- through which every account changes its balance.
use nimiq_core_rs_albatross.Base.{
  ◌+◌, ◌-◌, ◌≤◌, ◌<◌, ◌≡◌, ◌⊎◌, Option, none, some, arith, ltb, if◌then◌else◌,
}
use nimiq_core_rs_albatross.Primitives.Coin.{Coin, checked_add, checked_sub, max_safe_value}
use nimiq_core_rs_albatross.Account.Outcome.{
  AccountError, insufficient_funds, invalid_coin_value, Outcome, ok, err,
}

abbrev ok_or : Option Coin → AccountError → Outcome Coin
ok_or none e = err e
ok_or (some c) e = ok c

unfoldable pub balance_add : Coin → Coin → Outcome Coin
unfolding checked_add
balance_add balance value = ok_or (checked_add balance value) invalid_coin_value

unfoldable pub balance_sub : Coin → Coin → Outcome Coin
unfolding checked_sub
balance_sub balance value = ok_or (checked_sub balance value) (insufficient_funds value balance)

unfoldable pub balance_sufficient : Coin → Coin → Outcome (Unit {0})
balance_sufficient balance value =
    if ltb balance value then err (insufficient_funds value balance) else ok tt

-- How an addition of coins in range ends.
pub balance_add-cases :
    (b v : Coin)
    → ((b + v ≤ max_safe_value) × (balance_add b v ≡ ok (b + v)))
      ⊎ ((max_safe_value < b + v) × (balance_add b v ≡ err invalid_coin_value))
unfolding balance_add
balance_add-cases b v = ground arith

pub balance_add_ok : (b v : Coin) → b + v ≤ max_safe_value → balance_add b v ≡ ok (b + v)
unfolding balance_add
balance_add_ok b v h = ground arith

pub balance_sub-cases :
    (b v : Coin)
    → b ≤ max_safe_value
    → ((v ≤ b) × (balance_sub b v ≡ ok (b - v)))
      ⊎ ((b < v) × (balance_sub b v ≡ err (insufficient_funds v b)))
unfolding balance_sub
balance_sub-cases b v h = ground arith

pub balance_sub_ok : (b v : Coin) → b ≤ max_safe_value → v ≤ b → balance_sub b v ≡ ok (b - v)
unfolding balance_sub
balance_sub_ok b v h k = ground arith
