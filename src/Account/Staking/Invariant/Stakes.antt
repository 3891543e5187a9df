-- ===== src/Account/Staking/Invariant/Stakes.antt =====
-- What adding and removing a stake do to one validator: they keep it funded and move its balance by
-- the value, or they fail and leave it as it was.
use nimiq_core_rs_albatross.Base.{ℕ, ◌+◌, ◌-◌, ◌≤◌, ◌≡◌, arith, inl, inr, Option-cases, unwrap_or}
use nimiq_core_rs_albatross.Primitives.Coin.{Coin, max_safe_value, add}
use nimiq_core_rs_albatross.Collections.Map.{Map, get}
use nimiq_core_rs_albatross.Collections.Map.Order.{insert-IsSorted, remove-IsSorted}
use nimiq_core_rs_albatross.Collections.Map.Sum.{weight_of, sum-insert, sum-remove, weight-le-sum}
use nimiq_core_rs_albatross.Account.Outcome.{AccountError, Outcome, ok, err, panic}
use nimiq_core_rs_albatross.Account.Balance.{balance_add-cases, balance_sub-cases}
use nimiq_core_rs_albatross.Account.Staking.State.{Address, Validator}
use nimiq_core_rs_albatross.Account.Staking.Entry.{add_stake, sub_stake}
use nimiq_core_rs_albatross.Account.Staking.Invariant.{own_coins, IsFunded}

-- The stake that an address has with a validator.
abbrev pub stake_of : Address → Map Coin → Coin
stake_of a m = weight_of own_coins (get a m)

-- A change of a validator that adds `plus` to its balance and takes `minus`, or fails and leaves it.
abbrev pub Moves : ℕ → ℕ → ℕ → Validator → Outcome Validator × Validator → Type 0
Moves plus minus k v (ok v', old) = IsFunded k v' × (v'.balance + minus ≡ v.balance + plus)
Moves plus minus k v (err e, old) = old ≡ v
Moves plus minus k v (panic, old) = ⊥

-- Adding a stake to a funded validator: if it succeeds, the new validator is funded and its
-- balance is more by exactly the value; if it fails, the old validator is as it was, stakes
-- included; it does not panic.
pub add_stake-Moves :
    (k : ℕ) (a : Address) (value : Coin) (v : Validator)
    → IsFunded k v
    → Moves value 0 k v (add_stake a value v)
unfolding add_stake add
add_stake-Moves k a value v f =
    let stakes = v.active_stake_by_address in
    let held = unwrap_or (get a stakes) 0 in
    ground (
      arith,
      balance_add-cases v.balance value,
      sum-insert own_coins a (add held value) stakes f.stakes_sorted,
      insert-IsSorted a (add held value) stakes f.stakes_sorted,
      weight-le-sum own_coins a stakes,
    )

-- Taking a stake from a funded validator whose balance is in range: if it succeeds, the new
-- validator is funded and its balance is less by exactly the value; if it fails, the old validator
-- is as it was, stakes included; it does not panic.
pub sub_stake-Moves :
    (k : ℕ) (a : Address) (value : Coin) (e : AccountError) (v : Validator)
    → IsFunded k v
    → v.balance ≤ max_safe_value
    → Moves 0 value k v (sub_stake a value e v)
unfolding sub_stake
sub_stake-Moves k a value e v f r = elim (Option-cases (get a v.active_stake_by_address)) [
  | inl absent ↦ ground arith
  | inr (held, found) ↦
      let stakes = v.active_stake_by_address in
      ground (
        arith,
        balance_sub-cases held value,
        balance_sub-cases v.balance value r,
        sum-insert own_coins a (held - value) stakes f.stakes_sorted,
        sum-remove own_coins a stakes,
        insert-IsSorted a (held - value) stakes f.stakes_sorted,
        remove-IsSorted a stakes f.stakes_sorted,
      )
]
