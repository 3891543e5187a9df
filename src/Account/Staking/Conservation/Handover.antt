-- ===== src/Account/Staking/Conservation/Handover.antt =====
-- Whose inactive stakes grow when a validator is dropped, and by how much.
use nimiq_core_rs_albatross.Base.{
  ℕ, ◌+◌, ◌≡◌, ap, subst, ◌∙◌, Option, none, some, [], ◌∷◌, ◌==◌, if◌then◌else◌, arith,
  Option-cases, inl, inr, Bool-cases,
}
use native.Mathlib.Nat.{add-zero}
use nimiq_core_rs_albatross.Primitives.Coin.{Coin}
use nimiq_core_rs_albatross.Collections.Map.{Map, get, insert, remove}
use nimiq_core_rs_albatross.Collections.Map.Order.{get-insert, get-remove_ne}
use nimiq_core_rs_albatross.Account.Outcome.{Outcome, ok, err, panic, Action, pure, ◌>>=◌}
use nimiq_core_rs_albatross.Account.Balance.{balance_add-cases}
use nimiq_core_rs_albatross.Account.Staking.State.{
  Address, BlsPublicKey, InactiveStake, InactiveValidator, StakingContract,
}
use nimiq_core_rs_albatross.Account.Staking.Staker.{retire_recipient, retire_into}
use nimiq_core_rs_albatross.Account.Staking.Lifecycle.{
  RetirementReceipt, UnparkReceipt, DropValidatorReceipt, retire_all, unpark_validator,
  unpark_if_parked, retire_stakers,
}

abbrev pub stake_coins : Option InactiveStake → Coin
stake_coins none = 0
stake_coins (some st) = st.balance

-- The inactive stake of an address.
abbrev pub inactive_coins : Address → StakingContract → Coin
inactive_coins a s = stake_coins (get a s.inactive_stake_by_address)

-- What an address has among the stakes of a validator.
abbrev pub delegated_by : Address → Map Coin → Coin
delegated_by a [] = 0
delegated_by a ((b, stake) ∷ stakes) = (if a == b then stake else 0) + delegated_by a stakes

-- If a call succeeds, the inactive stake of the address has grown by `n`.
abbrev Retires :
    {A : Type 0} → Address → Coin → StakingContract → Outcome A × StakingContract → Type 0
Retires a n s (ok _, s') = inactive_coins a s' ≡ inactive_coins a s + n
Retires a n s (err _, s') = Unit
Retires a n s (panic, s') = Unit

-- If a call succeeds, the inactive stake of each address has grown by what it has among the stakes.
abbrev pub HandsOver :
    {A : Type 0} → Map Coin → StakingContract → Outcome A × StakingContract → Type 0
HandsOver stakes s o = (a : Address) → Retires a (delegated_by a stakes) s o

Retires-after :
    {A B : Type 0} (a : Address) (m n : Coin) (s s' : StakingContract) (x : A)
    (o : Outcome B × StakingContract)
    → Retires a m s (ok x, s')
    → Retires a n s' o
    → Retires a (m + n) s o
Retires-after a m n s s' x (ok y, t) p q = omega (arith, p, q)
Retires-after a m n s s' x (err e, t) p q = q
Retires-after a m n s s' x (panic, t) p q = q

Retires-bind :
    {A B : Type 0} (a : Address) (m n : Coin) (s : StakingContract)
    (o : Outcome A × StakingContract) (k : A → Action StakingContract B)
    → Retires a m s o
    → ((x : A) (s' : StakingContract) → Retires a n s' (k x s'))
    → Retires a (m + n) s (◌>>=◌ (λ _. o) k s)
Retires-bind a m n s (ok x, s') k p h = Retires-after a m n s s' x (k x s') p (h x s')
Retires-bind a m n s (err e, s') k p h = p
Retires-bind a m n s (panic, s') k p h = p

retire_recipient-Retires :
    (a b : Address) (stake : Coin) (time : ℕ) (s : StakingContract)
    → Retires a (if a == b then stake else 0) s (retire_recipient b stake (some time) s)
unfolding retire_recipient retire_into
retire_recipient-Retires a b stake time s =
    let stakes = s.inactive_stake_by_address in
    elim (balance_add-cases s.balance stake) [
      | inr (over, e) ↦ ground (arith, e)
      | inl (fits, e) ↦ elim (Option-cases (get b stakes)) [
        | inl absent ↦
            let got = get-insert a b (record { balance = stake; retire_time = time }) stakes in
            elim (Bool-cases (a == b)) [
              | inl hit ↦
                  let same : a ≡ b = ground (arith, hit) in
                  let before : get a stakes ≡ none = ap (λ x. get x stakes) same ∙ absent in
                  ground (arith, e, absent, got, hit, before)
              | inr miss ↦ ground (arith, e, absent, got, miss)
            ]
        | inr (st, found) ↦ elim (balance_add-cases st.balance stake) [
          | inr (over', e') ↦ ground (arith, e, found, e')
          | inl (fits', e') ↦
              let got =
                get-insert a b (record { balance = st.balance + stake; retire_time = time })
                  (remove b stakes) in
              elim (Bool-cases (a == b)) [
                | inl hit ↦
                    let same : a ≡ b = ground (arith, hit) in
                    let before : get a stakes ≡ some st = ap (λ x. get x stakes) same ∙ found in
                    ground (arith, e, found, e', got, hit, before)
                | inr miss ↦
                    let apart = get-remove_ne a b stakes (λ q. ground (arith, q, miss)) in
                    ground (arith, e, found, e', got, miss, apart)
              ]
        ]
      ]
    ]

retire_all-HandsOver :
    (time : ℕ) (stakes : Map Coin) (receipts : Map RetirementReceipt) (s : StakingContract)
    → HandsOver stakes s (retire_all time stakes receipts s)
unfolding retire_all
retire_all-HandsOver time [] receipts s a = omega arith
retire_all-HandsOver time ((b, stake) ∷ stakes) receipts s a =
    Retires-bind a (if a == b then stake else 0) (delegated_by a stakes) s
      (retire_recipient b stake (some time) s)
      (λ receipt.
        retire_all time stakes
          (insert b (record { stake = stake; inactive_stake_receipt = receipt }) receipts))
      (retire_recipient-Retires a b stake time s)
      (λ receipt s'.
        retire_all-HandsOver time stakes
          (insert b (record { stake = stake; inactive_stake_receipt = receipt }) receipts) s' a)

unpark_if_parked-Retires :
    (a : Address) (k : BlsPublicKey) (s : StakingContract) → Retires a 0 s (unpark_if_parked k s)
unfolding unpark_if_parked unpark_validator
unpark_if_parked-Retires a k s = ground arith

abbrev dropped : InactiveValidator → Map RetirementReceipt → UnparkReceipt → DropValidatorReceipt
dropped v receipts r = record {
  reward_address = v.validator.reward_address;
  retirement_by_address = receipts;
  retire_time = v.retire_time;
  unpark_receipt = r;
}

pub retire_stakers-HandsOver :
    (k : BlsPublicKey) (v : InactiveValidator) (s : StakingContract)
    → HandsOver v.validator.active_stake_by_address s (retire_stakers k v s)
unfolding retire_stakers
retire_stakers-HandsOver k v s a =
    let stakes = v.validator.active_stake_by_address in
    let summed =
      Retires-bind a (delegated_by a stakes) 0 s (retire_all v.retire_time stakes [] s) _
        (retire_all-HandsOver v.retire_time stakes [] s a)
        (λ receipts s'.
          Retires-bind a 0 0 s' (unpark_if_parked k s') (λ r. pure (dropped v receipts r))
            (unpark_if_parked-Retires a k s') (λ r s''. omega arith)) in
    subst (λ n. Retires a n s (retire_stakers k v s)) (add-zero (delegated_by a stakes)) summed
