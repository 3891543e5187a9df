-- ===== src/Account/Staking/Sorted.antt =====
-- The set of active validators in the order of their balances: inserting and removing, and the set
-- that belongs to a map of validators.
pub mod Coherence
pub mod Operations
use nimiq_core_rs_albatross.Base.{
  ℕ, ◌<◌, ◌≡◌, ◌≢◌, ◌⊎◌, inl, inr, refl, sym, ap, ◌∙◌, subst, Option, none, some, List, [], ◌∷◌,
  arith, compare, Ordering,
}
use nimiq_core_rs_albatross.Account.Staking.State.{Validator, cmp, sorted_insert, sorted_remove}

-- No validator of the set has the key `k`.
abbrev pub Apart : ℕ → List Validator → Type 0
Apart k [] = Unit
Apart k (u ∷ us) = (u.validator_key ≢ k) × Apart k us

pub sorted_remove-sorted_insert :
    (v : Validator) (us : List Validator)
    → Apart v.validator_key us
    → sorted_remove v (sorted_insert v us) ≡ us
unfolding sorted_remove sorted_insert
sorted_remove-sorted_insert v [] h = ground arith
sorted_remove-sorted_insert v (u ∷ us) h = ground (arith, sorted_remove-sorted_insert v us h.1, h.0)

pub sorted_insert_comm :
    (v w : Validator) (us : List Validator)
    → v.validator_key ≢ w.validator_key
    → sorted_insert v (sorted_insert w us) ≡ sorted_insert w (sorted_insert v us)
unfolding sorted_insert
sorted_insert_comm v w [] h = ground (arith, h)
sorted_insert_comm v w (u ∷ us) h = ground (arith, h, sorted_insert_comm v w us h)

pub sorted_insert-Apart :
    (k : ℕ) (v : Validator) (us : List Validator)
    → v.validator_key ≢ k
    → Apart k us
    → Apart k (sorted_insert v us)
unfolding sorted_insert
sorted_insert-Apart k v [] h a = (h, tt)
sorted_insert-Apart k v (u ∷ us) h a = ground (arith, h, a, sorted_insert-Apart k v us h a.1)
