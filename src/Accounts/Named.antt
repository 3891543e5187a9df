-- ===== src/Accounts/Named.antt =====
-- The addresses that a block names.
use nimiq_core_rs_albatross.Base.{ℕ, ◌≢◌, Bool, true, false, List, [], ◌∷◌, arith}
use nimiq_core_rs_albatross.Account.Htlc.Verifier.{Submitted}
use nimiq_core_rs_albatross.Account.Staking.Inherents.{Inherent}
use nimiq_core_rs_albatross.Accounts.Ledger.{filter_inherents}

-- No transaction of the list has the address as its sender or recipient.
abbrev pub Apart : {Bytes : Type 0} → ℕ → List (Submitted Bytes) → Type 0
Apart address [] = Unit
Apart address (tx ∷ txs) =
    (address ≢ tx.transaction.sender) × (address ≢ tx.transaction.recipient) × Apart address txs

-- No inherent of the list has the address as its target.
abbrev pub Untargeted : {Bytes : Type 0} → ℕ → List (Inherent Bytes) → Type 0
Untargeted address [] = Unit
Untargeted address (i ∷ rest) = (address ≢ i.target) × Untargeted address rest

pub Untargeted-filter_inherents :
    {Bytes : Type 0} (address : ℕ) (pre : Bool) (is : List (Inherent Bytes))
    → Untargeted address is
    → Untargeted address (filter_inherents pre is)
unfolding filter_inherents
Untargeted-filter_inherents address pre [] u = tt
Untargeted-filter_inherents address true (i ∷ rest) (apart, u) =
    let kept = Untargeted-filter_inherents address true rest u in ground (arith, apart, kept)
Untargeted-filter_inherents address false (i ∷ rest) (apart, u) =
    let kept = Untargeted-filter_inherents address false rest u in ground (arith, apart, kept)
