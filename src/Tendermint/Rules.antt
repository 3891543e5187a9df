-- ===== src/Tendermint/Rules.antt =====
-- The rules of voting, as predicates on the record of what a validator said and looked up.
use nimiq_core_rs_albatross.Base.{ℕ, ◌+◌, ◌*◌, ◌≤◌, ◌<◌, ◌≡◌, ◌⊎◌, Option, none, some, [], ◌∷◌}
use nimiq_core_rs_albatross.Primitives.Policy.{two_third_slots}
use nimiq_core_rs_albatross.Tendermint.Utils.{Step, AggregationResult, vote_count, Votes}
use nimiq_core_rs_albatross.Tendermint.Deps.{Response}
use nimiq_core_rs_albatross.Tendermint.Trace.{voted, looked, Log}

-- The round and the hash of the newest precommit for a block.
abbrev pub lock_after : ℕ → Step → Option ℕ → Option (ℕ × ℕ) → Option (ℕ × ℕ)
lock_after r Step.precommit (some h) lock = some (r, h)
lock_after r Step.precommit none lock = lock
lock_after r Step.prevote h lock = lock
lock_after r Step.propose h lock = lock

-- The order in which votes are cast.
abbrev pub stamp : ℕ → Step → ℕ
stamp r Step.propose = 3 * r
stamp r Step.prevote = 3 * r + 1
stamp r Step.precommit = 3 * r + 2

module _ {Proof : Type 0} where
  unfoldable pub lock_of : Log Proof → Option (ℕ × ℕ)
  lock_of [] = none
  lock_of (voted r s h a ∷ l) = lock_after r s h (lock_of l)
  lock_of (looked r s a ∷ l) = lock_of l

  -- The last thing that happened was a prevote in round `r`, whose aggregation shows enough
  -- prevotes for `h`.
  abbrev pub Polka : ℕ → ℕ → Log Proof → Type 0
  Polka r h l =
      (vote : Option ℕ) × (agg : Votes Proof) × (rest : Log Proof) × (l
        ≡ voted r Step.prevote vote (Response.done (AggregationResult.aggregation agg)) ∷ rest)
      × (two_third_slots ≤ vote_count (some h) agg)

  -- The last thing that happened was to read an aggregation of round `r` with enough prevotes
  -- for `h`.
  abbrev pub Seen : ℕ → ℕ → Log Proof → Type 0
  Seen r h l =
      (agg : Votes Proof) × (rest : Log Proof) × (l
        ≡ looked r Step.prevote (Response.done (AggregationResult.aggregation agg)) ∷ rest)
      × (two_third_slots ≤ vote_count (some h) agg)

  -- A prevote for `h` in round `r`: no block was precommitted before, or the last one was `h`, or
  -- enough prevotes for `h` were seen in an earlier round that is not below that precommit's.
  abbrev pub MayPrevote : ℕ → ℕ → Log Proof → Type 0
  MayPrevote r h l =
      (lock_of l ≡ none)
      ⊎ (((r0 : ℕ) × (lock_of l ≡ some (r0, h)))
          ⊎ ((r0 : ℕ) × (h0 : ℕ) × (vr : ℕ) × (lock_of l ≡ some (r0, h0))
              × (r0 ≤ vr)
              × (vr < r)
              × Seen vr h l))

  abbrev pub MayVote : ℕ → Step → Option ℕ → Log Proof → Type 0
  MayVote r Step.propose h l = ⊥
  MayVote r Step.prevote none l = Unit
  MayVote r Step.prevote (some h) l = MayPrevote r h l
  MayVote r Step.precommit none l = Unit
  MayVote r Step.precommit (some h) l = Polka r h l

  -- Every vote was allowed when it was cast.
  abbrev pub Justified : Log Proof → Type 0
  Justified [] = Unit
  Justified (voted r s h a ∷ l) = MayVote r s h l × Justified l
  Justified (looked r s a ∷ l) = Justified l

  -- Every vote was cast before stamp `n`.
  abbrev pub Before : ℕ → Log Proof → Type 0
  Before n [] = Unit
  Before n (voted r s h a ∷ l) = (stamp r s < n) × Before n l
  Before n (looked r s a ∷ l) = Before n l

  -- Each vote was cast at a later round, or a later step of the same round, than those before.
  abbrev pub Ordered : Log Proof → Type 0
  Ordered [] = Unit
  Ordered (voted r s h a ∷ l) = Before (stamp r s) l × Ordered l
  Ordered (looked r s a ∷ l) = Ordered l
