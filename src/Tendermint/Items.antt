-- ===== src/Tendermint/Items.antt =====
-- The items of the stream against the invariant of the state machine.
use nimiq_core_rs_albatross.Base.{
  ℕ, suc, ◌≤◌, ◌≡◌, Bool, true, false, Option, none, some, List, [], ◌∷◌, ◌⊎◌,
}
use nimiq_core_rs_albatross.Primitives.Policy.{two_third_slots}
use nimiq_core_rs_albatross.Tendermint.Utils.{
  TendermintError, TendermintState, TendermintReturn, Votes, get_vote,
}
use nimiq_core_rs_albatross.Tendermint.Deps.{TendermintOutsideDeps, Tendermint, done}
use nimiq_core_rs_albatross.Tendermint.Stream.{Item, item, panicked, run_loop, expect_block}
use nimiq_core_rs_albatross.Tendermint.Trace.{Log}
use nimiq_core_rs_albatross.Tendermint.Justify.{Inv}

module _ {D Proposal Proof Result : Type 0}
    (deps : TendermintOutsideDeps D Proposal Proof Result) where
  -- A block that was assembled of a proposal and the proof of enough votes for its hash.
  abbrev pub FromVotes : Result → Type 0
  FromVotes block =
      (d : D) × (round : ℕ) × (p : Proposal) × (proof : Proof) × (votes : Votes Proof) × (n : ℕ)
      × (deps.assemble_block d round p proof ≡ done block)
      × (get_vote (some (deps.proposal_hash p)) votes ≡ some (proof, n))
      × (two_third_slots ≤ n)

  -- With some record of votes, and in any surroundings, the state keeps the invariant.
  pub record Recoverable (s : TendermintState Proposal Proof) : Type 0 where
    pub votes : Log Proof
    pub invariant : (d : D) → Inv deps (record { deps = (d, votes); state = s })

  abbrev pub Proper : Item (TendermintReturn Proposal Proof Result) → Type 0
  Proper (item (TendermintReturn.result block)) = FromVotes block
  Proper (item (TendermintReturn.state_update s)) = Recoverable s
  Proper (item (TendermintReturn.error e)) = Unit
  Proper panicked = ⊥

  abbrev pub AllProper : List (Item (TendermintReturn Proposal Proof Result)) → Type 0
  AllProper [] = Unit
  AllProper (i ∷ items) = Proper i × AllProper items

  -- The state is among the items.
  abbrev pub Yielded :
      TendermintState Proposal Proof → List (Item (TendermintReturn Proposal Proof Result)) → Type 0
  Yielded s [] = ⊥
  Yielded s (item (TendermintReturn.state_update t) ∷ items) = (t ≡ s) ⊎ Yielded s items
  Yielded s (item (TendermintReturn.result block) ∷ items) = Yielded s items
  Yielded s (item (TendermintReturn.error e) ∷ items) = Yielded s items
  Yielded s (panicked ∷ items) = Yielded s items

  -- What a stream can be given: nothing, or a state that an earlier stream yielded, which was given
  -- nothing or such a state itself, in whatever surroundings.
  pub data Saved : Option (TendermintState Proposal Proof) → Type 0 where
    nothing : Saved none
    yielded :
        {before : Option (TendermintState Proposal Proof)} (n : ℕ) (d : D)
        (s : TendermintState Proposal Proof)
        → Saved before
        → Yielded s (expect_block deps n d before)
        → Saved (some s)

  abbrev Started : Option (TendermintState Proposal Proof) → Type 0
  Started none = Unit
  Started (some s) = Recoverable s

  abbrev start_if :
      ℕ
      → D
      → TendermintState Proposal Proof
      → Bool
      → List (Item (TendermintReturn Proposal Proof Result))
  start_if n d s accepted = elim accepted [
    | true ↦ run_loop deps (suc n) (record { deps = d; state = s })
    | false ↦ item (TendermintReturn.error TendermintError.bad_init_state) ∷ []
  ]
