-- ===== src/Tendermint/Agreement.antt =====
-- Quorums: two validators that see enough precommits, where aggregations tell of votes that were
-- cast and faulty slots are less than a third.
use nimiq_core_rs_albatross.Base.{
  ℕ, zero, suc, ◌+◌, ◌*◌, ◌≤◌, ◌<◌, ◌≡◌, sym, ◌∙◌, subst, Bool, true, ◌&&◌, not, some, arith, inl,
  inr, order_cases, Bool-cases, if◌then◌else◌,
}
use nimiq_core_rs_albatross.Primitives.Policy.{slots, two_third_slots}
use nimiq_core_rs_albatross.Tendermint.Utils.{Step, Votes, vote_count}
use nimiq_core_rs_albatross.Tendermint.Trace.{Log}
use nimiq_core_rs_albatross.Tendermint.Rules.{Justified, Ordered}
use nimiq_core_rs_albatross.Tendermint.Casts.{
  Cast, Holds, Cast-unique, precommit-Enough, prevote-Reason,
}

-- How many of the first `n` slots are in a set.
abbrev pub count : ℕ → (ℕ → Bool) → ℕ
count zero f = 0
count (suc n) f = (if f n then 1 else 0) + count n f

-- Two sets with many slots share a slot that is in a third.
shared :
    (n : ℕ) (f g h : ℕ → Bool)
    → n + count n (λ s. not (h s)) < count n f + count n g
    → (s : ℕ) × (s < n) × (f s ≡ true) × (g s ≡ true) × (h s ≡ true)
shared zero f g h lt = absurd (omega arith)
shared (suc n) f g h lt = elim (Bool-cases (f n && g n && h n)) [
  | inl all ↦ (n, omega arith, ground (arith, all), ground (arith, all), ground (arith, all))
  | inr some_not ↦
      let (s, l, a, b, c) = shared n f g h (ground (arith, some_not)) in
      (s, omega (arith, l), a, b, c)
]

overlap :
    (a b c x y : ℕ)
    → 3 * c < slots
    → two_third_slots ≤ x
    → x ≤ a
    → two_third_slots ≤ y
    → y ≤ b
    → slots + c < a + b
overlap a b c x y third hx ha hy hb = omega arith

-- Validators with their slots, those that follow the protocol, and the record of each.
pub record Network (Proof : Type 0) : Type 0 where
  pub owner : ℕ → ℕ
  pub honest : ℕ → Bool
  pub log : ℕ → Log Proof

module _ {Proof : Type 0} (net : Network Proof) where
  open net use {owner, honest, log}

  -- Each vote in an aggregation that a validator holds was cast, where its slot is not faulty.
  abbrev pub Sound : Type 0
  Sound =
      (v : ℕ)
      → honest v ≡ true
      → (r : ℕ) (step : Step) (agg : Votes Proof) → Holds r step agg (log v)
      → (h : ℕ)
      → (voters : ℕ → Bool) × (vote_count (some h) agg ≤ count slots voters)
        × ((s : ℕ) → voters s ≡ true → honest (owner s) ≡ true → Cast r step h (log (owner s)))

  abbrev pub LessThanThird : Type 0
  LessThanThird = 3 * count slots (λ s. not (honest (owner s))) < slots

  -- A validator that is not faulty holds enough votes.
  abbrev pub Quorum : ℕ → Step → ℕ → Type 0
  Quorum r step h =
      (v : ℕ) × (agg : Votes Proof) × (honest v ≡ true)
      × Holds r step agg (log v)
      × (two_third_slots ≤ vote_count (some h) agg)

  module _ (third : LessThanThird) (sound : Sound)
      (justified : (v : ℕ) → honest v ≡ true → Justified (log v))
      (ordered : (v : ℕ) → honest v ≡ true → Ordered (log v)) where
    -- Two quorums have a validator in common that is not faulty and cast both votes.
    meet :
        (r : ℕ) (step : Step) (h r' : ℕ) (step' : Step) (h' : ℕ)
        → Quorum r step h
        → Quorum r' step' h'
        → (u : ℕ) × (honest u ≡ true) × Cast r step h (log u) × Cast r' step' h' (log u)
    meet r step h r' step' h' (v, agg, ok, held, enough) (v', agg', ok', held', enough') =
        let (f, le, cast) = sound v ok r step agg held h in
        let (g, le', cast') = sound v' ok' r' step' agg' held' h' in
        let (s, lt, a, b, c) =
          shared slots f g (λ s. honest (owner s))
            (overlap (count slots f) (count slots g) (count slots (λ s. not (honest (owner s)))) _ _
              third enough le enough' le') in
        (owner s, c, cast s a c, cast' s b c)

    precommit-Quorum :
        (u r h : ℕ) → honest u ≡ true → Cast r Step.precommit h (log u) → Quorum r Step.prevote h
    precommit-Quorum u r h ok c =
        let (agg, held, enough) = precommit-Enough r h (log u) (justified u ok) c in
        (u, agg, ok, held, enough)

    -- After enough precommits for a block no other block gets enough prevotes.
    prevotes_agree :
        (n r h r' h' : ℕ)
        → r' < n
        → r ≤ r'
        → Quorum r Step.precommit h
        → Quorum r' Step.prevote h'
        → h' ≡ h
    prevotes_agree zero r h r' h' lt le q q' = absurd (omega arith)
    prevotes_agree (suc n) r h r' h' lt le q q' = elim (order_cases r r') [
      | inl later ↦
          let (u, good, c, p) = meet r Step.precommit h r' Step.prevote h' q q' in
          let (r0, h0, le0, lt0, c0, why) =
            prevote-Reason r h r' h' (log u) later (justified u good) (ordered u good) c p in
          let same =
            prevotes_agree n r h r0 h0 (omega (arith, lt0, lt)) le0 q
              (precommit-Quorum u r0 h0 good c0) in
          elim why [
            | inl e ↦ sym e ∙ same
            | inr (vr, le1, lt1, (agg, held, enough)) ↦
                prevotes_agree n r h vr h' (omega (arith, lt1, lt)) (omega (arith, le0, le1)) q
                  (u, agg, good, held, enough)
          ]
      | inr rest ↦
          let same_round : r' ≡ r = omega (arith, rest, le) in
          let (u, good, c, _) = meet r Step.precommit h r Step.precommit h q q in
          let (w, fine, a, b) =
            meet r Step.prevote h r' Step.prevote h' (precommit-Quorum u r h good c) q' in
          sym (
            Cast-unique r Step.prevote h h' (log w) (ordered w fine) a
              (subst (λ x. Cast x Step.prevote h' (log w)) same_round b))
    ]

    ordered_agreement :
        (r h r' h' : ℕ) → r ≤ r' → Quorum r Step.precommit h → Quorum r' Step.precommit h' → h' ≡ h
    ordered_agreement r h r' h' le q q' =
        let (u, good, c, _) = meet r' Step.precommit h' r' Step.precommit h' q' q' in
        prevotes_agree (suc r') r h r' h' (omega arith) le q (precommit-Quorum u r' h' good c)

    pub quorums_agree :
        (r h r' h' : ℕ) → Quorum r Step.precommit h → Quorum r' Step.precommit h' → h ≡ h'
    quorums_agree r h r' h' q q' = elim (order_cases r r') [
      | inl lt ↦ sym (ordered_agreement r h r' h' (omega arith) q q')
      | inr rest ↦ ordered_agreement r' h' r h (omega (arith, rest)) q' q
    ]
