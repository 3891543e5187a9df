-- ===== src/Tendermint/Casts.antt =====
-- The votes of one validator, by the rules: at most one in each step, a precommit after enough
-- prevotes, and a prevote after a precommit for a reason.
use nimiq_core_rs_albatross.Base.{
  ℕ, ◌≤◌, ◌<◌, ◌≡◌, refl, sym, ap, ◌∙◌, subst, Option, none, some, arith, ◌⊎◌, inl, inr, [], ◌∷◌,
}
use nimiq_core_rs_albatross.Primitives.Policy.{two_third_slots}
use nimiq_core_rs_albatross.Tendermint.Utils.{Step, AggregationResult, Votes, vote_count}
use nimiq_core_rs_albatross.Tendermint.Deps.{Response, done}
use nimiq_core_rs_albatross.Tendermint.Trace.{voted, looked, Log}
use nimiq_core_rs_albatross.Tendermint.Rules.{
  lock_of, lock_after, stamp, MayPrevote, MayVote, Justified, Before, Ordered,
}

same_stamp : (r r' : ℕ) (s s' : Step) → r ≡ r' → s ≡ s' → stamp r s ≡ stamp r' s'
same_stamp r r' s s' e q = ap (λ x. stamp x s) e ∙ ap (stamp r') q

lock_after-at :
    (r r' : ℕ) (s : Step) (h : Option ℕ) (h' : ℕ) (k : Option (ℕ × ℕ))
    → r ≡ r'
    → s ≡ Step.precommit
    → h ≡ some h'
    → lock_after r s h k ≡ some (r', h')
lock_after-at r r' s h h' k e q v =
    ap (λ x. lock_after x s h k) e
    ∙ ap (λ x. lock_after r' x h k) q
    ∙ ap (λ x. lock_after r' Step.precommit x k) v

module _ {Proof : Type 0} where
  -- The validator cast this vote.
  abbrev pub Cast : ℕ → Step → ℕ → Log Proof → Type 0
  Cast r step h [] = ⊥
  Cast r step h (voted r' step' h' a ∷ l) =
      ((r' ≡ r) × (step' ≡ step) × (h' ≡ some h)) ⊎ Cast r step h l
  Cast r step h (looked r' step' a ∷ l) = Cast r step h l

  -- The validator holds this aggregation, of its own vote or by looking.
  abbrev pub Holds : ℕ → Step → Votes Proof → Log Proof → Type 0
  Holds r step agg [] = ⊥
  Holds r step agg (voted r' step' h a ∷ l) =
      ((r' ≡ r) × (step' ≡ step) × (a ≡ done (AggregationResult.aggregation agg)))
      ⊎ Holds r step agg l
  Holds r step agg (looked r' step' a ∷ l) =
      ((r' ≡ r) × (step' ≡ step) × (a ≡ done (AggregationResult.aggregation agg)))
      ⊎ Holds r step agg l

  abbrev pub Enough : ℕ → ℕ → Log Proof → Type 0
  Enough r h l =
      (agg : Votes Proof) × Holds r Step.prevote agg l × (two_third_slots ≤ vote_count (some h) agg)

  Cast-Before :
      (n r : ℕ) (step : Step) (h : ℕ) (l : Log Proof)
      → Before n l
      → Cast r step h l
      → stamp r step < n
  Cast-Before n r step h [] b c = elim c [ ]
  Cast-Before n r step h (voted r' step' h' a ∷ l) b (inl (e, e', _)) =
      subst (λ x. stamp x step < n) e (subst (λ x. stamp r' x < n) e' b.0)
  Cast-Before n r step h (voted r' step' h' a ∷ l) b (inr c) = Cast-Before n r step h l b.1 c
  Cast-Before n r step h (looked r' step' a ∷ l) b c = Cast-Before n r step h l b c

  MayVote-at :
      (r r' : ℕ) (s s' : Step) (h h' : Option ℕ) (l : Log Proof)
      → r ≡ r'
      → s ≡ s'
      → h ≡ h'
      → MayVote r s h l
      → MayVote r' s' h' l
  MayVote-at r r' s s' h h' l e q v may =
      subst (λ x. MayVote r' s' x l) v
        (subst (λ x. MayVote r' x h l) q (subst (λ x. MayVote x s h l) e may))

  -- In each step of a round one vote at most is cast.
  pub Cast-unique :
      (r : ℕ) (step : Step) (h h' : ℕ) (l : Log Proof)
      → Ordered l
      → Cast r step h l
      → Cast r step h' l
      → h ≡ h'
  Cast-unique r step h h' [] o c c' = elim c [ ]
  Cast-unique r step h h' (voted r1 step1 h1 a ∷ l) o (inl (e, s, v)) (inl (e', s', v')) = cc
  Cast-unique r step h h' (voted r1 step1 h1 a ∷ l) o (inl (e, s, v)) (inr c) = absurd (
      omega (arith, Cast-Before (stamp r1 step1) r step h' l o.0 c, same_stamp r1 r step1 step e s))
  Cast-unique r step h h' (voted r1 step1 h1 a ∷ l) o (inr c) (inl (e, s, v)) =
      absurd (
        omega
          (arith, Cast-Before (stamp r1 step1) r step h l o.0 c, same_stamp r1 r step1 step e s))
  Cast-unique r step h h' (voted r1 step1 h1 a ∷ l) o (inr c) (inr c') =
      Cast-unique r step h h' l o.1 c c'
  Cast-unique r step h h' (looked r1 step1 a ∷ l) o c c' = Cast-unique r step h h' l o c c'

  -- A precommit for a block follows enough prevotes for it in the same round.
  pub precommit-Enough :
      (r h : ℕ) (l : Log Proof) → Justified l → Cast r Step.precommit h l → Enough r h l
  precommit-Enough r h [] j c = elim c [ ]
  precommit-Enough r h (voted r1 step1 h1 a ∷ l) j (inl (e, s, v)) =
      let (vote, agg, rest, q, enough) =
        MayVote-at r1 r step1 Step.precommit h1 (some h) l e s v j.0 in
      let held : Holds r Step.prevote agg l =
        subst (Holds r Step.prevote agg) (sym q) (inl (refl, refl, refl)) in
      (agg, inr held, enough)
  precommit-Enough r h (voted r1 step1 h1 a ∷ l) j (inr c) =
      let (agg, holds, enough) = precommit-Enough r h l j.1 c in (agg, inr holds, enough)
  precommit-Enough r h (looked r1 step1 a ∷ l) j c =
      let (agg, holds, enough) = precommit-Enough r h l j c in (agg, inr holds, enough)

  -- The lock is that of a precommit, and of none that is older than another precommit.
  lock-newest :
      (r h : ℕ) (l : Log Proof)
      → Ordered l
      → Cast r Step.precommit h l
      → (r0 : ℕ) × (h0 : ℕ) × (lock_of l ≡ some (r0, h0)) × (r ≤ r0) × Cast r0 Step.precommit h0 l
  unfolding lock_of
  lock-newest r h [] o c = elim c [ ]
  lock-newest r h (looked r1 step1 a ∷ l) o c = lock-newest r h l o c
  lock-newest r h (voted r1 step1 h1 a ∷ l) o (inl (e, s, v)) =
      (r, h, lock_after-at r1 r step1 h1 h (lock_of l) e s v, omega arith, inl (e, s, v))
  lock-newest r h (voted r1 Step.precommit (some h1) a ∷ l) o (inr c) =
      let lt = Cast-Before (stamp r1 Step.precommit) r Step.precommit h l o.0 c in
      (r1, h1, refl, omega arith, inl (refl, refl, refl))
  lock-newest r h (voted r1 Step.precommit none a ∷ l) o (inr c) =
      let (r0, h0, e, le, c0) = lock-newest r h l o.1 c in (r0, h0, e, le, inr c0)
  lock-newest r h (voted r1 Step.prevote h1 a ∷ l) o (inr c) =
      let (r0, h0, e, le, c0) = lock-newest r h l o.1 c in (r0, h0, e, le, inr c0)
  lock-newest r h (voted r1 Step.propose h1 a ∷ l) o (inr c) =
      let (r0, h0, e, le, c0) = lock-newest r h l o.1 c in (r0, h0, e, le, inr c0)

  -- Why a validator that precommitted in round `r` prevotes for `h'` in a later round: its newest
  -- precommit before was for `h'`, or enough prevotes for `h'` came after that precommit's round.
  abbrev pub Reason : ℕ → ℕ → ℕ → Log Proof → Type 0
  Reason r r' h' l =
      (r0 : ℕ) × (h0 : ℕ) × (r ≤ r0)
      × (r0 < r')
      × Cast r0 Step.precommit h0 l
      × ((h0 ≡ h') ⊎ ((vr : ℕ) × (r0 ≤ vr) × (vr < r') × Enough vr h' l))

  Reason-voted :
      (r r' h' r1 : ℕ) (step1 : Step) (h1 : Option ℕ) (a : Response (AggregationResult Proof))
      (l : Log Proof)
      → Reason r r' h' l
      → Reason r r' h' (voted r1 step1 h1 a ∷ l)
  Reason-voted r r' h' r1 step1 h1 a l (r0, h0, le, lt, c, inl e) = (r0, h0, le, lt, inr c, inl e)
  Reason-voted r r' h' r1 step1 h1 a l (r0, h0, le, lt, c, inr (vr, b, d, (agg, held, enough))) =
      (r0, h0, le, lt, inr c, inr (vr, b, d, (agg, inr held, enough)))

  Reason-looked :
      (r r' h' r1 : ℕ) (step1 : Step) (a : Response (AggregationResult Proof)) (l : Log Proof)
      → Reason r r' h' l
      → Reason r r' h' (looked r1 step1 a ∷ l)
  Reason-looked r r' h' r1 step1 a l (r0, h0, le, lt, c, inl e) = (r0, h0, le, lt, c, inl e)
  Reason-looked r r' h' r1 step1 a l (r0, h0, le, lt, c, inr (vr, b, d, (agg, held, enough))) =
      (r0, h0, le, lt, c, inr (vr, b, d, (agg, inr held, enough)))

  may_why :
      (r' h' r0 h0 : ℕ) (l : Log Proof)
      → lock_of l ≡ some (r0, h0)
      → MayPrevote r' h' l
      → (h0 ≡ h') ⊎ ((vr : ℕ) × (r0 ≤ vr) × (vr < r') × Enough vr h' l)
  may_why r' h' r0 h0 l lock (inl lo) = cc
  may_why r' h' r0 h0 l lock (inr (inl (r1, lo))) = inl cc
  may_why r' h' r0 h0 l lock (inr (inr (r1, h1, vr, lo, le, lt, (agg, rest, q, enough)))) =
      let same : r1 ≡ r0 = cc in
      let held : Holds vr Step.prevote agg l =
        subst (Holds vr Step.prevote agg) (sym q) (inl (refl, refl, refl)) in
      inr (vr, omega (arith, le, same), lt, (agg, held, enough))

  -- At the prevote itself.
  may-Reason :
      (r h r' h' : ℕ) (l : Log Proof)
      → Ordered l
      → Before (stamp r' Step.prevote) l
      → Cast r Step.precommit h l
      → MayPrevote r' h' l
      → Reason r r' h' l
  may-Reason r h r' h' l o b c may =
      let (r0, h0, lock, le, c0) = lock-newest r h l o c in
      let lt = Cast-Before (stamp r' Step.prevote) r0 Step.precommit h0 l b c0 in
      (r0, h0, le, omega arith, c0, may_why r' h' r0 h0 l lock may)

  pub prevote-Reason :
      (r h r' h' : ℕ) (l : Log Proof)
      → r < r'
      → Justified l
      → Ordered l
      → Cast r Step.precommit h l
      → Cast r' Step.prevote h' l
      → Reason r r' h' l
  prevote-Reason r h r' h' [] lt j o c p = elim c [ ]
  prevote-Reason r h r' h' (looked r1 step1 a ∷ l) lt j o c p =
      Reason-looked r r' h' r1 step1 a l (prevote-Reason r h r' h' l lt j o c p)
  prevote-Reason r h r' h' (voted r1 step1 h1 a ∷ l) lt j o (inl (e, s, v)) (inl (e', s', v')) =
      absurd (omega (arith, e, e'))
  prevote-Reason r h r' h' (voted r1 step1 h1 a ∷ l) lt j o (inl (e, s, v)) (inr p) =
      let before = Cast-Before (stamp r1 step1) r' Step.prevote h' l o.0 p in
      absurd (omega (arith, before, same_stamp r1 r step1 Step.precommit e s))
  prevote-Reason r h r' h' (voted r1 step1 h1 a ∷ l) lt j o (inr c) (inl (e, s, v)) =
      Reason-voted r r' h' r1 step1 h1 a l (
        may-Reason r h r' h' l o.1
          (subst (λ x. Before x l) (same_stamp r1 r' step1 Step.prevote e s) o.0) c
          (MayVote-at r1 r' step1 Step.prevote h1 (some h') l e s v j.0))
  prevote-Reason r h r' h' (voted r1 step1 h1 a ∷ l) lt j o (inr c) (inr p) =
      Reason-voted r r' h' r1 step1 h1 a l (prevote-Reason r h r' h' l lt j.1 o.1 c p)
