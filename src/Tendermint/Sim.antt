-- ===== src/Tendermint/Sim.antt =====
-- A method with the record next to the same method without, and how the steps compose.
use nimiq_core_rs_albatross.Base.{
  ℕ, ◌≡◌, refl, ap, ◌∙◌, Bool, true, false, Option, none, some, if◌then◌else◌,
}
use nimiq_core_rs_albatross.Tendermint.Utils.{Step, VoteResult, TendermintState, same_step}
use nimiq_core_rs_albatross.Tendermint.Deps.{
  Tendermint, Progress, ok, err, panic, Response, done, failed, Method, assert, unwrap, gets, await,
  ◌>>=◌,
}
use nimiq_core_rs_albatross.Tendermint.Network.{set_state, start_at, after_prevote, after_precommit}
use nimiq_core_rs_albatross.Tendermint.Protocol.{assert_step, on_timeout_precommit}
use nimiq_core_rs_albatross.Tendermint.Trace.{Log}

module _ {D Proposal Proof : Type 0} where
  abbrev pub erase : Tendermint (D × Log Proof) Proposal Proof → Tendermint D Proposal Proof
  erase m = record { deps = m.deps.0; state = m.state }

  -- With the record the method does what the other does without.
  pub record Sim {A : Type 0} (f : Method (Tendermint (D × Log Proof) Proposal Proof) A)
      (g : Method (Tendermint D Proposal Proof) A) : Type 0 where
    pub same :
        (m : Tendermint (D × Log Proof) Proposal Proof) → g (erase m) ≡ ((f m).0, erase (f m).1)

  bind_of :
      {A B : Type 0} (h : A → Method (Tendermint (D × Log Proof) Proposal Proof) B)
      (k : A → Method (Tendermint D Proposal Proof) B)
      (q : Progress A × Tendermint (D × Log Proof) Proposal Proof)
      (m : Tendermint (D × Log Proof) Proposal Proof)
      → ((a : A) → Sim (h a) (k a))
      → ◌>>=◌ (λ (_ : Tendermint D Proposal Proof). (q.0, erase q.1)) k (erase m) ≡ (
        (◌>>=◌ (λ (_ : Tendermint (D × Log Proof) Proposal Proof). q) h m).0,
        erase (◌>>=◌ (λ (_ : Tendermint (D × Log Proof) Proposal Proof). q) h m).1,
      )
  bind_of h k (ok a, m') m s = (s a).same m'
  bind_of h k (err e, m') m s = refl
  bind_of h k (panic, m') m s = refl

  pub bind-Sim :
      {A B : Type 0} {f : Method (Tendermint (D × Log Proof) Proposal Proof) A}
      {g : Method (Tendermint D Proposal Proof) A}
      {h : A → Method (Tendermint (D × Log Proof) Proposal Proof) B}
      {k : A → Method (Tendermint D Proposal Proof) B}
      → Sim f g
      → ((a : A) → Sim (h a) (k a))
      → Sim (◌>>=◌ f h) (◌>>=◌ g k)
  bind-Sim {f = f} {h = h} {k = k} s t = record {
    same = λ m.
        ap (λ r. ◌>>=◌ (λ (_ : Tendermint D Proposal Proof). r) k (erase m)) (s.same m)
        ∙ bind_of h k (f m) m t;
  }

  pub set-Sim :
      (f : TendermintState Proposal Proof → TendermintState Proposal Proof)
      → Sim (set_state f) (set_state f)
  set-Sim f = record { same = λ m. refl }

  pub gets-Sim :
      {A : Type 0} (f : TendermintState Proposal Proof → A)
      → Sim (gets (λ m. f m.state)) (gets (λ m. f m.state))
  gets-Sim f = record { same = λ m. refl }

  pub unwrap-Sim : {A : Type 0} (o : Option A) → Sim (unwrap o) (unwrap o)
  unwrap-Sim none = record { same = λ m. refl }
  unwrap-Sim (some a) = record { same = λ m. refl }

  pub if-Sim :
      {A : Type 0} (b : Bool) {f h : Method (Tendermint (D × Log Proof) Proposal Proof) A}
      {g k : Method (Tendermint D Proposal Proof) A}
      → Sim f g
      → Sim h k
      → Sim (if b then f else h) (if b then g else k)
  if-Sim true s t = s
  if-Sim false s t = t

  assert_of :
      (b : Bool) (m : Tendermint (D × Log Proof) Proposal Proof)
      → assert (λ _. b) (erase m) ≡ ((assert (λ _. b) m).0, erase (assert (λ _. b) m).1)
  assert_of true m = refl
  assert_of false m = refl

  pub assert_step-Sim : (step : Step) → Sim (assert_step step) (assert_step step)
  assert_step-Sim step = record { same = λ m. assert_of (same_step m.state.step step) m }

  pub unwrap_state-Sim :
      {A : Type 0} (f : TendermintState Proposal Proof → Option A)
      → Sim (λ m. unwrap (f m.state) m) (λ m. unwrap (f m.state) m)
  unwrap_state-Sim f = record { same = λ m. (unwrap-Sim (f m.state)).same m }

  await_of :
      {A : Type 0} (m : Tendermint (D × Log Proof) Proposal Proof) (l : Log Proof)
      (r : Response A × D)
      → await (λ _. r) (erase m)
        ≡ ((await (λ _. (r.0, (r.1, l))) m).0, erase (await (λ _. (r.0, (r.1, l))) m).1)
  await_of m l (failed e, d) = refl
  await_of m l (done a, d) = refl

  -- A call that answers as it does without the record.
  pub await-Sim :
      {A : Type 0} (call : D → Response A × D) (keep : D × Log Proof → Log Proof)
      → Sim (await (λ d. ((call d.0).0, ((call d.0).1, keep d)))) (await call)
  await-Sim call keep = record { same = λ m. await_of m (keep m.deps) (call m.deps.0) }

  start_at-Sim : (round : ℕ) → Sim (start_at {D = D × Log Proof} round) (start_at round)
  unfolding start_at
  start_at-Sim round = search (bind-Sim, set-Sim)

  pub after_prevote-Sim :
      (v : VoteResult Proof) → Sim (after_prevote {D = D × Log Proof} v) (after_prevote v)
  unfolding after_prevote
  after_prevote-Sim (VoteResult.block proof) = search set-Sim
  after_prevote-Sim (VoteResult.nil proof) = search set-Sim
  after_prevote-Sim VoteResult.timeout = search set-Sim
  after_prevote-Sim (VoteResult.new_round round) = start_at-Sim round

  pub after_precommit-Sim :
      (v : VoteResult Proof) → Sim (after_precommit {D = D × Log Proof} v) (after_precommit v)
  unfolding after_precommit
  after_precommit-Sim (VoteResult.block proof) = search (bind-Sim, set-Sim)
  after_precommit-Sim (VoteResult.nil proof) = search set-Sim
  after_precommit-Sim VoteResult.timeout = search set-Sim
  after_precommit-Sim (VoteResult.new_round round) = start_at-Sim round

  pub on_timeout_precommit-Sim : Sim (on_timeout_precommit {D = D × Log Proof}) on_timeout_precommit
  unfolding on_timeout_precommit
  on_timeout_precommit-Sim = search (bind-Sim, set-Sim)
