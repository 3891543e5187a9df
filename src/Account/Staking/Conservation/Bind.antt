-- ===== src/Account/Staking/Conservation/Bind.antt =====
-- Two calls in a row: what they move adds up.
use nimiq_core_rs_albatross.Base.{ℕ, ◌+◌, ◌≡◌, arith}
use nimiq_core_rs_albatross.Account.Outcome.{Outcome, ok, err, panic, Action, ◌>>=◌}
use nimiq_core_rs_albatross.Account.Staking.State.{StakingContract}
use nimiq_core_rs_albatross.Account.Staking.Invariant.{Inv, Settles}

-- What a call has moved since `s'` it has moved since `s`, with what was moved in between.
pub shift-Settles :
    {A : Type 0} (p m p' m' : ℕ) (s s' : StakingContract) (r : Outcome A × StakingContract)
    → s'.balance + m ≡ s.balance + p
    → Settles p' m' s' r
    → Settles (p + p') (m + m') s r
shift-Settles p m p' m' s s' (ok b, t) e h = (h.0, omega arith)
shift-Settles p m p' m' s s' (err x, t) e h = h
shift-Settles p m p' m' s s' (panic, t) e h = h

bind_result-Settles :
    {A B : Type 0} (p m p' m' : ℕ) (s : StakingContract) (r : Outcome A × StakingContract)
    (f : A → Action StakingContract B)
    → Settles p m s r
    → ((a : A) (s' : StakingContract)
        → Inv s'
        → s'.balance + m ≡ s.balance + p
        → Settles p' m' s' (f a s'))
    → Settles (p + p') (m + m') s (◌>>=◌ (λ (_ : StakingContract). r) f s)
bind_result-Settles p m p' m' s (ok a, s') f h k =
    shift-Settles p m p' m' s s' (f a s') h.1 (k a s' h.0 h.1)
bind_result-Settles p m p' m' s (err e, s') f h k = tt
bind_result-Settles p m p' m' s (panic, s') f h k = h

pub bind-Settles :
    {A B : Type 0} (p m p' m' : ℕ) (s : StakingContract) (c : Action StakingContract A)
    (f : A → Action StakingContract B)
    → Settles p m s (c s)
    → ((a : A) (s' : StakingContract)
        → Inv s'
        → s'.balance + m ≡ s.balance + p
        → Settles p' m' s' (f a s'))
    → Settles (p + p') (m + m') s (◌>>=◌ c f s)
bind-Settles p m p' m' s c f h k = bind_result-Settles p m p' m' s (c s) f h k
