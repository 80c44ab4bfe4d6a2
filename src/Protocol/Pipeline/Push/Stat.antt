-- ===== src/Protocol/Pipeline/Push/Stat.antt =====
-- The priority that a PUSH socket reports.
use vnano_msg.Common.{
  ℕ, ◌≡◌, refl, Option, none, some, done, abort, arith, inl, inr, ◌⊎◌, Outcome-cases,
}
use vnano_msg.Protocol.Priolist.{Priolist, Data, getpipe}
use vnano_msg.Protocol.Priolist.Invariant.{Inv, IsPriority}
use vnano_msg.Protocol.Priolist.Keeps.{rm-Inv, activate-Inv}
use vnano_msg.Protocol.Priolist.Settle.{IsBest}
use vnano_msg.Protocol.Lb
use vnano_msg.Protocol.Pipeline.{set_priority}
use vnano_msg.Protocol.Pipeline.Push.{Xpush, rm, activate_out}

-- The statistic is the priority of the balancer, which is well formed.
abbrev pub IsReported : Xpush → Type 0
IsReported x = (x.snd_priority ≡ Lb.get_priority x.lb) × Inv x.lb

set_priority-best :
    (p : Priolist) → Inv p → set_priority (Lb.get_priority p) ≡ done (Lb.get_priority p)
unfolding set_priority vnano_msg.Protocol.Priolist.get_priority
set_priority-best p v = go p.current v.best
  where
    go : (o : Option ℕ) → IsBest p.slots 1 o → set_priority o ≡ done o
    go none b = refl
    go (some k) (lo, hi, full, first) = ground arith

-- On a well-formed balancer, and for a pipe of a priority from 1 to 16, the assertion of the
-- statistic on the priority never fails, neither when `nn_xpush_rm` removes the pipe nor when
-- `nn_xpush_out` gets it and it is in no list, and the statistic is then the priority of the pipes
-- that messages go to, or -1.
pub reports_priority :
    (x : Xpush) (d : Data)
    → IsPriority d.priority
    → Inv x.lb
    → ((x' : Xpush) × (rm x d ≡ done x') × IsReported x')
      × ((Lb.activate x.lb d ≡ abort)
          ⊎ ((x' : Xpush) × (activate_out x d ≡ done x') × IsReported x'))
unfolding rm activate_out
reports_priority x d ok v = (
  (let v' = rm-Inv x.lb d ok v in (_, rw (set_priority-best (Lb.rm x.lb d) v') refl, (refl, v'))),
  elim (Outcome-cases (Lb.activate x.lb d)) [
    | inl failed ↦ inl failed
    | inr (lb, e) ↦
        let v' = activate-Inv x.lb lb d ok v e in
        inr (_, rw (e, set_priority-best lb v') refl, (refl, v'))
  ],
)
