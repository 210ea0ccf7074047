-- ===== src/Ioctl/Config/SetIoqNum.antt =====
-- NVM_SET_IOQ_NUM: what a request that is accepted satisfies.
use geminifs_npu_smoke.Prelude.{
  ℕ, ◌+◌, ◌%◌, ◌^◌, ◌≤◌, ◌<◌, ◌≡◌, refl, ◌⊎◌, inl, inr, false, not, some, List, [], ◌∷◌, arith,
  ◌==◌, add32, take, Bool-cases, Option-cases,
}
use geminifs_npu_smoke.State.{ok, QueueGroup, Ctrl, World, Env}
use geminifs_npu_smoke.Ctrls.{ctrl_find_by_inode, find-update_ctrl}
use geminifs_npu_smoke.Ioctl.Config.{
  SetupRequest, sum_groups, bad_groups, bad_setup, commit_setup, set_ioq_num,
}

-- The queues that the groups declare, with no bound.
pub total : List QueueGroup → ℕ
total [] = 0
total (g ∷ gs) = g.count + total gs

sum_groups_lem :
    (s t : ℕ) (gs : List QueueGroup)
    → s < 2 ^ 32
    → sum_groups s gs ≡ some t
    → t ≡ (s + total gs) % 2 ^ 32
unfolding sum_groups total
sum_groups_lem s t [] h e = ground arith
sum_groups_lem s t (g ∷ gs) h e = elim (Bool-cases (g.reserved == 0)) [
  | inl clear ↦
      let next : add32 s g.count < 2 ^ 32 = omega arith in
      omega (arith, sum_groups_lem (add32 s g.count) t gs next (rw (clear, sum_groups) at e))
  | inr set ↦ cc (rw (set, sum_groups) at e)
]

-- What an accepted request declares: a partition that adds up, but for the wrap-around of an
-- unsigned int, if it declares groups at all.
pub record Accepted (c : Ctrl) (req : SetupRequest) : Type 0 where
  pub nonzero : 0 < req.ioq_num
  pub shrinks : (c.ioq_num ≡ 0) ⊎ (req.ioq_num ≤ c.ioq_num)
  pub few_groups : req.nr_groups ≤ 8
  pub adds_up : (req.nr_groups ≡ 0) ⊎ (req.ioq_num ≡ total (take req.nr_groups req.groups) % 2 ^ 32)

groups_add_up :
    (req : SetupRequest)
    → bad_groups req ≡ false
    → (req.nr_groups ≡ 0) ⊎ (req.ioq_num ≡ total (take req.nr_groups req.groups) % 2 ^ 32)
unfolding bad_groups
groups_add_up req good = elim (Bool-cases (req.nr_groups == 0)) [
  | inl undeclared ↦ inl (ground arith)
  | inr some_groups ↦ elim (Option-cases (sum_groups 0 (take req.nr_groups req.groups))) [
    | inl bad ↦ cc (rw (some_groups, bad, bad_groups) at good)
    | inr (t, sum) ↦
        let e = sum_groups_lem 0 t (take req.nr_groups req.groups) (omega arith) sum in
        inr (e' t e (rw (some_groups, sum, bad_groups) at good))
  ]
]
  where
    e' :
        (t : ℕ)
        → t ≡ (0 + total (take req.nr_groups req.groups)) % 2 ^ 32
        → not (t == req.ioq_num) ≡ false
        → req.ioq_num ≡ total (take req.nr_groups req.groups) % 2 ^ 32
    e' t e same = ground arith

bad_setup-Accepted : (c : Ctrl) (req : SetupRequest) → bad_setup c req ≡ false → Accepted c req
unfolding bad_setup
bad_setup-Accepted c req good = record {
  nonzero = ground arith;
  shrinks = elim (Bool-cases (c.ioq_num == 0)) [
    | inl z ↦ inl (ground arith)
    | inr z ↦ inr (ground arith)
  ];
  few_groups = ground arith;
  adds_up = groups_add_up req (ground arith);
}

-- NVM_SET_IOQ_NUM that succeeds on a listed controller sets the budget to a number that is not 0
-- and not above a budget set before, and that the declared groups, at most 8, add up to modulo 2 ^
-- 32.
pub set_ioq_num-Accepted :
    (env : Env) (w : World) (c : Ctrl) (req : SetupRequest)
    → ctrl_find_by_inode w c.cdev ≡ some c
    → (set_ioq_num env w c req).rc ≡ ok
    → Accepted c req
      × (ctrl_find_by_inode (set_ioq_num env w c req).world c.cdev ≡ some (commit_setup req c))
unfolding set_ioq_num
set_ioq_num-Accepted env w c req found accepted = elim (Bool-cases (not env.copy_from_user)) [
  | inl fault ↦ cc (rw (fault, set_ioq_num) at accepted)
  | inr read ↦ elim (Bool-cases (bad_setup c req)) [
    | inl bad ↦ cc (rw (read, bad, set_ioq_num) at accepted)
    | inr good ↦ (
      bad_setup-Accepted c req good,
      rw (read, good, set_ioq_num) (find-update_ctrl w c.cdev (commit_setup req) c found refl),
    )
  ]
]
