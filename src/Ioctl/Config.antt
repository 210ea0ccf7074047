-- ===== src/Ioctl/Config.antt =====
-- pci.c, in `snvm_dev_map_ioctl`: NVM_SET_IOQ_NUM, NVM_SET_SHARE_REG, NVM_CLEAR_IOQ_NUM and
-- NVM_SET_KERNEL_IOQ_CAP, which write the queue budget of a controller.
pub mod SetIoqNum
use geminifs_npu_smoke.Prelude.{
  ℕ, zero, suc, ◌+◌, ◌%◌, Bool, true, false, not, ◌&&◌, ◌||◌, Option, none, some, List, [], ◌∷◌,
  ◌++◌, ℤ, ltb, ◌==◌, if◌then◌else◌, add32, map, take, drop,
}
use geminifs_npu_smoke.State.{
  Rc, ok, err, efault, einval, QueueGroup, QueueSetup, Ctrl, World, Env, snvm_max_queue_groups,
}
use geminifs_npu_smoke.Ctrls.{update_ctrl}
use geminifs_npu_smoke.Ioctl.Reply.{Reply, fail, done}

-- `struct nvm_ioctl_setup`
pub record SetupRequest : Type 0 where
  pub ioq_num : ℕ
  pub flags : ℕ
  pub cap_kernel_ioq : ℕ
  pub nr_write : ℕ
  pub nr_poll : ℕ
  pub nr_groups : ℕ
  pub reserved0 : ℕ
  pub reserved1 : ℕ
  pub groups : List QueueGroup

-- The loop over the declared groups: none if a reserved field is set, else `sum`, an unsigned int.
unfoldable pub sum_groups : ℕ → List QueueGroup → Option ℕ
sum_groups sum [] = some sum
sum_groups sum (g ∷ gs) =
    let rest = sum_groups (add32 sum g.count) gs in if g.reserved == 0 then rest else none

-- The checks of the partition, which are skipped when no group is declared.
unfoldable pub bad_groups : SetupRequest → Bool
unfolding sum_groups
bad_groups req = not (req.nr_groups == 0) && elim (sum_groups 0 (take req.nr_groups req.groups)) [
  | none ↦ true
  | some sum ↦ not (sum == req.ioq_num)
]

unfoldable pub bad_setup : Ctrl → SetupRequest → Bool
unfolding bad_groups
bad_setup c req =
    req.ioq_num == 0
    || (not (c.ioq_num == 0) && ltb c.ioq_num req.ioq_num)
    || not (req.reserved0 == 0)
    || not (req.reserved1 == 0)
    || ltb snvm_max_queue_groups req.nr_groups
    || bad_groups req

abbrev pub clear_reserved : QueueGroup → QueueGroup
clear_reserved g = record g { reserved = 0 }

-- The groups beyond `nr_groups` keep what an earlier call left.
abbrev pub new_setup : QueueSetup → SetupRequest → QueueSetup
new_setup old req = record {
  valid = 1;
  ioq_num = req.ioq_num;
  flags = req.flags;
  cap_kernel_ioq = req.cap_kernel_ioq;
  nr_write = req.nr_write;
  nr_poll = req.nr_poll;
  nr_groups = req.nr_groups;
  groups = map clear_reserved (take req.nr_groups req.groups) ++ drop req.nr_groups old.groups;
}

-- NVM_QUEUE_SETUP_F_ON_HOST is bit 0.
abbrev pub commit_setup : SetupRequest → Ctrl → Ctrl
commit_setup req c = record c {
  ioq_num = req.ioq_num;
  on_host = req.flags % 2 == 1;
  setup = new_setup c.setup req;
}

unfoldable pub set_ioq_num : Env → World → Ctrl → SetupRequest → Reply
unfolding bad_setup update_ctrl
set_ioq_num env w c req =
    if not env.copy_from_user
    then fail efault w
    else if bad_setup c req
    then fail einval w
    else done (update_ctrl w c.cdev (commit_setup req))

unfoldable pub set_share_reg : Env → World → Ctrl → ℤ → Reply
unfolding update_ctrl
set_share_reg env w c ioq_idx =
    if not env.copy_from_user
    then fail efault w
    else done (update_ctrl w c.cdev (λ c. record c { use_sreg = ioq_idx }))

unfoldable pub clear_ioq_num : World → Ctrl → Reply
unfolding update_ctrl
clear_ioq_num w c = done (update_ctrl w c.cdev (λ c. record c { ioq_map_num = 0; cq_num = 0 }))

unfoldable pub set_kernel_ioq_cap : Env → World → Ctrl → ℕ → Reply
unfolding update_ctrl
set_kernel_ioq_cap env w c cap =
    if not env.copy_from_user
    then fail efault w
    else done (
        update_ctrl w c.cdev
          (λ c. record c { setup = record c.setup { cap_kernel_ioq = cap; valid = 1 } }))
