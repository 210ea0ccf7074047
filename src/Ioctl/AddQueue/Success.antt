-- ===== src/Ioctl/AddQueue/Success.antt =====
-- NVM_ADD_USER_QUEUE: what a call that succeeds leaves behind.
use mathlib.Core.Option
use geminifs_npu_smoke.Prelude.{
  ℕ, ◌≤◌, ◌≡◌, true, false, ◌||◌, some, List, [], ltb, add32, mem, distinct, length,
}
use geminifs_npu_smoke.State.{
  ok, Map, Ctrl, NvmeDev, Group, Owner, World, Env, Kernel, FindsFirstZero,
}
use geminifs_npu_smoke.Admin.Device.{device, IsLawful, DeletesSucceed}
use geminifs_npu_smoke.Ctrls.{update_ctrl}
use geminifs_npu_smoke.QidPool.{IsPool, in_use, alloc}
use geminifs_npu_smoke.Groups.{find_qgroup, update_owner}
use geminifs_npu_smoke.Ioctl.Reply.{Reply, pairs_made}
use geminifs_npu_smoke.Ioctl.Map.{in_group}
use geminifs_npu_smoke.Ioctl.AddRequest.{AddRequest, batch}
use geminifs_npu_smoke.Ioctl.AddQueue.{Driven, drive, commit_group, pairs_out}
use geminifs_npu_smoke.Ioctl.AddQueue.Atomic.{InSync}

-- What a call has made: as many new QIDs as it asked for pairs, all of them of the pool and unused
-- before; an SQ and a CQ on the device for each, and no other; the slots of the group; and a report.
pub record MadePairs (k : Kernel) (c : Ctrl) (w : World) (fd : ℕ) (req : AddRequest) (r : Reply)
    : Type 0 where
  pub own : Owner
  pub dev : NvmeDev
  pub group : Group
  pub qids : List ℕ
  pub opened : w.files fd ≡ some own
  pub found : find_qgroup own req.group_id ≡ some group
  pub within_quota : ltb group.max_queues (add32 group.cur_queues req.nr_pairs) ≡ false
  pub same_number : length qids ≡ req.nr_pairs
  pub is_distinct : distinct qids ≡ true
  pub unused :
      (q : ℕ)
      → mem q qids ≡ true
      → (c.user_qid_first ≤ q) × (q ≤ c.user_qid_last) × (in_use c q ≡ false)
  pub is_lawful : IsLawful r.world
  pub sqs : (q : ℕ) → (device r.world).sqs q ≡ ((device w).sqs q || mem q qids)
  pub cqs : (q : ℕ) → (device r.world).cqs q ≡ ((device w).cqs q || mem q qids)
  pub same_heap : r.world.heap ≡ w.heap
  pub committed :
      r.world.files fd
      ≡ some (in_group group.group_id (λ _. commit_group (batch req) qids req.nr_pairs group) own)
  pub reports : r.out ≡ pairs_made (pairs_out k dev qids)

module _ (k : Kernel) (finds : FindsFirstZero k) (deletes : DeletesSucceed k) (env : Env) where
  module _ (c : Ctrl) (pool : IsPool c) (w : World) where
    module _ (lawful : IsLawful w) (in_sync : InSync c w) (fd : ℕ) (req : AddRequest) where
      abbrev Makes : Reply → Type 0
      Makes r = r.rc ≡ ok → MadePairs k c w fd req r

      module _ (own : Owner) (opened : w.files fd ≡ some own) where
        module _ (g : Group) (there : find_qgroup own req.group_id ≡ some g) where
          module _ (room : ltb g.max_queues (add32 g.cur_queues req.nr_pairs) ≡ false) where
            module _ (dev : NvmeDev) (rings : List (Map × Map))
                (enough : length rings ≡ req.nr_pairs) where
              taken : World
              taken = update_ctrl w c.cdev (λ _. (alloc k c req.nr_pairs).1)

              abbrev qids : List ℕ
              qids = (alloc k c req.nr_pairs).2

              driven : Driven
              driven = drive k dev taken rings qids []

              -- The reply of a loop that made every pair.
              finished : Reply
              finished = record {
                rc = ok;
                world =
                    update_owner driven.world fd
                      (in_group g.group_id (λ _. commit_group (batch req) qids req.nr_pairs g));
                out = pairs_made (pairs_out k dev qids);
              }
