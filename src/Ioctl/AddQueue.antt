-- ===== src/Ioctl/AddQueue.antt =====
-- pci.c, in `snvm_dev_map_ioctl`: NVM_ADD_USER_QUEUE, which makes a batch of queue pairs on the device.
pub mod Checks
pub mod Drive
pub mod Atomic
pub mod Commit
pub mod Success
use mathlib.Core.Option
use geminifs_npu_smoke.Prelude.{
  ℕ, zero, suc, ◌+◌, ◌-◌, ◌*◌, ◌%◌, ◌^◌, ◌≡◌, Bool, true, false, not, ◌&&◌, ◌||◌, Option, none,
  some, List, [], ◌∷◌, ◌++◌, ltb, ◌==◌, if◌then◌else◌, update, add32, sub32, get_elem?, set, take,
  length,
}
use geminifs_npu_smoke.State.{
  Errno, Rc, ok, err, efault, einval, enodev, enomem, enoent, ebusy, Map, Ctrl, NvmeDev, UserQueue,
  Group, Owner, World, Env, Kernel, nvm_max_queues_per_group, kind_ring_sq, kind_ring_cq, kind_data,
  align_down,
}
use geminifs_npu_smoke.Admin.{adapter_alloc_cq_user, adapter_alloc_sq_user, adapter_delete_cq}
use geminifs_npu_smoke.Ctrls.{update_ctrl, snvm_ctrl_get_live_ndev}
use geminifs_npu_smoke.QidPool
use geminifs_npu_smoke.Groups.{find_qgroup, update_group, update_owner, delete_pair, free_qid}
use geminifs_npu_smoke.Ioctl.Reply.{Reply, fail, PairOut, pairs_made}
use geminifs_npu_smoke.Ioctl.Map.{all_zero, in_group}
use geminifs_npu_smoke.Ioctl.AddRequest.{
  AddRequest, Pair, bad_add_request, bad_pairs, batch, both, clashes, find_all_rings, find_rings,
  is_ring, look_at,
}

-- The state of the device loop: its return value, the world, and the QIDs whose SQ and CQ both exist,
-- the newest first.
pub record Driven : Type 0 where
  pub rc : Rc
  pub world : World
  pub created : List ℕ

-- Create CQ, then SQ, for each pair; a CQ whose SQ fails is deleted on the spot.
unfoldable pub drive : Kernel → NvmeDev → World → List (Map × Map) → List ℕ → List ℕ → Driven
unfolding adapter_alloc_cq_user adapter_alloc_sq_user adapter_delete_cq
drive k dev w ((sq, cq) ∷ rings) (qid ∷ qids) created =
    let (rc, w1) = adapter_alloc_cq_user k w dev cq qid in
    elim rc [
      | err e ↦ record { rc = err e; world = w1; created = created }
      | ok ↦
          let (rc', w2) = adapter_alloc_sq_user k w1 dev sq qid in
          elim rc' [
            | err e ↦ record {
              rc = err e;
              world = (adapter_delete_cq k w2 qid).1;
              created = created;
            }
            | ok ↦ drive k dev w2 rings qids (qid ∷ created)
          ]
    ]
drive k dev w _ _ created = record { rc = ok; world = w; created = created }

unfoldable pub delete_pairs : Kernel → World → List ℕ → World
unfolding delete_pair
delete_pairs k w [] = w
delete_pairs k w (qid ∷ qids) = delete_pairs k (delete_pair k w qid) qids

-- `rollback_unlocked`: the created pairs go in reverse order, and all QIDs return to the pool.
unfoldable pub rollback : Kernel → World → ℕ → List ℕ → List ℕ → World
unfolding delete_pairs update_ctrl QidPool.free_all
rollback k w cdev created qids =
    update_ctrl (delete_pairs k w created) cdev (λ c. QidPool.free_all c qids)

-- The slots from `at` on are filled in.
unfoldable pub fill_slots : List UserQueue → ℕ → List Pair → List ℕ → List UserQueue
fill_slots queues at (p ∷ ps) (qid ∷ qids) =
    let uq : UserQueue = record {
      qid = qid;
      alive = true;
      sq_vaddr = p.sq_vaddr;
      cq_vaddr = p.cq_vaddr;
    } in
    fill_slots (set queues at uq) (at + 1) ps qids
fill_slots queues at _ _ = queues

-- `(uint32_t)(NVME_REG_DBS + qid * 2 * db_stride * 4)` and its CQ counterpart.
abbrev pub pair_out : Kernel → NvmeDev → ℕ → PairOut
pair_out k dev qid = record {
  sq_doorbell_offset = (k.reg_dbs + qid * 2 * dev.db_stride * 4) % 2 ^ 32;
  cq_doorbell_offset = (k.reg_dbs + (qid * 2 + 1) * dev.db_stride * 4) % 2 ^ 32;
  qid = qid;
}

unfoldable pub pairs_out : Kernel → NvmeDev → List ℕ → List PairOut
pairs_out k dev [] = []
pairs_out k dev (qid ∷ qids) = pair_out k dev qid ∷ pairs_out k dev qids

abbrev pub commit_group : List Pair → List ℕ → ℕ → Group → Group
commit_group pairs qids nr g = record g {
  queues = fill_slots g.queues g.cur_queues pairs qids;
  cur_queues = add32 g.cur_queues nr;
}

-- After a failed copy to the user: the `n` slots from `at` on are read back and undone.
unfoldable pub revert_slots : Kernel → ℕ → World → List UserQueue → ℕ → ℕ → World × List UserQueue
unfolding delete_pair free_qid
revert_slots k cdev w queues at zero = (w, queues)
revert_slots k cdev w queues at (suc n) = elim (get_elem? queues at) [
  | none ↦ (w, queues)
  | some uq ↦
      revert_slots k cdev (free_qid (delete_pair k w uq.qid) cdev uq.qid)
        (set queues at (record uq { alive = false })) (at + 1) n
]

unfoldable pub revert_group : Kernel → World → ℕ → ℕ → ℕ → Group → World
unfolding revert_slots update_group
revert_group k w fd cdev nr g =
    let (w', queues) = revert_slots k cdev w g.queues (sub32 g.cur_queues nr) nr in
    update_owner w' fd
      (in_group g.group_id (λ g. record g { queues = queues; cur_queues = sub32 g.cur_queues nr }))

-- The result, if it can be copied out, and the reverted state if it cannot.
unfoldable pub copy_out : Bool → World → World → List PairOut → Reply
copy_out copied committed reverted out =
    if copied
    then record { rc = ok; world = committed; out = pairs_made out }
    else fail efault reverted

-- From the device loop on, after the QIDs were taken.
unfoldable pub add_driven :
    Kernel → Env → World → ℕ → ℕ → NvmeDev → Group → AddRequest → List (Map × Map) → List ℕ → Reply
unfolding drive rollback fill_slots pairs_out revert_group update_group copy_out
add_driven k env w fd cdev dev g req rings qids =
    let d = drive k dev w rings qids [] in
    let g' = commit_group (batch req) qids req.nr_pairs g in
    let committed = update_owner d.world fd (in_group g.group_id (λ _. g')) in
    elim d.rc [
      | err e ↦ fail e (rollback k d.world cdev d.created qids)
      | ok ↦
          copy_out env.copy_to_user committed (revert_group k committed fd cdev req.nr_pairs g')
            (pairs_out k dev qids)
    ]

-- The QIDs are taken from the pool of `c`.
unfoldable pub add_pooled :
    Kernel → Env → World → ℕ → Ctrl → NvmeDev → Group → AddRequest → List (Map × Map) → Reply
add_pooled k env w fd c dev g req rings =
    let (rc, c', qids) = QidPool.alloc k c req.nr_pairs in
    let w' = update_ctrl w c.cdev (λ _. c') in
    elim rc [ err e ↦ fail e w' | ok ↦ add_driven k env w' fd c.cdev dev g req rings qids ]

-- What `snvm_user_qid_pool_init_locked` gives decides: its error, or the controller with a pool.
unfoldable pub add_with_pool :
    Kernel → Env → World → ℕ → NvmeDev → Group → AddRequest → List (Map × Map) → Rc × Ctrl → Reply
add_with_pool k env w fd dev g req rings (err e, c) = fail e w
add_with_pool k env w fd dev g req rings (ok, c) = add_pooled k env w fd c dev g req rings

-- The group's quota and its rings.
unfoldable pub add_to_group : Kernel → Env → World → ℕ → Ctrl → NvmeDev → Owner → AddRequest → Reply
add_to_group k env w fd c dev own req = elim (find_qgroup own req.group_id) [
  | none ↦ fail enoent w
  | some g ↦
      if ltb g.max_queues (add32 g.cur_queues req.nr_pairs)
      then fail ebusy w
      else elim (find_all_rings k w.heap g.maps (batch req)) [
        | none ↦ fail enoent w
        | some rings ↦
            add_with_pool k env w fd dev g req rings (QidPool.pool_init c (some dev) env.kcalloc)
      ]
]

-- The controller must be bound to snvme and live.
unfoldable pub add_live : Kernel → Env → World → ℕ → Ctrl → Owner → AddRequest → Reply
add_live k env w fd c own req = elim (snvm_ctrl_get_live_ndev w (some c)) [
  | none ↦ fail enodev w
  | some dev ↦ add_to_group k env w fd c dev own req
]

unfoldable pub add_opened : Kernel → Env → World → ℕ → Ctrl → Owner → AddRequest → Reply
add_opened k env w fd c own req =
    if not env.kzalloc
    then fail enomem w
    else if not env.copy_from_user
    then fail efault w
    else if bad_add_request req
    then fail einval w
    else add_live k env w fd c own req

unfoldable pub add_user_queue : Kernel → Env → World → ℕ → Ctrl → AddRequest → Reply
unfolding add_opened
add_user_queue k env w fd c req = elim (w.files fd) [
  | none ↦ fail enodev w
  | some own ↦ add_opened k env w fd c own req
]
