-- ===== src/IoQueues/UserQueues.antt =====
-- pci.c: `nvme_create_user_queue` and `nvme_create_io_queues_mix`, which make the queue pairs of the
-- older path at a probe, over rings that user space registered before.
pub mod Pairs
pub mod Rounds
use geminifs_npu_smoke.Prelude.{
  ℕ, zero, suc, ◌+◌, ◌-◌, Bool, true, false, Option, none, some, List, if◌then◌else◌, ℤ, pos,
}
use geminifs_npu_smoke.State.{
  Errno, enodev, other, Rc, ok, err, failed, NvmeDev, World, Kernel, Map,
}
use geminifs_npu_smoke.Admin.{adapter_alloc_cq_user, adapter_alloc_sq_user, adapter_delete_cq}
use geminifs_npu_smoke.Maps.{map_find_by_pci_dev_and_idx}

-- The probe's surroundings: the PCI device, the kind of its rings' memory, whether a callee's failure
-- is a negative errno rather than an NVMe status, and whether each call of
-- `nvme_setup_io_queues_trylock` succeeds, by the index of the pair.
pub record ProbeEnv : Type 0 where
  pub pdev : ℕ
  pub queue_on_host : Bool
  pub is_negative : Errno → Bool
  pub trylock : ℕ → Bool

-- The return value, the world, and `online_user_queues`.
pub record Made : Type 0 where
  pub rc : Rc
  pub world : World
  pub online : ℕ

abbrev pub eperm : Errno
eperm = other 1

abbrev pub ring_list : ProbeEnv → World → List ℕ
ring_list env w = if env.queue_on_host then w.host_list else w.device_queue_list

-- `map_find_by_pci_dev_and_idx` and the descriptor that it points to.
unfoldable pub find_ring : ProbeEnv → World → ℕ → ℤ → Option Map
find_ring env w uqid is_cq =
    elim (map_find_by_pci_dev_and_idx w (ring_list env w) env.pdev (pos uqid) is_cq) [
      | none ↦ none
      | some p ↦ w.heap p
    ]

-- The part after the SQ was made.
unfoldable pub count_pair : ProbeEnv → World → ℕ → ℕ → Made
count_pair env w uqid online =
    if env.trylock uqid
    then record { rc = ok; world = w; online = online + 1 }
    else record { rc = err enodev; world = w; online = online }

-- The part after the CQ was made. A negative errno returns at once.
unfoldable pub make_sq : Kernel → ProbeEnv → NvmeDev → World → ℕ → ℕ → ℕ → Made
make_sq k env dev w uqid qid online = elim (find_ring env w uqid (pos 0)) [
  | none ↦ record { rc = err eperm; world = (adapter_delete_cq k w qid).1; online = online }
  | some q_map ↦
      let sq = adapter_alloc_sq_user k w dev q_map qid in
      elim sq.0 [
        | ok ↦ count_pair env sq.1 uqid online
        | err e ↦
            if env.is_negative e
            then record { rc = err e; world = sq.1; online = online }
            else record { rc = err e; world = (adapter_delete_cq k sq.1 qid).1; online = online }
      ]
]

unfoldable pub create_user_queue : Kernel → ProbeEnv → NvmeDev → World → ℕ → ℕ → ℕ → Made
create_user_queue k env dev w uqid qid online = elim (find_ring env w uqid (pos 1)) [
  | none ↦ record { rc = err eperm; world = w; online = online }
  | some q_map ↦
      let cq = adapter_alloc_cq_user k w dev q_map qid in
      elim cq.0 [
        | err e ↦ record { rc = err e; world = cq.1; online = online }
        | ok ↦ make_sq k env dev cq.1 uqid qid online
      ]
]

-- The loop, over the rounds left, from the index `count` and the QID `qid` on.
unfoldable pub create_rounds : Kernel → ProbeEnv → NvmeDev → ℕ → World → ℕ → ℕ → ℕ → Made
create_rounds k env dev zero w count qid online = record { rc = ok; world = w; online = online }
create_rounds k env dev (suc n) w count qid online =
    let made = create_user_queue k env dev w count qid online in
    let rest = create_rounds k env dev n made.world (count + 1) (qid + 1) made.online in
    if failed made.rc then made else rest

-- `nvme_create_io_queues_mix`: the QIDs from `online_queues` to the last; an NVMe status is success.
unfoldable pub create_io_queues_mix : Kernel → ProbeEnv → NvmeDev → ℕ → World → ℕ → Made
create_io_queues_mix k env dev max_qid w online =
    let made =
      create_rounds k env dev (max_qid + dev.nr_user_use_cq + 1 - dev.online_queues) w 0
        dev.online_queues online in
    record made { rc = elim made.rc [ ok ↦ ok | err e ↦ if env.is_negative e then err e else ok ] }
