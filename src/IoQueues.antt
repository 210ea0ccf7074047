-- ===== src/IoQueues.antt =====
-- pci.c and core.c, how a probe or a reset settles the number of I/O queues: the part of
-- `s_nvme_setup_io_queues` before it makes queues, with `snvme_set_queue_count`, `nvme_remap_bar`,
-- `nvme_calc_irq_sets` and `nvme_setup_irqs`. UserQueues makes the queues set aside for user space.
-- `unsigned int` wraps.
pub mod Negotiate
pub mod Irqs
pub mod Bar
pub mod Setup
pub mod UserQueues
use geminifs_npu_smoke.Prelude.{
  ℕ, zero, suc, ◌+◌, ◌-◌, ◌*◌, ◌/◌, ◌%◌, ◌^◌, Bool, true, false, not, ◌&&◌, Option, none, some, ltb,
  leb, ◌||◌, ◌==◌, if◌then◌else◌, add32, sub32,
}
use geminifs_npu_smoke.State.{Errno, enodev, enomem, other, Rc, ok, err, failed, Kernel}

-- The fields of `struct nvme_dev` that the setup of the I/O queues reads and writes.
pub record IoDev : Type 0 where
  pub nr_allocated_queues : ℕ
  pub ctrl_max_io_queues : ℕ
  pub cap_kernel_ioq : ℕ
  pub nr_write_queues : ℕ
  pub nr_poll_queues : ℕ
  pub use_user_allocated : Bool
  pub nr_user_allocated_cq : ℕ
  pub nr_user_use_cq : ℕ
  pub db_stride : ℕ
  pub bar_mapped_size : ℕ
  -- `io_queues[HCTX_TYPE_DEFAULT]`, `[HCTX_TYPE_READ]` and `[HCTX_TYPE_POLL]`.
  pub io_default : ℕ
  pub io_read : ℕ
  pub io_poll : ℕ
  pub num_vecs : ℕ
  pub max_qid : ℕ
  -- The quirk NVME_QUIRK_SINGLE_VECTOR.
  pub single_vector : Bool

-- Answers of `snvme_set_features` for the number of queues: the result word, a status, or an errno.
pub data Features : Type 0 where
  result_word : ℕ → Features
  refused : ℕ → Features
  failed_with : Errno → Features

abbrev pub min : ℕ → ℕ → ℕ
min a b = if leb a b then a else b

abbrev pub max : ℕ → ℕ → ℕ
max a b = if leb a b then b else a

-- The return value, and `*count` after the call.
unfoldable pub set_queue_count : Features → ℕ → Rc × ℕ
set_queue_count (failed_with e) count = (err e, count)
set_queue_count (refused status) count = (ok, 0)
set_queue_count (result_word r) count = (ok, min count (min (r % 2 ^ 16) (r / 2 ^ 16 % 2 ^ 16) + 1))

-- What lies outside during a setup: the module parameters and the kernel's answers.
pub record SetupEnv : Type 0 where
  pub write_queues : ℕ
  pub poll_queues : ℕ
  pub set_features : ℕ → Features
  -- Whether `mutex_trylock` got the shutdown lock, and whether the controller is connecting.
  pub locked : Bool
  pub connecting : Bool
  pub bar_len : ℕ
  -- Whether `ioremap` maps so many bytes.
  pub ioremap : ℕ → Bool
  -- How many vectors `pci_alloc_irq_vectors_affinity` gives of at most so many; none for an error.
  pub alloc_irq_vectors : ℕ → Option ℕ

unfoldable pub setup_io_queues_trylock : SetupEnv → Rc
setup_io_queues_trylock env = if env.locked && env.connecting then ok else err enodev

-- The module parameters are sampled unless a budget was set.
unfoldable pub sample_parameters : SetupEnv → IoDev → IoDev
sample_parameters env dev =
    if dev.cap_kernel_ioq == 0
    then record dev { nr_write_queues = env.write_queues; nr_poll_queues = env.poll_queues }
    else dev

-- How many queues the driver asks for.
unfoldable pub asked : IoDev → ℕ
asked dev =
    let kernel = sub32 dev.nr_allocated_queues 1 in
    if dev.use_user_allocated then add32 kernel dev.nr_user_allocated_cq else kernel

-- The split of a grant between the kernel and user space: the older path, for rings that were
-- registered before the probe.
unfoldable pub split_grant : IoDev → ℕ → ℕ → IoDev × ℕ
split_grant dev expect_num nr =
    if dev.use_user_allocated
    then (if ltb nr (sub32 dev.nr_allocated_queues 1)
        then (record dev { use_user_allocated = false }, nr)
        else if leb nr expect_num
        then (if ltb (sub32 nr 1) dev.nr_user_allocated_cq
            then (record dev { use_user_allocated = false }, nr)
            else (
              record dev {
                nr_allocated_queues = sub32 nr dev.nr_user_allocated_cq;
                nr_user_use_cq = dev.nr_user_allocated_cq;
              },
              sub32 (sub32 nr dev.nr_user_allocated_cq) 1,
            ))
        else (dev, nr))
    else (dev, nr)

-- The kernel's share once a budget was set.
unfoldable pub cap_kernel : IoDev → ℕ → ℕ
cap_kernel dev nr =
    if not (dev.cap_kernel_ioq == 0) && not dev.use_user_allocated && ltb dev.cap_kernel_ioq nr
    then dev.cap_kernel_ioq
    else nr

-- The return value, the device, and the number of I/O queues of the kernel; none if that is 0, with
-- which the code returns 0.
pub record Negotiated : Type 0 where
  pub rc : Rc
  pub dev : IoDev
  pub nr : ℕ

unfoldable pub record_grant : IoDev → Rc → ℕ → IoDev
record_grant dev (err e) nr = dev
record_grant dev ok nr = record dev { ctrl_max_io_queues = nr }

-- The part after the call, on its answer.
unfoldable pub share : IoDev → Rc × ℕ → Negotiated
share dev (rc, granted) =
    let split = split_grant (record_grant dev rc granted) (asked dev) granted in
    record {
      rc = rc;
      dev = split.0;
      nr = if failed rc || split.1 == 0 then split.1 else cap_kernel split.0 split.1;
    }

unfoldable pub negotiate : SetupEnv → IoDev → Negotiated
negotiate env dev =
    let sampled = sample_parameters env dev in
    let expect_num = asked sampled in
    share sampled (set_queue_count (env.set_features expect_num) expect_num)

-- `nvme_remap_bar`
unfoldable pub remap_bar : SetupEnv → IoDev → ℕ → Rc × IoDev
remap_bar env dev size =
    if leb size dev.bar_mapped_size
    then (ok, dev)
    else if ltb env.bar_len size
    then (err enomem, dev)
    else if env.ioremap size
    then (ok, record dev { bar_mapped_size = size })
    else (err enomem, record dev { bar_mapped_size = 0 })

-- The doorbell range of a number of queues, in the 32 bits of the code's sum.
unfoldable pub bar_size : Kernel → IoDev → ℕ → ℕ
bar_size k dev nr = (k.reg_dbs + (nr + 1) * 8 * dev.db_stride) % 2 ^ 32

-- The loop maps the range of as many queues as it can, from `nr` down to 1.
unfoldable pub map_doorbells : Kernel → SetupEnv → IoDev → ℕ → Rc × IoDev × ℕ
map_doorbells k env dev zero = (err enomem, dev, 0)
map_doorbells k env dev (suc nr) =
    let mapped = remap_bar env dev (bar_size k dev (suc nr)) in
    let rest = map_doorbells k env mapped.1 nr in
    if failed mapped.0 then rest else (ok, mapped.1, suc nr)

-- `nvme_calc_irq_sets`
unfoldable pub read_queues : ℕ → ℕ → ℕ
read_queues nr_write_queues nrirqs =
    if nrirqs == 0
    then 0
    else if nrirqs == 1 || nr_write_queues == 0
    then 0
    else if leb nrirqs nr_write_queues
    then 1
    else nrirqs - nr_write_queues

unfoldable pub calc_irq_sets : IoDev → ℕ → IoDev
calc_irq_sets dev nrirqs =
    let total = if nrirqs == 0 then 1 else nrirqs in
    let read = read_queues dev.nr_write_queues nrirqs in
    record dev { io_default = total - read; io_read = read }

-- The single interrupt case.
unfoldable pub one_interrupt : IoDev → ℕ → IoDev
one_interrupt dev nr = record dev {
  io_poll = min dev.nr_poll_queues (sub32 nr 1);
  io_default = 1;
  io_read = 0;
}

unfoldable pub wanted_vectors : IoDev → ℕ → ℕ
wanted_vectors dev nr = if dev.single_vector then 1 else add32 1 (sub32 nr dev.io_poll)

-- `nvme_setup_irqs`. The interrupt core calls `nvme_calc_irq_sets` with the vectors that it gives
-- less the one before the sets.
unfoldable pub setup_irqs : SetupEnv → IoDev → ℕ → Option ℕ × IoDev
setup_irqs env dev nr =
    let start = one_interrupt dev nr in
    elim (env.alloc_irq_vectors (wanted_vectors start nr)) [
      | none ↦ (none, start)
      | some vectors ↦ (some vectors, calc_irq_sets start (vectors - 1))
    ]

-- Where the queues can be made: an errno or 0 ends the setup before.
pub data Settled : Type 0 where
  stopped : Rc → IoDev → Settled
  settled : IoDev → ℕ → Settled

abbrev pub eio : Errno
eio = other 5

unfoldable pub number_queues : IoDev → ℕ → IoDev
number_queues dev vectors = record dev {
  num_vecs = vectors;
  max_qid = max (vectors - 1) 1 + dev.io_poll;
}

unfoldable pub settle_irqs : SetupEnv → IoDev → ℕ → Settled
settle_irqs env dev nr =
    let irqs = setup_irqs env dev nr in
    elim irqs.0 [
      | none ↦ stopped (err eio) irqs.1
      | some vectors ↦
          if vectors == 0
          then stopped (err eio) irqs.1
          else settled (number_queues irqs.1 vectors) nr
    ]

unfoldable pub settle_doorbells : Kernel → SetupEnv → IoDev → ℕ → Settled
settle_doorbells k env dev nr =
    let mapped = map_doorbells k env dev nr in
    elim mapped.0 [ err e ↦ stopped (err e) mapped.1 | ok ↦ settle_irqs env mapped.1 mapped.2 ]

-- `s_nvme_setup_io_queues` up to the interrupt of the admin queue.
unfoldable pub settle : Kernel → SetupEnv → IoDev → Settled
settle k env dev =
    let n = negotiate env dev in
    let lock = setup_io_queues_trylock env in
    if failed n.rc || n.nr == 0
    then stopped n.rc n.dev
    else if failed lock
    then stopped lock n.dev
    else settle_doorbells k env n.dev n.nr
