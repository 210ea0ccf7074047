-- ===== src/Tests.antt =====
-- Concrete kernels, controllers and files that the tests run the model on.
pub mod Pool
pub mod Groups
pub mod Requests
pub mod Maps
pub mod Queues
pub mod Controls
pub mod Setups
pub mod Backends
pub mod Transfers
use mathlib.Core.Option
use geminifs_npu_smoke.Prelude.{
  ℕ, zero, suc, ◌+◌, ◌≤◌, ◌<◌, ◌≡◌, refl, inl, inr, ◌⊎◌, Bool, true, false, Option, none, some,
  List, [], ◌∷◌, arith, ◌==◌, if◌then◌else◌, ℤ, pos, negsuc, ltb, set, replicate, Bool-cases,
}
use geminifs_npu_smoke.State.{
  Errno, other, ebusy, Rc, ok, err, Opcode, create_sq, Command, Event, Map, QueueSetup, Ctrl,
  NvmeDev, snvme, no_driver, PciDev, UserQueue, Group, Owner, World, Env, Kernel, FindsFirstZero,
  pinned, mapped, p2p_pages, p2p_mapped,
}
use geminifs_npu_smoke.Admin.Device.{DeletesSucceed}
use geminifs_npu_smoke.Ioctl.Group.{new_group}
use geminifs_npu_smoke.Ioctl.AddRequest.{AddRequest, Pair}

-- The first zero bit from bit `i` on, among `n` bits.
pub search : ℕ → ℕ → (ℕ → Bool) → ℕ
search zero i bm = i
search (suc n) i bm = let rest = search n (i + 1) bm in if bm i then rest else i

search-zero : (n i : ℕ) (bm : ℕ → Bool) → search n i bm < i + n → bm (search n i bm) ≡ false
unfolding search
search-zero zero i bm l = absurd (omega arith)
search-zero (suc n) i bm l = elim (Bool-cases (bm i)) [
  | inl taken ↦ rw taken (search-zero n (i + 1) bm (omega (arith, rw taken at l)))
  | inr free ↦ rw (free, free) refl
]

search-first : (n i b : ℕ) (bm : ℕ → Bool) → i ≤ b → b < search n i bm → bm b ≡ true
unfolding search
search-first zero i b bm h l = absurd (omega arith)
search-first (suc n) i b bm h l = elim (Bool-cases (bm i)) [
  | inl taken ↦ elim (Bool-cases (i == b)) [
    | inl same ↦ ground (arith, taken)
    | inr later ↦ search-first n (i + 1) b bm (ground arith) (rw taken at l)
  ]
  | inr free ↦ absurd (omega (arith, rw free at l))
]

-- A device that refuses one SQ.
abbrev pub kernel_refusing : ℕ → Kernel
kernel_refusing bad = record {
  page_size = 4096;
  reg_dbs = 4096;
  submit_sync_cmd =
      λ t c. elim c.opcode [ create_sq ↦ if c.qid == bad then err (other 5) else ok | _ ↦ ok ];
  find_first_zero_bit = λ bm n. search n 0 bm;
}

pub kernel_finds : (bad : ℕ) → FindsFirstZero (kernel_refusing bad)
kernel_finds bad = record {
  zero_bit = λ bm n l. search-zero n 0 bm (omega arith);
  first = λ bm n b l _. search-first n 0 b bm (omega arith) l;
}

pub kernel_deletes : (bad : ℕ) → DeletesSucceed (kernel_refusing bad)
kernel_deletes bad = record { deleted_sq = λ t q. refl; deleted_cq = λ t q. refl }

abbrev pub env0 : Env
env0 = record {
  current = 5;
  copy_from_user = true;
  copy_to_user = true;
  kzalloc = true;
  kcalloc = true;
  kvmalloc = some 100;
  kvcalloc = true;
  uninitialised = none;
  get_user_pages = λ a n. pinned (replicate n 1);
  dma_map_page = λ i. mapped (i + 4096);
  p2p_get_pages = λ a n. p2p_pages 1 1;
  p2p_dma_map_pages = λ i. p2p_mapped i (8192 ∷ []);
  ida_simple_get = inr 1;
}

abbrev pub dev0 : NvmeDev
dev0 = record {
  online_queues = 1;
  user_start_qid = 0;
  nr_allocated_queues = 4;
  ctrl_max_io_queues = 3;
  nr_user_use_cq = 0;
  q_depth = 64;
  db_stride = 1;
  admin_q = true;
  max_hw_sectors = 256;
  sgls = 0;
}

abbrev pub setup0 : QueueSetup
setup0 = record {
  valid = 0;
  ioq_num = 0;
  flags = 0;
  cap_kernel_ioq = 0;
  nr_write = 0;
  nr_poll = 0;
  nr_groups = 0;
  groups = [];
}

abbrev pub no_qids : ℕ → Bool
no_qids b = false

-- The user QIDs are 1, 2 and 3.
abbrev pub ctrl0 : Ctrl
ctrl0 = record {
  cdev = 7;
  pdev = some 1;
  number = 0;
  chrdev = true;
  on_host = true;
  ioq_num = 0;
  cq_num = 0;
  ioq_map_num = 0;
  use_sreg = pos 0;
  setup = setup0;
  user_qid_bitmap = some no_qids;
  user_qid_first = 1;
  user_qid_last = 3;
}

abbrev pub ring : ℕ → ℕ → Map
ring vaddr kind = record {
  owner = 5;
  vaddr = vaddr;
  pdev = 1;
  page_size = 4096;
  ioq_idx = negsuc 0;
  is_cq = negsuc 0;
  group_id = 1;
  kind = kind;
  n_addrs = 1;
  addrs = vaddr ∷ [];
  backing = none;
}

abbrev pub legacy : ℕ → Map
legacy vaddr = record (ring vaddr 0) { group_id = 0; ioq_idx = pos 0 }

-- Two SQ rings, two CQ rings, and a legacy map.
abbrev pub heap0 : ℕ → Option Map
heap0 p =
    if p == 11
    then some (ring 4096 1)
    else if p == 12
    then some (ring 8192 2)
    else if p == 13
    then some (ring 12288 1)
    else if p == 14
    then some (ring 16384 2)
    else if p == 15
    then some (legacy 20480)
    else none

abbrev pub group0 : Group
group0 = record (new_group 1) { maps = 11 ∷ 12 ∷ 13 ∷ 14 ∷ []; nr_maps = 4 }

-- The same with a live pair in the first slot.
abbrev pub group1 : Group
group1 = record group0 {
  queues = set group0.queues 0 (record { qid = 2; alive = true; sq_vaddr = 4096; cq_vaddr = 8192 });
  cur_queues = 1;
}

abbrev pub owner_of : List Group → ℕ → Owner
owner_of gs n = record {
  ctrl = 7;
  owner = 5;
  groups = gs;
  nr_groups = n;
  data_maps = [];
  nr_data_maps = 0;
}

abbrev pub world_of : Ctrl → Owner → World
world_of c own = record {
  ctrl_list = c ∷ [];
  pci = λ p. record {
    class = 67586;
    enabled = true;
    driver_override = true;
    driver = snvme;
    drvdata = some dev0;
    bar0_start = 65536;
    bar0_len = 16384;
  };
  heap = heap0;
  host_list = 11 ∷ 12 ∷ 13 ∷ 14 ∷ 15 ∷ [];
  device_list = [];
  device_queue_list = [];
  files = λ fd. if fd == 0 then some own else none;
  group_ida = 1 ∷ [];
  trace = [];
}

abbrev pub pair : ℕ → ℕ → Pair
pair sq cq = record { sq_vaddr = sq; cq_vaddr = cq }

abbrev pub no_pair : Pair
no_pair = pair 0 0

-- Two pairs in an array of 16.
abbrev pub two_pairs : AddRequest
two_pairs = record {
  group_id = 1;
  nr_pairs = 2;
  flags = 0;
  reserved = [];
  pairs = pair 4096 8192 ∷ pair 12288 16384 ∷ replicate 14 no_pair;
}
