-- ===== src/State.antt =====
-- The data of the snvme driver: the structures of pci.c (`snvm_dev_owner`, `snvm_qgroup`,
-- `nvme_dev`), ctrl.h (`ctrl`, `snvm_queue_setup`) and map.h (`map`), and the module's global lists.
-- A `struct map` is reached through several lists at once, so maps live on a heap of descriptors
-- and the lists hold pointers. A locked section is one atomic step.
use geminifs_npu_smoke.Prelude.{
  ℕ, ◌*◌, ◌/◌, ◌≡◌, ◌≢◌, refl, inl, inr, ◌<◌, ◌⊎◌, Bool, true, false, Option, List, ℤ,
}

pub data Errno : Type 0 where
  ebadf efault einval enodev enomem enoent ebusy eagain : Errno
  -- A number that a callee returned and the code passes on: an NVMe status or another errno.
  other : ℕ → Errno

pub data Rc : Type 0 where
  ok : Rc
  err : Errno → Rc

-- `if (rc)`
abbrev pub failed : Rc → Bool
failed ok = false
failed (err e) = true

-- To split on a return value and keep the equation.
pub Rc-cases : (r : Rc) → (r ≡ ok) ⊎ ((e : Errno) × (r ≡ err e))
Rc-cases ok = inl refl
Rc-cases (err e) = inr (e, refl)

pub ok_err : {e : Errno} → ok ≢ err e
ok_err h = cc h

pub data Opcode : Type 0 where
  create_cq create_sq delete_cq delete_sq : Opcode

-- The fields of `struct nvme_command` that the queue commands fill in.
pub record Command : Type 0 where
  pub opcode : Opcode
  pub prp1 : ℕ
  pub qid : ℕ
  pub qsize : ℕ
  pub flags : ℕ
  pub cqid : ℕ
  pub irq_vector : ℕ

-- What the driver does to the outside, and to page references, DMA mappings and peer-to-peer pins.
pub data Event : Type 0 where
  admin : Command → Rc → Event
  dma_map dma_unmap put_page p2p_get p2p_put p2p_map p2p_unmap : ℕ → Event

-- What backs a map: `map->data` with the callback `map->release`.
pub data Backing : Type 0 where
  -- The `struct page` array; the callback is `release_user_pages`.
  user_pages : List ℕ → Backing
  -- A `gpu_region` of `map_gpu_memory`: the page table, and the mappings that are not NULL.
  gpu_region : Option ℕ → List ℕ → Backing
  -- One of `map_gpu_ioqueue_memory`: the page table and the one mapping.
  gpu_ioqueue_region : Option ℕ → Option ℕ → Backing

pub record Map : Type 0 where
  pub owner : ℕ
  pub vaddr : ℕ
  pub pdev : ℕ
  pub page_size : ℕ
  pub ioq_idx : ℤ
  pub is_cq : ℤ
  pub group_id : ℕ
  pub kind : ℕ
  pub n_addrs : ℕ
  pub addrs : List ℕ
  pub backing : Option Backing

pub record QueueGroup : Type 0 where
  pub owner_id : ℕ
  pub count : ℕ
  pub numa_node : ℤ
  pub reserved : ℕ

pub record QueueSetup : Type 0 where
  pub valid : ℕ
  pub ioq_num : ℕ
  pub flags : ℕ
  pub cap_kernel_ioq : ℕ
  pub nr_write : ℕ
  pub nr_poll : ℕ
  pub nr_groups : ℕ
  pub groups : List QueueGroup

-- `cdev` is the address of the embedded character device, by which an inode names the controller.
pub record Ctrl : Type 0 where
  pub cdev : ℕ
  pub pdev : Option ℕ
  pub number : ℕ
  -- Whether `chrdev` is not NULL.
  pub chrdev : Bool
  pub on_host : Bool
  pub ioq_num : ℕ
  pub cq_num : ℕ
  pub ioq_map_num : ℕ
  pub use_sreg : ℤ
  pub setup : QueueSetup
  pub user_qid_bitmap : Option (ℕ → Bool)
  pub user_qid_first : ℕ
  pub user_qid_last : ℕ

-- The fields of `struct nvme_dev` (and its `struct nvme_ctrl`) that the character device reads.
pub record NvmeDev : Type 0 where
  pub online_queues : ℕ
  pub user_start_qid : ℕ
  pub nr_allocated_queues : ℕ
  pub ctrl_max_io_queues : ℕ
  pub nr_user_use_cq : ℕ
  pub q_depth : ℕ
  pub db_stride : ℕ
  pub admin_q : Bool
  pub max_hw_sectors : ℕ
  pub sgls : ℕ

-- `pdev->dev.driver` as far as the code compares its name.
pub data Driver : Type 0 where
  no_driver unnamed snvme foreign : Driver

pub record PciDev : Type 0 where
  pub class : ℕ
  pub enabled : Bool
  -- Whether `driver_override` is "snvme", the one value that the code gives it.
  pub driver_override : Bool
  pub driver : Driver
  pub drvdata : Option NvmeDev
  pub bar0_start : ℕ
  pub bar0_len : ℕ

pub record UserQueue : Type 0 where
  pub qid : ℕ
  pub alive : Bool
  pub sq_vaddr : ℕ
  pub cq_vaddr : ℕ

pub record Group : Type 0 where
  pub group_id : ℕ
  pub max_queues : ℕ
  pub maps : List ℕ
  pub nr_maps : ℕ
  pub queues : List UserQueue
  pub cur_queues : ℕ

-- `struct snvm_dev_owner`, the private data of an open file.
pub record Owner : Type 0 where
  pub ctrl : ℕ
  pub owner : ℕ
  pub groups : List Group
  pub nr_groups : ℕ
  pub data_maps : List ℕ
  pub nr_data_maps : ℕ

pub record World : Type 0 where
  pub ctrl_list : List Ctrl
  pub pci : ℕ → PciDev
  pub heap : ℕ → Option Map
  pub host_list : List ℕ
  pub device_list : List ℕ
  pub device_queue_list : List ℕ
  pub files : ℕ → Option Owner
  pub group_ida : List ℕ
  -- Oldest first.
  pub trace : List Event

-- Results of `get_user_pages`: the pages that were pinned, perhaps fewer than asked, or an errno.
pub data Pinned : Type 0 where
  pinned : List ℕ → Pinned
  pin_failed : Errno → Pinned

-- Results of `dma_map_page` with `dma_mapping_error`: the address, and the errno of a bad one.
pub data DmaMapped : Type 0 where
  mapped : ℕ → DmaMapped
  map_failed : ℕ → Errno → DmaMapped

-- Results of `nvfs_nvidia_p2p_get_pages`: a page table and its number of entries, or an errno.
pub data P2pPages : Type 0 where
  p2p_pages : ℕ → ℕ → P2pPages
  p2p_pages_failed : Errno → P2pPages

-- Results of `nvfs_nvidia_p2p_dma_map_pages`: a mapping and its addresses, or an errno.
pub data P2pMapped : Type 0 where
  p2p_mapped : ℕ → List ℕ → P2pMapped
  p2p_map_failed : Errno → P2pMapped

-- What the kernel's functions return during one system call.
pub record Env : Type 0 where
  pub current : ℕ
  pub copy_from_user : Bool
  pub copy_to_user : Bool
  -- kzalloc, kcalloc and kmalloc of the call's own objects.
  pub kzalloc : Bool
  -- The pool's bitmap.
  pub kcalloc : Bool
  -- The address of a new map descriptor.
  pub kvmalloc : Option ℕ
  -- The page array of `map_user_pages`.
  pub kvcalloc : Bool
  -- What a pointer in memory from kmalloc holds before it is written, none for NULL.
  pub uninitialised : Option ℕ
  pub get_user_pages : ℕ → ℕ → Pinned
  pub dma_map_page : ℕ → DmaMapped
  pub p2p_get_pages : ℕ → ℕ → P2pPages
  -- By the position of the controller in `ctrl_list`.
  pub p2p_dma_map_pages : ℕ → P2pMapped
  pub ida_simple_get : Errno ⊎ ℕ

-- What the kernel below the driver does. `submit_sync_cmd` is `snvme_submit_sync_cmd` down to the
-- device, whose answer may depend on all that was done before.
pub record Kernel : Type 0 where
  pub page_size : ℕ
  pub reg_dbs : ℕ
  pub submit_sync_cmd : List Event → Command → Rc
  pub find_first_zero_bit : (ℕ → Bool) → ℕ → ℕ

-- The documented behaviour of `find_first_zero_bit`: the first zero bit, or the size if none.
pub record FindsFirstZero (k : Kernel) : Type 0 where
  pub zero_bit :
      (bm : ℕ → Bool) (n : ℕ)
      → Kernel.find_first_zero_bit k bm n < n
      → bm (Kernel.find_first_zero_bit k bm n) ≡ false
  pub first :
      (bm : ℕ → Bool) (n b : ℕ) → b < Kernel.find_first_zero_bit k bm n → b < n → bm b ≡ true

-- The constants of pci.c, map.c and libnvm's ioctl.h.
abbrev pub nvm_max_queues_per_group : ℕ
nvm_max_queues_per_group = 16

abbrev pub nvm_max_groups_per_fd : ℕ
nvm_max_groups_per_fd = 1

abbrev pub snvm_max_queue_groups : ℕ
snvm_max_queue_groups = 8

abbrev pub gpu_page_size : ℕ
gpu_page_size = 65536

-- `enum nvm_map_kind`
abbrev pub kind_unspecified : ℕ
kind_unspecified = 0

abbrev pub kind_ring_sq : ℕ
kind_ring_sq = 1

abbrev pub kind_ring_cq : ℕ
kind_ring_cq = 2

abbrev pub kind_data : ℕ
kind_data = 3

-- `addr & ~(size - 1)` for a size that is a power of two.
abbrev pub align_down : ℕ → ℕ → ℕ
align_down addr size = addr / size * size
