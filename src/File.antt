-- ===== src/File.antt =====
-- pci.c: `snvm_dev_open`, `snvm_dev_release` and `svm_mmap_registers`, and the dispatch of
-- `snvm_dev_map_ioctl`.
pub mod Release
use mathlib.Core.Option
use geminifs_npu_smoke.Prelude.{
  ℕ, zero, suc, ◌-◌, ◌+◌, ◌≡◌, Bool, true, false, ◌&&◌, Option, none, some, List, [], ◌∷◌, ℤ,
  is_nonneg, is_set, ltb, ◌==◌, if◌then◌else◌, update,
}
use geminifs_npu_smoke.State.{
  Errno, Rc, ok, err, ebadf, einval, enodev, enomem, Map, Ctrl, Group, Owner, World, Env, Kernel,
}
use geminifs_npu_smoke.Ctrls.{ctrl_find_by_inode, update_ctrl}
use geminifs_npu_smoke.Maps.{unmap_and_release, map_purge_by_owner}
use geminifs_npu_smoke.Groups.{destroy_qgroup, drain_maps}
use geminifs_npu_smoke.Ioctl.Reply.{Reply, fail}
use geminifs_npu_smoke.Ioctl.Map.{
  MapRequest, map_host_memory, map_device_memory_ioctl, map_device_queue_memory,
}
use geminifs_npu_smoke.Ioctl.Unmap.{
  unmap_host_memory, unmap_device_memory, unmap_device_queue_memory,
}
use geminifs_npu_smoke.Ioctl.Config.{
  SetupRequest, set_ioq_num, set_share_reg, clear_ioq_num, set_kernel_ioq_cap,
}
use geminifs_npu_smoke.Ioctl.DevInfo.{Namespace, get_dev_info}
use geminifs_npu_smoke.Ioctl.Group.{GroupRequest, create_queue_group, destroy_queue_group}
use geminifs_npu_smoke.Ioctl.AddRequest.{AddRequest}
use geminifs_npu_smoke.Ioctl.AddQueue.{add_user_queue}

-- The command numbers, each with the payload that the handler copies in.
pub data Cmd : Type 0 where
  map_host map_device map_device_queue : MapRequest → Cmd
  unmap_host unmap_device unmap_device_queue : ℕ → Cmd
  set_ioqs : SetupRequest → Cmd
  share_reg : ℤ → Cmd
  dev_info : (ℕ → Option Namespace) → Cmd
  clear_ioqs : Cmd
  create_group : GroupRequest → Cmd
  destroy_group : ℕ → Cmd
  add_queue : AddRequest → Cmd
  kernel_ioq_cap : ℕ → Cmd
  unknown : Cmd

unfoldable pub handle : Kernel → Env → World → ℕ → Ctrl → Cmd → Reply
unfolding map_host_memory map_device_memory_ioctl map_device_queue_memory unmap_host_memory
    unmap_device_memory unmap_device_queue_memory set_ioq_num set_share_reg clear_ioq_num
    set_kernel_ioq_cap get_dev_info create_queue_group destroy_queue_group add_user_queue
handle k env w fd c (map_host req) = map_host_memory k env w fd c req
handle k env w fd c (map_device req) = map_device_memory_ioctl env w fd c req
handle k env w fd c (map_device_queue req) = map_device_queue_memory env w c req
handle k env w fd c (unmap_host addr) = unmap_host_memory k env w fd c addr
handle k env w fd c (unmap_device addr) = unmap_device_memory k env w fd addr
handle k env w fd c (unmap_device_queue addr) = unmap_device_queue_memory k env w c addr
handle k env w fd c (set_ioqs req) = set_ioq_num env w c req
handle k env w fd c (share_reg idx) = set_share_reg env w c idx
handle k env w fd c (dev_info find_ns) = get_dev_info env w c find_ns
handle k env w fd c clear_ioqs = clear_ioq_num w c
handle k env w fd c (create_group req) = create_queue_group k env w fd c.cdev req
handle k env w fd c (destroy_group id) = destroy_queue_group k env w fd c.cdev id
handle k env w fd c (add_queue req) = add_user_queue k env w fd c req
handle k env w fd c (kernel_ioq_cap cap) = set_kernel_ioq_cap env w c cap
handle k env w fd c unknown = fail einval w

-- `inode` is the character device of the open file.
unfoldable pub snvm_dev_map_ioctl : Kernel → Env → World → ℕ → ℕ → Cmd → Reply
unfolding handle ctrl_find_by_inode
snvm_dev_map_ioctl k env w fd inode cmd = elim (ctrl_find_by_inode w inode) [
  | none ↦ fail ebadf w
  | some c ↦ handle k env w fd c cmd
]

abbrev pub new_owner : ℕ → ℕ → Owner
new_owner cdev current = record {
  ctrl = cdev;
  owner = current;
  groups = [];
  nr_groups = 0;
  data_maps = [];
  nr_data_maps = 0;
}

unfoldable pub snvm_dev_open : Env → World → ℕ → ℕ → Rc × World
unfolding ctrl_find_by_inode
snvm_dev_open env w fd inode = elim (ctrl_find_by_inode w inode) [
  | none ↦ (err enodev, w)
  | some c ↦
      if env.kzalloc
      then (ok, record w { files = update w.files fd (some (new_owner c.cdev env.current)) })
      else (err enomem, w)
]

-- The physical range that a mapping of the registers covers: all of BAR0 from its start, as far as the
-- virtual range goes.
unfoldable pub svm_mmap_registers : World → ℕ → ℕ → ℕ → Rc × ℕ × ℕ
unfolding ctrl_find_by_inode
svm_mmap_registers w inode vm_start vm_end = elim (ctrl_find_by_inode w inode) [
  | none ↦ (err ebadf, 0, 0)
  | some c ↦ elim c.pdev [
    | none ↦ (err ebadf, 0, 0)
    | some p ↦
        if ltb (w.pci p).bar0_len (vm_end - vm_start)
        then (err einval, 0, 0)
        else (ok, (w.pci p).bar0_start, vm_end - vm_start)
  ]
]

-- Pass 0: every group is unlinked and torn down, in the order of the list.
unfoldable pub destroy_groups : Kernel → World → List Group → ℕ → World
unfolding destroy_qgroup
destroy_groups k w [] cdev = w
destroy_groups k w (g ∷ gs) cdev = destroy_groups k (destroy_qgroup k w g cdev) gs cdev

abbrev pub is_ring_of : ℕ → Option Map → Bool
is_ring_of owner none = false
is_ring_of owner (some m) = m.owner == owner && is_nonneg m.ioq_idx

abbrev pub is_cq_ring : Option Map → Bool
is_cq_ring none = false
is_cq_ring (some m) = is_set m.is_cq

-- Pass 1: the registered rings of the owner in a list, and the CQs among them.
unfoldable pub count_rings : (ℕ → Option Map) → ℕ → List ℕ → ℕ
count_rings heap owner [] = 0
count_rings heap owner (p ∷ ps) =
    (if is_ring_of owner (heap p) then 1 else 0) + count_rings heap owner ps

unfoldable pub count_cqs : (ℕ → Option Map) → ℕ → List ℕ → ℕ
count_cqs heap owner [] = 0
count_cqs heap owner (p ∷ ps) =
    (if is_ring_of owner (heap p) && is_cq_ring (heap p) then 1 else 0) + count_cqs heap owner ps

-- The roll back of the counters stops at 0.
abbrev pub roll_back : ℕ → ℕ → Ctrl → Ctrl
roll_back rb_ioq rb_cq c = record c {
  cq_num = (if ltb c.cq_num rb_cq then 0 else c.cq_num - rb_cq);
  ioq_map_num = (if ltb c.ioq_map_num rb_ioq then 0 else c.ioq_map_num - rb_ioq);
}

-- Passes 1 and 2 over the module's lists.
unfoldable pub purge_lists : World → ℕ → ℕ → World
unfolding count_rings count_cqs map_purge_by_owner update_ctrl
purge_lists w cdev owner =
    let rb_ioq =
      count_rings w.heap owner w.host_list + count_rings w.heap owner w.device_queue_list in
    let rb_cq = count_cqs w.heap owner w.host_list + count_cqs w.heap owner w.device_queue_list in
    let w1 = (map_purge_by_owner (λ w. w.host_list) owner w).0 in
    let w2 = (map_purge_by_owner (λ w. w.device_list) owner w1).0 in
    let w3 = (map_purge_by_owner (λ w. w.device_queue_list) owner w2).0 in
    update_ctrl w3 cdev (roll_back rb_ioq rb_cq)

-- The groups and then the data maps are off the file's lists as they are torn down, so that the file
-- holds nothing by the time its private data is freed.
unfoldable pub snvm_dev_release : Kernel → World → ℕ → World
unfolding destroy_groups drain_maps purge_lists
snvm_dev_release k w fd = elim (w.files fd) [
  | none ↦ w
  | some own ↦
      let closed = record w { files = update w.files fd none } in
      let w0 = destroy_groups k closed own.groups own.ctrl in
      purge_lists (drain_maps w0 own.data_maps) own.ctrl own.owner
]
