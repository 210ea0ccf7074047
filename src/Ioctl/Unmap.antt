-- ===== src/Ioctl/Unmap.antt =====
-- pci.c, in `snvm_dev_map_ioctl`: NVM_UNMAP_HOST_MEMORY, NVM_UNMAP_DEVICE_MEMORY and
-- NVM_UNMAP_DEVICE_QUEUE_MEMORY.

pub mod Owned
use geminifs_npu_smoke.Prelude.{
  ℕ, ◌-◌, not, Option, none, some, is_nonneg, ltb, ◌==◌, if◌then◌else◌,
}
use geminifs_npu_smoke.State.{efault, einval, Map, Ctrl, Group, World, Env, Kernel, kind_data}
use geminifs_npu_smoke.Ctrls.{update_ctrl}
use geminifs_npu_smoke.Maps.{unmap_and_release, map_find}
use geminifs_npu_smoke.Groups.{update_group, update_owner}
use geminifs_npu_smoke.Ioctl.Reply.{Reply, fail, done}
use geminifs_npu_smoke.Ioctl.Map.{uncount_ring, drop_data_map, in_group}

abbrev pub drop_group_map_checked : Group → Group
drop_group_map_checked g = record g { nr_maps = (if ltb 0 g.nr_maps then g.nr_maps - 1 else 0) }

-- `if (map->ioq_idx >= 0) { if (map->is_cq) cq_num--; ioq_map_num--; }`
unfoldable pub uncount_legacy : World → Ctrl → Map → World
unfolding update_ctrl
uncount_legacy w c m =
    if is_nonneg m.ioq_idx then update_ctrl w c.cdev (uncount_ring m.is_cq) else w

-- The counter of the list that the map hangs on, in the calling file. Without private data nothing
-- is counted.
unfoldable pub uncount_link : World → ℕ → Map → World
unfolding update_group
uncount_link w fd m =
    if m.kind == kind_data
    then update_owner w fd drop_data_map
    else if not (m.group_id == 0)
    then update_owner w fd (in_group m.group_id drop_group_map_checked)
    else w

-- What becomes of the map that was found; one that is not on the heap cannot be on a list.
unfoldable pub unmap_found : (World → Map → World) → World → Option ℕ → Reply
unfolding unmap_and_release
unmap_found prepare w none = fail einval w
unmap_found prepare w (some p) = elim (w.heap p) [
  | none ↦ fail einval w
  | some m ↦ done (unmap_and_release (prepare w m) p)
]

unfoldable pub unmap_host_memory : Kernel → Env → World → ℕ → Ctrl → ℕ → Reply
unfolding unmap_found uncount_legacy uncount_link map_find
unmap_host_memory k env w fd c addr =
    if not env.copy_from_user
    then fail efault w
    else unmap_found (λ w m. uncount_link (uncount_legacy w c m) fd m) w
        (map_find k w w.host_list env.current addr)

unfoldable pub unmap_device_memory : Kernel → Env → World → ℕ → ℕ → Reply
unfolding unmap_found uncount_link map_find
unmap_device_memory k env w fd addr =
    if not env.copy_from_user
    then fail efault w
    else unmap_found (λ w m. uncount_link w fd m) w (map_find k w w.device_list env.current addr)

unfoldable pub unmap_device_queue_memory : Kernel → Env → World → Ctrl → ℕ → Reply
unfolding unmap_found uncount_legacy map_find
unmap_device_queue_memory k env w c addr =
    if not env.copy_from_user
    then fail efault w
    else unmap_found (λ w m. uncount_legacy w c m) w
        (map_find k w w.device_queue_list env.current addr)
