-- ===== src/Tests/Maps.antt =====
-- Witnesses for the map and unmap calls.
use geminifs_npu_smoke.Prelude.{
  ℕ, ◌≡◌, refl, inl, inr, subst, false, some, [], ◌∷◌, arith, ◌==◌, pos, mem, Bool-cases,
}
use geminifs_npu_smoke.State.{
  p2p_get, p2p_put, p2p_unmap, p2p_map_failed, ok, err, efault, Ctrl, Owner, World, Env,
}
use geminifs_npu_smoke.Ctrls.{ctrl_find_by_inode}
use geminifs_npu_smoke.Maps.{unmap_and_release, release_events}
use geminifs_npu_smoke.Maps.Host.{insert_map}
use geminifs_npu_smoke.Maps.Device.{map_gpu_ioqueue_memory, map_device_ioqueue_memory}
use geminifs_npu_smoke.Ioctl.Map.{
  MapRequest, attach_legacy, register_queue, map_device_queue_memory,
}
use geminifs_npu_smoke.Ioctl.Map.Undo.{Fresh, Untouched, hangs}
use geminifs_npu_smoke.Ioctl.Map.GivenBack.{GivenBack}
use geminifs_npu_smoke.Ioctl.Map.Queue.{Counts, map_device_queue_memory-Untouched}
use geminifs_npu_smoke.Ioctl.Map.Budget.{Registered, map_device_queue_memory-Registered}
use geminifs_npu_smoke.Ioctl.Unmap.{unmap_host_memory, unmap_device_queue_memory}
use geminifs_npu_smoke.Ioctl.Unmap.Owned.{
  Outcome, unmap_host_memory-Outcome, unmap_device_queue_memory-Outcome,
}
use geminifs_npu_smoke.Tests.{kernel_refusing, env0, ctrl0, group0, owner_of, world_of}

-- A budget of two rings, none of them registered.
abbrev ctrl3 : Ctrl
ctrl3 = record ctrl0 { ioq_num = 2 }

abbrev owner3 : Owner
owner3 = owner_of (group0 ∷ []) 1

abbrev world3 : World
world3 = world_of ctrl3 owner3

abbrev ring_request : MapRequest
ring_request = record {
  vaddr_start = 65536;
  n_pages = 1;
  ioq_idx = pos 1;
  is_cq = pos 1;
  group_id = 0;
  map_kind = 0;
  reserved0 = [];
}

abbrev env_fault : Env
env_fault = record env0 { copy_to_user = false }

found3 : ctrl_find_by_inode world3 7 ≡ some ctrl3
unfolding ctrl_find_by_inode
found3 = refl

counts3 : Counts world3 ctrl3
counts3 = record { found = found3; ioq_map_num_lt = omega arith; cq_num_lt = omega arith }

fresh_in_file :
    (x : ℕ) (own : Owner)
    → world3.files x ≡ some own
    → (mem 100 own.data_maps ≡ false) × (hangs 100 own.groups ≡ false)
fresh_in_file x own opened = elim (Bool-cases (x == 0)) [
  | inl first ↦
      let same : owner3 ≡ own = cc (rw first at opened) in
      subst (λ o. (mem 100 o.data_maps ≡ false) × (hangs 100 o.groups ≡ false)) same (refl, refl)
  | inr closed ↦ cc (rw closed at opened)
]

fresh100 : Fresh 100 world3
fresh100 = record {
  off_heap = refl;
  off_host = refl;
  off_device = refl;
  off_device_queue = refl;
  off_files = fresh_in_file;
}

fresh3 : (p : ℕ) → some 100 ≡ some p → Fresh p world3
fresh3 p e = let same : 100 ≡ p = cc in subst (λ q. Fresh q world3) same fresh100

faults : (map_device_queue_memory env_fault world3 ctrl3 ring_request).rc ≡ err efault
unfolding map_device_queue_memory register_queue attach_legacy map_device_ioqueue_memory
    map_gpu_ioqueue_memory insert_map
faults = refl

registers : (map_device_queue_memory env0 world3 ctrl3 ring_request).rc ≡ ok
unfolding map_device_queue_memory register_queue attach_legacy map_device_ioqueue_memory
    map_gpu_ioqueue_memory insert_map
registers = refl

map_device_queue_memory-Untouched_example :
    Untouched world3 (map_device_queue_memory env_fault world3 ctrl3 ring_request).world
    × GivenBack world3 (map_device_queue_memory env_fault world3 ctrl3 ring_request).world
map_device_queue_memory-Untouched_example =
    map_device_queue_memory-Untouched env_fault world3 ctrl3 ring_request counts3 fresh3 refl efault
      faults

-- Where the mapping fails and the uninitialised pointer is not NULL, the release unmaps it.
abbrev env_garbage : Env
env_garbage = record env0 {
  uninitialised = some 77;
  p2p_dma_map_pages = λ i. p2p_map_failed efault;
}

garbage_test :
    (map_device_queue_memory env_garbage world3 ctrl3 ring_request).world.trace
    ≡ p2p_get 1 ∷ p2p_unmap 77 ∷ p2p_put 1 ∷ []
unfolding map_device_queue_memory register_queue map_device_ioqueue_memory map_gpu_ioqueue_memory
    insert_map unmap_and_release release_events
garbage_test = refl

map_device_queue_memory-Registered_example :
    Registered world3 ctrl3 ring_request
      (map_device_queue_memory env0 world3 ctrl3 ring_request).world
map_device_queue_memory-Registered_example =
    map_device_queue_memory-Registered env0 world3 ctrl3 ring_request found3 (omega arith) registers

unmap_host_memory-Outcome_example :
    Outcome
      (kernel_refusing 9)
      env0
      20481
      (λ w. w.host_list)
      world3
      (unmap_host_memory (kernel_refusing 9) env0 world3 0 ctrl3 20481)
unmap_host_memory-Outcome_example =
    unmap_host_memory-Outcome (kernel_refusing 9) env0 world3 0 ctrl3 20481

abbrev world4 : World
world4 = record world3 { device_list = 13 ∷ []; device_queue_list = 15 ∷ [] }

unmap_device_queue_memory-Outcome_example :
    Outcome
      (kernel_refusing 9)
      env0
      20480
      (λ w. w.device_queue_list)
      world4
      (unmap_device_queue_memory (kernel_refusing 9) env0 world4 ctrl3 20480)
unmap_device_queue_memory-Outcome_example =
    unmap_device_queue_memory-Outcome (kernel_refusing 9) env0 world4 ctrl3 20480
