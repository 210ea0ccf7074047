-- ===== src/Ioctl/Map/Budget.antt =====
-- NVM_MAP_DEVICE_QUEUE_MEMORY: a ring that is registered is counted within the budget.

use geminifs_npu_smoke.Prelude.{
  ℕ, ◌+◌, ◌≤◌, ◌<◌, ◌^◌, ◌≡◌, refl, sym, subst, inl, inr, not, some, [], ◌∷◌, ◌++◌, arith, ◌==◌,
  is_nonneg, ltb, add32, Bool-cases, Option-cases, ==_refl,
}
use geminifs_npu_smoke.State.{Rc-cases, ok, Map, Ctrl, World, Env}
use geminifs_npu_smoke.Ctrls.{ctrl_find_by_inode, update_ctrl, find-update_ctrl}
use geminifs_npu_smoke.Maps.Host.{made, Mapping, insert_map, store_map}
use geminifs_npu_smoke.Maps.Device.{insert_device_queue, map_device_ioqueue_memory}
use geminifs_npu_smoke.Ioctl.Reply.{Reply}
use geminifs_npu_smoke.Ioctl.Map.{MapRequest, count_ring, register_queue, map_device_queue_memory}
use geminifs_npu_smoke.Ioctl.Map.Queue.{tagged, over_budget, within_budget, queue_mapping, goes_on}

-- A new ring: its descriptor is on the heap with the index that was asked for and last on the list, and
-- the controller counts one ring more, within its budget.
pub record Registered (w : World) (c : Ctrl) (req : MapRequest) (w' : World) : Type 0 where
  pub ptr : ℕ
  pub map : Map
  pub ctrl : Ctrl
  pub on_heap : w'.heap ptr ≡ some map
  pub index : map.ioq_idx ≡ req.ioq_idx
  pub listed : w'.device_queue_list ≡ w.device_queue_list ++ ptr ∷ []
  pub found : ctrl_find_by_inode w' c.cdev ≡ some ctrl
  pub one_more : ctrl.ioq_map_num ≡ c.ioq_map_num + 1
  pub within : ctrl.ioq_map_num ≤ ctrl.ioq_num

module _ (env : Env) (w : World) (c : Ctrl) (req : MapRequest) where
  module _ (known : ctrl_find_by_inode w c.cdev ≡ some c) (small : c.ioq_map_num + 1 < 2 ^ 32) where
    abbrev Registers : Reply → Type 0
    Registers r = r.rc ≡ ok → Registered w c req r.world

    register_queue-Registers :
        (p : ℕ) (r : Mapping)
        → Registers (register_queue env c req (made p, insert_device_queue (store_map w p r) p))
    unfolding register_queue update_ctrl ctrl_find_by_inode
    register_queue-Registers p r =
        let w1 = insert_device_queue (store_map w p r) p in
        elim (Bool-cases (ltb c.ioq_num (add32 c.ioq_map_num 1))) [
          | inl full ↦ rw (over_budget env c req p w1 full, register_queue) (λ h. cc)
          | inr room ↦ elim (Bool-cases env.copy_to_user) [
            | inr fault ↦ rw (within_budget env c req p w1 room, fault, register_queue) (λ h. cc)
            | inl copied ↦
                rw
                  (
                    within_budget env c req p w1 room,
                    copied,
                    register_queue,
                    within_budget env c req p w1 room,
                  )
                  (λ h. record {
                    ptr = p;
                    map = tagged env c req r.map;
                    ctrl = count_ring req.is_cq c;
                    on_heap = rw (==_refl p) refl;
                    index = refl;
                    listed = refl;
                    found = find-update_ctrl w c.cdev (count_ring req.is_cq) c known refl;
                    one_more = omega arith;
                    within = ground arith;
                  })
          ]
        ]

    insert_map-Registers :
        (p : ℕ) (r : Mapping)
        → Registers (register_queue env c req (insert_map insert_device_queue w p r))
    unfolding insert_map register_queue
    insert_map-Registers p r = elim (Rc-cases r.rc) [
      | inl done ↦ rw (done, insert_map) (register_queue-Registers p r)
      | inr (e, bad) ↦ rw (bad, insert_map) (λ h. cc)
    ]

    mapped-Registers :
        Registers
          (register_queue env c req (map_device_ioqueue_memory env w c req.vaddr_start req.n_pages))
    unfolding map_device_ioqueue_memory register_queue
    mapped-Registers = elim (Bool-cases (req.n_pages == 0)) [
      | inl empty ↦ rw (empty, map_device_ioqueue_memory) (λ h. cc)
      | inr pages ↦ elim (Option-cases env.kvmalloc) [
        | inl full ↦ rw (pages, full, map_device_ioqueue_memory) (λ h. cc)
        | inr (p, room) ↦
            subst (λ r. Registers (register_queue env c req r))
              (sym (goes_on env c req w p pages room))
              (insert_map-Registers p (queue_mapping env c req))
      ]
    ]

    -- NVM_MAP_DEVICE_QUEUE_MEMORY that succeeds has registered one ring, if the ring counter is not
    -- at the end of its 32 bits: the descriptor carries the index that was asked for and stands
    -- last on the list of device queue maps, and the controller counts one ring more and no more
    -- than its budget.
    pub map_device_queue_memory-Registered :
        (map_device_queue_memory env w c req).rc ≡ ok
        → Registered w c req (map_device_queue_memory env w c req).world
    unfolding map_device_queue_memory
    map_device_queue_memory-Registered = elim (Bool-cases (not env.copy_from_user)) [
      | inl fault ↦ rw (fault, map_device_queue_memory) (λ h. cc)
      | inr read ↦ elim (Bool-cases (not (is_nonneg req.ioq_idx))) [
        | inl bad ↦ rw (read, bad, map_device_queue_memory) (λ h. cc)
        | inr good ↦ rw (read, good, map_device_queue_memory) mapped-Registers
      ]
    ]
