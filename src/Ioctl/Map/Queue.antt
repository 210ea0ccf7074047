-- ===== src/Ioctl/Map/Queue.antt =====
-- NVM_MAP_DEVICE_QUEUE_MEMORY against the ring budget of the controller.

use geminifs_npu_smoke.Prelude.{
  ℕ, none, ◌++◌, ==_refl, ◌^◌, ◌<◌, ◌≡◌, refl, sym, ap, ap₂, subst, ◌∙◌, inl, inr, true, false, not,
  some, List, [], ◌∷◌, arith, ◌==◌, ℤ, is_set, is_nonneg, ltb, add32, sub32, Bool-cases,
  Option-cases,
}
use geminifs_npu_smoke.State.{Rc-cases, Errno, ok, err, efault, Map, Ctrl, World, Env}
use geminifs_npu_smoke.Ctrls.{find_ctrl, update_first, ctrl_find_by_inode, update_ctrl}
use geminifs_npu_smoke.Maps.{unmap_and_release, release_events, create_descriptor}
use geminifs_npu_smoke.Maps.Host.{made, Mapping, insert_map, store_map}
use geminifs_npu_smoke.Maps.Device.{
  insert_device_queue, gpu_descriptor, map_gpu_ioqueue_memory, map_device_ioqueue_memory,
}
use geminifs_npu_smoke.Ioctl.Reply.{Reply}
use geminifs_npu_smoke.Ioctl.Map.{
  MapRequest, update_map, count_ring, uncount_ring, attach_legacy, register_queue,
  map_device_queue_memory,
}
use geminifs_npu_smoke.Ioctl.Map.Undo.{
  Fresh, Untouched, Nearly, untouched, release-Untouched, store-Nearly, erase-append_self,
}
use geminifs_npu_smoke.Ioctl.Map.GivenBack.{
  GivenBack, nothing_done, IsUndone, gpu_ioqueue-IsUndone, release-GivenBack,
}

uncount-count :
    (is_cq : ℤ) (c : Ctrl)
    → c.ioq_map_num < 2 ^ 32
    → c.cq_num < 2 ^ 32
    → uncount_ring is_cq (count_ring is_cq c) ≡ c
uncount-count is_cq c l m =
    let back : sub32 (add32 c.ioq_map_num 1) 1 ≡ c.ioq_map_num = omega arith in
    let back' : sub32 (add32 c.cq_num 1) 1 ≡ c.cq_num = omega arith in
    elim (Bool-cases (is_set is_cq)) [
      | inl cq ↦ rw cq (ap₂ (λ (a b : ℕ). record c { ioq_map_num = a; cq_num = b }) back back')
      | inr sq ↦ rw sq (ap (λ (a : ℕ). record c { ioq_map_num = a }) back)
    ]

uncount-count_first :
    (is_cq : ℤ) (cdev : ℕ) (c : Ctrl) (cs : List Ctrl)
    → find_ctrl cdev cs ≡ some c
    → c.ioq_map_num < 2 ^ 32
    → c.cq_num < 2 ^ 32
    → update_first cdev (uncount_ring is_cq) (update_first cdev (count_ring is_cq) cs) ≡ cs
unfolding find_ctrl update_first
uncount-count_first is_cq cdev c [] found l m = refl
uncount-count_first is_cq cdev c (x ∷ cs) found l m = elim (Bool-cases (x.cdev == cdev)) [
  | inl here ↦
      let same : x ≡ c = cc (rw (here, find_ctrl) at found) in
      rw (here, update_first, here) (ap (◌∷ cs) (uncount-count is_cq x (rw same l) (rw same m)))
  | inr later ↦
      rw (later, update_first, later)
        (ap (x ∷◌) (uncount-count_first is_cq cdev c cs (rw (later, find_ctrl) at found) l m))
]

module _ (p : ℕ) (w : World) (fresh : Fresh p w) where
  inserted-Nearly : (r : Mapping) → Nearly p w (insert_device_queue (store_map w p r) p)
  inserted-Nearly r =
      let near = store-Nearly p w r fresh in
      record {
        heap = near.heap;
        files = near.files;
        host_list = near.host_list;
        device_list = near.device_list;
        device_queue_list = erase-append_self p w.device_queue_list fresh.off_device_queue;
        ctrl_list = refl;
        group_ida = refl;
        pci = refl;
      }

  -- The counters forth and back, and whatever the descriptor says.
  counted-Nearly :
      (w' : World) (is_cq : ℤ) (f : Map → Map) (c : Ctrl)
      → Nearly p w w'
      → ctrl_find_by_inode w c.cdev ≡ some c
      → c.ioq_map_num < 2 ^ 32
      → c.cq_num < 2 ^ 32
      → Nearly p w (
          update_ctrl
            (update_ctrl (update_map w' p f) c.cdev (count_ring is_cq))
            c.cdev
            (uncount_ring is_cq))
  unfolding update_ctrl ctrl_find_by_inode
  counted-Nearly w' is_cq f c near found l m = record {
    heap = λ q other. rw other (near.heap q other);
    files = near.files;
    host_list = near.host_list;
    device_list = near.device_list;
    device_queue_list = near.device_queue_list;
    ctrl_list =
        ap
          (λ (cs : List Ctrl).
            update_first c.cdev (uncount_ring is_cq) (update_first c.cdev (count_ring is_cq) cs))
          near.ctrl_list
        ∙ uncount-count_first is_cq c.cdev c w.ctrl_list found l m;
    group_ida = near.group_ida;
    pci = near.pci;
  }

abbrev Clean : World → Reply → Type 0
Clean w r = (e : Errno) → r.rc ≡ err e → Untouched w r.world × GivenBack w r.world

-- A controller as the call found it, with counters of 32 bits.
pub record Counts (w : World) (c : Ctrl) : Type 0 where
  pub found : ctrl_find_by_inode w c.cdev ≡ some c
  pub ioq_map_num_lt : c.ioq_map_num < 2 ^ 32
  pub cq_num_lt : c.cq_num < 2 ^ 32

module _ (env : Env) (c : Ctrl) (req : MapRequest) where
  abbrev pub tagged : Map → Map
  tagged m = record m { ioq_idx = req.ioq_idx; is_cq = req.is_cq }

  abbrev pub queue_mapping : Mapping
  queue_mapping = map_gpu_ioqueue_memory env (gpu_descriptor env c req.vaddr_start req.n_pages)

  pub goes_on :
      (w : World) (p : ℕ)
      → (req.n_pages == 0) ≡ false
      → env.kvmalloc ≡ some p
      → map_device_ioqueue_memory env w c req.vaddr_start req.n_pages
        ≡ insert_map insert_device_queue w p queue_mapping
  unfolding map_device_ioqueue_memory
  goes_on w p pages room = rw (pages, room, map_device_ioqueue_memory) refl

  pub over_budget :
      (p : ℕ) (w1 : World)
      → ltb c.ioq_num (add32 c.ioq_map_num 1) ≡ true
      → attach_legacy w1 c p req.ioq_idx req.is_cq ≡ (err efault, unmap_and_release w1 p)
  unfolding attach_legacy
  over_budget p w1 full = rw (full, attach_legacy) refl

  pub within_budget :
      (p : ℕ) (w1 : World)
      → ltb c.ioq_num (add32 c.ioq_map_num 1) ≡ false
      → attach_legacy w1 c p req.ioq_idx req.is_cq
        ≡ (ok, update_ctrl (update_map w1 p tagged) c.cdev (count_ring req.is_cq))
  unfolding attach_legacy
  within_budget p w1 room = rw (room, attach_legacy) refl

module _ (env : Env) (w : World) (c : Ctrl) (req : MapRequest) (counts : Counts w c) where
  module _ (p : ℕ) (fresh : Fresh p w) where
    register_queue-made :
        (r : Mapping) (w1 : World)
        → IsUndone r
        → w1.trace ≡ w.trace ++ r.events
        → w1.heap p ≡ some r.map
        → Nearly p w w1
        → Clean w (register_queue env c req (made p, w1))
    unfolding register_queue release_events update_ctrl
    register_queue-made r w1 undone trace on_heap near =
        elim (Bool-cases (ltb c.ioq_num (add32 c.ioq_map_num 1))) [
          | inl full ↦
              rw (over_budget env c req p w1 full, register_queue, over_budget env c req p w1 full)
                (λ e h. (
                  release-Untouched p w w1 fresh near,
                  release-GivenBack p w w1 r r.map trace on_heap (λ n. refl) undone,
                ))
          | inr room ↦ elim (Bool-cases env.copy_to_user) [
            | inl copied ↦
                rw (within_budget env c req p w1 room, copied, register_queue) (λ e h. cc)
            | inr fault ↦
                rw
                  (
                    within_budget env c req p w1 room,
                    fault,
                    register_queue,
                    within_budget env c req p w1 room,
                  )
                  (λ e h. (
                    release-Untouched p w _ fresh (
                        counted-Nearly p w fresh w1 req.is_cq (tagged env c req) c near counts.found
                          counts.ioq_map_num_lt counts.cq_num_lt),
                    release-GivenBack p w _ r (tagged env c req r.map) trace
                        (rw (==_refl p, on_heap) refl) (λ n. refl) undone,
                  ))
          ]
        ]

    insert_map-Clean :
        (r : Mapping)
        → IsUndone r
        → Clean w (register_queue env c req (insert_map insert_device_queue w p r))
    unfolding insert_map register_queue
    insert_map-Clean r undone = elim (Rc-cases r.rc) [
      | inl mapped ↦
          rw (mapped, insert_map)
            (register_queue-made r _ undone refl (rw (==_refl p) refl)
              (inserted-Nearly p w fresh r))
      | inr (e, bad) ↦
          rw (bad, insert_map)
            (λ e' h. (
              release-Untouched p w (store_map w p r) fresh (store-Nearly p w r fresh),
              release-GivenBack p w (store_map w p r) r r.map refl (rw (==_refl p) refl) (λ n. refl)
                  undone,
            ))
    ]

  module _ (fresh : (p : ℕ) → env.kvmalloc ≡ some p → Fresh p w)
      (null : env.uninitialised ≡ none) where
    queue_mapping-IsUndone : IsUndone (queue_mapping env c req)
    unfolding create_descriptor
    queue_mapping-IsUndone =
        gpu_ioqueue-IsUndone env null (gpu_descriptor env c req.vaddr_start req.n_pages) refl

    mapped-Clean :
        Clean w
          (register_queue env c req (map_device_ioqueue_memory env w c req.vaddr_start req.n_pages))
    unfolding map_device_ioqueue_memory register_queue
    mapped-Clean = elim (Bool-cases (req.n_pages == 0)) [
      | inl empty ↦ rw (empty, map_device_ioqueue_memory) (λ e h. (untouched w, nothing_done w))
      | inr pages ↦ elim (Option-cases env.kvmalloc) [
        | inl full ↦
            rw (pages, full, map_device_ioqueue_memory) (λ e h. (untouched w, nothing_done w))
        | inr (p, room) ↦
            subst (λ r. Clean w (register_queue env c req r))
              (sym (goes_on env c req w p pages room))
              (insert_map-Clean p (fresh p room) (queue_mapping env c req) queue_mapping-IsUndone)
      ]
    ]

    -- NVM_MAP_DEVICE_QUEUE_MEMORY that fails, if the allocator gives an address that is in use
    -- nowhere, the controller's counters are of 32 bits, and the pointer that
    -- `map_gpu_ioqueue_memory` leaves uninitialised happens to be NULL: nothing is changed but the
    -- trace, and the page table and the mapping that the call got, if any, are given back, the
    -- mapping first, with no other event and no command.
    pub map_device_queue_memory-Untouched :
        (e : Errno)
        → (map_device_queue_memory env w c req).rc ≡ err e
        → Untouched w (map_device_queue_memory env w c req).world
          × GivenBack w (map_device_queue_memory env w c req).world
    unfolding map_device_queue_memory
    map_device_queue_memory-Untouched = elim (Bool-cases (not env.copy_from_user)) [
      | inl fault ↦ rw (fault, map_device_queue_memory) (λ e h. (untouched w, nothing_done w))
      | inr read ↦ elim (Bool-cases (not (is_nonneg req.ioq_idx))) [
        | inl bad ↦ rw (read, bad, map_device_queue_memory) (λ e h. (untouched w, nothing_done w))
        | inr good ↦ rw (read, good, map_device_queue_memory) mapped-Clean
      ]
    ]
