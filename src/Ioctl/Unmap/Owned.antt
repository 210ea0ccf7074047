-- ===== src/Ioctl/Unmap/Owned.antt =====
-- The unmap calls: a task unmaps one map of its own at the address, or nothing happens.

use geminifs_npu_smoke.Prelude.{
  ℕ, ◌≡◌, refl, ap, ap₂, ◌∙◌, [], ◌∷◌, ◌++◌, length, take, map, inl, inr, Bool, true, not, Option,
  none, some, update, List, ◌==◌, if◌then◌else◌, is_nonneg, mem, erase, Bool-cases, Option-cases,
}
use geminifs_npu_smoke.State.{
  Errno, ok, err, Map, Ctrl, World, Env, Kernel, kind_data, Event, dma_unmap, put_page, p2p_put,
  p2p_unmap, Backing, user_pages, gpu_region, gpu_ioqueue_region,
}
use geminifs_npu_smoke.Ctrls.{update_ctrl}
use geminifs_npu_smoke.Maps.{
  find_map, map_find, is_map_of, release_events, released, unmap_and_release,
}
use geminifs_npu_smoke.Maps.Purge.{
  IsList, IsList-host, IsList-device, IsList-device_queue, find_map-Found,
}
use geminifs_npu_smoke.Ioctl.Reply.{Reply}
use geminifs_npu_smoke.Ioctl.Unmap.{
  uncount_legacy, uncount_link, unmap_found, unmap_host_memory, unmap_device_memory,
  unmap_device_queue_memory,
}

-- The DMA and page events that undo a map, by the memory behind it: the addresses are unmapped before
-- the pages are put, and a mapping is unmapped before its page table is put.
pub data Undoes (nr_ctrls n : ℕ) (addrs : List ℕ) : Option Backing → List Event → Type 0 where
  no_memory : Undoes nr_ctrls n addrs none []
  host_memory :
      (pages : List ℕ)
      → Undoes nr_ctrls n addrs
          (some (user_pages pages))
          (map dma_unmap (take n addrs) ++ map put_page (take n pages))
  device_memory :
      (pt : ℕ) (mappings : List ℕ)
      → Undoes nr_ctrls n addrs
          (some (gpu_region (some pt) mappings))
          (map p2p_unmap (take nr_ctrls mappings) ++ p2p_put pt ∷ [])
  device_unpinned :
      (mappings : List ℕ)
      → Undoes nr_ctrls n addrs
          (some (gpu_region none mappings))
          (map p2p_unmap (take nr_ctrls mappings) ++ [])
  queue_memory :
      (pt d : ℕ)
      → Undoes nr_ctrls n addrs
          (some (gpu_ioqueue_region (some pt) (some d)))
          (p2p_unmap d ∷ p2p_put pt ∷ [])
  queue_unmapped :
      (pt : ℕ)
      → Undoes nr_ctrls n addrs (some (gpu_ioqueue_region (some pt) none)) (p2p_put pt ∷ [])
  queue_unpinned :
      (d : ℕ) → Undoes nr_ctrls n addrs (some (gpu_ioqueue_region none (some d))) (p2p_unmap d ∷ [])
  queue_empty : Undoes nr_ctrls n addrs (some (gpu_ioqueue_region none none)) []

release_events-Undoes :
    (nr_ctrls : ℕ) (m : Map)
    → Undoes nr_ctrls m.n_addrs m.addrs m.backing (release_events nr_ctrls m)
unfolding release_events
release_events-Undoes nr_ctrls m = go m.backing refl
  where
    go :
        (b : Option Backing)
        → m.backing ≡ b
        → Undoes nr_ctrls m.n_addrs m.addrs b (release_events nr_ctrls m)
    go none e = rw (e, release_events) no_memory
    go (some (user_pages pages)) e = rw (e, release_events) (host_memory pages)
    go (some (gpu_region (some pt) mappings)) e = rw (e, release_events) (device_memory pt mappings)
    go (some (gpu_region none mappings)) e = rw (e, release_events) (device_unpinned mappings)
    go (some (gpu_ioqueue_region (some pt) (some d))) e = rw (e, release_events) (queue_memory pt d)
    go (some (gpu_ioqueue_region (some pt) none)) e = rw (e, release_events) (queue_unmapped pt)
    go (some (gpu_ioqueue_region none (some d))) e = rw (e, release_events) (queue_unpinned d)
    go (some (gpu_ioqueue_region none none)) e = rw (e, release_events) queue_empty

-- One map of the caller that starts at the page of the address is gone, from the heap and from its
-- list, and its memory was unmapped and put.
pub record Unmapped (k : Kernel) (env : Env) (addr : ℕ) (list : World → List ℕ) (w w' : World)
    : Type 0 where
  pub ptr : ℕ
  pub desc : Map
  pub on_list : mem ptr (list w) ≡ true
  pub on_heap : w.heap ptr ≡ some desc
  pub owned : is_map_of k env.current addr desc ≡ true
  pub heap : (q : ℕ) → w'.heap q ≡ (if q == ptr then none else w.heap q)
  pub list_after : list w' ≡ erase ptr (list w)
  pub events : List Event
  pub trace : w'.trace ≡ w.trace ++ events
  pub undoes : Undoes (length w'.ctrl_list) desc.n_addrs desc.addrs desc.backing events

-- The two ends of a call.
pub data Outcome (k : Kernel) (env : Env) (addr : ℕ) (list : World → List ℕ) (w : World) (r : Reply)
    : Type 0 where
  unmapped : r.rc ≡ ok → Unmapped k env addr list w r.world → Outcome k env addr list w r
  unchanged : {e : Errno} → r.rc ≡ err e → r.world ≡ w → Outcome k env addr list w r

module _ (k : Kernel) (env : Env) (addr : ℕ) (list : World → List ℕ) (is_list : IsList list) where
  module _ (prepare : World → Map → World) where
    -- The counters are not maps.
    record Prepares : Type 0 where
      same_heap : (w : World) (m : Map) → (prepare w m).heap ≡ w.heap
      same_list : (w : World) (m : Map) → list (prepare w m) ≡ list w
      same_trace : (w : World) (m : Map) → (prepare w m).trace ≡ w.trace

    unmap_found-Outcome :
        (w : World)
        → Prepares
        → Outcome k env addr list w (unmap_found prepare w (map_find k w (list w) env.current addr))
    unfolding unmap_found map_find unmap_and_release
    unmap_found-Outcome w prepares = elim (Option-cases (find_map w.heap test (list w))) [
      | inl missing ↦ rw (missing, unmap_found) (unchanged refl refl)
      | inr (p, found) ↦
          let f = find_map-Found w.heap test (list w) found in
          rw (found, unmap_found, f.on_heap)
            (unmapped refl (record {
              ptr = p;
              desc = f.map;
              on_list = f.on_list;
              on_heap = f.on_heap;
              owned = f.passes;
              heap =
                  λ q. ap (λ (h : ℕ → Option Map). update h p none q) (prepares.same_heap w f.map);
              list_after = is_list (prepare w f.map) p ∙ ap (erase p) (prepares.same_list w f.map);
              events = release_events (length (prepare w f.map).ctrl_list) f.map;
              trace =
                  ap₂ (λ (t : List Event) (o : Option Map). t ++ released (prepare w f.map) o)
                    (prepares.same_trace w f.map)
                    (ap (λ (h : ℕ → Option Map). h p) (prepares.same_heap w f.map) ∙ f.on_heap);
              undoes = release_events-Undoes (length (prepare w f.map).ctrl_list) f.map;
            }))
    ]
      where
        test : Map → Bool
        test = is_map_of k env.current addr

uncount_legacy_rest :
    (w : World) (c : Ctrl) (m : Map)
    → uncount_legacy w c m ≡ record w { ctrl_list = (uncount_legacy w c m).ctrl_list }
unfolding uncount_legacy update_ctrl
uncount_legacy_rest w c m = elim (Bool-cases (is_nonneg m.ioq_idx)) [
  | inl ring ↦ rw (ring, uncount_legacy) refl
  | inr plain ↦ rw (plain, uncount_legacy) refl
]

uncount_link_rest :
    (w : World) (fd : ℕ) (m : Map)
    → uncount_link w fd m ≡ record w { files = (uncount_link w fd m).files }
unfolding uncount_link
uncount_link_rest w fd m = elim (Bool-cases (m.kind == kind_data)) [
  | inl data_map ↦ rw (data_map, uncount_link) refl
  | inr other_map ↦ elim (Bool-cases (not (m.group_id == 0))) [
    | inl grouped ↦ rw (other_map, grouped, uncount_link) refl
    | inr lone ↦ rw (other_map, lone, uncount_link) refl
  ]
]

-- NVM_UNMAP_HOST_MEMORY succeeds for one map of the calling task that starts at the page of the
-- address: it unmaps each DMA address or peer-to-peer mapping of the map, then puts its pages or page
-- table, does no other DMA or page event and no command, and takes the map off the heap and the list
-- of host maps; or it fails and nothing changes.
pub unmap_host_memory-Outcome :
    (k : Kernel) (env : Env) (w : World) (fd : ℕ) (c : Ctrl) (addr : ℕ)
    → Outcome k env addr (λ w. w.host_list) w (unmap_host_memory k env w fd c addr)
unfolding unmap_host_memory
unmap_host_memory-Outcome k env w fd c addr = elim (Bool-cases (not env.copy_from_user)) [
  | inl fault ↦ rw (fault, unmap_host_memory) (unchanged refl refl)
  | inr read ↦
      rw (read, unmap_host_memory)
        (unmap_found-Outcome k env addr (λ w. w.host_list) IsList-host
          (λ w m. uncount_link (uncount_legacy w c m) fd m) w
          (record {
            same_heap = λ w m.
                ap (λ (x : World). x.heap) (uncount_link_rest (uncount_legacy w c m) fd m)
                ∙ ap (λ (x : World). x.heap) (uncount_legacy_rest w c m);
            same_list = λ w m.
                ap (λ (x : World). x.host_list) (uncount_link_rest (uncount_legacy w c m) fd m)
                ∙ ap (λ (x : World). x.host_list) (uncount_legacy_rest w c m);
            same_trace = λ w m.
                ap (λ (x : World). x.trace) (uncount_link_rest (uncount_legacy w c m) fd m)
                ∙ ap (λ (x : World). x.trace) (uncount_legacy_rest w c m);
          }))
]

-- NVM_UNMAP_DEVICE_MEMORY succeeds for one map of the calling task that starts at the page of the
-- address: it unmaps each DMA address or peer-to-peer mapping of the map, then puts its pages or page
-- table, does no other DMA or page event and no command, and takes the map off the heap and the list
-- of device maps; or it fails and nothing changes.
pub unmap_device_memory-Outcome :
    (k : Kernel) (env : Env) (w : World) (fd addr : ℕ)
    → Outcome k env addr (λ w. w.device_list) w (unmap_device_memory k env w fd addr)
unfolding unmap_device_memory
unmap_device_memory-Outcome k env w fd addr = elim (Bool-cases (not env.copy_from_user)) [
  | inl fault ↦ rw (fault, unmap_device_memory) (unchanged refl refl)
  | inr read ↦
      rw (read, unmap_device_memory)
        (unmap_found-Outcome k env addr (λ w. w.device_list) IsList-device
          (λ w m. uncount_link w fd m) w
          (record {
            same_heap = λ w m. ap (λ (x : World). x.heap) (uncount_link_rest w fd m);
            same_list = λ w m. ap (λ (x : World). x.device_list) (uncount_link_rest w fd m);
            same_trace = λ w m. ap (λ (x : World). x.trace) (uncount_link_rest w fd m);
          }))
]

-- NVM_UNMAP_DEVICE_QUEUE_MEMORY succeeds for one map of the calling task that starts at the page of the
-- address: it unmaps each DMA address or peer-to-peer mapping of the map, then puts its pages or page
-- table, does no other DMA or page event and no command, and takes the map off the heap and the list
-- of device queue maps; or it fails and nothing changes.
pub unmap_device_queue_memory-Outcome :
    (k : Kernel) (env : Env) (w : World) (c : Ctrl) (addr : ℕ)
    → Outcome k env addr (λ w. w.device_queue_list) w (unmap_device_queue_memory k env w c addr)
unfolding unmap_device_queue_memory
unmap_device_queue_memory-Outcome k env w c addr = elim (Bool-cases (not env.copy_from_user)) [
  | inl fault ↦ rw (fault, unmap_device_queue_memory) (unchanged refl refl)
  | inr read ↦
      rw (read, unmap_device_queue_memory)
        (unmap_found-Outcome k env addr (λ w. w.device_queue_list) IsList-device_queue
          (λ w m. uncount_legacy w c m) w
          (record {
            same_heap = λ w m. ap (λ (x : World). x.heap) (uncount_legacy_rest w c m);
            same_list = λ w m. ap (λ (x : World). x.device_queue_list) (uncount_legacy_rest w c m);
            same_trace = λ w m. ap (λ (x : World). x.trace) (uncount_legacy_rest w c m);
          }))
]
