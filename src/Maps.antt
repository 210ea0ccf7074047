-- ===== src/Maps.antt =====
-- map.c: the descriptors of mapped memory. `create_descriptor`, `unmap_and_release`, `map_find`,
-- `map_find_by_pci_dev_and_idx` and `map_purge_by_owner`; the children map host and device memory.
pub mod Host
pub mod Device
pub mod Purge
use geminifs_npu_smoke.Prelude.{
  ℕ, zero, suc, ◌≡◌, Bool, true, false, ◌&&◌, ◌||◌, Option, none, some, List, [], ◌∷◌, ◌++◌, map,
  ◌==◌, if◌then◌else◌, ℤ, pos, negsuc, int_eq, update, erase, length, take, replicate,
}
use mathlib.Core.Option
use geminifs_npu_smoke.State.{
  Event, dma_unmap, put_page, p2p_put, p2p_unmap, Backing, user_pages, gpu_region,
  gpu_ioqueue_region, Map, Ctrl, Group, Owner, World, Env, Kernel, align_down, gpu_page_size,
}

-- `ctrl->pdev`, as a number that is 0 for NULL.
abbrev pub pdev_of : Ctrl → ℕ
pdev_of c = elim c.pdev [ none ↦ 0 | some p ↦ p ]

unfoldable pub create_descriptor : Env → Ctrl → ℕ → ℕ → Map
create_descriptor env c vaddr n_pages = record {
  owner = env.current;
  vaddr = vaddr;
  pdev = pdev_of c;
  page_size = 0;
  ioq_idx = negsuc 0;
  is_cq = negsuc 0;
  group_id = 0;
  kind = 0;
  n_addrs = n_pages;
  addrs = replicate n_pages 0;
  backing = none;
}

abbrev pub unlink_group : ℕ → Group → Group
unlink_group p g = record g { maps = erase p g.maps }

abbrev pub unlink_owner : ℕ → Owner → Owner
unlink_owner p o = record o {
  groups = map (unlink_group p) o.groups;
  data_maps = erase p o.data_maps;
}

abbrev pub put_table : Option ℕ → List Event
put_table none = []
put_table (some pt) = p2p_put pt ∷ []

abbrev pub unmap_mapping : Option ℕ → List Event
unmap_mapping none = []
unmap_mapping (some m) = p2p_unmap m ∷ []

-- `release_user_pages`, `release_gpu_memory` and `release_gpu_ioqueue_memory`.
-- `release_gpu_memory` unmaps one mapping for each controller that is listed now.
unfoldable pub release_events : ℕ → Map → List Event
release_events nr_ctrls m = elim m.backing [
  | none ↦ []
  | some (user_pages pages) ↦
      map dma_unmap (take m.n_addrs m.addrs) ++ map put_page (take m.n_addrs pages)
  | some (gpu_region pt mappings) ↦ map p2p_unmap (take nr_ctrls mappings) ++ put_table pt
  | some (gpu_ioqueue_region pt mapping) ↦ unmap_mapping mapping ++ put_table pt
]

-- `map->release(map)`, if there is one.
abbrev pub released : World → Option Map → List Event
released w none = []
released w (some m) = release_events (length w.ctrl_list) m

-- `list_remove(&map->list)`, `list_del(&map->group_link)`, the release callback and `kvfree`.
unfoldable pub unmap_and_release : World → ℕ → World
unmap_and_release w p = record w {
  host_list = erase p w.host_list;
  device_list = erase p w.device_list;
  device_queue_list = erase p w.device_queue_list;
  files = (λ fd. Option.map (unlink_owner p) (w.files fd));
  trace = w.trace ++ released w (w.heap p);
  heap = update w.heap p none;
}

-- The first pointer of a list whose map passes a test.
unfoldable pub find_map : (ℕ → Option Map) → (Map → Bool) → List ℕ → Option ℕ
find_map heap test [] = none
find_map heap test (p ∷ ps) =
    if elim (heap p) [ none ↦ false | some m ↦ test m ] then some p else find_map heap test ps

abbrev pub is_map_of : Kernel → ℕ → ℕ → Map → Bool
is_map_of k current vaddr m =
    m.owner == current
    && (m.vaddr == align_down vaddr k.page_size || m.vaddr == align_down vaddr gpu_page_size)

unfoldable pub map_find : Kernel → World → List ℕ → ℕ → ℕ → Option ℕ
unfolding find_map
map_find k w list current vaddr = find_map w.heap (is_map_of k current vaddr) list

unfoldable pub map_find_by_pci_dev_and_idx : World → List ℕ → ℕ → ℤ → ℤ → Option ℕ
unfolding find_map
map_find_by_pci_dev_and_idx w list pdev idx is_cq =
    find_map w.heap (λ m. m.pdev == pdev && int_eq m.ioq_idx idx && int_eq m.is_cq is_cq) list

abbrev pub is_legacy_of : ℕ → Map → Bool
is_legacy_of owner m = m.owner == owner && m.group_id == 0

-- The loop starts over at the head after each map that it frees, so each round frees the first that
-- is left; the count of freed maps is the second result.
unfoldable pub purge_loop : ℕ → (World → List ℕ) → ℕ → World → ℕ → World × ℕ
unfolding find_map
purge_loop zero list owner w freed = (w, freed)
purge_loop (suc fuel) list owner w freed = elim (find_map w.heap (is_legacy_of owner) (list w)) [
  | none ↦ (w, freed)
  | some p ↦ purge_loop fuel list owner (unmap_and_release w p) (suc freed)
]

-- A round for each map of the list and one that finds none.
unfoldable pub map_purge_by_owner : (World → List ℕ) → ℕ → World → World × ℕ
unfolding purge_loop
map_purge_by_owner list owner w = purge_loop (suc (length (list w))) list owner w 0
