-- ===== src/Maps/Host.antt =====
-- map.c: `map_userspace` and `map_user_pages`, which pin the pages of a user range and map them for
-- DMA. A result of `get_user_pages` of 0 pages takes the code's `return retval`, which is a success.
use geminifs_npu_smoke.Prelude.{
  ℕ, ◌+◌, none, some, List, [], ◌∷◌, ◌++◌, ◌==◌, if◌then◌else◌, set, length, update,
}
use geminifs_npu_smoke.State.{
  Errno, Rc, ok, err, einval, enomem, Event, dma_map, user_pages, Map, Ctrl, World, Env, Kernel,
  pinned, pin_failed, mapped, map_failed, align_down, DmaMapped,
}
use geminifs_npu_smoke.Maps.{create_descriptor, unmap_and_release}

-- What became of a map request: the descriptor's address, or an errno.
pub data Made : Type 0 where
  made : ℕ → Made
  not_made : Errno → Made

-- What a mapping routine leaves: its return value, the descriptor, and the events.
pub record Mapping : Type 0 where
  pub rc : Rc
  pub map : Map
  pub events : List Event

pub record Addrs : Type 0 where
  pub rc : Rc
  pub addrs : List ℕ
  pub events : List Event

-- The loop over the pinned pages from number `i` on.
unfoldable pub dma_loop : (ℕ → DmaMapped) → List ℕ → ℕ → List ℕ → Addrs
dma_loop dma [] i addrs = record { rc = ok; addrs = addrs; events = [] }
dma_loop dma (page ∷ pages) i addrs = elim (dma i) [
  | mapped a ↦
      let rest = dma_loop dma pages (i + 1) (set addrs i a) in
      record rest { events = dma_map a ∷ rest.events }
  | map_failed a e ↦ record { rc = err e; addrs = set addrs i a; events = [] }
]

-- After pinning: nothing to do for no page at all, else the loop.
unfoldable pub map_pinned : Env → Map → List ℕ → Mapping
unfolding dma_loop
map_pinned env m [] = record { rc = ok; map = m; events = [] }
map_pinned env m (page ∷ pages) =
    let r = dma_loop env.dma_map_page (page ∷ pages) 0 m.addrs in
    record {
      rc = r.rc;
      map = record m {
        n_addrs = length (page ∷ pages);
        backing = some (user_pages (page ∷ pages));
        addrs = r.addrs;
      };
      events = r.events;
    }

unfoldable pub map_user_pages : Env → Map → Mapping
unfolding map_pinned
map_user_pages env m =
    if env.kvcalloc
    then elim (env.get_user_pages m.vaddr m.n_addrs) [
      | pin_failed e ↦ record { rc = err e; map = m; events = [] }
      | pinned pages ↦ map_pinned env m pages
    ]
    else record { rc = err enomem; map = m; events = [] }

-- The descriptor is stored and the events are appended.
abbrev pub store_map : World → ℕ → Mapping → World
store_map w p r = record w { heap = update w.heap p (some r.map); trace = w.trace ++ r.events }

-- `list_insert(list, &md->list)` on success, `unmap_and_release(md)` on failure.
unfoldable pub insert_map : (World → ℕ → World) → World → ℕ → Mapping → Made × World
insert_map insert w p r = elim r.rc [
  | ok ↦ (made p, insert (store_map w p r) p)
  | err e ↦ (not_made e, unmap_and_release (store_map w p r) p)
]

abbrev pub insert_host : World → ℕ → World
insert_host w p = record w { host_list = w.host_list ++ p ∷ [] }

unfoldable pub map_userspace : Kernel → Env → World → Ctrl → ℕ → ℕ → Made × World
unfolding create_descriptor map_user_pages insert_map
map_userspace k env w c vaddr n_pages =
    if n_pages == 0 then (not_made einval, w) else elim env.kvmalloc [
      | none ↦ (not_made enomem, w)
      | some p ↦
          let md = create_descriptor env c (align_down vaddr k.page_size) n_pages in
          insert_map insert_host w p (map_user_pages env (record md { page_size = k.page_size }))
    ]
