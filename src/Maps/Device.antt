-- ===== src/Maps/Device.antt =====
-- map.c: `map_device_memory` with `map_gpu_memory`, and `map_device_ioqueue_memory` with
-- `map_gpu_ioqueue_memory`. The peer-to-peer functions are the environment's.
use geminifs_npu_smoke.Prelude.{
  ℕ, zero, suc, ◌+◌, ◌*◌, none, some, List, [], ◌∷◌, ◌++◌, ◌==◌, if◌then◌else◌, get_or,
}
use geminifs_npu_smoke.State.{
  Rc, ok, err, einval, enomem, Event, p2p_get, p2p_map, gpu_region, gpu_ioqueue_region, Map, Ctrl,
  World, Env, p2p_pages, p2p_pages_failed, p2p_mapped, p2p_map_failed, P2pMapped, align_down,
  gpu_page_size,
}
use geminifs_npu_smoke.Maps.{create_descriptor}
use geminifs_npu_smoke.Maps.Host.{Made, not_made, Mapping, insert_map}

-- The first `n` addresses of a mapping, read at each number below `n`.
unfoldable pub copy_addrs : ℕ → ℕ → List ℕ → List ℕ
copy_addrs zero i from = []
copy_addrs (suc n) i from = get_or from i 0 ∷ copy_addrs n (i + 1) from

pub record Mappings : Type 0 where
  pub rc : Rc
  pub mappings : List ℕ
  pub addrs : List ℕ
  pub events : List Event

-- The loop over `ctrl_list` from position `j` on; the first mapping's addresses become the map's.
unfoldable pub p2p_loop : (ℕ → P2pMapped) → ℕ → List Ctrl → ℕ → List ℕ → Mappings
unfolding copy_addrs
p2p_loop dma n [] j addrs = record { rc = ok; mappings = []; addrs = addrs; events = [] }
p2p_loop dma n (c ∷ cs) j addrs = elim (dma j) [
  | p2p_map_failed e ↦ record { rc = err e; mappings = []; addrs = addrs; events = [] }
  | p2p_mapped m from ↦
      let rest = p2p_loop dma n cs (j + 1) (if j == 0 then copy_addrs n 0 from else addrs) in
      record rest { mappings = m ∷ rest.mappings; events = p2p_map m ∷ rest.events }
]

-- On the code's early returns `n_addrs` keeps the number that was asked for.
unfoldable pub map_gpu_memory : Env → List Ctrl → Map → Mapping
unfolding p2p_loop
map_gpu_memory env ctrls m =
    if env.kzalloc
    then elim (env.p2p_get_pages m.vaddr (gpu_page_size * m.n_addrs)) [
      | p2p_pages_failed e ↦ record {
        rc = err e;
        map = record m { backing = some (gpu_region none []) };
        events = [];
      }
      | p2p_pages pt entries ↦
          let r = p2p_loop env.p2p_dma_map_pages m.n_addrs ctrls 0 m.addrs in
          record {
            rc = r.rc;
            map = record m {
              backing = some (gpu_region (some pt) r.mappings);
              addrs = r.addrs;
              n_addrs = elim r.rc [ ok ↦ entries | err e ↦ m.n_addrs ];
            };
            events = p2p_get pt ∷ r.events;
          }
    ]
    else record { rc = err enomem; map = m; events = [] }

-- `gd->mappings[0]` holds what the memory held until a mapping is made.
unfoldable pub map_gpu_ioqueue_memory : Env → Map → Mapping
unfolding copy_addrs
map_gpu_ioqueue_memory env m =
    if env.kzalloc
    then elim (env.p2p_get_pages m.vaddr (gpu_page_size * m.n_addrs)) [
      | p2p_pages_failed e ↦ record {
        rc = err e;
        map = record m { backing = some (gpu_ioqueue_region none env.uninitialised) };
        events = [];
      }
      | p2p_pages pt entries ↦ elim (env.p2p_dma_map_pages 0) [
        | p2p_map_failed e ↦ record {
          rc = err e;
          map = record m { backing = some (gpu_ioqueue_region (some pt) env.uninitialised) };
          events = p2p_get pt ∷ [];
        }
        | p2p_mapped d from ↦ record {
          rc = ok;
          map = record m {
            backing = some (gpu_ioqueue_region (some pt) (some d));
            addrs = copy_addrs m.n_addrs 0 from;
            n_addrs = entries;
          };
          events = p2p_get pt ∷ p2p_map d ∷ [];
        }
      ]
    ]
    else record { rc = err enomem; map = m; events = [] }

abbrev pub insert_device : World → ℕ → World
insert_device w p = record w { device_list = w.device_list ++ p ∷ [] }

abbrev pub insert_device_queue : World → ℕ → World
insert_device_queue w p = record w { device_queue_list = w.device_queue_list ++ p ∷ [] }

abbrev pub gpu_descriptor : Env → Ctrl → ℕ → ℕ → Map
gpu_descriptor env c vaddr n_pages =
    record (create_descriptor env c (align_down vaddr gpu_page_size) n_pages) {
      page_size = gpu_page_size;
    }

unfoldable pub map_device_memory : Env → World → Ctrl → ℕ → ℕ → Made × World
unfolding create_descriptor map_gpu_memory insert_map
map_device_memory env w c vaddr n_pages =
    if n_pages == 0 then (not_made einval, w) else elim env.kvmalloc [
      | none ↦ (not_made enomem, w)
      | some p ↦
          insert_map insert_device w p
            (map_gpu_memory env w.ctrl_list (gpu_descriptor env c vaddr n_pages))
    ]

unfoldable pub map_device_ioqueue_memory : Env → World → Ctrl → ℕ → ℕ → Made × World
unfolding create_descriptor map_gpu_ioqueue_memory insert_map
map_device_ioqueue_memory env w c vaddr n_pages =
    if n_pages == 0 then (not_made einval, w) else elim env.kvmalloc [
      | none ↦ (not_made enomem, w)
      | some p ↦
          insert_map insert_device_queue w p
            (map_gpu_ioqueue_memory env (gpu_descriptor env c vaddr n_pages))
    ]
