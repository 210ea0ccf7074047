-- ===== src/Ioctl/Map/GivenBack.antt =====
-- The peer-to-peer events of a ring's mapping, and of its release.
use mathlib.Core.List.{append_assoc, append-nil}
use geminifs_npu_smoke.Prelude.{
  ℕ, ◌*◌, ◌⊎◌, none, Option, ◌++◌, length, ◌≡◌, refl, sym, ap, ap₂, ◌∙◌, inl, inr, some, List, [],
  ◌∷◌, Bool-cases,
}
use geminifs_npu_smoke.State.{
  Errno, Map, World, Env, Event, p2p_get, p2p_put, p2p_map, gpu_page_size, p2p_unmap, P2pPages,
  p2p_pages, p2p_pages_failed, P2pMapped, p2p_mapped, p2p_map_failed,
}
use geminifs_npu_smoke.Maps.{unmap_and_release, release_events, released}
use geminifs_npu_smoke.Maps.Host.{Mapping}
use geminifs_npu_smoke.Maps.Device.{map_gpu_ioqueue_memory}

-- The peer-to-peer events of a call that gives all of it back: a page table, and a mapping of it, are
-- given back in the opposite order.
pub data Reverts : List Event → Type 0 where
  no_events : Reverts []
  pin_undone : (pt : ℕ) → Reverts (p2p_get pt ∷ p2p_put pt ∷ [])
  map_undone : (pt d : ℕ) → Reverts (p2p_get pt ∷ p2p_map d ∷ p2p_unmap d ∷ p2p_put pt ∷ [])

pub record GivenBack (w w' : World) : Type 0 where
  pub events : List Event
  pub trace : w'.trace ≡ w.trace ++ events
  pub reverts : Reverts events

pub nothing_done : (w : World) → GivenBack w w
nothing_done w = record { events = []; trace = sym (append-nil w.trace); reverts = no_events }

-- What a mapping did, its release undoes.
abbrev pub IsUndone : Mapping → Type 0
IsUndone r = (n : ℕ) → Reverts (r.events ++ release_events n r.map)

P2pPages-cases :
    (x : P2pPages) → ((e : Errno) × (x ≡ p2p_pages_failed e)) ⊎ ((pt n : ℕ) × (x ≡ p2p_pages pt n))
P2pPages-cases (p2p_pages pt n) = inr (pt, n, refl)
P2pPages-cases (p2p_pages_failed e) = inl (e, refl)

P2pMapped-cases :
    (x : P2pMapped)
    → ((e : Errno) × (x ≡ p2p_map_failed e)) ⊎ ((d : ℕ) × (from : List ℕ) × (x ≡ p2p_mapped d from))
P2pMapped-cases (p2p_mapped d from) = inr (d, from, refl)
P2pMapped-cases (p2p_map_failed e) = inl (e, refl)

pub gpu_ioqueue-IsUndone :
    (env : Env)
    → env.uninitialised ≡ none
    → (m : Map) → m.backing ≡ none
    → IsUndone (map_gpu_ioqueue_memory env m)
unfolding map_gpu_ioqueue_memory release_events
gpu_ioqueue-IsUndone env null m new n = elim (Bool-cases env.kzalloc) [
  | inr full ↦ rw (full, map_gpu_ioqueue_memory, release_events, new) no_events
  | inl room ↦ elim (P2pPages-cases (env.p2p_get_pages m.vaddr (gpu_page_size * m.n_addrs))) [
    | inl (e, failed) ↦ rw (room, failed, map_gpu_ioqueue_memory, release_events, null) no_events
    | inr (pt, entries, got) ↦ elim (P2pMapped-cases (env.p2p_dma_map_pages 0)) [
      | inl (e, failed) ↦
          rw (room, got, failed, map_gpu_ioqueue_memory, release_events, null) (pin_undone pt)
      | inr (d, from, mapped) ↦
          rw (room, got, mapped, map_gpu_ioqueue_memory, release_events) (map_undone pt d)
    ]
  ]
]

pub release-GivenBack :
    (p : ℕ) (w w' : World) (r : Mapping) (m : Map)
    → w'.trace ≡ w.trace ++ r.events
    → w'.heap p ≡ some m
    → ((n : ℕ) → release_events n m ≡ release_events n r.map)
    → IsUndone r
    → GivenBack w (unmap_and_release w' p)
unfolding unmap_and_release
release-GivenBack p w w' r m trace on_heap same undone =
    let n = length w'.ctrl_list in
    record {
      events = r.events ++ release_events n r.map;
      trace =
          ap₂ (λ (t : List Event) (o : Option Map). t ++ released w' o) trace on_heap
          ∙ ap (λ (es : List Event). (w.trace ++ r.events) ++ es) (same n)
          ∙ append_assoc w.trace r.events (release_events n r.map);
      reverts = undone n;
    }
