-- ===== src/Control/Unload/Maps.antt =====
-- What `nvme_exit` leaves of the lists of maps.
use geminifs_npu_smoke.Prelude.{
  ℕ, ◌≡◌, refl, ◌∙◌, inl, inr, Bool, true, false, ◌||◌, Option, none, List, [], arith, ◌==◌,
  if◌then◌else◌, mem, Bool-cases,
}
use geminifs_npu_smoke.State.{Ctrl, World}
use geminifs_npu_smoke.Maps.{unmap_and_release}
use geminifs_npu_smoke.Maps.Purge.{
  IsList, IsList-host, IsList-device, IsList-device_queue, heap-unmap_and_release,
}
use geminifs_npu_smoke.Control.Unload.{clear_map_list, clear_all_maps}
use geminifs_npu_smoke.Control.Unload.Lists.{
  clear_map_list-empties, clear_map_list-keeps, empty_kept, Pending, still_listed, Pending-empty,
}

abbrev hosts : World → List ℕ
hosts w = w.host_list

abbrev devices : World → List ℕ
devices w = w.device_list

abbrev device_queues : World → List ℕ
device_queues w = w.device_queue_list

pub clear_all_maps-keeps :
    (P : World → Type 0)
    → ((w : World) (p : ℕ) → P w → P (unmap_and_release w p))
    → (w : World) → P w
    → P (clear_all_maps w)
unfolding clear_all_maps
clear_all_maps-keeps P keeps w p =
    let w1 = (clear_map_list devices w).0 in
    let w2 = (clear_map_list device_queues w1).0 in
    clear_map_list-keeps hosts IsList-host P keeps w2 (
      clear_map_list-keeps device_queues IsList-device_queue P keeps w1
        (clear_map_list-keeps devices IsList-device P keeps w p))

-- The three lists are empty.
pub record NoMaps (w : World) : Type 0 where
  pub host : w.host_list ≡ []
  pub device : w.device_list ≡ []
  pub device_queue : w.device_queue_list ≡ []

pub clear_all_maps-NoMaps : (w : World) → NoMaps (clear_all_maps w)
unfolding clear_all_maps
clear_all_maps-NoMaps w =
    let w1 = (clear_map_list devices w).0 in
    let w2 = (clear_map_list device_queues w1).0 in
    let queues = (clear_map_list-empties device_queues IsList-device_queue w1).0 in
    record {
      host = (clear_map_list-empties hosts IsList-host w2).0;
      device =
          clear_map_list-keeps hosts IsList-host (λ x. x.device_list ≡ [])
            (empty_kept devices IsList-device) w2
            (clear_map_list-keeps device_queues IsList-device_queue (λ x. x.device_list ≡ [])
              (empty_kept devices IsList-device) w1
              (clear_map_list-empties devices IsList-device w).0);
      device_queue =
          clear_map_list-keeps hosts IsList-host (λ x. x.device_queue_list ≡ [])
            (empty_kept device_queues IsList-device_queue) w2 queues;
    }

-- Whether a pointer is on one of the lists.
abbrev pub on_list : World → ℕ → Bool
on_list w q = mem q w.device_list || mem q w.device_queue_list || mem q w.host_list

frees :
    (list : World → List ℕ)
    → IsList list
    → (w : World) (q : ℕ) → mem q (list w) ≡ true
    → list (clear_all_maps w) ≡ []
    → (clear_all_maps w).heap q ≡ none
frees list is_list w q on none_left =
    Pending-empty list q (clear_all_maps w)
      (clear_all_maps-keeps (λ x. Pending list q x) (still_listed list is_list q) w (inl on))
      none_left

pub clear_all_maps-frees :
    (w : World) (q : ℕ) → on_list w q ≡ true → (clear_all_maps w).heap q ≡ none
clear_all_maps-frees w q on =
    let empty = clear_all_maps-NoMaps w in
    elim (Bool-cases (mem q w.device_list)) [
      | inl a ↦ frees devices IsList-device w q a empty.device
      | inr a ↦ elim (Bool-cases (mem q w.device_queue_list)) [
        | inl b ↦ frees device_queues IsList-device_queue w q b empty.device_queue
        | inr b ↦ frees hosts IsList-host w q (ground arith) empty.host
      ]
    ]

pub gone_kept :
    (q : ℕ) (w : World) (p : ℕ) → w.heap q ≡ none → (unmap_and_release w p).heap q ≡ none
gone_kept q w p gone = heap-unmap_and_release w p q ∙ freed (q == p) gone
  where
    freed : {A : Type 0} (b : Bool) {o : Option A} → o ≡ none → (if b then none else o) ≡ none
    freed true h = refl
    freed false h = h

pub ctrls_kept :
    (cs : List Ctrl) (w : World) (p : ℕ) → w.ctrl_list ≡ cs → (unmap_and_release w p).ctrl_list ≡ cs
unfolding unmap_and_release
ctrls_kept cs w p same = same
