-- ===== src/Control/Unload.antt =====
-- pci.c: the unload of the module. `clear_map_list`, `clear_ctrl_list`, `clean_driver` and the part
-- of `nvme_exit` before `snvm_cdev_release`, which is in Device.
pub mod Lists
pub mod Maps
pub mod Exit
use geminifs_npu_smoke.Prelude.{
  ℕ, zero, suc, Bool, true, false, List, [], ◌∷◌, if◌then◌else◌, length,
}
use geminifs_npu_smoke.State.{World}
use geminifs_npu_smoke.Maps.{unmap_and_release}
use geminifs_npu_smoke.Control.{Module, DriverCore, ctrl_put, with_pci}

-- The loop takes the head of the list until there is none; the second result counts the rounds.
unfoldable pub clear_maps : ℕ → (World → List ℕ) → World → ℕ → World × ℕ
clear_maps zero list w n = (w, n)
clear_maps (suc fuel) list w n = elim (list w) [
  | [] ↦ (w, n)
  | p ∷ ps ↦ clear_maps fuel list (unmap_and_release w p) (suc n)
]

-- A round for each pointer on the list is fuel enough.
unfoldable pub clear_map_list : (World → List ℕ) → World → World × ℕ
clear_map_list list w = clear_maps (length (list w)) list w 0

unfoldable pub clear_ctrls : ℕ → Module → ℕ → Module × ℕ
clear_ctrls zero m n = (m, n)
clear_ctrls (suc fuel) m n = elim m.world.ctrl_list [
  | [] ↦ (m, n)
  | c ∷ cs ↦ clear_ctrls fuel (ctrl_put m c) (suc n)
]

-- A round for each controller is fuel enough.
unfoldable pub clear_ctrl_list : Module → Module × ℕ
clear_ctrl_list m = clear_ctrls (length m.world.ctrl_list) m 0

-- The three lists of maps, in the order of the code.
unfoldable pub clear_all_maps : World → World
clear_all_maps w =
    let w1 = (clear_map_list (λ x. x.device_list) w).0 in
    let w2 = (clear_map_list (λ x. x.device_queue_list) w1).0 in
    (clear_map_list (λ x. x.host_list) w2).0

abbrev pub with_world : Module → World → Module
with_world m w = record m { world = w }

-- `snvm_registered` stays as it is.
unfoldable pub clean_driver : DriverCore → Module → Module
clean_driver core m =
    let cleared = with_world m (clear_all_maps m.world) in
    if cleared.on_bus
    then record (with_pci cleared (core.pci_unregister_driver cleared.world.pci)) { on_bus = false }
    else cleared

-- `nvme_exit` up to `snvm_cdev_release`, and how many controllers it released. `ida_destroy` there
-- frees every minor.
unfoldable pub exit_module : DriverCore → Module → Module × ℕ
exit_module core m =
    let cleaned = clean_driver core (with_world m (clear_all_maps m.world)) in
    let cleared = clear_ctrl_list cleaned in (record (cleared.0) { minors = [] }, cleared.1)
