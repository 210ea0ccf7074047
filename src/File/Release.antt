-- ===== src/File/Release.antt =====
-- `snvm_dev_release`: closing a file gives back all that hung on it.

use geminifs_npu_smoke.Prelude.{
  ℕ, ◌≡◌, refl, ◌∙◌, Bool, true, false, ◌||◌, Option, none, some, List, [], ◌∷◌, arith,
  if◌then◌else◌, mem, update,
}
use geminifs_npu_smoke.State.{Map, Group, Owner, World, Kernel}
use geminifs_npu_smoke.Ctrls.{update_ctrl}
use geminifs_npu_smoke.Maps.{map_purge_by_owner}
use geminifs_npu_smoke.Maps.Purge.{
  IsList-host, IsList-device, IsList-device_queue, NoLegacy, NoLegacy_kept, purge_keeps,
  map_purge_by_owner-Purged,
}
use geminifs_npu_smoke.Groups.{drain_maps, destroy_qgroup}
use geminifs_npu_smoke.Groups.Reclaim.{heap-drain_maps, heap-destroy_qgroup}
use geminifs_npu_smoke.File.{destroy_groups, purge_lists, snvm_dev_release}

-- Whether a map hangs on one of the groups.
abbrev pub on_groups : ℕ → List Group → Bool
on_groups p [] = false
on_groups p (g ∷ gs) = mem p g.maps || on_groups p gs

heap-destroy_groups :
    (k : Kernel) (w : World) (gs : List Group) (cdev p : ℕ)
    → (destroy_groups k w gs cdev).heap p ≡ (if on_groups p gs then none else w.heap p)
unfolding destroy_groups
heap-destroy_groups k w [] cdev p = refl
heap-destroy_groups k w (g ∷ gs) cdev p =
    heap-destroy_groups k (destroy_qgroup k w g cdev) gs cdev p
    ∙ rw (heap-destroy_qgroup k w g cdev p) (either (on_groups p gs) (mem p g.maps) (w.heap p))
  where
    either :
        (a b : Bool) (m : Option Map)
        → (if a then none else if b then none else m) ≡ (if b || a then none else m)
    either true true m = refl
    either true false m = refl
    either false true m = refl
    either false false m = refl

-- What the three purges and the roll back of the counters leave.
record Cleared (owner : ℕ) (w w' : World) : Type 0 where
  only_frees : (p : ℕ) → w.heap p ≡ none → w'.heap p ≡ none
  host : NoLegacy (λ w. w.host_list) owner w'
  device : NoLegacy (λ w. w.device_list) owner w'
  device_queue : NoLegacy (λ w. w.device_queue_list) owner w'

purge_lists-Cleared : (w : World) (cdev owner : ℕ) → Cleared owner w (purge_lists w cdev owner)
unfolding purge_lists update_ctrl
purge_lists-Cleared w cdev owner =
    let w1 = (map_purge_by_owner (λ w. w.host_list) owner w).0 in
    let w2 = (map_purge_by_owner (λ w. w.device_list) owner w1).0 in
    let p1 = map_purge_by_owner-Purged (λ w. w.host_list) IsList-host owner w in
    let p2 = map_purge_by_owner-Purged (λ w. w.device_list) IsList-device owner w1 in
    let p3 = map_purge_by_owner-Purged (λ w. w.device_queue_list) IsList-device_queue owner w2 in
    let no_host = NoLegacy (λ w. w.host_list) owner in
    let no_device = NoLegacy (λ w. w.device_list) owner in
    let keep_host = NoLegacy_kept (λ w. w.host_list) owner IsList-host in
    let keep_device = NoLegacy_kept (λ w. w.device_list) owner IsList-device in
    record {
      only_frees = λ p gone. p3.only_frees p (p2.only_frees p (p1.only_frees p gone));
      host =
          purge_keeps no_host keep_host (λ w. w.device_queue_list) owner w2
            (purge_keeps no_host keep_host (λ w. w.device_list) owner w1 p1.none_left);
      device = purge_keeps no_device keep_device (λ w. w.device_queue_list) owner w2 p2.none_left;
      device_queue = p3.none_left;
    }

-- Closing an open file frees every map of its groups and every data map of it, and leaves no legacy
-- map of its opener on the module's three lists.
pub snvm_dev_release-Reclaims :
    (k : Kernel) (w : World) (fd : ℕ) (own : Owner)
    → w.files fd ≡ some own
    → let w' = snvm_dev_release k w fd in
      ((p : ℕ) → (on_groups p own.groups || mem p own.data_maps) ≡ true → w'.heap p ≡ none)
      × NoLegacy (λ w. w.host_list) own.owner w'
      × NoLegacy (λ w. w.device_list) own.owner w'
      × NoLegacy (λ w. w.device_queue_list) own.owner w'
unfolding snvm_dev_release
snvm_dev_release-Reclaims k w fd own opened =
    rw (opened, snvm_dev_release)
      (let cleared = purge_lists-Cleared drained own.ctrl own.owner in
        (
          (λ p held. cleared.only_frees p (heap-drained p held)),
          cleared.host,
          cleared.device,
          cleared.device_queue,
        ))
  where
    closed : World
    closed = record w { files = update w.files fd none }

    drained : World
    drained = drain_maps (destroy_groups k closed own.groups own.ctrl) own.data_maps

    heap-drained :
        (p : ℕ) → (on_groups p own.groups || mem p own.data_maps) ≡ true → drained.heap p ≡ none
    heap-drained p held =
        heap-drain_maps (destroy_groups k closed own.groups own.ctrl) own.data_maps p
        ∙ ground (arith, heap-destroy_groups k closed own.groups own.ctrl p)
