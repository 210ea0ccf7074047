-- ===== src/Tests/Groups.antt =====
-- Witnesses for the queue groups, the purge and the release of a file.
use geminifs_npu_smoke.Prelude.{
  ℕ, ◌≤◌, ◌≡◌, refl, true, not, ◌&&◌, ◌||◌, none, some, List, [], ◌∷◌, ◌++◌, arith, ◌==◌, mem,
}
use geminifs_npu_smoke.State.{ok, err, einval, Event, Ctrl, Owner, World, nvm_max_queues_per_group}
use geminifs_npu_smoke.Ctrls.{ctrl_find_by_inode, snvm_ctrl_get_live_ndev}
use geminifs_npu_smoke.QidPool.{IsPool, in_use}
use geminifs_npu_smoke.Maps.{unmap_and_release, map_purge_by_owner}
use geminifs_npu_smoke.Maps.Purge.{IsList, Purged, NoLegacy, map_purge_by_owner-Purged}
use geminifs_npu_smoke.Groups.{destroy_qgroup}
use geminifs_npu_smoke.Groups.Destroy.{commands, all_admin, deletes, destroy_qgroup-order}
use geminifs_npu_smoke.Groups.Reclaim.{holds, HeldByPool, in_use-destroy_qgroup}
use geminifs_npu_smoke.Ioctl.Reply.{group_made}
use geminifs_npu_smoke.Ioctl.Group.{
  GroupRequest, install_group, create_queue_group, destroy_queue_group,
}
use geminifs_npu_smoke.Ioctl.Group.RoundTrip.{Same, create_queue_group-Same, create-destroy}
use geminifs_npu_smoke.File.{snvm_dev_release}
use geminifs_npu_smoke.File.Release.{on_groups, snvm_dev_release-Reclaims}
use geminifs_npu_smoke.Tests.{kernel_refusing, env0, dev0, ctrl0, group1, owner_of, world_of}

-- The QID 2 is out, and its pair is live.
abbrev ctrl1 : Ctrl
ctrl1 = record ctrl0 { user_qid_bitmap = some (λ b. b == 1) }

abbrev owner1 : Owner
owner1 = owner_of (group1 ∷ []) 1

abbrev world1 : World
world1 = world_of ctrl1 owner1

pool1 : IsPool ctrl1
pool1 = record { first_le_last = refl; last_lt = refl }

found1 : ctrl_find_by_inode world1 7 ≡ some ctrl1
unfolding ctrl_find_by_inode
found1 = refl

live1 : snvm_ctrl_get_live_ndev world1 (ctrl_find_by_inode world1 7) ≡ some dev0
unfolding ctrl_find_by_inode snvm_ctrl_get_live_ndev
live1 = refl

held1 : HeldByPool ctrl1 group1.queues
held1 q h = (ground arith, ground arith)

destroy_qgroup-order_example :
    (sent done : List Event) × ((destroy_qgroup (kernel_refusing 9) world1 group1 7).trace
      ≡ [] ++ (sent ++ done))
    × (commands sent ≡ deletes group1.queues)
    × (all_admin sent ≡ true)
    × (commands done ≡ [])
destroy_qgroup-order_example = destroy_qgroup-order (kernel_refusing 9) world1 group1 7 dev0 live1

in_use-destroy_qgroup_example :
    (c' : Ctrl) × (ctrl_find_by_inode (destroy_qgroup (kernel_refusing 9) world1 group1 7) 7
      ≡ some c')
    × ((q : ℕ) → 1 ≤ q → q ≤ 3 → in_use c' q ≡ (in_use ctrl1 q && not (holds q group1.queues)))
in_use-destroy_qgroup_example =
    in_use-destroy_qgroup (kernel_refusing 9) world1 group1 ctrl1 found1 pool1 held1

host_list-IsList : IsList (λ w. w.host_list)
unfolding unmap_and_release
host_list-IsList w p = refl

map_purge_by_owner-Purged_example :
    Purged (λ w. w.host_list) 5 world1 (map_purge_by_owner (λ w. w.host_list) 5 world1).0
map_purge_by_owner-Purged_example =
    map_purge_by_owner-Purged (λ w. w.host_list) host_list-IsList 5 world1

snvm_dev_release-Reclaims_example :
    let w' = snvm_dev_release (kernel_refusing 9) world1 0 in
    ((p : ℕ) → (on_groups p owner1.groups || mem p owner1.data_maps) ≡ true → w'.heap p ≡ none)
    × NoLegacy (λ w. w.host_list) 5 w'
    × NoLegacy (λ w. w.device_list) 5 w'
    × NoLegacy (λ w. w.device_queue_list) 5 w'
snvm_dev_release-Reclaims_example =
    snvm_dev_release-Reclaims (kernel_refusing 9) world1 0 owner1 refl

abbrev empty_world : World
empty_world = world_of ctrl0 (owner_of [] 0)

abbrev request : GroupRequest
request = record { flags = 0; reserved = [] }

abbrev bad_request : GroupRequest
bad_request = record { flags = 1; reserved = [] }

created : (create_queue_group (kernel_refusing 9) env0 empty_world 0 7 request).rc ≡ ok
unfolding create_queue_group install_group
created = refl

not_created :
    (create_queue_group (kernel_refusing 9) env0 empty_world 0 7 bad_request).rc ≡ err einval
unfolding create_queue_group
not_created = refl

create-destroy_example :
    let r = create_queue_group (kernel_refusing 9) env0 empty_world 0 7 request in
    let r' = destroy_queue_group (kernel_refusing 9) env0 r.world 0 7 1 in
    (r.out ≡ group_made 1 nvm_max_queues_per_group) × (r'.rc ≡ ok) × Same empty_world r'.world
create-destroy_example =
    create-destroy (kernel_refusing 9) empty_world 0 7 (owner_of [] 0) refl refl refl env0 env0
      request 1 refl refl refl created

create_queue_group-Same_example :
    Same empty_world (create_queue_group (kernel_refusing 9) env0 empty_world 0 7 bad_request).world
create_queue_group-Same_example =
    create_queue_group-Same (kernel_refusing 9) empty_world 0 7 (owner_of [] 0) refl refl refl env0
      bad_request einval not_created
