-- ===== src/Tests/Requests.antt =====
-- Witnesses for the system calls.
use geminifs_npu_smoke.Prelude.{
  ℕ, ◌≡◌, not, ◌&&◌, ◌==◌, if◌then◌else◌, pos, refl, true, false, Option, none, some, [], ◌∷◌,
}
use geminifs_npu_smoke.State.{ok, err, other, World, kind_ring_sq, kind_ring_cq}
use geminifs_npu_smoke.Ctrls.{ctrl_find_by_inode, snvm_ctrl_get_live_ndev}
use geminifs_npu_smoke.Admin.Device.{after, lawful, IsLawful}
use geminifs_npu_smoke.QidPool
use geminifs_npu_smoke.QidPool.{IsPool, alloc_loop, pool_init}
use geminifs_npu_smoke.Groups.{find_group, find_qgroup}
use geminifs_npu_smoke.Ioctl.AddRequest.{
  clashes, bad_pairs, bad_add_request, find_rings, find_all_rings,
}
use geminifs_npu_smoke.Ioctl.AddQueue.{
  drive, rollback, add_driven, add_pooled, add_with_pool, add_to_group, add_live, add_opened,
  add_user_queue,
}
use geminifs_npu_smoke.Ioctl.AddQueue.Atomic.{Restored, InSync, add_user_queue-FailsClean}
use geminifs_npu_smoke.Ioctl.AddQueue.Checks.{well_formed, bad_pairs_lem, IsRing, find_rings-IsRing}
use geminifs_npu_smoke.Ioctl.Config.{
  SetupRequest, sum_groups, bad_groups, bad_setup, commit_setup, set_ioq_num,
}
use geminifs_npu_smoke.Ioctl.Config.SetIoqNum.{Accepted, set_ioq_num-Accepted}
use geminifs_npu_smoke.Ioctl.DevInfo.{Namespace}
use geminifs_npu_smoke.Tests.{
  search, kernel_refusing, kernel_finds, kernel_deletes, env0, ctrl0, no_qids, group0, heap0, ring,
  owner_of, world_of, pair, two_pairs,
}

pool0 : IsPool ctrl0
pool0 = record { first_le_last = refl; last_lt = refl }

abbrev world0 : World
world0 = world_of ctrl0 (owner_of (group0 ∷ []) 1)

found0 : ctrl_find_by_inode world0 7 ≡ some ctrl0
unfolding ctrl_find_by_inode
found0 = refl

lawful0 : IsLawful world0
unfolding lawful
lawful0 = refl

in_sync0 : InSync ctrl0 world0
unfolding after
in_sync0 q from to free = (refl, refl)

-- The second SQ is refused.
refused0 : (add_user_queue (kernel_refusing 2) env0 world0 0 ctrl0 two_pairs).rc ≡ err (other 5)
unfolding add_user_queue add_opened add_live add_to_group add_with_pool add_pooled add_driven drive
    rollback find_rings find_all_rings bad_add_request bad_pairs clashes snvm_ctrl_get_live_ndev
    find_qgroup find_group pool_init QidPool.alloc alloc_loop search
refused0 = refl

add_user_queue-FailsClean_example :
    Restored ctrl0 world0 (add_user_queue (kernel_refusing 2) env0 world0 0 ctrl0 two_pairs).world
add_user_queue-FailsClean_example =
    add_user_queue-FailsClean (kernel_refusing 2) (kernel_finds 2) (kernel_deletes 2) env0 refl
      ctrl0 pool0 world0 found0 lawful0 in_sync0 no_qids refl 0 two_pairs (other 5) refused0

rings_found :
    find_rings (kernel_refusing 9) heap0 (pair 12288 16384) group0.maps none none
    ≡ some (ring 12288 1, ring 16384 2)
unfolding find_rings
rings_found = refl

find_rings-IsRing_example :
    IsRing (kernel_refusing 9) heap0 group0.maps kind_ring_sq 12288 (ring 12288 1)
    × IsRing (kernel_refusing 9) heap0 group0.maps kind_ring_cq 16384 (ring 16384 2)
find_rings-IsRing_example =
    find_rings-IsRing (kernel_refusing 9) heap0 group0.maps (pair 12288 16384)
      (ring 12288 1, ring 16384 2) rings_found

bad_pairs_lem_example :
    not (bad_pairs [] (pair 4096 8192 ∷ pair 12288 8192 ∷ []))
    ≡ (well_formed (pair 4096 8192 ∷ pair 12288 8192 ∷ []) && true && false)
bad_pairs_lem_example = bad_pairs_lem (pair 4096 8192 ∷ pair 12288 8192 ∷ [])

abbrev setup_request : SetupRequest
setup_request = record {
  ioq_num = 5;
  flags = 1;
  cap_kernel_ioq = 0;
  nr_write = 0;
  nr_poll = 0;
  nr_groups = 2;
  reserved0 = 0;
  reserved1 = 0;
  groups =
      record { owner_id = 1; count = 3; numa_node = pos 0; reserved = 0 }
      ∷ record { owner_id = 2; count = 2; numa_node = pos 0; reserved = 0 }
      ∷ [];
}

setup_accepted : (set_ioq_num env0 world0 ctrl0 setup_request).rc ≡ ok
unfolding set_ioq_num bad_setup bad_groups sum_groups
setup_accepted = refl

set_ioq_num-Accepted_example :
    Accepted ctrl0 setup_request
    × (ctrl_find_by_inode (set_ioq_num env0 world0 ctrl0 setup_request).world 7
        ≡ some (commit_setup setup_request ctrl0))
set_ioq_num-Accepted_example =
    set_ioq_num-Accepted env0 world0 ctrl0 setup_request found0 setup_accepted

abbrev third : ℕ → Option Namespace
third n = if n == 2 then some (record { disk_name = []; lba_shift = 9 }) else none
