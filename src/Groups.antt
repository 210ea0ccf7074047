-- ===== src/Groups.antt =====
-- pci.c: the queue groups of an open file. `find_qgroup_locked` and `destroy_qgroup_locked`.
pub mod Destroy
pub mod Reclaim
use geminifs_npu_smoke.Prelude.{
  ℕ, ◌≡◌, Bool, true, false, Option, none, some, List, [], ◌∷◌, ◌==◌, if◌then◌else◌, update, erase,
}
use mathlib.Core.Option
use geminifs_npu_smoke.State.{Rc, NvmeDev, UserQueue, Group, Owner, World, Kernel}
use geminifs_npu_smoke.Admin.{adapter_delete_sq, adapter_delete_cq}
use geminifs_npu_smoke.Ctrls.{ctrl_find_by_inode, update_ctrl, snvm_ctrl_get_live_ndev}
use geminifs_npu_smoke.Maps.{unmap_and_release}
use geminifs_npu_smoke.QidPool

unfoldable pub find_group : ℕ → List Group → Option Group
find_group id [] = none
find_group id (g ∷ gs) = if g.group_id == id then some g else find_group id gs

-- Group 0 is the sentinel that no group has.
unfoldable pub find_qgroup : Owner → ℕ → Option Group
unfolding find_group
find_qgroup own id = if id == 0 then none else find_group id own.groups

-- A write through the pointer that `find_qgroup_locked` gives.
unfoldable pub update_group : ℕ → (Group → Group) → List Group → List Group
update_group id f [] = []
update_group id f (g ∷ gs) = if g.group_id == id then f g ∷ gs else g ∷ update_group id f gs

-- `list_del(&g->link)`
unfoldable pub remove_group : ℕ → List Group → List Group
remove_group id [] = []
remove_group id (g ∷ gs) = if g.group_id == id then gs else g ∷ remove_group id gs

abbrev pub update_owner : World → ℕ → (Owner → Owner) → World
update_owner w fd f = record w { files = update w.files fd (Option.map f (w.files fd)) }

-- Delete I/O SQ, then CQ; a failure is only logged.
unfoldable pub delete_pair : Kernel → World → ℕ → World
unfolding adapter_delete_sq adapter_delete_cq
delete_pair k w qid = (adapter_delete_cq k (adapter_delete_sq k w qid).1 qid).1

unfoldable pub free_qid : World → ℕ → ℕ → World
unfolding update_ctrl QidPool.free
free_qid w cdev qid = update_ctrl w cdev (λ c. QidPool.free c qid)

unfoldable pub drain_queue : Kernel → ℕ → Option NvmeDev → World → UserQueue → World
unfolding delete_pair free_qid
drain_queue k cdev ndev w uq =
    if uq.alive
    then free_qid (elim ndev [ none ↦ w | some dev ↦ delete_pair k w uq.qid ]) cdev uq.qid
    else w

-- The last slot first.
unfoldable pub drain_queues : Kernel → ℕ → Option NvmeDev → World → List UserQueue → World
unfolding drain_queue
drain_queues k cdev ndev w [] = w
drain_queues k cdev ndev w (uq ∷ uqs) = drain_queue k cdev ndev (drain_queues k cdev ndev w uqs) uq

unfoldable pub drain_maps : World → List ℕ → World
unfolding unmap_and_release
drain_maps w [] = w
drain_maps w (p ∷ ps) = drain_maps (unmap_and_release w p) ps

-- The group is off the file's list already.
unfoldable pub destroy_qgroup : Kernel → World → Group → ℕ → World
unfolding drain_queues drain_maps snvm_ctrl_get_live_ndev ctrl_find_by_inode
destroy_qgroup k w g cdev =
    let ndev = snvm_ctrl_get_live_ndev w (ctrl_find_by_inode w cdev) in
    let drained = drain_maps (drain_queues k cdev ndev w g.queues) g.maps in
    record drained { group_ida = erase g.group_id drained.group_ida }
