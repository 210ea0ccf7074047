-- ===== src/Groups/Reclaim.antt =====
-- `destroy_qgroup_locked`: what it gives back, the descriptors of the group's maps and the QIDs of its
-- live queues.

use geminifs_npu_smoke.Prelude.{
  ℕ, ◌≤◌, ◌≡◌, refl, ap, ◌∙◌, inl, inr, Bool, true, false, not, ◌&&◌, ◌||◌, Option, none, some,
  List, [], ◌∷◌, arith, ◌==◌, if◌then◌else◌, mem, Bool-cases, Option-cases,
}
use geminifs_npu_smoke.State.{Map, Ctrl, NvmeDev, UserQueue, Group, World, Kernel}
use geminifs_npu_smoke.Ctrls.{find_ctrl, ctrl_find_by_inode, update_ctrl, find-update_ctrl}
use geminifs_npu_smoke.QidPool
use geminifs_npu_smoke.QidPool.{IsPool, in_use}
use geminifs_npu_smoke.QidPool.Free.{in_use-free, free_bounds, free_cdev}
use geminifs_npu_smoke.Maps.{unmap_and_release}
use geminifs_npu_smoke.Maps.Purge.{heap-unmap_and_release}
use geminifs_npu_smoke.Groups.{
  delete_pair, free_qid, drain_queue, drain_queues, drain_maps, destroy_qgroup,
}

pub heap-drain_maps :
    (w : World) (ps : List ℕ) (q : ℕ)
    → (drain_maps w ps).heap q ≡ (if mem q ps then none else w.heap q)
unfolding drain_maps
heap-drain_maps w [] q = refl
heap-drain_maps w (p ∷ ps) q =
    heap-drain_maps (unmap_and_release w p) ps q
    ∙ rw (heap-unmap_and_release w p q) (either (mem q ps) (q == p) (w.heap q))
  where
    either :
        (a b : Bool) (m : Option Map)
        → (if a then none else if b then none else m) ≡ (if b || a then none else m)
    either true true m = refl
    either true false m = refl
    either false true m = refl
    either false false m = refl

heap-drain_queue :
    (k : Kernel) (cdev : ℕ) (ndev : Option NvmeDev) (w : World) (uq : UserQueue)
    → (drain_queue k cdev ndev w uq).heap ≡ w.heap
unfolding drain_queue free_qid delete_pair update_ctrl
heap-drain_queue k cdev ndev w uq = elim (Bool-cases uq.alive) [
  | inl live ↦ elim (Option-cases ndev) [
    | inl dead ↦ rw (live, dead, drain_queue) refl
    | inr (dev, bound) ↦ rw (live, bound, drain_queue) refl
  ]
  | inr empty ↦ rw (empty, drain_queue) refl
]

heap-drain_queues :
    (k : Kernel) (cdev : ℕ) (ndev : Option NvmeDev) (w : World) (uqs : List UserQueue)
    → (drain_queues k cdev ndev w uqs).heap ≡ w.heap
unfolding drain_queues
heap-drain_queues k cdev ndev w [] = refl
heap-drain_queues k cdev ndev w (uq ∷ uqs) =
    heap-drain_queue k cdev ndev (drain_queues k cdev ndev w uqs) uq
    ∙ heap-drain_queues k cdev ndev w uqs

-- The tear-down of a group frees the descriptors of its maps and no other, be the controller live
-- or gone.
pub heap-destroy_qgroup :
    (k : Kernel) (w : World) (g : Group) (cdev q : ℕ)
    → (destroy_qgroup k w g cdev).heap q ≡ (if mem q g.maps then none else w.heap q)
unfolding destroy_qgroup
heap-destroy_qgroup k w g cdev q =
    heap-drain_maps _ g.maps q
    ∙ ap (λ (h : ℕ → Option Map). (if mem q g.maps then none else h q))
        (heap-drain_queues k cdev _ w g.queues)

-- Whether a slot is live and has the QID.
abbrev pub holds : ℕ → List UserQueue → Bool
holds q [] = false
holds q (uq ∷ uqs) = (uq.alive && q == uq.qid) || holds q uqs

-- The pool with the QIDs of the live slots freed, the last slot first.
freed : Ctrl → List UserQueue → Ctrl
freed c [] = c
freed c (uq ∷ uqs) = if uq.alive then QidPool.free (freed c uqs) uq.qid else freed c uqs

freed_bounds :
    (c : Ctrl) (uqs : List UserQueue)
    → ((freed c uqs).cdev ≡ c.cdev)
      × ((freed c uqs).user_qid_first ≡ c.user_qid_first)
      × ((freed c uqs).user_qid_last ≡ c.user_qid_last)
unfolding freed
freed_bounds c [] = (refl, refl, refl)
freed_bounds c (uq ∷ uqs) =
    let (a, b, d) = freed_bounds c uqs in
    let (b', d') = free_bounds (freed c uqs) uq.qid in
    elim (Bool-cases uq.alive) [
      | inl live ↦ rw live (free_cdev (freed c uqs) uq.qid ∙ a, b' ∙ b, d' ∙ d)
      | inr empty ↦ rw empty (a, b, d)
    ]

freed-IsPool : (c : Ctrl) (uqs : List UserQueue) → IsPool c → IsPool (freed c uqs)
freed-IsPool c uqs pool =
    let (_, b, d) = freed_bounds c uqs in
    record { first_le_last = rw (b, d) pool.first_le_last; last_lt = rw d pool.last_lt }

-- The live slots hold QIDs of the pool.
abbrev pub HeldByPool : Ctrl → List UserQueue → Type 0
HeldByPool c uqs = (q : ℕ) → holds q uqs ≡ true → (c.user_qid_first ≤ q) × (q ≤ c.user_qid_last)

in_use-freed :
    (c : Ctrl) (uqs : List UserQueue) (p : ℕ)
    → IsPool c
    → HeldByPool c uqs
    → c.user_qid_first ≤ p
    → p ≤ c.user_qid_last
    → in_use (freed c uqs) p ≡ (in_use c p && not (holds p uqs))
unfolding freed
in_use-freed c [] p pool held from to = ground arith
in_use-freed c (uq ∷ uqs) p pool held from to =
    let rest = in_use-freed c uqs p pool (λ q h. held q (ground arith)) from to in
    let (_, b, d) = freed_bounds c uqs in
    elim (Bool-cases uq.alive) [
      | inl live ↦
          let (from_q, to_q) = held uq.qid (ground arith) in
          let now =
            in_use-free (freed c uqs) uq.qid p (freed-IsPool c uqs pool) (rw b from_q) (rw d to_q)
              (rw b from) (rw d to) in
          rw live (now ∙ rw rest (ground arith))
      | inr empty ↦ rw empty (rest ∙ ground arith)
    ]

find-delete_pair :
    (k : Kernel) (cdev qid : ℕ) (w : World)
    → ctrl_find_by_inode (delete_pair k w qid) cdev ≡ ctrl_find_by_inode w cdev
unfolding delete_pair ctrl_find_by_inode
find-delete_pair k cdev qid w = refl

find-drain_queue :
    (k : Kernel) (cdev : ℕ) (ndev : Option NvmeDev) (w : World) (c : Ctrl) (uq : UserQueue)
    → ctrl_find_by_inode w cdev ≡ some c
    → ctrl_find_by_inode (drain_queue k cdev ndev w uq) cdev
      ≡ some (if uq.alive then QidPool.free c uq.qid else c)
unfolding drain_queue free_qid
find-drain_queue k cdev ndev w c uq found = elim (Bool-cases uq.alive) [
  | inl live ↦ elim (Option-cases ndev) [
    | inl dead ↦
        rw (live, dead, drain_queue)
          (find-update_ctrl w cdev (λ c. QidPool.free c uq.qid) c found (free_cdev c uq.qid))
    | inr (dev, bound) ↦
        rw (live, bound, drain_queue)
          (find-update_ctrl (delete_pair k w uq.qid) cdev (λ c. QidPool.free c uq.qid) c
            (find-delete_pair k cdev uq.qid w ∙ found) (free_cdev c uq.qid))
  ]
  | inr empty ↦ rw (empty, drain_queue) found
]

find-drain_queues :
    (k : Kernel) (ndev : Option NvmeDev) (w : World) (c : Ctrl) (uqs : List UserQueue)
    → ctrl_find_by_inode w c.cdev ≡ some c
    → ctrl_find_by_inode (drain_queues k c.cdev ndev w uqs) c.cdev ≡ some (freed c uqs)
unfolding drain_queues freed
find-drain_queues k ndev w c [] found = found
find-drain_queues k ndev w c (uq ∷ uqs) found =
    find-drain_queue k c.cdev ndev (drain_queues k c.cdev ndev w uqs) (freed c uqs) uq
      (find-drain_queues k ndev w c uqs found)

ctrl_list-drain_maps : (w : World) (ps : List ℕ) → (drain_maps w ps).ctrl_list ≡ w.ctrl_list
unfolding drain_maps unmap_and_release
ctrl_list-drain_maps w [] = refl
ctrl_list-drain_maps w (p ∷ ps) = ctrl_list-drain_maps (unmap_and_release w p) ps

-- The tear-down of a group whose live queues hold QIDs of the controller's pool takes these QIDs
-- out of use, and no other QID of the pool.
pub in_use-destroy_qgroup :
    (k : Kernel) (w : World) (g : Group) (c : Ctrl)
    → ctrl_find_by_inode w c.cdev ≡ some c
    → IsPool c
    → HeldByPool c g.queues
    → (c' : Ctrl) × (ctrl_find_by_inode (destroy_qgroup k w g c.cdev) c.cdev ≡ some c')
      × ((q : ℕ)
          → c.user_qid_first ≤ q
          → q ≤ c.user_qid_last
          → in_use c' q ≡ (in_use c q && not (holds q g.queues)))
unfolding destroy_qgroup ctrl_find_by_inode
in_use-destroy_qgroup k w g c found pool held = (
  freed c g.queues,
  ap (find_ctrl c.cdev) (ctrl_list-drain_maps (drain_queues k c.cdev _ w g.queues) g.maps)
      ∙ find-drain_queues k _ w c g.queues found,
  λ q from to. in_use-freed c g.queues q pool held from to,
)
