-- ===== src/Groups/Destroy.antt =====
-- `destroy_qgroup_locked`: what it does to the device, to the QID pool and to the maps, in this order.
use mathlib.Core.List.{append_assoc, append-nil}
use geminifs_npu_smoke.Prelude.{
  ℕ, ◌≡◌, refl, sym, ap, ap₂, ◌∙◌, inl, inr, Bool, true, false, Option, none, some, List, [], ◌∷◌,
  ◌++◌, map, if◌then◌else◌, take, Bool-cases,
}
use geminifs_npu_smoke.State.{
  Rc, Command, delete_sq, delete_cq, Event, admin, dma_unmap, put_page, p2p_unmap, user_pages,
  gpu_region, gpu_ioqueue_region, Map, NvmeDev, UserQueue, Group, World, Kernel,
}
use geminifs_npu_smoke.Admin.{delete_command}
use geminifs_npu_smoke.Ctrls.{ctrl_find_by_inode, snvm_ctrl_get_live_ndev}
use geminifs_npu_smoke.Maps.{put_table, release_events, released, unmap_and_release}
use geminifs_npu_smoke.Groups.{delete_pair, drain_queue, drain_queues, drain_maps, destroy_qgroup}

-- The admin commands among some events.
pub commands : List Event → List Command
commands [] = []
commands (admin c rc ∷ es) = c ∷ commands es
commands (_ ∷ es) = commands es

-- The events that are admin commands are all of them.
pub all_admin : List Event → Bool
all_admin [] = true
all_admin (admin c rc ∷ es) = all_admin es
all_admin (_ ∷ es) = false

-- For each live slot from the last to the first, Delete I/O SQ and then Delete I/O CQ.
pub deletes : List UserQueue → List Command
deletes [] = []
deletes (uq ∷ uqs) =
    deletes uqs
    ++ (if uq.alive
        then delete_command delete_sq uq.qid ∷ delete_command delete_cq uq.qid ∷ []
        else [])

pub commands-append : (xs ys : List Event) → commands (xs ++ ys) ≡ commands xs ++ commands ys
unfolding commands
commands-append [] ys = refl
commands-append (admin c rc ∷ xs) ys = ap (c ∷◌) (commands-append xs ys)
commands-append (_ ∷ xs) ys = commands-append xs ys

all_admin-append :
    (xs ys : List Event) → all_admin xs ≡ true → all_admin ys ≡ true → all_admin (xs ++ ys) ≡ true
unfolding all_admin
all_admin-append [] ys h g = g
all_admin-append (admin c rc ∷ xs) ys h g = all_admin-append xs ys h g
all_admin-append (_ ∷ xs) ys h g = cc

commands-map :
    (f : ℕ → Event) (xs : List ℕ)
    → ((x : ℕ) (es : List Event) → commands (f x ∷ es) ≡ commands es)
    → commands (map f xs) ≡ []
unfolding commands
commands-map f [] h = refl
commands-map f (x ∷ xs) h = h x (map f xs) ∙ commands-map f xs h

-- The release callbacks send no admin command.
commands-release_events : (n : ℕ) (m : Map) → commands (release_events n m) ≡ []
unfolding commands release_events
commands-release_events n m =
    elim m.backing as (λ b. commands (release_events n (record m { backing = b })) ≡ []) [
      | none ↦ refl
      | some (user_pages pages) ↦ rw (
        commands-append (map dma_unmap (take m.n_addrs m.addrs))
            (map put_page (take m.n_addrs pages)),
        commands-map dma_unmap (take m.n_addrs m.addrs) (λ x es. refl),
        commands-map put_page (take m.n_addrs pages) (λ x es. refl),
      )
      | some (gpu_region pt ms) ↦
          rw
            (
              commands-append (map p2p_unmap (take n ms)) (put_table pt),
              commands-map p2p_unmap (take n ms) (λ x es. refl),
            )
            (no_table pt)
      | some (gpu_ioqueue_region pt none) ↦ no_table pt
      | some (gpu_ioqueue_region pt (some d)) ↦ no_table pt
    ]
  where
    no_table : (pt : Option ℕ) → commands (put_table pt) ≡ []
    no_table none = refl
    no_table (some pt) = refl

commands-released : (w : World) (m : Option Map) → commands (released w m) ≡ []
unfolding commands
commands-released w none = refl
commands-released w (some m) = commands-release_events _ m

drain_maps-trace :
    (w : World) (ps : List ℕ)
    → (es : List Event) × ((drain_maps w ps).trace ≡ w.trace ++ es) × (commands es ≡ [])
unfolding drain_maps unmap_and_release commands
drain_maps-trace w [] = ([], sym (append-nil w.trace), refl)
drain_maps-trace w (p ∷ ps) =
    let (es, grows, silent) = drain_maps-trace (unmap_and_release w p) ps in
    let now = released w (w.heap p) in
    (
      now ++ es,
      grows ∙ append_assoc w.trace now es,
      rw (commands-append now es, commands-released w (w.heap p)) silent,
    )

abbrev pair_events : ℕ → Rc → Rc → List Event
pair_events qid r s =
    admin (delete_command delete_sq qid) r ∷ admin (delete_command delete_cq qid) s ∷ []

pub delete_pair-trace :
    (k : Kernel) (w : World) (qid : ℕ)
    → (r s : Rc) × ((delete_pair k w qid).trace ≡ w.trace ++ pair_events qid r s)
unfolding delete_pair
delete_pair-trace k w qid =
    let sq = admin (delete_command delete_sq qid) in
    let r = k.submit_sync_cmd w.trace (delete_command delete_sq qid) in
    let s = k.submit_sync_cmd (w.trace ++ sq r ∷ []) (delete_command delete_cq qid) in
    (r, s, append_assoc w.trace (sq r ∷ []) (admin (delete_command delete_cq qid) s ∷ []))

abbrev slot_deletes : UserQueue → List Command
slot_deletes uq =
    if uq.alive then delete_command delete_sq uq.qid ∷ delete_command delete_cq uq.qid ∷ [] else []

drain_queue-trace :
    (k : Kernel) (cdev : ℕ) (dev : NvmeDev) (w : World) (uq : UserQueue)
    → (es : List Event) × ((drain_queue k cdev (some dev) w uq).trace ≡ w.trace ++ es)
      × (commands es ≡ slot_deletes uq)
      × (all_admin es ≡ true)
unfolding drain_queue commands all_admin
drain_queue-trace k cdev dev w uq = elim (Bool-cases uq.alive) [
  | inl live ↦
      let (r, s, e) = delete_pair-trace k w uq.qid in
      (pair_events uq.qid r s, rw (live, drain_queue) e, rw live, refl)
  | inr dead ↦ ([], rw (dead, drain_queue) (sym (append-nil w.trace)), rw dead, refl)
]

drain_queues-trace :
    (k : Kernel) (cdev : ℕ) (dev : NvmeDev) (w : World) (uqs : List UserQueue)
    → (es : List Event) × ((drain_queues k cdev (some dev) w uqs).trace ≡ w.trace ++ es)
      × (commands es ≡ deletes uqs)
      × (all_admin es ≡ true)
unfolding drain_queues deletes commands all_admin
drain_queues-trace k cdev dev w [] = ([], sym (append-nil w.trace), refl, refl)
drain_queues-trace k cdev dev w (uq ∷ uqs) =
    let (es, grows, sends, admins) = drain_queues-trace k cdev dev w uqs in
    let (fs, grows', sends', admins') =
      drain_queue-trace k cdev dev (drain_queues k cdev (some dev) w uqs) uq in
    (
      es ++ fs,
      grows' ∙ ap (◌++ fs) grows ∙ append_assoc w.trace es fs,
      commands-append es fs ∙ ap₂ ◌++◌ sends sends',
      all_admin-append es fs admins admins',
    )

-- On a live controller a group is torn down by deleting each live queue pair, the last slot first
-- and the SQ before its CQ, and only then are its maps released; nothing else is sent.
pub destroy_qgroup-order :
    (k : Kernel) (w : World) (g : Group) (cdev : ℕ) (dev : NvmeDev)
    → snvm_ctrl_get_live_ndev w (ctrl_find_by_inode w cdev) ≡ some dev
    → (sent done : List Event) × ((destroy_qgroup k w g cdev).trace ≡ w.trace ++ (sent ++ done))
      × (commands sent ≡ deletes g.queues)
      × (all_admin sent ≡ true)
      × (commands done ≡ [])
unfolding destroy_qgroup
destroy_qgroup-order k w g cdev dev live =
    let (sent, grows, sends, admins) = drain_queues-trace k cdev dev w g.queues in
    let (done, grows', silent) =
      drain_maps-trace (drain_queues k cdev (some dev) w g.queues) g.maps in
    (
      sent,
      done,
      rw (live, destroy_qgroup) (grows' ∙ ap (◌++ done) grows ∙ append_assoc w.trace sent done),
      sends,
      admins,
      silent,
    )
