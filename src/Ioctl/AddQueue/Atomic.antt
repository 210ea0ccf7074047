-- ===== src/Ioctl/AddQueue/Atomic.antt =====
-- NVM_ADD_USER_QUEUE is all or nothing: what a call that fails leaves behind.
use geminifs_npu_smoke.Prelude.{
  ℕ, ◌≤◌, ◌≡◌, refl, sym, ap, subst, ◌∙◌, inl, inr, Bool, true, false, not, none, some, List, [],
  arith, ltb, add32, Bool-cases, Option-cases,
}
use geminifs_npu_smoke.State.{
  Rc-cases, Errno, enodev, ok, err, Map, Ctrl, NvmeDev, Group, Owner, World, Env, Kernel,
  FindsFirstZero,
}
use geminifs_npu_smoke.Admin.Device.{device, IsLawful, DeletesSucceed}
use geminifs_npu_smoke.Admin.Pairs.{Extends}
use geminifs_npu_smoke.Ctrls.{
  ctrl_find_by_inode, update_first, update_ctrl, find-update_ctrl, snvm_ctrl_get_live_ndev,
}
use geminifs_npu_smoke.QidPool.{IsPool, in_use, pool_init-ready, alloc, free_all}
use geminifs_npu_smoke.QidPool.Alloc.{alloc_takes, alloc_undone}
use geminifs_npu_smoke.QidPool.Free.{
  free_all-alloc, free_all_bounds, free_all_cdev, alloc_bounds, alloc_cdev,
}
use geminifs_npu_smoke.Groups.{find_qgroup}
use geminifs_npu_smoke.Ioctl.Reply.{Reply, PairOut, fail}
use geminifs_npu_smoke.Ioctl.AddRequest.{AddRequest, batch, bad_add_request, find_all_rings}
use geminifs_npu_smoke.Ioctl.AddQueue.{
  drive, delete_pairs, rollback, copy_out, add_driven, add_with_pool, add_pooled, add_to_group,
  add_live, add_opened, add_user_queue,
}
use geminifs_npu_smoke.Ioctl.AddQueue.Drive.{
  drive-Sound, Sound, delete_pairs-Extends, drive-SameButTrace, delete_pairs-SameButTrace,
}

-- `w'` differs from `w` in the trace and in the controller list alone, the device has the same queues,
-- and the controller `c` has the same pool, with the same QIDs in use.
pub record Restored (c : Ctrl) (w w' : World) : Type 0 where
  pub ctrl : Ctrl
  pub found : ctrl_find_by_inode w' c.cdev ≡ some ctrl
  pub same_first : ctrl.user_qid_first ≡ c.user_qid_first
  pub same_last : ctrl.user_qid_last ≡ c.user_qid_last
  pub same_qids : (q : ℕ) → c.user_qid_first ≤ q → q ≤ c.user_qid_last → in_use ctrl q ≡ in_use c q
  pub rest : w' ≡ record w { ctrl_list = w'.ctrl_list; trace = w'.trace }
  pub is_lawful : IsLawful w'
  pub same_sqs : (q : ℕ) → (device w').sqs q ≡ (device w).sqs q
  pub same_cqs : (q : ℕ) → (device w').cqs q ≡ (device w).cqs q

-- The pool and the device agree: a QID of the pool that is not in use names no queue.
abbrev pub InSync : Ctrl → World → Type 0
InSync c w =
    (q : ℕ)
    → c.user_qid_first ≤ q
    → q ≤ c.user_qid_last
    → in_use c q ≡ false
    → ((device w).sqs q ≡ false) × ((device w).cqs q ≡ false)

copy_out-ok :
    (copied : Bool) (committed reverted : World) (out : List PairOut)
    → copied ≡ true
    → (copy_out copied committed reverted out).rc ≡ ok
unfolding copy_out
copy_out-ok copied committed reverted out h = ground arith

module _ (k : Kernel) (finds : FindsFirstZero k) (deletes : DeletesSucceed k) where
  module _ (env : Env) (copied : env.copy_to_user ≡ true) where
    module _ (c : Ctrl) (pool : IsPool c) (w : World)
        (found : ctrl_find_by_inode w c.cdev ≡ some c) where
      module _ (lawful : IsLawful w) (in_sync : InSync c w) where
        abbrev FailsClean : Reply → Type 0
        FailsClean r = (e : Errno) → r.rc ≡ err e → Restored c w r.world

        unchanged : Restored c w w
        unchanged = record {
          ctrl = c;
          found = found;
          same_first = refl;
          same_last = refl;
          same_qids = λ q _ _. refl;
          rest = refl;
          is_lawful = lawful;
          same_sqs = λ q. refl;
          same_cqs = λ q. refl;
        }

        module _ (fd : ℕ) (dev : NvmeDev) (g : Group) (req : AddRequest)
            (rings : List (Map × Map)) where
          taken : World
          taken = update_ctrl w c.cdev (λ _. (alloc k c req.nr_pairs).1)

          abbrev qids : List ℕ
          qids = (alloc k c req.nr_pairs).2

          module _ (granted : (alloc k c req.nr_pairs).0 ≡ ok) where
            driven-Sound : Sound k deletes dev (device w) (drive k dev taken rings qids [])
            unfolding taken update_ctrl
            driven-Sound =
                let (_, distinct_qids, unused, _) =
                  alloc_takes k finds c req.nr_pairs pool granted in
                drive-Sound k deletes dev (device w) taken rings qids []
                  (record { is_lawful = lawful; sqs = λ q. ground arith; cqs = λ q. ground arith })
                  distinct_qids refl
                  (λ q m. let (from, to, free) = unused q m in in_sync q from to free) (λ q m. cc)
                  (λ q m. refl)

            undone : World
            undone =
                delete_pairs k (drive k dev taken rings qids []).world
                  (drive k dev taken rings qids []).created

            undone_rest : undone ≡ record taken { trace = undone.trace }
            unfolding undone
            undone_rest =
                let d = drive k dev taken rings qids [] in
                delete_pairs-SameButTrace k d.world d.created
                ∙ ap (λ (x : World). record x { trace = undone.trace })
                    (drive-SameButTrace k dev taken rings qids [])

            undone_device : Extends (device w) undone []
            unfolding undone
            undone_device =
                let s = driven-Sound in
                delete_pairs-Extends k deletes dev (device w) _ _ s.extends s.is_distinct s.unknown

            undone_found : ctrl_find_by_inode undone c.cdev ≡ some (alloc k c req.nr_pairs).1
            unfolding ctrl_find_by_inode taken
            undone_found =
                ap (λ x. ctrl_find_by_inode x c.cdev) undone_rest
                ∙ find-update_ctrl w c.cdev (λ _. (alloc k c req.nr_pairs).1) c found
                    (alloc_cdev k c req.nr_pairs)

            rolled-Restored : Restored c w (update_ctrl undone c.cdev (λ c. free_all c qids))
            unfolding update_ctrl taken
            rolled-Restored =
                let c2 = (alloc k c req.nr_pairs).1 in
                let (a, b) = free_all_bounds c2 qids in
                let (a', b') = alloc_bounds k c req.nr_pairs in
                record {
                  ctrl = free_all c2 qids;
                  found =
                      find-update_ctrl undone c.cdev (λ c. free_all c qids) c2 undone_found
                        (free_all_cdev c2 qids);
                  same_first = a ∙ a';
                  same_last = b ∙ b';
                  same_qids =
                      λ q from to. free_all-alloc k finds c req.nr_pairs q pool granted from to;
                  rest =
                      ap
                        (λ (x : World). record x {
                          ctrl_list = update_first c.cdev (λ c. free_all c qids) undone.ctrl_list;
                          trace = undone.trace;
                        })
                        undone_rest;
                  is_lawful = undone_device.is_lawful;
                  same_sqs = λ q. ground (arith, undone_device.sqs q);
                  same_cqs = λ q. ground (arith, undone_device.cqs q);
                }

          add_driven-FailsClean :
              (alloc k c req.nr_pairs).0 ≡ ok
              → FailsClean (add_driven k env taken fd c.cdev dev g req rings qids)
          unfolding add_driven rollback undone
          add_driven-FailsClean granted e refused =
              elim (Rc-cases (drive k dev taken rings qids []).rc) [
                | inl done ↦ cc (made done)
                | inr (e', bad) ↦ rw (bad, add_driven) (rolled-Restored granted)
              ]
            where
              made :
                  (drive k dev taken rings qids []).rc ≡ ok
                  → (add_driven k env taken fd c.cdev dev g req rings qids).rc ≡ ok
              made done = rw (done, add_driven) (copy_out-ok env.copy_to_user _ _ _ copied)

          alloc-Restored : (e : Errno) → (alloc k c req.nr_pairs).0 ≡ err e → Restored c w taken
          unfolding taken update_ctrl
          alloc-Restored e refused =
              let (_, same) = alloc_undone k finds c req.nr_pairs pool e refused in
              let (a, b) = alloc_bounds k c req.nr_pairs in
              record {
                ctrl = (alloc k c req.nr_pairs).1;
                found =
                    find-update_ctrl w c.cdev (λ _. (alloc k c req.nr_pairs).1) c found
                      (alloc_cdev k c req.nr_pairs);
                same_first = a;
                same_last = b;
                same_qids = λ q from to. rw (a, same);
                rest = refl;
                is_lawful = lawful;
                same_sqs = λ q. refl;
                same_cqs = λ q. refl;
              }

          add_pooled-FailsClean : FailsClean (add_pooled k env w fd c dev g req rings)
          unfolding add_pooled taken
          add_pooled-FailsClean e refused = elim (Rc-cases (alloc k c req.nr_pairs).0) [
            | inl granted ↦
                subst FailsClean (sym (goes_on granted)) (add_driven-FailsClean granted) e refused
            | inr (e', full) ↦
                subst FailsClean (sym (stops full)) (λ _ _. alloc-Restored e' full) e refused
          ]
            where
              goes_on :
                  (alloc k c req.nr_pairs).0 ≡ ok
                  → add_pooled k env w fd c dev g req rings
                    ≡ add_driven k env taken fd c.cdev dev g req rings qids
              goes_on granted = rw (granted, add_pooled) refl

              stops :
                  {e' : Errno}
                  → (alloc k c req.nr_pairs).0 ≡ err e'
                  → add_pooled k env w fd c dev g req rings ≡ fail e' taken
              stops full = rw (full, add_pooled) refl

        module _ (bm : ℕ → Bool) (ready : c.user_qid_bitmap ≡ some bm) (fd : ℕ)
            (req : AddRequest) where
          fails_clean : (e : Errno) → FailsClean (fail e w)
          fails_clean e _ _ = unchanged

          add_to_group-FailsClean :
              (dev : NvmeDev) (own : Owner) → FailsClean (add_to_group k env w fd c dev own req)
          unfolding add_to_group add_with_pool
          add_to_group-FailsClean dev own = elim (Option-cases (find_qgroup own req.group_id)) [
            | inl missing ↦ rw (missing, add_to_group) (fails_clean _)
            | inr (g, there) ↦
                rw (there, add_to_group)
                  (elim (Bool-cases (ltb g.max_queues (add32 g.cur_queues req.nr_pairs))) [
                    | inl full ↦ rw full (fails_clean _)
                    | inr room ↦
                        rw room (elim (Option-cases (find_all_rings k w.heap g.maps (batch req))) [
                          | inl absent ↦ rw absent (fails_clean _)
                          | inr (rings, resolved) ↦ rw resolved (
                              rw (pool_init-ready c (some dev) env.kcalloc ready)
                                (add_pooled-FailsClean fd dev g req rings))
                        ])
                  ])
          ]

          add_live-FailsClean : (own : Owner) → FailsClean (add_live k env w fd c own req)
          unfolding add_live
          add_live-FailsClean own = elim (Option-cases (snvm_ctrl_get_live_ndev w (some c))) [
            | inl dead ↦ rw (dead, add_live) (fails_clean _)
            | inr (dev, live) ↦ rw (live, add_live) (add_to_group-FailsClean dev own)
          ]

          add_opened-FailsClean : (own : Owner) → FailsClean (add_opened k env w fd c own req)
          unfolding add_opened
          add_opened-FailsClean own = elim (Bool-cases (not env.kzalloc)) [
            | inl full ↦ rw full (fails_clean _)
            | inr room ↦ rw room (elim (Bool-cases (not env.copy_from_user)) [
              | inl fault ↦ rw fault (fails_clean _)
              | inr read ↦ rw read (elim (Bool-cases (bad_add_request req)) [
                | inl bad ↦ rw bad (fails_clean _)
                | inr good ↦ rw good (add_live-FailsClean own)
              ])
            ])
          ]

          -- NVM_ADD_USER_QUEUE is all or nothing while the copy to the user works: if the device
          -- carries out deletions, the commands so far were lawful, and the controller has a pool
          -- whose unused QIDs name no queue, then a call that fails changes no file, map or PCI
          -- state, leaves the device with the queues that it had, by commands that the queue rules
          -- allow, and leaves the pool with the same QIDs in use.
          pub add_user_queue-FailsClean :
              (e : Errno)
              → (add_user_queue k env w fd c req).rc ≡ err e
              → Restored c w (add_user_queue k env w fd c req).world
          unfolding add_user_queue
          add_user_queue-FailsClean e failed = elim (Option-cases (w.files fd)) [
            | inl closed ↦ subst FailsClean (sym (stops closed)) (fails_clean _) e failed
            | inr (own, opened) ↦
                subst FailsClean (sym (goes_on own opened)) (add_opened-FailsClean own) e failed
          ]
            where
              stops : w.files fd ≡ none → add_user_queue k env w fd c req ≡ fail enodev w
              stops closed = rw (closed, add_user_queue) refl

              goes_on :
                  (own : Owner)
                  → w.files fd ≡ some own
                  → add_user_queue k env w fd c req ≡ add_opened k env w fd c own req
              goes_on own opened = rw (opened, add_user_queue) refl
