-- ===== src/IoQueues/UserQueues/Pairs.antt =====
-- What the loop of `nvme_create_io_queues_mix` leaves on the device.
use geminifs_npu_smoke.Prelude.{
  ℕ, ◌+◌, ◌≡◌, refl, sym, subst, inl, inr, true, false, none, some, List, ◌∷◌, pos, Bool-cases,
  Option-cases,
}
use geminifs_npu_smoke.State.{Errno, enodev, ok, err, Rc-cases, NvmeDev, World, Kernel, Map}
use geminifs_npu_smoke.Admin.{
  create_cq_command, create_sq_command, submit, adapter_alloc_cq_user, adapter_alloc_sq_user,
  adapter_delete_cq,
}
use geminifs_npu_smoke.Admin.Device.{Device, sent, DeletesSucceed}
use geminifs_npu_smoke.Admin.Pairs.{
  Extends, is_fresh, Halfway, Extends-refused, cq_allowed, Halfway-granted, Extends-granted,
  Halfway-refused, Extends-delete_cq,
}
use geminifs_npu_smoke.IoQueues.UserQueues.{
  ProbeEnv, Made, eperm, find_ring, count_pair, make_sq, create_user_queue,
}

-- How the making of one pair ends: made and counted; not made; its CQ left alone on the device, when
-- the SQ failed with a negative errno; or made and not counted, when the lock was taken.
pub data Step (env : ProbeEnv) (d : Device) (created : List ℕ) (uqid qid online : ℕ) (m : Made)
    : Type 0 where
  counted :
      m.rc ≡ ok
      → m.online ≡ online + 1
      → Extends d m.world (qid ∷ created)
      → Step env d created uqid qid online m
  unmade :
      (e : Errno)
      → m.rc ≡ err e
      → m.online ≡ online
      → Extends d m.world created
      → Step env d created uqid qid online m
  cq_left :
      (e : Errno)
      → m.rc ≡ err e
      → env.is_negative e ≡ true
      → m.online ≡ online
      → Halfway d m.world created qid
      → Step env d created uqid qid online m
  uncounted :
      m.rc ≡ err enodev
      → env.trylock uqid ≡ false
      → m.online ≡ online
      → Extends d m.world (qid ∷ created)
      → Step env d created uqid qid online m

module _ (k : Kernel) (deletes : DeletesSucceed k) (env : ProbeEnv) (dev : NvmeDev)
    (d : Device) where
  module _ (created : List ℕ) (uqid qid online : ℕ) (fresh : is_fresh d created qid ≡ true) where
    abbrev Ends : Made → Type 0
    Ends m = Step env d created uqid qid online m

    locked_eq :
        (w : World)
        → env.trylock uqid ≡ true
        → count_pair env w uqid online ≡ record { rc = ok; world = w; online = online + 1 }
    unfolding count_pair
    locked_eq w got = rw (count_pair, got) refl

    busy_eq :
        (w : World)
        → env.trylock uqid ≡ false
        → count_pair env w uqid online ≡ record { rc = err enodev; world = w; online = online }
    unfolding count_pair
    busy_eq w busy = rw (count_pair, busy) refl

    sq_missing :
        (w : World)
        → find_ring env w uqid (pos 0) ≡ none
        → make_sq k env dev w uqid qid online
          ≡ record { rc = err eperm; world = (adapter_delete_cq k w qid).1; online = online }
    unfolding make_sq
    sq_missing w missing = rw (make_sq, missing) refl

    module _ (w : World) (q_map : Map) where
      abbrev after_sq : World
      after_sq = (adapter_alloc_sq_user k w dev q_map qid).1

      abbrev after_cq : World
      after_cq = (adapter_alloc_cq_user k w dev q_map qid).1

      sq_made :
          find_ring env w uqid (pos 0) ≡ some q_map
          → (adapter_alloc_sq_user k w dev q_map qid).0 ≡ ok
          → make_sq k env dev w uqid qid online ≡ count_pair env after_sq uqid online
      unfolding make_sq
      sq_made there made = rw (make_sq, there, made) refl

      sq_negative :
          (e : Errno)
          → find_ring env w uqid (pos 0) ≡ some q_map
          → (adapter_alloc_sq_user k w dev q_map qid).0 ≡ err e
          → env.is_negative e ≡ true
          → make_sq k env dev w uqid qid online
            ≡ record { rc = err e; world = after_sq; online = online }
      unfolding make_sq
      sq_negative e there bad negative = rw (make_sq, there, bad, negative) refl

      sq_status :
          (e : Errno)
          → find_ring env w uqid (pos 0) ≡ some q_map
          → (adapter_alloc_sq_user k w dev q_map qid).0 ≡ err e
          → env.is_negative e ≡ false
          → make_sq k env dev w uqid qid online
            ≡ record { rc = err e; world = (adapter_delete_cq k after_sq qid).1; online = online }
      unfolding make_sq
      sq_status e there bad status = rw (make_sq, there, bad, status) refl

      cq_made :
          find_ring env w uqid (pos 1) ≡ some q_map
          → (adapter_alloc_cq_user k w dev q_map qid).0 ≡ ok
          → create_user_queue k env dev w uqid qid online
            ≡ make_sq k env dev after_cq uqid qid online
      unfolding create_user_queue
      cq_made there made = rw (create_user_queue, there, made) refl

      cq_refused :
          (e : Errno)
          → find_ring env w uqid (pos 1) ≡ some q_map
          → (adapter_alloc_cq_user k w dev q_map qid).0 ≡ err e
          → create_user_queue k env dev w uqid qid online
            ≡ record { rc = err e; world = after_cq; online = online }
      unfolding create_user_queue
      cq_refused e there bad = rw (create_user_queue, there, bad) refl

    cq_missing :
        (w : World)
        → find_ring env w uqid (pos 1) ≡ none
        → create_user_queue k env dev w uqid qid online
          ≡ record { rc = err eperm; world = w; online = online }
    unfolding create_user_queue
    cq_missing w missing = rw (create_user_queue, missing) refl

    count_pair-Step :
        (w : World) → Extends d w (qid ∷ created) → Ends (count_pair env w uqid online)
    count_pair-Step w x = elim (Bool-cases (env.trylock uqid)) [
      | inl got ↦ subst (λ m. Ends m) (sym (locked_eq w got)) (counted refl refl x)
      | inr busy ↦ subst (λ m. Ends m) (sym (busy_eq w busy)) (uncounted refl busy refl x)
    ]

    make_sq-Step :
        (w : World) → Halfway d w created qid → Ends (make_sq k env dev w uqid qid online)
    unfolding adapter_alloc_sq_user submit
    make_sq-Step w half = elim (Option-cases (find_ring env w uqid (pos 0))) [
      | inl missing ↦
          subst (λ m. Ends m) (sym (sq_missing w missing))
            (unmade eperm refl refl (Extends-delete_cq k d w created deletes qid fresh half))
      | inr (q_map, there) ↦ elim (Rc-cases (sent k w (create_sq_command dev q_map qid))) [
        | inl made ↦
            subst (λ m. Ends m) (sym (sq_made w q_map there made))
              (count_pair-Step (submit k w (create_sq_command dev q_map qid)).1
                (Extends-granted k d w created dev q_map qid half fresh made))
        | inr (e, bad) ↦
            let w' = (submit k w (create_sq_command dev q_map qid)).1 in
            let half' = Halfway-refused k d w created dev q_map qid half e fresh bad in
            elim (Bool-cases (env.is_negative e)) [
              | inl negative ↦
                  subst (λ m. Ends m) (sym (sq_negative w q_map e there bad negative))
                    (cq_left e refl negative refl half')
              | inr status ↦
                  subst (λ m. Ends m) (sym (sq_status w q_map e there bad status))
                    (unmade e refl refl (Extends-delete_cq k d w' created deletes qid fresh half'))
            ]
      ]
    ]

    pub create_user_queue-Step :
        (w : World) → Extends d w created → Ends (create_user_queue k env dev w uqid qid online)
    unfolding adapter_alloc_cq_user submit
    create_user_queue-Step w x = elim (Option-cases (find_ring env w uqid (pos 1))) [
      | inl missing ↦ subst (λ m. Ends m) (sym (cq_missing w missing)) (unmade eperm refl refl x)
      | inr (q_map, there) ↦ elim (Rc-cases (sent k w (create_cq_command dev q_map qid))) [
        | inl made ↦
            subst (λ m. Ends m) (sym (cq_made w q_map there made))
              (make_sq-Step (submit k w (create_cq_command dev q_map qid)).1
                (Halfway-granted k d w created dev q_map qid x fresh made))
        | inr (e, bad) ↦
            subst (λ m. Ends m) (sym (cq_refused w q_map e there bad))
              (unmade e refl refl (
                Extends-refused k d w created (create_cq_command dev q_map qid) e bad x
                  (cq_allowed k d w created dev q_map qid x fresh)))
      ]
    ]
