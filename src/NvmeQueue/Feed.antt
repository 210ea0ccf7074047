-- ===== src/NvmeQueue/Feed.antt =====
-- Sequences of submissions and commits against a queue that hands commands over in their order.
use geminifs_npu_smoke.Prelude.{
  ℕ, ◌+◌, ◌^◌, ◌<◌, ◌≡◌, ◌⊎◌, u16, arith, none, Option-cases, refl, ap, sym, subst, ◌∙◌, inl, inr,
  Bool, ◌||◌, Option, some, List, [], ◌∷◌, ◌++◌, ◌==◌, if◌then◌else◌, length, Bool-cases,
}
use geminifs_npu_smoke.NvmeQueue.{
  NvmeQueue, dbbuf_need_event, dbbuf_update_and_check_event, publish, push_cmd, submit_cmd,
  commit_rqs,
}
use geminifs_npu_smoke.NvmeQueue.Notify.{Passes, need_event_iff}
use geminifs_npu_smoke.NvmeQueue.Window.{distance, window, distance_self, length-window}
use geminifs_npu_smoke.NvmeQueue.Submit.{
  held, held_count, IsRing, Announced, publish-Announced, tail_ok, tells, submit_tells,
  submit_waits, held-push, held-submit, submit-IsRing, submit-Announced, commit_idle,
  commit_publishes, idle_none, held-commit_rqs, commit_rqs-IsRing, commit_rqs-Announced,
}

-- What happens to a submission queue, each under its lock.
pub data Op (C : Type 0) : Type 0 where
  submit : C → Bool → Op C
  commit : Op C
  -- The device writes its event index.
  set_event : ℕ → Op C

module _ {C : Type 0} where
  unfoldable pub do_op : NvmeQueue C → Op C → NvmeQueue C
  do_op q (submit cmd last) = submit_cmd q cmd last
  do_op q commit = commit_rqs q
  do_op q (set_event ei) = record q { dbbuf_sq_ei = ei }

  -- The doorbell that the device reads: the shadow doorbell where there is one, else the register.
  unfoldable pub doorbell : NvmeQueue C → ℕ
  doorbell q = elim q.dbbuf_sq_db [ none ↦ q.sq_doorbell | some v ↦ v ]

  -- The commands in the slots that the doorbell moved past.
  unfoldable pub handed : NvmeQueue C → NvmeQueue C → List (Option C)
  unfolding doorbell
  handed q q' =
      window q'.sq_cmds q'.q_depth (doorbell q) (distance q'.q_depth (doorbell q) (doorbell q'))

  -- The doorbell did not move, or the register was written with it, or the shadow doorbell moved
  -- without passing the event index, so that the device has not asked to be woken.
  abbrev pub Woken : NvmeQueue C → NvmeQueue C → Type 0
  Woken q q' =
      (doorbell q' ≡ doorbell q)
      ⊎ (q'.sq_doorbell ≡ doorbell q')
      ⊎ (¬ Passes (u16 q.dbbuf_sq_ei) (doorbell q') (doorbell q))

  -- The queue after the operations, and the commands that the doorbell moved past, in their order.
  unfoldable pub run : NvmeQueue C → List (Op C) → NvmeQueue C × List (Option C)
  run q [] = (q, [])
  run q (op ∷ ops) = let rest = run (do_op q op) ops in (rest.0, handed q (do_op q op) ++ rest.1)

  -- Each operation of a sequence wakes the device where it must.
  pub AllWoken : NvmeQueue C → List (Op C) → Type 0
  AllWoken q [] = Unit
  AllWoken q (op ∷ ops) = Woken q (do_op q op) × AllWoken (do_op q op) ops

  -- The same on the list of commands that wait: those that are sent, and those that wait at the end.
  unfoldable pub replay : ℕ → List (Option C) → List (Op C) → List (Option C) × List (Option C)
  replay depth waiting [] = ([], waiting)
  replay depth waiting (submit cmd last ∷ ops) =
      let out = last || (length waiting + 2 == depth) in
      let more = waiting ++ (some cmd ∷ []) in
      let rest = replay depth (if out then [] else more) ops in
      ((if out then more else []) ++ rest.0, rest.1)
  replay depth waiting (commit ∷ ops) =
      let rest = replay depth [] ops in (waiting ++ rest.0, rest.1)
  replay depth waiting (set_event ei ∷ ops) = replay depth waiting ops

  pub length-held : (q : NvmeQueue C) → length (held q) ≡ held_count q
  unfolding held
  length-held q = length-window q.q_depth q.sq_cmds q.last_sq_tail (held_count q)

  doorbell-Announced : (q : NvmeQueue C) → Announced q → doorbell q ≡ q.last_sq_tail
  unfolding doorbell Announced
  doorbell-Announced q a = elim (Option-cases q.dbbuf_sq_db) [
    | inl e ↦ rw e (rw e at a)
    | inr (v, e) ↦ rw e (rw e at a)
  ]

  doorbell-publish : (p : NvmeQueue C) → doorbell (publish p) ≡ p.sq_tail
  unfolding publish
  doorbell-publish p = doorbell-Announced (publish p) (publish-Announced p)

  handed-publish :
      (q p : NvmeQueue C)
      → Announced q
      → p.last_sq_tail ≡ q.last_sq_tail
      → handed q (publish p) ≡ held p
  unfolding handed held publish
  handed-publish q p a same = rw (doorbell-Announced q a, doorbell-publish p, same) refl

  handed_none : (q p : NvmeQueue C) → doorbell p ≡ doorbell q → handed q p ≡ []
  unfolding handed window
  handed_none q p same = rw (same, distance_self p.q_depth (doorbell q)) refl

  doorbell-push : (q : NvmeQueue C) (cmd : C) → doorbell (push_cmd q cmd) ≡ doorbell q
  unfolding push_cmd doorbell
  doorbell-push q cmd = refl

  publish-Woken :
      (p : NvmeQueue C)
      → Announced p
      → p.sq_tail < 2 ^ 16
      → p.last_sq_tail < 2 ^ 16
      → Woken p (publish p)
  unfolding publish doorbell dbbuf_update_and_check_event
  publish-Woken p a tail last = elim (Option-cases p.dbbuf_sq_db) [
    | inl e ↦ inr (inl (rw e refl))
    | inr (v, e) ↦
        let ei = u16 p.dbbuf_sq_ei in
        let here : doorbell p ≡ v = rw e refl in
        let small : u16 v ≡ v = omega (arith, here, doorbell-Announced p a) in
        let asks : (dbbuf_update_and_check_event p.sq_tail p.dbbuf_sq_db p.dbbuf_sq_ei).0
            ≡ dbbuf_need_event ei p.sq_tail v =
          rw (e, small) refl in
        let exactly =
          need_event_iff ei p.sq_tail v (omega arith) tail
            (omega (arith, here, doorbell-Announced p a)) in
        elim (Bool-cases (dbbuf_need_event ei p.sq_tail v)) [
          | inl need ↦ inr (inl (rw (doorbell-publish p, asks, need) refl))
          | inr calm ↦ inr (
              inr (λ passes.
                let yes = exactly.1 (rw (doorbell-publish p, here) at passes) in
                absurd (cc (yes, calm))))
        ]
  ]

  push_last : (q : NvmeQueue C) (cmd : C) → (push_cmd q cmd).last_sq_tail ≡ q.last_sq_tail
  unfolding push_cmd
  push_last q cmd = refl

  handed-submit :
      (q : NvmeQueue C) (ring : IsRing q) (a : Announced q) (cmd : C) (w : Bool)
      → handed q (submit_cmd q cmd w)
        ≡ (if tells q ring cmd w then held q ++ (some cmd ∷ []) else [])
  handed-submit q ring a cmd w = elim (Bool-cases (tells q ring cmd w)) [
    | inl h ↦
        rw (submit_tells q ring cmd w h, h, handed-publish q (push_cmd q cmd) a (push_last q cmd))
          (held-push q ring cmd)
    | inr h ↦
        rw (submit_waits q ring cmd w h, h) (handed_none q (push_cmd q cmd) (doorbell-push q cmd))
  ]

  handed-commit :
      (q : NvmeQueue C) (ring : IsRing q) → Announced q → handed q (commit_rqs q) ≡ held q
  handed-commit q ring a = elim (Bool-cases (q.sq_tail == q.last_sq_tail)) [
    | inl h ↦ rw (commit_idle q ring h, idle_none q ring h) (handed_none q q refl)
    | inr h ↦ rw (commit_publishes q ring h) (handed-publish q q a refl)
  ]

  pub do_op-IsRing : (q : NvmeQueue C) (op : Op C) → IsRing q → IsRing (do_op q op)
  unfolding do_op
  do_op-IsRing q (submit cmd last) ring = submit-IsRing q ring cmd last
  do_op-IsRing q commit ring = commit_rqs-IsRing q ring
  do_op-IsRing q (set_event ei) ring = record {
    two_le = ring.two_le;
    fits = ring.fits;
    tail_lt = ring.tail_lt;
    last_lt = ring.last_lt;
    room = ring.room;
  }

  pub do_op-Announced :
      (q : NvmeQueue C) (op : Op C) → IsRing q → Announced q → Announced (do_op q op)
  unfolding do_op Announced
  do_op-Announced q (submit cmd last) ring a = submit-Announced q ring cmd last a
  do_op-Announced q commit ring a = commit_rqs-Announced q ring a
  do_op-Announced q (set_event ei) ring a = a

  depth-push : (q : NvmeQueue C) (cmd : C) → (push_cmd q cmd).q_depth ≡ q.q_depth
  unfolding push_cmd
  depth-push q cmd = refl

  depth-publish : (q : NvmeQueue C) → (publish q).q_depth ≡ q.q_depth
  unfolding publish
  depth-publish q = refl

  depth-do_op : (q : NvmeQueue C) (op : Op C) → IsRing q → (do_op q op).q_depth ≡ q.q_depth
  unfolding do_op
  depth-do_op q (submit cmd last) ring = elim (Bool-cases (tells q ring cmd last)) [
    | inl h ↦
        rw (submit_tells q ring cmd last h) (depth-publish (push_cmd q cmd) ∙ depth-push q cmd)
    | inr h ↦ rw (submit_waits q ring cmd last h) (depth-push q cmd)
  ]
  depth-do_op q commit ring = elim (Bool-cases (q.sq_tail == q.last_sq_tail)) [
    | inl h ↦ rw (commit_idle q ring h) refl
    | inr h ↦ rw (commit_publishes q ring h) (depth-publish q)
  ]
  depth-do_op q (set_event ei) ring = refl

  held-set_event : (q : NvmeQueue C) (ei : ℕ) → held (do_op q (set_event ei)) ≡ held q
  unfolding held do_op
  held-set_event q ei = refl

  doorbell-set_event : (q : NvmeQueue C) (ei : ℕ) → doorbell (do_op q (set_event ei)) ≡ doorbell q
  unfolding doorbell do_op
  doorbell-set_event q ei = refl

  push-Woken :
      (q : NvmeQueue C) (cmd : C)
      → Announced q
      → (push_cmd q cmd).sq_tail < 2 ^ 16
      → q.last_sq_tail < 2 ^ 16
      → Woken q (publish (push_cmd q cmd))
  unfolding push_cmd doorbell Announced
  push-Woken q cmd a tail last = publish-Woken (push_cmd q cmd) a tail last

  do_op-Woken : (q : NvmeQueue C) (op : Op C) → IsRing q → Announced q → Woken q (do_op q op)
  unfolding do_op
  do_op-Woken q (submit cmd last) ring a = elim (Bool-cases (tells q ring cmd last)) [
    | inl h ↦
        subst (λ r. Woken q r) (sym (submit_tells q ring cmd last h))
          (push-Woken q cmd a (omega (arith, tail_ok q ring cmd, ring.fits))
            (omega (arith, ring.last_lt, ring.fits)))
    | inr h ↦
        subst (λ r. Woken q r) (sym (submit_waits q ring cmd last h)) (inl (doorbell-push q cmd))
  ]
  do_op-Woken q commit ring a = elim (Bool-cases (q.sq_tail == q.last_sq_tail)) [
    | inl h ↦ subst (λ r. Woken q r) (sym (commit_idle q ring h)) (inl refl)
    | inr h ↦
        subst (λ r. Woken q r) (sym (commit_publishes q ring h))
          (publish-Woken q a (omega (arith, ring.tail_lt, ring.fits))
            (omega (arith, ring.last_lt, ring.fits)))
  ]
  do_op-Woken q (set_event ei) ring a = inl (doorbell-set_event q ei)

  -- What one operation hands over and leaves, on the list.
  replay-do_op :
      (q : NvmeQueue C) (op : Op C) (ops : List (Op C))
      → IsRing q
      → Announced q
      → let rest = replay q.q_depth (held (do_op q op)) ops in
        replay q.q_depth (held q) (op ∷ ops) ≡ (handed q (do_op q op) ++ rest.0, rest.1)
  unfolding replay do_op
  replay-do_op q (submit cmd last) ops ring a =
      rw (handed-submit q ring a cmd last, held-submit q ring cmd last, length-held q) refl
  replay-do_op q commit ops ring a = rw (handed-commit q ring a, held-commit_rqs q ring) refl
  replay-do_op q (set_event ei) ops ring a =
      rw (handed_none q (do_op q (set_event ei)) (doorbell-set_event q ei), held-set_event q ei)
        refl

  pub run-AllWoken : (q : NvmeQueue C) (ops : List (Op C)) → IsRing q → Announced q → AllWoken q ops
  unfolding AllWoken
  run-AllWoken q [] ring a = tt
  run-AllWoken q (op ∷ ops) ring a = (
    do_op-Woken q op ring a,
    run-AllWoken (do_op q op) ops (do_op-IsRing q op ring) (do_op-Announced q op ring a),
  )

  -- From a ring whose indices are in bounds and whose doorbell holds the last published tail, over
  -- every sequence of submissions, commits and event indices: the doorbell that the device reads,
  -- shadow or register, moves past exactly the commands that the list of waiting commands gives, in
  -- that order; exactly its rest is left waiting; the indices stay in bounds; and each operation
  -- that moves the doorbell writes the register, unless a shadow doorbell is there and the move does
  -- not pass the event index.
  pub run-Refines :
      (q : NvmeQueue C) (ops : List (Op C))
      → IsRing q
      → Announced q
      → (((run q ops).1, held (run q ops).0) ≡ replay q.q_depth (held q) ops)
        × IsRing (run q ops).0
        × AllWoken q ops
  unfolding run replay AllWoken
  run-Refines q [] ring a = (refl, ring, tt)
  run-Refines q (op ∷ ops) ring a =
      let rest =
        run-Refines (do_op q op) ops (do_op-IsRing q op ring) (do_op-Announced q op ring a) in
      let here : ((run (do_op q op) ops).1, held (run (do_op q op) ops).0)
          ≡ replay q.q_depth (held (do_op q op)) ops =
        subst
          (λ (d : ℕ).
            ((run (do_op q op) ops).1, held (run (do_op q op) ops).0)
            ≡ replay d (held (do_op q op)) ops)
          (depth-do_op q op ring) rest.0 in
      (
        ap (λ (p : List (Option C) × List (Option C)). (handed q (do_op q op) ++ p.0, p.1)) here
            ∙ sym (replay-do_op q op ops ring a),
        rest.1,
        run-AllWoken q (op ∷ ops) ring a,
      )
