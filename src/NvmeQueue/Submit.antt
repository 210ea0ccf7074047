-- ===== src/NvmeQueue/Submit.antt =====
-- `nvme_submit_cmd` and `nvme_commit_rqs` on the slots that the device has not been told of.
use geminifs_npu_smoke.Prelude.{
  ℕ, suc, ◌+◌, ◌^◌, ◌≤◌, ◌<◌, ◌≡◌, refl, ap, sym, subst, ◌∙◌, inl, inr, Bool, true, false, not,
  ◌&&◌, ◌||◌, Option, none, some, List, [], ◌∷◌, ◌++◌, arith, ◌==◌, if◌then◌else◌, update, ==_refl,
  ==_iff, Bool-cases, Option-cases,
}
use geminifs_npu_smoke.NvmeQueue.{
  NvmeQueue, dbbuf_update_and_check_event, next_slot, publish, write_sq_db, push_cmd, submit_cmd,
  commit_rqs,
}
use geminifs_npu_smoke.NvmeQueue.Window.{
  slot, distance, window, next_slot_lem, slot_lt, slot-distance, distance_self, distance-next,
  window-snoc, window-update,
}

de_morgan : (w b : Bool) → (not w && not b) ≡ not (w || b)
de_morgan true b = refl
de_morgan false b = refl

last_room_of :
    (d t l : ℕ)
    → 2 ≤ d
    → d ≤ 2 ^ 16
    → t < d
    → l < d
    → distance d l t + 2 ≤ d
    → (next_slot d (next_slot d t) == l) ≡ (distance d l t + 2 == d)
unfolding slot distance
last_room_of d t l two fits m n room =
    rw (next_slot_lem d fits t m, next_slot_lem d fits (slot d t 1) (slot_lt d t 1 m (omega arith)))
      (ground arith)

module _ {C : Type 0} where
  -- How many commands the device has not been told of.
  abbrev pub held_count : NvmeQueue C → ℕ
  held_count q = distance q.q_depth q.last_sq_tail q.sq_tail

  -- Those commands, oldest first.
  unfoldable pub held : NvmeQueue C → List (Option C)
  held q = window q.sq_cmds q.q_depth q.last_sq_tail (held_count q)

  -- The indices lie in the ring, and a submission leaves a slot free before the next doorbell.
  pub record IsRing (q : NvmeQueue C) : Type 0 where
    pub two_le : 2 ≤ q.q_depth
    pub fits : q.q_depth ≤ 2 ^ 16
    pub tail_lt : q.sq_tail < q.q_depth
    pub last_lt : q.last_sq_tail < q.q_depth
    pub room : held_count q + 2 ≤ q.q_depth

  -- The doorbell that the device reads holds the tail of the last publication: the shadow doorbell
  -- where there is one, and else the register.
  unfoldable pub Announced : NvmeQueue C → Type 0
  Announced q = elim q.dbbuf_sq_db [
    | none ↦ q.sq_doorbell ≡ q.last_sq_tail
    | some v ↦ v ≡ q.last_sq_tail
  ]

  pub publish-Announced : (q : NvmeQueue C) → Announced (publish q)
  unfolding publish Announced dbbuf_update_and_check_event
  publish-Announced q = elim (Option-cases q.dbbuf_sq_db) [
    | inl e ↦ rw e refl
    | inr (v, e) ↦ rw e refl
  ]

  pub held-publish : (q : NvmeQueue C) → held (publish q) ≡ []
  unfolding held publish window
  held-publish q = rw (distance_self q.q_depth q.sq_tail) refl

  pub publish-IsRing :
      (q : NvmeQueue C)
      → 2 ≤ q.q_depth
      → q.q_depth ≤ 2 ^ 16
      → q.sq_tail < q.q_depth
      → IsRing (publish q)
  unfolding publish
  publish-IsRing q two fits l = record {
    two_le = two;
    fits = fits;
    tail_lt = l;
    last_lt = l;
    room = rw (distance_self q.q_depth q.sq_tail) two;
  }

  module _ (q : NvmeQueue C) (ring : IsRing q) (cmd : C) where
    next_eq : (push_cmd q cmd).sq_tail ≡ slot q.q_depth q.sq_tail 1
    unfolding push_cmd
    next_eq = next_slot_lem q.q_depth ring.fits q.sq_tail ring.tail_lt

    one_more : held_count (push_cmd q cmd) ≡ suc (held_count q)
    unfolding push_cmd
    one_more =
        ap (λ (t : ℕ). distance q.q_depth q.last_sq_tail t) next_eq
        ∙ distance-next q.q_depth q.last_sq_tail q.sq_tail ring.last_lt ring.tail_lt
            (omega (arith, ring.room))

    push-Announced : Announced q → Announced (push_cmd q cmd)
    unfolding push_cmd Announced
    push-Announced a = a

    pub tail_ok : (push_cmd q cmd).sq_tail < q.q_depth
    tail_ok =
        subst (λ (t : ℕ). t < q.q_depth) (sym next_eq)
          (slot_lt q.q_depth q.sq_tail 1 ring.tail_lt (omega (arith, ring.two_le)))

    ring_depth : (P : ℕ → Type 0) → P q.q_depth → P (push_cmd q cmd).q_depth
    unfolding push_cmd
    ring_depth P p = p

    last_kept : (push_cmd q cmd).last_sq_tail < (push_cmd q cmd).q_depth
    unfolding push_cmd
    last_kept = ring.last_lt

    push-IsRing : suc (held_count q) + 2 ≤ q.q_depth → IsRing (push_cmd q cmd)
    push-IsRing room = record {
      two_le = ring_depth (λ (d : ℕ). 2 ≤ d) ring.two_le;
      fits = ring_depth (λ (d : ℕ). d ≤ 2 ^ 16) ring.fits;
      tail_lt = ring_depth (λ (d : ℕ). (push_cmd q cmd).sq_tail < d) tail_ok;
      last_lt = last_kept;
      room = ring_depth (λ (d : ℕ). held_count (push_cmd q cmd) + 2 ≤ d) (rw one_more room);
    }

    publish-push-IsRing : IsRing (publish (push_cmd q cmd))
    publish-push-IsRing =
        publish-IsRing (push_cmd q cmd) (ring_depth (λ (d : ℕ). 2 ≤ d) ring.two_le)
          (ring_depth (λ (d : ℕ). d ≤ 2 ^ 16) ring.fits)
          (ring_depth (λ (d : ℕ). (push_cmd q cmd).sq_tail < d) tail_ok)

    one_more_slot :
        distance q.q_depth q.last_sq_tail (next_slot q.q_depth q.sq_tail) ≡ suc (held_count q)
    unfolding push_cmd
    one_more_slot = one_more

    pub held-push : held (push_cmd q cmd) ≡ held q ++ (some cmd ∷ [])
    unfolding held push_cmd
    held-push =
        let n = held_count q in
        let cmds = update q.sq_cmds q.sq_tail (some cmd) in
        let at_tail = slot-distance q.q_depth q.last_sq_tail q.sq_tail ring.last_lt ring.tail_lt in
        rw
          (
            one_more_slot,
            window-snoc q.q_depth cmds q.last_sq_tail n ring.last_lt (omega (arith, ring.room)),
            at_tail,
            ==_refl q.sq_tail,
            window-update q.q_depth q.sq_cmds q.last_sq_tail n q.sq_tail (some cmd) ring.last_lt
                ring.tail_lt (omega (arith, ring.room)) (omega arith),
          )
          refl

    -- The test of `nvme_write_sq_db` on the pushed queue: whether one more command would fill it.
    last_room :
        (next_slot (push_cmd q cmd).q_depth (push_cmd q cmd).sq_tail
          == (push_cmd q cmd).last_sq_tail)
        ≡ (held_count q + 2 == q.q_depth)
    unfolding push_cmd
    last_room =
        last_room_of q.q_depth q.sq_tail q.last_sq_tail ring.two_le ring.fits ring.tail_lt
          ring.last_lt ring.room

    -- Whether `nvme_submit_cmd` tells the device: when asked to, or when one slot is left.
    abbrev pub tells : Bool → Bool
    tells write_sq = write_sq || (held_count q + 2 == q.q_depth)

    pub submit_tells : (w : Bool) → tells w ≡ true → submit_cmd q cmd w ≡ publish (push_cmd q cmd)
    unfolding submit_cmd write_sq_db
    submit_tells w h = rw (last_room, de_morgan w (held_count q + 2 == q.q_depth), h) refl

    pub submit_waits : (w : Bool) → tells w ≡ false → submit_cmd q cmd w ≡ push_cmd q cmd
    unfolding submit_cmd write_sq_db
    submit_waits w h = rw (last_room, de_morgan w (held_count q + 2 == q.q_depth), h) refl

    room_left : (w : Bool) → tells w ≡ false → suc (held_count q) + 2 ≤ q.q_depth
    room_left w h = ground (arith, ring.room)

    pub held-submit :
        (w : Bool) → held (submit_cmd q cmd w) ≡ (if tells w then [] else held q ++ (some cmd ∷ []))
    held-submit w = elim (Bool-cases (tells w)) [
      | inl h ↦ rw (submit_tells w h, h) (held-publish (push_cmd q cmd))
      | inr h ↦ rw (submit_waits w h, h) held-push
    ]

    pub submit-IsRing : (w : Bool) → IsRing (submit_cmd q cmd w)
    submit-IsRing w = elim (Bool-cases (tells w)) [
      | inl h ↦ subst (λ r. IsRing r) (sym (submit_tells w h)) publish-push-IsRing
      | inr h ↦ subst (λ r. IsRing r) (sym (submit_waits w h)) (push-IsRing (room_left w h))
    ]

    pub submit-Announced : (w : Bool) → Announced q → Announced (submit_cmd q cmd w)
    submit-Announced w a = elim (Bool-cases (tells w)) [
      | inl h ↦
          subst (λ r. Announced r) (sym (submit_tells w h)) (publish-Announced (push_cmd q cmd))
      | inr h ↦ subst (λ r. Announced r) (sym (submit_waits w h)) (push-Announced a)
    ]

  module _ (q : NvmeQueue C) (ring : IsRing q) where
    pub commit_idle : (q.sq_tail == q.last_sq_tail) ≡ true → commit_rqs q ≡ q
    unfolding commit_rqs
    commit_idle h = rw h refl

    pub commit_publishes : (q.sq_tail == q.last_sq_tail) ≡ false → commit_rqs q ≡ publish q
    unfolding commit_rqs write_sq_db
    commit_publishes h = rw h refl

    pub idle_none : (q.sq_tail == q.last_sq_tail) ≡ true → held q ≡ []
    unfolding held window
    idle_none h =
        let same : q.sq_tail ≡ q.last_sq_tail = (==_iff q.sq_tail q.last_sq_tail).0 h in
        rw (same, distance_self q.q_depth q.last_sq_tail) refl

    pub held-commit_rqs : held (commit_rqs q) ≡ []
    held-commit_rqs = elim (Bool-cases (q.sq_tail == q.last_sq_tail)) [
      | inl h ↦ rw (commit_idle h) (idle_none h)
      | inr h ↦ rw (commit_publishes h) (held-publish q)
    ]

    pub commit_rqs-IsRing : IsRing (commit_rqs q)
    commit_rqs-IsRing = elim (Bool-cases (q.sq_tail == q.last_sq_tail)) [
      | inl h ↦ subst (λ r. IsRing r) (sym (commit_idle h)) ring
      | inr h ↦
          subst (λ r. IsRing r) (sym (commit_publishes h))
            (publish-IsRing q ring.two_le ring.fits ring.tail_lt)
    ]

    pub commit_rqs-Announced : Announced q → Announced (commit_rqs q)
    commit_rqs-Announced a = elim (Bool-cases (q.sq_tail == q.last_sq_tail)) [
      | inl h ↦ subst (λ r. Announced r) (sym (commit_idle h)) a
      | inr h ↦ subst (λ r. Announced r) (sym (commit_publishes h)) (publish-Announced q)
    ]
