-- ===== src/NvmeQueue/Completion/Drain.antt =====
-- `nvme_process_cq` reaps the run of completions that the device posted, and ends within one turn.
use geminifs_npu_smoke.Prelude.{
  ℕ, zero, suc, ◌+◌, ◌-◌, ◌%◌, ◌^◌, ◌≤◌, ◌<◌, ◌≡◌, refl, sym, subst, inl, inr, true, false, ◌⊎◌, [],
  arith, ◌==◌, if◌then◌else◌, Bool-cases,
}
use geminifs_npu_smoke.NvmeQueue.{NvmeQueue}
use geminifs_npu_smoke.NvmeQueue.Window.{slot, slot_lt}
use geminifs_npu_smoke.NvmeQueue.Completion.{Cqe, Tags, cqe_pending, update_cq_head, drain}

module _ {C : Type 0} where
  pub record IsCq (q : NvmeQueue C) : Type 0 where
    pub fits : q.q_depth ≤ 2 ^ 16
    pub head_lt : q.cq_head < q.q_depth
    pub phase_le : q.cq_phase ≤ 1

  pub head-update :
      (q : NvmeQueue C) → IsCq q → (update_cq_head q).cq_head ≡ slot q.q_depth q.cq_head 1
  unfolding update_cq_head slot
  head-update q cq = ground (arith, cq.fits, cq.head_lt)

  pub depth-update : (q : NvmeQueue C) → (update_cq_head q).q_depth ≡ q.q_depth
  unfolding update_cq_head
  depth-update q = ground arith

  pub qid-update : (q : NvmeQueue C) → (update_cq_head q).qid ≡ q.qid
  unfolding update_cq_head
  qid-update q = ground arith

  pub phase-update :
      (q : NvmeQueue C)
      → IsCq q
      → (update_cq_head q).cq_phase
        ≡ (if suc q.cq_head == q.q_depth then 1 - q.cq_phase else q.cq_phase)
  unfolding update_cq_head
  phase-update q cq = ground (arith, cq.fits, cq.head_lt, cq.phase_le)

  module _ (q : NvmeQueue C) (cq : IsCq q) where
    head-stay : suc q.cq_head < q.q_depth → (update_cq_head q).cq_head ≡ suc q.cq_head
    unfolding update_cq_head
    head-stay inside = ground (arith, cq.fits)

    phase-stay : suc q.cq_head < q.q_depth → (update_cq_head q).cq_phase ≡ q.cq_phase
    unfolding update_cq_head
    phase-stay inside = ground (arith, cq.fits)

    head-wrap : suc q.cq_head ≡ q.q_depth → (update_cq_head q).cq_head ≡ 0
    unfolding update_cq_head
    head-wrap wraps = ground (arith, cq.fits)

    phase-wrap : suc q.cq_head ≡ q.q_depth → (update_cq_head q).cq_phase ≡ 1 - q.cq_phase
    unfolding update_cq_head
    phase-wrap wraps = ground (arith, cq.fits, cq.phase_le)

  pub update-IsCq : (q : NvmeQueue C) → IsCq q → IsCq (update_cq_head q)
  update-IsCq q cq = record {
    fits = rw (depth-update q) cq.fits;
    head_lt = rw (head-update q cq) (
        rw (depth-update q) (slot_lt q.q_depth q.cq_head 1 cq.head_lt (omega (arith, cq.head_lt))));
    phase_le = rw (phase-update q cq) (ground (arith, cq.phase_le));
  }

  module _ (tags : Tags) (cqes : ℕ → Cqe) where
    drain_idle :
        (n : ℕ) (q : NvmeQueue C) → cqe_pending cqes q ≡ false → drain tags cqes n q ≡ (q, [])
    unfolding drain
    drain_idle zero q h = refl
    drain_idle (suc n) q h = rw h refl

    -- Whether an entry has the other phase than the queue expects.
    abbrev pub Stale : NvmeQueue C → ℕ → Type 0
    Stale q i = ((cqes i).status % 2 == q.cq_phase) ≡ false

    idle_at : (q : NvmeQueue C) (s : ℕ) → q.cq_head ≡ s → Stale q s → cqe_pending cqes q ≡ false
    unfolding cqe_pending
    idle_at q s same stale = rw same stale

    pending_fresh :
        (q : NvmeQueue C)
        → cqe_pending cqes q ≡ true
        → ((cqes q.cq_head).status % 2 == q.cq_phase) ≡ true
    unfolding cqe_pending
    pending_fresh q more = more

    -- After the wrap, the loop stops at the latest where it began.
    second_turn :
        (n s : ℕ) (q : NvmeQueue C)
        → IsCq q
        → s < q.q_depth
        → q.cq_head ≤ s
        → s ≤ q.cq_head + n
        → Stale q s
        → cqe_pending cqes (drain tags cqes n q).0 ≡ false
    unfolding drain
    second_turn zero s q cq l h m stale = idle_at q s (omega arith) stale
    second_turn (suc n) s q cq l h m stale = elim (Bool-cases (cqe_pending cqes q)) [
      | inr idle ↦ rw (idle, idle) refl
      | inl more ↦ elim (Bool-cases (q.cq_head == s)) [
        | inl same ↦ absurd (ground (arith, idle_at q s (ground arith) stale))
        | inr before ↦
            let inside : suc q.cq_head < q.q_depth = ground arith in
            let at = head-stay q cq inside in
            let phase = phase-stay q cq inside in
            rw more (
              second_turn n s (update_cq_head q) (update-IsCq q cq) (rw (depth-update q) l)
                (rw at (ground arith)) (rw at (omega arith)) (rw phase stale))
      ]
    ]

    -- Before the wrap, from a start that the loop has passed or is at.
    first_turn :
        (n s : ℕ) (q : NvmeQueue C)
        → IsCq q
        → s ≤ q.cq_head
        → q.q_depth - q.cq_head + s ≤ n
        → (((cqes s).status % 2 == q.cq_phase) ≡ true) ⊎ (s ≡ q.cq_head)
        → cqe_pending cqes (drain tags cqes n q).0 ≡ false
    unfolding drain
    first_turn zero s q cq h m passed = absurd (omega (arith, cq.head_lt))
    first_turn (suc n) s q cq h m passed = elim (Bool-cases (cqe_pending cqes q)) [
      | inr idle ↦ rw (idle, idle) refl
      | inl more ↦
          let fresh : ((cqes s).status % 2 == q.cq_phase) ≡ true = elim passed [
            | inl f ↦ f
            | inr same ↦
                subst (λ (i : ℕ). ((cqes i).status % 2 == q.cq_phase) ≡ true) (sym same)
                  (pending_fresh q more)
          ] in
          elim (Bool-cases (suc q.cq_head == q.q_depth)) [
            | inr stay ↦
                let inside : suc q.cq_head < q.q_depth = ground (arith, cq.head_lt) in
                let at = head-stay q cq inside in
                rw more (
                  first_turn n s (update_cq_head q) (update-IsCq q cq) (rw at (omega arith))
                    (rw (at, depth-update q) (omega arith))
                    (inl (rw (phase-stay q cq inside) fresh)))
            | inl last ↦
                let wraps : suc q.cq_head ≡ q.q_depth = ground arith in
                let at = head-wrap q cq wraps in
                rw more (
                  second_turn n s (update_cq_head q) (update-IsCq q cq)
                    (rw (depth-update q) (omega arith)) (rw at (omega arith)) (rw at (omega arith))
                    (rw (phase-wrap q cq wraps) (ground (arith, cq.phase_le))))
          ]
    ]

    -- One turn of the ring is fuel enough: no completion is pending after it.
    pub drain_stops :
        (q : NvmeQueue C) → IsCq q → cqe_pending cqes (drain tags cqes q.q_depth q).0 ≡ false
    drain_stops q cq =
        first_turn q.q_depth q.cq_head q cq (omega arith) (omega (arith, cq.head_lt)) (inr refl)
