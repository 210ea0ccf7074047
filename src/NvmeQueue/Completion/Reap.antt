-- ===== src/NvmeQueue/Completion/Reap.antt =====
-- What `nvme_process_cq` reaps: the longest run of completions with the phases that are due.
use geminifs_npu_smoke.Prelude.{
  ℕ, zero, suc, ◌+◌, ◌-◌, ◌%◌, ◌≤◌, ◌<◌, ◌≡◌, refl, ap, sym, subst, ◌∙◌, inl, inr, true, false,
  List, [], ◌∷◌, map, arith, ◌==◌, leb, if◌then◌else◌, length, Bool-cases,
}
use geminifs_npu_smoke.NvmeQueue.{NvmeQueue}
use geminifs_npu_smoke.NvmeQueue.Window.{slot, window, slot-slot, slot_zero}
use geminifs_npu_smoke.NvmeQueue.Completion.{
  Cqe, Handled, Tags, handle_cqe, cqe_pending, update_cq_head, drain,
}
use geminifs_npu_smoke.NvmeQueue.Completion.Drain.{
  IsCq, head-update, depth-update, qid-update, phase-update, update-IsCq,
}

phase_step :
    (d h p n : ℕ)
    → h < d
    → p ≤ 1
    → suc n ≤ d
    → let p' = if suc h == d then 1 - p else p in
      (if leb d (slot d h 1 + n) then 1 - p' else p') ≡ (if leb d (h + suc n) then 1 - p else p)
unfolding slot
phase_step d h p n l m room = ground arith

module _ {C : Type 0} where
  -- The phase that is due `n` places after the head.
  abbrev pub phase_at : NvmeQueue C → ℕ → ℕ
  phase_at q n = if leb q.q_depth (q.cq_head + n) then 1 - q.cq_phase else q.cq_phase

  phase_at-update :
      (q : NvmeQueue C) (n : ℕ)
      → IsCq q
      → suc n ≤ q.q_depth
      → phase_at (update_cq_head q) n ≡ phase_at q (suc n)
  phase_at-update q n cq h =
      rw (head-update q cq, depth-update q, phase-update q cq)
        (phase_step q.q_depth q.cq_head q.cq_phase n cq.head_lt cq.phase_le h)

  module _ (tags : Tags) (cqes : ℕ → Cqe) where
    -- Whether the entry `i` places after the head has the phase that is due there.
    pub Posted : NvmeQueue C → ℕ → Type 0
    Posted q i = ((cqes (slot q.q_depth q.cq_head i)).status % 2 == phase_at q i) ≡ true

    -- The completions that were handled are the entries from the head on, in order, each posted;
    -- head and phase stand past them.
    pub record Reaped (q : NvmeQueue C) (r : NvmeQueue C × List Handled) : Type 0 where
      pub handled :
          r.1
          ≡ map
              (λ (e : Cqe). handle_cqe tags q.qid e)
              (window cqes q.q_depth q.cq_head (length r.1))
      pub posted : (i : ℕ) → i < length r.1 → Posted q i
      pub head : r.0.cq_head ≡ slot q.q_depth q.cq_head (length r.1)
      pub phase : r.0.cq_phase ≡ phase_at q (length r.1)
      pub turn : length r.1 ≤ q.q_depth

    drain_none-Reaped : (q : NvmeQueue C) → IsCq q → Reaped q (q, [])
    unfolding window
    drain_none-Reaped q cq = record {
      handled = refl;
      posted = λ i l. absurd (omega arith);
      head = sym (slot_zero q.q_depth q.cq_head cq.head_lt);
      phase = ground (arith, cq.head_lt);
      turn = omega arith;
    }

    posted_cons :
        (q : NvmeQueue C) (n : ℕ)
        → IsCq q
        → cqe_pending cqes q ≡ true
        → n < q.q_depth
        → ((i : ℕ) → i < n → Posted (update_cq_head q) i)
        → (i : ℕ) → i < suc n
        → Posted q i
    unfolding Posted cqe_pending
    posted_cons q n cq more room rest zero l =
        rw (slot_zero q.q_depth q.cq_head cq.head_lt) (ground (arith, more, cq.head_lt))
    posted_cons q n cq more room rest (suc i) l =
        let here = rest i (omega arith) in
        let same : slot (update_cq_head q).q_depth (update_cq_head q).cq_head i
            ≡ slot q.q_depth q.cq_head (suc i) =
          rw (head-update q cq, depth-update q)
            (slot-slot q.q_depth q.cq_head i cq.head_lt (omega arith)) in
        rw (sym same, sym (phase_at-update q i cq (omega arith))) here

    drain_more-Reaped :
        (q : NvmeQueue C) (r : NvmeQueue C × List Handled)
        → IsCq q
        → cqe_pending cqes q ≡ true
        → suc (length r.1) ≤ q.q_depth
        → Reaped (update_cq_head q) r
        → Reaped q (r.0, handle_cqe tags q.qid (cqes q.cq_head) ∷ r.1)
    unfolding window
    drain_more-Reaped q r cq more room rest = record {
      handled =
          ap (λ (hs : List Handled). handle_cqe tags q.qid (cqes q.cq_head) ∷ hs)
            (rest.handled ∙ (rw (qid-update q, depth-update q, head-update q cq) refl));
      posted = posted_cons q (length r.1) cq more room rest.posted;
      head =
          rest.head
          ∙ (rw (head-update q cq, depth-update q)
              (slot-slot q.q_depth q.cq_head (length r.1) cq.head_lt room));
      phase = rest.phase ∙ phase_at-update q (length r.1) cq room;
      turn = room;
    }

    pub drain_idle :
        (n : ℕ) (q : NvmeQueue C) → cqe_pending cqes q ≡ false → drain tags cqes n q ≡ (q, [])
    unfolding drain
    drain_idle zero q idle = refl
    drain_idle (suc n) q idle = rw idle refl

    pub drain_step :
        (n : ℕ) (q : NvmeQueue C)
        → cqe_pending cqes q ≡ true
        → drain tags cqes (suc n) q ≡ (
          (drain tags cqes n (update_cq_head q)).0,
          handle_cqe tags q.qid (cqes q.cq_head) ∷ (drain tags cqes n (update_cq_head q)).1,
        )
    unfolding drain
    drain_step n q more = rw more refl

    pub drain-Reaped :
        (n : ℕ) (q : NvmeQueue C)
        → IsCq q
        → n ≤ q.q_depth
        → Reaped q (drain tags cqes n q) × (length (drain tags cqes n q).1 ≤ n)
    unfolding drain
    drain-Reaped zero q cq room = (drain_none-Reaped q cq, omega arith)
    drain-Reaped (suc n) q cq room = elim (Bool-cases (cqe_pending cqes q)) [
      | inr idle ↦ (
        subst (λ r. Reaped q r) (sym (drain_idle (suc n) q idle)) (drain_none-Reaped q cq),
        rw idle (omega arith),
      )
      | inl more ↦
          let q' = update_cq_head q in
          let rest = drain-Reaped n q' (update-IsCq q cq) (rw (depth-update q) (omega arith)) in
          (
            subst (λ r. Reaped q r) (sym (drain_step n q more))
                (drain_more-Reaped q (drain tags cqes n q') cq more (omega (arith, rest.1)) rest.0),
            rw more (omega (arith, rest.1)),
          )
    ]

    pub drain_nothing :
        (n : ℕ) (q : NvmeQueue C)
        → (length (drain tags cqes n q).1 == 0) ≡ true
        → drain tags cqes n q ≡ (q, [])
    unfolding drain
    drain_nothing zero q h = refl
    drain_nothing (suc n) q h = elim (Bool-cases (cqe_pending cqes q)) [
      | inr idle ↦ rw idle refl
      | inl more ↦ absurd (ground (arith, drain_step n q more))
    ]
