-- ===== src/NvmeQueue/Completion/Process.antt =====
-- `nvme_process_cq` as a whole, and its callers.
use geminifs_npu_smoke.Prelude.{
  ℕ, ◌≡◌, refl, sym, subst, ◌∙◌, inl, inr, true, false, none, some, List, [], arith, ◌==◌, length,
  Bool-cases, Option-cases,
}
use geminifs_npu_smoke.NvmeQueue.{NvmeQueue, dbbuf_update_and_check_event}
use geminifs_npu_smoke.NvmeQueue.Completion.{
  Cqe, Handled, Tags, cqe_pending, ring_cq_doorbell, drain, process_cq, irq, poll,
}
use geminifs_npu_smoke.NvmeQueue.Completion.Drain.{IsCq, drain_stops}
use geminifs_npu_smoke.NvmeQueue.Completion.Reap.{Reaped, drain-Reaped, drain_nothing, drain_idle}

module _ {C : Type 0} where
  -- The doorbell that the device reads holds the head.
  unfoldable pub HeadAnnounced : NvmeQueue C → Type 0
  HeadAnnounced q = elim q.dbbuf_cq_db [ none ↦ q.cq_doorbell ≡ q.cq_head | some v ↦ v ≡ q.cq_head ]

  module _ (tags : Tags) (cqes : ℕ → Cqe) where
    ring-Reaped :
        (q : NvmeQueue C) (r : NvmeQueue C × List Handled)
        → Reaped tags cqes q r
        → Reaped tags cqes q (ring_cq_doorbell r.0, r.1)
    unfolding ring_cq_doorbell
    ring-Reaped q r reaped = record {
      handled = reaped.handled;
      posted = reaped.posted;
      head = reaped.head;
      phase = reaped.phase;
      turn = reaped.turn;
    }

    ring_pending : (q : NvmeQueue C) → cqe_pending cqes (ring_cq_doorbell q) ≡ cqe_pending cqes q
    unfolding ring_cq_doorbell cqe_pending
    ring_pending q = refl

    ring-HeadAnnounced : (q : NvmeQueue C) → HeadAnnounced (ring_cq_doorbell q)
    unfolding ring_cq_doorbell HeadAnnounced dbbuf_update_and_check_event
    ring-HeadAnnounced q = elim (Option-cases q.dbbuf_cq_db) [
      | inl e ↦ rw e refl
      | inr (v, e) ↦ rw e refl
    ]

    module _ (q : NvmeQueue C) where
      nothing_eq :
          (length (drain tags cqes q.q_depth q).1 == 0) ≡ true → process_cq tags cqes q ≡ (q, [])
      unfolding process_cq
      nothing_eq none_found = rw none_found (drain_nothing tags cqes q.q_depth q none_found)

      found_eq :
          (length (drain tags cqes q.q_depth q).1 == 0) ≡ false
          → process_cq tags cqes q
            ≡ (ring_cq_doorbell (drain tags cqes q.q_depth q).0, (drain tags cqes q.q_depth q).1)
      unfolding process_cq
      found_eq some_found = rw some_found refl

      -- From a CQ whose head is in bounds and whose doorbell holds the head, `nvme_process_cq`
      -- handles the entries from the head on in their order, each with the phase that was due, and
      -- at most one turn of the ring; the entry after them has not the phase that is due, the head
      -- and the phase stand past those handled, and the doorbell holds the head.
      pub process_cq-Reaps :
          IsCq q
          → HeadAnnounced q
          → let r = process_cq tags cqes q in
            Reaped tags cqes q r × (cqe_pending cqes r.0 ≡ false) × HeadAnnounced r.0
      process_cq-Reaps cq announced =
          let drained = drain tags cqes q.q_depth q in
          let reaped = (drain-Reaped tags cqes q.q_depth q cq (omega arith)).0 in
          let stops = drain_stops tags cqes q cq in
          elim (Bool-cases (length drained.1 == 0)) [
            | inl none_found ↦
                let same = drain_nothing tags cqes q.q_depth q none_found in
                subst
                  (λ r. Reaped tags cqes q r × (cqe_pending cqes r.0 ≡ false) × HeadAnnounced r.0)
                  (sym (nothing_eq none_found))
                  (
                    subst (λ r. Reaped tags cqes q r) same reaped,
                    subst (λ (r : NvmeQueue C × List Handled). cqe_pending cqes r.0 ≡ false) same
                        stops,
                    announced,
                  )
            | inr some_found ↦
                subst
                  (λ r. Reaped tags cqes q r × (cqe_pending cqes r.0 ≡ false) × HeadAnnounced r.0)
                  (sym (found_eq some_found))
                  (
                    ring-Reaped q drained reaped,
                    ring_pending drained.0 ∙ stops,
                    ring-HeadAnnounced drained.0,
                  )
          ]

      -- Polling a queue does what its interrupt handler does, for every content of the CQ's memory.
      pub poll-irq : poll tags cqes q ≡ irq tags cqes q
      unfolding poll irq process_cq
      poll-irq = elim (Bool-cases (cqe_pending cqes q)) [
        | inl more ↦ rw more refl
        | inr idle ↦ rw (drain_idle tags cqes q.q_depth q idle, idle) refl
      ]
