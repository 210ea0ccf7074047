-- ===== src/NvmeQueue/Fresh.antt =====
-- What a queue that `nvme_alloc_queue` and `nvme_init_queue` bring up serves.
use geminifs_npu_smoke.Prelude.{
  ℕ, ◌^◌, ◌≤◌, ◌≡◌, refl, ap, sym, ◌∙◌, inl, inr, Bool, true, false, Option, none, some, List, [],
  ◌++◌, arith, ◌==◌, ltb, Bool-cases, Option-cases,
}
use geminifs_npu_smoke.State.{ok}
use geminifs_npu_smoke.NvmeQueue.{NvmeQueue}
use geminifs_npu_smoke.NvmeQueue.Window.{window, distance_self}
use geminifs_npu_smoke.NvmeQueue.Submit.{held, IsRing, Announced}
use geminifs_npu_smoke.NvmeQueue.Feed.{Op, run}
use geminifs_npu_smoke.NvmeQueue.Fifo.{submitted, run_in_order, run-Announced}
use geminifs_npu_smoke.NvmeQueue.Completion.{Tags, cqe_pending, process_cq}
use geminifs_npu_smoke.NvmeQueue.Completion.Reap.{drain_idle}
use geminifs_npu_smoke.NvmeQueue.Init.{
  dbbuf_dma_alloc, Dbbuf, zero_cqes, dbbuf_init, alloc_queue, init_queue, point_q_db,
}

-- No doorbell was written yet: the registers are those of a controller after its reset, and the
-- shadow doorbells those of zeroed memory.
pub record IsQuiet (dbs : ℕ → ℕ) (dbbuf : Option Dbbuf) : Type 0 where
  pub registers : (i : ℕ) → dbs i ≡ 0
  pub shadows : (b : Dbbuf) → dbbuf ≡ some b → (i : ℕ) → b.dbs i ≡ 0

-- What `dma_alloc_coherent` grants to a device that had no shadow doorbells is quiet, since the
-- memory it returns is zeroed.
pub dbbuf_dma_alloc-IsQuiet :
    (dbs : ℕ → ℕ) (shadow events : Option (ℕ → ℕ))
    → ((i : ℕ) → dbs i ≡ 0)
    → ((m : ℕ → ℕ) → shadow ≡ some m → (i : ℕ) → m i ≡ 0)
    → IsQuiet dbs (dbbuf_dma_alloc shadow events none).1
unfolding dbbuf_dma_alloc
dbbuf_dma_alloc-IsQuiet dbs none events clear zeroed = record {
  registers = clear;
  shadows = λ b e i. absurd (cc e);
}
dbbuf_dma_alloc-IsQuiet dbs (some m) none clear zeroed = record {
  registers = clear;
  shadows = λ b e i. absurd (cc e);
}
dbbuf_dma_alloc-IsQuiet dbs (some m) (some n) clear zeroed = record {
  registers = clear;
  shadows = λ b e i.
      sym (ap (λ (o : Option Dbbuf). elim o [ none ↦ 0 | some c ↦ c.dbs i ]) e) ∙ zeroed m refl i;
}

module _ {C : Type 0} where
  -- The rings that `nvme_init_queue` resets.
  record Empty (q : NvmeQueue C) : Type 0 where
    tail : q.sq_tail ≡ 0
    last : q.last_sq_tail ≡ 0
    head : q.cq_head ≡ 0
    phase : q.cq_phase ≡ 1

  module _ (dbs : ℕ → ℕ) (dbbuf : Option Dbbuf) (stride online : ℕ) (q : NvmeQueue C)
      (qid : ℕ) where
    abbrev fresh : NvmeQueue C
    fresh = (init_queue dbs dbbuf stride online q qid).0

    init-Empty : Empty fresh × (fresh.q_depth ≡ q.q_depth)
    unfolding init_queue dbbuf_init point_q_db
    init-Empty = elim (Option-cases dbbuf) [
      | inl e ↦ rw e (record { tail = refl; last = refl; head = refl; phase = refl }, refl)
      | inr (b, e) ↦ elim (Bool-cases (qid == 0)) [
        | inl z ↦ rw (e, z) (record { tail = refl; last = refl; head = refl; phase = refl }, refl)
        | inr z ↦ rw (e, z) (record { tail = refl; last = refl; head = refl; phase = refl }, refl)
      ]
    ]

    cleared : (init_queue dbs dbbuf stride online q qid).1 ≡ zero_cqes
    unfolding init_queue
    cleared = refl

    init-Announced : IsQuiet dbs dbbuf → q.dbbuf_sq_db ≡ none → Announced fresh
    unfolding init_queue dbbuf_init point_q_db Announced
    init-Announced quiet no_shadow = elim (Option-cases dbbuf) [
      | inl e ↦ rw (e, no_shadow) (quiet.registers _)
      | inr (b, e) ↦ elim (Bool-cases (qid == 0)) [
        | inl z ↦ rw (e, z, no_shadow) (quiet.registers _)
        | inr z ↦ rw (e, z) (quiet.shadows b e _)
      ]
    ]

  Empty-IsRing : (q : NvmeQueue C) → Empty q → 2 ≤ q.q_depth → q.q_depth ≤ 2 ^ 16 → IsRing q
  Empty-IsRing q empty two fits = record {
    two_le = two;
    fits = fits;
    tail_lt = rw empty.tail (omega (arith, two));
    last_lt = rw empty.last (omega (arith, two));
    room = rw (empty.tail, empty.last, distance_self q.q_depth 0) two;
  }

  held-Empty : (q : NvmeQueue C) → Empty q → held q ≡ []
  unfolding held window
  held-Empty q empty = rw (empty.tail, empty.last, distance_self q.q_depth 0) refl

  process-Empty : (tags : Tags) (q : NvmeQueue C) → Empty q → process_cq tags zero_cqes q ≡ (q, [])
  unfolding process_cq cqe_pending
  process-Empty tags q empty =
      let idle : cqe_pending zero_cqes q ≡ false = rw empty.phase refl in
      rw (drain_idle tags zero_cqes q.q_depth q idle) refl

  reaps_none :
      (dbs : ℕ → ℕ) (dbbuf : Option Dbbuf) (stride online : ℕ) (q : NvmeQueue C) (qid : ℕ)
      (tags : Tags)
      → let up = init_queue dbs dbbuf stride online q qid in process_cq tags up.1 up.0 ≡ (up.0, [])
  reaps_none dbs dbbuf stride online q qid tags = rw (cleared dbs dbbuf stride online q qid) (
      process-Empty tags (fresh dbs dbbuf stride online q qid)
        (init-Empty dbs dbbuf stride online q qid).0)

  module _ (dbs : ℕ → ℕ) (stride count : ℕ) (q : NvmeQueue C) (qid depth : ℕ) where
    -- A queue that was not there before has the depth that is asked for.
    depth-alloc :
        (cq_ok sq_ok : Bool)
        → count ≤ qid
        → (alloc_queue cq_ok sq_ok dbs stride count q qid depth).0 ≡ ok
        → (alloc_queue cq_ok sq_ok dbs stride count q qid depth).2.q_depth ≡ depth
    unfolding alloc_queue point_q_db
    depth-alloc true true new got = ground arith
    depth-alloc true false new got = ground arith
    depth-alloc false sq_ok new got = ground arith

    shadow-alloc :
        (cq_ok sq_ok : Bool)
        → (alloc_queue cq_ok sq_ok dbs stride count q qid depth).2.dbbuf_sq_db ≡ q.dbbuf_sq_db
    unfolding alloc_queue point_q_db
    shadow-alloc cq_ok sq_ok = elim (Bool-cases (ltb qid count)) [
      | inl h ↦ rw h refl
      | inr h ↦ elim (Bool-cases cq_ok) [
        | inr c ↦ rw (h, c) refl
        | inl c ↦ elim (Bool-cases sq_ok) [ inl s ↦ rw (h, c, s) refl | inr s ↦ rw (h, c, s) refl ]
      ]
    ]

    -- Where a queue that was not there before is allocated with a depth that 16-bit indices reach,
    -- and is initialised while no doorbell has been written: every sequence of submissions, commits
    -- and event indices hands over or keeps exactly what was submitted, in order, the doorbell that
    -- the device reads holds the last published tail, and processing the CQ before the device has
    -- posted an entry reaps nothing and changes nothing.
    pub init_queue-Serves :
        (cq_ok sq_ok : Bool) (dbbuf : Option Dbbuf) (online : ℕ) (tags : Tags) (ops : List (Op C))
        → count ≤ qid
        → 2 ≤ depth
        → depth ≤ 2 ^ 16
        → q.dbbuf_sq_db ≡ none
        → IsQuiet dbs dbbuf
        → (alloc_queue cq_ok sq_ok dbs stride count q qid depth).0 ≡ ok
        → let made = (alloc_queue cq_ok sq_ok dbs stride count q qid depth).2 in
          let up = init_queue dbs dbbuf stride online made qid in
          ((run up.0 ops).1 ++ held (run up.0 ops).0 ≡ submitted ops)
          × Announced (run up.0 ops).0
          × (process_cq tags up.1 up.0 ≡ (up.0, []))
    init_queue-Serves cq_ok sq_ok dbbuf online tags ops new two fits no_shadow quiet got =
        let made = (alloc_queue cq_ok sq_ok dbs stride count q qid depth).2 in
        let up = init_queue dbs dbbuf stride online made qid in
        let start = init-Empty dbs dbbuf stride online made qid in
        let size = start.1 ∙ depth-alloc cq_ok sq_ok new got in
        let ring = Empty-IsRing up.0 start.0 (rw size two) (rw size fits) in
        let bell =
          init-Announced dbs dbbuf stride online made qid quiet
            (shadow-alloc cq_ok sq_ok ∙ no_shadow) in
        (
          (run_in_order up.0 ops ring bell).0 ∙ (rw (held-Empty up.0 start.0) refl),
          run-Announced up.0 ops ring bell,
          reaps_none dbs dbbuf stride online made qid tags,
        )
