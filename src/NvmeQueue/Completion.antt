-- ===== src/NvmeQueue/Completion.antt =====
-- pci.c and nvme.h, the completion side of `struct nvme_queue`: `nvme_cqe_pending`,
-- `nvme_handle_cqe`, `nvme_update_cq_head`, `nvme_process_cq` and its callers `nvme_irq`,
-- `nvme_irq_check` and `nvme_poll`. One call reads the CQ's memory as a function `cqes` of the slot;
-- the block layer's tags (`blk_mq_tag_to_rq`) are a parameter.
pub mod Drain
pub mod Reap
pub mod Process
use geminifs_npu_smoke.Prelude.{
  ℕ, zero, suc, ◌+◌, ◌-◌, ◌/◌, ◌%◌, ◌^◌, Bool, true, false, ◌&&◌, Option, none, some, List, [], ◌∷◌,
  ◌==◌, leb, if◌then◌else◌, length, u16,
}
use geminifs_npu_smoke.NvmeQueue.{NvmeQueue, dbbuf_update_and_check_event}

pub record Cqe : Type 0 where
  pub status : ℕ
  pub command_id : ℕ

-- A block-layer request, by name, with the generation that its command identifier carries.
pub record Request : Type 0 where
  pub name : ℕ
  pub genctr : ℕ

-- What a completion comes to.
pub data Handled : Type 0 where
  async_event : ℕ → Handled
  invalid_id : ℕ → Handled
  -- The request, with the status it is given.
  completed : ℕ → ℕ → Handled

-- `blk_mq_tag_to_rq` on the queue's tags, and the constant NVME_AQ_BLK_MQ_DEPTH of the kernel.
pub record Tags : Type 0 where
  pub tag_to_rq : ℕ → Option Request
  pub aq_blk_mq_depth : ℕ

abbrev pub genctr_from_cid : ℕ → ℕ
genctr_from_cid cid = cid / 2 ^ 12 % 2 ^ 4

abbrev pub tag_from_cid : ℕ → ℕ
tag_from_cid cid = cid % 2 ^ 12

unfoldable pub is_aen_req : Tags → ℕ → ℕ → Bool
is_aen_req tags qid command_id = qid == 0 && leb tags.aq_blk_mq_depth (tag_from_cid command_id)

unfoldable pub find_rq : Tags → ℕ → Option Request
find_rq tags command_id = elim (tags.tag_to_rq (tag_from_cid command_id)) [
  | none ↦ none
  | some rq ↦ if rq.genctr % 2 ^ 4 == genctr_from_cid command_id then some rq else none
]

unfoldable pub handle_cqe : Tags → ℕ → Cqe → Handled
handle_cqe tags qid cqe =
    if is_aen_req tags qid cqe.command_id
    then async_event cqe.status
    else elim (find_rq tags cqe.command_id) [
      | none ↦ invalid_id cqe.command_id
      | some rq ↦ completed rq.name (cqe.status / 2)
    ]

-- `cq_phase ^= 1`
abbrev pub flip : ℕ → ℕ
flip phase = if phase % 2 == 0 then phase + 1 else phase - 1

module _ {C : Type 0} where
  unfoldable pub cqe_pending : (ℕ → Cqe) → NvmeQueue C → Bool
  cqe_pending cqes q = (cqes q.cq_head).status % 2 == q.cq_phase

  unfoldable pub update_cq_head : NvmeQueue C → NvmeQueue C
  update_cq_head q =
      let tmp = (q.cq_head + 1) % 2 ^ 32 in
      if tmp == q.q_depth
      then record q { cq_head = 0; cq_phase = flip q.cq_phase }
      else record q { cq_head = u16 tmp }

  unfoldable pub ring_cq_doorbell : NvmeQueue C → NvmeQueue C
  ring_cq_doorbell q =
      let checked = dbbuf_update_and_check_event q.cq_head q.dbbuf_cq_db q.dbbuf_cq_ei in
      record q {
        dbbuf_cq_db = checked.1;
        cq_doorbell = if checked.0 then q.cq_head else q.cq_doorbell;
      }

  -- The loop, on fuel: the queue, and what the completions came to.
  unfoldable pub drain : Tags → (ℕ → Cqe) → ℕ → NvmeQueue C → NvmeQueue C × List Handled
  drain tags cqes zero q = (q, [])
  drain tags cqes (suc fuel) q =
      let rest = drain tags cqes fuel (update_cq_head q) in
      if cqe_pending cqes q
      then (rest.0, handle_cqe tags q.qid (cqes q.cq_head) ∷ rest.1)
      else (q, [])

  -- One turn of the ring is fuel enough.
  unfoldable pub process_cq : Tags → (ℕ → Cqe) → NvmeQueue C → NvmeQueue C × List Handled
  process_cq tags cqes q =
      let drained = drain tags cqes q.q_depth q in
      if length drained.1 == 0 then drained else (ring_cq_doorbell drained.0, drained.1)

  -- Whether the interrupt was this queue's.
  unfoldable pub irq : Tags → (ℕ → Cqe) → NvmeQueue C → Bool × NvmeQueue C
  irq tags cqes q =
      let done = process_cq tags cqes q in (if length done.1 == 0 then false else true, done.0)

  unfoldable pub poll : Tags → (ℕ → Cqe) → NvmeQueue C → Bool × NvmeQueue C
  poll tags cqes q =
      let done = process_cq tags cqes q in
      if cqe_pending cqes q
      then (if length done.1 == 0 then false else true, done.0)
      else (false, q)
