-- ===== src/NvmeQueue/Init.antt =====
-- pci.c, how a queue of the driver comes up: `nvme_dbbuf_dma_alloc`, `nvme_dbbuf_init`,
-- `nvme_alloc_queue` and `nvme_init_queue`. The doorbell registers and the shadow doorbells are
-- memories of 32-bit words; what the allocator of the kernel returns is an argument.
use geminifs_npu_smoke.Prelude.{
  ℕ, ◌+◌, ◌%◌, ◌^◌, Bool, Option, none, some, ◌==◌, ltb, if◌then◌else◌,
}
use geminifs_npu_smoke.State.{Rc, ok, err, enomem}
use geminifs_npu_smoke.Doorbell.{sq_idx, cq_idx}
use geminifs_npu_smoke.NvmeQueue.{NvmeQueue}
use geminifs_npu_smoke.NvmeQueue.Completion.{Cqe}

-- `dbbuf_dbs` and `dbbuf_eis` of the device, which are set and freed together.
pub record Dbbuf : Type 0 where
  pub dbs : ℕ → ℕ
  pub eis : ℕ → ℕ

-- The first two arguments are what `dma_alloc_coherent` returns for each.
unfoldable pub dbbuf_dma_alloc : Option (ℕ → ℕ) → Option (ℕ → ℕ) → Option Dbbuf → Rc × Option Dbbuf
dbbuf_dma_alloc dbs eis (some b) = (ok, some b)
dbbuf_dma_alloc none eis none = (err enomem, none)
dbbuf_dma_alloc (some dbs) none none = (err enomem, none)
dbbuf_dma_alloc (some dbs) (some eis) none = (ok, some (record { dbs = dbs; eis = eis }))

abbrev pub zero_cqes : ℕ → Cqe
zero_cqes i = record { status = 0; command_id = 0 }

module _ {C : Type 0} where
  -- The queue's two words of each memory are its own from here on.
  unfoldable pub dbbuf_init : Option Dbbuf → ℕ → NvmeQueue C → ℕ → NvmeQueue C
  dbbuf_init none stride q qid = q
  dbbuf_init (some b) stride q qid = if qid == 0 then q else record q {
    dbbuf_sq_db = some (b.dbs (sq_idx qid stride));
    dbbuf_cq_db = some (b.dbs (cq_idx qid stride));
    dbbuf_sq_ei = b.eis (sq_idx qid stride);
    dbbuf_cq_ei = b.eis (cq_idx qid stride);
  }

  -- The registers that `q_db` points at, from the block of doorbells of the device.
  unfoldable pub point_q_db : (ℕ → ℕ) → ℕ → NvmeQueue C → ℕ → NvmeQueue C
  point_q_db dbs stride q qid = record q {
    sq_doorbell = dbs (sq_idx qid stride);
    cq_doorbell = dbs (sq_idx qid stride + stride);
  }

  -- Whether the memory of the CQ and that of the SQ are granted; `queue_count` of the controller.
  unfoldable pub alloc_queue :
      Bool → Bool → (ℕ → ℕ) → ℕ → ℕ → NvmeQueue C → ℕ → ℕ → Rc × ℕ × NvmeQueue C
  alloc_queue cq_ok sq_ok dbs stride queue_count q qid depth =
      let sized = record q { q_depth = depth } in
      if ltb qid queue_count
      then (ok, queue_count, q)
      else if cq_ok
      then if sq_ok
        then (
          ok,
          (queue_count + 1) % 2 ^ 32,
          point_q_db dbs stride
              (record sized { sq_cmds = λ i. none; cq_head = 0; cq_phase = 1; qid = qid }) qid,
        )
        else (err enomem, queue_count, sized)
      else (err enomem, queue_count, sized)

  -- The queue, the memory of its CQ and `online_queues` of the device.
  unfoldable pub init_queue :
      (ℕ → ℕ) → Option Dbbuf → ℕ → ℕ → NvmeQueue C → ℕ → NvmeQueue C × (ℕ → Cqe) × ℕ
  init_queue dbs dbbuf stride online_queues q qid =
      let reset = record q { sq_tail = 0; last_sq_tail = 0; cq_head = 0; cq_phase = 1 } in
      (
        dbbuf_init dbbuf stride (point_q_db dbs stride reset qid) qid,
        zero_cqes,
        (online_queues + 1) % 2 ^ 32,
      )
