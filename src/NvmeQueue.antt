-- ===== src/NvmeQueue.antt =====
-- pci.c, the rings of `struct nvme_queue`: the SQ tail and its doorbell, `nvme_submit_cmd` and
-- `nvme_commit_rqs`, and the shadow doorbells of `nvme_dbbuf_update_and_check_event`. The commands
-- are of any type `C`; a slot that was never written holds none. The CQ's side is Completion.
pub mod Notify
pub mod Window
pub mod Submit
pub mod Feed
pub mod Fifo
pub mod Completion
pub mod Init
pub mod Fresh
use geminifs_npu_smoke.Prelude.{
  ℕ, ◌+◌, ◌-◌, ◌%◌, ◌^◌, Bool, true, false, not, ◌&&◌, Option, none, some, List, [], ◌∷◌, ◌==◌, ltb,
  if◌then◌else◌, update, u16,
}

pub record NvmeQueue (C : Type 0) : Type 0 where
  pub qid : ℕ
  pub q_depth : ℕ
  pub sq_tail : ℕ
  pub last_sq_tail : ℕ
  pub cq_head : ℕ
  pub cq_phase : ℕ
  pub sq_cmds : ℕ → Option C
  -- The doorbell registers at `q_db` and `q_db + db_stride`.
  pub sq_doorbell : ℕ
  pub cq_doorbell : ℕ
  -- The shadow doorbells, none for a NULL pointer, and the event indices that the device writes.
  pub dbbuf_sq_db : Option ℕ
  pub dbbuf_cq_db : Option ℕ
  pub dbbuf_sq_ei : ℕ
  pub dbbuf_cq_ei : ℕ

-- The arguments are `u16`; the difference is an `int` that is cut to `u16`.
unfoldable pub dbbuf_need_event : ℕ → ℕ → ℕ → Bool
dbbuf_need_event event_idx new_idx old =
    ltb ((new_idx + 2 ^ 32 - event_idx - 1) % 2 ^ 16) ((new_idx + 2 ^ 32 - old) % 2 ^ 16)

-- Whether an MMIO is required, and the shadow doorbell after it.
unfoldable pub dbbuf_update_and_check_event : ℕ → Option ℕ → ℕ → Bool × Option ℕ
dbbuf_update_and_check_event value none ei = (true, none)
dbbuf_update_and_check_event value (some old) ei =
    (dbbuf_need_event (u16 ei) value (u16 old), some value)

-- The next slot of a ring, in a `u16`.
unfoldable pub next_slot : ℕ → ℕ → ℕ
next_slot depth i = if u16 (i + 1) == depth then 0 else u16 (i + 1)

module _ {C : Type 0} where
  -- The part that writes the doorbell.
  unfoldable pub publish : NvmeQueue C → NvmeQueue C
  publish q =
      let checked = dbbuf_update_and_check_event q.sq_tail q.dbbuf_sq_db q.dbbuf_sq_ei in
      record q {
        dbbuf_sq_db = checked.1;
        sq_doorbell = if checked.0 then q.sq_tail else q.sq_doorbell;
        last_sq_tail = q.sq_tail;
      }

  unfoldable pub write_sq_db : NvmeQueue C → Bool → NvmeQueue C
  write_sq_db q write_sq =
      if not write_sq && not (next_slot q.q_depth q.sq_tail == q.last_sq_tail) then q else publish q

  -- The command in its slot and the tail past it.
  unfoldable pub push_cmd : NvmeQueue C → C → NvmeQueue C
  push_cmd q cmd = record q {
    sq_cmds = update q.sq_cmds q.sq_tail (some cmd);
    sq_tail = next_slot q.q_depth q.sq_tail;
  }

  unfoldable pub submit_cmd : NvmeQueue C → C → Bool → NvmeQueue C
  submit_cmd q cmd write_sq = write_sq_db (push_cmd q cmd) write_sq

  unfoldable pub commit_rqs : NvmeQueue C → NvmeQueue C
  commit_rqs q = if q.sq_tail == q.last_sq_tail then q else write_sq_db q true
