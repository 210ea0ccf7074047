-- ===== src/Doorbell/Offsets.antt =====
-- The doorbell offsets that NVM_ADD_USER_QUEUE reports, against the layout of the registers.
use geminifs_npu_smoke.Prelude.{ℕ, ◌+◌, ◌*◌, ◌^◌, ◌≤◌, ◌<◌, arith}
use geminifs_npu_smoke.State.{NvmeDev, Kernel}
use geminifs_npu_smoke.Ioctl.AddQueue.{pair_out}

module _ (k : Kernel) (dev : NvmeDev) (nr : ℕ) where
  module _ (fits : k.reg_dbs + (nr + 1) * 8 * dev.db_stride < 2 ^ 32) where
    -- If the doorbell range for `nr` queues is within 32 bits, the SQ doorbell of a QID up to `nr`
    -- lies at least one stride of 4-byte registers above the CQ doorbell of each lower QID.
    pub pair_out-Apart :
        (p q : ℕ)
        → p < q
        → q ≤ nr
        → (pair_out k dev p).cq_doorbell_offset + 4 * dev.db_stride
          ≤ (pair_out k dev q).sq_doorbell_offset
    pair_out-Apart p q l m = grind arith
