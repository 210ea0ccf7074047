-- ===== src/Doorbell.antt =====
-- pci.c: `sq_idx`, `cq_idx` and `db_bar_size`, the layout of the doorbell registers in BAR0.
pub mod Offsets
use geminifs_npu_smoke.Prelude.{ℕ, ◌+◌, ◌*◌, ◌%◌, ◌^◌}
use geminifs_npu_smoke.State.{NvmeDev, Kernel}

-- `unsigned int` and `u32` wrap.
unfoldable pub sq_idx : ℕ → ℕ → ℕ
sq_idx qid stride = qid * 2 * stride % 2 ^ 32

unfoldable pub cq_idx : ℕ → ℕ → ℕ
cq_idx qid stride = (qid * 2 + 1) * stride % 2 ^ 32

-- The sum is an `unsigned int` in the code.
unfoldable pub db_bar_size : Kernel → NvmeDev → ℕ → ℕ
db_bar_size k dev nr_io_queues = (k.reg_dbs + (nr_io_queues + 1) * 8 * dev.db_stride) % 2 ^ 32
