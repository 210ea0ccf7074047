-- ===== src/IoQueues/Irqs.antt =====
-- How `nvme_setup_irqs` splits the queues among writes, reads and polling.
use geminifs_npu_smoke.Prelude.{ℕ, ◌+◌, ◌≤◌, ◌<◌, ◌≡◌, arith, ◌==◌, if◌then◌else◌}
use geminifs_npu_smoke.IoQueues.{IoDev, max, read_queues, calc_irq_sets}

pub read_queues_lt :
    (nr_write nrirqs : ℕ) → read_queues nr_write nrirqs < (if nrirqs == 0 then 1 else nrirqs)
unfolding read_queues
read_queues_lt nr_write nrirqs = ground arith

-- The queues that a vector count leaves: at least one for writes, and all of them in use.
pub calc_irq_sets_sum :
    (dev : IoDev) (nrirqs : ℕ)
    → let sets = calc_irq_sets dev nrirqs in
      (sets.io_default + sets.io_read ≡ max nrirqs 1) × (1 ≤ sets.io_default)
unfolding calc_irq_sets
calc_irq_sets_sum dev nrirqs =
    let l = read_queues_lt dev.nr_write_queues nrirqs in (ground (arith, l), ground (arith, l))
