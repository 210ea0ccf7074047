-- ===== src/IoQueues/Setup.antt =====
-- Where the setup of the I/O queues settles.
use geminifs_npu_smoke.Prelude.{ℕ, ◌+◌, ◌≤◌, ◌≡◌, Bool, ◌||◌, some, ◌==◌}
use geminifs_npu_smoke.State.{Rc, failed, Kernel}
use geminifs_npu_smoke.IoQueues.{
  IoDev, SetupEnv, one_interrupt, bar_size, Negotiated, negotiate, Settled, stopped, settled,
}
use geminifs_npu_smoke.IoQueues.Negotiate.{Shared}

-- The documented behaviour of `pci_alloc_irq_vectors_affinity`: no more vectors than asked for.
abbrev pub GivesAtMost : SetupEnv → Type 0
GivesAtMost env = (n v : ℕ) → env.alloc_irq_vectors n ≡ some v → v ≤ n

-- The interrupts fit the queues.
pub record Vectored (dev : IoDev) (nr : ℕ) (r : IoDev) : Type 0 where
  pub max_qid_le : r.max_qid ≤ nr
  pub all_used : r.io_default + r.io_read + r.io_poll ≡ r.max_qid
  pub writes : 1 ≤ r.io_default
  pub bar : r.bar_mapped_size ≡ dev.bar_mapped_size
  pub stride : r.db_stride ≡ dev.db_stride
  pub grant : r.ctrl_max_io_queues ≡ dev.ctrl_max_io_queues
  pub split : r.use_user_allocated ≡ dev.use_user_allocated
  pub user : r.nr_user_use_cq ≡ dev.nr_user_use_cq

-- How the part from the interrupts on ends.
data Ended (dev : IoDev) (nr : ℕ) (s : Settled) : Type 0 where
  gave_up : (rc : Rc) (d : IoDev) → s ≡ stopped rc d → Ended dev nr s
  vectored : (r : IoDev) → s ≡ settled r nr → Vectored dev nr r → Ended dev nr s

module _ (env : SetupEnv) (gives : GivesAtMost env) (dev : IoDev) (nr : ℕ) where
  abbrev start : IoDev
  start = one_interrupt dev nr

-- Where the setup of the I/O queues ends: early, or with the queues of the kernel numbered from 1
-- to `max_qid`, all of them in use and at least one for writes, within the kernel's share of the
-- grant, and with the doorbells of that share mapped.
pub data Laid (k : Kernel) (dev : IoDev) (n : Negotiated) (s : Settled) : Type 0 where
  early : (rc : Rc) (d : IoDev) → s ≡ stopped rc d → Laid k dev n s
  laid :
      (r : IoDev) (nr : ℕ)
      → s ≡ settled r nr
      → Shared dev n
      → nr ≤ n.nr
      → r.max_qid ≤ nr
      → r.io_default + r.io_read + r.io_poll ≡ r.max_qid
      → 1 ≤ r.io_default
      → bar_size k r nr ≤ r.bar_mapped_size
      → r.ctrl_max_io_queues ≡ n.dev.ctrl_max_io_queues
      → Laid k dev n s

module _ (k : Kernel) (env : SetupEnv) (gives : GivesAtMost env) (dev : IoDev) where
  abbrev ends : Bool
  ends = failed (negotiate env dev).rc || (negotiate env dev).nr == 0
