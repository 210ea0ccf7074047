-- ===== src/Tests/Setups.antt =====
-- Witnesses for the setup of the I/O queues.
use geminifs_npu_smoke.Prelude.{
  ℕ, ◌+◌, ◌*◌, refl, true, false, Option, none, some, [], leb, ◌==◌, if◌then◌else◌, pos,
}
use geminifs_npu_smoke.State.{Map, NvmeDev, World}
use geminifs_npu_smoke.Admin.Device.{no_queues, lawful, after}
use geminifs_npu_smoke.Admin.Pairs.{Extends}
use geminifs_npu_smoke.IoQueues.{IoDev, SetupEnv, result_word}
use geminifs_npu_smoke.IoQueues.UserQueues.{ProbeEnv, create_io_queues_mix}
use geminifs_npu_smoke.IoQueues.UserQueues.Rounds.{Ran, create_io_queues_mix-Ran}
use geminifs_npu_smoke.Tests.{
  kernel_refusing, kernel_deletes, ctrl0, ring, dev0, owner_of, world_of,
}

-- A controller that grants four queues, of which the kernel may take two.
abbrev io_dev : IoDev
io_dev = record {
  nr_allocated_queues = 6;
  ctrl_max_io_queues = 0;
  cap_kernel_ioq = 2;
  nr_write_queues = 0;
  nr_poll_queues = 1;
  use_user_allocated = false;
  nr_user_allocated_cq = 0;
  nr_user_use_cq = 0;
  db_stride = 1;
  bar_mapped_size = 4096;
  io_default = 0;
  io_read = 0;
  io_poll = 0;
  num_vecs = 0;
  max_qid = 0;
  single_vector = false;
}

abbrev setup_env : SetupEnv
setup_env = record {
  write_queues = 0;
  poll_queues = 0;
  set_features = λ n. result_word (3 * 65536 + 3);
  locked = true;
  connecting = true;
  bar_len = 16384;
  ioremap = λ size. true;
  alloc_irq_vectors = λ n. if leb 2 n then some 2 else none;
}

-- One pair of rings, registered under the index 0.
abbrev probe_heap : ℕ → Option Map
probe_heap p =
    if p == 11
    then some (record (ring 65536 2) { pdev = 1; ioq_idx = pos 0; is_cq = pos 1 })
    else if p == 12
    then some (record (ring 131072 1) { pdev = 1; ioq_idx = pos 0; is_cq = pos 0 })
    else none

abbrev probe_world : World
probe_world = record (world_of ctrl0 (owner_of [] 0)) { heap = probe_heap; trace = [] }

abbrev probe_env : ProbeEnv
probe_env = record { pdev = 1; queue_on_host = true; is_negative = λ e. false; trylock = λ i. true }

abbrev probe_dev : NvmeDev
probe_dev = record dev0 { online_queues = 2; nr_user_use_cq = 1 }

probe_world-Extends : Extends no_queues probe_world []
unfolding lawful after
probe_world-Extends = record { is_lawful = refl; sqs = λ q. refl; cqs = λ q. refl }

create_io_queues_mix-Ran_example :
    Ran probe_env no_queues 2 0 1
      (create_io_queues_mix (kernel_refusing 9) probe_env probe_dev 1 probe_world 0)
create_io_queues_mix-Ran_example =
    create_io_queues_mix-Ran (kernel_refusing 9) (kernel_deletes 9) probe_env probe_dev no_queues 1
      0 probe_world probe_world-Extends (λ i l. (refl, refl))
