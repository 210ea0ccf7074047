-- ===== src/Admin.antt =====
-- pci.c: `adapter_delete_queue`, `adapter_alloc_cq_user`, `adapter_alloc_sq_user` and the two
-- deletions. A command goes to the device through the parameter `submit_sync_cmd`, and the trace
-- keeps it with the answer.
pub mod Device
pub mod Pairs
use geminifs_npu_smoke.Prelude.{ℕ, u16, sub32, List, [], ◌∷◌, ◌++◌}
use geminifs_npu_smoke.State.{
  Rc, Opcode, create_cq, create_sq, delete_cq, delete_sq, Command, Event, admin, Map, NvmeDev,
  World, Kernel,
}

-- `q_map->addrs[0]`
abbrev pub first_addr : List ℕ → ℕ
first_addr [] = 0
first_addr (a ∷ _) = a

-- `NVME_QUEUE_PHYS_CONTIG` of linux/nvme.h.
abbrev pub nvme_queue_phys_contig : ℕ
nvme_queue_phys_contig = 1

unfoldable pub submit : Kernel → World → Command → Rc × World
submit k w c =
    let rc = k.submit_sync_cmd w.trace c in (rc, record w { trace = w.trace ++ admin c rc ∷ [] })

abbrev pub delete_command : Opcode → ℕ → Command
delete_command op id = record {
  opcode = op;
  prp1 = 0;
  qid = id;
  qsize = 0;
  flags = 0;
  cqid = 0;
  irq_vector = 0;
}

abbrev pub create_cq_command : NvmeDev → Map → ℕ → Command
create_cq_command dev q_map qid = record {
  opcode = create_cq;
  prp1 = first_addr q_map.addrs;
  qid = qid;
  qsize = u16 (sub32 dev.q_depth 1);
  flags = nvme_queue_phys_contig;
  cqid = 0;
  irq_vector = 0;
}

abbrev pub create_sq_command : NvmeDev → Map → ℕ → Command
create_sq_command dev q_map qid = record {
  opcode = create_sq;
  prp1 = first_addr q_map.addrs;
  qid = qid;
  qsize = u16 (sub32 dev.q_depth 1);
  flags = nvme_queue_phys_contig;
  cqid = qid;
  irq_vector = 0;
}

unfoldable pub adapter_delete_queue : Kernel → World → Opcode → ℕ → Rc × World
unfolding submit
adapter_delete_queue k w op id = submit k w (delete_command op id)

unfoldable pub adapter_alloc_cq_user : Kernel → World → NvmeDev → Map → ℕ → Rc × World
unfolding submit
adapter_alloc_cq_user k w dev q_map qid = submit k w (create_cq_command dev q_map qid)

unfoldable pub adapter_alloc_sq_user : Kernel → World → NvmeDev → Map → ℕ → Rc × World
unfolding submit
adapter_alloc_sq_user k w dev q_map qid = submit k w (create_sq_command dev q_map qid)

unfoldable pub adapter_delete_cq : Kernel → World → ℕ → Rc × World
unfolding adapter_delete_queue
adapter_delete_cq k w cqid = adapter_delete_queue k w delete_cq cqid

unfoldable pub adapter_delete_sq : Kernel → World → ℕ → Rc × World
unfolding adapter_delete_queue
adapter_delete_sq k w sqid = adapter_delete_queue k w delete_sq sqid
