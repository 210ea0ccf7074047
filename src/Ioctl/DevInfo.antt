-- ===== src/Ioctl/DevInfo.antt =====
-- pci.c, in `snvm_dev_map_ioctl`: NVM_GET_DEV_INFO. `find_ns n` is the answer of the n-th call of
-- `snvme_find_get_ns`, between which the code flushes the scan and sleeps.
pub mod Scan
use geminifs_npu_smoke.Prelude.{
  ℕ, zero, suc, ◌+◌, ◌*◌, ◌%◌, ◌^◌, Bool, true, false, not, Option, none, some, List, ltb, ◌==◌,
  if◌then◌else◌, u16,
}
use geminifs_npu_smoke.State.{
  efault, ok, Ctrl, NvmeDev, PciDev, World, Env, nvm_max_queues_per_group,
}
use geminifs_npu_smoke.Ioctl.Reply.{DevInfo, Reply, fail, dev_info}

pub record Namespace : Type 0 where
  pub disk_name : List ℕ
  pub lba_shift : ℕ

-- `while (!ns && wait_ms < 5000)`, a sleep of 50 ms and another call in each round.
unfoldable pub wait_ns : ℕ → (ℕ → Option Namespace) → ℕ → ℕ → Option Namespace
wait_ns zero find_ns calls wait_ms = none
wait_ns (suc fuel) find_ns calls wait_ms = elim (find_ns calls) [
  | some ns ↦ some ns
  | none ↦
      let rest = wait_ns fuel find_ns (calls + 1) (wait_ms + 50) in
      if ltb wait_ms 5000 then rest else none
]

-- The first call, the one after the first flush, and at most 100 rounds.
unfoldable pub scan_ns : (ℕ → Option Namespace) → Option Namespace
unfolding wait_ns
scan_ns find_ns = elim (find_ns 0) [ some ns ↦ some ns | none ↦ wait_ns 101 find_ns 1 0 ]

unfoldable pub dev_info_of : NvmeDev → PciDev → Namespace → DevInfo
dev_info_of dev pdev ns = record {
  nr_user_q = dev.nr_user_use_cq;
  start_cq_idx = (if dev.user_start_qid == 0 then dev.online_queues else dev.user_start_qid);
  dstrd = dev.db_stride % 2 ^ 8;
  max_data_size = dev.max_hw_sectors * 2 ^ 9;
  block_size = 2 ^ ns.lba_shift;
  disk_name = ns.disk_name;
  q_depth = u16 dev.q_depth;
  bar0_size = pdev.bar0_len % 2 ^ 32;
  max_user_qid = dev.ctrl_max_io_queues;
  max_queues_per_group = nvm_max_queues_per_group;
  sgl_supported = dev.sgls % 2 ^ 32;
}

-- `pci_get_drvdata(ctrl->pdev)`, whichever driver set it.
abbrev pub drvdata_of : World → Ctrl → Option NvmeDev
drvdata_of w c = elim c.pdev [ none ↦ none | some p ↦ (w.pci p).drvdata ]

abbrev pub pci_dev : World → Ctrl → PciDev
pci_dev w c = elim c.pdev [ none ↦ w.pci 0 | some p ↦ w.pci p ]

unfoldable pub get_dev_info : Env → World → Ctrl → (ℕ → Option Namespace) → Reply
unfolding scan_ns dev_info_of
get_dev_info env w c find_ns = elim (drvdata_of w c) [
  | none ↦ fail efault w
  | some dev ↦ elim (scan_ns find_ns) [
    | none ↦ fail efault w
    | some ns ↦
        if env.copy_to_user
        then record { rc = ok; world = w; out = dev_info (dev_info_of dev (pci_dev w c) ns) }
        else fail efault w
  ]
]
