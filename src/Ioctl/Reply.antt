-- ===== src/Ioctl/Reply.antt =====
-- What a system call gives back: its return value, the state after it, and what it copied out.
use geminifs_npu_smoke.Prelude.{ℕ, List}
use geminifs_npu_smoke.State.{Errno, Rc, ok, err, World}

-- `struct nvm_ioctl_dev`, less its reserved fields.
pub record DevInfo : Type 0 where
  pub nr_user_q : ℕ
  pub start_cq_idx : ℕ
  pub dstrd : ℕ
  pub max_data_size : ℕ
  pub block_size : ℕ
  pub disk_name : List ℕ
  pub q_depth : ℕ
  pub bar0_size : ℕ
  pub max_user_qid : ℕ
  pub max_queues_per_group : ℕ
  pub sgl_supported : ℕ

-- `struct nvm_user_queue_pair_out`
pub record PairOut : Type 0 where
  pub sq_doorbell_offset : ℕ
  pub cq_doorbell_offset : ℕ
  pub qid : ℕ

pub data Out : Type 0 where
  nothing : Out
  addresses : List ℕ → Out
  dev_info : DevInfo → Out
  group_made : ℕ → ℕ → Out
  pairs_made : List PairOut → Out

pub record Reply : Type 0 where
  pub rc : Rc
  pub world : World
  pub out : Out

abbrev pub fail : Errno → World → Reply
fail e w = record { rc = err e; world = w; out = nothing }

abbrev pub done : World → Reply
done w = record { rc = ok; world = w; out = nothing }
