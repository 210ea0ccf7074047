-- ===== src/Tests/Transfers.antt =====
-- Witnesses for the data pointers of a request.
use geminifs_npu_smoke.Prelude.{
  ℕ, ◌+◌, ◌*◌, ◌≡◌, inr, refl, Option, none, some, List, [], ◌∷◌, arith, negsuc, true, false,
}
use geminifs_npu_smoke.Scatter.{Segment}
use geminifs_npu_smoke.Transfer.{
  Pools, Iod, sts_ok, setup_prps, skip_first, setup_rest, setup_list, fill, turn_page, next_cursor,
  settle_fill, free_prps,
}
use geminifs_npu_smoke.Transfer.Device.{prp_entries, walk}
use geminifs_npu_smoke.Transfer.Lists.{IsPagePool}
use geminifs_npu_smoke.Transfer.Start.{IsSmallPool}
use geminifs_npu_smoke.Transfer.Prps.{PrpOutcome, setup_prps-Carries}
use geminifs_npu_smoke.Transfer.Sgl.{data_desc, setup_sgls}
use geminifs_npu_smoke.Transfer.Sgl.Reads.{SglOutcome, setup_sgls-Carries}
use geminifs_npu_smoke.Transfer.Data.{Rq, DataState, no_dptr, map_data}
use geminifs_npu_smoke.Transfer.Data.Balance.{IsMappable, Balances, map_data-Balances}
use geminifs_npu_smoke.Transfer.Request.{RqEnv, RqState, queue_rq}
use geminifs_npu_smoke.Transfer.Request.Life.{Lives, queue_rq-Lives}

abbrev pools : Pools
pools = record {
  prp_small_pool = λ k. some (0x800000 + 256 * k);
  prp_page_pool = λ k. some (0x900000 + 4096 * k);
}

some_inj : (a b : ℕ) → (let o : Option ℕ = some a in o) ≡ some b → a ≡ b
some_inj a b e = cc e

small-IsSmallPool : IsSmallPool pools.prp_small_pool
small-IsSmallPool = record { aligned = λ k d e. omega (arith, some_inj (0x800000 + 256 * k) d e) }

page-IsPagePool : IsPagePool pools.prp_page_pool
page-IsPagePool = record {
  aligned = λ k d e. omega (arith, some_inj (0x900000 + 4096 * k) d e);
  apart = λ j k d e f.
      omega (arith, some_inj (0x900000 + 4096 * j) d e, some_inj (0x900000 + 4096 * k) d f);
}

-- It starts within a page, and its payload of 2104 KiB needs 525 entries after PRP1.
abbrev head : Segment
head = record { addr = 0x100800; len = 2048 }

abbrev tail : List Segment
tail = record { addr = 0x200000; len = 8192 } ∷ record { addr = 0x400000; len = 2144256 } ∷ []

abbrev iod0 : Iod
iod0 = record { npages = negsuc 0; first_dma = 0; lists = [] }

setup_prps-Carries_example :
    PrpOutcome pools head tail 2154496 (setup_prps pools (λ a. 0) iod0 2154496 head tail)
setup_prps-Carries_example =
    setup_prps-Carries pools (λ a. 0) iod0 head tail 2154496 (omega arith) (omega arith)
      small-IsSmallPool page-IsPagePool

-- Two of three entries were mapped, by an SGL.
setup_sgls-Carries_example :
    SglOutcome pools head tail 2 (
      setup_sgls pools 256
        (λ a. record { addr = 0; length = 0; kind = data_desc })
        iod0
        head
        tail
        2)
setup_sgls-Carries_example =
    setup_sgls-Carries 256 (λ a. record { addr = 0; length = 0; kind = data_desc }) iod0 head tail 2
      (omega arith) (omega arith) pools (omega arith) (omega arith)

-- The request of the whole list, on a controller without SGLs.
abbrev rq0 : Rq
rq0 = record {
  nr_phys_segments = 3;
  payload_bytes = 2154496;
  bv_offset = 2048;
  bv_len = 2048;
  is_p2pdma = false;
  dma_map_bvec = none;
  mempool_alloc = true;
  nents = 3;
  nr_mapped = 3;
  sg = head;
  rest = tail;
  qid = 1;
  sgl_supported = false;
  sgl_threshold = 32768;
}

abbrev data0 : DataState
data0 = record {
  status = sts_ok;
  iod = iod0;
  use_sgl = false;
  dma_len = 0;
  memory = λ a. 0;
  descs = λ a. record { addr = 0; length = 0; kind = data_desc };
  dptr = no_dptr;
  flags = 0;
  events = [];
  freed = [];
  taken = 0;
}

rq0-IsMappable : IsMappable 256 rq0
rq0-IsMappable = record {
  some_bytes = omega arith;
  paged = omega arith;
  holds = omega arith;
  fits = omega arith;
  there = omega arith;
}

map_data-Balances_example : Balances pools 256 (map_data pools 256 data0 rq0)
map_data-Balances_example =
    map_data-Balances pools 256 small-IsSmallPool page-IsPagePool data0
      (record { no_events = refl; none_freed = refl; none_taken = refl; no_lists = refl }) rq0
      rq0-IsMappable

-- The same request with integrity metadata, on a ring of four slots.
abbrev env0 : RqEnv ℕ
env0 = record {
  enabled = true;
  ready = true;
  fail_nonready_command = sts_ok;
  setup_cmd = (sts_ok, record { fields = 7; dptr = no_dptr; flags = 0; metadata = 0 });
  integrity = true;
  dma_map_bvec = some 0x700000;
  last = true;
}

abbrev state0 : RqState ℕ
state0 = record {
  status = sts_ok;
  rq_data = data0;
  cmd = (record { fields = 0; dptr = no_dptr; flags = 0; metadata = 0 });
  meta_dma = 0;
  trace = [];
  queue = (record {
    qid = 1;
    q_depth = 4;
    sq_tail = 3;
    last_sq_tail = 2;
    cq_head = 3;
    cq_phase = 1;
    sq_cmds = λ i. none;
    sq_doorbell = 2;
    cq_doorbell = 3;
    dbbuf_sq_db = none;
    dbbuf_cq_db = none;
    dbbuf_sq_ei = 0;
    dbbuf_cq_ei = 0;
  });
}

queue_rq-Lives_example : Lives pools 256 env0 state0 rq0 (queue_rq pools 256 env0 state0 rq0)
queue_rq-Lives_example =
    queue_rq-Lives pools 256 env0 state0 rq0 small-IsSmallPool page-IsPagePool (inr refl)
      (inr rq0-IsMappable)
      (record { no_trace = refl; no_events = refl; none_freed = refl; none_taken = refl })

-- A payload of 14 KiB has three entries in a small list.
setup_prps_test :
    prp_entries (setup_prps pools (λ a. 0) iod0 14336 head tail).memory 0x100800 0x800000 14336
    ≡ 0x200000 ∷ 0x201000 ∷ 0x400000 ∷ []
unfolding setup_prps skip_first setup_rest setup_list fill turn_page next_cursor settle_fill
    free_prps prp_entries walk
setup_prps_test = refl
