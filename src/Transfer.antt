-- ===== src/Transfer.antt =====
-- pci.c: how a request's data reaches the device by PRP lists: `nvme_pci_setup_prps` and
-- `nvme_free_prps`. The memory of the lists is a function from the address of a 64-bit entry; an
-- `int` that the code compares with 0 after a subtraction is compared before it, or is a ℤ.
pub mod Device
pub mod Lists
pub mod Filled
pub mod Rounds
pub mod Small
pub mod Bytes
pub mod Covers
pub mod Start
pub mod Prps
pub mod Chain
pub mod Sgl
pub mod Released
pub mod Tidy
pub mod Data
pub mod Request
use geminifs_npu_smoke.Prelude.{
  ℕ, zero, suc, ◌+◌, ◌-◌, ◌*◌, ◌/◌, ◌%◌, ◌^◌, Bool, true, false, Option, none, some, List, [], ◌∷◌,
  ◌++◌, ltb, leb, ◌==◌, if◌then◌else◌, update, take, ℤ, pos, negsuc,
}
use geminifs_npu_smoke.Scatter.{Segment}

-- NVME_CTRL_PAGE_SIZE
abbrev pub ctrl_page_size : ℕ
ctrl_page_size = 4096

-- The words of memory, by their address.
abbrev pub Memory : Type 0
Memory = ℕ → ℕ

-- What `dma_pool_alloc` answers to the first, the second, … allocation of a request: the address.
abbrev pub Pool : Type 0
Pool = ℕ → Option ℕ

pub record Pools : Type 0 where
  pub prp_small_pool : Pool
  pub prp_page_pool : Pool

-- The status of a set-up; `oops` is a NULL that is followed, and `running` a loop that was cut off.
pub data Status : Type 0 where
  sts_ok sts_resource sts_ioerr oops running : Status

-- The fields of `struct nvme_iod` that a PRP set-up writes, and `nvme_pci_iod_list`, each list by the
-- address of its memory.
pub record Iod : Type 0 where
  pub npages : ℤ
  pub first_dma : ℕ
  pub lists : List ℕ

-- `sg`, `dma_addr` and `dma_len` of the loop: the segments after the one that it is in.
pub record Cursor : Type 0 where
  pub dma_addr : ℕ
  pub dma_len : ℤ
  pub rest : List Segment

pub data Next : Type 0 where
  go : Cursor → Next
  bad_sgl : Next
  null_sg : Next

abbrev pub int_sub : ℤ → ℕ → ℤ
int_sub (pos a) b = if leb b a then pos (a - b) else negsuc (b - a - 1)
int_sub (negsuc a) b = negsuc (a + b)

-- `sg_next(sg)` and the two fields of it.
abbrev pub next_segment : List Segment → Next
next_segment [] = null_sg
next_segment (sg ∷ sgs) = go (record { dma_addr = sg.addr; dma_len = pos sg.len; rest = sgs })

-- After a page: on in the segment, or to the next one, or the segment ended within a page.
unfoldable pub next_cursor : Cursor → Next
next_cursor c = elim (int_sub c.dma_len ctrl_page_size) [
  | pos zero ↦ next_segment c.rest
  | pos (suc n) ↦
      go (record c { dma_addr = (c.dma_addr + ctrl_page_size) % 2 ^ 64; dma_len = pos (suc n) })
  | negsuc n ↦ bad_sgl
]

-- After the first page, whose part of the segment has `first` bytes.
unfoldable pub skip_first : Segment → List Segment → ℕ → Next
skip_first sg rest first = elim (int_sub (pos sg.len) first) [
  | pos zero ↦ next_segment rest
  | left ↦ go (record { dma_addr = (sg.addr + first) % 2 ^ 64; dma_len = left; rest = rest })
]

-- Where the loop writes: `prp_list` by its address, `i`, the lists so far and how many.
pub record Spot : Type 0 where
  pub memory : Memory
  pub prp_list : ℕ
  pub i : ℕ
  pub npages : ℕ
  pub lists : List ℕ
  -- The allocations so far.
  pub allocated : ℕ

abbrev pub entry : ℕ → ℕ → ℕ
entry prp_list i = prp_list + 8 * i

-- A full list hands its last entry to a new list, and points to it.
unfoldable pub turn_page : Pool → Spot → Option Spot
turn_page pool s =
    if s.i == 512
    then elim (pool s.allocated) [
      | none ↦ none
      | some d ↦
          let last = entry s.prp_list (s.i - 1) in
          some (record {
            memory = update (update s.memory (entry d 0) (s.memory last)) last d;
            prp_list = d;
            i = 1;
            npages = s.npages + 1;
            lists = s.lists ++ d ∷ [];
            allocated = s.allocated + 1;
          })
    ]
    else some s

abbrev pub write_entry : Spot → ℕ → Spot
write_entry s v = record s { memory = update s.memory (entry s.prp_list s.i) v; i = s.i + 1 }

-- The loop, with a bound on its rounds.
unfoldable pub fill : Pool → ℕ → Spot → Cursor → ℕ → Status × Spot
unfolding turn_page next_cursor
fill pool zero s c length = (running, s)
fill pool (suc n) s c length = elim (turn_page pool s) [
  | none ↦ (sts_resource, s)
  | some s1 ↦
      let s2 = write_entry s1 c.dma_addr in
      elim (leb length ctrl_page_size) [
        | true ↦ (sts_ok, s2)
        | false ↦ elim (next_cursor c) [
          | go c' ↦ fill pool n s2 c' (length - ctrl_page_size)
          | bad_sgl ↦ (sts_ioerr, s2)
          | null_sg ↦ (oops, s2)
        ]
      ]
]

-- The frees that `nvme_free_prps` makes, each of a list with the address that it is freed under.
unfoldable pub free_chain : Memory → ℕ → List ℕ → List (ℕ × ℕ)
free_chain memory dma_addr [] = []
free_chain memory dma_addr (l ∷ ls) = (l, dma_addr) ∷ free_chain memory (memory (entry l 511)) ls

unfoldable pub free_prps : Memory → Iod → List (ℕ × ℕ)
unfolding free_chain
free_prps memory iod = elim iod.npages [
  | pos n ↦ free_chain memory iod.first_dma (take n iod.lists)
  | negsuc n ↦ []
]

-- What a set-up leaves: its status, the iod, the memory, PRP1 and PRP2 where they are written, and
-- what it freed, with the number of lists that it was given.
pub record SetUp : Type 0 where
  pub status : Status
  pub iod : Iod
  pub memory : Memory
  pub dptr : Option (ℕ × ℕ)
  pub freed : List (ℕ × ℕ)
  pub taken : ℕ

abbrev pub stopped : Status → Iod → Memory → SetUp
stopped status iod memory = record {
  status = status;
  iod = iod;
  memory = memory;
  dptr = none;
  freed = [];
  taken = 0;
}

-- The label `done`.
abbrev pub finish : Segment → Iod → Memory → SetUp
finish sg iod memory = record {
  status = sts_ok;
  iod = iod;
  memory = memory;
  dptr = some (sg.addr, iod.first_dma);
  freed = [];
  taken = 0;
}

abbrev pub div_round_up : ℕ → ℕ → ℕ
div_round_up a b = (a + b - 1) / b

-- What follows the loop, by its status.
unfoldable pub settle_fill : Segment → ℕ → Status × Spot → SetUp
unfolding free_prps
settle_fill sg first_dma (status, s) =
    let iod : Iod = record { npages = pos s.npages; first_dma = first_dma; lists = s.lists } in
    let left : SetUp = elim status [
      | sts_ok ↦ finish sg iod s.memory
      | sts_resource ↦ record (stopped sts_resource iod s.memory) { freed = free_prps s.memory iod }
      | sts_ioerr ↦ stopped sts_ioerr iod s.memory
      | oops ↦ stopped oops iod s.memory
      | running ↦ stopped running iod s.memory
    ] in
    record left { taken = s.allocated }

abbrev pub first_spot : Memory → ℕ → ℕ → Spot
first_spot memory d npages = record {
  memory = memory;
  prp_list = d;
  i = 0;
  npages = npages;
  lists = d ∷ [];
  allocated = 1;
}

-- From the choice of the pool on.
unfoldable pub setup_list : Pool → ℕ → Memory → Iod → Segment → Cursor → ℕ → SetUp
unfolding fill settle_fill
setup_list pool npages memory iod sg c length = elim (pool 0) [
  | none ↦ stopped sts_resource (record iod { first_dma = c.dma_addr; npages = negsuc 0 }) memory
  | some d ↦
      settle_fill sg d
        (fill pool (div_round_up length ctrl_page_size) (first_spot memory d npages) c length)
]

-- `length` is what is left after the first page.
unfoldable pub setup_rest : Pools → Memory → Iod → Segment → Cursor → ℕ → SetUp
unfolding setup_list
setup_rest pools memory iod sg c length =
    if leb length ctrl_page_size
    then finish sg (record iod { first_dma = c.dma_addr }) memory
    else if leb (div_round_up length ctrl_page_size) 32
    then setup_list pools.prp_small_pool 0 memory iod sg c length
    else setup_list pools.prp_page_pool 1 memory iod sg c length

-- The scatter list of the request is `sg` and `rest`; its payload has `payload` bytes.
unfoldable pub setup_prps : Pools → Memory → Iod → ℕ → Segment → List Segment → SetUp
unfolding skip_first setup_rest
setup_prps pools memory iod payload sg rest =
    let first = ctrl_page_size - sg.addr % ctrl_page_size in
    if leb payload first
    then finish sg (record iod { first_dma = 0 }) memory
    else elim (skip_first sg rest first) [
      | go c ↦ setup_rest pools memory iod sg c (payload - first)
      | bad_sgl ↦ stopped sts_ioerr iod memory
      | null_sg ↦ stopped oops iod memory
    ]
