-- ===== src/Transfer/Data.antt =====
-- pci.c: `nvme_map_data` and `nvme_unmap_data`, with the simple mappings of one segment and
-- `nvme_pci_use_sgls`. What the block layer and the DMA functions answer stands in the request.
pub mod Balance
use geminifs_npu_smoke.Prelude.{
  ℕ, zero, ◌+◌, ◌-◌, ◌*◌, ◌%◌, ◌^◌, Bool, true, false, not, ◌&&◌, ◌||◌, Option, none, some, List,
  [], ◌∷◌, ◌++◌, ltb, leb, ◌==◌, if◌then◌else◌, get_or, pos, negsuc,
}
use geminifs_npu_smoke.Scatter.{Segment}
use geminifs_npu_smoke.Transfer.{
  Memory, Pools, Status, sts_ok, sts_resource, Iod, SetUp, setup_prps, free_prps, ctrl_page_size,
  div_round_up,
}
use geminifs_npu_smoke.Transfer.Sgl.{
  Descs, SglDesc, SglKind, SglSetUp, data_desc, seg_desc, last_seg_desc, sgl_set_data, sgl_metabuf,
  setup_sgls, free_sgls,
}

pub data IoEvent : Type 0 where
  map_page unmap_page : ℕ → IoEvent
  -- `mempool_alloc` and `mempool_free` of the scatter list.
  take_sg give_sg : IoEvent
  map_sg unmap_sg : IoEvent

-- `struct request` and the queue that it is for.
pub record Rq : Type 0 where
  pub nr_phys_segments : ℕ
  pub payload_bytes : ℕ
  pub bv_offset : ℕ
  pub bv_len : ℕ
  pub is_p2pdma : Bool
  -- `dma_map_bvec`, none where it is a mapping error.
  pub dma_map_bvec : Option ℕ
  pub mempool_alloc : Bool
  -- `blk_rq_map_sg` and `dma_map_sg_attrs`, with the mapped scatter list.
  pub nents : ℕ
  pub nr_mapped : ℕ
  pub sg : Segment
  pub rest : List Segment
  pub qid : ℕ
  pub sgl_supported : Bool
  pub sgl_threshold : ℕ

pub data Dptr : Type 0 where
  no_dptr : Dptr
  prps : ℕ → ℕ → Dptr
  sgl : SglDesc → Dptr

-- The state of a request's data: its `nvme_iod`, the memory of the lists, the command's data pointer and flags,
-- what was done and freed so far, and the lists that it was given.
pub record DataState : Type 0 where
  pub status : Status
  pub iod : Iod
  pub use_sgl : Bool
  pub dma_len : ℕ
  pub memory : Memory
  pub descs : Descs
  pub dptr : Dptr
  pub flags : ℕ
  pub events : List IoEvent
  pub freed : List (ℕ × ℕ)
  pub taken : ℕ

unfoldable pub pci_use_sgls : Rq → Bool
pci_use_sgls rq =
    let avg_seg_size = div_round_up rq.payload_bytes rq.nr_phys_segments in
    if not rq.sgl_supported
    then false
    else if rq.qid == 0
    then false
    else if rq.sgl_threshold == 0 || ltb avg_seg_size rq.sgl_threshold
    then false
    else true

abbrev pub refused : DataState → DataState
refused d = record d { status = sts_resource }

-- `first_dma` holds DMA_MAPPING_ERROR.
abbrev pub not_mapped : DataState → DataState
not_mapped d = record (refused d) { iod = (record d.iod { first_dma = 2 ^ 64 - 1 }) }

-- One mapped page for the whole transfer.
abbrev pub one_page : DataState → Rq → ℕ → Dptr → ℕ → DataState
one_page d rq addr dptr flags = record d {
  status = sts_ok;
  iod = (record d.iod { first_dma = addr });
  dma_len = rq.bv_len;
  dptr = dptr;
  flags = flags;
  events = d.events ++ map_page addr ∷ [];
}

-- The second half of a data pointer, which an SGL descriptor shares with PRP2.
abbrev pub kind_bits : SglKind → ℕ
kind_bits data_desc = 0
kind_bits seg_desc = 2
kind_bits last_seg_desc = 3

abbrev pub old_prp2 : Dptr → ℕ
old_prp2 no_dptr = 0
old_prp2 (prps prp1 prp2) = prp2
old_prp2 (sgl d) = d.length + kind_bits d.kind * 2 ^ 60

-- PRP2 stays where it is not needed.
unfoldable pub setup_prp_simple : DataState → Rq → DataState
setup_prp_simple d rq = elim rq.dma_map_bvec [
  | none ↦ not_mapped d
  | some addr ↦
      let first_prp_len = ctrl_page_size - rq.bv_offset % ctrl_page_size in
      one_page d rq addr
        (prps addr (
          if ltb first_prp_len rq.bv_len then (addr + first_prp_len) % 2 ^ 64 else old_prp2 d.dptr))
        d.flags
]

unfoldable pub setup_sgl_simple : DataState → Rq → DataState
setup_sgl_simple d rq = elim rq.dma_map_bvec [
  | none ↦ not_mapped d
  | some addr ↦
      one_page d rq addr (sgl (sgl_set_data (record { addr = addr; len = rq.bv_len }))) sgl_metabuf
]

abbrev pub after_prps : DataState → SetUp → DataState
after_prps d r = record d {
  status = r.status;
  iod = r.iod;
  memory = r.memory;
  dptr = elim r.dptr [ none ↦ d.dptr | some (prp1, prp2) ↦ prps prp1 prp2 ];
  freed = d.freed ++ r.freed;
  taken = r.taken;
}

abbrev pub after_sgls : DataState → SglSetUp → DataState
after_sgls d r = record d {
  status = r.status;
  iod = r.iod;
  descs = r.descs;
  dptr = elim r.dptr [ none ↦ d.dptr | some desc ↦ sgl desc ];
  flags = r.flags;
  freed = d.freed ++ r.freed;
  taken = r.taken;
}

abbrev pub happens : DataState → List IoEvent → DataState
happens d es = record d { events = d.events ++ es }

-- The labels `out_unmap_sg` and `out_free_sg` for a set-up that fails.
unfoldable pub conclude : DataState → DataState
conclude d = elim d.status [ sts_ok ↦ d | _ ↦ happens d (unmap_sg ∷ give_sg ∷ []) ]

-- From the mapped scatter list on.
unfoldable pub map_lists : Pools → ℕ → DataState → Rq → DataState
unfolding pci_use_sgls conclude
map_lists pools sges d rq =
    let d1 = record d { use_sgl = pci_use_sgls rq } in
    conclude (
      if pci_use_sgls rq
      then after_sgls d1 (setup_sgls pools sges d.descs d.iod rq.sg rq.rest rq.nr_mapped)
      else after_prps d1 (setup_prps pools d.memory d.iod rq.payload_bytes rq.sg rq.rest))

-- By a scatter list.
unfoldable pub map_scattered : Pools → ℕ → DataState → Rq → DataState
unfolding map_lists
map_scattered pools sges d rq =
    let d0 = record d { dma_len = 0 } in
    if not rq.mempool_alloc
    then refused d0
    else if rq.nents == 0
    then refused (happens d0 (take_sg ∷ give_sg ∷ []))
    else if rq.nr_mapped == 0
    then refused (happens d0 (take_sg ∷ give_sg ∷ []))
    else map_lists pools sges (happens d0 (take_sg ∷ map_sg ∷ [])) rq

unfoldable pub map_data : Pools → ℕ → DataState → Rq → DataState
unfolding setup_prp_simple setup_sgl_simple map_scattered
map_data pools sges d rq =
    if rq.nr_phys_segments == 1 && not rq.is_p2pdma
    then if leb (rq.bv_offset + rq.bv_len) (ctrl_page_size + ctrl_page_size)
      then setup_prp_simple d rq
      else if not (rq.qid == 0) && not (rq.sgl_threshold == 0) && rq.sgl_supported
      then setup_sgl_simple d rq
      else map_scattered pools sges d rq
    else map_scattered pools sges d rq

-- A list of the small pool is the only one.
unfoldable pub free_lists : ℕ → DataState → List (ℕ × ℕ)
free_lists sges d =
    let chained = if d.use_sgl then free_sgls sges d.descs d.iod else free_prps d.memory d.iod in
    elim d.iod.npages [ pos zero ↦ (get_or d.iod.lists 0 0, d.iod.first_dma) ∷ [] | _ ↦ chained ]

unfoldable pub unmap_data : ℕ → DataState → DataState
unfolding free_lists
unmap_data sges d =
    if d.dma_len == 0
    then record d {
      events = d.events ++ unmap_sg ∷ give_sg ∷ [];
      freed = d.freed ++ free_lists sges d;
    }
    else happens d (unmap_page d.iod.first_dma ∷ [])
