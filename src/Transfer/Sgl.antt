-- ===== src/Transfer/Sgl.antt =====
-- pci.c: the SGL descriptors of a request: `nvme_pci_sgl_set_data`, `nvme_pci_sgl_set_seg`,
-- `nvme_pci_setup_sgls` and `nvme_free_sgls`. The memory of the lists is a function from the address of
-- a descriptor; `sges` stands for SGES_PER_PAGE, a sixteenth of the kernel's page size.
pub mod Reads
pub mod Released
use geminifs_npu_smoke.Prelude.{
  ℕ, zero, suc, ◌+◌, ◌-◌, ◌*◌, ◌%◌, ◌^◌, Bool, true, false, Option, none, some, List, [], ◌∷◌, ◌++◌,
  ltb, leb, ◌==◌, if◌then◌else◌, update, take, pos, negsuc,
}
use geminifs_npu_smoke.Scatter.{Segment}
use geminifs_npu_smoke.Transfer.{Pool, Pools, Status, sts_ok, sts_resource, oops, running, Iod}

-- NVME_CMD_SGL_METABUF: the data pointer is an SGL.
abbrev pub sgl_metabuf : ℕ
sgl_metabuf = 64

-- The type of a descriptor, which stands in the high half of its last byte.
pub data SglKind : Type 0 where
  data_desc seg_desc last_seg_desc : SglKind

pub record SglDesc : Type 0 where
  pub addr : ℕ
  pub length : ℕ
  pub kind : SglKind

abbrev pub Descs : Type 0
Descs = ℕ → SglDesc

abbrev pub sgl_set_data : Segment → SglDesc
sgl_set_data sg = record { addr = sg.addr; length = sg.len; kind = data_desc }

abbrev pub sgl_set_seg : ℕ → ℕ → ℕ → SglDesc
sgl_set_seg sges dma_addr entries =
    if ltb entries sges
    then record { addr = dma_addr; length = entries * 16 % 2 ^ 32; kind = last_seg_desc }
    else record { addr = dma_addr; length = sges * 16; kind = seg_desc }

-- A write through an address, on memory of descriptors.
abbrev pub put_desc : Descs → ℕ → SglDesc → Descs
put_desc m a d b = if b == a then d else m b

abbrev pub desc_at : ℕ → ℕ → ℕ
desc_at sg_list i = sg_list + 16 * i

pub record SglSpot : Type 0 where
  pub descs : Descs
  pub sg_list : ℕ
  pub i : ℕ
  pub npages : ℕ
  pub lists : List ℕ
  pub allocated : ℕ

-- A full list hands its last descriptor to a new list, and links to it.
unfoldable pub turn_sgl : Pool → ℕ → ℕ → SglSpot → Option SglSpot
turn_sgl pool sges entries s =
    if s.i == sges
    then elim (pool s.allocated) [
      | none ↦ none
      | some d ↦
          let link = desc_at s.sg_list (s.i - 1) in
          some (record {
            descs =
                put_desc (put_desc s.descs (desc_at d 0) (s.descs link)) link
                  (sgl_set_seg sges d entries);
            sg_list = d;
            i = 1;
            npages = s.npages + 1;
            lists = s.lists ++ d ∷ [];
            allocated = s.allocated + 1;
          })
    ]
    else some s

abbrev pub write_desc : SglSpot → Segment → SglSpot
write_desc s sg = record s {
  descs = put_desc s.descs (desc_at s.sg_list s.i) (sgl_set_data sg);
  i = s.i + 1;
}

-- The loop, for the entries that are left.
unfoldable pub fill_sgl : Pool → ℕ → ℕ → SglSpot → List Segment → Status × SglSpot
unfolding turn_sgl
fill_sgl pool sges zero s sgs = (sts_ok, s)
fill_sgl pool sges (suc n) s [] = (oops, s)
fill_sgl pool sges (suc n) s (sg ∷ sgs) = elim (turn_sgl pool sges (suc n) s) [
  | none ↦ (sts_resource, s)
  | some s1 ↦ fill_sgl pool sges n (write_desc s1 sg) sgs
]

-- The frees that `nvme_free_sgls` makes, each of a list with the address that it is freed under.
unfoldable pub free_sgl_chain : ℕ → Descs → ℕ → List ℕ → List (ℕ × ℕ)
free_sgl_chain sges descs dma_addr [] = []
free_sgl_chain sges descs dma_addr (l ∷ ls) =
    (l, dma_addr) ∷ free_sgl_chain sges descs (descs (desc_at l (sges - 1))).addr ls

unfoldable pub free_sgls : ℕ → Descs → Iod → List (ℕ × ℕ)
unfolding free_sgl_chain
free_sgls sges descs iod = elim iod.npages [
  | pos n ↦ free_sgl_chain sges descs iod.first_dma (take n iod.lists)
  | negsuc n ↦ []
]

pub record SglSetUp : Type 0 where
  pub status : Status
  pub iod : Iod
  pub descs : Descs
  -- The data pointer of the command, where it is written.
  pub dptr : Option SglDesc
  -- `cmd->flags`, which tell the controller how to read the data pointer.
  pub flags : ℕ
  pub freed : List (ℕ × ℕ)
  pub taken : ℕ

-- What follows the loop, by its status; the data pointer was written before it.
unfoldable pub settle_sgl : ℕ → SglDesc → ℕ → Status × SglSpot → SglSetUp
unfolding free_sgls
settle_sgl sges dptr first_dma (status, s) =
    let iod : Iod = record { npages = pos s.npages; first_dma = first_dma; lists = s.lists } in
    record {
      status = status;
      iod = iod;
      descs = s.descs;
      dptr = some dptr;
      flags = sgl_metabuf;
      freed = elim status [ sts_resource ↦ free_sgls sges s.descs iod | _ ↦ [] ];
      taken = s.allocated;
    }

abbrev pub first_sgl : Descs → ℕ → ℕ → SglSpot
first_sgl descs d npages = record {
  descs = descs;
  sg_list = d;
  i = 0;
  npages = npages;
  lists = d ∷ [];
  allocated = 1;
}

-- From the choice of the pool on.
unfoldable pub setup_sgl_list : Pool → ℕ → ℕ → Descs → Iod → List Segment → ℕ → SglSetUp
unfolding fill_sgl settle_sgl
setup_sgl_list pool npages sges descs iod sgs entries = elim (pool 0) [
  | none ↦ record {
    status = sts_resource;
    iod = record iod { npages = negsuc 0 };
    descs = descs;
    dptr = none;
    flags = sgl_metabuf;
    freed = [];
    taken = 0;
  }
  | some d ↦
      settle_sgl sges (sgl_set_seg sges d entries) d
        (fill_sgl pool sges entries (first_sgl descs d npages) sgs)
]

-- The scatter list is `sg` and `rest`, of which `entries` are mapped, at least one.
unfoldable pub setup_sgls : Pools → ℕ → Descs → Iod → Segment → List Segment → ℕ → SglSetUp
unfolding setup_sgl_list
setup_sgls pools sges descs iod sg rest entries =
    if entries == 1
    then record {
      status = sts_ok;
      iod = iod;
      descs = descs;
      dptr = some (sgl_set_data sg);
      flags = sgl_metabuf;
      freed = [];
      taken = 0;
    }
    else if leb entries 16
    then setup_sgl_list pools.prp_small_pool 0 sges descs iod (sg ∷ rest) entries
    else setup_sgl_list pools.prp_page_pool 1 sges descs iod (sg ∷ rest) entries
