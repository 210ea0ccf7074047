-- ===== src/Transfer/Sgl/Reads.antt =====
-- What a controller reads from the SGL of a request, as the NVMe specification says: a data
-- descriptor, or the descriptors of a last segment.
use geminifs_npu_smoke.Prelude.{
  ℕ, if◌then◌else◌, ◌==◌, zero, suc, ◌+◌, ◌*◌, ◌/◌, ◌%◌, ◌^◌, ◌≤◌, ◌<◌, ◌≡◌, ◌≢◌, ◌⊎◌, inl, inr,
  refl, ap, ap₂, ◌∙◌, true, false, Option, none, some, List, [], ◌∷◌, map, arith, ltb, leb, ◌==◌,
  length, take, Bool-cases, Option-cases, ==_refl,
}
use geminifs_npu_smoke.Scatter.{Segment}
use geminifs_npu_smoke.Transfer.{Pool, Pools, Status, sts_ok, sts_resource, Iod}
use geminifs_npu_smoke.Transfer.Sgl.{
  data_desc, seg_desc, last_seg_desc, SglDesc, Descs, sgl_set_data, sgl_set_seg, desc_at, SglSpot,
  turn_sgl, write_desc, fill_sgl, settle_sgl, first_sgl, setup_sgl_list, setup_sgls, SglSetUp,
}

unfoldable pub read_descs : Descs → ℕ → ℕ → List SglDesc
read_descs m a zero = []
read_descs m a (suc n) = m a ∷ read_descs m (a + 16) n

-- None where another segment would follow.
unfoldable pub read_sgl : Descs → SglDesc → Option (List SglDesc)
read_sgl m d = elim d.kind [
  | data_desc ↦ some (d ∷ [])
  | seg_desc ↦ none
  | last_seg_desc ↦ some (read_descs m d.addr (d.length / 16))
]

-- A controller takes the data pointer for an SGL by bits 6 and 7 of the flags, PSDT.
unfoldable pub read_command : ℕ → Descs → SglDesc → Option (List SglDesc)
unfolding read_sgl
read_command flags m d = if flags / 64 % 4 == 1 then read_sgl m d else none

desc_ne : (a x y : ℕ) → x ≢ y → (desc_at a x == desc_at a y) ≡ false
desc_ne a x y ne = ground arith

desc_next : (a x : ℕ) → desc_at a x + 16 ≡ desc_at a (x + 1)
desc_next a x = omega arith

-- The loop on a list that has room for all entries.
pub record SglFilled (s : SglSpot) (sgs : List Segment) (n : ℕ) (r : Status × SglSpot)
    : Type 0 where
  pub status : r.0 ≡ sts_ok
  pub reads : read_descs r.1.descs (desc_at s.sg_list s.i) n ≡ map sgl_set_data (take n sgs)
  pub own : (x : ℕ) → x < s.i → r.1.descs (desc_at s.sg_list x) ≡ s.descs (desc_at s.sg_list x)
  pub lists : r.1.lists ≡ s.lists
  pub npages : r.1.npages ≡ s.npages
  pub allocated : r.1.allocated ≡ s.allocated

fill_sgl_step :
    (pool : Pool) (sges n : ℕ) (s : SglSpot) (sg : Segment) (sgs : List Segment)
    → s.i < sges
    → fill_sgl pool sges (suc n) s (sg ∷ sgs) ≡ fill_sgl pool sges n (write_desc s sg) sgs
unfolding fill_sgl turn_sgl
fill_sgl_step pool sges n s sg sgs l =
    let room : (s.i == sges) ≡ false = ground arith in rw (room, turn_sgl, fill_sgl) refl

pub fill_sgl-SglFilled :
    (pool : Pool) (sges n : ℕ) (s : SglSpot) (sgs : List Segment)
    → s.i + n ≤ sges
    → n ≤ length sgs
    → SglFilled s sgs n (fill_sgl pool sges n s sgs)
unfolding fill_sgl read_descs
fill_sgl-SglFilled pool sges zero s sgs room has = record {
  status = refl;
  reads = refl;
  own = λ x l. refl;
  lists = refl;
  npages = refl;
  allocated = refl;
}
fill_sgl-SglFilled pool sges (suc n) s [] room has = absurd (omega arith)
fill_sgl-SglFilled pool sges (suc n) s (sg ∷ sgs) room has =
    let rest = fill_sgl-SglFilled pool sges n (write_desc s sg) sgs (omega arith) (omega arith) in
    let m = (fill_sgl pool sges n (write_desc s sg) sgs).1.descs in
    rw (fill_sgl_step pool sges n s sg sgs (omega arith)) (record {
      status = rest.status;
      reads =
          ap₂ (λ (d : SglDesc) (ds : List SglDesc). d ∷ ds)
            (rest.own s.i (omega arith) ∙ rw (==_refl (desc_at s.sg_list s.i)) refl)
            (ap (λ (a : ℕ). read_descs m a n) (desc_next s.sg_list s.i) ∙ rest.reads);
      own = λ x l. rest.own x (omega arith) ∙ rw (desc_ne s.sg_list x s.i (omega arith)) refl;
      lists = rest.lists;
      npages = rest.npages;
      allocated = rest.allocated;
    })

-- A last segment of `entries` descriptors.
read_last :
    (m : Descs) (sges d entries : ℕ)
    → entries < sges
    → entries * 16 < 2 ^ 32
    → read_sgl m (sgl_set_seg sges d entries) ≡ some (read_descs m (desc_at d 0) entries)
unfolding read_sgl
read_last m sges d entries l small =
    let test : ltb entries sges ≡ true = ground arith in
    let size : entries * 16 % 2 ^ 32 / 16 ≡ entries = omega arith in
    let start : d ≡ desc_at d 0 = omega arith in
    let last : sgl_set_seg sges d entries
        ≡ record { addr = d; length = entries * 16 % 2 ^ 32; kind = last_seg_desc } =
      rw test refl in
    ap (read_sgl m) last ∙ ap₂ (λ (a n : ℕ). some (read_descs m a n)) start size

settle_sgl_ok :
    (sges : ℕ) (dptr : SglDesc) (d : ℕ) (r : Status × SglSpot)
    → r.0 ≡ sts_ok
    → ((settle_sgl sges dptr d r).status ≡ sts_ok)
      × ((settle_sgl sges dptr d r).dptr ≡ some dptr)
      × ((settle_sgl sges dptr d r).descs ≡ r.1.descs)
      × ((settle_sgl sges dptr d r).flags ≡ 64)
unfolding settle_sgl
settle_sgl_ok sges dptr d (status, s) fine = (fine, refl, refl, refl)

-- An SGL set-up fails for want of memory, or a controller reads the segments.
abbrev pub SglOutcome : Pools → Segment → List Segment → ℕ → SglSetUp → Type 0
SglOutcome pools sg rest entries r =
    ((r.status ≡ sts_resource) × ((pools.prp_small_pool 0 ≡ none) ⊎ (pools.prp_page_pool 0 ≡ none)))
    ⊎ ((r.status ≡ sts_ok)
        × (d : SglDesc) × (r.dptr ≡ some d)
        × (read_command r.flags r.descs d ≡ some (map sgl_set_data (take entries (sg ∷ rest)))))

module _ (sges : ℕ) (descs : Descs) (iod : Iod) (sg : Segment) (rest : List Segment) where
  module _ (entries : ℕ) (bound : entries < sges) (small : entries * 16 < 2 ^ 32) where
    abbrev Read : SglSetUp → Type 0
    Read r =
        (r.status ≡ sts_ok)
        × (d : SglDesc) × (r.dptr ≡ some d)
        × (read_command r.flags r.descs d ≡ some (map sgl_set_data (take entries (sg ∷ rest))))

    list_lem :
        (pool : Pool) (npages : ℕ)
        → entries ≤ length (sg ∷ rest)
        → let r = setup_sgl_list pool npages sges descs iod (sg ∷ rest) entries in
          ((r.status ≡ sts_resource) × (pool 0 ≡ none)) ⊎ Read r
    unfolding setup_sgl_list read_command
    list_lem pool npages has = elim (Option-cases (pool 0)) [
      | inl empty ↦ rw (empty, setup_sgl_list) (inl (refl, refl))
      | inr (d, alloc) ↦
          let seg = sgl_set_seg sges d entries in
          let r = fill_sgl pool sges entries (first_sgl descs d npages) (sg ∷ rest) in
          let filled =
            fill_sgl-SglFilled pool sges entries (first_sgl descs d npages) (sg ∷ rest)
              (omega arith) has in
          let (fine, written, kept, flagged) = settle_sgl_ok sges seg d r filled.status in
          rw (alloc, setup_sgl_list)
            (inr (
              fine,
              seg,
              written,
              ap₂ (λ (flags : ℕ) (m : Descs). read_command flags m seg) flagged kept
                  ∙ read_last r.1.descs sges d entries bound small
                  ∙ ap (λ (ds : List SglDesc). some ds) filled.reads,
            ))
    ]

    -- For at least one and fewer mapped segments than a page holds descriptors, which NVME_MAX_SEGS
    -- ensures, `nvme_pci_setup_sgls` fails only with BLK_STS_RESOURCE where a pool was empty; else it
    -- is successful, the command's flags tell a controller that its data pointer is an SGL, and a
    -- controller that reads the flags, the data pointer and the list as the NVMe specification says
    -- finds a data descriptor for each mapped segment, in their order.
    pub setup_sgls-Carries :
        (pools : Pools)
        → 0 < entries
        → entries ≤ length (sg ∷ rest)
        → SglOutcome pools sg rest entries (setup_sgls pools sges descs iod sg rest entries)
    unfolding setup_sgls read_sgl read_command
    setup_sgls-Carries pools some_left has = elim (Bool-cases (entries == 1)) [
      | inl one ↦
          let eq : entries ≡ 1 = ground arith in
          rw (one, eq, setup_sgls) (inr (refl, sgl_set_data sg, refl, refl))
      | inr many ↦ elim (Bool-cases (leb entries 16)) [
        | inl few ↦
            rw (many, few, setup_sgls)
              (elim (list_lem pools.prp_small_pool 0 has) [
                | inl (failed, empty) ↦ inl (failed, inl empty)
                | inr read ↦ inr read
              ])
        | inr more ↦
            rw (many, more, setup_sgls)
              (elim (list_lem pools.prp_page_pool 1 has) [
                | inl (failed, empty) ↦ inl (failed, inr empty)
                | inr read ↦ inr read
              ])
      ]
    ]
