-- ===== src/Tests/Backends.antt =====
-- Witnesses for the dma-buf backend.
use geminifs_npu_smoke.Prelude.{
  ℕ, ◌+◌, ◌≡◌, refl, inl, inr, Bool, true, false, some, List, [], ◌∷◌, if◌then◌else◌,
}
use geminifs_npu_smoke.State.{einval}
use geminifs_npu_smoke.Scatter.{Segment}
use geminifs_npu_smoke.NpuP2p.{
  PageTable, DmaMapping, Holding, DmaBufs, seg_pages, expand, new_mapping, map_dmabuf,
  dma_map_pages,
}
use geminifs_npu_smoke.NpuP2p.Outcome.{SameHeld}
use geminifs_npu_smoke.NpuP2p.Pages.{AllShort, Lists, dma_map_pages-Lists}
use geminifs_npu_smoke.NpuP2p.Balance.{whole_life, whole_life-Restores}

-- Two pages and a half, in two segments.
abbrev segments : List Segment
segments = record { addr = 0x100000; len = 131072 } ∷ record { addr = 0x900000; len = 32768 } ∷ []

abbrev dma_bufs : Bool → DmaBufs
dma_bufs attaches = record {
  kzalloc = true;
  kcalloc = true;
  dma_buf_get = λ fd. inr (fd + 40);
  dma_buf_attach = λ b peer. if attaches then inr 7 else inl einval;
  dma_buf_map_attachment = λ a. inr (8, segments);
}

abbrev held0 : Holding
held0 = record { refs = λ x. 2; attached = λ x. 0; tables = λ x. 1; objects = 5 }

abbrev table4 : PageTable
table4 = record { dmabuf = some 43; entries = 4 }

abbrev mapping4 : DmaMapping
mapping4 = record {
  dma_addresses = 0x100000 ∷ 0x110000 ∷ 0x900000 ∷ 0 ∷ [];
  attach = some 7;
  sgt = some 8;
  n_addrs = 3;
}

maps4 : (dma_map_pages (dma_bufs true) held0 (some 1) (some table4)).0 ≡ inr mapping4
unfolding dma_map_pages map_dmabuf new_mapping expand seg_pages
maps4 = refl

dma_map_pages-Lists_example :
    (a : ℕ) × (t : ℕ) × (sgl : List Segment) × ((dma_bufs true).dma_buf_attach 43 1 ≡ inr a)
    × ((dma_bufs true).dma_buf_map_attachment a ≡ inr (t, sgl))
    × (AllShort sgl → Lists 4 sgl mapping4)
dma_map_pages-Lists_example =
    dma_map_pages-Lists (dma_bufs true) held0 1 43 table4 mapping4 refl maps4

-- The second device cannot be attached.
whole_life-Restores_example :
    SameHeld held0
      (whole_life
        (dma_bufs true)
        held0
        3
        262144
        ((1, dma_bufs true) ∷ (2, dma_bufs false) ∷ (3, dma_bufs true) ∷ [])).1
whole_life-Restores_example =
    whole_life-Restores (dma_bufs true) held0 3 262144
      ((1, dma_bufs true) ∷ (2, dma_bufs false) ∷ (3, dma_bufs true) ∷ [])
