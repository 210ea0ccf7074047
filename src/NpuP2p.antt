-- ===== src/NpuP2p.antt =====
-- npu-p2p.c: the peer-to-peer functions that map.c calls, on the dma-buf interface of the kernel.
-- `Holding` counts what the functions have taken and not given back; the answers of dma_buf_* and of the
-- allocator are arguments. An out pointer (`page_table` of get_pages, `dma_mapping` of
-- dma_map_pages) is not NULL here, as at each call in map.c.
pub mod Outcome
pub mod Pages
pub mod Balance
use geminifs_npu_smoke.Prelude.{
  ℕ, zero, suc, ◌+◌, ◌-◌, ◌/◌, ◌%◌, ◌^◌, Bool, true, false, not, Option, none, some, List, [], ◌∷◌,
  ◌++◌, ◌⊎◌, inl, inr, ltb, ◌==◌, if◌then◌else◌, update, length, replicate,
}
use geminifs_npu_smoke.Scatter.{Segment}
use geminifs_npu_smoke.State.{Errno, Rc, ok, err, einval, enomem}

-- NPU_PAGE_SIZE
abbrev pub npu_page_size : ℕ
npu_page_size = 65536

-- `struct nvidia_p2p_page_table` with its dma-buf.
pub record PageTable : Type 0 where
  pub dmabuf : Option ℕ
  pub entries : ℕ

-- `struct nvidia_p2p_dma_mapping`
pub record DmaMapping : Type 0 where
  pub dma_addresses : List ℕ
  pub attach : Option ℕ
  pub sgt : Option ℕ
  pub n_addrs : ℕ

-- How often each dma-buf is referenced, each attachment attached and each table mapped, and how
-- many objects of the allocator are live.
pub record Holding : Type 0 where
  pub refs : ℕ → ℕ
  pub attached : ℕ → ℕ
  pub tables : ℕ → ℕ
  pub objects : ℕ

-- The answers during one call of get_pages or dma_map_pages.
pub record DmaBufs : Type 0 where
  pub kzalloc : Bool
  pub kcalloc : Bool
  pub dma_buf_get : ℕ → Errno ⊎ ℕ
  pub dma_buf_attach : ℕ → ℕ → Errno ⊎ ℕ
  pub dma_buf_map_attachment : ℕ → Errno ⊎ (ℕ × List Segment)

abbrev pub incr : (ℕ → ℕ) → ℕ → ℕ → ℕ
incr f x = update f x (f x + 1)

abbrev pub decr : (ℕ → ℕ) → ℕ → ℕ → ℕ
decr f x = update f x (f x - 1)

-- An object taken from the allocator, and one given back.
abbrev pub keep : Holding → Holding
keep h = record h { objects = h.objects + 1 }

abbrev pub kfree : Holding → Holding
kfree h = record h { objects = h.objects - 1 }

-- `(u32)(length >> NPU_PAGE_SHIFT)`, at least 1.
abbrev pub entries_of : ℕ → ℕ
entries_of length = let n = length / npu_page_size % 2 ^ 32 in if n == 0 then 1 else n

-- The virtual address, cut to an `int`, is the file descriptor.
unfoldable pub get_pages : DmaBufs → Holding → ℕ → ℕ → (Errno ⊎ PageTable) × Holding
get_pages env h virtual_address length =
    let h1 = keep h in
    if not env.kzalloc then (inl enomem, h) else elim (env.dma_buf_get (virtual_address % 2 ^ 32)) [
      | inl e ↦ (inl e, kfree h1)
      | inr b ↦ (
        inr (record { dmabuf = some b; entries = entries_of length }),
        record h1 { refs = incr h1.refs b },
      )
    ]

-- The pages of one segment from `off` on, for as many addresses as there is room; `off` is an
-- `unsigned int`.
unfoldable pub seg_pages : ℕ → ℕ → ℕ → ℕ → List ℕ
seg_pages zero base len off = []
seg_pages (suc room) base len off =
    let rest = seg_pages room base len ((off + npu_page_size) % 2 ^ 32) in
    if ltb off len then (base + off) % 2 ^ 64 ∷ rest else []

-- The addresses that the loop over the segments writes, `idx` of them.
unfoldable pub expand : ℕ → List Segment → List ℕ
unfolding seg_pages
expand room [] = []
expand room (sg ∷ sgs) =
    let here = seg_pages room sg.addr sg.len 0 in here ++ expand (room - length here) sgs

-- The mapping with its array of `n` addresses, those that were not written 0.
unfoldable pub new_mapping : ℕ → ℕ → ℕ → List Segment → DmaMapping
unfolding expand
new_mapping n attach sgt sgl =
    let addrs = expand n sgl in
    record {
      dma_addresses = addrs ++ replicate (n - length addrs) 0;
      attach = some attach;
      sgt = some sgt;
      n_addrs = length addrs;
    }

-- With the dma-buf `b` of the table and its number of entries.
unfoldable pub map_dmabuf : DmaBufs → Holding → ℕ → ℕ → ℕ → (Errno ⊎ DmaMapping) × Holding
unfolding new_mapping
map_dmabuf env h peer b n =
    let h1 = keep h in
    let h2 = keep h1 in
    if not env.kzalloc
    then (inl enomem, h)
    else if not env.kcalloc
    then (inl enomem, kfree h1)
    else elim (env.dma_buf_attach b peer) [
      | inl e ↦ (inl e, kfree (kfree h2))
      | inr a ↦
          let h3 = record h2 { attached = incr h2.attached a } in
          elim (env.dma_buf_map_attachment a) [
            | inl e ↦ (inl e, kfree (kfree (record h3 { attached = decr h3.attached a })))
            | inr (t, sgl) ↦ (inr (new_mapping n a t sgl), record h3 { tables = incr h3.tables t })
          ]
    ]

unfoldable pub dma_map_pages :
    DmaBufs → Holding → Option ℕ → Option PageTable → (Errno ⊎ DmaMapping) × Holding
unfolding map_dmabuf
dma_map_pages env h none pt = (inl einval, h)
dma_map_pages env h (some peer) none = (inl einval, h)
dma_map_pages env h (some peer) (some pt) = elim pt.dmabuf [
  | none ↦ (inl einval, h)
  | some b ↦ map_dmabuf env h peer b pt.entries
]

abbrev pub unmap_table : DmaMapping → Holding → Holding
unmap_table m h = elim m.attach [
  | none ↦ h
  | some a ↦ elim m.sgt [ none ↦ h | some t ↦ record h { tables = decr h.tables t } ]
]

abbrev pub dmabuf_of : Option PageTable → Option ℕ
dmabuf_of none = none
dmabuf_of (some pt) = pt.dmabuf

abbrev pub detach : DmaMapping → Option PageTable → Holding → Holding
detach m pt h = elim m.attach [
  | none ↦ h
  | some a ↦ elim (dmabuf_of pt) [ none ↦ h | some b ↦ record h { attached = decr h.attached a } ]
]

unfoldable pub dma_unmap_pages : Holding → Option PageTable → Option DmaMapping → Rc × Holding
dma_unmap_pages h pt none = (err einval, h)
dma_unmap_pages h pt (some m) = (ok, kfree (kfree (detach m pt (unmap_table m h))))

abbrev pub drop_ref : PageTable → Holding → Holding
drop_ref pt h = elim pt.dmabuf [ none ↦ h | some b ↦ record h { refs = decr h.refs b } ]

unfoldable pub put_pages : Holding → Option PageTable → Rc × Holding
put_pages h none = (err einval, h)
put_pages h (some pt) = (ok, kfree (drop_ref pt h))

unfoldable pub free_page_table : Holding → Option PageTable → Rc × Holding
free_page_table h none = (err einval, h)
free_page_table h (some pt) = (ok, kfree (drop_ref pt h))

unfoldable pub free_dma_mapping : Holding → Option DmaMapping → Rc × Holding
free_dma_mapping h none = (err einval, h)
free_dma_mapping h (some m) = (ok, kfree (kfree h))
