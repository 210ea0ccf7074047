-- ===== src/Scatter.antt =====
-- Scatter lists of the kernel as pci.c and npu-p2p.c read them: `sg_dma_address` and `sg_dma_len` of
-- each entry.
use geminifs_npu_smoke.Prelude.{
  ℕ, ◌+◌, ◌-◌, ◌%◌, ◌^◌, Option, none, some, List, [], ◌∷◌, ltb, if◌then◌else◌,
}

pub record Segment : Type 0 where
  pub addr : ℕ
  pub len : ℕ

-- The address of a byte of the buffer that a scatter list describes.
unfoldable pub byte_at : List Segment → ℕ → Option ℕ
byte_at [] k = none
byte_at (sg ∷ sgs) k =
    if ltb k sg.len then some ((sg.addr + k) % 2 ^ 64) else byte_at sgs (k - sg.len)
