-- ===== src/Transfer/Covers.antt =====
-- A cursor of the loop covers what is left of the data.

use geminifs_npu_smoke.Prelude.{
  ℕ, zero, suc, ◌+◌, ◌-◌, ◌*◌, ◌%◌, ◌^◌, ◌≤◌, ◌<◌, ◌≡◌, ◌⊎◌, inl, inr, refl, ap, sym, subst, ◌∙◌,
  true, List, [], ◌∷◌, arith, ltb, leb, Bool-cases, pos,
}
use geminifs_npu_smoke.Scatter.{Segment, byte_at}
use geminifs_npu_smoke.Transfer.{Cursor, go, next_cursor, ctrl_page_size}
use geminifs_npu_smoke.Transfer.Bytes.{
  total, IsPaged, from, Covers, flat_done, paged_first, in_first, byte_first, byte_in, byte_next,
  more-Covers,
}

next_inner :
    (c : Cursor) (len : ℕ)
    → c.dma_len ≡ pos len
    → ctrl_page_size < len
    → next_cursor c
      ≡ go (record c {
        dma_addr = (c.dma_addr + ctrl_page_size) % 2 ^ 64;
        dma_len = pos (len - ctrl_page_size);
      })
unfolding next_cursor
next_inner c len is l =
    let test : leb ctrl_page_size len ≡ true = ground arith in
    let some_left : len - ctrl_page_size ≡ suc (len - ctrl_page_size - 1) = omega arith in
    rw (is, test, some_left, next_cursor) refl

next_outer :
    (c : Cursor) (len : ℕ) (sg : Segment) (sgs : List Segment)
    → c.dma_len ≡ pos len
    → len ≡ ctrl_page_size
    → c.rest ≡ sg ∷ sgs
    → next_cursor c ≡ go (record { dma_addr = sg.addr; dma_len = pos sg.len; rest = sgs })
unfolding next_cursor
next_outer c len sg sgs is l there = rw (is, l, there, next_cursor) refl

IsPaged-inner :
    (addr m : ℕ) (rest : List Segment)
    → 0 < m
    → IsPaged (from addr (ctrl_page_size + m) rest)
    → IsPaged (from ((addr + ctrl_page_size) % 2 ^ 64) m rest)
IsPaged-inner addr m [] l paged = l
IsPaged-inner addr m (next ∷ sgs) l (_, end, start, more) = (l, omega arith, start, more)

List-cases : {A : Type 0} (xs : List A) → (xs ≡ []) ⊎ ((x : A) × (ys : List A) × (xs ≡ x ∷ ys))
List-cases [] = inl refl
List-cases (x ∷ xs) = inr (x, xs, refl)

-- A cursor that is on a page, in a list that has the bytes.
pub cursor-Covers :
    (n : ℕ) (c : Cursor) (len left : ℕ)
    → c.dma_len ≡ pos len
    → c.dma_addr % ctrl_page_size ≡ 0
    → IsPaged (from c.dma_addr len c.rest)
    → 0 < left
    → left ≤ total (from c.dma_addr len c.rest)
    → left ≤ n * ctrl_page_size
    → Covers c len left n
unfolding next_cursor byte_at
cursor-Covers zero c len left is place paged some_left has fuel = absurd (omega arith)
cursor-Covers (suc n) c len left is place paged some_left has fuel =
    elim (Bool-cases (leb left ctrl_page_size)) [
      | inl done ↦ record {
        pages = c.dma_addr ∷ [];
        reads = flat_done n c left done;
        number = ground arith;
        is_aligned = (place, tt);
        bytes = λ k l.
            paged_first c.dma_addr [] k (ground arith)
            ∙ sym (
                byte_first c.dma_addr len k c.rest
                  (in_first c.dma_addr len left k c.rest place paged has l (ground arith)));
      }
      | inr more ↦
          let first = λ (k : ℕ) (l : k < ctrl_page_size) (l' : k < left).
            in_first c.dma_addr len left k c.rest place paged has l' l in
          let enough : 4095 < len = first 4095 (omega arith) (ground arith) in
          elim (Bool-cases (ltb ctrl_page_size len)) [
            | inl inner ↦
                let m = len - ctrl_page_size in
                let size : ctrl_page_size + m ≡ len = omega arith in
                let paged' =
                  IsPaged-inner c.dma_addr m c.rest (ground arith)
                    (subst (λ (v : ℕ). IsPaged (from c.dma_addr v c.rest)) (sym size) paged) in
                let c' = record c {
                  dma_addr = (c.dma_addr + ctrl_page_size) % 2 ^ 64;
                  dma_len = pos m;
                } in
                more-Covers n c c' len m left more (next_inner c len is (ground arith)) place first
                  (λ k l.
                    byte_in c.dma_addr m k c.rest l
                    ∙ ap (λ (v : ℕ). byte_at (from c.dma_addr v c.rest) k) size)
                  (cursor-Covers n c' m (left - ctrl_page_size) refl (omega arith) paged'
                    (ground arith) (omega arith) (omega arith))
            | inr outer ↦
                let size : len ≡ ctrl_page_size = ground arith in
                elim (List-cases c.rest) [
                  | inl none_left ↦ absurd (ground (arith, ap total none_left))
                  | inr (sg, sgs, there) ↦
                      let (_, _, start, paged') =
                        subst (λ (v : List Segment). IsPaged (from c.dma_addr len v)) there paged in
                      let c' : Cursor = record {
                        dma_addr = sg.addr;
                        dma_len = pos sg.len;
                        rest = sgs;
                      } in
                      more-Covers n c c' len sg.len left more
                        (next_outer c len sg sgs is size there) place first
                        (λ k l.
                          ap (λ (v : List Segment). byte_at v (k - ctrl_page_size)) (sym there)
                          ∙ byte_next c.dma_addr k c.rest l
                          ∙ ap (λ (v : ℕ). byte_at (from c.dma_addr v c.rest) k) (sym size))
                        (cursor-Covers n c' sg.len (left - ctrl_page_size) refl start paged'
                          (ground arith) (ground (arith, ap total there)) (omega arith))
                ]
          ]
    ]
