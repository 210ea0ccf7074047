-- ===== src/Transfer/Small.antt =====
-- The loop of `nvme_pci_setup_prps` on a list of the small pool, which holds 32 entries and is never
-- left.
use geminifs_npu_smoke.Prelude.{
  ℕ, zero, suc, ◌+◌, ◌-◌, ◌%◌, ◌≤◌, ◌<◌, ◌≡◌, inl, inr, refl, ap, ap₂, ◌∙◌, false, some, List, [],
  ◌∷◌, arith, ◌==◌, length, ==_refl,
}
use geminifs_npu_smoke.Transfer.{
  Pool, Status, sts_ok, Cursor, Spot, ctrl_page_size, entry, turn_page, write_entry, fill,
}
use geminifs_npu_smoke.Transfer.Device.{walk}
use geminifs_npu_smoke.Transfer.Lists.{
  flat, flat_split, flat_cons, entry_next, entry_ne, walk_on, fill_last, fill_more,
}

pub record SmallFilled (s : Spot) (es : List ℕ) (r : Status × Spot) : Type 0 where
  pub status : r.0 ≡ sts_ok
  pub reads : walk r.1.memory (entry s.prp_list s.i) (length es) ≡ es
  pub own : (x : ℕ) → x < s.i → r.1.memory (entry s.prp_list x) ≡ s.memory (entry s.prp_list x)
  pub lists : r.1.lists ≡ s.lists
  pub npages : r.1.npages ≡ s.npages

module _ (pool : Pool) where
  -- As long as the entries fit, the loop ends and the list reads as the page addresses it came by.
  pub fill-SmallFilled :
      (n : ℕ) (s : Spot) (c : Cursor) (left : ℕ) (es : List ℕ)
      → s.prp_list % 256 ≡ 0
      → s.i + length es ≤ 32
      → flat n c left ≡ some es
      → SmallFilled s es (fill pool n s c left)
  unfolding flat walk turn_page
  fill-SmallFilled zero s c left es on_pool fits reads = absurd (cc reads)
  fill-SmallFilled (suc n) s c left es on_pool fits reads = elim (flat_split n c left es reads) [
    | inl (done, only) ↦
        let room : (s.i == 512) ≡ false = ground (arith, ap (λ (xs : List ℕ). length xs) only) in
        let turn : turn_page pool s ≡ some s = rw (room, turn_page) refl in
        rw (fill_last pool n s s c left turn done, only)
          (record {
            status = refl;
            reads =
                walk_on (write_entry s c.dma_addr).memory (entry s.prp_list s.i) 0 (ground arith)
                ∙ ap (λ (v : ℕ). v ∷ []) (rw (==_refl (entry s.prp_list s.i)) refl);
            own = λ x l. rw (entry_ne s.prp_list x s.i (omega arith)) refl;
            lists = refl;
            npages = refl;
          })
    | inr (more, c', es', next, reads', eq) ↦
        let (e', es'', cons) = flat_cons n c' (left - ctrl_page_size) es' reads' in
        let size : length es ≡ suc (suc (length es'')) =
          ap (λ (xs : List ℕ). length xs) (eq ∙ ap (λ (xs : List ℕ). c.dma_addr ∷ xs) cons) in
        let size' : length es' ≡ suc (length es'') = ap (λ (xs : List ℕ). length xs) cons in
        let room : (s.i == 512) ≡ false = ground arith in
        let turn : turn_page pool s ≡ some s = rw (room, turn_page) refl in
        let rest =
          fill-SmallFilled n (write_entry s c.dma_addr) c' (left - ctrl_page_size) es' on_pool
            (omega arith) reads' in
        rw (fill_more pool n s s c c' left turn more next, eq)
          (record {
            status = rest.status;
            reads =
                walk_on (fill pool n (write_entry s c.dma_addr) c' (left - ctrl_page_size)).1.memory
                  (entry s.prp_list s.i) (length es') (ground arith)
                ∙ ap₂ (λ (v : ℕ) (vs : List ℕ). v ∷ vs)
                    (rest.own s.i (omega arith) ∙ rw (==_refl (entry s.prp_list s.i)) refl)
                    (ap
                        (λ (a : ℕ).
                          walk
                            (fill pool n (write_entry s c.dma_addr) c'
                              (left - ctrl_page_size)).1.memory
                            a (length es'))
                        (entry_next s.prp_list s.i)
                      ∙ rest.reads);
            own =
                λ x l. rest.own x (omega arith) ∙ rw (entry_ne s.prp_list x s.i (omega arith)) refl;
            lists = rest.lists;
            npages = rest.npages;
          })
  ]
