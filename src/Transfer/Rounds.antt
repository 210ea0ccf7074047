-- ===== src/Transfer/Rounds.antt =====
-- The rounds of the loop of `nvme_pci_setup_prps` together.

use geminifs_npu_smoke.Prelude.{
  ℕ, zero, suc, ◌-◌, ◌≤◌, ◌<◌, ◌≡◌, ◌⊎◌, inl, inr, refl, ap, sym, subst, ◌∙◌, true, none, some,
  List, ◌∷◌, arith, ◌==◌, length, Bool-cases, Option-cases,
}
use geminifs_npu_smoke.Transfer.{
  Pool, Status, sts_ok, sts_resource, Cursor, Spot, ctrl_page_size, turn_page, write_entry, fill,
}
use geminifs_npu_smoke.Transfer.Lists.{
  flat, flat_split, flat_cons, IsPagePool, fill_last, fill_more, fill_stops,
}
use geminifs_npu_smoke.Transfer.Filled.{
  IsOurs, Filled, last-Filled, more-Filled, turned, turned-IsOurs, turn-Filled,
}

module _ (pool : Pool) (pages : IsPagePool pool) where
  abbrev pub Outcome : Spot → List ℕ → Status × Spot → Type 0
  Outcome s es r =
      (((k : ℕ) × (pool k ≡ none)) × (r.0 ≡ sts_resource))
      ⊎ ((r.0 ≡ sts_ok) × Filled pool pages s es r.1.memory)

  -- A round from a spot that has room, given what the later rounds come to.
  round-Outcome :
      (n : ℕ) (s s1 : Spot) (c : Cursor) (length : ℕ) (es : List ℕ)
      → turn_page pool s ≡ some s1
      → s1.i < 512
      → IsOurs pool pages s1
      → flat (suc n) c length ≡ some es
      → ((c' : Cursor) (es' : List ℕ)
          → flat n c' (length - ctrl_page_size) ≡ some es'
          → Outcome
              (write_entry s1 c.dma_addr)
              es'
              (fill pool n (write_entry s1 c.dma_addr) c' (length - ctrl_page_size)))
      → Outcome s1 es (fill pool (suc n) s c length)
  round-Outcome n s s1 c length es turn room ours reads later =
      elim (flat_split n c length es reads) [
        | inl (done, only) ↦
            rw (fill_last pool n s s1 c length turn done, only)
              (inr (refl, last-Filled pool pages s1 ours c.dma_addr room))
        | inr (more, c', es', next, reads', eq) ↦
            let (e', es'', cons) = flat_cons n c' (length - ctrl_page_size) es' reads' in
            rw (fill_more pool n s s1 c c' length turn more next, eq, cons)
              (elim (later c' (e' ∷ es'') (reads' ∙ ap (λ (xs : List ℕ). some xs) cons)) [
                | inl failed ↦ inl failed
                | inr (fine, rest) ↦
                    inr (fine, more-Filled pool pages s1 ours c.dma_addr e' es'' _ room rest)
              ])
      ]

  pub turn_full :
      (s : Spot) (d : ℕ)
      → s.i ≡ 512
      → pool s.allocated ≡ some d
      → turn_page pool s ≡ some (turned pool pages s d)
  unfolding turn_page
  turn_full s d is_full alloc =
      let test : (s.i == 512) ≡ true = ground arith in rw (test, alloc, turn_page) refl

  -- The loop from a spot on, over a scatter list that lets it go on to the end: either an
  -- allocation fails, or the lists read as the page addresses it came by.
  pub fill-Outcome :
      (n : ℕ) (s : Spot) (c : Cursor) (length : ℕ) (es : List ℕ)
      → s.i ≤ 512
      → IsOurs pool pages s
      → flat n c length ≡ some es
      → Outcome s es (fill pool n s c length)
  unfolding turn_page flat
  fill-Outcome zero s c length es le ours reads = absurd (cc reads)
  fill-Outcome (suc n) s c length es le ours reads = elim (Bool-cases (s.i == 512)) [
    | inr room ↦
        let turn : turn_page pool s ≡ some s = rw (room, turn_page) refl in
        round-Outcome n s s c length es turn (ground arith) ours reads (λ c' es' reads'.
          fill-Outcome n (write_entry s c.dma_addr) c' (length - ctrl_page_size) es' (ground arith)
            ours reads')
    | inl is_full ↦ elim (Option-cases (pool s.allocated)) [
      | inl empty ↦
          let turn : turn_page pool s ≡ none = rw (is_full, empty, turn_page) refl in
          rw (fill_stops pool n s c length turn) (inl ((s.allocated, empty), refl))
      | inr (d, alloc) ↦
          let full : s.i ≡ 512 = ground arith in
          let ours' = turned-IsOurs pool pages s ours full d alloc in
          let now =
            round-Outcome n s (turned pool pages s d) c length es (turn_full s d full alloc)
              (omega arith) ours' reads
              (λ c' es' reads'.
                fill-Outcome n (write_entry (turned pool pages s d) c.dma_addr) c'
                  (length - ctrl_page_size) es' (omega arith) ours' reads') in
          let (e, es'', cons) = flat_cons (suc n) c length es reads in
          elim now [
            | inl failed ↦ inl failed
            | inr (fine, rest) ↦ inr (
              fine,
              subst
                  (λ (xs : List ℕ). Filled pool pages s xs (fill pool (suc n) s c length).1.memory)
                  (sym cons)
                  (turn-Filled pool pages s ours full d alloc e es'' _ (
                    subst
                      (λ (xs : List ℕ).
                        Filled pool pages (turned pool pages s d) xs
                          (fill pool (suc n) s c length).1.memory)
                      cons rest)),
            )
          ]
    ]
  ]
