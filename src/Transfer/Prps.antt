-- ===== src/Transfer/Prps.antt =====
-- `nvme_pci_setup_prps` as a whole: the device reads and writes the bytes of the scatter list.
use geminifs_npu_smoke.Prelude.{
  ℕ, suc, ◌-◌, ◌≤◌, ◌≡◌, ◌⊎◌, inl, inr, refl, ap, sym, subst, ◌∙◌, true, false, none, some, List,
  ◌∷◌, arith, leb, length, Bool-cases, Option-cases,
}
use geminifs_npu_smoke.Scatter.{Segment}
use geminifs_npu_smoke.Transfer.{
  Memory, Pools, Iod, Status, sts_ok, sts_resource, SetUp, Spot, first_spot, entry, fill,
  settle_fill, setup_list, setup_rest, setup_prps, ctrl_page_size, div_round_up,
}
use geminifs_npu_smoke.Transfer.Device.{walk, first_bytes, prp_entries}
use geminifs_npu_smoke.Transfer.Lists.{flat, flat_split, IsPagePool}
use geminifs_npu_smoke.Transfer.Rounds.{fill-Outcome}
use geminifs_npu_smoke.Transfer.Small.{fill-SmallFilled}
use geminifs_npu_smoke.Transfer.Bytes.{total, IsPaged}
use geminifs_npu_smoke.Transfer.Start.{
  Start, Start-of, IsSmallPool, Carries, entries-Carries, no_entries-Carries,
}

-- A set-up fails for want of memory, where a pool was empty, or carries the data.
abbrev pub PrpOutcome : Pools → Segment → List Segment → ℕ → SetUp → Type 0
PrpOutcome pools sg rest payload r =
    ((r.status ≡ sts_resource)
      × (((k : ℕ) × (pools.prp_small_pool k ≡ none)) ⊎ ((k : ℕ) × (pools.prp_page_pool k ≡ none))))
    ⊎ ((r.status ≡ sts_ok) × Carries sg rest payload r)

settle_ok :
    (sg : Segment) (d : ℕ) (r : Status × Spot)
    → r.0 ≡ sts_ok
    → ((settle_fill sg d r).status ≡ sts_ok)
      × ((settle_fill sg d r).dptr ≡ some (sg.addr, d))
      × ((settle_fill sg d r).memory ≡ r.1.memory)
unfolding settle_fill
settle_ok sg d (status, s) fine = rw fine (refl, refl, refl)

settle_resource :
    (sg : Segment) (d : ℕ) (r : Status × Spot)
    → r.0 ≡ sts_resource
    → (settle_fill sg d r).status ≡ sts_resource
unfolding settle_fill
settle_resource sg d (status, s) failed = rw failed refl

list_entries :
    (memory : Memory) (prp1 d payload : ℕ)
    → leb payload (first_bytes prp1) ≡ false
    → leb (payload - first_bytes prp1) ctrl_page_size ≡ false
    → prp_entries memory prp1 d payload
      ≡ walk memory d (div_round_up (payload - first_bytes prp1) ctrl_page_size)
unfolding prp_entries
list_entries memory prp1 d payload more many = rw (more, many, prp_entries) refl

module _ (pools : Pools) (memory : Memory) (iod : Iod) where
  module _ (sg : Segment) (rest : List Segment) (payload : ℕ) where
    module _ (paged : IsPaged (sg ∷ rest)) (has : payload ≤ total (sg ∷ rest)) where
      module _ (more : leb payload (first_bytes sg.addr) ≡ false) (s : Start sg rest payload) where
        abbrev left : ℕ
        left = payload - first_bytes sg.addr

        abbrev nprps : ℕ
        nprps = div_round_up left ctrl_page_size

        -- A list at `d` that reads as the pages.
        list-Carries :
            (d : ℕ) (r : Status × Spot)
            → leb left ctrl_page_size ≡ false
            → r.0 ≡ sts_ok
            → walk r.1.memory (entry d 0) (length s.covers.pages) ≡ s.covers.pages
            → Carries sg rest payload (settle_fill sg d r)
        list-Carries d r many fine reads =
            let (_, written, kept) = settle_ok sg d r fine in
            entries-Carries sg rest payload paged has s (settle_fill sg d r) d written (
              list_entries (settle_fill sg d r).memory sg.addr d payload more many
              ∙ ap (λ (m : Memory). walk m d nprps) kept
              ∙ ap (λ (a : ℕ). walk r.1.memory a nprps) (omega arith)
              ∙ ap (λ (n : ℕ). walk r.1.memory (entry d 0) n) (sym s.covers.number)
              ∙ reads)

        small-Outcome :
            IsSmallPool pools.prp_small_pool
            → leb left ctrl_page_size ≡ false
            → leb nprps 32 ≡ true
            → PrpOutcome pools sg rest payload
                (setup_list pools.prp_small_pool 0 memory iod sg s.cursor left)
        unfolding setup_list
        small-Outcome small many few = elim (Option-cases (pools.prp_small_pool 0)) [
          | inl empty ↦ rw (empty, setup_list) (inl (refl, inl (0, empty)))
          | inr (d, alloc) ↦
              let filled =
                fill-SmallFilled pools.prp_small_pool nprps (first_spot memory d 0) s.cursor left
                  s.covers.pages (small.aligned 0 d alloc) (ground (arith, s.covers.number))
                  s.covers.reads in
              let r = fill pools.prp_small_pool nprps (first_spot memory d 0) s.cursor left in
              rw (alloc, setup_list)
                (inr (
                  (settle_ok sg d r filled.status).0,
                  list-Carries d r many filled.status filled.reads,
                ))
        ]

        page-Outcome :
            IsPagePool pools.prp_page_pool
            → leb left ctrl_page_size ≡ false
            → PrpOutcome pools sg rest payload
                (setup_list pools.prp_page_pool 1 memory iod sg s.cursor left)
        unfolding setup_list
        page-Outcome pages many = elim (Option-cases (pools.prp_page_pool 0)) [
          | inl empty ↦ rw (empty, setup_list) (inl (refl, inr (0, empty)))
          | inr (d, alloc) ↦
              let spot = first_spot memory d 1 in
              let r = fill pools.prp_page_pool nprps spot s.cursor left in
              rw (alloc, setup_list)
                (elim (fill-Outcome pools.prp_page_pool pages nprps spot s.cursor left
                  s.covers.pages (omega arith) (0, omega arith, alloc) s.covers.reads) [
                    | inl (empty, failed) ↦ inl (settle_resource sg d r failed, inr empty)
                    | inr (fine, filled) ↦ inr (
                      (settle_ok sg d r fine).0,
                      list-Carries d r many fine (filled.below (omega arith)),
                    )
                  ])
        ]

        one_entry :
            leb left ctrl_page_size ≡ true
            → prp_entries memory sg.addr s.cursor.dma_addr payload ≡ s.covers.pages
        unfolding prp_entries
        one_entry few =
            let some_left : nprps ≡ suc (nprps - 1) = ground arith in
            let reads =
              subst (λ (n : ℕ). flat n s.cursor left ≡ some s.covers.pages) some_left
                s.covers.reads in
            rw (more, few, prp_entries)
              (elim (flat_split (nprps - 1) s.cursor left s.covers.pages reads) [
                | inl (_, only) ↦ sym only
                | inr (many, _, _, _, _, _) ↦ absurd (cc (few, many))
              ])

        rest-Outcome :
            IsSmallPool pools.prp_small_pool
            → IsPagePool pools.prp_page_pool
            → PrpOutcome pools sg rest payload (setup_rest pools memory iod sg s.cursor left)
        unfolding setup_rest
        rest-Outcome small pages = elim (Bool-cases (leb left ctrl_page_size)) [
          | inl few ↦
              rw (few, setup_rest)
                (inr (
                  refl,
                  entries-Carries sg rest payload paged has s _ s.cursor.dma_addr refl
                      (one_entry few),
                ))
          | inr many ↦ elim (Bool-cases (leb nprps 32)) [
            | inl fits ↦ rw (many, fits, setup_rest) (small-Outcome small many fits)
            | inr large ↦ rw (many, large, setup_rest) (page-Outcome pages many)
          ]
        ]

      -- For a scatter list of non-empty segments that the block layer splits on pages, a payload that
      -- it holds, and pools whose memory is aligned and, for pages, not given out twice,
      -- `nvme_pci_setup_prps` fails only with BLK_STS_RESOURCE where a pool was empty; else it is
      -- successful, and a controller that reads PRP1, PRP2 and the lists as the NVMe specification says
      -- finds only page-aligned entries after PRP1 and takes each byte of the payload to the address
      -- that the scatter list gives it.
      pub setup_prps-Carries :
          IsSmallPool pools.prp_small_pool
          → IsPagePool pools.prp_page_pool
          → PrpOutcome pools sg rest payload (setup_prps pools memory iod payload sg rest)
      unfolding setup_prps
      setup_prps-Carries small pages = elim (Bool-cases (leb payload (first_bytes sg.addr))) [
        | inl fits ↦
            rw (fits, setup_prps)
              (inr (refl, no_entries-Carries sg rest payload paged has _ refl fits))
        | inr more ↦
            let s = Start-of sg rest payload paged has (ground arith) in
            rw (more, s.skips, setup_prps) (rest-Outcome more s small pages)
      ]
