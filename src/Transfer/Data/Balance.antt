-- ===== src/Transfer/Data/Balance.antt =====
-- `nvme_map_data` and `nvme_unmap_data`: all that a request's data took is given back.

use geminifs_npu_smoke.Prelude.{
  ℕ, ◌+◌, ◌≤◌, ◌<◌, ◌≡◌, ◌⊎◌, inl, inr, refl, Bool, true, false, not, ◌&&◌, Option, none, some,
  List, [], ◌∷◌, ◌++◌, arith, leb, ◌==◌, if◌then◌else◌, length, Bool-cases, Option-cases, ==_refl,
  negsuc,
}
use geminifs_npu_smoke.Transfer.{
  Memory, Pools, sts_ok, sts_resource, Iod, setup_prps, ctrl_page_size,
}
use geminifs_npu_smoke.Transfer.Lists.{IsPagePool}
use geminifs_npu_smoke.Transfer.Bytes.{total, IsPaged}
use geminifs_npu_smoke.Transfer.Start.{IsSmallPool}
use geminifs_npu_smoke.Transfer.Prps.{setup_prps-Carries}
use geminifs_npu_smoke.Transfer.Released.{Frees-none, Released, HasNoLists, release_prps}
use geminifs_npu_smoke.Transfer.Tidy.{setup_prps-Tidy}
use geminifs_npu_smoke.Transfer.Sgl.{setup_sgls}
use geminifs_npu_smoke.Transfer.Sgl.Released.{setup_sgls-SglTidy}
use geminifs_npu_smoke.Transfer.Data.{
  IoEvent, map_page, unmap_page, take_sg, give_sg, map_sg, unmap_sg, Rq, Dptr, DataState,
  pci_use_sgls, setup_prp_simple, setup_sgl_simple, conclude, map_lists, map_scattered, map_data,
  free_lists, unmap_data, refused, not_mapped, one_page, after_prps, after_sgls, happens,
}

-- What is mapped or taken at a time.
pub record Open : Type 0 where
  pub pages : List ℕ
  pub has_sg : Bool
  pub is_mapped : Bool

-- One step, none where it gives back what is not there or in the wrong order.
unfoldable pub step : IoEvent → Open → Option Open
step (map_page a) o = some (record o { pages = a ∷ o.pages })
step (unmap_page a) o = elim o.pages [
  | [] ↦ none
  | b ∷ bs ↦ if a == b then some (record o { pages = bs }) else none
]
step take_sg o = if o.has_sg then none else some (record o { has_sg = true })
step give_sg o = if o.has_sg && not o.is_mapped then some (record o { has_sg = false }) else none
step map_sg o = if o.has_sg && not o.is_mapped then some (record o { is_mapped = true }) else none
step unmap_sg o = if o.is_mapped then some (record o { is_mapped = false }) else none

unfoldable pub steps : List IoEvent → Open → Option Open
unfolding step
steps [] o = some o
steps (e ∷ es) o = elim (step e o) [ none ↦ none | some o' ↦ steps es o' ]

abbrev pub closed : Open
closed = record { pages = []; has_sg = false; is_mapped = false }

back : (addr : ℕ) → steps (map_page addr ∷ unmap_page addr ∷ []) closed ≡ some closed
unfolding steps step
back addr = rw (==_refl addr, steps, step) refl

-- Everything was given back in order, and each list of a pool was freed once, under its address.
pub record IsBalanced (pools : Pools) (d : DataState) : Type 0 where
  pub ends : steps d.events closed ≡ some closed
  pub released : Released pools d.taken d.freed

-- A request whose data was not mapped yet.
pub record IsFresh (d : DataState) : Type 0 where
  pub no_events : d.events ≡ []
  pub none_freed : d.freed ≡ []
  pub none_taken : d.taken ≡ 0
  pub no_lists : d.iod.npages ≡ negsuc 0

-- A failed mapping is balanced, and a successful one once it is unmapped.
abbrev pub Balances : Pools → ℕ → DataState → Type 0
Balances pools sges r =
    ((r.status ≡ sts_resource) × IsBalanced pools r)
    ⊎ ((r.status ≡ sts_ok) × IsBalanced pools (unmap_data sges r))

-- A request whose data has at least one byte, in non-empty segments that are split on pages, and is
-- mapped to no more segments than it has and than a page holds descriptors.
pub record IsMappable (sges : ℕ) (rq : Rq) : Type 0 where
  pub some_bytes : 0 < rq.bv_len
  pub paged : IsPaged (rq.sg ∷ rq.rest)
  pub holds : rq.payload_bytes ≤ total (rq.sg ∷ rq.rest)
  pub fits : rq.nr_mapped ≤ sges
  pub there : rq.nr_mapped ≤ length (rq.sg ∷ rq.rest)

module _ (pools : Pools) (sges : ℕ) where
  failed-Balances :
      (r : DataState)
      → r.status ≡ sts_resource
      → steps r.events closed ≡ some closed
      → Released pools r.taken r.freed
      → Balances pools sges r
  failed-Balances r e ends released = inl (e, record { ends = ends; released = released })

  -- A set-up with the scatter list mapped, by its status.
  conclude-Balances :
      (r : DataState)
      → r.events ≡ take_sg ∷ map_sg ∷ []
      → r.dma_len ≡ 0
      → ((r.status ≡ sts_resource) × Released pools r.taken r.freed)
        ⊎ ((r.status ≡ sts_ok) × Released pools r.taken (r.freed ++ free_lists sges r))
      → Balances pools sges (conclude r)
  unfolding conclude unmap_data steps step
  conclude-Balances r events unmapped (inl (e, released)) =
      rw (e, conclude) (failed-Balances _ e (rw events refl) released)
  conclude-Balances r events unmapped (inr (e, released)) =
      rw (e, conclude)
        (inr (e, rw (unmapped, unmap_data) (record { ends = rw events refl; released = released })))

  module _ (small : IsSmallPool pools.prp_small_pool) (pages : IsPagePool pools.prp_page_pool) where
    prps-Tidy :
        (memory : Memory) (iod : Iod)
        → HasNoLists iod
        → (rq : Rq) → IsMappable sges rq
        → let r = setup_prps pools memory iod rq.payload_bytes rq.sg rq.rest in
          ((r.status ≡ sts_resource) × Released pools r.taken r.freed)
          ⊎ ((r.status ≡ sts_ok) × (r.freed ≡ []) × Released pools r.taken (release_prps r))
    prps-Tidy memory iod fresh rq ok =
        let (failed, fine) =
          setup_prps-Tidy pools rq.sg memory iod fresh pages rq.payload_bytes rq.rest in
        elim (setup_prps-Carries pools memory iod rq.sg rq.rest rq.payload_bytes ok.paged ok.holds
          small pages) [
            | inl (e, _) ↦ inl (e, failed e)
            | inr (e, _) ↦ let (none_yet, released) = fine e in inr (e, none_yet, released)
          ]

    module _ (d : DataState) (fresh : IsFresh d) (rq : Rq) where
      fresh-Released : Released pools d.taken d.freed
      fresh-Released =
          rw (fresh.none_taken, fresh.none_freed) (inl (Frees-none pools.prp_small_pool))

      one_page-Balances :
          (addr : ℕ) (dptr : Dptr) (flags : ℕ)
          → 0 < rq.bv_len
          → Balances pools sges (one_page d rq addr dptr flags)
      unfolding unmap_data steps step
      one_page-Balances addr dptr flags l =
          let some_bytes : (rq.bv_len == 0) ≡ false = ground arith in
          inr (
            refl,
            rw (some_bytes, unmap_data)
                (record { ends = rw fresh.no_events (back addr); released = fresh-Released }),
          )

      simple-Balances :
          0 < rq.bv_len
          → Balances pools sges (setup_prp_simple d rq)
            × Balances pools sges (setup_sgl_simple d rq)
      unfolding setup_prp_simple setup_sgl_simple steps
      simple-Balances l = elim (Option-cases rq.dma_map_bvec) [
        | inl bad ↦
            rw (bad, setup_prp_simple, setup_sgl_simple)
              (let ends =
                  failed-Balances (not_mapped d) refl (rw fresh.no_events refl) fresh-Released in
                (ends, ends))
        | inr (addr, mapped) ↦
            rw (mapped, setup_prp_simple, setup_sgl_simple)
              (one_page-Balances addr _ _ l, one_page-Balances addr _ _ l)
      ]

      module _ (ok : IsMappable sges rq) where
        abbrev mapped_sg : DataState
        mapped_sg = happens (record d { dma_len = 0 }) (take_sg ∷ map_sg ∷ [])

        map_lists-Balances : Balances pools sges (map_lists pools sges mapped_sg rq)
        unfolding map_lists free_lists
        map_lists-Balances =
            let events : mapped_sg.events ≡ take_sg ∷ map_sg ∷ [] = rw fresh.no_events refl in
            elim (Bool-cases (pci_use_sgls rq)) [
              | inl sgls ↦
                  let r = setup_sgls pools sges d.descs d.iod rq.sg rq.rest rq.nr_mapped in
                  rw (sgls, map_lists)
                    (conclude-Balances (after_sgls (record mapped_sg { use_sgl = true }) r) events
                      refl
                      (elim (setup_sgls-SglTidy pools sges d.descs d.iod fresh.no_lists rq.sg
                        rq.rest rq.nr_mapped ok.fits ok.there) [
                          | inl (e, released) ↦ inl (e, rw fresh.none_freed released)
                          | inr (e, none_yet, released) ↦
                              inr (e, rw (fresh.none_freed, none_yet) released)
                        ]))
              | inr prps ↦
                  let r = setup_prps pools d.memory d.iod rq.payload_bytes rq.sg rq.rest in
                  rw (prps, map_lists)
                    (conclude-Balances (after_prps (record mapped_sg { use_sgl = false }) r) events
                      refl
                      (elim (prps-Tidy d.memory d.iod fresh.no_lists rq ok) [
                        | inl (e, released) ↦ inl (e, rw fresh.none_freed released)
                        | inr (e, none_yet, released) ↦
                            inr (e, rw (fresh.none_freed, none_yet) released)
                      ]))
            ]

        map_scattered-Balances : Balances pools sges (map_scattered pools sges d rq)
        unfolding map_scattered steps step
        map_scattered-Balances =
            let d0 = record d { dma_len = 0 } in
            let given_back =
              failed-Balances (refused (happens d0 (take_sg ∷ give_sg ∷ []))) refl
                (rw fresh.no_events refl) fresh-Released in
            elim (Bool-cases rq.mempool_alloc) [
              | inr none_left ↦
                  rw (none_left, map_scattered)
                    (failed-Balances (refused d0) refl (rw fresh.no_events refl) fresh-Released)
              | inl given ↦ elim (Bool-cases (rq.nents == 0)) [
                | inl no_ents ↦ rw (given, no_ents, map_scattered) given_back
                | inr ents ↦ elim (Bool-cases (rq.nr_mapped == 0)) [
                  | inl unmapped ↦ rw (given, ents, unmapped, map_scattered) given_back
                  | inr mapped ↦ rw (given, ents, mapped, map_scattered) map_lists-Balances
                ]
              ]
            ]

        -- For a request that is mappable and not mapped yet, and pools whose memory is aligned and,
        -- for pages, not given out twice: `nvme_map_data` answers BLK_STS_RESOURCE or BLK_STS_OK. In
        -- the first case it has unmapped what it mapped and given back a scatter list that it took,
        -- in this order, and freed each PRP or SGL list that a pool gave once, under its own DMA
        -- address. In the second case the same holds after `nvme_unmap_data`.
        pub map_data-Balances : Balances pools sges (map_data pools sges d rq)
        unfolding map_data
        map_data-Balances =
            let (prp, sgl) = simple-Balances ok.some_bytes in
            elim (Bool-cases (rq.nr_phys_segments == 1 && not rq.is_p2pdma)) [
              | inr many ↦ rw (many, map_data) map_scattered-Balances
              | inl one ↦
                  elim (Bool-cases
                    (leb (rq.bv_offset + rq.bv_len) (ctrl_page_size + ctrl_page_size))) [
                      | inl fits ↦ rw (one, fits, map_data) prp
                      | inr long ↦
                          elim (Bool-cases (
                            not (rq.qid == 0) && not (rq.sgl_threshold == 0) && rq.sgl_supported)) [
                              | inl sgls ↦ rw (one, long, sgls, map_data) sgl
                              | inr lists ↦ rw (one, long, lists, map_data) map_scattered-Balances
                            ]
                    ]
            ]
