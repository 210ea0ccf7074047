-- ===== src/Transfer/Sgl/Released.antt =====
-- The list of an SGL is freed as it was allocated.
use geminifs_npu_smoke.Prelude.{
  ℕ, zero, suc, ◌≤◌, ◌≡◌, ◌⊎◌, inl, inr, refl, List, [], ◌∷◌, arith, leb, ◌==◌, length, Bool-cases,
  Option-cases, pos,
}
use geminifs_npu_smoke.Scatter.{Segment}
use geminifs_npu_smoke.Transfer.{Pool, Pools, Status, sts_ok, sts_resource, Iod}
use geminifs_npu_smoke.Transfer.Released.{
  Frees, Frees-none, Frees-one, Released, HasNoLists, release_lists,
}
use geminifs_npu_smoke.Transfer.Sgl.{
  Descs, SglDesc, SglSpot, SglSetUp, sgl_set_seg, fill_sgl, free_sgl_chain, free_sgls, settle_sgl,
  first_sgl, setup_sgl_list, setup_sgls,
}
use geminifs_npu_smoke.Transfer.Sgl.Reads.{fill_sgl-SglFilled}

abbrev pub release_sgls : ℕ → SglSetUp → List (ℕ × ℕ)
release_sgls sges r =
    release_lists r.iod.npages r.iod.lists r.iod.first_dma (free_sgls sges r.descs r.iod)

-- A set-up's list is freed on failure, and by the release after success.
abbrev pub SglTidy : Pools → ℕ → SglSetUp → Type 0
SglTidy pools sges r =
    ((r.status ≡ sts_resource) × Released pools r.taken r.freed)
    ⊎ ((r.status ≡ sts_ok) × (r.freed ≡ []) × Released pools r.taken (release_sgls sges r))

release_one :
    (sges : ℕ) (descs : Descs) (d n : ℕ) (ls : List ℕ)
    → n ≤ 1
    → ls ≡ d ∷ []
    → let iod : Iod = record { npages = pos n; first_dma = d; lists = ls } in
      release_lists (pos n) ls d (free_sgls sges descs iod) ≡ (d, d) ∷ []
unfolding free_sgls free_sgl_chain
release_one sges descs d zero ls l one = rw one refl
release_one sges descs d (suc zero) ls l one = rw one refl
release_one sges descs d (suc (suc n)) ls l one = absurd (omega arith)

settle_sgl-one :
    (sges : ℕ) (dptr : SglDesc) (d : ℕ) (r : Status × SglSpot)
    → r.1.npages ≤ 1
    → r.0 ≡ sts_ok
    → r.1.lists ≡ d ∷ []
    → r.1.allocated ≡ 1
    → let u = settle_sgl sges dptr d r in
      (u.status ≡ sts_ok) × (u.freed ≡ []) × (u.taken ≡ 1) × (release_sgls sges u ≡ (d, d) ∷ [])
unfolding settle_sgl
settle_sgl-one sges dptr d (status, s) l fine lists allocated =
    (fine, rw fine refl, allocated, release_one sges s.descs d s.npages s.lists l lists)

module _ (pools : Pools) (sges : ℕ) (descs : Descs) (iod : Iod) (fresh : HasNoLists iod) where
  list-SglTidy :
      (pool : Pool) (npages : ℕ) (sgs : List Segment) (entries : ℕ)
      → npages ≤ 1
      → entries ≤ sges
      → entries ≤ length sgs
      → ((frees : List (ℕ × ℕ)) → Frees pool 1 frees → Released pools 1 frees)
      → SglTidy pools sges (setup_sgl_list pool npages sges descs iod sgs entries)
  unfolding setup_sgl_list
  list-SglTidy pool npages sgs entries l bound has within = elim (Option-cases (pool 0)) [
    | inl empty ↦ rw (empty, setup_sgl_list) (inl (refl, inl (Frees-none pools.prp_small_pool)))
    | inr (d, alloc) ↦
        let seg = sgl_set_seg sges d entries in
        let r = fill_sgl pool sges entries (first_sgl descs d npages) sgs in
        let filled =
          fill_sgl-SglFilled pool sges entries (first_sgl descs d npages) sgs (omega arith) has in
        let (fine, none_freed, taken, released) =
          settle_sgl-one sges seg d r (omega (arith, filled.npages)) filled.status filled.lists
            filled.allocated in
        rw (alloc, setup_sgl_list)
          (inr (
            fine,
            none_freed,
            rw (taken, released) (within ((d, d) ∷ []) (Frees-one pool d alloc)),
          ))
  ]

  -- For no more mapped segments than a page holds descriptors and the scatter list has.
  pub setup_sgls-SglTidy :
      (sg : Segment) (rest : List Segment) (entries : ℕ)
      → entries ≤ sges
      → entries ≤ length (sg ∷ rest)
      → SglTidy pools sges (setup_sgls pools sges descs iod sg rest entries)
  unfolding setup_sgls free_sgls
  setup_sgls-SglTidy sg rest entries bound has = elim (Bool-cases (entries == 1)) [
    | inl one ↦
        rw (one, setup_sgls) (inr (refl, refl, rw fresh (inl (Frees-none pools.prp_small_pool))))
    | inr many ↦ elim (Bool-cases (leb entries 16)) [
      | inl few ↦
          rw (many, few, setup_sgls)
            (list-SglTidy pools.prp_small_pool 0 (sg ∷ rest) entries (omega arith) bound has
              (λ frees f. inl f))
      | inr more ↦
          rw (many, more, setup_sgls)
            (list-SglTidy pools.prp_page_pool 1 (sg ∷ rest) entries (omega arith) bound has
              (λ frees f. inr f))
    ]
  ]
