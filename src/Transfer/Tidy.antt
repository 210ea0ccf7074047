-- ===== src/Transfer/Tidy.antt =====
-- `nvme_pci_setup_prps` and the release of what it took.

use geminifs_npu_smoke.Prelude.{
  ℕ, zero, suc, ◌+◌, ◌-◌, ◌%◌, ◌<◌, ◌≡◌, ◌≢◌, inl, inr, refl, ◌∙◌, true, false, some, List, [], ◌∷◌,
  arith, leb, ◌==◌, Bool-cases, Option-cases,
}
use geminifs_npu_smoke.Scatter.{Segment}
use geminifs_npu_smoke.Transfer.{
  Memory, Pool, Pools, Status, sts_ok, sts_resource, sts_ioerr, oops, running, Iod, Cursor,
  next_cursor, Spot, ctrl_page_size, turn_page, write_entry, fill, free_prps, settle_fill,
  first_spot, setup_list, setup_rest, setup_prps, skip_first, finish, div_round_up,
}
use geminifs_npu_smoke.Transfer.Lists.{IsPagePool, Next-cases}
use geminifs_npu_smoke.Transfer.Chain.{IsChained, first-IsChained, fill-IsChained}
use geminifs_npu_smoke.Transfer.Released.{
  Frees, Frees-none, Frees-one, release_prps, Tidy, chain-Frees, some_pages, HasNoLists,
}

-- A loop whose list has room keeps to it.
pub record Stays (s : Spot) (r : Status × Spot) : Type 0 where
  pub lists : r.1.lists ≡ s.lists
  pub npages : r.1.npages ≡ s.npages
  pub allocated : r.1.allocated ≡ s.allocated
  pub goes_on : r.0 ≢ sts_resource

fill-Stays :
    (pool : Pool) (n : ℕ) (s : Spot) (c : Cursor) (left : ℕ)
    → s.i + n < 512
    → Stays s (fill pool n s c left)
unfolding fill turn_page
fill-Stays pool zero s c left room = record {
  lists = refl;
  npages = refl;
  allocated = refl;
  goes_on = λ e. cc e;
}
fill-Stays pool (suc n) s c left room =
    let l : (s.i == 512) ≡ false = ground arith in
    let turn : turn_page pool s ≡ some s = rw (l, turn_page) refl in
    let rest = λ (c' : Cursor).
      fill-Stays pool n (write_entry s c.dma_addr) c' (left - ctrl_page_size) (omega arith) in
    elim (Bool-cases (leb left ctrl_page_size)) [
      | inl done ↦ rw (turn, done, fill) (stopped_at sts_ok (λ e. cc e))
      | inr more ↦ elim (Next-cases (next_cursor c)) [
        | inl (c', next) ↦ rw (turn, more, next, fill) (kept (rest c'))
        | inr (inl bad) ↦ rw (turn, more, bad, fill) (stopped_at sts_ioerr (λ e. cc e))
        | inr (inr null) ↦ rw (turn, more, null, fill) (stopped_at oops (λ e. cc e))
      ]
    ]
  where
    stopped_at :
        (status : Status) → status ≢ sts_resource → Stays s (status, write_entry s c.dma_addr)
    stopped_at status ne = record { lists = refl; npages = refl; allocated = refl; goes_on = ne }

    kept : {r : Status × Spot} → Stays (write_entry s c.dma_addr) r → Stays s r
    kept st = record {
      lists = st.lists;
      npages = st.npages;
      allocated = st.allocated;
      goes_on = st.goes_on;
    }

module _ (pools : Pools) (sg : Segment) where
  settle-Stays :
      (pool : Pool) (d : ℕ) (s : Spot) (r : Status × Spot)
      → pool 0 ≡ some d
      → Stays s r
      → s.lists ≡ d ∷ []
      → s.npages ≡ 0
      → s.allocated ≡ 1
      → ((settle_fill sg d r).status ≢ sts_resource)
        × ((settle_fill sg d r).status ≡ sts_ok
            → ((settle_fill sg d r).freed ≡ [])
              × Frees pool (settle_fill sg d r).taken (release_prps (settle_fill sg d r)))
  unfolding settle_fill
  settle-Stays pool d s (sts_ok, s') alloc st lists npages allocated = (
    (λ e. cc e),
    λ _. (
      refl,
      rw (st.npages ∙ npages, st.lists ∙ lists, st.allocated ∙ allocated) (Frees-one pool d alloc),
    ),
  )
  settle-Stays pool d s (sts_resource, s') alloc st lists npages allocated =
      absurd (st.goes_on refl)
  settle-Stays pool d s (sts_ioerr, s') alloc st lists npages allocated =
      ((λ e. cc e), λ e. absurd (cc e))
  settle-Stays pool d s (oops, s') alloc st lists npages allocated =
      ((λ e. cc e), λ e. absurd (cc e))
  settle-Stays pool d s (running, s') alloc st lists npages allocated =
      ((λ e. cc e), λ e. absurd (cc e))

  settle-Chained :
      (d : ℕ) (r : Status × Spot)
      → pools.prp_page_pool 0 ≡ some d
      → IsChained pools.prp_page_pool r.1
      → Tidy pools (settle_fill sg d r)
  unfolding settle_fill free_prps
  settle-Chained d (sts_ok, s) alloc c =
      let (n, some_n) = some_pages pools.prp_page_pool s d alloc c in
      (
        (λ e. absurd (cc e)),
        λ _. (refl, inr (rw some_n (chain-Frees pools.prp_page_pool s d alloc c))),
      )
  settle-Chained d (sts_resource, s) alloc c =
      ((λ _. inr (chain-Frees pools.prp_page_pool s d alloc c)), λ e. absurd (cc e))
  settle-Chained d (sts_ioerr, s) alloc c = ((λ e. absurd (cc e)), λ e. absurd (cc e))
  settle-Chained d (oops, s) alloc c = ((λ e. absurd (cc e)), λ e. absurd (cc e))
  settle-Chained d (running, s) alloc c = ((λ e. absurd (cc e)), λ e. absurd (cc e))

  module _ (memory : Memory) (iod : Iod) (fresh : HasNoLists iod) where
    finish-Tidy : (v : ℕ) → Tidy pools (finish sg (record iod { first_dma = v }) memory)
    unfolding free_prps
    finish-Tidy v =
        ((λ e. absurd (cc e)), λ _. (refl, rw fresh (inl (Frees-none pools.prp_small_pool))))

    small_list-Tidy :
        (c : Cursor) (left : ℕ)
        → leb (div_round_up left ctrl_page_size) 32 ≡ true
        → Tidy pools (setup_list pools.prp_small_pool 0 memory iod sg c left)
    unfolding setup_list
    small_list-Tidy c left few = elim (Option-cases (pools.prp_small_pool 0)) [
      | inl empty ↦
          rw (empty, setup_list) ((λ _. inl (Frees-none pools.prp_small_pool)), λ e. absurd (cc e))
      | inr (d, alloc) ↦
          let n = div_round_up left ctrl_page_size in
          let spot = first_spot memory d 0 in
          let stays =
            settle-Stays pools.prp_small_pool d spot (fill pools.prp_small_pool n spot c left) alloc
              (fill-Stays pools.prp_small_pool n spot c left (ground arith)) refl refl refl in
          rw (alloc, setup_list)
            (
              (λ e. absurd (stays.0 e)),
              λ e. let (none_freed, frees) = stays.1 e in (none_freed, inl frees),
            )
    ]

    page_list-Tidy :
        IsPagePool pools.prp_page_pool
        → (c : Cursor) (left : ℕ)
        → Tidy pools (setup_list pools.prp_page_pool 1 memory iod sg c left)
    unfolding setup_list
    page_list-Tidy pages c left = elim (Option-cases (pools.prp_page_pool 0)) [
      | inl empty ↦
          rw (empty, setup_list) ((λ _. inl (Frees-none pools.prp_small_pool)), λ e. absurd (cc e))
      | inr (d, alloc) ↦
          rw (alloc, setup_list)
            (settle-Chained d _ alloc (
              fill-IsChained pools.prp_page_pool pages (div_round_up left ctrl_page_size)
                (first_spot memory d 1) c left
                (first-IsChained pools.prp_page_pool memory d alloc)))
    ]

    rest-Tidy :
        IsPagePool pools.prp_page_pool
        → (c : Cursor) (left : ℕ) → Tidy pools (setup_rest pools memory iod sg c left)
    unfolding setup_rest
    rest-Tidy pages c left = elim (Bool-cases (leb left ctrl_page_size)) [
      | inl few ↦ rw (few, setup_rest) (finish-Tidy c.dma_addr)
      | inr many ↦ elim (Bool-cases (leb (div_round_up left ctrl_page_size) 32)) [
        | inl fits ↦ rw (many, fits, setup_rest) (small_list-Tidy c left fits)
        | inr large ↦ rw (many, large, setup_rest) (page_list-Tidy pages c left)
      ]
    ]

    -- For any scatter list and payload.
    pub setup_prps-Tidy :
        IsPagePool pools.prp_page_pool
        → (payload : ℕ) (rest : List Segment)
        → Tidy pools (setup_prps pools memory iod payload sg rest)
    unfolding setup_prps
    setup_prps-Tidy pages payload rest =
        let first = ctrl_page_size - sg.addr % ctrl_page_size in
        elim (Bool-cases (leb payload first)) [
          | inl fits ↦ rw (fits, setup_prps) (finish-Tidy 0)
          | inr more ↦ elim (Next-cases (skip_first sg rest first)) [
            | inl (c, skips) ↦ rw (more, skips, setup_prps) (rest-Tidy pages c (payload - first))
            | inr (inl bad) ↦ rw (more, bad, setup_prps) ((λ e. absurd (cc e)), λ e. absurd (cc e))
            | inr (inr null) ↦
                rw (more, null, setup_prps) ((λ e. absurd (cc e)), λ e. absurd (cc e))
          ]
        ]
