-- ===== src/Transfer/Chain.antt =====
-- `nvme_free_prps`: the chain through the last entries leads from each list to the next, so that each
-- is freed under the address that the pool gave it.
use geminifs_npu_smoke.Prelude.{
  ℕ, zero, suc, ◌+◌, ◌-◌, ◌≤◌, ◌<◌, ◌≡◌, ◌≢◌, inl, inr, refl, ap, sym, ◌∙◌, none, some, List, [],
  ◌∷◌, ◌++◌, map, arith, leb, ◌==◌, if◌then◌else◌, length, get_elem?, Bool-cases, Option-cases,
  length-append,
}
use geminifs_npu_smoke.Transfer.{
  Memory, Pool, Cursor, next_cursor, Spot, ctrl_page_size, entry, turn_page, write_entry, fill,
  free_chain, first_spot,
}
use geminifs_npu_smoke.Transfer.Lists.{IsPagePool, entry_apart, fill_stops, Next-cases}
use geminifs_npu_smoke.Transfer.Filled.{
  turned, new_page, turned_last, turned_others, turned-IsOurs, on_page, write-others,
}
use geminifs_npu_smoke.Transfer.Rounds.{turn_full}

module _ (pool : Pool) where
  -- Each list but the last, which is `p`, points to the next, and is one of the first `k` allocations.
  pub ChainTo : Memory → ℕ → ℕ → List ℕ → Type 0
  ChainTo m p k [] = ⊥
  ChainTo m p k (d ∷ []) = d ≡ p
  ChainTo m p k (d ∷ e ∷ ls) =
      (m (entry d 511) ≡ e)
      × (d ≢ p)
      × ((j : ℕ) × (j < k) × (pool j ≡ some d))
      × ChainTo m p k (e ∷ ls)

  -- The lists are what was allocated, in order, and `npages` counts them.
  pub record IsChained (s : Spot) : Type 0 where
    pub in_list : s.i ≤ 512
    pub ours : (j : ℕ) × (j < s.allocated) × (pool j ≡ some s.prp_list)
    pub chain : ChainTo s.memory s.prp_list s.allocated s.lists
    pub counted : s.npages ≡ length s.lists
    pub number : length s.lists ≡ s.allocated
    pub each : (j : ℕ) → j < s.allocated → get_elem? s.lists j ≡ pool j

  ChainTo-same :
      (m m' : Memory) (p k : ℕ) (ls : List ℕ)
      → ((j d : ℕ) → j < k → pool j ≡ some d → d ≢ p → m' (entry d 511) ≡ m (entry d 511))
      → ChainTo m p k ls
      → ChainTo m' p k ls
  unfolding ChainTo
  ChainTo-same m m' p k [] same chain = chain
  ChainTo-same m m' p k (d ∷ []) same chain = chain
  ChainTo-same m m' p k (d ∷ e ∷ ls) same (link, ne, (j, l, alloc), chain) =
      (same j d l alloc ne ∙ link, ne, (j, l, alloc), ChainTo-same m m' p k (e ∷ ls) same chain)

  -- One more list at the end of the chain.
  ChainTo-snoc :
      (m m' : Memory) (p k d : ℕ) (ls : List ℕ)
      → m' (entry p 511) ≡ d
      → p ≢ d
      → ((j : ℕ) × (j < k) × (pool j ≡ some p))
      → ((j d' : ℕ) → j < k → pool j ≡ some d' → d' ≢ d)
      → ((j d' : ℕ) → j < k → pool j ≡ some d' → d' ≢ p → m' (entry d' 511) ≡ m (entry d' 511))
      → ChainTo m p k ls
      → ChainTo m' d (k + 1) (ls ++ d ∷ [])
  unfolding ChainTo
  ChainTo-snoc m m' p k d [] link ne ours old same chain = refl
  ChainTo-snoc m m' p k d (x ∷ []) link ne (j, l, alloc) old same chain = (
    ap (λ (y : ℕ). m' (entry y 511)) chain ∙ link,
    (λ e. ne (sym chain ∙ e)),
    (j, omega arith, alloc ∙ ap (λ (y : ℕ). some y) (sym chain)),
    refl,
  )
  ChainTo-snoc m m' p k d (x ∷ y ∷ ls) link ne ours old same (next, other, (j, l, alloc), chain) = (
    same j x l alloc other ∙ next,
    old j x l alloc,
    (j, omega arith, alloc),
    ChainTo-snoc m m' p k d (y ∷ ls) link ne ours old same chain,
  )

  pub free_chain_lem :
      (m : Memory) (p k d : ℕ) (ls : List ℕ)
      → ChainTo m p k (d ∷ ls)
      → free_chain m d (d ∷ ls) ≡ map (λ (l : ℕ). (l, l)) (d ∷ ls)
  unfolding ChainTo free_chain
  free_chain_lem m p k d [] chain = refl
  free_chain_lem m p k d (e ∷ ls) (link, _, _, chain) =
      ap (λ (xs : List (ℕ × ℕ)). (d, d) ∷ xs)
        (ap (λ (a : ℕ). free_chain m a (e ∷ ls)) link ∙ free_chain_lem m p k e ls chain)

  get_elem?-snoc :
      (ls : List ℕ) (d j : ℕ)
      → get_elem? (ls ++ d ∷ []) j ≡ (if j == length ls then some d else get_elem? ls j)
  get_elem?-snoc [] d zero = refl
  get_elem?-snoc [] d (suc j) = ground arith
  get_elem?-snoc (x ∷ ls) d zero = ground arith
  get_elem?-snoc (x ∷ ls) d (suc j) = ground (arith, get_elem?-snoc ls d j)

  pub first-IsChained :
      (memory : Memory) (d : ℕ) → pool 0 ≡ some d → IsChained (first_spot memory d 1)
  unfolding ChainTo
  first-IsChained memory d alloc = record {
    in_list = omega arith;
    ours = (0, omega arith, alloc);
    chain = refl;
    counted = refl;
    number = refl;
    each = λ j l. let first : j ≡ 0 = omega arith in rw first (sym alloc);
  }

  module _ (pages : IsPagePool pool) where
    write-IsChained : (s : Spot) (v : ℕ) → s.i < 512 → IsChained s → IsChained (write_entry s v)
    write-IsChained s v l c = record {
      in_list = omega arith;
      ours = c.ours;
      chain =
          ChainTo-same s.memory (write_entry s v).memory s.prp_list s.allocated s.lists
            (λ j d lj alloc ne. write-others pool pages s c.ours v j d 511 l alloc ne (omega arith))
            c.chain;
      counted = c.counted;
      number = c.number;
      each = c.each;
    }

    turned-IsChained :
        (s : Spot) (d : ℕ)
        → s.i ≡ 512
        → pool s.allocated ≡ some d
        → IsChained s
        → IsChained (turned pool pages s d)
    turned-IsChained s d full alloc c =
        let ne = new_page pool pages s c.ours full d alloc in
        record {
          in_list = omega arith;
          ours = turned-IsOurs pool pages s c.ours full d alloc;
          chain =
              ChainTo-snoc s.memory (turned pool pages s d).memory s.prp_list s.allocated d s.lists
                (turned_last pool pages s c.ours full d alloc) ne c.ours
                (λ j d' l old same. absurd (
                  omega (
                    arith,
                    pages.apart j s.allocated d (old ∙ ap (λ (v : ℕ). some v) same) alloc,
                    l,
                  )))
                (λ j d' l old differ.
                  turned_others pool pages s c.ours full d alloc j d' 511 l old (omega arith) (
                    entry_apart d' s.prp_list 511 511 (pages.aligned j d' old)
                      (on_page pool pages s c.ours) differ (omega arith) (omega arith)))
                c.chain;
          counted = omega (arith, c.counted, length-append {0} s.lists (d ∷ []));
          number = omega (arith, c.number, length-append {0} s.lists (d ∷ []));
          each = λ j l. get_elem?-snoc s.lists d j ∙ elim (Bool-cases (j == length s.lists)) [
            | inl last ↦
                let same : s.allocated ≡ j = ground (arith, c.number) in
                rw last (sym alloc ∙ ap pool same)
            | inr earlier ↦ rw earlier (c.each j (ground (arith, c.number)))
          ];
        }

    round-IsChained :
        (n : ℕ) (s s1 : Spot) (c : Cursor) (left : ℕ)
        → turn_page pool s ≡ some s1
        → s1.i < 512
        → IsChained s1
        → ((c' : Cursor)
            → IsChained (fill pool n (write_entry s1 c.dma_addr) c' (left - ctrl_page_size)).1)
        → IsChained (fill pool (suc n) s c left).1
    unfolding fill
    round-IsChained n s s1 c left turn room chained later =
        let here = write-IsChained s1 c.dma_addr room chained in
        elim (Bool-cases (leb left ctrl_page_size)) [
          | inl done ↦ rw (turn, done, fill) here
          | inr more ↦ elim (Next-cases (next_cursor c)) [
            | inl (c', next) ↦ rw (turn, more, next, fill) (later c')
            | inr (inl bad) ↦ rw (turn, more, bad, fill) here
            | inr (inr null) ↦ rw (turn, more, null, fill) here
          ]
        ]

    -- However the loop ends.
    pub fill-IsChained :
        (n : ℕ) (s : Spot) (c : Cursor) (left : ℕ)
        → IsChained s
        → IsChained (fill pool n s c left).1
    unfolding fill turn_page
    fill-IsChained zero s c left chained = chained
    fill-IsChained (suc n) s c left chained = elim (Bool-cases (s.i == 512)) [
      | inr room ↦
          let turn : turn_page pool s ≡ some s = rw (room, turn_page) refl in
          let l : s.i < 512 = ground (arith, chained.in_list) in
          round-IsChained n s s c left turn l chained (λ c'.
            fill-IsChained n (write_entry s c.dma_addr) c' (left - ctrl_page_size)
              (write-IsChained s c.dma_addr l chained))
      | inl is_full ↦
          let full : s.i ≡ 512 = ground arith in
          elim (Option-cases (pool s.allocated)) [
            | inl empty ↦
                let turn : turn_page pool s ≡ none = rw (is_full, empty, turn_page) refl in
                rw (fill_stops pool n s c left turn) chained
            | inr (d, alloc) ↦
                let s1 = turned pool pages s d in
                let chained' = turned-IsChained s d full alloc chained in
                round-IsChained n s s1 c left (turn_full pool pages s d full alloc) (omega arith)
                  chained'
                  (λ c'.
                    fill-IsChained n (write_entry s1 c.dma_addr) c' (left - ctrl_page_size)
                      (write-IsChained s1 c.dma_addr (omega arith) chained'))
          ]
    ]
