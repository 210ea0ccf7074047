-- ===== src/Transfer/Released.antt =====
-- The lists of a request are freed as they were allocated.
use mathlib.Core.Option
use geminifs_npu_smoke.Prelude.{
  ℕ, zero, suc, ◌<◌, ◌≡◌, ◌⊎◌, refl, ap, sym, subst, ◌∙◌, some, List, [], ◌∷◌, map, arith, length,
  take, get_elem?, get_or, ℤ, pos, negsuc,
}
use geminifs_npu_smoke.Transfer.{
  Pool, Pools, sts_ok, sts_resource, Iod, Spot, free_chain, free_prps, SetUp,
}
use geminifs_npu_smoke.Transfer.Chain.{IsChained, ChainTo, free_chain_lem}

-- A list with the address that it is freed under.
abbrev pub twice : ℕ → ℕ × ℕ
twice d = (d, d)

-- Each of the first `n` allocations of the pool is freed once, under its address.
pub record Frees (pool : Pool) (n : ℕ) (frees : List (ℕ × ℕ)) : Type 0 where
  pub size : length frees ≡ n
  pub each : (j : ℕ) → j < n → get_elem? frees j ≡ Option.map twice (pool j)

abbrev pub Released : Pools → ℕ → List (ℕ × ℕ) → Type 0
Released pools n frees = Frees pools.prp_small_pool n frees ⊎ Frees pools.prp_page_pool n frees

pub Frees-none : (pool : Pool) → Frees pool 0 []
Frees-none pool = record { size = refl; each = λ j l. absurd (omega arith) }

pub Frees-one : (pool : Pool) (d : ℕ) → pool 0 ≡ some d → Frees pool 1 ((d, d) ∷ [])
Frees-one pool d alloc = record {
  size = refl;
  each = λ j l. let first : j ≡ 0 = omega arith in rw (first, alloc) refl;
}

-- The lists that the iod of a successful set-up has freed.
abbrev pub release_lists : ℤ → List ℕ → ℕ → List (ℕ × ℕ) → List (ℕ × ℕ)
release_lists npages lists first_dma chained = elim npages [
  | pos zero ↦ (get_or lists 0 0, first_dma) ∷ []
  | _ ↦ chained
]

abbrev pub release_prps : SetUp → List (ℕ × ℕ)
release_prps r = release_lists r.iod.npages r.iod.lists r.iod.first_dma (free_prps r.memory r.iod)

-- A set-up's lists are freed on failure, and by the release after success.
abbrev pub Tidy : Pools → SetUp → Type 0
Tidy pools r =
    (r.status ≡ sts_resource → Released pools r.taken r.freed)
    × (r.status ≡ sts_ok → (r.freed ≡ []) × Released pools r.taken (release_prps r))

take_length : {A : Type 0} (xs : List A) → take (length xs) xs ≡ xs
take_length [] = refl
take_length (x ∷ xs) = ap (λ ys. x ∷ ys) (take_length xs)

length-map_pair : (xs : List ℕ) → length (map twice xs) ≡ length xs
length-map_pair [] = refl
length-map_pair (x ∷ xs) = ap suc (length-map_pair xs)

get_elem?-map_pair :
    (xs : List ℕ) (j : ℕ) → get_elem? (map twice xs) j ≡ Option.map twice (get_elem? xs j)
get_elem?-map_pair [] j = refl
get_elem?-map_pair (x ∷ xs) zero = refl
get_elem?-map_pair (x ∷ xs) (suc j) = get_elem?-map_pair xs j

module _ (pool : Pool) (s : Spot) (d : ℕ) (alloc : pool 0 ≡ some d) (c : IsChained pool s) where
  starts : (ls : List ℕ) × (s.lists ≡ d ∷ ls)
  starts = go_lists s.lists (c.each 0 (omega (arith, c.ours.1)) ∙ alloc)
    where
      go_lists : (xs : List ℕ) → get_elem? xs 0 ≡ some d → (ls : List ℕ) × (xs ≡ d ∷ ls)
      go_lists [] e = absurd (cc e)
      go_lists (x ∷ xs) e = (xs, cc e)

  chain_frees : free_chain s.memory d (take s.npages s.lists) ≡ map twice s.lists
  chain_frees =
      ap (λ (n : ℕ). free_chain s.memory d (take n s.lists)) c.counted
      ∙ ap (λ (ls : List ℕ). free_chain s.memory d ls) (take_length s.lists)
      ∙ ap (λ (ls : List ℕ). free_chain s.memory d ls) starts.1
      ∙ free_chain_lem pool s.memory s.prp_list s.allocated d starts.0 (
          subst (λ (ls : List ℕ). ChainTo pool s.memory s.prp_list s.allocated ls) starts.1 c.chain)
      ∙ ap (λ (ls : List ℕ). map twice ls) (sym starts.1)

  pub chain-Frees : Frees pool s.allocated (free_chain s.memory d (take s.npages s.lists))
  chain-Frees = record {
    size = ap length chain_frees ∙ length-map_pair s.lists ∙ c.number;
    each = λ j l.
        ap (λ (fs : List (ℕ × ℕ)). get_elem? fs j) chain_frees
        ∙ get_elem?-map_pair s.lists j
        ∙ ap (Option.map twice) (c.each j l);
  }

  pub some_pages : (n : ℕ) × (s.npages ≡ suc n)
  some_pages = let (ls, eq) = starts in (length ls, c.counted ∙ ap (λ (xs : List ℕ). length xs) eq)

-- An iod before its set-up.
abbrev pub HasNoLists : Iod → Type 0
HasNoLists iod = iod.npages ≡ negsuc 0
