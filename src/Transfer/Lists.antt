-- ===== src/Transfer/Lists.antt =====
-- The loop of `nvme_pci_setup_prps`: what a controller reads in the lists that it leaves.
use mathlib.Core.Option
use geminifs_npu_smoke.Prelude.{
  ℕ, zero, suc, ◌+◌, ◌-◌, ◌%◌, ◌<◌, ◌≡◌, ◌≢◌, ◌⊎◌, inl, inr, refl, true, false, not, ◌&&◌, Option,
  none, some, List, [], ◌∷◌, arith, leb, ◌==◌, length, Bool-cases, Option-cases,
}
use geminifs_npu_smoke.Transfer.{
  Memory, Pool, sts_ok, sts_resource, Cursor, Next, go, bad_sgl, null_sg, next_cursor, Spot,
  ctrl_page_size, entry, turn_page, write_entry, fill,
}
use geminifs_npu_smoke.Transfer.Device.{walk}

-- The page addresses that the loop comes by, if the scatter list lets it go on to the end.
unfoldable pub flat : ℕ → Cursor → ℕ → Option (List ℕ)
flat zero c length = none
flat (suc n) c length = elim (leb length ctrl_page_size) [
  | true ↦ some (c.dma_addr ∷ [])
  | false ↦ elim (next_cursor c) [
    | go c' ↦ Option.map (λ es. c.dma_addr ∷ es) (flat n c' (length - ctrl_page_size))
    | bad_sgl ↦ none
    | null_sg ↦ none
  ]
]

pub Next-cases : (x : Next) → ((c : Cursor) × (x ≡ go c)) ⊎ ((x ≡ bad_sgl) ⊎ (x ≡ null_sg))
Next-cases (go c) = inl (c, refl)
Next-cases bad_sgl = inr (inl refl)
Next-cases null_sg = inr (inr refl)

pub flat_split :
    (n : ℕ) (c : Cursor) (length : ℕ) (es : List ℕ)
    → flat (suc n) c length ≡ some es
    → ((leb length ctrl_page_size ≡ true) × (es ≡ c.dma_addr ∷ []))
      ⊎ ((leb length ctrl_page_size ≡ false)
          × (c' : Cursor) × (es' : List ℕ) × (next_cursor c ≡ go c')
          × (flat n c' (length - ctrl_page_size) ≡ some es')
          × (es ≡ c.dma_addr ∷ es'))
unfolding flat
flat_split n c length es reads = elim (Bool-cases (leb length ctrl_page_size)) [
  | inl done ↦ let now = rw (done, flat) at reads in inl (done, cc)
  | inr more ↦ elim (Next-cases (next_cursor c)) [
    | inr (inl bad) ↦ let now = rw (more, bad, flat) at reads in absurd (cc now)
    | inr (inr null) ↦ let now = rw (more, null, flat) at reads in absurd (cc now)
    | inl (c', next) ↦ elim (Option-cases (flat n c' (length - ctrl_page_size))) [
      | inl stuck ↦ let now = rw (more, next, stuck, flat) at reads in absurd (cc now)
      | inr (es', on) ↦
          let now = rw (more, next, on, flat) at reads in inr (more, c', es', next, on, cc)
    ]
  ]
]

pub flat_cons :
    (n : ℕ) (c : Cursor) (length : ℕ) (es : List ℕ)
    → flat n c length ≡ some es
    → (e : ℕ) × (es' : List ℕ) × (es ≡ e ∷ es')
unfolding flat
flat_cons zero c length es reads = absurd (cc reads)
flat_cons (suc n) c length es reads = elim (flat_split n c length es reads) [
  | inl (_, only) ↦ (c.dma_addr, [], only)
  | inr (_, c', es', _, _, eq) ↦ (c.dma_addr, es', eq)
]

-- A pool of pages: each is aligned, and no two allocations of a request give the same.
pub record IsPagePool (pool : Pool) : Type 0 where
  pub aligned : (k d : ℕ) → pool k ≡ some d → d % ctrl_page_size ≡ 0
  pub apart : (j k d : ℕ) → pool j ≡ some d → pool k ≡ some d → j ≡ k

pub entry_apart :
    (a b x y : ℕ)
    → a % 4096 ≡ 0
    → b % 4096 ≡ 0
    → a ≢ b
    → x < 512
    → y < 512
    → (entry a x == entry b y) ≡ false
entry_apart a b x y ha hb ne lx ly = ground arith

pub entry_ne : (a x y : ℕ) → x ≢ y → (entry a x == entry a y) ≡ false
entry_ne a x y ne = ground arith

pub entry_next : (a x : ℕ) → entry a x + 8 ≡ entry a (x + 1)
entry_next a x = omega arith

pub walk_on :
    (memory : Memory) (a n : ℕ)
    → (a % 4096 == 4088 && not (n == 0)) ≡ false
    → walk memory a (suc n) ≡ memory a ∷ walk memory (a + 8) n
unfolding walk
walk_on memory a n h = rw h refl

pub walk_follow :
    (memory : Memory) (a n : ℕ)
    → (a % 4096 == 4088 && not (n == 0)) ≡ true
    → walk memory a (suc n) ≡ memory (memory a) ∷ walk memory (memory a + 8) n
unfolding walk
walk_follow memory a n h = rw h refl

module _ (pool : Pool) where
  -- How one round goes on.
  pub fill_last :
      (n : ℕ) (s s1 : Spot) (c : Cursor) (length : ℕ)
      → turn_page pool s ≡ some s1
      → leb length ctrl_page_size ≡ true
      → fill pool (suc n) s c length ≡ (sts_ok, write_entry s1 c.dma_addr)
  unfolding fill
  fill_last n s s1 c length turn done = rw (turn, done, fill) refl

  pub fill_more :
      (n : ℕ) (s s1 : Spot) (c c' : Cursor) (length : ℕ)
      → turn_page pool s ≡ some s1
      → leb length ctrl_page_size ≡ false
      → next_cursor c ≡ go c'
      → fill pool (suc n) s c length
        ≡ fill pool n (write_entry s1 c.dma_addr) c' (length - ctrl_page_size)
  unfolding fill
  fill_more n s s1 c c' length turn more next = rw (turn, more, next, fill) refl

  pub fill_stops :
      (n : ℕ) (s : Spot) (c : Cursor) (length : ℕ)
      → turn_page pool s ≡ none
      → fill pool (suc n) s c length ≡ (sts_resource, s)
  unfolding fill
  fill_stops n s c length turn = rw (turn, fill) refl
