-- ===== src/QidPool/Alloc.antt =====
-- `snvm_user_qid_alloc_locked`: what a batch takes from the pool, and its roll back.
use geminifs_npu_smoke.Prelude.{
  ℕ, zero, suc, ◌+◌, ◌-◌, ◌≤◌, ◌<◌, ◌≡◌, refl, sym, ◌∙◌, ap, fun_ext, inl, inr, true, false, ◌||◌,
  List, [], ◌∷◌, arith, add32, sub32, u16, leb, ◌==◌, mem, distinct, length, Bool-cases, ==_iff,
}
use geminifs_npu_smoke.State.{Errno, ok, err, eagain, Ctrl, Kernel, FindsFirstZero}
use geminifs_npu_smoke.QidPool.{
  Bitmap, set_bit, clear_bit, bits, clear_all, Allocation, alloc_loop, pool_size, alloc, IsPool,
  in_use,
}

-- The QID of a bit, within a pool of 16-bit QIDs.
pub qid_of_bit :
    (first size b : ℕ) → first + size ≤ 65536 → b < size → u16 (add32 first b) ≡ first + b
qid_of_bit first size b h l = omega arith

pub bit_of_qid :
    (first size b : ℕ) → first + size ≤ 65536 → b < size → sub32 (u16 (add32 first b)) first ≡ b
bit_of_qid first size b h l = omega arith

clear_bit-set_bit : (bm : Bitmap) (b : ℕ) → bm b ≡ false → clear_bit (set_bit bm b) b ≡ bm
clear_bit-set_bit bm b h = fun_ext λ j. elim (Bool-cases (j == b)) [
  | inl same ↦ rw same (sym h ∙ ap bm (sym ((==_iff j b).0 same)))
  | inr other ↦ rw other
]

module _ (first size : ℕ) where
  -- From `bm0`, the QIDs `taken`, newest first, lead to the bitmap.
  pub data Taken (bm0 : Bitmap) : Bitmap → List ℕ → Type 0 where
    start : Taken bm0 bm0 []
    next :
        {bm : Bitmap} {taken : List ℕ} (b : ℕ)
        → b < size
        → bm b ≡ false
        → Taken bm0 bm taken
        → Taken bm0 (set_bit bm b) (u16 (add32 first b) ∷ taken)

  -- The same, oldest first.
  pub data Gains (bm' : Bitmap) : Bitmap → List ℕ → Type 0 where
    done : Gains bm' bm' []
    more :
        {bm : Bitmap} {qids : List ℕ} (b : ℕ)
        → b < size
        → bm b ≡ false
        → Gains bm' (set_bit bm b) qids
        → Gains bm' bm (u16 (add32 first b) ∷ qids)

  module _ (fits : first + size ≤ 65536) where
    clear_all-Taken :
        {bm0 bm : Bitmap} {taken : List ℕ} → Taken bm0 bm taken → clear_all first bm taken ≡ bm0
    unfolding clear_all
    clear_all-Taken start = refl
    clear_all-Taken (next {bm} b l h t) =
        rw (bit_of_qid first size b fits l, clear_bit-set_bit bm b h) (clear_all-Taken t)

    module _ (k : Kernel) (finds : FindsFirstZero k) where
      -- A batch that fails has put back every bit, and one that succeeds has taken the QIDs it names.
      pub data Outcome (bm0 bm : Bitmap) (n : ℕ) (r : Allocation) : Type 0 where
        gained : r.rc ≡ ok → length r.qids ≡ n → Gains r.bitmap bm r.qids → Outcome bm0 bm n r
        undone : r.rc ≡ err eagain → r.bitmap ≡ bm0 → Outcome bm0 bm n r

      pub alloc_loop-Outcome :
          (n : ℕ) {bm0 bm : Bitmap} {taken : List ℕ}
          → Taken bm0 bm taken
          → Outcome bm0 bm n (alloc_loop k first size n bm taken)
      unfolding alloc_loop
      alloc_loop-Outcome zero t = gained refl refl done
      alloc_loop-Outcome (suc n) {bm0} {bm} {taken} t = elim (Bool-cases (leb size bit)) [
        | inl full ↦ rw full (undone refl (clear_all-Taken t))
        | inr room ↦
            let inside : bit < size = ground arith in
            let zero_bit = finds.zero_bit bm size inside in
            rw room (step inside zero_bit (alloc_loop-Outcome n (next bit inside zero_bit t)))
      ]
        where
          bit : ℕ
          bit = k.find_first_zero_bit bm size

          step :
              {r : Allocation}
              → bit < size
              → bm bit ≡ false
              → Outcome bm0 (set_bit bm bit) n r
              → Outcome bm0 bm (suc n) (record r { qids = u16 (add32 first bit) ∷ r.qids })
          step l z (gained o e g) = gained o (ap suc e) (more bit l z g)
          step l z (undone o e) = undone o e

      pub Outcome-granted :
          {bm0 bm : Bitmap} {n : ℕ} {r : Allocation}
          → Outcome bm0 bm n r
          → r.rc ≡ ok
          → (length r.qids ≡ n) × Gains r.bitmap bm r.qids
      Outcome-granted (gained o e g) h = (e, g)
      Outcome-granted (undone o e) h = cc

      pub Outcome-refused :
          {bm0 bm : Bitmap} {n : ℕ} {r : Allocation} (e : Errno)
          → Outcome bm0 bm n r
          → r.rc ≡ err e
          → (e ≡ eagain) × (r.bitmap ≡ bm0)
      Outcome-refused e (gained o _ g) h = cc
      Outcome-refused e (undone o b) h = (cc, b)

    pub Gains-mem :
        {bm' bm : Bitmap} {qids : List ℕ} (q : ℕ)
        → Gains bm' bm qids
        → mem q qids ≡ true
        → (first ≤ q) × (q < first + size) × (bm (q - first) ≡ false)
    Gains-mem q done h = cc
    Gains-mem q (more {bm} {qids} b l z g) h = elim (Bool-cases (q == u16 (add32 first b))) [
      | inl same ↦
          let e : q ≡ first + b = (==_iff q _).0 same ∙ qid_of_bit first size b fits l in
          let e' : q - first ≡ b = omega arith in (omega arith, omega arith, rw e' z)
      | inr other ↦ ground (arith, Gains-mem q g)
    ]

    pub Gains-distinct :
        {bm' bm : Bitmap} {qids : List ℕ} → Gains bm' bm qids → distinct qids ≡ true
    Gains-distinct done = refl
    Gains-distinct (more {bm} {qids} b l z g) =
        let q : ℕ = u16 (add32 first b) in
        let e : q - first ≡ b = omega (arith, qid_of_bit first size b fits l) in
        ground (arith, Gains-distinct g, Gains-mem q g)

    pub Gains-bits :
        {bm' bm : Bitmap} {qids : List ℕ} (b : ℕ)
        → first + b < 65536
        → Gains bm' bm qids
        → bm' b ≡ (bm b || mem (first + b) qids)
    Gains-bits b l done = ground arith
    Gains-bits {qids} b l (more {bm} a la z g) =
        ground (arith, Gains-bits b l g, qid_of_bit first size a fits la)

module _ (k : Kernel) (finds : FindsFirstZero k) (c : Ctrl) (nr : ℕ) (pool : IsPool c) where
  abbrev first_qid : ℕ
  first_qid = c.user_qid_first

  pool_fits : first_qid + pool_size c ≤ 65536
  pool_fits = let l = pool.first_le_last in let m = pool.last_lt in ground arith

  pool_end : first_qid + pool_size c ≡ c.user_qid_last + 1
  pool_end = let l = pool.first_le_last in let m = pool.last_lt in ground arith

  outcome :
      Outcome first_qid
        (pool_size c)
        pool_fits
        k
        finds
        (bits c)
        (bits c)
        nr
        (alloc_loop k first_qid (pool_size c) nr (bits c) [])
  outcome = alloc_loop-Outcome first_qid (pool_size c) pool_fits k finds nr start

  -- From a pool within the 16 bits of a QID, a batch that is granted has `nr` distinct QIDs of the
  -- pool, all of them unused before, and marks exactly these.
  pub alloc_takes :
      (alloc k c nr).0 ≡ ok
      → let c' = (alloc k c nr).1 in
        let qids = (alloc k c nr).2 in
        (length qids ≡ nr)
        × (distinct qids ≡ true)
        × ((q : ℕ)
            → mem q qids ≡ true
            → (first_qid ≤ q) × (q ≤ c.user_qid_last) × (in_use c q ≡ false))
        × ((q : ℕ) → first_qid ≤ q → q ≤ c.user_qid_last → in_use c' q ≡ (in_use c q || mem q qids))
  unfolding alloc
  alloc_takes granted =
      let (same_length, gains) =
        Outcome-granted first_qid (pool_size c) pool_fits k finds outcome granted in
      (
        same_length,
        Gains-distinct first_qid (pool_size c) pool_fits gains,
        (λ q taken.
            let (from, to, unused) = Gains-mem first_qid (pool_size c) pool_fits q gains taken in
            let to' : q ≤ c.user_qid_last = omega (arith, pool_end) in
            let bit : sub32 q first_qid ≡ q - first_qid = omega (arith, pool_fits) in
            (from, to', rw bit unused)),
        (λ q from to.
            let bit : sub32 q first_qid ≡ q - first_qid = omega (arith, pool_fits, pool_end) in
            let back : first_qid + (q - first_qid) ≡ q = omega arith in
            let below : first_qid + (q - first_qid) < 65536 = omega (arith, pool_fits, pool_end) in
            rw bit (
              Gains-bits first_qid (pool_size c) pool_fits (q - first_qid) below gains
              ∙ ap (λ (x : ℕ). (bits c (q - first_qid) || mem x (alloc k c nr).2)) back)),
      )

  -- From a pool within the 16 bits of a QID, a batch that is refused is refused with EAGAIN and
  -- leaves the bitmap as it was.
  pub alloc_undone :
      (e : Errno) → (alloc k c nr).0 ≡ err e → (e ≡ eagain) × (bits (alloc k c nr).1 ≡ bits c)
  unfolding alloc
  alloc_undone e refused =
      Outcome-refused first_qid (pool_size c) pool_fits k finds e outcome refused
