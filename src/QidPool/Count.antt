-- ===== src/QidPool/Count.antt =====
-- When `snvm_user_qid_alloc_locked` succeeds: exactly while enough QIDs of the pool are free.
use geminifs_npu_smoke.Prelude.{
  ℕ, zero, suc, ◌+◌, ◌≤◌, ◌<◌, ◌≡◌, refl, inl, inr, true, false, List, [], ◌∷◌, arith, add32, u16,
  ltb, leb, ◌==◌, if◌then◌else◌, Bool-cases,
}
use geminifs_npu_smoke.State.{failed, Ctrl, Kernel, FindsFirstZero}
use geminifs_npu_smoke.QidPool.{Bitmap, set_bit, bits, alloc_loop, pool_size, alloc}

-- The free bits below `n`.
pub free_count : ℕ → Bitmap → ℕ
free_count zero bm = 0
free_count (suc n) bm = (if bm n then 0 else 1) + free_count n bm

free_count-set_above :
    (n b : ℕ) (bm : Bitmap) → n ≤ b → free_count n (set_bit bm b) ≡ free_count n bm
unfolding free_count
free_count-set_above zero b bm h = refl
free_count-set_above (suc n) b bm h = ground (arith, free_count-set_above n b bm)

free_count-set_bit :
    (n b : ℕ) (bm : Bitmap)
    → b < n
    → bm b ≡ false
    → suc (free_count n (set_bit bm b)) ≡ free_count n bm
unfolding free_count
free_count-set_bit zero b bm l z = absurd (omega arith)
free_count-set_bit (suc n) b bm l z = elim (Bool-cases (n == b)) [
  | inl same ↦ ground (arith, free_count-set_above n b bm)
  | inr other ↦ ground (arith, free_count-set_bit n b bm)
]

free_count_full : (n : ℕ) (bm : Bitmap) → ((b : ℕ) → b < n → bm b ≡ true) → free_count n bm ≡ 0
unfolding free_count
free_count_full zero bm h = refl
free_count_full (suc n) bm h =
    rw (h n (omega arith)) (omega (arith, free_count_full n bm (λ b l. h b (omega arith))))

module _ (k : Kernel) (finds : FindsFirstZero k) where
  alloc_loop-failed :
      (first size n : ℕ) (bm : Bitmap) (taken : List ℕ)
      → failed (alloc_loop k first size n bm taken).rc ≡ ltb (free_count size bm) n
  unfolding alloc_loop
  alloc_loop-failed first size zero bm taken = ground arith
  alloc_loop-failed first size (suc n) bm taken = elim (Bool-cases (leb size bit)) [
    | inl full ↦
        let none_free : free_count size bm ≡ 0 =
          free_count_full size bm (λ b l. finds.first bm size b (ground arith) l) in
        rw full (rw none_free (ground arith))
    | inr room ↦
        let inside : bit < size = ground arith in
        let one_less = free_count-set_bit size bit bm inside (finds.zero_bit bm size inside) in
        let rest =
          alloc_loop-failed first size n (set_bit bm bit) (u16 (add32 first bit) ∷ taken) in
        rw room (rw rest (ground (arith, one_less)))
  ]
    where
      bit : ℕ
      bit = k.find_first_zero_bit bm size

  -- A batch of `nr` is refused exactly when fewer than `nr` QIDs of the pool are free.
  pub alloc-failed :
      (c : Ctrl) (nr : ℕ) → failed (alloc k c nr).0 ≡ ltb (free_count (pool_size c) (bits c)) nr
  unfolding alloc
  alloc-failed c nr = alloc_loop-failed c.user_qid_first (pool_size c) nr (bits c) []
