-- ===== src/Tests/Pool.antt =====
-- Witnesses for the QID pool.
use geminifs_npu_smoke.Prelude.{
  ℕ, ◌≤◌, ◌≡◌, refl, true, false, ◌||◌, none, some, length, arith, ltb, ◌==◌, mem, distinct,
}
use geminifs_npu_smoke.State.{ok, err, eagain, failed, Ctrl}
use geminifs_npu_smoke.QidPool.{IsPool, in_use, bits, pool_size, alloc, alloc_loop, free_all}
use geminifs_npu_smoke.QidPool.{pool_init}
use geminifs_npu_smoke.QidPool.Create.{IsNewPool, pool_init-IsNewPool}
use geminifs_npu_smoke.QidPool.Alloc.{alloc_takes, alloc_undone}
use geminifs_npu_smoke.QidPool.Count.{free_count, alloc-failed}
use geminifs_npu_smoke.QidPool.Free.{free_all-alloc}
use geminifs_npu_smoke.Tests.{search, kernel_refusing, kernel_finds, ctrl0, dev0}

-- The QID 2 is out.
abbrev ctrl2 : Ctrl
ctrl2 = record ctrl0 { user_qid_bitmap = some (λ b. b == 1) }

pool2 : IsPool ctrl2
pool2 = record { first_le_last = refl; last_lt = refl }

granted2 : (alloc (kernel_refusing 9) ctrl2 2).0 ≡ ok
unfolding alloc alloc_loop search
granted2 = refl

refused3 : (alloc (kernel_refusing 9) ctrl2 3).0 ≡ err eagain
unfolding alloc alloc_loop search
refused3 = refl

alloc_takes_example :
    let c' = (alloc (kernel_refusing 9) ctrl2 2).1 in
    let qids = (alloc (kernel_refusing 9) ctrl2 2).2 in
    (length qids ≡ 2)
    × (distinct qids ≡ true)
    × ((q : ℕ) → mem q qids ≡ true → (1 ≤ q) × (q ≤ 3) × (in_use ctrl2 q ≡ false))
    × ((q : ℕ) → 1 ≤ q → q ≤ 3 → in_use c' q ≡ (in_use ctrl2 q || mem q qids))
alloc_takes_example = alloc_takes (kernel_refusing 9) (kernel_finds 9) ctrl2 2 pool2 granted2

alloc_undone_example : (eagain ≡ eagain) × (bits (alloc (kernel_refusing 9) ctrl2 3).1 ≡ bits ctrl2)
alloc_undone_example =
    alloc_undone (kernel_refusing 9) (kernel_finds 9) ctrl2 3 pool2 eagain refused3

alloc-failed_example :
    failed (alloc (kernel_refusing 9) ctrl2 3).0 ≡ ltb (free_count (pool_size ctrl2) (bits ctrl2)) 3
alloc-failed_example = alloc-failed (kernel_refusing 9) (kernel_finds 9) ctrl2 3

free_all-alloc_example :
    in_use (free_all (alloc (kernel_refusing 9) ctrl2 2).1 (alloc (kernel_refusing 9) ctrl2 2).2) 3
    ≡ in_use ctrl2 3
free_all-alloc_example =
    free_all-alloc (kernel_refusing 9) (kernel_finds 9) ctrl2 2 3 pool2 granted2 (omega arith)
      (omega arith)

abbrev no_pool : Ctrl
no_pool = record ctrl0 { user_qid_bitmap = none }

pool_made : (pool_init no_pool (some dev0) true).0 ≡ ok
unfolding pool_init
pool_made = refl

pool_init-IsNewPool_example : IsNewPool (pool_init no_pool (some dev0) true).1 dev0
pool_init-IsNewPool_example = pool_init-IsNewPool no_pool dev0 true (omega arith) refl pool_made
