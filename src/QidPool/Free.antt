-- ===== src/QidPool/Free.antt =====
-- `snvm_user_qid_free_locked`, one QID and the loop over a batch.
use geminifs_npu_smoke.Prelude.{
  ℕ, ◌-◌, ◌≤◌, ◌≡◌, refl, ◌∙◌, inl, inr, true, not, ◌&&◌, List, [], ◌∷◌, arith, sub32, ◌==◌, mem,
  Bool-cases,
}
use geminifs_npu_smoke.State.{ok, Ctrl, Kernel, FindsFirstZero}
use geminifs_npu_smoke.QidPool.{alloc, free, free_all, IsPool, in_use}
use geminifs_npu_smoke.QidPool.Alloc.{alloc_takes}

-- The bounds stay, so a freed controller still has its pool.
pub free_bounds :
    (c : Ctrl) (q : ℕ)
    → ((free c q).user_qid_first ≡ c.user_qid_first) × ((free c q).user_qid_last ≡ c.user_qid_last)
unfolding free
free_bounds c q = ground arith

-- Freeing a QID of a pool within the 16 bits of a QID takes that QID out of use and no other of the
-- pool.
pub in_use-free :
    (c : Ctrl) (q p : ℕ)
    → IsPool c
    → c.user_qid_first ≤ q
    → q ≤ c.user_qid_last
    → c.user_qid_first ≤ p
    → p ≤ c.user_qid_last
    → in_use (free c q) p ≡ (in_use c p && not (p == q))
unfolding free
in_use-free c q p pool hq hq' hp hp' =
    let l = pool.last_lt in
    let bit_q : sub32 q c.user_qid_first ≡ q - c.user_qid_first = ground arith in
    let bit_p : sub32 p c.user_qid_first ≡ p - c.user_qid_first = ground arith in
    elim (Bool-cases (p == q)) [ inl same ↦ ground arith | inr other ↦ ground arith ]

pub free-IsPool : {c : Ctrl} (q : ℕ) → IsPool c → IsPool (free c q)
free-IsPool {c} q pool =
    let (a, b) = free_bounds c q in
    record { first_le_last = rw (a, b) pool.first_le_last; last_lt = rw b pool.last_lt }

-- Freeing a batch takes out of use the QIDs of the batch.
pub in_use-free_all :
    (c : Ctrl) (qs : List ℕ) (p : ℕ)
    → IsPool c
    → ((q : ℕ) → mem q qs ≡ true → (c.user_qid_first ≤ q) × (q ≤ c.user_qid_last))
    → c.user_qid_first ≤ p
    → p ≤ c.user_qid_last
    → in_use (free_all c qs) p ≡ (in_use c p && not (mem p qs))
unfolding free_all
in_use-free_all c [] p pool within from to = ground arith
in_use-free_all c (q ∷ qs) p pool within from to =
    let (a, b) = free_bounds c q in
    let (from_q, to_q) = within q (ground arith) in
    let rest =
      in_use-free_all (free c q) qs p (free-IsPool q pool)
        (λ x m. let (from_x, to_x) = within x (ground arith) in (rw a from_x, rw b to_x))
        (rw a from) (rw b to) in
    rest ∙ ground (arith, in_use-free c q p pool from_q to_q from to)

pub alloc_bounds :
    (k : Kernel) (c : Ctrl) (nr : ℕ)
    → ((alloc k c nr).1.user_qid_first ≡ c.user_qid_first)
      × ((alloc k c nr).1.user_qid_last ≡ c.user_qid_last)
unfolding alloc
alloc_bounds k c nr = (refl, refl)

pub alloc_cdev : (k : Kernel) (c : Ctrl) (nr : ℕ) → (alloc k c nr).1.cdev ≡ c.cdev
unfolding alloc
alloc_cdev k c nr = refl

pub free_cdev : (c : Ctrl) (q : ℕ) → (free c q).cdev ≡ c.cdev
unfolding free
free_cdev c q = ground arith

pub free_all_cdev : (c : Ctrl) (qs : List ℕ) → (free_all c qs).cdev ≡ c.cdev
unfolding free_all
free_all_cdev c [] = refl
free_all_cdev c (q ∷ qs) = free_all_cdev (free c q) qs ∙ free_cdev c q

pub free_all_bounds :
    (c : Ctrl) (qs : List ℕ)
    → ((free_all c qs).user_qid_first ≡ c.user_qid_first)
      × ((free_all c qs).user_qid_last ≡ c.user_qid_last)
unfolding free_all
free_all_bounds c [] = (refl, refl)
free_all_bounds c (q ∷ qs) =
    let (a, b) = free_bounds c q in let (a', b') = free_all_bounds (free c q) qs in (a' ∙ a, b' ∙ b)

-- Freeing what a batch was granted from a pool within 16 bits leaves each QID of the pool in use or
-- not as it was before the batch.
pub free_all-alloc :
    (k : Kernel) (finds : FindsFirstZero k) (c : Ctrl) (nr p : ℕ)
    → IsPool c
    → (alloc k c nr).0 ≡ ok
    → c.user_qid_first ≤ p
    → p ≤ c.user_qid_last
    → in_use (free_all (alloc k c nr).1 (alloc k c nr).2) p ≡ in_use c p
free_all-alloc k finds c nr p pool granted from to =
    let (_, _, unused, marks) = alloc_takes k finds c nr pool granted in
    let (a, b) = alloc_bounds k c nr in
    let c' : Ctrl = (alloc k c nr).1 in
    let qids : List ℕ = (alloc k c nr).2 in
    let pool' : IsPool c' = record {
      first_le_last = rw (a, b) pool.first_le_last;
      last_lt = rw b pool.last_lt;
    } in
    let back =
      in_use-free_all c' qids p pool' (λ q m. let (x, y, _) = unused q m in (rw a x, rw b y))
        (rw a from) (rw b to) in
    back ∙ elim (Bool-cases (mem p qids)) [
      | inl taken ↦ let (_, _, z) = unused p taken in ground (arith, marks p from to, z)
      | inr spared ↦ ground (arith, marks p from to)
    ]
