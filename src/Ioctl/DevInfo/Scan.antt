-- ===== src/Ioctl/DevInfo/Scan.antt =====
-- NVM_GET_DEV_INFO: the wait for a namespace ends, and finds one if there is one in time.
use geminifs_npu_smoke.Prelude.{
  ℕ, zero, suc, ◌+◌, ◌*◌, ◌<◌, ◌≡◌, refl, inl, inr, true, false, Option, none, some, arith, ltb,
  Option-cases,
}
use geminifs_npu_smoke.Ioctl.DevInfo.{Namespace, wait_ns, scan_ns}

-- The first namespace among `n` answers from number `i` on.
pub first_answer : ℕ → ℕ → (ℕ → Option Namespace) → Option Namespace
first_answer zero i find_ns = none
first_answer (suc n) i find_ns = elim (find_ns i) [
  | some ns ↦ some ns
  | none ↦ first_answer n (i + 1) find_ns
]

-- The time, not the fuel, ends the loop.
wait_ns_lem :
    (fuel n calls wait_ms : ℕ) (find_ns : ℕ → Option Namespace)
    → wait_ms + 50 * n ≡ 5000
    → n < fuel
    → wait_ns fuel find_ns calls wait_ms ≡ first_answer (suc n) calls find_ns
unfolding wait_ns first_answer
wait_ns_lem zero n calls wait_ms find_ns e l = absurd (omega arith)
wait_ns_lem (suc fuel) zero calls wait_ms find_ns e l = elim (Option-cases (find_ns calls)) [
  | inr (ns, found) ↦ rw (found, wait_ns, first_answer) refl
  | inl missing ↦
      let late : ltb wait_ms 5000 ≡ false = ground arith in
      rw (missing, late, wait_ns, first_answer) refl
]
wait_ns_lem (suc fuel) (suc n) calls wait_ms find_ns e l = elim (Option-cases (find_ns calls)) [
  | inr (ns, found) ↦ rw (found, wait_ns, first_answer) refl
  | inl missing ↦
      let early : ltb wait_ms 5000 ≡ true = ground arith in
      let rest =
        wait_ns_lem fuel n (calls + 1) (wait_ms + 50) find_ns (omega arith) (omega arith) in
      rw (missing, early, wait_ns, first_answer) rest
]

-- The scan gives the first namespace among 102 calls of `snvme_find_get_ns`, and none only if all of
-- them gave none.
pub scan_ns_lem : (find_ns : ℕ → Option Namespace) → scan_ns find_ns ≡ first_answer 102 0 find_ns
unfolding scan_ns first_answer
scan_ns_lem find_ns = elim (Option-cases (find_ns 0)) [
  | inr (ns, found) ↦ rw (found, scan_ns, first_answer) refl
  | inl missing ↦
      rw (missing, scan_ns, first_answer)
        (wait_ns_lem 101 100 1 0 find_ns (omega arith) (omega arith))
]
