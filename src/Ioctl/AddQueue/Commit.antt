-- ===== src/Ioctl/AddQueue/Commit.antt =====
-- NVM_ADD_USER_QUEUE: what a call that succeeds has made, on the device and in the group.

use geminifs_npu_smoke.Prelude.{
  ℕ, zero, suc, ◌+◌, ◌≤◌, ◌<◌, ◌≡◌, refl, sym, ap, ap₂, ◌∙◌, inl, inr, true, ◌||◌, Option, none,
  some, List, [], ◌∷◌, arith, mem, set, get_elem?, length, Option-cases, length-set,
  get_elem?-set_self, get_elem?-set_ne,
}
use geminifs_npu_smoke.State.{Rc-cases, ok, Map, NvmeDev, UserQueue, World, Kernel}
use geminifs_npu_smoke.Admin.{create_cq_command, create_sq_command, submit}
use geminifs_npu_smoke.Admin.Device.{sent}
use geminifs_npu_smoke.Ioctl.AddRequest.{Pair, find_rings, find_all_rings}
use geminifs_npu_smoke.Ioctl.AddQueue.{drive, fill_slots}

-- A loop that ends without an error has made a pair for each QID.
pub drive_complete :
    (k : Kernel) (dev : NvmeDev) (w : World) (rings : List (Map × Map)) (qids created : List ℕ)
    (q : ℕ)
    → length rings ≡ length qids
    → (drive k dev w rings qids created).rc ≡ ok
    → mem q (drive k dev w rings qids created).created ≡ (mem q created || mem q qids)
unfolding drive
drive_complete k dev w [] [] created q e done = ground arith
drive_complete k dev w [] (qid ∷ qids) created q e done = absurd (omega arith)
drive_complete k dev w (r ∷ rings) [] created q e done = absurd (omega arith)
drive_complete k dev w ((sq, cq) ∷ rings) (qid ∷ qids) created q e done =
    elim (Rc-cases (sent k w (create_cq_command dev cq qid))) [
      | inr (x, refused) ↦ cc (rw (refused, drive) at done)
      | inl granted ↦
          let w1 : World = (submit k w (create_cq_command dev cq qid)).1 in
          elim (Rc-cases (sent k w1 (create_sq_command dev sq qid))) [
            | inr (x, refused) ↦ cc (rw (granted, refused, drive) at done)
            | inl granted' ↦
                let rest =
                  drive_complete k dev (submit k w1 (create_sq_command dev sq qid)).1 rings qids
                    (qid ∷ created) q (omega arith) (rw (granted, granted', drive) at done) in
                rw (granted, granted', drive) (rest ∙ ground arith)
          ]
    ]

-- Each pair of the batch finds its rings or the batch fails.
pub length-find_all_rings :
    (k : Kernel) (heap : ℕ → Option Map) (maps : List ℕ) (ps : List Pair) {rings : List (Map × Map)}
    → find_all_rings k heap maps ps ≡ some rings
    → length rings ≡ length ps
unfolding find_all_rings
length-find_all_rings k heap maps [] {rings} e = let same : [] ≡ rings = cc in ap length (sym same)
length-find_all_rings k heap maps (p ∷ ps) {rings} e =
    elim (Option-cases (find_rings k heap p maps none none)) [
      | inl missing ↦ cc (rw (missing, find_all_rings) at e)
      | inr (r, here) ↦ elim (Option-cases (find_all_rings k heap maps ps)) [
        | inl missing ↦ cc (rw (here, missing, find_all_rings) at e)
        | inr (rs, others) ↦
            let same : (r ∷ rs) ≡ rings = cc (rw (here, others, find_all_rings) at e) in
            ap length (sym same) ∙ ap suc (length-find_all_rings k heap maps ps others)
      ]
    ]

abbrev slot : Pair → ℕ → UserQueue
slot p qid = record { qid = qid; alive = true; sq_vaddr = p.sq_vaddr; cq_vaddr = p.cq_vaddr }

pub length-fill_slots :
    (queues : List UserQueue) (at : ℕ) (ps : List Pair) (qids : List ℕ)
    → length (fill_slots queues at ps qids) ≡ length queues
unfolding fill_slots
length-fill_slots queues at [] qids = refl
length-fill_slots queues at (p ∷ ps) [] = refl
length-fill_slots queues at (p ∷ ps) (qid ∷ qids) =
    length-fill_slots (set queues at (slot p qid)) (at + 1) ps qids
    ∙ length-set queues at (slot p qid)

-- The slots below the first keep their queue.
pub fill_slots_below :
    (queues : List UserQueue) (at : ℕ) (ps : List Pair) (qids : List ℕ) (j : ℕ)
    → j < at
    → get_elem? (fill_slots queues at ps qids) j ≡ get_elem? queues j
unfolding fill_slots
fill_slots_below queues at [] qids j l = refl
fill_slots_below queues at (p ∷ ps) [] j l = refl
fill_slots_below queues at (p ∷ ps) (qid ∷ qids) j l =
    fill_slots_below (set queues at (slot p qid)) (at + 1) ps qids j (omega arith)
    ∙ get_elem?-set_ne queues (slot p qid) (λ (e : at ≡ j). omega arith)

-- If the slots have room, the i-th pair and the i-th QID stand in the i-th slot from the first.
pub fill_slots_at :
    (queues : List UserQueue) (at : ℕ) (ps : List Pair) (qids : List ℕ) (i qid : ℕ) (p : Pair)
    → at + length qids ≤ length queues
    → get_elem? ps i ≡ some p
    → get_elem? qids i ≡ some qid
    → get_elem? (fill_slots queues at ps qids) (at + i) ≡ some (slot p qid)
unfolding fill_slots
fill_slots_at queues at [] qids i qid p l e f = cc
fill_slots_at queues at (p' ∷ ps) [] i qid p l e f = cc
fill_slots_at queues at (p' ∷ ps) (x ∷ qids) zero qid p l e f =
    let same : p' ≡ p = cc in
    let same' : x ≡ qid = cc in
    let place : at + 0 ≡ at = omega arith in
    rw place (
      fill_slots_below (set queues at (slot p' x)) (at + 1) ps qids at (omega arith)
      ∙ get_elem?-set_self queues at (slot p' x) (omega arith)
      ∙ ap₂ (λ a b. some (slot a b)) same same')
fill_slots_at queues at (p' ∷ ps) (x ∷ qids) (suc i) qid p l e f =
    let place : at + suc i ≡ at + 1 + i = omega arith in
    let room : at + 1 + length qids ≤ length (set queues at (slot p' x)) =
      omega (arith, length-set queues at (slot p' x)) in
    rw place (fill_slots_at (set queues at (slot p' x)) (at + 1) ps qids i qid p room e f)
