-- ===== src/Ioctl/AddQueue/Drive.antt =====
-- The device loop of NVM_ADD_USER_QUEUE and its roll back, against the queue rules of the device.
use geminifs_npu_smoke.Prelude.{
  ℕ, ◌≡◌, refl, inl, inr, true, false, List, [], ◌∷◌, arith, ◌==◌, mem, distinct, Bool-cases,
}
use geminifs_npu_smoke.State.{Rc-cases, Map, NvmeDev, World, Kernel}
use geminifs_npu_smoke.Admin.{create_cq_command, create_sq_command, submit}
use geminifs_npu_smoke.Admin.Device.{Device, sent, DeletesSucceed}
use geminifs_npu_smoke.Admin.Pairs.{
  Extends, is_fresh, Extends-refused, cq_allowed, Halfway-granted, Extends-granted, Halfway-refused,
  Extends-delete_cq, Halfway-delete_sq,
}
use geminifs_npu_smoke.Groups.{delete_pair}
use geminifs_npu_smoke.Ioctl.AddQueue.{Driven, drive, delete_pairs}

-- `d` knows none of the QIDs.
abbrev pub Unknown : Device → List ℕ → Type 0
Unknown d qids = (q : ℕ) → mem q qids ≡ true → (d.sqs q ≡ false) × (d.cqs q ≡ false)

abbrev Apart : List ℕ → List ℕ → Type 0
Apart xs ys = (q : ℕ) → mem q xs ≡ true → mem q ys ≡ false

module _ (k : Kernel) (deletes : DeletesSucceed k) (dev : NvmeDev) (d : Device) where
  -- What the loop leaves: a device extended by the pairs that it reports, all of them of the batch.
  pub record Sound (r : Driven) : Type 0 where
    pub extends : Extends d r.world r.created
    pub is_distinct : distinct r.created ≡ true
    pub unknown : Unknown d r.created

  step_fresh :
      (qid : ℕ) (qids created : List ℕ)
      → Unknown d (qid ∷ qids)
      → Apart (qid ∷ qids) created
      → is_fresh d created qid ≡ true
  step_fresh qid qids created unknown apart =
      let (a, b) = unknown qid (ground arith) in let c = apart qid (ground arith) in rw (a, b, c)

  pub drive-Sound :
      (w : World) (rings : List (Map × Map)) (qids created : List ℕ)
      → Extends d w created
      → distinct qids ≡ true
      → distinct created ≡ true
      → Unknown d qids
      → Unknown d created
      → Apart qids created
      → Sound (drive k dev w rings qids created)
  unfolding drive
  drive-Sound w [] qids created x dq dc u uc apart = record {
    extends = x;
    is_distinct = dc;
    unknown = uc;
  }
  drive-Sound w ((sq, cq) ∷ rings) [] created x dq dc u uc apart = record {
    extends = x;
    is_distinct = dc;
    unknown = uc;
  }
  drive-Sound w ((sq, cq) ∷ rings) (qid ∷ qids) created x dq dc u uc apart =
      elim (Rc-cases (sent k w (create_cq_command dev cq qid))) [
        | inr (e, refused) ↦
            rw (refused, drive)
              (record {
                extends =
                    Extends-refused k d w created (create_cq_command dev cq qid) e refused x
                      (cq_allowed k d w created dev cq qid x fresh);
                is_distinct = dc;
                unknown = uc;
              })
        | inl granted ↦
            let half = Halfway-granted k d w created dev cq qid x fresh granted in
            rw (granted, drive)
              (elim (Rc-cases (sent k w1 (create_sq_command dev sq qid))) [
                | inr (e, refused) ↦
                    rw (refused, drive)
                      (record {
                        extends =
                            Extends-delete_cq k d _ created deletes qid fresh
                              (Halfway-refused k d w1 created dev sq qid half e fresh refused);
                        is_distinct = dc;
                        unknown = uc;
                      })
                | inl granted' ↦
                    rw (granted', drive)
                      (drive-Sound (submit k w1 (create_sq_command dev sq qid)).1 rings qids
                        (qid ∷ created)
                        (Extends-granted k d w1 created dev sq qid half fresh granted')
                        (ground arith) (ground (arith, apart qid)) (λ q m. u q (ground arith))
                        (λ q m. elim (Bool-cases (q == qid)) [
                          | inl same ↦ u q (ground arith)
                          | inr other ↦ uc q (ground arith)
                        ])
                        (λ q m. ground (arith, apart q)))
              ])
      ]
    where
      fresh : is_fresh d created qid ≡ true
      fresh = step_fresh qid qids created u apart

      w1 : World
      w1 = (submit k w (create_cq_command dev cq qid)).1

  -- Deleting the created pairs, the newest first, gives the first device back.
  pub delete_pairs-Extends :
      (w : World) (created : List ℕ)
      → Extends d w created
      → distinct created ≡ true
      → Unknown d created
      → Extends d (delete_pairs k w created) []
  unfolding delete_pairs delete_pair
  delete_pairs-Extends w [] x dc uc = x
  delete_pairs-Extends w (qid ∷ created) x dc uc =
      let (a, b) = uc qid (ground arith) in
      let c : mem qid created ≡ false = ground arith in
      let fresh : is_fresh d created qid ≡ true = rw (a, b, c) in
      delete_pairs-Extends (delete_pair k w qid) created
        (Extends-delete_cq k d _ created deletes qid fresh
          (Halfway-delete_sq k d w created deletes qid fresh x))
        (ground arith) (λ q m. uc q (ground arith))

-- Only the trace changes.
abbrev pub SameButTrace : World → World → Type 0
SameButTrace w w' = w' ≡ record w { trace = w'.trace }

pub drive-SameButTrace :
    (k : Kernel) (dev : NvmeDev) (w : World) (rings : List (Map × Map)) (qids created : List ℕ)
    → SameButTrace w (drive k dev w rings qids created).world
unfolding drive submit
drive-SameButTrace k dev w [] qids created = refl
drive-SameButTrace k dev w ((sq, cq) ∷ rings) [] created = refl
drive-SameButTrace k dev w ((sq, cq) ∷ rings) (qid ∷ qids) created =
    elim (Rc-cases (sent k w (create_cq_command dev cq qid))) [
      | inr (e, refused) ↦ rw (refused, drive) refl
      | inl granted ↦
          let w1 : World = (submit k w (create_cq_command dev cq qid)).1 in
          rw (granted, drive)
            (elim (Rc-cases (sent k w1 (create_sq_command dev sq qid))) [
              | inr (e, refused) ↦ rw (refused, drive) refl
              | inl granted' ↦
                  rw (granted', drive)
                    (drive-SameButTrace k dev (submit k w1 (create_sq_command dev sq qid)).1 rings
                      qids (qid ∷ created))
            ])
    ]

pub delete_pairs-SameButTrace :
    (k : Kernel) (w : World) (qids : List ℕ) → SameButTrace w (delete_pairs k w qids)
unfolding delete_pairs
delete_pairs-SameButTrace k w [] = refl
delete_pairs-SameButTrace k w (qid ∷ qids) = delete_pairs-SameButTrace k (delete_pair k w qid) qids
