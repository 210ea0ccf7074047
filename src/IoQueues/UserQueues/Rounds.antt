-- ===== src/IoQueues/UserQueues/Rounds.antt =====
-- What `nvme_create_io_queues_mix` leaves on the device.
use geminifs_npu_smoke.Prelude.{
  ℕ, zero, suc, ◌+◌, ◌-◌, ◌≤◌, ◌<◌, ◌≡◌, refl, ap₂, sym, subst, true, false, List, [], ◌∷◌, arith,
  mem,
}
use geminifs_npu_smoke.State.{Errno, enodev, ok, err, NvmeDev, World, Kernel}
use geminifs_npu_smoke.Admin.Device.{Device, DeletesSucceed}
use geminifs_npu_smoke.Admin.Pairs.{Extends, is_fresh, Halfway}
use geminifs_npu_smoke.IoQueues.UserQueues.{
  ProbeEnv, Made, create_user_queue, create_rounds, create_io_queues_mix,
}
use geminifs_npu_smoke.IoQueues.UserQueues.Pairs.{
  counted, unmade, cq_left, uncounted, create_user_queue-Step,
}

-- The QIDs of the first `n` pairs, the newest first.
unfoldable pub made_qids : ℕ → ℕ → List ℕ
made_qids start zero = []
made_qids start (suc n) = (start + n) ∷ made_qids start n

mem-made_qids : (start n i : ℕ) → n ≤ i → mem (start + i) (made_qids start n) ≡ false
unfolding made_qids
mem-made_qids start zero i l = refl
mem-made_qids start (suc n) i l = ground (arith, mem-made_qids start n i)

-- How the loop ends, with `online` pairs counted before it: all `n` pairs are made and counted; the
-- first `i` are made and counted and the next is not made; or the next is left half made, a CQ alone
-- after a negative errno of its SQ, or made and not counted since the lock was taken.
pub data Ran (env : ProbeEnv) (d : Device) (start online n : ℕ) (m : Made) : Type 0 where
  complete :
      m.rc ≡ ok
      → m.online ≡ online + n
      → Extends d m.world (made_qids start n)
      → Ran env d start online n m
  broke_off :
      (i : ℕ)
      → i < n
      → m.online ≡ online + i
      → Extends d m.world (made_qids start i)
      → Ran env d start online n m
  left_cq :
      (i : ℕ) (e : Errno)
      → i < n
      → m.rc ≡ err e
      → env.is_negative e ≡ true
      → m.online ≡ online + i
      → Halfway d m.world (made_qids start i) (start + i)
      → Ran env d start online n m
  left_pair :
      (i : ℕ)
      → i < n
      → env.trylock i ≡ false
      → m.online ≡ online + i
      → Extends d m.world (made_qids start (suc i))
      → Ran env d start online n m

module _ (k : Kernel) (deletes : DeletesSucceed k) (env : ProbeEnv) (dev : NvmeDev)
    (d : Device) where
  module _ (start online n : ℕ)
      (free : (i : ℕ) → i < n → (d.sqs (start + i) ≡ false) × (d.cqs (start + i) ≡ false)) where
    fresh_at : (i : ℕ) → i < n → is_fresh d (made_qids start i) (start + i) ≡ true
    fresh_at i l = let (a, b) = free i l in rw (a, b, mem-made_qids start i i (omega arith)) refl

    abbrev round : ℕ → ℕ → World → ℕ → Made
    round rounds i w counted_now = create_rounds k env dev rounds w i (start + i) counted_now

    abbrev made_at : ℕ → World → ℕ → Made
    made_at i w counted_now = create_user_queue k env dev w i (start + i) counted_now

    goes_on :
        (rounds i counted_now : ℕ) (w : World)
        → (made_at i w counted_now).rc ≡ ok
        → round (suc rounds) i w counted_now
          ≡ round rounds (suc i) (made_at i w counted_now).world (made_at i w counted_now).online
    unfolding create_rounds
    goes_on rounds i counted_now w good =
        let m = made_at i w counted_now in
        rw (create_rounds, good)
          (ap₂ (λ (a q : ℕ). create_rounds k env dev rounds m.world a q m.online) (omega arith)
            (omega arith))

    stops :
        (rounds i counted_now : ℕ) (w : World) (e : Errno)
        → (made_at i w counted_now).rc ≡ err e
        → round (suc rounds) i w counted_now ≡ made_at i w counted_now
    unfolding create_rounds
    stops rounds i counted_now w e bad = rw (create_rounds, bad) refl

    -- From the state after `i` pairs, with `rounds` left.
    rounds-Ran :
        (rounds i counted_now : ℕ) (w : World)
        → i + rounds ≡ n
        → counted_now ≡ online + i
        → Extends d w (made_qids start i)
        → Ran env d start online n (round rounds i w counted_now)
    unfolding create_rounds made_qids
    rounds-Ran zero i counted_now w sum now x =
        complete refl (omega arith)
          (subst (λ (j : ℕ). Extends d w (made_qids start j)) (omega arith) x)
    rounds-Ran (suc rounds) i counted_now w sum now x =
        let l : i < n = omega arith in
        elim (create_user_queue-Step k deletes env dev d (made_qids start i) i (start + i)
          counted_now (fresh_at i l) w x) [
            | counted good more y ↦
                subst (λ m. Ran env d start online n m) (sym (goes_on rounds i counted_now w good))
                  (rounds-Ran rounds (suc i) (made_at i w counted_now).online
                    (made_at i w counted_now).world (omega arith) (omega (arith, more)) y)
            | unmade e bad same y ↦
                subst (λ m. Ran env d start online n m) (sym (stops rounds i counted_now w e bad))
                  (broke_off i l (omega (arith, same)) y)
            | cq_left e bad negative same half ↦
                subst (λ m. Ran env d start online n m) (sym (stops rounds i counted_now w e bad))
                  (left_cq i e l bad negative (omega (arith, same)) half)
            | uncounted bad busy same y ↦
                subst (λ m. Ran env d start online n m)
                  (sym (stops rounds i counted_now w enodev bad))
                  (left_pair i l busy (omega (arith, same)) y)
          ]

  abbrev pub rounds_of : ℕ → ℕ
  rounds_of max_qid = max_qid + dev.nr_user_use_cq + 1 - dev.online_queues

  module _ (max_qid online : ℕ) (w : World) where
    loop : Made
    loop = create_rounds k env dev (rounds_of max_qid) w 0 dev.online_queues online

    mixed :
        {start n : ℕ}
        → Ran env d start online n loop
        → Ran env d start online n (create_io_queues_mix k env dev max_qid w online)
    unfolding create_io_queues_mix loop
    mixed (complete good count x) = complete (rw (create_io_queues_mix, good) refl) count x
    mixed (broke_off i l count x) = broke_off i l count x
    mixed (left_cq i e l bad negative count half) =
        left_cq i e l (rw (create_io_queues_mix, bad, negative) refl) negative count half
    mixed (left_pair i l busy count x) = left_pair i l busy count x

    -- If the device carries out deletions, the commands so far were lawful, and the QIDs from
    -- `online_queues` to the last name no queue, then `nvme_create_io_queues_mix` sends only commands
    -- that the queue rules allow and ends with all pairs made and counted and reports success; or
    -- with the first few made and counted, and of the next one nothing, or its CQ alone, which
    -- happens only after a negative errno of its SQ, which is then reported, or the whole pair
    -- uncounted, which happens only when the lock was taken.
    pub create_io_queues_mix-Ran :
        Extends d w []
        → ((i : ℕ)
            → i < rounds_of max_qid
            → (d.sqs (dev.online_queues + i) ≡ false) × (d.cqs (dev.online_queues + i) ≡ false))
        → Ran env d dev.online_queues online
            (rounds_of max_qid)
            (create_io_queues_mix k env dev max_qid w online)
    unfolding made_qids loop
    create_io_queues_mix-Ran x free =
        let ran =
          rounds-Ran dev.online_queues online (rounds_of max_qid) free (rounds_of max_qid) 0 online
            w (omega arith) (omega arith) x in
        mixed (
          subst
            (λ (q : ℕ).
              Ran env d dev.online_queues online (rounds_of max_qid)
                (create_rounds k env dev (rounds_of max_qid) w 0 q online))
            (omega arith) ran)
