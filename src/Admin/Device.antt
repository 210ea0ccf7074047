-- ===== src/Admin/Device.antt =====
-- What an NVMe controller holds after some admin commands, by the queue rules of the NVMe base
-- specification: a CQ is created before an SQ that uses it, and deleted only after that SQ.
use geminifs_npu_smoke.Prelude.{
  ℕ, ◌≡◌, refl, Bool, true, false, not, ◌&&◌, List, [], ◌∷◌, ◌++◌, arith, update,
}
use geminifs_npu_smoke.State.{
  Rc, ok, err, Opcode, create_cq, create_sq, delete_cq, delete_sq, Command, Event, admin, World,
  Kernel,
}
use geminifs_npu_smoke.Admin.{delete_command, submit}

-- The user queues that exist, by QID.
pub record Device : Type 0 where
  pub sqs : ℕ → Bool
  pub cqs : ℕ → Bool

-- Whether the rules allow a command.
abbrev pub allowed : Device → Opcode → ℕ → ℕ → Bool
allowed d create_cq qid cqid = not (d.cqs qid)
allowed d create_sq qid cqid = d.cqs cqid && not (d.sqs qid)
allowed d delete_sq qid cqid = d.sqs qid
allowed d delete_cq qid cqid = d.cqs qid && not (d.sqs qid)

-- What a command that succeeds does.
abbrev pub effect : Device → Opcode → ℕ → Device
effect d create_cq qid = record d { cqs = update d.cqs qid true }
effect d create_sq qid = record d { sqs = update d.sqs qid true }
effect d delete_sq qid = record d { sqs = update d.sqs qid false }
effect d delete_cq qid = record d { cqs = update d.cqs qid false }

unfoldable pub apply : Device → Event → Device
apply d (admin c ok) = effect d c.opcode c.qid
apply d (admin c (err e)) = d
apply d _ = d

unfoldable pub after : Device → List Event → Device
after d [] = d
after d (e ∷ es) = after (apply d e) es

unfoldable pub event_allowed : Device → Event → Bool
event_allowed d (admin c rc) = allowed d c.opcode c.qid c.cqid
event_allowed d _ = true

unfoldable pub lawful : Device → List Event → Bool
lawful d [] = true
lawful d (e ∷ es) = event_allowed d e && lawful (apply d e) es

abbrev pub no_queues : Device
no_queues = record { sqs = λ q. false; cqs = λ q. false }

-- The device as the trace has left it.
abbrev pub device : World → Device
device w = after no_queues w.trace

-- Every command so far was allowed when it was sent.
abbrev pub IsLawful : World → Type 0
IsLawful w = lawful no_queues w.trace ≡ true

after-append : (d : Device) (xs ys : List Event) → after d (xs ++ ys) ≡ after (after d xs) ys
unfolding after
after-append d [] ys = refl
after-append d (x ∷ xs) ys = after-append (apply d x) xs ys

lawful-append :
    (d : Device) (xs ys : List Event)
    → lawful d (xs ++ ys) ≡ (lawful d xs && lawful (after d xs) ys)
unfolding lawful after
lawful-append d [] ys = refl
lawful-append d (x ∷ xs) ys = ground (arith, lawful-append (apply d x) xs ys)

abbrev pub sent : Kernel → World → Command → Rc
sent k w c = k.submit_sync_cmd w.trace c

module _ (k : Kernel) (w : World) where
  -- One command more, and the device it leaves.
  pub device-submit :
      (c : Command) → device (submit k w c).1 ≡ apply (device w) (admin c (sent k w c))
  unfolding submit after
  device-submit c = after-append no_queues w.trace (admin c (sent k w c) ∷ [])

  pub submit-IsLawful :
      (c : Command)
      → IsLawful w
      → allowed (device w) c.opcode c.qid c.cqid ≡ true
      → IsLawful (submit k w c).1
  unfolding submit lawful event_allowed
  submit-IsLawful c l a =
      ground (arith, lawful-append no_queues w.trace (admin c (sent k w c) ∷ []))

-- The device carries out every deletion.
pub record DeletesSucceed (k : Kernel) : Type 0 where
  pub deleted_sq :
      (t : List Event) (qid : ℕ) → Kernel.submit_sync_cmd k t (delete_command delete_sq qid) ≡ ok
  pub deleted_cq :
      (t : List Event) (qid : ℕ) → Kernel.submit_sync_cmd k t (delete_command delete_cq qid) ≡ ok
