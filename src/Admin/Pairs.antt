-- ===== src/Admin/Pairs.antt =====
-- Queue pairs on the device: making one, a CQ whose SQ is refused, and taking one away.
use geminifs_npu_smoke.Prelude.{
  ℕ, ◌≡◌, ap, ◌∙◌, Bool, true, not, ◌&&◌, ◌||◌, List, ◌∷◌, arith, ◌==◌, mem,
}
use geminifs_npu_smoke.State.{
  Errno, ok, err, create_cq, delete_cq, delete_sq, Command, admin, World, Kernel, Map, NvmeDev,
}
use geminifs_npu_smoke.Admin.{
  delete_command, create_cq_command, create_sq_command, submit, adapter_delete_queue,
  adapter_delete_cq, adapter_delete_sq,
}
use geminifs_npu_smoke.Admin.Device.{
  Device, allowed, effect, apply, device, IsLawful, sent, device-submit, submit-IsLawful,
  DeletesSucceed,
}

-- Over the device `d` exactly the pairs `created` were added, lawfully.
pub record Extends (d : Device) (w : World) (created : List ℕ) : Type 0 where
  pub is_lawful : IsLawful w
  pub sqs : (q : ℕ) → (device w).sqs q ≡ (d.sqs q || mem q created)
  pub cqs : (q : ℕ) → (device w).cqs q ≡ (d.cqs q || mem q created)

-- A QID that names no queue yet.
abbrev pub is_fresh : Device → List ℕ → ℕ → Bool
is_fresh d created q = not (d.sqs q) && not (d.cqs q) && not (mem q created)

-- The same with one CQ that has no SQ yet.
pub record Halfway (d : Device) (w : World) (created : List ℕ) (qid : ℕ) : Type 0 where
  pub is_lawful : IsLawful w
  pub sqs : (q : ℕ) → (device w).sqs q ≡ (d.sqs q || mem q created)
  pub cqs : (q : ℕ) → (device w).cqs q ≡ (d.cqs q || q == qid || mem q created)

module _ (k : Kernel) (d : Device) (w : World) (created : List ℕ) where
  module _ (c : Command) (e : Errno) (refused : sent k w c ≡ err e) where
    device_refused : device (submit k w c).1 ≡ device w
    unfolding apply
    device_refused = device-submit k w c ∙ ap (λ r. apply (device w) (admin c r)) refused

    pub Extends-refused :
        Extends d w created
        → allowed (device w) c.opcode c.qid c.cqid ≡ true
        → Extends d (submit k w c).1 created
    Extends-refused x a = record {
      is_lawful = submit-IsLawful k w c x.is_lawful a;
      sqs = λ q. rw device_refused (x.sqs q);
      cqs = λ q. rw device_refused (x.cqs q);
    }

  device_granted :
      (c : Command) → sent k w c ≡ ok → device (submit k w c).1 ≡ effect (device w) c.opcode c.qid
  unfolding apply
  device_granted c granted = device-submit k w c ∙ ap (λ r. apply (device w) (admin c r)) granted

  module _ (dev : NvmeDev) (m : Map) (qid : ℕ) where
    pub cq_allowed :
        Extends d w created
        → is_fresh d created qid ≡ true
        → allowed (device w) create_cq qid 0 ≡ true
    cq_allowed x f = ground (arith, x.cqs qid)

    pub Halfway-granted :
        Extends d w created
        → is_fresh d created qid ≡ true
        → sent k w (create_cq_command dev m qid) ≡ ok
        → Halfway d (submit k w (create_cq_command dev m qid)).1 created qid
    Halfway-granted x f granted = record {
      is_lawful = submit-IsLawful k w (create_cq_command dev m qid) x.is_lawful (cq_allowed x f);
      sqs = λ q. rw (device_granted (create_cq_command dev m qid) granted) (x.sqs q);
      cqs =
          λ q. rw (device_granted (create_cq_command dev m qid) granted) (ground (arith, x.cqs q));
    }

  module _ (dev : NvmeDev) (m : Map) (qid : ℕ) (half : Halfway d w created qid) where
    pub Extends-granted :
        is_fresh d created qid ≡ true
        → sent k w (create_sq_command dev m qid) ≡ ok
        → Extends d (submit k w (create_sq_command dev m qid)).1 (qid ∷ created)
    Extends-granted f granted = record {
      is_lawful =
          submit-IsLawful k w (create_sq_command dev m qid) half.is_lawful
            (ground (arith, half.sqs qid, half.cqs qid));
      sqs = λ q.
          rw (device_granted (create_sq_command dev m qid) granted) (ground (arith, half.sqs q));
      cqs = λ q.
          rw (device_granted (create_sq_command dev m qid) granted) (ground (arith, half.cqs q));
    }

    pub Halfway-refused :
        (e : Errno)
        → is_fresh d created qid ≡ true
        → sent k w (create_sq_command dev m qid) ≡ err e
        → Halfway d (submit k w (create_sq_command dev m qid)).1 created qid
    Halfway-refused e f refused = record {
      is_lawful =
          submit-IsLawful k w (create_sq_command dev m qid) half.is_lawful
            (ground (arith, half.sqs qid, half.cqs qid));
      sqs = λ q. rw (device_refused (create_sq_command dev m qid) e refused) (half.sqs q);
      cqs = λ q. rw (device_refused (create_sq_command dev m qid) e refused) (half.cqs q);
    }

  module _ (deletes : DeletesSucceed k) (qid : ℕ) (fresh : is_fresh d created qid ≡ true) where
    pub Extends-delete_cq :
        Halfway d w created qid → Extends d (adapter_delete_cq k w qid).1 created
    unfolding adapter_delete_cq adapter_delete_queue
    Extends-delete_cq half =
        let gone = device_granted (delete_command delete_cq qid) (deletes.deleted_cq w.trace qid) in
        record {
          is_lawful =
              submit-IsLawful k w (delete_command delete_cq qid) half.is_lawful
                (ground (arith, half.sqs qid, half.cqs qid));
          sqs = λ q. rw gone (half.sqs q);
          cqs = λ q. rw gone (ground (arith, half.cqs q));
        }

    pub Halfway-delete_sq :
        Extends d w (qid ∷ created) → Halfway d (adapter_delete_sq k w qid).1 created qid
    unfolding adapter_delete_sq adapter_delete_queue
    Halfway-delete_sq x =
        let gone = device_granted (delete_command delete_sq qid) (deletes.deleted_sq w.trace qid) in
        record {
          is_lawful =
              submit-IsLawful k w (delete_command delete_sq qid) x.is_lawful
                (ground (arith, x.sqs qid));
          sqs = λ q. rw gone (ground (arith, x.sqs q));
          cqs = λ q. rw gone (ground (arith, x.cqs q));
        }
