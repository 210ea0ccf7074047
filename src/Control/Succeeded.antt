-- ===== src/Control/Succeeded.antt =====
-- A CHRDEV_CREATE that succeeds: each of its calls did.
use geminifs_npu_smoke.Prelude.{
  ℕ, ◌≡◌, refl, ap, sym, ◌∙◌, ◌⊎◌, inl, inr, true, Option, none, some, ◌==◌, Bool-cases,
  Option-cases,
}
use geminifs_npu_smoke.State.{Rc-cases, ok_err, efault, enomem, other, Rc, ok, err, Ctrl}
use geminifs_npu_smoke.Ctrls.{ctrl_find_by_pci_dev}
use geminifs_npu_smoke.Control.{
  Module, ControlEnv, class_storage_express, new_ctrl, chrdev_add, ctrl_chrdev_create,
  chrdev_create_with, chrdev_create_in, snvm_chrdev_create, get_ref, put_ref,
}
use geminifs_npu_smoke.Control.Request.{
  Answer, create_chrdev, chrdev_helper_at, snvm_chrdev_helper, snvm_chrdev_helper-found,
}
use geminifs_npu_smoke.Control.Fresh.{IsFresh, Succeeds, put_ref-get_ref}
use geminifs_npu_smoke.Control.Outcome.{Sum-cases, taken, given_eq, create_with_eq, there_eq}
use geminifs_npu_smoke.Control.RoundTrip.{created, helper_creates}

module _ (env : ControlEnv) where
  create_in-ok :
      (m : Module) (pdev minor : ℕ) (raw : Ctrl)
      → (chrdev_create_in env m pdev minor raw).0 ≡ ok
      → (env.cdev_add ≡ ok) × (env.device_create ≡ ok)
  unfolding chrdev_create_in ctrl_chrdev_create chrdev_add new_ctrl
  create_in-ok m pdev minor raw done = elim (Rc-cases env.cdev_add) [
    | inr (e, f) ↦ absurd (ok_err {e = e} (sym done ∙ rw (f, chrdev_create_in, chrdev_add) refl))
    | inl f ↦ elim (Rc-cases env.device_create) [
      | inr (e, g) ↦
          absurd (ok_err {e = e} (sym done ∙ rw (f, g, chrdev_create_in, chrdev_add) refl))
      | inl g ↦ (f, g)
    ]
  ]

  create-Succeeds :
      (m : Module) (pdev : ℕ)
      → env.pdev ≡ some pdev
      → (snvm_chrdev_create env m pdev class_storage_express).0 ≡ ok
      → (raw : Ctrl) × (minor : ℕ) × Succeeds env m pdev raw minor
  unfolding snvm_chrdev_create chrdev_create_with
  create-Succeeds m pdev found done =
      elim (Bool-cases ((m.world.pci pdev).class == class_storage_express)) [
        | inr other_class ↦
            absurd (ok_err {e = other 1} (sym done ∙ rw (other_class, snvm_chrdev_create) refl))
        | inl nvme ↦ elim (Sum-cases env.ida_simple_get) [
          | inl (e, f) ↦ absurd (ok_err {e = e} (sym done ∙ rw (nvme, f, snvm_chrdev_create) refl))
          | inr (minor, given) ↦
              let with_minor =
                sym (ap (λ (r : Rc × Module). r.0) (given_eq env m pdev minor nvme given)) ∙ done in
              elim (Option-cases env.kmalloc) [
                | inl none_left ↦
                    absurd (
                      ok_err {e = enomem}
                        (sym with_minor ∙ rw (none_left, chrdev_create_with) refl))
                | inr (raw, memory) ↦
                    let (added, node) = create_in-ok (taken m minor) pdev minor raw (
                      sym
                        (ap (λ (r : Rc × Module). r.0) (create_with_eq env m pdev minor raw memory))
                      ∙ with_minor) in
                    (
                      raw,
                      minor,
                      record {
                        found = found;
                        is_nvme = nvme;
                        minor_given = given;
                        memory = memory;
                        cdev_added = added;
                        node_made = node;
                      },
                    )
              ]
        ]
      ]

  made_ok :
      (m : Module) (pdev : ℕ)
      → ctrl_find_by_pci_dev m.world pdev ≡ none
      → (create_chrdev env m pdev).rc ≡ ok
      → (snvm_chrdev_create env m pdev class_storage_express).0 ≡ ok
  unfolding create_chrdev
  made_ok m pdev missing done =
      elim (Rc-cases (snvm_chrdev_create env m pdev class_storage_express).0) [
        | inl good ↦ good
        | inr (e, bad) ↦ absurd (ok_err {e = e} (sym done ∙ rw (missing, create_chrdev, bad) refl))
      ]

  module _ (m : Module) where
    -- The device had a controller, or it has a new one.
    pub helper-Made :
        ((pdev : ℕ) (raw : Ctrl) (minor : ℕ)
          → env.pdev ≡ some pdev
          → env.kmalloc ≡ some raw
          → env.ida_simple_get ≡ inr minor
          → IsFresh m pdev raw minor)
        → (snvm_chrdev_helper env m true).rc ≡ ok
        → ((snvm_chrdev_helper env m true).state ≡ m)
          ⊎ ((pdev : ℕ) × (raw : Ctrl) × (minor : ℕ) × Succeeds env m pdev raw minor
              × ((snvm_chrdev_helper env m true).state ≡ created m raw pdev minor))
    unfolding snvm_chrdev_helper chrdev_helper_at
    helper-Made free done = elim (Option-cases env.pdev) [
      | inl missing ↦
          let fails =
            ap
              (λ (o : Option ℕ).
                (elim o as (λ _. Answer) [
                  | none ↦ record { rc = err efault; domain = none; state = m }
                  | some p ↦ chrdev_helper_at env m true p
                ]).rc)
              missing in
          absurd (ok_err (sym done ∙ fails))
      | inr (pdev, found) ↦
          let same = snvm_chrdev_helper-found env m true pdev found in
          let state = ap (λ (a : Answer). a.state) same in
          let held = get_ref m pdev in
          let done' : (create_chrdev env held pdev).rc ≡ ok =
            ap (λ (a : Answer). a.rc) (sym same) ∙ done in
          elim (Option-cases (ctrl_find_by_pci_dev held.world pdev)) [
            | inr (c, there) ↦ inl (
                state
                ∙ ap (λ (x : Module). put_ref x pdev) (there_eq env held pdev c there)
                ∙ put_ref-get_ref m pdev)
            | inl missing ↦
                let (raw, minor, s) =
                  create-Succeeds held pdev found (made_ok held pdev missing done') in
                let s' : Succeeds env m pdev raw minor = record {
                  found = s.found;
                  is_nvme = s.is_nvme;
                  minor_given = s.minor_given;
                  memory = s.memory;
                  cdev_added = s.cdev_added;
                  node_made = s.node_made;
                } in
                inr (
                  pdev,
                  raw,
                  minor,
                  s',
                  ap (λ (a : Answer). a.state)
                      (helper_creates env m pdev raw minor
                        (free pdev raw minor found s.memory s.minor_given) s'),
                )
          ]
    ]
