-- ===== src/Control/Outcome.antt =====
-- The ways in which the creation of a character device ends.

use geminifs_npu_smoke.Prelude.{
  ℕ, ◌≡◌, refl, ap, sym, ◌∙◌, subst, ◌⊎◌, inl, inr, true, false, Option, none, some, [], ◌∷◌, ◌++◌,
  mem, Bool-cases, Option-cases, ◌==◌,
}
use geminifs_npu_smoke.State.{Rc-cases, ok_err, Errno, enomem, Rc, ok, err, Ctrl}
use geminifs_npu_smoke.Ctrls.{ctrl_find_by_pci_dev}
use geminifs_npu_smoke.Ioctl.Map.Undo.{erase-append_self}
use geminifs_npu_smoke.Control.{
  Module, ControlEnv, class_storage_express, new_ctrl, ctrl_get, chrdev_add, ctrl_chrdev_create,
  ctrl_chrdev_remove, ctrl_put, free_minor, chrdev_create_with, chrdev_create_in,
  snvm_chrdev_create,
}
use geminifs_npu_smoke.Control.Request.{create_chrdev}
use geminifs_npu_smoke.Control.Fresh.{IsFresh, remove_ctrl-append}

pub Sum-cases : (s : Errno ⊎ ℕ) → ((e : Errno) × (s ≡ inl e)) ⊎ ((n : ℕ) × (s ≡ inr n))
Sum-cases (inl e) = inl (e, refl)
Sum-cases (inr n) = inr (n, refl)

-- A minor that stays taken although no controller has it, for want of memory.
unfoldable pub LeaksMinor : ControlEnv → Module → Module → Type 0
LeaksMinor env m m' =
    (minor : ℕ) × (env.ida_simple_get ≡ inr minor)
    × (env.kmalloc ≡ none)
    × (m' ≡ record m { minors = m.minors ++ (minor ∷ []) })

abbrev pub taken : Module → ℕ → Module
taken m minor = record m { minors = m.minors ++ (minor ∷ []) }

module _ (env : ControlEnv) where
  -- A character device is made, or nothing is changed.
  chrdev_create-Outcome :
      (m : Module) (c : Ctrl)
      → c.chrdev ≡ false
      → mem c.number m.cdevs ≡ false
      → ((ctrl_chrdev_create env m c).0 ≡ ok)
        ⊎ ((e : Errno) × (ctrl_chrdev_create env m c ≡ (err e, m)))
  unfolding ctrl_chrdev_create chrdev_add
  chrdev_create-Outcome m c new fresh = elim (Rc-cases env.cdev_add) [
    | inr (e, f) ↦ inr (e, rw (new, f, chrdev_add, f) refl)
    | inl f ↦ elim (Rc-cases env.device_create) [
      | inr (e, g) ↦
          inr (e, rw (new, f, g, chrdev_add, f, g, erase-append_self c.number m.cdevs fresh) refl)
      | inl g ↦ inl (rw (new, f, g) refl)
    ]
  ]

  module _ (m : Module) (pdev : ℕ) where
    undone :
        (raw : Ctrl) (minor : ℕ)
        → IsFresh m pdev raw minor
        → free_minor
            (ctrl_put (ctrl_get (taken m minor) raw pdev minor) (new_ctrl raw pdev minor))
            minor
          ≡ m
    unfolding ctrl_put ctrl_get ctrl_chrdev_remove new_ctrl
    undone raw minor fresh =
        rw
          (
            remove_ctrl-append raw.cdev m.world.ctrl_list (new_ctrl raw pdev minor)
                fresh.new_address refl,
            erase-append_self minor m.minors fresh.new_minor,
          )
          refl

    new_unmade : (raw : Ctrl) (minor : ℕ) → (new_ctrl raw pdev minor).chrdev ≡ false
    unfolding new_ctrl
    new_unmade raw minor = refl

    new_free :
        (raw : Ctrl) (minor : ℕ)
        → IsFresh m pdev raw minor
        → mem (new_ctrl raw pdev minor).number (ctrl_get (taken m minor) raw pdev minor).cdevs
          ≡ false
    unfolding new_ctrl ctrl_get
    new_free raw minor fresh = fresh.new_cdev

    create_in-Outcome :
        (raw : Ctrl) (minor : ℕ)
        → IsFresh m pdev raw minor
        → ((chrdev_create_in env (taken m minor) pdev minor raw).0 ≡ ok)
          ⊎ ((chrdev_create_in env (taken m minor) pdev minor raw).1 ≡ m)
    unfolding chrdev_create_in
    create_in-Outcome raw minor fresh =
        let c = new_ctrl raw pdev minor in
        let x = ctrl_get (taken m minor) raw pdev minor in
        elim (chrdev_create-Outcome x c (new_unmade raw minor) (new_free raw minor fresh)) [
          | inl made ↦ inl (rw (chrdev_create_in, made) refl)
          | inr (e, failed) ↦ inr (rw (chrdev_create_in, failed, failed) (undone raw minor fresh))
        ]

    pub create_with_eq :
        (minor : ℕ) (raw : Ctrl)
        → env.kmalloc ≡ some raw
        → chrdev_create_with env (taken m minor) pdev minor
          ≡ chrdev_create_in env (taken m minor) pdev minor raw
    unfolding chrdev_create_with
    create_with_eq minor raw memory =
        ap
          (λ (o : Option Ctrl). elim o as (λ _. Rc × Module) [
            | none ↦ (err enomem, taken m minor)
            | some x ↦ chrdev_create_in env (taken m minor) pdev minor x
          ])
          memory

    pub given_eq :
        (minor : ℕ)
        → ((m.world.pci pdev).class == class_storage_express) ≡ true
        → env.ida_simple_get ≡ inr minor
        → snvm_chrdev_create env m pdev class_storage_express
          ≡ chrdev_create_with env (taken m minor) pdev minor
    unfolding snvm_chrdev_create
    given_eq minor nvme given = rw nvme (
        ap
          (λ (o : Errno ⊎ ℕ). elim o as (λ _. Rc × Module) [
            | inl e ↦ (err e, m)
            | inr x ↦ chrdev_create_with env (taken m x) pdev x
          ])
          given)

    pub there_eq :
        (c : Ctrl)
        → ctrl_find_by_pci_dev m.world pdev ≡ some c
        → (create_chrdev env m pdev).state ≡ m
    unfolding create_chrdev
    there_eq c there = rw (there, create_chrdev) refl

    state_eq :
        ctrl_find_by_pci_dev m.world pdev ≡ none
        → (create_chrdev env m pdev).state ≡ (snvm_chrdev_create env m pdev class_storage_express).1
    unfolding create_chrdev
    state_eq missing = elim (Rc-cases (snvm_chrdev_create env m pdev class_storage_express).0) [
      | inl good ↦ rw (missing, create_chrdev, good) refl
      | inr (e, bad) ↦ rw (missing, create_chrdev, bad) refl
    ]

    rc_eq :
        ctrl_find_by_pci_dev m.world pdev ≡ none
        → (snvm_chrdev_create env m pdev class_storage_express).0 ≡ ok
        → (create_chrdev env m pdev).rc ≡ ok
    unfolding create_chrdev
    rc_eq missing made = rw (missing, create_chrdev, made) refl

    -- The three ways in which a creation ends.
    abbrev Outcome : Rc × Module → Type 0
    Outcome r = (r.0 ≡ ok) ⊎ (r.1 ≡ m) ⊎ LeaksMinor env m r.1

    module _
        (free : (raw : Ctrl) (minor : ℕ)
          → env.kmalloc ≡ some raw
          → env.ida_simple_get ≡ inr minor
          → IsFresh m pdev raw minor) where
      create_with-Outcome :
          (minor : ℕ)
          → env.ida_simple_get ≡ inr minor
          → Outcome (chrdev_create_with env (taken m minor) pdev minor)
      unfolding chrdev_create_with LeaksMinor
      create_with-Outcome minor given = elim (Option-cases env.kmalloc) [
        | inl none_left ↦ inr (inr (minor, given, none_left, rw none_left refl))
        | inr (raw, memory) ↦
            subst (λ r. Outcome r) (sym (create_with_eq minor raw memory))
              (elim (create_in-Outcome raw minor (free raw minor memory given)) [
                | inl good ↦ inl good
                | inr same ↦ inr (inl same)
              ])
      ]

      snvm_chrdev_create-Outcome : Outcome (snvm_chrdev_create env m pdev class_storage_express)
      unfolding snvm_chrdev_create
      snvm_chrdev_create-Outcome =
          elim (Bool-cases ((m.world.pci pdev).class == class_storage_express)) [
            | inr other_class ↦ inr (inl (rw other_class refl))
            | inl nvme ↦ elim (Sum-cases env.ida_simple_get) [
              | inl (e, f) ↦ inr (inl (rw (nvme, f) refl))
              | inr (minor, given) ↦
                  subst (λ r. Outcome r) (sym (given_eq minor nvme given))
                    (create_with-Outcome minor given)
            ]
          ]

      pub create_chrdev-Outcome :
          {e : Errno}
          → (create_chrdev env m pdev).rc ≡ err e
          → ((create_chrdev env m pdev).state ≡ m)
            ⊎ LeaksMinor env m (create_chrdev env m pdev).state
      create_chrdev-Outcome {e} failed = elim (Option-cases (ctrl_find_by_pci_dev m.world pdev)) [
        | inr (c, there) ↦ inl (there_eq c there)
        | inl missing ↦ rw (state_eq missing) (elim snvm_chrdev_create-Outcome [
          | inl made ↦ absurd (ok_err (sym (rc_eq missing made) ∙ failed))
          | inr rest ↦ rest
        ])
      ]
