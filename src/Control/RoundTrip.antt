-- ===== src/Control/RoundTrip.antt =====
-- CHRDEV_CREATE, the same again, and CHRDEV_REMOVE.

use geminifs_npu_smoke.Prelude.{
  ℕ, ◌≡◌, refl, ap, sym, ◌∙◌, subst, true, false, none, some, [], ◌∷◌, ◌++◌,
}
use geminifs_npu_smoke.State.{ok, Ctrl}
use geminifs_npu_smoke.Ctrls.{update_ctrl, ctrl_find_by_pci_dev}
use geminifs_npu_smoke.Ioctl.Map.Undo.{erase-append_self}
use geminifs_npu_smoke.Control.{
  Module, ControlEnv, class_storage_express, new_ctrl, ctrl_get, chrdev_add, ctrl_chrdev_create,
  ctrl_chrdev_remove, ctrl_put, free_minor, chrdev_create_with, chrdev_create_in,
  snvm_chrdev_create, get_ref, put_ref,
}
use geminifs_npu_smoke.Control.Request.{
  create_chrdev, remove_chrdev, chrdev_helper_at, snvm_chrdev_helper, snvm_chrdev_helper-found,
}
use geminifs_npu_smoke.Control.Fresh.{
  IsFresh, Succeeds, held-Fresh, update_first-append, remove_ctrl-append, find_by_pdev-append,
  put_ref-get_ref,
}

-- The controller that CHRDEV_CREATE lists, and the module with it.
pub listed : Ctrl → ℕ → ℕ → Ctrl
listed raw pdev minor = record (new_ctrl raw pdev minor) { chrdev = true }

pub created : Module → Ctrl → ℕ → ℕ → Module
created m raw pdev minor = record m {
  world = record m.world { ctrl_list = m.world.ctrl_list ++ (listed raw pdev minor ∷ []) };
  minors = m.minors ++ (minor ∷ []);
  cdevs = m.cdevs ++ (minor ∷ []);
  nodes = m.nodes ++ (minor ∷ []);
}

module _ (env : ControlEnv) (m : Module) (pdev : ℕ) (raw : Ctrl) (minor : ℕ) where
  module _ (fresh : IsFresh m pdev raw minor) where
    snvm_chrdev_create-created :
        Succeeds env m pdev raw minor
        → snvm_chrdev_create env m pdev class_storage_express ≡ (ok, created m raw pdev minor)
    unfolding snvm_chrdev_create chrdev_create_with chrdev_create_in ctrl_chrdev_create chrdev_add
        ctrl_get new_ctrl created listed update_ctrl
    snvm_chrdev_create-created s =
        rw (s.is_nvme, s.minor_given, s.memory, s.cdev_added, s.node_made)
          (rw
            (update_first-append raw.cdev (λ (c : Ctrl). record c { chrdev = true })
              m.world.ctrl_list (new_ctrl raw pdev minor) fresh.new_address refl)
            refl)

    find-created :
        ctrl_find_by_pci_dev (created m raw pdev minor).world pdev ≡ some (listed raw pdev minor)
    unfolding ctrl_find_by_pci_dev created listed new_ctrl
    find-created =
        find_by_pdev-append pdev m.world.ctrl_list (listed raw pdev minor) fresh.no_ctrl refl

    remove-created :
        free_minor (ctrl_put (created m raw pdev minor) (listed raw pdev minor)) minor ≡ m
    unfolding ctrl_put ctrl_chrdev_remove created listed new_ctrl
    remove-created =
        rw
          (
            remove_ctrl-append raw.cdev m.world.ctrl_list (listed raw pdev minor) fresh.new_address
                refl,
            erase-append_self minor m.minors fresh.new_minor,
            erase-append_self minor m.cdevs fresh.new_cdev,
            erase-append_self minor m.nodes fresh.new_node,
          )
          refl

    create_chrdev-created :
        Succeeds env m pdev raw minor
        → create_chrdev env m pdev
          ≡ record { rc = ok; domain = some minor; state = created m raw pdev minor }
    unfolding create_chrdev listed new_ctrl
    create_chrdev-created s =
        rw
          (
            fresh.no_ctrl,
            snvm_chrdev_create-created s,
            create_chrdev,
            snvm_chrdev_create-created s,
            find-created,
          )
          refl

    create_chrdev-again :
        create_chrdev env (created m raw pdev minor) pdev
        ≡ record { rc = ok; domain = some minor; state = created m raw pdev minor }
    unfolding create_chrdev listed new_ctrl
    create_chrdev-again = rw (find-created, create_chrdev) refl

    remove_chrdev-created :
        remove_chrdev (created m raw pdev minor) pdev ≡ record { rc = ok; domain = none; state = m }
    unfolding remove_chrdev listed new_ctrl
    remove_chrdev-created = rw (find-created, remove_chrdev) (rw remove-created refl)

module _ (env : ControlEnv) (m : Module) (pdev : ℕ) (raw : Ctrl) (minor : ℕ) where
  held-Succeeds : Succeeds env m pdev raw minor → Succeeds env (get_ref m pdev) pdev raw minor
  held-Succeeds s = record {
    found = s.found;
    is_nvme = s.is_nvme;
    minor_given = s.minor_given;
    memory = s.memory;
    cdev_added = s.cdev_added;
    node_made = s.node_made;
  }

  put-created : put_ref (created (get_ref m pdev) raw pdev minor) pdev ≡ created m raw pdev minor
  unfolding created
  put-created = ap (λ (x : Module). created x raw pdev minor) (put_ref-get_ref m pdev)

  get-created : get_ref (created m raw pdev minor) pdev ≡ created (get_ref m pdev) raw pdev minor
  unfolding created
  get-created = refl

  pub helper_creates :
      IsFresh m pdev raw minor
      → Succeeds env m pdev raw minor
      → snvm_chrdev_helper env m true
        ≡ record { rc = ok; domain = some minor; state = created m raw pdev minor }
  unfolding chrdev_helper_at
  helper_creates fresh s =
      snvm_chrdev_helper-found env m true pdev s.found
      ∙ rw
          (
            create_chrdev-created env (get_ref m pdev) pdev raw minor
                (held-Fresh m pdev raw minor fresh) (held-Succeeds s),
            put-created,
          )
          refl

  helper_again :
      IsFresh m pdev raw minor
      → Succeeds env m pdev raw minor
      → snvm_chrdev_helper env (created m raw pdev minor) true
        ≡ record { rc = ok; domain = some minor; state = created m raw pdev minor }
  unfolding chrdev_helper_at
  helper_again fresh s =
      snvm_chrdev_helper-found env (created m raw pdev minor) true pdev s.found
      ∙ rw
          (
            get-created,
            create_chrdev-again env (get_ref m pdev) pdev raw minor
                (held-Fresh m pdev raw minor fresh),
            put-created,
          )
          refl

  helper_removes :
      IsFresh m pdev raw minor
      → Succeeds env m pdev raw minor
      → snvm_chrdev_helper env (created m raw pdev minor) false
        ≡ record { rc = ok; domain = none; state = m }
  unfolding chrdev_helper_at
  helper_removes fresh s =
      snvm_chrdev_helper-found env (created m raw pdev minor) false pdev s.found
      ∙ rw
          (
            get-created,
            remove_chrdev-created env (get_ref m pdev) pdev raw minor
                (held-Fresh m pdev raw minor fresh),
            put_ref-get_ref m pdev,
          )
          refl

  -- If the device has no controller, `kmalloc` and the IDA give an address and a minor that are not
  -- in use, and every call succeeds, then CHRDEV_CREATE reports the minor; doing it again reports
  -- the same minor and changes nothing; and CHRDEV_REMOVE after it leaves the whole module as it
  -- was, lists, minors, devices and references.
  pub create-again-remove :
      IsFresh m pdev raw minor
      → Succeeds env m pdev raw minor
      → let made = snvm_chrdev_helper env m true in
        (made.rc ≡ ok)
        × (made.domain ≡ some minor)
        × (snvm_chrdev_helper env made.state true ≡ made)
        × (snvm_chrdev_helper env made.state false ≡ record { rc = ok; domain = none; state = m })
  create-again-remove fresh s =
      subst
        (λ made.
          (made.rc ≡ ok)
          × (made.domain ≡ some minor)
          × (snvm_chrdev_helper env made.state true ≡ made)
          × (snvm_chrdev_helper env made.state false
              ≡ record { rc = ok; domain = none; state = m }))
        (sym (helper_creates fresh s)) (refl, refl, helper_again fresh s, helper_removes fresh s)
