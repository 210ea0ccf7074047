-- ===== src/Control/Request.antt =====
-- pci.c: `snvm_chrdev_helper`, which makes and removes the character device of a PCI device, and
-- `snvm_ioctl`, the ioctl of /dev/snvm_control.
use geminifs_npu_smoke.Prelude.{
  ℕ, Bool, true, false, Option, none, some, if◌then◌else◌, ◌==◌, ◌≡◌, ap,
}
use mathlib.Core.Option
use geminifs_npu_smoke.State.{Errno, efault, other, Rc, ok, err}
use geminifs_npu_smoke.Ctrls.{ctrl_find_by_pci_dev}
use geminifs_npu_smoke.Control.{
  Module, DriverCore, ControlEnv, class_storage_express, ctrl_put, free_minor, snvm_chrdev_create,
  get_ref, put_ref,
}
use geminifs_npu_smoke.Control.Binding.{snvm_rebind_driver, snvm_unbind_driver}

-- What a call on the control device answers: the return value, and the number that it writes to
-- `dev_addr->domain`, if it does.
pub record Answer : Type 0 where
  pub rc : Rc
  pub domain : Option ℕ
  pub state : Module

unfoldable pub create_chrdev : ControlEnv → Module → ℕ → Answer
create_chrdev env m pdev = elim (ctrl_find_by_pci_dev m.world pdev) [
  | some c ↦ record { rc = ok; domain = some c.number; state = m }
  | none ↦
      let made = snvm_chrdev_create env m pdev class_storage_express in
      elim made.0 [
        | err e ↦ record { rc = err e; domain = none; state = made.1 }
        | ok ↦ record {
          rc = ok;
          domain = Option.map (λ c. c.number) (ctrl_find_by_pci_dev made.1.world pdev);
          state = made.1;
        }
      ]
]

-- The controller first, and then its minor.
unfoldable pub remove_chrdev : Module → ℕ → Answer
remove_chrdev m pdev = elim (ctrl_find_by_pci_dev m.world pdev) [
  | none ↦ record { rc = ok; domain = none; state = m }
  | some c ↦ record { rc = ok; domain = none; state = free_minor (ctrl_put m c) c.number }
]

-- The part after the device was found.
unfoldable pub chrdev_helper_at : ControlEnv → Module → Bool → ℕ → Answer
chrdev_helper_at env m create pdev =
    let held = get_ref m pdev in
    let done = if create then create_chrdev env held pdev else remove_chrdev held pdev in
    record done { state = put_ref done.state pdev }

unfoldable pub snvm_chrdev_helper : ControlEnv → Module → Bool → Answer
snvm_chrdev_helper env m create = elim env.pdev [
  | none ↦ record { rc = err efault; domain = none; state = m }
  | some pdev ↦ chrdev_helper_at env m create pdev
]

pub snvm_chrdev_helper-found :
    (env : ControlEnv) (m : Module) (create : Bool) (pdev : ℕ)
    → env.pdev ≡ some pdev
    → snvm_chrdev_helper env m create ≡ chrdev_helper_at env m create pdev
unfolding snvm_chrdev_helper
snvm_chrdev_helper-found env m create pdev found =
    ap
      (λ (o : Option ℕ). elim o as (λ _. Answer) [
        | none ↦ record { rc = err efault; domain = none; state = m }
        | some p ↦ chrdev_helper_at env m create p
      ])
      found

-- The commands of the control device.
pub data ControlCmd : Type 0 where
  device_bind device_unbind chrdev_create chrdev_remove unknown : ControlCmd

abbrev pub enotty : Errno
enotty = other 25

abbrev pub plain : Rc × Module → Answer
plain r = record { rc = r.0; domain = none; state = r.1 }

-- A short copy is returned as its count of bytes, which is not negative.
abbrev pub reply : ControlEnv → Answer → Answer
reply env a = elim a.rc [
  | err e ↦ a
  | ok ↦ if env.copy_to_user == 0 then a else record a { rc = err (other env.copy_to_user) }
]

unfoldable pub snvm_ioctl : DriverCore → ControlEnv → Module → ControlCmd → Answer
snvm_ioctl core env m cmd =
    if env.copy_from_user
    then elim cmd [
      | device_bind ↦ plain (snvm_rebind_driver core env m)
      | device_unbind ↦ plain (snvm_unbind_driver core env m)
      | chrdev_create ↦ reply env (snvm_chrdev_helper env m true)
      | chrdev_remove ↦ snvm_chrdev_helper env m false
      | unknown ↦ record { rc = err enotty; domain = none; state = m }
    ]
    else record { rc = err efault; domain = none; state = m }
