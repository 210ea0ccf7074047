-- ===== src/Tests/Controls.antt =====
-- Witnesses for the control plane.
use geminifs_npu_smoke.Prelude.{
  ℕ, ◌≡◌, refl, inl, inr, ◌⊎◌, true, false, none, some, [], ◌∷◌, if◌then◌else◌, ◌==◌,
}
use geminifs_npu_smoke.State.{ok, err, enomem, no_driver, snvme, foreign}
use geminifs_npu_smoke.Ctrls.{find_ctrl, ctrl_find_by_pci_dev}
use geminifs_npu_smoke.Control.{
  Module, DriverCore, ControlEnv, bound, chrdev_create_with, snvm_chrdev_create,
}
use geminifs_npu_smoke.Control.Binding.{
  release, register_driver, attach_result, attach_pinned, has_named_driver, rebind_free,
  snvm_rebind_driver, snvm_unbind_driver,
}
use geminifs_npu_smoke.Control.Bound.{BindsDrivers, rebind-Bound}
use geminifs_npu_smoke.Control.Unbound.{Unbound, unbind-Unbound}
use geminifs_npu_smoke.Control.Request.{
  chrdev_create, snvm_ioctl, create_chrdev, chrdev_helper_at, snvm_chrdev_helper,
}
use geminifs_npu_smoke.Control.Fresh.{IsFresh}
use geminifs_npu_smoke.Control.RoundTrip.{create-again-remove}
use geminifs_npu_smoke.Control.Outcome.{LeaksMinor}
use geminifs_npu_smoke.Control.Failed.{StaysCreated, failed_create-Undone}
use geminifs_npu_smoke.Control.Unload.{exit_module}
use geminifs_npu_smoke.Control.Unload.Exit.{IsLive, Unloaded, all_made, exit_module-Unloaded}
use geminifs_npu_smoke.Tests.{ctrl0, owner_of, world_of}

-- Device 1 has the controller 0 and is bound to snvme; device 2 is bound to another driver.
abbrev module0 : Module
module0 = record {
  world = record (world_of ctrl0 (owner_of [] 0)) {
    pci = λ p. record ((world_of ctrl0 (owner_of [] 0)).pci p) {
      driver = if p == 2 then foreign else snvme;
      driver_override = false;
    };
  };
  minors = 0 ∷ [];
  cdevs = 0 ∷ [];
  nodes = 0 ∷ [];
  refs = λ p. 0;
  snvm_registered = true;
  on_bus = true;
}

abbrev control_env : ℕ → ControlEnv
control_env p = record {
  pdev = some p;
  copy_from_user = true;
  copy_to_user = 0;
  kmalloc = some (record ctrl0 { cdev = 8 });
  ida_simple_get = inr 1;
  cdev_add = ok;
  device_create = ok;
  kstrdup = true;
}

-- A driver core that binds each free device to snvme when it is asked to.
abbrev core0 : DriverCore
core0 = record {
  pci_register_driver = λ pci. (ok, pci);
  pci_unregister_driver = λ pci p. record (pci p) { driver = no_driver };
  device_release_driver = λ pci q p. record (pci p) { driver = no_driver };
  device_attach = λ pci q. (bound, λ p. record (pci p) { driver = snvme });
}

core0-BindsDrivers : BindsDrivers core0
core0-BindsDrivers = record {
  releases = λ pci p. refl;
  registers = λ pci p free. inl free;
  attaches_pinned = λ pci p named done. refl;
}

module0-IsFresh : IsFresh module0 2 (record ctrl0 { cdev = 8 }) 1
unfolding ctrl_find_by_pci_dev find_ctrl
module0-IsFresh = record {
  no_ctrl = refl;
  new_address = refl;
  new_minor = refl;
  new_cdev = refl;
  new_node = refl;
}

create-again-remove_example :
    let made = snvm_chrdev_helper (control_env 2) module0 true in
    (made.rc ≡ ok)
    × (made.domain ≡ some 1)
    × (snvm_chrdev_helper (control_env 2) made.state true ≡ made)
    × (snvm_chrdev_helper (control_env 2) made.state false
        ≡ record { rc = ok; domain = none; state = module0 })
create-again-remove_example =
    create-again-remove (control_env 2) module0 2 (record ctrl0 { cdev = 8 }) 1 module0-IsFresh
      (record {
        found = refl;
        is_nvme = refl;
        minor_given = refl;
        memory = refl;
        cdev_added = refl;
        node_made = refl;
      })

-- No memory is left for the controller.
abbrev starved_env : ControlEnv
starved_env = record (control_env 2) { kmalloc = none }

create_fails : (snvm_ioctl core0 starved_env module0 chrdev_create).rc ≡ err enomem
unfolding snvm_ioctl snvm_chrdev_helper chrdev_helper_at create_chrdev ctrl_find_by_pci_dev
    snvm_chrdev_create chrdev_create_with
create_fails = refl

failed_create-Undone_example :
    ((snvm_ioctl core0 starved_env module0 chrdev_create).state ≡ module0)
    ⊎ LeaksMinor starved_env module0 (snvm_ioctl core0 starved_env module0 chrdev_create).state
    ⊎ StaysCreated starved_env module0 (snvm_ioctl core0 starved_env module0 chrdev_create).state
failed_create-Undone_example =
    failed_create-Undone starved_env module0 core0 (λ p raw minor found memory given. cc memory)
      create_fails

rebind_succeeds : (snvm_rebind_driver core0 (control_env 2) module0).0 ≡ ok
unfolding snvm_rebind_driver rebind_free register_driver attach_pinned attach_result release
    has_named_driver
rebind_succeeds = refl

rebind-Bound_example :
    (((snvm_rebind_driver core0 (control_env 2) module0).1.world.pci 2).driver ≡ snvme)
    × ((snvm_rebind_driver core0 (control_env 2) module0).1.refs ≡ module0.refs)
rebind-Bound_example =
    rebind-Bound core0 core0-BindsDrivers (control_env 2) 2 module0 refl (λ h. cc h) rebind_succeeds

unbind-Unbound_example : Unbound module0 2 (snvm_unbind_driver core0 (control_env 2) module0)
unbind-Unbound_example = unbind-Unbound core0 core0-BindsDrivers (control_env 2) module0 2 refl

module0-IsLive : IsLive module0
unfolding all_made
module0-IsLive = record { made = refl; cdevs = refl; nodes = refl }

-- The map 12 of `world_of` is on the list of host maps.
exit_module-Unloaded_example : Unloaded module0 12 (exit_module core0 module0)
exit_module-Unloaded_example = exit_module-Unloaded core0 module0 12 module0-IsLive
