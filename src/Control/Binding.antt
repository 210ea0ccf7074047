-- ===== src/Control/Binding.antt =====
-- pci.c: `register_driver`, `snvm_rebind_driver` and `snvm_unbind_driver`, which take a PCI device
-- from its driver and give it to this one. Kernels older than 5.15 are modelled, the port's target.
use geminifs_npu_smoke.Prelude.{ℕ, Bool, true, false, ◌||◌, none, some, if◌then◌else◌, update}
use geminifs_npu_smoke.State.{
  efault, enodev, enomem, Rc, ok, err, failed, PciDev, no_driver, unnamed, snvme, foreign,
}
use geminifs_npu_smoke.Control.{
  Module, DriverCore, ControlEnv, Attached, bound, no_match, attach_failed, get_ref, put_ref,
  with_pci,
}

-- `pci_disable_device`
abbrev pub disable : (ℕ → PciDev) → ℕ → ℕ → PciDev
disable pci pdev = update pci pdev (record (pci pdev) { enabled = false })

-- Disable the device if it is enabled, and take it from its driver.
unfoldable pub release : DriverCore → Module → ℕ → Module
release core m pdev =
    let pci = m.world.pci in
    with_pci m
      (core.device_release_driver (if (pci pdev).enabled then disable pci pdev else pci) pdev)

unfoldable pub register_driver : DriverCore → Module → Rc × Module
register_driver core m =
    let registered = core.pci_register_driver m.world.pci in
    let after = with_pci m registered.1 in
    if m.on_bus || m.snvm_registered then (ok, m) else elim registered.0 [
      | err e ↦ (err e, after)
      | ok ↦ (ok, record after { snvm_registered = true; on_bus = true })
    ]

-- `driver_override`, "snvme" or NULL.
unfoldable pub pin : (ℕ → PciDev) → ℕ → Bool → ℕ → PciDev
pin pci pdev named = update pci pdev (record (pci pdev) { driver_override = named })

unfoldable pub attach_result : Module → Attached × (ℕ → PciDev) → Rc × Module
attach_result m (attach_failed e, pci) = (err e, with_pci m pci)
attach_result m (no_match, pci) = (err enodev, with_pci m pci)
attach_result m (bound, pci) = (ok, with_pci m pci)

-- Pin the device to "snvme" and attach it.
unfoldable pub attach_pinned : DriverCore → ControlEnv → Module → ℕ → Rc × Module
attach_pinned core env m pdev =
    if env.kstrdup
    then attach_result m (core.device_attach (pin m.world.pci pdev true) pdev)
    else (err enomem, with_pci m (pin m.world.pci pdev false))

unfoldable pub has_named_driver : PciDev → Bool
has_named_driver d = elim d.driver [
  | no_driver ↦ false
  | unnamed ↦ false
  | snvme ↦ true
  | foreign ↦ true
]

-- The part after the device's driver is gone.
unfoldable pub rebind_free : DriverCore → ControlEnv → Module → ℕ → Rc × Module
rebind_free core env m pdev =
    let registered = register_driver core m in
    let attached = attach_pinned core env registered.1 pdev in
    if failed registered.0
    then (err efault, put_ref registered.1 pdev)
    else elim (registered.1.world.pci pdev).driver [
      | no_driver ↦ (attached.0, put_ref attached.1 pdev)
      | _ ↦ (ok, put_ref registered.1 pdev)
    ]

unfoldable pub snvm_rebind_driver : DriverCore → ControlEnv → Module → Rc × Module
snvm_rebind_driver core env m = elim env.pdev [
  | none ↦ (err enodev, m)
  | some pdev ↦
      let held = get_ref m pdev in
      rebind_free core env
        (if has_named_driver (m.world.pci pdev) then release core held pdev else held) pdev
]

unfoldable pub snvm_unbind_driver : DriverCore → ControlEnv → Module → Rc × Module
snvm_unbind_driver core env m = elim env.pdev [
  | none ↦ (err efault, m)
  | some pdev ↦
      let held = get_ref m pdev in
      elim (m.world.pci pdev).driver [
        | snvme ↦ (ok, put_ref (release core held pdev) pdev)
        | _ ↦ (err efault, held)
      ]
]
