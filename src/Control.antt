-- ===== src/Control.antt =====
-- pci.c and ctrl.c, the control plane behind /dev/snvm_control: the controllers' character devices
-- (`snvm_chrdev_create`, `snvm_chrdev_helper`, `ctrl_get`, `ctrl_put`), the drivers of a PCI device
-- (`snvm_rebind_driver`, `snvm_unbind_driver`) and the ioctl; Unload is the module's unload.
-- A PCI device is named by a number; what the driver core does to its bindings is a parameter.
pub mod Binding
pub mod Bound
pub mod Unbound
pub mod Request
pub mod Fresh
pub mod RoundTrip
pub mod Outcome
pub mod Succeeded
pub mod Failed
pub mod Unload
pub mod Device
use geminifs_npu_smoke.Prelude.{
  ℕ, zero, suc, ◌+◌, ◌-◌, ◌⊎◌, inl, inr, Bool, true, false, not, ◌&&◌, Option, none, some, List, [],
  ◌∷◌, ◌++◌, ◌==◌, if◌then◌else◌, update, erase, pos,
}
use geminifs_npu_smoke.State.{
  Errno, efault, enodev, enomem, other, Rc, ok, err, Ctrl, PciDev, Driver, no_driver, unnamed,
  snvme, foreign, World, QueueSetup,
}
use geminifs_npu_smoke.Ctrls.{find_by_pdev, ctrl_find_by_pci_dev, update_first, update_ctrl}

-- The module's own state beside the lists: the IDA of minors, the minors whose `cdev` and whose
-- device node are live, and the references that the module holds on each PCI device.
pub record Module : Type 0 where
  pub world : World
  pub minors : List ℕ
  pub cdevs : List ℕ
  pub nodes : List ℕ
  pub refs : ℕ → ℕ
  pub snvm_registered : Bool
  -- Whether `driver_find` finds the PCI driver.
  pub on_bus : Bool

-- Results of `device_attach`.
pub data Attached : Type 0 where
  bound no_match : Attached
  attach_failed : Errno → Attached

-- What the driver core does, the probe and remove callbacks included: each call's answer and the
-- PCI devices after it.
pub record DriverCore : Type 0 where
  pub pci_register_driver : (ℕ → PciDev) → Rc × (ℕ → PciDev)
  pub pci_unregister_driver : (ℕ → PciDev) → ℕ → PciDev
  pub device_release_driver : (ℕ → PciDev) → ℕ → ℕ → PciDev
  pub device_attach : (ℕ → PciDev) → ℕ → Attached × (ℕ → PciDev)

-- What the kernel's functions return during one call on the control device.
pub record ControlEnv : Type 0 where
  -- `pci_get_domain_bus_and_slot`
  pub pdev : Option ℕ
  pub copy_from_user : Bool
  -- How many bytes `copy_to_user` could not copy.
  pub copy_to_user : ℕ
  -- The memory of a new `struct ctrl`, with what it held before.
  pub kmalloc : Option Ctrl
  pub ida_simple_get : Errno ⊎ ℕ
  pub cdev_add : Rc
  pub device_create : Rc
  pub kstrdup : Bool

abbrev pub class_storage_express : ℕ
class_storage_express = 67586

abbrev pub no_setup : QueueSetup
no_setup = record {
  valid = 0;
  ioq_num = 0;
  flags = 0;
  cap_kernel_ioq = 0;
  nr_write = 0;
  nr_poll = 0;
  nr_groups = 0;
  groups = [];
}

-- `on_host` and `cdev` stay as they were.
unfoldable pub new_ctrl : Ctrl → ℕ → ℕ → Ctrl
new_ctrl raw pdev number = record raw {
  pdev = some pdev;
  number = number;
  chrdev = false;
  use_sreg = pos 0;
  ioq_num = 0;
  ioq_map_num = 0;
  cq_num = 0;
  setup = no_setup;
  user_qid_bitmap = none;
  user_qid_first = 0;
  user_qid_last = 0;
}

abbrev pub with_ctrls : Module → List Ctrl → Module
with_ctrls m cs = record m { world = record m.world { ctrl_list = cs } }

unfoldable pub ctrl_get : Module → Ctrl → ℕ → ℕ → Module
ctrl_get m raw pdev number = with_ctrls m (m.world.ctrl_list ++ (new_ctrl raw pdev number ∷ []))

-- `list_remove` of the controller at an address.
unfoldable pub remove_ctrl : ℕ → List Ctrl → List Ctrl
remove_ctrl cdev [] = []
remove_ctrl cdev (c ∷ cs) = if c.cdev == cdev then cs else c ∷ remove_ctrl cdev cs

-- The return value, and the live `cdev`s and device nodes.
unfoldable pub chrdev_add : ControlEnv → Module → ℕ → Rc × Module
chrdev_add env m number = elim env.cdev_add [
  | err e ↦ (err e, m)
  | ok ↦
      let added = record m { cdevs = m.cdevs ++ (number ∷ []) } in
      elim env.device_create [
        | err e ↦ (err e, record added { cdevs = erase number added.cdevs })
        | ok ↦ (ok, record added { nodes = added.nodes ++ (number ∷ []) })
      ]
]

abbrev pub mark_chrdev : Module → ℕ → Module
mark_chrdev m cdev = record m { world = update_ctrl m.world cdev (λ c. record c { chrdev = true }) }

unfoldable pub ctrl_chrdev_create : ControlEnv → Module → Ctrl → Rc × Module
ctrl_chrdev_create env m c =
    let added = chrdev_add env m c.number in
    if c.chrdev
    then (ok, m)
    else elim added.0 [ err e ↦ (err e, added.1) | ok ↦ (ok, mark_chrdev added.1 c.cdev) ]

unfoldable pub ctrl_chrdev_remove : Module → Ctrl → Module
ctrl_chrdev_remove m c =
    if c.chrdev
    then record m { nodes = erase c.number m.nodes; cdevs = erase c.number m.cdevs }
    else m

unfoldable pub ctrl_put : Module → Ctrl → Module
ctrl_put m c = ctrl_chrdev_remove (with_ctrls m (remove_ctrl c.cdev m.world.ctrl_list)) c

abbrev pub free_minor : Module → ℕ → Module
free_minor m number = record m { minors = erase number m.minors }

-- The part after `ida_simple_get` and `kmalloc`.
unfoldable pub chrdev_create_in : ControlEnv → Module → ℕ → ℕ → Ctrl → Rc × Module
chrdev_create_in env m pdev minor raw =
    let c = new_ctrl raw pdev minor in
    let made = ctrl_chrdev_create env (ctrl_get m raw pdev minor) c in
    elim made.0 [ ok ↦ (ok, made.1) | err e ↦ (err e, free_minor (ctrl_put made.1 c) minor) ]

-- The part after `ida_simple_get`.
unfoldable pub chrdev_create_with : ControlEnv → Module → ℕ → ℕ → Rc × Module
chrdev_create_with env m pdev minor = elim env.kmalloc [
  | none ↦ (err enomem, m)
  | some raw ↦ chrdev_create_in env m pdev minor raw
]

unfoldable pub snvm_chrdev_create : ControlEnv → Module → ℕ → ℕ → Rc × Module
snvm_chrdev_create env m pdev class =
    if (m.world.pci pdev).class == class
    then elim env.ida_simple_get [
      | inl e ↦ (err e, m)
      | inr minor ↦
          chrdev_create_with env (record m { minors = m.minors ++ (minor ∷ []) }) pdev minor
    ]
    else (err (other 1), m)

abbrev pub get_ref : Module → ℕ → Module
get_ref m pdev = record m { refs = update m.refs pdev (m.refs pdev + 1) }

-- `pci_dev_put`
abbrev pub put_ref : Module → ℕ → Module
put_ref m pdev = record m { refs = update m.refs pdev (m.refs pdev - 1) }

abbrev pub with_pci : Module → (ℕ → PciDev) → Module
with_pci m pci = record m { world = record m.world { pci = pci } }
