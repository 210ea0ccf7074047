-- ===== src/Control/Device.antt =====
-- pci.c: the control device /dev/snvm_control. `snvm_cdev_init`, with the order in which its labels
-- take back what was made, `snvm_cdev_release`, and the part of `nvme_init` after the lists.
use geminifs_npu_smoke.Prelude.{◌≡◌, refl, Bool, true, false}
use geminifs_npu_smoke.State.{Errno, Rc, ok, err}

-- What the module holds of the kernel for the control device.
pub record Held : Type 0 where
  pub dev_class : Bool
  pub region : Bool
  pub snvm_cdev : Bool
  pub snvm_node : Bool

-- The answers of `class_create`, `alloc_chrdev_region`, `cdev_add` and `device_create`.
pub record Answers : Type 0 where
  pub class_create : Rc
  pub alloc_chrdev_region : Rc
  pub cdev_add : Rc
  pub device_create : Rc

-- The labels, each going on to the next.
unfoldable pub destroy_subsys_class : Held → Held
destroy_subsys_class h = record h { dev_class = false }

unfoldable pub err_unregister_chrdev : Held → Held
err_unregister_chrdev h = destroy_subsys_class (record h { region = false })

unfoldable pub destroy_cdev : Held → Held
destroy_cdev h = err_unregister_chrdev (record h { snvm_cdev = false })

unfoldable pub snvm_cdev_init : Answers → Held → Rc × Held
snvm_cdev_init a h = elim a.class_create [
  | err e ↦ (err e, h)
  | ok ↦
      let h1 = record h { dev_class = true } in
      elim a.alloc_chrdev_region [
        | err e ↦ (err e, destroy_subsys_class h1)
        | ok ↦
            let h2 = record h1 { region = true } in
            elim a.cdev_add [
              | err e ↦ (err e, err_unregister_chrdev h2)
              | ok ↦
                  let h3 = record h2 { snvm_cdev = true } in
                  elim a.device_create [
                    | err e ↦ (err e, destroy_cdev h3)
                    | ok ↦ (ok, record h3 { snvm_node = true })
                  ]
            ]
      ]
]

unfoldable pub snvm_cdev_release : Held → Held
snvm_cdev_release h =
    destroy_subsys_class (record h { snvm_node = false; snvm_cdev = false; region = false })

abbrev pub nothing : Held
nothing = record { dev_class = false; region = false; snvm_cdev = false; snvm_node = false }

abbrev pub everything : Held
everything = record { dev_class = true; region = true; snvm_cdev = true; snvm_node = true }

-- The ways in which `snvm_cdev_init` ends.
pub data Ended (r : Rc × Held) : Type 0 where
  made : r ≡ (ok, everything) → snvm_cdev_release r.1 ≡ nothing → Ended r
  undone : (e : Errno) → r ≡ (err e, nothing) → Ended r

-- From nothing, `snvm_cdev_init` either succeeds and holds its class, region, cdev and node, all of
-- which `snvm_cdev_release` then gives back, or fails and holds none of them, whichever call failed.
pub snvm_cdev_init-Ended : (a : Answers) → Ended (snvm_cdev_init a nothing)
unfolding snvm_cdev_init snvm_cdev_release destroy_cdev err_unregister_chrdev destroy_subsys_class
snvm_cdev_init-Ended a = go a.class_create a.alloc_chrdev_region a.cdev_add a.device_create
  where
    go :
        (class region cdev node : Rc)
        → Ended (
            snvm_cdev_init
              record {
                class_create = class;
                alloc_chrdev_region = region;
                cdev_add = cdev;
                device_create = node;
              }
              nothing)
    go (err e) region cdev node = undone e refl
    go ok (err e) cdev node = undone e refl
    go ok ok (err e) node = undone e refl
    go ok ok ok (err e) = undone e refl
    go ok ok ok ok = made refl refl
