-- ===== src/Control/Fresh.antt =====
-- A new controller at the end of the list, at an address and with a minor that nothing else has.
use geminifs_npu_smoke.Prelude.{
  ℕ, ◌≡◌, refl, ap, fun_ext, inr, true, false, none, some, List, [], ◌∷◌, ◌++◌, arith, ◌==◌, mem,
  ==_refl,
}
use geminifs_npu_smoke.State.{ok, Ctrl}
use geminifs_npu_smoke.Ctrls.{find_ctrl, update_first, find_by_pdev, ctrl_find_by_pci_dev}
use geminifs_npu_smoke.Control.{
  Module, ControlEnv, class_storage_express, remove_ctrl, get_ref, put_ref,
}

pub update_first-append :
    (cdev : ℕ) (f : Ctrl → Ctrl) (cs : List Ctrl) (c : Ctrl)
    → find_ctrl cdev cs ≡ none
    → c.cdev ≡ cdev
    → update_first cdev f (cs ++ (c ∷ [])) ≡ cs ++ (f c ∷ [])
unfolding find_ctrl update_first
update_first-append cdev f [] c h same = ground (arith, same)
update_first-append cdev f (x ∷ cs) c h same = ground (arith, update_first-append cdev f cs c, same)

pub remove_ctrl-append :
    (cdev : ℕ) (cs : List Ctrl) (c : Ctrl)
    → find_ctrl cdev cs ≡ none
    → c.cdev ≡ cdev
    → remove_ctrl cdev (cs ++ (c ∷ [])) ≡ cs
unfolding find_ctrl remove_ctrl
remove_ctrl-append cdev [] c h same = ground (arith, same)
remove_ctrl-append cdev (x ∷ cs) c h same = ground (arith, remove_ctrl-append cdev cs c, same)

pub find_by_pdev-append :
    (pdev : ℕ) (cs : List Ctrl) (c : Ctrl)
    → find_by_pdev pdev cs ≡ none
    → c.pdev ≡ some pdev
    → find_by_pdev pdev (cs ++ (c ∷ [])) ≡ some c
unfolding find_by_pdev
find_by_pdev-append pdev [] c h same = rw (same, ==_refl pdev) refl
find_by_pdev-append pdev (x ∷ cs) c h same = ground (arith, find_by_pdev-append pdev cs c)

-- A reference that is taken and put leaves the module as it was.
pub put_ref-get_ref : (m : Module) (pdev : ℕ) → put_ref (get_ref m pdev) pdev ≡ m
put_ref-get_ref m pdev =
    ap (λ (refs : ℕ → ℕ). record m { refs = refs }) (fun_ext (λ p. ground arith))

-- What a CHRDEV_CREATE relies on: the device has no controller yet, and `kmalloc` and the IDA give
-- an address and a minor that are not in use.
pub record IsFresh (m : Module) (pdev : ℕ) (raw : Ctrl) (minor : ℕ) : Type 0 where
  pub no_ctrl : ctrl_find_by_pci_dev m.world pdev ≡ none
  pub new_address : find_ctrl raw.cdev m.world.ctrl_list ≡ none
  pub new_minor : mem minor m.minors ≡ false
  pub new_cdev : mem minor m.cdevs ≡ false
  pub new_node : mem minor m.nodes ≡ false

-- That every call of a CHRDEV_CREATE succeeds.
pub record Succeeds (env : ControlEnv) (m : Module) (pdev : ℕ) (raw : Ctrl) (minor : ℕ)
    : Type 0 where
  pub found : env.pdev ≡ some pdev
  pub is_nvme : ((m.world.pci pdev).class == class_storage_express) ≡ true
  pub minor_given : env.ida_simple_get ≡ inr minor
  pub memory : env.kmalloc ≡ some raw
  pub cdev_added : env.cdev_add ≡ ok
  pub node_made : env.device_create ≡ ok

pub held-Fresh :
    (m : Module) (pdev : ℕ) (raw : Ctrl) (minor : ℕ)
    → IsFresh m pdev raw minor
    → IsFresh (get_ref m pdev) pdev raw minor
held-Fresh m pdev raw minor fresh = record {
  no_ctrl = fresh.no_ctrl;
  new_address = fresh.new_address;
  new_minor = fresh.new_minor;
  new_cdev = fresh.new_cdev;
  new_node = fresh.new_node;
}
