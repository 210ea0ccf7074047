-- ===== src/Ctrls.antt =====
-- ctrl.c: the lookups in the list of controllers, and pci.c: `snvm_ctrl_get_live_ndev`. The code holds
-- a pointer to a controller; here it is named by its `cdev`, and writes go to the first that has it.
use geminifs_npu_smoke.Prelude.{
  ℕ, ◌≡◌, refl, false, Option, none, some, List, [], ◌∷◌, arith, ◌==◌, if◌then◌else◌,
}
use geminifs_npu_smoke.State.{Ctrl, NvmeDev, PciDev, snvme, World}

unfoldable pub find_ctrl : ℕ → List Ctrl → Option Ctrl
find_ctrl cdev [] = none
find_ctrl cdev (c ∷ cs) = if c.cdev == cdev then some c else find_ctrl cdev cs

unfoldable pub update_first : ℕ → (Ctrl → Ctrl) → List Ctrl → List Ctrl
update_first cdev f [] = []
update_first cdev f (c ∷ cs) = if c.cdev == cdev then f c ∷ cs else c ∷ update_first cdev f cs

unfoldable pub ctrl_find_by_inode : World → ℕ → Option Ctrl
unfolding find_ctrl
ctrl_find_by_inode w cdev = find_ctrl cdev w.ctrl_list

unfoldable pub find_by_pdev : ℕ → List Ctrl → Option Ctrl
find_by_pdev pdev [] = none
find_by_pdev pdev (c ∷ cs) =
    if elim c.pdev [ none ↦ false | some p ↦ p == pdev ] then some c else find_by_pdev pdev cs

unfoldable pub ctrl_find_by_pci_dev : World → ℕ → Option Ctrl
unfolding find_by_pdev
ctrl_find_by_pci_dev w pdev = find_by_pdev pdev w.ctrl_list

unfoldable pub update_ctrl : World → ℕ → (Ctrl → Ctrl) → World
unfolding update_first
update_ctrl w cdev f = record w { ctrl_list = update_first cdev f w.ctrl_list }

-- The driver must be named "snvme", and its device must have an admin queue.
abbrev pub live_dev : PciDev → Option NvmeDev
live_dev d = elim d.driver [
  | snvme ↦ elim d.drvdata [ none ↦ none | some dev ↦ if dev.admin_q then some dev else none ]
  | _ ↦ none
]

unfoldable pub snvm_ctrl_get_live_ndev : World → Option Ctrl → Option NvmeDev
snvm_ctrl_get_live_ndev w none = none
snvm_ctrl_get_live_ndev w (some c) = elim c.pdev [ none ↦ none | some p ↦ live_dev (w.pci p) ]

-- A write is read back, by whoever keeps the controller's identity.
pub find-update_ctrl :
    (w : World) (cdev : ℕ) (f : Ctrl → Ctrl) (c : Ctrl)
    → ctrl_find_by_inode w cdev ≡ some c
    → (f c).cdev ≡ c.cdev
    → ctrl_find_by_inode (update_ctrl w cdev f) cdev ≡ some (f c)
unfolding ctrl_find_by_inode update_ctrl
find-update_ctrl w cdev f c found same = go w.ctrl_list found
  where
    go :
        (cs : List Ctrl)
        → find_ctrl cdev cs ≡ some c
        → find_ctrl cdev (update_first cdev f cs) ≡ some (f c)
    go [] h = cc
    go (x ∷ cs) h = ground (arith, go cs)

pub update_ctrl-missing :
    (w : World) (cdev : ℕ) (f : Ctrl → Ctrl)
    → ctrl_find_by_inode w cdev ≡ none
    → ctrl_find_by_inode (update_ctrl w cdev f) cdev ≡ none
unfolding ctrl_find_by_inode update_ctrl
update_ctrl-missing w cdev f missing = go w.ctrl_list missing
  where
    go :
        (cs : List Ctrl) → find_ctrl cdev cs ≡ none → find_ctrl cdev (update_first cdev f cs) ≡ none
    go [] h = refl
    go (x ∷ cs) h = ground (arith, go cs)
