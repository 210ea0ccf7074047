-- ===== src/Control/Unload/Exit.antt =====
-- What `nvme_exit` leaves of the module.
use geminifs_npu_smoke.Prelude.{
  ℕ, suc, ◌+◌, ◌≡◌, refl, ap, sym, ◌∙◌, subst, inl, inr, Bool, true, false, ◌&&◌, none, List, [],
  ◌∷◌, map, arith, if◌then◌else◌, length, erase, ==_refl, Bool-cases,
}
use geminifs_npu_smoke.State.{Ctrl, PciDev, World}
use geminifs_npu_smoke.Control.{Module, DriverCore, remove_ctrl, ctrl_put, ctrl_chrdev_remove}
use geminifs_npu_smoke.Control.Unload.{
  clear_ctrls, clear_ctrl_list, clear_all_maps, with_world, clean_driver, exit_module,
}
use geminifs_npu_smoke.Control.Unload.Maps.{
  NoMaps, clear_all_maps-NoMaps, clear_all_maps-keeps, clear_all_maps-frees, on_list, gone_kept,
  ctrls_kept,
}

unfoldable pub all_made : List Ctrl → Bool
all_made [] = true
all_made (c ∷ cs) = c.chrdev && all_made cs

abbrev pub numbers : List Ctrl → List ℕ
numbers cs = map (λ (c : Ctrl). c.number) cs

-- Each listed controller has its character device, and there are no others.
pub record IsLive (m : Module) : Type 0 where
  pub made : all_made m.world.ctrl_list ≡ true
  pub cdevs : m.cdevs ≡ numbers m.world.ctrl_list
  pub nodes : m.nodes ≡ numbers m.world.ctrl_list

-- Nothing is left but the world, with no controllers.
record Cleared (m m' : Module) : Type 0 where
  world : m'.world ≡ record m.world { ctrl_list = [] }
  cdevs : m'.cdevs ≡ []
  nodes : m'.nodes ≡ []

put_eq :
    (m : Module) (c : Ctrl)
    → c.chrdev ≡ true
    → ctrl_put m c ≡ record m {
      world = record m.world { ctrl_list = remove_ctrl c.cdev m.world.ctrl_list };
      nodes = erase c.number m.nodes;
      cdevs = erase c.number m.cdevs;
    }
unfolding ctrl_put ctrl_chrdev_remove
put_eq m c made = rw made refl

remove_ctrl-head : (c : Ctrl) (cs : List Ctrl) → remove_ctrl c.cdev (c ∷ cs) ≡ cs
unfolding remove_ctrl
remove_ctrl-head c cs = rw (==_refl c.cdev) refl

erase-head : (n : ℕ) (ns : List ℕ) → erase n (n ∷ ns) ≡ ns
erase-head n ns = rw (==_refl n) refl

clear_ctrls_step :
    (fuel : ℕ) (m : Module) (n : ℕ) (c : Ctrl) (cs : List Ctrl)
    → m.world.ctrl_list ≡ c ∷ cs
    → clear_ctrls (suc fuel) m n ≡ clear_ctrls fuel (ctrl_put m c) (suc n)
unfolding clear_ctrls
clear_ctrls_step fuel m n c cs here =
    ap
      (λ (xs : List Ctrl). elim xs as (λ _. Module × ℕ) [
        | [] ↦ (m, n)
        | x ∷ xs ↦ clear_ctrls fuel (ctrl_put m x) (suc n)
      ])
      here

clear_ctrls-Cleared :
    (cs : List Ctrl) (m : Module) (n : ℕ)
    → m.world.ctrl_list ≡ cs
    → all_made cs ≡ true
    → m.cdevs ≡ numbers cs
    → m.nodes ≡ numbers cs
    → Cleared m (clear_ctrls (length cs) m n).0 × ((clear_ctrls (length cs) m n).1 ≡ n + length cs)
unfolding clear_ctrls all_made
clear_ctrls-Cleared [] m n here made cdevs nodes = (
  record {
    world = ap (λ (cs : List Ctrl). record m.world { ctrl_list = cs }) here;
    cdevs = cdevs;
    nodes = nodes;
  },
  omega arith,
)
clear_ctrls-Cleared (c ∷ cs) m n here made cdevs nodes =
    let has : c.chrdev ≡ true = ground arith in
    let put = put_eq m c has in
    let here' =
      ap (λ (x : Module). x.world.ctrl_list) put
      ∙ ap (remove_ctrl c.cdev) here
      ∙ remove_ctrl-head c cs in
    let cdevs' =
      ap (λ (x : Module). x.cdevs) put
      ∙ ap (erase c.number) cdevs
      ∙ erase-head c.number (numbers cs) in
    let nodes' =
      ap (λ (x : Module). x.nodes) put
      ∙ ap (erase c.number) nodes
      ∙ erase-head c.number (numbers cs) in
    let rest = clear_ctrls-Cleared cs (ctrl_put m c) (suc n) here' (ground arith) cdevs' nodes' in
    let world' = ap (λ (x : Module). record x.world { ctrl_list = [] }) put in
    subst (λ (r : Module × ℕ). Cleared m r.0 × (r.1 ≡ n + suc (length cs)))
      (sym (clear_ctrls_step (length cs) m n c cs here))
      (
        record { world = rest.0.world ∙ world'; cdevs = rest.0.cdevs; nodes = rest.0.nodes },
        omega (arith, rest.1),
      )

-- What is left once the module is unloaded: `q` is a pointer to a map.
pub record Unloaded (m : Module) (q : ℕ) (r : Module × ℕ) : Type 0 where
  pub no_maps : NoMaps r.0.world
  pub no_ctrls : r.0.world.ctrl_list ≡ []
  pub no_cdevs : r.0.cdevs ≡ []
  pub no_nodes : r.0.nodes ≡ []
  pub no_minors : r.0.minors ≡ []
  pub counted : r.1 ≡ length m.world.ctrl_list
  pub freed : (if on_list m.world q then r.0.world.heap q else none) ≡ none

module _ (core : DriverCore) (m : Module) where
  -- The maps are cleared twice.
  twice : World
  twice = clear_all_maps (clear_all_maps m.world)

  abbrev cleaned : (ℕ → PciDev) → Bool → Module
  cleaned pci on_bus = record m { world = record twice { pci = pci }; on_bus = on_bus }

  clean_driver_eq :
      (pci : ℕ → PciDev) × (on_bus : Bool) × (clean_driver core
          (with_world m (clear_all_maps m.world))
        ≡ cleaned pci on_bus)
  unfolding clean_driver twice
  clean_driver_eq = elim (Bool-cases m.on_bus) [
    | inl there ↦ (core.pci_unregister_driver twice.pci, false, rw there refl)
    | inr gone ↦ (twice.pci, false, rw gone refl)
  ]

  twice-ctrls : twice.ctrl_list ≡ m.world.ctrl_list
  unfolding twice
  twice-ctrls =
      let keeps = λ (w : World).
        clear_all_maps-keeps (λ x. x.ctrl_list ≡ m.world.ctrl_list) (ctrls_kept m.world.ctrl_list)
          w in
      keeps (clear_all_maps m.world) (keeps m.world refl)

  twice-frees : (q : ℕ) → on_list m.world q ≡ true → twice.heap q ≡ none
  unfolding twice
  twice-frees q on =
      clear_all_maps-keeps (λ x. x.heap q ≡ none) (gone_kept q) (clear_all_maps m.world)
        (clear_all_maps-frees m.world q on)

  twice-NoMaps : NoMaps twice
  unfolding twice
  twice-NoMaps = clear_all_maps-NoMaps (clear_all_maps m.world)

  -- If the character devices are those of the listed controllers, then `nvme_exit` ends with the
  -- three lists of maps, the list of controllers, the character devices and the minors empty, has
  -- counted the controllers that were listed, and has freed every map that was on a list.
  pub exit_module-Unloaded : (q : ℕ) → IsLive m → Unloaded m q (exit_module core m)
  unfolding exit_module clear_ctrl_list
  exit_module-Unloaded q live =
      let (pci, on_bus, same) = clean_driver_eq in
      let (cleared, count) =
        clear_ctrls-Cleared twice.ctrl_list (cleaned pci on_bus) 0 refl
          (subst (λ (cs : List Ctrl). all_made cs ≡ true) (sym twice-ctrls) live.made)
          (live.cdevs ∙ ap numbers (sym twice-ctrls)) (live.nodes ∙ ap numbers (sym twice-ctrls)) in
      subst
        (λ (x : Module).
          let r = clear_ctrls (length x.world.ctrl_list) x 0 in
          Unloaded m q (record (r.0) { minors = [] }, r.1))
        (sym same)
        record {
          no_maps = record {
            host = ap (λ (w : World). w.host_list) cleared.world ∙ twice-NoMaps.host;
            device = ap (λ (w : World). w.device_list) cleared.world ∙ twice-NoMaps.device;
            device_queue =
                ap (λ (w : World). w.device_queue_list) cleared.world ∙ twice-NoMaps.device_queue;
          };
          no_ctrls = ap (λ (w : World). w.ctrl_list) cleared.world;
          no_cdevs = cleared.cdevs;
          no_nodes = cleared.nodes;
          no_minors = refl;
          counted = omega (arith, count, ap length twice-ctrls);
          freed = elim (Bool-cases (on_list m.world q)) [
            | inr off ↦ rw off refl
            | inl on ↦ rw on (ap (λ (w : World). w.heap q) cleared.world ∙ twice-frees q on)
          ];
        }
