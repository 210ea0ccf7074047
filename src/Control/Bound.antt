-- ===== src/Control/Bound.antt =====
-- When SNVM_DEVICE_BIND succeeds: the device is bound to this driver.
use geminifs_npu_smoke.Prelude.{
  ℕ, ◌-◌, ◌≡◌, ◌≢◌, refl, ap, sym, ◌∙◌, subst, ◌⊎◌, inl, inr, Bool, true, false, ◌||◌, Option, none,
  some, if◌then◌else◌, update, ==_refl, Bool-cases,
}
use geminifs_npu_smoke.State.{
  Rc-cases, ok_err, Rc, ok, err, efault, enodev, enomem, failed, PciDev, Driver, no_driver, unnamed,
  snvme, foreign,
}
use geminifs_npu_smoke.Control.{
  Module, DriverCore, ControlEnv, Attached, bound, no_match, attach_failed, get_ref, put_ref,
  with_pci,
}
use geminifs_npu_smoke.Control.Fresh.{put_ref-get_ref}
use geminifs_npu_smoke.Control.Binding.{
  release, register_driver, pin, attach_result, attach_pinned, has_named_driver, rebind_free,
  snvm_rebind_driver,
}

-- The documented behaviour of the driver core, for a device and the driver it is bound to.
pub record BindsDrivers (core : DriverCore) : Type 0 where
  -- `device_release_driver` leaves the device without a driver.
  pub releases :
      (pci : ℕ → PciDev) (p : ℕ) → (core.device_release_driver pci p p).driver ≡ no_driver
  -- Registering a driver binds a device without one to that driver or to none.
  pub registers :
      (pci : ℕ → PciDev) (p : ℕ)
      → (pci p).driver ≡ no_driver
      → (((core.pci_register_driver pci).1 p).driver ≡ no_driver)
        ⊎ (((core.pci_register_driver pci).1 p).driver ≡ snvme)
  -- A device that `driver_override` pins is bound to no other driver.
  pub attaches_pinned :
      (pci : ℕ → PciDev) (p : ℕ)
      → (pci p).driver_override ≡ true
      → (core.device_attach pci p).0 ≡ bound
      → ((core.device_attach pci p).1 p).driver ≡ snvme

abbrev driver_at : Module → ℕ → Driver
driver_at m p = (m.world.pci p).driver

abbrev FreeOrOurs : Module → ℕ → Type 0
FreeOrOurs m p = (driver_at m p ≡ no_driver) ⊎ (driver_at m p ≡ snvme)

no_driver_of : (d : PciDev) → has_named_driver d ≡ false → d.driver ≢ unnamed → d.driver ≡ no_driver
unfolding has_named_driver
no_driver_of d has_not named = go d.driver has_not named
  where
    go :
        (x : Driver)
        → (elim x as (λ _. Bool) [
          | no_driver ↦ false
          | unnamed ↦ false
          | snvme ↦ true
          | foreign ↦ true
        ])
          ≡ false
        → x ≢ unnamed
        → x ≡ no_driver
    go no_driver h n = refl
    go unnamed h n = absurd (n refl)
    go snvme h n = cc h
    go foreign h n = cc h

module _ (core : DriverCore) (laws : BindsDrivers core) (env : ControlEnv) (p : ℕ) where
  register_driver-Free :
      (m : Module)
      → driver_at m p ≡ no_driver
      → FreeOrOurs (register_driver core m).1 p × ((register_driver core m).1.refs ≡ m.refs)
  unfolding register_driver
  register_driver-Free m free = elim (Bool-cases (m.on_bus || m.snvm_registered)) [
    | inl there ↦ rw there (inl free, refl)
    | inr new ↦ elim (Rc-cases (core.pci_register_driver m.world.pci).0) [
      | inl good ↦ rw (new, good) (laws.registers m.world.pci p free, refl)
      | inr (e, bad) ↦ rw (new, bad) (laws.registers m.world.pci p free, refl)
    ]
  ]

  pinned : (pci : ℕ → PciDev) → (pin pci p true p).driver_override ≡ true
  unfolding pin
  pinned pci = rw (==_refl p) refl

  attach_result-ok :
      (m : Module) (a : Attached × (ℕ → PciDev))
      → (attach_result m a).0 ≡ ok
      → (a.0 ≡ bound) × (attach_result m a ≡ (ok, with_pci m a.1))
  unfolding attach_result
  attach_result-ok m (attach_failed e, pci) h = absurd (ok_err (sym h))
  attach_result-ok m (no_match, pci) h = absurd (ok_err (sym h))
  attach_result-ok m (bound, pci) h = (refl, refl)

  attach_eq :
      (m : Module)
      → (attach_pinned core env m p).0 ≡ ok
      → attach_pinned core env m p ≡ attach_result m (core.device_attach (pin m.world.pci p true) p)
  unfolding attach_pinned
  attach_eq m good = elim (Bool-cases env.kstrdup) [
    | inl room ↦ rw room refl
    | inr none_left ↦ absurd (ok_err {e = enomem} (sym good ∙ (rw none_left refl)))
  ]

  attach-Bound :
      (m : Module)
      → (attach_pinned core env m p).0 ≡ ok
      → (driver_at (attach_pinned core env m p).1 p ≡ snvme)
        × ((attach_pinned core env m p).1.refs ≡ m.refs)
  attach-Bound m good =
      let pci = pin m.world.pci p true in
      let same = attach_eq m good in
      let (is_bound, result) =
        attach_result-ok m (core.device_attach pci p)
          (ap (λ (r : Rc × Module). r.0) (sym same) ∙ good) in
      subst (λ (r : Rc × Module). (driver_at r.1 p ≡ snvme) × (r.1.refs ≡ m.refs))
        (sym (same ∙ result)) (laws.attaches_pinned pci p (pinned m.world.pci) is_bound, refl)

  refs_back : (m x : Module) → x.refs ≡ (get_ref m p).refs → (put_ref x p).refs ≡ m.refs
  refs_back m x same =
      ap (λ (r : ℕ → ℕ). update r p (r p - 1)) same
      ∙ ap (λ (y : Module). y.refs) (put_ref-get_ref m p)

  rebind_bad :
      (x : Module)
      → failed (register_driver core x).0 ≡ true
      → (rebind_free core env x p).0 ≡ err efault
  unfolding rebind_free
  rebind_bad x bad = rw bad refl

  rebind_ours :
      (x : Module)
      → failed (register_driver core x).0 ≡ false
      → driver_at (register_driver core x).1 p ≡ snvme
      → rebind_free core env x p ≡ (ok, put_ref (register_driver core x).1 p)
  unfolding rebind_free
  rebind_ours x fine ours = rw (fine, ours) refl

  rebind_attach :
      (x : Module)
      → failed (register_driver core x).0 ≡ false
      → driver_at (register_driver core x).1 p ≡ no_driver
      → rebind_free core env x p ≡ (
        (attach_pinned core env (register_driver core x).1 p).0,
        put_ref (attach_pinned core env (register_driver core x).1 p).1 p,
      )
  unfolding rebind_free
  rebind_attach x fine free = rw (fine, free) refl

  rebind_free-Bound :
      (m x : Module)
      → driver_at x p ≡ no_driver
      → x.refs ≡ (get_ref m p).refs
      → (rebind_free core env x p).0 ≡ ok
      → (driver_at (rebind_free core env x p).1 p ≡ snvme)
        × ((rebind_free core env x p).1.refs ≡ m.refs)
  rebind_free-Bound m x free held good =
      let reg = register_driver core x in
      let (after, refs) = register_driver-Free x free in
      elim (Bool-cases (failed reg.0)) [
        | inl bad ↦ absurd (ok_err (sym good ∙ rebind_bad x bad))
        | inr fine ↦ elim after [
          | inr ours ↦
              subst (λ (r : Rc × Module). (driver_at r.1 p ≡ snvme) × (r.1.refs ≡ m.refs))
                (sym (rebind_ours x fine ours)) (ours, refs_back m reg.1 (refs ∙ held))
          | inl none_yet ↦
              let same = rebind_attach x fine none_yet in
              let (b, r) = attach-Bound reg.1 (ap (λ (r : Rc × Module). r.0) (sym same) ∙ good) in
              subst (λ (r : Rc × Module). (driver_at r.1 p ≡ snvme) × (r.1.refs ≡ m.refs))
                (sym same) (b, refs_back m (attach_pinned core env reg.1 p).1 (r ∙ refs ∙ held))
        ]
      ]

  start : Module → Module
  start m = if has_named_driver (m.world.pci p) then release core (get_ref m p) p else get_ref m p

  rebind_eq :
      (m : Module)
      → env.pdev ≡ some p
      → snvm_rebind_driver core env m ≡ rebind_free core env (start m) p
  unfolding snvm_rebind_driver start
  rebind_eq m found =
      ap
        (λ (o : Option ℕ). elim o as (λ _. Rc × Module) [
          | none ↦ (err enodev, m)
          | some q ↦
              let held = get_ref m q in
              rebind_free core env
                (if has_named_driver (m.world.pci q) then release core held q else held) q
        ])
        found

  start-Free :
      (m : Module)
      → driver_at m p ≢ unnamed
      → (driver_at (start m) p ≡ no_driver) × ((start m).refs ≡ (get_ref m p).refs)
  unfolding start release
  start-Free m named = elim (Bool-cases (has_named_driver (m.world.pci p))) [
    | inl has ↦ rw has (laws.releases _ p, refl)
    | inr has_not ↦ rw has_not (no_driver_of (m.world.pci p) has_not named, refl)
  ]

  -- If the driver core binds drivers as documented, the device was found and has not a driver
  -- without a name, and SNVM_DEVICE_BIND reports success, then the device is bound to snvme,
  -- whatever it was bound to before, and no reference on a device is kept.
  pub rebind-Bound :
      (m : Module)
      → env.pdev ≡ some p
      → driver_at m p ≢ unnamed
      → (snvm_rebind_driver core env m).0 ≡ ok
      → (driver_at (snvm_rebind_driver core env m).1 p ≡ snvme)
        × ((snvm_rebind_driver core env m).1.refs ≡ m.refs)
  rebind-Bound m found named good =
      let same = rebind_eq m found in
      let (free, held) = start-Free m named in
      subst (λ (r : Rc × Module). (driver_at r.1 p ≡ snvme) × (r.1.refs ≡ m.refs)) (sym same)
        (rebind_free-Bound m (start m) free held (ap (λ (r : Rc × Module). r.0) (sym same) ∙ good))
