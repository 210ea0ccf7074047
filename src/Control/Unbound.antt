-- ===== src/Control/Unbound.antt =====
-- SNVM_DEVICE_UNBIND on every driver that the device may have.
use geminifs_npu_smoke.Prelude.{ℕ, ◌≡◌, ◌≢◌, refl, ap, sym, ◌∙◌, subst, Option, none, some}
use geminifs_npu_smoke.State.{efault, Rc, ok, err, Driver, no_driver, unnamed, snvme, foreign}
use geminifs_npu_smoke.Control.{Module, DriverCore, ControlEnv, get_ref, put_ref}
use geminifs_npu_smoke.Control.Fresh.{put_ref-get_ref}
use geminifs_npu_smoke.Control.Binding.{release, snvm_unbind_driver}
use geminifs_npu_smoke.Control.Bound.{BindsDrivers}

-- How an unbind of a device that was found ends.
pub data Unbound (m : Module) (p : ℕ) (r : Rc × Module) : Type 0 where
  released :
      (m.world.pci p).driver ≡ snvme
      → r.0 ≡ ok
      → (r.1.world.pci p).driver ≡ no_driver
      → r.1.refs ≡ m.refs
      → Unbound m p r
  refused : (m.world.pci p).driver ≢ snvme → r ≡ (err efault, get_ref m p) → Unbound m p r

module _ (core : DriverCore) (laws : BindsDrivers core) (env : ControlEnv) (m : Module)
    (p : ℕ) where
  unbind_at : Driver → Rc × Module
  unbind_at d = elim d [
    | snvme ↦ (ok, put_ref (release core (get_ref m p) p) p)
    | _ ↦ (err efault, get_ref m p)
  ]

  unbind_eq : env.pdev ≡ some p → snvm_unbind_driver core env m ≡ unbind_at (m.world.pci p).driver
  unfolding snvm_unbind_driver unbind_at
  unbind_eq found =
      ap
        (λ (o : Option ℕ). elim o as (λ _. Rc × Module) [
          | none ↦ (err efault, m)
          | some q ↦ elim (m.world.pci q).driver [
            | snvme ↦ (ok, put_ref (release core (get_ref m q) q) q)
            | _ ↦ (err efault, get_ref m q)
          ]
        ])
        found

  -- The device once it was taken from its driver.
  free_after : ((release core (get_ref m p) p).world.pci p).driver ≡ no_driver
  unfolding release
  free_after = laws.releases _ p

  refs_after : (put_ref (release core (get_ref m p) p) p).refs ≡ m.refs
  unfolding release
  refs_after = ap (λ (x : Module). x.refs) (put_ref-get_ref m p)

  unbind_at-Unbound : (d : Driver) → (m.world.pci p).driver ≡ d → Unbound m p (unbind_at d)
  unfolding unbind_at
  unbind_at-Unbound snvme here = released here refl free_after refs_after
  unbind_at-Unbound no_driver here = refused (λ h. cc (sym here ∙ h)) refl
  unbind_at-Unbound unnamed here = refused (λ h. cc (sym here ∙ h)) refl
  unbind_at-Unbound foreign here = refused (λ h. cc (sym here ∙ h)) refl

  -- If the driver core binds drivers as documented and the device was found, SNVM_DEVICE_UNBIND
  -- either finds it bound to snvme, succeeds, leaves it without a driver and keeps no reference,
  -- or finds it otherwise, reports EFAULT and changes nothing but that it keeps one more reference
  -- on the device.
  pub unbind-Unbound : env.pdev ≡ some p → Unbound m p (snvm_unbind_driver core env m)
  unbind-Unbound found =
      subst (λ (r : Rc × Module). Unbound m p r) (sym (unbind_eq found))
        (unbind_at-Unbound (m.world.pci p).driver refl)
