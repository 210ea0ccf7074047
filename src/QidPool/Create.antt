-- ===== src/QidPool/Create.antt =====
-- `snvm_user_qid_pool_init_locked`: the pool that it makes.
use geminifs_npu_smoke.Prelude.{
  ℕ, ◌<◌, ◌≡◌, refl, sym, subst, ap, inl, inr, Bool, false, ◌||◌, Option, none, some, arith, ltb,
  ◌==◌, Bool-cases,
}
use geminifs_npu_smoke.State.{ok, Ctrl, NvmeDev}
use geminifs_npu_smoke.QidPool.{Bitmap, pool_create, pool_init, IsPool, in_use}

-- The pool of a controller: it begins behind the driver's own queues, ends at the last queue that the
-- device offers, and has no QID in use.
pub record IsNewPool (c : Ctrl) (dev : NvmeDev) : Type 0 where
  pub is_pool : IsPool c
  pub after_own : c.user_qid_first ≡ dev.online_queues
  pub nonzero : 0 < c.user_qid_first
  pub to_last : c.user_qid_last ≡ dev.ctrl_max_io_queues
  pub unused : (q : ℕ) → in_use c q ≡ false

module _ (c : Ctrl) (dev : NvmeDev) (room : Bool) (offered : dev.ctrl_max_io_queues < 65536) where
  pool_create-IsNewPool : (pool_create c dev room).0 ≡ ok → IsNewPool (pool_create c dev room).1 dev
  unfolding pool_create
  pool_create-IsNewPool =
      elim (Bool-cases (dev.online_queues == 0 || dev.nr_allocated_queues == 0)) [
        | inl bad ↦ rw (bad, pool_create) (λ h. cc)
        | inr up ↦ elim (Bool-cases (dev.ctrl_max_io_queues == 0)) [
          | inl bad ↦ rw (up, bad, pool_create) (λ h. cc)
          | inr asked ↦ elim (Bool-cases (ltb dev.ctrl_max_io_queues dev.online_queues)) [
            | inl bad ↦ rw (up, asked, bad, pool_create) (λ h. cc)
            | inr fits ↦ elim (Bool-cases room) [
              | inr bad ↦ rw (up, asked, fits, bad, pool_create) (λ h. cc)
              | inl given ↦
                  rw (up, asked, fits, given, pool_create)
                    (λ h. record {
                      is_pool = record { first_le_last = fits; last_lt = ground arith };
                      after_own = refl;
                      nonzero = ground arith;
                      to_last = refl;
                      unused = λ q. refl;
                    })
            ]
          ]
        ]
      ]

  -- If the device offers fewer than 65536 queues, a pool that is made where there was none lies within
  -- 16 bits, begins behind the driver's own queues, ends at the last queue that the device offers, and
  -- has no QID in use.
  pub pool_init-IsNewPool :
      c.user_qid_bitmap ≡ none
      → (pool_init c (some dev) room).0 ≡ ok
      → IsNewPool (pool_init c (some dev) room).1 dev
  unfolding pool_init
  pool_init-IsNewPool missing =
      subst (λ r. r.0 ≡ ok → IsNewPool r.1 dev) (sym (created missing)) pool_create-IsNewPool
    where
      created : c.user_qid_bitmap ≡ none → pool_init c (some dev) room ≡ pool_create c dev room
      created missing =
          ap (λ (b : Option Bitmap). elim b [ some bm ↦ (ok, c) | none ↦ pool_create c dev room ])
            missing
