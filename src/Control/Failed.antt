-- ===== src/Control/Failed.antt =====
-- A CHRDEV_CREATE that fails.
use geminifs_npu_smoke.Prelude.{
  ℕ, ◌≡◌, ◌≢◌, ◌==◌, refl, arith, true, Bool-cases, ap, sym, ◌∙◌, ◌⊎◌, inl, inr, Option, none, some,
  [], ◌∷◌, ◌++◌, Option-cases,
}
use geminifs_npu_smoke.State.{Errno, ok, err, ok_err, Rc-cases, efault, Ctrl}
use geminifs_npu_smoke.Control.{Module, DriverCore, ControlEnv, get_ref, put_ref}
use geminifs_npu_smoke.Control.Request.{
  Answer, chrdev_create, reply, snvm_ioctl, create_chrdev, chrdev_helper_at, snvm_chrdev_helper,
  snvm_chrdev_helper-found,
}
use geminifs_npu_smoke.Control.Fresh.{IsFresh, Succeeds, held-Fresh, put_ref-get_ref}
use geminifs_npu_smoke.Control.RoundTrip.{created}
use geminifs_npu_smoke.Control.Succeeded.{helper-Made}
use geminifs_npu_smoke.Control.Outcome.{LeaksMinor, create_chrdev-Outcome}

reply-state : (env : ControlEnv) (a : Answer) → (reply env a).state ≡ a.state
reply-state env a = elim (Rc-cases a.rc) [
  | inr (e, bad) ↦ rw bad refl
  | inl good ↦ elim (Bool-cases (env.copy_to_user == 0)) [
    | inl copied ↦ rw (good, copied) refl
    | inr short ↦ rw (good, short) refl
  ]
]

reply_short :
    (env : ControlEnv) (a : Answer) {e : Errno}
    → a.rc ≡ ok
    → (reply env a).rc ≡ err e
    → env.copy_to_user ≢ 0
reply_short env a {e} good failed copied =
    let test : (env.copy_to_user == 0) ≡ true = ground (arith, copied) in
    let fine : (reply env a).rc ≡ ok = rw (good, test) refl in ok_err {e = e} (sym fine ∙ failed)

module _ (env : ControlEnv) (m : Module) where
  helper_missing : env.pdev ≡ none → (snvm_chrdev_helper env m true).state ≡ m
  unfolding snvm_chrdev_helper
  helper_missing missing =
      ap
        (λ (o : Option ℕ).
          (elim o as (λ _. Answer) [
            | none ↦ record { rc = err efault; domain = none; state = m }
            | some p ↦ chrdev_helper_at env m true p
          ]).state)
        missing

  put_minors :
      (pdev minor : ℕ)
      → put_ref (record (get_ref m pdev) { minors = m.minors ++ (minor ∷ []) }) pdev
        ≡ record m { minors = m.minors ++ (minor ∷ []) }
  put_minors pdev minor =
      ap (λ (x : Module). record x { minors = x.minors ++ (minor ∷ []) }) (put_ref-get_ref m pdev)

  -- `snvm_chrdev_helper` fails.
  helper-Undone :
      ((pdev : ℕ) (raw : Ctrl) (minor : ℕ)
        → env.pdev ≡ some pdev
        → env.kmalloc ≡ some raw
        → env.ida_simple_get ≡ inr minor
        → IsFresh m pdev raw minor)
      → {e : Errno} → (snvm_chrdev_helper env m true).rc ≡ err e
      → ((snvm_chrdev_helper env m true).state ≡ m)
        ⊎ LeaksMinor env m (snvm_chrdev_helper env m true).state
  unfolding LeaksMinor chrdev_helper_at
  helper-Undone free {e} failed = elim (Option-cases env.pdev) [
    | inl missing ↦ inl (helper_missing missing)
    | inr (pdev, found) ↦
        let same = snvm_chrdev_helper-found env m true pdev found in
        let fresh =
          λ (raw : Ctrl) (minor : ℕ) (memory : env.kmalloc ≡ some raw)
              (given : env.ida_simple_get ≡ inr minor).
            held-Fresh m pdev raw minor (free pdev raw minor found memory given) in
        let failed' : (create_chrdev env (get_ref m pdev) pdev).rc ≡ err e =
          ap (λ (a : Answer). a.rc) (sym same) ∙ failed in
        let state = ap (λ (a : Answer). a.state) same in
        elim (create_chrdev-Outcome env (get_ref m pdev) pdev fresh failed') [
          | inl kept ↦
              inl (state ∙ ap (λ (x : Module). put_ref x pdev) kept ∙ put_ref-get_ref m pdev)
          | inr (minor, given, none_left, leaks) ↦ inr (
            minor,
            given,
            none_left,
            state ∙ ap (λ (x : Module). put_ref x pdev) leaks ∙ put_minors pdev minor,
          )
        ]
  ]

  -- The new controller stays although the reply could not be copied.
  pub StaysCreated : Module → Type 0
  StaysCreated m' =
      (pdev : ℕ) × (raw : Ctrl) × (minor : ℕ) × Succeeds env m pdev raw minor
      × (env.copy_to_user ≢ 0)
      × (m' ≡ created m raw pdev minor)

  module _ (core : DriverCore) where
    -- CHRDEV_CREATE on the control device that does not return 0, where `kmalloc` and the IDA give
    -- an address and a minor not in use for a device without a controller, leaves the whole module as
    -- it was, but for two cases: when `kmalloc` fails the minor that the IDA gave stays taken, and
    -- when the reply cannot be copied to the user a new controller stays, with its minor, its
    -- character device and its node.
    pub failed_create-Undone :
        ((pdev : ℕ) (raw : Ctrl) (minor : ℕ)
          → env.pdev ≡ some pdev
          → env.kmalloc ≡ some raw
          → env.ida_simple_get ≡ inr minor
          → IsFresh m pdev raw minor)
        → {e : Errno} → (snvm_ioctl core env m chrdev_create).rc ≡ err e
        → let m' = (snvm_ioctl core env m chrdev_create).state in
          (m' ≡ m) ⊎ LeaksMinor env m m' ⊎ StaysCreated m'
    unfolding snvm_ioctl StaysCreated LeaksMinor
    failed_create-Undone free {e} failed = elim (Bool-cases env.copy_from_user) [
      | inr fault ↦ inl (rw (fault, snvm_ioctl) refl)
      | inl read ↦
          let helper = snvm_chrdev_helper env m true in
          let is_reply : snvm_ioctl core env m chrdev_create ≡ reply env helper =
            rw (read, snvm_ioctl) refl in
          elim (Rc-cases helper.rc) [
            | inr (e', bad) ↦
                let state : (snvm_ioctl core env m chrdev_create).state ≡ helper.state =
                  ap (λ (a : Answer). a.state) is_reply ∙ reply-state env helper in
                elim (helper-Undone free bad) [
                  | inl same ↦ inl (state ∙ same)
                  | inr (minor, given, none_left, leaks) ↦
                      inr (inl (minor, given, none_left, state ∙ leaks))
                ]
            | inl good ↦
                let state : (snvm_ioctl core env m chrdev_create).state ≡ helper.state =
                  ap (λ (a : Answer). a.state) is_reply ∙ reply-state env helper in
                elim (helper-Made env m free good) [
                  | inl same ↦ inl (state ∙ same)
                  | inr (pdev, raw, minor, s, made) ↦
                      let short =
                        reply_short env helper good
                          (sym (ap (λ (a : Answer). a.rc) is_reply) ∙ failed) in
                      inr (inr (pdev, raw, minor, s, short, state ∙ made))
                ]
          ]
    ]
