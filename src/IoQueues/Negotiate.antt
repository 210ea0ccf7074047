-- ===== src/IoQueues/Negotiate.antt =====
-- How the grant of the controller is shared between the kernel and user space.
use geminifs_npu_smoke.Prelude.{
  ℕ, ◌+◌, ◌-◌, ◌^◌, ◌≤◌, ◌<◌, ◌≡◌, ◌⊎◌, refl, ap, sym, ◌∙◌, subst, inl, inr, true, false, arith,
  ltb, leb, ◌==◌, if◌then◌else◌, sub32, Bool-cases,
}
use geminifs_npu_smoke.State.{ok_err, Rc, ok, err}
use geminifs_npu_smoke.IoQueues.{
  IoDev, Features, result_word, refused, failed_with, SetupEnv, min, set_queue_count,
  sample_parameters, asked, split_grant, cap_kernel, Negotiated, record_grant, share, negotiate,
}

-- How a successful negotiation ends: on the older path user space has its queues and the kernel all
-- others but one; else the kernel has the whole grant, or as much of it as its budget allows.
pub data Shared (dev : IoDev) (n : Negotiated) : Type 0 where
  split :
      n.dev.use_user_allocated ≡ true
      → n.nr + n.dev.nr_user_use_cq + 1 ≡ n.dev.ctrl_max_io_queues
      → n.nr + 2 ≤ dev.nr_allocated_queues
      → n.dev.nr_allocated_queues ≡ n.nr + 1
      → Shared dev n
  whole :
      n.dev.use_user_allocated ≡ false
      → n.nr ≡ (
          if dev.cap_kernel_ioq == 0
          then n.dev.ctrl_max_io_queues
          else min dev.cap_kernel_ioq n.dev.ctrl_max_io_queues)
      → n.dev.cap_kernel_ioq ≡ dev.cap_kernel_ioq
      → n.nr < dev.nr_allocated_queues + dev.nr_user_allocated_cq
      → Shared dev n

-- A count that is granted is at most the count asked for.
set_queue_count_le :
    (f : Features) (count : ℕ)
    → (set_queue_count f count).0 ≡ ok
    → (set_queue_count f count).1 ≤ count
unfolding set_queue_count
set_queue_count_le (failed_with e) count good = absurd (ok_err (sym good))
set_queue_count_le (refused s) count good = omega arith
set_queue_count_le (result_word r) count good = ground arith

cap_kernel_of :
    (d : IoDev) (g : ℕ)
    → d.use_user_allocated ≡ false
    → (if g == 0 then g else cap_kernel d g)
      ≡ (if d.cap_kernel_ioq == 0 then g else min d.cap_kernel_ioq g)
unfolding cap_kernel
cap_kernel_of d g off = rw off (ground arith)

cap_kernel_split :
    (d : IoDev) (g : ℕ) → d.use_user_allocated ≡ true → (if g == 0 then g else cap_kernel d g) ≡ g
unfolding cap_kernel
cap_kernel_split d g on = rw on (ground arith)

cap_kernel_le : (d : IoDev) (g : ℕ) → (if g == 0 then g else cap_kernel d g) ≤ g
unfolding cap_kernel
cap_kernel_le d g = ground arith

asked_lt :
    (dev : IoDev)
    → 2 ≤ dev.nr_allocated_queues
    → dev.nr_allocated_queues + dev.nr_user_allocated_cq < 2 ^ 32
    → asked dev < dev.nr_allocated_queues + dev.nr_user_allocated_cq
unfolding asked
asked_lt dev two fits = ground arith

-- What a split comes to once the cap is applied.
abbrev capped : IoDev × ℕ → Negotiated
capped s = record { rc = ok; dev = s.0; nr = if s.1 == 0 then s.1 else cap_kernel s.0 s.1 }

module _ (dev : IoDev) (g : ℕ) where
  abbrev granted : IoDev
  granted = record dev { ctrl_max_io_queues = g }

  -- The older path is left.
  abbrev left : IoDev
  left = record granted { use_user_allocated = false }

  abbrev parted : IoDev
  parted = record granted {
    nr_allocated_queues = sub32 g dev.nr_user_allocated_cq;
    nr_user_use_cq = dev.nr_user_allocated_cq;
  }

  abbrev split_of : IoDev × ℕ
  split_of = split_grant granted (asked dev) g

  split_off : dev.use_user_allocated ≡ false → split_of ≡ (granted, g)
  unfolding split_grant
  split_off off = rw off refl

  abbrev IsSmall : Type 0
  IsSmall = g < dev.nr_allocated_queues + dev.nr_user_allocated_cq

  whole_left : IsSmall → Shared dev (capped (left, g))
  whole_left small =
      whole refl (cap_kernel_of left g refl) refl (omega (arith, cap_kernel_le left g))

  whole_off : IsSmall → dev.use_user_allocated ≡ false → Shared dev (capped (granted, g))
  whole_off small off =
      whole off (cap_kernel_of granted g off) refl (omega (arith, cap_kernel_le granted g))

  module _ (on : dev.use_user_allocated ≡ true) (two : 2 ≤ dev.nr_allocated_queues)
      (fits : dev.nr_allocated_queues + dev.nr_user_allocated_cq < 2 ^ 32)
      (le : g ≤ asked dev) where
    asked_eq : asked dev ≡ dev.nr_allocated_queues - 1 + dev.nr_user_allocated_cq
    unfolding asked
    asked_eq = rw on (omega arith)

    in_asked : leb g (asked dev) ≡ true
    in_asked = ground arith

    few_eq : ltb g (sub32 dev.nr_allocated_queues 1) ≡ true → split_of ≡ (left, g)
    unfolding split_grant
    few_eq few = rw (on, few) refl

    greedy_eq :
        ltb g (sub32 dev.nr_allocated_queues 1) ≡ false
        → ltb (sub32 g 1) dev.nr_user_allocated_cq ≡ true
        → split_of ≡ (left, g)
    unfolding split_grant
    greedy_eq many greedy = rw (in_asked, on, many, greedy) refl

    fair_eq :
        ltb g (sub32 dev.nr_allocated_queues 1) ≡ false
        → ltb (sub32 g 1) dev.nr_user_allocated_cq ≡ false
        → split_of ≡ (parted, sub32 (sub32 g dev.nr_user_allocated_cq) 1)
    unfolding split_grant
    fair_eq many fair = rw (in_asked, on, many, fair) refl

    small : IsSmall
    small = omega (arith, asked_lt dev two fits)

    split_of-Shared : Shared dev (capped split_of)
    split_of-Shared = elim (Bool-cases (ltb g (sub32 dev.nr_allocated_queues 1))) [
      | inl few ↦ subst (λ s. Shared dev (capped s)) (sym (few_eq few)) (whole_left small)
      | inr many ↦ elim (Bool-cases (ltb (sub32 g 1) dev.nr_user_allocated_cq)) [
        | inl greedy ↦
            subst (λ s. Shared dev (capped s)) (sym (greedy_eq many greedy)) (whole_left small)
        | inr fair ↦
            let rest = sub32 (sub32 g dev.nr_user_allocated_cq) 1 in
            subst (λ s. Shared dev (capped s)) (sym (fair_eq many fair))
              (split on (rw (cap_kernel_split parted rest on) (ground (arith, asked_eq)))
                (rw (cap_kernel_split parted rest on) (ground (arith, asked_eq)))
                (rw (cap_kernel_split parted rest on) (ground (arith, asked_eq))))
      ]
    ]

share-Shared :
    (dev : IoDev) (answer : Rc × ℕ)
    → answer.0 ≡ ok
    → answer.1 ≤ asked dev
    → 2 ≤ dev.nr_allocated_queues
    → dev.nr_allocated_queues + dev.nr_user_allocated_cq < 2 ^ 32
    → Shared dev (share dev answer)
unfolding share record_grant
share-Shared dev (err e, g) good le two fits = absurd (ok_err (sym good))
share-Shared dev (ok, g) good le two fits = elim (Bool-cases dev.use_user_allocated) [
  | inl on ↦ split_of-Shared dev g on two fits le
  | inr off ↦
      subst (λ s. Shared dev (capped s)) (sym (split_off dev g off))
        (whole_off dev g (omega (arith, asked_lt dev two fits)) off)
]

Shared-sampled :
    (dev : IoDev) (write poll : ℕ) (n : Negotiated)
    → Shared (record dev { nr_write_queues = write; nr_poll_queues = poll }) n
    → Shared dev n
Shared-sampled dev write poll n (split on sum room left) = split on sum room left
Shared-sampled dev write poll n (whole off same cap small) = whole off same cap small

module _ (dev : IoDev) where
  sampled :
      (env : SetupEnv)
      → (sample_parameters env dev
          ≡ record dev { nr_write_queues = env.write_queues; nr_poll_queues = env.poll_queues })
        ⊎ (sample_parameters env dev ≡ dev)
  unfolding sample_parameters
  sampled env = elim (Bool-cases (dev.cap_kernel_ioq == 0)) [
    | inl unset ↦ inl (rw unset refl)
    | inr budget ↦ inr (rw budget refl)
  ]

  -- A negotiation that succeeds shares the grant.
  pub negotiate-Shared :
      (env : SetupEnv)
      → 2 ≤ dev.nr_allocated_queues
      → dev.nr_allocated_queues + dev.nr_user_allocated_cq < 2 ^ 32
      → (negotiate env dev).rc ≡ ok
      → Shared dev (negotiate env dev)
  unfolding negotiate share set_queue_count
  negotiate-Shared env two fits good =
      let answer = λ (x : IoDev). set_queue_count (env.set_features (asked x)) (asked x) in
      elim (sampled env) [
        | inl same ↦
            let x = record dev {
              nr_write_queues = env.write_queues;
              nr_poll_queues = env.poll_queues;
            } in
            let good' : (answer x).0 ≡ ok = ap (λ y. (answer y).0) (sym same) ∙ good in
            subst (λ y. Shared dev (share y (answer y))) (sym same)
              (Shared-sampled dev env.write_queues env.poll_queues (share x (answer x)) (
                share-Shared x (answer x) good'
                  (set_queue_count_le (env.set_features (asked x)) (asked x) good') two fits))
        | inr same ↦
            let good' : (answer dev).0 ≡ ok = ap (λ y. (answer y).0) (sym same) ∙ good in
            subst (λ y. Shared dev (share y (answer y))) (sym same)
              (share-Shared dev (answer dev) good'
                (set_queue_count_le (env.set_features (asked dev)) (asked dev) good') two fits)
      ]

pub nr_lt :
    (dev : IoDev) (n : Negotiated)
    → Shared dev n
    → n.nr < dev.nr_allocated_queues + dev.nr_user_allocated_cq
nr_lt dev n (split on sum room left) = omega arith
nr_lt dev n (whole off same cap small) = small
