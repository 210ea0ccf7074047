-- ===== src/IoQueues/Bar.antt =====
-- The mapping of the doorbells: `nvme_remap_bar` and the loop that tries fewer queues.
use geminifs_npu_smoke.Prelude.{
  ℕ, zero, suc, ◌≤◌, ◌≡◌, ◌≢◌, refl, ap, sym, ◌∙◌, subst, inl, inr, true, false, arith, ltb, leb,
  Bool-cases,
}
use geminifs_npu_smoke.State.{Rc, ok, err, failed, Kernel}
use geminifs_npu_smoke.IoQueues.{IoDev, SetupEnv, remap_bar, bar_size, map_doorbells}

-- Only the size of the mapping may differ.
abbrev pub Remapped : IoDev → IoDev → Type 0
Remapped d d' = d' ≡ record d { bar_mapped_size = d'.bar_mapped_size }

Remapped-trans : (a b c : IoDev) → Remapped a b → Remapped b c → Remapped a c
Remapped-trans a b c ab bc =
    bc ∙ ap (λ (x : IoDev). record x { bar_mapped_size = c.bar_mapped_size }) ab

failed_err : {r : Rc} → failed r ≡ true → r ≢ ok
failed_err {r = ok} h e = cc h
failed_err {r = err x} h e = cc e

module _ (k : Kernel) (env : SetupEnv) where
  remap_bar-Remapped : (dev : IoDev) (size : ℕ) → Remapped dev (remap_bar env dev size).1
  unfolding remap_bar
  remap_bar-Remapped dev size = elim (Bool-cases (leb size dev.bar_mapped_size)) [
    | inl fits ↦ rw fits refl
    | inr more ↦ elim (Bool-cases (ltb env.bar_len size)) [
      | inl long ↦ rw (more, long) refl
      | inr within ↦ elim (Bool-cases (env.ioremap size)) [
        | inl maps ↦ rw (more, within, maps) refl
        | inr fails ↦ rw (more, within, fails) refl
      ]
    ]
  ]

  remap_bar_maps :
      (dev : IoDev) (size : ℕ)
      → failed (remap_bar env dev size).0 ≡ false
      → size ≤ (remap_bar env dev size).1.bar_mapped_size
  unfolding remap_bar
  remap_bar_maps dev size good = ground arith

  bar_size-Remapped : (a b : IoDev) (nr : ℕ) → Remapped a b → bar_size k b nr ≡ bar_size k a nr
  unfolding bar_size
  bar_size-Remapped a b nr same = ap (λ (x : IoDev). bar_size k x nr) same

  -- What a mapping that succeeds is.
  pub record Mapped (dev : IoDev) (nr : ℕ) (r : IoDev × ℕ) : Type 0 where
    pub same : Remapped dev r.0
    pub range : bar_size k r.0 r.1 ≤ r.0.bar_mapped_size
    pub some_left : 1 ≤ r.1
    pub no_more : r.1 ≤ nr

  map_here :
      (nr : ℕ) (dev : IoDev)
      → failed (remap_bar env dev (bar_size k dev (suc nr))).0 ≡ false
      → map_doorbells k env dev (suc nr)
        ≡ (ok, (remap_bar env dev (bar_size k dev (suc nr))).1, suc nr)
  unfolding map_doorbells
  map_here nr dev maps = rw maps refl

  map_next :
      (nr : ℕ) (dev : IoDev)
      → failed (remap_bar env dev (bar_size k dev (suc nr))).0 ≡ true
      → map_doorbells k env dev (suc nr)
        ≡ map_doorbells k env (remap_bar env dev (bar_size k dev (suc nr))).1 nr
  unfolding map_doorbells
  map_next nr dev fails = rw fails refl

  pub map_doorbells-Mapped :
      (nr : ℕ) (dev : IoDev)
      → (map_doorbells k env dev nr).0 ≡ ok
      → (let r = map_doorbells k env dev nr in Mapped dev nr (r.1, r.2))
  unfolding map_doorbells
  map_doorbells-Mapped zero dev good = absurd (failed_err refl good)
  map_doorbells-Mapped (suc nr) dev good =
      let size = bar_size k dev (suc nr) in
      let here = remap_bar-Remapped dev size in
      elim (Bool-cases (failed (remap_bar env dev size).0)) [
        | inr maps ↦
            subst (λ (r : Rc × IoDev × ℕ). Mapped dev (suc nr) (r.1, r.2))
              (sym (map_here nr dev maps))
              (record {
                same = here;
                range =
                    rw (bar_size-Remapped dev (remap_bar env dev size).1 (suc nr) here)
                      (remap_bar_maps dev size maps);
                some_left = omega arith;
                no_more = omega arith;
              })
        | inl fails ↦
            let next = (remap_bar env dev size).1 in
            let eq = map_next nr dev fails in
            let rest =
              map_doorbells-Mapped nr next (ap (λ (r : Rc × IoDev × ℕ). r.0) (sym eq) ∙ good) in
            subst (λ (r : Rc × IoDev × ℕ). Mapped dev (suc nr) (r.1, r.2)) (sym eq)
              (record {
                same = Remapped-trans dev next (map_doorbells k env next nr).1 here rest.same;
                range = rest.range;
                some_left = rest.some_left;
                no_more = omega (arith, rest.no_more);
              })
      ]
