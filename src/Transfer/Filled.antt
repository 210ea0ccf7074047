-- ===== src/Transfer/Filled.antt =====
-- What an entry that the loop writes, or a list that it turns to, adds to what a controller reads.

use geminifs_npu_smoke.Prelude.{
  ℕ, suc, ◌+◌, ◌-◌, ◌%◌, ◌<◌, ◌≡◌, ◌≢◌, inl, inr, refl, ap, ap₂, sym, subst, ◌∙◌, false, some, List,
  [], ◌∷◌, ◌++◌, arith, ◌==◌, update, length, Bool-cases, ==_refl,
}
use geminifs_npu_smoke.Transfer.{Memory, Pool, Spot, entry, write_entry}
use geminifs_npu_smoke.Transfer.Device.{walk}
use geminifs_npu_smoke.Transfer.Lists.{
  IsPagePool, entry_apart, entry_ne, entry_next, walk_on, walk_follow,
}

module _ (pool : Pool) (pages : IsPagePool pool) where
  -- The list that is written to is one of the allocations.
  abbrev pub IsOurs : Spot → Type 0
  IsOurs s = (j : ℕ) × (j < s.allocated) × (pool j ≡ some s.prp_list)

  -- From the spot on, the memory `m` reads as the entries `es`; the entries before it are kept.
  pub record Filled (s : Spot) (es : List ℕ) (m : Memory) : Type 0 where
    pub below : s.i < 512 → walk m (entry s.prp_list s.i) (length es) ≡ es
    pub full :
        s.i ≡ 512
        → walk m (entry s.prp_list 511) (suc (length es)) ≡ s.memory (entry s.prp_list 511) ∷ es
    pub others :
        (j d x : ℕ)
        → j < s.allocated
        → pool j ≡ some d
        → d ≢ s.prp_list
        → x < 512
        → m (entry d x) ≡ s.memory (entry d x)
    pub own : (x : ℕ) → x < s.i → x < 511 → m (entry s.prp_list x) ≡ s.memory (entry s.prp_list x)

  module _ (s : Spot) (ours : IsOurs s) where
    pub on_page : s.prp_list % 4096 ≡ 0
    on_page = pages.aligned ours.0 s.prp_list ours.2

    pub write-others :
        (e j d x : ℕ)
        → s.i < 512
        → pool j ≡ some d
        → d ≢ s.prp_list
        → x < 512
        → (write_entry s e).memory (entry d x) ≡ s.memory (entry d x)
    write-others e j d x l alloc ne lx =
        rw (entry_apart d s.prp_list x s.i (pages.aligned j d alloc) on_page ne lx l) refl

    write-own :
        (e x : ℕ)
        → x < s.i
        → (write_entry s e).memory (entry s.prp_list x) ≡ s.memory (entry s.prp_list x)
    write-own e x l = rw (entry_ne s.prp_list x s.i (omega arith)) refl

    write-at : (e : ℕ) → (write_entry s e).memory (entry s.prp_list s.i) ≡ e
    write-at e = rw (==_refl (entry s.prp_list s.i)) refl

    -- The last entry.
    pub last-Filled : (e : ℕ) → s.i < 512 → Filled s (e ∷ []) (write_entry s e).memory
    unfolding walk
    last-Filled e l = record {
      below = λ _.
          walk_on (write_entry s e).memory (entry s.prp_list s.i) 0 (ground arith)
          ∙ ap (λ (v : ℕ). v ∷ []) (write-at e);
      full = λ h. absurd (omega (arith, h, l));
      others = λ j d x lj alloc ne lx. write-others e j d x l alloc ne lx;
      own = λ x lx _. write-own e x lx;
    }

    -- An entry with more to follow.
    pub more-Filled :
        (e e' : ℕ) (es : List ℕ) (m : Memory)
        → s.i < 512
        → Filled (write_entry s e) (e' ∷ es) m
        → Filled s (e ∷ e' ∷ es) m
    more-Filled e e' es m l rest = record {
      below = λ _. elim (Bool-cases (s.i == 511)) [
        | inl last ↦
            let eq : s.i ≡ 511 = ground arith in
            let at : (write_entry s e).memory (entry s.prp_list 511) ≡ e =
              subst (λ (i : ℕ). (write_entry s e).memory (entry s.prp_list i) ≡ e) eq
                (write-at e) in
            subst (λ (i : ℕ). walk m (entry s.prp_list i) (suc (suc (length es))) ≡ e ∷ e' ∷ es)
              (sym eq) (rest.full (omega arith) ∙ ap (λ (v : ℕ). v ∷ e' ∷ es) at)
        | inr inner ↦
            let place = on_page in
            walk_on m (entry s.prp_list s.i) (suc (length es)) (ground arith)
            ∙ ap₂ (λ (v : ℕ) (vs : List ℕ). v ∷ vs)
                (rest.own s.i (omega arith) (ground arith) ∙ write-at e)
                (ap (λ (a : ℕ). walk m a (suc (length es))) (entry_next s.prp_list s.i)
                  ∙ rest.below (ground arith))
      ];
      full = λ h. absurd (omega (arith, h, l));
      others = λ j d x lj alloc ne lx.
          rest.others j d x lj alloc ne lx ∙ write-others e j d x l alloc ne lx;
      own = λ x lx l'. rest.own x (omega arith) l' ∙ write-own e x lx;
    }

  -- The spot after a full list was handed over to a new one.
  abbrev pub turned : Spot → ℕ → Spot
  turned s d = record {
    memory =
        update (update s.memory (entry d 0) (s.memory (entry s.prp_list (s.i - 1))))
          (entry s.prp_list (s.i - 1)) d;
    prp_list = d;
    i = 1;
    npages = s.npages + 1;
    lists = s.lists ++ d ∷ [];
    allocated = s.allocated + 1;
  }

  module _ (s : Spot) (ours : IsOurs s) (is_full : s.i ≡ 512) where
    module _ (d : ℕ) (alloc : pool s.allocated ≡ some d) where
      pub new_page : s.prp_list ≢ d
      new_page same =
          let again =
            pages.apart ours.0 s.allocated d (ours.2 ∙ ap (λ (v : ℕ). some v) same) alloc in
          absurd (omega (arith, again, ours.1))

      pub turned-IsOurs : IsOurs (turned s d)
      turned-IsOurs = (s.allocated, omega arith, alloc)

      last_eq : s.i - 1 ≡ 511
      last_eq = omega (arith, is_full)

      pub turned_last : (turned s d).memory (entry s.prp_list 511) ≡ d
      turned_last = rw (last_eq, ==_refl (entry s.prp_list 511)) refl

      turned_first : (turned s d).memory (entry d 0) ≡ s.memory (entry s.prp_list 511)
      turned_first =
          rw
            (
              last_eq,
              entry_apart d s.prp_list 0 511 (pages.aligned s.allocated d alloc) (on_page s ours)
                  (λ e. new_page (sym e)) (omega arith) (omega arith),
              ==_refl (entry d 0),
            )
            refl

      pub turned_others :
          (j d' x : ℕ)
          → j < s.allocated
          → pool j ≡ some d'
          → x < 512
          → (entry d' x == entry s.prp_list 511) ≡ false
          → (turned s d).memory (entry d' x) ≡ s.memory (entry d' x)
      turned_others j d' x lj old lx ne =
          let differ : d' ≢ d = λ same. absurd (
            omega
              (arith, pages.apart j s.allocated d (old ∙ ap (λ (v : ℕ). some v) same) alloc, lj)) in
          rw
            (
              last_eq,
              ne,
              entry_apart d' d x 0 (pages.aligned j d' old) (pages.aligned s.allocated d alloc)
                  differ lx (omega arith),
            )
            refl

      pub turn-Filled :
          (e : ℕ) (es : List ℕ) (m : Memory) → Filled (turned s d) (e ∷ es) m → Filled s (e ∷ es) m
      turn-Filled e es m rest = record {
        below = λ l. absurd (omega (arith, is_full, l));
        full = λ _.
            let place = on_page s ours in
            let at : m (entry s.prp_list 511) ≡ d =
              rest.others ours.0 s.prp_list 511 (omega (arith, ours.1)) ours.2 new_page
                (omega arith)
              ∙ turned_last in
            walk_follow m (entry s.prp_list 511) (suc (length es)) (ground arith)
            ∙ ap (λ (t : ℕ). m t ∷ walk m (t + 8) (suc (length es))) at
            ∙ ap₂ (λ (v : ℕ) (vs : List ℕ). v ∷ vs)
                (ap m (omega arith) ∙ rest.own 0 (omega arith) (omega arith) ∙ turned_first)
                (ap (λ (a : ℕ). walk m a (suc (length es))) (omega arith)
                  ∙ rest.below (omega arith));
        others = λ j d' x lj old ne lx.
            let apart =
              entry_apart d' s.prp_list x 511 (pages.aligned j d' old) (on_page s ours) ne lx
                (omega arith) in
            let differ : d' ≢ d = λ same. absurd (
              omega (
                arith,
                pages.apart j s.allocated d (old ∙ ap (λ (v : ℕ). some v) same) alloc,
                lj,
              )) in
            rest.others j d' x (omega arith) old differ lx ∙ turned_others j d' x lj old lx apart;
        own = λ x lx l'.
            rest.others ours.0 s.prp_list x (omega (arith, ours.1)) ours.2 new_page (omega arith)
            ∙ turned_others ours.0 s.prp_list x ours.1 ours.2 (omega arith)
                (entry_ne s.prp_list x 511 (omega arith));
      }
