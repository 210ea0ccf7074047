-- ===== src/Ioctl/AddQueue/Checks.antt =====
-- NVM_ADD_USER_QUEUE: what its checks let through, and which maps it takes for rings.
use geminifs_npu_smoke.Prelude.{
  subst, ℕ, ◌≡◌, refl, ◌∙◌, inl, inr, Bool, true, false, not, ◌&&◌, ◌||◌, Option, none, some, List,
  [], ◌∷◌, map, arith, ◌==◌, mem, distinct, Bool-cases, Option-cases,
}
use geminifs_npu_smoke.State.{Map, Kernel, kind_data, kind_ring_sq, kind_ring_cq}
use geminifs_npu_smoke.Ioctl.AddRequest.{
  Pair, clashes, bad_pairs, is_ring, look_at, both, find_rings,
}

abbrev sq_of : Pair → ℕ
sq_of p = p.sq_vaddr

abbrev cq_of : Pair → ℕ
cq_of p = p.cq_vaddr

clashes_lem :
    (p : Pair) (seen : List Pair)
    → clashes p seen ≡ (mem p.sq_vaddr (map sq_of seen) || mem p.cq_vaddr (map cq_of seen))
unfolding clashes
clashes_lem p [] = refl
clashes_lem p (q ∷ seen) = ground (arith, clashes_lem p seen)

-- Each pair has two different addresses that are not NULL.
abbrev pub well_formed : List Pair → Bool
well_formed [] = true
well_formed (p ∷ ps) =
    not (p.sq_vaddr == 0)
    && not (p.cq_vaddr == 0)
    && not (p.sq_vaddr == p.cq_vaddr)
    && well_formed ps

-- None of `xs` is in `ys`.
abbrev apart : List ℕ → List ℕ → Bool
apart [] ys = true
apart (x ∷ xs) ys = not (mem x ys) && apart xs ys

apart-cons :
    (xs : List ℕ) (y : ℕ) (ys : List ℕ) → apart xs (y ∷ ys) ≡ (not (mem y xs) && apart xs ys)
apart-cons [] y ys = refl
apart-cons (x ∷ xs) y ys = ground (arith, apart-cons xs y ys)

apart-nil : (xs : List ℕ) → apart xs [] ≡ true
apart-nil [] = refl
apart-nil (x ∷ xs) = apart-nil xs

bad_pairs-seen :
    (seen ps : List Pair)
    → not (bad_pairs seen ps) ≡ (
        well_formed ps
        && (distinct (map sq_of ps) && apart (map sq_of ps) (map sq_of seen))
        && (distinct (map cq_of ps) && apart (map cq_of ps) (map cq_of seen)))
unfolding bad_pairs
bad_pairs-seen seen [] = refl
bad_pairs-seen seen (p ∷ ps) = ground (
  arith,
  bad_pairs-seen (p ∷ seen) ps,
  clashes_lem p seen,
  apart-cons (map sq_of ps) p.sq_vaddr (map sq_of seen),
  apart-cons (map cq_of ps) p.cq_vaddr (map cq_of seen),
)

-- The double loop over the pairs lets exactly those batches through in which every pair has two
-- different addresses that are not NULL, no SQ address occurs twice and no CQ address occurs twice.
pub bad_pairs_lem :
    (ps : List Pair)
    → not (bad_pairs [] ps) ≡ (well_formed ps && distinct (map sq_of ps) && distinct (map cq_of ps))
bad_pairs_lem ps =
    ground (arith, bad_pairs-seen [] ps, apart-nil (map sq_of ps), apart-nil (map cq_of ps))

-- A ring of the group: it hangs on the group's list, is on the heap, is no data buffer, starts at the
-- address as its own page size aligns it, and carries the role's tag or none.
pub record IsRing (k : Kernel) (heap : ℕ → Option Map) (maps : List ℕ) (kind vaddr : ℕ) (m : Map)
    : Type 0 where
  pub ptr : ℕ
  pub on_group : mem ptr maps ≡ true
  pub on_heap : heap ptr ≡ some m
  pub no_data : (m.kind == kind_data) ≡ false
  pub fits : is_ring k kind vaddr m ≡ true

-- What the walk has seen so far.
data Seen (k : Kernel) (heap : ℕ → Option Map) (maps : List ℕ) (kind vaddr : ℕ)
    : Option Map → Type 0 where
  nothing : Seen k heap maps kind vaddr none
  ring : {m : Map} → IsRing k heap maps kind vaddr m → Seen k heap maps kind vaddr (some m)

module _ (k : Kernel) (heap : ℕ → Option Map) (maps : List ℕ) where
  look_at-Seen :
      (kind vaddr p : ℕ) {seen : Option Map}
      → mem p maps ≡ true
      → Seen k heap maps kind vaddr seen
      → Seen k heap maps kind vaddr (look_at k kind vaddr seen (heap p))
  look_at-Seen kind vaddr p {seen} m s = elim (Option-cases (heap p)) [
    | inl gone ↦ rw gone s
    | inr (x, there) ↦
        rw there (elim (Bool-cases (not (x.kind == kind_data) && is_ring k kind vaddr x)) [
          | inl good ↦ rw good (
              ring (record {
                ptr = p;
                on_group = m;
                on_heap = there;
                no_data = ground arith;
                fits = ground arith;
              }))
          | inr bad ↦ rw bad s
        ])
  ]

  Seen-some :
      {kind vaddr : ℕ} {m : Map}
      → Seen k heap maps kind vaddr (some m)
      → IsRing k heap maps kind vaddr m
  Seen-some (ring r) = r

  both-some :
      (pair : Pair) (sq cq : Option Map) (rings : Map × Map)
      → Seen k heap maps kind_ring_sq pair.sq_vaddr sq
      → Seen k heap maps kind_ring_cq pair.cq_vaddr cq
      → both sq cq ≡ some rings
      → IsRing k heap maps kind_ring_sq pair.sq_vaddr rings.0
        × IsRing k heap maps kind_ring_cq pair.cq_vaddr rings.1
  both-some pair (some a) (some b) rings s c e =
      let e' : (a, b) ≡ rings = cc in
      subst
        (λ (r : Map × Map).
          IsRing k heap maps kind_ring_sq pair.sq_vaddr r.0
          × IsRing k heap maps kind_ring_cq pair.cq_vaddr r.1)
        e' (Seen-some s, Seen-some c)
  both-some pair (some a) none rings s c e = cc
  both-some pair none cq rings s c e = cc

  walk-IsRing :
      (pair : Pair) (ps : List ℕ) (sq cq : Option Map) (rings : Map × Map)
      → ((p : ℕ) → mem p ps ≡ true → mem p maps ≡ true)
      → Seen k heap maps kind_ring_sq pair.sq_vaddr sq
      → Seen k heap maps kind_ring_cq pair.cq_vaddr cq
      → find_rings k heap pair ps sq cq ≡ some rings
      → IsRing k heap maps kind_ring_sq pair.sq_vaddr rings.0
        × IsRing k heap maps kind_ring_cq pair.cq_vaddr rings.1
  unfolding find_rings
  walk-IsRing pair [] sq cq rings inside s c e = both-some pair sq cq rings s c e
  walk-IsRing pair (p ∷ ps) sq cq rings inside s c e =
      let sq' = look_at k kind_ring_sq pair.sq_vaddr sq (heap p) in
      let cq' = look_at k kind_ring_cq pair.cq_vaddr cq (heap p) in
      let s' = look_at-Seen kind_ring_sq pair.sq_vaddr p (inside p (ground arith)) s in
      let c' = look_at-Seen kind_ring_cq pair.cq_vaddr p (inside p (ground arith)) c in
      elim (Option-cases (both sq' cq')) [
        | inl more ↦
            walk-IsRing pair ps sq' cq' rings (λ x m. inside x (ground arith)) s' c'
              (rw (more, find_rings) at e)
        | inr (found, here) ↦
            both-some pair sq' cq' rings s' c' (here ∙ (rw (here, find_rings) at e))
      ]

  -- The maps that a pair is given for its rings are maps of the group at the pair's addresses, as
  -- each map's own page size aligns them, tagged for their role or not at all, and never data
  -- buffers.
  pub find_rings-IsRing :
      (pair : Pair) (rings : Map × Map)
      → find_rings k heap pair maps none none ≡ some rings
      → IsRing k heap maps kind_ring_sq pair.sq_vaddr rings.0
        × IsRing k heap maps kind_ring_cq pair.cq_vaddr rings.1
  find_rings-IsRing pair rings e =
      walk-IsRing pair maps none none rings (λ p m. m) nothing nothing e
