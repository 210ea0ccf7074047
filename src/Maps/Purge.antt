-- ===== src/Maps/Purge.antt =====
-- `map_purge_by_owner`: its rounds are enough, and it frees the legacy maps of the owner alone.

use geminifs_npu_smoke.Prelude.{
  ℕ, zero, suc, ◌<◌, ◌≡◌, refl, sym, ap, ◌∙◌, inl, inr, Bool, true, false, Option, none, some, List,
  [], ◌∷◌, arith, ◌==◌, if◌then◌else◌, mem, erase, length, length-erase, mem-erase_ne, Bool-cases,
  Option-cases, ==_iff,
}
use geminifs_npu_smoke.State.{Map, World}
use geminifs_npu_smoke.Maps.{
  find_map, unmap_and_release, is_legacy_of, purge_loop, map_purge_by_owner,
}

-- A pointer that is found is on the list, and its map passes the test.
pub record Found (heap : ℕ → Option Map) (test : Map → Bool) (list : List ℕ) (p : ℕ) : Type 0 where
  pub map : Map
  pub on_list : mem p list ≡ true
  pub on_heap : heap p ≡ some map
  pub passes : test map ≡ true

module _ (heap : ℕ → Option Map) (test : Map → Bool) where
  Found-next : (q : ℕ) (qs : List ℕ) {p : ℕ} → Found heap test qs p → Found heap test (q ∷ qs) p
  Found-next q qs f = record {
    map = f.map;
    on_list = ground (arith, f.on_list);
    on_heap = f.on_heap;
    passes = f.passes;
  }

  pub find_map-Found :
      (list : List ℕ) {p : ℕ} → find_map heap test list ≡ some p → Found heap test list p
  unfolding find_map
  find_map-Found [] e = cc
  find_map-Found (q ∷ qs) {p} e = elim (Option-cases (heap q)) [
    | inl gone ↦ Found-next q qs (find_map-Found qs (rw (gone, find_map) at e))
    | inr (m, there) ↦ elim (Bool-cases (test m)) [
      | inl good ↦
          let here : q ≡ p = cc (rw (there, good, find_map) at e) in
          record { map = m; on_list = ground arith; on_heap = cc; passes = good }
      | inr bad ↦ Found-next q qs (find_map-Found qs (rw (there, bad, find_map) at e))
    ]
  ]

  -- A search that finds nothing has seen every map of the list fail the test.
  pub find_map-none :
      (list : List ℕ) {p : ℕ} {m : Map}
      → find_map heap test list ≡ none
      → mem p list ≡ true
      → heap p ≡ some m
      → test m ≡ false
  unfolding find_map
  find_map-none [] e h there = cc
  find_map-none (q ∷ qs) {p} {m} e h there = elim (Option-cases (heap q)) [
    | inl gone ↦ elim (Bool-cases (p == q)) [
      | inl same ↦ cc ((==_iff p q).0 same)
      | inr other ↦ find_map-none qs (rw (gone, find_map) at e) (ground arith) there
    ]
    | inr (x, here) ↦ elim (Bool-cases (test x)) [
      | inl good ↦ cc (rw (here, good, find_map) at e)
      | inr bad ↦ elim (Bool-cases (p == q)) [
        | inl same ↦ cc ((==_iff p q).0 same)
        | inr other ↦ find_map-none qs (rw (here, bad, find_map) at e) (ground arith) there
      ]
    ]
  ]

-- The release callback and `kvfree` take one descriptor off the heap.
pub heap-unmap_and_release :
    (w : World) (p q : ℕ) → (unmap_and_release w p).heap q ≡ (if q == p then none else w.heap q)
unfolding unmap_and_release
heap-unmap_and_release w p q = refl

-- The lists of the module: an unmapped pointer is taken off each.
abbrev pub IsList : (World → List ℕ) → Type 0
IsList list = (w : World) (p : ℕ) → list (unmap_and_release w p) ≡ erase p (list w)

pub IsList-host : IsList (λ w. w.host_list)
unfolding unmap_and_release
IsList-host w p = refl

pub IsList-device : IsList (λ w. w.device_list)
unfolding unmap_and_release
IsList-device w p = refl

pub IsList-device_queue : IsList (λ w. w.device_queue_list)
unfolding unmap_and_release
IsList-device_queue w p = refl

-- A purge of one list: nothing legacy of the owner's is left on it, and every other map is where it was.
pub record Purged (list : World → List ℕ) (owner : ℕ) (w w' : World) : Type 0 where
  pub none_left :
      (p : ℕ) (m : Map) → mem p (list w') ≡ true → w'.heap p ≡ some m → is_legacy_of owner m ≡ false
  pub spared :
      (p : ℕ) (m : Map)
      → w.heap p ≡ some m
      → is_legacy_of owner m ≡ false
      → (w'.heap p ≡ some m) × (mem p (list w') ≡ mem p (list w))
  -- Nothing comes back.
  pub only_frees : (p : ℕ) → w.heap p ≡ none → w'.heap p ≡ none

module _ (list : World → List ℕ) (is_list : IsList list) (owner : ℕ) where
  differs :
      (w : World) (p q : ℕ) (m : Map)
      → Found w.heap (is_legacy_of owner) (list w) p
      → w.heap q ≡ some m
      → is_legacy_of owner m ≡ false
      → (q == p) ≡ false
  differs w p q m f there foreign = elim (Bool-cases (q == p)) [
    | inl same ↦
        let e : f.map ≡ m = cc ((==_iff q p).0 same, f.on_heap) in
        cc (ap (is_legacy_of owner) e, f.passes)
    | inr other ↦ other
  ]

  purge_step :
      (w w' : World) (p : ℕ)
      → Found w.heap (is_legacy_of owner) (list w) p
      → Purged list owner (unmap_and_release w p) w'
      → Purged list owner w w'
  purge_step w w' p f r = record {
    none_left = r.none_left;
    spared = λ q m there foreign.
        let other = differs w p q m f there foreign in
        let (a, b) = r.spared q m (heap-unmap_and_release w p q ∙ rw other there) foreign in
        (a, b ∙ ap (mem q) (is_list w p) ∙ mem-erase_ne p q (list w) other);
    only_frees = λ q gone. r.only_frees q (heap-unmap_and_release w p q ∙ freed (q == p) gone);
  }
    where
      freed : (b : Bool) {o : Option Map} → o ≡ none → (if b then none else o) ≡ none
      freed true h = refl
      freed false h = h

  purge_loop-Purged :
      (fuel : ℕ) (w : World) (freed : ℕ)
      → length (list w) < fuel
      → Purged list owner w (purge_loop fuel list owner w freed).0
  unfolding purge_loop
  purge_loop-Purged zero w freed l = absurd (omega arith)
  purge_loop-Purged (suc fuel) w freed l =
      elim (Option-cases (find_map w.heap (is_legacy_of owner) (list w))) [
        | inl clean ↦
            rw (clean, purge_loop)
              (record {
                none_left = λ p m on there.
                    find_map-none w.heap (is_legacy_of owner) (list w) clean on there;
                spared = λ p m there foreign. (there, refl);
                only_frees = λ p gone. gone;
              })
        | inr (p, found) ↦
            let f = find_map-Found w.heap (is_legacy_of owner) (list w) found in
            let shorter : length (list (unmap_and_release w p)) < fuel =
              rw (is_list w p) (omega (arith, length-erase p (list w) f.on_list)) in
            rw (found, purge_loop)
              (purge_step w _ p f
                (purge_loop-Purged fuel (unmap_and_release w p) (suc freed) shorter))
      ]

  -- The rounds of the purge are enough: afterwards no map on the list is a legacy map of the owner,
  -- and every map that is not one is still there. The list is one from which unmapping takes the
  -- pointer.
  pub map_purge_by_owner-Purged :
      (w : World) → Purged list owner w (map_purge_by_owner list owner w).0
  unfolding map_purge_by_owner
  map_purge_by_owner-Purged w = purge_loop-Purged (suc (length (list w))) w 0 (omega arith)

module _ (P : World → Type 0) (kept : (w : World) (p : ℕ) → P w → P (unmap_and_release w p)) where
  purge_loop_keeps :
      (list : World → List ℕ) (owner fuel : ℕ) (w : World) (freed : ℕ)
      → P w
      → P (purge_loop fuel list owner w freed).0
  unfolding purge_loop
  purge_loop_keeps list owner zero w freed h = h
  purge_loop_keeps list owner (suc fuel) w freed h =
      elim (Option-cases (find_map w.heap (is_legacy_of owner) (list w))) [
        | inl clean ↦ rw (clean, purge_loop) h
        | inr (p, found) ↦
            rw (found, purge_loop)
              (purge_loop_keeps list owner fuel (unmap_and_release w p) (suc freed) (kept w p h))
      ]

  -- What every unmapping keeps, a purge keeps.
  pub purge_keeps :
      (list : World → List ℕ) (owner : ℕ) (w : World) → P w → P (map_purge_by_owner list owner w).0
  unfolding map_purge_by_owner
  purge_keeps list owner w h = purge_loop_keeps list owner (suc (length (list w))) w 0 h

-- No map of a list is a legacy map of the owner.
abbrev pub NoLegacy : (World → List ℕ) → ℕ → World → Type 0
NoLegacy list owner w =
    (p : ℕ) (m : Map) → mem p (list w) ≡ true → w.heap p ≡ some m → is_legacy_of owner m ≡ false

pub NoLegacy_kept :
    (list : World → List ℕ) (owner : ℕ)
    → IsList list
    → (w : World) (p : ℕ) → NoLegacy list owner w
    → NoLegacy list owner (unmap_and_release w p)
NoLegacy_kept list owner is_list w p clean q m on there = elim (Bool-cases (q == p)) [
  | inl same ↦ cc (rw same at (sym (heap-unmap_and_release w p q) ∙ there))
  | inr other ↦
      clean q m (sym (mem-erase_ne p q (list w) other) ∙ sym (ap (mem q) (is_list w p)) ∙ on)
        (rw other at (sym (heap-unmap_and_release w p q) ∙ there))
]
