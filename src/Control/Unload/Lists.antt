-- ===== src/Control/Unload/Lists.antt =====
-- The loop of `clear_map_list`: it ends with the list empty, and frees what was on it.
use geminifs_npu_smoke.Prelude.{
  ℕ, suc, ◌+◌, ◌≡◌, refl, ap, sym, ◌∙◌, subst, ◌⊎◌, ◌≢◌, inl, inr, true, false, none, List, [], ◌∷◌,
  arith, ◌==◌, length, mem, erase, ==_refl, mem-erase_ne, Bool-cases,
}
use geminifs_npu_smoke.State.{World}
use geminifs_npu_smoke.Maps.{unmap_and_release}
use geminifs_npu_smoke.Maps.Purge.{IsList, heap-unmap_and_release}
use geminifs_npu_smoke.Control.Unload.{clear_maps, clear_map_list}

false_ne_true : false ≢ true
false_ne_true h = cc h

erase-head : (p : ℕ) (ps : List ℕ) → erase p (p ∷ ps) ≡ ps
erase-head p ps = rw (==_refl p) refl

module _ (list : World → List ℕ) (is_list : IsList list) where
  -- One loop on a list of known length.
  clear_step :
      (fuel : ℕ) (w : World) (n p : ℕ) (ps : List ℕ)
      → list w ≡ p ∷ ps
      → clear_maps (suc fuel) list w n ≡ clear_maps fuel list (unmap_and_release w p) (suc n)
  unfolding clear_maps
  clear_step fuel w n p ps here = rw (here, clear_maps) refl

  rest_eq : (w : World) (p : ℕ) (ps : List ℕ) → list w ≡ p ∷ ps → list (unmap_and_release w p) ≡ ps
  rest_eq w p ps here = is_list w p ∙ ap (erase p) here ∙ erase-head p ps

  clear_maps-empties :
      (ps : List ℕ) (w : World) (n : ℕ)
      → list w ≡ ps
      → (list (clear_maps (length ps) list w n).0 ≡ [])
        × ((clear_maps (length ps) list w n).1 ≡ n + length ps)
  unfolding clear_maps
  clear_maps-empties [] w n here = (here, omega arith)
  clear_maps-empties (p ∷ ps) w n here =
      let rest = clear_maps-empties ps (unmap_and_release w p) (suc n) (rest_eq w p ps here) in
      rw (clear_step (length ps) w n p ps here) (rest.0, omega (arith, rest.1))

  -- A property of worlds that every release keeps.
  clear_maps-keeps :
      (P : World → Type 0)
      → ((w : World) (p : ℕ) → P w → P (unmap_and_release w p))
      → (ps : List ℕ) (w : World) (n : ℕ) → list w ≡ ps
      → P w
      → P (clear_maps (length ps) list w n).0
  unfolding clear_maps
  clear_maps-keeps P keeps [] w n here p = p
  clear_maps-keeps P keeps (q ∷ qs) w n here p =
      subst (λ (r : World × ℕ). P r.0) (sym (clear_step (length qs) w n q qs here))
        (clear_maps-keeps P keeps qs (unmap_and_release w q) (suc n) (rest_eq w q qs here)
          (keeps w q p))

  -- `clear_map_list` empties its list, and counts what was on it.
  pub clear_map_list-empties :
      (w : World)
      → (list (clear_map_list list w).0 ≡ []) × ((clear_map_list list w).1 ≡ length (list w))
  unfolding clear_map_list
  clear_map_list-empties w =
      let r = clear_maps-empties (list w) w 0 refl in (r.0, omega (arith, r.1))

  pub clear_map_list-keeps :
      (P : World → Type 0)
      → ((w : World) (p : ℕ) → P w → P (unmap_and_release w p))
      → (w : World) → P w
      → P (clear_map_list list w).0
  unfolding clear_map_list
  clear_map_list-keeps P keeps w p = clear_maps-keeps P keeps (list w) w 0 refl p

-- An empty list stays empty.
pub empty_kept :
    (list : World → List ℕ)
    → IsList list
    → (w : World) (p : ℕ) → list w ≡ []
    → list (unmap_and_release w p) ≡ []
empty_kept list is_list w p none_left = is_list w p ∙ ap (erase p) none_left

-- The map at a pointer is gone, or the pointer is still on the list.
abbrev pub Pending : (World → List ℕ) → ℕ → World → Type 0
Pending list q w = (mem q (list w) ≡ true) ⊎ (w.heap q ≡ none)

pub still_listed :
    (list : World → List ℕ)
    → IsList list
    → (q : ℕ) (w : World) (p : ℕ) → Pending list q w
    → Pending list q (unmap_and_release w p)
still_listed list is_list q w p pending = elim (Bool-cases (q == p)) [
  | inl same ↦ inr (heap-unmap_and_release w p q ∙ (rw same refl))
  | inr other ↦ elim pending [
    | inl on ↦ inl (ap (mem q) (is_list w p) ∙ mem-erase_ne p q (list w) other ∙ on)
    | inr gone ↦ inr (heap-unmap_and_release w p q ∙ (rw other gone))
  ]
]

pub Pending-empty :
    (list : World → List ℕ) (q : ℕ) (w : World) → Pending list q w → list w ≡ [] → w.heap q ≡ none
Pending-empty list q w (inl on) none_left = absurd (false_ne_true (ap (mem q) (sym none_left) ∙ on))
Pending-empty list q w (inr gone) none_left = gone
