-- ===== src/Ioctl/AddRequest.antt =====
-- pci.c, in `snvm_dev_map_ioctl`: what NVM_ADD_USER_QUEUE is asked for, the checks of the request, and the
-- walk over the group's maps that finds the rings.
use mathlib.Core.Option
use geminifs_npu_smoke.Prelude.{
  ℕ, Bool, false, not, ◌&&◌, ◌||◌, Option, none, some, List, [], ◌∷◌, ltb, ◌==◌, if◌then◌else◌,
  take,
}
use geminifs_npu_smoke.State.{
  Map, Kernel, nvm_max_queues_per_group, kind_ring_sq, kind_ring_cq, kind_data, align_down,
}
use geminifs_npu_smoke.Ioctl.Map.{all_zero}

pub record Pair : Type 0 where
  pub sq_vaddr : ℕ
  pub cq_vaddr : ℕ

-- `struct nvm_ioctl_add_user_queue`, as it comes in.
pub record AddRequest : Type 0 where
  pub group_id : ℕ
  pub nr_pairs : ℕ
  pub flags : ℕ
  pub reserved : List ℕ
  pub pairs : List Pair

-- Whether a pair names an address that one of `seen` names in the same role.
unfoldable pub clashes : Pair → List Pair → Bool
clashes p [] = false
clashes p (q ∷ seen) = (p.sq_vaddr == q.sq_vaddr || p.cq_vaddr == q.cq_vaddr) || clashes p seen

-- The double loop over the pairs; `seen` are those before.
unfoldable pub bad_pairs : List Pair → List Pair → Bool
unfolding clashes
bad_pairs seen [] = false
bad_pairs seen (p ∷ ps) =
    (p.sq_vaddr == 0 || p.cq_vaddr == 0 || p.sq_vaddr == p.cq_vaddr)
    || clashes p seen
    || bad_pairs (p ∷ seen) ps

abbrev pub batch : AddRequest → List Pair
batch req = take req.nr_pairs req.pairs

unfoldable pub bad_add_request : AddRequest → Bool
unfolding bad_pairs
bad_add_request req =
    not (req.flags == 0)
    || not (all_zero req.reserved)
    || req.nr_pairs == 0
    || ltb nvm_max_queues_per_group req.nr_pairs
    || bad_pairs [] (batch req)

-- A map in the role `kind` at an address, which is aligned to the map's own page size.
abbrev pub is_ring : Kernel → ℕ → ℕ → Map → Bool
is_ring k kind vaddr m =
    m.vaddr == align_down vaddr (if m.page_size == 0 then k.page_size else m.page_size)
    && (m.kind == 0 || m.kind == kind)

-- A slot of the search after one map of the group: a map of kind DATA is passed over.
abbrev pub look_at : Kernel → ℕ → ℕ → Option Map → Option Map → Option Map
look_at k kind vaddr seen candidate = elim candidate [
  | none ↦ seen
  | some m ↦ if not (m.kind == kind_data) && is_ring k kind vaddr m then some m else seen
]

abbrev pub both : Option Map → Option Map → Option (Map × Map)
both (some sq) (some cq) = some (sq, cq)
both (some sq) none = none
both none cq = none

-- The walk over the group's maps for one pair; it ends as soon as both are found.
unfoldable pub find_rings :
    Kernel → (ℕ → Option Map) → Pair → List ℕ → Option Map → Option Map → Option (Map × Map)
find_rings k heap pair [] sq cq = both sq cq
find_rings k heap pair (p ∷ ps) sq cq =
    let sq' = look_at k kind_ring_sq pair.sq_vaddr sq (heap p) in
    let cq' = look_at k kind_ring_cq pair.cq_vaddr cq (heap p) in
    elim (both sq' cq') [ some rings ↦ some rings | none ↦ find_rings k heap pair ps sq' cq' ]

unfoldable pub find_all_rings :
    Kernel → (ℕ → Option Map) → List ℕ → List Pair → Option (List (Map × Map))
unfolding find_rings
find_all_rings k heap maps [] = some []
find_all_rings k heap maps (p ∷ ps) = elim (find_rings k heap p maps none none) [
  | none ↦ none
  | some rings ↦ Option.map (rings ∷◌) (find_all_rings k heap maps ps)
]
