-- ===== src/Ioctl/Map/Undo.antt =====
-- Releasing a map that was just made gives back the state before it.
use mathlib.Core.Option
use geminifs_npu_smoke.Prelude.{
  ℕ, ◌≡◌, refl, sym, ap, ap₂, ◌∙◌, inl, inr, Bool, false, ◌||◌, none, some, List, [], ◌∷◌, ◌++◌,
  map, arith, ◌==◌, mem, erase, erase_not_mem, Bool-cases, Option-cases, ==_refl, ==_iff,
}
use geminifs_npu_smoke.State.{Group, Owner, World}
use geminifs_npu_smoke.Maps.{unlink_group, unlink_owner, unmap_and_release}
use geminifs_npu_smoke.Maps.Host.{Mapping, store_map}

-- Whether a pointer hangs on one of the groups.
abbrev pub hangs : ℕ → List Group → Bool
hangs p [] = false
hangs p (g ∷ gs) = mem p g.maps || hangs p gs

-- A pointer that nothing holds.
pub record Fresh (p : ℕ) (w : World) : Type 0 where
  pub off_heap : w.heap p ≡ none
  pub off_host : mem p w.host_list ≡ false
  pub off_device : mem p w.device_list ≡ false
  pub off_device_queue : mem p w.device_queue_list ≡ false
  pub off_files :
      (x : ℕ) (own : Owner)
      → w.files x ≡ some own
      → (mem p own.data_maps ≡ false) × (hangs p own.groups ≡ false)

-- The same state but for the trace.
pub record Untouched (w w' : World) : Type 0 where
  pub heap : (q : ℕ) → w'.heap q ≡ w.heap q
  pub files : (x : ℕ) → w'.files x ≡ w.files x
  pub host_list : w'.host_list ≡ w.host_list
  pub device_list : w'.device_list ≡ w.device_list
  pub device_queue_list : w'.device_queue_list ≡ w.device_queue_list
  pub ctrl_list : w'.ctrl_list ≡ w.ctrl_list
  pub group_ida : w'.group_ida ≡ w.group_ida
  pub pci : w'.pci ≡ w.pci

-- The same state once `p` is taken off everything.
pub record Nearly (p : ℕ) (w w' : World) : Type 0 where
  pub heap : (q : ℕ) → (q == p) ≡ false → w'.heap q ≡ w.heap q
  pub files : (x : ℕ) → Option.map (unlink_owner p) (w'.files x) ≡ w.files x
  pub host_list : erase p w'.host_list ≡ w.host_list
  pub device_list : erase p w'.device_list ≡ w.device_list
  pub device_queue_list : erase p w'.device_queue_list ≡ w.device_queue_list
  pub ctrl_list : w'.ctrl_list ≡ w.ctrl_list
  pub group_ida : w'.group_ida ≡ w.group_ida
  pub pci : w'.pci ≡ w.pci

pub erase-append_self : (p : ℕ) (xs : List ℕ) → mem p xs ≡ false → erase p (xs ++ p ∷ []) ≡ xs
erase-append_self p [] h = rw (==_refl p) refl
erase-append_self p (x ∷ xs) h = ground (arith, erase-append_self p xs)

unlink_groups : (p : ℕ) (gs : List Group) → hangs p gs ≡ false → map (unlink_group p) gs ≡ gs
unlink_groups p [] h = refl
unlink_groups p (g ∷ gs) h =
    ap₂ (λ (m : List ℕ) (r : List Group). record g { maps = m } ∷ r)
      (erase_not_mem p g.maps (ground arith)) (unlink_groups p gs (ground arith))

pub unlink-Fresh :
    (p : ℕ) (w : World) (x : ℕ) → Fresh p w → Option.map (unlink_owner p) (w.files x) ≡ w.files x
unlink-Fresh p w x fresh = elim (Option-cases (w.files x)) [
  | inl closed ↦ rw closed refl
  | inr (own, opened) ↦
      let (a, b) = fresh.off_files x own opened in
      rw opened (
        ap₂ (λ (g : List Group) (d : List ℕ). some (record own { groups = g; data_maps = d }))
          (unlink_groups p own.groups b) (erase_not_mem p own.data_maps a))
]

pub release-Untouched :
    (p : ℕ) (w w' : World) → Fresh p w → Nearly p w w' → Untouched w (unmap_and_release w' p)
unfolding unmap_and_release
release-Untouched p w w' fresh near = record {
  heap = λ q. elim (Bool-cases (q == p)) [
    | inl same ↦ rw same (sym (ap w.heap ((==_iff q p).0 same) ∙ fresh.off_heap))
    | inr other ↦ rw other (near.heap q other)
  ];
  files = near.files;
  host_list = near.host_list;
  device_list = near.device_list;
  device_queue_list = near.device_queue_list;
  ctrl_list = near.ctrl_list;
  group_ida = near.group_ida;
  pci = near.pci;
}

pub untouched : (w : World) → Untouched w w
untouched w = record {
  heap = λ q. refl;
  files = λ x. refl;
  host_list = refl;
  device_list = refl;
  device_queue_list = refl;
  ctrl_list = refl;
  group_ida = refl;
  pci = refl;
}

-- A descriptor that is stored but on no list.
pub store-Nearly : (p : ℕ) (w : World) (r : Mapping) → Fresh p w → Nearly p w (store_map w p r)
store-Nearly p w r fresh = record {
  heap = λ q other. rw other refl;
  files = λ x. unlink-Fresh p w x fresh;
  host_list = erase_not_mem p w.host_list fresh.off_host;
  device_list = erase_not_mem p w.device_list fresh.off_device;
  device_queue_list = erase_not_mem p w.device_queue_list fresh.off_device_queue;
  ctrl_list = refl;
  group_ida = refl;
  pci = refl;
}
