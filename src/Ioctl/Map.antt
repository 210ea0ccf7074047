-- ===== src/Ioctl/Map.antt =====
-- pci.c, in `snvm_dev_map_ioctl`: NVM_MAP_HOST_MEMORY, NVM_MAP_DEVICE_MEMORY and
-- NVM_MAP_DEVICE_QUEUE_MEMORY. The two first differ in the routine that maps and in the legacy branch.
pub mod Undo
pub mod GivenBack
pub mod Queue
pub mod Budget
use mathlib.Core.Option
use geminifs_npu_smoke.Prelude.{
  ℕ, ◌-◌, Bool, true, false, not, ◌&&◌, ◌||◌, none, some, List, [], ◌∷◌, ◌++◌, ℤ, is_nonneg, is_set,
  ltb, ◌==◌, if◌then◌else◌, add32, sub32, update, take,
}
use geminifs_npu_smoke.State.{
  Rc, ok, err, efault, einval, enodev, enoent, Map, Ctrl, Group, Owner, World, Env, Kernel,
  kind_data, kind_ring_sq, kind_ring_cq,
}
use geminifs_npu_smoke.Ctrls.{update_ctrl}
use geminifs_npu_smoke.Maps.{unmap_and_release}
use geminifs_npu_smoke.Maps.Host.{Made, made, not_made, map_userspace}
use geminifs_npu_smoke.Maps.Device.{map_device_memory, map_device_ioqueue_memory}
use geminifs_npu_smoke.Groups.{find_qgroup, update_group, update_owner}
use geminifs_npu_smoke.Ioctl.Reply.{Reply, fail, addresses}

-- `struct nvm_ioctl_map`
pub record MapRequest : Type 0 where
  pub vaddr_start : ℕ
  pub n_pages : ℕ
  pub ioq_idx : ℤ
  pub is_cq : ℤ
  pub group_id : ℕ
  pub map_kind : ℕ
  pub reserved0 : List ℕ

abbrev pub all_zero : List ℕ → Bool
all_zero [] = true
all_zero (x ∷ xs) = x == 0 && all_zero xs

abbrev pub update_map : World → ℕ → (Map → Map) → World
update_map w p f = record w { heap = update w.heap p (Option.map f (w.heap p)) }

-- The checks before anything is pinned, up to the ring that lacks a group.
unfoldable pub bad_map_request : MapRequest → Bool
bad_map_request req =
    not (all_zero req.reserved0)
    || ltb kind_data req.map_kind
    || ((req.map_kind == kind_ring_sq || req.map_kind == kind_ring_cq) && req.group_id == 0)

abbrev pub add_data_map : ℕ → Owner → Owner
add_data_map p own = record own {
  data_maps = own.data_maps ++ p ∷ [];
  nr_data_maps = add32 own.nr_data_maps 1;
}

abbrev pub add_group_map : ℕ → Group → Group
add_group_map p g = record g { maps = g.maps ++ p ∷ []; nr_maps = add32 g.nr_maps 1 }

abbrev pub in_group : ℕ → (Group → Group) → Owner → Owner
in_group id f own = record own { groups = update_group id f own.groups }

unfoldable pub attach_data : World → ℕ → ℕ → Rc × World
unfolding unmap_and_release
attach_data w fd p = elim (w.files fd) [
  | none ↦ (err enodev, unmap_and_release w p)
  | some own ↦ (ok, update_owner w fd (add_data_map p))
]

unfoldable pub attach_group : World → ℕ → ℕ → ℕ → Rc × World
unfolding unmap_and_release find_qgroup update_group
attach_group w fd id p = elim (w.files fd) [
  | none ↦ (err enodev, unmap_and_release w p)
  | some own ↦ elim (find_qgroup own id) [
    | none ↦ (err enoent, unmap_and_release w p)
    | some g ↦ (
      ok,
      update_owner (update_map w p (λ m. record m { group_id = id })) fd
          (in_group id (add_group_map p)),
    )
  ]
]

-- One more registered ring, and one more CQ if it is one.
abbrev pub count_ring : ℤ → Ctrl → Ctrl
count_ring is_cq c = record c {
  ioq_map_num = add32 c.ioq_map_num 1;
  cq_num = (if is_set is_cq then add32 c.cq_num 1 else c.cq_num);
}

abbrev pub uncount_ring : ℤ → Ctrl → Ctrl
uncount_ring is_cq c = record c {
  ioq_map_num = sub32 c.ioq_map_num 1;
  cq_num = (if is_set is_cq then sub32 c.cq_num 1 else c.cq_num);
}

unfoldable pub attach_legacy : World → Ctrl → ℕ → ℤ → ℤ → Rc × World
unfolding unmap_and_release update_ctrl
attach_legacy w c p ioq_idx is_cq =
    if ltb c.ioq_num (add32 c.ioq_map_num 1) then (err efault, unmap_and_release w p) else (
      ok,
      update_ctrl (update_map w p (λ m. record m { ioq_idx = ioq_idx; is_cq = is_cq })) c.cdev
          (count_ring is_cq),
    )

-- The three routings of a new map. `legacy` says whether the handler has the legacy branch.
unfoldable pub attach : Bool → World → ℕ → Ctrl → MapRequest → ℕ → Rc × World
unfolding attach_data attach_group attach_legacy
attach legacy w fd c req p =
    if req.map_kind == kind_data
    then attach_data w fd p
    else if not (req.group_id == 0)
    then attach_group w fd req.group_id p
    else if legacy && is_nonneg req.ioq_idx
    then attach_legacy w c p req.ioq_idx req.is_cq
    else (ok, w)

abbrev pub drop_data_map : Owner → Owner
drop_data_map own = record own {
  nr_data_maps = (if ltb 0 own.nr_data_maps then own.nr_data_maps - 1 else 0);
}

abbrev pub drop_group_map : Group → Group
drop_group_map g = record g { nr_maps = sub32 g.nr_maps 1 }

-- The counters that a failed copy to the user rolls back.
unfoldable pub uncount : Bool → World → ℕ → Ctrl → MapRequest → World
unfolding update_ctrl update_group
uncount legacy w fd c req =
    if req.map_kind == kind_data
    then update_owner w fd drop_data_map
    else if not (req.group_id == 0)
    then update_owner w fd (in_group req.group_id drop_group_map)
    else if legacy && is_nonneg req.ioq_idx
    then update_ctrl w c.cdev (uncount_ring req.is_cq)
    else w

-- `copy_to_user(request.ioaddrs, map->addrs, ...)`
abbrev pub addrs_out : World → ℕ → List ℕ
addrs_out w p = elim (w.heap p) [ none ↦ [] | some m ↦ take m.n_addrs m.addrs ]

unfoldable pub give_addrs : Env → Bool → World → ℕ → Ctrl → MapRequest → ℕ → Reply
unfolding uncount unmap_and_release
give_addrs env legacy w fd c req p =
    if env.copy_to_user
    then record { rc = ok; world = w; out = addresses (addrs_out w p) }
    else fail efault (unmap_and_release (uncount legacy w fd c req) p)

unfoldable pub register : Env → Bool → ℕ → Ctrl → MapRequest → Made × World → Reply
unfolding attach give_addrs
register env legacy fd c req (not_made e, w) = fail e w
register env legacy fd c req (made p, w) =
    let kinded = update_map w p (λ m. record m { kind = req.map_kind }) in
    let (rc, w') = attach legacy kinded fd c req p in
    elim rc [ err e ↦ fail e w' | ok ↦ give_addrs env legacy w' fd c req p ]

unfoldable pub map_host_memory : Kernel → Env → World → ℕ → Ctrl → MapRequest → Reply
unfolding bad_map_request register map_userspace
map_host_memory k env w fd c req =
    if not env.copy_from_user
    then fail efault w
    else if bad_map_request req
    then fail einval w
    else register env true fd c req (map_userspace k env w c req.vaddr_start req.n_pages)

unfoldable pub map_device_memory_ioctl : Env → World → ℕ → Ctrl → MapRequest → Reply
unfolding bad_map_request register map_device_memory
map_device_memory_ioctl env w fd c req =
    if not env.copy_from_user
    then fail efault w
    else if bad_map_request req
    then fail einval w
    else register env false fd c req (map_device_memory env w c req.vaddr_start req.n_pages)

unfoldable pub register_queue : Env → Ctrl → MapRequest → Made × World → Reply
unfolding update_ctrl unmap_and_release
register_queue env c req (not_made e, w) = fail e w
register_queue env c req (made p, w) =
    let (rc, w') = attach_legacy w c p req.ioq_idx req.is_cq in
    elim rc [
      | err e ↦ fail e w'
      | ok ↦
          if env.copy_to_user
          then record { rc = ok; world = w'; out = addresses (addrs_out w' p) }
          else fail efault (unmap_and_release (update_ctrl w' c.cdev (uncount_ring req.is_cq)) p)
    ]

unfoldable pub map_device_queue_memory : Env → World → Ctrl → MapRequest → Reply
unfolding register_queue map_device_ioqueue_memory
map_device_queue_memory env w c req =
    if not env.copy_from_user
    then fail efault w
    else if not (is_nonneg req.ioq_idx)
    then fail efault w
    else register_queue env c req (map_device_ioqueue_memory env w c req.vaddr_start req.n_pages)
