-- ===== src/Ioctl/Group.antt =====
-- pci.c, in `snvm_dev_map_ioctl`: NVM_CREATE_QUEUE_GROUP and NVM_DESTROY_QUEUE_GROUP.
pub mod RoundTrip
use mathlib.Core.Option
use geminifs_npu_smoke.Prelude.{
  ℕ, ◌-◌, ◌≡◌, inl, inr, Bool, true, false, not, ◌||◌, Option, none, some, List, [], ◌∷◌, ◌++◌, ltb,
  leb, ◌==◌, if◌then◌else◌, update, add32, sub32, replicate,
}
use geminifs_npu_smoke.State.{
  ok, efault, einval, enodev, enomem, enoent, ebusy, UserQueue, Group, Owner, World, Env, Kernel,
  nvm_max_groups_per_fd, nvm_max_queues_per_group,
}
use geminifs_npu_smoke.Groups.{find_qgroup, remove_group, destroy_qgroup, update_owner}
use geminifs_npu_smoke.Ioctl.Reply.{Reply, fail, done, group_made}
use geminifs_npu_smoke.Ioctl.Map.{all_zero}

-- `struct nvm_ioctl_queue_group`, as it comes in.
pub record GroupRequest : Type 0 where
  pub flags : ℕ
  pub reserved : List ℕ

abbrev pub empty_slot : UserQueue
empty_slot = record { qid = 0; alive = false; sq_vaddr = 0; cq_vaddr = 0 }

abbrev pub new_group : ℕ → Group
new_group id = record {
  group_id = id;
  max_queues = nvm_max_queues_per_group;
  maps = [];
  nr_maps = 0;
  queues = replicate nvm_max_queues_per_group empty_slot;
  cur_queues = 0;
}

abbrev pub add_group : Group → Owner → Owner
add_group g own = record own { groups = own.groups ++ g ∷ []; nr_groups = add32 own.nr_groups 1 }

abbrev pub drop_group : ℕ → Owner → Owner
drop_group id own = record own {
  groups = remove_group id own.groups;
  nr_groups = sub32 own.nr_groups 1;
}

-- `list_del(&g->link)`, the count, and the tear-down.
unfoldable pub unlink_and_destroy : Kernel → World → ℕ → ℕ → Group → World
unfolding remove_group destroy_qgroup
unlink_and_destroy k w fd cdev g =
    destroy_qgroup k (update_owner w fd (drop_group g.group_id)) g cdev

-- The group is made; a failed copy to the user tears it down again.
unfoldable pub install_group : Kernel → Env → World → ℕ → ℕ → ℕ → Reply
unfolding unlink_and_destroy
install_group k env w fd cdev id =
    let g = new_group id in
    let w' = update_owner (record w { group_ida = id ∷ w.group_ida }) fd (add_group g) in
    if env.copy_to_user
    then record { rc = ok; world = w'; out = group_made id g.max_queues }
    else fail efault (unlink_and_destroy k w' fd cdev g)

unfoldable pub create_queue_group : Kernel → Env → World → ℕ → ℕ → GroupRequest → Reply
unfolding install_group
create_queue_group k env w fd cdev req = elim (w.files fd) [
  | none ↦ fail enodev w
  | some own ↦
      if not env.copy_from_user
      then fail efault w
      else if not (req.flags == 0) || not (all_zero req.reserved)
      then fail einval w
      else if leb nvm_max_groups_per_fd own.nr_groups
      then fail ebusy w
      else if not env.kzalloc
      then fail enomem w
      else elim env.ida_simple_get [ inl e ↦ fail e w | inr id ↦ install_group k env w fd cdev id ]
]

unfoldable pub destroy_queue_group : Kernel → Env → World → ℕ → ℕ → ℕ → Reply
destroy_queue_group k env w fd cdev id = elim (w.files fd) [
  | none ↦ fail enodev w
  | some own ↦
      if not env.copy_from_user
      then fail efault w
      else if id == 0
      then fail einval w
      else elim (find_qgroup own id) [
        | none ↦ fail enoent w
        | some g ↦ done (unlink_and_destroy k w fd cdev g)
      ]
]
