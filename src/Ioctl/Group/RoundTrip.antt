-- ===== src/Ioctl/Group/RoundTrip.antt =====
-- NVM_CREATE_QUEUE_GROUP and NVM_DESTROY_QUEUE_GROUP undo each other.
use mathlib.Core.Option
use geminifs_npu_smoke.Prelude.{
  ℕ, ◌≡◌, refl, sym, ap, ap₂, subst, ◌⊎◌, ◌∙◌, inl, inr, true, false, not, ◌||◌, Option, some, List,
  [], ◌∷◌, ◌++◌, ◌==◌, if◌then◌else◌, update, add32, sub32, erase, Bool-cases, ==_refl, ==_iff,
}
use geminifs_npu_smoke.State.{
  Errno, enomem, ok, err, nvm_max_queues_per_group, Group, Owner, World, Env, Kernel,
}
use geminifs_npu_smoke.Groups.{
  find_qgroup, find_group, remove_group, drain_queues, drain_maps, destroy_qgroup, update_owner,
  drain_queue,
}
use geminifs_npu_smoke.Ioctl.Reply.{Reply, fail, done, group_made}
use geminifs_npu_smoke.Ioctl.Map.{all_zero}
use geminifs_npu_smoke.Ioctl.Group.{
  GroupRequest, new_group, add_group, drop_group, install_group, unlink_and_destroy,
  create_queue_group, destroy_queue_group,
}

-- A group that was never used is torn down without a trace.
destroy-new_group :
    (k : Kernel) (w : World) (id cdev : ℕ)
    → destroy_qgroup k w (new_group id) cdev ≡ record w { group_ida = erase id w.group_ida }
unfolding destroy_qgroup drain_queues drain_maps drain_queue
destroy-new_group k w id cdev = refl

update_self :
    (fd : ℕ) (f g : Owner → Owner) (files : ℕ → Option Owner) {own : Owner}
    → files fd ≡ some own
    → g (f own) ≡ own
    → update
        (update files fd (Option.map f (files fd)))
        fd
        (Option.map g (update files fd (Option.map f (files fd)) fd))
        fd
      ≡ some own
update_self fd f g files opened back = rw (==_refl fd, opened) (ap some back)

update_other :
    (fd x : ℕ) (a b : Option Owner) (files : ℕ → Option Owner)
    → (x == fd) ≡ false
    → update (update files fd a) fd b x ≡ files x
update_other fd x a b files other = rw other refl

add-drop :
    (id : ℕ) (own : Owner)
    → own.groups ≡ []
    → own.nr_groups ≡ 0
    → drop_group id (add_group (new_group id) own) ≡ own
unfolding remove_group
add-drop id own empty count =
    ap₂ (λ gs n. record own { groups = gs; nr_groups = n })
      (ap (λ gs. remove_group id (gs ++ new_group id ∷ [])) empty ∙ rw (==_refl id) (sym empty))
      (ap (λ n. sub32 (add32 n 1) 1) count ∙ sym count)

sum_cases : {A B : Type 0} → (s : A ⊎ B) → ((a : A) × (s ≡ inl a)) ⊎ ((b : B) × (s ≡ inr b))
sum_cases (inl a) = inl (a, refl)
sum_cases (inr b) = inr (b, refl)

-- `w'` is `w`, file by file.
pub record Same (w w' : World) : Type 0 where
  pub files : (x : ℕ) → w'.files x ≡ w.files x
  pub rest : w' ≡ record w { files = w'.files }

module _ (k : Kernel) (w : World) (fd cdev : ℕ) (own : Owner) (opened : w.files fd ≡ some own) where
  module _ (empty : own.groups ≡ []) (count : own.nr_groups ≡ 0) where
    installed : ℕ → World
    installed id =
        update_owner (record w { group_ida = id ∷ w.group_ida }) fd (add_group (new_group id))

    -- A group that is made and at once unlinked and torn down leaves nothing behind.
    unlink-installed :
        (id : ℕ) → Same w (unlink_and_destroy k (installed id) fd cdev (new_group id))
    unfolding unlink_and_destroy installed
    unlink-installed id = record {
      files = λ x. elim (Bool-cases (x == fd)) [
        | inl same ↦
            let e = (==_iff x fd).0 same in
            ap (λ (y : ℕ). (unlink_and_destroy k (installed id) fd cdev (new_group id)).files y) e
            ∙ update_self fd (add_group (new_group id)) (drop_group id) w.files opened
                (add-drop id own empty count)
            ∙ sym opened
            ∙ sym (ap w.files e)
        | inr other ↦ update_other fd x _ _ w.files other
      ];
      rest =
          let unlinked = update_owner (installed id) fd (drop_group id) in
          destroy-new_group k unlinked id cdev
          ∙ ap (λ (ida : List ℕ). record unlinked { group_ida = ida }) (rw (==_refl id) refl);
    }

    -- The two ends of a call on a file that has no group.
    data Created (env : Env) (r : Reply) : Type 0 where
      nothing_new : {e : Errno} → r.rc ≡ err e → Same w r.world → Created env r
      one_group :
          (id : ℕ)
          → env.ida_simple_get ≡ inr id
          → r.rc ≡ ok
          → r.world ≡ installed id
          → r.out ≡ group_made id nvm_max_queues_per_group
          → Created env r

    refused : (env : Env) (e : Errno) → Created env (fail e w)
    refused env e = nothing_new refl (record { files = λ x. refl; rest = refl })

    install_group-Created :
        (env : Env) (id : ℕ)
        → env.ida_simple_get ≡ inr id
        → Created env (install_group k env w fd cdev id)
    unfolding install_group installed
    install_group-Created env id given = elim (Bool-cases env.copy_to_user) [
      | inl copied ↦ rw (copied, install_group) (one_group id given refl refl refl)
      | inr fault ↦ rw (fault, install_group) (nothing_new refl (unlink-installed id))
    ]

    numbered : Env → Errno ⊎ ℕ → Reply
    numbered env ida = elim ida [ inl e ↦ fail e w | inr id ↦ install_group k env w fd cdev id ]

    allocated :
        (env : Env)
        → Created env (
            if not env.kzalloc then fail enomem w else elim env.ida_simple_get [
              | inl e ↦ fail e w
              | inr id ↦ install_group k env w fd cdev id
            ])
    unfolding numbered
    allocated env = elim (Bool-cases (not env.kzalloc)) [
      | inl full ↦ rw full (refused env _)
      | inr room ↦ rw room (elim (sum_cases env.ida_simple_get) [
        | inl (e, none_left) ↦
            subst (λ s. Created env (numbered env s)) (sym none_left) (refused env e)
        | inr (id, given) ↦
            subst (λ s. Created env (numbered env s)) (sym given)
              (install_group-Created env id given)
      ])
    ]

    create_queue_group-Created :
        (env : Env) (req : GroupRequest) → Created env (create_queue_group k env w fd cdev req)
    unfolding create_queue_group
    create_queue_group-Created env req =
        rw (opened, create_queue_group)
          (elim (Bool-cases (not env.copy_from_user)) [
            | inl fault ↦ rw fault (refused env _)
            | inr read ↦
                rw read (elim (Bool-cases (not (req.flags == 0) || not (all_zero req.reserved))) [
                  | inl bad ↦ rw bad (refused env _)
                  | inr good ↦ rw good (rw count (allocated env))
                ])
          ])

    -- NVM_CREATE_QUEUE_GROUP on a file with no group changes nothing when it fails.
    pub create_queue_group-Same :
        (env : Env) (req : GroupRequest) (e : Errno)
        → (create_queue_group k env w fd cdev req).rc ≡ err e
        → Same w (create_queue_group k env w fd cdev req).world
    create_queue_group-Same env req e failed = go (create_queue_group-Created env req) failed
      where
        go : {r : Reply} → Created env r → r.rc ≡ err e → Same w r.world
        go (nothing_new _ same) h = same
        go (one_group id _ made _ _) h = cc

    find-added :
        (id : ℕ)
        → (id == 0) ≡ false
        → find_qgroup (add_group (new_group id) own) id ≡ some (new_group id)
    unfolding find_qgroup find_group
    find-added id nonzero = rw (nonzero, empty, ==_refl id) refl

    destroy-found :
        (env : Env) (w' : World) (own' : Owner) (g : Group) (id : ℕ)
        → w'.files fd ≡ some own'
        → find_qgroup own' id ≡ some g
        → (id == 0) ≡ false
        → env.copy_from_user ≡ true
        → destroy_queue_group k env w' fd cdev id ≡ done (unlink_and_destroy k w' fd cdev g)
    unfolding destroy_queue_group
    destroy-found env w' own' g id there found nonzero copied =
        rw (there, copied, nonzero, found, destroy_queue_group) refl

    destroy-installed :
        (env : Env) (id : ℕ)
        → (id == 0) ≡ false
        → env.copy_from_user ≡ true
        → destroy_queue_group k env (installed id) fd cdev id
          ≡ done (unlink_and_destroy k (installed id) fd cdev (new_group id))
    unfolding installed
    destroy-installed env id nonzero copied =
        destroy-found env (installed id) (add_group (new_group id) own) (new_group id) id
          (rw (==_refl fd, opened) refl) (find-added id nonzero) nonzero copied

    -- In a file with no group, a group that NVM_CREATE_QUEUE_GROUP has made under an identifier
    -- that is not 0 is destroyed by NVM_DESTROY_QUEUE_GROUP under the identifier that was reported,
    -- and then everything is as it was before.
    pub create-destroy :
        (env env' : Env) (req : GroupRequest) (id : ℕ)
        → env.ida_simple_get ≡ inr id
        → (id == 0) ≡ false
        → env'.copy_from_user ≡ true
        → (create_queue_group k env w fd cdev req).rc ≡ ok
        → let r = create_queue_group k env w fd cdev req in
          let r' = destroy_queue_group k env' r.world fd cdev id in
          (r.out ≡ group_made id nvm_max_queues_per_group) × (r'.rc ≡ ok) × Same w r'.world
    create-destroy env env' req id given nonzero copied made =
        go (create_queue_group-Created env req) made
      where
        go :
            {r : Reply}
            → Created env r
            → r.rc ≡ ok
            → let r' = destroy_queue_group k env' r.world fd cdev id in
              (r.out ≡ group_made id nvm_max_queues_per_group) × (r'.rc ≡ ok) × Same w r'.world
        go (nothing_new failed _) h = cc
        go (one_group x given' _ at reports) h =
            let same : x ≡ id = cc in
            let destroyed =
              ap (λ w. destroy_queue_group k env' w fd cdev id) (at ∙ ap installed same)
              ∙ destroy-installed env' id nonzero copied in
            (
              reports ∙ ap (λ i. group_made i nvm_max_queues_per_group) same,
              ap (λ (a : Reply). a.rc) destroyed,
              subst (λ (a : Reply). Same w a.world) (sym destroyed) (unlink-installed id),
            )
