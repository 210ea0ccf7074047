-- ===== src/Transfer/Request.antt =====
-- pci.c: a request on its way to the ring and back: `nvme_queue_rq`, `nvme_map_metadata` and
-- `nvme_pci_complete_rq`. The functions of core.c that set a command up and clean it up, and the state
-- of the controller, answer by `RqEnv`; `C` is what the set-up writes into a command besides the two
-- pointers and the flags.
pub mod Life
use geminifs_npu_smoke.Prelude.{
  ℕ, ◌-◌, ◌^◌, Bool, true, false, not, Option, none, some, List, [], ◌∷◌, ◌++◌, ◌==◌, if◌then◌else◌,
  negsuc,
}
use geminifs_npu_smoke.NvmeQueue.{NvmeQueue, submit_cmd}
use geminifs_npu_smoke.Transfer.{Pools, Status, sts_ok, sts_ioerr, Iod}
use geminifs_npu_smoke.Transfer.Data.{Dptr, Rq, DataState, map_data, unmap_data}

pub data RqEvent : Type 0 where
  set_up clean_up start complete : RqEvent
  map_meta unmap_meta : ℕ → RqEvent

pub record Command (C : Type 0) : Type 0 where
  pub fields : C
  pub dptr : Dptr
  pub flags : ℕ
  pub metadata : ℕ

pub record RqEnv (C : Type 0) : Type 0 where
  -- NVMEQ_ENABLED, and `nvme_check_ready` with the answer to a controller that is not.
  pub enabled : Bool
  pub ready : Bool
  pub fail_nonready_command : Status
  -- `snvme_setup_cmd`, with the command that it leaves.
  pub setup_cmd : Status × Command C
  -- `blk_integrity_rq`, and `dma_map_bvec` for its vector, none where it is a mapping error.
  pub integrity : Bool
  pub dma_map_bvec : Option ℕ
  -- `bd->last`
  pub last : Bool

pub record RqState (C : Type 0) : Type 0 where
  pub status : Status
  pub rq_data : DataState
  pub cmd : Command C
  pub meta_dma : ℕ
  pub trace : List RqEvent
  pub queue : NvmeQueue (Command C)

abbrev pub has_data : Rq → Bool
has_data rq = not (rq.nr_phys_segments == 0)

module _ {C : Type 0} where
  abbrev pub happened : RqState C → RqEvent → RqState C
  happened s e = record s { trace = s.trace ++ e ∷ [] }

  abbrev pub with_meta : RqState C → ℕ → RqState C
  with_meta s addr = record (happened s (map_meta addr)) {
    status = sts_ok;
    meta_dma = addr;
    cmd = (record s.cmd { metadata = addr });
  }

  unfoldable pub map_metadata : RqEnv C → RqState C → RqState C
  map_metadata env s = elim env.dma_map_bvec [
    | none ↦ record s { status = sts_ioerr; meta_dma = 2 ^ 64 - 1 }
    | some addr ↦ with_meta s addr
  ]

  -- The label `out_free_cmd`.
  abbrev pub free_cmd : RqState C → RqState C
  free_cmd s = happened s clean_up

  -- With the data mapped, the request is started and its command submitted.
  unfoldable pub start_rq : RqEnv C → RqState C → RqState C
  start_rq env s = record (happened s start) {
    status = sts_ok;
    queue =
        submit_cmd s.queue (record s.cmd { dptr = s.rq_data.dptr; flags = s.rq_data.flags })
          env.last;
  }

  -- The label `out_unmap_data`. The code comes here for a request without data too.
  abbrev pub undo_data : ℕ → RqState C → RqState C
  undo_data sges s = free_cmd (record s { rq_data = unmap_data sges s.rq_data })

  -- By the answer of the step before.
  unfoldable pub after_metadata : ℕ → RqEnv C → Status → RqState C → RqState C
  unfolding start_rq
  after_metadata sges env sts_ok s = start_rq env s
  after_metadata sges env _ s = undo_data sges s

  unfoldable pub queue_metadata : ℕ → RqEnv C → RqState C → RqState C
  unfolding map_metadata after_metadata start_rq
  queue_metadata sges env s =
      if env.integrity
      then after_metadata sges env (map_metadata env s).status (map_metadata env s)
      else start_rq env s

  unfoldable pub after_data : ℕ → RqEnv C → Status → RqState C → RqState C
  unfolding queue_metadata
  after_data sges env sts_ok s = queue_metadata sges env s
  after_data sges env _ s = free_cmd s

  abbrev pub with_data : RqState C → DataState → RqState C
  with_data s d = record s { status = d.status; rq_data = d }

  -- After the set-up of the command.
  unfoldable pub queue_data : Pools → ℕ → RqEnv C → RqState C → Rq → RqState C
  unfolding after_data queue_metadata
  queue_data pools sges env s rq =
      if has_data rq
      then after_data sges env (map_data pools sges s.rq_data rq).status
          (with_data s (map_data pools sges s.rq_data rq))
      else queue_metadata sges env s

  abbrev pub new_iod : RqState C → RqState C
  new_iod s =
      let iod = s.rq_data.iod in
      record s { rq_data = (record s.rq_data { iod = (record iod { npages = negsuc 0 }) }) }

  abbrev pub answered : RqState C → Status → RqState C
  answered s status = record s { status = status }

  -- A set-up that fails has cleaned up after itself.
  unfoldable pub after_setup : Pools → ℕ → RqEnv C → Status → RqState C → Rq → RqState C
  unfolding queue_data
  after_setup pools sges env sts_ok s rq = queue_data pools sges env (happened s set_up) rq
  after_setup pools sges env _ s rq = s

  abbrev pub setup : RqEnv C → RqState C → RqState C
  setup env s =
      let (status, cmd) = env.setup_cmd in
      record s {
        status = status;
        cmd = cmd;
        rq_data = (record s.rq_data { dptr = cmd.dptr; flags = cmd.flags });
      }

  unfoldable pub queue_rq : Pools → ℕ → RqEnv C → RqState C → Rq → RqState C
  unfolding after_setup
  queue_rq pools sges env s rq =
      let s1 = new_iod s in
      if not env.enabled
      then answered s1 sts_ioerr
      else if not env.ready
      then answered s1 env.fail_nonready_command
      else after_setup pools sges env env.setup_cmd.0 (setup env s1) rq

  unfoldable pub complete_rq : ℕ → RqEnv C → RqState C → Rq → RqState C
  complete_rq sges env s rq =
      let s1 = if env.integrity then happened s (unmap_meta s.meta_dma) else s in
      let s2 = if has_data rq then record s1 { rq_data = unmap_data sges s1.rq_data } else s1 in
      happened s2 complete
