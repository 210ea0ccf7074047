-- ===== src/Transfer/Request/Life.antt =====
-- `nvme_queue_rq` and `nvme_pci_complete_rq`: what a request takes it gives back.
use geminifs_npu_smoke.Prelude.{
  ℕ, ◌-◌, ◌^◌, ◌==◌, ◌≡◌, ◌≢◌, ◌⊎◌, inl, inr, refl, ap, sym, subst, ◌∙◌, true, false, Option, none,
  some, List, [], ◌∷◌, ◌++◌, if◌then◌else◌, Bool-cases, Option-cases, ==_refl,
}
use mathlib.Core.List.{append_assoc}
use geminifs_npu_smoke.NvmeQueue.{NvmeQueue, submit_cmd}
use geminifs_npu_smoke.Transfer.{Pools, Status, sts_ok, sts_resource, sts_ioerr, oops, running}
use geminifs_npu_smoke.Transfer.Lists.{IsPagePool}
use geminifs_npu_smoke.Transfer.Start.{IsSmallPool}
use geminifs_npu_smoke.Transfer.Released.{Frees-none}
use geminifs_npu_smoke.Transfer.Data.{Rq, DataState, map_data, unmap_data}
use geminifs_npu_smoke.Transfer.Data.Balance.{
  IsBalanced, IsFresh, IsMappable, steps, map_data-Balances,
}
use geminifs_npu_smoke.Transfer.Request.{
  RqEvent, set_up, clean_up, start, complete, map_meta, unmap_meta, Command, RqEnv, RqState,
  happened, with_meta, map_metadata, start_rq, has_data, after_metadata, queue_metadata, after_data,
  with_data, queue_data, new_iod, answered, after_setup, setup, queue_rq, complete_rq,
}

-- Where a request is, with the metadata that is mapped for it.
pub data Stage : Type 0 where
  idle : Stage
  prepared started : Option ℕ → Stage

-- One step, none where it is out of order or unmaps what is not mapped.
unfoldable pub advance : RqEvent → Stage → Option Stage
advance set_up idle = some (prepared none)
advance (map_meta a) (prepared none) = some (prepared (some a))
advance start (prepared m) = some (started m)
advance (unmap_meta a) (started (some b)) = if a == b then some (started none) else none
advance complete (started none) = some idle
advance clean_up (prepared none) = some idle
advance _ _ = none

unfoldable pub run_trace : List RqEvent → Stage → Option Stage
unfolding advance
run_trace [] o = some o
run_trace (e ∷ es) o = elim (advance e o) [ none ↦ none | some o' ↦ run_trace es o' ]

fresh-IsBalanced : (pools : Pools) (d : DataState) → IsFresh d → IsBalanced pools d
unfolding steps
fresh-IsBalanced pools d fresh = record {
  ends = rw fresh.no_events refl;
  released = rw (fresh.none_taken, fresh.none_freed) (inl (Frees-none pools.prp_small_pool));
}

module _ {C : Type 0} where
  -- Nothing of the request is left.
  pub record IsOver (pools : Pools) (s : RqState C) : Type 0 where
    pub over : run_trace s.trace idle ≡ some idle
    pub data_over : IsBalanced pools s.rq_data

  pub record IsUnqueued (s : RqState C) : Type 0 where
    pub no_trace : s.trace ≡ []
    pub no_events : s.rq_data.events ≡ []
    pub none_freed : s.rq_data.freed ≡ []
    pub none_taken : s.rq_data.taken ≡ 0

  -- Either the command is submitted, and the request is over once it is completed, or nothing is
  -- submitted and it is over at once.
  abbrev pub Lives : Pools → ℕ → RqEnv C → RqState C → Rq → RqState C → Type 0
  Lives pools sges env s rq r =
      ((r.status ≡ sts_ok)
        × (r.queue
            ≡ submit_cmd s.queue (record r.cmd { dptr = r.rq_data.dptr; flags = r.rq_data.flags })
                env.last)
        × IsOver pools (complete_rq sges env r rq))
      ⊎ (((r.status ≢ sts_ok) ⊎ (env.ready ≡ false)) × (r.queue ≡ s.queue) × IsOver pools r)

  module _ (pools : Pools) (sges : ℕ) (env : RqEnv C) (s : RqState C) (rq : Rq) where
    -- What the data comes to once it is unmapped, if there is any.
    abbrev Undone : DataState → Type 0
    Undone d = IsBalanced pools (if has_data rq then unmap_data sges d else d)

    undone_complete :
        (r : RqState C)
        → (complete_rq sges env r rq).rq_data
          ≡ (if has_data rq then unmap_data sges r.rq_data else r.rq_data)
    unfolding complete_rq
    undone_complete r = elim (Bool-cases env.integrity) [
      | inl meta ↦ elim (Bool-cases (has_data rq)) [
        | inl some_data ↦ rw (meta, some_data, complete_rq) refl
        | inr no_data ↦ rw (meta, no_data, complete_rq) refl
      ]
      | inr plain ↦ elim (Bool-cases (has_data rq)) [
        | inl some_data ↦ rw (plain, some_data, complete_rq) refl
        | inr no_data ↦ rw (plain, no_data, complete_rq) refl
      ]
    ]

    abbrev unmaps : RqState C → List RqEvent
    unmaps r = if env.integrity then unmap_meta r.meta_dma ∷ complete ∷ [] else complete ∷ []

    trace_complete : (r : RqState C) → (complete_rq sges env r rq).trace ≡ r.trace ++ unmaps r
    unfolding complete_rq
    trace_complete r = elim (Bool-cases env.integrity) [
      | inl meta ↦ elim (Bool-cases (has_data rq)) [
        | inl some_data ↦ rw (meta, some_data, complete_rq) (append_assoc r.trace _ _)
        | inr no_data ↦ rw (meta, no_data, complete_rq) (append_assoc r.trace _ _)
      ]
      | inr plain ↦ elim (Bool-cases (has_data rq)) [
        | inl some_data ↦ rw (plain, some_data, complete_rq) refl
        | inr no_data ↦ rw (plain, no_data, complete_rq) refl
      ]
    ]

    meta_back :
        (a : ℕ)
        → run_trace (set_up ∷ map_meta a ∷ start ∷ unmap_meta a ∷ complete ∷ []) idle ≡ some idle
    unfolding run_trace advance
    meta_back a = rw (==_refl a, run_trace, advance) refl

    start-Lives :
        (s' : RqState C)
        → s'.queue ≡ s.queue
        → ((env.integrity ≡ false) × (s'.trace ≡ set_up ∷ []))
          ⊎ ((env.integrity ≡ true) × (s'.trace ≡ set_up ∷ map_meta s'.meta_dma ∷ []))
        → Undone s'.rq_data
        → Lives pools sges env s rq (start_rq env s')
    unfolding start_rq complete_rq run_trace advance
    start-Lives s' same which undone =
        let r = start_rq env s' in
        inl (
          refl,
          ap
              (λ (q : NvmeQueue (Command C)).
                submit_cmd q (record s'.cmd { dptr = s'.rq_data.dptr; flags = s'.rq_data.flags })
                  env.last)
              same,
          record {
            over = ap (λ (es : List RqEvent). run_trace es idle) (trace_complete r) ∙ elim which [
              | inl (plain, tr) ↦ rw (plain, tr) refl
              | inr (meta, tr) ↦ rw (meta, tr) (meta_back s'.meta_dma)
            ];
            data_over =
                subst (λ (d : DataState). IsBalanced pools d) (sym (undone_complete r)) undone;
          },
        )

    via : {r r' : RqState C} → r ≡ r' → Lives pools sges env s rq r' → Lives pools sges env s rq r
    via e lives = subst (λ (r : RqState C). Lives pools sges env s rq r) (sym e) lives

    -- With the data mapped, if there is any.
    queue_metadata-Lives :
        (s' : RqState C)
        → (env.integrity ≡ false) ⊎ (has_data rq ≡ true)
        → s'.queue ≡ s.queue
        → s'.trace ≡ set_up ∷ []
        → Undone s'.rq_data
        → Lives pools sges env s rq (queue_metadata sges env s')
    unfolding queue_metadata after_metadata map_metadata run_trace advance
    queue_metadata-Lives s' meta_has same tr undone = elim (Bool-cases env.integrity) [
      | inr plain ↦
          via (rw (plain, queue_metadata) refl) (start-Lives s' same (inl (plain, tr)) undone)
      | inl meta ↦
          let steps : queue_metadata sges env s'
              ≡ after_metadata sges env (map_metadata env s').status (map_metadata env s') =
            rw (meta, queue_metadata) refl in
          elim (Option-cases env.dma_map_bvec) [
            | inr (addr, mapped) ↦
                let maps : map_metadata env s' ≡ with_meta s' addr =
                  rw (mapped, map_metadata) refl in
                via (steps ∙ ap (λ (r : RqState C). after_metadata sges env r.status r) maps) (
                  start-Lives (with_meta s' addr) same
                    (inr (meta, ap (λ (es : List RqEvent). es ++ map_meta addr ∷ []) tr)) undone)
            | inl bad ↦
                let has : has_data rq ≡ true = elim meta_has [
                  | inl plain ↦ absurd (cc (plain, meta))
                  | inr has ↦ has
                ] in
                let failed = record s' { status = sts_ioerr; meta_dma = 2 ^ 64 - 1 } in
                let fails : map_metadata env s' ≡ failed = rw (bad, map_metadata) refl in
                via (steps ∙ ap (λ (r : RqState C). after_metadata sges env r.status r) fails) (
                  inr (
                    inl (λ e. cc e),
                    same,
                    record {
                      over = ap (λ (es : List RqEvent). run_trace (es ++ clean_up ∷ []) idle) tr;
                      data_over = rw has at undone;
                    },
                  ))
          ]
    ]

    module _ (small : IsSmallPool pools.prp_small_pool)
        (pages : IsPagePool pools.prp_page_pool) where
      mappable :
          (has_data rq ≡ false) ⊎ IsMappable sges rq → has_data rq ≡ true → IsMappable sges rq
      mappable (inl none_there) has = absurd (cc (has, none_there))
      mappable (inr ok) has = ok

      queue_data-Lives :
          (s' : RqState C)
          → (env.integrity ≡ false) ⊎ (has_data rq ≡ true)
          → (has_data rq ≡ false) ⊎ IsMappable sges rq
          → s'.queue ≡ s.queue
          → s'.trace ≡ set_up ∷ []
          → IsFresh s'.rq_data
          → Lives pools sges env s rq (queue_data pools sges env s' rq)
      unfolding queue_data after_data run_trace advance
      queue_data-Lives s' meta_has ok same tr fresh = elim (Bool-cases (has_data rq)) [
        | inr no_data ↦ via (rw (no_data, queue_data) refl) (
            queue_metadata-Lives s' meta_has same tr
              (rw no_data (fresh-IsBalanced pools s'.rq_data fresh)))
        | inl has ↦
            let d = map_data pools sges s'.rq_data rq in
            let steps : queue_data pools sges env s' rq
                ≡ after_data sges env d.status (with_data s' d) =
              rw (has, queue_data) refl in
            elim (map_data-Balances pools sges small pages s'.rq_data fresh rq (mappable ok has)) [
              | inl (failed, balanced) ↦
                  via (steps ∙ ap (λ (t : Status). after_data sges env t (with_data s' d)) failed) (
                    inr (
                      inl (λ e. cc (e, failed)),
                      same,
                      record {
                        over = ap (λ (es : List RqEvent). run_trace (es ++ clean_up ∷ []) idle) tr;
                        data_over = balanced;
                      },
                    ))
              | inr (fine, balanced) ↦
                  via (steps ∙ ap (λ (t : Status). after_data sges env t (with_data s' d)) fine)
                    (queue_metadata-Lives (with_data s' d) meta_has same tr (rw has balanced))
            ]
      ]

      -- A call that went no further than the set-up.
      early-Lives :
          (r : RqState C)
          → (r.status ≢ sts_ok) ⊎ (env.ready ≡ false)
          → r.queue ≡ s.queue
          → r.trace ≡ []
          → IsFresh r.rq_data
          → Lives pools sges env s rq r
      unfolding run_trace
      early-Lives r why same tr fresh = inr (
        why,
        same,
        record {
          over = ap (λ (es : List RqEvent). run_trace es idle) tr;
          data_over = fresh-IsBalanced pools r.rq_data fresh;
        },
      )

      module _ (meta_has : (env.integrity ≡ false) ⊎ (has_data rq ≡ true)) where
        module _ (ok : (has_data rq ≡ false) ⊎ IsMappable sges rq) where
          after_setup-Lives :
              (t : Status) (s' : RqState C)
              → s'.status ≡ t
              → s'.queue ≡ s.queue
              → s'.trace ≡ []
              → IsFresh s'.rq_data
              → Lives pools sges env s rq (after_setup pools sges env t s' rq)
          unfolding after_setup
          after_setup-Lives sts_ok s' is same tr fresh =
              queue_data-Lives (happened s' set_up) meta_has ok same
                (ap (λ (es : List RqEvent). es ++ set_up ∷ []) tr) fresh
          after_setup-Lives sts_resource s' is same tr fresh =
              early-Lives s' (inl (λ e. cc (e, is))) same tr fresh
          after_setup-Lives sts_ioerr s' is same tr fresh =
              early-Lives s' (inl (λ e. cc (e, is))) same tr fresh
          after_setup-Lives oops s' is same tr fresh =
              early-Lives s' (inl (λ e. cc (e, is))) same tr fresh
          after_setup-Lives running s' is same tr fresh =
              early-Lives s' (inl (λ e. cc (e, is))) same tr fresh

          -- A request that was not queued yet, whose data is mappable and which has data if it has
          -- integrity metadata, with pools whose memory is aligned and, for pages, not given out
          -- twice: where `nvme_queue_rq` puts a command on the ring, it is the one with the data
          -- pointer and flags that were set up, the answer is BLK_STS_OK, and after `nvme_pci_complete_rq`
          -- the request is over: its metadata, if it has any, was mapped before and unmapped after
          -- its command was started, what was mapped or taken for its data is given back in order,
          -- and each list that a pool gave is freed once under its own address. Else the ring is
          -- as it was, the request is over at once, and the answer is not BLK_STS_OK unless the
          -- controller was not ready.
          pub queue_rq-Lives :
              IsUnqueued s → Lives pools sges env s rq (queue_rq pools sges env s rq)
          unfolding queue_rq
          queue_rq-Lives new =
              let fresh : IsFresh (new_iod s).rq_data = record {
                no_events = new.no_events;
                none_freed = new.none_freed;
                none_taken = new.none_taken;
                no_lists = refl;
              } in
              elim (Bool-cases env.enabled) [
                | inr off ↦ via (rw (off, queue_rq) refl) (
                    early-Lives (answered (new_iod s) sts_ioerr) (inl (λ e. cc e)) refl new.no_trace
                      fresh)
                | inl on ↦ elim (Bool-cases env.ready) [
                  | inr busy ↦
                      via {r' = answered (new_iod s) env.fail_nonready_command}
                        (rw (on, busy, queue_rq) refl)
                        (early-Lives _ (inr busy) refl new.no_trace fresh)
                  | inl ready ↦
                      via
                        {r' = after_setup pools sges env env.setup_cmd.0 (setup env (new_iod s)) rq}
                        (rw (on, ready, queue_rq) refl)
                        (after_setup-Lives env.setup_cmd.0 (setup env (new_iod s)) refl refl
                          new.no_trace
                          (record {
                            no_events = new.no_events;
                            none_freed = new.none_freed;
                            none_taken = new.none_taken;
                            no_lists = refl;
                          }))
                ]
              ]
