-- ===== src/Tests/Queues.antt =====
-- Witnesses for the rings of a queue.
use geminifs_npu_smoke.Prelude.{
  ℕ, ◌+◌, ◌≡◌, ◌↔◌, refl, ap, sym, Option, true, false, none, some, List, [], ◌∷◌, ◌++◌, arith,
  length, ◌==◌, if◌then◌else◌,
}
use geminifs_npu_smoke.State.{ok}
use geminifs_npu_smoke.NvmeQueue.{
  NvmeQueue, dbbuf_need_event, dbbuf_update_and_check_event, next_slot, publish, write_sq_db,
  push_cmd, submit_cmd,
}
use geminifs_npu_smoke.NvmeQueue.Window.{slot, distance, window}
use geminifs_npu_smoke.NvmeQueue.Notify.{Passes, need_event_iff}
use geminifs_npu_smoke.NvmeQueue.Submit.{held, IsRing, Announced}
use geminifs_npu_smoke.NvmeQueue.Feed.{
  Op, submit, set_event, do_op, doorbell, handed, run, replay, AllWoken, run-Refines,
}
use geminifs_npu_smoke.NvmeQueue.Fifo.{submitted, StartsWith, run_in_order, run_hands_over}
use geminifs_npu_smoke.NvmeQueue.Completion.{
  Cqe, Tags, cqe_pending, update_cq_head, drain, process_cq,
}
use geminifs_npu_smoke.NvmeQueue.Completion.Drain.{IsCq}
use geminifs_npu_smoke.NvmeQueue.Completion.Reap.{Reaped}
use geminifs_npu_smoke.NvmeQueue.Completion.Process.{HeadAnnounced, process_cq-Reaps}
use geminifs_npu_smoke.NvmeQueue.Init.{dbbuf_dma_alloc, Dbbuf, alloc_queue, init_queue}
use geminifs_npu_smoke.NvmeQueue.Fresh.{dbbuf_dma_alloc-IsQuiet, IsQuiet, init_queue-Serves}

need_event_iff_example : (dbbuf_need_event 65535 2 65534 ≡ true) ↔ Passes 65535 2 65534
need_event_iff_example = need_event_iff 65535 2 65534 (omega arith) (omega arith) (omega arith)

-- A ring of four slots whose tail is about to wrap, with one command that waits.
abbrev queue4 : NvmeQueue ℕ
queue4 = record {
  qid = 1;
  q_depth = 4;
  sq_tail = 3;
  last_sq_tail = 2;
  cq_head = 3;
  cq_phase = 1;
  sq_cmds = λ i. some (i + 100);
  sq_doorbell = 2;
  cq_doorbell = 3;
  dbbuf_sq_db = some 2;
  dbbuf_cq_db = none;
  dbbuf_sq_ei = 0;
  dbbuf_cq_ei = 0;
}

queue4-IsRing : IsRing queue4
unfolding distance
queue4-IsRing = record {
  two_le = omega arith;
  fits = omega arith;
  tail_lt = omega arith;
  last_lt = omega arith;
  room = omega arith;
}

abbrev three_ops : List (Op ℕ)
three_ops = submit 7 false ∷ set_event 1 ∷ submit 8 false ∷ submit 9 true ∷ []

queue4-Announced : Announced queue4
unfolding Announced
queue4-Announced = refl

run-Refines_example :
    (((run queue4 three_ops).1, held (run queue4 three_ops).0) ≡ replay 4 (held queue4) three_ops)
    × IsRing (run queue4 three_ops).0
    × AllWoken queue4 three_ops
run-Refines_example = run-Refines queue4 three_ops queue4-IsRing queue4-Announced

-- The second submission fills the ring but for one slot, and the third asks for the doorbell.
run_test : (run queue4 three_ops).1 ≡ some 102 ∷ some 7 ∷ some 8 ∷ some 9 ∷ []
unfolding run handed doorbell dbbuf_update_and_check_event window distance do_op submit_cmd
    write_sq_db next_slot push_cmd publish slot
run_test = refl

run_in_order_example :
    ((run queue4 three_ops).1 ++ held (run queue4 three_ops).0 ≡ held queue4 ++ submitted three_ops)
    × AllWoken queue4 three_ops
run_in_order_example = run_in_order queue4 three_ops queue4-IsRing queue4-Announced

run_hands_over_example :
    StartsWith (run queue4 three_ops).1 (held queue4) × AllWoken queue4 three_ops
unfolding submitted
run_hands_over_example =
    run_hands_over queue4 three_ops queue4-IsRing queue4-Announced (omega arith)

-- The device has posted the last slot and, after its wrap, the first two.
abbrev posted : ℕ → Cqe
posted i =
    if i == 0
    then record { status = 0; command_id = 5 }
    else if i == 1
    then record { status = 4; command_id = 6 }
    else record { status = 1; command_id = 4 }

abbrev tags0 : Tags
tags0 = record { tag_to_rq = λ t. some (record { name = t; genctr = 0 }); aq_blk_mq_depth = 31 }

queue4-IsCq : IsCq queue4
queue4-IsCq = record { fits = omega arith; head_lt = omega arith; phase_le = omega arith }

process_cq-Reaps_example :
    Reaped tags0 posted queue4 (process_cq tags0 posted queue4)
    × (cqe_pending posted (process_cq tags0 posted queue4).0 ≡ false)
    × HeadAnnounced (process_cq tags0 posted queue4).0
unfolding HeadAnnounced
process_cq-Reaps_example = process_cq-Reaps tags0 posted queue4 queue4-IsCq refl

process_cq_test : length (process_cq tags0 posted queue4).1 ≡ 3
unfolding process_cq drain cqe_pending update_cq_head
process_cq_test = refl

-- A queue as `kzalloc` leaves it.
abbrev blank : NvmeQueue ℕ
blank = record {
  qid = 0;
  q_depth = 0;
  sq_tail = 0;
  last_sq_tail = 0;
  cq_head = 0;
  cq_phase = 0;
  sq_cmds = λ i. none;
  sq_doorbell = 0;
  cq_doorbell = 0;
  dbbuf_sq_db = none;
  dbbuf_cq_db = none;
  dbbuf_sq_ei = 0;
  dbbuf_cq_ei = 0;
}

abbrev zeros : ℕ → ℕ
zeros i = 0

abbrev zero_dbbuf : Option Dbbuf
zero_dbbuf = some (record { dbs = zeros; eis = zeros })

alloc_queue_test : (alloc_queue true true zeros 1 1 blank 1 4).0 ≡ ok
unfolding alloc_queue
alloc_queue_test = refl

zeros-IsQuiet : IsQuiet zeros zero_dbbuf
unfolding dbbuf_dma_alloc
zeros-IsQuiet =
    dbbuf_dma_alloc-IsQuiet zeros (some zeros) (some zeros) (λ i. refl)
      (λ m e i. sym (ap (λ (o : Option (ℕ → ℕ)). elim o [ none ↦ 0 | some n ↦ n i ]) e))

abbrev up1 : NvmeQueue ℕ × (ℕ → Cqe) × ℕ
up1 = init_queue zeros zero_dbbuf 1 1 (alloc_queue true true zeros 1 1 blank 1 4).2 1

init_queue-Serves_example :
    ((run up1.0 three_ops).1 ++ held (run up1.0 three_ops).0 ≡ submitted three_ops)
    × Announced (run up1.0 three_ops).0
    × (process_cq tags0 up1.1 up1.0 ≡ (up1.0, []))
unfolding Announced
init_queue-Serves_example =
    init_queue-Serves zeros 1 1 blank 1 4 true true zero_dbbuf 1 tags0 three_ops (omega arith)
      (omega arith) (omega arith) refl zeros-IsQuiet alloc_queue_test
