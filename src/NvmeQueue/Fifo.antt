-- ===== src/NvmeQueue/Fifo.antt =====
-- What sequences of submissions and commits promise: no command is lost, doubled or reordered, and
-- none waits for ever.
use mathlib.Core.List.{append_assoc, append-nil}
use geminifs_npu_smoke.Prelude.{
  ℕ, ◌+◌, ◌≤◌, ◌≡◌, refl, ap, sym, ◌∙◌, inl, inr, ◌||◌, Option, some, List, [], ◌∷◌, ◌++◌, arith,
  ◌==◌, length, Bool-cases, length-append,
}
use geminifs_npu_smoke.NvmeQueue.{NvmeQueue}
use geminifs_npu_smoke.NvmeQueue.Submit.{held, held_count, IsRing, Announced}
use geminifs_npu_smoke.NvmeQueue.Feed.{
  Op, submit, commit, set_event, do_op, run, replay, length-held, run-Refines, do_op-IsRing,
  AllWoken, run-AllWoken, do_op-Announced,
}

module _ {C : Type 0} where
  unfoldable pub submitted : List (Op C) → List (Option C)
  submitted [] = []
  submitted (submit cmd last ∷ ops) = some cmd ∷ submitted ops
  submitted (commit ∷ ops) = submitted ops
  submitted (set_event ei ∷ ops) = submitted ops

  replay_in_order :
      (depth : ℕ) (waiting : List (Option C)) (ops : List (Op C))
      → (replay depth waiting ops).0 ++ (replay depth waiting ops).1 ≡ waiting ++ submitted ops
  unfolding replay submitted
  replay_in_order depth waiting [] = sym (append-nil waiting)
  replay_in_order depth waiting (submit cmd last ∷ ops) =
      elim (Bool-cases (last || (length waiting + 2 == depth))) [
        | inl h ↦ rw h (
            append_assoc (waiting ++ (some cmd ∷ [])) (replay depth [] ops).0
              (replay depth [] ops).1
            ∙ ap (λ (xs : List (Option C)). (waiting ++ (some cmd ∷ [])) ++ xs)
                (replay_in_order depth [] ops)
            ∙ append_assoc waiting (some cmd ∷ []) (submitted ops))
        | inr h ↦ rw h (
            replay_in_order depth (waiting ++ (some cmd ∷ [])) ops
            ∙ append_assoc waiting (some cmd ∷ []) (submitted ops))
      ]
  replay_in_order depth waiting (commit ∷ ops) =
      append_assoc waiting (replay depth [] ops).0 (replay depth [] ops).1
      ∙ ap (λ (xs : List (Option C)). waiting ++ xs) (replay_in_order depth [] ops)
  replay_in_order depth waiting (set_event ei ∷ ops) = replay_in_order depth waiting ops

  -- Whether `xs` starts with `ys`.
  pub StartsWith : List (Option C) → List (Option C) → Type 0
  StartsWith xs ys = (rest : List (Option C)) × (xs ≡ ys ++ rest)

  replay_hands :
      (depth : ℕ) (waiting : List (Option C)) (ops : List (Op C))
      → length waiting + 2 ≤ depth
      → depth ≤ length waiting + length (submitted ops) + 1
      → StartsWith (replay depth waiting ops).0 waiting
  unfolding replay submitted StartsWith
  replay_hands depth waiting [] room enough = absurd (omega arith)
  replay_hands depth waiting (submit cmd last ∷ ops) room enough =
      elim (Bool-cases (last || (length waiting + 2 == depth))) [
        | inl h ↦ (
          some cmd ∷ (replay depth [] ops).0,
          rw h (append_assoc waiting (some cmd ∷ []) (replay depth [] ops).0),
        )
        | inr h ↦
            let more = waiting ++ (some cmd ∷ []) in
            let long = length-append waiting (some cmd ∷ []) in
            let rest = replay_hands depth more ops (ground (arith, long)) (omega (arith, long)) in
            (some cmd ∷ rest.0, rw h (rest.1 ∙ append_assoc waiting (some cmd ∷ []) rest.0))
      ]
  replay_hands depth waiting (commit ∷ ops) room enough = ((replay depth [] ops).0, refl)
  replay_hands depth waiting (set_event ei ∷ ops) room enough =
      replay_hands depth waiting ops room enough

  module _ (q : NvmeQueue C) (ops : List (Op C)) (ring : IsRing q) (a : Announced q) where
    -- From a ring whose indices are in bounds and whose doorbell holds the last published tail, over
    -- any sequence of submissions, commits and event indices: the commands that the doorbell of the
    -- device, shadow or register, moves past, followed by those still waiting, are those that waited
    -- at the start followed by those submitted, so that none is lost, overwritten, doubled or
    -- reordered; and each operation that moves the doorbell writes the register, unless a shadow
    -- doorbell is there and the move does not pass the event index.
    pub run_in_order :
        ((run q ops).1 ++ held (run q ops).0 ≡ held q ++ submitted ops) × AllWoken q ops
    run_in_order = (
      ap (λ (p : List (Option C) × List (Option C)). p.0 ++ p.1) (run-Refines q ops ring a).0
          ∙ replay_in_order q.q_depth (held q) ops,
      run-AllWoken q ops ring a,
    )

    -- From a ring whose indices are in bounds and whose doorbell holds the last published tail, once
    -- as many commands have been submitted as fill the ring but for one slot, the doorbell of the
    -- device, shadow or register, has moved past those that waited at the start, before any other,
    -- whether or not a submission asked for the doorbell or a commit came; and each operation that
    -- moves the doorbell writes the register, unless a shadow doorbell is there and the move does not
    -- pass the event index.
    pub run_hands_over :
        q.q_depth ≤ held_count q + length (submitted ops) + 1
        → StartsWith (run q ops).1 (held q) × AllWoken q ops
    unfolding StartsWith
    run_hands_over enough =
        let long = length-held q in
        let out = replay_hands q.q_depth (held q) ops (rw long ring.room) (rw long enough) in
        (
          (
            out.0,
            ap (λ (p : List (Option C) × List (Option C)). p.0) (run-Refines q ops ring a).0
                ∙ out.1,
          ),
          run-AllWoken q ops ring a,
        )

  -- From a ring whose indices are in bounds and whose doorbell holds the last published tail, the
  -- doorbell that the device reads, shadow or register, holds it after every sequence of
  -- submissions, commits and event indices.
  pub run-Announced :
      (q : NvmeQueue C) (ops : List (Op C)) → IsRing q → Announced q → Announced (run q ops).0
  unfolding run
  run-Announced q [] ring a = a
  run-Announced q (op ∷ ops) ring a =
      run-Announced (do_op q op) ops (do_op-IsRing q op ring) (do_op-Announced q op ring a)
