-- ===== src/QidPool.antt =====
-- pci.c, "B3 user-QID pool management": `snvm_user_qid_pool_init_locked`,
-- `snvm_user_qid_alloc_locked` and `snvm_user_qid_free_locked`, over the pool fields of `ctrl`.
-- A bitmap is a function from bit numbers; `unsigned int` wraps.
pub mod Create
pub mod Alloc
pub mod Free
pub mod Count
use geminifs_npu_smoke.Prelude.{
  ℕ, zero, suc, ◌+◌, ◌≡◌, Bool, true, false, ◌||◌, Option, none, some, List, [], ◌∷◌, map, update,
  add32, sub32, u16, ltb, leb, ◌==◌, if◌then◌else◌, mem,
}
use geminifs_npu_smoke.State.{Rc, ok, err, enodev, enomem, ebusy, eagain, Ctrl, NvmeDev, Kernel}

abbrev pub Bitmap : Type 0
Bitmap = ℕ → Bool

abbrev pub set_bit : Bitmap → ℕ → Bitmap
set_bit bm b = update bm b true

abbrev pub clear_bit : Bitmap → ℕ → Bitmap
clear_bit bm b = update bm b false

-- A bitmap that was never allocated has no bits.
abbrev pub bits : Ctrl → Bitmap
bits c = elim c.user_qid_bitmap [ none ↦ (λ b. false) | some bm ↦ bm ]

-- The guards after the first, in their order, and the fresh bitmap. `room` is the answer of kcalloc.
unfoldable pub pool_create : Ctrl → NvmeDev → Bool → Rc × Ctrl
pool_create c ndev room =
    if ndev.online_queues == 0 || ndev.nr_allocated_queues == 0
    then (err enodev, c)
    else if ndev.ctrl_max_io_queues == 0
    then (err enodev, c)
    else if ltb ndev.ctrl_max_io_queues ndev.online_queues
    then (err ebusy, c)
    else if room
    then (
      ok,
      record c {
        user_qid_first = ndev.online_queues;
        user_qid_last = ndev.ctrl_max_io_queues;
        user_qid_bitmap = some (λ b. false);
      },
    )
    else (err enomem, c)

unfoldable pub pool_init : Ctrl → Option NvmeDev → Bool → Rc × Ctrl
unfolding pool_create
pool_init c ndev room = elim c.user_qid_bitmap [
  | some bm ↦ (ok, c)
  | none ↦ elim ndev [ none ↦ (err enodev, c) | some dev ↦ pool_create c dev room ]
]

-- A pool that is there already is left as it is.
pub pool_init-ready :
    (c : Ctrl) (ndev : Option NvmeDev) (room : Bool) {bm : Bitmap}
    → c.user_qid_bitmap ≡ some bm
    → pool_init c ndev room ≡ (ok, c)
unfolding pool_init
pool_init-ready c ndev room ready = simp (ready, pool_init)

-- The roll back: `clear_bit(qids_out[i] - first)`, the newest QID first.
unfoldable pub clear_all : ℕ → Bitmap → List ℕ → Bitmap
clear_all first bm [] = bm
clear_all first bm (q ∷ qs) = clear_all first (clear_bit bm (sub32 q first)) qs

pub record Allocation : Type 0 where
  pub rc : Rc
  pub bitmap : Bitmap
  -- `qids_out` from the round on.
  pub qids : List ℕ

-- The loop, over the rounds left and the QIDs taken so far, newest first.
unfoldable pub alloc_loop : Kernel → ℕ → ℕ → ℕ → Bitmap → List ℕ → Allocation
alloc_loop k first size zero bm taken = record { rc = ok; bitmap = bm; qids = [] }
alloc_loop k first size (suc n) bm taken =
    let bit = k.find_first_zero_bit bm size in
    let qid = u16 (add32 first bit) in
    let rest = alloc_loop k first size n (set_bit bm bit) (qid ∷ taken) in
    if leb size bit
    then record { rc = err eagain; bitmap = clear_all first bm taken; qids = [] }
    else record rest { qids = qid ∷ rest.qids }

abbrev pub pool_size : Ctrl → ℕ
pool_size c = add32 (sub32 c.user_qid_last c.user_qid_first) 1

abbrev pub with_bits : Ctrl → Bitmap → Ctrl
with_bits c bm = record c { user_qid_bitmap = some bm }

-- The return value, the controller, and `qids_out`.
unfoldable pub alloc : Kernel → Ctrl → ℕ → Rc × Ctrl × List ℕ
unfolding alloc_loop
alloc k c nr =
    let r = alloc_loop k c.user_qid_first (pool_size c) nr (bits c) [] in
    (r.rc, with_bits c r.bitmap, r.qids)

-- `test_and_clear_bit` on the bitmap, which is there once a QID was handed out.
unfoldable pub free : Ctrl → ℕ → Ctrl
free c qid =
    if ltb qid c.user_qid_first || ltb c.user_qid_last qid then c else elim c.user_qid_bitmap [
      | none ↦ c
      | some bm ↦ with_bits c (clear_bit bm (sub32 qid c.user_qid_first))
    ]

-- `for (i = 0; i < alloc_n; i++) snvm_user_qid_free_locked(ctrl, qids[i])`
unfoldable pub free_all : Ctrl → List ℕ → Ctrl
free_all c [] = c
free_all c (q ∷ qs) = free_all (free c q) qs

-- The pool is not empty and lies within the 16 bits of a QID.
pub record IsPool (c : Ctrl) : Type 0 where
  pub first_le_last : ltb c.user_qid_last c.user_qid_first ≡ false
  pub last_lt : ltb c.user_qid_last 65536 ≡ true

-- Whether the pool counts a QID as handed out.
abbrev pub in_use : Ctrl → ℕ → Bool
in_use c q = bits c (sub32 q c.user_qid_first)
