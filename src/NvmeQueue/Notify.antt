-- ===== src/NvmeQueue/Notify.antt =====
-- When the shadow doorbells ask for an MMIO: `nvme_dbbuf_need_event` against the values that the
-- doorbell passes.
use geminifs_npu_smoke.Prelude.{ℕ, ◌+◌, ◌-◌, ◌%◌, ◌^◌, ◌<◌, ◌≡◌, ◌↔◌, true, arith, ltb→lt, u16}
use geminifs_npu_smoke.NvmeQueue.{dbbuf_need_event}

-- Whether a doorbell that goes from `old` to `new_idx`, one step at a time and modulo 2 ^ 16,
-- leaves the value `event_idx` behind.
pub Passes : ℕ → ℕ → ℕ → Type 0
Passes event_idx new_idx old =
    (i : ℕ) × (i < (new_idx + 2 ^ 16 - old) % 2 ^ 16) × (event_idx ≡ u16 (old + i))

-- On 16-bit values, `nvme_dbbuf_need_event` asks for an MMIO exactly when the doorbell, stepping
-- from the old to the new value modulo 2 ^ 16, leaves the event index behind.
pub need_event_iff :
    (event_idx new_idx old : ℕ)
    → event_idx < 2 ^ 16
    → new_idx < 2 ^ 16
    → old < 2 ^ 16
    → (dbbuf_need_event event_idx new_idx old ≡ true) ↔ Passes event_idx new_idx old
unfolding dbbuf_need_event Passes
need_event_iff event_idx new_idx old e n o = (
  λ asked.
      let l =
        ltb→lt ((new_idx + 2 ^ 32 - event_idx - 1) % 2 ^ 16) ((new_idx + 2 ^ 32 - old) % 2 ^ 16)
          asked in
      ((event_idx + 2 ^ 16 - old) % 2 ^ 16, omega arith, omega arith),
  λ (i, l, same). ground (arith, same),
)
