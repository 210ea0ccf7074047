-- ===== src/NpuP2p/Outcome.antt =====
-- What one call of `nvfs_nvidia_p2p_dma_map_pages` comes to.
use geminifs_npu_smoke.Prelude.{
  ℕ, ◌+◌, ◌≡◌, refl, inl, inr, ◌⊎◌, not, List, arith, Bool-cases, ==_refl,
}
use geminifs_npu_smoke.State.{Errno}
use geminifs_npu_smoke.Scatter.{Segment}
use geminifs_npu_smoke.NpuP2p.{DmaMapping, Holding, DmaBufs, incr, decr, new_mapping, map_dmabuf}

-- The same references, attachments, tables and number of objects.
pub record SameHeld (h h' : Holding) : Type 0 where
  pub refs : (x : ℕ) → h'.refs x ≡ h.refs x
  pub attached : (x : ℕ) → h'.attached x ≡ h.attached x
  pub tables : (x : ℕ) → h'.tables x ≡ h.tables x
  pub objects : h'.objects ≡ h.objects

pub SameHeld-refl : (h : Holding) → SameHeld h h
SameHeld-refl h = record {
  refs = λ x. refl;
  attached = λ x. refl;
  tables = λ x. refl;
  objects = refl;
}

pub Sum-cases : {A B : Type 0} (s : A ⊎ B) → ((a : A) × (s ≡ inl a)) ⊎ ((b : B) × (s ≡ inr b))
Sum-cases (inl a) = inl (a, refl)
Sum-cases (inr b) = inr (b, refl)

-- A mapping that was made, and what it holds.
pub record Mapped (env : DmaBufs) (h : Holding) (peer b n : ℕ) (m : DmaMapping) (h' : Holding)
    : Type 0 where
  pub attachment : ℕ
  pub table : ℕ
  pub sgl : List Segment
  pub attaches : env.dma_buf_attach b peer ≡ inr attachment
  pub maps : env.dma_buf_map_attachment attachment ≡ inr (table, sgl)
  pub mapping : m ≡ new_mapping n attachment table sgl
  pub refs : h'.refs ≡ h.refs
  pub attached : h'.attached ≡ incr h.attached attachment
  pub tables : h'.tables ≡ incr h.tables table
  pub objects : h'.objects ≡ h.objects + 2

abbrev pub MapOutcome : DmaBufs → Holding → ℕ → ℕ → ℕ → (Errno ⊎ DmaMapping) × Holding → Type 0
MapOutcome env h peer b n r =
    ((e : Errno) × (r.0 ≡ inl e) × SameHeld h r.1)
    ⊎ ((m : DmaMapping) × (r.0 ≡ inr m) × Mapped env h peer b n m r.1)

decr-incr : (f : ℕ → ℕ) (a x : ℕ) → decr (incr f a) a x ≡ f x
decr-incr f a x = ground (arith, ==_refl a)

module _ (env : DmaBufs) (h : Holding) (peer b n : ℕ) where
  pub map_dmabuf-Outcome : MapOutcome env h peer b n (map_dmabuf env h peer b n)
  unfolding map_dmabuf
  map_dmabuf-Outcome = elim (Bool-cases (not env.kzalloc)) [
    | inl full ↦ rw full (inl (_, refl, SameHeld-refl h))
    | inr room ↦ rw room (elim (Bool-cases (not env.kcalloc)) [
      | inl full ↦ rw full (
          inl (
            _,
            refl,
            record {
              refs = λ x. refl;
              attached = λ x. refl;
              tables = λ x. refl;
              objects = omega arith;
            },
          ))
      | inr room ↦ rw room (elim (Sum-cases (env.dma_buf_attach b peer)) [
        | inl (e, bad) ↦ rw bad (
            inl (
              e,
              refl,
              record {
                refs = λ x. refl;
                attached = λ x. refl;
                tables = λ x. refl;
                objects = omega arith;
              },
            ))
        | inr (a, good) ↦ rw good (elim (Sum-cases (env.dma_buf_map_attachment a)) [
          | inl (e, bad) ↦ rw bad (
              inl (
                e,
                refl,
                record {
                  refs = λ x. refl;
                  attached = λ x. decr-incr h.attached a x;
                  tables = λ x. refl;
                  objects = omega arith;
                },
              ))
          | inr ((t, sgl), done) ↦ rw done (
              inr (
                new_mapping n a t sgl,
                refl,
                record {
                  attachment = a;
                  table = t;
                  sgl = sgl;
                  attaches = good;
                  maps = done;
                  mapping = refl;
                  refs = refl;
                  attached = refl;
                  tables = refl;
                  objects = omega arith;
                },
              ))
        ])
      ])
    ])
  ]
