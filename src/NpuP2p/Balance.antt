-- ===== src/NpuP2p/Balance.antt =====
-- Everything that the backend takes for a map it gives back, whichever step fails.
use geminifs_npu_smoke.Prelude.{
  ℕ, ◌+◌, ◌*◌, ◌%◌, ◌^◌, ◌≡◌, refl, ap, sym, ◌∙◌, inl, inr, ◌⊎◌, not, true, false, Option, none,
  some, List, [], ◌∷◌, arith, ◌==◌, if◌then◌else◌, Bool-cases, length, ==_iff,
}
use geminifs_npu_smoke.State.{Errno, Rc, ok, err}
use geminifs_npu_smoke.NpuP2p.{
  PageTable, DmaMapping, Holding, DmaBufs, entries_of, get_pages, dma_map_pages, decr, incr,
  dma_unmap_pages, put_pages, new_mapping,
}
use geminifs_npu_smoke.NpuP2p.Outcome.{
  SameHeld, SameHeld-refl, Sum-cases, Mapped, MapOutcome, map_dmabuf-Outcome,
}

-- The loop of map.c over the devices, each with the answers during its call: it stops at the first
-- device that cannot be mapped.
unfoldable pub map_all : Holding → PageTable → List (ℕ × DmaBufs) → Rc × List DmaMapping × Holding
unfolding dma_map_pages
map_all h pt [] = (ok, [], h)
map_all h pt ((peer, env) ∷ calls) =
    let r = dma_map_pages env h (some peer) (some pt) in
    elim r.0 [
      | inl e ↦ (err e, [], r.1)
      | inr m ↦ let rest = map_all r.1 pt calls in (rest.0, m ∷ rest.1, rest.2)
    ]

unfoldable pub unmap_all : Holding → PageTable → List DmaMapping → Holding
unfolding dma_unmap_pages
unmap_all h pt [] = h
unmap_all h pt (m ∷ ms) = unmap_all (dma_unmap_pages h (some pt) (some m)).1 pt ms

-- A map from its pin to its release: the pages, the mappings as far as they could be made, and all
-- of it back.
unfoldable pub whole_life : DmaBufs → Holding → ℕ → ℕ → List (ℕ × DmaBufs) → Rc × Holding
unfolding get_pages map_all unmap_all put_pages
whole_life env h addr size calls =
    let r = get_pages env h addr size in
    elim r.0 [
      | inl e ↦ (err e, r.1)
      | inr pt ↦
          let made = map_all r.1 pt calls in
          (made.0, (put_pages (unmap_all made.2 pt made.1) (some pt)).1)
    ]

abbrev uses : ℕ → Option ℕ → ℕ
uses x none = 0
uses x (some a) = if x == a then 1 else 0

uses-incr :
    (f g : ℕ → ℕ) (o : Option ℕ) (a x n k : ℕ)
    → o ≡ some a
    → g ≡ incr f a
    → k ≡ g x + n
    → k ≡ f x + (uses x o + n)
uses-incr f g o a x n k is more e = rw is (elim (Bool-cases (x == a)) [
  | inl same ↦
      let eq = (==_iff x a).0 same in
      rw same (omega (arith, ap (λ (h : ℕ → ℕ). h x) more ∙ incr_at f a x same, eq))
  | inr differ ↦ rw differ (omega (arith, ap (λ (h : ℕ → ℕ). h x) more ∙ incr_off f a x differ))
])
  where
    incr_at : (f : ℕ → ℕ) (a x : ℕ) → (x == a) ≡ true → incr f a x ≡ f x + 1
    incr_at f a x same = rw same (ap (λ (y : ℕ). f y + 1) (sym ((==_iff x a).0 same)))

    incr_off : (f : ℕ → ℕ) (a x : ℕ) → (x == a) ≡ false → incr f a x ≡ f x
    incr_off f a x differ = rw differ refl

decr-uses :
    (f : ℕ → ℕ) (o : Option ℕ) (a x n k : ℕ)
    → o ≡ some a
    → f x ≡ k + (uses x o + n)
    → decr f a x ≡ k + n
decr-uses f o a x n k is e = elim (Bool-cases (x == a)) [
  | inl same ↦
      let at : f x ≡ f a = ap f ((==_iff x a).0 same) in
      let one : uses x o ≡ 1 = rw (is, same) refl in rw same (omega (arith, at, one, e))
  | inr differ ↦
      let none_here : uses x o ≡ 0 = rw (is, differ) refl in rw differ (omega (arith, none_here, e))
]

attached_by : ℕ → List DmaMapping → ℕ
attached_by x [] = 0
attached_by x (m ∷ ms) = uses x m.attach + attached_by x ms

tables_by : ℕ → List DmaMapping → ℕ
tables_by x [] = 0
tables_by x (m ∷ ms) = uses x m.sgt + tables_by x ms

-- What is held beyond `h` is what the mappings hold.
record Owes (h h' : Holding) (ms : List DmaMapping) : Type 0 where
  refs : (x : ℕ) → h'.refs x ≡ h.refs x
  attached : (x : ℕ) → h'.attached x ≡ h.attached x + attached_by x ms
  tables : (x : ℕ) → h'.tables x ≡ h.tables x + tables_by x ms
  objects : h'.objects ≡ h.objects + 2 * length ms

abbrev AllMade : List DmaMapping → Type 0
AllMade [] = Unit
AllMade (m ∷ ms) = ((a : ℕ) × (t : ℕ) × (m.attach ≡ some a) × (m.sgt ≡ some t)) × AllMade ms

none-Owes : (h h' : Holding) → SameHeld h h' → Owes h h' []
unfolding attached_by tables_by
none-Owes h h' same = record {
  refs = same.refs;
  attached = λ x. omega (arith, same.attached x);
  tables = λ x. omega (arith, same.tables x);
  objects = omega (arith, same.objects);
}

module _ (pt : PageTable) (b : ℕ) (there : pt.dmabuf ≡ some b) where
  dma_map-Outcome :
      (env : DmaBufs) (h : Holding) (peer : ℕ)
      → MapOutcome env h peer b pt.entries (dma_map_pages env h (some peer) (some pt))
  unfolding dma_map_pages
  dma_map-Outcome env h peer = rw there (map_dmabuf-Outcome env h peer b pt.entries)

  more-Owes :
      (env : DmaBufs) (h h1 h2 : Holding) (peer : ℕ) (m : DmaMapping) (ms : List DmaMapping)
      → Mapped env h peer b pt.entries m h1
      → Owes h1 h2 ms
      → Owes h h2 (m ∷ ms)
  unfolding attached_by tables_by new_mapping
  more-Owes env h h1 h2 peer m ms made rest = record {
    refs = λ x. rest.refs x ∙ ap (λ (f : ℕ → ℕ). f x) made.refs;
    attached = λ x.
        uses-incr h.attached h1.attached m.attach made.attachment x (attached_by x ms)
          (h2.attached x) (ap (λ (d : DmaMapping). d.attach) made.mapping) made.attached
          (rest.attached x);
    tables = λ x.
        uses-incr h.tables h1.tables m.sgt made.table x (tables_by x ms) (h2.tables x)
          (ap (λ (d : DmaMapping). d.sgt) made.mapping) made.tables (rest.tables x);
    objects = omega (arith, rest.objects, made.objects);
  }

  made_of :
      (env : DmaBufs) (h h1 : Holding) (peer : ℕ) (m : DmaMapping)
      → Mapped env h peer b pt.entries m h1
      → (a : ℕ) × (t : ℕ) × (m.attach ≡ some a) × (m.sgt ≡ some t)
  unfolding new_mapping
  made_of env h h1 peer m made = (
    made.attachment,
    made.table,
    ap (λ (d : DmaMapping). d.attach) made.mapping,
    ap (λ (d : DmaMapping). d.sgt) made.mapping,
  )

  map_all-Owes :
      (h : Holding) (calls : List (ℕ × DmaBufs))
      → Owes h (map_all h pt calls).2 (map_all h pt calls).1 × AllMade (map_all h pt calls).1
  unfolding map_all
  map_all-Owes h [] = (none-Owes h h (SameHeld-refl h), tt)
  map_all-Owes h ((peer, env) ∷ calls) = elim (dma_map-Outcome env h peer) [
    | inl (e, bad, same) ↦ rw (bad, map_all) (none-Owes h _ same, tt)
    | inr (m, good, made) ↦
        let rest = map_all-Owes (dma_map_pages env h (some peer) (some pt)).1 calls in
        rw (good, map_all)
          (more-Owes env h _ _ peer m _ made rest.0, (made_of env h _ peer m made, rest.1))
  ]

  unmap-Owes :
      (h h' : Holding) (m : DmaMapping) (ms : List DmaMapping) (a t : ℕ)
      → m.attach ≡ some a
      → m.sgt ≡ some t
      → Owes h h' (m ∷ ms)
      → Owes h (dma_unmap_pages h' (some pt) (some m)).1 ms
  unfolding dma_unmap_pages attached_by tables_by
  unmap-Owes h h' m ms a t at sg owes = record {
    refs = λ x. rw (at, sg, there) (owes.refs x);
    attached = λ x.
        let fewer =
          decr-uses h'.attached m.attach a x (attached_by x ms) (h.attached x) at
            (owes.attached x) in
        rw (at, sg, there) fewer;
    tables = λ x.
        let fewer =
          decr-uses h'.tables m.sgt t x (tables_by x ms) (h.tables x) sg (owes.tables x) in
        rw (at, sg, there) fewer;
    objects = rw (at, sg, there) (omega (arith, owes.objects));
  }

  unmap_all-Same :
      (h h' : Holding) (ms : List DmaMapping)
      → AllMade ms
      → Owes h h' ms
      → SameHeld h (unmap_all h' pt ms)
  unfolding unmap_all attached_by tables_by
  unmap_all-Same h h' [] made owes = record {
    refs = owes.refs;
    attached = λ x. omega (arith, owes.attached x);
    tables = λ x. omega (arith, owes.tables x);
    objects = omega (arith, owes.objects);
  }
  unmap_all-Same h h' (m ∷ ms) ((a, t, at, sg), made) owes =
      unmap_all-Same h (dma_unmap_pages h' (some pt) (some m)).1 ms made
        (unmap-Owes h h' m ms a t at sg owes)

get_pages-Outcome :
    (env : DmaBufs) (h : Holding) (addr size : ℕ)
    → let r = get_pages env h addr size in
      ((e : Errno) × (r.0 ≡ inl e) × SameHeld h r.1)
      ⊎ ((pt : PageTable) × (b : ℕ) × (r.0 ≡ inr pt)
          × (pt.dmabuf ≡ some b)
          × (r.1 ≡ record h { refs = incr h.refs b; objects = h.objects + 1 }))
unfolding get_pages
get_pages-Outcome env h addr size = elim (Bool-cases (not env.kzalloc)) [
  | inl full ↦ rw full (inl (_, refl, SameHeld-refl h))
  | inr room ↦ rw room (elim (Sum-cases (env.dma_buf_get (addr % 2 ^ 32))) [
    | inl (e, bad) ↦ rw bad (
        inl (
          e,
          refl,
          record {
            refs = λ x. refl;
            attached = λ x. refl;
            tables = λ x. refl;
            objects = omega arith;
          },
        ))
    | inr (b, good) ↦
        rw good (inr (record { dmabuf = some b; entries = entries_of size }, b, refl, refl, refl))
  ])
]

put-Same :
    (h h1 h2 : Holding) (pt : PageTable) (b : ℕ)
    → pt.dmabuf ≡ some b
    → h1 ≡ record h { refs = incr h.refs b; objects = h.objects + 1 }
    → SameHeld h1 h2
    → SameHeld h (put_pages h2 (some pt)).1
unfolding put_pages
put-Same h h1 h2 pt b there took same = record {
  refs = λ x.
      let more =
        uses-incr h.refs h1.refs (some b) b x 0 (h2.refs x) refl (ap (λ (s : Holding). s.refs) took)
          (omega (arith, same.refs x)) in
      let fewer = decr-uses h2.refs (some b) b x 0 (h.refs x) refl more in
      rw there (omega (arith, fewer));
  attached = λ x. rw there (same.attached x ∙ ap (λ (s : Holding). s.attached x) took);
  tables = λ x. rw there (same.tables x ∙ ap (λ (s : Holding). s.tables x) took);
  objects = rw there (omega (arith, same.objects, ap (λ (s : Holding). s.objects) took));
}

-- Whatever the allocator and dma-buf answer, and at whichever step a map fails, once the mappings
-- that were made are unmapped and the pages are put, the same references, attachments and tables
-- are held as before the pin, and as many objects are live.
pub whole_life-Restores :
    (env : DmaBufs) (h : Holding) (addr size : ℕ) (calls : List (ℕ × DmaBufs))
    → SameHeld h (whole_life env h addr size calls).1
unfolding whole_life
whole_life-Restores env h addr size calls = elim (get_pages-Outcome env h addr size) [
  | inl (e, bad, same) ↦ rw (bad, whole_life) same
  | inr (pt, b, good, there, took) ↦
      let h1 = (get_pages env h addr size).1 in
      let made = map_all-Owes pt b there h1 calls in
      rw (good, whole_life)
        (put-Same h h1 _ pt b there took (unmap_all-Same pt b there h1 _ _ made.1 made.0))
]
