-- ===== src/NpuP2p/Pages.antt =====
-- The addresses that a mapping gets, against the pages of the scatter list.
use geminifs_npu_smoke.Prelude.{
  ℕ, zero, suc, ◌+◌, ◌-◌, ◌*◌, ◌/◌, ◌%◌, ◌^◌, ◌≤◌, ◌<◌, ◌≡◌, refl, ap, sym, subst, ◌∙◌, inl, inr,
  true, false, List, [], ◌∷◌, ◌++◌, arith, ltb, if◌then◌else◌, length, take, get_elem?, replicate,
  Bool-cases, some, length-append,
}
use geminifs_npu_smoke.Scatter.{Segment, byte_at}
use geminifs_npu_smoke.NpuP2p.Outcome.{map_dmabuf-Outcome}
use geminifs_npu_smoke.NpuP2p.{
  PageTable, DmaMapping, Holding, DmaBufs, npu_page_size, seg_pages, expand, new_mapping,
  map_dmabuf, dma_map_pages,
}

-- The addresses of `n` pages of a segment from page `i` on.
unfoldable pub pages_from : ℕ → ℕ → ℕ → List ℕ
pages_from base i zero = []
pages_from base i (suc n) = (base + i * npu_page_size) % 2 ^ 64 ∷ pages_from base (suc i) n

-- The pages that a segment touches, the last perhaps in part.
abbrev pub page_count : Segment → ℕ
page_count sg = (sg.len + 65535) / npu_page_size

-- All pages of a scatter list, in its order.
unfoldable pub all_pages : List Segment → List ℕ
all_pages [] = []
all_pages (sg ∷ sgs) = pages_from sg.addr 0 (page_count sg) ++ all_pages sgs

-- The offset within a segment does not pass 32 bits.
abbrev pub AllShort : List Segment → Type 0
AllShort [] = Unit
AllShort (sg ∷ sgs) = (sg.len ≤ 2 ^ 32 - npu_page_size) × AllShort sgs

length-pages_from : (base i n : ℕ) → length (pages_from base i n) ≡ n
unfolding pages_from
length-pages_from base i zero = refl
length-pages_from base i (suc n) = ap suc (length-pages_from base (suc i) n)

seg_pages_lem :
    (room base len i n : ℕ)
    → len ≤ 2 ^ 32 - npu_page_size
    → i + n ≡ (len + 65535) / npu_page_size
    → seg_pages room base len (i * npu_page_size) ≡ take room (pages_from base i n)
unfolding seg_pages pages_from
seg_pages_lem zero base len i zero short e = refl
seg_pages_lem zero base len i (suc n) short e = refl
seg_pages_lem (suc room) base len i zero short e =
    let past : ltb (i * npu_page_size) len ≡ false = ground arith in rw past refl
seg_pages_lem (suc room) base len i (suc n) short e =
    let within : ltb (i * npu_page_size) len ≡ true = ground arith in
    let next : (i * npu_page_size + npu_page_size) % 2 ^ 32 ≡ suc i * npu_page_size = omega arith in
    rw (within, next)
      (ap (λ xs. (base + i * npu_page_size) % 2 ^ 64 ∷ xs)
        (seg_pages_lem room base len (suc i) n short (omega arith)))

-- Each segment but the last is a number of whole pages.
abbrev pub AllWhole : List Segment → Type 0
AllWhole [] = Unit
AllWhole (sg ∷ []) = Unit
AllWhole (sg ∷ next ∷ sgs) = (sg.len % npu_page_size ≡ 0) × AllWhole (next ∷ sgs)

get_elem?-pages_from :
    (base j n : ℕ) (ys : List ℕ) (i : ℕ)
    → get_elem? (pages_from base j n ++ ys) i
      ≡ (if ltb i n then some ((base + (j + i) * npu_page_size) % 2 ^ 64) else get_elem? ys (i - n))
unfolding pages_from
get_elem?-pages_from base j zero ys i = ground arith
get_elem?-pages_from base j (suc n) ys zero = ground arith
get_elem?-pages_from base j (suc n) ys (suc i) =
    ground (arith, get_elem?-pages_from base (suc j) n ys i)

get_elem?-first_pages :
    (base n : ℕ) (ys : List ℕ) (i : ℕ)
    → get_elem? (pages_from base 0 n ++ ys) i
      ≡ (if ltb i n then some ((base + i * npu_page_size) % 2 ^ 64) else get_elem? ys (i - n))
get_elem?-first_pages base n ys i =
    let same : 0 + i ≡ i = omega arith in
    get_elem?-pages_from base 0 n ys i
    ∙ ap
        (λ (k : ℕ).
          if ltb i n then some ((base + k * npu_page_size) % 2 ^ 64) else get_elem? ys (i - n))
        same

-- The page at position `i` starts at byte `i * 65536` of the buffer.
get_elem?-all_pages :
    (sgs : List Segment) (i : ℕ)
    → AllWhole sgs
    → get_elem? (all_pages sgs) i ≡ byte_at sgs (i * npu_page_size)
unfolding all_pages byte_at
get_elem?-all_pages [] i whole = refl
get_elem?-all_pages (sg ∷ []) i whole =
    get_elem?-first_pages sg.addr (page_count sg) [] i ∙ elim (Bool-cases (ltb i (page_count sg))) [
      | inl within ↦
          let here : ltb (i * npu_page_size) sg.len ≡ true = ground arith in rw (within, here) refl
      | inr past ↦
          let there : ltb (i * npu_page_size) sg.len ≡ false = ground arith in rw (past, there) refl
    ]
get_elem?-all_pages (sg ∷ next ∷ sgs) i (whole, more) =
    get_elem?-first_pages sg.addr (page_count sg) (all_pages (next ∷ sgs)) i
    ∙ elim (Bool-cases (ltb i (page_count sg))) [
      | inl within ↦
          let here : ltb (i * npu_page_size) sg.len ≡ true = ground arith in rw (within, here) refl
      | inr past ↦
          let there : ltb (i * npu_page_size) sg.len ≡ false = ground arith in
          let same : (i - page_count sg) * npu_page_size ≡ i * npu_page_size - sg.len =
            ground arith in
          rw (past, there)
            (get_elem?-all_pages (next ∷ sgs) (i - page_count sg) more
              ∙ ap (λ (k : ℕ). byte_at (next ∷ sgs) k) same)
    ]

get_elem?-take :
    {A : Type 0} (n i : ℕ) (xs ys : List A)
    → i < length (take n xs)
    → get_elem? (take n xs ++ ys) i ≡ get_elem? xs i
get_elem?-take zero i xs ys l = absurd (omega arith)
get_elem?-take (suc n) i [] ys l = absurd (omega arith)
get_elem?-take (suc n) zero (x ∷ xs) ys l = refl
get_elem?-take (suc n) (suc i) (x ∷ xs) ys l = get_elem?-take n i xs ys (omega arith)

take_all : {A : Type 0} (n : ℕ) (xs : List A) → take n xs ≡ take (n - 0) xs
take_all n xs = ap (λ (k : ℕ). take k xs) (omega arith)

take-append :
    {A : Type 0} (n : ℕ) (xs ys : List A)
    → take n (xs ++ ys) ≡ take n xs ++ take (n - length (take n xs)) ys
take-append zero xs ys = refl
take-append (suc n) [] ys = take_all (suc n) ys
take-append (suc n) (x ∷ xs) ys =
    let same : suc n - suc (length (take n xs)) ≡ n - length (take n xs) = omega arith in
    rw (take-append n xs ys, same) refl

length-take :
    {A : Type 0} (n : ℕ) (xs : List A)
    → length (take n xs) ≡ (if ltb n (length xs) then n else length xs)
length-take zero xs = ground arith
length-take (suc n) [] = ground arith
length-take (suc n) (x ∷ xs) = ground (arith, length-take n xs)

length-replicate : {A : Type 0} (n : ℕ) (x : A) → length (replicate n x) ≡ n
length-replicate zero x = refl
length-replicate (suc n) x = ap suc (length-replicate n x)

-- The loop over the segments collects the pages of the scatter list in their order, as many as
-- there is room for.
pub expand_lem :
    (room : ℕ) (sgs : List Segment) → AllShort sgs → expand room sgs ≡ take room (all_pages sgs)
unfolding expand all_pages
expand_lem zero [] short = refl
expand_lem (suc room) [] short = refl
expand_lem room (sg ∷ sgs) (fits, short) =
    let n = page_count sg in
    let here : seg_pages room sg.addr sg.len 0 ≡ take room (pages_from sg.addr 0 n) =
      seg_pages_lem room sg.addr sg.len 0 n fits (omega arith) in
    rw here (
      ap (λ (xs : List ℕ). take room (pages_from sg.addr 0 n) ++ xs)
        (expand_lem (room - length (take room (pages_from sg.addr 0 n))) sgs short)
      ∙ sym (take-append room (pages_from sg.addr 0 n) (all_pages sgs)))

-- A mapping for `n` pages holds the first pages of the scatter list, and zeros where it has fewer.
pub record Lists (n : ℕ) (sgl : List Segment) (m : DmaMapping) : Type 0 where
  pub number : m.n_addrs ≡ (if ltb n (length (all_pages sgl)) then n else length (all_pages sgl))
  pub pages : m.dma_addresses ≡ take n (all_pages sgl) ++ replicate (n - m.n_addrs) 0
  pub size : length m.dma_addresses ≡ n
  -- Where the segments are whole pages, the address at `i` is that of byte `i * 65536`.
  pub places :
      AllWhole sgl
      → (i : ℕ) → i < m.n_addrs
      → get_elem? m.dma_addresses i ≡ byte_at sgl (i * npu_page_size)

new_mapping-Lists :
    (n a t : ℕ) (sgl : List Segment) → AllShort sgl → Lists n sgl (new_mapping n a t sgl)
unfolding new_mapping
new_mapping-Lists n a t sgl short =
    let same = expand_lem n sgl short in
    let size = length-take n (all_pages sgl) in
    record {
      number = ap length same ∙ size;
      pages = rw same refl;
      size = rw same (
          length-append (take n (all_pages sgl)) _
          ∙ omega (
            arith,
            length-replicate (n - length (take n (all_pages sgl))) (let z : ℕ = 0 in z),
            le_of size,
          ));
      places = λ whole i l. rw same (
          get_elem?-take n i (all_pages sgl) _ (subst (λ (k : ℕ). i < k) (ap length same) l)
          ∙ get_elem?-all_pages sgl i whole);
    }
  where
    le_of :
        length (take n (all_pages sgl))
          ≡ (if ltb n (length (all_pages sgl)) then n else length (all_pages sgl))
        → length (take n (all_pages sgl)) ≤ n
    le_of e = ground arith

-- Where `nvfs_nvidia_p2p_dma_map_pages` succeeds on a page table of a dma-buf, it has attached the
-- dma-buf and mapped the attachment, and if no segment of the scatter list it was given is longer
-- than 2^32 - 65536 bytes, the mapping has an address for each entry of the page table: the pages of
-- the segments in their order, and 0 for each page that the scatter list does not have. If each
-- segment but the last is a number of whole pages, the address at `i` is where byte `i * 65536` of
-- the buffer lies.
pub dma_map_pages-Lists :
    (env : DmaBufs) (h : Holding) (peer b : ℕ) (pt : PageTable) (m : DmaMapping)
    → pt.dmabuf ≡ some b
    → (dma_map_pages env h (some peer) (some pt)).0 ≡ inr m
    → (a : ℕ) × (t : ℕ) × (sgl : List Segment) × (env.dma_buf_attach b peer ≡ inr a)
      × (env.dma_buf_map_attachment a ≡ inr (t, sgl))
      × (AllShort sgl → Lists pt.entries sgl m)
unfolding dma_map_pages map_dmabuf
dma_map_pages-Lists env h peer b pt m there made =
    elim (map_dmabuf-Outcome env h peer b pt.entries) [
      | inl (e, bad, same) ↦ absurd (cc (rw (there, dma_map_pages) at made))
      | inr (m', good, done) ↦
          let same : m' ≡ m = cc (good, rw (there, dma_map_pages) at made) in
          (
            done.attachment,
            done.table,
            done.sgl,
            done.attaches,
            done.maps,
            λ short.
                subst (λ (d : DmaMapping). Lists pt.entries done.sgl d) (sym done.mapping ∙ same)
                  (new_mapping-Lists pt.entries done.attachment done.table done.sgl short),
          )
    ]
