-- ===== src/Transfer/Start.antt =====
-- `nvme_pci_setup_prps` up to its loop: where the first page ends, and what is left after it.

use geminifs_npu_smoke.Prelude.{
  ℕ, suc, ◌+◌, ◌-◌, ◌%◌, ◌^◌, ◌≤◌, ◌<◌, ◌≡◌, inl, inr, refl, ap, sym, ◌∙◌, true, false, some, List,
  [], ◌∷◌, arith, ltb, leb, Bool-cases, pos,
}
use geminifs_npu_smoke.Scatter.{Segment, byte_at}
use geminifs_npu_smoke.Transfer.{Pool, Cursor, SetUp, go, skip_first, ctrl_page_size, div_round_up}
use geminifs_npu_smoke.Transfer.Device.{first_bytes, prp_entries, device_byte}
use geminifs_npu_smoke.Transfer.Bytes.{total, IsPaged, from, AllAligned, Covers, byte_first}
use geminifs_npu_smoke.Transfer.Covers.{cursor-Covers}

-- The first page's bytes lie in the first segment.
in_head :
    (sg : Segment) (rest : List Segment) (payload k : ℕ)
    → IsPaged (sg ∷ rest)
    → payload ≤ total (sg ∷ rest)
    → k < payload
    → k < first_bytes sg.addr
    → k < sg.len
in_head sg [] payload k paged has l page = omega arith
in_head sg (next ∷ sgs) payload k (some_len, end, _, _) has l page = omega arith

-- Where the loop starts, what it covers, and where that stands in the scatter list.
pub record Start (sg : Segment) (rest : List Segment) (payload : ℕ) : Type 0 where
  pub cursor : Cursor
  pub len : ℕ
  pub skips : skip_first sg rest (first_bytes sg.addr) ≡ go cursor
  pub covers :
      Covers cursor len
        (payload - first_bytes sg.addr)
        (div_round_up (payload - first_bytes sg.addr) ctrl_page_size)
  pub shift :
      (k : ℕ)
      → first_bytes sg.addr ≤ k
      → byte_at (from cursor.dma_addr len cursor.rest) (k - first_bytes sg.addr)
        ≡ byte_at (sg ∷ rest) k

skip_inner :
    (sg : Segment) (rest : List Segment) (first : ℕ)
    → first < sg.len
    → skip_first sg rest first
      ≡ go (record {
        dma_addr = (sg.addr + first) % 2 ^ 64;
        dma_len = pos (sg.len - first);
        rest = rest;
      })
unfolding skip_first
skip_inner sg rest first l =
    let test : leb first sg.len ≡ true = ground arith in
    let some_left : sg.len - first ≡ suc (sg.len - first - 1) = omega arith in
    rw (test, some_left, skip_first) refl

skip_outer :
    (sg next : Segment) (sgs : List Segment) (first : ℕ)
    → sg.len ≡ first
    → skip_first sg (next ∷ sgs) first
      ≡ go (record { dma_addr = next.addr; dma_len = pos next.len; rest = sgs })
unfolding skip_first
skip_outer sg next sgs first same =
    let test : leb first sg.len ≡ true = ground arith in
    let none_left : sg.len - first ≡ 0 = omega arith in rw (test, none_left, skip_first) refl

byte_skip :
    (sg : Segment) (rest : List Segment) (first k : ℕ)
    → first ≤ sg.len
    → first ≤ k
    → byte_at (from ((sg.addr + first) % 2 ^ 64) (sg.len - first) rest) (k - first)
      ≡ byte_at (sg ∷ rest) k
unfolding byte_at
byte_skip sg rest first k le l = elim (Bool-cases (ltb k sg.len)) [
  | inl here ↦
      let here' : ltb (k - first) (sg.len - first) ≡ true = ground arith in
      let same : ((sg.addr + first) % 2 ^ 64 + (k - first)) % 2 ^ 64 ≡ (sg.addr + k) % 2 ^ 64 =
        omega arith in
      rw (here, here') (ap (λ (v : ℕ). some v) same)
  | inr past ↦
      let past' : ltb (k - first) (sg.len - first) ≡ false = ground arith in
      rw (past, past') (ap (λ (v : ℕ). byte_at rest v) (omega arith))
]

byte_outer :
    (sg next : Segment) (sgs : List Segment) (first k : ℕ)
    → sg.len ≡ first
    → first ≤ k
    → byte_at (from next.addr next.len sgs) (k - first) ≡ byte_at (sg ∷ next ∷ sgs) k
unfolding byte_at
byte_outer sg next sgs first k same l =
    let past : ltb k sg.len ≡ false = ground arith in
    rw past (ap (λ (v : ℕ). byte_at (next ∷ sgs) (k - v)) (sym same))

IsPaged-skip :
    (sg : Segment) (rest : List Segment) (first : ℕ)
    → first < sg.len
    → IsPaged (sg ∷ rest)
    → IsPaged (from ((sg.addr + first) % 2 ^ 64) (sg.len - first) rest)
IsPaged-skip sg [] first l paged = omega arith
IsPaged-skip sg (next ∷ sgs) first l (_, end, start, more) = (omega arith, omega arith, start, more)

pub Start-of :
    (sg : Segment) (rest : List Segment) (payload : ℕ)
    → IsPaged (sg ∷ rest)
    → payload ≤ total (sg ∷ rest)
    → first_bytes sg.addr < payload
    → Start sg rest payload
Start-of sg rest payload paged has more =
    let first = first_bytes sg.addr in
    let enough : first - 1 < sg.len =
      in_head sg rest payload (first - 1) paged has (omega arith) (omega arith) in
    elim (Bool-cases (ltb first sg.len)) [
      | inl inner ↦
          let l : first < sg.len = ground arith in
          record {
            cursor = record {
              dma_addr = (sg.addr + first) % 2 ^ 64;
              dma_len = pos (sg.len - first);
              rest = rest;
            };
            len = sg.len - first;
            skips = skip_inner sg rest first l;
            covers =
                cursor-Covers (div_round_up (payload - first) ctrl_page_size) _ (sg.len - first)
                  (payload - first) refl (omega arith) (IsPaged-skip sg rest first l paged)
                  (omega arith) (omega arith) (omega arith);
            shift = λ k from_k. byte_skip sg rest first k (omega arith) from_k;
          }
      | inr outer ↦ start_next sg rest payload paged has more (ground arith)
    ]
  where
    start_next :
        (sg : Segment) (rest : List Segment) (payload : ℕ)
        → IsPaged (sg ∷ rest)
        → payload ≤ total (sg ∷ rest)
        → first_bytes sg.addr < payload
        → sg.len ≡ first_bytes sg.addr
        → Start sg rest payload
    start_next sg [] payload paged has more same = absurd (omega arith)
    start_next sg (next ∷ sgs) payload (_, end, start, paged) has more same =
        let first = first_bytes sg.addr in
        record {
          cursor = record { dma_addr = next.addr; dma_len = pos next.len; rest = sgs };
          len = next.len;
          skips = skip_outer sg next sgs first same;
          covers =
              cursor-Covers (div_round_up (payload - first) ctrl_page_size) _ next.len
                (payload - first) refl start paged (omega arith) (omega arith) (omega arith);
          shift = λ k from_k. byte_outer sg next sgs first k same from_k;
        }

-- The bytes of the first page, and those of a start, make up the transfer.
head_bytes :
    (sg : Segment) (rest : List Segment) (payload : ℕ) (es : List ℕ) (k : ℕ)
    → IsPaged (sg ∷ rest)
    → payload ≤ total (sg ∷ rest)
    → k < payload
    → k < first_bytes sg.addr
    → device_byte sg.addr es k ≡ byte_at (sg ∷ rest) k
unfolding device_byte
head_bytes sg rest payload es k paged has l page =
    let test : ltb k (first_bytes sg.addr) ≡ true = ground arith in
    rw test (sym (byte_first sg.addr sg.len k rest (in_head sg rest payload k paged has l page)))

Start-bytes :
    (sg : Segment) (rest : List Segment) (payload k : ℕ) (s : Start sg rest payload)
    → k < payload
    → first_bytes sg.addr ≤ k
    → device_byte sg.addr s.covers.pages k ≡ byte_at (sg ∷ rest) k
unfolding device_byte
Start-bytes sg rest payload k s l past =
    let test : ltb k (first_bytes sg.addr) ≡ false = ground arith in
    rw test (s.covers.bytes (k - first_bytes sg.addr) (omega arith) ∙ s.shift k past)

-- A pool of 256-byte lists, each aligned to its size.
pub record IsSmallPool (pool : Pool) : Type 0 where
  pub aligned : (k d : ℕ) → pool k ≡ some d → d % 256 ≡ 0

-- PRP1 and PRP2 that a set-up wrote take each byte to its place in the scatter list, and no entry
-- after PRP1 has an offset within its page.
pub record Carries (sg : Segment) (rest : List Segment) (payload : ℕ) (r : SetUp) : Type 0 where
  pub prp1 : ℕ
  pub prp2 : ℕ
  pub written : r.dptr ≡ some (prp1, prp2)
  pub is_aligned : AllAligned (prp_entries r.memory prp1 prp2 payload)
  pub bytes :
      (k : ℕ)
      → k < payload
      → device_byte prp1 (prp_entries r.memory prp1 prp2 payload) k ≡ byte_at (sg ∷ rest) k

module _ (sg : Segment) (rest : List Segment) (payload : ℕ) where
  module _ (paged : IsPaged (sg ∷ rest)) (has : payload ≤ total (sg ∷ rest)) where
    -- A set-up whose entries read as the pages of the start.
    pub entries-Carries :
        (s : Start sg rest payload) (r : SetUp) (prp2 : ℕ)
        → r.dptr ≡ some (sg.addr, prp2)
        → prp_entries r.memory sg.addr prp2 payload ≡ s.covers.pages
        → Carries sg rest payload r
    entries-Carries s r prp2 written same = record {
      prp1 = sg.addr;
      prp2 = prp2;
      written = written;
      is_aligned = rw same s.covers.is_aligned;
      bytes = λ k l. elim (Bool-cases (ltb k (first_bytes sg.addr))) [
        | inl here ↦ head_bytes sg rest payload _ k paged has l (ground arith)
        | inr past ↦ rw same (Start-bytes sg rest payload k s l (ground arith))
      ];
    }

    pub no_entries-Carries :
        (r : SetUp)
        → r.dptr ≡ some (sg.addr, 0)
        → leb payload (first_bytes sg.addr) ≡ true
        → Carries sg rest payload r
    unfolding prp_entries
    no_entries-Carries r written fits = record {
      prp1 = sg.addr;
      prp2 = 0;
      written = written;
      is_aligned = rw (fits, prp_entries) tt;
      bytes = λ k l. head_bytes sg rest payload _ k paged has l (ground arith);
    }
