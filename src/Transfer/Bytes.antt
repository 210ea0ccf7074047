-- ===== src/Transfer/Bytes.antt =====
-- The page addresses of a scatter list, and where they put each byte.
use mathlib.Core.Option
use geminifs_npu_smoke.Prelude.{
  ℕ, suc, ◌+◌, ◌-◌, ◌/◌, ◌%◌, ◌^◌, ◌≤◌, ◌<◌, ◌≡◌, inl, inr, refl, ap, sym, ◌∙◌, true, false, Option,
  some, List, [], ◌∷◌, arith, ltb, leb, length, get_elem?, Bool-cases,
}
use geminifs_npu_smoke.Scatter.{Segment, byte_at}
use geminifs_npu_smoke.Transfer.{Cursor, go, next_cursor, ctrl_page_size, div_round_up}
use geminifs_npu_smoke.Transfer.Lists.{flat}

-- Bytes in a scatter list.
abbrev pub total : List Segment → ℕ
total [] = 0
total (sg ∷ sgs) = sg.len + total sgs

-- What the block layer keeps by the queue's virtual boundary: each segment but the first starts on a
-- page, and each but the last ends on one; none is empty.
abbrev pub IsPaged : List Segment → Type 0
IsPaged [] = Unit
IsPaged (sg ∷ []) = 0 < sg.len
IsPaged (sg ∷ next ∷ sgs) =
    (0 < sg.len)
    × ((sg.addr + sg.len) % ctrl_page_size ≡ 0)
    × (next.addr % ctrl_page_size ≡ 0)
    × IsPaged (next ∷ sgs)

-- The segments from a cursor on, within a segment that has `n` bytes left.
abbrev pub from : ℕ → ℕ → List Segment → List Segment
from addr n rest = record { addr = addr; len = n } ∷ rest

abbrev pub AllAligned : List ℕ → Type 0
AllAligned [] = Unit
AllAligned (e ∷ es) = (e % ctrl_page_size ≡ 0) × AllAligned es

-- The address of byte `k` by a list of pages.
abbrev pub paged_byte : List ℕ → ℕ → Option ℕ
paged_byte es k =
    Option.map (λ e. (e + k % ctrl_page_size) % 2 ^ 64) (get_elem? es (k / ctrl_page_size))

-- The pages of `left` bytes from a cursor on.
pub record Covers (c : Cursor) (len left : ℕ) (n : ℕ) : Type 0 where
  pub pages : List ℕ
  pub reads : flat n c left ≡ some pages
  pub number : length pages ≡ div_round_up left ctrl_page_size
  pub is_aligned : AllAligned pages
  pub bytes : (k : ℕ) → k < left → paged_byte pages k ≡ byte_at (from c.dma_addr len c.rest) k

pub flat_done :
    (n : ℕ) (c : Cursor) (left : ℕ)
    → leb left ctrl_page_size ≡ true
    → flat (suc n) c left ≡ some (c.dma_addr ∷ [])
unfolding flat
flat_done n c left done = rw (done, flat) refl

pub flat_more :
    (n : ℕ) (c c' : Cursor) (left : ℕ) (es : List ℕ)
    → leb left ctrl_page_size ≡ false
    → next_cursor c ≡ go c'
    → flat n c' (left - ctrl_page_size) ≡ some es
    → flat (suc n) c left ≡ some (c.dma_addr ∷ es)
unfolding flat
flat_more n c c' left es more next reads = rw (more, next, reads, flat) refl

pub paged_first :
    (e : ℕ) (es : List ℕ) (k : ℕ)
    → k < ctrl_page_size
    → paged_byte (e ∷ es) k ≡ some ((e + k) % 2 ^ 64)
paged_first e es k l =
    let page : k / ctrl_page_size ≡ 0 = omega arith in
    let off : k % ctrl_page_size ≡ k = omega arith in rw (page, off) refl

pub paged_later :
    (e : ℕ) (es : List ℕ) (k : ℕ)
    → ctrl_page_size ≤ k
    → paged_byte (e ∷ es) k ≡ paged_byte es (k - ctrl_page_size)
paged_later e es k l =
    let page : k / ctrl_page_size ≡ suc ((k - ctrl_page_size) / ctrl_page_size) = omega arith in
    let off : k % ctrl_page_size ≡ (k - ctrl_page_size) % ctrl_page_size = omega arith in
    rw (page, off) refl

-- The bytes of the cursor's page lie in its segment.
pub in_first :
    (addr len left k : ℕ) (rest : List Segment)
    → addr % ctrl_page_size ≡ 0
    → IsPaged (from addr len rest)
    → left ≤ total (from addr len rest)
    → k < left
    → k < ctrl_page_size
    → k < len
in_first addr len left k [] place paged has l page = omega arith
in_first addr len left k (next ∷ sgs) place (some_len, end, _, _) has l page = omega arith

pub byte_first :
    (addr len k : ℕ) (rest : List Segment)
    → k < len
    → byte_at (from addr len rest) k ≡ some ((addr + k) % 2 ^ 64)
unfolding byte_at
byte_first addr len k rest l = let test : ltb k len ≡ true = ground arith in rw test refl

pub byte_in :
    (addr m k : ℕ) (rest : List Segment)
    → ctrl_page_size ≤ k
    → byte_at (from ((addr + ctrl_page_size) % 2 ^ 64) m rest) (k - ctrl_page_size)
      ≡ byte_at (from addr (ctrl_page_size + m) rest) k
unfolding byte_at
byte_in addr m k rest l = elim (Bool-cases (ltb k (ctrl_page_size + m))) [
  | inl here ↦
      let here' : ltb (k - ctrl_page_size) m ≡ true = ground arith in
      let same : ((addr + ctrl_page_size) % 2 ^ 64 + (k - ctrl_page_size)) % 2 ^ 64
          ≡ (addr + k) % 2 ^ 64 =
        omega arith in
      rw (here, here') (ap (λ (v : ℕ). some v) same)
  | inr past ↦
      let past' : ltb (k - ctrl_page_size) m ≡ false = ground arith in
      rw (past, past') (ap (λ (v : ℕ). byte_at rest v) (omega arith))
]

pub byte_next :
    (addr k : ℕ) (rest : List Segment)
    → ctrl_page_size ≤ k
    → byte_at rest (k - ctrl_page_size) ≡ byte_at (from addr ctrl_page_size rest) k
unfolding byte_at
byte_next addr k rest l = let past : ltb k ctrl_page_size ≡ false = ground arith in rw past refl

-- A page before what a later cursor covers.
pub more-Covers :
    (n : ℕ) (c c' : Cursor) (len len' left : ℕ)
    → leb left ctrl_page_size ≡ false
    → next_cursor c ≡ go c'
    → c.dma_addr % ctrl_page_size ≡ 0
    → ((k : ℕ) → k < ctrl_page_size → k < left → k < len)
    → ((k : ℕ)
        → ctrl_page_size ≤ k
        → byte_at (from c'.dma_addr len' c'.rest) (k - ctrl_page_size)
          ≡ byte_at (from c.dma_addr len c.rest) k)
    → Covers c' len' (left - ctrl_page_size) n
    → Covers c len left (suc n)
more-Covers n c c' len len' left more next place first shift rest = record {
  pages = c.dma_addr ∷ rest.pages;
  reads = flat_more n c c' left rest.pages more next rest.reads;
  number = ground (arith, rest.number);
  is_aligned = (place, rest.is_aligned);
  bytes = λ k l. elim (Bool-cases (ltb k ctrl_page_size)) [
    | inl here ↦
        paged_first c.dma_addr rest.pages k (ground arith)
        ∙ sym (byte_first c.dma_addr len k c.rest (first k (ground arith) l))
    | inr later ↦
        paged_later c.dma_addr rest.pages k (ground arith)
        ∙ rest.bytes (k - ctrl_page_size) (ground arith)
        ∙ shift k (ground arith)
  ];
}
