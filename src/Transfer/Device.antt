-- ===== src/Transfer/Device.antt =====
-- How the NVMe specification has a controller read PRP entries: PRP1, then PRP2 as an entry or as the
-- address of a list, whose last entry in a page of memory points to the next list if more follow.
use mathlib.Core.Option
use geminifs_npu_smoke.Prelude.{
  ℕ, zero, suc, ◌+◌, ◌-◌, ◌/◌, ◌%◌, ◌^◌, not, ◌&&◌, Option, some, List, [], ◌∷◌, ltb, leb, ◌==◌,
  if◌then◌else◌, get_elem?,
}
use geminifs_npu_smoke.Transfer.{Memory, ctrl_page_size, div_round_up}

-- `n` entries from the address `a` on.
unfoldable pub walk : Memory → ℕ → ℕ → List ℕ
walk memory a zero = []
walk memory a (suc n) =
    let at = if a % ctrl_page_size == 4088 && not (n == 0) then memory a else a in
    memory at ∷ walk memory (at + 8) n

-- How many bytes of PRP1's page belong to the transfer at most.
abbrev pub first_bytes : ℕ → ℕ
first_bytes prp1 = ctrl_page_size - prp1 % ctrl_page_size

-- The entries after PRP1 for a transfer of `length` bytes.
unfoldable pub prp_entries : Memory → ℕ → ℕ → ℕ → List ℕ
unfolding walk
prp_entries memory prp1 prp2 length =
    let left = length - first_bytes prp1 in
    if leb length (first_bytes prp1)
    then []
    else if leb left ctrl_page_size
    then prp2 ∷ []
    else walk memory prp2 (div_round_up left ctrl_page_size)

-- The address of a byte of the transfer.
unfoldable pub device_byte : ℕ → List ℕ → ℕ → Option ℕ
device_byte prp1 entries k =
    let past = k - first_bytes prp1 in
    if ltb k (first_bytes prp1)
    then some ((prp1 + k) % 2 ^ 64)
    else Option.map (λ e. (e + past % ctrl_page_size) % 2 ^ 64)
        (get_elem? entries (past / ctrl_page_size))
