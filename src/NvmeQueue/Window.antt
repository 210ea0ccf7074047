-- ===== src/NvmeQueue/Window.antt =====
-- The slots of a ring between two of its indices, in the order of the ring.
use geminifs_npu_smoke.Prelude.{
  ℕ, zero, suc, ◌+◌, ◌-◌, ◌^◌, ◌≤◌, ◌<◌, ◌≡◌, refl, ap, sym, false, List, [], ◌∷◌, ◌++◌, arith,
  ◌==◌, leb, if◌then◌else◌, update, length,
}
use geminifs_npu_smoke.NvmeQueue.{next_slot}

-- The slot `n` places after `start`, for at most one turn of the ring.
unfoldable pub slot : ℕ → ℕ → ℕ → ℕ
slot depth start n = if leb depth (start + n) then start + n - depth else start + n

-- How far `b` is ahead of `a`.
unfoldable pub distance : ℕ → ℕ → ℕ → ℕ
distance depth a b = if leb a b then b - a else b + depth - a

unfoldable pub window {ℓ} : {A : Type ℓ} → (ℕ → A) → ℕ → ℕ → ℕ → List A
window f depth start zero = []
window f depth start (suc n) = f start ∷ window f depth (slot depth start 1) n

module _ (depth : ℕ) (fits : depth ≤ 2 ^ 16) where
  pub next_slot_lem : (i : ℕ) → i < depth → next_slot depth i ≡ slot depth i 1
  unfolding next_slot slot
  next_slot_lem i l = ground arith

module _ (depth : ℕ) where
  pub slot_lt : (a n : ℕ) → a < depth → n ≤ depth → slot depth a n < depth
  unfolding slot
  slot_lt a n l m = ground arith

  pub slot-slot :
      (a n : ℕ) → a < depth → suc n ≤ depth → slot depth (slot depth a 1) n ≡ slot depth a (suc n)
  unfolding slot
  slot-slot a n l m = ground arith

  pub slot-slot_next :
      (a n : ℕ) → a < depth → suc n < depth → slot depth (slot depth a n) 1 ≡ slot depth a (suc n)
  unfolding slot
  slot-slot_next a n l m = ground arith

  pub slot-distance : (a b : ℕ) → a < depth → b < depth → slot depth a (distance depth a b) ≡ b
  unfolding slot distance
  slot-distance a b l m = ground arith

  pub distance-slot : (a n : ℕ) → a < depth → n < depth → distance depth a (slot depth a n) ≡ n
  unfolding slot distance
  distance-slot a n l m = ground arith

  pub distance_lt : (a b : ℕ) → a < depth → b < depth → distance depth a b < depth
  unfolding distance
  distance_lt a b l m = ground arith

  pub distance_self : (a : ℕ) → distance depth a a ≡ 0
  unfolding distance
  distance_self a = ground arith

  pub distance-next :
      (a b : ℕ)
      → a < depth
      → b < depth
      → suc (distance depth a b) < depth
      → distance depth a (slot depth b 1) ≡ suc (distance depth a b)
  unfolding distance slot
  distance-next a b l m h = ground arith

  pub slot_zero : (a : ℕ) → a < depth → slot depth a 0 ≡ a
  unfolding slot
  slot_zero a l = ground arith

  before_lem : (a s n : ℕ) → suc n ≤ distance depth a s → (a == s) ≡ false
  unfolding distance
  before_lem a s n d = ground arith

  distance-step :
      (a s n : ℕ)
      → a < depth
      → s < depth
      → suc n ≤ distance depth a s
      → n ≤ distance depth (slot depth a 1) s
  unfolding distance slot
  distance-step a s n l m d = ground arith

  module _ {ℓ} {A : Type ℓ} where
    -- A window that is one slot longer.
    pub window-snoc :
        (f : ℕ → A) (a n : ℕ)
        → a < depth
        → suc n ≤ depth
        → window f depth a (suc n) ≡ window f depth a n ++ (f (slot depth a n) ∷ [])
    unfolding window
    window-snoc f a zero l h = ap (λ (s : ℕ). f s ∷ []) (sym (slot_zero a l))
    window-snoc f a (suc n) l h =
        let l' = slot_lt a 1 l (omega arith) in
        rw (window-snoc f (slot depth a 1) n l' (omega arith), slot-slot a n l (omega arith)) refl

    -- A write outside a window leaves it.
    pub window-update :
        (f : ℕ → A) (a n s : ℕ) (v : A)
        → a < depth
        → s < depth
        → n < depth
        → n ≤ distance depth a s
        → window (update f s v) depth a n ≡ window f depth a n
    unfolding window
    window-update f a zero s v l m h d = refl
    window-update f a (suc n) s v l m h d =
        let before : (a == s) ≡ false = before_lem a s n d in
        let l' = slot_lt a 1 l (omega arith) in
        rw before (
          ap (λ (xs : List A). f a ∷ xs)
            (window-update f (slot depth a 1) n s v l' m (omega arith) (distance-step a s n l m d)))

    pub length-window : (f : ℕ → A) (a n : ℕ) → length (window f depth a n) ≡ n
    unfolding window
    length-window f a zero = refl
    length-window f a (suc n) = ap suc (length-window f (slot depth a 1) n)
