-- ===== src/Prelude/Sets.antt =====
-- Functions from numbers as stores and as bit sets, and lists of numbers as sets of pointers.
use Prim.Native.Nat.{ℕ}
use mathlib.Core.Path.{◌≡◌, refl}
use mathlib.Core.Bool.{Bool, true, false, not, ◌&&◌, ◌||◌}
use mathlib.Core.List.{List, [], ◌∷◌, ◌++◌}
use native.Mathlib.Omega.{arith}
use geminifs_npu_smoke.Prelude.Tests.{◌==◌, if◌then◌else◌}
use geminifs_npu_smoke.Prelude.Lists.{length}
use Prim.Native.Nat.{suc}

abbrev pub update {ℓ} : {A : Type ℓ} → (ℕ → A) → ℕ → A → ℕ → A
update f k v j = if j == k then v else f j

abbrev pub mem : ℕ → List ℕ → Bool
mem x [] = false
mem x (y ∷ ys) = (x == y) || mem x ys

abbrev pub distinct : List ℕ → Bool
distinct [] = true
distinct (x ∷ xs) = not (mem x xs) && distinct xs

-- `list_remove` and `list_del`: take an element off a list, which holds it at most once.
abbrev pub erase : ℕ → List ℕ → List ℕ
erase x [] = []
erase x (y ∷ ys) = if x == y then ys else y ∷ erase x ys

pub mem-append : (x : ℕ) (xs ys : List ℕ) → mem x (xs ++ ys) ≡ (mem x xs || mem x ys)
mem-append x [] ys = refl
mem-append x (y ∷ xs) ys = ground (arith, mem-append x xs ys)

pub mem-erase_ne : (x z : ℕ) (xs : List ℕ) → (z == x) ≡ false → mem z (erase x xs) ≡ mem z xs
mem-erase_ne x z [] h = refl
mem-erase_ne x z (y ∷ xs) h = ground (arith, mem-erase_ne x z xs h)

pub mem-erase_self : (x : ℕ) (xs : List ℕ) → distinct xs ≡ true → mem x (erase x xs) ≡ false
mem-erase_self x [] d = refl
mem-erase_self x (y ∷ xs) d = ground (arith, mem-erase_self x xs)

pub erase_not_mem : (x : ℕ) (xs : List ℕ) → mem x xs ≡ false → erase x xs ≡ xs
erase_not_mem x [] h = refl
erase_not_mem x (y ∷ xs) h = ground (arith, erase_not_mem x xs)

pub distinct-erase : (x : ℕ) (xs : List ℕ) → distinct xs ≡ true → distinct (erase x xs) ≡ true
distinct-erase x [] d = refl
distinct-erase x (y ∷ xs) d = ground (arith, distinct-erase x xs, mem-erase_ne x y xs)

pub length-erase : (x : ℕ) (xs : List ℕ) → mem x xs ≡ true → suc (length (erase x xs)) ≡ length xs
length-erase x [] h = absurd (ground arith)
length-erase x (y ∷ xs) h = ground (arith, length-erase x xs)
