-- ===== src/Base/Handles.antt =====
-- Lists of task handles: membership, removal, distinctness and their laws.
use Prim.Native.Nat.{ℕ, suc, ◌+◌}
use mathlib.Core.Path.{◌≡◌, refl}
use mathlib.Core.Bool.{Bool, true, false, not, ◌&&◌, ◌||◌}
use mathlib.Core.Option.{Option, none, some}
use mathlib.Core.List.{List, [], ◌∷◌, ◌++◌}
use native.Mathlib.Omega.{arith}
use sertos.Base.Tests.{◌==◌, if◌then◌else◌}

module _ {ℓ} {A : Type ℓ} where
  abbrev pub length : List A → ℕ
  length [] = 0
  length (x ∷ xs) = suc (length xs)

  abbrev pub head? : List A → Option A
  head? [] = none
  head? (x ∷ xs) = some x

  abbrev pub null : List A → Bool
  null [] = true
  null (x ∷ xs) = false

  pub length-append : (xs ys : List A) → length (xs ++ ys) ≡ length xs + length ys
  length-append [] ys = omega arith
  length-append (x ∷ xs) ys = omega (arith, length-append xs ys)

abbrev pub mem : ℕ → List ℕ → Bool
mem a [] = false
mem a (x ∷ xs) = x == a || mem a xs

-- The list without the first `a`.
abbrev pub erase : ℕ → List ℕ → List ℕ
erase a [] = []
erase a (x ∷ xs) = if x == a then xs else x ∷ erase a xs

abbrev pub distinct : List ℕ → Bool
distinct [] = true
distinct (x ∷ xs) = not (mem x xs) && distinct xs

pub mem-snoc : (a b : ℕ) (xs : List ℕ) → mem a (xs ++ b ∷ []) ≡ (b == a || mem a xs)
mem-snoc a b [] = ground arith
mem-snoc a b (x ∷ xs) = ground (arith, mem-snoc a b xs)

pub distinct-snoc :
    (b : ℕ) (xs : List ℕ) → mem b xs ≡ false → distinct xs ≡ true → distinct (xs ++ b ∷ []) ≡ true
distinct-snoc b [] n d = refl
distinct-snoc b (x ∷ xs) n d = ground (arith, distinct-snoc b xs, mem-snoc x b xs)

pub mem-erase :
    (a b : ℕ) (xs : List ℕ) → distinct xs ≡ true → mem a (erase b xs) ≡ (not (b == a) && mem a xs)
mem-erase a b [] d = ground arith
mem-erase a b (x ∷ xs) d = ground (arith, mem-erase a b xs)

pub mem-erase_le : (a b : ℕ) (xs : List ℕ) → mem a (erase b xs) ≡ true → mem a xs ≡ true
mem-erase_le a b [] h = h
mem-erase_le a b (x ∷ xs) h = ground (arith, mem-erase_le a b xs)

pub distinct-erase : (b : ℕ) (xs : List ℕ) → distinct xs ≡ true → distinct (erase b xs) ≡ true
distinct-erase b [] d = refl
distinct-erase b (x ∷ xs) d = ground (arith, distinct-erase b xs, mem-erase_le x b xs)

pub null-snoc {ℓ} : {A : Type ℓ} (xs : List A) (a : A) → null (xs ++ a ∷ []) ≡ false
null-snoc [] a = refl
null-snoc (x ∷ xs) a = refl

pub erase_of_not-mem : (a : ℕ) (xs : List ℕ) → mem a xs ≡ false → erase a xs ≡ xs
erase_of_not-mem a [] h = refl
erase_of_not-mem a (x ∷ xs) h = ground (arith, erase_of_not-mem a xs)

pub length-erase : (a : ℕ) (xs : List ℕ) → mem a xs ≡ true → suc (length (erase a xs)) ≡ length xs
length-erase a [] h = ground arith
length-erase a (x ∷ xs) h = ground (arith, length-erase a xs)

pub mem-head? : (a : ℕ) (xs : List ℕ) → head? xs ≡ some a → mem a xs ≡ true
mem-head? a [] h = ground arith
mem-head? a (x ∷ xs) h = ground arith

pub null_of_head? {ℓ} : {A : Type ℓ} (xs : List A) → head? xs ≡ none → null xs ≡ true
null_of_head? [] h = refl
null_of_head? (x ∷ xs) h = ground arith

pub mem_of_null : (a : ℕ) (xs : List ℕ) → null xs ≡ true → mem a xs ≡ false
mem_of_null a [] h = refl
mem_of_null a (x ∷ xs) h = ground arith
