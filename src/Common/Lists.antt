-- ===== src/Common/Lists.antt =====
-- Byte strings and lists, measured by native numbers, and a predicate on every member.
use Prim.Native.Nat.{ℕ, suc, ◌+◌}
use Prim.Native.Char.{code}
use Prim.Native.String.{String}
use mathlib.Core.Path.{◌≡◌, refl}
use mathlib.Core.Logic.{◌↔◌}
use mathlib.Core.Bool.{Bool, true, false, ◌&&◌}
use mathlib.Core.List.{List, [], ◌∷◌, ◌++◌}
use native.Mathlib.Omega.{arith}
use kernlet.Common.Tests.{◌==◌}

-- A Go string is a sequence of bytes.
abbrev pub Bytes : Type 0
Bytes = List ℕ

-- The bytes of an ASCII literal.
abbrev pub codes : String → Bytes
codes String.[] = []
codes (String.◌∷◌ c s) = code c ∷ codes s

unfoldable pub equal : Bytes → Bytes → Bool
equal [] [] = true
equal [] (_ ∷ _) = false
equal (_ ∷ _) [] = false
equal (a ∷ s) (b ∷ t) = a == b && equal s t

pub equal→eq : (s t : Bytes) → equal s t ≡ true → s ≡ t
unfolding equal
equal→eq [] [] h = refl
equal→eq [] (b ∷ t) h = ground arith
equal→eq (a ∷ s) [] h = ground arith
equal→eq (a ∷ s) (b ∷ t) h = ground (arith, equal→eq s t)

pub equal_self : (s : Bytes) → equal s s ≡ true
unfolding equal
equal_self [] = refl
equal_self (a ∷ s) = ground (arith, equal_self s)

pub eq→equal : (s t : Bytes) → s ≡ t → equal s t ≡ true
eq→equal s t e = ground (arith, equal_self s)

pub equal_iff : (s t : Bytes) → (equal s t ≡ true) ↔ (s ≡ t)
equal_iff s t = (equal→eq s t, eq→equal s t)

module _ {ℓ} {A : Type ℓ} where
  abbrev pub length : List A → ℕ
  length [] = 0
  length (x ∷ xs) = suc (length xs)

  pub length-append : (xs ys : List A) → length (xs ++ ys) ≡ length xs + length ys
  length-append [] ys = omega arith
  length-append (x ∷ xs) ys = omega (arith, length-append xs ys)

module _ {ℓ κ} {A : Type ℓ} (P : A → Type κ) where
  abbrev pub All : List A → Type κ
  All [] = Unit
  All (x ∷ xs) = P x × All xs

  pub All-append : (xs ys : List A) → All xs → All ys → All (xs ++ ys)
  All-append [] ys _ hy = hy
  All-append (x ∷ xs) ys (px, hx) hy = (px, All-append xs ys hx hy)

abbrev pub Lacks : ℕ → Bytes → Type 0
Lacks b = All (λ c. c == b ≡ false)
