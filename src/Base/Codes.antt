-- ===== src/Base/Codes.antt =====
-- Byte strings and texts as lists of numbers, and Python's `==` on them.
use Prim.Native.Nat.{ℕ}
use Prim.Native.Char.{code}
use Prim.Native.String.{String}
use mathlib.Core.Path.{◌≡◌, refl}
use mathlib.Core.Logic.{◌↔◌}
use mathlib.Core.Bool.{Bool, true, false, ◌&&◌, ◌||◌}
use mathlib.Core.List.{List, [], ◌∷◌}
use mathlib.Core.Option.{Option, none, some}
use native.Mathlib.Omega.{arith}
use asciinema.Base.Tests.{◌==◌}

abbrev pub Bytes : Type 0
Bytes = List ℕ

abbrev pub Text : Type 0
Text = List ℕ

-- The code points of a literal.
abbrev pub chars : String → Text
chars String.[] = []
chars (String.◌∷◌ c s) = code c ∷ chars s

unfoldable pub bytes_eq : List ℕ → List ℕ → Bool
bytes_eq [] [] = true
bytes_eq [] (y ∷ ys) = false
bytes_eq (x ∷ xs) [] = false
bytes_eq (x ∷ xs) (y ∷ ys) = (x == y) && bytes_eq xs ys

pub bytes_eq_iff : (xs ys : List ℕ) → (bytes_eq xs ys ≡ true) ↔ (xs ≡ ys)
unfolding bytes_eq
bytes_eq_iff [] [] = (λ h. refl, λ h. refl)
bytes_eq_iff [] (y ∷ ys) = (λ h. cc, λ h. cc)
bytes_eq_iff (x ∷ xs) [] = (λ h. cc, λ h. cc)
bytes_eq_iff (x ∷ xs) (y ∷ ys) = ground (arith, bytes_eq_iff xs ys)

-- `k in data` for a byte `k`.
unfoldable pub has_byte : ℕ → List ℕ → Bool
has_byte k [] = false
has_byte k (x ∷ xs) = (x == k) || has_byte k xs

-- `s.startswith(prefix)`
unfoldable pub starts : List ℕ → List ℕ → Bool
starts [] s = true
starts (d ∷ ds) [] = false
starts (d ∷ ds) (x ∷ xs) = (d == x) && starts ds xs

-- `delimiter in s`, where there is a delimiter.
unfoldable pub occurs : List ℕ → List ℕ → Bool
unfolding starts
occurs d [] = false
occurs d (x ∷ xs) = starts d (x ∷ xs) || occurs d xs

-- `data == key`, where the key may be `None`.
unfoldable pub is_key : List ℕ → Option (List ℕ) → Bool
unfolding bytes_eq
is_key d none = false
is_key d (some k) = bytes_eq d k
