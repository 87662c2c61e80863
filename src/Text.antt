-- ===== src/Text.antt =====
-- The strings of codegen/util.go, as lists of bytes: what Go's strings and strconv do with them.
use Prim.Native.Char.{code}
use Prim.Native.String
use gensimd.Common.{
  ℕ, zero, suc, ◌+◌, ◌-◌, ◌*◌, ◌^◌, String, Bool, true, false, ◌&&◌, ◌||◌, List, [], ◌∷◌, ◌++◌,
  Option, none, some, if◌then◌else◌, ◌==◌, ltb, leb,
}
use gensimd.Common.Int.{ℤ, pos, negsuc}
pub mod Split
pub mod Debug
pub mod Stripped

abbrev pub Bytes : Type 0
Bytes = List ℕ

-- The bytes of a literal of ASCII characters.
abbrev pub codes : String → Bytes
codes String.[] = []
codes (String.◌∷◌ c s) = code c ∷ codes s

-- HasPrefix with TrimPrefix: what follows the prefix, if there is one.
unfoldable pub after_prefix : Bytes → Bytes → Option Bytes
after_prefix [] s = some s
after_prefix (p ∷ ps) [] = none
after_prefix (p ∷ ps) (c ∷ s) = let rest = after_prefix ps s in if p == c then rest else none

abbrev pub add_first : ℕ → List Bytes → List Bytes
add_first c [] = (c ∷ []) ∷ []
add_first c (x ∷ xs) = (c ∷ x) ∷ xs

-- Split with a separator of one byte.
unfoldable pub split : ℕ → Bytes → List Bytes
split sep [] = [] ∷ []
split sep (c ∷ s) = let rest = split sep s in if c == sep then [] ∷ rest else add_first c rest

digits : ℕ → Bytes → Option ℕ
digits n [] = some n
digits n (c ∷ s) =
    let rest = digits (n * 10 + (c - 48)) s in if leb 48 c && leb c 57 then rest else none

magnitude : Bytes → Option ℕ
unfolding digits
magnitude [] = none
magnitude (c ∷ s) = digits 0 (c ∷ s)

abbrev within : ℕ → (ℕ → ℤ) → Option ℕ → Option ℤ
within bound signed none = none
within bound signed (some n) = if ltb n bound then some (signed n) else none

abbrev negated : ℕ → ℤ
negated zero = pos 0
negated (suc n) = negsuc n

-- Atoi, for an int of 64 bits: an optional sign, and one or more digits.
unfoldable pub atoi : Bytes → Option ℤ
unfolding magnitude
atoi [] = none
atoi (c ∷ s) =
    if c == 45
    then within (2 ^ 63 + 1) negated (magnitude s)
    else if c == 43
    then within (2 ^ 63) pos (magnitude s)
    else within (2 ^ 63) pos (magnitude (c ∷ s))

abbrev pub has_byte : ℕ → Bytes → Bool
has_byte b [] = false
has_byte b (c ∷ s) = (c == b) || has_byte b s

-- The pieces with the separator between them.
abbrev pub join : ℕ → List Bytes → Bytes
join sep [] = []
join sep (x ∷ []) = x
join sep (x ∷ y ∷ ys) = x ++ sep ∷ join sep (y ∷ ys)

-- Whether one of the pieces has the byte.
abbrev pub pieces_have : ℕ → List Bytes → Bool
pieces_have b [] = false
pieces_have b (x ∷ xs) = has_byte b x || pieces_have b xs
