-- ===== src/Text/Debug.antt =====
-- addIndent and stripDebug of codegen/util.go, on text of ASCII characters.
use gensimd.Common.{
  ℕ, Bool, true, false, ◌||◌, ◌&&◌, List, [], ◌∷◌, ◌++◌, Option, none, some, if◌then◌else◌, ◌==◌,
  leb,
}
use gensimd.Text.{Bytes, codes, after_prefix, split}

abbrev is_space : ℕ → Bool
is_space c = (c == 32) || (leb 9 c && leb c 13)

-- TrimSpace, from the left and from the right.
abbrev trim_left : Bytes → Bytes
trim_left [] = []
trim_left (c ∷ s) = let rest = trim_left s in if is_space c then rest else c ∷ s

abbrev keep_right : ℕ → Bytes → Bytes
keep_right c [] = if is_space c then [] else c ∷ []
keep_right c (d ∷ s) = c ∷ d ∷ s

abbrev trim_right : Bytes → Bytes
trim_right [] = []
trim_right (c ∷ s) = keep_right c (trim_right s)

abbrev ends_with : ℕ → Bytes → Bool
ends_with b [] = false
ends_with b (c ∷ []) = c == b
ends_with b (c ∷ d ∷ s) = ends_with b (d ∷ s)

abbrev is_empty : Bytes → Bool
is_empty [] = true
is_empty (c ∷ s) = false

abbrev indent_line : Bytes → Bytes → Bytes
indent_line indent line =
    if ends_with 58 line || is_empty line then line ++ 10 ∷ [] else indent ++ (line ++ 10 ∷ [])

abbrev indent_lines : Bytes → List Bytes → Bytes
indent_lines indent [] = []
indent_lines indent (line ∷ lines) =
    indent_line indent (trim_right (trim_left line)) ++ indent_lines indent lines

unfoldable pub add_indent : Bytes → Bytes → Bytes
add_indent assembly indent = indent_lines indent (split 10 assembly)

abbrev is_some : Option Bytes → Bool
is_some none = false
is_some (some s) = true

abbrev pub is_debug : Bytes → Bytes → Bool
is_debug indent line =
    is_some (after_prefix (indent ++ codes "// BEGIN") line)
    || is_some (after_prefix (indent ++ codes "// END") line)

-- The lines that are not debug comments, each with a newline.
abbrev pub strip_lines : Bytes → List Bytes → Bytes
strip_lines indent [] = []
strip_lines indent (line ∷ lines) =
    let rest = strip_lines indent lines in if is_debug indent line then rest else line ++ 10 ∷ rest

-- TrimSuffix of one newline.
abbrev pub trim_newline : Bytes → Bytes
trim_newline [] = []
trim_newline (c ∷ []) = if c == 10 then [] else c ∷ []
trim_newline (c ∷ d ∷ s) = c ∷ trim_newline (d ∷ s)

unfoldable pub strip_debug : Bytes → Bytes → Bytes
strip_debug assembly indent = trim_newline (strip_lines indent (split 10 assembly))
