-- ===== src/Version/Parse.antt =====
-- `goVersion` of codegen/util.go, which reads what runtime.Version returns, and the test of shrU16x8
-- in codegen/simdintrinsics.go.
use gensimd.Common.{Bool, false, List, [], ◌∷◌, Option, none, some}
use gensimd.Common.Int.{ℤ, pos, ltb_ℤ}
use gensimd.Version.{GoVersion, cmp_go_version}
use gensimd.Text.{Bytes, codes, after_prefix, split, atoi}

abbrev pub version : Option ℤ → Option ℤ → Option ℤ → Option GoVersion
version (some a) (some b) (some c) = some record { major = a; minor = b; patch = c }
version (some a) (some b) none = none
version (some a) none c = none
version none b c = none

abbrev pub three : List Bytes → Option GoVersion
three [] = none
three (x ∷ []) = none
three (x ∷ y ∷ []) = none
three (x ∷ y ∷ z ∷ []) = version (atoi x) (atoi y) (atoi z)
three (x ∷ y ∷ z ∷ w ∷ rest) = none

abbrev numbers : Option Bytes → Option GoVersion
numbers none = none
numbers (some rest) = three (split 46 rest)

unfoldable pub go_version : Bytes → Option GoVersion
go_version text = numbers (after_prefix (codes "go") text)

abbrev pub v160 : GoVersion
v160 = record { major = pos 1; minor = pos 6; patch = pos 0 }

abbrev pub later : Option GoVersion → Bool
later none = false
later (some v) = ltb_ℤ (pos 0) (cmp_go_version v v160)

-- The condition of shrU16x8.
unfoldable pub later_than_1_6 : Bytes → Bool
later_than_1_6 text = later (go_version text)
