-- ===== src/Version.antt =====
-- `cmpGoVersion` of codegen/util.go: the order of Go releases.
use mathlib.Core.Path.{subst}
use gensimd.Common.{ℕ, ◌≡◌, ◌⊎◌, ◌↔◌, true, arith, if◌then◌else◌}
use gensimd.Common.Int.{ℤ, pos, negsuc, ltb_ℤ}
pub mod Parse
pub mod Reading

pub record GoVersion : Type 0 where
  pub major : ℤ
  pub minor : ℤ
  pub patch : ℤ

unfoldable pub cmp_go_version : GoVersion → GoVersion → ℤ
cmp_go_version v1 v2 =
    if ltb_ℤ v2.major v1.major
    then pos 1
    else if ltb_ℤ v1.major v2.major
    then negsuc 0
    else if ltb_ℤ v2.minor v1.minor
    then pos 1
    else if ltb_ℤ v1.minor v2.minor
    then negsuc 0
    else if ltb_ℤ v2.patch v1.patch
    then pos 1
    else if ltb_ℤ v1.patch v2.patch
    then negsuc 0
    else pos 0

abbrev pub Less : ℤ → ℤ → Type 0
Less a b = ltb_ℤ a b ≡ true

-- The lexicographic order on the three numbers.
abbrev pub Earlier : GoVersion → GoVersion → Type 0
Earlier a b =
    Less a.major b.major
    ⊎ ((a.major ≡ b.major) × (Less a.minor b.minor ⊎ ((a.minor ≡ b.minor) × Less a.patch b.patch)))

same : (a b : GoVersion) → cmp_go_version a b ≡ pos 0 → a ≡ b
unfolding cmp_go_version
same a b h =
    let e1 : a.major ≡ b.major = ground arith in
    let e2 : a.minor ≡ b.minor = ground arith in
    let e3 : a.patch ≡ b.patch = ground arith in cc (e1, e2, e3)

itself : (a : GoVersion) → cmp_go_version a a ≡ pos 0
unfolding cmp_go_version
itself a = ground arith

-- `cmpGoVersion` answers -1, 1 or 0 exactly when the first version is earlier than the second in
-- the lexicographic order, when the second is earlier, and when they are the same version.
pub cmp_go_version_lem :
    (a b : GoVersion)
    → ((cmp_go_version a b ≡ negsuc 0) ↔ Earlier a b)
      × ((cmp_go_version a b ≡ pos 1) ↔ Earlier b a)
      × ((cmp_go_version a b ≡ pos 0) ↔ (a ≡ b))
unfolding cmp_go_version
cmp_go_version_lem a b = (
  ground arith,
  ground arith,
  (same a b, λ e. subst (λ (v : GoVersion). cmp_go_version a v ≡ pos 0) e (itself a)),
)
