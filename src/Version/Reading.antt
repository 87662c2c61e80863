-- ===== src/Version/Reading.antt =====
-- What goVersion accepts, and when shrU16x8 takes a Go version for later than 1.6.0.
use gensimd.Common.{
  ◌≡◌, ◌↔◌, inl, inr, refl, sym, ap, ◌∙◌, true, false, List, [], ◌∷◌, ◌++◌, Option, none, some,
  arith, Option-cases,
}
use gensimd.Common.Int.{ℤ, pos, ltb_ℤ}
use gensimd.Version.{GoVersion, cmp_go_version, Earlier, cmp_go_version_lem}
use gensimd.Text.{Bytes, codes, after_prefix, split, atoi, has_byte, join, pieces_have}
use gensimd.Text.Split.{
  after_prefix-append, after_prefix-some, split-piece, split-last, join-split, split-clear,
}
use gensimd.Version.Parse.{version, three, go_version, v160, later_than_1_6}

-- The text is `go` and three numbers with dots between them, the numbers of the version.
pub record ReleaseOf (text : Bytes) (v : GoVersion) : Type 0 where
  pub x : Bytes
  pub y : Bytes
  pub z : Bytes
  pub written : text ≡ codes "go" ++ (x ++ 46 ∷ (y ++ 46 ∷ z))
  pub no_dot_x : has_byte 46 x ≡ false
  pub no_dot_y : has_byte 46 y ≡ false
  pub no_dot_z : has_byte 46 z ≡ false
  pub is_major : atoi x ≡ some v.major
  pub is_minor : atoi y ≡ some v.minor
  pub is_patch : atoi z ≡ some v.patch

split-three :
    (x y z : Bytes)
    → has_byte 46 x ≡ false
    → has_byte 46 y ≡ false
    → has_byte 46 z ≡ false
    → split 46 (x ++ 46 ∷ (y ++ 46 ∷ z)) ≡ x ∷ y ∷ z ∷ []
split-three x y z a b c =
    split-piece 46 x (y ++ 46 ∷ z) a
    ∙ ap (λ (l : List Bytes). x ∷ l)
        (split-piece 46 y z b ∙ ap (λ (l : List Bytes). y ∷ l) (split-last 46 z c))

reads : (text : Bytes) (v : GoVersion) → ReleaseOf text v → go_version text ≡ some v
unfolding go_version
reads text v r =
    rw
      (
        r.written,
        after_prefix-append (codes "go") (r.x ++ 46 ∷ (r.y ++ 46 ∷ r.z)),
        split-three r.x r.y r.z r.no_dot_x r.no_dot_y r.no_dot_z,
        r.is_major,
        r.is_minor,
        r.is_patch,
      )
      refl

version-some :
    (a b c : Option ℤ) (v : GoVersion)
    → version a b c ≡ some v
    → (a ≡ some v.major) × (b ≡ some v.minor) × (c ≡ some v.patch)
version-some (some a) (some b) (some c) v h = (grind (arith, h), grind (arith, h), grind (arith, h))
version-some (some a) (some b) none v h = absurd (ground (arith, h))
version-some (some a) none c v h = absurd (ground (arith, h))
version-some none b c v h = absurd (ground (arith, h))

three-some :
    (pieces : List Bytes) (v : GoVersion)
    → three pieces ≡ some v
    → (x : Bytes) × (y : Bytes) × (z : Bytes) × (pieces ≡ x ∷ y ∷ z ∷ [])
      × (version (atoi x) (atoi y) (atoi z) ≡ some v)
three-some [] v h = absurd (ground (arith, h))
three-some (x ∷ []) v h = absurd (ground (arith, h))
three-some (x ∷ y ∷ []) v h = absurd (ground (arith, h))
three-some (x ∷ y ∷ z ∷ []) v h = (x, y, z, refl, h)
three-some (x ∷ y ∷ z ∷ w ∷ rest) v h = absurd (ground (arith, h))

-- The pieces of the rest, if it has three.
three_pieces :
    (rest x y z : Bytes)
    → split 46 rest ≡ x ∷ y ∷ z ∷ []
    → (rest ≡ x ++ 46 ∷ (y ++ 46 ∷ z))
      × (has_byte 46 x ≡ false)
      × (has_byte 46 y ≡ false)
      × (has_byte 46 z ≡ false)
three_pieces rest x y z e =
    let clear = sym (ap (pieces_have 46) e) ∙ split-clear 46 rest in
    (
      sym (join-split 46 rest) ∙ ap (join 46) e,
      ground (arith, clear),
      ground (arith, clear),
      ground (arith, clear),
    )

accepted : (text : Bytes) (v : GoVersion) → go_version text ≡ some v → ReleaseOf text v
unfolding go_version
accepted text v h = elim (Option-cases (after_prefix (codes "go") text)) [
  | inl e ↦ absurd (ground (arith, h, e))
  | inr (rest, e) ↦
      let p = three-some (split 46 rest) v (ground (arith, h, e)) in
      let q = three_pieces rest p.0 p.1 p.2 p.3 in
      let n = version-some (atoi p.0) (atoi p.1) (atoi p.2) v p.4 in
      record {
        x = p.0;
        y = p.1;
        z = p.2;
        written =
            after_prefix-some (codes "go") text rest e ∙ ap (λ (r : Bytes). codes "go" ++ r) q.0;
        no_dot_x = q.1;
        no_dot_y = q.2;
        no_dot_z = q.3;
        is_major = n.0;
        is_minor = n.1;
        is_patch = n.2;
      }
]

go_version_iff : (text : Bytes) (v : GoVersion) → (go_version text ≡ some v) ↔ ReleaseOf text v
go_version_iff text v = (accepted text v, reads text v)

only_one :
    (a b : GoVersion) → ltb_ℤ (pos 0) (cmp_go_version a b) ≡ true → cmp_go_version a b ≡ pos 1
unfolding cmp_go_version
only_one a b h = ground (arith, h)

module _ (text : Bytes) where
  found : later_than_1_6 text ≡ true → (v : GoVersion) × ReleaseOf text v × Earlier v160 v
  unfolding later_than_1_6
  found h = elim (Option-cases (go_version text)) [
    | inl e ↦ absurd (ground (arith, h, e))
    | inr (v, e) ↦ (
      v,
      accepted text v e,
      (cmp_go_version_lem v v160).1.0 (only_one v v160 (ground (arith, h, e))),
    )
  ]

  compared : ((v : GoVersion) × ReleaseOf text v × Earlier v160 v) → later_than_1_6 text ≡ true
  unfolding later_than_1_6
  compared (v, r, late) = rw (reads text v r, (cmp_go_version_lem v v160).1.1 late) refl

-- `shrU16x8` takes the version for a later one exactly when the text is `go` and three numbers with
-- dots between them, and the version that they make comes after 1.6.0.
pub later_than_1_6_iff :
    (text : Bytes)
    → (later_than_1_6 text ≡ true) ↔ ((v : GoVersion) × ReleaseOf text v × Earlier v160 v)
later_than_1_6_iff text = (found text, compared text)
