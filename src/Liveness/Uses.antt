-- ===== src/Liveness/Uses.antt =====
-- What the liveness test answers, against the uses of a value that a block has.
use gensimd.Common.{
  ℕ, ◌≡◌, refl, inl, inr, Bool, true, false, not, ◌&&◌, ◌||◌, List, [], ◌∷◌, ◌++◌, Option, none,
  some, ok, ap, Bool-cases, arith, ◌==◌,
}
use gensimd.Function.{SsaInstr, BasicBlock, Location, Identifier, Function, ssa_value}
use gensimd.Liveness.{
  uses, scan, alive_test, alive, alive_after, is_block_local, scan_block, test_local,
}

-- Some instruction of the list uses the value.
abbrev pub any_uses : ℕ → List SsaInstr → Bool
any_uses value [] = false
any_uses value (i ∷ is) = uses value (SsaInstr.operands i) || any_uses value is

-- No instruction of the list has the number.
abbrev pub absent : ℕ → List SsaInstr → Bool
absent loc [] = true
absent loc (i ∷ is) = not (SsaInstr.id i == loc) && absent loc is

-- After the flag is set every use counts.
scan_started :
    (value loc : ℕ) (after : Bool) (is : List SsaInstr)
    → scan value loc after true is ≡ any_uses value is
unfolding scan
scan_started value loc after [] = refl
scan_started value loc after (i ∷ is) = ground (arith, scan_started value loc after is)

scan_lem :
    (value loc : ℕ) (before behind : List SsaInstr) (at : SsaInstr)
    → absent loc before ≡ true
    → at.id ≡ loc
    → (scan value loc false false (before ++ at ∷ behind) ≡ any_uses value (at ∷ behind))
      × (scan value loc true false (before ++ at ∷ behind) ≡ any_uses value behind)
unfolding scan
scan_lem value loc [] behind at h e = (
  ground (arith, scan_started value loc false behind),
  ground (arith, scan_started value loc true behind),
)
scan_lem value loc (i ∷ is) behind at h e =
    ground (arith, scan_lem value loc is behind at (ground arith) e)

-- For an identifier that lives in one block, at the instruction `at` of a block where no earlier
-- instruction has its number: `alive` answers whether `at` or an instruction behind it uses the
-- value, `aliveAfter` whether one behind it does.
pub alive_lem :
    (f : Function) (ident : Identifier) (loc : Location) (b : BasicBlock) (value : ℕ)
    (before behind : List SsaInstr) (at : SsaInstr)
    → is_block_local f.blocks ident ≡ true
    → ssa_value ident ≡ some value
    → loc.block ≡ some b
    → b.instrs ≡ before ++ at ∷ behind
    → absent loc.instr before ≡ true
    → at.id ≡ loc.instr
    → (alive f ident (some loc) ≡ ok (any_uses value (at ∷ behind)))
      × (alive_after f ident (some loc) ≡ ok (any_uses value behind))
unfolding alive alive_after alive_test scan_block
alive_lem f ident loc b value before behind at l v c i h e =
    let s = scan_lem value loc.instr before behind at h e in
    (rw (l, v, c, i, s.0), rw (l, v, c, i, s.1))

scan_mono :
    (value loc : ℕ) (is : List SsaInstr)
    → scan value loc true false is ≡ true
    → scan value loc false false is ≡ true
unfolding scan
scan_mono value loc [] h = absurd (ground arith)
scan_mono value loc (i ∷ is) h =
    ground (
      arith,
      scan_started value loc true is,
      scan_started value loc false is,
      scan_mono value loc is,
    )

test_local_mono :
    (value : Option ℕ) (loc : Option Location)
    → test_local value loc true ≡ ok true
    → test_local value loc false ≡ ok true
unfolding scan_block
test_local_mono value none h = h
test_local_mono none (some loc) h = ground arith
test_local_mono (some value) (some loc) h = by_block loc.block h
  where
    by_block :
        (b : Option BasicBlock)
        → scan_block (some value) loc b true ≡ ok true
        → scan_block (some value) loc b false ≡ ok true
    by_block none k = k
    by_block (some b) k = ap ok (scan_mono value loc.instr b.instrs (ground arith))

-- `alive` answers true wherever `aliveAfter` does, for every identifier and location: a value that
-- is needed after an instruction is not taken for dead at it.
pub alive-alive_after :
    (f : Function) (ident : Identifier) (loc : Option Location)
    → alive_after f ident loc ≡ ok true
    → alive f ident loc ≡ ok true
unfolding alive alive_after alive_test
alive-alive_after f ident loc h = elim (Bool-cases (is_block_local f.blocks ident)) [
  | inl e ↦ ground (arith, e, test_local_mono (ssa_value ident) loc)
  | inr e ↦ ground (arith, e)
]
