-- ===== src/Storage.antt =====
-- codegen/storage.go: registers that cache regions of an identifier's memory, and how they are
-- given up. `m` is the number of a storer and `i` a slot of Function.registers.
pub mod Aliases
pub mod Initialized
pub mod Save
pub mod Invariant
pub mod Kept
pub mod Spill
pub mod Release
pub mod Adding
pub mod Dropping
pub mod Dropped
pub mod Scalars
use gensimd.Common.{
  ℕ, suc, ◌+◌, Bool, true, false, not, ◌&&◌, ◌||◌, List, [], ◌∷◌, ◌++◌, Option, none, some, String,
  Result, ok, fault, ice, Fault, panics, nil_dereference, if◌then◌else◌, ◌==◌, ltb,
}
use gensimd.Common.Int.{ℤ, pos, ◌+ℤ◌}
use gensimd.Region.{Region, max, overlap, overlapping, any_pair, overlap_regions, merge_regions}
use gensimd.Reg.{Register, reg_size, get_register}
use gensimd.Reg.Names.{reg_fp, reg_sp}
use gensimd.Types.{OpDataType, InstrOpType, op_invalid, op_data, op_xmm, op_packed}
use gensimd.Types.Operand.{is_xmm, get_op_data_type, get_integer_op_data_type}
use gensimd.Instr.Entry.{Instruction}
use gensimd.Instr.Forms.{i_mov, i_pmov}
use gensimd.Instr.Flags.{InstrInfo, has, left_rdwr}
use gensimd.Instr.Table.{instr_table}
use gensimd.Instr.Select.{get_instr}
use gensimd.Function.{
  Function, Identifier, Location, Alias, Storer, memory, constant, aliases_of, with_aliases, update,
  is_param, is_ret_ident, ident_size,
}
use gensimd.Liveness.{alive}
use gensimd.State.{
  Line, reg_mem, Asm, M, pure, ◌>>=◌, ◌>>◌, lift, ice_when, read, or_nil, get_reg, put_reg, RegRef,
  slot, copy, get_ref, mark_dirty,
}

abbrev pub has_dst : ℕ → List Alias → Bool
has_dst i [] = false
has_dst i (a ∷ as') = (Alias.dst a == i) || has_dst i as'

-- The two panics of `check`: one register twice, or two regions that overlap.
abbrev pub clash : Alias → Alias → Bool
clash a b = (Alias.dst a == Alias.dst b) || overlapping (Alias.region a) (Alias.region b)

abbrev pub put_aliases : ℕ → List Alias → M (Unit {0})
put_aliases m aliases f =
    ok (tt, record f { storage = update f.storage m (with_aliases (f.storage m) aliases) })

abbrev pub get_aliases : ℕ → M (List Alias)
get_aliases m = read λ f. aliases_of (f.storage m)

unfoldable pub check : ℕ → M (Unit {0})
unfolding any_pair overlap
check m = get_aliases m >>= λ aliases. ice_when (any_pair clash aliases)

unfoldable pub add_alias : ℕ → Alias → M Bool
unfolding check
add_alias m new_alias = do
  check m
  r ← get_reg (Alias.dst new_alias)
  put_reg (Alias.dst new_alias) (record r { parent = some m })
  aliases ← get_aliases m
  let is_new = not (has_dst (Alias.dst new_alias) aliases)
  put_aliases m (if is_new then aliases ++ new_alias ∷ [] else aliases)
  check m
  pure is_new

abbrev pub without : ℕ → List Alias → List Alias
without i [] = []
without i (a ∷ as') = let rest = without i as' in if Alias.dst a == i then rest else a ∷ rest

abbrev pub is_parent : Option ℕ → ℕ → Bool
is_parent none m = false
is_parent (some p) m = p == m

-- The `panic` behind a removal that found nothing.
abbrev panic_unless : Bool → M (Unit {0})
panic_unless true f = ok (tt, f)
panic_unless false f = fault panics

unfoldable pub remove_alias : ℕ → ℕ → M Bool
unfolding check
remove_alias m i = do
  check m
  r ← get_reg i
  ice_when (not (is_parent r.parent m))
  aliases ← get_aliases m
  panic_unless (has_dst i aliases)
  put_aliases m (without i aliases)
  put_reg i (record r { parent = none; in_use = false })
  check m
  pure true

-- The alias at a region's offset, which must have its size.
abbrev pub find_region : Region → List Alias → Result (Option ℕ)
find_region rgn [] = ok none
find_region rgn (a ∷ as') =
    if Region.offset (Alias.region a) == Region.offset rgn
    then (if Region.size (Alias.region a) == Region.size rgn then ok (some (Alias.dst a)) else ice)
    else find_region rgn as'

unfoldable pub fetch : ℕ → Region → M (Option ℕ)
unfolding check
fetch m rgn = do
  check m
  aliases ← get_aliases m
  r ← lift (find_region rgn aliases)
  check m
  pure r

abbrev pub find_dst : ℕ → List Alias → Option Alias
find_dst i [] = none
find_dst i (a ∷ as') = if Alias.dst a == i then some a else find_dst i as'

unfoldable pub get_alias : ℕ → ℕ → M (Option Alias)
unfolding check
get_alias m i = do check m; aliases ← get_aliases m; check m; pure (find_dst i aliases)

-- `Addr`: parameters and the result are addressed from FP, all else from SP.
unfoldable pub addr_reg : Identifier → Result Register
unfolding is_ret_ident get_register
addr_reg ident =
    or_nil (get_register (if is_param ident || is_ret_ident ident then reg_fp else reg_sp))

unfoldable pub instr_reg_mem : Instruction → RegRef → RegRef → String → ℤ → M Asm
unfolding mark_dirty
instr_reg_mem instr src dst dst_name dst_offset = do
  info ← lift (elim (instr_table instr) [ none ↦ ice | some info ↦ ok info ])
  if has (InstrInfo.flags info) left_rdwr then mark_dirty src else pure tt
  s ← get_ref src
  d ← get_ref dst
  pure (reg_mem instr (Register.name s) dst_name dst_offset (Register.name d) ∷ [])

abbrev pub is_packed : InstrOpType → Bool
is_packed op_packed = true
is_packed op_invalid = false
is_packed op_data = false
is_packed op_xmm = false

unfoldable pub mov_reg_mem : OpDataType → RegRef → String → RegRef → ℤ → M Asm
unfolding instr_reg_mem
mov_reg_mem datatype src dst_name dst dst_offset = do
  mov ← lift (get_instr (if is_packed datatype.op then i_pmov else i_mov) datatype)
  instr_reg_mem mov src dst dst_name dst_offset

abbrev pub get_ident : ℕ → M Identifier
get_ident m = read λ f. f.identifiers m

-- `register.OpDataType`.
unfoldable pub op_data_type : Register → M OpDataType
unfolding is_xmm
op_data_type r = do
  m ← lift (elim (Register.parent r) [ none ↦ ice | some m ↦ ok m ])
  owner ← get_ident m
  if is_xmm (Identifier.typ owner)
      then lift (get_op_data_type (Identifier.typ owner))
      else pure (get_integer_op_data_type false (reg_size r))

-- `register.save`, into the memory numbered `m`.
unfoldable pub save : ℕ → Region → ℕ → M Asm
unfolding op_data_type mov_reg_mem
save i chunk m = do
  r ← get_reg i
  optype ← op_data_type r
  dst ← get_ident m
  size ← lift (ident_size dst)
  ice_when (ltb size (max chunk))
  base ← lift (addr_reg dst)
  mov_reg_mem (record optype { size = Region.size chunk }) (slot i) (Identifier.name dst)
      (copy base) (Identifier.offset dst +ℤ pos (Region.offset chunk))

-- The rounds of `overlap_regions` and `merge_region` (Region/Merge).
abbrev pub fuel : ℕ
fuel = 2

abbrev same_start : Region → Region → Bool
same_start r s = Region.offset r == Region.offset s

unfoldable pub is_initialized : List Region → Region → Result Bool
unfolding overlap_regions
is_initialized regions rgn = elim (overlap_regions fuel rgn regions) [
  | fault e ↦ fault e
  | ok o ↦
      if Region.size o == 0
      then ok false
      else if (Region.size o == Region.size rgn) && not (same_start o rgn)
      then ice
      else ok (Region.size rgn == Region.size o)
]

unfoldable pub set_initialized : List Region → Region → Result (List Region)
unfolding is_initialized overlap_regions merge_regions
set_initialized regions rgn = elim (is_initialized regions rgn) [
  | fault e ↦ fault e
  | ok true ↦ ok regions
  | ok false ↦ merge_regions (overlap_regions fuel) (regions ++ rgn ∷ [])
]

abbrev put_regions : ℕ → List Alias → Result (List Region) → M (Unit {0})
put_regions m aliases (fault e) f = fault e
put_regions m aliases (ok regions) f =
    ok (tt, record f { storage = update f.storage m (memory aliases regions) })

-- `r.dirty || force || !m.isInitialized(rgn)`, where the last test is made only if needed.
unfoldable pub needs_write : Register → Bool → List Region → Region → Result Bool
unfolding is_initialized
needs_write r force regions rgn =
    if Register.dirty r || force
    then ok true
    else elim (is_initialized regions rgn) [ ok b ↦ ok (not b) | fault e ↦ fault e ]

unfoldable pub write_region : Bool → ℕ → ℕ → List Region → Region → M Asm
unfolding save set_initialized
write_region false m i regions rgn = pure []
write_region true m i regions rgn = do
  asm ← save i rgn m
  aliases ← get_aliases m
  put_regions m aliases (set_initialized regions rgn)
  pure asm

unfoldable pub is_dead : ℕ → Option Location → Function → Result Bool
unfolding alive
is_dead m loc f =
    if Function.optimize f
    then elim (alive f (Function.identifiers f m) loc) [ ok b ↦ ok (not b) | fault e ↦ fault e ]
    else ok false

-- `memory.spillRegister` and `constant.spillRegister`, after the alias is found.
unfoldable pub write_back : Option Location → ℕ → ℕ → Storer → Region → Bool → M Asm
unfolding write_region
write_back loc m i (memory aliases regions) rgn force = do
  dead ← (λ f. lift (is_dead m loc f) f)
  r ← get_reg i
  needed ← (if dead then pure false else lift (needs_write r force regions rgn))
  write_region needed m i regions rgn
write_back loc m i (constant aliases) rgn force = do
  r ← get_reg i
  ice_when (Register.dirty r || force)
  pure []

abbrev alias_or_ice : Storer → Option Alias → Result Region
alias_or_ice (memory aliases regions) none = ice
alias_or_ice (memory aliases regions) (some a) = ok (Alias.region a)
alias_or_ice (constant aliases) a = ok record { offset = 0; size = 0 }

unfoldable pub spill_register : Option Location → ℕ → ℕ → Bool → M Asm
unfolding write_back
spill_register loc m i force = do
  storer ← read λ f. f.storage m
  a ← (elim storer [ memory aliases regions ↦ get_alias m i | constant aliases ↦ pure none ])
  rgn ← lift (alias_or_ice storer a)
  asm ← write_back loc m i storer rgn force
  _ ← remove_alias m i
  pure asm

-- `register.spill`.
unfoldable pub spill : Option Location → ℕ → M Asm
unfolding spill_register
spill loc i = do
  r ← get_reg i
  elim (Register.parent r) [ none ↦ pure [] | some m ↦ spill_register loc m i false ]
