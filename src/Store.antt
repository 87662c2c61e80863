-- ===== src/Store.antt =====
-- codegen/storage.go and codegen/identifier.go: storing a register into an identifier's memory, and
-- the loads and stores of identifiers.
pub mod RoundTrip
use gensimd.Common.{
  ℕ, ◌+◌, Bool, true, false, not, ◌&&◌, ◌||◌, List, [], ◌∷◌, ◌++◌, Option, none, some, Result, ok,
  fault, ice, if◌then◌else◌, ◌==◌,
}
use gensimd.Common.Int.{ℤ}
use gensimd.Region.{Region}
use gensimd.Reg.{Register}
use gensimd.Types.{OpDataType}
use gensimd.Function.{
  Function, Identifier, Location, Alias, Storer, memory, constant, aliases_of, reg_type, ident_size,
  is_const, update,
}
use gensimd.Liveness.{alive_after}
use gensimd.State.{Asm, M, pure, ◌>>=◌, ◌>>◌, lift, ice_when, read, get_reg, put_reg, slot}
use gensimd.Storage.{
  fetch, add_alias, remove_alias, is_parent, get_ident, get_aliases, save, write_region,
  set_initialized, spill_register,
}
use gensimd.Alloc.{alloc_unused_reg}
use gensimd.Load.{memory_optype, load}
use gensimd.Emit.Move.{mov_reg_reg}

-- Whether a register can be given to another storer; one that caches a dead value is freed.
abbrev pub can_drop : ℕ → Option Location → M Bool
can_drop m loc f =
    if f.optimize
    then (elim (alive_after f (f.identifiers m) loc) [ ok b ↦ ok (not b, f) | fault e ↦ fault e ])
    else ok (false, f)

unfoldable pub unassign_register : ℕ → Option Location → M Bool
unfolding alive_after remove_alias
unassign_register i loc = do
  r ← get_reg i
  elim (Register.parent r) [
    | none ↦ pure true
    | some m ↦ can_drop m loc >>= λ dead. if dead then remove_alias m i else pure false
  ]

-- `MovRegReg` into a register of the storer, with the storer's operand type.
unfoldable pub move_into : Option Location → ℕ → ℕ → ℕ → M Asm
unfolding memory_optype mov_reg_reg
move_into loc m i j = do
  owner ← get_ident m
  optype ← lift (memory_optype owner)
  mov_reg_reg loc optype (slot i) (slot j) false

abbrev pub regions_of : Storer → List Region
regions_of (memory aliases regions) = regions
regions_of (constant aliases) = []

abbrev put_storer : ℕ → Storer → M (Unit {0})
put_storer m s f = ok (tt, record f { storage = update f.storage m s })

-- The last lines of `storeMem`: to memory.
unfoldable pub store_to_memory : ℕ → ℕ → Region → M Asm
unfolding set_initialized save
store_to_memory m i chunk = do
  s ← read λ f. f.storage m
  regions ← lift (set_initialized (regions_of s) chunk)
  put_storer m (memory (aliases_of s) regions)
  save i chunk m

-- Not forced to memory: the register itself becomes an alias, or an unused one does.
unfoldable pub store_to_register : Option Location → ℕ → ℕ → Region → M Asm
unfolding unassign_register add_alias alloc_unused_reg reg_type move_into store_to_memory
store_to_register loc m i chunk = do
  owner ← get_ident m
  free ← unassign_register i loc
  if free then (add_alias m record { dst = i; region = chunk } >>= λ added. pure []) else (do
    unused ← alloc_unused_reg (reg_type (Identifier.typ owner)) (Region.size chunk)
    elim unused [
      | some j ↦ add_alias m record { dst = j; region = chunk } >>= λ added. move_into loc m i j
      | none ↦ store_to_memory m i chunk
    ])

abbrev pub is_slot : Option ℕ → ℕ → Bool
is_slot none i = false
is_slot (some j) i = j == i

unfoldable pub store_mem : Option Location → ℕ → ℕ → Region → Bool → M Asm
unfolding fetch remove_alias move_into store_to_register store_to_memory
store_mem loc m i chunk force = do
  r ← get_reg i
  dst ← fetch m chunk
  if is_parent (Register.parent r) m
      then (ice_when (not (is_slot dst i)) >> pure [])
      else elim dst [
        | none ↦ (if force then store_to_memory m i chunk else store_to_register loc m i chunk)
        | some j ↦
            if force
            then (remove_alias m j >>= λ removed. store_to_memory m i chunk)
            else move_into loc m i j
      ]

unfoldable pub spill_aliases : Option Location → ℕ → Bool → List Alias → M Asm
unfolding spill_register
spill_aliases loc m force [] = pure []
spill_aliases loc m force (a ∷ as') = do
  asm ← spill_register loc m (Alias.dst a) force
  rest ← spill_aliases loc m force as'
  pure (asm ++ rest)

abbrev pub no_lines : Asm → Bool
no_lines [] = true
no_lines (line ∷ rest) = false

abbrev pub constant_storer : Storer → Bool
constant_storer (memory aliases regions) = false
constant_storer (constant aliases) = true

-- `memory.spillRegisters` and `constant.spillRegisters`: over the aliases that there are at first.
unfoldable pub spill_all : Option Location → ℕ → Bool → M Asm
unfolding spill_aliases
spill_all loc m force = do
  s ← read λ f. f.storage m
  asm ← spill_aliases loc m force (aliases_of s)
  ice_when (constant_storer s && not (no_lines asm))
  pure asm

-- `store` and `storeAndSpill` of both storers.
unfoldable pub store : Option Location → ℕ → ℕ → Region → M Asm
unfolding store_mem
store loc m i chunk = do
  s ← read λ f. f.storage m
  ice_when (constant_storer s)
  store_mem loc m i chunk false

unfoldable pub store_and_spill : Option Location → ℕ → ℕ → Region → M Asm
unfolding store_mem spill_all
store_and_spill loc m i chunk = do
  s ← read λ f. f.storage m
  ice_when (constant_storer s)
  a ← store_mem loc m i chunk true
  b ← spill_all loc m false
  pure (a ++ b)

-- The methods of identifier.
unfoldable pub load_ident : Option Location → ℕ → M (Asm × ℕ)
unfolding ident_size load
load_ident loc m = do
  ident ← get_ident m
  size ← lift (ident_size ident)
  load loc m record { offset = 0; size = size }

unfoldable pub new_value : Option Location → ℕ → ℕ → Region → M Asm
unfolding store store_and_spill
new_value loc m i chunk = do
  ident ← get_ident m
  ice_when (is_const ident)
  if Identifier.spilling ident then store_and_spill loc m i chunk else store loc m i chunk
