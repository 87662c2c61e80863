-- ===== src/Storage/Save.antt =====
-- `register.save` of codegen/storage.go: the move that it selects and the line that it writes.
use gensimd.Common.{
  ℕ, ◌≤◌, ◌<◌, ◌≡◌, refl, sym, ap, inl, inr, ◌||◌, Bool, true, false, [], ◌∷◌, Option, none, some,
  Result, ok, fault, ◌>>=◌, arith, ltb, ◌==◌, if◌then◌else◌, get_elem?, Bool-cases, String,
}
use gensimd.Common.Int.{ℤ, pos, ◌+ℤ◌}
use gensimd.Region.{Region, max}
use gensimd.Reg.{Register, reg_size, get_register}
use gensimd.Types.{
  GoType, OpDataType, InstrOpType, op_invalid, op_data, op_xmm, op_packed, XmmData, xmm_invalid,
  xmm_f32, xmm_f64, xmm_4x_f32, xmm_2x_f64,
}
use gensimd.Types.Operand.{is_xmm, get_op_data_type, get_integer_op_data_type}
use gensimd.Instr.Entry.{Instruction}
use gensimd.Instr.Forms.{i_mov, i_pmov}
use gensimd.Instr.Flags.{InstrInfo, has, left_rdwr}
use gensimd.Instr.Table.{instr_table}
use gensimd.Instr.Select.{get_instr, get_instruction, get_sized}
use gensimd.Function.{Function, Identifier, is_param, is_ret_ident, ident_size}
use gensimd.Reg.Names.{reg_fp, reg_sp}
use gensimd.State.{or_nil, reg_mem, slot, copy}
use gensimd.Storage.{save, op_data_type, mov_reg_mem, instr_reg_mem, addr_reg, is_packed}

-- The table knows the instruction, and it does not write its left operand.
abbrev pub quiet_info : Option InstrInfo → Bool
quiet_info none = false
quiet_info (some info) = if has info.flags left_rdwr then false else true

unfoldable pub quiet : Instruction → Bool
unfolding instr_table
quiet instr = quiet_info (instr_table instr)

abbrev pub mov_for : OpDataType → Result Instruction
mov_for datatype = get_instr (if is_packed datatype.op then i_pmov else i_mov) datatype

abbrev Quiet : Result Instruction → Type 0
Quiet r = (instr : Instruction) → r ≡ ok instr → quiet instr ≡ true

-- The sized forms of MOV are quiet, and so are its xmm forms.
quiet_forms :
    (quiet "MOVB" ≡ true)
    × (quiet "MOVW" ≡ true)
    × (quiet "MOVL" ≡ true)
    × (quiet "MOVQ" ≡ true)
    × (quiet "MOVOU" ≡ true)
    × (quiet "MOVSS" ≡ true)
    × (quiet "MOVSD" ≡ true)
    × (quiet "MOVUPS" ≡ true)
    × (quiet "MOVUPD" ≡ true)
unfolding quiet
quiet_forms = (refl, refl, refl, refl, refl, refl, refl, refl, refl)

abbrev quiet_result : Result Instruction → Bool
quiet_result (ok instr) = quiet instr
quiet_result (fault e) = true

quiet_sized :
    (size : ℕ) → quiet_result (get_instruction i_mov >>= λ inst. get_sized inst size) ≡ true
unfolding get_instruction get_sized
quiet_sized size = elim (Bool-cases (size == 1)) [
  | inl e ↦ rw e (quiet_forms.0)
  | inr n1 ↦ elim (Bool-cases (size == 2)) [
    | inl e ↦ rw (n1, e) (quiet_forms.1)
    | inr n2 ↦ elim (Bool-cases (size == 4)) [
      | inl e ↦ rw (n1, n2, e) (quiet_forms.2)
      | inr n4 ↦ elim (Bool-cases (size == 8)) [
        | inl e ↦ rw (n1, n2, n4, e) (quiet_forms.3)
        | inr n8 ↦ elim (Bool-cases (size == 16)) [
          | inl e ↦ rw (n1, n2, n4, n8, e) (quiet_forms.4)
          | inr n16 ↦ rw (n1, n2, n4, n8, n16) refl
        ]
      ]
    ]
  ]
]

quiet_mov :
    (op : InstrOpType) (size : ℕ) (s : Bool) (v : XmmData)
    → quiet_result (mov_for (record { op = op; size = size; signed = s; xmmvariant = v })) ≡ true
unfolding get_instr
quiet_mov op_invalid size s v = quiet_sized size
quiet_mov op_data size s v = quiet_sized size
quiet_mov op_xmm size s xmm_invalid = refl
quiet_mov op_xmm size s xmm_f32 = quiet_forms.5
quiet_mov op_xmm size s xmm_f64 = quiet_forms.6
quiet_mov op_xmm size s xmm_4x_f32 = quiet_forms.7
quiet_mov op_xmm size s xmm_2x_f64 = quiet_forms.8
quiet_mov op_packed size s xmm_invalid = refl
quiet_mov op_packed size s xmm_f32 = quiet_forms.4
quiet_mov op_packed size s xmm_f64 = quiet_forms.4
quiet_mov op_packed size s xmm_4x_f32 = quiet_forms.4
quiet_mov op_packed size s xmm_2x_f64 = quiet_forms.4

quiet-mov_for : (dt : OpDataType) (instr : Instruction) → mov_for dt ≡ ok instr → quiet instr ≡ true
quiet-mov_for dt instr e =
    rw (sym (ap quiet_result e)) (quiet_mov dt.op dt.size dt.signed dt.xmmvariant)

instr_reg_mem_lem :
    (instr : Instruction) (i : ℕ) (d r : Register) (name : String) (o : ℤ) (f : Function)
    → quiet instr ≡ true
    → get_elem? f.registers i ≡ some r
    → instr_reg_mem instr (slot i) (copy d) name o f
      ≡ ok (reg_mem instr r.name name o d.name ∷ [], f)
unfolding instr_reg_mem quiet
instr_reg_mem_lem instr i d r name o f q h = known (instr_table instr) refl q
  where
    known :
        (info : Option InstrInfo)
        → instr_table instr ≡ info
        → quiet_info info ≡ true
        → instr_reg_mem instr (slot i) (copy d) name o f
          ≡ ok (reg_mem instr r.name name o d.name ∷ [], f)
    known none e k = cc
    known (some info) e k = elim (Bool-cases (has info.flags left_rdwr)) [
      | inl t ↦ cc (rw t at k)
      | inr n ↦ rw e (rw n (ground arith))
    ]

mov_reg_mem_lem :
    (dt : OpDataType) (instr : Instruction) (i : ℕ) (d r : Register) (name : String) (o : ℤ)
    (f : Function)
    → mov_for dt ≡ ok instr
    → get_elem? f.registers i ≡ some r
    → mov_reg_mem dt (slot i) name (copy d) o f ≡ ok (reg_mem instr r.name name o d.name ∷ [], f)
unfolding mov_reg_mem
mov_reg_mem_lem dt instr i d r name o f e h =
    rw e (instr_reg_mem_lem instr i d r name o f (quiet-mov_for dt instr e) h)

frame_reg :
    (b : Bool)
    → (d : Register) × (or_nil (get_register (if b then reg_fp else reg_sp)) ≡ ok d)
      × (d.name ≡ (if b then "FP" else "SP"))
unfolding get_register
frame_reg true = (_, refl, refl)
frame_reg false = (_, refl, refl)

-- The name of the register that addresses an identifier: parameters and the result lie above the
-- frame.
abbrev pub base_name : Identifier → String
base_name ident = if is_param ident || is_ret_ident ident then "FP" else "SP"

addr_reg_lem :
    (ident : Identifier) → (d : Register) × (addr_reg ident ≡ ok d) × (d.name ≡ base_name ident)
unfolding addr_reg
addr_reg_lem ident = frame_reg (is_param ident || is_ret_ident ident)

-- The operand type of a register that holds `size` bytes of a value of type `t`.
abbrev pub chunk_type : GoType → ℕ → Result OpDataType
chunk_type t size =
    if is_xmm t
    then (get_op_data_type t >>= λ dt. ok (record dt { size = size }))
    else ok (get_integer_op_data_type false size)

-- The bytes of `rgn` lie in the identifier, and there is a move of that size for its type.
pub record Fits (ident : Identifier) (rgn : Region) : Type 0 where
  pub total : ℕ
  pub has_size : ident_size ident ≡ ok total
  pub inside : max rgn ≤ total
  pub positive : 0 < rgn.size
  pub optype : OpDataType
  pub has_type : chunk_type ident.typ rgn.size ≡ ok optype
  pub instr : Instruction
  pub has_mov : mov_for optype ≡ ok instr

-- What `OpDataType` gives, up to the size that the caller puts in.
op_data_type_lem :
    (r : Register) (m size : ℕ) (dt : OpDataType) (f : Function)
    → r.parent ≡ some m
    → chunk_type (f.identifiers m).typ size ≡ ok dt
    → (dt' : OpDataType) × (op_data_type r f ≡ ok (dt', f)) × (record dt' { size = size } ≡ dt)
unfolding op_data_type
op_data_type_lem r m size dt f owned e = elim (Bool-cases (is_xmm (f.identifiers m).typ)) [
  | inl x ↦ vector (get_op_data_type (f.identifiers m).typ) refl x (rw x at e)
  | inr n ↦ (
    get_integer_op_data_type false (reg_size r),
    rw (owned, op_data_type) (rw n refl),
    ok_injective (rw n at e),
  )
]
  where
    ok_injective : {a b : OpDataType} → ok a ≡ ok b → a ≡ b
    ok_injective h = cc

    vector :
        (g : Result OpDataType)
        → get_op_data_type (f.identifiers m).typ ≡ g
        → is_xmm (f.identifiers m).typ ≡ true
        → (get_op_data_type (f.identifiers m).typ >>= λ d. ok (record d { size = size })) ≡ ok dt
        → (dt' : OpDataType) × (op_data_type r f ≡ ok (dt', f)) × (record dt' { size = size } ≡ dt)
    vector (ok d) g x e = (d, rw (owned, op_data_type) (rw (x, g) refl), ok_injective (rw g at e))
    vector (fault b) g x e = absurd (cc (rw g at e))

-- For a register that caches a storer, and a region that lies in its identifier and has a move for
-- its size: `save` returns one move of the region into the identifier's memory, at the region's
-- offset, from FP for a parameter or the result and from SP for all others, and leaves the state as
-- it was.
pub save_lem :
    (i m : ℕ) (rgn : Region) (f : Function) (r : Register)
    → get_elem? f.registers i ≡ some r
    → r.parent ≡ some m
    → (fit : Fits (f.identifiers m) rgn)
    → save i rgn m f
      ≡ ok (
        reg_mem fit.instr r.name
              (f.identifiers m).name
              ((f.identifiers m).offset +ℤ pos rgn.offset)
              (base_name (f.identifiers m))
            ∷ [],
        f,
      )
unfolding save
save_lem i m rgn f r held owned fit =
    let t = op_data_type_lem r m rgn.size fit.optype f owned fit.has_type in
    let base = addr_reg_lem (f.identifiers m) in
    let not_past : ltb fit.total (max rgn) ≡ false = ground (arith, fit.inside) in
    ground (
      arith,
      t.1,
      t.2,
      fit.has_size,
      base.1,
      base.2,
      mov_reg_mem_lem fit.optype fit.instr i base.0 r (f.identifiers m).name
          ((f.identifiers m).offset +ℤ pos rgn.offset) f fit.has_mov held,
    )
