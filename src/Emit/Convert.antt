-- ===== src/Emit/Convert.antt =====
-- codegen/instramd64.go: conversions between integers and floating-point numbers, and the return.
use gensimd.Common.{ℕ, Bool, false, ◌&&◌, not, Option, ice, if◌then◌else◌, ◌==◌, ltb}
use gensimd.Types.{OpDataType}
use gensimd.Instr.Forms.{i_cvt_int2float, i_cvt_float2int, i_cvt_float2float}
use gensimd.Instr.Select.{get_convert_instruction, xmm_instr_data_size}
use gensimd.Function.{Location}
use gensimd.State.{Asm, M, pure, ◌>>=◌, lift, RegRef}
use gensimd.Emit.Write.{instr_reg_reg}
use gensimd.Emit.Move.{is_op_data, is_op_xmm, mov_reg_reg, mov_zero_extend, mov_sign_extend}

unfoldable pub extend : Option Location → Bool → RegRef → RegRef → ℕ → ℕ → M Asm
unfolding mov_sign_extend mov_zero_extend
extend loc signed from to from_size to_size =
    if signed
    then mov_sign_extend loc from to from_size to_size false
    else mov_zero_extend loc from to from_size to_size false

unfoldable pub integer_to_integer :
    Option Location → RegRef → RegRef → OpDataType → OpDataType → M Asm
unfolding extend mov_reg_reg
integer_to_integer loc from to ftype totype =
    if ltb ftype.size totype.size
    then extend loc ftype.signed from to ftype.size totype.size
    else mov_reg_reg loc totype from to false

-- The lines of the extension are dropped; that `tmp` is marked as changed stays.
unfoldable pub widen_integer : Option Location → RegRef → OpDataType → RegRef → M (ℕ × RegRef)
unfolding extend
widen_integer loc from ftype tmp =
    if ltb ftype.size 4
    then (extend loc ftype.signed from tmp ftype.size 4 >>= λ dropped. pure (4, tmp))
    else if (ftype.size == 4) && not ftype.signed
    then (extend loc false from tmp ftype.size 8 >>= λ dropped. pure (8, tmp))
    else pure (ftype.size, from)

unfoldable pub integer_to_float :
    Option Location → RegRef → RegRef → OpDataType → OpDataType → RegRef → M Asm
unfolding widen_integer instr_reg_reg
integer_to_float loc from to ftype totype tmp = do
  to_size ← lift (xmm_instr_data_size totype.xmmvariant)
  source ← widen_integer loc from ftype tmp
  cvt ← lift (get_convert_instruction i_cvt_int2float source.0 to_size)
  instr_reg_reg loc cvt source.1 to false

unfoldable pub float_to_integer :
    Option Location → RegRef → RegRef → OpDataType → OpDataType → M Asm
unfolding instr_reg_reg
float_to_integer loc from to ftype totype = do
  from_size ← lift (xmm_instr_data_size ftype.xmmvariant)
  cvt ← lift (get_convert_instruction i_cvt_float2int from_size totype.size)
  instr_reg_reg loc cvt from to false

unfoldable pub convert_floats : Option Location → RegRef → RegRef → OpDataType → OpDataType → M Asm
unfolding instr_reg_reg
convert_floats loc from to ftype totype = do
  from_size ← lift (xmm_instr_data_size ftype.xmmvariant)
  cvt ← lift (get_convert_instruction i_cvt_float2float from_size totype.size)
  instr_reg_reg loc cvt from to false

abbrev pub is_integer_op : OpDataType → Bool
is_integer_op datatype = is_op_data datatype.op

abbrev pub is_float_op : OpDataType → Bool
is_float_op datatype = is_op_xmm datatype.op

unfoldable pub convert_op :
    Option Location → RegRef → OpDataType → RegRef → OpDataType → RegRef → M Asm
unfolding integer_to_integer integer_to_float float_to_integer convert_floats
convert_op loc from fromtype to totype tmp =
    if is_integer_op fromtype && is_integer_op totype
    then integer_to_integer loc from to fromtype totype
    else if is_integer_op fromtype && is_float_op totype
    then integer_to_float loc from to fromtype totype tmp
    else if is_float_op fromtype && is_integer_op totype
    then float_to_integer loc from to fromtype totype
    else if is_float_op fromtype && is_float_op totype
    then convert_floats loc from to fromtype totype
    else lift ice
