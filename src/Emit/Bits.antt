-- ===== src/Emit/Bits.antt =====
-- BitwiseOp on integers in general registers, against Go's operators.
use Prim.Native.Nat.{bit_and, bit_or, bit_xor}
use gensimd.Common.{ℕ, ◌%◌, ◌^◌, ◌≡◌, ◌≢◌, refl, Bool, true, false, [], ◌∷◌, Option, ok, arith}
use gensimd.Common.Int.{negsuc}
use gensimd.Reg.{Register}
use gensimd.Instr.Forms.{InstructionType, i_mov, i_and, i_or, i_xor}
use gensimd.Function.{Function, Location}
use gensimd.State.{reg_reg, imm_reg, Asm, slot, M}
use gensimd.Emit.Write.{data_type}
use gensimd.Emit.Arith.{
  Token, and_token, or_token, xor_token, and_not, combine_reg_reg, three_widths, after_move,
  same_width,
}
use gensimd.Emit.Logic.{whole_reg_reg, and_not_reg_reg, bitwise_case, bitwise_op}
use gensimd.Emit.Cpu.{Cpu, WordOp, low, moved, anded, ored, xored}
use gensimd.Emit.Lines.{Holds, marked, marked-Holds, marked-Holds-same, marked-marked}
use gensimd.Emit.Known.{
  Width, quad, bytes, bits, on_words, Chosen, chosen_mov, chosen_and, chosen_or, chosen_xor,
}
use gensimd.Emit.Word.{combine_reg_reg_lem, not_reg_lem}
use gensimd.Emit.Run.{Computes, complement, move_not_then-value, move_not_then-others}
use gensimd.Emit.Compute.{
  slots_apart, three_widths_lem, moves, after_move_lem, Computes-same, then_lem,
}

-- On whole registers of 64 bits the functions that take no size are those for eight bytes.
whole_reg_reg_lem :
    (f : Function) (loc : Option Location) (itype : InstructionType) (i k : ℕ) (r y : Register)
    → Holds f i r
    → Holds f k y
    → whole_reg_reg itype loc (slot k) (slot i) false f
      ≡ combine_reg_reg itype loc (data_type false 8) (slot k) (slot i) false f
unfolding whole_reg_reg combine_reg_reg same_width
whole_reg_reg_lem f loc itype i k r y h hy =
    ground (arith, Holds.at_slot h, Holds.at_slot hy, Holds.wide h, Holds.wide hy)

and_not_reg_reg_lem :
    (f : Function) (loc : Option Location) (i j : ℕ) (r x : Register)
    → Holds f i r
    → Holds f j x
    → x.name ≢ r.name
    → (w : Width)
    → and_not_reg_reg loc (slot j) (slot i) (bytes w) false f
      ≡ ok (
        imm_reg (Chosen.instr (chosen_xor false w)) (negsuc 0) r.name
            ∷ reg_reg (Chosen.instr (chosen_and false w)) x.name r.name
            ∷ [],
        marked i r f,
      )
unfolding and_not_reg_reg same_width
and_not_reg_reg_lem f loc i j r x h hx n w =
    let inv : Chosen i_xor (data_type false (bytes w)) (on_words xored w) = chosen_xor false w in
    let and : Chosen i_and (data_type false (bytes w)) (on_words anded w) = chosen_and false w in
    let apart : j ≢ i = slots_apart f i j r x h hx n in
    ground (
      arith,
      h.at_slot,
      hx.at_slot,
      h.wide,
      hx.wide,
      not_reg_lem f loc i r h w inv.instr inv.selected inv.table,
      combine_reg_reg_lem (marked i r f) loc i j (record r { dirty = true }) x apart
          (marked-Holds-same f i r h) (marked-Holds f i r h j x apart hx) i_and false w and.instr
          and.selected and.table,
      marked-marked f i r h,
    )

-- The operators of BitwiseOp but for the shifts. `|` and `^`, which work on whole registers, are
-- taken at 64 bits only.
pub data BitOp : Width → Type 0 where
  both_of without_of : {w : Width} → BitOp w
  either_of one_of : BitOp quad

abbrev pub bit_token : {w : Width} → BitOp w → Token
bit_token both_of = and_token
bit_token without_of = and_not
bit_token either_of = or_token
bit_token one_of = xor_token

abbrev pub go_bits : {w : Width} → BitOp w → WordOp
go_bits both_of w x y = bit_and x y
go_bits without_of w x y = bit_and x (complement w y)
go_bits either_of w x y = bit_or x y
go_bits one_of w x y = bit_xor x y

module _ (f : Function) (loc : Option Location) (i j k : ℕ) (r x y : Register) (h : Holds f i r)
    (hx : Holds f j x) (hy : Holds f k y) (nx : x.name ≢ r.name) (ny : y.name ≢ r.name)
    {Machine : Type 0} (cpu : Cpu Machine) where
  bitwise_op_steps :
      (op : Token) (signed : Bool) (size : ℕ)
      → bitwise_op loc op signed (slot j) (slot k) (slot i) size f
        ≡ bitwise_case loc op signed (slot j) (slot k) (slot i) size f
  unfolding bitwise_op
  bitwise_op_steps op signed size =
      then_lem (three_widths (slot j) (slot k) (slot i))
        (bitwise_case loc op signed (slot j) (slot k) (slot i) size) f
        (three_widths_lem f loc i j k r x y h hx hy)

  -- The code that moves the right operand to the result and works on it.
  bits_two :
      (w : Width) (itype : InstructionType) (op : WordOp)
      (c : Chosen itype (data_type false (bytes w)) (on_words op w)) (rest : M Asm)
      → rest (marked i r f)
        ≡ combine_reg_reg itype loc
            (data_type false (bytes w))
            (slot j)
            (slot i)
            false
            (marked i r f)
      → Computes cpu
          (after_move loc (data_type false (bytes w)) (slot k) (slot i) rest f)
          f
          i
          r
          w
          (λ m. op (bits w) (low cpu (bits w) m x.name) (low cpu (bits w) m y.name) % 2 ^ bits w)
  bits_two w itype op c rest e =
      after_move_lem f loc i k j r y x h hy hx ny nx false w itype op c cpu rest e

  whole_two :
      (itype : InstructionType) (op : WordOp)
      (c : Chosen itype (data_type false 8) (on_words op quad))
      → Computes cpu
          (after_move loc
            (data_type false 8)
            (slot k)
            (slot i)
            (whole_reg_reg itype loc (slot j) (slot i) false)
            f)
          f
          i
          r
          quad
          (λ m. op 64 (low cpu 64 m x.name) (low cpu 64 m y.name) % 2 ^ 64)
  whole_two itype op c =
      bits_two quad itype op c (whole_reg_reg itype loc (slot j) (slot i) false) (
        whole_reg_reg_lem (marked i r f) loc itype i j (record r { dirty = true }) x
          (marked-Holds-same f i r h) (marked-Holds f i r h j x (slots_apart f i j r x h hx nx) hx))

  without_lem :
      (w : Width) (signed : Bool)
      → Computes cpu
          (bitwise_case loc and_not signed (slot j) (slot k) (slot i) (bytes w) f)
          f
          i
          r
          w
          (λ m.
            bit_and (low cpu (bits w) m x.name) (complement (bits w) (low cpu (bits w) m y.name))
            % 2 ^ bits w)
  unfolding bitwise_case
  without_lem w signed =
      let mov : Chosen i_mov (data_type false (bytes w)) (on_words moved w) = chosen_mov false w in
      let inv : Chosen i_xor (data_type false (bytes w)) (on_words xored w) = chosen_xor false w in
      let and : Chosen i_and (data_type false (bytes w)) (on_words anded w) = chosen_and false w in
      record {
        asm =
            reg_reg mov.instr y.name r.name
            ∷ imm_reg inv.instr (negsuc 0) r.name
            ∷ reg_reg and.instr x.name r.name
            ∷ [];
        returns = ground (
          arith,
          moves f loc i k j r y x h hy hx ny nx false w,
          and_not_reg_reg_lem (marked i r f) loc i j (record r { dirty = true }) x
              (marked-Holds-same f i r h)
              (marked-Holds f i r h j x (slots_apart f i j r x h hx nx) hx) nx w,
          marked-marked f i r h,
        );
        result =
            move_not_then-value cpu w r.name h.general anded mov.instr inv.instr and.instr y.name
              x.name mov.means inv.means and.means hx.general nx;
        others =
            move_not_then-others cpu w r.name h.general anded mov.instr inv.instr and.instr y.name
              x.name mov.means inv.means and.means hx.general nx;
      }

  -- For three general registers in slots, the result's of another name than the operands', BitwiseOp for
  -- & and &^ at each integer size, and for | and ^ at eight bytes, returns code and only marks the
  -- result's register as changed. On every processor that meets the laws of Cpu, the code leaves what
  -- Go's operator makes of the operands in the low w bits of the result's register, and every other
  -- general register as it was.
  pub bitwise_op_lem :
      (w : Width) (op : BitOp w) (signed : Bool)
      → Computes cpu
          (bitwise_op loc (bit_token op) signed (slot j) (slot k) (slot i) (bytes w) f)
          f
          i
          r
          w
          (λ m.
            go_bits op (bits w) (low cpu (bits w) m x.name) (low cpu (bits w) m y.name)
            % 2 ^ bits w)
  unfolding bitwise_case
  bitwise_op_lem w both_of signed =
      Computes-same (bitwise_op_steps and_token signed (bytes w)) (λ m. refl)
        (bits_two w i_and anded (chosen_and false w)
          (combine_reg_reg i_and loc (data_type false (bytes w)) (slot j) (slot i) false) refl)
  bitwise_op_lem w without_of signed =
      Computes-same (bitwise_op_steps and_not signed (bytes w)) (λ m. refl) (without_lem w signed)
  bitwise_op_lem quad either_of signed =
      Computes-same (bitwise_op_steps or_token signed 8) (λ m. refl) (whole_two i_or ored chosen_or)
  bitwise_op_lem quad one_of signed =
      Computes-same (bitwise_op_steps xor_token signed 8) (λ m. refl)
        (whole_two i_xor xored (chosen_xor false quad))
