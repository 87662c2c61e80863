-- ===== src/Instr/Table/Move.antt =====
-- codegen/namesamd64.go: the entries of instrTable from IDIVB to ORW.
use gensimd.Common.{List, [], ◌∷◌}
use gensimd.Instr.Entry.{Entry, entry, entry_regs}
use gensimd.Instr.Flags.{
  ◌|||◌, cjmp, conv, imul_axdx, left_addr, left_read, move_flag, ok_flag, right_rdwr, right_write,
  set_carry, size_b, size_d, size_f, size_l, size_o, size_q, size_w, use_carry,
}
use gensimd.Reg.Names.{reg_ax, reg_di, reg_dx, reg_si}

unfoldable pub move_entries : List Entry
move_entries =
    entry_regs "IDIVB" (size_b ||| left_read ||| set_carry) (reg_ax) (reg_ax)
    ∷ entry_regs "IDIVL" (size_l ||| left_read ||| set_carry) (reg_ax ||| reg_dx)
        (reg_ax ||| reg_dx)
    ∷ entry_regs "IDIVQ" (size_q ||| left_read ||| set_carry) (reg_ax ||| reg_dx)
        (reg_ax ||| reg_dx)
    ∷ entry_regs "IDIVW" (size_w ||| left_read ||| set_carry) (reg_ax ||| reg_dx)
        (reg_ax ||| reg_dx)
    ∷ entry_regs "IMULB" (size_b ||| left_read ||| set_carry) (reg_ax) (reg_ax)
    ∷ entry "IMULL" (size_l ||| left_read ||| imul_axdx ||| set_carry)
    ∷ entry "IMULQ" (size_q ||| left_read ||| imul_axdx ||| set_carry)
    ∷ entry "IMULW" (size_w ||| left_read ||| imul_axdx ||| set_carry)
    ∷ entry "INCB" (size_b ||| right_rdwr)
    ∷ entry "INCL" (size_l ||| right_rdwr)
    ∷ entry "INCW" (size_w ||| right_rdwr)
    ∷ entry "JCC" (cjmp ||| use_carry)
    ∷ entry "JCS" (cjmp ||| use_carry)
    ∷ entry "JEQ" (cjmp ||| use_carry)
    ∷ entry "JGE" (cjmp ||| use_carry)
    ∷ entry "JGT" (cjmp ||| use_carry)
    ∷ entry "JHI" (cjmp ||| use_carry)
    ∷ entry "JLE" (cjmp ||| use_carry)
    ∷ entry "JLS" (cjmp ||| use_carry)
    ∷ entry "JLT" (cjmp ||| use_carry)
    ∷ entry "JMI" (cjmp ||| use_carry)
    ∷ entry "JNE" (cjmp ||| use_carry)
    ∷ entry "JOC" (cjmp ||| use_carry)
    ∷ entry "JOS" (cjmp ||| use_carry)
    ∷ entry "JPC" (cjmp ||| use_carry)
    ∷ entry "JPL" (cjmp ||| use_carry)
    ∷ entry "JPS" (cjmp ||| use_carry)
    ∷ entry "LEAL" (left_addr ||| right_write)
    ∷ entry "LEAQ" (left_addr ||| right_write)
    ∷ entry "MOVBLSX" (size_l ||| left_read ||| right_write ||| conv)
    ∷ entry "MOVBLZX" (size_l ||| left_read ||| right_write ||| conv)
    ∷ entry "MOVBQSX" (size_l ||| left_read ||| right_write ||| conv)
    ∷ entry "MOVBQZX" (size_l ||| left_read ||| right_write ||| conv)
    ∷ entry "MOVBWSX" (size_w ||| left_read ||| right_write ||| conv)
    ∷ entry "MOVBWZX" (size_w ||| left_read ||| right_write ||| conv)
    ∷ entry "MOVLQSX" (size_w ||| left_read ||| right_write ||| conv)
    ∷ entry "MOVLQZX" (size_w ||| left_read ||| right_write ||| conv)
    ∷ entry "MOVWQSX" (size_l ||| left_read ||| right_write ||| conv)
    ∷ entry "MOVWQZX" (size_l ||| left_read ||| right_write ||| conv)
    ∷ entry "MOVWLSX" (size_l ||| left_read ||| right_write ||| conv)
    ∷ entry "MOVWLZX" (size_l ||| left_read ||| right_write ||| conv)
    ∷ entry "MOVB" (size_b ||| left_read ||| right_write ||| move_flag)
    ∷ entry "MOVL" (size_l ||| left_read ||| right_write ||| move_flag)
    ∷ entry "MOVOU" (size_o ||| left_read ||| right_write ||| move_flag)
    ∷ entry "MOVO" (size_o ||| left_read ||| right_write ||| move_flag)
    ∷ entry "MOVQ" (size_q ||| left_read ||| right_write ||| move_flag)
    ∷ entry "MOVW" (size_w ||| left_read ||| right_write ||| move_flag)
    ∷ entry_regs "MOVSB" (ok_flag) (reg_di ||| reg_si) (reg_di ||| reg_si)
    ∷ entry_regs "MOVSL" (ok_flag) (reg_di ||| reg_si) (reg_di ||| reg_si)
    ∷ entry_regs "MOVSW" (ok_flag) (reg_di ||| reg_si) (reg_di ||| reg_si)
    ∷ entry "MOVSD" (size_d ||| left_read ||| right_write ||| move_flag)
    ∷ entry "MOVSS" (size_f ||| left_read ||| right_write ||| move_flag)
    ∷ entry "MOVUPS" (size_d ||| left_read ||| right_write ||| move_flag)
    ∷ entry "MOVUPD" (size_d ||| left_read ||| right_write ||| move_flag)
    ∷ entry "MOVAPD" (size_d ||| left_read ||| right_write ||| move_flag)
    ∷ entry_regs "MULB" (size_b ||| left_read ||| set_carry) (reg_ax) (reg_ax)
    ∷ entry_regs "MULL" (size_l ||| left_read ||| set_carry) (reg_ax) (reg_ax ||| reg_dx)
    ∷ entry_regs "MULQ" (size_q ||| left_read ||| set_carry) (reg_ax) (reg_ax ||| reg_dx)
    ∷ entry "MULPS" (size_f ||| left_read ||| right_rdwr)
    ∷ entry "MULPD" (size_f ||| left_read ||| right_rdwr)
    ∷ entry_regs "MULW" (size_w ||| left_read ||| set_carry) (reg_ax) (reg_ax ||| reg_dx)
    ∷ entry "MULSD" (size_d ||| left_read ||| right_rdwr)
    ∷ entry "MULSS" (size_f ||| left_read ||| right_rdwr)
    ∷ entry "NEGB" (size_b ||| right_rdwr ||| set_carry)
    ∷ entry "NEGL" (size_l ||| right_rdwr ||| set_carry)
    ∷ entry "NEGW" (size_w ||| right_rdwr ||| set_carry)
    ∷ entry "NOTB" (size_b ||| right_rdwr)
    ∷ entry "NOTL" (size_l ||| right_rdwr)
    ∷ entry "NOTW" (size_w ||| right_rdwr)
    ∷ entry "ORB" (size_b ||| left_read ||| right_rdwr ||| set_carry)
    ∷ entry "ORL" (size_l ||| left_read ||| right_rdwr ||| set_carry)
    ∷ entry "ORQ" (size_q ||| left_read ||| right_rdwr ||| set_carry)
    ∷ entry "ORW" (size_w ||| left_read ||| right_rdwr ||| set_carry)
    ∷ []
