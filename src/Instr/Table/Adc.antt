-- ===== src/Instr/Table/Adc.antt =====
-- codegen/namesamd64.go: the entries of instrTable from ADCL to DIVPD.
use gensimd.Common.{List, [], ◌∷◌}
use gensimd.Instr.Entry.{Entry, entry, entry_regs}
use gensimd.Instr.Flags.{
  ◌|||◌, conv, left_read, move_flag, ok_flag, right_rdwr, right_read, right_write, set_carry,
  size_b, size_d, size_f, size_l, size_q, size_w, use_carry,
}
use gensimd.Reg.Names.{reg_ax, reg_dx}

unfoldable pub adc_entries : List Entry
adc_entries =
    entry "ADCL" (size_l ||| left_read ||| right_rdwr ||| set_carry ||| use_carry)
    ∷ entry "ADCW" (size_w ||| left_read ||| right_rdwr ||| set_carry ||| use_carry)
    ∷ entry "ADDB" (size_b ||| left_read ||| right_rdwr ||| set_carry)
    ∷ entry "ADDL" (size_l ||| left_read ||| right_rdwr ||| set_carry)
    ∷ entry "ADDW" (size_w ||| left_read ||| right_rdwr ||| set_carry)
    ∷ entry "ADDQ" (size_q ||| left_read ||| right_rdwr ||| set_carry)
    ∷ entry "ADDSD" (size_d ||| left_read ||| right_rdwr)
    ∷ entry "ADDSS" (size_f ||| left_read ||| right_rdwr)
    ∷ entry "ADDPS" (size_f ||| left_read ||| right_rdwr)
    ∷ entry "ADDPD" (size_d ||| left_read ||| right_rdwr)
    ∷ entry "ANDB" (size_b ||| left_read ||| right_rdwr ||| set_carry)
    ∷ entry "ANDL" (size_l ||| left_read ||| right_rdwr ||| set_carry)
    ∷ entry "ANDQ" (size_q ||| left_read ||| right_rdwr ||| set_carry)
    ∷ entry "ANDW" (size_w ||| left_read ||| right_rdwr ||| set_carry)
    ∷ entry_regs "CDQ" (ok_flag) (reg_ax) (reg_ax ||| reg_dx)
    ∷ entry_regs "CWD" (ok_flag) (reg_ax) (reg_ax ||| reg_dx)
    ∷ entry "CLD" (ok_flag)
    ∷ entry "STD" (ok_flag)
    ∷ entry "CMOVQCC" (size_q ||| left_read ||| right_write ||| move_flag)
    ∷ entry "CMOVLCC" (size_q ||| left_read ||| right_write ||| move_flag)
    ∷ entry "CMOVWCC" (size_q ||| left_read ||| right_write ||| move_flag)
    ∷ entry "CMPB" (size_b ||| left_read ||| right_read ||| set_carry)
    ∷ entry "CMPL" (size_l ||| left_read ||| right_read ||| set_carry)
    ∷ entry "CMPW" (size_w ||| left_read ||| right_read ||| set_carry)
    ∷ entry "CMPQ" (size_q ||| left_read ||| right_read ||| set_carry)
    ∷ entry "COMISD" (size_d ||| left_read ||| right_read ||| set_carry)
    ∷ entry "COMISS" (size_f ||| left_read ||| right_read ||| set_carry)
    ∷ entry "CVTSD2SL" (size_l ||| left_read ||| right_write ||| conv)
    ∷ entry "CVTSD2SS" (size_f ||| left_read ||| right_write ||| conv)
    ∷ entry "CVTSL2SD" (size_d ||| left_read ||| right_write ||| conv)
    ∷ entry "CVTSL2SS" (size_f ||| left_read ||| right_write ||| conv)
    ∷ entry "CVTSS2SD" (size_d ||| left_read ||| right_write ||| conv)
    ∷ entry "CVTSS2SL" (size_l ||| left_read ||| right_write ||| conv)
    ∷ entry "CVTSQ2SS" (size_f ||| left_read ||| right_write ||| conv)
    ∷ entry "CVTSQ2SD" (size_d ||| left_read ||| right_write ||| conv)
    ∷ entry "CVTTSD2SL" (size_l ||| left_read ||| right_write ||| conv)
    ∷ entry "CVTTSS2SL" (size_l ||| left_read ||| right_write ||| conv)
    ∷ entry "CVTTSS2SQ" (size_q ||| left_read ||| right_write ||| conv)
    ∷ entry "CVTTSD2SQ" (size_q ||| left_read ||| right_write ||| conv)
    ∷ entry "DECB" (size_b ||| right_rdwr)
    ∷ entry "DECL" (size_l ||| right_rdwr)
    ∷ entry "DECW" (size_w ||| right_rdwr)
    ∷ entry_regs "DIVB" (size_b ||| left_read ||| set_carry) (reg_ax) (reg_ax)
    ∷ entry_regs "DIVL" (size_l ||| left_read ||| set_carry) (reg_ax ||| reg_dx) (reg_ax ||| reg_dx)
    ∷ entry_regs "DIVQ" (size_q ||| left_read ||| set_carry) (reg_ax ||| reg_dx) (reg_ax ||| reg_dx)
    ∷ entry_regs "DIVW" (size_w ||| left_read ||| set_carry) (reg_ax ||| reg_dx) (reg_ax ||| reg_dx)
    ∷ entry "DIVSD" (size_d ||| left_read ||| right_rdwr)
    ∷ entry "DIVSS" (size_f ||| left_read ||| right_rdwr)
    ∷ entry "DIVPS" (size_f ||| left_read ||| right_rdwr)
    ∷ entry "DIVPD" (size_d ||| left_read ||| right_rdwr)
    ∷ []
