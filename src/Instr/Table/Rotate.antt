-- ===== src/Instr/Table/Rotate.antt =====
-- codegen/namesamd64.go: the entries of instrTable from RCLB to XORPS.
use gensimd.Common.{List, [], ◌∷◌}
use gensimd.Instr.Entry.{Entry, entry, entry_regs}
use gensimd.Instr.Flags.{
  ◌|||◌, left_rdwr, left_read, ok_flag, right_rdwr, right_read, set_carry, shift_cx, size_b, size_d,
  size_f, size_l, size_q, size_w, use_carry,
}
use gensimd.Reg.Names.{reg_ax, reg_cx, reg_di}

unfoldable pub rotate_entries : List Entry
rotate_entries =
    entry "RCLB" (size_b ||| left_read ||| right_rdwr ||| shift_cx ||| set_carry ||| use_carry)
    ∷ entry "RCLL" (size_l ||| left_read ||| right_rdwr ||| shift_cx ||| set_carry ||| use_carry)
    ∷ entry "RCLW" (size_w ||| left_read ||| right_rdwr ||| shift_cx ||| set_carry ||| use_carry)
    ∷ entry "RCRB" (size_b ||| left_read ||| right_rdwr ||| shift_cx ||| set_carry ||| use_carry)
    ∷ entry "RCRL" (size_l ||| left_read ||| right_rdwr ||| shift_cx ||| set_carry ||| use_carry)
    ∷ entry "RCRW" (size_w ||| left_read ||| right_rdwr ||| shift_cx ||| set_carry ||| use_carry)
    ∷ entry_regs "REP" (ok_flag) (reg_cx) (reg_cx)
    ∷ entry_regs "REPN" (ok_flag) (reg_cx) (reg_cx)
    ∷ entry "ROLB" (size_b ||| left_read ||| right_rdwr ||| shift_cx ||| set_carry)
    ∷ entry "ROLL" (size_l ||| left_read ||| right_rdwr ||| shift_cx ||| set_carry)
    ∷ entry "ROLW" (size_w ||| left_read ||| right_rdwr ||| shift_cx ||| set_carry)
    ∷ entry "RORB" (size_b ||| left_read ||| right_rdwr ||| shift_cx ||| set_carry)
    ∷ entry "RORL" (size_l ||| left_read ||| right_rdwr ||| shift_cx ||| set_carry)
    ∷ entry "RORW" (size_w ||| left_read ||| right_rdwr ||| shift_cx ||| set_carry)
    ∷ entry_regs "SAHF" (ok_flag) (reg_ax) (reg_ax)
    ∷ entry "SALB" (size_b ||| left_read ||| right_rdwr ||| shift_cx ||| set_carry)
    ∷ entry "SALL" (size_l ||| left_read ||| right_rdwr ||| shift_cx ||| set_carry)
    ∷ entry "SALQ" (size_q ||| left_read ||| right_rdwr ||| shift_cx ||| set_carry)
    ∷ entry "SALW" (size_w ||| left_read ||| right_rdwr ||| shift_cx ||| set_carry)
    ∷ entry "SARB" (size_b ||| left_read ||| right_rdwr ||| shift_cx ||| set_carry)
    ∷ entry "SARL" (size_l ||| left_read ||| right_rdwr ||| shift_cx ||| set_carry)
    ∷ entry "SARQ" (size_q ||| left_read ||| right_rdwr ||| shift_cx ||| set_carry)
    ∷ entry "SARW" (size_w ||| left_read ||| right_rdwr ||| shift_cx ||| set_carry)
    ∷ entry "SBBB" (size_b ||| left_read ||| right_rdwr ||| set_carry ||| use_carry)
    ∷ entry "SBBL" (size_l ||| left_read ||| right_rdwr ||| set_carry ||| use_carry)
    ∷ entry "SBBW" (size_w ||| left_read ||| right_rdwr ||| set_carry ||| use_carry)
    ∷ entry "SETCC" (size_b ||| right_rdwr ||| use_carry)
    ∷ entry "SETCS" (size_b ||| right_rdwr ||| use_carry)
    ∷ entry "SETEQ" (size_b ||| right_rdwr ||| use_carry)
    ∷ entry "SETGE" (size_b ||| right_rdwr ||| use_carry)
    ∷ entry "SETGT" (size_b ||| right_rdwr ||| use_carry)
    ∷ entry "SETHI" (size_b ||| right_rdwr ||| use_carry)
    ∷ entry "SETLE" (size_b ||| right_rdwr ||| use_carry)
    ∷ entry "SETLS" (size_b ||| right_rdwr ||| use_carry)
    ∷ entry "SETLT" (size_b ||| right_rdwr ||| use_carry)
    ∷ entry "SETMI" (size_b ||| right_rdwr ||| use_carry)
    ∷ entry "SETNE" (size_b ||| right_rdwr ||| use_carry)
    ∷ entry "SETOC" (size_b ||| right_rdwr ||| use_carry)
    ∷ entry "SETOS" (size_b ||| right_rdwr ||| use_carry)
    ∷ entry "SETPC" (size_b ||| right_rdwr ||| use_carry)
    ∷ entry "SETPL" (size_b ||| right_rdwr ||| use_carry)
    ∷ entry "SETPS" (size_b ||| right_rdwr ||| use_carry)
    ∷ entry "SHLB" (size_b ||| left_read ||| right_rdwr ||| shift_cx ||| set_carry)
    ∷ entry "SHLL" (size_l ||| left_read ||| right_rdwr ||| shift_cx ||| set_carry)
    ∷ entry "SHLQ" (size_q ||| left_read ||| right_rdwr ||| shift_cx ||| set_carry)
    ∷ entry "SHLW" (size_w ||| left_read ||| right_rdwr ||| shift_cx ||| set_carry)
    ∷ entry "SHRB" (size_b ||| left_read ||| right_rdwr ||| shift_cx ||| set_carry)
    ∷ entry "SHRL" (size_l ||| left_read ||| right_rdwr ||| shift_cx ||| set_carry)
    ∷ entry "SHRQ" (size_q ||| left_read ||| right_rdwr ||| shift_cx ||| set_carry)
    ∷ entry "SHRW" (size_w ||| left_read ||| right_rdwr ||| shift_cx ||| set_carry)
    ∷ entry_regs "STOSB" (ok_flag) (reg_ax ||| reg_di) (reg_di)
    ∷ entry_regs "STOSL" (ok_flag) (reg_ax ||| reg_di) (reg_di)
    ∷ entry_regs "STOSW" (ok_flag) (reg_ax ||| reg_di) (reg_di)
    ∷ entry "SUBB" (size_b ||| left_read ||| right_rdwr ||| set_carry)
    ∷ entry "SUBL" (size_l ||| left_read ||| right_rdwr ||| set_carry)
    ∷ entry "SUBQ" (size_q ||| left_read ||| right_rdwr ||| set_carry)
    ∷ entry "SUBW" (size_w ||| left_read ||| right_rdwr ||| set_carry)
    ∷ entry "SUBSD" (size_d ||| left_read ||| right_rdwr)
    ∷ entry "SUBSS" (size_f ||| left_read ||| right_rdwr)
    ∷ entry "SUBPS" (size_f ||| left_read ||| right_rdwr)
    ∷ entry "SUBPD" (size_f ||| left_read ||| right_rdwr)
    ∷ entry "TESTB" (size_b ||| left_read ||| right_read ||| set_carry)
    ∷ entry "TESTL" (size_l ||| left_read ||| right_read ||| set_carry)
    ∷ entry "TESTW" (size_w ||| left_read ||| right_read ||| set_carry)
    ∷ entry "UCOMISD" (size_d ||| left_read ||| right_read)
    ∷ entry "UCOMISS" (size_f ||| left_read ||| right_read)
    ∷ entry "XCHGB" (size_b ||| left_rdwr ||| right_rdwr)
    ∷ entry "XCHGL" (size_l ||| left_rdwr ||| right_rdwr)
    ∷ entry "XCHGW" (size_w ||| left_rdwr ||| right_rdwr)
    ∷ entry "XORB" (size_b ||| left_read ||| right_rdwr ||| set_carry)
    ∷ entry "XORL" (size_l ||| left_read ||| right_rdwr ||| set_carry)
    ∷ entry "XORW" (size_w ||| left_read ||| right_rdwr ||| set_carry)
    ∷ entry "XORQ" (size_q ||| left_read ||| right_rdwr ||| set_carry)
    ∷ entry "XORPD" (size_d ||| left_read ||| right_rdwr ||| set_carry)
    ∷ entry "XORPS" (size_f ||| left_read ||| right_rdwr ||| set_carry)
    ∷ []
