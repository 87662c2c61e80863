-- ===== src/Instr/Table/Float.antt =====
-- codegen/namesamd64.go: the entries of instrTable from FLDCW to FMULF.
use gensimd.Common.{List, [], ◌∷◌}
use gensimd.Instr.Entry.{Entry, entry}
use gensimd.Instr.Flags.{
  ◌|||◌, left_addr, left_rdwr, left_read, right_addr, right_rdwr, right_read, right_write, size_d,
  size_f, size_l, size_q, size_w,
}

unfoldable pub float_entries : List Entry
float_entries =
    entry "FLDCW" (size_w ||| left_addr)
    ∷ entry "FSTCW" (size_w ||| right_addr)
    ∷ entry "FSTSW" (size_w ||| right_addr ||| right_write)
    ∷ entry "FADDD" (size_d ||| left_addr ||| right_rdwr)
    ∷ entry "FADDDP" (size_d ||| left_addr ||| right_rdwr)
    ∷ entry "FADDF" (size_f ||| left_addr ||| right_rdwr)
    ∷ entry "FCOMD" (size_d ||| left_addr ||| right_read)
    ∷ entry "FCOMDP" (size_d ||| left_addr ||| right_read)
    ∷ entry "FCOMDPP" (size_d ||| left_addr ||| right_read)
    ∷ entry "FCOMF" (size_f ||| left_addr ||| right_read)
    ∷ entry "FCOMFP" (size_f ||| left_addr ||| right_read)
    ∷ entry "FUCOMIP" (size_f ||| left_addr ||| right_read)
    ∷ entry "FCHS" (size_d ||| right_rdwr)
    ∷ entry "FDIVDP" (size_d ||| left_addr ||| right_rdwr)
    ∷ entry "FDIVF" (size_f ||| left_addr ||| right_rdwr)
    ∷ entry "FDIVD" (size_d ||| left_addr ||| right_rdwr)
    ∷ entry "FDIVRDP" (size_d ||| left_addr ||| right_rdwr)
    ∷ entry "FDIVRF" (size_f ||| left_addr ||| right_rdwr)
    ∷ entry "FDIVRD" (size_d ||| left_addr ||| right_rdwr)
    ∷ entry "FXCHD" (size_d ||| left_rdwr ||| right_rdwr)
    ∷ entry "FSUBD" (size_d ||| left_addr ||| right_rdwr)
    ∷ entry "FSUBDP" (size_d ||| left_addr ||| right_rdwr)
    ∷ entry "FSUBF" (size_f ||| left_addr ||| right_rdwr)
    ∷ entry "FSUBRD" (size_d ||| left_addr ||| right_rdwr)
    ∷ entry "FSUBRDP" (size_d ||| left_addr ||| right_rdwr)
    ∷ entry "FSUBRF" (size_f ||| left_addr ||| right_rdwr)
    ∷ entry "FMOVD" (size_d ||| left_addr ||| right_write)
    ∷ entry "FMOVF" (size_f ||| left_addr ||| right_write)
    ∷ entry "FMOVL" (size_l ||| left_addr ||| right_write)
    ∷ entry "FMOVW" (size_w ||| left_addr ||| right_write)
    ∷ entry "FMOVV" (size_q ||| left_addr ||| right_write)
    ∷ entry "FMOVDP" (size_d ||| left_read ||| right_write)
    ∷ entry "FMOVFP" (size_f ||| left_read ||| right_write)
    ∷ entry "FMOVLP" (size_l ||| left_read ||| right_write)
    ∷ entry "FMOVWP" (size_w ||| left_read ||| right_write)
    ∷ entry "FMOVVP" (size_q ||| left_read ||| right_write)
    ∷ entry "FMULD" (size_d ||| left_addr ||| right_rdwr)
    ∷ entry "FMULDP" (size_d ||| left_addr ||| right_rdwr)
    ∷ entry "FMULF" (size_f ||| left_addr ||| right_rdwr)
    ∷ []
