-- ===== src/Instr/Table/Packed.antt =====
-- codegen/namesamd64.go: the entries of instrTable from PADDB to PUSHL.
use gensimd.Common.{List, [], ◌∷◌}
use gensimd.Instr.Entry.{Entry, entry}
use gensimd.Instr.Flags.{
  ◌|||◌, left_read, right_rdwr, right_write, set_carry, size_l, size_o, size_w,
}

unfoldable pub packed_entries : List Entry
packed_entries =
    entry "PADDB" (size_o ||| left_read ||| right_rdwr ||| set_carry)
    ∷ entry "PADDL" (size_o ||| left_read ||| right_rdwr ||| set_carry)
    ∷ entry "PADDW" (size_o ||| left_read ||| right_rdwr ||| set_carry)
    ∷ entry "PADDQ" (size_o ||| left_read ||| right_rdwr ||| set_carry)
    ∷ entry "PEXTRW" (size_w ||| right_write)
    ∷ entry "PINSRW" (size_w ||| right_write)
    ∷ entry "PMULULQ" (size_o ||| left_read ||| right_rdwr)
    ∷ entry "PMULLW" (size_o ||| left_read ||| right_rdwr)
    ∷ entry "POPL" (size_l ||| right_write)
    ∷ entry "PSLLL" (size_o ||| left_read ||| right_rdwr)
    ∷ entry "PSLLQ" (size_o ||| left_read ||| right_rdwr)
    ∷ entry "PSLLW" (size_o ||| left_read ||| right_rdwr)
    ∷ entry "PSRAW" (size_o ||| left_read ||| right_rdwr)
    ∷ entry "PSRAL" (size_o ||| left_read ||| right_rdwr)
    ∷ entry "PSRLW" (size_o ||| left_read ||| right_rdwr)
    ∷ entry "PSRLL" (size_o ||| left_read ||| right_rdwr)
    ∷ entry "PSRLO" (size_o ||| left_read ||| right_rdwr)
    ∷ entry "PSHUFD" (size_o ||| left_read ||| right_rdwr)
    ∷ entry "PSUBB" (size_o ||| left_read ||| right_rdwr)
    ∷ entry "PSUBW" (size_o ||| left_read ||| right_rdwr)
    ∷ entry "PSUBL" (size_o ||| left_read ||| right_rdwr)
    ∷ entry "PSUBQ" (size_o ||| left_read ||| right_rdwr)
    ∷ entry "PUNPCKLLQ" (size_o ||| left_read ||| right_rdwr)
    ∷ entry "PUSHL" (size_l ||| left_read)
    ∷ []
