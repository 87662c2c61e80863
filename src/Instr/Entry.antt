-- ===== src/Instr/Entry.antt =====
-- codegen/namesamd64.go: one entry of instrTable. An `Instruction` is named by the text that its
-- String method gives; the numbers of the source serve only to tell instructions apart.
use gensimd.Common.{ℕ, String}
use gensimd.Instr.Flags.{InstrFlags, InstrInfo}

abbrev pub Instruction : Type 0
Instruction = String

abbrev pub Entry : Type 0
Entry = Instruction × InstrInfo

abbrev pub entry_regs : Instruction → InstrFlags → ℕ → ℕ → Entry
entry_regs instr flags use_regs set_regs =
    (instr, record { flags = flags; use_regs = use_regs; set_regs = set_regs })

abbrev pub entry : Instruction → InstrFlags → Entry
entry instr flags = entry_regs instr flags 0 0
