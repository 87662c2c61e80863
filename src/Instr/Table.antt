-- ===== src/Instr/Table.antt =====
-- codegen/namesamd64.go: instrTable and its lookup.
mod Adc
mod Float
mod Move
mod Packed
mod Rotate
use text.Mathlib.Text.{◌==◌ as str_eq}
use gensimd.Common.{List, [], ◌∷◌, ◌++◌, Option, none, some, if◌then◌else◌}
use gensimd.Instr.Entry.{Entry, Instruction}
use gensimd.Instr.Flags.{InstrInfo}
use Adc.{adc_entries}
use Float.{float_entries}
use Move.{move_entries}
use Packed.{packed_entries}
use Rotate.{rotate_entries}

unfoldable pub find_entry : Instruction → List Entry → Option InstrInfo
find_entry instr [] = none
find_entry instr ((name, info) ∷ rest) =
    if str_eq name instr then some info else find_entry instr rest

unfoldable pub instr_table : Instruction → Option InstrInfo
unfolding find_entry adc_entries float_entries move_entries packed_entries rotate_entries
instr_table instr =
    find_entry instr
      (adc_entries ++ (float_entries ++ (move_entries ++ (packed_entries ++ rotate_entries))))
