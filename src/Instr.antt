-- ===== src/Instr.antt =====
-- codegen/namesamd64.go and codegen/instramd64.go: the instructions, their table and their choice.
pub mod Flags
pub mod Entry
pub mod Table
pub mod Forms
pub mod Select
