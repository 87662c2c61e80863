-- ===== src/Emit.antt =====
-- codegen/instramd64.go: the functions that write assembly. A `*register` is a RegRef, a slot of
-- Function.registers or the copy that getRegister returns; `loc` is the instruction of the context.
pub mod Write
pub mod Move
pub mod Arith
pub mod Logic
pub mod Compare
pub mod Convert
pub mod Indirect
pub mod Cpu
pub mod Lines
pub mod Known
pub mod Word
pub mod Run
pub mod Compute
pub mod Sums
pub mod Bits
pub mod Order
pub mod DivideSteps
pub mod Divide
pub mod Quotient
pub mod Unsigned
