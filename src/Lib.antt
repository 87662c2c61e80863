-- ===== src/Lib.antt =====
-- A model of gensimd, which translates Go functions in SSA form to amd64 assembly that uses SIMD
-- instructions, with the theorems on its register allocator, on what the allocator stands on, and
-- on the code that it writes.
--
-- The translator (codegen) walks the SSA instructions of a function. Each SSA value has an
-- identifier, whose bytes live in the frame; registers cache regions of these bytes, and an alias
-- links a register and the identifier's storer in both directions. An instruction asks the
-- allocator for registers; where none is unused the allocator spills a victim, which writes the
-- cached bytes back to the frame if the liveness test does not find the value dead. Each move is
-- selected by the type of the value and the size of the region. The simd package has the Go
-- versions of the packed operations, for machines without them.
--
-- The files:
--   Common    shared names, lists, Boolean tests, integers; a Go panic is a value of Result
--   Region    codegen/storage.go: region, overlap, overlapRegions, mergeRegions, disjoint.
--             Region/Disjoint: loops over pairs of indices; Region/Merge: overlaps and merges
--   Reg       codegen/reg.go: the registers, their table, the excluded ones
--   Instr     codegen/namesamd64.go and the tables of codegen/instramd64.go: Flags, Entry and Table
--             for instrTable, Forms for Insts and XmmInsts, Select for GetInstr and its kin
--   Types     codegen/sizeinfo.go: sizes, alignments, operand types
--   Function  codegen/codegen.go, codegen/identifier.go: the state of code generation
--   Liveness  codegen/liveness.go; Liveness/Uses: against the uses of a value
--   State     the monad over the state, and the lines of assembly
--   Storage   codegen/storage.go: aliases, initialized regions, save, spill. Its children prove
--             what each operation does; Storage/Invariant has the invariant Inv
--   Load      codegen/storage.go: load and loadNew of memory; Load/Constant: those of constants
--   Store     codegen/storage.go: storeMem and what calls it, codegen/identifier.go: newValue
--   Alloc     codegen/codegen.go: allocReg and what it calls; Scan for its loops, Total for the whole,
--             Flush for spillRegisters and spillNonBlockRegisters
--   Emit      codegen/instramd64.go: the functions that write instructions. Write has single lines and
--             the registers that they mark, Move, Arith, Logic, Compare, Convert and Indirect what
--             is built of them. Cpu has what emitted code relies on of the processor; Known, Lines,
--             Word, Run, Compute, DivideSteps and Quotient are lemmas, Sums, Bits, Order and Unsigned
--             compare code and Go's operators, Divide has the lines of a quotient
--   Phi       codegen/codegen.go: computePhi; Phi/Edges and Phi/Malformed for what it returns
--   Translate codegen/codegen.go: BinOp, UnOpXor, UnOpSub, LoadValue and StoreValue; Translate/Integers
--             for its switch on Go's integer types
--   Copy      codegen/codegen.go: StoreValAddr, Store and Return; Copy/Chunks: the bytes that they copy;
--             Copy/Memory, of codegen/storage.go: copyMemMem
--   Flow      codegen/codegen.go: JumpPreamble, Jump and If; Flow/Jumps: the state behind them
--   Pointers  codegen/codegen.go: UnOpPointer, IndexAddr, Len, AllocInstr and UnOp
--   Conversions codegen/codegen.go: Convert; Conversions/Sides: its operand kinds
--   Sse2      codegen/sse2.go, codegen/intrinsic.go: the table (Sse2/Table) and sse2Intrinsic; its
--             operands (Sse2/Operands) and results (Sse2/Entries)
--   Intrinsics codegen/codegen.go: Call and what it calls
--   Blocks    codegen/codegen.go: Instr, BasicBlock and BasicBlocks; Blocks/Rejected: what they refuse
--   Func      codegen/codegen.go: Func; Func/Rejected: what it refuses
--   Frame     codegen/codegen.go: Params, ZeroSsaLocals, newIdent, retOffset and align, as offsets
--   Zero      codegen/instramd64.go: ZeroMemory
--   Packed    codegen/simdintrinsics.go: the instruction of each packed operation; Packed/Operations:
--             the code of those that need more than one, Packed/Shuffle: shufU32x4
--   Simd      simd/simd_common.go: the packed operations in Go
--   Validate  simd/parse.go: the checks of types and statements; Validate/Body and Validate/File those
--             of function bodies, signatures and files; Declared, Statements, Bodies and Params: what
--             they accept. The check of a type that calls itself on an interface runs on fuel
--   Text      codegen/util.go: addIndent and stripDebug (Text/Debug), on lists of bytes of ASCII text;
--             Text/Stripped: the lines that are left
--   Version   codegen/util.go: cmpGoVersion; goVersion in Version/Parse, Version/Reading: what it accepts
--   Checks    concrete states, and the theorems applied to them
--
-- A storer and its identifier have one number, a register is a slot of Function.registers, and a
-- pointer to either is that number. An instruction is its name, as codegen/instruction_string.go
-- prints it. Assembly is a list of lines instead of text, without the debug comments; trace output
-- is left out. Of go/ssa the model keeps the identity of a value, its name and the operands of an
-- instruction; of go/types the kinds that the source tells apart. Sizes are natural numbers that do
-- not wrap around: they stand for the byte counts of one stack frame.
--
-- overlapRegions and mergeRegion call one another; the model runs them on fuel. The code that stands
-- on them uses two rounds: the overlap of a region with one list calls a merge, whose calls of the
-- overlap only meet regions with which there is none (Region/Merge).
--
-- The processor is a parameter: a record of what its documentation says of each kind of instruction
-- on the low bits of the general registers and on the flags (Emit/Cpu). Checks/Processor has one.
--
-- An *Error is a fault like a panic, since each caller passes it on and no code is written then.
--
-- Not modelled: the text of the Go prototype, the parsing and type check that simd/parse.go leaves
-- to the Go libraries, and the command with its input and output.
pub mod Alloc
pub mod Blocks
pub mod Checks
pub mod Common
pub mod Conversions
pub mod Copy
pub mod Emit
pub mod Flow
pub mod Frame
pub mod Func
pub mod Function
pub mod Instr
pub mod Intrinsics
pub mod Liveness
pub mod Load
pub mod Packed
pub mod Phi
pub mod Pointers
pub mod Reg
pub mod Region
pub mod Simd
pub mod Sse2
pub mod State
pub mod Storage
pub mod Store
pub mod Text
pub mod Translate
pub mod Types
pub mod Validate
pub mod Version
pub mod Zero
