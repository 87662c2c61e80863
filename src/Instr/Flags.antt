-- ===== src/Instr/Flags.antt =====
-- codegen/namesamd64.go: the operand flags of instructions, as bit sets, and the table's entries.
use gensimd.Common.{ℕ, ◌^◌, Bool, not, ◌==◌}
use Prim.Native.Nat.{bit_and, bit_or}

abbrev pub InstrFlags : Type 0
InstrFlags = ℕ

infixl 65 ◌|||◌
abbrev pub ◌|||◌ : ℕ → ℕ → ℕ
a ||| b = bit_or a b

-- `flags & f != 0`.
abbrev pub has : InstrFlags → InstrFlags → Bool
has flags f = not (bit_and flags f == 0)

pub record InstrInfo : Type 0 where
  pub flags : InstrFlags
  pub use_regs : ℕ
  pub set_regs : ℕ

abbrev pub flags_none : InstrFlags
flags_none = 2 ^ 0

abbrev pub size_b : InstrFlags
size_b = 2 ^ 1

abbrev pub size_w : InstrFlags
size_w = 2 ^ 2

abbrev pub size_l : InstrFlags
size_l = 2 ^ 3

abbrev pub size_q : InstrFlags
size_q = 2 ^ 4

abbrev pub size_o : InstrFlags
size_o = 2 ^ 5

abbrev pub size_d : InstrFlags
size_d = 2 ^ 6

abbrev pub size_f : InstrFlags
size_f = 2 ^ 7

abbrev pub use_carry : InstrFlags
use_carry = 2 ^ 8

abbrev pub set_carry : InstrFlags
set_carry = 2 ^ 9

abbrev pub kill_carry : InstrFlags
kill_carry = 2 ^ 10

abbrev pub shift_cx : InstrFlags
shift_cx = 2 ^ 11

abbrev pub imul_axdx : InstrFlags
imul_axdx = 2 ^ 12

abbrev pub left_read : InstrFlags
left_read = 2 ^ 13

abbrev pub left_rdwr : InstrFlags
left_rdwr = 2 ^ 14

abbrev pub right_read : InstrFlags
right_read = 2 ^ 15

abbrev pub right_rdwr : InstrFlags
right_rdwr = 2 ^ 16

abbrev pub right_write : InstrFlags
right_write = 2 ^ 17

abbrev pub left_addr : InstrFlags
left_addr = 2 ^ 18

abbrev pub right_addr : InstrFlags
right_addr = 2 ^ 19

abbrev pub call_flag : InstrFlags
call_flag = 2 ^ 20

abbrev pub ok_flag : InstrFlags
ok_flag = 2 ^ 21

abbrev pub conv : InstrFlags
conv = 2 ^ 22

abbrev pub cjmp : InstrFlags
cjmp = 2 ^ 23

abbrev pub jump_flag : InstrFlags
jump_flag = 2 ^ 24

abbrev pub break_flag : InstrFlags
break_flag = 2 ^ 25

abbrev pub move_flag : InstrFlags
move_flag = 2 ^ 26
