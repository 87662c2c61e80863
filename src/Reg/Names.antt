-- ===== src/Reg/Names.antt =====
-- codegen/reg.go: the register constants, `1 << iota`.
use gensimd.Common.{ℕ, ◌^◌}

abbrev pub Reg : Type 0
Reg = ℕ

abbrev pub reg_invalid : Reg
reg_invalid = 2 ^ 0

abbrev pub reg_al : Reg
reg_al = 2 ^ 1

abbrev pub reg_cl : Reg
reg_cl = 2 ^ 2

abbrev pub reg_dl : Reg
reg_dl = 2 ^ 3

abbrev pub reg_bl : Reg
reg_bl = 2 ^ 4

abbrev pub reg_ax : Reg
reg_ax = 2 ^ 5

abbrev pub reg_cx : Reg
reg_cx = 2 ^ 6

abbrev pub reg_dx : Reg
reg_dx = 2 ^ 7

abbrev pub reg_si : Reg
reg_si = 2 ^ 8

abbrev pub reg_di : Reg
reg_di = 2 ^ 9

abbrev pub reg_bx : Reg
reg_bx = 2 ^ 10

abbrev pub reg_bp : Reg
reg_bp = 2 ^ 11

abbrev pub reg_sp : Reg
reg_sp = 2 ^ 12

abbrev pub reg_fp : Reg
reg_fp = 2 ^ 13

abbrev pub reg_r8 : Reg
reg_r8 = 2 ^ 14

abbrev pub reg_r9 : Reg
reg_r9 = 2 ^ 15

abbrev pub reg_r10 : Reg
reg_r10 = 2 ^ 16

abbrev pub reg_r11 : Reg
reg_r11 = 2 ^ 17

abbrev pub reg_r12 : Reg
reg_r12 = 2 ^ 18

abbrev pub reg_r13 : Reg
reg_r13 = 2 ^ 19

abbrev pub reg_r14 : Reg
reg_r14 = 2 ^ 20

abbrev pub reg_r15 : Reg
reg_r15 = 2 ^ 21

abbrev pub reg_x0 : Reg
reg_x0 = 2 ^ 22

abbrev pub reg_x1 : Reg
reg_x1 = 2 ^ 23

abbrev pub reg_x2 : Reg
reg_x2 = 2 ^ 24

abbrev pub reg_x3 : Reg
reg_x3 = 2 ^ 25

abbrev pub reg_x4 : Reg
reg_x4 = 2 ^ 26

abbrev pub reg_x5 : Reg
reg_x5 = 2 ^ 27

abbrev pub reg_x6 : Reg
reg_x6 = 2 ^ 28

abbrev pub reg_x7 : Reg
reg_x7 = 2 ^ 29

abbrev pub reg_x8 : Reg
reg_x8 = 2 ^ 30

abbrev pub reg_x9 : Reg
reg_x9 = 2 ^ 31

abbrev pub reg_x10 : Reg
reg_x10 = 2 ^ 32

abbrev pub reg_x11 : Reg
reg_x11 = 2 ^ 33

abbrev pub reg_x12 : Reg
reg_x12 = 2 ^ 34

abbrev pub reg_x13 : Reg
reg_x13 = 2 ^ 35

abbrev pub reg_x14 : Reg
reg_x14 = 2 ^ 36

abbrev pub reg_x15 : Reg
reg_x15 = 2 ^ 37
