-- ===== src/Zero/Cover.antt =====
-- `ZeroMemory` of codegen/instramd64.go: the lines that it writes, against the bytes of the memory.
use gensimd.Common.{
  ℕ, zero, suc, ◌+◌, ◌*◌, ◌%◌, ◌<◌, ◌≡◌, ◌⊎◌, refl, ap, ap₂, ◌∙◌, inl, inr, [], String, some,
  Result, ok, arith, if◌then◌else◌, ◌==◌, length, get_elem?, Bool-cases,
}
use gensimd.Common.Int.{ℤ, pos, ◌+ℤ◌, sub_ℕ}
use gensimd.Reg.{Register}
use gensimd.Instr.Entry.{Instruction}
use gensimd.Instr.Forms.{i_mov}
use gensimd.Instr.Select.{get_instr}
use gensimd.State.{Asm, imm_mem}
use gensimd.Zero.{zero_chunk, chunk_data_type, zero_line, zero_lines, count, zero_memory}

-- The move of a number of bytes that is a power of two.
abbrev pub mov_of_width : ℕ → Instruction
mov_of_width width =
    if width == 8
    then "MOVQ"
    else if width == 4
    then "MOVL"
    else if width == 2
    then "MOVW"
    else "MOVB"

-- `res` is a normal return of lines that move zero to chunks of `width` bytes each, a width that a move has, the first at
-- `offset` and each one where the one before ends, `size` bytes in all.
pub record Zeroes (name : String) (offset : ℤ) (size : ℕ) (reg : Register) (res : Result Asm)
    : Type 0 where
  pub asm : Asm
  pub width : ℕ
  pub returns : res ≡ ok asm
  pub of_move : (width ≡ 8) ⊎ (width ≡ 4) ⊎ (width ≡ 2) ⊎ (width ≡ 1)
  pub total : length asm * width ≡ size
  pub lines :
      (i : ℕ)
      → i < length asm
      → get_elem? asm i
        ≡ some (imm_mem (mov_of_width width) (pos 0) name (offset +ℤ pos (i * width)) reg.name)

module _ (mov : Instruction) (name : String) (offset : ℤ) (reg : Register) (chunk : ℕ) where
  length-zero_lines : (i n : ℕ) → length (zero_lines mov name offset reg chunk i n) ≡ n
  unfolding zero_lines
  length-zero_lines i zero = refl
  length-zero_lines i (suc n) = ap suc (length-zero_lines (i + 1) n)

  get_elem?-zero_lines :
      (i n j : ℕ)
      → j < n
      → get_elem? (zero_lines mov name offset reg chunk i n) j
        ≡ some (zero_line mov name offset reg chunk (i + j))
  unfolding zero_lines
  get_elem?-zero_lines i zero j h = absurd (omega arith)
  get_elem?-zero_lines i (suc n) zero h =
      ap (λ (k : ℕ). some (zero_line mov name offset reg chunk k)) (omega arith)
  get_elem?-zero_lines i (suc n) (suc j) h =
      get_elem?-zero_lines (i + 1) n j (omega arith)
      ∙ ap (λ (k : ℕ). some (zero_line mov name offset reg chunk k)) (omega arith)

add_comm : (a b : ℤ) → a +ℤ b ≡ b +ℤ a
unfolding ◌+ℤ◌
add_comm a b = ap₂ sub_ℕ (omega arith) (omega arith)

-- Line `i` moves zero to the bytes behind `i` chunks from the offset.
zero_line_lem :
    (mov : Instruction) (name : String) (offset : ℤ) (reg : Register) (chunk i : ℕ)
    → zero_line mov name offset reg chunk i
      ≡ imm_mem mov (pos 0) name (offset +ℤ pos (i * chunk)) reg.name
zero_line_lem mov name offset reg chunk i =
    ap (λ (a : ℤ). imm_mem mov (pos 0) name a reg.name) (add_comm (pos (i * chunk)) offset)

movs :
    (get_instr i_mov (chunk_data_type 8) ≡ ok "MOVQ")
    × (get_instr i_mov (chunk_data_type 4) ≡ ok "MOVL")
    × (get_instr i_mov (chunk_data_type 2) ≡ ok "MOVW")
    × (get_instr i_mov (chunk_data_type 1) ≡ ok "MOVB")
unfolding get_instr
movs = (refl, refl, refl, refl)

mov_chosen :
    (size : ℕ)
    → get_instr i_mov (chunk_data_type (zero_chunk size)) ≡ ok (mov_of_width (zero_chunk size))
mov_chosen size = elim (Bool-cases (size % 8 == 0)) [
  | inl a ↦ rw a movs.0
  | inr a ↦ elim (Bool-cases (size % 4 == 0)) [
    | inl b ↦ rw (a, b) movs.1
    | inr b ↦ elim (Bool-cases (size % 2 == 0)) [
      | inl c ↦ rw (a, b, c) movs.2
      | inr c ↦ rw (a, b, c) movs.3
    ]
  ]
]

chunk_divides : (size : ℕ) → count size (zero_chunk size) * zero_chunk size ≡ size
chunk_divides size = elim (Bool-cases (size % 8 == 0)) [
  | inl a ↦ rw a (ground arith)
  | inr a ↦ elim (Bool-cases (size % 4 == 0)) [
    | inl b ↦ rw (a, b) (ground arith)
    | inr b ↦ elim (Bool-cases (size % 2 == 0)) [
      | inl c ↦ rw (a, b, c) (ground arith)
      | inr c ↦ rw (a, b, c) (ground arith)
    ]
  ]
]

-- `ZeroMemory` returns, for every size, lines that move zero to chunks of eight, four, two or one
-- bytes, all of the same width, the first at the given offset and each one where the one before ends,
-- as many as the size holds exactly.
pub zero_memory_lem :
    (name : String) (offset : ℤ) (size : ℕ) (reg : Register)
    → Zeroes name offset size reg (zero_memory name offset size reg)
unfolding zero_memory
zero_memory_lem name offset size reg = elim (Bool-cases (count size (zero_chunk size) == 0)) [
  | inl e ↦ record {
    asm = [];
    width = 1;
    returns = rw e refl;
    of_move = inr (inr (inr refl));
    total = ground (arith, chunk_divides size);
    lines = λ i h. absurd (omega arith);
  }
  | inr e ↦
      let mov = mov_of_width (zero_chunk size) in
      let n = count size (zero_chunk size) in
      let len = length-zero_lines mov name offset reg (zero_chunk size) 0 n in
      record {
        asm = zero_lines mov name offset reg (zero_chunk size) 0 n;
        width = zero_chunk size;
        returns = rw (e, mov_chosen size) refl;
        of_move = ground arith;
        total = ap (λ (k : ℕ). k * zero_chunk size) len ∙ chunk_divides size;
        lines = λ i h.
            get_elem?-zero_lines mov name offset reg (zero_chunk size) 0 n i (omega (arith, len))
            ∙ ap (λ (k : ℕ). some (zero_line mov name offset reg (zero_chunk size) k)) (omega arith)
            ∙ ap some (zero_line_lem mov name offset reg (zero_chunk size) i);
      }
]
