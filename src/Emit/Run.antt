-- ===== src/Emit/Run.antt =====
-- What the code of ArithOp and BitwiseOp leaves in the result's register, on any processor.
use Prim.Native.Nat.{bit_xor}
use gensimd.Common.{
  ℕ, ◌-◌, ◌%◌, ◌^◌, ◌≡◌, ◌≢◌, refl, ap, ap₂, ◌∙◌, true, [], ◌∷◌, some, String, Result, ok, arith,
}
use gensimd.Common.Int.{negsuc}
use gensimd.Reg.{Register}
use gensimd.Instr.Entry.{Instruction}
use gensimd.Function.{Function}
use gensimd.State.{reg_reg, imm_reg, Asm}
use gensimd.Emit.Write.{wrap}
use gensimd.Emit.Cpu.{Cpu, WordOp, run_all, low, is_general, writes, meaning, moved, xored}
use gensimd.Emit.Lines.{marked}
use gensimd.Emit.Known.{Width, byte, word, long, quad, bits, on_words}

pub mod_mod : (w : Width) (n : ℕ) → n % 2 ^ bits w % 2 ^ bits w ≡ n % 2 ^ bits w
mod_mod byte n = omega arith
mod_mod word n = omega arith
mod_mod long n = omega arith
mod_mod quad n = omega arith

-- The complement of a word: the bits that it does not have.
abbrev pub complement : ℕ → ℕ → ℕ
complement w y = bit_xor (2 ^ w - 1) y % 2 ^ w

minus_one : (w : Width) → wrap (bits w) (negsuc 0) ≡ 2 ^ bits w - 1
minus_one byte = refl
minus_one word = refl
minus_one long = refl
minus_one quad = refl

module _ {Machine : Type 0} (cpu : Cpu Machine) where
  -- `res` is a normal return of code behind which the register `r` of slot `i` is marked as changed.
  -- Run on the processor, the code leaves `value` in its low bits and every other general register
  -- as it was.
  pub record Computes (res : Result (Asm × Function)) (f : Function) (i : ℕ) (r : Register)
      (w : Width) (value : Machine → ℕ) : Type 0 where
    pub asm : Asm
    pub returns : res ≡ ok (asm, marked i r f)
    pub result : (m : Machine) → low cpu (bits w) (run_all cpu asm m) r.name ≡ value m
    pub others :
        (m : Machine) (name : String)
        → is_general name ≡ true
        → name ≢ r.name
        → cpu.read (run_all cpu asm m) name ≡ cpu.read m name

  module _ (w : Width) (d : String) (g : is_general d ≡ true) where
    -- One register to another, by an instruction of the width `w`.
    module _ (op : WordOp) (instr : Instruction) (s : String)
        (e : meaning instr ≡ some (writes (on_words op w))) where
      pub step-value :
          (m : Machine)
          → low cpu (bits w) (cpu.run (reg_reg instr s d) m) d
            ≡ op (bits w) (low cpu (bits w) m s) (low cpu (bits w) m d) % 2 ^ bits w
      step-value m = cpu.value instr (on_words op w) s d m e

      pub step-others :
          (m : Machine) (name : String)
          → is_general name ≡ true
          → name ≢ d
          → cpu.read (cpu.run (reg_reg instr s d) m) name ≡ cpu.read m name
      step-others m name gn n = cpu.others instr (on_words op w) s d name m e g gn n

    -- A move and an operation on it.
    module _ (op : WordOp) (mov instr : Instruction) (s t : String)
        (em : meaning mov ≡ some (writes (on_words moved w)))
        (e : meaning instr ≡ some (writes (on_words op w))) (gt : is_general t ≡ true)
        (n : t ≢ d) where
      pub move_then-value :
          (m : Machine)
          → low cpu (bits w) (run_all cpu (reg_reg mov s d ∷ reg_reg instr t d ∷ []) m) d
            ≡ op (bits w) (low cpu (bits w) m t) (low cpu (bits w) m s) % 2 ^ bits w
      move_then-value m =
          step-value op instr t e (cpu.run (reg_reg mov s d) m)
          ∙ ap₂ (λ a b. op (bits w) a b % 2 ^ bits w)
              (ap (λ k. k % 2 ^ bits w) (step-others moved mov s em m t gt n))
              (step-value moved mov s em m ∙ mod_mod w (cpu.read m s))

      pub move_then-others :
          (m : Machine) (name : String)
          → is_general name ≡ true
          → name ≢ d
          → cpu.read (run_all cpu (reg_reg mov s d ∷ reg_reg instr t d ∷ []) m) name
            ≡ cpu.read m name
      move_then-others m name gn k =
          step-others op instr t e (cpu.run (reg_reg mov s d) m) name gn k
          ∙ step-others moved mov s em m name gn k

    -- A move, its complement, and an operation on that.
    module _ (op : WordOp) (mov inv instr : Instruction) (s t : String)
        (em : meaning mov ≡ some (writes (on_words moved w)))
        (ei : meaning inv ≡ some (writes (on_words xored w)))
        (e : meaning instr ≡ some (writes (on_words op w))) (gt : is_general t ≡ true)
        (n : t ≢ d) where
      unfoldable complemented : Machine → Machine
      complemented m = cpu.run (imm_reg inv (negsuc 0) d) (cpu.run (reg_reg mov s d) m)

      complemented-others :
          (m : Machine) (name : String)
          → is_general name ≡ true
          → name ≢ d
          → cpu.read (complemented m) name ≡ cpu.read m name
      unfolding complemented
      complemented-others m name gn k =
          cpu.others_of_constant inv (on_words xored w) (negsuc 0) d name
            (cpu.run (reg_reg mov s d) m) ei g gn k
          ∙ step-others moved mov s em m name gn k

      complemented-value :
          (m : Machine)
          → low cpu (bits w) (complemented m) d ≡ complement (bits w) (low cpu (bits w) m s)
      unfolding complemented
      complemented-value m =
          cpu.value_of_constant inv (on_words xored w) (negsuc 0) d (cpu.run (reg_reg mov s d) m) ei
          ∙ ap₂ (λ a b. bit_xor a b % 2 ^ bits w) (minus_one w)
              (step-value moved mov s em m ∙ mod_mod w (cpu.read m s))

      pub move_not_then-value :
          (m : Machine)
          → low cpu
              (bits w)
              (run_all cpu (reg_reg mov s d ∷ imm_reg inv (negsuc 0) d ∷ reg_reg instr t d ∷ []) m)
              d
            ≡ op (bits w) (low cpu (bits w) m t) (complement (bits w) (low cpu (bits w) m s))
              % 2 ^ bits w
      unfolding complemented
      move_not_then-value m =
          step-value op instr t e (complemented m)
          ∙ ap₂ (λ a b. op (bits w) a b % 2 ^ bits w)
              (ap (λ k. k % 2 ^ bits w) (complemented-others m t gt n)) (complemented-value m)

      pub move_not_then-others :
          (m : Machine) (name : String)
          → is_general name ≡ true
          → name ≢ d
          → cpu.read
              (run_all cpu (reg_reg mov s d ∷ imm_reg inv (negsuc 0) d ∷ reg_reg instr t d ∷ []) m)
              name
            ≡ cpu.read m name
      unfolding complemented
      move_not_then-others m name gn k =
          step-others op instr t e (complemented m) name gn k ∙ complemented-others m name gn k
