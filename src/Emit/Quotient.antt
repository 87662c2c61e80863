-- ===== src/Emit/Quotient.antt =====
-- The code of ArithOp for quotients and remainders without sign, run on the processor.
use Prim.Native.Nat.{bit_xor, bit_xor-bitwise, digits, differ}
use text.Mathlib.TextEquality.{eq_iff}
use gensimd.Common.{
  ℕ, zero, suc, ◌/◌, ◌%◌, ◌^◌, ◌≤◌, ◌≡◌, ◌≢◌, refl, sym, ap, ap₂, ◌∙◌, true, false, [], ◌∷◌, ◌++◌,
  some, String, arith,
}
use gensimd.Instr.Entry.{Instruction}
use gensimd.State.{reg, reg_reg, Asm, copy}
use gensimd.Emit.Cpu.{Cpu, writes, divides, meaning, moved, xored, run_all, low, is_general}
use gensimd.Emit.Known.{Width, byte, word, long, quad, bits, on_words}
use gensimd.Emit.Run.{mod_mod, step-value, step-others}
use gensimd.Emit.DivideSteps.{chosen_div, Division, division, clear_dx, remainder_in, rdx}

-- The sizes of more than one byte.
pub data Wider : Width → Type 0 where
  of_word : Wider word
  of_long : Wider long
  of_quad : Wider quad

differ_self : (n : ℕ) → differ n n ≡ 0
differ_self zero = refl
differ_self (suc n) = differ_self n

digits_self : (n a : ℕ) → a ≤ n → digits (λ b. b) differ n a a ≡ 0
digits_self zero a h = omega arith
digits_self (suc n) zero h = refl
digits_self (suc n) (suc a) h = omega (arith, digits_self n (suc a / 2), differ_self (suc a % 2))

bit_xor_self : (n : ℕ) → bit_xor n n ≡ 0
bit_xor_self n = (λ i. bit_xor-bitwise n n i) ∙ digits_self n n (omega arith)

pub chosen_div-meaning :
    (w : Width) → Wider w → meaning (Division.instr (chosen_div false w)) ≡ some (divides (bits w))
unfolding chosen_div meaning
chosen_div-meaning byte e = elim e [ ]
chosen_div-meaning word of_word = refl
chosen_div-meaning long of_long = refl
chosen_div-meaning quad of_quad = refl

xorq_meaning : meaning "XORQ" ≡ some (writes (on_words xored quad))
unfolding meaning
xorq_meaning = refl

clear_dx-Wider : (w : Width) → Wider w → clear_dx w ≡ reg_reg "XORQ" "DX" "DX" ∷ []
clear_dx-Wider byte e = elim e [ ]
clear_dx-Wider word of_word = refl
clear_dx-Wider long of_long = refl
clear_dx-Wider quad of_quad = refl

pub remainder_in-Wider : (w : Width) → Wider w → remainder_in w ≡ some (copy rdx)
remainder_in-Wider byte e = elim e [ ]
remainder_in-Wider word of_word = refl
remainder_in-Wider long of_long = refl
remainder_in-Wider quad of_quad = refl

low_zero : (w : Width) (n : ℕ) → n % 2 ^ 64 ≡ 0 → n % 2 ^ bits w ≡ 0
low_zero byte n h = omega arith
low_zero word n h = omega arith
low_zero long n h = omega arith
low_zero quad n h = omega arith

general_ax : is_general "AX" ≡ true
unfolding is_general
general_ax = refl

general_dx : is_general "DX" ≡ true
unfolding is_general
general_dx = refl

dx_not_ax : ◌≢◌ {A = String} "DX" "AX"
dx_not_ax = ground (arith, eq_iff "DX" "AX")

ax_not_dx : ◌≢◌ {A = String} "AX" "DX"
ax_not_dx = ground (arith, eq_iff "AX" "DX")

-- A register other than the two that a division uses.
pub record Free (name : String) : Type 0 where
  pub general : is_general name ≡ true
  pub not_ax : name ≢ "AX"
  pub not_dx : name ≢ "DX"

module _ {Machine : Type 0} (cpu : Cpu Machine) (w : Width) (mov div : Instruction) (x y : String)
    (em : meaning mov ≡ some (writes (on_words moved w)))
    (ed : meaning div ≡ some (divides (bits w))) (fx : Free x) (fy : Free y) where
  unfoldable pub cleared : Machine → Machine
  cleared m = cpu.run (reg_reg "XORQ" "DX" "DX") (cpu.run (reg_reg "XORQ" "AX" "AX") m)

  unfoldable pub ready : Machine → Machine
  unfolding cleared
  ready m = cpu.run (reg_reg mov x "AX") (cleared m)

  cleared-others :
      (m : Machine) (name : String) → Free name → cpu.read (cleared m) name ≡ cpu.read m name
  unfolding cleared
  cleared-others m name f =
      step-others cpu quad "DX" general_dx xored "XORQ" "DX" xorq_meaning
        (cpu.run (reg_reg "XORQ" "AX" "AX") m) name f.general f.not_dx
      ∙ step-others cpu quad "AX" general_ax xored "XORQ" "AX" xorq_meaning m name f.general
          f.not_ax

  ready-others :
      (m : Machine) (name : String) → Free name → cpu.read (ready m) name ≡ cpu.read m name
  unfolding ready
  ready-others m name f =
      step-others cpu w "AX" general_ax moved mov x em (cleared m) name f.general f.not_ax
      ∙ cleared-others m name f

  ready-dx : (m : Machine) → low cpu (bits w) (ready m) "DX" ≡ 0
  unfolding ready cleared
  ready-dx m =
      ap (λ k. k % 2 ^ bits w)
        (step-others cpu w "AX" general_ax moved mov x em (cleared m) "DX" general_dx dx_not_ax)
      ∙ low_zero w (cpu.read (cleared m) "DX") (
          step-value cpu quad "DX" general_dx xored "XORQ" "DX" xorq_meaning
            (cpu.run (reg_reg "XORQ" "AX" "AX") m)
          ∙ ap (λ k. k % 2 ^ 64)
              (bit_xor_self (low cpu 64 (cpu.run (reg_reg "XORQ" "AX" "AX") m) "DX")))

  ready-ax : (m : Machine) → low cpu (bits w) (ready m) "AX" ≡ low cpu (bits w) m x
  unfolding ready
  ready-ax m =
      step-value cpu w "AX" general_ax moved mov x em (cleared m)
      ∙ mod_mod w (cpu.read (cleared m) x)
      ∙ ap (λ k. k % 2 ^ bits w) (cleared-others m x fx)

  ready-y : (m : Machine) → low cpu (bits w) (ready m) y ≡ low cpu (bits w) m y
  ready-y m = ap (λ k. k % 2 ^ bits w) (ready-others m y fy)

  module _ (m : Machine) (divisor : low cpu (bits w) m y ≢ 0) where
    pub divided :
        (low cpu (bits w) (cpu.run (reg div y) (ready m)) "AX"
          ≡ low cpu (bits w) m x / low cpu (bits w) m y % 2 ^ bits w)
        × (low cpu (bits w) (cpu.run (reg div y) (ready m)) "DX"
            ≡ low cpu (bits w) m x % low cpu (bits w) m y % 2 ^ bits w)
    divided =
        let q =
          cpu.quotient div (bits w) y (ready m) ed (ready-dx m)
            (λ z. divisor (sym (ready-y m) ∙ z)) in
        (
          q.0 ∙ ap₂ (λ a b. a / b % 2 ^ bits w) (ready-ax m) (ready-y m),
          q.1 ∙ ap₂ (λ a b. a % b % 2 ^ bits w) (ready-ax m) (ready-y m),
        )

  -- The whole code, which moves the quotient or the remainder out of `c`.
  module _ (c r : String) (fr : Free r) (wider : Wider w) where
    abbrev pub code : Asm
    code = division w mov div x y ++ reg_reg mov c r ∷ []

    run-code :
        (m : Machine)
        → run_all cpu code m ≡ cpu.run (reg_reg mov c r) (cpu.run (reg div y) (ready m))
    unfolding ready cleared
    run-code m =
        ap
          (λ clear.
            run_all cpu
              ((reg_reg "XORQ" "AX" "AX" ∷ clear ++ reg_reg mov x "AX" ∷ reg div y ∷ [])
                ++ reg_reg mov c r ∷ [])
              m)
          (clear_dx-Wider w wider)

    pub code-result :
        (m : Machine)
        → low cpu (bits w) (run_all cpu code m) r
          ≡ low cpu (bits w) (cpu.run (reg div y) (ready m)) c
    code-result m =
        ap (λ k. low cpu (bits w) k r) (run-code m)
        ∙ step-value cpu w r fr.general moved mov c em (cpu.run (reg div y) (ready m))
        ∙ mod_mod w (cpu.read (cpu.run (reg div y) (ready m)) c)

    pub code-others :
        (m : Machine) (name : String)
        → Free name
        → name ≢ r
        → cpu.read (run_all cpu code m) name ≡ cpu.read m name
    code-others m name f n =
        ap (λ k. cpu.read k name) (run-code m)
        ∙ step-others cpu w r fr.general moved mov c em (cpu.run (reg div y) (ready m)) name
            f.general n
        ∙ cpu.others_of_quotient div (bits w) y name (ready m) ed f.general f.not_ax f.not_dx
        ∙ ready-others m name f
