-- ===== src/Base/Int.antt =====
-- Signed 64-bit numbers of the program (times in nanoseconds) as integers: order and equality.
use mydrive.Base.{ℕ, ◌≡◌, ◌↔◌, Bool, true, false, arith, leb, Eq, nat_beq}

-- `negsuc n` is -(n + 1).
pub data ℤ : Type 0 where
  pos : ℕ → ℤ
  negsuc : ℕ → ℤ

abbrev pub int_leb : ℤ → ℤ → Bool
int_leb (pos a) (pos b) = leb a b
int_leb (pos a) (negsuc b) = false
int_leb (negsuc a) (pos b) = true
int_leb (negsuc a) (negsuc b) = leb b a

abbrev pub int_beq : ℤ → ℤ → Bool
int_beq (pos a) (pos b) = nat_beq a b
int_beq (pos a) (negsuc b) = false
int_beq (negsuc a) (pos b) = false
int_beq (negsuc a) (negsuc b) = nat_beq a b

pub int_beq_iff : (a b : ℤ) → (int_beq a b ≡ true) ↔ (a ≡ b)
int_beq_iff a b = ground arith

instance abbrev pub int_eq : Eq ℤ
int_eq = record { beq = int_beq; beq_iff = int_beq_iff }

infix 50 ◌≤ℤ◌
abbrev pub ◌≤ℤ◌ : ℤ → ℤ → Type 0
a ≤ℤ b = int_leb a b ≡ true

pub int_le_refl : (a : ℤ) → a ≤ℤ a
int_le_refl a = ground arith

pub int_le_total : (a b : ℤ) → int_leb a b ≡ false → b ≤ℤ a
int_le_total a b h = ground arith

pub int_le_trans : (a b c : ℤ) → a ≤ℤ b → b ≤ℤ c → a ≤ℤ c
int_le_trans a b c h k = ground arith

pub int_le_antisymm : (a b : ℤ) → a ≤ℤ b → b ≤ℤ a → a ≡ b
int_le_antisymm a b h k = ground arith
