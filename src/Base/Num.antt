-- ===== src/Base/Num.antt =====
-- Numbers of the program that need not be whole or positive: `ℤ`, and fractions with `Math.round`.
use Prim.Native.Nat.{ℕ, zero, suc, ◌+◌, ◌*◌, ◌/◌, ◌≤◌}
use mathlib.Core.Path.{◌≡◌, refl}
use mathlib.Core.Logic.{◌⊎◌, inl, inr}
use omni_python_web_template.Base.Tests.{leb}
use mathlib.Core.Bool.{Bool, true, false}
use native.Mathlib.Omega.{arith}

-- `negsuc n` is -(n + 1).
pub data ℤ : Type 0 where
  pos : ℕ → ℤ
  negsuc : ℕ → ℤ

-- The fraction num / (below + 1); every finite `number` of the language is one.
pub record Fraction : Type 0 where
  pub num : ℤ
  pub below : ℕ

abbrev pub whole : ℕ → Fraction
whole n = record { num = pos n; below = 0 }

-- Math.round, with halves going up. A negative number is held at 0: every use takes `Math.max` of
-- the result and a positive number.
abbrev pub round_quotient : ℤ → ℕ → ℕ
round_quotient (pos n) d = (2 * n + d) / (2 * d)
round_quotient (negsuc n) d = 0

abbrev pub round : Fraction → ℕ
round x = round_quotient x.num (suc x.below)

abbrev pub is_positive_int : ℤ → Bool
is_positive_int (pos zero) = false
is_positive_int (pos (suc n)) = true
is_positive_int (negsuc n) = false

abbrev pub is_positive : Fraction → Bool
is_positive x = is_positive_int x.num

pub round-whole : (n : ℕ) → round (whole n) ≡ n
round-whole n = omega arith

-- `a <= b` on fractions, by cross multiplication
abbrev pub int_frac_le : ℤ → ℕ → ℤ → ℕ → Bool
int_frac_le (pos m) d (pos n) e = leb (m * e) (n * d)
int_frac_le (pos m) d (negsuc n) e = false
int_frac_le (negsuc m) d (pos n) e = true
int_frac_le (negsuc m) d (negsuc n) e = leb (suc n * d) (suc m * e)

unfoldable pub frac_le : Fraction → Fraction → Bool
frac_le a b = int_frac_le a.num (suc a.below) b.num (suc b.below)

int_frac_le_total :
    (a : ℤ) (d : ℕ) (b : ℤ) (e : ℕ) → (int_frac_le a d b e ≡ true) ⊎ (int_frac_le b e a d ≡ true)
int_frac_le_total (pos m) d (pos n) e = ground arith
int_frac_le_total (pos m) d (negsuc n) e = inr refl
int_frac_le_total (negsuc m) d (pos n) e = inl refl
int_frac_le_total (negsuc m) d (negsuc n) e = ground arith

cross_trans : (m n k d e f : ℕ) → m * suc e ≤ n * d → n * f ≤ k * suc e → m * f ≤ k * d
cross_trans m n k d e f p q =
    le_of_mul-le-mul_right (m * f) (k * d) e (
      omega (arith, mul_mono_right (m * suc e) (n * d) f p, mul_mono_right (n * f) (k * suc e) d q))
  where
    mul_mono_right : (a b c : ℕ) → a ≤ b → a * c ≤ b * c
    mul_mono_right a b c h = grind arith

    le_of_mul-le-mul_right : (a b c : ℕ) → a * suc c ≤ b * suc c → a ≤ b
    le_of_mul-le-mul_right a b c h = grind arith

int_frac_le_trans :
    (a : ℤ) (d : ℕ) (b : ℤ) (e : ℕ) (c : ℤ) (f : ℕ)
    → int_frac_le a d b (suc e) ≡ true
    → int_frac_le b (suc e) c f ≡ true
    → int_frac_le a d c f ≡ true
int_frac_le_trans (pos m) d (pos n) e (pos k) f p q = ground (arith, cross_trans m n k d e f)
int_frac_le_trans (negsuc m) d b e (pos k) f p q = refl
int_frac_le_trans (negsuc m) d (negsuc n) e (negsuc k) f p q =
    ground (arith, cross_trans (suc k) (suc n) (suc m) f e d)
int_frac_le_trans (negsuc m) d (pos n) e (negsuc k) f p q = cc
int_frac_le_trans (pos m) d (negsuc n) e c f p q = cc
int_frac_le_trans (pos m) d (pos n) e (negsuc k) f p q = cc

pub frac_le_total : (a b : Fraction) → (frac_le a b ≡ true) ⊎ (frac_le b a ≡ true)
unfolding frac_le
frac_le_total a b = int_frac_le_total a.num (suc a.below) b.num (suc b.below)

pub frac_le_trans :
    (a b c : Fraction) → frac_le a b ≡ true → frac_le b c ≡ true → frac_le a c ≡ true
unfolding frac_le
frac_le_trans a b c p q =
    int_frac_le_trans a.num (suc a.below) b.num b.below c.num (suc c.below) p q
