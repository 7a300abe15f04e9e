-- ===== src/Base/Codes/Digits.antt =====
-- A printed number is digits, and is read back.
use omni_python_web_template.Base.{
  ℕ, zero, suc, ◌+◌, ◌-◌, ◌*◌, ◌/◌, ◌%◌, ◌<◌, ◌≡◌, refl, inl, inr, Bool, true, false, ◌&&◌, [], ◌∷◌,
  ◌++◌, arith, ltb, nat_eq, string_eq, Bool-cases, all, is_nil,
}
use omni_python_web_template.Base.Codes.{
  Codes, is_digit, is_number, print_from, print, number_onto, number,
}

number_onto-append :
    (n : ℕ) (s t : Codes) → number_onto n (s ++ t) ≡ number_onto (number_onto n s) t
unfolding number_onto
number_onto-append n [] t = refl
number_onto-append n (c ∷ s) t = number_onto-append (n * 10 + (c - 48)) s t

number_onto-print_from : (fuel n : ℕ) → n < fuel → number_onto 0 (print_from fuel n) ≡ n
unfolding print_from number_onto
number_onto-print_from (suc fuel) n h = elim (Bool-cases (ltb n 10)) [
  | inl e ↦ rw e (ground arith)
  | inr e ↦
      rw
        (
          e,
          number_onto-append 0 (print_from fuel (n / 10)) ((48 + n % 10) ∷ []),
          number_onto-print_from fuel (n / 10) (ground arith),
        )
        (ground arith)
]
number_onto-print_from zero n h = absurd (omega arith)

pub number-print : (n : ℕ) → number (print n) ≡ n
unfolding number print
number-print n = number_onto-print_from (suc n) n (omega arith)

pub all-append : (p : ℕ → Bool) (s t : Codes) → all p (s ++ t) ≡ (all p s && all p t)
all-append p [] t = refl
all-append p (c ∷ s) t = ground (arith, all-append p s t)

digits-print_from : (fuel n : ℕ) → all is_digit (print_from fuel n) ≡ true
unfolding print_from
digits-print_from zero n = refl
digits-print_from (suc fuel) n = elim (Bool-cases (ltb n 10)) [
  | inl e ↦ rw e (ground arith)
  | inr e ↦
      rw
        (
          e,
          all-append is_digit (print_from fuel (n / 10)) ((48 + n % 10) ∷ []),
          digits-print_from fuel (n / 10),
        )
        (ground arith)
]

pub digits-print : (n : ℕ) → all is_digit (print n) ≡ true
unfolding print
digits-print n = digits-print_from (suc n) n

is_nil-append_one : (s : Codes) (c : ℕ) → is_nil (s ++ c ∷ []) ≡ false
is_nil-append_one [] c = refl
is_nil-append_one (d ∷ s) c = refl

pub is_nil-print : (n : ℕ) → is_nil (print n) ≡ false
unfolding print print_from
is_nil-print n = is_nil-append_one _ (48 + n % 10)

pub is_number-print : (n : ℕ) → is_number (print n) ≡ true
is_number-print n = rw (is_nil-print n, digits-print n) refl

-- A text that begins with a digit.
abbrev pub StartsWithDigit : Codes → Type 0
StartsWithDigit s = (c : ℕ) × (rest : Codes) × (s ≡ c ∷ rest) × (is_digit c ≡ true)

pub print-StartsWithDigit : (n : ℕ) (t : Codes) → StartsWithDigit (print n ++ t)
print-StartsWithDigit n t = starts (print n) (is_nil-print n) (digits-print n)
  where
    starts : (s : Codes) → is_nil s ≡ false → all is_digit s ≡ true → StartsWithDigit (s ++ t)
    starts [] h k = cc
    starts (c ∷ s) h k = (c, s ++ t, refl, ground arith)
