-- ===== src/Cron/Field/Texts.antt =====
-- The texts that parts are built as, and what each test of `parseFieldExpr` makes of them
-- (web/src/lib/cron-builder.ts).
use omni_python_web_template.Base.{
  ℕ, ◌+◌, ◌-◌, ◌≡◌, refl, ◌∙◌, true, false, not, ◌||◌, none, some, [], ◌∷◌, arith, nat_eq,
  string_eq, all, is_nil,
}
use omni_python_web_template.Base.Num.{pos}
use omni_python_web_template.Base.Text.{is_space}
use omni_python_web_template.Base.Codes.{Codes, is_digit, print, number}
use omni_python_web_template.Base.Codes.Digits.{
  number-print, all-append, digits-print, is_number-print, StartsWithDigit, print-StartsWithDigit,
}
use omni_python_web_template.Base.Codes.Words.{
  split_by-word, split_by-append, trim_codes-spaceless, all-implies,
}
use omni_python_web_template.Cron.{clamp_int}
use omni_python_web_template.Cron.Field.{
  is_star, step_text, range_text, step_digits, range_digits, step_field, range_field,
  parse_specific, parse_trimmed, parse_field_expr,
}
use omni_python_web_template.Base.{nat_beq}

pub digit_not_space : (c : ℕ) → is_digit c ≡ true → not (is_space c) ≡ true
unfolding is_space
digit_not_space c h = ground arith

pub listed_not_space : (c : ℕ) → (is_digit c || nat_beq c 44) ≡ true → not (is_space c) ≡ true
unfolding is_space
listed_not_space c h = ground arith

pub spaceless-print : (n : ℕ) → all (λ c. not (is_space c)) (print n) ≡ true
spaceless-print n =
    all-implies is_digit (λ c. not (is_space c)) digit_not_space (print n) (digits-print n)

pub listed_digit : (c : ℕ) → is_digit c ≡ true → (is_digit c || nat_beq c 44) ≡ true
listed_digit c h = rw h refl

pub listed_not_dash : (c : ℕ) → (is_digit c || nat_beq c 44) ≡ true → not (nat_beq c 45) ≡ true
listed_not_dash c h = ground arith

pub digit_not_comma : (c : ℕ) → is_digit c ≡ true → not (nat_beq c 44) ≡ true
digit_not_comma c h = ground arith

-- A text that begins with a digit is neither empty, nor "*", nor a step.
pub digit_first :
    (s : Codes)
    → StartsWithDigit s
    → (is_nil s ≡ false) × (is_star s ≡ false) × (step_digits s ≡ none)
unfolding step_digits
digit_first [] (c, rest, e, h) = cc
digit_first (c ∷ []) (d, rest, e, h) = (refl, ground arith, refl)
digit_first (c ∷ x ∷ s) (d, rest, e, h) = (refl, ground arith, ground arith)

-- A text without spaces that begins with a digit is left to the tests on ranges and lists.
pub parse_field_expr-digit :
    (s : Codes) (lo hi : ℕ)
    → StartsWithDigit s
    → all (λ c. not (is_space c)) s ≡ true
    → parse_field_expr s lo hi ≡ parse_trimmed s lo hi
unfolding parse_field_expr
parse_field_expr-digit s lo hi h k =
    let (nonempty, unstarred, unstepped) = digit_first s h in
    rw (trim_codes-spaceless s k, nonempty, unstarred) refl

pub parse_trimmed-step :
    (s ds : Codes) (lo hi : ℕ)
    → step_digits s ≡ some ds
    → parse_trimmed s lo hi ≡ step_field lo (clamp_int (pos (number ds)) 1 (hi - lo + 1))
unfolding parse_trimmed
parse_trimmed-step s ds lo hi h = rw (h, parse_trimmed) refl

pub parse_trimmed-range :
    (s a b : Codes) (lo hi : ℕ)
    → step_digits s ≡ none
    → range_digits s ≡ some (a, b)
    → parse_trimmed s lo hi
      ≡ range_field (clamp_int (pos (number a)) lo hi) (clamp_int (pos (number b)) lo hi)
unfolding parse_trimmed
parse_trimmed-range s a b lo hi h k = rw (h, k, parse_trimmed) refl

pub parse_trimmed-specific :
    (s : Codes) (lo hi : ℕ)
    → step_digits s ≡ none
    → range_digits s ≡ none
    → parse_trimmed s lo hi ≡ parse_specific s lo hi
unfolding parse_trimmed
parse_trimmed-specific s lo hi h k = rw (h, k, parse_trimmed) refl

-- A step
pub spaceless-step_text : (n : ℕ) → all (λ c. not (is_space c)) (step_text n) ≡ true
unfolding is_space
spaceless-step_text n = spaceless-print n

pub step_digits-step_text : (n : ℕ) → step_digits (step_text n) ≡ some (print n)
unfolding step_digits
step_digits-step_text n = rw (is_number-print n) refl

pub parse_field_expr-step_text :
    (n lo hi : ℕ)
    → parse_field_expr (step_text n) lo hi ≡ step_field lo (clamp_int (pos n) 1 (hi - lo + 1))
unfolding parse_field_expr
parse_field_expr-step_text n lo hi =
    rw
      (
        trim_codes-spaceless (step_text n) (spaceless-step_text n),
        parse_trimmed-step (step_text n) (print n) lo hi (step_digits-step_text n),
        number-print n,
      )
      refl

-- A range
pub spaceless-range_text : (a b : ℕ) → all (λ c. not (is_space c)) (range_text a b) ≡ true
unfolding is_space
spaceless-range_text a b =
    rw
      (
        all-append (λ c. not (is_space c)) (print a) (45 ∷ print b),
        spaceless-print a,
        spaceless-print b,
      )
      refl

pub not_dash : (c : ℕ) → is_digit c ≡ true → not (nat_beq c 45) ≡ true
not_dash c h = ground arith

pub dashless-print : (n : ℕ) → all (λ c. not (nat_beq c 45)) (print n) ≡ true
dashless-print n =
    all-implies is_digit (λ c. not (nat_beq c 45)) not_dash (print n) (digits-print n)

pub range_digits-range_text : (a b : ℕ) → range_digits (range_text a b) ≡ some (print a, print b)
unfolding range_digits
range_digits-range_text a b =
    rw
      (
        split_by-append (λ c. nat_beq c 45) (print a) 45 (print b) (dashless-print a) refl,
        split_by-word (λ c. nat_beq c 45) (print b) (dashless-print b),
        is_number-print a,
        is_number-print b,
      )
      refl

pub parse_field_expr-range_text :
    (a b lo hi : ℕ)
    → parse_field_expr (range_text a b) lo hi
      ≡ range_field (clamp_int (pos a) lo hi) (clamp_int (pos b) lo hi)
parse_field_expr-range_text a b lo hi =
    let start = print-StartsWithDigit a (45 ∷ print b) in
    let (nonempty, unstarred, unstepped) = digit_first (range_text a b) start in
    parse_field_expr-digit (range_text a b) lo hi start (spaceless-range_text a b)
    ∙ parse_trimmed-range (range_text a b) (print a) (print b) lo hi unstepped
        (range_digits-range_text a b)
    ∙ rw (number-print a, number-print b) refl
