-- ===== src/Cron/Field/Listed.antt =====
-- Lists of values in a part, and what `parseFieldExpr` makes of them
-- (web/src/lib/cron-builder.ts).
use omni_python_web_template.Base.{
  ℕ, ◌≡◌, refl, ◌∙◌, subst, true, not, ◌&&◌, ◌||◌, none, List, [], ◌∷◌, map, append-nil, leb,
  nat_eq, string_eq, all, All,
}
use omni_python_web_template.Base.Collections.{filter_of_All}
use omni_python_web_template.Base.Text.{is_space}
use omni_python_web_template.Base.Codes.{Codes, is_digit, print, number, join_with}
use omni_python_web_template.Base.Codes.Digits.{
  number-print, all-append, digits-print, StartsWithDigit, print-StartsWithDigit,
}
use omni_python_web_template.Base.Codes.Words.{split_by-word, split_by-join_with, all-implies}
use omni_python_web_template.Cron.Field.{
  range_digits, is_number_list, listed_values, specific_field, parse_specific, parse_field_expr,
}
use omni_python_web_template.Base.{nat_beq}
use omni_python_web_template.Cron.Field.Texts.{
  listed_not_space, listed_digit, listed_not_dash, digit_not_comma, digit_first,
  parse_field_expr-digit, parse_trimmed-specific,
}

-- A list of values
pub listed-join_with :
    (v : ℕ) (vs : List ℕ)
    → all (λ c. is_digit c || nat_beq c 44) (join_with 44 (map print (v ∷ vs))) ≡ true
unfolding join_with
listed-join_with v [] =
    all-implies is_digit (λ c. is_digit c || nat_beq c 44) listed_digit (print v) (digits-print v)
listed-join_with v (w ∷ vs) =
    rw
      (
        all-append (λ c. is_digit c || nat_beq c 44) (print v)
            (44 ∷ join_with 44 (map print (w ∷ vs))),
        all-implies is_digit (λ c. is_digit c || nat_beq c 44) listed_digit (print v)
            (digits-print v),
        listed-join_with w vs,
      )
      refl

pub join_with-StartsWithDigit :
    (v : ℕ) (vs : List ℕ) → StartsWithDigit (join_with 44 (map print (v ∷ vs)))
unfolding join_with
join_with-StartsWithDigit v [] =
    subst StartsWithDigit (append-nil (print v)) (print-StartsWithDigit v [])
join_with-StartsWithDigit v (w ∷ vs) =
    print-StartsWithDigit v (44 ∷ join_with 44 (map print (w ∷ vs)))

pub range_digits-listed :
    (s : Codes) → all (λ c. is_digit c || nat_beq c 44) s ≡ true → range_digits s ≡ none
unfolding range_digits
range_digits-listed s h =
    rw
      (split_by-word (λ c. nat_beq c 45) s
        (all-implies (λ c. is_digit c || nat_beq c 44) (λ c. not (nat_beq c 45)) listed_not_dash s
          h))
      refl

pub commaless : (vs : List ℕ) → All (λ w. all (λ c. not (nat_beq c 44)) w ≡ true) (map print vs)
commaless [] = tt
commaless (v ∷ vs) = (
  all-implies is_digit (λ c. not (nat_beq c 44)) digit_not_comma (print v) (digits-print v),
  commaless vs,
)

pub numbers-print : (vs : List ℕ) → map number (map print vs) ≡ vs
numbers-print [] = refl
numbers-print (v ∷ vs) = rw (number-print v, numbers-print vs) refl

pub listed_values-join_with :
    (v : ℕ) (vs : List ℕ) (lo hi : ℕ)
    → All (λ x. (leb lo x && leb x hi) ≡ true) (v ∷ vs)
    → listed_values (join_with 44 (map print (v ∷ vs))) lo hi ≡ v ∷ vs
unfolding listed_values
listed_values-join_with v vs lo hi h =
    rw
      (
        split_by-join_with (λ c. nat_beq c 44) 44 (print v) (map print vs) refl
            (commaless (v ∷ vs)),
        number-print v,
        numbers-print vs,
      )
      (filter_of_All (λ x. leb lo x && leb x hi) (v ∷ vs) h)

pub parse_specific-join_with :
    (v : ℕ) (vs : List ℕ) (lo hi : ℕ)
    → All (λ x. (leb lo x && leb x hi) ≡ true) (v ∷ vs)
    → parse_specific (join_with 44 (map print (v ∷ vs))) lo hi ≡ specific_field lo (v ∷ vs)
unfolding parse_specific is_number_list
parse_specific-join_with v vs lo hi h =
    let (nonempty, unstarred, unstepped) =
      digit_first (join_with 44 (map print (v ∷ vs))) (join_with-StartsWithDigit v vs) in
    rw (listed_values-join_with v vs lo hi h, listed-join_with v vs, nonempty) refl

pub parse_field_expr-join_with :
    (v : ℕ) (vs : List ℕ) (lo hi : ℕ)
    → All (λ x. (leb lo x && leb x hi) ≡ true) (v ∷ vs)
    → parse_field_expr (join_with 44 (map print (v ∷ vs))) lo hi ≡ specific_field lo (v ∷ vs)
parse_field_expr-join_with v vs lo hi h =
    let s = join_with 44 (map print (v ∷ vs)) in
    let start = join_with-StartsWithDigit v vs in
    let listed = listed-join_with v vs in
    let (nonempty, unstarred, unstepped) = digit_first s start in
    parse_field_expr-digit s lo hi start (
      all-implies (λ c. is_digit c || nat_beq c 44) (λ c. not (is_space c)) listed_not_space s
        listed)
    ∙ parse_trimmed-specific s lo hi unstepped (range_digits-listed s listed)
    ∙ parse_specific-join_with v vs lo hi h
