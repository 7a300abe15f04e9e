-- ===== src/Cron/Field/Built.antt =====
-- A built part is a word of the whole text (web/src/lib/cron-builder.ts).
use omni_python_web_template.Base.{
  ℕ, ◌+◌, ◌-◌, ◌≤◌, ◌≡◌, refl, inl, inr, true, false, not, ◌&&◌, ◌||◌, List, [], ◌∷◌, map, arith,
  leb, if◌then◌else◌, nat_eq, string_eq, Bool-cases, all, All, is_nil,
}
use omni_python_web_template.Base.Num.{ℤ}
use omni_python_web_template.Base.Text.{is_space}
use omni_python_web_template.Base.Sort.{insert_sorted, sort_by-All}
use omni_python_web_template.Base.Codes.{Codes, is_digit, print, join_with, trim_codes}
use omni_python_web_template.Base.Codes.Digits.{StartsWithDigit, print-StartsWithDigit}
use omni_python_web_template.Base.Codes.Words.{all-implies}
use omni_python_web_template.Cron.{
  CronFieldMode, CronFieldConfig, default_cron_field_config, clamp_int, clamp_int-low,
  clamp_int-high,
}
use omni_python_web_template.Cron.Field.{
  range_text, sorted_values, specific_text, build_as, build_field_expr, specific_field,
  parse_field_expr,
}
use omni_python_web_template.Base.{nat_beq}
use omni_python_web_template.Base.Codes.{trim_codes_start}
use omni_python_web_template.Base.Codes.{trim_codes_end}
use omni_python_web_template.Cron.Field.Texts.{
  listed_not_space, digit_first, spaceless-step_text, spaceless-range_text,
}
use omni_python_web_template.Cron.Field.Listed.{
  listed-join_with, join_with-StartsWithDigit, parse_field_expr-join_with,
}

pub inside-clamp_int :
    (vs : List ℤ) (lo hi : ℕ)
    → lo ≤ hi
    → All (λ x. (leb lo x && leb x hi) ≡ true) (map (λ v. clamp_int v lo hi) vs)
inside-clamp_int [] lo hi h = tt
inside-clamp_int (v ∷ vs) lo hi h =
    (ground (arith, clamp_int-low v lo hi h, clamp_int-high v lo hi), inside-clamp_int vs lo hi h)

pub inside-sorted_values :
    (vs : List ℤ) (lo hi : ℕ)
    → lo ≤ hi
    → All (λ x. (leb lo x && leb x hi) ≡ true) (sorted_values vs lo hi)
inside-sorted_values vs lo hi h =
    sort_by-All leb (λ x. (leb lo x && leb x hi) ≡ true) (map (λ v. clamp_int v lo hi) vs)
      (inside-clamp_int vs lo hi h)

pub is_nil-insert_sorted : (v : ℕ) (vs : List ℕ) → is_nil (insert_sorted leb v vs) ≡ false
is_nil-insert_sorted v [] = refl
is_nil-insert_sorted v (w ∷ vs) = ground arith

pub parse_field_expr-values :
    (vs : List ℕ) (lo hi : ℕ)
    → is_nil vs ≡ false
    → All (λ x. (leb lo x && leb x hi) ≡ true) vs
    → parse_field_expr (join_with 44 (map print vs)) lo hi ≡ specific_field lo vs
parse_field_expr-values [] lo hi n h = cc
parse_field_expr-values (v ∷ vs) lo hi n h = parse_field_expr-join_with v vs lo hi h

pub parse_field_expr-specific_text :
    (vs : List ℤ) (lo hi : ℕ)
    → lo ≤ hi
    → parse_field_expr (specific_text vs lo hi) lo hi ≡ (
        if is_nil vs
        then default_cron_field_config lo
        else specific_field lo (sorted_values vs lo hi))
unfolding parse_field_expr trim_codes trim_codes_start trim_codes_end is_space
parse_field_expr-specific_text [] lo hi h = refl
parse_field_expr-specific_text (v ∷ vs) lo hi h = other v vs
  where
    other :
        (v : ℤ) (vs : List ℤ)
        → parse_field_expr (join_with 44 (map print (sorted_values (v ∷ vs) lo hi))) lo hi
          ≡ specific_field lo (sorted_values (v ∷ vs) lo hi)
    other v vs =
        parse_field_expr-values (sorted_values (v ∷ vs) lo hi) lo hi
          (is_nil-insert_sorted (clamp_int v lo hi) (sorted_values vs lo hi))
          (inside-sorted_values (v ∷ vs) lo hi h)

pub is_nil-digit : (s : Codes) → StartsWithDigit s → is_nil s ≡ false
is_nil-digit s h = (digit_first s h).0

pub is_nil-values : (vs : List ℕ) → is_nil vs ≡ false → is_nil (join_with 44 (map print vs)) ≡ false
is_nil-values [] h = cc
is_nil-values (v ∷ vs) h =
    is_nil-digit (join_with 44 (map print (v ∷ vs))) (join_with-StartsWithDigit v vs)

pub spaceless-values :
    (vs : List ℕ)
    → is_nil vs ≡ false
    → all (λ c. not (is_space c)) (join_with 44 (map print vs)) ≡ true
spaceless-values [] h = cc
spaceless-values (v ∷ vs) h =
    all-implies (λ c. is_digit c || nat_beq c 44) (λ c. not (is_space c)) listed_not_space
      (join_with 44 (map print (v ∷ vs))) (listed-join_with v vs)

-- A built part is a word of the whole text.
pub is_nil-build_field_expr :
    (field : CronFieldConfig) (lo hi : ℕ) → is_nil (build_field_expr field lo hi) ≡ false
unfolding build_field_expr
is_nil-build_field_expr field lo hi = as_mode field.mode
  where
    nonempty_list : (vs : List ℤ) → is_nil (specific_text vs lo hi) ≡ false
    nonempty_list [] = refl
    nonempty_list (v ∷ vs) =
        is_nil-values (sorted_values (v ∷ vs) lo hi)
          (is_nil-insert_sorted (clamp_int v lo hi) (sorted_values vs lo hi))

    as_mode : (m : CronFieldMode) → is_nil (build_as m field lo hi) ≡ false
    as_mode CronFieldMode.any = refl
    as_mode CronFieldMode.step = refl
    as_mode CronFieldMode.range =
        let a = clamp_int field.range_start lo hi in
        let b = clamp_int field.range_end lo hi in
        elim (Bool-cases (leb a b)) [
          | inl up ↦ rw up (is_nil-digit (range_text a b) (print-StartsWithDigit a (45 ∷ print b)))
          | inr down ↦
              rw down (is_nil-digit (range_text b a) (print-StartsWithDigit b (45 ∷ print a)))
        ]
    as_mode CronFieldMode.specific = nonempty_list field.specific

pub spaceless-build_field_expr :
    (field : CronFieldConfig) (lo hi : ℕ)
    → all (λ c. not (is_space c)) (build_field_expr field lo hi) ≡ true
unfolding build_field_expr is_space
spaceless-build_field_expr field lo hi = as_mode field.mode
  where
    spaceless_list : (vs : List ℤ) → all (λ c. not (is_space c)) (specific_text vs lo hi) ≡ true
    spaceless_list [] = refl
    spaceless_list (v ∷ vs) =
        spaceless-values (sorted_values (v ∷ vs) lo hi)
          (is_nil-insert_sorted (clamp_int v lo hi) (sorted_values vs lo hi))

    as_mode : (m : CronFieldMode) → all (λ c. not (is_space c)) (build_as m field lo hi) ≡ true
    as_mode CronFieldMode.any = refl
    as_mode CronFieldMode.step = spaceless-step_text (clamp_int field.step 1 (hi - lo + 1))
    as_mode CronFieldMode.range =
        let a = clamp_int field.range_start lo hi in
        let b = clamp_int field.range_end lo hi in
        elim (Bool-cases (leb a b)) [
          | inl up ↦ rw up (spaceless-range_text a b)
          | inr down ↦ rw down (spaceless-range_text b a)
        ]
    as_mode CronFieldMode.specific = spaceless_list field.specific
