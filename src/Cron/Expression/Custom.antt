-- ===== src/Cron/Expression/Custom.antt =====
-- A schedule made part by part is read back and printed as it was (web/src/lib/cron-builder.ts).
use omni_python_web_template.Base.{
  ℕ, ◌+◌, ◌-◌, ◌≤◌, min, max, ◌≡◌, refl, ap, ◌∙◌, inl, inr, true, false, ◌&&◌, List, [], ◌∷◌, map,
  arith, leb, if◌then◌else◌, nat_eq, string_eq, Bool-cases, All, is_nil,
}
use omni_python_web_template.Base.Num.{ℤ, pos}
use omni_python_web_template.Base.Sort.{sort_by, sort_by_of_IsSorted, sort_by-IsSorted, IsOrder}
use omni_python_web_template.Base.Codes.{print, words, join_with}
use omni_python_web_template.Base.Codes.Words.{IsWord, words-join_with}
use omni_python_web_template.Cron.{
  CronMode, CronFieldMode, CronFieldConfig, CronCustomFields, CronConfig, default_cron_field_config,
  clamp_int, clamp_int-inside, clamp_int-idempotent,
}
use omni_python_web_template.Cron.Field.{
  sorted_values, specific_text, build_as, build_field_expr, specific_field, parse_field_expr,
}
use omni_python_web_template.Cron.Field.RoundTrip.{normal_as, parse_field_expr-build_field_expr}
use omni_python_web_template.Cron.Field.Built.{
  inside-sorted_values, is_nil-insert_sorted, spaceless-build_field_expr, is_nil-build_field_expr,
}
use omni_python_web_template.Cron.Expression.{custom_parts, build_cron_expr, parse_cron_expr}

order : IsOrder leb
order = record { total = λ a b. ground arith; trans = λ a b c h k. ground arith }

clamped_again :
    (vs : List ℕ) (lo hi : ℕ)
    → All (λ x. (leb lo x && leb x hi) ≡ true) vs
    → map (λ v. clamp_int v lo hi) (map pos vs) ≡ vs
clamped_again [] lo hi h = refl
clamped_again (v ∷ vs) lo hi (k, h) =
    let low : lo ≤ v = ground arith in
    let high : v ≤ hi = ground arith in
    rw (clamp_int-inside v lo hi low high, clamped_again vs lo hi h) refl

sorted_again :
    (vs : List ℤ) (lo hi : ℕ)
    → lo ≤ hi
    → sorted_values (map pos (sorted_values vs lo hi)) lo hi ≡ sorted_values vs lo hi
sorted_again vs lo hi h =
    ap (sort_by leb)
      (clamped_again (sorted_values vs lo hi) lo hi (inside-sorted_values vs lo hi h))
    ∙ sort_by_of_IsSorted leb order (sorted_values vs lo hi)
        (sort_by-IsSorted leb order (map (λ v. clamp_int v lo hi) vs))

specific_text-values :
    (vs : List ℕ) (lo hi : ℕ)
    → is_nil vs ≡ false
    → specific_text (map pos vs) lo hi ≡ join_with 44 (map print (sorted_values (map pos vs) lo hi))
specific_text-values [] lo hi h = cc
specific_text-values (v ∷ vs) lo hi h = refl

build-normal_as :
    (m : CronFieldMode) (field : CronFieldConfig) (lo hi : ℕ)
    → lo ≤ hi
    → build_field_expr (normal_as m field lo hi) lo hi ≡ build_as m field lo hi
unfolding build_field_expr
build-normal_as CronFieldMode.any field lo hi h = refl
build-normal_as CronFieldMode.step field lo hi h =
    rw (clamp_int-idempotent field.step 1 (hi - lo + 1) (omega arith)) refl
build-normal_as CronFieldMode.range field lo hi h =
    let a = clamp_int field.range_start lo hi in
    let b = clamp_int field.range_end lo hi in
    let same_a = clamp_int-idempotent field.range_start lo hi h in
    let same_b = clamp_int-idempotent field.range_end lo hi h in
    elim (Bool-cases (leb a b)) [
      | inl up ↦
          let low : min a b ≡ a = ground arith in
          let high : max a b ≡ b = ground arith in rw (low, high, same_a, same_b, up) refl
      | inr down ↦
          let low : min a b ≡ b = ground arith in
          let high : max a b ≡ a = ground arith in
          let up : leb b a ≡ true = ground arith in rw (low, high, same_a, same_b, up, down) refl
    ]
build-normal_as CronFieldMode.specific field lo hi h = specific field.specific
  where
    nonempty : (v : ℤ) (vs : List ℤ) → is_nil (sorted_values (v ∷ vs) lo hi) ≡ false
    nonempty v vs = is_nil-insert_sorted (clamp_int v lo hi) (sorted_values vs lo hi)

    specific :
        (vs : List ℤ)
        → build_field_expr
            (if is_nil vs
              then default_cron_field_config lo
              else specific_field lo (sorted_values vs lo hi))
            lo
            hi
          ≡ specific_text vs lo hi
    specific [] = refl
    specific (v ∷ vs) =
        specific_text-values (sorted_values (v ∷ vs) lo hi) lo hi (nonempty v vs)
        ∙ ap (λ ws. join_with 44 (map print ws)) (sorted_again (v ∷ vs) lo hi h)

pub build-parse-build :
    (field : CronFieldConfig) (lo hi : ℕ)
    → lo ≤ hi
    → build_field_expr (parse_field_expr (build_field_expr field lo hi) lo hi) lo hi
      ≡ build_field_expr field lo hi
unfolding build_field_expr
build-parse-build field lo hi h =
    ap (λ f. build_field_expr f lo hi) (parse_field_expr-build_field_expr field lo hi h)
    ∙ build-normal_as field.mode field lo hi h

build_field_expr-IsWord :
    (field : CronFieldConfig) (lo hi : ℕ) → IsWord (build_field_expr field lo hi)
build_field_expr-IsWord field lo hi =
    (is_nil-build_field_expr field lo hi, spaceless-build_field_expr field lo hi)

words-custom_parts : (f : CronCustomFields) → words (join_with 32 (custom_parts f)) ≡ custom_parts f
words-custom_parts f = words-join_with (build_field_expr f.second 0 59) _ (
  build_field_expr-IsWord f.second 0 59,
  (
    build_field_expr-IsWord f.minute 0 59,
    (
      build_field_expr-IsWord f.hour 0 23,
      (
        build_field_expr-IsWord f.day 1 31,
        (build_field_expr-IsWord f.month 1 12, (build_field_expr-IsWord f.weekday 0 6, tt)),
      ),
    ),
  ),
)

-- Where the form asks for the schedule part by part, the text of a schedule made that way is read as
-- a schedule with the same text, whatever its values, also out of bounds.
pub build_cron_expr-parse_cron_expr :
    (c : CronConfig)
    → c.mode ≡ CronMode.custom
    → build_cron_expr (parse_cron_expr true (build_cron_expr c)) ≡ build_cron_expr c
unfolding build_cron_expr parse_cron_expr
build_cron_expr-parse_cron_expr c h =
    let f = c.custom_fields in
    rw
      (
        h,
        words-custom_parts f,
        build-parse-build f.second 0 59 (omega arith),
        build-parse-build f.minute 0 59 (omega arith),
        build-parse-build f.hour 0 23 (omega arith),
        build-parse-build f.day 1 31 (omega arith),
        build-parse-build f.month 1 12 (omega arith),
        build-parse-build f.weekday 0 6 (omega arith),
      )
      refl
