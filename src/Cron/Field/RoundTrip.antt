-- ===== src/Cron/Field/RoundTrip.antt =====
-- A part that is built is read back (web/src/lib/cron-builder.ts).
use omni_python_web_template.Base.{
  ℕ, ◌+◌, ◌-◌, ◌≤◌, min, max, ◌≡◌, refl, ap, ◌∙◌, inl, inr, [], arith, leb, if◌then◌else◌, nat_eq,
  string_eq, Bool-cases, is_nil,
}
use omni_python_web_template.Cron.{
  CronFieldMode, CronFieldConfig, default_cron_field_config, clamp_int, clamp_int-idempotent,
}
use omni_python_web_template.Cron.Field.{
  sorted_values, build_as, build_field_expr, specific_field, step_field, range_field,
  parse_field_expr,
}
use omni_python_web_template.Cron.Field.Texts.{
  parse_field_expr-step_text, parse_field_expr-range_text,
}
use omni_python_web_template.Cron.Field.Built.{parse_field_expr-specific_text}

-- What a part means: the values inside its bounds and in order, the others as they are in a new form.
abbrev pub normal_as : CronFieldMode → CronFieldConfig → ℕ → ℕ → CronFieldConfig
normal_as CronFieldMode.any field lo hi = default_cron_field_config lo
normal_as CronFieldMode.step field lo hi = step_field lo (clamp_int field.step 1 (hi - lo + 1))
normal_as CronFieldMode.range field lo hi =
    range_field (min (clamp_int field.range_start lo hi) (clamp_int field.range_end lo hi))
      (max (clamp_int field.range_start lo hi) (clamp_int field.range_end lo hi))
normal_as CronFieldMode.specific field lo hi =
    if is_nil field.specific
    then default_cron_field_config lo
    else specific_field lo (sorted_values field.specific lo hi)

abbrev pub normal_field : CronFieldConfig → ℕ → ℕ → CronFieldConfig
normal_field field lo hi = normal_as field.mode field lo hi

parse-build_as :
    (m : CronFieldMode) (field : CronFieldConfig) (lo hi : ℕ)
    → lo ≤ hi
    → parse_field_expr (build_as m field lo hi) lo hi ≡ normal_as m field lo hi
parse-build_as CronFieldMode.any field lo hi h = parse_field_expr-specific_text [] lo hi h
parse-build_as CronFieldMode.step field lo hi h =
    parse_field_expr-step_text (clamp_int field.step 1 (hi - lo + 1)) lo hi
    ∙ ap (step_field lo) (clamp_int-idempotent field.step 1 (hi - lo + 1) (omega arith))
parse-build_as CronFieldMode.range field lo hi h =
    let a = clamp_int field.range_start lo hi in
    let b = clamp_int field.range_end lo hi in
    let same_a = clamp_int-idempotent field.range_start lo hi h in
    let same_b = clamp_int-idempotent field.range_end lo hi h in
    elim (Bool-cases (leb a b)) [
      | inl up ↦
          let low : min a b ≡ a = ground arith in
          let high : max a b ≡ b = ground arith in
          rw (up, parse_field_expr-range_text a b lo hi, same_a, same_b, low, high) refl
      | inr down ↦
          let low : min a b ≡ b = ground arith in
          let high : max a b ≡ a = ground arith in
          rw (down, parse_field_expr-range_text b a lo hi, same_a, same_b, low, high) refl
    ]
parse-build_as CronFieldMode.specific field lo hi h =
    parse_field_expr-specific_text field.specific lo hi h

-- The text of a part is read back as what the part means, also where its values were outside its
-- bounds, out of order, or none.
pub parse_field_expr-build_field_expr :
    (field : CronFieldConfig) (lo hi : ℕ)
    → lo ≤ hi
    → parse_field_expr (build_field_expr field lo hi) lo hi ≡ normal_field field lo hi
unfolding build_field_expr
parse_field_expr-build_field_expr field lo hi h = parse-build_as field.mode field lo hi h
