-- ===== src/Cron/Expression.antt =====
-- A whole cron text, of five parts or of six (the first one being the second): `buildCronExpr` and
-- `parseCronExpr` of web/src/lib/cron-builder.ts. Numbers are exact here; the source's are below 2^53.
pub mod Presets
pub mod Custom
use omni_python_web_template.Base.{
  ℕ, zero, suc, ◌+◌, ◌-◌, ◌*◌, ◌/◌, ◌%◌, ◌≤◌, ◌<◌, min, max, String, ◌≡◌, refl, sym, ap, ◌∙◌, subst,
  ◌≢◌, ◌↔◌, ◌⊎◌, inl, inr, Bool, true, false, not, ◌&&◌, ◌||◌, Option, none, some, List, [], ◌∷◌,
  ◌++◌, map, append-nil, append_assoc, map-append, arith, ltb, leb, if◌then◌else◌, Eq, ◌==◌, nat_eq,
  string_eq, Bool-cases, Option-cases, or_true_cases, and_true_parts, beq_refl, beq_sym, length,
  take, drop, get_elem?, filter, find?, all, All, length-append, take-append-drop, length-take,
  length-drop, take_of_length_le, length-map, filter-append, length-filter-le, filter-filter,
  All-append, All-filter_self, sum_of, sum_of-append, is_nil, sum_of-map, All-map,
}
use omni_python_web_template.Base.Collections.{
  includes, IsNodup, set_add, set_add_all, set_of, set_delete, set_delete_all, includes-append,
  includes-filter, includes-set_add, includes-set_add_all, includes-set_delete,
  includes-set_delete_all, IsNodup-append_one, set_add-IsNodup, set_add_all-IsNodup, filter-IsNodup,
  lookup, insert, remove, keys, lookup-insert, lookup-remove, includes-keys-insert,
  keys-insert_of_includes, lookup_cases, keys-insert, lookup_absent, map_ext, All-of_includes,
  All-includes, filter_of_All, set_add_all_of_All,
}
use omni_python_web_template.Base.Num.{ℤ, pos, negsuc}
use omni_python_web_template.Base.Codes.{
  Codes, is_number, print, number, words, join_with, trim_codes, same_codes,
}
use omni_python_web_template.Cron.{
  CronMode, CronFieldMode, CronFieldConfig, CronCustomFields, CronConfig, default_cron_field_config,
  default_cron_custom_fields, default_cron_config, clamp_int,
}
use omni_python_web_template.Cron.Field.{
  star, is_star, step_text, build_field_expr, step_digits, specific_field, parse_field_expr,
}

-- `CRON_FIELD_META.map((meta) => buildFieldExpr(...))`
abbrev pub custom_parts : CronCustomFields → List Codes
custom_parts fields =
    build_field_expr fields.second 0 59
    ∷ build_field_expr fields.minute 0 59
    ∷ build_field_expr fields.hour 0 23
    ∷ build_field_expr fields.day 1 31
    ∷ build_field_expr fields.month 1 12
    ∷ build_field_expr fields.weekday 0 6
    ∷ []

-- The parts of the text, which are joined by a space.
abbrev pub parts_as : CronMode → CronConfig → List Codes
parts_as CronMode.every_n_seconds c =
    step_text (clamp_int c.every_n_seconds 1 59) ∷ star ∷ star ∷ star ∷ star ∷ star ∷ []
parts_as CronMode.every_n_minutes c =
    step_text (clamp_int c.every_n_minutes 1 59) ∷ star ∷ star ∷ star ∷ star ∷ []
parts_as CronMode.hourly c = print (clamp_int c.hourly_minute 0 59) ∷ star ∷ star ∷ star ∷ star ∷ []
parts_as CronMode.daily c =
    print (clamp_int c.daily_minute 0 59)
    ∷ print (clamp_int c.daily_hour 0 23)
    ∷ star
    ∷ star
    ∷ star
    ∷ []
parts_as CronMode.weekly c =
    print (clamp_int c.weekly_minute 0 59)
    ∷ print (clamp_int c.weekly_hour 0 23)
    ∷ star
    ∷ star
    ∷ print (clamp_int c.weekly_day 0 6)
    ∷ []
parts_as CronMode.custom c = custom_parts c.custom_fields

unfoldable pub build_cron_expr : CronConfig → Codes
build_cron_expr c = join_with 32 (parts_as c.mode c)

abbrev pub step_within : Option Codes → ℕ → ℕ → Option ℕ
step_within none lo hi = none
step_within (some ds) lo hi =
    if ltb (number ds) lo || ltb hi (number ds) then none else some (number ds)

unfoldable pub parse_step_value : Codes → ℕ → ℕ → Option ℕ
parse_step_value expr lo hi = step_within (step_digits (trim_codes expr)) lo hi

-- "0" or "00"
abbrev pub is_fixed_second_zero : Codes → Bool
is_fixed_second_zero second = same_codes second (48 ∷ []) || same_codes second (48 ∷ 48 ∷ [])

-- The presets after `everyMinutes`
abbrev pub parse_clock : CronConfig → Codes → Codes → Codes → Codes → Codes → Option CronConfig
parse_clock base minute hour day month weekday =
    if is_number minute && is_star hour && is_star day && is_star month && is_star weekday
    then some record base { mode = CronMode.hourly; hourly_minute = pos (number minute) }
    else if is_number minute && is_number hour && is_star day && is_star month && is_star weekday
    then some record base {
      mode = CronMode.daily;
      daily_minute = pos (number minute);
      daily_hour = pos (number hour);
    }
    else if is_number minute && is_number hour && is_star day && is_star month && is_number weekday
    then some record base {
      mode = CronMode.weekly;
      weekly_minute = pos (number minute);
      weekly_hour = pos (number hour);
      weekly_day = pos (number weekday);
    }
    else none

abbrev pub parse_minutes :
    Option ℕ → CronConfig → Codes → Codes → Codes → Codes → Codes → Option CronConfig
parse_minutes none base minute hour day month weekday =
    parse_clock base minute hour day month weekday
parse_minutes (some n) base minute hour day month weekday =
    if is_star hour && is_star day && is_star month && is_star weekday
    then some record base { mode = CronMode.every_n_minutes; every_n_minutes = pos n }
    else parse_clock base minute hour day month weekday

unfoldable pub parse_preset_from_minute_fields :
    CronConfig → Codes → Codes → Codes → Codes → Codes → Option CronConfig
parse_preset_from_minute_fields base minute hour day month weekday =
    parse_minutes (parse_step_value minute 1 59) base minute hour day month weekday

-- The five parts after the second
abbrev pub parse_custom_from :
    CronFieldConfig → Codes → Codes → Codes → Codes → Codes → CronCustomFields
parse_custom_from second minute hour day month weekday = record {
  second = second;
  minute = parse_field_expr minute 0 59;
  hour = parse_field_expr hour 0 23;
  day = parse_field_expr day 1 31;
  month = parse_field_expr month 1 12;
  weekday = parse_field_expr weekday 0 6;
}

-- `{ ...base, mode: "custom", customFields }`
abbrev pub custom_config : CronCustomFields → CronConfig
custom_config fields = record default_cron_config { mode = CronMode.custom; custom_fields = fields }

-- `parseCustomFields` of six parts, and of five
abbrev pub parse_custom_six : Codes → Codes → Codes → Codes → Codes → Codes → CronConfig
parse_custom_six second minute hour day month weekday =
    custom_config (parse_custom_from (parse_field_expr second 0 59) minute hour day month weekday)

abbrev pub parse_custom_five : Codes → Codes → Codes → Codes → Codes → CronConfig
parse_custom_five minute hour day month weekday =
    custom_config (parse_custom_from (specific_field 0 (0 ∷ [])) minute hour day month weekday)

abbrev pub preset_or : Option CronConfig → CronConfig → CronConfig
preset_or none c = c
preset_or (some preset) c = preset

abbrev pub parse_five : Bool → Codes → Codes → Codes → Codes → Codes → CronConfig
parse_five prefer_custom minute hour day month weekday =
    let fields = parse_custom_five minute hour day month weekday in
    if prefer_custom
    then fields
    else preset_or
        (parse_preset_from_minute_fields default_cron_config minute hour day month weekday) fields

abbrev pub parse_zero_second : Codes → Codes → Codes → Codes → Codes → Codes → CronConfig
parse_zero_second second minute hour day month weekday =
    let fields = parse_custom_six second minute hour day month weekday in
    if is_fixed_second_zero second
    then preset_or
        (parse_preset_from_minute_fields default_cron_config minute hour day month weekday) fields
    else fields

abbrev pub parse_seconds : Option ℕ → Codes → Codes → Codes → Codes → Codes → Codes → CronConfig
parse_seconds none second minute hour day month weekday =
    parse_zero_second second minute hour day month weekday
parse_seconds (some n) second minute hour day month weekday =
    if is_star minute && is_star hour && is_star day && is_star month && is_star weekday
    then record default_cron_config { mode = CronMode.every_n_seconds; every_n_seconds = pos n }
    else parse_zero_second second minute hour day month weekday

abbrev pub parse_six : Bool → Codes → Codes → Codes → Codes → Codes → Codes → CronConfig
parse_six prefer_custom second minute hour day month weekday =
    if prefer_custom
    then parse_custom_six second minute hour day month weekday
    else parse_seconds (parse_step_value second 1 59) second minute hour day month weekday

abbrev pub parse_parts : Bool → List Codes → CronConfig
parse_parts prefer_custom (a ∷ b ∷ c ∷ d ∷ e ∷ []) = parse_five prefer_custom a b c d e
parse_parts prefer_custom (a ∷ b ∷ c ∷ d ∷ e ∷ f ∷ []) = parse_six prefer_custom a b c d e f
parse_parts prefer_custom parts = custom_config default_cron_custom_fields

unfoldable pub parse_cron_expr : Bool → Codes → CronConfig
parse_cron_expr prefer_custom expr = parse_parts prefer_custom (words expr)

abbrev pub is_one_value : List ℤ → Bool
is_one_value (v ∷ []) = true
is_one_value values = false

abbrev pub is_zero_only : List ℤ → Bool
is_zero_only (pos zero ∷ []) = true
is_zero_only values = false

-- A mode that may stand before the hours: any, or specific values that pass a test
abbrev pub any_or_specific : CronFieldMode → Bool → Bool
any_or_specific CronFieldMode.any ok = true
any_or_specific CronFieldMode.step ok = false
any_or_specific CronFieldMode.specific ok = ok
any_or_specific CronFieldMode.range ok = false

abbrev pub is_any : CronFieldMode → Bool
is_any m = any_or_specific m false

abbrev pub step_hours : CronFieldMode → ℤ → Option ℤ
step_hours CronFieldMode.any n = none
step_hours CronFieldMode.step n = some n
step_hours CronFieldMode.specific n = none
step_hours CronFieldMode.range n = none

-- The number of hours in the sentence, if the sentence is used.
unfoldable pub describe_every_n_hours : CronCustomFields → Option ℤ
describe_every_n_hours f =
    let second_ok = any_or_specific f.second.mode (is_zero_only f.second.specific) in
    let minute_ok = any_or_specific f.minute.mode (is_one_value f.minute.specific) in
    if second_ok && minute_ok && is_any f.day.mode && is_any f.month.mode && is_any f.weekday.mode
    then step_hours f.hour.mode f.hour.step
    else none
