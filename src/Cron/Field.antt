-- ===== src/Cron/Field.antt =====
-- One part of a cron text: `buildFieldExpr` and `parseFieldExpr` of web/src/lib/cron-builder.ts.
pub mod Texts
pub mod Listed
pub mod Built
pub mod RoundTrip
pub mod Bounds
use omni_python_web_template.Base.{
  ℕ, zero, suc, ◌+◌, ◌-◌, ◌*◌, ◌/◌, ◌%◌, ◌≤◌, ◌<◌, min, max, String, ◌≡◌, refl, sym, ap, ◌∙◌, subst,
  ◌≢◌, ◌↔◌, ◌⊎◌, inl, inr, Bool, true, false, not, ◌&&◌, ◌||◌, Option, none, some, List, [], ◌∷◌,
  ◌++◌, map, append-nil, append_assoc, map-append, arith, ltb, leb, if◌then◌else◌, Eq, ◌==◌, nat_eq,
  string_eq, Bool-cases, Option-cases, or_true_cases, and_true_parts, beq_refl, beq_sym, length,
  take, drop, get_elem?, filter, find?, all, All, length-append, take-append-drop, length-take,
  length-drop, take_of_length_le, length-map, filter-append, length-filter-le, filter-filter,
  All-append, All-filter_self, sum_of, sum_of-append, is_nil, sum_of-map, All-map,
}
use omni_python_web_template.Base.Collections.{
  includes, IsNodup, set_add, set_add_all, set_of, set_delete, set_delete_all, includes-append,
  includes-filter, includes-set_add, includes-set_add_all, includes-set_delete,
  includes-set_delete_all, IsNodup-append_one, set_add-IsNodup, set_add_all-IsNodup, filter-IsNodup,
  lookup, insert, remove, keys, lookup-insert, lookup-remove, includes-keys-insert,
  keys-insert_of_includes, lookup_cases, keys-insert, lookup_absent, map_ext, All-of_includes,
  All-includes, filter_of_All, set_add_all_of_All,
}
use omni_python_web_template.Base.Num.{ℤ, pos, negsuc}
use omni_python_web_template.Base.Sort.{sort_by}
use omni_python_web_template.Base.Codes.{
  Codes, is_digit, is_number, print, number, split_by, join_with, trim_codes, same_codes,
}
use omni_python_web_template.Cron.{
  CronFieldMode, CronFieldConfig, default_cron_field_config, clamp_int,
}
use omni_python_web_template.Base.{nat_beq}

-- "*"
abbrev pub star : Codes
star = 42 ∷ []

abbrev pub is_star : Codes → Bool
is_star s = same_codes s star

-- `*/${n}`
abbrev pub step_text : ℕ → Codes
step_text n = 42 ∷ 47 ∷ print n

-- `${start}-${end}`
abbrev pub range_text : ℕ → ℕ → Codes
range_text start end = print start ++ 45 ∷ print end

-- `values.map((value) => clampInt(value, min, max)).sort((a, b) => a - b)`
abbrev pub sorted_values : List ℤ → ℕ → ℕ → List ℕ
sorted_values values lo hi = sort_by leb (map (λ v. clamp_int v lo hi) values)

abbrev pub specific_text : List ℤ → ℕ → ℕ → Codes
specific_text [] lo hi = star
specific_text (v ∷ vs) lo hi = join_with 44 (map print (sorted_values (v ∷ vs) lo hi))

-- The cases of `buildFieldExpr`; the bounds of every part have `min <= max`.
abbrev pub build_as : CronFieldMode → CronFieldConfig → ℕ → ℕ → Codes
build_as CronFieldMode.any field lo hi = star
build_as CronFieldMode.step field lo hi = step_text (clamp_int field.step 1 (hi - lo + 1))
build_as CronFieldMode.range field lo hi =
    let start = clamp_int field.range_start lo hi in
    let end = clamp_int field.range_end lo hi in
    if leb start end then range_text start end else range_text end start
build_as CronFieldMode.specific field lo hi = specific_text field.specific lo hi

unfoldable pub build_field_expr : CronFieldConfig → ℕ → ℕ → Codes
build_field_expr field lo hi = build_as field.mode field lo hi

-- `/^\*\/(\d+)$/`: the digits
unfoldable pub step_digits : Codes → Option Codes
step_digits [] = none
step_digits (c ∷ []) = none
step_digits (c ∷ d ∷ ds) = if nat_beq c 42 && (nat_beq d 47 && is_number ds) then some ds else none

abbrev pub two_numbers : List Codes → Option (Codes × Codes)
two_numbers [] = none
two_numbers (a ∷ []) = none
two_numbers (a ∷ b ∷ []) = if is_number a && is_number b then some (a, b) else none
two_numbers (a ∷ b ∷ c ∷ more) = none

-- `/^(\d+)-(\d+)$/`: the two numbers
unfoldable pub range_digits : Codes → Option (Codes × Codes)
range_digits s = two_numbers (split_by (λ c. nat_beq c 45) s)

-- `/^[\d,]+$/`
unfoldable pub is_number_list : Codes → Bool
is_number_list s = not (is_nil s) && all (λ c. is_digit c || nat_beq c 44) s

-- The numbers between the commas that are inside the bounds; an empty part is 0.
unfoldable pub listed_values : Codes → ℕ → ℕ → List ℕ
listed_values s lo hi =
    filter (λ v. leb lo v && leb v hi) (map number (split_by (λ c. nat_beq c 44) s))

-- `{ ...base, mode: "specific", specific }`
abbrev pub specific_field : ℕ → List ℕ → CronFieldConfig
specific_field lo values = record {
  mode = CronFieldMode.specific;
  step = pos 1;
  specific = map pos values;
  range_start = pos lo;
  range_end = pos lo;
}

-- `{ ...base, mode: "step", step }`
abbrev pub step_field : ℕ → ℕ → CronFieldConfig
step_field lo n = record {
  mode = CronFieldMode.step;
  step = pos n;
  specific = [];
  range_start = pos lo;
  range_end = pos lo;
}

-- `{ ...base, mode: "range", rangeStart, rangeEnd }`
abbrev pub range_field : ℕ → ℕ → CronFieldConfig
range_field start end = record {
  mode = CronFieldMode.range;
  step = pos 1;
  specific = [];
  range_start = pos start;
  range_end = pos end;
}

-- `if (/^\d+$/.test(trimmed))`, the last test
abbrev pub parse_single : Codes → ℕ → ℕ → CronFieldConfig
parse_single s lo hi =
    if is_number s
    then specific_field lo (clamp_int (pos (number s)) lo hi ∷ [])
    else default_cron_field_config lo

-- `if (/^[\d,]+$/.test(trimmed))`, with what follows it
unfoldable pub parse_specific : Codes → ℕ → ℕ → CronFieldConfig
parse_specific s lo hi =
    let values = listed_values s lo hi in
    if is_number_list s && not (is_nil values)
    then specific_field lo values
    else parse_single s lo hi

-- The tests on a trimmed text that is not empty and not "*".
unfoldable pub parse_trimmed : Codes → ℕ → ℕ → CronFieldConfig
parse_trimmed s lo hi = elim (step_digits s) [
  | some ds ↦ step_field lo (clamp_int (pos (number ds)) 1 (hi - lo + 1))
  | none ↦ elim (range_digits s) [
    | some (a, b) ↦
        range_field (clamp_int (pos (number a)) lo hi) (clamp_int (pos (number b)) lo hi)
    | none ↦ parse_specific s lo hi
  ]
]

unfoldable pub parse_field_expr : Codes → ℕ → ℕ → CronFieldConfig
parse_field_expr expr lo hi =
    let trimmed = trim_codes expr in
    if is_nil trimmed || is_star trimmed
    then default_cron_field_config lo
    else parse_trimmed trimmed lo hi
