-- ===== src/Cron/Field/Bounds.antt =====
-- What `parseFieldExpr` of web/src/lib/cron-builder.ts makes of any text is inside the bounds.
use omni_python_web_template.Base.{
  ℕ, ◌+◌, ◌-◌, ◌≤◌, ◌≡◌, inl, inr, true, false, not, ◌&&◌, ◌||◌, none, some, List, [], ◌∷◌, map,
  arith, leb, nat_eq, string_eq, Bool-cases, All, All-filter_self, is_nil,
}
use omni_python_web_template.Base.Num.{ℤ, pos, negsuc}
use omni_python_web_template.Base.Codes.{Codes, number, trim_codes, is_number}
use omni_python_web_template.Cron.{
  CronFieldConfig, default_cron_field_config, clamp_int, clamp_int-low, clamp_int-high,
}
use omni_python_web_template.Cron.Field.{
  is_star, step_digits, range_digits, is_number_list, listed_values, specific_field, step_field,
  range_field, parse_single, parse_specific, parse_trimmed, parse_field_expr,
}

-- A number of the form between two bounds; a negative one never is.
abbrev pub Within : ℕ → ℕ → ℤ → Type 0
Within lo hi (pos v) = (lo ≤ v) × (v ≤ hi)
Within lo hi (negsuc v) = false ≡ true

-- Every number of a part is inside the part's bounds, whatever its mode.
abbrev pub InBounds : ℕ → ℕ → CronFieldConfig → Type 0
InBounds lo hi field =
    Within 1 (hi - lo + 1) field.step
    × All (Within lo hi) field.specific
    × Within lo hi field.range_start
    × Within lo hi field.range_end

default-InBounds : (lo hi : ℕ) → lo ≤ hi → InBounds lo hi (default_cron_field_config lo)
default-InBounds lo hi h = ((omega arith, omega arith), tt, (omega arith, h), (omega arith, h))

inside_values :
    (vs : List ℕ) (lo hi : ℕ)
    → All (λ v. (leb lo v && leb v hi) ≡ true) vs
    → All (Within lo hi) (map pos vs)
inside_values [] lo hi h = tt
inside_values (v ∷ vs) lo hi (k, h) = ((ground arith, ground arith), inside_values vs lo hi h)

specific_field-InBounds :
    (vs : List ℕ) (lo hi : ℕ)
    → lo ≤ hi
    → All (λ v. (leb lo v && leb v hi) ≡ true) vs
    → InBounds lo hi (specific_field lo vs)
specific_field-InBounds vs lo hi h k =
    ((omega arith, omega arith), inside_values vs lo hi k, (omega arith, h), (omega arith, h))

parse_single-InBounds : (s : Codes) (lo hi : ℕ) → lo ≤ hi → InBounds lo hi (parse_single s lo hi)
parse_single-InBounds s lo hi h = elim (Bool-cases (is_number s)) [
  | inl numeric ↦ rw numeric (
      specific_field-InBounds (clamp_int (pos (number s)) lo hi ∷ []) lo hi h (
        ground
            (arith, clamp_int-low (pos (number s)) lo hi h, clamp_int-high (pos (number s)) lo hi),
        tt,
      ))
  | inr other ↦ rw other (default-InBounds lo hi h)
]

parse_specific-InBounds :
    (s : Codes) (lo hi : ℕ) → lo ≤ hi → InBounds lo hi (parse_specific s lo hi)
unfolding parse_specific listed_values
parse_specific-InBounds s lo hi h =
    elim (Bool-cases (is_number_list s && not (is_nil (listed_values s lo hi)))) [
      | inl listed ↦ rw listed (
          specific_field-InBounds (listed_values s lo hi) lo hi h
            (All-filter_self (λ v. leb lo v && leb v hi) _))
      | inr other ↦ rw other (parse_single-InBounds s lo hi h)
    ]

parse_trimmed-InBounds : (s : Codes) (lo hi : ℕ) → lo ≤ hi → InBounds lo hi (parse_trimmed s lo hi)
unfolding parse_trimmed
parse_trimmed-InBounds s lo hi h =
    elim (step_digits s)
      as (λ d. InBounds lo hi (elim d [
        | some ds ↦ step_field lo (clamp_int (pos (number ds)) 1 (hi - lo + 1))
        | none ↦ elim (range_digits s) [
          | some (a, b) ↦
              range_field (clamp_int (pos (number a)) lo hi) (clamp_int (pos (number b)) lo hi)
          | none ↦ parse_specific s lo hi
        ]
      ])) [
        | some ds ↦
            let n = pos (number ds) in
            (
              (clamp_int-low n 1 (hi - lo + 1) (omega arith), clamp_int-high n 1 (hi - lo + 1)),
              tt,
              (omega arith, h),
              (omega arith, h),
            )
        | none ↦
            elim (range_digits s)
              as (λ d. InBounds lo hi (elim d [
                | some (a, b) ↦
                    range_field (clamp_int (pos (number a)) lo hi)
                      (clamp_int (pos (number b)) lo hi)
                | none ↦ parse_specific s lo hi
              ])) [
                | some (a, b) ↦ (
                  (omega arith, omega arith),
                  tt,
                  (clamp_int-low (pos (number a)) lo hi h, clamp_int-high (pos (number a)) lo hi),
                  (clamp_int-low (pos (number b)) lo hi h, clamp_int-high (pos (number b)) lo hi),
                )
                | none ↦ parse_specific-InBounds s lo hi h
              ]
      ]

-- Whatever text a part is read from, also one that is no part of a schedule or has numbers out of
-- bounds, its step, its values and the ends of its range are inside the bounds.
pub parse_field_expr-InBounds :
    (expr : Codes) (lo hi : ℕ) → lo ≤ hi → InBounds lo hi (parse_field_expr expr lo hi)
unfolding parse_field_expr
parse_field_expr-InBounds expr lo hi h =
    elim (Bool-cases (is_nil (trim_codes expr) || is_star (trim_codes expr))) [
      | inl plain ↦ rw plain (default-InBounds lo hi h)
      | inr other ↦ rw other (parse_trimmed-InBounds (trim_codes expr) lo hi h)
    ]
