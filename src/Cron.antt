-- ===== src/Cron.antt =====
-- The form of a cron schedule (web/src/lib/cron-builder.ts): its types, the bounds of each part and
-- the values that a new form has. Texts are lists of code units. A number of the form is whole; it
-- may lie outside its part's bounds, also below 0, and `clamp_int` brings it inside. Labels, options
-- and the sentences shown to the user are left out.
pub mod Field
pub mod Expression
use omni_python_web_template.Base.{
  ℕ, zero, suc, ◌+◌, ◌-◌, ◌*◌, ◌/◌, ◌%◌, ◌≤◌, ◌<◌, min, max, String, ◌≡◌, refl, sym, ap, ◌∙◌, subst,
  ◌≢◌, ◌↔◌, ◌⊎◌, inl, inr, Bool, true, false, not, ◌&&◌, ◌||◌, Option, none, some, List, [], ◌∷◌,
  ◌++◌, map, append-nil, append_assoc, map-append, arith, ltb, leb, if◌then◌else◌, Eq, ◌==◌, nat_eq,
  string_eq, Bool-cases, Option-cases, or_true_cases, and_true_parts, beq_refl, beq_sym, length,
  take, drop, get_elem?, filter, find?, all, All, length-append, take-append-drop, length-take,
  length-drop, take_of_length_le, length-map, filter-append, length-filter-le, filter-filter,
  All-append, All-filter_self, sum_of, sum_of-append, is_nil, sum_of-map, All-map,
}
use omni_python_web_template.Base.Collections.{
  includes, IsNodup, set_add, set_add_all, set_of, set_delete, set_delete_all, includes-append,
  includes-filter, includes-set_add, includes-set_add_all, includes-set_delete,
  includes-set_delete_all, IsNodup-append_one, set_add-IsNodup, set_add_all-IsNodup, filter-IsNodup,
  lookup, insert, remove, keys, lookup-insert, lookup-remove, includes-keys-insert,
  keys-insert_of_includes, lookup_cases, keys-insert, lookup_absent, map_ext, All-of_includes,
  All-includes, filter_of_All, set_add_all_of_All,
}
use omni_python_web_template.Base.Num.{ℤ, pos, negsuc}

pub data CronMode : Type 0 where
  every_n_seconds : CronMode
  every_n_minutes : CronMode
  hourly : CronMode
  daily : CronMode
  weekly : CronMode
  custom : CronMode

pub data CronFieldMode : Type 0 where
  any : CronFieldMode
  step : CronFieldMode
  specific : CronFieldMode
  range : CronFieldMode

pub record CronFieldConfig : Type 0 where
  pub mode : CronFieldMode
  pub step : ℤ
  pub specific : List ℤ
  pub range_start : ℤ
  pub range_end : ℤ

pub record CronCustomFields : Type 0 where
  pub second : CronFieldConfig
  pub minute : CronFieldConfig
  pub hour : CronFieldConfig
  pub day : CronFieldConfig
  pub month : CronFieldConfig
  pub weekday : CronFieldConfig

pub record CronConfig : Type 0 where
  pub mode : CronMode
  pub every_n_seconds : ℤ
  pub every_n_minutes : ℤ
  pub hourly_minute : ℤ
  pub daily_hour : ℤ
  pub daily_minute : ℤ
  pub weekly_hour : ℤ
  pub weekly_minute : ℤ
  pub weekly_day : ℤ
  pub custom_fields : CronCustomFields

abbrev pub default_cron_field_config : ℕ → CronFieldConfig
default_cron_field_config lo = record {
  mode = CronFieldMode.any;
  step = pos 1;
  specific = [];
  range_start = pos lo;
  range_end = pos lo;
}

abbrev pub default_cron_custom_fields : CronCustomFields
default_cron_custom_fields = record {
  second = default_cron_field_config 0;
  minute = default_cron_field_config 0;
  hour = default_cron_field_config 0;
  day = default_cron_field_config 1;
  month = default_cron_field_config 1;
  weekday = default_cron_field_config 0;
}

abbrev pub default_cron_config : CronConfig
default_cron_config = record {
  mode = CronMode.every_n_minutes;
  every_n_seconds = pos 5;
  every_n_minutes = pos 5;
  hourly_minute = pos 0;
  daily_hour = pos 9;
  daily_minute = pos 0;
  weekly_hour = pos 9;
  weekly_minute = pos 0;
  weekly_day = pos 1;
  custom_fields = default_cron_custom_fields;
}

-- `Math.min(max, Math.max(min, Math.trunc(value)))`, where `min` is not negative
unfoldable pub clamp_int : ℤ → ℕ → ℕ → ℕ
clamp_int (pos v) lo hi = min hi (max lo v)
clamp_int (negsuc v) lo hi = min hi lo

pub clamp_int-low : (v : ℤ) (lo hi : ℕ) → lo ≤ hi → lo ≤ clamp_int v lo hi
unfolding clamp_int
clamp_int-low (pos v) lo hi h = ground arith
clamp_int-low (negsuc v) lo hi h = ground arith

pub clamp_int-high : (v : ℤ) (lo hi : ℕ) → clamp_int v lo hi ≤ hi
unfolding clamp_int
clamp_int-high (pos v) lo hi = ground arith
clamp_int-high (negsuc v) lo hi = ground arith

-- A value inside the bounds is kept.
pub clamp_int-inside : (v lo hi : ℕ) → lo ≤ v → v ≤ hi → clamp_int (pos v) lo hi ≡ v
unfolding clamp_int
clamp_int-inside v lo hi h k = ground arith

pub clamp_int-idempotent :
    (v : ℤ) (lo hi : ℕ) → lo ≤ hi → clamp_int (pos (clamp_int v lo hi)) lo hi ≡ clamp_int v lo hi
clamp_int-idempotent v lo hi h =
    clamp_int-inside (clamp_int v lo hi) lo hi (clamp_int-low v lo hi h) (clamp_int-high v lo hi)
