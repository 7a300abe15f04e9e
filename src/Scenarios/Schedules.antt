-- ===== src/Scenarios/Schedules.antt =====
-- A schedule on some weekdays, a list of minutes out of bounds, and texts that are no schedules.
use omni_python_web_template.Base.{◌≡◌, refl, ◌≢◌, true, false, [], ◌∷◌, arith, nat_eq, string_eq}
use omni_python_web_template.Base.Num.{pos, negsuc}
use omni_python_web_template.Base.Codes.{codes, join_with, print, print_from}
use omni_python_web_template.Cron.{
  CronMode, CronFieldMode, CronFieldConfig, CronConfig, default_cron_config,
  default_cron_custom_fields, clamp_int,
}
use omni_python_web_template.Cron.Field.{build_field_expr, parse_field_expr}
use omni_python_web_template.Cron.Field.RoundTrip.{normal_field, parse_field_expr-build_field_expr}
use omni_python_web_template.Cron.Field.Bounds.{InBounds, parse_field_expr-InBounds}
use omni_python_web_template.Cron.Expression.{build_cron_expr, parse_cron_expr}
use omni_python_web_template.Cron.Expression.Presets.{preset_as, parse_cron_expr-build_cron_expr}
use omni_python_web_template.Cron.Expression.Custom.{build_cron_expr-parse_cron_expr}
use omni_python_web_template.Cron.{clamp_int}
use omni_python_web_template.Base.Codes.{join_with}
use omni_python_web_template.Base.Codes.{print}

abbrev some_minutes : CronFieldConfig
some_minutes = record {
  mode = CronFieldMode.specific;
  step = pos 1;
  specific = pos 75 ∷ pos 5 ∷ negsuc 3 ∷ [];
  range_start = pos 0;
  range_end = pos 0;
}

build_field_expr_test : build_field_expr some_minutes 0 59 ≡ codes "0,5,59"
unfolding build_field_expr clamp_int join_with print print_from
build_field_expr_test = refl

parse_field_expr-build_field_expr_example :
    parse_field_expr (build_field_expr some_minutes 0 59) 0 59 ≡ normal_field some_minutes 0 59
parse_field_expr-build_field_expr_example =
    parse_field_expr-build_field_expr some_minutes 0 59 (omega arith)

parse_field_expr-InBounds_example : InBounds 1 31 (parse_field_expr (codes "40-2") 1 31)
parse_field_expr-InBounds_example = parse_field_expr-InBounds (codes "40-2") 1 31 (omega arith)

abbrev on_fridays : CronConfig
on_fridays = record default_cron_config {
  mode = CronMode.weekly;
  weekly_hour = pos 22;
  weekly_minute = pos 90;
  weekly_day = pos 5;
}

is_weekly : CronMode.weekly ≢ CronMode.custom
is_weekly h = cc

parse_cron_expr-build_cron_expr_example :
    parse_cron_expr false (build_cron_expr on_fridays) ≡ preset_as CronMode.weekly on_fridays
parse_cron_expr-build_cron_expr_example = parse_cron_expr-build_cron_expr on_fridays is_weekly

abbrev by_parts : CronConfig
by_parts = record default_cron_config {
  mode = CronMode.custom;
  custom_fields = record default_cron_custom_fields { minute = some_minutes };
}

build_cron_expr-parse_cron_expr_example :
    build_cron_expr (parse_cron_expr true (build_cron_expr by_parts)) ≡ build_cron_expr by_parts
build_cron_expr-parse_cron_expr_example = build_cron_expr-parse_cron_expr by_parts refl
