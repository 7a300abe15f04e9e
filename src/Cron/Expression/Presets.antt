-- ===== src/Cron/Expression/Presets.antt =====
-- A preset schedule that is built is recognised again (web/src/lib/cron-builder.ts).
use omni_python_web_template.Base.{
  ℕ, ◌≡◌, refl, subst, ◌≢◌, true, false, none, some, [], ◌∷◌, append-nil, arith, ltb, nat_eq,
  string_eq,
}
use omni_python_web_template.Base.Num.{ℤ, pos}
use omni_python_web_template.Base.Text.{is_space}
use omni_python_web_template.Base.Codes.{is_number, print, words, join_with}
use omni_python_web_template.Base.Codes.Digits.{
  number-print, is_number-print, is_nil-print, StartsWithDigit, print-StartsWithDigit,
}
use omni_python_web_template.Base.Codes.Words.{IsWord, words-join_with, trim_codes-spaceless}
use omni_python_web_template.Cron.{
  CronMode, CronConfig, default_cron_config, clamp_int, clamp_int-low, clamp_int-high,
}
use omni_python_web_template.Cron.Field.{star, is_star, step_text}
use omni_python_web_template.Cron.Field.Texts.{
  spaceless-print, spaceless-step_text, step_digits-step_text, digit_first,
}
use omni_python_web_template.Cron.Expression.{
  parts_as, build_cron_expr, parse_step_value, parse_preset_from_minute_fields, parse_parts,
  parse_cron_expr,
}

-- The preset of a schedule alone: a new form with the mode and its values, brought inside their bounds.
abbrev pub preset_as : CronMode → CronConfig → CronConfig
preset_as CronMode.every_n_seconds c = record default_cron_config {
  mode = CronMode.every_n_seconds;
  every_n_seconds = pos (clamp_int c.every_n_seconds 1 59);
}
preset_as CronMode.every_n_minutes c = record default_cron_config {
  mode = CronMode.every_n_minutes;
  every_n_minutes = pos (clamp_int c.every_n_minutes 1 59);
}
preset_as CronMode.hourly c = record default_cron_config {
  mode = CronMode.hourly;
  hourly_minute = pos (clamp_int c.hourly_minute 0 59);
}
preset_as CronMode.daily c = record default_cron_config {
  mode = CronMode.daily;
  daily_hour = pos (clamp_int c.daily_hour 0 23);
  daily_minute = pos (clamp_int c.daily_minute 0 59);
}
preset_as CronMode.weekly c = record default_cron_config {
  mode = CronMode.weekly;
  weekly_hour = pos (clamp_int c.weekly_hour 0 23);
  weekly_minute = pos (clamp_int c.weekly_minute 0 59);
  weekly_day = pos (clamp_int c.weekly_day 0 6);
}
preset_as CronMode.custom c = c

-- What tells a printed number from the other parts.
print_parts :
    (n : ℕ)
    → (is_number (print n) ≡ true)
      × (is_star (print n) ≡ false)
      × (parse_step_value (print n) 1 59 ≡ none)
unfolding parse_step_value
print_parts n =
    let start = subst StartsWithDigit (append-nil (print n)) (print-StartsWithDigit n []) in
    let (nonempty, unstarred, unstepped) = digit_first (print n) start in
    (
      is_number-print n,
      unstarred,
      rw (trim_codes-spaceless (print n) (spaceless-print n), unstepped) refl,
    )

parse_step_value-step_text :
    (v : ℤ) → parse_step_value (step_text (clamp_int v 1 59)) 1 59 ≡ some (clamp_int v 1 59)
unfolding parse_step_value
parse_step_value-step_text v =
    let n = clamp_int v 1 59 in
    let low : ltb n 1 ≡ false = ground (arith, clamp_int-low v 1 59) in
    let high : ltb 59 n ≡ false = ground (arith, clamp_int-high v 1 59) in
    rw
      (
        trim_codes-spaceless (step_text n) (spaceless-step_text n),
        step_digits-step_text n,
        number-print n,
        low,
        high,
      )
      refl

pub print-IsWord : (n : ℕ) → IsWord (print n)
print-IsWord n = (is_nil-print n, spaceless-print n)

pub step_text-IsWord : (n : ℕ) → IsWord (step_text n)
step_text-IsWord n = (refl, spaceless-step_text n)

pub star-IsWord : IsWord star
unfolding is_space
star-IsWord = (refl, refl)

parse-preset :
    (m : CronMode) (c : CronConfig)
    → m ≢ CronMode.custom
    → parse_parts false (words (join_with 32 (parts_as m c))) ≡ preset_as m c
unfolding parse_preset_from_minute_fields
parse-preset CronMode.every_n_seconds c h =
    rw
      (
        words-join_with (step_text (clamp_int c.every_n_seconds 1 59))
            (star ∷ star ∷ star ∷ star ∷ star ∷ [])
            (
              step_text-IsWord _,
              (star-IsWord, (star-IsWord, (star-IsWord, (star-IsWord, (star-IsWord, tt))))),
            ),
        parse_step_value-step_text c.every_n_seconds,
      )
      refl
parse-preset CronMode.every_n_minutes c h =
    rw
      (
        words-join_with (step_text (clamp_int c.every_n_minutes 1 59))
            (star ∷ star ∷ star ∷ star ∷ [])
            (step_text-IsWord _, (star-IsWord, (star-IsWord, (star-IsWord, (star-IsWord, tt))))),
        parse_step_value-step_text c.every_n_minutes,
      )
      refl
parse-preset CronMode.hourly c h =
    let m = clamp_int c.hourly_minute 0 59 in
    let (numeric, unstarred, unstepped) = print_parts m in
    rw
      (
        words-join_with (print m) (star ∷ star ∷ star ∷ star ∷ [])
            (print-IsWord _, (star-IsWord, (star-IsWord, (star-IsWord, (star-IsWord, tt))))),
        unstepped,
        numeric,
        number-print m,
      )
      refl
parse-preset CronMode.daily c h =
    let m = clamp_int c.daily_minute 0 59 in
    let hr = clamp_int c.daily_hour 0 23 in
    let (numeric, unstarred, unstepped) = print_parts m in
    let (hour_numeric, hour_unstarred, hour_unstepped) = print_parts hr in
    rw
      (
        words-join_with (print m) (print hr ∷ star ∷ star ∷ star ∷ [])
            (print-IsWord _, (print-IsWord _, (star-IsWord, (star-IsWord, (star-IsWord, tt))))),
        unstepped,
        numeric,
        hour_numeric,
        hour_unstarred,
        number-print m,
        number-print hr,
      )
      refl
parse-preset CronMode.weekly c h =
    let m = clamp_int c.weekly_minute 0 59 in
    let hr = clamp_int c.weekly_hour 0 23 in
    let d = clamp_int c.weekly_day 0 6 in
    let (numeric, unstarred, unstepped) = print_parts m in
    let (hour_numeric, hour_unstarred, hour_unstepped) = print_parts hr in
    let (day_numeric, day_unstarred, day_unstepped) = print_parts d in
    rw
      (
        words-join_with (print m) (print hr ∷ star ∷ star ∷ print d ∷ [])
            (print-IsWord _, (print-IsWord _, (star-IsWord, (star-IsWord, (print-IsWord _, tt))))),
        unstepped,
        numeric,
        hour_numeric,
        hour_unstarred,
        day_numeric,
        day_unstarred,
        number-print m,
        number-print hr,
        number-print d,
      )
      refl
parse-preset CronMode.custom c h = absurd (h refl)

-- The text of a schedule that is a preset is recognised as that preset, with its values inside their
-- bounds and everything else as in a new form.
pub parse_cron_expr-build_cron_expr :
    (c : CronConfig)
    → c.mode ≢ CronMode.custom
    → parse_cron_expr false (build_cron_expr c) ≡ preset_as c.mode c
unfolding parse_cron_expr build_cron_expr
parse_cron_expr-build_cron_expr c h = parse-preset c.mode c h
