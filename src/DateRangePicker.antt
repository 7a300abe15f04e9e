-- ===== src/DateRangePicker.antt =====
-- The picker of a range of days (web/src/components/form/date-range-filter-utils.ts and
-- use-date-range-picker.ts). A date is its time in milliseconds. What is done with days and texts of
-- days by the platform and by date-fns is given: whether two times are of one day, reading and writing
-- `yyyy-MM-dd`, and the preset of a number of days. The month shown is left out.
pub mod Picks
use omni_python_web_template.Base.{
  ℕ, zero, suc, ◌+◌, ◌-◌, ◌*◌, ◌/◌, ◌%◌, ◌≤◌, ◌<◌, min, max, String, ◌≡◌, refl, sym, ap, ◌∙◌, subst,
  ◌≢◌, ◌↔◌, ◌⊎◌, inl, inr, Bool, true, false, not, ◌&&◌, ◌||◌, Option, none, some, List, [], ◌∷◌,
  ◌++◌, map, append-nil, append_assoc, map-append, arith, ltb, leb, if◌then◌else◌, Eq, ◌==◌, nat_eq,
  string_eq, Bool-cases, Option-cases, or_true_cases, and_true_parts, beq_refl, beq_sym, length,
  take, drop, get_elem?, filter, find?, any, all, All, length-append, take-append-drop, length-take,
  length-drop, take_of_length_le, length-map, filter-append, length-filter-le, filter-filter,
  All-append, All-filter_self, sum_of, sum_of-append, is_nil, sum_of-map, All-map,
}
use omni_python_web_template.Base.Collections.{
  includes, IsNodup, set_add, set_add_all, set_of, set_delete, set_delete_all, includes-append,
  includes-filter, includes-set_add, includes-set_add_all, includes-set_delete,
  includes-set_delete_all, IsNodup-append_one, set_add-IsNodup, set_add_all-IsNodup, filter-IsNodup,
  lookup, insert, remove, keys, lookup-insert, lookup-remove, includes-keys-insert,
  keys-insert_of_includes, lookup_cases, keys-insert, lookup_absent, map_ext, All-of_includes,
  All-includes, filter_of_All, set_add_all_of_All,
}

-- `DateRangeValue`
pub record DateRangeValue : Type 0 where
  pub from : String
  pub to : String

-- `DateRange` of the calendar; `none` is undefined.
pub record DateRange : Type 0 where
  pub from : Option ℕ
  pub to : Option ℕ

pub data PickPhase : Type 0 where
  idle : PickPhase
  picking : ℕ → PickPhase
  edit_from : ℕ → PickPhase
  edit_to : ℕ → PickPhase

abbrev pub days : ℕ → Option ℕ → DateRange
days from to = record { from = some from; to = to }

abbrev pub in_order : ℕ → ℕ → DateRange
in_order start end = if leb start end then days start (some end) else days end (some start)

abbrev pub normalize_ends : Option ℕ → Option ℕ → Option DateRange
normalize_ends none to = none
normalize_ends (some from) none = some (days from none)
normalize_ends (some from) (some to) = some (in_order from to)

unfoldable pub normalize_picker_range : Option DateRange → Option DateRange
normalize_picker_range none = none
normalize_picker_range (some range) = normalize_ends range.from range.to

unfoldable pub is_awaiting_second_pick : PickPhase → Bool
is_awaiting_second_pick idle = false
is_awaiting_second_pick (picking anchor) = true
is_awaiting_second_pick (edit_from fixed_to) = true
is_awaiting_second_pick (edit_to fixed_from) = true

-- `range?.from ? { from: range.from, to: undefined } : range`
abbrev pub open_start : Option ℕ → Option DateRange → Option DateRange
open_start none range = range
open_start (some from) range = some (days from none)

abbrev pub from_of : Option DateRange → Option ℕ
from_of none = none
from_of (some range) = range.from

abbrev pub to_of : Option DateRange → Option ℕ
to_of none = none
to_of (some range) = range.to

-- What the calendar shows; the day under the pointer, if there is one, closes the range.
unfoldable pub resolve_calendar_selected :
    PickPhase → Option DateRange → Option ℕ → Option DateRange
resolve_calendar_selected idle range hover = range
resolve_calendar_selected (picking anchor) range none = some (days anchor none)
resolve_calendar_selected (picking anchor) range (some day) =
    normalize_picker_range (some (days anchor (some day)))
resolve_calendar_selected (edit_from fixed_to) range none = open_start (from_of range) range
resolve_calendar_selected (edit_from fixed_to) range (some day) =
    normalize_picker_range (some (days day (some fixed_to)))
resolve_calendar_selected (edit_to fixed_from) range none = open_start (from_of range) range
resolve_calendar_selected (edit_to fixed_from) range (some day) =
    normalize_picker_range (some (days fixed_from (some day)))

-- The state of the hook with the value of its owner; `changes` is what `onChange` was called with.
pub record Picker : Type 0 where
  pub is_open : Bool
  pub range : Option DateRange
  pub phase : PickPhase
  pub hover_date : Option ℕ
  pub value : DateRangeValue
  pub changes : List DateRangeValue

module _ (parse_date_only : String → Option ℕ) (format_date_only : ℕ → String) where
  abbrev pub value_ends : Option ℕ → Option ℕ → Option DateRange
  value_ends none none = none
  value_ends none (some to) = normalize_picker_range (some record { from = none; to = some to })
  value_ends (some from) to = normalize_picker_range (some (days from to))

  unfoldable pub value_to_range : DateRangeValue → Option DateRange
  value_to_range value = value_ends (parse_date_only value.from) (parse_date_only value.to)

  abbrev pub text_of_day : Option ℕ → String
  text_of_day none = ""
  text_of_day (some day) = format_date_only day

  abbrev pub range_to_value : DateRange → DateRangeValue
  range_to_value range = record { from = text_of_day range.from; to = text_of_day range.to }

  -- `onChange(value)`: the owner keeps the value.
  abbrev pub on_change : DateRangeValue → Picker → Picker
  on_change value s = record s { value = value; changes = s.changes ++ (value ∷ []) }

  -- `if (!normalized?.from || !normalized.to) return`
  abbrev pub commit_ends : Option ℕ → Option ℕ → Picker → Picker
  commit_ends none to s = s
  commit_ends (some from) none s = s
  commit_ends (some from) (some to) s =
      record (on_change (range_to_value (days from (some to))) s) { is_open = false }

  abbrev pub commit_normalized : Option DateRange → Picker → Picker
  commit_normalized none s = s
  commit_normalized (some range) s = commit_ends range.from range.to s

  unfoldable pub commit_range : DateRange → Picker → Picker
  commit_range next s = commit_normalized (normalize_picker_range (some next)) s

  unfoldable pub handle_open_change : Bool → Picker → Picker
  handle_open_change false s = record s { hover_date = none; is_open = false }
  handle_open_change true s = record s {
    range = value_to_range s.value;
    phase = idle;
    hover_date = none;
    is_open = true;
  }

  -- `setPhase({ type: "picking", anchor })` and `setRange({ from, to: undefined })`
  abbrev pub start_over : ℕ → Picker → Picker
  start_over day s = record s { phase = picking day; range = some (days day none) }

  module _ (is_same_day : ℕ → ℕ → Bool) where
    -- The first pick, with the ends of the range that is shown
    abbrev pub select_idle : Option ℕ → Option ℕ → ℕ → Picker → Picker
    select_idle none to day s = start_over day s
    select_idle (some from) none day s = start_over day s
    select_idle (some from) (some to) day s =
        if is_same_day day from
        then record s { phase = edit_from to; range = some (days from none) }
        else if is_same_day day to
        then record s { phase = edit_to from; range = some (days from none) }
        else start_over day s

    abbrev pub select_in : PickPhase → ℕ → Picker → Picker
    select_in idle day s = select_idle (from_of s.range) (to_of s.range) day s
    select_in (picking anchor) day s = commit_range (days anchor (some day)) s
    select_in (edit_from fixed_to) day s = commit_range (days day (some fixed_to)) s
    select_in (edit_to fixed_from) day s = commit_range (days fixed_from (some day)) s

    unfoldable pub handle_select : ℕ → Picker → Picker
    handle_select day s = select_in s.phase day (record s { hover_date = none })

  -- `next` is `buildPresetRange(days, timezone)`.
  unfoldable pub apply_preset : DateRange → Picker → Picker
  apply_preset next s = record (on_change (range_to_value next) s) {
    range = some next;
    phase = idle;
    hover_date = none;
    is_open = false;
  }
