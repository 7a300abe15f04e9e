-- ===== src/TablePreference/Widths.antt =====
-- types/table-preference.ts: the pixel widths of columns and their sticky offsets.
pub mod Laws
use omni_python_web_template.Base.{
  ℕ, zero, suc, ◌+◌, ◌-◌, ◌*◌, ◌/◌, ◌%◌, ◌≤◌, ◌<◌, min, max, String, ◌≡◌, refl, sym, ap, ◌∙◌, subst,
  ◌≢◌, ◌↔◌, ◌⊎◌, inl, inr, Bool, true, false, not, ◌&&◌, ◌||◌, Option, none, some, List, [], ◌∷◌,
  ◌++◌, map, append-nil, append_assoc, map-append, arith, ltb, leb, if◌then◌else◌, Eq, ◌==◌, nat_eq,
  string_eq, Bool-cases, Option-cases, or_true_cases, and_true_parts, beq_refl, beq_sym, length,
  take, drop, get_elem?, filter, find?, any, all, All, length-append, take-append-drop, length-take,
  length-drop, take_of_length_le, length-map, filter-append, length-filter-le, filter-filter,
  All-append, All-filter_self, sum_of, sum_of-append,
}
use omni_python_web_template.Base.Collections.{
  includes, IsNodup, set_add, set_add_all, set_of, set_delete, set_delete_all, includes-append,
  includes-filter, includes-set_add, includes-set_add_all, includes-set_delete,
  includes-set_delete_all, IsNodup-append_one, set_add-IsNodup, set_add_all-IsNodup, filter-IsNodup,
  lookup, insert, remove, keys, lookup-insert, lookup-remove, includes-keys-insert,
  keys-insert_of_includes, lookup_cases,
}
use omni_python_web_template.Base.Num.{ℤ, pos, Fraction, round, round_quotient, whole}
use omni_python_web_template.TablePreference.{
  default_column_width, min_column_width, or_default, or_else, is_true,
}

-- What the width functions read of a column: `width` and `defaultWidth`.
pub record SizedColumn : Type 0 where
  pub width : Option Fraction
  pub default_width : Option Fraction

unfoldable pub resolve_column_pixel_width : Option Fraction → Option Fraction → ℕ
resolve_column_pixel_width width default_width =
    max min_column_width (round (or_default width (or_default default_width default_column_width)))

abbrev pub pixel_width : SizedColumn → ℕ
pixel_width col = resolve_column_pixel_width col.width col.default_width

abbrev pub sum : List ℕ → ℕ
sum = sum_of (λ w. w)

unfoldable pub resolve_table_pixel_width : List SizedColumn → ℕ
resolve_table_pixel_width [] = round default_column_width
resolve_table_pixel_width (c ∷ cs) = sum_of pixel_width (c ∷ cs)

-- `Math.max(MIN_COLUMN_WIDTH, Math.round((w * containerWidth) / sum))`
unfoldable pub scaled_width : ℕ → ℕ → ℕ → ℕ
scaled_width container total w = max min_column_width (round_quotient (pos (w * container)) total)

-- `widths[last] = Math.max(MIN_COLUMN_WIDTH, widths[last] + drift)` for drift = container - filled.
-- A sum below 0 stops at 0, which is the same under `max`.
unfoldable pub fix_last : ℕ → ℕ → List ℕ → List ℕ
fix_last container filled [] = []
fix_last container filled (w ∷ []) = max min_column_width (w + container - filled) ∷ []
fix_last container filled (w ∷ v ∷ ws) = w ∷ fix_last container filled (v ∷ ws)

-- The widths that the columns are given, in their order. The container's width is a whole number.
unfoldable pub distribute_table_column_widths : List SizedColumn → ℕ → List ℕ
distribute_table_column_widths columns container =
    let prefs = map pixel_width columns in
    let total = sum prefs in
    let widths = map (scaled_width container total) prefs in
    if leb container 0 || leb total 0 || leb container total
    then prefs
    else fix_last container (sum widths) widths

unfoldable pub resolve_pinned_column_left : List SizedColumn → ℕ → ℕ
resolve_pinned_column_left columns index = sum_of pixel_width (take index columns)

unfoldable pub resolve_pinned_column_right : List SizedColumn → ℕ → ℕ
resolve_pinned_column_right columns index = sum_of pixel_width (drop (index + 1) columns)

unfoldable pub is_pinned_column : Option Bool → Bool
is_pinned_column pinned = is_true pinned

-- The loop of `resolveLastPinnedColumnIndex` from column `index` on; `none` is -1.
unfoldable pub last_pinned_from : ℕ → Option ℕ → List (Option Bool) → Option ℕ
last_pinned_from index last [] = last
last_pinned_from index last (pinned ∷ rest) =
    last_pinned_from (index + 1) (if is_pinned_column pinned then some index else last) rest

unfoldable pub resolve_last_pinned_column_index : List (Option Bool) → Option ℕ
unfolding last_pinned_from is_pinned_column
resolve_last_pinned_column_index columns = last_pinned_from 0 none columns

-- `columns.findIndex(isPinRightColumn)` over the flags; `none` is -1.
unfoldable pub first_pin_right_from : ℕ → List (Option Bool) → Option ℕ
first_pin_right_from index [] = none
first_pin_right_from index (flag ∷ rest) =
    if is_true flag then some index else first_pin_right_from (index + 1) rest

unfoldable pub resolve_first_pin_right_column_index : List (Option Bool) → Option ℕ
unfolding first_pin_right_from
resolve_first_pin_right_column_index columns = first_pin_right_from 0 columns
