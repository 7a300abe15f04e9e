-- ===== src/TablePreference/Columns.antt =====
-- types/table-preference.ts: the columns that a configuration shows, and their order.
pub mod Shown
use omni_python_web_template.Base.{
  ℕ, zero, suc, ◌+◌, ◌-◌, ◌*◌, ◌/◌, ◌%◌, ◌≤◌, ◌<◌, min, max, String, ◌≡◌, refl, sym, ap, ◌∙◌, subst,
  ◌≢◌, ◌↔◌, ◌⊎◌, inl, inr, Bool, true, false, not, ◌&&◌, ◌||◌, Option, none, some, List, [], ◌∷◌,
  ◌++◌, map, append-nil, append_assoc, map-append, arith, ltb, leb, if◌then◌else◌, Eq, ◌==◌, nat_eq,
  string_eq, Bool-cases, Option-cases, or_true_cases, and_true_parts, beq_refl, beq_sym, length,
  take, drop, get_elem?, filter, find?, any, all, All, length-append, take-append-drop, length-take,
  length-drop, take_of_length_le, length-map, filter-append, length-filter-le, filter-filter,
  All-append, All-filter_self, sum_of, sum_of-append, is_nil, sum_of-map, All-map,
}
use omni_python_web_template.Base.Collections.{
  includes, IsNodup, set_add, set_add_all, set_of, set_delete, set_delete_all, includes-append,
  includes-filter, includes-set_add, includes-set_add_all, includes-set_delete,
  includes-set_delete_all, IsNodup-append_one, set_add-IsNodup, set_add_all-IsNodup, filter-IsNodup,
  lookup, insert, remove, keys, lookup-insert, lookup-remove, includes-keys-insert,
  keys-insert_of_includes, lookup_cases, keys-insert, lookup_absent, map_ext, All-of_includes,
  All-includes, filter_of_All, set_add_all_of_All,
}
use omni_python_web_template.Base.Num.{Fraction, whole, frac_le}
use omni_python_web_template.Base.Sort.{sort_by}
use omni_python_web_template.Base.Text.{trim, is_empty}
use omni_python_web_template.TablePreference.{
  TableColumnPreference, TablePreferenceConfig, TableColumnDef, ResolvedTableColumn, or_default,
  or_else, is_true, is_action_column, default_column_pin_right, is_pin_right_column,
}

-- The order of column ids with the action columns last.
unfoldable pub normalize_column_order_ids : List String → List String → List String
normalize_column_order_ids ids action_ids =
    if is_nil action_ids
    then ids
    else filter (λ id. not (includes id action_ids)) ids
      ++ filter (λ id. includes id action_ids) ids

unfoldable pub resolve_action_column_ids : List TableColumnDef → List String
resolve_action_column_ids columns = map (λ col. col.id) (filter is_action_column columns)

unfoldable pub normalize_resolved_column_order : List ResolvedTableColumn → List ResolvedTableColumn
unfolding is_pin_right_column
normalize_resolved_column_order columns =
    filter (λ col. not (is_pin_right_column col)) columns ++ filter is_pin_right_column columns

-- `p.label?.trim() || col.label`
abbrev pub shown_label : Option String → String → String
shown_label none label = label
shown_label (some own) label = if is_empty (trim own) then label else trim own

-- A column that the settings do not list.
unfoldable pub fixed_column : TableColumnDef → Option TableColumnPreference → ResolvedTableColumn
fixed_column col none = record {
  def = col;
  label = col.label;
  visible = true;
  order = whole 9999;
  width = col.default_width;
  tip = col.default_tip;
  pinned = false;
  pin_right = false;
}
fixed_column col (some pref) = record {
  def = col;
  label = col.label;
  visible = true;
  order = pref.order;
  width = or_else pref.width col.default_width;
  tip = or_else pref.tip col.default_tip;
  pinned = is_true pref.pinned;
  pin_right = false;
}

-- `pref ?? { visible: true, order: result.length }`
abbrev pub preference_or_last : Option TableColumnPreference → ℕ → TableColumnPreference
preference_or_last (some pref) count = pref
preference_or_last none count = record {
  visible = true;
  order = whole count;
  pinned = none;
  pin_right = none;
  width = none;
  label = none;
  tip = none;
  action_order = none;
  action_inline_visible_max = none;
}

unfoldable pub configured_column : TableColumnDef → TableColumnPreference → ResolvedTableColumn
configured_column col p = record {
  def = col;
  label = shown_label p.label col.label;
  width = or_else p.width col.default_width;
  tip = or_else p.tip col.default_tip;
  visible = p.visible;
  pinned = if is_action_column col then false else is_true p.pinned;
  pin_right = or_default p.pin_right (default_column_pin_right col);
  order = p.order;
}

abbrev pub is_hidden : Option TableColumnPreference → Bool
is_hidden none = false
is_hidden (some pref) = not pref.visible

-- The loop over the columns; `count` is `result.length`.
unfoldable pub collect_columns :
    List (String × TableColumnPreference) → ℕ → List TableColumnDef → List ResolvedTableColumn
collect_columns prefs count [] = []
collect_columns prefs count (col ∷ cols) =
    let pref = lookup col.id prefs in
    let fixed = fixed_column col pref ∷ collect_columns prefs (count + 1) cols in
    let skipped = collect_columns prefs count cols in
    let configured =
      configured_column col (preference_or_last pref count)
      ∷ collect_columns prefs (count + 1) cols in
    if col.hide_in_settings && not (is_action_column col)
    then fixed
    else if not (is_action_column col) && is_hidden pref
    then skipped
    else configured

abbrev pub by_order : ResolvedTableColumn → ResolvedTableColumn → Bool
by_order a b = frac_le a.order b.order

unfoldable pub resolve_columns :
    List TableColumnDef → TablePreferenceConfig → List ResolvedTableColumn
resolve_columns defaults config =
    normalize_resolved_column_order (sort_by by_order (collect_columns config.columns 0 defaults))
