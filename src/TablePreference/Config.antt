-- ===== src/TablePreference/Config.antt =====
-- types/table-preference.ts: building the default configuration of a table and merging a saved one.
pub mod Normal
pub mod Merge
pub mod Stable
pub mod Stored
pub mod Reload
use omni_python_web_template.Base.{
  ℕ, zero, suc, ◌+◌, ◌-◌, ◌*◌, ◌/◌, ◌%◌, ◌≤◌, ◌<◌, min, max, String, ◌≡◌, refl, sym, ap, ◌∙◌, subst,
  ◌≢◌, ◌↔◌, ◌⊎◌, inl, inr, Bool, true, false, not, ◌&&◌, ◌||◌, Option, none, some, List, [], ◌∷◌,
  ◌++◌, map, append-nil, append_assoc, map-append, arith, ltb, leb, if◌then◌else◌, Eq, ◌==◌, nat_eq,
  string_eq, Bool-cases, Option-cases, or_true_cases, and_true_parts, beq_refl, beq_sym, length,
  take, drop, get_elem?, filter, find?, any, all, All, length-append, take-append-drop, length-take,
  length-drop, take_of_length_le, length-map, filter-append, length-filter-le, filter-filter,
  All-append, All-filter_self, sum_of, sum_of-append, is_nil, sum_of-map, All-map,
}
use omni_python_web_template.Base.Collections.{
  includes, IsNodup, set_add, set_add_all, set_of, set_delete, set_delete_all, includes-append,
  includes-filter, includes-set_add, includes-set_add_all, includes-set_delete,
  includes-set_delete_all, IsNodup-append_one, set_add-IsNodup, set_add_all-IsNodup, filter-IsNodup,
  lookup, insert, remove, keys, lookup-insert, lookup-remove, includes-keys-insert,
  keys-insert_of_includes, lookup_cases,
}
use omni_python_web_template.Base.Num.{Fraction, whole, is_positive}
use omni_python_web_template.Base.Text.{trim, is_empty}
use omni_python_web_template.TablePreference.{
  SortOrder, asc, desc, TableSortPreference, TableColumnPreference, TableActionDef,
  TablePreferenceConfig, TableColumnDef, default_row_height, or_default, or_else, is_true,
  is_action_column, default_column_pin_right,
}
use omni_python_web_template.TablePreference.Value.{
  Value, undefined, null, bool, num, str, arr, object, Values, nil, cons,
}
use omni_python_web_template.TablePreference.Actions.{
  resolve_inline_visible_max, merge_action_order,
}
use omni_python_web_template.TablePreference.Normalized.{
  RawConfig, normal, normalize_table_preference_config, serialize_table_preference_config,
}

-- The preference of the column at place `index`.
unfoldable pub default_preference : TableColumnDef → ℕ → TableColumnPreference
default_preference col index = record {
  visible = true;
  pinned = none;
  pin_right = if default_column_pin_right col then some true else none;
  width = col.default_width;
  label = none;
  tip = none;
  order = whole index;
  action_order =
      if is_action_column col && not (is_nil (or_default col.action_defs []))
      then some (map (λ d. d.id) (or_default col.action_defs []))
      else none;
  action_inline_visible_max = none;
}

unfoldable pub place_columns :
    ℕ
    → List TableColumnDef
    → List (String × TableColumnPreference)
    → List (String × TableColumnPreference)
place_columns index [] placed = placed
place_columns index (col ∷ cols) placed =
    place_columns (index + 1) cols (insert col.id (default_preference col index) placed)

unfoldable pub ordered_defaults : List TableColumnDef → List TableColumnDef
ordered_defaults columns =
    filter (λ col. not (default_column_pin_right col)) columns
    ++ filter default_column_pin_right columns

unfoldable pub build_default_config : List TableColumnDef → Fraction → TablePreferenceConfig
build_default_config columns row_height = record {
  row_height = row_height;
  sort = none;
  columns = place_columns 0 (ordered_defaults columns) [];
}

-- `{ ...base, ...pref }` for a normalised `pref`: a field that it has wins.
abbrev pub spread : TableColumnPreference → TableColumnPreference → TableColumnPreference
spread base pref = record {
  visible = pref.visible;
  pinned = or_else pref.pinned base.pinned;
  pin_right = or_else pref.pin_right base.pin_right;
  width = or_else pref.width base.width;
  label = or_else pref.label base.label;
  tip = or_else pref.tip base.tip;
  order = pref.order;
  action_order = or_else pref.action_order base.action_order;
  action_inline_visible_max = or_else pref.action_inline_visible_max base.action_inline_visible_max;
}

-- The button ids of a column that is the action column and has buttons, `none` otherwise.
abbrev pub button_ids : Option TableColumnDef → Option (List String)
button_ids none = none
button_ids (some col) =
    if is_action_column col && not (is_nil (or_default col.action_defs []))
    then some (map (λ d. d.id) (or_default col.action_defs []))
    else none

abbrev pub merge_buttons : Option (List String) → TableColumnPreference → TableColumnPreference
merge_buttons none merged = merged
merge_buttons (some ids) merged = record merged {
  action_order = some (merge_action_order merged.action_order ids);
}

abbrev pub find_column : List TableColumnDef → String → Option TableColumnDef
find_column columns id = find? (λ col. col.id == id) columns

unfoldable pub merge_column :
    List TableColumnDef
    → String
    → TableColumnPreference
    → TableColumnPreference
    → TableColumnPreference
merge_column defaults id base pref =
    merge_buttons (button_ids (find_column defaults id)) (normal (spread base pref))

-- The loop over the saved columns; one that has no default is skipped. A lookup finds only the columns
-- themselves, since the ids are no names of `Object.prototype`.
abbrev pub merge_found :
    List TableColumnDef
    → String
    → Option TableColumnPreference
    → TableColumnPreference
    → List (String × TableColumnPreference)
    → List (String × TableColumnPreference)
merge_found defaults id none pref merged = merged
merge_found defaults id (some base) pref merged =
    insert id (merge_column defaults id base pref) merged

unfoldable pub merge_columns :
    List TableColumnDef
    → List (String × TableColumnPreference)
    → List (String × TableColumnPreference)
    → List (String × TableColumnPreference)
merge_columns defaults merged [] = merged
merge_columns defaults merged ((id, pref) ∷ saved) =
    merge_columns defaults (merge_found defaults id (lookup id merged) pref merged) saved

unfoldable pub merge_preference_config :
    List TableColumnDef → Option RawConfig → Fraction → TablePreferenceConfig
merge_preference_config defaults none row_height = build_default_config defaults row_height
merge_preference_config defaults (some saved) row_height =
    let base = build_default_config defaults row_height in
    let normalized = normalize_table_preference_config saved in
    serialize_table_preference_config (record {
      row_height = normalized.row_height;
      sort = normalized.sort;
      columns = merge_columns defaults base.columns normalized.columns;
    })
