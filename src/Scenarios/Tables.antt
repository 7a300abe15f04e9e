-- ===== src/Scenarios/Tables.antt =====
-- A table of users with a column of buttons.
use omni_python_web_template.Base.{
  ◌+◌, max, String, ◌≡◌, refl, true, false, none, some, List, [], ◌∷◌, arith, nat_eq, string_eq,
}
use omni_python_web_template.Base.Collections.{includes, IsNodup}
use mathlib.Core.List.{Perm}
use omni_python_web_template.Base.Num.{whole}
use omni_python_web_template.TablePreference.{
  is_action_column, desc, TableSortPreference, TableColumnPreference, TableActionItem,
  TablePreferenceConfig, TableColumnDef, min_column_width,
}
use omni_python_web_template.TablePreference.Value.{Value, undefined, null, bool, num}
use omni_python_web_template.TablePreference.Widths.{
  resolve_column_pixel_width, SizedColumn, sum, distribute_table_column_widths,
}
use omni_python_web_template.TablePreference.Widths.Laws.{others, rounded, sum-distribute}
use omni_python_web_template.TablePreference.Actions.{split_table_action_items, merge_action_order}
use omni_python_web_template.TablePreference.Actions.Split.{IsSplit, split_table_action_items_lem}
use omni_python_web_template.TablePreference.Actions.Order.{merge_action_order_lem}
use omni_python_web_template.TablePreference.Config.{merge_preference_config}
use omni_python_web_template.TablePreference.Config.Reload.{merge_again}
use omni_python_web_template.TablePreference.Columns.{resolve_columns}
use omni_python_web_template.TablePreference.Columns.Shown.{IsResolved, resolve_columns-IsResolved}
use omni_python_web_template.TablePreference.Rows.{sort_rows, sort_key_of}
use omni_python_web_template.TablePreference.Rows.Sorting.{MissingLast, sort_rows_lem}
use omni_python_web_template.TablePreference.Mutations.Laws.{
  load_table_preferences_lem, newest, last_shown, count_ready,
}
use omni_python_web_template.TablePreference.Normalized.{RawColumn, RawConfig}
use omni_python_web_template.TablePreference.Loading.{saved, load_table_preferences}
use omni_python_web_template.TablePreference.Config.Stored.{raw_config}

abbrev name_column : TableColumnDef
name_column = record {
  id = "name";
  label = "Name";
  default_width = some (whole 200);
  default_tip = none;
  sort_key = none;
  hide_in_settings = false;
  pin_right = none;
  action_defs = none;
}

abbrev actions_column : TableColumnDef
actions_column = record {
  id = "actions";
  label = "Actions";
  default_width = none;
  default_tip = none;
  sort_key = none;
  hide_in_settings = false;
  pin_right = none;
  action_defs =
      some
        (record { id = "edit"; label = "Edit" } ∷ record { id = "delete"; label = "Delete" } ∷ []);
}

abbrev user_columns : List TableColumnDef
user_columns = name_column ∷ actions_column ∷ []

abbrev wide_name : RawColumn
wide_name = record {
  visible = bool true;
  pinned = undefined;
  pin_right = undefined;
  width = num (whole 300);
  label = undefined;
  tip = undefined;
  order = num (whole 0);
  action_order = undefined;
  action_inline_visible_max = undefined;
}

abbrev saved_config : RawConfig
saved_config = record {
  row_height = some (whole 48);
  sort = none;
  columns = ("name", some wide_name) ∷ [];
}

merge_again_example :
    merge_preference_config user_columns
      (some (raw_config (merge_preference_config user_columns (some saved_config) (whole 36))))
      (whole 36)
    ≡ merge_preference_config user_columns (some saved_config) (whole 36)
unfolding is_action_column
merge_again_example =
    merge_again user_columns saved_config (whole 36) (refl, (refl, tt))
      (tt, (((refl, (refl, tt)), refl), tt)) (refl, tt)

abbrev shown_config : TablePreferenceConfig
shown_config = merge_preference_config user_columns (some saved_config) (whole 36)

resolve_columns-IsResolved_example :
    IsResolved user_columns shown_config (resolve_columns user_columns shown_config)
resolve_columns-IsResolved_example = resolve_columns-IsResolved user_columns shown_config

abbrev half : SizedColumn
half = record { width = some (whole 100); default_width = none }

sum-distribute_example :
    sum (distribute_table_column_widths (half ∷ half ∷ []) 501)
    ≡ max 501 (sum (others (rounded (half ∷ half ∷ []) 501)) + min_column_width)
unfolding resolve_column_pixel_width
sum-distribute_example = sum-distribute half (half ∷ []) 501 (omega arith)

abbrev edit_item : TableActionItem
edit_item = record {
  id = "edit";
  label = "Edit";
  permission = none;
  disabled = false;
  hidden = false;
}

split_table_action_items_lem_example :
    IsSplit
      (edit_item ∷ edit_item ∷ edit_item ∷ [])
      (split_table_action_items (edit_item ∷ edit_item ∷ edit_item ∷ []) (some (whole 1)))
split_table_action_items_lem_example =
    split_table_action_items_lem (edit_item ∷ edit_item ∷ edit_item ∷ []) (some (whole 1))

merge_action_order_lem_example :
    IsNodup (merge_action_order (some ("delete" ∷ "gone" ∷ [])) ("edit" ∷ "delete" ∷ []))
    × ((a : String)
        → includes a (merge_action_order (some ("delete" ∷ "gone" ∷ [])) ("edit" ∷ "delete" ∷ []))
          ≡ includes a ("edit" ∷ "delete" ∷ []))
merge_action_order_lem_example =
    merge_action_order_lem (some ("delete" ∷ "gone" ∷ [])) ("edit" ∷ "delete" ∷ [])
      (refl, (refl, tt)) (refl, (refl, tt))

-- A row is the value of its only field.
abbrev row_field : Value → String → Value
row_field v key = v

abbrev by_name : TableSortPreference
by_name = record { column_id = "name"; order = desc }

sort_rows_lem_example :
    Perm
      (sort_rows
        (λ a b. true)
        row_field
        (null ∷ num (whole 2) ∷ num (whole 7) ∷ [])
        (some by_name)
        user_columns)
      (null ∷ num (whole 2) ∷ num (whole 7) ∷ [])
    × MissingLast
        (λ a b. true)
        row_field
        (sort_key_of by_name user_columns)
        (sort_rows
          (λ a b. true)
          row_field
          (null ∷ num (whole 2) ∷ num (whole 7) ∷ [])
          (some by_name)
          user_columns)
sort_rows_lem_example =
    sort_rows_lem (λ a b. true) row_field (null ∷ num (whole 2) ∷ num (whole 7) ∷ []) by_name
      user_columns

abbrev name_preference : TableColumnPreference
name_preference = record {
  visible = true;
  pinned = none;
  pin_right = none;
  width = none;
  label = none;
  tip = none;
  order = whole 5;
  action_order = none;
  action_inline_visible_max = none;
}

load_table_preferences_lem_example :
    (count_ready user_columns (whole 36) (
        load_table_preferences user_columns
          (whole 36)
          (some (saved_config, 7))
          (saved saved_config 3)
          true
          true)
      ≡ 1)
    × (last_shown user_columns
          (whole 36)
          (load_table_preferences user_columns
            (whole 36)
            (some (saved_config, 7))
            (saved saved_config 3)
            true
            true)
          none
        ≡ some (newest user_columns (whole 36) (some (saved_config, 7)) (saved saved_config 3)))
load_table_preferences_lem_example =
    load_table_preferences_lem user_columns (whole 36) (some (saved_config, 7))
      (saved saved_config 3)
