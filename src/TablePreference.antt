-- ===== src/TablePreference.antt =====
-- types/table-preference.ts: the types of a table's column preferences, and the constants.
pub mod Value
pub mod Widths
pub mod Actions
pub mod Normalized
pub mod Config
pub mod Columns
pub mod Rows
pub mod Saving
pub mod Moves
pub mod Mutations
pub mod Loading
use omni_python_web_template.Base.{
  ℕ, String, Bool, true, false, not, ◌&&◌, ◌||◌, Option, none, some, List, [], ◌∷◌, if◌then◌else◌,
  ◌==◌, string_eq,
}
use omni_python_web_template.Base.Num.{Fraction, whole}

pub data SortOrder : Type 0 where
  asc desc : SortOrder

pub record TableSortPreference : Type 0 where
  pub column_id : String
  pub order : SortOrder

-- `none` is a field that is absent.
pub record TableColumnPreference : Type 0 where
  pub visible : Bool
  pub pinned : Option Bool
  pub pin_right : Option Bool
  pub width : Option Fraction
  pub label : Option String
  pub tip : Option String
  pub order : Fraction
  pub action_order : Option (List String)
  pub action_inline_visible_max : Option Fraction

pub record TableActionDef : Type 0 where
  pub id : String
  pub label : String

pub record TableActionItem : Type 0 where
  pub id : String
  pub label : String
  pub permission : Option String
  pub disabled : Bool
  pub hidden : Bool

pub record TablePreferenceConfig : Type 0 where
  pub row_height : Fraction
  pub sort : Option TableSortPreference
  pub columns : List (String × TableColumnPreference)

-- The fields that only the rendering reads (`className`, `render`, `resolveActionItems`) are left out.
pub record TableColumnDef : Type 0 where
  pub id : String
  pub label : String
  pub default_width : Option Fraction
  pub default_tip : Option String
  pub sort_key : Option String
  pub hide_in_settings : Bool
  pub pin_right : Option Bool
  pub action_defs : Option (List TableActionDef)

pub record ResolvedTableColumn : Type 0 where
  pub def : TableColumnDef
  pub label : String
  pub width : Option Fraction
  pub tip : Option String
  pub visible : Bool
  pub pinned : Bool
  pub pin_right : Bool
  pub order : Fraction

abbrev pub action_column_id : String
action_column_id = "actions"

abbrev pub default_row_height : Fraction
default_row_height = whole 36

abbrev pub default_column_width : Fraction
default_column_width = whole 120

abbrev pub min_column_width : ℕ
min_column_width = 40

abbrev pub inline_max_default : Fraction
inline_max_default = whole 2

abbrev pub inline_max_min : ℕ
inline_max_min = 1

abbrev pub inline_max_max : ℕ
inline_max_max = 9

-- `a ?? b`, and `a ?? b` between two fields that may be absent
abbrev pub or_default {ℓ} : {A : Type ℓ} → Option A → A → A
or_default none b = b
or_default (some a) b = a

abbrev pub or_else {ℓ} : {A : Type ℓ} → Option A → Option A → Option A
or_else none b = b
or_else (some a) b = some a

abbrev pub is_true : Option Bool → Bool
is_true none = false
is_true (some b) = b

unfoldable pub is_action_column : TableColumnDef → Bool
is_action_column col = col.id == action_column_id

-- `col.pinRight !== false` on the action column, `=== true` on the others
unfoldable pub default_column_pin_right : TableColumnDef → Bool
unfolding is_action_column
default_column_pin_right col =
    if is_action_column col then or_default col.pin_right true else is_true col.pin_right

unfoldable pub is_settings_editable_column : TableColumnDef → Bool
unfolding is_action_column
is_settings_editable_column col = not col.hide_in_settings || is_action_column col

unfoldable pub is_pin_right_column : ResolvedTableColumn → Bool
is_pin_right_column col = col.pin_right
