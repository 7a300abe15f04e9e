-- ===== src/TablePreference/Normalized.antt =====
-- types/table-preference.ts: values of type `unknown` as preferences, and how a configuration is
-- normalised and serialised.
use omni_python_web_template.Base.{
  String, Bool, true, false, Option, none, some, List, [], ◌∷◌, if◌then◌else◌, ◌==◌, nat_eq,
  string_eq,
}
use omni_python_web_template.Base.Num.{Fraction, whole, is_positive}
use omni_python_web_template.Base.Text.{trim, is_empty}
use omni_python_web_template.TablePreference.{
  SortOrder, asc, desc, TableSortPreference, TableColumnPreference, TablePreferenceConfig,
  default_row_height, or_default,
}
use omni_python_web_template.TablePreference.Value.{
  Value, undefined, null, bool, num, str, arr, Values, nil, cons,
}
use omni_python_web_template.TablePreference.Actions.{resolve_inline_visible_max}

-- The fields of a column preference of type `Record<string, unknown>`; an absent one is `undefined`.
pub record RawColumn : Type 0 where
  pub visible : Value
  pub pinned : Value
  pub pin_right : Value
  pub width : Value
  pub label : Value
  pub tip : Value
  pub order : Value
  pub action_order : Value
  pub action_inline_visible_max : Value

-- `v !== false` and `v === true`
abbrev is_not_false : Value → Bool
is_not_false (bool b) = b
is_not_false _ = true

abbrev is_literally_true : Value → Bool
is_literally_true (bool b) = b
is_literally_true _ = false

-- `typeof v === "number" ? v : 0`
abbrev number_or_zero : Value → Fraction
number_or_zero (num x) = x
number_or_zero _ = whole 0

-- `v !== undefined && v !== null ? { pinRight: v === true } : {}`
abbrev pub flag_of : Value → Option Bool
flag_of undefined = none
flag_of null = none
flag_of (bool b) = some b
flag_of _ = some false

-- `typeof v === "number" && v > 0 ? { width: v } : {}`
abbrev pub positive_of : Value → Option Fraction
positive_of (num x) = if is_positive x then some x else none
positive_of _ = none

-- `typeof v === "string" && v.trim() ? { label: v.trim() } : {}`
abbrev pub text_of : Value → Option String
text_of (str s) = if is_empty (trim s) then none else some (trim s)
text_of _ = none

-- The elements that are strings and not empty.
abbrev pub ids_of : Values → List String
ids_of nil = []
ids_of (cons (str s) vs) = if is_empty s then ids_of vs else s ∷ ids_of vs
ids_of (cons v vs) = ids_of vs

abbrev pub order_of : Value → Option (List String)
order_of (arr vs) = some (ids_of vs)
order_of _ = none

-- Every number here is finite.
abbrev pub inline_max_of : Value → Option Fraction
inline_max_of (num x) = some (whole (resolve_inline_visible_max (some x)))
inline_max_of _ = none

-- `none` is a value that is no object.
unfoldable pub normalize_table_column_preference : Option RawColumn → TableColumnPreference
normalize_table_column_preference none = record {
  visible = true;
  pinned = none;
  pin_right = none;
  width = none;
  label = none;
  tip = none;
  order = whole 0;
  action_order = none;
  action_inline_visible_max = none;
}
normalize_table_column_preference (some pref) = record {
  visible = is_not_false pref.visible;
  pinned = some (is_literally_true pref.pinned);
  order = number_or_zero pref.order;
  pin_right = flag_of pref.pin_right;
  width = positive_of pref.width;
  label = text_of pref.label;
  tip = text_of pref.tip;
  action_order = order_of pref.action_order;
  action_inline_visible_max = inline_max_of pref.action_inline_visible_max;
}

-- A typed preference as a value of type `unknown`.
abbrev pub raw_flag : Option Bool → Value
raw_flag none = undefined
raw_flag (some b) = bool b

abbrev pub raw_number : Option Fraction → Value
raw_number none = undefined
raw_number (some x) = num x

abbrev pub raw_text : Option String → Value
raw_text none = undefined
raw_text (some s) = str s

abbrev pub raw_ids : List String → Values
raw_ids [] = nil
raw_ids (id ∷ ids) = cons (str id) (raw_ids ids)

abbrev pub raw_order : Option (List String) → Value
raw_order none = undefined
raw_order (some ids) = arr (raw_ids ids)

abbrev pub raw_column : TableColumnPreference → RawColumn
raw_column p = record {
  visible = bool p.visible;
  pinned = raw_flag p.pinned;
  pin_right = raw_flag p.pin_right;
  width = raw_number p.width;
  label = raw_text p.label;
  tip = raw_text p.tip;
  order = num p.order;
  action_order = raw_order p.action_order;
  action_inline_visible_max = raw_number p.action_inline_visible_max;
}

-- `normalizeTableColumnPreference(pref)` of a typed preference
abbrev pub normal : TableColumnPreference → TableColumnPreference
normal p = normalize_table_column_preference (some (raw_column p))

-- The loop over `Object.entries(config.columns)`
abbrev pub normal_columns :
    List (String × TableColumnPreference) → List (String × TableColumnPreference)
normal_columns [] = []
normal_columns ((id, p) ∷ cs) = (id, normal p) ∷ normal_columns cs

unfoldable pub serialize_table_preference_config : TablePreferenceConfig → TablePreferenceConfig
serialize_table_preference_config config = record {
  row_height = config.row_height;
  sort = config.sort;
  columns = normal_columns config.columns;
}

pub record RawSort : Type 0 where
  pub column_id : Value
  pub order : Value

-- A saved configuration; `row_height` is a number or absent, and `sort` an object or not. The ids of
-- columns are in the order of the object's keys; they are no integers, which an object lists first, and
-- no names of `Object.prototype`, which a lookup finds in every object.
pub record RawConfig : Type 0 where
  pub row_height : Option Fraction
  pub sort : Option RawSort
  pub columns : List (String × Option RawColumn)

abbrev pub order_text : Value → SortOrder
order_text (str s) = if s == "desc" then desc else asc
order_text _ = asc

abbrev pub sort_on : Value → Value → Option TableSortPreference
sort_on (str s) order =
    if is_empty s then none else some (record { column_id = s; order = order_text order })
sort_on _ order = none

abbrev pub sort_of : Option RawSort → Option TableSortPreference
sort_of none = none
sort_of (some r) = sort_on r.column_id r.order

abbrev pub normalize_columns :
    List (String × Option RawColumn) → List (String × TableColumnPreference)
normalize_columns [] = []
normalize_columns ((id, raw) ∷ cs) =
    (id, normalize_table_column_preference raw) ∷ normalize_columns cs

unfoldable pub normalize_table_preference_config : RawConfig → TablePreferenceConfig
normalize_table_preference_config raw = record {
  row_height = or_default raw.row_height default_row_height;
  sort = sort_of raw.sort;
  columns = normalize_columns raw.columns;
}
