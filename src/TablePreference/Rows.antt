-- ===== src/TablePreference/Rows.antt =====
-- types/table-preference.ts: sorting the rows of a table by a column.
pub mod Sorting
use omni_python_web_template.Base.{
  ℕ, zero, suc, ◌+◌, ◌-◌, ◌*◌, ◌/◌, ◌%◌, ◌≤◌, ◌<◌, min, max, String, ◌≡◌, refl, sym, ap, ◌∙◌, subst,
  ◌≢◌, ◌↔◌, ◌⊎◌, inl, inr, Bool, true, false, not, ◌&&◌, ◌||◌, Option, none, some, List, [], ◌∷◌,
  ◌++◌, map, append-nil, append_assoc, map-append, arith, ltb, leb, if◌then◌else◌, Eq, ◌==◌, nat_eq,
  string_eq, Bool-cases, Option-cases, or_true_cases, and_true_parts, beq_refl, beq_sym, length,
  take, drop, get_elem?, filter, find?, any, all, All, length-append, take-append-drop, length-take,
  length-drop, take_of_length_le, length-map, filter-append, length-filter-le, filter-filter,
  All-append, All-filter_self, sum_of, sum_of-append, is_nil, sum_of-map, All-map,
}
use omni_python_web_template.Base.Collections.{
  includes, IsNodup, set_add, set_add_all, set_of, set_delete, set_delete_all, includes-append,
  includes-filter, includes-set_add, includes-set_add_all, includes-set_delete,
  includes-set_delete_all, IsNodup-append_one, set_add-IsNodup, set_add_all-IsNodup, filter-IsNodup,
  lookup, insert, remove, keys, lookup-insert, lookup-remove, includes-keys-insert,
  keys-insert_of_includes, lookup_cases, keys-insert, lookup_absent, map_ext, All-of_includes,
  All-includes, filter_of_All, set_add_all_of_All,
}
use omni_python_web_template.Base.Num.{Fraction, frac_le}
use omni_python_web_template.Base.Sort.{sort_by}
use omni_python_web_template.TablePreference.{
  SortOrder, asc, desc, TableSortPreference, TableColumnDef, or_default,
}
use omni_python_web_template.TablePreference.Value.{
  Value, undefined, null, bool, num, str, arr, object,
}

abbrev pub next_order : SortOrder → String → Option TableSortPreference
next_order asc column_id = some (record { column_id = column_id; order = desc })
next_order desc column_id = none

unfoldable pub cycle_sort_state : Option TableSortPreference → String → Option TableSortPreference
cycle_sort_state none column_id = some (record { column_id = column_id; order = asc })
cycle_sort_state (some current) column_id =
    if current.column_id == column_id
    then next_order current.order column_id
    else some (record { column_id = column_id; order = asc })

-- `col?.sortKey`
abbrev pub own_sort_key : Option TableColumnDef → Option String
own_sort_key none = none
own_sort_key (some col) = col.sort_key

unfoldable pub sort_key_of : TableSortPreference → List TableColumnDef → String
sort_key_of sort columns =
    or_default (own_sort_key (find? (λ c. c.id == sort.column_id) columns)) sort.column_id

abbrev pub is_missing : Value → Bool
is_missing undefined = true
is_missing null = true
is_missing _ = false

abbrev pub flag_le : Bool → Bool → Bool
flag_le false b = true
flag_le true b = b

-- The collation of the runtime: whether `String(a).localeCompare(String(b))` is not positive.
module _ (text_le : Value → Value → Bool) where
  -- Two values that are there.
  abbrev pub ascending : Value → Value → Bool
  ascending (num a) (num b) = frac_le a b
  ascending (bool a) (bool b) = flag_le a b
  ascending a b = text_le a b

  abbrev pub directed : SortOrder → Value → Value → Bool
  directed asc a b = ascending a b
  directed desc a b = ascending b a

  -- The test that the comparator's result is not positive.
  unfoldable pub value_le : SortOrder → Value → Value → Bool
  value_le order a b =
      if is_missing a && is_missing b
      then true
      else if is_missing a
      then false
      else if is_missing b
      then true
      else directed order a b

  module _ {A : Type 0} (field : A → String → Value) where
    unfoldable pub sort_rows : List A → Option TableSortPreference → List TableColumnDef → List A
    sort_rows rows none columns = rows
    sort_rows rows (some sort) columns =
        let key = sort_key_of sort columns in
        sort_by (λ a b. value_le sort.order (field a key) (field b key)) rows
