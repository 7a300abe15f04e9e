-- ===== src/FilterGrid.antt =====
-- The rows of the filters above a list (web/src/lib/filter-grid.ts). A field is an element of any type;
-- the column of a field that spans to the end of the grid is `span_to_end`. The deprecated alias and
-- the styles are left out.
pub mod Rows
use omni_python_web_template.Base.{
  ℕ, zero, suc, ◌+◌, ◌-◌, ◌*◌, ◌/◌, ◌%◌, ◌≤◌, ◌<◌, min, max, String, ◌≡◌, refl, sym, ap, ◌∙◌, subst,
  ◌≢◌, ◌↔◌, ◌⊎◌, inl, inr, Bool, true, false, not, ◌&&◌, ◌||◌, Option, none, some, List, [], ◌∷◌,
  ◌++◌, map, append-nil, append_assoc, map-append, arith, ltb, leb, if◌then◌else◌, Eq, ◌==◌, nat_eq,
  string_eq, Bool-cases, Option-cases, or_true_cases, and_true_parts, beq_refl, beq_sym, length,
  take, drop, get_elem?, filter, find?, any, all, All, length-append, take-append-drop, length-take,
  length-drop, take_of_length_le, length-map, filter-append, length-filter-le, filter-filter,
  All-append, All-filter_self, sum_of, sum_of-append, is_nil, sum_of-map, All-map,
}
use omni_python_web_template.Base.Collections.{
  includes, IsNodup, set_add, set_add_all, set_of, set_delete, set_delete_all, includes-append,
  includes-filter, includes-set_add, includes-set_add_all, includes-set_delete,
  includes-set_delete_all, IsNodup-append_one, set_add-IsNodup, set_add_all-IsNodup, filter-IsNodup,
  lookup, insert, remove, keys, lookup-insert, lookup-remove, includes-keys-insert,
  keys-insert_of_includes, lookup_cases, keys-insert, lookup_absent, map_ext, All-of_includes,
  All-includes, filter_of_All, set_add_all_of_All,
}

pub record FilterToolbarRowLayout {ℓ} (A : Type ℓ) : Type ℓ where
  pub stretch_rows : List (List A)
  pub action_row_fields : Option (List A)

module _ {ℓ} {A : Type ℓ} where
  -- The loop; every round takes one field at least, so as many rounds as fields are enough.
  abbrev pub chunks : ℕ → ℕ → List A → List (List A)
  chunks zero cols fields = []
  chunks (suc fuel) cols [] = []
  chunks (suc fuel) cols (f ∷ fields) =
      take cols (f ∷ fields) ∷ chunks fuel cols (drop cols (f ∷ fields))

  unfoldable pub chunk_filter_fields : List A → ℕ → List (List A)
  chunk_filter_fields fields cols_per_row =
      if leb cols_per_row 0 then fields ∷ [] else chunks (length fields) cols_per_row fields

  -- `slice(0, -1)` and the last element of a list that has one
  abbrev pub all_but_last : List A → List (List A) → List (List A)
  all_but_last r [] = []
  all_but_last r (s ∷ rows) = r ∷ all_but_last s rows

  abbrev pub last_row : List A → List (List A) → List A
  last_row r [] = r
  last_row r (s ∷ rows) = last_row s rows

  unfoldable pub resolve_filter_toolbar_row_layout :
      List (List A) → Bool → Bool → FilterToolbarRowLayout A
  resolve_filter_toolbar_row_layout [] show_action_bar mobile_expanded_layout = record {
    stretch_rows = [];
    action_row_fields = none;
  }
  resolve_filter_toolbar_row_layout (r ∷ rows) show_action_bar mobile_expanded_layout =
      if not show_action_bar || mobile_expanded_layout
      then record { stretch_rows = r ∷ rows; action_row_fields = none }
      else record { stretch_rows = all_but_last r rows; action_row_fields = some (last_row r rows) }

unfoldable pub resolve_filter_cols_per_row : Bool → ℕ → ℕ
resolve_filter_cols_per_row is_mobile max_cols_per_row = if is_mobile then 1 else max_cols_per_row

abbrev pub filter_action_row_max_cols : ℕ
filter_action_row_max_cols = 3

unfoldable pub resolve_action_field_grid_column : ℕ → ℕ → ℕ → Bool → ℕ
resolve_action_field_grid_column field_index field_count max_cols_per_row has_stretch_rows =
    if not has_stretch_rows
    then field_index + 1
    else let capped_count = min field_count (min filter_action_row_max_cols max_cols_per_row) in
      if leb capped_count 0 then field_index + 1 else min (field_index + 1) capped_count

unfoldable pub resolve_action_field_render_count : ℕ → Bool → ℕ
resolve_action_field_render_count field_count has_stretch_rows =
    if not has_stretch_rows then field_count else min field_count filter_action_row_max_cols

pub data GridColumn : Type 0 where
  column : ℕ → GridColumn
  -- `${n} / -1`
  span_to_end : ℕ → GridColumn

unfoldable pub resolve_stretch_field_grid_column : ℕ → ℕ → GridColumn
resolve_stretch_field_grid_column field_index field_count =
    if leb field_count 0
    then column (field_index + 1)
    else if field_index + 1 == field_count
    then span_to_end (field_index + 1)
    else column (field_index + 1)

module _ {ℓ} {A : Type ℓ} where
  abbrev pub joined : List (List A) → List A
  joined [] = []
  joined (r ∷ rows) = r ++ joined rows

  abbrev pub fields_of_row : Option (List A) → List A
  fields_of_row none = []
  fields_of_row (some fields) = fields

  -- The fields that the toolbar shows: the stretched rows, then as many of the row of the buttons as
  -- `resolveActionFieldRenderCount` says.
  unfoldable pub rendered : FilterToolbarRowLayout A → List A
  rendered layout =
      let action_fields = fields_of_row layout.action_row_fields in
      joined layout.stretch_rows
      ++ take
          (resolve_action_field_render_count (length action_fields)
            (not (is_nil layout.stretch_rows)))
          action_fields
