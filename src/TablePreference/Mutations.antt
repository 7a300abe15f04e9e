-- ===== src/TablePreference/Mutations.antt =====
-- hooks/table-preferences-helpers.ts: the changes a user makes to a table's configuration.
pub mod Laws
use omni_python_web_template.Base.{
  ℕ, zero, suc, ◌+◌, ◌-◌, ◌*◌, ◌/◌, ◌%◌, ◌≤◌, ◌<◌, min, max, String, ◌≡◌, refl, sym, ap, ◌∙◌, subst,
  ◌≢◌, ◌↔◌, ◌⊎◌, inl, inr, Bool, true, false, not, ◌&&◌, ◌||◌, Option, none, some, List, [], ◌∷◌,
  ◌++◌, map, append-nil, append_assoc, map-append, arith, ltb, leb, if◌then◌else◌, Eq, ◌==◌, nat_eq,
  string_eq, Bool-cases, Option-cases, or_true_cases, and_true_parts, beq_refl, beq_sym, length,
  take, drop, get_elem?, filter, find?, any, all, All, length-append, take-append-drop, length-take,
  length-drop, take_of_length_le, length-map, filter-append, length-filter-le, filter-filter,
  All-append, All-filter_self, sum_of, sum_of-append, is_nil, sum_of-map, All-map,
}
use omni_python_web_template.Base.Collections.{
  includes, IsNodup, set_add, set_add_all, set_of, set_delete, set_delete_all, includes-append,
  includes-filter, includes-set_add, includes-set_add_all, includes-set_delete,
  includes-set_delete_all, IsNodup-append_one, set_add-IsNodup, set_add_all-IsNodup, filter-IsNodup,
  lookup, insert, remove, keys, lookup-insert, lookup-remove, includes-keys-insert,
  keys-insert_of_includes, lookup_cases, keys-insert, lookup_absent, map_ext, All-of_includes,
  All-includes, filter_of_All, set_add_all_of_All,
}
use omni_python_web_template.Base.Num.{Fraction, whole}
use omni_python_web_template.TablePreference.{
  TableSortPreference, TableColumnPreference, TablePreferenceConfig, TableColumnDef, or_default,
  or_else, is_action_column,
}
use omni_python_web_template.TablePreference.Widths.{resolve_column_pixel_width}
use omni_python_web_template.TablePreference.Config.{build_default_config, merge_preference_config}
use omni_python_web_template.TablePreference.Columns.{
  normalize_column_order_ids, resolve_action_column_ids,
}
use omni_python_web_template.TablePreference.Rows.{cycle_sort_state}
use omni_python_web_template.TablePreference.Normalized.{
  RawConfig, serialize_table_preference_config,
}
use omni_python_web_template.TablePreference.Loading.{saved}

-- A field of `Partial<TableColumnPreference>`: absent, or given a value (which may be `undefined`).
pub data Change (A : Type 0) : Type 0 where
  keep : Change A
  put : A → Change A

abbrev pub change : {A : Type 0} → Change A → A → A
change keep old = old
change (put new) old = new

pub record ColumnPatch : Type 0 where
  pub visible : Change Bool
  pub pinned : Change (Option Bool)
  pub pin_right : Change (Option Bool)
  pub width : Change (Option Fraction)
  pub label : Change (Option String)
  pub tip : Change (Option String)
  pub order : Change Fraction
  pub action_order : Change (Option (List String))
  pub action_inline_visible_max : Change (Option Fraction)

abbrev pub width_patch : ℕ → ColumnPatch
width_patch w = record {
  visible = keep;
  pinned = keep;
  pin_right = keep;
  width = put (some (whole w));
  label = keep;
  tip = keep;
  order = keep;
  action_order = keep;
  action_inline_visible_max = keep;
}

-- What reaches the outside, oldest first.
pub data Effect : Type 0 where
  cache_write : TablePreferenceConfig → Effect
  flush_save : TablePreferenceConfig → Effect
  schedule_save : TablePreferenceConfig → Effect
  remote_reset : Effect
  cache_delete : Effect
  sort_change : Option TableSortPreference → Effect

-- The table's configuration, whether a user is signed in, and what was sent.
pub record TableState : Type 0 where
  pub config : TablePreferenceConfig
  pub signed_in : Bool
  pub effects : List Effect

abbrev pub emit : TableState → List Effect → TableState
emit s es = record s { effects = s.effects ++ es }

pub data Persist : Type 0 where
  flushed scheduled not_persisted : Persist

abbrev pub saves : Persist → TablePreferenceConfig → List Effect
saves flushed c = cache_write c ∷ flush_save c ∷ []
saves scheduled c = cache_write c ∷ schedule_save c ∷ []
saves not_persisted c = []

-- `applyConfig` of hooks/useTablePreferences.ts
unfoldable pub apply_config : TableState → TablePreferenceConfig → Persist → TableState
apply_config s next persist =
    let normalized = serialize_table_preference_config next in
    let s' = record s { config = normalized } in
    if s.signed_in then emit s' (saves persist normalized) else s'

-- `{ ...columns[id], ...patch }` for a column without a preference
abbrev pub blank_preference : TableColumnPreference
blank_preference = record {
  visible = true;
  pinned = none;
  pin_right = none;
  width = none;
  label = none;
  tip = none;
  order = whole 0;
  action_order = none;
  action_inline_visible_max = none;
}

abbrev pub patched : TableColumnPreference → ColumnPatch → TableColumnPreference
patched p c = record {
  visible = change c.visible p.visible;
  pinned = change c.pinned p.pinned;
  pin_right = change c.pin_right p.pin_right;
  width = change c.width p.width;
  label = change c.label p.label;
  tip = change c.tip p.tip;
  order = change c.order p.order;
  action_order = change c.action_order p.action_order;
  action_inline_visible_max = change c.action_inline_visible_max p.action_inline_visible_max;
}

abbrev pub is_action_found : Option TableColumnDef → Bool
is_action_found none = false
is_action_found (some col) = is_action_column col

-- On the action column the visibility, the pinning and the place are not changed.
abbrev pub allowed_patch : Bool → ColumnPatch → ColumnPatch
allowed_patch true patch = record patch { visible = keep; pinned = keep; order = keep }
allowed_patch false patch = patch

abbrev pub own_default_width : Option TableColumnDef → Option Fraction
own_default_width none = none
own_default_width (some col) = col.default_width

abbrev pub is_found {ℓ} : {A : Type ℓ} → Option A → Bool
is_found none = false
is_found (some a) = true

module _ (default_columns : List TableColumnDef) (default_row_height : Fraction) where
  abbrev pub column_def : String → Option TableColumnDef
  column_def id = find? (λ col. col.id == id) default_columns

  unfoldable pub update_column : TableState → String → ColumnPatch → TableState
  update_column s id patch =
      let next_patch = allowed_patch (is_action_found (column_def id)) patch in
      let current = or_default (lookup id s.config.columns) blank_preference in
      apply_config s
        (record (s.config) { columns = insert id (patched current next_patch) s.config.columns })
        flushed

  unfoldable pub set_column_width : TableState → String → Fraction → TableState
  set_column_width s id width =
      update_column s id
        (width_patch (resolve_column_pixel_width (some width) (own_default_width (column_def id))))

  -- The loop of `setColumnWidths`; a column that neither has a preference nor exists is skipped.
  unfoldable pub put_widths :
      List (String × TableColumnPreference)
      → List (String × Fraction)
      → List (String × TableColumnPreference)
  put_widths columns [] = columns
  put_widths columns ((id, width) ∷ widths) =
      let col = column_def id in
      let written =
        insert id
          (record (or_default (lookup id columns) blank_preference) {
            width = some (whole (resolve_column_pixel_width (some width) (own_default_width col)));
          })
          columns in
      put_widths
        (if not (is_found (lookup id columns)) && not (is_found col) then columns else written)
        widths

  unfoldable pub set_column_widths : TableState → List (String × Fraction) → TableState
  set_column_widths s widths =
      apply_config s (record (s.config) { columns = put_widths s.config.columns widths }) flushed

  -- The loop that writes each id's place; an id with no preference is skipped.
  unfoldable pub put_order :
      String
      → ℕ
      → Option TableColumnPreference
      → List (String × TableColumnPreference)
      → List (String × TableColumnPreference)
  put_order id index none columns = columns
  put_order id index (some pref) columns = insert id (record pref { order = whole index }) columns

  unfoldable pub put_orders :
      ℕ
      → List String
      → List (String × TableColumnPreference)
      → List (String × TableColumnPreference)
  put_orders index [] columns = columns
  put_orders index (id ∷ ids) columns =
      put_orders (index + 1) ids (put_order id index (lookup id columns) columns)

  unfoldable pub reorder_columns : TableState → List String → TableState
  reorder_columns s ordered_ids =
      let ids =
        normalize_column_order_ids ordered_ids (resolve_action_column_ids default_columns) in
      apply_config s (record (s.config) { columns = put_orders 0 ids s.config.columns }) flushed

  unfoldable pub set_row_height : TableState → Fraction → TableState
  set_row_height s height = apply_config s (record (s.config) { row_height = height }) scheduled

  abbrev pub defaults : TablePreferenceConfig
  defaults = build_default_config default_columns default_row_height

  -- A column that has no default is given the preference of a missing value; its `pinned` is then
  -- false where the source leaves it out, which reads alike.
  unfoldable pub reset_column : TableState → String → TableState
  reset_column s id =
      apply_config s
        (record (s.config) {
          columns =
              insert id (or_default (lookup id defaults.columns) blank_preference) s.config.columns;
        })
        flushed

  unfoldable pub reset_all : TableState → TableState
  reset_all s =
      let s' = if s.signed_in then emit s (remote_reset ∷ cache_delete ∷ []) else s in
      emit (apply_config s' defaults not_persisted) (sort_change none ∷ [])

  unfoldable pub cycle_sort : TableState → String → TableState
  cycle_sort s id =
      let next = cycle_sort_state s.config.sort id in
      emit (apply_config s (record (s.config) { sort = next }) flushed) (sort_change next ∷ [])
