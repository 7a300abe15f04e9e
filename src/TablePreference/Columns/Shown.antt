-- ===== src/TablePreference/Columns/Shown.antt =====
-- Which columns are shown, and in which order.
use omni_python_web_template.Base.{
  ℕ, ◌+◌, String, ◌≡◌, refl, subst, Bool, true, not, ◌||◌, Option, none, some, List, [], ◌∷◌, ◌++◌,
  map, arith, nat_eq, string_eq, filter, All, All-filter_self,
}
use omni_python_web_template.Base.Collections.{lookup}
use mathlib.Core.List.{Perm}
use mathlib.Core.List.Perm
use omni_python_web_template.Base.Num.{frac_le_total, frac_le_trans}
use omni_python_web_template.Base.Sort.{
  sort_by, IsSorted, IsOrder, sort_by-IsSorted, sort_by-perm, partition-perm, filter-IsSorted,
}
use omni_python_web_template.TablePreference.{
  TableColumnPreference, TablePreferenceConfig, TableColumnDef, ResolvedTableColumn,
  is_action_column,
}
use omni_python_web_template.TablePreference.Columns.{
  normalize_resolved_column_order, fixed_column, configured_column, preference_or_last, is_hidden,
  collect_columns, by_order, resolve_columns,
}

by_order-IsOrder : IsOrder by_order
by_order-IsOrder = record {
  total = λ a b. frac_le_total a.order b.order;
  trans = λ a b c. frac_le_trans a.order b.order c.order;
}

-- A column is shown if the settings do not list it, if it is the action column, or if no
-- preference hides it.
abbrev pub is_shown : List (String × TableColumnPreference) → TableColumnDef → Bool
is_shown prefs col =
    col.hide_in_settings || is_action_column col || not (is_hidden (lookup col.id prefs))

def-fixed_column :
    (col : TableColumnDef) (pref : Option TableColumnPreference) → (fixed_column col pref).def ≡ col
unfolding fixed_column
def-fixed_column col none = refl
def-fixed_column col (some pref) = refl

def-configured_column :
    (col : TableColumnDef) (p : TableColumnPreference) → (configured_column col p).def ≡ col
unfolding configured_column
def-configured_column col p = refl

defs-collect_columns :
    (prefs : List (String × TableColumnPreference)) (count : ℕ) (cols : List TableColumnDef)
    → map (λ r. r.def) (collect_columns prefs count cols) ≡ filter (is_shown prefs) cols
unfolding collect_columns
defs-collect_columns prefs count [] = refl
defs-collect_columns prefs count (col ∷ cols) = ground (
  arith,
  defs-collect_columns prefs (count + 1) cols,
  defs-collect_columns prefs count cols,
  def-fixed_column col (lookup col.id prefs),
  def-configured_column col (preference_or_last (lookup col.id prefs) count),
)

-- The scrolling columns stand first and the columns pinned to the right last, each group sorted by
-- the configured order; and the columns are exactly those that are to be shown, each once.
pub record IsResolved (defaults : List TableColumnDef) (config : TablePreferenceConfig)
    (result : List ResolvedTableColumn) : Type 0 where
  pub scrolling : List ResolvedTableColumn
  pub pinned : List ResolvedTableColumn
  pub split : result ≡ scrolling ++ pinned
  pub scrolling_flags : All (λ r. not r.pin_right ≡ true) scrolling
  pub pinned_flags : All (λ r. r.pin_right ≡ true) pinned
  pub scrolling_sorted : IsSorted by_order scrolling
  pub pinned_sorted : IsSorted by_order pinned
  pub shown : Perm (map (λ r. r.def) result) (filter (is_shown config.columns) defaults)

-- The columns shown are the default ones that are not hidden, each once: first those that are not
-- pinned to the right, then those that are, each part sorted by its place.
pub resolve_columns-IsResolved :
    (defaults : List TableColumnDef) (config : TablePreferenceConfig)
    → IsResolved defaults config (resolve_columns defaults config)
unfolding resolve_columns normalize_resolved_column_order
resolve_columns-IsResolved defaults config = record {
  scrolling = filter (λ r. not r.pin_right) sorted;
  pinned = filter (λ r. r.pin_right) sorted;
  split = refl;
  scrolling_flags = All-filter_self _ sorted;
  pinned_flags = All-filter_self _ sorted;
  scrolling_sorted =
      filter-IsSorted by_order _ sorted (sort_by-IsSorted by_order by_order-IsOrder collected);
  pinned_sorted =
      filter-IsSorted by_order _ sorted (sort_by-IsSorted by_order by_order-IsOrder collected);
  shown =
      subst
        (Perm (
          map (λ (r : ResolvedTableColumn). r.def)
            (filter (λ r. not r.pin_right) sorted ++ filter (λ r. r.pin_right) sorted)))
        (defs-collect_columns config.columns 0 defaults)
        (Perm.map (λ r. r.def)
          (Perm.trans (partition-perm (λ r. r.pin_right) sorted)
            (sort_by-perm by_order collected)));
}
  where
    collected : List ResolvedTableColumn
    collected = collect_columns config.columns 0 defaults

    sorted : List ResolvedTableColumn
    sorted = sort_by by_order collected
