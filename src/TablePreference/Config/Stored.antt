-- ===== src/TablePreference/Config/Stored.antt =====
-- types/table-preference.ts: a configuration as a value of the store, and columns found by their ids.
use omni_python_web_template.Base.{
  String, ◌≡◌, refl, ap, inl, inr, false, Option, none, some, List, [], ◌∷◌, map, arith, ◌==◌,
  nat_eq, string_eq, Bool-cases, beq_refl, All,
}
use omni_python_web_template.Base.Collections.{includes, IsNodup}
use omni_python_web_template.Base.Text.{is_empty}
use omni_python_web_template.TablePreference.{
  TableColumnPreference, TablePreferenceConfig, TableSortPreference, SortOrder, asc, desc,
  TableColumnDef,
}
use omni_python_web_template.TablePreference.Value.{Value, str}
use omni_python_web_template.TablePreference.Config.{find_column}
use omni_python_web_template.TablePreference.Normalized.{
  RawColumn, RawSort, RawConfig, raw_column, sort_of, sort_on, order_text, normal, normal_columns,
  normalize_columns,
}

-- A typed configuration as a value of the store.
abbrev raw_direction : SortOrder → String
raw_direction asc = "asc"
raw_direction desc = "desc"

abbrev raw_sort : Option TableSortPreference → Option RawSort
raw_sort none = none
raw_sort (some s) =
    some (record { column_id = str s.column_id; order = str (raw_direction s.order) })

abbrev raw_columns : List (String × TableColumnPreference) → List (String × Option RawColumn)
raw_columns [] = []
raw_columns ((id, p) ∷ cs) = (id, some (raw_column p)) ∷ raw_columns cs

abbrev pub raw_config : TablePreferenceConfig → RawConfig
raw_config c = record {
  row_height = some c.row_height;
  sort = raw_sort c.sort;
  columns = raw_columns c.columns;
}

pub sort_again : (r : Option RawSort) → sort_of (raw_sort (sort_of r)) ≡ sort_of r
sort_again none = refl
sort_again (some r) = again r.column_id r.order
  where
    direction : (o : SortOrder) → order_text (str (raw_direction o)) ≡ o
    direction asc = refl
    direction desc = refl

    again : (c o : Value) → sort_of (raw_sort (sort_on c o)) ≡ sort_on c o
    again (str s) o = elim (Bool-cases (is_empty s)) [
      | inl blank ↦ rw blank refl
      | inr shown ↦ rw shown (
          rw shown
            (ap (λ d. some (record { column_id = s; order = d })) (direction (order_text o))))
    ]
    again _ o = refl

pub normalize_columns-raw :
    (cs : List (String × TableColumnPreference))
    → normalize_columns (raw_columns cs) ≡ normal_columns cs
normalize_columns-raw [] = refl
normalize_columns-raw ((id, p) ∷ cs) = ap (λ r. (id, normal p) ∷ r) (normalize_columns-raw cs)

abbrev pub column_ids : List TableColumnDef → List String
column_ids = map (λ col. col.id)

-- With distinct ids each column is found by its id.
find_column-other :
    (c : TableColumnDef) (cs ds : List TableColumnDef)
    → includes c.id (column_ids ds) ≡ false
    → All (λ col. find_column cs col.id ≡ some col) ds
    → All (λ col. find_column (c ∷ cs) col.id ≡ some col) ds
find_column-other c cs [] h k = tt
find_column-other c cs (d ∷ ds) h (found, k) =
    (ground (arith, Bool-cases (c.id == d.id)), find_column-other c cs ds (ground arith) k)

pub find_column_self :
    (cs : List TableColumnDef)
    → IsNodup (column_ids cs)
    → All (λ col. find_column cs col.id ≡ some col) cs
find_column_self [] h = tt
find_column_self (c ∷ cs) (fresh, h) =
    (rw (beq_refl c.id), find_column-other c cs cs fresh (find_column_self cs h))
