-- ===== src/TablePreference/Config/Reload.antt =====
-- A configuration that is written to the store and read again.
use omni_python_web_template.Base.{
  ℕ, ◌+◌, String, ◌≡◌, refl, sym, ap, ◌∙◌, subst, inl, inr, Bool, not, Option, none, some, List, [],
  ◌∷◌, arith, ◌==◌, nat_eq, string_eq, Bool-cases, filter, All, All-append,
}
use omni_python_web_template.Base.Collections.{
  IsNodup, set_add_all-IsNodup, lookup, insert, keys, lookup-insert, map_ext,
}
use omni_python_web_template.Base.Num.{Fraction}
use omni_python_web_template.TablePreference.{
  TableColumnPreference, TableColumnDef, or_default, default_row_height, default_column_pin_right,
}
use omni_python_web_template.TablePreference.Config.{
  default_preference, place_columns, ordered_defaults, build_default_config, button_ids,
  find_column, merge_column, merge_columns, merge_preference_config,
}
use omni_python_web_template.TablePreference.Config.Normal.{normal_of_normalized}
use omni_python_web_template.TablePreference.Config.Merge.{
  keys-merge_columns, keys-normal_columns, keys-place_columns, lookup-merge_columns,
  lookup-normal_columns, normal_value, merged_value,
}
use omni_python_web_template.TablePreference.Config.Stable.{
  column_again, default_again, HasButtons, IsSettled,
}
use omni_python_web_template.TablePreference.Normalized.{
  RawColumn, RawConfig, normal_columns, normalize_columns, normalize_table_column_preference,
  normalize_table_preference_config, serialize_table_preference_config,
}
use omni_python_web_template.TablePreference.Config.Stored.{
  column_ids, find_column_self, normalize_columns-raw, raw_config, sort_again,
}

module _ (defaults : List TableColumnDef) where
  -- The default preference of a column lists the buttons that the merge looks up for its id.
  abbrev HasShape : String → TableColumnPreference → Type 0
  HasShape id b = b.action_order ≡ button_ids (find_column defaults id)

  place_columns-HasShape :
      (index : ℕ) (cols : List TableColumnDef) (placed : List (String × TableColumnPreference))
      → All (λ col. find_column defaults col.id ≡ some col) cols
      → ((id : String) (b : TableColumnPreference) → lookup id placed ≡ some b → HasShape id b)
      → (id : String) (b : TableColumnPreference)
      → lookup id (place_columns index cols placed) ≡ some b
      → HasShape id b
  unfolding place_columns
  place_columns-HasShape index [] placed h k = k
  place_columns-HasShape index (col ∷ cols) placed (found, h) k =
      place_columns-HasShape (index + 1) cols (insert col.id (default_preference col index) placed)
        h
        λ id b e. elim (Bool-cases (col.id == id)) [
          | inl here ↦
              let same : col.id ≡ id = (string_eq.beq_iff col.id id).0 here in
              let value : default_preference col index ≡ b =
                ground (arith, lookup-insert col.id id (default_preference col index) placed, e) in
              rw (← value, ← same, found) (unfold default_preference in refl)
          | inr there ↦
              k id b
                (ground (arith, lookup-insert col.id id (default_preference col index) placed, e))
        ]

normalized-IsSettled : (raw : Option RawColumn) → IsSettled (normalize_table_column_preference raw)
unfolding normalize_table_column_preference
normalized-IsSettled none = refl
normalized-IsSettled (some raw) = normal_of_normalized raw

keys-normalize_columns :
    (cs : List (String × Option RawColumn)) → keys (normalize_columns cs) ≡ keys cs
keys-normalize_columns [] = refl
keys-normalize_columns ((id, raw) ∷ cs) = ap (λ r. id ∷ r) (keys-normalize_columns cs)

lookup-normalize_columns :
    (k : String) (cs : List (String × Option RawColumn)) (p : TableColumnPreference)
    → lookup k (normalize_columns cs) ≡ some p
    → IsSettled p
lookup-normalize_columns k [] p h = cc
lookup-normalize_columns k ((id, raw) ∷ cs) p h = elim (Bool-cases (id == k)) [
  | inl here ↦
      let value : normalize_table_column_preference raw ≡ p = ground (arith, rw here at h) in
      subst IsSettled value (normalized-IsSettled raw)
  | inr there ↦ lookup-normalize_columns k cs p (rw there at h)
]

-- The buttons of every column have ids that are not empty.
abbrev pub HasShownButtons : TableColumnDef → Type 0
HasShownButtons col = HasButtons (button_ids (some col))

find_column-HasButtons :
    (cs : List TableColumnDef) (k : String)
    → All HasShownButtons cs
    → HasButtons (button_ids (find_column cs k))
find_column-HasButtons [] k h = tt
find_column-HasButtons (c ∷ cs) k (p, h) = elim (Bool-cases (c.id == k)) [
  | inl here ↦ rw here p
  | inr there ↦ rw there (find_column-HasButtons cs k h)
]

filter-All :
    (P : TableColumnDef → Type 0) (p : TableColumnDef → Bool) (cs : List TableColumnDef)
    → All P cs
    → All P (filter p cs)
filter-All P p [] h = tt
filter-All P p (c ∷ cs) (q, h) = elim (Bool-cases (p c)) [
  | inl kept ↦ rw kept (q, filter-All P p cs h)
  | inr dropped ↦ rw dropped (filter-All P p cs h)
]

abbrev first_value :
    List TableColumnDef
    → String
    → Option TableColumnPreference
    → Option TableColumnPreference
    → Option TableColumnPreference
first_value defaults k b p = normal_value (merged_value defaults k b p)

-- One column of the two merges, by its default and its saved preference.
value_again :
    (defaults : List TableColumnDef) (k : String) (b p : Option TableColumnPreference)
    → HasButtons (button_ids (find_column defaults k))
    → ((d : TableColumnPreference) → b ≡ some d → HasShape defaults k d)
    → ((q : TableColumnPreference) → p ≡ some q → IsSettled q)
    → first_value defaults k b (normal_value (first_value defaults k b p))
      ≡ first_value defaults k b p
unfolding merge_column
value_again defaults k none p has shape settled = refl
value_again defaults k (some b) none has shape settled =
    ap some (default_again (button_ids (find_column defaults k)) b has (shape b refl))
value_again defaults k (some b) (some p) has shape settled =
    ap some (column_again (button_ids (find_column defaults k)) b p has (settled p refl))

module _ (defaults : List TableColumnDef) (distinct : IsNodup (column_ids defaults))
    (shown : All HasShownButtons defaults) (saved : List (String × Option RawColumn))
    (distinct_saved : IsNodup (keys saved)) where
  abbrev base : List (String × TableColumnPreference)
  base = place_columns 0 (ordered_defaults defaults) []

  abbrev merged : List (String × TableColumnPreference) → List (String × TableColumnPreference)
  merged columns = normal_columns (merge_columns defaults base columns)

  keys-merged :
      (columns : List (String × TableColumnPreference)) → keys (merged columns) ≡ keys base
  keys-merged columns = keys-normal_columns _ ∙ keys-merge_columns defaults base columns

  base-IsNodup : IsNodup (keys base)
  base-IsNodup =
      rw (keys-place_columns 0 (ordered_defaults defaults) [])
        (set_add_all-IsNodup [] (column_ids (ordered_defaults defaults)) tt)

  base-HasShape :
      (k : String) (b : TableColumnPreference) → lookup k base ≡ some b → HasShape defaults k b
  base-HasShape =
      place_columns-HasShape defaults 0 (ordered_defaults defaults) []
        (unfold ordered_defaults in
          All-append _ (filter (λ col. not (default_column_pin_right col)) defaults) _
            (filter-All _ _ defaults (find_column_self defaults distinct))
            (filter-All _ _ defaults (find_column_self defaults distinct)))
        (λ id b e. cc)

  lookup-merged :
      (k : String) (columns : List (String × TableColumnPreference))
      → IsNodup (keys columns)
      → lookup k (merged columns) ≡ first_value defaults k (lookup k base) (lookup k columns)
  lookup-merged k columns h =
      lookup-normal_columns k (merge_columns defaults base columns)
      ∙ ap normal_value (lookup-merge_columns defaults k base columns h)

  columns_again :
      merged (normal_columns (merged (normalize_columns saved))) ≡ merged (normalize_columns saved)
  columns_again =
      map_ext (merged (normal_columns first)) first (keys-merged _ ∙ sym (keys-merged _))
        (rw (keys-merged (normal_columns first)) base-IsNodup)
        λ k.
          lookup-merged k (normal_columns first) first-IsNodup
          ∙ ap (first_value defaults k (lookup k base))
              (lookup-normal_columns k first ∙ ap normal_value (once k))
          ∙ value_again defaults k (lookup k base) (lookup k (normalize_columns saved))
              (find_column-HasButtons defaults k shown) (base-HasShape k)
              (lookup-normalize_columns k saved)
          ∙ sym (once k)
    where
      first : List (String × TableColumnPreference)
      first = merged (normalize_columns saved)

      first-IsNodup : IsNodup (keys (normal_columns first))
      first-IsNodup =
          rw (keys-normal_columns first, keys-merged (normalize_columns saved)) base-IsNodup

      once :
          (k : String)
          → lookup k first
            ≡ first_value defaults k (lookup k base) (lookup k (normalize_columns saved))
      once k =
          lookup-merged k (normalize_columns saved)
            (rw (keys-normalize_columns saved) distinct_saved)

-- A merged configuration that is stored and merged again on the next load is the same
-- configuration, for a table whose columns have distinct ids, whose buttons have ids that are not
-- empty, and a saved object (whose keys are distinct).
pub merge_again :
    (defaults : List TableColumnDef) (saved : RawConfig) (row_height : Fraction)
    → IsNodup (column_ids defaults)
    → All HasShownButtons defaults
    → IsNodup (keys saved.columns)
    → merge_preference_config defaults
        (some (raw_config (merge_preference_config defaults (some saved) row_height)))
        row_height
      ≡ merge_preference_config defaults (some saved) row_height
unfolding merge_preference_config build_default_config serialize_table_preference_config
    normalize_table_preference_config
merge_again defaults saved row_height distinct shown distinct_saved = λ i. record {
  row_height = or_default saved.row_height default_row_height;
  sort = sort_again saved.sort i;
  columns =
      (ap
            (λ c.
              normal_columns
                (merge_columns defaults (place_columns 0 (ordered_defaults defaults) []) c))
            (normalize_columns-raw _)
          ∙ columns_again defaults distinct shown saved.columns distinct_saved)
        i;
}
