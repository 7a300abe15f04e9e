-- ===== src/TablePreference/Config/Merge.antt =====
-- Merging a saved configuration into the defaults.
use omni_python_web_template.Base.{
  ℕ, ◌+◌, String, ◌≡◌, refl, sym, ap, ◌∙◌, ◌⊎◌, inl, inr, true, false, Option, none, some, List, [],
  ◌∷◌, map, if◌then◌else◌, ◌==◌, nat_eq, string_eq, Bool-cases, Option-cases, beq_refl,
}
use omni_python_web_template.Base.Collections.{
  includes, IsNodup, set_add_all, set_of, lookup, insert, keys, lookup-insert,
  keys-insert_of_includes, lookup_cases, keys-insert, lookup_absent,
}
use omni_python_web_template.Base.Num.{Fraction}
use omni_python_web_template.TablePreference.{TableColumnPreference, TableColumnDef}
use omni_python_web_template.TablePreference.Config.{
  default_preference, place_columns, ordered_defaults, build_default_config, merge_column,
  merge_found, merge_columns, merge_preference_config,
}
use omni_python_web_template.TablePreference.Normalized.{
  RawConfig, normal, normal_columns, serialize_table_preference_config,
}

pub keys-merge_columns :
    (defaults : List TableColumnDef) (m saved : List (String × TableColumnPreference))
    → keys (merge_columns defaults m saved) ≡ keys m
unfolding merge_columns
keys-merge_columns defaults m [] = refl
keys-merge_columns defaults m ((id, pref) ∷ saved) =
    keys-merge_columns defaults (merge_found defaults id (lookup id m) pref m) saved
    ∙ keys-merge_found defaults id m pref
  where
    keys-merge_found :
        (ds : List TableColumnDef) (k : String) (n : List (String × TableColumnPreference))
        (p : TableColumnPreference)
        → keys (merge_found ds k (lookup k n) p n) ≡ keys n
    keys-merge_found ds k n p = elim (lookup_cases k n) [
      | inl (absent, _) ↦ rw absent
      | inr (b, found, there) ↦ rw found (keys-insert_of_includes k (merge_column ds k b p) n there)
    ]

pub keys-normal_columns :
    (m : List (String × TableColumnPreference)) → keys (normal_columns m) ≡ keys m
keys-normal_columns [] = refl
keys-normal_columns ((id, p) ∷ m) = ap (λ r. id ∷ r) (keys-normal_columns m)

pub keys-place_columns :
    (index : ℕ) (cols : List TableColumnDef) (placed : List (String × TableColumnPreference))
    → keys (place_columns index cols placed) ≡ set_add_all (keys placed) (map (λ col. col.id) cols)
unfolding place_columns
keys-place_columns index [] placed = refl
keys-place_columns index (col ∷ cols) placed =
    keys-place_columns (index + 1) cols (insert col.id (default_preference col index) placed)
    ∙ ap (λ r. set_add_all r (map (λ c. c.id) cols))
        (keys-insert col.id (default_preference col index) placed)

-- The value of one column after the merge, by the default and the saved preference.
abbrev pub merged_value :
    List TableColumnDef
    → String
    → Option TableColumnPreference
    → Option TableColumnPreference
    → Option TableColumnPreference
merged_value defaults id none saved = none
merged_value defaults id (some b) none = some b
merged_value defaults id (some b) (some p) = some (merge_column defaults id b p)

pub merged_value-none :
    (defaults : List TableColumnDef) (id : String) (b : Option TableColumnPreference)
    → merged_value defaults id b none ≡ b
merged_value-none defaults id none = refl
merged_value-none defaults id (some b) = refl

lookup-merge_found :
    (defaults : List TableColumnDef) (id k : String) (m : List (String × TableColumnPreference))
    (p : TableColumnPreference)
    → lookup k (merge_found defaults id (lookup id m) p m)
      ≡ (if id == k then merged_value defaults k (lookup k m) (some p) else lookup k m)
lookup-merge_found defaults id k m p = elim (Bool-cases (id == k)) [
  | inl here ↦ let same : id ≡ k = (string_eq.beq_iff id k).0 here in rw (here, same) (at_key k)
  | inr there ↦ rw there (elsewhere (lookup_cases id m) there)
]
  where
    at_key :
        (j : String)
        → lookup j (merge_found defaults j (lookup j m) p m)
          ≡ merged_value defaults j (lookup j m) (some p)
    at_key j = elim (Option-cases (lookup j m)) [
      | inl absent ↦ rw absent absent
      | inr (b, found) ↦ rw (found, lookup-insert, beq_refl j)
    ]

    elsewhere :
        ((lookup id m ≡ none) × (includes id (keys m) ≡ false))
          ⊎ ((v : TableColumnPreference) × (lookup id m ≡ some v) × (includes id (keys m) ≡ true))
        → (id == k) ≡ false
        → lookup k (merge_found defaults id (lookup id m) p m) ≡ lookup k m
    elsewhere (inl (absent, _)) there = rw absent
    elsewhere (inr (b, found, _)) there = rw (found, lookup-insert, there)

pub lookup-merge_columns :
    (defaults : List TableColumnDef) (k : String) (m saved : List (String × TableColumnPreference))
    → IsNodup (keys saved)
    → lookup k (merge_columns defaults m saved)
      ≡ merged_value defaults k (lookup k m) (lookup k saved)
unfolding merge_columns
lookup-merge_columns defaults k m [] h = sym (merged_value-none defaults k (lookup k m))
lookup-merge_columns defaults k m ((id, p) ∷ saved) (fresh, h) =
    lookup-merge_columns defaults k (merge_found defaults id (lookup id m) p m) saved h
    ∙ ap (λ v. merged_value defaults k v (lookup k saved)) (lookup-merge_found defaults id k m p)
    ∙ elim (Bool-cases (id == k)) [
      | inl here ↦
          let same : id ≡ k = (string_eq.beq_iff id k).0 here in
          let gone : lookup k saved ≡ none = rw (← same) (lookup_absent id saved fresh) in
          rw (here, gone) (merged_value-none defaults k _)
      | inr there ↦ rw there refl
    ]

abbrev pub normal_value : Option TableColumnPreference → Option TableColumnPreference
normal_value none = none
normal_value (some p) = some (normal p)

pub lookup-normal_columns :
    (k : String) (m : List (String × TableColumnPreference))
    → lookup k (normal_columns m) ≡ normal_value (lookup k m)
lookup-normal_columns k [] = refl
lookup-normal_columns k ((id, p) ∷ m) = elim (Bool-cases (id == k)) [
  | inl here ↦ rw here refl
  | inr there ↦ rw there (lookup-normal_columns k m)
]

-- The merged configuration has exactly the columns of the table, in the default order, whatever was
-- saved under the ids that the model has.
keys-merge_preference_config :
    (defaults : List TableColumnDef) (saved : Option RawConfig) (row_height : Fraction)
    → keys (merge_preference_config defaults saved row_height).columns
      ≡ set_of (map (λ col. col.id) (ordered_defaults defaults))
unfolding merge_preference_config build_default_config serialize_table_preference_config
keys-merge_preference_config defaults none row_height =
    keys-place_columns 0 (ordered_defaults defaults) []
keys-merge_preference_config defaults (some saved) row_height =
    keys-normal_columns _
    ∙ keys-merge_columns defaults _ _
    ∙ keys-place_columns 0 (ordered_defaults defaults) []
