-- ===== src/TablePreference/Rows/Sorting.antt =====
-- What sorting does to the rows.
use omni_python_web_template.Base.{
  String, ◌≡◌, refl, sym, ◌∙◌, ◌≢◌, inl, inr, Bool, true, Option, none, some, List, [], ◌∷◌, arith,
  nat_eq, string_eq, Bool-cases, beq_refl, All,
}
use mathlib.Core.Bool.{false≢true}
use mathlib.Core.List.{Perm}
use omni_python_web_template.Base.Sort.{sort_by, sort_by-perm, insert_sorted}
use omni_python_web_template.TablePreference.{
  SortOrder, asc, desc, TableSortPreference, TableColumnDef,
}
use omni_python_web_template.TablePreference.Value.{Value}
use omni_python_web_template.TablePreference.Rows.{
  cycle_sort_state, sort_key_of, is_missing, value_le, sort_rows,
}

-- Clicking a column that is not sorted by sorts by it upwards, then downwards, then no more.
pub cycle_sort_state_thrice :
    (current : Option TableSortPreference) (id : String)
    → ((s : TableSortPreference) → current ≡ some s → s.column_id ≢ id)
    → (cycle_sort_state current id ≡ some (record { column_id = id; order = asc }))
      × (cycle_sort_state (cycle_sort_state current id) id
          ≡ some (record { column_id = id; order = desc }))
      × (cycle_sort_state (cycle_sort_state (cycle_sort_state current id) id) id ≡ none)
unfolding cycle_sort_state
cycle_sort_state_thrice none id h = ground (arith, beq_refl id)
cycle_sort_state_thrice (some s) id h =
    ground (arith, beq_refl id, h s refl, string_eq.beq_iff s.column_id id)

module _ (text_le : Value → Value → Bool) {A : Type 0} (field : A → String → Value) where
  before_missing :
      (order : SortOrder) (a b : Value) → is_missing b ≡ true → value_le text_le order a b ≡ true
  unfolding value_le
  before_missing order a b m = ground arith

  after_missing :
      (order : SortOrder) (a b : Value)
      → is_missing a ≡ true
      → value_le text_le order a b ≡ true
      → is_missing b ≡ true
  unfolding value_le
  after_missing order a b m h = ground arith

  -- The rows with a value come first.
  abbrev pub MissingLast : String → List A → Type 0
  MissingLast key [] = Unit
  MissingLast key (r ∷ rs) =
      (is_missing (field r key) ≡ true → All (λ s. is_missing (field s key) ≡ true) rs)
      × MissingLast key rs

  insert_sorted-MissingLast :
      (order : SortOrder) (key : String) (x : A) (rs : List A)
      → MissingLast key rs
      → MissingLast key
          (insert_sorted (λ a b. value_le text_le order (field a key) (field b key)) x rs)
  insert_sorted-MissingLast order key x [] h = (λ m. tt, tt)
  insert_sorted-MissingLast order key x (r ∷ rs) (p, h) =
      elim (Bool-cases (value_le text_le order (field x key) (field r key))) [
        | inl up ↦ rw up (
          λ m.
              let missing = after_missing order (field x key) (field r key) m up in
              (missing, p missing),
          (p, h),
        )
        | inr down ↦ rw down (
          λ m. absurd (false≢true (sym down ∙ before_missing order (field x key) (field r key) m)),
          insert_sorted-MissingLast order key x rs h,
        )
      ]

  sort_by-MissingLast :
      (order : SortOrder) (key : String) (rs : List A)
      → MissingLast key (sort_by (λ a b. value_le text_le order (field a key) (field b key)) rs)
  sort_by-MissingLast order key [] = tt
  sort_by-MissingLast order key (r ∷ rs) =
      insert_sorted-MissingLast order key r _ (sort_by-MissingLast order key rs)

  -- Sorting the rows loses and repeats none, and puts the rows that have no value in the sorted
  -- column last, whichever the direction and the collation.
  pub sort_rows_lem :
      (rows : List A) (sort : TableSortPreference) (columns : List TableColumnDef)
      → Perm (sort_rows text_le field rows (some sort) columns) rows
        × MissingLast (sort_key_of sort columns) (sort_rows text_le field rows (some sort) columns)
  unfolding sort_rows
  sort_rows_lem rows sort columns =
      (sort_by-perm _ rows, sort_by-MissingLast sort.order (sort_key_of sort columns) rows)
