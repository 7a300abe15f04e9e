-- ===== src/FilterGrid/Rows.antt =====
-- The rows have all the fields, in order (web/src/lib/filter-grid.ts).
use omni_python_web_template.Base.{
  ℕ, zero, suc, min, ◌-◌, is_nil, ◌≤◌, ◌<◌, ◌≡◌, refl, sym, ap, ◌∙◌, inl, inr, Bool, false, not,
  ◌||◌, List, [], ◌∷◌, ◌++◌, append-nil, append_assoc, arith, leb, if◌then◌else◌, nat_eq, string_eq,
  Bool-cases, length, take, drop, All, take-append-drop, length-take, length-drop,
}
use omni_python_web_template.FilterGrid.{
  joined, fields_of_row, rendered, resolve_action_field_render_count, chunks, chunk_filter_fields,
  FilterToolbarRowLayout, all_but_last, last_row, resolve_filter_toolbar_row_layout,
  resolve_filter_cols_per_row,
}

module _ {ℓ} {A : Type ℓ} where
  -- The fields of a layout in order: the stretched rows, then the row of the buttons.
  abbrev pub laid_out : FilterToolbarRowLayout A → List A
  laid_out layout = joined layout.stretch_rows ++ fields_of_row layout.action_row_fields

  joined-chunks :
      (fuel cols : ℕ) (fields : List A)
      → length fields ≤ fuel
      → 0 < cols
      → joined (chunks fuel cols fields) ≡ fields
  joined-chunks zero cols [] h k = refl
  joined-chunks zero cols (f ∷ fields) h k = absurd (omega arith)
  joined-chunks (suc fuel) cols [] h k = refl
  joined-chunks (suc fuel) cols (f ∷ fields) h k =
      ap (λ r. take cols (f ∷ fields) ++ r)
        (joined-chunks fuel cols (drop cols (f ∷ fields))
          (omega (arith, length-drop cols (f ∷ fields))) k)
      ∙ take-append-drop cols (f ∷ fields)

  short-chunks :
      (fuel cols : ℕ) (fields : List A) → All (λ r. length r ≤ cols) (chunks fuel cols fields)
  short-chunks zero cols fields = tt
  short-chunks (suc fuel) cols [] = tt
  short-chunks (suc fuel) cols (f ∷ fields) = (
    omega (arith, length-take cols (f ∷ fields)),
    short-chunks fuel cols (drop cols (f ∷ fields)),
  )

  joined-last :
      (r : List A) (rows : List (List A))
      → joined (all_but_last r rows) ++ last_row r rows ≡ joined (r ∷ rows)
  joined-last r [] = sym (append-nil r)
  joined-last r (s ∷ rows) = append_assoc r _ _ ∙ ap (λ t. r ++ t) (joined-last s rows)

  laid_out-layout :
      (rows : List (List A)) (bar expanded : Bool)
      → laid_out (resolve_filter_toolbar_row_layout rows bar expanded) ≡ joined rows
  unfolding resolve_filter_toolbar_row_layout
  laid_out-layout [] bar expanded = refl
  laid_out-layout (r ∷ rows) bar expanded = elim (Bool-cases (not bar || expanded)) [
    | inl plain ↦ rw plain (append-nil (joined (r ∷ rows)))
    | inr split ↦ rw split (joined-last r rows)
  ]

  -- How many fields of the row of the buttons the toolbar shows
  abbrev pub render_count : FilterToolbarRowLayout A → ℕ
  render_count layout =
      resolve_action_field_render_count (length (fields_of_row layout.action_row_fields))
        (not (is_nil layout.stretch_rows))

  -- The fields that the row of the buttons has no place for
  abbrev pub left_out : FilterToolbarRowLayout A → List A
  left_out layout = drop (render_count layout) (fields_of_row layout.action_row_fields)

  rendered-left_out :
      (layout : FilterToolbarRowLayout A) → rendered layout ++ left_out layout ≡ laid_out layout
  unfolding rendered
  rendered-left_out layout =
      append_assoc (joined layout.stretch_rows)
        (take (render_count layout) (fields_of_row layout.action_row_fields)) (left_out layout)
      ∙ ap (λ r. joined layout.stretch_rows ++ r)
          (take-append-drop (render_count layout) (fields_of_row layout.action_row_fields))

  short-last :
      (cols : ℕ) (r : List A) (rows : List (List A))
      → All (λ s. length s ≤ cols) (r ∷ rows)
      → length (last_row r rows) ≤ cols
  short-last cols r [] (h, k) = h
  short-last cols r (s ∷ rows) (h, k) = short-last cols s rows k

  few-left_out :
      (rows : List (List A)) (bar expanded : Bool) (cols : ℕ)
      → All (λ r. length r ≤ cols) rows
      → length (left_out (resolve_filter_toolbar_row_layout rows bar expanded)) ≤ cols - 3
  unfolding resolve_filter_toolbar_row_layout resolve_action_field_render_count
  few-left_out [] bar expanded cols h = omega arith
  few-left_out (r ∷ rows) bar expanded cols h = elim (Bool-cases (not bar || expanded)) [
    | inl plain ↦ rw plain (omega arith)
    | inr split ↦ rw split (few-last r rows h)
  ]
    where
      few-last :
          (s : List A) (rest : List (List A))
          → All (λ x. length x ≤ cols) (s ∷ rest)
          → length (
              drop
                (resolve_action_field_render_count
                  (length (last_row s rest))
                  (not (is_nil (all_but_last s rest))))
                (last_row s rest))
            ≤ cols - 3
      few-last s [] k = omega (arith, length-drop (length s) s)
      few-last s (x ∷ rest) k = omega (
        arith,
        short-last cols s (x ∷ rest) k,
        length-drop (min (length (last_row x rest)) 3) (last_row x rest),
      )

  -- The fields are put in rows of no more than the columns of the screen (one on a phone), which are
  -- positive; the toolbar shows them in their order, from the first one on, and leaves out at the end
  -- no more than the columns that are more than three: none on up to three columns.
  pub rendered-chunk_filter_fields :
      (fields : List A) (is_mobile bar expanded : Bool) (max_cols : ℕ)
      → 0 < max_cols
      → let cols = resolve_filter_cols_per_row is_mobile max_cols in
        let rows = chunk_filter_fields fields cols in
        let layout = resolve_filter_toolbar_row_layout rows bar expanded in
        All (λ r. length r ≤ cols) rows
        × ((missing : List A) × (rendered layout ++ missing ≡ fields) × (length missing ≤ cols - 3))
  unfolding chunk_filter_fields resolve_filter_cols_per_row
  rendered-chunk_filter_fields fields is_mobile bar expanded max_cols h =
      let cols = if is_mobile then 1 else max_cols in
      let some_cols : 0 < cols = ground arith in
      let loop : leb cols 0 ≡ false = ground arith in
      let rows = chunks (length fields) cols fields in
      let short = short-chunks (length fields) cols fields in
      rw loop (
        short,
        (
          left_out (resolve_filter_toolbar_row_layout rows bar expanded),
          rendered-left_out (resolve_filter_toolbar_row_layout rows bar expanded)
              ∙ laid_out-layout rows bar expanded
              ∙ joined-chunks (length fields) cols fields (omega arith) some_cols,
          few-left_out rows bar expanded cols short,
        ),
      )
