-- ===== src/TablePreference/Mutations/Laws.antt =====
-- hooks/table-preferences-helpers.ts: what a reordering writes, and what a load ends with.
use omni_python_web_template.Base.{
  ℕ, zero, suc, ◌+◌, String, ◌≡◌, refl, ap, ◌∙◌, inl, inr, true, false, Option, none, some, List,
  [], ◌∷◌, arith, leb, if◌then◌else◌, ◌==◌, nat_eq, string_eq, Bool-cases, Option-cases, beq_refl,
  beq_sym, get_elem?,
}
use omni_python_web_template.Base.Collections.{includes, IsNodup, lookup, lookup-insert}
use omni_python_web_template.Base.Num.{Fraction, whole}
use omni_python_web_template.TablePreference.{
  TableColumnPreference, TablePreferenceConfig, TableColumnDef,
}
use omni_python_web_template.TablePreference.Mutations.{put_order, put_orders}
use omni_python_web_template.TablePreference.Normalized.{RawConfig}
use omni_python_web_template.TablePreference.Loading.{
  Remote, failed, nothing_saved, saved, LoadStep, show_config, write_cache, ready, report_error,
  merged, base_config, is_fresh, load_table_preferences,
}

module _ (default_columns : List TableColumnDef) (default_row_height : Fraction) where
  abbrev pub Columns : Type 0
  Columns = List (String × TableColumnPreference)

  lookup-put_order :
      (id : String) (k : ℕ) (columns : Columns) (j : String)
      → (id == j) ≡ false
      → lookup j (put_order default_columns default_row_height id k (lookup id columns) columns)
        ≡ lookup j columns
  unfolding put_order
  lookup-put_order id k columns j other = elim (Option-cases (lookup id columns)) [
    | inl e ↦ rw e refl
    | inr (p, e) ↦ rw (e, lookup-insert id j (record p { order = whole k }) columns, other) refl
  ]

  lookup-put_orders_other :
      (k : ℕ) (ids : List String) (columns : Columns) (j : String)
      → includes j ids ≡ false
      → lookup j (put_orders default_columns default_row_height k ids columns) ≡ lookup j columns
  unfolding put_orders
  lookup-put_orders_other k [] columns j h = refl
  lookup-put_orders_other k (id ∷ ids) columns j h =
      lookup-put_orders_other (k + 1) ids
        (put_order default_columns default_row_height id k (lookup id columns) columns) j
        (ground arith)
      ∙ lookup-put_order id k columns j (ground (arith, beq_sym id j))

  includes-get_elem :
      (ids : List String) (i : ℕ) (j : String) → get_elem? ids i ≡ some j → includes j ids ≡ true
  includes-get_elem [] i j h = ground arith
  includes-get_elem (id ∷ ids) zero j h = ground (arith, string_eq.beq_iff j id)
  includes-get_elem (id ∷ ids) (suc i) j h = ground (arith, includes-get_elem ids i j h)

  -- Writing the places of distinct ids gives each column with a preference the place at which its id
  -- stands, counted from the first place, and changes nothing else of it.
  pub lookup-put_orders :
      (k : ℕ) (ids : List String) (columns : Columns) (i : ℕ) (j : String)
      (p : TableColumnPreference)
      → IsNodup ids
      → get_elem? ids i ≡ some j
      → lookup j columns ≡ some p
      → lookup j (put_orders default_columns default_row_height k ids columns)
        ≡ some (record p { order = whole (k + i) })
  unfolding put_orders put_order
  lookup-put_orders k [] columns i j p d h e = ground arith
  lookup-put_orders k (id ∷ ids) columns zero j p (fresh, d) h e =
      let id_is : id ≡ j = ground arith in
      let here : (id == j) ≡ true = rw id_is (beq_refl j) in
      lookup-put_orders_other (k + 1) ids
        (put_order default_columns default_row_height id k (lookup id columns) columns) j
        (rw (← id_is) fresh)
      ∙ rw (id_is, e, lookup-insert j j (record p { order = whole k }) columns, beq_refl j)
          (ap (λ n. some (record p { order = whole n })) (omega arith))
  lookup-put_orders k (id ∷ ids) columns (suc i) j p (fresh, d) h e =
      let other : (id == j) ≡ false =
        ground
          (arith, includes-get_elem ids i j h, string_eq.beq_iff id j, ap (λ s. includes s ids)) in
      lookup-put_orders (k + 1) ids
        (put_order default_columns default_row_height id k (lookup id columns) columns) i j p d h
        (lookup-put_order id k columns j other ∙ e)
      ∙ ap (λ n. some (record p { order = whole n })) (omega arith)

  -- The configuration shown last, and how often the load reported to be ready.
  abbrev pub last_shown :
      List LoadStep → Option TablePreferenceConfig → Option TablePreferenceConfig
  last_shown [] c = c
  last_shown (show_config d ∷ steps) c = last_shown steps (some d)
  last_shown (write_cache d t ∷ steps) c = last_shown steps c
  last_shown (ready ∷ steps) c = last_shown steps c
  last_shown (report_error ∷ steps) c = last_shown steps c

  abbrev pub count_ready : List LoadStep → ℕ
  count_ready [] = 0
  count_ready (ready ∷ steps) = suc (count_ready steps)
  count_ready (show_config d ∷ steps) = count_ready steps
  count_ready (write_cache d t ∷ steps) = count_ready steps
  count_ready (report_error ∷ steps) = count_ready steps

  abbrev pub cached_or_base : Option (RawConfig × ℕ) → TablePreferenceConfig
  cached_or_base none = base_config default_columns default_row_height
  cached_or_base (some (raw, t)) = merged default_columns default_row_height raw

  abbrev pub newest : Option (RawConfig × ℕ) → Remote → TablePreferenceConfig
  newest cached failed = cached_or_base cached
  newest cached nothing_saved = cached_or_base cached
  newest cached (saved raw time) =
      if is_fresh default_columns default_row_height cached time
      then merged default_columns default_row_height raw
      else cached_or_base cached

  -- A load of a table that stays mounted becomes ready exactly once and ends with the saved
  -- configuration if there is one that is not older than the cache, otherwise with the cached one,
  -- and with the defaults if there is none, whether or not the request failed.
  pub load_table_preferences_lem :
      (cached : Option (RawConfig × ℕ)) (remote : Remote)
      → (let steps =
            load_table_preferences default_columns default_row_height cached remote true true in
          (count_ready steps ≡ 1) × (last_shown steps none ≡ some (newest cached remote)))
  unfolding load_table_preferences
  load_table_preferences_lem none failed = (refl, refl)
  load_table_preferences_lem none nothing_saved = (refl, refl)
  load_table_preferences_lem none (saved raw time) = (refl, refl)
  load_table_preferences_lem (some (old, t)) failed = (refl, refl)
  load_table_preferences_lem (some (old, t)) nothing_saved = (refl, refl)
  load_table_preferences_lem (some (old, t)) (saved raw time) = elim (Bool-cases (leb t time)) [
    | inl e ↦ rw e (refl, refl)
    | inr e ↦ rw e (refl, refl)
  ]
