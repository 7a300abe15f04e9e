-- ===== src/DateRangePicker/Picks.antt =====
-- What the owner of the picker is told (web/src/components/form/use-date-range-picker.ts).
use omni_python_web_template.Base.{
  ℕ, ◌≤◌, min, max, String, ◌≡◌, refl, sym, subst, inl, inr, Bool, true, false, Option, none, some,
  List, [], ◌∷◌, ◌++◌, arith, leb, if◌then◌else◌, nat_eq, string_eq, Bool-cases, All, All-append,
}
use omni_python_web_template.DateRangePicker.{
  DateRangeValue, DateRange, PickPhase, idle, picking, edit_from, edit_to, days,
  normalize_picker_range, Picker, value_to_range, range_to_value, commit_range, handle_open_change,
  select_idle, from_of, to_of, select_in, handle_select, apply_preset,
}

-- What reaches the picker
pub data PickEvent : Type 0 where
  open_changed : Bool → PickEvent
  day_selected : ℕ → PickEvent
  day_hovered : Option ℕ → PickEvent
  preset_applied : DateRange → PickEvent

module _ (parse_date_only : String → Option ℕ) (format_date_only : ℕ → String) where
  -- The value of the days from one to the other
  abbrev pub value_of : ℕ → ℕ → DateRangeValue
  value_of start end = record { from = format_date_only start; to = format_date_only end }

  -- A value whose first day is not after its last one
  abbrev pub IsOrdered : DateRangeValue → Type 0
  IsOrdered value = (start : ℕ) × (end : ℕ) × (start ≤ end) × (value ≡ value_of start end)

  -- `onChange` with the value and the end of the picking
  abbrev pub told : DateRangeValue → Picker → Picker
  told value s = record s { value = value; changes = s.changes ++ (value ∷ []); is_open = false }

  commit_range-days :
      (a b : ℕ) (s : Picker)
      → commit_range parse_date_only format_date_only (days a (some b)) s
        ≡ told (value_of (min a b) (max a b)) s
  unfolding commit_range normalize_picker_range
  commit_range-days a b s = elim (Bool-cases (leb a b)) [
    | inl up ↦
        let low : min a b ≡ a = ground arith in
        let high : max a b ≡ b = ground arith in rw (up, low, high) refl
    | inr down ↦
        let low : min a b ≡ b = ground arith in
        let high : max a b ≡ a = ground arith in rw (down, low, high) refl
  ]

  abbrev pub AreOrdered : Picker → Type 0
  AreOrdered s = All IsOrdered s.changes

  commit_range-AreOrdered :
      (a b : ℕ) (s : Picker)
      → AreOrdered s
      → AreOrdered (commit_range parse_date_only format_date_only (days a (some b)) s)
  commit_range-AreOrdered a b s h =
      subst AreOrdered (sym (commit_range-days a b s))
        (All-append IsOrdered s.changes _ h ((min a b, max a b, omega arith, refl), tt))

  module _ (is_same_day : ℕ → ℕ → Bool) where
    abbrev pub pick_step : Picker → PickEvent → Picker
    pick_step s (open_changed next) = handle_open_change parse_date_only format_date_only next s
    pick_step s (day_selected day) =
        handle_select parse_date_only format_date_only is_same_day day s
    pick_step s (day_hovered day) = record s { hover_date = day }
    pick_step s (preset_applied next) = apply_preset parse_date_only format_date_only next s

    abbrev pub pick_run : Picker → List PickEvent → Picker
    pick_run s [] = s
    pick_run s (e ∷ es) = pick_run (pick_step s e) es

    -- A preset has both ends, in order.
    abbrev pub IsRange : PickEvent → Type 0
    IsRange (open_changed next) = Unit
    IsRange (day_selected day) = Unit
    IsRange (day_hovered day) = Unit
    IsRange (preset_applied next) = IsOrdered (range_to_value parse_date_only format_date_only next)

    select_idle-AreOrdered :
        (from to : Option ℕ) (day : ℕ) (s : Picker)
        → AreOrdered s
        → AreOrdered (select_idle parse_date_only format_date_only is_same_day from to day s)
    select_idle-AreOrdered none to day s h = h
    select_idle-AreOrdered (some from) none day s h = h
    select_idle-AreOrdered (some from) (some to) day s h =
        elim (Bool-cases (is_same_day day from)) [
          | inl first ↦ rw first h
          | inr other ↦ elim (Bool-cases (is_same_day day to)) [
            | inl last ↦ rw (other, last) h
            | inr new ↦ rw (other, new) h
          ]
        ]

    select_in-AreOrdered :
        (phase : PickPhase) (day : ℕ) (s : Picker)
        → AreOrdered s
        → AreOrdered (select_in parse_date_only format_date_only is_same_day phase day s)
    select_in-AreOrdered idle day s h = select_idle-AreOrdered (from_of s.range) _ day s h
    select_in-AreOrdered (picking anchor) day s h = commit_range-AreOrdered anchor day s h
    select_in-AreOrdered (edit_from fixed_to) day s h = commit_range-AreOrdered day fixed_to s h
    select_in-AreOrdered (edit_to fixed_from) day s h = commit_range-AreOrdered fixed_from day s h

    pick_step-AreOrdered :
        (e : PickEvent) (s : Picker) → IsRange e → AreOrdered s → AreOrdered (pick_step s e)
    unfolding handle_open_change handle_select apply_preset
    pick_step-AreOrdered (open_changed false) s k h = h
    pick_step-AreOrdered (open_changed true) s k h = h
    pick_step-AreOrdered (day_selected day) s k h =
        select_in-AreOrdered s.phase day (record s { hover_date = none }) h
    pick_step-AreOrdered (day_hovered day) s k h = h
    pick_step-AreOrdered (preset_applied next) s k h = All-append IsOrdered s.changes _ h (k, tt)

    -- Whatever is opened, picked, hovered and preset, every value that the owner is told has a first day
    -- that is not after its last one, if the presets have.
    pub pick_run-AreOrdered :
        (es : List PickEvent) (s : Picker)
        → All IsRange es
        → AreOrdered s
        → AreOrdered (pick_run s es)
    pick_run-AreOrdered [] s k h = h
    pick_run-AreOrdered (e ∷ es) s (i, k) h =
        pick_run-AreOrdered es (pick_step s e) k (pick_step-AreOrdered e s i h)

    -- The end that stays when a day is picked first: the other end, if the day is an end of the range.
    abbrev pub anchor_of : Option ℕ → Option ℕ → ℕ → ℕ
    anchor_of none to day = day
    anchor_of (some from) none day = day
    anchor_of (some from) (some to) day =
        if is_same_day day from then to else if is_same_day day to then from else day

    two_picks :
        (from to : Option ℕ) (a b : ℕ) (s : Picker)
        → let mid = select_idle parse_date_only format_date_only is_same_day from to a s in
          let out =
            select_in parse_date_only format_date_only is_same_day mid.phase b
              (record mid { hover_date = none }) in
          let value = value_of (min (anchor_of from to a) b) (max (anchor_of from to a) b) in
          (out.changes ≡ s.changes ++ (value ∷ [])) × (out.value ≡ value) × (out.is_open ≡ false)
    two_picks none to a b s = rw (commit_range-days a b) (refl, refl, refl)
    two_picks (some from) none a b s = rw (commit_range-days a b) (refl, refl, refl)
    two_picks (some from) (some to) a b s = elim (Bool-cases (is_same_day a from)) [
      | inl first ↦
          let low : min b to ≡ min to b = omega arith in
          let high : max b to ≡ max to b = omega arith in
          rw (first, commit_range-days b to, low, high) (refl, refl, refl)
      | inr other ↦ elim (Bool-cases (is_same_day a to)) [
        | inl last ↦ rw (other, last, commit_range-days from b) (refl, refl, refl)
        | inr new ↦ rw (other, new, commit_range-days a b) (refl, refl, refl)
      ]
    ]

    -- Opening the picker and picking two days tells the owner one value, whose ends are in order: the
    -- two days, or, if the first one is an end of the value so far, the other end and the second day;
    -- the picker is then closed.
    pub handle_select-twice :
        (a b : ℕ) (s : Picker)
        → let range = value_to_range parse_date_only format_date_only s.value in
          let opened = handle_open_change parse_date_only format_date_only true s in
          let out =
            handle_select parse_date_only format_date_only is_same_day b
              (handle_select parse_date_only format_date_only is_same_day a opened) in
          let x = anchor_of (from_of range) (to_of range) a in
          (out.changes ≡ s.changes ++ (value_of (min x b) (max x b) ∷ []))
          × (out.value ≡ value_of (min x b) (max x b))
          × (out.is_open ≡ false)
    unfolding handle_select handle_open_change
    handle_select-twice a b s =
        two_picks (from_of (value_to_range parse_date_only format_date_only s.value))
          (to_of (value_to_range parse_date_only format_date_only s.value)) a b
          (record s {
            is_open = true;
            range = value_to_range parse_date_only format_date_only s.value;
            phase = idle;
            hover_date = none;
          })
