-- ===== src/Permissions/Laws/Toggles.antt =====
-- lib/permissions.ts: the toggles and the states the panel then shows.
use omni_python_web_template.Base.{
  String, ◌≡◌, refl, ap, ◌∙◌, inl, inr, Bool, true, false, not, ◌&&◌, ◌||◌, List, [], ◌∷◌, arith,
  if◌then◌else◌, ◌==◌, nat_eq, string_eq, Bool-cases, beq_refl, length, filter, all, All,
  length-filter-le, is_nil,
}
use omni_python_web_template.Base.Collections.{
  includes, set_of, includes-set_add, includes-set_add_all, includes-set_delete,
  includes-set_delete_all, All-of_includes, filter_of_All,
}
use omni_python_web_template.Permissions.{
  PermissionInfo, Nodes, collect_menu_codes_under_node, collect_button_codes_for_menus,
}
use omni_python_web_template.Permissions.Selection.{
  CheckState, checked, unchecked, indeterminate, count_selected, catalog_assignment_state,
  catalog_check_state, toggle_catalog_selection, toggle_menu_selection,
}

includes-set_of : (a : String) (xs : List String) → includes a (set_of xs) ≡ includes a xs
includes-set_of a xs = includes-set_add_all a [] xs

-- Toggling a catalog sets the check of each menu below it and leaves every other menu as it was.
pub toggle_catalog_selection_lem :
    (n : PermissionInfo) (selected : List String) (is_checked : Bool) (c : String)
    → includes c (toggle_catalog_selection n selected is_checked)
      ≡ (if includes c (collect_menu_codes_under_node n) then is_checked else includes c selected)
unfolding toggle_catalog_selection
toggle_catalog_selection_lem n selected true c = ground (
  arith,
  includes-set_add_all c (set_of selected) (collect_menu_codes_under_node n),
  includes-set_of c selected,
)
toggle_catalog_selection_lem n selected false c = ground (
  arith,
  includes-set_delete_all c (set_of selected) (collect_menu_codes_under_node n),
  includes-set_of c selected,
)

length-filter-All :
    (p : String → Bool) (xs : List String)
    → All (λ c. p c ≡ true) xs
    → length (filter p xs) ≡ length xs
length-filter-All p xs h = ap length (filter_of_All p xs h)

length-filter_none :
    (p : String → Bool) (xs : List String) → All (λ c. p c ≡ false) xs → length (filter p xs) ≡ 0
length-filter_none p [] h = refl
length-filter_none p (x ∷ xs) (e, h) = rw e (length-filter_none p xs h)

state_of_count : Bool → CheckState
state_of_count true = checked
state_of_count false = unchecked

-- After a catalog is toggled it shows the check it was given, if there is a menu below it, and is
-- unchecked if there is none.
pub catalog_check_state-toggle :
    (n : PermissionInfo) (selected : List String) (is_checked : Bool)
    → catalog_check_state n (toggle_catalog_selection n selected is_checked) ≡ (
        if is_checked && not (is_nil (collect_menu_codes_under_node n)) then checked else unchecked)
unfolding catalog_check_state
catalog_check_state-toggle n selected true =
    let under = collect_menu_codes_under_node n in
    let result = toggle_catalog_selection n selected true in
    let every : All (λ c. includes c result ≡ true) under =
      All-of_includes (λ c. includes c result ≡ true) under
        (λ c h. toggle_catalog_selection_lem n selected true c ∙ rw h refl) in
    rw (length-filter-All (λ c. includes c result) under every) (full under)
  where
    full :
        (xs : List String)
        → (if is_nil xs
            then unchecked
            else if length xs == 0
            then unchecked
            else if length xs == length xs
            then checked
            else indeterminate)
          ≡ (if not (is_nil xs) then checked else unchecked)
    full [] = refl
    full (x ∷ xs) = ground (arith, beq_refl (length (x ∷ xs)))
catalog_check_state-toggle n selected false =
    let under = collect_menu_codes_under_node n in
    let result = toggle_catalog_selection n selected false in
    let none_left : All (λ c. includes c result ≡ false) under =
      All-of_includes (λ c. includes c result ≡ false) under
        (λ c h. toggle_catalog_selection_lem n selected false c ∙ rw h refl) in
    rw (length-filter_none (λ c. includes c result) under none_left) (ground arith)

-- Toggling a menu sets its own check and no other.
pub toggle_menu_selection_lem :
    (tree : Nodes) (menu_code : String) (selected : List String) (is_checked : Bool) (c : String)
    → includes c (toggle_menu_selection menu_code tree selected is_checked)
      ≡ (if c == menu_code then is_checked else includes c selected)
unfolding toggle_menu_selection
toggle_menu_selection_lem tree menu_code selected true c =
    ground (arith, includes-set_add c (set_of selected) menu_code, includes-set_of c selected)
toggle_menu_selection_lem tree menu_code selected false c =
    ground (arith, includes-set_delete c (set_of selected) menu_code, includes-set_of c selected)

count_full : (p : String → Bool) (xs : List String) → (length (filter p xs) == length xs) ≡ all p xs
count_full p [] = refl
count_full p (x ∷ xs) = elim (Bool-cases (p x)) [
  | inl e ↦ rw e (ground (arith, count_full p xs))
  | inr e ↦ rw e (ground (arith, length-filter-le p xs))
]

abbrev pub is_checked_state : CheckState → Bool
is_checked_state checked = true
is_checked_state unchecked = false
is_checked_state indeterminate = false

checked_cases :
    (no_menu menus_full no_button buttons_full none_selected : Bool)
    → (no_button ≡ true → buttons_full ≡ true)
    → is_checked_state (
        if no_menu
        then unchecked
        else if menus_full && (no_button || buttons_full)
        then checked
        else if none_selected
        then unchecked
        else indeterminate)
      ≡ (not no_menu && (menus_full && buttons_full))
checked_cases true m b f s h = refl
checked_cases false false b f s h = ground arith
checked_cases false true b f s h = ground arith

-- A catalog shows as checked exactly if there is a menu below it and every menu below it and every
-- button of those menus is selected.
pub catalog_assignment_state_lem :
    (tree : Nodes) (n : PermissionInfo) (menus buttons : List String)
    → is_checked_state (catalog_assignment_state tree n menus buttons) ≡ (
        not (is_nil (collect_menu_codes_under_node n))
        && (all (λ c. includes c menus) (collect_menu_codes_under_node n)
            && all
                (λ c. includes c buttons)
                (collect_button_codes_for_menus tree (collect_menu_codes_under_node n))))
unfolding catalog_assignment_state
catalog_assignment_state_lem tree n menus buttons =
    let menu_codes = collect_menu_codes_under_node n in
    let button_codes = collect_button_codes_for_menus tree menu_codes in
    rw
      (
        count_full (λ c. includes c menus) menu_codes,
        count_full (λ c. includes c buttons) button_codes,
      )
      (checked_cases (is_nil menu_codes) (all (λ c. includes c menus) menu_codes)
        (length button_codes == 0) (all (λ c. includes c buttons) button_codes)
        (count_selected menu_codes menus == 0 && count_selected button_codes buttons == 0)
        (every_of_none button_codes))
  where
    every_of_none :
        (xs : List String) → (length xs == 0) ≡ true → all (λ c. includes c buttons) xs ≡ true
    every_of_none [] h = refl
    every_of_none (x ∷ xs) h = ground arith
