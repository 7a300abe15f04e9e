-- ===== src/Permissions/Selection.antt =====
-- lib/permissions.ts: the check states of catalogs and menus, the toggles, and the selections that
-- a role's saved codes are read back to.
use omni_python_web_template.Base.{
  ℕ, ◌+◌, String, Bool, false, not, ◌&&◌, ◌||◌, Option, none, some, List, [], ◌∷◌, ◌++◌, map,
  if◌then◌else◌, ◌==◌, nat_eq, string_eq, length, filter, is_nil,
}
use omni_python_web_template.Base.Collections.{
  includes, set_add, set_add_all, set_of, set_delete, set_delete_all, lookup, insert,
}
use omni_python_web_template.Permissions.{
  PermissionInfo, Nodes, code_of, kind_of, flatten_permission_tree, collect_menu_codes_under_node,
  codes_for_menu_buttons, collect_button_codes_for_menus,
}
use omni_python_web_template.Permissions.Options.{collect_button_options, infer_menus_from_buttons}

-- `boolean | "indeterminate"`
pub data CheckState : Type 0 where
  checked unchecked indeterminate : CheckState

-- `codes.filter((code) => selected.includes(code)).length`
abbrev pub count_selected : List String → List String → ℕ
count_selected codes selected = length (filter (λ c. includes c selected) codes)

unfoldable pub catalog_assignment_state :
    Nodes → PermissionInfo → List String → List String → CheckState
catalog_assignment_state tree n selected_menus selected_buttons =
    let menu_codes = collect_menu_codes_under_node n in
    let button_codes = collect_button_codes_for_menus tree menu_codes in
    let menus_selected = count_selected menu_codes selected_menus in
    let buttons_selected = count_selected button_codes selected_buttons in
    let menus_full = menus_selected == length menu_codes in
    let buttons_full = length button_codes == 0 || buttons_selected == length button_codes in
    if is_nil menu_codes
    then unchecked
    else if menus_full && buttons_full
    then checked
    else if menus_selected == 0 && buttons_selected == 0
    then unchecked
    else indeterminate

unfoldable pub catalog_check_state : PermissionInfo → List String → CheckState
catalog_check_state n selected_menus =
    let under = collect_menu_codes_under_node n in
    let selected_count = count_selected under selected_menus in
    if is_nil under
    then unchecked
    else if selected_count == 0
    then unchecked
    else if selected_count == length under
    then checked
    else indeterminate

unfoldable pub menu_assignment_state : Nodes → String → List String → List String → CheckState
menu_assignment_state tree menu_code selected_menus selected_buttons =
    let button_codes = codes_for_menu_buttons tree menu_code in
    let selected_count = count_selected button_codes selected_buttons in
    if not (includes menu_code selected_menus)
    then unchecked
    else if length button_codes == 0
    then checked
    else if selected_count == 0 || selected_count == length button_codes
    then checked
    else indeterminate

unfoldable pub toggle_catalog_selection : PermissionInfo → List String → Bool → List String
toggle_catalog_selection n selected_menus is_checked =
    let under = collect_menu_codes_under_node n in
    if is_checked
    then set_add_all (set_of selected_menus) under
    else set_delete_all (set_of selected_menus) under

unfoldable pub toggle_menu_selection : String → Nodes → List String → Bool → List String
toggle_menu_selection menu_code tree selected_menus is_checked =
    if is_checked
    then set_add (set_of selected_menus) menu_code
    else set_delete (set_of selected_menus) menu_code

-- `new Map(entries)`: the last entry of a key counts.
unfoldable pub insert_all {κ} :
    {V : Type κ} → List (String × V) → List (String × V) → List (String × V)
insert_all m [] = m
insert_all m ((k, v) ∷ entries) = insert_all (insert k v m) entries

unfoldable pub kind_by_code : Nodes → List (String × String)
kind_by_code tree = insert_all [] (map (λ n. (code_of n, kind_of n)) (flatten_permission_tree tree))

abbrev pub is_kind : String → Option String → Bool
is_kind kind none = false
is_kind kind (some k) = k == kind

unfoldable pub split_menu_button_selection : List String → Nodes → List String × List String
split_menu_button_selection codes tree = (
  filter (λ c. is_kind "menu" (lookup c (kind_by_code tree))) codes,
  filter (λ c. is_kind "button" (lookup c (kind_by_code tree))) codes,
)

unfoldable pub merge_menu_button_selection : List String → List String → List String
merge_menu_button_selection menus buttons = set_of (menus ++ buttons)

unfoldable pub to_assignable_selection : List String → Nodes → List String
to_assignable_selection all_perms tree =
    filter (λ c. includes c (set_of (map code_of (flatten_permission_tree tree)))) all_perms

module _ (locale_le : String → String → Bool) where
  unfoldable pub resolve_assignment_selection : List String → Nodes → List String × List String
  resolve_assignment_selection codes tree =
      let (menus, buttons) =
        split_menu_button_selection (to_assignable_selection codes tree) tree in
      (
        if is_nil menus
            then infer_menus_from_buttons buttons (collect_button_options locale_le tree)
            else menus,
        buttons,
      )

  unfoldable pub count_assignment_selection : List String → Nodes → ℕ × ℕ
  count_assignment_selection codes tree =
      let (menus, buttons) = resolve_assignment_selection codes tree in
      (length menus, length buttons)

  unfoldable pub assignment_selection_total : List String → Nodes → ℕ
  assignment_selection_total codes tree =
      let (menu_count, button_count) = count_assignment_selection codes tree in
      menu_count + button_count
