-- ===== src/Permissions/Options.antt =====
-- lib/permissions.ts: the buttons with the menu each belongs to, and the selections filtered by them.
use mathlib.Core.Option
use omni_python_web_template.Base.{
  String, Bool, false, not, ◌&&◌, Option, none, some, List, [], ◌∷◌, ◌++◌, map, if◌then◌else◌, ◌==◌,
  nat_eq, string_eq, filter, find?, all, is_nil,
}
use omni_python_web_template.Base.Collections.{includes, set_add, set_of}
use omni_python_web_template.Base.Sort.{sort_by}
use omni_python_web_template.Permissions.{
  PermissionFields, PermissionInfo, permission, Nodes, no_nodes, node, collect_all_menu_codes,
}

pub record ButtonOption : Type 0 where
  pub code : String
  pub name : String
  pub menu_code : String
  pub menu_name : String

abbrev pub own_option : PermissionFields → Option PermissionFields → List ButtonOption
own_option f none = []
own_option f (some menu) =
    if f.kind == "button"
    then record { code = f.code; name = f.name; menu_code = menu.code; menu_name = menu.name } ∷ []
    else []

-- `walk` of `collectButtonOptions`: the menu is the nearest one above, or the node itself.
unfoldable mutual
  pub options_in : Nodes → Option PermissionFields → List ButtonOption
  options_in no_nodes parent_menu = []
  options_in (node n ns) parent_menu = options_of n parent_menu ++ options_in ns parent_menu

  pub options_of : PermissionInfo → Option PermissionFields → List ButtonOption
  options_of (permission f children) parent_menu =
      let menu = if f.kind == "menu" then some f else parent_menu in
      own_option f menu ++ options_in children menu

-- `locale_le a b` is `a.localeCompare(b, "zh-CN") <= 0`.
module _ (locale_le : String → String → Bool) where
  unfoldable pub option_le : ButtonOption → ButtonOption → Bool
  option_le a b =
      if locale_le a.menu_name b.menu_name && locale_le b.menu_name a.menu_name
      then locale_le a.name b.name
      else locale_le a.menu_name b.menu_name

  unfoldable pub collect_button_options : Nodes → List ButtonOption
  collect_button_options tree = sort_by option_le (options_in tree none)

  unfoldable pub collect_all_button_codes : Nodes → List String
  collect_all_button_codes tree = map (λ o. o.code) (collect_button_options tree)

  unfoldable pub build_select_all_assignment : Nodes → List String × List String
  build_select_all_assignment tree = (collect_all_menu_codes tree, collect_all_button_codes tree)

  unfoldable pub is_full_assignment_selected : Nodes → List String → List String → Bool
  is_full_assignment_selected tree selected_menus selected_buttons =
      let all_menus = collect_all_menu_codes tree in
      let all_buttons = collect_all_button_codes tree in
      if is_nil all_menus && is_nil all_buttons
      then false
      else all (λ c. includes c (set_of selected_menus)) all_menus
        && all (λ c. includes c (set_of selected_buttons)) all_buttons

unfoldable pub filter_button_options_by_menus : List ButtonOption → List String → List ButtonOption
filter_button_options_by_menus options menu_codes =
    if is_nil menu_codes then [] else filter (λ o. includes o.menu_code (set_of menu_codes)) options

unfoldable pub filter_button_codes_by_menus :
    List String → List ButtonOption → List String → List String
filter_button_codes_by_menus button_codes options menu_codes =
    let allowed = set_of (map (λ o. o.code) (filter_button_options_by_menus options menu_codes)) in
    if is_nil menu_codes then [] else filter (λ c. includes c allowed) button_codes

-- `options.find((option) => option.code === code)?.menuCode`
unfoldable pub menu_of_button : List ButtonOption → String → Option String
menu_of_button options code = Option.map (λ o. o.menu_code) (find? (λ o. o.code == code) options)

abbrev pub is_menu_code : String → Option String → Bool
is_menu_code menu_code none = false
is_menu_code menu_code (some m) = m == menu_code

unfoldable pub merge_buttons_for_menu :
    String → List String → List String → List ButtonOption → List String
merge_buttons_for_menu menu_code menu_button_codes all_selected_buttons options =
    filter (λ c. not (is_menu_code menu_code (menu_of_button options c))) all_selected_buttons
    ++ menu_button_codes

abbrev pub add_found : List String → Option String → List String
add_found menus none = menus
add_found menus (some m) = set_add menus m

-- The loop of `inferMenusFromButtons`, from the menus already found.
unfoldable pub add_inferred : List ButtonOption → List String → List String → List String
add_inferred options menus [] = menus
add_inferred options menus (code ∷ codes) =
    add_inferred options (add_found menus (menu_of_button options code)) codes

unfoldable pub infer_menus_from_buttons : List String → List ButtonOption → List String
infer_menus_from_buttons button_codes options = add_inferred options [] button_codes
