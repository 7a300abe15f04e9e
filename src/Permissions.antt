-- ===== src/Permissions.antt =====
-- lib/permissions.ts: the permission tree of the assignment panel. The structure: flattening, the
-- tree of catalogs and menus, the menus below a node, a menu's buttons.
pub mod Options
pub mod Selection
pub mod Expand
pub mod Laws
use mathlib.Core.Option
use omni_python_web_template.Base.{
  ℕ, zero, suc, ◌+◌, ◌-◌, ◌*◌, ◌/◌, ◌%◌, ◌≤◌, ◌<◌, min, max, String, ◌≡◌, refl, sym, ap, ◌∙◌, subst,
  ◌≢◌, ◌↔◌, ◌⊎◌, inl, inr, Bool, true, false, not, ◌&&◌, ◌||◌, Option, none, some, List, [], ◌∷◌,
  ◌++◌, map, append-nil, append_assoc, map-append, arith, ltb, leb, if◌then◌else◌, Eq, ◌==◌, nat_eq,
  string_eq, Bool-cases, Option-cases, or_true_cases, and_true_parts, beq_refl, beq_sym, length,
  take, drop, get_elem?, filter, find?, any, all, All, length-append, take-append-drop, length-take,
  length-drop, take_of_length_le, length-map, filter-append, length-filter-le, filter-filter,
  All-append, All-filter_self, sum_of, sum_of-append, is_nil, sum_of-map, All-map,
}
use omni_python_web_template.Base.Collections.{
  includes, IsNodup, set_add, set_add_all, set_of, set_delete, set_delete_all, includes-append,
  includes-filter, includes-set_add, includes-set_add_all, includes-set_delete,
  includes-set_delete_all, IsNodup-append_one, set_add-IsNodup, set_add_all-IsNodup, filter-IsNodup,
  lookup, insert, remove, keys, lookup-insert, lookup-remove, includes-keys-insert,
  keys-insert_of_includes, lookup_cases, keys-insert, lookup_absent, map_ext, All-of_includes,
  All-includes, filter_of_All, set_add_all_of_All,
}

-- The fields of `PermissionInfo` other than its children.
pub record PermissionFields : Type 0 where
  pub id : Option ℕ
  pub code : String
  pub name : String
  pub kind : String
  pub parent_id : Option ℕ
  pub sort_order : Option ℕ
  pub enabled : Option Bool
  pub route_path : Option String
  pub component_key : Option String
  pub api_codes : List String

mutual
  pub data PermissionInfo : Type 0 where
    permission : PermissionFields → Nodes → PermissionInfo

  -- `PermissionInfo[]`
  pub data Nodes : Type 0 where
    no_nodes : Nodes
    node : PermissionInfo → Nodes → Nodes

abbrev pub fields_of : PermissionInfo → PermissionFields
fields_of (permission f children) = f

abbrev pub code_of : PermissionInfo → String
code_of n = (fields_of n).code

abbrev pub kind_of : PermissionInfo → String
kind_of n = (fields_of n).kind

abbrev pub children_of : PermissionInfo → Nodes
children_of (permission f children) = children

-- The elements of the array.
abbrev pub elements : Nodes → List PermissionInfo
elements no_nodes = []
elements (node n ns) = n ∷ elements ns

-- `STRUCTURE_KINDS.has(kind)`
abbrev pub is_structure : String → Bool
is_structure kind = kind == "catalog" || kind == "menu"

abbrev pub is_menu : PermissionInfo → Bool
is_menu n = kind_of n == "menu"

abbrev pub is_button : PermissionInfo → Bool
is_button n = kind_of n == "button"

unfoldable mutual
  pub flatten_permission_tree : Nodes → List PermissionInfo
  flatten_permission_tree no_nodes = []
  flatten_permission_tree (node n ns) = flatten_node n ++ flatten_permission_tree ns

  -- `flattenPermissionTree([node])`
  pub flatten_node : PermissionInfo → List PermissionInfo
  flatten_node (permission f children) = permission f children ∷ flatten_permission_tree children

-- The children are filtered by the recursive call itself, which does so first.
unfoldable mutual
  pub to_catalog_menu_tree : Nodes → Nodes
  to_catalog_menu_tree no_nodes = no_nodes
  to_catalog_menu_tree (node n ns) =
      let rest = to_catalog_menu_tree ns in
      if is_structure (kind_of n) then node (to_catalog_menu_node n) rest else rest

  pub to_catalog_menu_node : PermissionInfo → PermissionInfo
  to_catalog_menu_node (permission f children) = permission f (to_catalog_menu_tree children)

-- A menu has its own code; another node, those of its catalogs and menus.
unfoldable mutual
  pub collect_menu_codes_under_node : PermissionInfo → List String
  collect_menu_codes_under_node (permission f children) =
      let below = collect_menu_codes children in if f.kind == "menu" then f.code ∷ [] else below

  -- the loop over the children
  pub collect_menu_codes : Nodes → List String
  collect_menu_codes no_nodes = []
  collect_menu_codes (node n ns) =
      let codes = collect_menu_codes_under_node n in
      let rest = collect_menu_codes ns in if is_structure (kind_of n) then codes ++ rest else rest

unfoldable pub buttons_under : Option PermissionInfo → List PermissionInfo
buttons_under none = []
buttons_under (some menu) = filter is_button (elements (children_of menu))

unfoldable pub buttons_under_menu : Nodes → String → List PermissionInfo
buttons_under_menu tree menu_code =
    buttons_under (find? (λ n. code_of n == menu_code && is_menu n) (flatten_permission_tree tree))

unfoldable pub codes_for_menu_buttons : Nodes → String → List String
codes_for_menu_buttons tree menu_code = map code_of (buttons_under_menu tree menu_code)

-- The loop of `collectButtonCodesForMenus`, from the codes already collected.
unfoldable pub add_button_codes : Nodes → List String → List String → List String
add_button_codes tree codes [] = codes
add_button_codes tree codes (menu ∷ menus) =
    add_button_codes tree (set_add_all codes (codes_for_menu_buttons tree menu)) menus

unfoldable pub collect_button_codes_for_menus : Nodes → List String → List String
collect_button_codes_for_menus tree menu_codes = add_button_codes tree [] menu_codes

unfoldable pub collect_all_menu_codes : Nodes → List String
collect_all_menu_codes tree =
    map code_of (filter is_menu (flatten_permission_tree (to_catalog_menu_tree tree)))

unfoldable pub first_menu_code : Nodes → Option String
first_menu_code tree =
    Option.map code_of (find? is_menu (flatten_permission_tree (to_catalog_menu_tree tree)))

unfoldable pub get_selected_menu_nodes : Nodes → List String → List PermissionInfo
get_selected_menu_nodes tree menu_codes =
    filter (λ n. is_menu n && includes (code_of n) menu_codes) (flatten_permission_tree tree)
