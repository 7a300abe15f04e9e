-- ===== src/Scenarios/Roles.antt =====
-- A catalog with a menu of users and its two buttons.
use omni_python_web_template.Base.{
  String, ◌≡◌, refl, ap, ◌∙◌, Bool, true, not, ◌&&◌, none, some, [], ◌∷◌, arith, if◌then◌else◌,
  nat_eq, string_eq, any, is_nil,
}
use omni_python_web_template.Base.Collections.{includes}
use omni_python_web_template.Base.{not}
use omni_python_web_template.Permissions.{collect_button_codes_for_menus}
use omni_python_web_template.Permissions.Selection.{
  catalog_assignment_state, to_assignable_selection,
}
use omni_python_web_template.Permissions.Laws.Toggles.{
  is_checked_state, catalog_assignment_state_lem,
}
use omni_python_web_template.Permissions.Laws.Expanded.{to_assignable-expand}
use omni_python_web_template.Permissions.{
  PermissionFields, PermissionInfo, permission, Nodes, no_nodes, node,
  collect_menu_codes_under_node, flatten_permission_tree,
}
use omni_python_web_template.Permissions.Options.{ButtonOption}
use omni_python_web_template.Permissions.Selection.{
  checked, unchecked, catalog_check_state, toggle_catalog_selection, split_menu_button_selection,
  merge_menu_button_selection, kind_by_code, insert_all,
}
use omni_python_web_template.Permissions.Expand.{expand_permission_codes}
use omni_python_web_template.Permissions.Laws.Toggles.{catalog_check_state-toggle}
use omni_python_web_template.Permissions.Laws.Above.{carried}
use omni_python_web_template.Permissions.Laws.Expanded.{includes-expand_permission_codes}
use omni_python_web_template.Permissions.Laws.Splitting.{has_kind, split-merge}
use omni_python_web_template.Base.{all}

abbrev fields : String → String → PermissionFields
fields code kind = record {
  id = none;
  code = code;
  name = code;
  kind = kind;
  parent_id = none;
  sort_order = none;
  enabled = some true;
  route_path = none;
  component_key = none;
  api_codes = "api.read" ∷ [];
}

abbrev edit_button : PermissionInfo
edit_button = permission (fields "edit" "button") no_nodes

abbrev delete_button : PermissionInfo
delete_button = permission (fields "delete" "button") no_nodes

abbrev system_catalog : PermissionInfo
system_catalog = permission (fields "system" "catalog") (
    node (permission (fields "users" "menu") (node edit_button (node delete_button no_nodes)))
      no_nodes)

abbrev roles_tree : Nodes
roles_tree = node system_catalog no_nodes

-- Any order of texts will do here.
abbrev any_order : String → String → Bool
any_order a b = true

includes-expand_permission_codes_example :
    includes {A = String} "delete"
      (expand_permission_codes any_order ("users" ∷ "edit" ∷ []) roles_tree)
    ≡ any (λ code. carried roles_tree code "delete") ("users" ∷ "edit" ∷ [])
includes-expand_permission_codes_example =
    includes-expand_permission_codes any_order ("users" ∷ "edit" ∷ []) roles_tree "delete"

catalog_check_state-toggle_example :
    catalog_check_state system_catalog (toggle_catalog_selection system_catalog ("other" ∷ []) true)
    ≡ (if true && not (is_nil (collect_menu_codes_under_node system_catalog))
        then checked
        else unchecked)
catalog_check_state-toggle_example = catalog_check_state-toggle system_catalog ("other" ∷ []) true

abbrev edit_option : ButtonOption
edit_option = record { code = "edit"; name = "Edit"; menu_code = "users"; menu_name = "Users" }

users_known : has_kind roles_tree "menu" "users" ≡ true
unfolding kind_by_code insert_all flatten_permission_tree
users_known = refl

edit_known : has_kind roles_tree "button" "edit" ≡ true
unfolding kind_by_code insert_all flatten_permission_tree
edit_known = refl

users_is_menu :
    (c : String) → includes c ("users" ∷ []) ≡ true → has_kind roles_tree "menu" c ≡ true
users_is_menu c h =
    ap (has_kind roles_tree "menu") ((string_eq.beq_iff c "users").0 (ground arith)) ∙ users_known

edit_is_button :
    (c : String) → includes c ("edit" ∷ []) ≡ true → has_kind roles_tree "button" c ≡ true
edit_is_button c h =
    ap (has_kind roles_tree "button") ((string_eq.beq_iff c "edit").0 (ground arith)) ∙ edit_known

split-merge_example :
    (let (menus', buttons') =
        split_menu_button_selection
          (merge_menu_button_selection ("users" ∷ []) ("edit" ∷ []))
          roles_tree in
      (includes {A = String} "edit" menus' ≡ includes {A = String} "edit" ("users" ∷ []))
      × (includes {A = String} "edit" buttons' ≡ includes {A = String} "edit" ("edit" ∷ [])))
split-merge_example =
    split-merge roles_tree ("users" ∷ []) ("edit" ∷ []) users_is_menu edit_is_button "edit"

catalog_assignment_state_lem_example :
    is_checked_state
      (catalog_assignment_state roles_tree system_catalog ("users" ∷ []) ("edit" ∷ []))
    ≡ (not (is_nil (collect_menu_codes_under_node system_catalog))
        && (all (λ c. includes c ("users" ∷ [])) (collect_menu_codes_under_node system_catalog)
            && all
                (λ c. includes c ("edit" ∷ []))
                (collect_button_codes_for_menus roles_tree
                  (collect_menu_codes_under_node system_catalog))))
catalog_assignment_state_lem_example =
    catalog_assignment_state_lem roles_tree system_catalog ("users" ∷ []) ("edit" ∷ [])

to_assignable-expand_example :
    includes {A = String} "edit" (
      to_assignable_selection
        (expand_permission_codes any_order ("edit" ∷ []) roles_tree)
        roles_tree)
    ≡ true
unfolding flatten_permission_tree
to_assignable-expand_example =
    to_assignable-expand any_order ("edit" ∷ []) roles_tree "edit" refl refl
