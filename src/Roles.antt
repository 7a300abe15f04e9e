-- ===== src/Roles.antt =====
-- The roles page (web/src/pages/RolesPage/hooks/use-roles-page-actions.ts): creating a role and saving
-- its permissions and its data scope, with the checks of web/src/lib/role-code.ts. What the form holds
-- is an argument, and so are the answers of the requests. Code and name are lists of code units. The
-- reload of the list that follows a success is counted, and its failure is told like any other.
pub mod Requests
pub mod Closing
use omni_python_web_template.Base.{
  ℕ, zero, suc, ◌+◌, ◌-◌, ◌*◌, ◌/◌, ◌%◌, ◌≤◌, ◌<◌, min, max, String, ◌≡◌, refl, sym, ap, ◌∙◌, subst,
  ◌≢◌, ◌↔◌, ◌⊎◌, inl, inr, Bool, true, false, not, ◌&&◌, ◌||◌, Option, none, some, List, [], ◌∷◌,
  ◌++◌, map, append-nil, append_assoc, map-append, arith, ltb, leb, if◌then◌else◌, Eq, ◌==◌, nat_eq,
  string_eq, Bool-cases, Option-cases, or_true_cases, and_true_parts, beq_refl, beq_sym, length,
  take, drop, get_elem?, filter, find?, any, all, All, length-append, take-append-drop, length-take,
  length-drop, take_of_length_le, length-map, filter-append, length-filter-le, filter-filter,
  All-append, All-filter_self, sum_of, sum_of-append, is_nil, sum_of-map, All-map,
}
use omni_python_web_template.Base.Collections.{
  includes, IsNodup, set_add, set_add_all, set_of, set_delete, set_delete_all, includes-append,
  includes-filter, includes-set_add, includes-set_add_all, includes-set_delete,
  includes-set_delete_all, IsNodup-append_one, set_add-IsNodup, set_add_all-IsNodup, filter-IsNodup,
  lookup, insert, remove, keys, lookup-insert, lookup-remove, includes-keys-insert,
  keys-insert_of_includes, lookup_cases, keys-insert, lookup_absent, map_ext, All-of_includes,
  All-includes, filter_of_All, set_add_all_of_All,
}
use omni_python_web_template.Base.Codes.{Codes, trim_codes}
use omni_python_web_template.Permissions.{Nodes}
use omni_python_web_template.Permissions.Selection.{merge_menu_button_selection}
use omni_python_web_template.Permissions.Expand.{expand_permission_codes}
use omni_python_web_template.DataScope.{
  RoleDataScopeItem, custom_scopes_from_dept_ids, is_scope_refused,
}
use omni_python_web_template.Base.{nat_beq}

-- `/[a-zA-Z0-9_-]/`
abbrev pub is_role_code_char : ℕ → Bool
is_role_code_char c =
    leb 97 c && leb c 122
    || leb 65 c && leb c 90
    || leb 48 c && leb c 57
    || nat_beq c 95
    || nat_beq c 45

unfoldable pub sanitize_role_code_input : Codes → Codes
sanitize_role_code_input raw = filter is_role_code_char raw

-- Whether the code is refused; a text that passes `ROLE_CODE_PATTERN` is not empty.
unfoldable pub is_role_code_refused : Codes → Bool
is_role_code_refused code =
    is_nil (trim_codes code) || not (all is_role_code_char (trim_codes code))

unfoldable pub is_role_name_refused : Codes → Bool
is_role_name_refused name = is_nil (trim_codes name)

pub data RoleType : Type 0 where
  system : RoleType
  tenant : RoleType

unfoldable pub permission_tree_for_role_type : Option RoleType → Nodes → Nodes → Nodes
permission_tree_for_role_type none system_tree tenant_tree = tenant_tree
permission_tree_for_role_type (some system) system_tree tenant_tree = system_tree
permission_tree_for_role_type (some tenant) system_tree tenant_tree = tenant_tree

-- The fields of `RoleRecord` that the page reads
pub record RoleRecord : Type 0 where
  pub id : ℕ
  pub role_type : Option RoleType
  pub system_managed : Bool

pub record CreateForm : Type 0 where
  pub code : Codes
  pub name : Codes
  pub description : Codes
  pub data_scope : ℕ
  pub dept_ids : List ℕ
  pub menus : List String
  pub buttons : List String
  pub role_type : RoleType

-- The body of a new role; the tenant's own requests name no type.
pub record RoleBody : Type 0 where
  pub code : Codes
  pub name : Codes
  pub description : Codes
  pub data_scope : ℕ
  pub role_type : Option RoleType

-- `api.tenantRoles` and `api.roles` have the same requests; the first field tells which is meant.
pub data RoleRequest : Type 0 where
  create_role : Bool → RoleBody → RoleRequest
  update_scope : Bool → ℕ → ℕ → List RoleDataScopeItem → RoleRequest
  set_permissions : Bool → ℕ → List String → RoleRequest

pub record RolesPage : Type 0 where
  pub editing : Option RoleRecord
  pub create_open : Bool
  pub func_perm_open : Bool
  pub data_scope_open : Bool
  pub code_error : Bool
  pub name_error : Bool
  pub data_scope_error : Bool
  pub sent : List RoleRequest
  pub form_resets : ℕ
  pub loads : ℕ
  pub toasts : ℕ

abbrev pub send_request : RoleRequest → RolesPage → RolesPage
send_request r s = record s { sent = s.sent ++ (r ∷ []) }

abbrev pub show_toast : RolesPage → RolesPage
show_toast s = record s { toasts = s.toasts + 1 }

-- The answers of the requests of one creation: the id of the new role, whether the others succeeded,
-- and whether the page's data could be loaded again
pub record RoleAnswers : Type 0 where
  pub created : Option ℕ
  pub scope_saved : Bool
  pub permissions_saved : Bool
  pub loaded : Bool

-- `await load()` at the end of a `try`: its failure is told like any other.
abbrev pub reload : Bool → RolesPage → RolesPage
reload loaded s = record s {
  loads = s.loads + 1;
  toasts = if loaded then s.toasts else s.toasts + 1;
}

-- The hook's own arguments
module _ (code_le : String → String → Bool) (tenant_scope : Bool)
    (system_tree tenant_tree : Nodes) where
  -- `persistRoleDataScope`
  abbrev pub scope_request : ℕ → ℕ → List ℕ → RoleRequest
  scope_request role_id scope dept_ids =
      update_scope tenant_scope role_id scope
        (if scope == 4 then custom_scopes_from_dept_ids dept_ids else [])

  -- `tenantScope ? "tenant" : type`
  abbrev pub tree_type : Option RoleType → Option RoleType
  tree_type role_type = if tenant_scope then some tenant else role_type

  abbrev pub permission_request : ℕ → Option RoleType → List String → RoleRequest
  permission_request role_id role_type merged = set_permissions tenant_scope role_id (
      expand_permission_codes code_le merged
        (permission_tree_for_role_type (tree_type role_type) system_tree tenant_tree))

  -- The end of a creation that succeeded
  abbrev pub created_all : Bool → RolesPage → RolesPage
  created_all loaded s =
      reload loaded (record s { create_open = false; form_resets = s.form_resets + 1 })

  abbrev pub create_permissions : ℕ → CreateForm → RoleAnswers → RolesPage → RolesPage
  create_permissions id form answers s =
      let merged = merge_menu_button_selection form.menus form.buttons in
      if is_nil merged
      then created_all answers.loaded s
      else let asked = send_request (permission_request id (some form.role_type) merged) s in
        if answers.permissions_saved then created_all answers.loaded asked else show_toast asked

  -- `if (createDataScope === 4)`: what it does, with what follows it
  unfoldable pub create_own_scope : ℕ → CreateForm → RoleAnswers → RolesPage → RolesPage
  create_own_scope id form answers s =
      let asked = send_request (scope_request id form.data_scope form.dept_ids) s in
      if answers.scope_saved then create_permissions id form answers asked else show_toast asked

  abbrev pub create_rest : Option ℕ → CreateForm → RoleAnswers → RolesPage → RolesPage
  create_rest none form answers s = show_toast s
  create_rest (some id) form answers s =
      if form.data_scope == 4
      then create_own_scope id form answers s
      else create_permissions id form answers s

  abbrev pub body_of : CreateForm → RoleBody
  body_of form = record {
    code = trim_codes form.code;
    name = trim_codes form.name;
    description = trim_codes form.description;
    data_scope = form.data_scope;
    role_type = if tenant_scope then none else some form.role_type;
  }

  -- The errors of the fields and of the scope, cleared and set again
  abbrev pub marked : CreateForm → RolesPage → RolesPage
  marked form s = record s {
    code_error = is_role_code_refused form.code;
    name_error = is_role_name_refused form.name;
    data_scope_error = is_scope_refused form.data_scope form.dept_ids;
  }

  abbrev pub is_refused : CreateForm → Bool
  is_refused form =
      is_role_code_refused form.code
      || is_role_name_refused form.name
      || is_scope_refused form.data_scope form.dept_ids

  unfoldable pub handle_create : CreateForm → RoleAnswers → RolesPage → RolesPage
  handle_create form answers s =
      if is_refused form
      then marked form s
      else create_rest answers.created form answers
          (send_request (create_role tenant_scope (body_of form)) (marked form s))

  -- `!editing || editing.system_managed`
  abbrev pub saved_permissions :
      RoleRecord → List String → List String → Bool → Bool → RolesPage → RolesPage
  saved_permissions role menus buttons ok loaded s =
      if role.system_managed
      then s
      else let asked =
          send_request
            (permission_request role.id role.role_type (merge_menu_button_selection menus buttons))
            s in
        if ok
        then reload loaded (record asked { func_perm_open = false; editing = none })
        else show_toast asked

  abbrev pub save_permissions_of :
      Option RoleRecord → List String → List String → Bool → Bool → RolesPage → RolesPage
  save_permissions_of none menus buttons ok loaded s = s
  save_permissions_of (some role) menus buttons ok loaded s =
      saved_permissions role menus buttons ok loaded s

  unfoldable pub handle_save_functional_permissions :
      List String → List String → Bool → Bool → RolesPage → RolesPage
  handle_save_functional_permissions menus buttons ok loaded s =
      save_permissions_of s.editing menus buttons ok loaded s

  abbrev pub saved_scope : RoleRecord → ℕ → List ℕ → Bool → Bool → RolesPage → RolesPage
  saved_scope role scope dept_ids ok loaded s =
      if role.system_managed
      then s
      else if is_scope_refused scope dept_ids
      then record s { data_scope_error = true }
      else let asked = send_request (scope_request role.id scope dept_ids) s in
        if ok
        then reload loaded
            (record asked { data_scope_open = false; editing = none; data_scope_error = false })
        else show_toast asked

  abbrev pub save_scope_of : Option RoleRecord → ℕ → List ℕ → Bool → Bool → RolesPage → RolesPage
  save_scope_of none scope dept_ids ok loaded s = s
  save_scope_of (some role) scope dept_ids ok loaded s = saved_scope role scope dept_ids ok loaded s

  unfoldable pub handle_save_data_scope : ℕ → List ℕ → Bool → Bool → RolesPage → RolesPage
  handle_save_data_scope scope dept_ids ok loaded s =
      save_scope_of s.editing scope dept_ids ok loaded s
