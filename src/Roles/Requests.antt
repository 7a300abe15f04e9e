-- ===== src/Roles/Requests.antt =====
-- What the roles page asks the server for
-- (web/src/pages/RolesPage/hooks/use-roles-page-actions.ts).
use omni_python_web_template.Base.{
  ℕ, String, ◌≡◌, refl, inl, inr, Bool, true, false, not, Option, none, some, List, [], ◌∷◌, ◌++◌,
  arith, ◌==◌, nat_eq, string_eq, Bool-cases, all, All, All-append, is_nil,
}
use omni_python_web_template.Base.Codes.{trim_codes}
use omni_python_web_template.Permissions.{Nodes}
use omni_python_web_template.Permissions.Selection.{merge_menu_button_selection}
use omni_python_web_template.DataScope.{custom_scopes_from_dept_ids, is_scope_refused}
use omni_python_web_template.Roles.{
  is_role_code_char, is_role_code_refused, is_role_name_refused, RoleRecord, CreateForm,
  RoleRequest, create_role, update_scope, set_permissions, RolesPage, RoleAnswers, scope_request,
  create_permissions, create_own_scope, create_rest, body_of, marked, is_refused, handle_create,
  save_permissions_of, handle_save_functional_permissions, save_scope_of, handle_save_data_scope,
}

-- A request that the server can take: a new role has a code of the allowed characters and a name; an
-- own scope (4) lists a department at least, and any other scope lists none.
abbrev pub IsSound : RoleRequest → Type 0
IsSound (create_role tenant_scope body) =
    (is_nil body.code ≡ false)
    × (all is_role_code_char body.code ≡ true)
    × (is_nil body.name ≡ false)
IsSound (update_scope tenant_scope id scope custom) = is_nil custom ≡ not (scope == 4)
IsSound (set_permissions tenant_scope id codes) = Unit

-- What the page does; a row's button chooses the role that is edited.
pub data RoleEvent : Type 0 where
  role_created : CreateForm → RoleAnswers → RoleEvent
  role_chosen : RoleRecord → RoleEvent
  permissions_saved : List String → List String → Bool → Bool → RoleEvent
  scope_saved : ℕ → List ℕ → Bool → Bool → RoleEvent

is_nil-custom_scopes : (ids : List ℕ) → is_nil (custom_scopes_from_dept_ids ids) ≡ is_nil ids
unfolding custom_scopes_from_dept_ids
is_nil-custom_scopes [] = refl
is_nil-custom_scopes (id ∷ ids) = refl

module _ (code_le : String → String → Bool) (tenant_scope : Bool)
    (system_tree tenant_tree : Nodes) where
  scope_request-IsSound :
      (id scope : ℕ) (dept_ids : List ℕ)
      → is_scope_refused scope dept_ids ≡ false
      → IsSound (scope_request code_le tenant_scope system_tree tenant_tree id scope dept_ids)
  unfolding is_scope_refused
  scope_request-IsSound id scope dept_ids h = elim (Bool-cases (scope == 4)) [
    | inl own ↦ rw (own, is_nil-custom_scopes dept_ids) (ground arith)
    | inr other ↦ rw other refl
  ]

  abbrev pub AllSound : RolesPage → Type 0
  AllSound s = All IsSound s.sent

  one_more :
      (s : RolesPage) (r : RoleRequest) → AllSound s → IsSound r → All IsSound (s.sent ++ (r ∷ []))
  one_more s r h k = All-append IsSound s.sent (r ∷ []) h (k, tt)

  create_permissions-AllSound :
      (id : ℕ) (form : CreateForm) (answers : RoleAnswers) (s : RolesPage)
      → AllSound s
      → AllSound (create_permissions code_le tenant_scope system_tree tenant_tree id form answers s)
  create_permissions-AllSound id form answers s h =
      elim (Bool-cases (is_nil (merge_menu_button_selection form.menus form.buttons))) [
        | inl nothing ↦ rw nothing h
        | inr something ↦ elim (Bool-cases answers.permissions_saved) [
          | inl fine ↦ rw (something, fine) (one_more s _ h tt)
          | inr failed ↦ rw (something, failed) (one_more s _ h tt)
        ]
      ]

  create_own_scope-AllSound :
      (id : ℕ) (form : CreateForm) (answers : RoleAnswers) (s : RolesPage)
      → is_scope_refused form.data_scope form.dept_ids ≡ false
      → AllSound s
      → AllSound (create_own_scope code_le tenant_scope system_tree tenant_tree id form answers s)
  unfolding create_own_scope
  create_own_scope-AllSound id form answers s valid h =
      let r =
        scope_request code_le tenant_scope system_tree tenant_tree id form.data_scope
          form.dept_ids in
      let more = one_more s r h (scope_request-IsSound id form.data_scope form.dept_ids valid) in
      elim (Bool-cases answers.scope_saved) [
        | inl fine ↦ rw fine (
            create_permissions-AllSound id form answers (record s { sent = s.sent ++ (r ∷ []) })
              more)
        | inr failed ↦ rw failed more
      ]

  create_rest-AllSound :
      (o : Option ℕ) (form : CreateForm) (answers : RoleAnswers) (s : RolesPage)
      → is_scope_refused form.data_scope form.dept_ids ≡ false
      → AllSound s
      → AllSound (create_rest code_le tenant_scope system_tree tenant_tree o form answers s)
  create_rest-AllSound none form answers s valid h = h
  create_rest-AllSound (some id) form answers s valid h = elim (Bool-cases (form.data_scope == 4)) [
    | inl own ↦ rw own (create_own_scope-AllSound id form answers s valid h)
    | inr other ↦ rw other (create_permissions-AllSound id form answers s h)
  ]

  -- The three checks of the form
  passed :
      (form : CreateForm)
      → is_refused code_le tenant_scope system_tree tenant_tree form ≡ false
      → (is_nil (trim_codes form.code) ≡ false)
        × (all is_role_code_char (trim_codes form.code) ≡ true)
        × (is_nil (trim_codes form.name) ≡ false)
        × (is_scope_refused form.data_scope form.dept_ids ≡ false)
  unfolding is_role_code_refused is_role_name_refused
  passed form h = (ground arith, ground arith, ground arith, ground arith)

  handle_create-AllSound :
      (form : CreateForm) (answers : RoleAnswers) (s : RolesPage)
      → AllSound s
      → AllSound (handle_create code_le tenant_scope system_tree tenant_tree form answers s)
  unfolding handle_create
  handle_create-AllSound form answers s h =
      elim (Bool-cases (is_refused code_le tenant_scope system_tree tenant_tree form)) [
        | inl refused ↦ rw refused h
        | inr valid ↦
            let (nonempty, allowed, named, scoped) = passed form valid in
            let r =
              create_role tenant_scope
                (body_of code_le tenant_scope system_tree tenant_tree form) in
            let start = marked code_le tenant_scope system_tree tenant_tree form s in
            rw valid (
              create_rest-AllSound answers.created form answers
                (record start { sent = s.sent ++ (r ∷ []) }) scoped
                (one_more s r h (nonempty, allowed, named)))
      ]

  save_permissions-AllSound :
      (o : Option RoleRecord) (menus buttons : List String) (ok loaded : Bool) (s : RolesPage)
      → AllSound s
      → AllSound (
          save_permissions_of code_le tenant_scope system_tree tenant_tree o menus buttons ok loaded
            s)
  save_permissions-AllSound none menus buttons ok loaded s h = h
  save_permissions-AllSound (some role) menus buttons ok loaded s h =
      elim (Bool-cases role.system_managed) [
        | inl managed ↦ rw managed h
        | inr own ↦ elim (Bool-cases ok) [
          | inl fine ↦ rw (own, fine) (one_more s _ h tt)
          | inr failed ↦ rw (own, failed) (one_more s _ h tt)
        ]
      ]

  save_scope-AllSound :
      (o : Option RoleRecord) (scope : ℕ) (dept_ids : List ℕ) (ok loaded : Bool) (s : RolesPage)
      → AllSound s
      → AllSound
          (save_scope_of code_le tenant_scope system_tree tenant_tree o scope dept_ids ok loaded s)
  save_scope-AllSound none scope dept_ids ok loaded s h = h
  save_scope-AllSound (some role) scope dept_ids ok loaded s h =
      elim (Bool-cases role.system_managed) [
        | inl managed ↦ rw managed h
        | inr own ↦ elim (Bool-cases (is_scope_refused scope dept_ids)) [
          | inl refused ↦ rw (own, refused) h
          | inr valid ↦
              let more = one_more s _ h (scope_request-IsSound role.id scope dept_ids valid) in
              elim (Bool-cases ok) [
                | inl fine ↦ rw (own, valid, fine) more
                | inr failed ↦ rw (own, valid, failed) more
              ]
        ]
      ]

  abbrev pub role_step : RolesPage → RoleEvent → RolesPage
  role_step s (role_created form answers) =
      handle_create code_le tenant_scope system_tree tenant_tree form answers s
  role_step s (role_chosen role) = record s { editing = some role }
  role_step s (permissions_saved menus buttons ok loaded) =
      handle_save_functional_permissions code_le tenant_scope system_tree tenant_tree menus buttons
        ok loaded s
  role_step s (scope_saved scope dept_ids ok loaded) =
      handle_save_data_scope code_le tenant_scope system_tree tenant_tree scope dept_ids ok loaded s

  abbrev pub role_run : RolesPage → List RoleEvent → RolesPage
  role_run s [] = s
  role_run s (e ∷ es) = role_run (role_step s e) es

  role_step-AllSound : (e : RoleEvent) (s : RolesPage) → AllSound s → AllSound (role_step s e)
  unfolding handle_save_functional_permissions handle_save_data_scope
  role_step-AllSound (role_created form answers) s h = handle_create-AllSound form answers s h
  role_step-AllSound (role_chosen role) s h = h
  role_step-AllSound (permissions_saved menus buttons ok loaded) s h =
      save_permissions-AllSound s.editing menus buttons ok loaded s h
  role_step-AllSound (scope_saved scope dept_ids ok loaded) s h =
      save_scope-AllSound s.editing scope dept_ids ok loaded s h

  -- Whatever is entered, chosen and saved, and whatever the answers: every new role that is asked for
  -- has a code of the allowed characters and a name, and a scope is saved with departments exactly if
  -- it is the own scope (4).
  pub role_run-AllSound :
      (es : List RoleEvent) (s : RolesPage) → AllSound s → AllSound (role_run s es)
  role_run-AllSound [] s h = h
  role_run-AllSound (e ∷ es) s h = role_run-AllSound es (role_step s e) (role_step-AllSound e s h)
