-- ===== src/Roles/Closing.antt =====
-- When the dialog that creates a role closes
-- (web/src/pages/RolesPage/hooks/use-roles-page-actions.ts).
use omni_python_web_template.Base.{
  ℕ, ◌+◌, String, ◌≡◌, inl, inr, Bool, true, false, not, ◌&&◌, ◌||◌, Option, none, some, [], ◌∷◌,
  ◌++◌, arith, if◌then◌else◌, ◌==◌, nat_eq, string_eq, Bool-cases, is_nil,
}
use omni_python_web_template.Permissions.{Nodes}
use omni_python_web_template.Permissions.Selection.{merge_menu_button_selection}
use omni_python_web_template.Roles.{
  CreateForm, create_role, RolesPage, RoleAnswers, scope_request, create_permissions,
  create_own_scope, create_rest, body_of, marked, is_refused, handle_create,
}

module _ (code_le : String → String → Bool) (tenant_scope : Bool)
    (system_tree tenant_tree : Nodes) where
  -- Whether every request of a creation succeeded: the role's, that of an own scope, and that of the
  -- permissions, if some are selected.
  abbrev rest_answered : CreateForm → RoleAnswers → Bool
  rest_answered form answers =
      (not (form.data_scope == 4) || answers.scope_saved)
      && (is_nil (merge_menu_button_selection form.menus form.buttons) || answers.permissions_saved)

  abbrev pub all_answered : Option ℕ → CreateForm → RoleAnswers → Bool
  all_answered none form answers = false
  all_answered (some id) form answers = rest_answered form answers

  -- The dialog closes if `done`, and otherwise stays; a failure is told once, unless all was done and
  -- the data were `loaded` again.
  abbrev pub ClosesIf : Bool → Bool → RolesPage → RolesPage → Type 0
  ClosesIf done loaded out s =
      (out.create_open ≡ (s.create_open && not done))
      × (out.toasts ≡ s.toasts + (if done && loaded then 0 else 1))

  toasts-reload :
      (loaded : Bool) (n : ℕ) → (if loaded then n else n + 1) ≡ n + (if loaded then 0 else 1)
  toasts-reload true n = omega arith
  toasts-reload false n = omega arith

  create_permissions-ClosesIf :
      (id : ℕ) (form : CreateForm) (answers : RoleAnswers) (s : RolesPage)
      → ClosesIf
          (is_nil (merge_menu_button_selection form.menus form.buttons)
            || answers.permissions_saved)
          answers.loaded
          (create_permissions code_le tenant_scope system_tree tenant_tree id form answers s)
          s
  create_permissions-ClosesIf id form answers s =
      elim (Bool-cases (is_nil (merge_menu_button_selection form.menus form.buttons))) [
        | inl nothing ↦ rw nothing (ground arith, toasts-reload answers.loaded s.toasts)
        | inr something ↦ elim (Bool-cases answers.permissions_saved) [
          | inl fine ↦ rw (something, fine) (ground arith, toasts-reload answers.loaded s.toasts)
          | inr failed ↦ rw (something, failed) (ground arith, omega arith)
        ]
      ]

  create_own_scope-ClosesIf :
      (id : ℕ) (form : CreateForm) (answers : RoleAnswers) (s : RolesPage)
      → ClosesIf
          (answers.scope_saved
            && (is_nil (merge_menu_button_selection form.menus form.buttons)
                || answers.permissions_saved))
          answers.loaded
          (create_own_scope code_le tenant_scope system_tree tenant_tree id form answers s)
          s
  unfolding create_own_scope
  create_own_scope-ClosesIf id form answers s = elim (Bool-cases answers.scope_saved) [
    | inl fine ↦
        let r =
          scope_request code_le tenant_scope system_tree tenant_tree id form.data_scope
            form.dept_ids in
        rw fine
          (create_permissions-ClosesIf id form answers (record s { sent = s.sent ++ (r ∷ []) }))
    | inr failed ↦ rw failed (ground arith, omega arith)
  ]

  create_rest-ClosesIf :
      (o : Option ℕ) (form : CreateForm) (answers : RoleAnswers) (s : RolesPage)
      → ClosesIf
          (all_answered o form answers)
          answers.loaded
          (create_rest code_le tenant_scope system_tree tenant_tree o form answers s)
          s
  create_rest-ClosesIf none form answers s = (ground arith, omega arith)
  create_rest-ClosesIf (some id) form answers s = elim (Bool-cases (form.data_scope == 4)) [
    | inl own ↦ rw own (create_own_scope-ClosesIf id form answers s)
    | inr other ↦ rw other (create_permissions-ClosesIf id form answers s)
  ]

  -- A form that passes its checks closes the dialog exactly if every request of the creation succeeds:
  -- the role's, that of an own scope, and that of the permissions, if some are selected; otherwise the
  -- dialog stays as it was. One failure is told if one of these requests fails, also where the role
  -- itself was created, or if all succeed and the data cannot be loaded again; else none.
  pub handle_create-ClosesIf :
      (form : CreateForm) (answers : RoleAnswers) (s : RolesPage)
      → is_refused code_le tenant_scope system_tree tenant_tree form ≡ false
      → ClosesIf
          (all_answered answers.created form answers)
          answers.loaded
          (handle_create code_le tenant_scope system_tree tenant_tree form answers s)
          s
  unfolding handle_create
  handle_create-ClosesIf form answers s valid =
      let r =
        create_role tenant_scope (body_of code_le tenant_scope system_tree tenant_tree form) in
      let start = marked code_le tenant_scope system_tree tenant_tree form s in
      rw valid (
        create_rest-ClosesIf answers.created form answers
          (record start { sent = s.sent ++ (r ∷ []) }))
