-- ===== src/AuthSession/Actions.antt =====
-- stores/auth-store-actions.ts: the two tokens through every sequence of the store's actions.
use omni_python_web_template.Base.{
  ℕ, zero, suc, String, refl, ◌∙◌, inl, inr, Bool, not, ◌&&◌, Option, none, some, List, [], ◌∷◌,
  if◌then◌else◌, nat_eq, string_eq, Bool-cases, Option-cases,
}
use omni_python_web_template.Permissions.{Nodes}
use omni_python_web_template.AuthSession.{
  AuthUser, BoundTenantInfo, SessionRow, AuthWorld, Answer, answer, unauthorized, failure, has_text,
  is_some,
}
use omni_python_web_template.AuthSession.NavTree.{normalize_nav_tree, nav_trees_equal}
use omni_python_web_template.AuthSession.Storage.{
  read_session_row, write_session_snapshot, set_session_token, write_device_nav_tree, reset,
  sync_tenant_display_from_bound_tenants,
}
use omni_python_web_template.AuthSession.Lifecycle.{
  with_tenants, load_remote_session, persist_session_nav, apply_remote_session, hydrate_row,
  hydrate_auth_session, mark_refresh, refresh_with, refresh_auth_session, enter_session,
  apply_login_response, login_auth_session, register_auth_session, logout_auth_session,
  switch_tenant_auth_session, or_tenants,
}
use omni_python_web_template.AuthSession.Lifecycle.{put_user, set_slice}
use omni_python_web_template.AuthSession.Invariant.{
  identity-write_session_snapshot, identity-sync, identity-with_tenants, TokenAgrees,
  agrees_of_identity,
}
use omni_python_web_template.AuthSession.Sequence.{
  AuthAction, hydrate, refresh, login, register, logout, switch_tenant, other_request,
  session_end_completed, run_action, run_actions,
}
use omni_python_web_template.AuthSession.Storage.{heard, completed, complete_session_end}
use omni_python_web_template.AuthSession.Invariant.{agrees-heard_unauthorized}
use omni_python_web_template.AuthSession.Invariant.{agrees-heard}
use omni_python_web_template.AuthSession.{ℕ}
use omni_python_web_template.AuthSession.{Deletion}

module _ (locale_le : String → String → Bool) where
  agrees-enter :
      (s : Answer (AuthUser × Nodes)) (tenants : Answer (List BoundTenantInfo)) (w : AuthWorld)
      → TokenAgrees w
      → TokenAgrees (enter_session locale_le s tenants w)
  unfolding persist_session_nav write_device_nav_tree
  agrees-enter (answer (user, tree)) tenants w h =
      let nav = normalize_nav_tree locale_le tree in
      let shown = put_user user nav w in
      let stored = persist_session_nav locale_le user nav shown in
      agrees_of_identity (with_tenants tenants (heard tenants stored)) (heard tenants stored)
        (identity-with_tenants tenants (heard tenants stored))
        (agrees-heard tenants stored (
          agrees_of_identity stored shown
            (identity-write_session_snapshot user nav
              (write_device_nav_tree user.id user.tenant_id nav shown))
            h))
  agrees-enter (unauthorized over) tenants w h = h
  agrees-enter failure tenants w h = h

  agrees-apply :
      (user : AuthUser) (tree : Nodes) (tenants : List BoundTenantInfo) (w : AuthWorld)
      → TokenAgrees w
      → TokenAgrees (apply_remote_session locale_le user tree tenants w)
  unfolding apply_remote_session write_device_nav_tree
  agrees-apply user tree tenants w h =
      let remote = normalize_nav_tree locale_le tree in
      let changed = not (nav_trees_equal locale_le w.slice.nav_tree remote) in
      let shown =
        set_slice
          (λ s. record s {
            user = some user;
            bound_tenants = tenants;
            nav_tree = if changed then remote else s.nav_tree;
          })
          w in
      let cached =
        if changed then write_device_nav_tree user.id user.tenant_id remote shown else shown in
      let stored = write_session_snapshot user remote cached in
      agrees_of_identity (sync_tenant_display_from_bound_tenants stored) cached
        (identity-sync stored ∙ identity-write_session_snapshot user remote cached)
        (elim (Bool-cases changed) [ inl e ↦ rw e h | inr e ↦ rw e h ])

  agrees-refresh_with :
      (s : Answer (AuthUser × Nodes)) (tenants : Answer (List BoundTenantInfo)) (w : AuthWorld)
      → TokenAgrees w
      → TokenAgrees (refresh_with locale_le s tenants w)
  unfolding reset set_session_token
  agrees-refresh_with (answer (user, tree)) tenants w h =
      agrees-apply user tree (or_tenants tenants) w h
  agrees-refresh_with (unauthorized over) tenants w h = inl refl
  agrees-refresh_with failure tenants w h = elim (Option-cases w.slice.user) [
    | inl e ↦ rw e (inl refl)
    | inr (user, e) ↦ rw e h
  ]

  agrees-mark :
      (user : Option AuthUser) (w : AuthWorld)
      → TokenAgrees w
      → TokenAgrees (mark_refresh locale_le user w)
  agrees-mark none w h = h
  agrees-mark (some user) w h = h

  agrees-refresh :
      (me : Answer AuthUser) (nav : Answer Nodes) (tenants : Answer (List BoundTenantInfo))
      (w : AuthWorld)
      → TokenAgrees w
      → TokenAgrees (refresh_auth_session locale_le me nav tenants w)
  unfolding refresh_auth_session set_session_token
  agrees-refresh me nav tenants w h = elim (Bool-cases (has_text w.slice.token)) [
    | inl e ↦ rw e (
        agrees-refresh_with (load_remote_session locale_le me nav) tenants
          (heard tenants (heard nav (heard me (mark_refresh locale_le w.slice.user w))))
          (agrees-heard tenants _
            (agrees-heard nav _ (agrees-heard me _ (agrees-mark w.slice.user w h)))))
    | inr e ↦ rw e (inl refl)
  ]

  agrees-hydrate_row :
      (row : SessionRow) (w : AuthWorld) → TokenAgrees w → TokenAgrees (hydrate_row locale_le row w)
  unfolding set_session_token
  agrees-hydrate_row row w h =
      elim (Bool-cases (not (has_text row.token) && not (is_some row.user))) [
        | inl e ↦ rw e h
        | inr e ↦ rw e (inl refl)
      ]

  agrees-login :
      (token : String) (select : Option Bool) (me : Answer AuthUser) (nav : Answer Nodes)
      (tenants : Answer (List BoundTenantInfo)) (w : AuthWorld)
      → TokenAgrees ((apply_login_response locale_le token select me nav tenants w).1)
  unfolding apply_login_response set_session_token
  agrees-login token select me nav tenants w =
      agrees-enter (load_remote_session locale_le me nav) tenants _
        (agrees-heard nav _ (agrees-heard me _ (inl refl)))

  agrees-completed :
      (n : ℕ) (deletion : Deletion) (w : AuthWorld)
      → TokenAgrees w
      → TokenAgrees (completed n deletion w)
  unfolding reset set_session_token
  agrees-completed zero deletion w h = h
  agrees-completed (suc n) deletion w h = inl refl

  agrees-action :
      (a : AuthAction) (w : AuthWorld) → TokenAgrees w → TokenAgrees (run_action locale_le a w)
  unfolding run_action complete_session_end hydrate_auth_session login_auth_session
      register_auth_session logout_auth_session reset set_session_token switch_tenant_auth_session
  agrees-action hydrate w h = elim (Option-cases (read_session_row w)) [
    | inl e ↦ rw e h
    | inr (row, e) ↦ rw e (agrees-hydrate_row row w h)
  ]
  agrees-action (refresh me nav tenants) w h = agrees-refresh me nav tenants w h
  agrees-action (login (answer (token, select)) me nav tenants) w h =
      agrees-login token select me nav tenants w
  agrees-action (login (unauthorized over) me nav tenants) w h = agrees-heard_unauthorized over w h
  agrees-action (login failure me nav tenants) w h = h
  agrees-action (register name (answer (token, select, credentials)) me nav tenants) w h =
      agrees-login token select me nav tenants _
  agrees-action (register name (unauthorized over) me nav tenants) w h =
      agrees-heard_unauthorized over w h
  agrees-action (register name failure me nav tenants) w h = h
  agrees-action (logout response deletion) w h = inl refl
  agrees-action (other_request response) w h = agrees-heard response w h
  agrees-action (session_end_completed deletion) w h = agrees-completed w.ending deletion w h
  agrees-action (switch_tenant (answer u) me nav tenants) w h =
      agrees-enter (load_remote_session locale_le me nav) tenants _
        (agrees-heard nav _ (agrees-heard me w h))
  agrees-action (switch_tenant (unauthorized over) me nav tenants) w h =
      agrees-heard_unauthorized over w h
  agrees-action (switch_tenant failure me nav tenants) w h = h

  -- Whatever the requests answer, also where an answer ends the session, every sequence of session
  -- actions, of other requests and of completed ends of a session keeps that the token that requests
  -- carry is the token of the store, or is gone while an end of the session is still under way.
  pub run_actions-TokenAgrees :
      (actions : List AuthAction) (w : AuthWorld)
      → TokenAgrees w
      → TokenAgrees (run_actions locale_le actions w)
  unfolding run_actions
  run_actions-TokenAgrees [] w h = h
  run_actions-TokenAgrees (a ∷ actions) w h =
      run_actions-TokenAgrees actions (run_action locale_le a w) (agrees-action a w h)
