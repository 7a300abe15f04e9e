-- ===== src/AuthSession/Lifecycle.antt =====
-- stores/auth-session-lifecycle.ts: hydration, refresh, login, registration, logout and the switch of
-- the tenant. The answers of the requests are arguments, in the order in which they are awaited. An
-- answer that ends the session does so by `heard`; what it starts completes after the action.
use omni_python_web_template.Base.{
  String, Bool, true, false, not, ◌&&◌, Option, none, some, List, [], if◌then◌else◌, ◌==◌, nat_eq,
  string_eq,
}
use omni_python_web_template.Base.Text.{trim}
use omni_python_web_template.Permissions.{Nodes, no_nodes}
use omni_python_web_template.AuthSession.{
  AuthUser, BoundTenantInfo, CachedTenantDisplay, AuthSessionSlice, SessionRow, AuthWorld, Answer,
  answer, unauthorized, failure, Deletion, has_text, is_some, is_true,
}
use omni_python_web_template.AuthSession.NavTree.{
  is_empty_tree, normalize_nav_tree, nav_trees_equal, resolve_hydrated_nav_tree,
}
use omni_python_web_template.AuthSession.Storage.{
  heard, read_session_row, write_session_token, write_session_snapshot, set_session_token,
  write_device_nav_tree, read_cached_tenant_display_for_user, purge_local_session, reset,
  reset_state, sync_tenant_display_from_bound_tenants,
}
use omni_python_web_template.AuthSession.Storage.{heard_unauthorized}

-- `set(partial)`
abbrev pub set_slice : (AuthSessionSlice → AuthSessionSlice) → AuthWorld → AuthWorld
set_slice f w = record w { slice = f w.slice }

abbrev pub settled : AuthWorld → AuthWorld
settled w = set_slice (λ s. record s { loading = false; refreshing = false }) w

abbrev pub put_user : AuthUser → Nodes → AuthWorld → AuthWorld
put_user user tree w = set_slice (λ s. record s { user = some user; nav_tree = tree }) w

abbrev pub or_tenants : Answer (List BoundTenantInfo) → List BoundTenantInfo
or_tenants (answer tenants) = tenants
or_tenants _ = []

-- `catch` of the tenants' request: no tenants, and the display stays.
abbrev pub with_tenants : Answer (List BoundTenantInfo) → AuthWorld → AuthWorld
with_tenants (answer tenants) w =
    sync_tenant_display_from_bound_tenants (set_slice (λ s. record s { bound_tenants = tenants }) w)
with_tenants _ w = set_slice (λ s. record s { bound_tenants = [] }) w

module _ (locale_le : String → String → Bool) where
  unfoldable pub load_remote_session : Answer AuthUser → Answer Nodes → Answer (AuthUser × Nodes)
  load_remote_session (unauthorized over) nav = unauthorized over
  load_remote_session failure nav = failure
  load_remote_session (answer user) (answer tree) = answer (user, normalize_nav_tree locale_le tree)
  load_remote_session (answer user) (unauthorized over) = unauthorized over
  load_remote_session (answer user) failure = answer (user, no_nodes)

  unfoldable pub persist_session_nav : AuthUser → Nodes → AuthWorld → AuthWorld
  persist_session_nav user tree w =
      write_session_snapshot user tree (write_device_nav_tree user.id user.tenant_id tree w)

  unfoldable pub apply_remote_session :
      AuthUser → Nodes → List BoundTenantInfo → AuthWorld → AuthWorld
  apply_remote_session user tree tenants w =
      let remote = normalize_nav_tree locale_le tree in
      let changed = not (nav_trees_equal locale_le w.slice.nav_tree remote) in
      let shown =
        set_slice
          (λ s. record s {
            user = some user;
            bound_tenants = tenants;
            nav_tree = if changed then remote else s.nav_tree;
          })
          w in
      let cached =
        if changed then write_device_nav_tree user.id user.tenant_id remote shown else shown in
      sync_tenant_display_from_bound_tenants (write_session_snapshot user remote cached)

  abbrev pub or_device :
      Option CachedTenantDisplay → Option CachedTenantDisplay → Option CachedTenantDisplay
  or_device none device = device
  or_device (some d) device = some d

  abbrev pub hydrated_display :
      AuthWorld → SessionRow → Option AuthUser → Option CachedTenantDisplay
  hydrated_display w row none = w.device_display
  hydrated_display w row (some user) =
      or_device (read_cached_tenant_display_for_user user row.tenant_display) w.device_display

  abbrev pub hydrated_tree : AuthWorld → SessionRow → Option AuthUser → Nodes
  hydrated_tree w row none = normalize_nav_tree locale_le row.nav_tree
  hydrated_tree w row (some user) =
      resolve_hydrated_nav_tree locale_le w.device_nav user.id user.tenant_id row.nav_tree

  -- The tree shown is written back, to the row only if it differs.
  abbrev pub write_back : SessionRow → Nodes → Option AuthUser → AuthWorld → AuthWorld
  write_back row tree none w = w
  write_back row tree (some user) w =
      let cached = write_device_nav_tree user.id user.tenant_id tree w in
      if is_empty_tree tree
      then w
      else if not (nav_trees_equal locale_le tree row.nav_tree)
      then write_session_snapshot user tree cached
      else cached

  abbrev pub hydrate_row : SessionRow → AuthWorld → AuthWorld
  hydrate_row row w =
      let display = hydrated_display w row row.user in
      let tree = hydrated_tree w row row.user in
      let w' = set_session_token row.token (write_back row tree row.user w) in
      if not (has_text row.token) && not (is_some row.user)
      then settled w
      else set_slice
          (λ s. record s {
            token = row.token;
            user = row.user;
            nav_tree = tree;
            tenant_display_cache = display;
            loading = not (is_some row.user);
            refreshing = has_text row.token;
          })
          w'

  abbrev pub hydrate_found : Option SessionRow → AuthWorld → AuthWorld
  hydrate_found none w = settled w
  hydrate_found (some row) w = hydrate_row row w

  unfoldable pub hydrate_auth_session : AuthWorld → AuthWorld
  hydrate_auth_session w = hydrate_found (read_session_row w) w

  abbrev pub mark_refresh : Option AuthUser → AuthWorld → AuthWorld
  mark_refresh none w = set_slice (λ s. record s { loading = true }) w
  mark_refresh (some user) w = set_slice (λ s. record s { refreshing = true }) w

  abbrev pub drop_token : Option AuthUser → AuthWorld → AuthWorld
  drop_token none w = set_slice (λ s. record s { token = none }) (set_session_token none w)
  drop_token (some user) w = w

  abbrev pub refresh_with :
      Answer (AuthUser × Nodes) → Answer (List BoundTenantInfo) → AuthWorld → AuthWorld
  refresh_with (answer (user, tree)) tenants w =
      apply_remote_session user tree (or_tenants tenants) w
  refresh_with (unauthorized over) tenants w = reset w
  refresh_with failure tenants w = drop_token w.slice.user w

  unfoldable pub refresh_auth_session :
      Answer AuthUser → Answer Nodes → Answer (List BoundTenantInfo) → AuthWorld → AuthWorld
  refresh_auth_session me nav tenants w =
      let asked = heard tenants (heard nav (heard me (mark_refresh w.slice.user w))) in
      let signed_out = record (set_session_token none w) { slice = reset_state } in
      if not (has_text w.slice.token)
      then signed_out
      else settled (refresh_with (load_remote_session me nav) tenants asked)

  -- The end of `applyLoginResponse`: the session is shown, stored and completed with the tenants.
  abbrev pub enter_session :
      Answer (AuthUser × Nodes) → Answer (List BoundTenantInfo) → AuthWorld → AuthWorld
  enter_session (answer (user, tree)) tenants w =
      let nav = normalize_nav_tree locale_le tree in
      with_tenants tenants (heard tenants (persist_session_nav user nav (put_user user nav w)))
  enter_session (unauthorized over) tenants w = w
  enter_session failure tenants w = w

  abbrev pub needs_select : Option Bool → Answer (AuthUser × Nodes) → Answer Bool
  needs_select (some b) (answer s) = answer b
  needs_select none (answer (user, tree)) = answer (is_true user.need_tenant_select)
  needs_select given (unauthorized over) = unauthorized over
  needs_select given failure = failure

  unfoldable pub apply_login_response :
      String
      → Option Bool
      → Answer AuthUser
      → Answer Nodes
      → Answer (List BoundTenantInfo)
      → AuthWorld
      → Answer Bool × AuthWorld
  apply_login_response token need_select me nav tenants w =
      let signed_in =
        set_slice (λ s. record s { token = some token })
          (set_session_token (some token) (write_session_token token w)) in
      let session = load_remote_session me nav in
      (
        needs_select need_select session,
        enter_session session tenants (heard nav (heard me signed_in)),
      )

  -- `need_tenant_select` of the login's answer comes with its token.
  unfoldable pub login_auth_session :
      Answer (String × Option Bool)
      → Answer AuthUser
      → Answer Nodes
      → Answer (List BoundTenantInfo)
      → AuthWorld
      → Answer Bool × AuthWorld
  login_auth_session (answer (token, need_select)) me nav tenants w =
      apply_login_response token need_select me nav tenants w
  login_auth_session (unauthorized over) me nav tenants w =
      (unauthorized over, heard_unauthorized over w)
  login_auth_session failure me nav tenants w = (failure, w)

  -- The credentials are kept, if both are given, before the session is entered.
  abbrev pub stash : Option (String × String) → String → AuthWorld → AuthWorld
  stash none name w = w
  stash (some (username, password)) name w =
      if not (username == "") && not (password == "")
      then record w {
        pending = some (record { username = username; password = password; site_name = trim name });
      }
      else w

  unfoldable pub register_auth_session :
      String
      → Answer (String × Option Bool × Option (String × String))
      → Answer AuthUser
      → Answer Nodes
      → Answer (List BoundTenantInfo)
      → AuthWorld
      → Answer Bool × AuthWorld
  register_auth_session name (answer (token, need_select, credentials)) me nav tenants w =
      apply_login_response token need_select me nav tenants (stash credentials name w)
  register_auth_session name (unauthorized over) me nav tenants w =
      (unauthorized over, heard_unauthorized over w)
  register_auth_session name failure me nav tenants w = (failure, w)

  unfoldable pub logout_auth_session : Answer Unit → Deletion → AuthWorld → AuthWorld
  logout_auth_session response deletion w =
      reset (purge_local_session deletion (record (heard response w) { pending = none }))

  unfoldable pub switch_tenant_auth_session :
      Answer Unit
      → Answer AuthUser
      → Answer Nodes
      → Answer (List BoundTenantInfo)
      → AuthWorld
      → AuthWorld
  switch_tenant_auth_session (answer u) me nav tenants w =
      enter_session (load_remote_session me nav) tenants (heard nav (heard me w))
  switch_tenant_auth_session (unauthorized over) me nav tenants w = heard_unauthorized over w
  switch_tenant_auth_session failure me nav tenants w = w
