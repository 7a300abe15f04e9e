-- ===== src/AuthSession/Storage.antt =====
-- db/session-repo.ts, lib/session-token.ts, lib/tenant-display.ts, lib/purge-local-data.ts and
-- lib/session-expired.ts: what the session reads from and writes to the browser, and how it is cleared.
use omni_python_web_template.Base.{
  ℕ, String, true, false, Option, none, some, List, [], ◌∷◌, ◌+◌, zero, suc, if◌then◌else◌, ◌==◌,
  nat_eq, string_eq, find?,
}
use omni_python_web_template.Base.Collections.{includes}
use omni_python_web_template.Permissions.{Nodes}
use omni_python_web_template.AuthSession.{
  AuthUser, BoundTenantInfo, CachedTenantDisplay, AuthSessionSlice, initial_state, SessionRow,
  empty_session, AuthWorld, Answer, answer, unauthorized, failure, Deletion, reopened, deleted_only,
  not_deleted, is_without_tenant, same_number,
}
use omni_python_web_template.AuthSession.{Bool}

unfoldable pub read_session_row : AuthWorld → Option SessionRow
read_session_row w = if w.db_ready then w.row else none

abbrev pub existing_row : Option SessionRow → SessionRow
existing_row none = empty_session
existing_row (some row) = row

abbrev pub put_row : AuthWorld → SessionRow → AuthWorld
put_row w row = if w.db_ready then record w { row = some row } else w

unfoldable pub write_session_token : String → AuthWorld → AuthWorld
write_session_token token w =
    put_row w (record (existing_row (read_session_row w)) { token = some token })

unfoldable pub write_session_snapshot : AuthUser → Nodes → AuthWorld → AuthWorld
write_session_snapshot user tree w =
    put_row w (record (existing_row (read_session_row w)) { user = some user; nav_tree = tree })

unfoldable pub write_tenant_display : CachedTenantDisplay → AuthWorld → AuthWorld
write_tenant_display display w =
    put_row w (record (existing_row (read_session_row w)) { tenant_display = some display })

abbrev pub without_display : Option SessionRow → AuthWorld → AuthWorld
without_display none w = w
without_display (some row) w = put_row w (record row { tenant_display = none })

unfoldable pub clear_tenant_display : AuthWorld → AuthWorld
clear_tenant_display w = without_display (read_session_row w) w

unfoldable pub set_session_token : Option String → AuthWorld → AuthWorld
set_session_token token w = record w { session_token = token }

-- `authHeaders()`: the value of the `Authorization` header, if there is one.
unfoldable pub auth_headers : AuthWorld → Option String
auth_headers w = elim w.session_token [
  | none ↦ none
  | some token ↦ if token == "" then none else some token
]

unfoldable pub write_device_nav_tree : ℕ → Option ℕ → Nodes → AuthWorld → AuthWorld
write_device_nav_tree user_id tenant_id tree w = record w {
  device_nav = some (record { user_id = user_id; tenant_id = tenant_id; nav_tree = tree });
}

abbrev pub matching_display : Option ℕ → Option CachedTenantDisplay → Option CachedTenantDisplay
matching_display tenant_id none = none
matching_display tenant_id (some cached) =
    if same_number tenant_id cached.tenant_id then some cached else none

unfoldable pub read_cached_tenant_display_for_user :
    AuthUser → Option CachedTenantDisplay → Option CachedTenantDisplay
read_cached_tenant_display_for_user user cache =
    if is_without_tenant user then none else matching_display user.tenant_id cache

abbrev pub found_tenant : AuthUser → List BoundTenantInfo → Option BoundTenantInfo
found_tenant user tenants = find? (λ t. same_number user.tenant_id t.id) tenants

abbrev pub display_of : BoundTenantInfo → CachedTenantDisplay
display_of t = record { tenant_id = t.id; name = t.name; code = t.code }

abbrev pub listed_or_cached :
    Option BoundTenantInfo → Option CachedTenantDisplay → Option CachedTenantDisplay
listed_or_cached none cached = cached
listed_or_cached (some t) cached = some (display_of t)

unfoldable pub resolve_current_tenant_display :
    Option AuthUser → List BoundTenantInfo → Option CachedTenantDisplay → Option CachedTenantDisplay
resolve_current_tenant_display none tenants cached = none
resolve_current_tenant_display (some user) tenants cached =
    if is_without_tenant user
    then none
    else listed_or_cached (found_tenant user tenants) (matching_display user.tenant_id cached)

-- `deleteAppDb` and `openAppDb`: a database that could not be deleted is closed and used no more.
abbrev pub reset_app_db : Deletion → AuthWorld → AuthWorld
reset_app_db reopened w = record w { row = none; db_ready = true }
reset_app_db deleted_only w = record w { row = none; db_ready = false }
reset_app_db not_deleted w = record w { db_ready = false }

abbrev pub device_ls_allowlist : List String
device_ls_allowlist =
    "omni-timezone" ∷ "omni-datetime-format" ∷ "omni-theme" ∷ "omni-tenant-display"
    ∷ "omni-sidebar-layout" ∷ []

-- One key of `clearLocalStorageExceptAllowlist`, which may be read and written here
abbrev pub cleared {ℓ} : {A : Type ℓ} → String → Option A → Option A
cleared key value = if includes key device_ls_allowlist then value else none

-- Of the local storage, which can be written here, two keys are in the model: the navigation tree and
-- the tenant display.
unfoldable pub purge_local_session : Deletion → AuthWorld → AuthWorld
purge_local_session deletion w =
    let emptied = reset_app_db deletion w in
    record emptied {
      device_nav = cleared "omni-nav-tree" w.device_nav;
      device_display = cleared "omni-tenant-display" w.device_display;
    }

abbrev pub reset_state : AuthSessionSlice
reset_state = record initial_state { loading = false; refreshing = false }

unfoldable pub reset : AuthWorld → AuthWorld
reset w = record (set_session_token none w) { slice = reset_state }

-- `handleSessionExpired`, with the handler that the store registers, when it has completed
unfoldable pub handle_session_expired : Deletion → AuthWorld → AuthWorld
handle_session_expired deletion w = reset (purge_local_session deletion (set_session_token none w))

-- What an answer does as it arrives: a status 401 that ends the session clears the token of the
-- requests at once, and the rest of `handleSessionExpired` is under way.
abbrev pub heard_unauthorized : Bool → AuthWorld → AuthWorld
heard_unauthorized true w = record (set_session_token none w) { ending = w.ending + 1 }
heard_unauthorized false w = w

abbrev pub heard : {A : Type 0} → Answer A → AuthWorld → AuthWorld
heard (answer a) w = w
heard (unauthorized over) w = heard_unauthorized over w
heard failure w = w

-- The rest of `handleSessionExpired`, if one is under way
abbrev pub completed : ℕ → Deletion → AuthWorld → AuthWorld
completed zero deletion w = w
completed (suc n) deletion w = reset (purge_local_session deletion (record w { ending = n }))

unfoldable pub complete_session_end : Deletion → AuthWorld → AuthWorld
complete_session_end deletion w = completed w.ending deletion w

unfoldable pub set_tenant_display_cache : Option CachedTenantDisplay → AuthWorld → AuthWorld
set_tenant_display_cache display w = record w {
  slice = record (w.slice) { tenant_display_cache = display };
}

abbrev pub show_tenant : Option BoundTenantInfo → AuthWorld → AuthWorld
show_tenant none w = w
show_tenant (some t) w =
    record (write_tenant_display (display_of t)
      (set_tenant_display_cache (some (display_of t)) w)) { device_display = some (display_of t) }

abbrev pub sync_for : Option AuthUser → AuthWorld → AuthWorld
sync_for none w = clear_tenant_display (set_tenant_display_cache none w)
sync_for (some user) w =
    if is_without_tenant user
    then clear_tenant_display (set_tenant_display_cache none w)
    else show_tenant (found_tenant user w.slice.bound_tenants) w

unfoldable pub sync_tenant_display_from_bound_tenants : AuthWorld → AuthWorld
sync_tenant_display_from_bound_tenants w = sync_for w.slice.user w
