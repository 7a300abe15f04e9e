-- ===== src/AuthSession/Reload.antt =====
-- stores/auth-session-lifecycle.ts: how refresh and logout leave the session, and that a session that
-- was entered is there again when the page is loaded anew.
use omni_python_web_template.Base.{
  String, ◌≡◌, refl, inl, inr, ◌&&◌, Bool, true, false, Option, none, some, List, arith, ◌==◌,
  nat_eq, string_eq, Bool-cases,
}
use omni_python_web_template.Permissions.{Nodes}
use omni_python_web_template.AuthSession.{
  AuthUser, BoundTenantInfo, CachedTenantDisplay, SessionRow, AuthWorld, Answer, answer,
  unauthorized, failure, Deletion, reopened, deleted_only, not_deleted, has_text, is_without_tenant,
}
use omni_python_web_template.AuthSession.NavTree.{normalize_nav_tree}
use omni_python_web_template.AuthSession.Storage.{
  read_session_row, put_row, write_session_token, write_session_snapshot, write_tenant_display,
  clear_tenant_display, set_session_token, write_device_nav_tree, purge_local_session, reset,
  reset_state, set_tenant_display_cache, show_tenant, found_tenant, sync_for,
  sync_tenant_display_from_bound_tenants,
}
use omni_python_web_template.AuthSession.Lifecycle.{
  mark_refresh, with_tenants, load_remote_session, persist_session_nav, hydrate_auth_session,
  refresh_auth_session, apply_login_response, login_auth_session, logout_auth_session,
}
use omni_python_web_template.AuthSession.{initial_state}
use omni_python_web_template.AuthSession.Storage.{display_of, existing_row}
use omni_python_web_template.AuthSession.Lifecycle.{put_user, set_slice, settled, drop_token}
use omni_python_web_template.AuthSession.Storage.{heard}
use omni_python_web_template.Base.{ap, sym, ◌∙◌, subst, if◌then◌else◌}
use omni_python_web_template.AuthSession.Invariant.{
  identity, signed_in_as, browser-heard, continues, heard-continues, slice-heard,
  session_token-heard,
}

-- A refresh always ends with nothing loading, whatever the requests answer.
pub refresh-settled :
    (locale_le : String → String → Bool) (me : Answer AuthUser) (nav : Answer Nodes)
    (tenants : Answer (List BoundTenantInfo)) (w : AuthWorld)
    → (let s = (refresh_auth_session locale_le me nav tenants w).slice in
        (s.loading ≡ false) × (s.refreshing ≡ false))
unfolding refresh_auth_session set_session_token
refresh-settled locale_le me nav tenants w = elim (Bool-cases (has_text w.slice.token)) [
  | inl e ↦ rw e (refl, refl)
  | inr e ↦ rw e (refl, refl)
]

user-mark :
    (locale_le : String → String → Bool) (o : Option AuthUser) (w : AuthWorld)
    → (mark_refresh locale_le o w).slice.user ≡ w.slice.user
user-mark locale_le none w = refl
user-mark locale_le (some user) w = refl

identity-mark :
    (locale_le : String → String → Bool) (o : Option AuthUser) (w : AuthWorld)
    → identity (settled (mark_refresh locale_le o w)) ≡ identity w
identity-mark locale_le none w = refl
identity-mark locale_le (some user) w = refl

nav_tree-mark :
    (locale_le : String → String → Bool) (o : Option AuthUser) (w : AuthWorld)
    → (settled (mark_refresh locale_le o w)).slice.nav_tree ≡ w.slice.nav_tree
nav_tree-mark locale_le none w = refl
nav_tree-mark locale_le (some user) w = refl

drop_token-kept :
    (locale_le : String → String → Bool) (o : Option AuthUser) (user : AuthUser) (w : AuthWorld)
    → o ≡ some user
    → settled (drop_token locale_le o w) ≡ settled w
drop_token-kept locale_le o user w h = rw h refl

-- What a failed refresh leaves, with the answers that it heard
refresh-kept :
    (locale_le : String → String → Bool) (nav : Answer Nodes)
    (tenants : Answer (List BoundTenantInfo)) (w : AuthWorld) (user : AuthUser)
    → has_text w.slice.token ≡ true
    → w.slice.user ≡ some user
    → refresh_auth_session locale_le failure nav tenants w
      ≡ settled (heard tenants (heard nav (mark_refresh locale_le w.slice.user w)))
unfolding refresh_auth_session set_session_token load_remote_session
refresh-kept locale_le nav tenants w user has_token has_user =
    let start = mark_refresh locale_le w.slice.user w in
    let out = heard tenants (heard nav start) in
    let kept : out.slice.user ≡ some user =
      ap (λ s. s.user) (slice-heard tenants (heard nav start) ∙ slice-heard nav start)
      ∙ user-mark locale_le w.slice.user w
      ∙ has_user in
    let asked : refresh_auth_session locale_le failure nav tenants w
        ≡ settled (drop_token locale_le out.slice.user out) =
      rw has_token refl in
    asked ∙ drop_token-kept locale_le out.slice.user user out kept

-- With a token and a user in the store, a refresh whose user request fails for another reason than
-- status 401 keeps the tokens, the user and the tree, if none of the other answers ends the session;
-- if one of them does, no token is left for requests. A refresh whose user request fails with status
-- 401 signs out, whatever the other answers.
pub refresh-failed :
    (locale_le : String → String → Bool) (nav : Answer Nodes)
    (tenants : Answer (List BoundTenantInfo)) (w : AuthWorld) (user : AuthUser)
    → has_text w.slice.token ≡ true
    → w.slice.user ≡ some user
    → (let kept = refresh_auth_session locale_le failure nav tenants w in
        ((continues nav && continues tenants) ≡ true
          → (identity kept ≡ identity w) × (kept.slice.nav_tree ≡ w.slice.nav_tree))
        × ((continues nav && continues tenants) ≡ false → kept.session_token ≡ none))
      × ((over : Bool)
          → let out = refresh_auth_session locale_le (unauthorized over) nav tenants w in
            (out.slice ≡ reset_state) × (out.session_token ≡ none))
unfolding refresh_auth_session set_session_token load_remote_session reset
refresh-failed locale_le nav tenants w user has_token has_user =
    let start = mark_refresh locale_le w.slice.user w in
    let out = refresh-kept locale_le nav tenants w user has_token has_user in
    (
      (
        λ h.
            let quiet : heard tenants (heard nav start) ≡ start =
              ap (λ v. heard tenants v) (heard-continues nav start (ground arith))
              ∙ heard-continues tenants start (ground arith) in
            (
              ap identity (out ∙ ap settled quiet) ∙ identity-mark locale_le w.slice.user w,
              ap (λ v. v.slice.nav_tree) (out ∙ ap settled quiet)
                  ∙ nav_tree-mark locale_le w.slice.user w,
            ),
        λ h. ap (λ v. v.session_token) out ∙ elim (Bool-cases (continues tenants)) [
          | inl fine ↦
              session_token-heard tenants (heard nav start)
                (inr (session_token-heard nav start (inl (ground arith))))
          | inr over ↦ session_token-heard tenants (heard nav start) (inl over)
        ],
      ),
      λ over. rw has_token (refl, refl),
    )

abbrev pub is_deleted : Deletion → Bool
is_deleted reopened = true
is_deleted deleted_only = true
is_deleted not_deleted = false

-- After a logout, whatever the request answered and whatever became of the database, the store is
-- empty, requests carry no token, no credentials of a registration and no tree in the local storage
-- are kept, the device's tenant display stays, and hydrating the store again on this page finds no
-- session. The stored row, with its token and its tree, is gone exactly if the database was deleted;
-- otherwise it stays in the database as it was.
pub logout_lem :
    (locale_le : String → String → Bool) (response : Answer Unit) (deletion : Deletion)
    (w : AuthWorld)
    → (let out = logout_auth_session locale_le response deletion w in
        (out.slice ≡ reset_state)
        × (out.session_token ≡ none)
        × (out.pending ≡ none)
        × (out.device_nav ≡ none)
        × (out.device_display ≡ w.device_display)
        × (hydrate_auth_session locale_le out ≡ out)
        × (out.row ≡ (if is_deleted deletion then none else w.row)))
unfolding logout_auth_session reset purge_local_session set_session_token hydrate_auth_session
    read_session_row
logout_lem locale_le response reopened w =
    let (row, display) = browser-heard response w in (refl, refl, refl, refl, display, refl, refl)
logout_lem locale_le response deleted_only w =
    let (row, display) = browser-heard response w in (refl, refl, refl, refl, display, refl, refl)
logout_lem locale_le response not_deleted w =
    let (row, display) = browser-heard response w in (refl, refl, refl, refl, display, refl, row)

-- The stored row has this token and this user.
abbrev HasStored : Option String → Option AuthUser → AuthWorld → Type 0
HasStored token user w =
    (w.db_ready ≡ true)
    × ((row : SessionRow) × (w.row ≡ some row) × (row.token ≡ token) × (row.user ≡ user))

HasStored-put :
    (token : Option String) (user : Option AuthUser) (w : AuthWorld) (row : SessionRow)
    → w.db_ready ≡ true
    → row.token ≡ token
    → row.user ≡ user
    → HasStored token user (put_row w row)
HasStored-put token user w row ready t u = rw ready (refl, (row, refl, t, u))

HasStored-display :
    (token : Option String) (user : Option AuthUser) (d : CachedTenantDisplay) (w : AuthWorld)
    → HasStored token user w
    → HasStored token user (write_tenant_display d w)
unfolding write_tenant_display read_session_row
HasStored-display token user d w (ready, (row, e, t, u)) =
    rw (ready, e) (refl, (record row { tenant_display = some d }, refl, t, u))

HasStored-clear :
    (token : Option String) (user : Option AuthUser) (w : AuthWorld)
    → HasStored token user w
    → HasStored token user (clear_tenant_display w)
unfolding clear_tenant_display read_session_row
HasStored-clear token user w (ready, (row, e, t, u)) =
    rw (ready, e) (refl, (record row { tenant_display = none }, refl, t, u))

HasStored-sync :
    (token : Option String) (user : Option AuthUser) (w : AuthWorld)
    → HasStored token user w
    → HasStored token user (sync_tenant_display_from_bound_tenants w)
unfolding sync_tenant_display_from_bound_tenants set_tenant_display_cache
HasStored-sync token user w h = of_user w.slice.user w h
  where
    shown :
        (t : Option BoundTenantInfo) (v : AuthWorld)
        → HasStored token user v
        → HasStored token user (show_tenant t v)
    shown none v k = k
    shown (some t) v k =
        HasStored-display token user (display_of t)
          (set_tenant_display_cache (some (display_of t)) v) k

    of_user :
        (u : Option AuthUser) (v : AuthWorld)
        → HasStored token user v
        → HasStored token user (sync_for u v)
    of_user none v k = HasStored-clear token user (set_tenant_display_cache none v) k
    of_user (some u) v k = elim (Bool-cases (is_without_tenant u)) [
      | inl e ↦ rw e (HasStored-clear token user (set_tenant_display_cache none v) k)
      | inr e ↦ rw e (shown (found_tenant u v.slice.bound_tenants) v k)
    ]

HasStored-with_tenants :
    (token : Option String) (user : Option AuthUser) (tenants : Answer (List BoundTenantInfo))
    (w : AuthWorld)
    → HasStored token user w
    → HasStored token user (with_tenants tenants w)
HasStored-with_tenants token user (answer tenants) w h =
    HasStored-sync token user (set_slice (λ s. record s { bound_tenants = tenants }) w) h
HasStored-with_tenants token user (unauthorized over) w h = h
HasStored-with_tenants token user failure w h = h

HasStored-snapshot :
    (token : String) (user : AuthUser) (tree : Nodes) (w : AuthWorld)
    → w.db_ready ≡ true
    → (existing_row w.row).token ≡ some token
    → HasStored (some token) (some user) (write_session_snapshot user tree w)
unfolding write_session_snapshot read_session_row
HasStored-snapshot token user tree w ready t =
    rw ready
      (refl, (record (existing_row w.row) { user = some user; nav_tree = tree }, refl, t, refl))

db_ready-token :
    (token : String) (w : AuthWorld)
    → w.db_ready ≡ true
    → (write_session_token token w).db_ready ≡ true
unfolding write_session_token
db_ready-token token w ready = rw ready refl

row-token :
    (token : String) (w : AuthWorld)
    → w.db_ready ≡ true
    → (existing_row (write_session_token token w).row).token ≡ some token
unfolding write_session_token
row-token token w ready = rw ready refl

-- The page loaded anew: the store, the token of the requests and what was under way are lost, the
-- browser's data stay.
abbrev pub reloaded : AuthWorld → AuthWorld
reloaded w = record w { slice = initial_state; session_token = none; ending = 0 }

hydrate-HasStored :
    (locale_le : String → String → Bool) (token : String) (user : AuthUser) (w : AuthWorld)
    → HasStored (some token) (some user) w
    → signed_in_as (hydrate_auth_session locale_le w) ≡ (some token, some token, some user)
unfolding hydrate_auth_session read_session_row set_session_token
hydrate-HasStored locale_le token user w (ready, (row, e, t, u)) =
    rw (ready, e, t, u)
      (elim (Bool-cases (token == "")) [ inl empty ↦ rw empty refl | inr other ↦ rw other refl ])

-- A session that a login enters, with the user and the navigation answered, the database ready and a
-- request for the tenants that does not end the session, is there again when the page is loaded anew
-- right after it: the same token, in the store and for the requests, and the same user.
pub hydrate-login :
    (locale_le : String → String → Bool) (token : String) (need_select : Option Bool)
    (user : AuthUser) (tree : Nodes) (tenants : Answer (List BoundTenantInfo)) (w : AuthWorld)
    → w.db_ready ≡ true
    → continues tenants ≡ true
    → (let out =
          (login_auth_session locale_le
            (answer (token, need_select))
            (answer user)
            (answer tree)
            tenants
            w).1 in
        signed_in_as (hydrate_auth_session locale_le (reloaded out))
        ≡ (some token, some token, some user))
unfolding login_auth_session apply_login_response load_remote_session persist_session_nav
    write_device_nav_tree set_session_token
hydrate-login locale_le token need_select user tree tenants w ready quiet =
    let nav = normalize_nav_tree locale_le (normalize_nav_tree locale_le tree) in
    let signed_in =
      set_slice (λ s. record s { token = some token })
        (set_session_token (some token) (write_session_token token w)) in
    let cached = write_device_nav_tree user.id user.tenant_id nav (put_user user nav signed_in) in
    let stored = write_session_snapshot user nav cached in
    hydrate-HasStored locale_le token user _ (
      HasStored-with_tenants (some token) (some user) tenants (heard tenants stored) (
        subst (HasStored (some token) (some user)) (sym (heard-continues tenants stored quiet)) (
          HasStored-snapshot token user nav cached (db_ready-token token w ready)
            (row-token token w ready))))
