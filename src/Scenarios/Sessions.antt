-- ===== src/Scenarios/Sessions.antt =====
-- A user who signs in, whose session is refreshed, and who signs out.
use omni_python_web_template.Base.{
  String, ◌≡◌, refl, inl, ◌&&◌, List, Bool, true, false, none, some, [], ◌∷◌, nat_eq, string_eq,
}
use omni_python_web_template.Permissions.{Nodes, no_nodes}
use omni_python_web_template.AuthSession.{
  AuthUser, BoundTenantInfo, reopened, not_deleted, initial_state, AuthWorld, answer, unauthorized,
  failure,
}
use omni_python_web_template.AuthSession.Storage.{reset_state}
use omni_python_web_template.AuthSession.Lifecycle.{
  login_auth_session, hydrate_auth_session, refresh_auth_session, logout_auth_session,
}
use omni_python_web_template.AuthSession.Invariant.{identity, signed_in_as, continues, TokenAgrees}
use omni_python_web_template.AuthSession.Actions.{run_actions-TokenAgrees}
use omni_python_web_template.AuthSession.Reload.{
  reloaded, hydrate-login, refresh-failed, logout_lem,
}
use omni_python_web_template.AuthSession.Sequence.{
  session_end_completed, refresh, hydrate, login, logout, run_actions,
}

-- Any order of texts will do here.
abbrev any_collation : String → String → Bool
any_collation a b = true

abbrev alice : AuthUser
alice = record {
  id = 7;
  username = "alice";
  display_name = "Alice";
  avatar_url = none;
  roles = [];
  permissions = [];
  tenant_id = some 3;
  dept_id = none;
  need_tenant_select = none;
  tenant_expired = none;
}

abbrev fresh_page : AuthWorld
fresh_page = record {
  slice = initial_state;
  session_token = none;
  db_ready = true;
  row = none;
  device_nav = none;
  device_display = none;
  pending = none;
  ending = 0;
}

abbrev alice_page : AuthWorld
alice_page = record fresh_page {
  slice = record initial_state { token = some "t1"; user = some alice; loading = false };
  session_token = some "t1";
}

run_actions-TokenAgrees_example : TokenAgrees (
    run_actions any_collation
      (hydrate
        ∷ login (answer ("t1", none)) (answer alice) (answer no_nodes) (unauthorized true)
        ∷ refresh failure (unauthorized true) failure
        ∷ session_end_completed reopened
        ∷ logout failure not_deleted
        ∷ [])
      fresh_page)
run_actions-TokenAgrees_example =
    run_actions-TokenAgrees any_collation
      (hydrate
        ∷ login (answer ("t1", none)) (answer alice) (answer no_nodes) (unauthorized true)
        ∷ refresh failure (unauthorized true) failure
        ∷ session_end_completed reopened
        ∷ logout failure not_deleted
        ∷ [])
      fresh_page (inl refl)

hydrate-login_example :
    signed_in_as (
      hydrate_auth_session any_collation (
        reloaded (
          (login_auth_session any_collation
            (answer ("t1", none))
            (answer alice)
            (answer no_nodes)
            failure
            fresh_page).1)))
    ≡ (some "t1", some "t1", some alice)
hydrate-login_example =
    hydrate-login any_collation "t1" none alice no_nodes failure fresh_page refl refl

refresh-failed_example :
    (let kept = refresh_auth_session any_collation failure failure failure alice_page in
      ((continues {A = Nodes} failure && continues {A = List BoundTenantInfo} failure) ≡ true
        → (identity kept ≡ identity alice_page) × (kept.slice.nav_tree ≡ alice_page.slice.nav_tree))
      × ((continues {A = Nodes} failure && continues {A = List BoundTenantInfo} failure) ≡ false
          → kept.session_token ≡ none))
    × ((over : Bool)
        → let out =
            refresh_auth_session any_collation (unauthorized over) failure failure alice_page in
          (out.slice ≡ reset_state) × (out.session_token ≡ none))
refresh-failed_example = refresh-failed any_collation failure failure alice_page alice refl refl

logout_lem_example :
    (let out = logout_auth_session any_collation failure not_deleted alice_page in
      (out.slice ≡ reset_state)
      × (out.session_token ≡ none)
      × (out.pending ≡ none)
      × (out.device_nav ≡ none)
      × (out.device_display ≡ alice_page.device_display)
      × (hydrate_auth_session any_collation out ≡ out)
      × (out.row ≡ alice_page.row))
logout_lem_example = logout_lem any_collation failure not_deleted alice_page
