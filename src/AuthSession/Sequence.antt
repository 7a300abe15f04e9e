-- ===== src/AuthSession/Sequence.antt =====
-- stores/auth-store-actions.ts: the store's session actions, one after the other, with the answers of
-- other requests and the ends of a session that the API client starts (lib/session-expired.ts).
use omni_python_web_template.Base.{String, Bool, Option, List, [], ◌∷◌, nat_eq, string_eq}
use omni_python_web_template.Permissions.{Nodes}
use omni_python_web_template.AuthSession.{AuthUser, BoundTenantInfo, AuthWorld, Answer}
use omni_python_web_template.AuthSession.Lifecycle.{
  hydrate_auth_session, refresh_auth_session, login_auth_session, register_auth_session,
  logout_auth_session, switch_tenant_auth_session,
}
use omni_python_web_template.AuthSession.Storage.{heard, complete_session_end}
use omni_python_web_template.AuthSession.{Deletion}

-- The store's session actions, each with the answers it gets; the answer of any other request; and the
-- completion of an end of the session that is under way.
pub data AuthAction : Type 0 where
  hydrate : AuthAction
  refresh : Answer AuthUser → Answer Nodes → Answer (List BoundTenantInfo) → AuthAction
  login :
      Answer (String × Option Bool)
      → Answer AuthUser
      → Answer Nodes
      → Answer (List BoundTenantInfo)
      → AuthAction
  register :
      String
      → Answer (String × Option Bool × Option (String × String))
      → Answer AuthUser
      → Answer Nodes
      → Answer (List BoundTenantInfo)
      → AuthAction
  logout : Answer Unit → Deletion → AuthAction
  other_request : Answer Unit → AuthAction
  session_end_completed : Deletion → AuthAction
  switch_tenant :
      Answer Unit → Answer AuthUser → Answer Nodes → Answer (List BoundTenantInfo) → AuthAction

module _ (locale_le : String → String → Bool) where
  unfoldable pub run_action : AuthAction → AuthWorld → AuthWorld
  run_action hydrate w = hydrate_auth_session locale_le w
  run_action (refresh me nav tenants) w = refresh_auth_session locale_le me nav tenants w
  run_action (login response me nav tenants) w =
      (login_auth_session locale_le response me nav tenants w).1
  run_action (register name response me nav tenants) w =
      (register_auth_session locale_le name response me nav tenants w).1
  run_action (logout response deletion) w = logout_auth_session locale_le response deletion w
  run_action (other_request response) w = heard response w
  run_action (session_end_completed deletion) w = complete_session_end deletion w
  run_action (switch_tenant response me nav tenants) w =
      switch_tenant_auth_session locale_le response me nav tenants w

  unfoldable pub run_actions : List AuthAction → AuthWorld → AuthWorld
  run_actions [] w = w
  run_actions (a ∷ actions) w = run_actions actions (run_action a w)
