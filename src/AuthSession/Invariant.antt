-- ===== src/AuthSession/Invariant.antt =====
-- stores/auth-session-lifecycle.ts: the token of the requests is the token of the store, and how
-- each operation leaves the session.
use omni_python_web_template.Base.{
  ℕ, ◌<◌, ◌⊎◌, Bool, true, false, not, arith, subst, String, ◌≡◌, refl, sym, ap, ◌∙◌, inl, inr,
  Option, none, some, List, nat_eq, string_eq, Bool-cases, Option-cases,
}
use omni_python_web_template.Permissions.{Nodes}
use omni_python_web_template.AuthSession.{
  AuthUser, BoundTenantInfo, CachedTenantDisplay, SessionRow, AuthWorld, Answer, answer,
  unauthorized, failure, is_without_tenant,
}
use omni_python_web_template.AuthSession.Storage.{
  read_session_row, put_row, write_session_token, write_session_snapshot, write_tenant_display,
  clear_tenant_display, set_tenant_display_cache, show_tenant, found_tenant, sync_for,
  sync_tenant_display_from_bound_tenants,
}
use omni_python_web_template.AuthSession.Lifecycle.{with_tenants}
use omni_python_web_template.AuthSession.Storage.{set_session_token}
use omni_python_web_template.AuthSession.{ℕ}
use omni_python_web_template.AuthSession.{true}
use omni_python_web_template.AuthSession.{subst}
use omni_python_web_template.AuthSession.{Bool}
use omni_python_web_template.AuthSession.Storage.{heard}
use omni_python_web_template.AuthSession.{not}
use omni_python_web_template.AuthSession.{arith}
use omni_python_web_template.AuthSession.Storage.{heard_unauthorized}

-- The part of the state that storage does not touch: the token of the requests, and the store's
-- token and user, and the ends of a session under way.
abbrev pub identity : AuthWorld → Option String × Option String × Option AuthUser × ℕ
identity w = (w.session_token, w.slice.token, w.slice.user, w.ending)

-- Who is signed in: the token of the requests, and the store's token and user.
abbrev pub signed_in_as : AuthWorld → Option String × Option String × Option AuthUser
signed_in_as w = (w.session_token, w.slice.token, w.slice.user)

identity-put_row : (w : AuthWorld) (row : SessionRow) → identity (put_row w row) ≡ identity w
identity-put_row w row = elim (Bool-cases w.db_ready) [ inl e ↦ rw e refl | inr e ↦ rw e refl ]

pub identity-clear_tenant_display : (w : AuthWorld) → identity (clear_tenant_display w) ≡ identity w
unfolding clear_tenant_display
identity-clear_tenant_display w = elim (Option-cases (read_session_row w)) [
  | inl e ↦ rw e refl
  | inr (row, e) ↦ rw e (identity-put_row w _)
]

pub identity-write_session_snapshot :
    (user : AuthUser) (tree : Nodes) (w : AuthWorld)
    → identity (write_session_snapshot user tree w) ≡ identity w
unfolding write_session_snapshot
identity-write_session_snapshot user tree w = identity-put_row w _

identity-write_session_token :
    (token : String) (w : AuthWorld) → identity (write_session_token token w) ≡ identity w
unfolding write_session_token
identity-write_session_token token w = identity-put_row w _

identity-write_tenant_display :
    (d : CachedTenantDisplay) (w : AuthWorld) → identity (write_tenant_display d w) ≡ identity w
unfolding write_tenant_display
identity-write_tenant_display d w = identity-put_row w _

-- Synchronising the tenant's display changes neither the tokens nor the user.
pub identity-sync :
    (w : AuthWorld) → identity (sync_tenant_display_from_bound_tenants w) ≡ identity w
unfolding sync_tenant_display_from_bound_tenants set_tenant_display_cache
identity-sync w = of_user w.slice.user w
  where
    shown : (t : Option BoundTenantInfo) (v : AuthWorld) → identity (show_tenant t v) ≡ identity v
    shown none v = refl
    shown (some t) v = identity-write_tenant_display _ _

    of_user : (user : Option AuthUser) (v : AuthWorld) → identity (sync_for user v) ≡ identity v
    of_user none v = identity-clear_tenant_display _
    of_user (some user) v = elim (Bool-cases (is_without_tenant user)) [
      | inl e ↦ rw e (identity-clear_tenant_display _)
      | inr e ↦ rw e (shown (found_tenant user v.slice.bound_tenants) v)
    ]

-- Completing a session with the tenants changes neither the tokens nor the user.
pub identity-with_tenants :
    (tenants : Answer (List BoundTenantInfo)) (w : AuthWorld)
    → identity (with_tenants tenants w) ≡ identity w
identity-with_tenants (answer tenants) w = identity-sync _
identity-with_tenants (unauthorized over) w = refl
identity-with_tenants failure w = refl

-- The requests carry the token of the store, or no token while an end of the session is under way.
abbrev pub TokenAgrees : AuthWorld → Type 0
TokenAgrees w = (w.session_token ≡ w.slice.token) ⊎ ((w.session_token ≡ none) × (0 < w.ending))

pub agrees_of_identity : (w v : AuthWorld) → identity w ≡ identity v → TokenAgrees v → TokenAgrees w
agrees_of_identity w v e (inl h) = inl (ap (λ i. i.0) e ∙ h ∙ sym (ap (λ i. i.1) e))
agrees_of_identity w v e (inr (gone, busy)) =
    inr (ap (λ i. i.0) e ∙ gone, subst (λ n. 0 < n) (sym (ap (λ i. i.3) e)) busy)

-- No answer breaks this.
pub agrees-heard_unauthorized :
    (over : Bool) (w : AuthWorld) → TokenAgrees w → TokenAgrees (heard_unauthorized over w)
unfolding set_session_token
agrees-heard_unauthorized true w h = inr (refl, omega arith)
agrees-heard_unauthorized false w h = h

pub agrees-heard :
    {A : Type 0} → (a : Answer A) (w : AuthWorld) → TokenAgrees w → TokenAgrees (heard a w)
agrees-heard (answer a) w h = h
agrees-heard (unauthorized over) w h = agrees-heard_unauthorized over w h
agrees-heard failure w h = h

-- An answer that does not end the session
abbrev pub continues : {A : Type 0} → Answer A → Bool
continues (answer a) = true
continues (unauthorized over) = not over
continues failure = true

pub heard-continues :
    {A : Type 0} → (a : Answer A) (w : AuthWorld) → continues a ≡ true → heard a w ≡ w
heard-continues (answer a) w h = refl
heard-continues (unauthorized true) w h = absurd (ground arith)
heard-continues (unauthorized false) w h = refl
heard-continues failure w h = refl

pub slice-heard : {A : Type 0} → (a : Answer A) (w : AuthWorld) → (heard a w).slice ≡ w.slice
unfolding set_session_token
slice-heard (answer a) w = refl
slice-heard (unauthorized true) w = refl
slice-heard (unauthorized false) w = refl
slice-heard failure w = refl

pub session_token-heard :
    {A : Type 0}
    → (a : Answer A) (w : AuthWorld) → (continues a ≡ false) ⊎ (w.session_token ≡ none)
    → (heard a w).session_token ≡ none
unfolding set_session_token
session_token-heard (answer a) w (inl h) = absurd (ground arith)
session_token-heard (answer a) w (inr h) = h
session_token-heard (unauthorized true) w h = refl
session_token-heard (unauthorized false) w (inl h) = absurd (ground arith)
session_token-heard (unauthorized false) w (inr h) = h
session_token-heard failure w (inl h) = absurd (ground arith)
session_token-heard failure w (inr h) = h

-- An answer writes nothing.
pub browser-heard :
    {A : Type 0}
    → (a : Answer A) (w : AuthWorld)
    → ((heard a w).row ≡ w.row) × ((heard a w).device_display ≡ w.device_display)
unfolding set_session_token
browser-heard (answer a) w = (refl, refl)
browser-heard (unauthorized true) w = (refl, refl)
browser-heard (unauthorized false) w = (refl, refl)
browser-heard failure w = (refl, refl)
