-- ===== src/AuthSession.antt =====
-- stores/auth-session-lifecycle.ts and stores/auth-store-actions.ts: the signed-in session, with the
-- token of lib/session-token.ts, the stored row of db/session-repo.ts and the device's caches.
pub mod NavTree
pub mod Storage
pub mod Lifecycle
pub mod Sequence
pub mod Invariant
pub mod Actions
pub mod Reload
use omni_python_web_template.Base.{
  ℕ, zero, suc, ◌+◌, ◌-◌, ◌*◌, ◌/◌, ◌%◌, ◌≤◌, ◌<◌, min, max, String, ◌≡◌, refl, sym, ap, ◌∙◌, subst,
  ◌≢◌, ◌↔◌, ◌⊎◌, inl, inr, Bool, true, false, not, ◌&&◌, ◌||◌, Option, none, some, List, [], ◌∷◌,
  ◌++◌, map, append-nil, append_assoc, map-append, arith, ltb, leb, if◌then◌else◌, Eq, ◌==◌, nat_eq,
  string_eq, Bool-cases, Option-cases, or_true_cases, and_true_parts, beq_refl, beq_sym, length,
  take, drop, get_elem?, filter, find?, any, all, All, length-append, take-append-drop, length-take,
  length-drop, take_of_length_le, length-map, filter-append, length-filter-le, filter-filter,
  All-append, All-filter_self, sum_of, sum_of-append, is_nil, sum_of-map, All-map,
}
use omni_python_web_template.Base.Collections.{
  includes, IsNodup, set_add, set_add_all, set_of, set_delete, set_delete_all, includes-append,
  includes-filter, includes-set_add, includes-set_add_all, includes-set_delete,
  includes-set_delete_all, IsNodup-append_one, set_add-IsNodup, set_add_all-IsNodup, filter-IsNodup,
  lookup, insert, remove, keys, lookup-insert, lookup-remove, includes-keys-insert,
  keys-insert_of_includes, lookup_cases, keys-insert, lookup_absent, map_ext, All-of_includes,
  All-includes, filter_of_All, set_add_all_of_All,
}
use omni_python_web_template.Permissions.{Nodes, no_nodes}

pub record AuthUser : Type 0 where
  pub id : ℕ
  pub username : String
  pub display_name : String
  pub avatar_url : Option String
  pub roles : List String
  pub permissions : List String
  pub tenant_id : Option ℕ
  pub dept_id : Option ℕ
  pub need_tenant_select : Option Bool
  pub tenant_expired : Option Bool

-- The fields of `BoundTenantInfo` that the store reads.
pub record BoundTenantInfo : Type 0 where
  pub id : ℕ
  pub name : String
  pub code : String

pub record CachedTenantDisplay : Type 0 where
  pub tenant_id : ℕ
  pub name : String
  pub code : String

pub record AuthSessionSlice : Type 0 where
  pub token : Option String
  pub user : Option AuthUser
  pub nav_tree : Nodes
  pub bound_tenants : List BoundTenantInfo
  pub tenant_display_cache : Option CachedTenantDisplay
  pub loading : Bool
  pub refreshing : Bool

abbrev pub initial_state : AuthSessionSlice
initial_state = record {
  token = none;
  user = none;
  nav_tree = no_nodes;
  bound_tenants = [];
  tenant_display_cache = none;
  loading = true;
  refreshing = false;
}

pub record SessionRow : Type 0 where
  pub token : Option String
  pub user : Option AuthUser
  pub nav_tree : Nodes
  pub tenant_display : Option CachedTenantDisplay

abbrev pub empty_session : SessionRow
empty_session = record { token = none; user = none; nav_tree = no_nodes; tenant_display = none }

-- `DEVICE_NAV_TREE_KEY`: the tree of one user in one tenant.
pub record CachedNavTree : Type 0 where
  pub user_id : ℕ
  pub tenant_id : Option ℕ
  pub nav_tree : Nodes

pub record PendingCredentials : Type 0 where
  pub username : String
  pub password : String
  pub site_name : String

-- The store, the token that requests carry, and what is kept in the browser. The database is either
-- ready and keeps what is put, or not and keeps nothing. `ending` counts the ends of a session whose
-- handler (`handleSessionExpired`) has not completed yet.
pub record AuthWorld : Type 0 where
  pub slice : AuthSessionSlice
  pub session_token : Option String
  pub db_ready : Bool
  pub row : Option SessionRow
  pub device_nav : Option CachedNavTree
  pub device_display : Option CachedTenantDisplay
  pub pending : Option PendingCredentials
  pub ending : ℕ

-- What became of the database: deleted and opened again, deleted only, or still there.
pub data Deletion : Type 0 where
  reopened deleted_only not_deleted : Deletion

-- A request's answer: a value, an `ApiError` of status 401 with whether it ends the session, or any
-- other failure.
pub data Answer (A : Type 0) : Type 0 where
  answer : A → Answer A
  unauthorized : Bool → Answer A
  failure : Answer A

-- Strings and numbers as conditions: the empty string and 0 are false.
abbrev pub has_text : Option String → Bool
has_text none = false
has_text (some s) = not (s == "")

abbrev pub has_number : Option ℕ → Bool
has_number none = false
has_number (some n) = not (n == 0)

abbrev pub is_true : Option Bool → Bool
is_true none = false
is_true (some b) = b

abbrev pub is_some {ℓ} : {A : Type ℓ} → Option A → Bool
is_some none = false
is_some (some a) = true

abbrev pub same_number : Option ℕ → ℕ → Bool
same_number none n = false
same_number (some m) n = m == n

-- `!user?.tenant_id || user.need_tenant_select`
abbrev pub is_without_tenant : AuthUser → Bool
is_without_tenant user = not (has_number user.tenant_id) || is_true user.need_tenant_select
