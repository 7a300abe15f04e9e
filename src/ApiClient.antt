-- ===== src/ApiClient.antt =====
-- The requests of the program (web/src/lib/api/client.ts), which may end a session: which requests
-- are sent, with which headers, and what an answer does to the session. Addresses, methods and messages
-- are lists of code units. The answer is given with its request: `fetch` is the browser's. A request
-- that gets no answer at all is left out: `fetch` throws and nothing more is done.
pub mod Guards
pub mod Sessions
use omni_python_web_template.Base.{
  ℕ, zero, suc, ◌+◌, ◌-◌, ◌*◌, ◌/◌, ◌%◌, ◌≤◌, ◌<◌, min, max, String, ◌≡◌, refl, sym, ap, ◌∙◌, subst,
  ◌≢◌, ◌↔◌, ◌⊎◌, inl, inr, Bool, true, false, not, ◌&&◌, ◌||◌, Option, none, some, List, [], ◌∷◌,
  ◌++◌, map, append-nil, append_assoc, map-append, arith, ltb, leb, if◌then◌else◌, Eq, ◌==◌, nat_eq,
  string_eq, Bool-cases, Option-cases, or_true_cases, and_true_parts, beq_refl, beq_sym, length,
  take, drop, get_elem?, filter, find?, any, all, All, length-append, take-append-drop, length-take,
  length-drop, take_of_length_le, length-map, filter-append, length-filter-le, filter-filter,
  All-append, All-filter_self, sum_of, sum_of-append, is_nil, sum_of-map, All-map,
}
use omni_python_web_template.Base.Collections.{
  includes, IsNodup, set_add, set_add_all, set_of, set_delete, set_delete_all, includes-append,
  includes-filter, includes-set_add, includes-set_add_all, includes-set_delete,
  includes-set_delete_all, IsNodup-append_one, set_add-IsNodup, set_add_all-IsNodup, filter-IsNodup,
  lookup, insert, remove, keys, lookup-insert, lookup-remove, includes-keys-insert,
  keys-insert_of_includes, lookup_cases, keys-insert, lookup_absent, map_ext, All-of_includes,
  All-includes, filter_of_All, set_add_all_of_All,
}
use Prim.Native.String.{◌++◌ as ◌++ˢ◌}
use omni_python_web_template.Base.Codes.{Codes, codes, same_codes}
use omni_python_web_template.ListPaging.{Expiry, show_tenant_expired_notice, guard_tenant_writable}
use omni_python_web_template.AuthSession.{AuthWorld, Deletion}
use omni_python_web_template.AuthSession.Storage.{auth_headers, handle_session_expired}
use omni_python_web_template.Base.{nat_beq}

pub record ApiError : Type 0 where
  pub message : Codes
  pub status : ℕ

abbrev pub write_allow_prefixes : List Codes
write_allow_prefixes =
    codes "/api/v1/auth/logout"
    ∷ codes "/api/v1/auth/switch-tenant"
    ∷ codes "/api/v1/tenants"
    ∷ codes "/api/v1/orgs"
    ∷ []

-- `s.startsWith(prefix)`
abbrev pub starts_with : Codes → Codes → Bool
starts_with s [] = true
starts_with [] (p ∷ ps) = false
starts_with (c ∷ s) (p ∷ ps) = nat_beq c p && starts_with s ps

-- `s.includes(part)`
abbrev pub includes_text : Codes → Codes → Bool
includes_text [] part = is_nil part
includes_text (c ∷ s) part = starts_with (c ∷ s) part || includes_text s part

unfoldable pub is_write_allowlisted : Codes → Bool
is_write_allowlisted url = any (λ prefix. starts_with url prefix) write_allow_prefixes

abbrev pub Headers : Type 0
Headers = List (String × String)

-- `RequestInit`: the fields that the program sets
pub record RequestInit : Type 0 where
  pub method : Option Codes
  pub headers : Option Headers

-- A method is written in letters of ASCII.
abbrev pub to_upper_case : Codes → Codes
to_upper_case s = map (λ c. if leb 97 c && leb c 122 then c - 32 else c) s

abbrev pub method_or : Option Codes → Codes → Codes
method_or none m = m
method_or (some m) other = m

unfoldable pub request_method : RequestInit → Codes
request_method options = to_upper_case (method_or options.method (codes "GET"))

-- `{ ...h, ...k }`
abbrev pub spread_headers : Headers → Headers → Headers
spread_headers h [] = h
spread_headers h ((name, value) ∷ k) = spread_headers (insert name value h) k

abbrev pub spread_option : Headers → Option Headers → Headers
spread_option h none = h
spread_option h (some k) = spread_headers h k

abbrev pub bearer : Option String → Headers
bearer none = []
bearer (some token) = ("Authorization", "Bearer " ++ˢ token) ∷ []

-- What `fetch` is given.
pub record Request : Type 0 where
  pub url : Codes
  pub method : Codes
  pub headers : Headers

-- `{ headers: { "Content-Type": ..., ...authHeaders(), ...options.headers }, ...options }`: headers
-- of the options, if there are any, take the place of the merged ones.
unfoldable pub json_headers : AuthWorld → RequestInit → Headers
json_headers w options = elim options.headers [
  | none ↦ spread_headers (("Content-Type", "application/json") ∷ []) (bearer (auth_headers w))
  | some given ↦ given
]

-- `{ method: "POST", ...options, headers: { ...authHeaders(), ...options.headers } }`
unfoldable pub upload_headers : AuthWorld → RequestInit → Headers
upload_headers w options = spread_option (bearer (auth_headers w)) options.headers

-- `detail` is the text of the answer's `detail` (of its JSON, where it is no string), if there is one.
pub record Response : Type 0 where
  pub status : ℕ
  pub status_text : Codes
  pub body : Codes
  pub detail : Option Codes

-- `r.ok`
abbrev pub is_ok : Response → Bool
is_ok r = leb 200 r.status && leb r.status 299

abbrev pub text_or : Option Codes → Codes → Codes
text_or none t = t
text_or (some d) t = if is_nil d then t else d

abbrev pub message_of : Response → Codes
message_of r = text_or r.detail r.status_text

abbrev pub tenant_expired_msg : Codes
tenant_expired_msg = codes "套餐已过期，请联系管理员续费"

unfoldable pub is_tenant_expired_message : Codes → Bool
is_tenant_expired_message message =
    same_codes message tenant_expired_msg
    || includes_text message (codes "套餐已过期")
    || includes_text message (codes "套餐已到期")

-- The answer's message where the session waits for a tenant to be chosen
abbrev pub choose_tenant_msg : Codes
choose_tenant_msg = codes "请先选择租户"

-- The client: the session, the notice of expiry, and the requests sent so far, each with whether the
-- tenant had expired when it was sent. The flag of expiry is the one of the user that is signed in
-- (`user.tenant_expired`); it is kept beside the session and stays when the session ends.
pub record ApiState : Type 0 where
  pub world : AuthWorld
  pub expiry : Expiry
  pub sent : List (Request × Bool)

-- The data of the answer, as its JSON text, or the error that is thrown.
pub data ApiResult : Type 0 where
  ok : Codes → ApiResult
  thrown : ApiError → ApiResult

-- The test for a session that has ended
unfoldable pub ends_session : Response → Bool
ends_session r =
    r.status == 401
    && not (same_codes (message_of r) choose_tenant_msg)
    && not (is_tenant_expired_message (message_of r))

-- `parseApiResponse`; what it starts (`void handleSessionExpired()`) is taken when it has ended.
unfoldable pub parse_api_response : Deletion → Response → ApiState → ApiResult × ApiState
parse_api_response deletion r c =
    if is_ok r
    then (ok r.body, c)
    else let error = thrown record { message = message_of r; status = r.status } in
      if r.status == 403 && is_tenant_expired_message (message_of r)
      then (error, record c { expiry = show_tenant_expired_notice true c.expiry })
      else if ends_session r
      then (error, record c { world = handle_session_expired deletion c.world })
      else (error, c)

-- `method !== "GET" && method !== "HEAD" && !isWriteAllowlisted(url)`
unfoldable pub is_guarded : Codes → Codes → Bool
is_guarded method url =
    not (same_codes method (codes "GET"))
    && not (same_codes method (codes "HEAD"))
    && not (is_write_allowlisted url)

-- `&& !guardTenantWritable()`, which is called only where the tests before it hold
abbrev pub guard : Bool → Expiry → Bool × Expiry
guard guarded e = if guarded then guard_tenant_writable e else (true, e)

-- The guard's outcome, then the request and its answer
abbrev pub send_if : Bool × Expiry → Request → Deletion → Response → ApiState → ApiResult × ApiState
send_if (allowed, e) request deletion r c =
    let told = record c { expiry = e } in
    if allowed
    then parse_api_response deletion r
        (record told { sent = c.sent ++ ((request, c.expiry.is_expired) ∷ []) })
    else (thrown record { message = tenant_expired_msg; status = 403 }, told)

unfoldable pub json : Codes → RequestInit → Deletion → Response → ApiState → ApiResult × ApiState
json url options deletion r c =
    let request : Request = record {
      url = url;
      method = method_or options.method (codes "GET");
      headers = json_headers c.world options;
    } in
    send_if (guard (is_guarded (request_method options) url) c.expiry) request deletion r c

-- `{ ...options, method: options.method ?? "POST" }`
abbrev pub posting : RequestInit → RequestInit
posting options = record options { method = some (method_or options.method (codes "POST")) }

unfoldable pub upload_form :
    Codes → RequestInit → Deletion → Response → ApiState → ApiResult × ApiState
upload_form url options deletion r c =
    let request : Request = record {
      url = url;
      method = method_or options.method (codes "POST");
      headers = upload_headers c.world options;
    } in
    send_if (guard (is_guarded (request_method (posting options)) url) c.expiry) request deletion r
      c

-- One call of either function, with its answer
pub data ApiCall : Type 0 where
  json_call : Codes → RequestInit → Deletion → Response → ApiCall
  upload_call : Codes → RequestInit → Deletion → Response → ApiCall

abbrev pub api_call : ApiCall → ApiState → ApiResult × ApiState
api_call (json_call url options deletion r) c = json url options deletion r c
api_call (upload_call url options deletion r) c = upload_form url options deletion r c

-- Calls one after the other
abbrev pub api_run : ApiState → List ApiCall → ApiState
api_run c [] = c
api_run c (a ∷ calls) = api_run (api_call a c).1 calls
