-- ===== src/ApiClient/Guards.antt =====
-- Which requests are sent, and with which headers (web/src/lib/api/client.ts).
use omni_python_web_template.Base.{
  ◌+◌, String, ◌≡◌, refl, ◌∙◌, subst, ◌⊎◌, inl, inr, Bool, true, false, ◌&&◌, Option, none, some,
  List, [], ◌∷◌, ◌++◌, arith, if◌then◌else◌, ◌==◌, nat_eq, string_eq, Bool-cases, All, All-append,
}
use omni_python_web_template.Base.Collections.{lookup, insert, lookup-insert}
use Prim.Native.String.{◌++◌ as ◌++ˢ◌}
use omni_python_web_template.Base.Codes.{codes}
use omni_python_web_template.ListPaging.{show_tenant_expired_notice, guard_tenant_writable}
use omni_python_web_template.AuthSession.{AuthWorld, Deletion}
use omni_python_web_template.AuthSession.Storage.{auth_headers}
use omni_python_web_template.ApiClient.{
  RequestInit, Headers, to_upper_case, method_or, request_method, spread_headers, Request,
  json_headers, upload_headers, Response, ApiState, ApiResult, thrown, ends_session,
  parse_api_response, is_guarded, guard, send_if, json, upload_form, ApiCall, json_call,
  upload_call, api_call, api_run, tenant_expired_msg, is_ok, message_of, is_tenant_expired_message,
}

-- A request that may be sent: the tenant had not expired, or the request is none that the guard stops.
abbrev pub Allowed : Request × Bool → Type 0
Allowed (request, expired) =
    (expired && is_guarded (to_upper_case request.method) request.url) ≡ false

sent-parse_api_response :
    (d : Deletion) (r : Response) (c : ApiState) → (parse_api_response d r c).1.sent ≡ c.sent
unfolding parse_api_response
sent-parse_api_response d r c = ground (
  arith,
  Bool-cases (is_ok r),
  Bool-cases (r.status == 403 && is_tenant_expired_message (message_of r)),
  Bool-cases (ends_session r),
)

-- What a call does before its answer: it is refused, or it sends its one request.
abbrev pub Outcome : Request → Bool → ApiResult × ApiState → ApiState → Type 0
Outcome request guarded out c =
    ((c.expiry.is_expired && guarded) ≡ true)
      × (out ≡ (
        thrown record { message = tenant_expired_msg; status = 403 },
        record c { expiry = record (c.expiry) { shown = c.expiry.shown + 1 } },
      ))
    ⊎ ((c.expiry.is_expired && guarded) ≡ false)
      × (out.1.sent ≡ c.sent ++ ((request, c.expiry.is_expired) ∷ []))

send_if-Outcome :
    (guarded : Bool) (request : Request) (d : Deletion) (r : Response) (c : ApiState)
    → Outcome request guarded (send_if (guard guarded c.expiry) request d r c) c
unfolding guard_tenant_writable show_tenant_expired_notice
send_if-Outcome false request d r c = inr (ground arith, sent-parse_api_response d r _)
send_if-Outcome true request d r c = elim (Bool-cases c.expiry.is_expired) [
  | inl over ↦ inl (rw over refl, rw over refl)
  | inr valid ↦ inr (rw valid refl, rw valid (sent-parse_api_response d r _))
]

-- The request of a call, if it is sent.
abbrev pub api_request : ApiCall → AuthWorld → Request
api_request (json_call url options d r) w = record {
  url = url;
  method = method_or options.method (codes "GET");
  headers = json_headers w options;
}
api_request (upload_call url options d r) w = record {
  url = url;
  method = method_or options.method (codes "POST");
  headers = upload_headers w options;
}

-- A write that is not in the list of those always allowed
abbrev pub is_guarded_request : Request → Bool
is_guarded_request request = is_guarded (to_upper_case request.method) request.url

-- A call is refused exactly when the tenant has expired and the call is a write that is not always
-- allowed: then nothing is sent, the error is the one of expiry with status 403 and the notice is
-- shown once more. Otherwise its one request is sent, after the earlier ones.
pub api_call-Outcome :
    (a : ApiCall) (c : ApiState)
    → Outcome (api_request a c.world) (is_guarded_request (api_request a c.world)) (api_call a c) c
unfolding json upload_form request_method
api_call-Outcome (json_call url options d r) c = send_if-Outcome _ _ d r c
api_call-Outcome (upload_call url options d r) c = send_if-Outcome _ _ d r c

api_call-Allowed :
    (a : ApiCall) (c : ApiState) → All Allowed c.sent → All Allowed (api_call a c).1.sent
api_call-Allowed a c h = elim (api_call-Outcome a c) [
  | inl (over, refused) ↦ rw refused h
  | inr (passed, one_more) ↦ rw one_more (All-append Allowed c.sent _ h (passed, tt))
]

api_run-keeps :
    (calls : List ApiCall) (c : ApiState) → All Allowed c.sent → All Allowed (api_run c calls).sent
api_run-keeps [] c h = h
api_run-keeps (a ∷ calls) c h = api_run-keeps calls (api_call a c).1 (api_call-Allowed a c h)

-- Whatever calls are made, and whatever their answers: no request that was sent while the tenant had
-- expired is a write that is not always allowed.
pub api_run-Allowed :
    (calls : List ApiCall) (c : ApiState)
    → All Allowed (api_run (record c { sent = [] }) calls).sent
api_run-Allowed calls c = api_run-keeps calls (record c { sent = [] }) tt

lookup-spread_headers :
    (name : String) (h k : Headers)
    → lookup name k ≡ none
    → lookup name (spread_headers h k) ≡ lookup name h
lookup-spread_headers name h [] e = refl
lookup-spread_headers name h ((other, value) ∷ k) e = elim (Bool-cases (other == name)) [
  | inl same ↦
      let found : ◌≡◌ {A = Option String} (some value) none =
        subst (λ b. (if b then some value else lookup name k) ≡ none) same e in
      cc
  | inr differs ↦
      let later : lookup name k ≡ none =
        subst (λ b. (if b then some value else lookup name k) ≡ none) differs e in
      lookup-spread_headers name (insert other value h) k later
      ∙ lookup-insert other name value h
      ∙ rw differs refl
]

-- The session's own header, unless the options have one of that name.
abbrev pub own_header : String → Option String
own_header token = some ("Bearer " ++ˢ token)

-- With a token, an upload carries it, unless its options have an authorization of their own; a JSON
-- request carries it only if its options have no headers at all, and has else exactly those headers.
pub headers-authorization :
    (w : AuthWorld) (token : String) (options : RequestInit) (k : Headers)
    → auth_headers w ≡ some token
    → lookup "Authorization" k ≡ none
    → (lookup "Authorization" (upload_headers w (record options { headers = some k }))
        ≡ own_header token)
      × (lookup "Authorization" (upload_headers w (record options { headers = none }))
          ≡ own_header token)
      × (lookup "Authorization" (json_headers w (record options { headers = none }))
          ≡ own_header token)
      × (json_headers w (record options { headers = some k }) ≡ k)
unfolding upload_headers json_headers
headers-authorization w token options k signed other =
    rw
      (
        signed,
        lookup-spread_headers "Authorization" (("Authorization", "Bearer " ++ˢ token) ∷ []) k other,
      )
      (refl, refl, refl, refl)
