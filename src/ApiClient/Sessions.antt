-- ===== src/ApiClient/Sessions.antt =====
-- What the answers do to the session (web/src/lib/api/client.ts, web/src/lib/session-expired.ts).
use omni_python_web_template.Base.{
  ◌≡◌, refl, sym, ◌∙◌, subst, ◌⊎◌, inl, inr, Bool, true, false, ◌&&◌, none, List, [], ◌∷◌, ◌++◌,
  arith, ◌==◌, nat_eq, string_eq, Bool-cases, All,
}
use omni_python_web_template.ListPaging.{Expiry, guard_tenant_writable}
use omni_python_web_template.AuthSession.{AuthWorld, Deletion}
use omni_python_web_template.AuthSession.Storage.{
  set_session_token, auth_headers, purge_local_session, reset, reset_state,
}
use omni_python_web_template.ApiClient.{
  request_method, Request, Response, ApiState, ends_session, parse_api_response, guard, send_if,
  json, upload_form, ApiCall, json_call, upload_call, api_call, api_run, is_ok, message_of,
  is_tenant_expired_message,
}
use omni_python_web_template.ApiClient.Guards.{api_request, is_guarded_request}
use omni_python_web_template.AuthSession.Storage.{handle_session_expired}

abbrev pub answer_of : ApiCall → Response
answer_of (json_call url options d r) = r
answer_of (upload_call url options d r) = r

-- The session is as it was, or it has ended as an answer of that kind ends it.
abbrev pub Ended : Bool → Deletion → AuthWorld → AuthWorld → Type 0
Ended over d w after = (after ≡ w) ⊎ ((over ≡ true) × (after ≡ handle_session_expired d w))

world-parse_api_response :
    (d : Deletion) (r : Response) (c : ApiState)
    → Ended (ends_session r) d c.world (parse_api_response d r c).1.world
unfolding parse_api_response
world-parse_api_response d r c = elim (Bool-cases (is_ok r)) [
  | inl fine ↦ rw fine (inl refl)
  | inr error ↦ elim (Bool-cases (r.status == 403 && is_tenant_expired_message (message_of r))) [
    | inl expired ↦ rw (error, expired) (inl refl)
    | inr other ↦ elim (Bool-cases (ends_session r)) [
      | inl over ↦ rw (error, other, over) (inr (refl, refl))
      | inr kept ↦ rw (error, other, kept) (inl refl)
    ]
  ]
]

abbrev pub deletes : ApiCall → Deletion
deletes (json_call url options d r) = d
deletes (upload_call url options d r) = d

world-send_if :
    (p : Bool × Expiry) (request : Request) (d : Deletion) (r : Response) (c : ApiState)
    → Ended (ends_session r) d c.world (send_if p request d r c).1.world
world-send_if (false, e) request d r c = inl refl
world-send_if (true, e) request d r c =
    world-parse_api_response d r
      (record c { expiry = e; sent = c.sent ++ ((request, c.expiry.is_expired) ∷ []) })

api_call-Ended :
    (a : ApiCall) (c : ApiState)
    → Ended (ends_session (answer_of a)) (deletes a) c.world (api_call a c).1.world
unfolding json upload_form
api_call-Ended (json_call url options d r) c = world-send_if _ _ d r c
api_call-Ended (upload_call url options d r) c = world-send_if _ _ d r c

-- While no answer ends the session, it stays exactly as it was, through any calls and failures.
pub api_run-keeps_session :
    (calls : List ApiCall) (c : ApiState)
    → All (λ a. ends_session (answer_of a) ≡ false) calls
    → (api_run c calls).world ≡ c.world
api_run-keeps_session [] c h = refl
api_run-keeps_session (a ∷ calls) c (k, h) =
    api_run-keeps_session calls (api_call a c).1 h
    ∙ elim (api_call-Ended a c) [ inl same ↦ same | inr (over, ended) ↦ cc ]

abbrev pub SignedOut : AuthWorld → Type 0
SignedOut w = (auth_headers w ≡ none) × (w.slice ≡ reset_state) × (w.device_nav ≡ none)

handle_session_expired-SignedOut :
    (d : Deletion) (w : AuthWorld) → SignedOut (handle_session_expired d w)
unfolding handle_session_expired reset purge_local_session set_session_token auth_headers
handle_session_expired-SignedOut d w = (refl, refl, refl)

Ended-SignedOut :
    (over : Bool) (d : Deletion) (w after : AuthWorld)
    → SignedOut w
    → Ended over d w after
    → SignedOut after
Ended-SignedOut over d w after h (inl same) = subst SignedOut (sym same) h
Ended-SignedOut over d w after h (inr (o, ended)) =
    subst SignedOut (sym ended) (handle_session_expired-SignedOut d w)

later_calls-SignedOut :
    (calls : List ApiCall) (c : ApiState) → SignedOut c.world → SignedOut (api_run c calls).world
later_calls-SignedOut [] c h = h
later_calls-SignedOut (a ∷ calls) c h = later_calls-SignedOut calls (api_call a c).1 (
    Ended-SignedOut (ends_session (answer_of a)) (deletes a) c.world (api_call a c).1.world h
      (api_call-Ended a c))

status_of_end :
    (r : Response) (x : Bool)
    → ends_session r ≡ true
    → (is_ok r ≡ false) × ((r.status == 403 && x) ≡ false)
unfolding ends_session
status_of_end r x h = (ground arith, ground arith)

parse_api_response-end :
    (d : Deletion) (r : Response) (c : ApiState)
    → ends_session r ≡ true
    → (parse_api_response d r c).1.world ≡ handle_session_expired d c.world
unfolding parse_api_response
parse_api_response-end d r c over =
    let (failed, other) = status_of_end r (is_tenant_expired_message (message_of r)) over in
    rw (failed, other, over) refl

send_if-end :
    (guarded : Bool) (request : Request) (d : Deletion) (r : Response) (c : ApiState)
    → (c.expiry.is_expired && guarded) ≡ false
    → ends_session r ≡ true
    → SignedOut (send_if (guard guarded c.expiry) request d r c).1.world
unfolding guard_tenant_writable
send_if-end false request d r c sends over =
    subst SignedOut (sym (parse_api_response-end d r _ over))
      (handle_session_expired-SignedOut d c.world)
send_if-end true request d r c sends over =
    let valid : c.expiry.is_expired ≡ false = ground arith in
    rw valid (
      subst SignedOut (sym (parse_api_response-end d r _ over))
        (handle_session_expired-SignedOut d c.world))

api_call-end :
    (a : ApiCall) (c : ApiState)
    → (c.expiry.is_expired && is_guarded_request (api_request a c.world)) ≡ false
    → ends_session (answer_of a) ≡ true
    → SignedOut (api_call a c).1.world
unfolding json upload_form request_method
api_call-end (json_call url options d r) c sends over = send_if-end _ _ d r c sends over
api_call-end (upload_call url options d r) c sends over = send_if-end _ _ d r c sends over

-- Once the answer of a request that was sent has ended the session, through any further calls no
-- token is there to be sent, the store is as after a sign-out and the device's navigation tree is gone.
pub api_run-SignedOut :
    (a : ApiCall) (calls : List ApiCall) (c : ApiState)
    → (c.expiry.is_expired && is_guarded_request (api_request a c.world)) ≡ false
    → ends_session (answer_of a) ≡ true
    → SignedOut (api_run c (a ∷ calls)).world
api_run-SignedOut a calls c sends over =
    later_calls-SignedOut calls (api_call a c).1 (api_call-end a c sends over)
