-- ===== src/Scenarios/Requests.antt =====
-- Requests of a signed-in user, of a tenant that has expired, and a session that ends.
use omni_python_web_template.Base.{
  ◌≡◌, refl, true, false, none, some, [], ◌∷◌, nat_eq, string_eq, All,
}
use omni_python_web_template.Base.Collections.{lookup}
use omni_python_web_template.Base.Codes.{codes}
use omni_python_web_template.AuthSession.{AuthWorld, initial_state, reopened}
use omni_python_web_template.AuthSession.Storage.{auth_headers}
use omni_python_web_template.ApiClient.{
  is_guarded, is_write_allowlisted, is_tenant_expired_message, RequestInit, Response, ApiState,
  ends_session, ApiCall, json_call, api_call, api_run, upload_headers, json_headers,
}
use omni_python_web_template.ApiClient.Guards.{
  Allowed, Outcome, api_request, is_guarded_request, api_call-Outcome, api_run-Allowed, own_header,
  headers-authorization,
}
use omni_python_web_template.ApiClient.Sessions.{SignedOut, api_run-SignedOut}

abbrev signed_in : AuthWorld
signed_in = record {
  slice = record initial_state { token = some "t1" };
  session_token = some "t1";
  db_ready = true;
  row = none;
  device_nav = none;
  device_display = none;
  pending = none;
  ending = 0;
}

abbrev expired_client : ApiState
expired_client = record {
  world = signed_in;
  expiry = record { is_expired = true; dismissed_at = 0; now = 5; shown = 0 };
  sent = [];
}

abbrev plain_post : RequestInit
plain_post = record { method = some (codes "post"); headers = none }

abbrev plain_get : RequestInit
plain_get = record { method = none; headers = none }

abbrev fine : Response
fine = record { status = 200; status_text = codes "OK"; body = codes "{}"; detail = none }

abbrev refused : Response
refused = record { status = 401; status_text = codes "Unauthorized"; body = []; detail = none }

abbrev save_role : ApiCall
save_role = json_call (codes "/api/v1/roles") plain_post reopened fine

abbrev read_roles : ApiCall
read_roles = json_call (codes "/api/v1/roles") plain_get reopened refused

api_call-Outcome_example :
    Outcome
      (api_request save_role signed_in)
      (is_guarded_request (api_request save_role signed_in))
      (api_call save_role expired_client)
      expired_client
api_call-Outcome_example = api_call-Outcome save_role expired_client

api_run-Allowed_example :
    All Allowed (api_run (record expired_client { sent = [] }) (save_role ∷ read_roles ∷ [])).sent
api_run-Allowed_example = api_run-Allowed (save_role ∷ read_roles ∷ []) expired_client

signed : auth_headers signed_in ≡ some "t1"
unfolding auth_headers
signed = refl

sends : is_guarded_request (api_request read_roles signed_in) ≡ false
unfolding is_guarded is_write_allowlisted
sends = refl

over : ends_session refused ≡ true
unfolding ends_session is_tenant_expired_message
over = refl

headers-authorization_example :
    (lookup "Authorization" (upload_headers signed_in (record plain_post { headers = some [] }))
      ≡ own_header "t1")
    × (lookup "Authorization" (upload_headers signed_in (record plain_post { headers = none }))
        ≡ own_header "t1")
    × (lookup "Authorization" (json_headers signed_in (record plain_post { headers = none }))
        ≡ own_header "t1")
    × (json_headers signed_in (record plain_post { headers = some [] }) ≡ [])
headers-authorization_example = headers-authorization signed_in "t1" plain_post [] signed refl

api_run-SignedOut_example : SignedOut (api_run expired_client (read_roles ∷ save_role ∷ [])).world
api_run-SignedOut_example = api_run-SignedOut read_roles (save_role ∷ []) expired_client sends over
