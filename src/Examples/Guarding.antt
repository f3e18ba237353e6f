-- ===== src/Examples/Guarding.antt =====
-- Examples for the checks of requests and redirects.
use clientkit.Prelude.{
  ◌≡◌, refl, Bool, true, false, Option, none, some, [], ◌<◌, ◌||◌, ◌↔◌, pos, ok, int_eq, nat_eq,
  ◌==◌,
}
use clientkit.Text.{Text, text_eq, codes}
use clientkit.Http.Safety.{
  safety_default, RetryAuthorization, retry_authorization_for, allows_retry, method_is_idempotent,
  normalized_http_method,
}
use clientkit.Http.Retry.{is_valid_method}
use clientkit.Http.Origin.{
  Url, Request, OriginPolicy, validate_request_origin, same_origin, effective_url_port,
  validate_redirect_replay, check_redirect,
}
use clientkit.Http.Meeting.{request_reader}
use clientkit.Http.Operation.{do_operation}
use clientkit.Http.Operation.Checked.{Conduct, do_operation_lem}
use clientkit.Http.Origin.Guarded.{validate_request_origin_iff, check_redirect_lem}
use clientkit.Http.Origin.Allowed.{IsAllowed}
use clientkit.Examples.Serving.{getting, meet}

-- A comparison of host names and schemes that tells capitals apart, for plain ones.
abbrev exactly : Text → Text → Bool
exactly s t = s == t

abbrev service_url : Url
service_url = record {
  scheme = codes "https";
  opaque = [];
  has_user = false;
  host = codes "api.test:443";
  hostname = codes "api.test";
  port = codes "443";
  fragment = [];
  raw_fragment = [];
}

abbrev service : OriginPolicy
service = record {
  base_url = record service_url { host = codes "api.test"; port = [] };
  allow_host_override = false;
  allow_cross_origin = false;
}

abbrev redirected : Request
redirected = record {
  method = codes "GET";
  url = some service_url;
  host = [];
  request_uri = [];
  body = request_reader true;
}

validate_request_origin_iff_example :
    (validate_request_origin exactly service redirected ≡ ok tt)
    ↔ IsAllowed exactly service redirected
validate_request_origin_iff_example = validate_request_origin_iff exactly service redirected

abbrev no_answer : Option Bool
no_answer = none

followed :
    check_redirect exactly service safety_default no_answer 1 false (pos 307) redirected ≡ none
unfolding check_redirect validate_request_origin is_valid_method same_origin effective_url_port
    validate_redirect_replay retry_authorization_for allows_retry method_is_idempotent
    normalized_http_method
followed = refl

check_redirect_lem_example :
    IsAllowed exactly service redirected
    × ((pos 307 == pos 307 || pos 307 == pos 308) ≡ true
        → (authorization : RetryAuthorization) × (retry_authorization_for
              (codes "GET")
              safety_default
            ≡ ok authorization)
          × (allows_retry authorization ≡ true))
    × (no_answer ≡ none → 1 < 10)
    × ¬ (no_answer ≡ some true)
    × (false ≡ false)
check_redirect_lem_example =
    check_redirect_lem exactly service safety_default no_answer 1 false (pos 307) redirected
      followed

-- A request with a body that stays at its origin.
do_operation_lem_example :
    Conduct exactly true service safety_default
      (some redirected)
      getting
      meet
      (do_operation exactly true service safety_default (some redirected) getting meet)
do_operation_lem_example =
    do_operation_lem exactly true service safety_default (some redirected) getting meet
