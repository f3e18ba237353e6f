-- ===== src/Http/Origin.antt =====
-- validateRequestOrigin, the redirect check of executionHTTPClient and effectiveURLPort of
-- httpclient/do.go: where a request, and each redirect of it, may go. strings.EqualFold is a
-- parameter, and so is a CheckRedirect that the caller configured.
pub mod Allowed
pub mod Guarded
use clientkit.Prelude.{
  ℕ, ℤ, pos, Bool, true, false, not, ◌&&◌, ◌||◌, Option, none, some, List, [], ◌∷◌, map, ◌+◌, leb,
  ltb, nat_eq, int_eq, ◌==◌, if◌then◌else◌, Result, ok, err, ◌>>=◌, ◌>>◌, refuse_if,
}
use clientkit.Text.{Text, text_eq, codes}
use clientkit.Fault.{
  RequestFault, redirect_limit_exceeded, redirect_replay_not_allowed, request_url_required,
  request_url_must_be_absolute, request_url_opaque, request_url_user_information,
  request_url_fragment, request_url_scheme, request_url_hostname, request_uri, request_method,
  request_host_override, request_origin_mismatch,
}
use clientkit.Http.Retry.{is_valid_method}
use clientkit.Http.Meeting.{RequestBody}
use clientkit.Http.Safety.{
  RetrySafety, RetryAuthorization, SafetyError, retry_authorization_for, allows_retry,
}

-- A *url.URL: its fields, and what its methods Hostname and Port return. IsAbs tests the scheme.
pub record Url : Type 0 where
  pub scheme : Text
  pub opaque : Text
  pub has_user : Bool
  pub host : Text
  pub hostname : Text
  pub port : Text
  pub fragment : Text
  pub raw_fragment : Text

pub record Request : Type 0 where
  pub method : Text
  pub url : Option Url
  pub host : Text
  pub request_uri : Text
  pub body : RequestBody

-- The part of a Client that the check reads.
pub record OriginPolicy : Type 0 where
  pub base_url : Url
  pub allow_host_override : Bool
  pub allow_cross_origin : Bool

abbrev lower_byte : ℕ → ℕ
lower_byte c = if leb b'A' c && leb c b'Z' then c + 32 else c

-- strings.ToLower, which the code compares with ASCII texts only.
abbrev lower : Text → Text
lower s = map lower_byte s

unfoldable pub effective_url_port : Text → Text → Text
effective_url_port scheme [] =
    if lower scheme == codes "http"
    then codes "80"
    else if lower scheme == codes "https"
    then codes "443"
    else []
effective_url_port scheme (c ∷ port) = c ∷ port

module _ (equal_fold : Text → Text → Bool) where
  unfoldable pub same_origin : Url → Url → Bool
  same_origin url base =
      equal_fold url.scheme base.scheme
      && equal_fold url.hostname base.hostname
      && effective_url_port url.scheme url.port == effective_url_port base.scheme base.port

  -- The form of the URL, up to the fragment.
  abbrev pub validate_url : Url → Result RequestFault (Unit {0})
  validate_url url =
      refuse_if (url.scheme == [] || url.host == []) request_url_must_be_absolute
      >> refuse_if (not (url.scheme == codes "http") && not (url.scheme == codes "https"))
          request_url_scheme
      >> refuse_if (url.hostname == []) request_url_hostname
      >> refuse_if (not (url.opaque == [])) request_url_opaque
      >> refuse_if url.has_user request_url_user_information
      >> refuse_if (not (url.fragment == []) || not (url.raw_fragment == [])) request_url_fragment

  abbrev pub validate_target : OriginPolicy → Text → Url → Result RequestFault (Unit {0})
  validate_target policy host url =
      refuse_if
        (not policy.allow_host_override && not (host == []) && not (equal_fold host url.host))
        request_host_override
      >> refuse_if (not policy.allow_cross_origin && not (same_origin url policy.base_url))
          request_origin_mismatch

  abbrev pub validate_with_url :
      OriginPolicy → Request → Option Url → Result RequestFault (Unit {0})
  validate_with_url policy request none = err request_url_required
  validate_with_url policy request (some url) =
      refuse_if (not (request.request_uri == [])) request_uri
      >> refuse_if (not (is_valid_method request.method)) request_method
      >> validate_url url
      >> validate_target policy request.host url

  unfoldable pub validate_request_origin : OriginPolicy → Request → Result RequestFault (Unit {0})
  validate_request_origin policy request = validate_with_url policy request request.url

  -- Why a redirect is refused.
  pub data RedirectError : Type 0 where
    redirect_fault : RequestFault → RedirectError
    redirect_safety : SafetyError → RedirectError
    redirect_refused : RedirectError
    redirect_context : RedirectError

  abbrev pub replay_of : Result SafetyError RetryAuthorization → Option RedirectError
  replay_of (err e) = some (redirect_safety e)
  replay_of (ok authorization) =
      if allows_retry authorization then none else some (redirect_fault redirect_replay_not_allowed)

  unfoldable pub validate_redirect_replay : Text → ℤ → RetrySafety → Option RedirectError
  validate_redirect_replay method status safety =
      if status == pos 307 || status == pos 308
      then replay_of (retry_authorization_for method safety)
      else none

  -- What the caller's CheckRedirect answers, if there is one, and the limit if there is none.
  abbrev pub configured : Option Bool → ℕ → Option RedirectError
  configured (some refuses) via = if refuses then some redirect_refused else none
  configured none via = if ltb via 10 then none else some (redirect_fault redirect_limit_exceeded)

  abbrev pub after_origin :
      Result RequestFault (Unit {0}) → Option RedirectError → Option RedirectError
  after_origin (err e) replay = some (redirect_fault e)
  after_origin (ok u) replay = replay

  abbrev pub after_configured :
      Option RedirectError → Bool → Option RedirectError → Option RedirectError
  after_configured (some e) context_done later = some e
  after_configured none context_done later = if context_done then some redirect_context else later

  -- The CheckRedirect of executionHTTPClient, on a request that is there: `via` is the number of
  -- requests made already, and the status is that of the response that redirects.
  unfoldable pub check_redirect :
      OriginPolicy → RetrySafety → Option Bool → ℕ → Bool → ℤ → Request → Option RedirectError
  check_redirect policy safety configured_answer via context_done status request =
      after_configured (configured configured_answer via) context_done (
        after_origin (validate_request_origin policy request)
          (validate_redirect_replay request.method status safety))
