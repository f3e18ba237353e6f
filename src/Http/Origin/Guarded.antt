-- ===== src/Http/Origin/Guarded.antt =====
-- What a request that passes the checks can reach.
use mathlib.Core.Logic.Iff
use clientkit.Prelude.{
  ℕ, ℤ, pos, ◌≡◌, refl, ◌<◌, Bool, true, false, ◌||◌, Option, none, some, nat_eq, int_eq, ◌==◌,
  arith, ◌↔◌, Result, ok, err,
}
use clientkit.Text.{Text, text_eq}
use clientkit.Fault.{RequestFault}
use clientkit.Http.Safety.{
  RetrySafety, RetryAuthorization, SafetyError, retry_authorization_for, allows_retry,
}
use clientkit.Http.Origin.{
  Request, OriginPolicy, validate_request_origin, RedirectError, validate_redirect_replay,
  replay_of, configured, after_origin, after_configured, check_redirect,
}
use clientkit.Http.Origin.Allowed.{IsAllowed, validate_with_url_iff, is_allowed_url_iff}

module _ (equal_fold : Text → Text → Bool) where
  -- A request passes exactly if it has a URL and no RequestURI, its method is a token, its URL is an
  -- absolute http or https one with a host name and without opaque part, user information and
  -- fragment, its Host is that of the URL unless overrides are allowed, and scheme, host name and
  -- effective port are those of the base URL unless other origins are allowed.
  pub validate_request_origin_iff :
      (policy : OriginPolicy) (request : Request)
      → (validate_request_origin equal_fold policy request ≡ ok tt)
        ↔ IsAllowed equal_fold policy request
  unfolding validate_request_origin
  validate_request_origin_iff policy request =
      Iff.trans (validate_with_url_iff equal_fold policy request request.url)
        (is_allowed_url_iff equal_fold policy request)

  after_origin-none :
      (m : Result RequestFault (Unit {0})) (replay : Option (RedirectError equal_fold))
      → after_origin equal_fold m replay ≡ none
      → (m ≡ ok tt) × (replay ≡ none)
  after_origin-none (ok u) replay h = (refl, h)
  after_origin-none (err e) replay h = cc

  replay_of-none :
      (a : Result SafetyError RetryAuthorization)
      → replay_of equal_fold a ≡ none
      → (authorization : RetryAuthorization) × (a ≡ ok authorization)
        × (allows_retry authorization ≡ true)
  replay_of-none (ok authorization) h = (authorization, refl, ground arith)
  replay_of-none (err e) h = cc

  after_configured-none :
      (c : Option (RedirectError equal_fold)) (done : Bool)
      (later : Option (RedirectError equal_fold))
      → after_configured equal_fold c done later ≡ none
      → (c ≡ none) × (done ≡ false) × (later ≡ none)
  after_configured-none none done later h = ground arith
  after_configured-none (some e) done later h = cc

  configured-none :
      (answer : Option Bool) (via : ℕ)
      → configured equal_fold answer via ≡ none
      → ((answer ≡ none → via < 10) × ¬ (answer ≡ some true))
  configured-none none via h = (λ u. ground arith, λ u. cc)
  configured-none (some true) via h = cc
  configured-none (some false) via h = (λ u. cc, λ u. cc)

  -- A redirect is followed only to a target that the original request could have named; one that
  -- keeps the method (307 or 308) only if the method or the caller's assertion makes a repetition
  -- safe; at most ten redirects unless the caller decides; and never after the caller's own
  -- CheckRedirect refused it, or once the context is done.
  pub check_redirect_lem :
      (policy : OriginPolicy) (safety : RetrySafety) (answer : Option Bool) (via : ℕ) (done : Bool)
      (status : ℤ) (request : Request)
      → check_redirect equal_fold policy safety answer via done status request ≡ none
      → IsAllowed equal_fold policy request
        × ((status == pos 307 || status == pos 308) ≡ true
            → (authorization : RetryAuthorization) × (retry_authorization_for request.method safety
                ≡ ok authorization)
              × (allows_retry authorization ≡ true))
        × (answer ≡ none → via < 10)
        × ¬ (answer ≡ some true)
        × (done ≡ false)
  unfolding check_redirect validate_redirect_replay
  check_redirect_lem policy safety answer via done status request h =
      let (free, alive, later) =
        after_configured-none (configured equal_fold answer via) done _ h in
      let (allowed, replay) =
        after_origin-none (validate_request_origin equal_fold policy request) _ later in
      let limits = configured-none answer via free in
      (
        (validate_request_origin_iff policy request).0 allowed,
        λ kept.
            replay_of-none (retry_authorization_for request.method safety)
              (ground (arith, replay, kept)),
        limits.0,
        limits.1,
        alive,
      )
