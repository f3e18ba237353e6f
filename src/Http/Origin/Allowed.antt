-- ===== src/Http/Origin/Allowed.antt =====
-- What validateRequestOrigin of httpclient/do.go asks of a request, as predicates and as one test.
use mathlib.Core.Option.{some-injective}
use clientkit.Prelude.{
  subst, ◌≡◌, refl, Bool, true, false, not, ◌&&◌, ◌||◌, Option, none, some, [], ◌∷◌, nat_eq, sym,
  ◌∙◌, int_eq, ◌==◌, arith, ◌↔◌, ◌≢◌, ◌⊎◌, Result, ok, err, ◌>>◌, refuse_if,
}
use clientkit.Text.{Text, text_eq, codes}
use clientkit.Fault.{RequestFault, request_uri, request_method}
use clientkit.Http.Retry.{is_valid_method}
use clientkit.Http.Origin.{
  Url, Request, OriginPolicy, same_origin, validate_url, validate_target, validate_with_url, lower,
  effective_url_port,
}

module _ (equal_fold : Text → Text → Bool) where
  -- The form that a URL must have.
  pub record IsPlainUrl (url : Url) : Type 0 where
    pub scheme : (url.scheme ≡ codes "http") ⊎ (url.scheme ≡ codes "https")
    pub host : url.host ≢ []
    pub hostname : url.hostname ≢ []
    pub opaque : url.opaque ≡ []
    pub no_user : url.has_user ≡ false
    pub fragment : url.fragment ≡ []
    pub raw_fragment : url.raw_fragment ≡ []

  -- The port that a URL names: the one that is written, or else that of its scheme, if it has one.
  abbrev pub IsPortOf : Text → Text → Text → Type 0
  IsPortOf scheme written port =
      ((written ≢ []) × (port ≡ written))
      ⊎ ((written ≡ [])
          × (((lower scheme ≡ codes "http") × (port ≡ codes "80"))
              ⊎ ((lower scheme ≡ codes "https") × (port ≡ codes "443"))
              ⊎ ((lower scheme ≢ codes "http") × (lower scheme ≢ codes "https") × (port ≡ []))))

  -- Scheme and host name are equal up to case, and so is the port that both name.
  pub record IsSameOrigin (url base : Url) : Type 0 where
    pub scheme : equal_fold url.scheme base.scheme ≡ true
    pub hostname : equal_fold url.hostname base.hostname ≡ true
    pub port : Text
    pub url_port : IsPortOf url.scheme url.port port
    pub base_port : IsPortOf base.scheme base.port port

  -- Where the request may go, and under which Host.
  pub record IsAllowedTarget (policy : OriginPolicy) (host : Text) (url : Url) : Type 0 where
    pub host_kept :
        (policy.allow_host_override ≡ true) ⊎ (host ≡ []) ⊎ (equal_fold host url.host ≡ true)
    pub origin_kept : (policy.allow_cross_origin ≡ true) ⊎ IsSameOrigin url policy.base_url

  pub record IsAllowed (policy : OriginPolicy) (request : Request) : Type 0 where
    pub url : Url
    pub has_url : request.url ≡ some url
    pub no_uri : request.request_uri ≡ []
    pub method : is_valid_method request.method ≡ true
    pub plain : IsPlainUrl url
    pub target : IsAllowedTarget policy request.host url

  -- The tests as one Boolean.
  abbrev is_plain_url : Url → Bool
  is_plain_url url =
      not (url.scheme == [])
      && not (url.host == [])
      && (url.scheme == codes "http" || url.scheme == codes "https")
      && not (url.hostname == [])
      && url.opaque == []
      && not url.has_user
      && url.fragment == []
      && url.raw_fragment == []

  abbrev is_allowed_target : OriginPolicy → Text → Url → Bool
  is_allowed_target policy host url =
      (policy.allow_host_override || host == [] || equal_fold host url.host)
      && (policy.allow_cross_origin || same_origin equal_fold url policy.base_url)

  validate_url_iff : (url : Url) → (validate_url equal_fold url ≡ ok tt) ↔ (is_plain_url url ≡ true)
  validate_url_iff url = ground arith

  validate_target_iff :
      (policy : OriginPolicy) (host : Text) (url : Url)
      → (validate_target equal_fold policy host url ≡ ok tt)
        ↔ (is_allowed_target policy host url ≡ true)
  validate_target_iff policy host url = ground arith

  seq_iff :
      (b c g h : Bool) (e f : RequestFault) (m n : Result RequestFault (Unit {0}))
      → (m ≡ ok tt) ↔ (g ≡ true)
      → (n ≡ ok tt) ↔ (h ≡ true)
      → ((refuse_if (not b) e >> refuse_if (not c) f >> m >> n) ≡ ok tt)
        ↔ ((b && c && g && h) ≡ true)
  seq_iff false c g h e f m n p q = ground arith
  seq_iff true false g h e f m n p q = ground arith
  seq_iff true true g h e f (err d) n p q = ground arith
  seq_iff true true g h e f (ok u) n p q = ground arith

  abbrev is_allowed_url : OriginPolicy → Request → Option Url → Bool
  is_allowed_url policy request none = false
  is_allowed_url policy request (some url) =
      request.request_uri == []
      && is_valid_method request.method
      && is_plain_url url
      && is_allowed_target policy request.host url

  pub validate_with_url_iff :
      (policy : OriginPolicy) (request : Request) (url : Option Url)
      → (validate_with_url equal_fold policy request url ≡ ok tt)
        ↔ (is_allowed_url policy request url ≡ true)
  validate_with_url_iff policy request none = ground arith
  validate_with_url_iff policy request (some url) =
      seq_iff (request.request_uri == []) (is_valid_method request.method) (is_plain_url url)
        (is_allowed_target policy request.host url) request_uri request_method
        (validate_url equal_fold url) (validate_target equal_fold policy request.host url)
        (validate_url_iff url) (validate_target_iff policy request.host url)

  effective_url_port_iff :
      (scheme written port : Text)
      → (effective_url_port scheme written ≡ port) ↔ IsPortOf scheme written port
  unfolding effective_url_port
  effective_url_port_iff scheme [] port = ground (
    arith,
    text_eq.beq_iff (lower scheme) (codes "http"),
    text_eq.beq_iff (lower scheme) (codes "https"),
  )
  effective_url_port_iff scheme (c ∷ rest) port = ground arith

  same_origin_iff :
      (url base : Url) → (same_origin equal_fold url base ≡ true) ↔ IsSameOrigin url base
  unfolding same_origin
  same_origin_iff url base =
      let port = effective_url_port base.scheme base.port in
      let ports = text_eq.beq_iff (effective_url_port url.scheme url.port) port in
      (
        λ h. record {
          scheme = ground (arith, h);
          hostname = ground (arith, h);
          port = port;
          url_port = (effective_url_port_iff url.scheme url.port port).0 (ground (arith, h, ports));
          base_port = (effective_url_port_iff base.scheme base.port port).0 refl;
        },
        λ h.
            let same =
              (effective_url_port_iff url.scheme url.port h.port).1 h.url_port
              ∙ sym ((effective_url_port_iff base.scheme base.port h.port).1 h.base_port) in
            ground (arith, h.scheme, h.hostname, ports, same),
      )

  is_plain_url_iff : (url : Url) → (is_plain_url url ≡ true) ↔ IsPlainUrl url
  is_plain_url_iff url =
      let no_scheme = text_eq.beq_iff url.scheme [] in
      let http = text_eq.beq_iff url.scheme (codes "http") in
      let https = text_eq.beq_iff url.scheme (codes "https") in
      let host = text_eq.beq_iff url.host [] in
      let hostname = text_eq.beq_iff url.hostname [] in
      let opaque = text_eq.beq_iff url.opaque [] in
      let fragment = text_eq.beq_iff url.fragment [] in
      let raw_fragment = text_eq.beq_iff url.raw_fragment [] in
      (
        λ h. record {
          scheme = ground (arith, h, http, https);
          host = ground (arith, h, host);
          hostname = ground (arith, h, hostname);
          opaque = ground (arith, h, opaque);
          no_user = ground (arith, h);
          fragment = ground (arith, h, fragment);
          raw_fragment = ground (arith, h, raw_fragment);
        },
        λ (h : IsPlainUrl url). ground (
          arith, no_scheme, http, https, host, hostname, opaque, fragment, raw_fragment, h.scheme,
          h.host, h.hostname, h.opaque, h.no_user, h.fragment, h.raw_fragment,
        ),
      )

  is_allowed_target_iff :
      (policy : OriginPolicy) (host : Text) (url : Url)
      → (is_allowed_target policy host url ≡ true) ↔ IsAllowedTarget policy host url
  is_allowed_target_iff policy host url =
      let no_host = text_eq.beq_iff host [] in
      let origin = same_origin_iff url policy.base_url in
      (
        λ h. record {
          host_kept = ground (arith, h, no_host);
          origin_kept = ground (arith, h, origin);
        },
        λ (h : IsAllowedTarget policy host url).
            ground (arith, no_host, origin, h.host_kept, h.origin_kept),
      )

  pub is_allowed_url_iff :
      (policy : OriginPolicy) (request : Request)
      → (is_allowed_url policy request request.url ≡ true) ↔ IsAllowed policy request
  is_allowed_url_iff policy request = met request.url
    where
      met :
          (url : Option Url)
          → (is_allowed_url policy request url ≡ true)
            ↔ IsAllowed policy (record request { url = url })
      met none = (
        λ h. cc,
        λ (a : IsAllowed policy (record request { url = none })). ground (arith, a.has_url),
      )
      met (some url) =
          let no_uri = text_eq.beq_iff request.request_uri [] in
          let plain = is_plain_url_iff url in
          let target = is_allowed_target_iff policy request.host url in
          (
            λ h. record {
              url = url;
              has_url = refl;
              no_uri = ground (arith, h, no_uri);
              method = ground (arith, h);
              plain = ground (arith, h, plain);
              target = ground (arith, h, target);
            },
            λ (a : IsAllowed policy (record request { url = some url })).
                let same = some-injective url a.url a.has_url in
                let is_plain = plain.1 (subst IsPlainUrl (sym same) a.plain) in
                let is_target =
                  target.1 (subst (IsAllowedTarget policy request.host) (sym same) a.target) in
                ground (arith, no_uri, a.no_uri, a.method, is_plain, is_target),
          )
