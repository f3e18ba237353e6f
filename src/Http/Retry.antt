-- ===== src/Http/Retry.antt =====
-- httpclient/retry.go: retry policies, their defaults and validation, and which attempts they repeat.
pub mod Valid
use clientkit.Prelude.{
  ℕ, ℤ, pos, ◌*◌, Bool, true, false, not, ◌&&◌, ◌||◌, Option, none, some, List, [], ◌∷◌, every,
  contains, ltb_ℤ, leb_ℤ, nat_eq, int_eq, ◌==◌, leb, Result, ok, err, ◌>>=◌, ◌>>◌, refuse_if,
  refuse_error, if◌then◌else◌,
}
use clientkit.Text.{Text, text_eq, codes}
use clientkit.Text.Trim.{trim_space}
use clientkit.Failure.{FailureClass}
use clientkit.Fault.{Error}
use clientkit.Http.Outcome.{
  Outcome, outcome_success, outcome_response_rejected, outcome_timeout, outcome_canceled,
  outcome_execution_error,
}
use clientkit.Http.Safety.{
  TransportRetryMode, transport_retry_none, transport_retry_default, valid_transport_retry_mode,
  transport_allows,
}

-- A float64, of which the code here tests only the kind and the sign; the value of a finite one is
-- mantissa · 2 ^ exponent.
pub data Float : Type 0 where
  not_a_number : Float
  infinity : (negative : Bool) → Float
  finite : (negative : Bool) (mantissa : ℕ) (exponent : ℤ) → Float

-- A nil slice is `none`.
pub record RetryConfig : Type 0 where
  pub max_attempts : ℤ
  pub backoff : ℤ
  pub backoff_multiplier : Float
  pub max_backoff : ℤ
  pub jitter : ℤ
  pub status_codes : Option (List ℤ)
  pub methods : Option (List Text)
  pub transport_errors : TransportRetryMode
  pub retry_timeouts : Bool
  pub respect_retry_after : Bool
  pub max_retry_after : ℤ

abbrev pub elements {ℓ} : {A : Type ℓ} → Option (List A) → List A
elements none = []
elements (some xs) = xs

abbrev pub is_nil_slice {ℓ} : {A : Type ℓ} → Option (List A) → Bool
is_nil_slice none = true
is_nil_slice (some xs) = false

abbrev pub is_float_zero : Float → Bool
is_float_zero (finite negative mantissa exponent) = mantissa == 0
is_float_zero _ = false

-- Neither NaN, nor infinite, nor below zero.
abbrev pub is_multiplier : Float → Bool
is_multiplier (finite true mantissa exponent) = mantissa == 0
is_multiplier (finite false mantissa exponent) = true
is_multiplier _ = false

abbrev milliseconds : ℕ → ℤ
milliseconds n = pos (n * 1_000_000)

unfoldable pub default_retry_config : RetryConfig
default_retry_config = record {
  max_attempts = pos 3;
  backoff = milliseconds 200;
  backoff_multiplier = finite false 2 (pos 0);
  max_backoff = milliseconds 2000;
  jitter = milliseconds 100;
  status_codes = some (pos 408 ∷ pos 429 ∷ pos 500 ∷ pos 502 ∷ pos 503 ∷ pos 504 ∷ []);
  methods = some (codes "GET" ∷ codes "HEAD" ∷ codes "OPTIONS" ∷ codes "PUT" ∷ codes "DELETE" ∷ []);
  transport_errors = transport_retry_default;
  retry_timeouts = true;
  respect_retry_after = true;
  max_retry_after = milliseconds 30_000;
}

unfoldable pub no_retry_config : RetryConfig
no_retry_config = record {
  max_attempts = pos 1;
  backoff = pos 0;
  backoff_multiplier = finite false 0 (pos 0);
  max_backoff = pos 0;
  jitter = pos 0;
  status_codes = none;
  methods = none;
  transport_errors = transport_retry_none;
  retry_timeouts = false;
  respect_retry_after = true;
  max_retry_after = milliseconds 30_000;
}

abbrev pub is_transport_retry_none : TransportRetryMode → Bool
is_transport_retry_none transport_retry_none = true
is_transport_retry_none _ = false

unfoldable pub retry_config_is_zero : RetryConfig → Bool
retry_config_is_zero cfg =
    cfg.max_attempts == pos 0
    && cfg.backoff == pos 0
    && is_float_zero cfg.backoff_multiplier
    && cfg.max_backoff == pos 0
    && cfg.jitter == pos 0
    && is_nil_slice cfg.status_codes
    && is_nil_slice cfg.methods
    && is_transport_retry_none cfg.transport_errors
    && not cfg.retry_timeouts
    && not cfg.respect_retry_after
    && cfg.max_retry_after == pos 0

-- cloneRetryConfig copies slices, which are values here.
unfoldable pub normalize_retry_config : RetryConfig → RetryConfig
normalize_retry_config cfg = if retry_config_is_zero cfg then default_retry_config else cfg

pub data RetryError : Type 0 where
  retry_max_attempts : RetryError
  retry_backoff : RetryError
  retry_multiplier : RetryError
  retry_max_backoff : RetryError
  retry_jitter : RetryError
  retry_max_retry_after : RetryError
  retry_after_enabled : RetryError
  retry_after_disabled : RetryError
  retry_transport_mode : RetryError
  retry_status_code : ℤ → RetryError
  retry_duplicate_status_code : ℤ → RetryError
  retry_method_empty : RetryError
  retry_method_invalid : Text → RetryError
  retry_duplicate_method : Text → RetryError
  retry_set_and_disabled : RetryError

-- The token characters of net/http, which make a valid method.
abbrev is_token_byte : ℕ → Bool
is_token_byte c =
    (leb b'0' c && leb c b'9')
    || (leb b'A' c && leb c b'Z')
    || (leb b'a' c && leb c b'z')
    || contains (codes "!#$%&'*+-.^_`|~") c

-- http.NewRequest(method, …) with a valid URL fails on an invalid method alone; "" stands for GET.
unfoldable pub is_valid_method : Text → Bool
is_valid_method method = every is_token_byte method

unfoldable pub validate_status_codes : List ℤ → List ℤ → Result RetryError (Unit {0})
validate_status_codes seen [] = ok tt
validate_status_codes seen (status ∷ statuses) =
    refuse_if (ltb_ℤ status (pos 100) || ltb_ℤ (pos 599) status) (retry_status_code status)
    >> refuse_if (contains seen status) (retry_duplicate_status_code status)
    >> validate_status_codes (status ∷ seen) statuses

unfoldable pub validate_methods : List Text → List Text → Result RetryError (Unit {0})
validate_methods seen [] = ok tt
validate_methods seen (method ∷ methods) =
    refuse_if (trim_space method == []) retry_method_empty
    >> refuse_if (not (is_valid_method method)) (retry_method_invalid method)
    >> refuse_if (contains seen method) (retry_duplicate_method method)
    >> validate_methods (method ∷ seen) methods

-- The numeric fields, up to MaxBackoff; Jitter and the fields of Retry-After; the rest.
abbrev validate_backoff : RetryConfig → Result RetryError (Unit {0})
validate_backoff cfg =
    refuse_if (ltb_ℤ cfg.max_attempts (pos 1)) retry_max_attempts
    >> refuse_if (ltb_ℤ cfg.backoff (pos 0)) retry_backoff
    >> refuse_if (not (is_multiplier cfg.backoff_multiplier)) retry_multiplier
    >> refuse_if (ltb_ℤ cfg.max_backoff (pos 0)) retry_max_backoff

abbrev validate_retry_after : RetryConfig → Result RetryError (Unit {0})
validate_retry_after cfg =
    refuse_if (ltb_ℤ cfg.jitter (pos 0)) retry_jitter
    >> refuse_if (ltb_ℤ cfg.max_retry_after (pos 0)) retry_max_retry_after
    >> refuse_if (cfg.respect_retry_after && leb_ℤ cfg.max_retry_after (pos 0)) retry_after_enabled
    >> refuse_if (not cfg.respect_retry_after && ltb_ℤ (pos 0) cfg.max_retry_after)
        retry_after_disabled
    >> refuse_if (not (valid_transport_retry_mode cfg.transport_errors)) retry_transport_mode

unfoldable pub validate_retry_config : RetryConfig → Result RetryError (Unit {0})
validate_retry_config cfg =
    validate_backoff cfg
    >> validate_retry_after cfg
    >> validate_status_codes [] (elements cfg.status_codes)
    >> validate_methods [] (elements cfg.methods)

-- allowsMethod and allowsStatusCode are `contains`.
unfoldable pub should_retry : RetryConfig → Text → Outcome → FailureClass → ℤ → Option Error → Bool
should_retry cfg method outcome class status error =
    contains (elements cfg.methods) method && elim outcome [
      | outcome_response_rejected ↦ contains (elements cfg.status_codes) status
      | outcome_timeout ↦ cfg.retry_timeouts
      | outcome_execution_error ↦ transport_allows cfg.transport_errors class error
      | _ ↦ false
    ]
