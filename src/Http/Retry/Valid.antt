-- ===== src/Http/Retry/Valid.antt =====
-- What validation guarantees of a retry policy.
use clientkit.Prelude.{
  ℤ, pos, ◌≡◌, refl, ◌≤ℤ◌, Bool, true, false, not, ◌||◌, ◌==◌, ◌∙◌, List, [], ◌∷◌, All, contains,
  Eq, int_eq, ltb_ℤ, leb_ℤ, Result, ok, ◌>>◌, refuse_if, arith, if◌then◌else◌, >>=-eq-ok,
  Bool-cases, inl, inr,
}
use clientkit.Text.{Text, text_eq}
use clientkit.Text.Trim.{trim_space}
use clientkit.Http.Safety.{valid_transport_retry_mode}
use clientkit.Http.Retry.{
  RetryConfig, elements, is_multiplier, is_valid_method, retry_method_empty, retry_method_invalid,
  retry_duplicate_method, validate_status_codes, validate_methods, validate_backoff,
  validate_retry_after, validate_retry_config, default_retry_config, no_retry_config,
}

-- No element stands twice.
abbrev pub Distinct {ℓ} : {A : Type ℓ} ⦃e : Eq A⦄ → List A → List A → Type 0
Distinct seen [] = Unit
Distinct seen (x ∷ xs) = (contains seen x ≡ false) × Distinct (x ∷ seen) xs

-- A policy that the executor can run.
pub record IsRetryPolicy (cfg : RetryConfig) : Type 0 where
  pub max_attempts : pos 1 ≤ℤ cfg.max_attempts
  pub backoff : pos 0 ≤ℤ cfg.backoff
  pub multiplier : is_multiplier cfg.backoff_multiplier ≡ true
  pub max_backoff : pos 0 ≤ℤ cfg.max_backoff
  pub jitter : pos 0 ≤ℤ cfg.jitter
  pub retry_after :
      (if cfg.respect_retry_after
        then ltb_ℤ (pos 0) cfg.max_retry_after
        else leb_ℤ cfg.max_retry_after (pos 0))
      ≡ true
  pub mode : valid_transport_retry_mode cfg.transport_errors ≡ true
  pub statuses : All (λ s. (pos 100 ≤ℤ s) × (s ≤ℤ pos 599)) (elements cfg.status_codes)
  pub distinct_statuses : Distinct [] (elements cfg.status_codes)
  pub methods : All (λ method. is_valid_method method ≡ true) (elements cfg.methods)
  pub distinct_methods : Distinct [] (elements cfg.methods)

-- What passes two guards and what follows them.
two_guards-ok :
    {E : Type 0} {A : Type 0} (bad seen : Bool) (e f : E) (rest : Result E A) {a : A}
    → (refuse_if bad e >> refuse_if seen f >> rest) ≡ ok a
    → (bad ≡ false) × (seen ≡ false) × (rest ≡ ok a)
two_guards-ok true seen e f rest h = cc
two_guards-ok false true e f rest h = cc
two_guards-ok false false e f rest h = (refl, refl, h)

statuses-ok :
    (seen statuses : List ℤ)
    → validate_status_codes seen statuses ≡ ok tt
    → All (λ s. (pos 100 ≤ℤ s) × (s ≤ℤ pos 599)) statuses × Distinct seen statuses
unfolding validate_status_codes
statuses-ok seen [] h = (tt, tt)
statuses-ok seen (s ∷ statuses) h =
    let (range, new, rest) =
      two_guards-ok (ltb_ℤ s (pos 100) || ltb_ℤ (pos 599) s) (contains seen s) _ _ _ h in
    ground (arith, statuses-ok (s ∷ seen) statuses rest)

methods_guard :
    (method : Text) (seen methods : List Text)
    → (refuse_if
          (trim_space method == [] || not (is_valid_method method))
          (if trim_space method == [] then retry_method_empty else retry_method_invalid method)
        >> refuse_if (contains seen method) (retry_duplicate_method method)
        >> validate_methods (method ∷ seen) methods)
      ≡ validate_methods seen (method ∷ methods)
unfolding validate_methods
methods_guard method seen methods = elim (Bool-cases (trim_space method == [])) [
  | inl e ↦ rw (e, validate_methods) refl
  | inr e ↦ rw (e, validate_methods) refl
]

methods-ok :
    (seen methods : List Text)
    → validate_methods seen methods ≡ ok tt
    → All (λ method. is_valid_method method ≡ true) methods × Distinct seen methods
unfolding validate_methods
methods-ok seen [] h = (tt, tt)
methods-ok seen (method ∷ methods) h =
    let (usable, new, rest) =
      two_guards-ok (trim_space method == [] || not (is_valid_method method)) (contains seen method)
        (if trim_space method == [] then retry_method_empty else retry_method_invalid method) _ _
        (methods_guard method seen methods ∙ h) in
    ground (arith, methods-ok (method ∷ seen) methods rest)

backoff-ok :
    (cfg : RetryConfig)
    → validate_backoff cfg ≡ ok tt
    → (pos 1 ≤ℤ cfg.max_attempts)
      × (pos 0 ≤ℤ cfg.backoff)
      × (is_multiplier cfg.backoff_multiplier ≡ true)
      × (pos 0 ≤ℤ cfg.max_backoff)
backoff-ok cfg h = ground arith

retry_after-ok :
    (cfg : RetryConfig)
    → validate_retry_after cfg ≡ ok tt
    → (pos 0 ≤ℤ cfg.jitter)
      × ((if cfg.respect_retry_after
            then ltb_ℤ (pos 0) cfg.max_retry_after
            else leb_ℤ cfg.max_retry_after (pos 0))
          ≡ true)
      × (valid_transport_retry_mode cfg.transport_errors ≡ true)
retry_after-ok cfg h = ground arith

-- A policy that passes validation can be run: at least one attempt, no negative duration, a finite
-- multiplier, a Retry-After bound exactly where Retry-After is respected, a known transport mode,
-- statuses within 100 to 599, valid methods, and neither a status nor a method twice.
pub validate_retry_config-IsRetryPolicy :
    (cfg : RetryConfig) → validate_retry_config cfg ≡ ok tt → IsRetryPolicy cfg
unfolding validate_retry_config
validate_retry_config-IsRetryPolicy cfg h =
    let (u1, h1, methods) =
      >>=-eq-ok
        (validate_backoff cfg
          >> validate_retry_after cfg
          >> validate_status_codes [] (elements cfg.status_codes))
        _ h in
    let (u2, h2, statuses) = >>=-eq-ok (validate_backoff cfg >> validate_retry_after cfg) _ h1 in
    let (u3, h3, after) = >>=-eq-ok (validate_backoff cfg) _ h2 in
    let b = backoff-ok cfg h3 in
    let a = retry_after-ok cfg after in
    let (range, once) = statuses-ok [] (elements cfg.status_codes) statuses in
    let (usable, different) = methods-ok [] (elements cfg.methods) methods in
    record {
      max_attempts = b.0;
      backoff = b.1;
      multiplier = b.2;
      max_backoff = b.3;
      jitter = a.0;
      retry_after = a.1;
      mode = a.2;
      statuses = range;
      distinct_statuses = once;
      methods = usable;
      distinct_methods = different;
    }

pub default_retry_config-valid : validate_retry_config default_retry_config ≡ ok tt
unfolding validate_retry_config default_retry_config validate_status_codes validate_methods
    is_valid_method trim_space valid_transport_retry_mode
default_retry_config-valid = refl

pub no_retry_config-valid : validate_retry_config no_retry_config ≡ ok tt
unfolding validate_retry_config no_retry_config validate_status_codes validate_methods
    valid_transport_retry_mode
no_retry_config-valid = refl
