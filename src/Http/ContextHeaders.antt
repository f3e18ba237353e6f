-- ===== src/Http/ContextHeaders.antt =====
-- httpclient/context_headers.go: headers that are read from a request's context. A provider is code
-- of the caller, and may panic.
pub mod Injected
use clientkit.Prelude.{
  ℕ, zero, suc, ◌+◌, Bool, true, false, not, ◌&&◌, ◌||◌, Option, none, some, List, [], ◌∷◌, ◌++◌,
  ◌==◌, ltb, leb, nat_eq, every, length, contains, ℤ, pos, negsuc, ltb_ℤ, Call, returned, panicked,
  Result, ok, err, ◌>>=◌, ◌>>◌, refuse_if, recovered, if◌then◌else◌,
}
use clientkit.Text.{Text, text_eq, codes}
use clientkit.Text.Trim.{trim_space}
use clientkit.Http.Header.{
  Header, valid_http_field_name, canonical_mime_header_key, header_is_present, set_context_header,
}

-- HeaderValueProvider: a nil interface, a nil HeaderValueProviderFunc, or code.
pub data HeaderValueProvider (Context : Type 0) : Type 0 where
  nil_provider : HeaderValueProvider Context
  nil_provider_func : HeaderValueProvider Context
  provider : (Context → Call (Text × Bool)) → HeaderValueProvider Context

-- `existing_other` is a text outside the vocabulary.
pub data ExistingHeaderPolicy : Type 0 where
  preserve_existing_header : ExistingHeaderPolicy
  overwrite_existing_header : ExistingHeaderPolicy
  existing_other : Text → ExistingHeaderPolicy

abbrev pub default_context_header_max_value_bytes : ℤ
default_context_header_max_value_bytes = pos 256

abbrev pub default_request_id_header : Text
default_request_id_header = codes "X-Request-ID"

abbrev pub default_correlation_id_header : Text
default_correlation_id_header = codes "X-Correlation-ID"

pub data ContextHeaderError : Type 0 where
  header_name_required : ContextHeaderError
  header_surrounding_space : Text → ContextHeaderError
  header_name_invalid : Text → ContextHeaderError
  provider_required : Text → ContextHeaderError
  existing_policy_invalid : Text → ContextHeaderError
  max_value_bytes_negative : ContextHeaderError
  max_value_bytes_and_disabled : ContextHeaderError
  duplicate_header : Text → ContextHeaderError
  request_id_provider_required : ContextHeaderError
  correlation_id_provider_required : ContextHeaderError

module _ (Context : Type 0) where
  pub record ContextHeaderBinding : Type 0 where
    pub header : Text
    pub provider : HeaderValueProvider Context
    pub existing_policy : ExistingHeaderPolicy
    pub max_value_bytes : ℤ
    pub disable_value_limit : Bool

  pub record RequestMetadataConfig : Type 0 where
    pub request_id : HeaderValueProvider Context
    pub request_id_header : Text
    pub correlation_id : HeaderValueProvider Context
    pub correlation_id_header : Text
    pub existing_policy : ExistingHeaderPolicy
    pub max_value_bytes : ℤ
    pub disable_value_limit : Bool

  pub record NormalizedContextHeaderBinding : Type 0 where
    pub header : Text
    pub provider : Context → Call (Text × Bool)
    pub existing_policy : ExistingHeaderPolicy
    pub max_value_bytes : ℤ

unfoldable pub validate_existing_header_policy :
    ExistingHeaderPolicy → Result ContextHeaderError (Unit {0})
validate_existing_header_policy (existing_other text) = err (existing_policy_invalid text)
validate_existing_header_policy _ = ok tt

unfoldable pub normalize_context_header_value_limit : ℤ → Bool → Result ContextHeaderError ℤ
normalize_context_header_value_limit (negsuc n) disabled = err max_value_bytes_negative
normalize_context_header_value_limit (pos (suc n)) true = err max_value_bytes_and_disabled
normalize_context_header_value_limit (pos zero) true = ok (pos 0)
normalize_context_header_value_limit (pos zero) false = ok default_context_header_max_value_bytes
normalize_context_header_value_limit (pos (suc n)) false = ok (pos (suc n))

abbrev header_or : Text → Text → Text
header_or [] default = default
header_or header default = header

module _ {Context : Type 0} where
  abbrev pub present_provider :
      Text → HeaderValueProvider Context → Result ContextHeaderError (Context → Call (Text × Bool))
  present_provider header nil_provider = err (provider_required header)
  present_provider header nil_provider_func = err (provider_required header)
  present_provider header (provider f) = ok f

  unfoldable pub normalize_context_header_binding :
      ContextHeaderBinding Context
      → Result ContextHeaderError (NormalizedContextHeaderBinding Context)
  normalize_context_header_binding binding = do
    let header = trim_space binding.header
    refuse_if (header == []) header_name_required
    refuse_if (not (header == binding.header)) (header_surrounding_space binding.header)
    refuse_if (not (valid_http_field_name header)) (header_name_invalid header)
    let canonical = canonical_mime_header_key header
    read ← present_provider canonical binding.provider
    validate_existing_header_policy binding.existing_policy
    limit ← normalize_context_header_value_limit binding.max_value_bytes binding.disable_value_limit
    ok (record {
      header = canonical;
      provider = read;
      existing_policy = binding.existing_policy;
      max_value_bytes = limit;
    })

  -- The loop of NewContextHeaderPropagator; `headers` are the names so far.
  unfoldable pub normalize_bindings :
      List Text
      → List (ContextHeaderBinding Context)
      → Result ContextHeaderError (List (NormalizedContextHeaderBinding Context))
  normalize_bindings headers [] = ok []
  normalize_bindings headers (binding ∷ bindings) =
      elim (normalize_context_header_binding binding) [
        | err e ↦ err e
        | ok b ↦ elim (contains headers b.header) [
          | true ↦ err (duplicate_header b.header)
          | false ↦ elim (normalize_bindings (b.header ∷ headers) bindings) [
            | err e ↦ err e
            | ok bs ↦ ok (b ∷ bs)
          ]
        ]
      ]

  -- NewContextHeaderPropagator; no bindings are the NopHeaderPropagator.
  unfoldable pub new_context_header_propagator :
      List (ContextHeaderBinding Context)
      → Result ContextHeaderError (List (NormalizedContextHeaderBinding Context))
  new_context_header_propagator bindings = normalize_bindings [] bindings

  abbrev is_nil_provider : HeaderValueProvider Context → Bool
  is_nil_provider nil_provider = true
  is_nil_provider _ = false

  -- The binding for a provider that is not nil.
  abbrev bind_metadata :
      RequestMetadataConfig Context
      → HeaderValueProvider Context
      → Text
      → List (ContextHeaderBinding Context)
  bind_metadata cfg read header =
      if is_nil_provider read
      then []
      else record {
        header = header;
        provider = read;
        existing_policy = cfg.existing_policy;
        max_value_bytes = cfg.max_value_bytes;
        disable_value_limit = cfg.disable_value_limit;
      }
        ∷ []

  unfoldable pub request_metadata_bindings :
      RequestMetadataConfig Context → List (ContextHeaderBinding Context)
  request_metadata_bindings cfg =
      bind_metadata cfg cfg.request_id (header_or cfg.request_id_header default_request_id_header)
      ++ bind_metadata cfg cfg.correlation_id
          (header_or cfg.correlation_id_header default_correlation_id_header)

  unfoldable pub new_request_metadata_propagator :
      RequestMetadataConfig Context
      → Result ContextHeaderError (List (NormalizedContextHeaderBinding Context))
  new_request_metadata_propagator cfg = do
    refuse_if (is_nil_provider cfg.request_id && not (cfg.request_id_header == []))
        request_id_provider_required
    refuse_if (is_nil_provider cfg.correlation_id && not (cfg.correlation_id_header == []))
        correlation_id_provider_required
    validate_existing_header_policy cfg.existing_policy
    limit ← normalize_context_header_value_limit cfg.max_value_bytes cfg.disable_value_limit
    new_context_header_propagator (request_metadata_bindings cfg)

-- A tab, or a byte that is no ASCII control character.
unfoldable pub valid_value_byte : ℕ → Bool
valid_value_byte c = c == 9 || (leb 0x20 c && not (c == 0x7F))

unfoldable pub valid_context_header_value : Text → ℤ → Bool
valid_context_header_value [] limit = false
valid_context_header_value (c ∷ s) limit =
    not (ltb_ℤ (pos 0) limit && ltb_ℤ limit (pos (length (c ∷ s))))
    && every valid_value_byte (c ∷ s)

abbrev pub write_value : Header → Text → Option Text → Header
write_value headers name none = headers
write_value headers name (some value) = set_context_header headers name value

abbrev is_preserve : ExistingHeaderPolicy → Bool
is_preserve preserve_existing_header = true
is_preserve _ = false

module _ {Context : Type 0} where
  -- contextHeaderValue.
  unfoldable pub context_header_value : (Context → Call (Text × Bool)) → Context → Text × Bool
  context_header_value read context = recovered ([], false) (read context)

  -- The value that a binding gives to a header of these headers, if it gives one.
  unfoldable pub accepted_value :
      NormalizedContextHeaderBinding Context → Context → Header → Option Text
  accepted_value b context headers =
      let preserve = is_preserve b.existing_policy && header_is_present headers b.header in
      let (value, there) = context_header_value b.provider context in
      if preserve || not there || not (valid_context_header_value value b.max_value_bytes)
      then none
      else some value

  -- The loop of Inject.
  unfoldable pub inject_bindings :
      List (NormalizedContextHeaderBinding Context) → Context → Header → Header
  inject_bindings [] context headers = headers
  inject_bindings (b ∷ bs) context headers =
      inject_bindings bs context (write_value headers b.header (accepted_value b context headers))

  -- contextHeaderPropagator.Inject, where a nil context is the background's.
  unfoldable pub inject_context_headers :
      Context
      → List (NormalizedContextHeaderBinding Context)
      → Option Context
      → Option Header
      → Option Header
  inject_context_headers background bs context none = none
  inject_context_headers background bs none (some headers) =
      some (inject_bindings bs background headers)
  inject_context_headers background bs (some context) (some headers) =
      some (inject_bindings bs context headers)
