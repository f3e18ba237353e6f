-- ===== src/Examples/Sending.antt =====
-- Examples for headers, propagators and the telemetry of a request.
use clientkit.Prelude.{
  ℤ, ℕ, ◌≡◌, refl, subst, ap, true, false, none, some, List, [], ◌∷◌, ◌++◌, pos, All, Call,
  returned, panicked, ok,
}
use clientkit.Text.{Text, text_eq, codes}
use clientkit.Text.Trim.{trim_space}
use clientkit.Dict.{lookup, NodupKeys}
use clientkit.Fault.{plain, context_canceled}
use clientkit.Failure.{failure_none}
use clientkit.Http.Header.{
  Header, equal_fold, http_token_byte, valid_http_field_name, canonical_mime_header_key,
  canonical_from,
}
use clientkit.Http.ContextHeaders.{
  ContextHeaderBinding, NormalizedContextHeaderBinding, provider, preserve_existing_header,
  overwrite_existing_header, new_context_header_propagator, normalize_bindings,
  normalize_context_header_binding, validate_existing_header_policy,
  normalize_context_header_value_limit, accepted_value, inject_bindings,
}
use clientkit.Http.ContextHeaders.Injected.{IsWritten, inject_bindings_lem}
use clientkit.Http.Propagation.{HeaderPropagator, Trip, inject_all, propagating_round_trip}
use clientkit.Http.Propagation.Restored.{inject_all-panics}
use clientkit.Http.Propagation.RoundTrip.{IsSettled, round_trip_lem}
use clientkit.Telemetry.Transport.{telemetry_round_trip}
use clientkit.Telemetry.Attributes.{is_blank, merge_attributes, merge_loop, pairs, event_attributes}
use clientkit.Telemetry.Attributes.Merged.{inserted, last_value, merge_attributes_lem}
use clientkit.Observer.{OperationStartEvent, operation_kind_logical, OperationEndEvent}
use clientkit.Telemetry.Slog.{
  LogRecord, SlogObserver, SlogObservation, default_level_config, start_slog_operation, logs_at,
}
use clientkit.Telemetry.Slog.Once.{IsLevelOf, end_each, end_each-once}
use clientkit.Examples.Serving.{fine}

-- The context is the value that the providers read.
abbrev request_id_binding : ContextHeaderBinding Text
request_id_binding = record {
  header = codes "x-request-id";
  provider = provider (λ context. returned (context, true));
  existing_policy = overwrite_existing_header;
  max_value_bytes = pos 0;
  disable_value_limit = false;
}

abbrev tenant_binding : ContextHeaderBinding Text
tenant_binding = record request_id_binding {
  header = codes "X-Tenant";
  existing_policy = preserve_existing_header;
}

abbrev normalized_request_id : NormalizedContextHeaderBinding Text
normalized_request_id = record {
  header = codes "X-Request-Id";
  provider = λ context. returned (context, true);
  existing_policy = overwrite_existing_header;
  max_value_bytes = pos 256;
}

abbrev normalized_tenant : NormalizedContextHeaderBinding Text
normalized_tenant = record normalized_request_id {
  header = codes "X-Tenant";
  existing_policy = preserve_existing_header;
}

abbrev bindings : List (ContextHeaderBinding Text)
bindings = request_id_binding ∷ tenant_binding ∷ []

abbrev normalized : List (NormalizedContextHeaderBinding Text)
normalized = normalized_request_id ∷ normalized_tenant ∷ []

bindings_valid : new_context_header_propagator bindings ≡ ok normalized
unfolding new_context_header_propagator normalize_bindings normalize_context_header_binding
    trim_space valid_http_field_name http_token_byte validate_existing_header_policy
    normalize_context_header_value_limit canonical_mime_header_key canonical_from
bindings_valid = refl

abbrev sent_headers : Header
sent_headers =
    (codes "X-REQUEST-ID", codes "old" ∷ [])
    ∷ (codes "X-Tenant", codes "acme" ∷ [])
    ∷ (codes "Accept", codes "*/*" ∷ [])
    ∷ []

inject_bindings_lem_example :
    All
      (λ b.
        IsWritten b.header sent_headers
          (inject_bindings normalized (codes "r-1") sent_headers)
          (accepted_value b (codes "r-1") sent_headers))
      normalized
    × ((key : Text)
        → All (λ b. equal_fold key b.header ≡ false) normalized
        → lookup key (inject_bindings normalized (codes "r-1") sent_headers)
          ≡ lookup key sent_headers)
inject_bindings_lem_example =
    inject_bindings_lem bindings normalized (codes "r-1") sent_headers bindings_valid

abbrev clearing : HeaderPropagator Text
clearing context headers = ([], panicked)

abbrev keeping : HeaderPropagator Text
keeping context headers = (headers, returned tt)

keeping-keeps :
    (context : Text) (headers after : Header)
    → NodupKeys headers
    → keeping context headers ≡ (after, returned tt)
    → NodupKeys after
keeping-keeps context headers after u e =
    subst NodupKeys (ap (λ (p : Header × Call (Unit {0})). p.0) e) u

sent_headers-nodup : NodupKeys sent_headers
unfolding lookup
sent_headers-nodup = (refl, (refl, (refl, tt)))

inject_all-panics_example :
    inject_all (keeping ∷ clearing ∷ keeping ∷ []) [] sent_headers
    ≡ inject_all (keeping ∷ keeping ∷ []) [] sent_headers
inject_all-panics_example =
    inject_all-panics (keeping ∷ []) (keeping ∷ []) clearing [] sent_headers (λ found. refl)
      (keeping-keeps, tt) sent_headers-nodup

abbrev both_answers : Trip
both_answers = record {
  before = none;
  answer = some fine;
  failure = some (plain context_canceled);
  after = none;
}

round_trip_lem_example :
    (propagating_round_trip both_answers ≡ telemetry_round_trip both_answers)
    × IsSettled both_answers (propagating_round_trip both_answers)
round_trip_lem_example = round_trip_lem both_answers

abbrev repeated : List (Text × Text)
repeated =
    (codes "client", codes "a")
    ∷ (codes " ", codes "b")
    ∷ (codes "region", codes "c")
    ∷ (codes "client", codes "d")
    ∷ []

merge_attributes_lem_example :
    (merge_attributes repeated ≡ inserted repeated [])
    × NodupKeys (merge_attributes repeated)
    × ((key : Text)
        → is_blank key ≡ false
        → lookup key (merge_attributes repeated) ≡ last_value key repeated none)
merge_attributes_lem_example = merge_attributes_lem repeated

abbrev logged_observer : SlogObserver ℕ
logged_observer = record {
  logger = some (some (λ level. true));
  levels = default_level_config;
  attributes = 1 ∷ [];
  error_details = false;
}

abbrev get_started : OperationStartEvent
get_started = record {
  kind = operation_kind_logical;
  client = codes "billing";
  protocol = codes "http";
  operation = codes "get";
  started_at = 5;
  attributes = [];
}

abbrev get_observation : SlogObservation ℕ
get_observation = record {
  once_done = false;
  observer = logged_observer;
  client = codes "billing";
  protocol = codes "http";
  operation = codes "get";
  attributes = [];
}

abbrev get_ended : OperationEndEvent
get_ended = record {
  client = [];
  protocol = [];
  operation = [];
  started_at = 5;
  ended_at = 9;
  duration = pos 4;
  attempts = pos 1;
  outcome = codes "success";
  succeeded = true;
  failure_class = failure_none;
  error = some (plain context_canceled);
  attributes = [];
}

get_observed : start_slog_operation (some logged_observer) get_started ≡ some get_observation
unfolding start_slog_operation event_attributes merge_attributes merge_loop pairs
get_observed = refl

end_each-once_example :
    (level : ℤ) × IsLevelOf logged_observer.levels get_ended level
    × (logs_at logged_observer.logger level ≡ false
        → (end_each get_observation ((9, get_ended) ∷ (9, get_ended) ∷ []) []).1 ≡ [])
    × (logs_at logged_observer.logger level ≡ true
        → (r : LogRecord ℕ) × ((end_each get_observation
              ((9, get_ended) ∷ (9, get_ended) ∷ [])
              []).1
            ≡ [] ++ r ∷ [])
          × (r.level ≡ level)
          × (r.common ≡ logged_observer.attributes))
end_each-once_example =
    end_each-once logged_observer get_started get_observation 9 get_ended ((9, get_ended) ∷ []) []
      get_observed
