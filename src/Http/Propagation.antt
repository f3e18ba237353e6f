-- ===== src/Http/Propagation.antt =====
-- httpclient/propagation.go: propagators that write into the headers of a request, and the transport
-- that runs them. A propagator is code of the caller: it changes the header and returns or panics.
pub mod Restored
pub mod RoundTrip
use clientkit.Prelude.{
  Bool, true, false, Option, none, some, List, [], ◌∷◌, map, Call, returned, panicked,
}
use clientkit.Text.{Text, text_eq}
use clientkit.Dict.{insert}
use clientkit.Fault.{Error, plain, transport_no_response}
use clientkit.Http.Header.{Header}
use clientkit.Http.Response.{Response}

module _ (Context : Type 0) where
  abbrev pub HeaderPropagator : Type 0
  HeaderPropagator = Context → Header → Header × Call (Unit {0})

  -- A HeaderPropagator value by its dynamic type, which SafeHeaderPropagator asks for.
  pub data PropagatorValue : Type 0 where
    nop_propagator : PropagatorValue
    safe_propagator : HeaderPropagator → PropagatorValue
    multi_propagator : List HeaderPropagator → PropagatorValue
    custom_propagator : HeaderPropagator → PropagatorValue

abbrev copy_into : Header → Header → Header
copy_into headers [] = headers
copy_into headers ((key, values) ∷ backup) = copy_into (insert key values headers) backup

-- The header is cleared, and the backup copied into it.
unfoldable pub restore_headers : Header → Header → Header
restore_headers headers backup = copy_into [] backup

abbrev pub contain_injection : Header → Header × Call (Unit {0}) → Header
contain_injection backup (headers, returned u) = headers
contain_injection backup (headers, panicked) = restore_headers headers backup

module _ {Context : Type 0} where
  unfoldable pub inject_header_safely : HeaderPropagator Context → Context → Header → Header
  inject_header_safely propagator context headers =
      contain_injection headers (propagator context headers)

  -- The loop of multiHeaderPropagator.Inject.
  unfoldable pub inject_all : List (HeaderPropagator Context) → Context → Header → Header
  inject_all [] context headers = headers
  inject_all (propagator ∷ propagators) context headers =
      inject_all propagators context (inject_header_safely propagator context headers)

  -- What Inject of a propagator value runs.
  abbrev pub inject : PropagatorValue Context → HeaderPropagator Context
  inject nop_propagator context headers = (headers, returned tt)
  inject (safe_propagator propagator) context headers =
      (inject_header_safely propagator context headers, returned tt)
  inject (multi_propagator propagators) context headers =
      (inject_all propagators context headers, returned tt)
  inject (custom_propagator propagator) context headers = propagator context headers

  unfoldable pub safe_header_propagator : Option (PropagatorValue Context) → PropagatorValue Context
  safe_header_propagator none = nop_propagator
  safe_header_propagator (some (custom_propagator propagator)) = safe_propagator propagator
  safe_header_propagator (some propagator) = propagator

  unfoldable pub usable_propagators :
      List (Option (PropagatorValue Context)) → List (PropagatorValue Context)
  usable_propagators [] = []
  usable_propagators (none ∷ propagators) = usable_propagators propagators
  usable_propagators (some propagator ∷ propagators) = propagator ∷ usable_propagators propagators

  abbrev pub compose_propagators : List (PropagatorValue Context) → PropagatorValue Context
  compose_propagators [] = nop_propagator
  compose_propagators (propagator ∷ []) = safe_header_propagator (some propagator)
  compose_propagators (first ∷ second ∷ others) =
      multi_propagator (inject first ∷ inject second ∷ map inject others)

  unfoldable pub multi_header_propagator :
      List (Option (PropagatorValue Context)) → PropagatorValue Context
  multi_header_propagator propagators = compose_propagators (usable_propagators propagators)

-- What one round trip meets: the context's error before the base transport is called, what that
-- answers, and the context's error after it.
pub record Trip : Type 0 where
  pub before : Option Error
  pub answer : Option Response
  pub failure : Option Error
  pub after : Option Error

-- What it gives: the response and the error that the caller gets, whether the base transport was
-- called, whether the request's body was closed, and the responses that were closed.
pub record Returned : Type 0 where
  pub response : Option Response
  pub error : Option Error
  pub called : Bool
  pub request_closed : Bool
  pub closed : List Response

-- closeResponse does nothing where there is no response.
abbrev pub close_response : Option Response → List Response
close_response none = []
close_response (some response) = response ∷ []

abbrev pub failed_trip : Error → List Response → Returned
failed_trip error closed = record {
  response = none;
  error = some error;
  called = true;
  request_closed = false;
  closed = closed;
}

-- The tests after base.RoundTrip.
abbrev answered_trip : Option Response → Option Error → Returned
answered_trip (some response) (some error) = failed_trip error (response ∷ [])
answered_trip none none = failed_trip (plain transport_no_response) []
answered_trip (some response) none = record {
  response = some response;
  error = none;
  called = true;
  request_closed = false;
  closed = [];
}
answered_trip none (some error) = failed_trip error []

abbrev after_base : Trip → Option Error → Returned
after_base t (some error) = failed_trip error (close_response t.answer)
after_base t none = answered_trip t.answer t.failure

abbrev pub not_sent : Error → Returned
not_sent error = record {
  response = none;
  error = some error;
  called = false;
  request_closed = true;
  closed = [];
}

abbrev before_base : Trip → Option Error → Returned
before_base t (some error) = not_sent error
before_base t none = after_base t t.after

-- propagatingRoundTripper.RoundTrip.
unfoldable pub propagating_round_trip : Trip → Returned
propagating_round_trip t = before_base t t.before
