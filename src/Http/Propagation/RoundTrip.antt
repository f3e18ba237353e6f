-- ===== src/Http/Propagation/RoundTrip.antt =====
-- What becomes of the responses and of the request's body in a round trip.
use clientkit.Prelude.{◌≡◌, ◌≢◌, refl, true, false, not, Option, none, some, ◌++◌}
use clientkit.Fault.{Error}
use clientkit.Http.Response.{Response}
use clientkit.Http.Propagation.{Trip, Returned, close_response, propagating_round_trip}
use clientkit.Telemetry.Transport.{telemetry_round_trip}

-- The response and the error of a round trip are never both there nor both missing.
abbrev pub ExactlyOne : Option Response → Option Error → Type 0
ExactlyOne none none = ⊥
ExactlyOne (some response) (some error) = ⊥
ExactlyOne _ _ = Unit

-- What the two transports agree on, and what becomes of the responses and the request's body.
pub record IsSettled (t : Trip) (r : Returned) : Type 0 where
  pub one : ExactlyOne r.response r.error
  pub sent_or_closed : r.called ≡ not r.request_closed
  pub unsent : t.before ≢ none → r.called ≡ false
  pub kept_or_closed :
      t.before ≡ none
      → (r.called ≡ true) × (close_response r.response ++ r.closed ≡ close_response t.answer)

abbrev trip_of : Option Error → Option Error → Option Response → Option Error → Trip
trip_of before after answer failure = record {
  before = before;
  after = after;
  answer = answer;
  failure = failure;
}

abbrev AreSettled : Trip → Type 0
AreSettled t =
    (propagating_round_trip t ≡ telemetry_round_trip t) × IsSettled t (propagating_round_trip t)

answered-AreSettled :
    (answer : Option Response) (failure : Option Error)
    → AreSettled (trip_of none none answer failure)
unfolding propagating_round_trip telemetry_round_trip
answered-AreSettled none none = (
  refl,
  record {
    one = tt;
    sent_or_closed = refl;
    unsent = λ e. absurd (e refl);
    kept_or_closed = λ e. (refl, refl);
  },
)
answered-AreSettled none (some f) = (
  refl,
  record {
    one = tt;
    sent_or_closed = refl;
    unsent = λ e. absurd (e refl);
    kept_or_closed = λ e. (refl, refl);
  },
)
answered-AreSettled (some r) none = (
  refl,
  record {
    one = tt;
    sent_or_closed = refl;
    unsent = λ e. absurd (e refl);
    kept_or_closed = λ e. (refl, refl);
  },
)
answered-AreSettled (some r) (some f) = (
  refl,
  record {
    one = tt;
    sent_or_closed = refl;
    unsent = λ e. absurd (e refl);
    kept_or_closed = λ e. (refl, refl);
  },
)

ended-AreSettled :
    (ended : Error) (answer : Option Response) (failure : Option Error)
    → AreSettled (trip_of none (some ended) answer failure)
unfolding propagating_round_trip telemetry_round_trip
ended-AreSettled ended none failure = (
  refl,
  record {
    one = tt;
    sent_or_closed = refl;
    unsent = λ e. absurd (e refl);
    kept_or_closed = λ e. (refl, refl);
  },
)
ended-AreSettled ended (some r) failure = (
  refl,
  record {
    one = tt;
    sent_or_closed = refl;
    unsent = λ e. absurd (e refl);
    kept_or_closed = λ e. (refl, refl);
  },
)

-- The transport that propagates headers and the one that records telemetry return the same and close
-- the same, whatever they meet. Either a response or an error is returned, not both. If the context
-- had ended, the base transport was not called and the request's body is closed; otherwise it was
-- called, the body was left to it, and a response that it gave is either returned or closed, once.
pub round_trip_lem :
    (t : Trip)
    → (propagating_round_trip t ≡ telemetry_round_trip t) × IsSettled t (propagating_round_trip t)
unfolding propagating_round_trip telemetry_round_trip
round_trip_lem t = met t.before t.after
  where
    met : (before after : Option Error) → AreSettled (trip_of before after t.answer t.failure)
    met none none = answered-AreSettled t.answer t.failure
    met none (some ended) = ended-AreSettled ended t.answer t.failure
    met (some ended) after = (
      refl,
      record { one = tt; sent_or_closed = refl; unsent = λ e. refl; kept_or_closed = λ e. cc },
    )
