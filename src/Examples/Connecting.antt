-- ===== src/Examples/Connecting.antt =====
-- Examples for the TCP client: a handshake that fails, and a probe that finds the service degraded.
use clientkit.Prelude.{
  false, ℕ, [], refl, ◌+◌, ◌≤◌, ◌<◌, ◌⊎◌, pos, arith, ◌≡◌, ◌≢◌, true, none, some, ◌++◌, returned,
}
use clientkit.Text.{codes}
use clientkit.Failure.{failure_none}
use clientkit.Health.{health_unknown, health_degraded, is_healthy_state}
use clientkit.Fault.{other_fault, plain}
use clientkit.Client.{Client}
use clientkit.Readiness.{readiness_required}
use clientkit.Tcp.Dial.{DialMeeting, dial_observed}
use clientkit.Tcp.Dial.Owned.{
  opened_by, closed_by, to_list, dial_agree, ExactlyOne, dial_observed_lem,
}
use clientkit.Tcp.Check.{check, tcp_health, TcpCheckMeeting, check_assessment, check_effects}
use clientkit.Tcp.Check.Cached.{IsRecorded, check-current}
use clientkit.Tcp.Check.Assessed.{IsCoherent, HasPassed, check_assessment_lem}

abbrev refused_handshake : DialMeeting
refused_handshake = record {
  custom = true;
  before = none;
  dialed = some 7;
  dial_error = none;
  after = none;
  handshake_error = some (plain (other_fault (codes "bad certificate")));
  version = 0;
}

dial_observed_lem_example :
    let r = dial_observed true refused_handshake in
    ExactlyOne r.connection r.error
    × (opened_by r.effects ≡ closed_by r.effects ++ to_list r.connection)
    × (dial_agree r.outcome r.failure_class ≡ true)
dial_observed_lem_example = dial_observed_lem true refused_handshake

abbrev degraded_probe : TcpCheckMeeting
degraded_probe = record {
  dial = record refused_handshake { handshake_error = none; version = 0x0304 };
  probe = some (
      returned (record {
        state = health_degraded;
        failure_class = failure_none;
        message = codes "replica lag";
      }));
  probe_ended = none;
  started_at = 10;
  ended_at = 25;
}

check_assessment_lem_example :
    let a = check_assessment true degraded_probe in
    IsCoherent a
    × (is_healthy_state a.state ≡ true
        → ((dial_observed true degraded_probe.dial).connection ≢ none) × HasPassed degraded_probe)
    × (opened_by (check_effects true degraded_probe)
        ≡ closed_by (check_effects true degraded_probe))
check_assessment_lem_example = check_assessment_lem true degraded_probe

abbrev cache : Client
cache = record {
  name = codes "database";
  readiness_policy = readiness_required;
  health_sanitizer = none;
  disable_health_sanitizer = false;
  health = record {
    state = health_unknown;
    failure_class = failure_none;
    checked_at = 0;
    duration = pos 0;
    message = [];
  };
}

check-current_example :
    let (after, health, event) = check cache true degraded_probe [] in
    IsRecorded cache (check_assessment true degraded_probe) degraded_probe [] (after, health, event)
    × ((now : ℕ)
        → let shown = tcp_health (record cache { health = health }) true (pos 100) now in
          (25 ≤ now → now ≤ 25 + 100 → shown ≡ health)
          × ((now < 25) ⊎ (25 + 100 < now) → shown.state ≡ health_unknown))
check-current_example =
    check-current cache true degraded_probe [] 100 refl refl (omega arith) (omega arith)
