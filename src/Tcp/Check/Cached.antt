-- ===== src/Tcp/Check/Cached.antt =====
-- What tcpclient/check.go leaves in the client, and what Health reads of it later.
use mathlib.Core.Option.{none-ne-some}
use clientkit.Prelude.{
  ℕ, ◌≡◌, refl, sym, subst, ◌+◌, ◌≤◌, ◌<◌, ◌⊎◌, Bool, true, false, Option, none, some, List, pos,
  arith, true-ne-false, nat_eq,
}
use clientkit.Text.{codes}
use clientkit.Health.{
  Health, HealthState, health_unknown, health_healthy, health_degraded, health_unhealthy,
  health_other, HealthSanitizer, sanitize_health_safely_with_panic,
}
use clientkit.Health.Sanitizer.{IsRecognized, IsSanitary, default_health_sanitizer_lem}
use clientkit.Opskit.{Attribute}
use clientkit.Observer.{HealthEvent}
use clientkit.Client.{
  Client, HealthAssessment, assessed_health, health_event, record_health, update_health,
}
use clientkit.Client.Current.{project_staleness-fresh, project_staleness-stale}
use clientkit.Tcp.Check.{TcpCheckMeeting, check_assessment, check, tcp_health}
use clientkit.Tcp.Check.Assessed.{is_decided, check_assessment_lem}

decided-IsRecognized : (s : HealthState) → is_decided s ≡ true → IsRecognized s
decided-IsRecognized health_healthy h = tt
decided-IsRecognized health_degraded h = tt
decided-IsRecognized health_unhealthy h = tt
decided-IsRecognized health_unknown h = tt
decided-IsRecognized (health_other state) h = true-ne-false h refl

-- The client, the health and the event of a check.
abbrev pub IsRecorded :
    Client
    → HealthAssessment
    → TcpCheckMeeting
    → List Attribute
    → Option Client × Health × HealthEvent
    → Type 0
IsRecorded c a m attributes (after, health, event) =
    (after ≡ some (record c { health = health }))
    × (event ≡ health_event c.name (codes "tcp") health attributes)
    × IsSanitary health
    × (health.state ≡ a.state)
    × (health.checked_at ≡ m.ended_at)

record_health-default :
    (c : Client) (a : HealthAssessment) (m : TcpCheckMeeting) (attributes : List Attribute)
    → c.health_sanitizer ≡ none
    → c.disable_health_sanitizer ≡ false
    → is_decided a.state ≡ true
    → IsRecorded c a m attributes
        (record_health (some c) (codes "tcp") a m.started_at m.ended_at attributes)
unfolding record_health update_health sanitize_health_safely_with_panic
record_health-default c a m attributes none_set enabled decided =
    met c.health_sanitizer c.disable_health_sanitizer none_set enabled
  where
    met :
        (sanitizer : Option HealthSanitizer) (disabled : Bool)
        → sanitizer ≡ none
        → disabled ≡ false
        → let d = record c { health_sanitizer = sanitizer; disable_health_sanitizer = disabled } in
          IsRecorded d a m attributes
            (record_health (some d) (codes "tcp") a m.started_at m.ended_at attributes)
    met none false e f =
        let (sanitary, again, time, state) =
          default_health_sanitizer_lem c.name (assessed_health a m.started_at m.ended_at) in
        (refl, refl, sanitary, state (decided-IsRecognized a.state decided), time)
    met none true e f = true-ne-false refl f
    met (some sanitizer) disabled e f = absurd (none-ne-some sanitizer (sym e))

-- A check of a client with the default sanitizer stores, returns and reports one and the same
-- sanitary health, which has the state that was assessed and the time at which the check ended. As
-- long as it is at most `stale` old, Health shows it, and before that time and afterwards it shows
-- the state as unknown.
pub check-current :
    (c : Client) (tls : Bool) (m : TcpCheckMeeting) (attributes : List Attribute) (stale : ℕ)
    → c.health_sanitizer ≡ none
    → c.disable_health_sanitizer ≡ false
    → 0 < stale
    → 0 < m.ended_at
    → let (after, health, event) = check c tls m attributes in
      IsRecorded c (check_assessment tls m) m attributes (after, health, event)
      × ((now : ℕ)
          → let shown = tcp_health (record c { health = health }) true (pos stale) now in
            (m.ended_at ≤ now → now ≤ m.ended_at + stale → shown ≡ health)
            × ((now < m.ended_at) ⊎ (m.ended_at + stale < now) → shown.state ≡ health_unknown))
unfolding check tcp_health
check-current c tls m attributes stale none_set enabled some_stale some_time =
    let a = check_assessment tls m in
    let recorded =
      record_health-default c a m attributes none_set enabled (check_assessment_lem tls m).0.0 in
    let health = (check c tls m attributes).1 in
    let time = recorded.4 in
    let name = codes "TCP health check" in
    (
      recorded,
      λ now. (
        λ from to.
            project_staleness-fresh health stale name now (omega (arith, some_time, time))
              (omega (arith, from, time)) (omega (arith, to, time)),
        λ outside.
            project_staleness-stale health stale name now some_stale
              (subst (λ t. (now < t) ⊎ (t + stale < now)) (sym time) outside),
      ),
    )
