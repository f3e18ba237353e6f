-- ===== src/Projection/Agreement.antt =====
-- How Status, Readiness and check results of opskit.go relate to the policies.
use clientkit.Prelude.{
  ◌≡◌, refl, ap, Bool, true, false, not, ◌&&◌, ◌||◌, List, [], ◌∷◌, All, every, ◌∙◌, if◌then◌else◌,
  arith,
}
use clientkit.Text.{codes}
use clientkit.Readiness.{
  ReadinessPolicy, readiness_unset, readiness_required, readiness_optional,
  readiness_degraded_allowed, readiness_informational, readiness_other, validate_readiness_policy,
  normalize_readiness_policy, blocks_readiness, readiness_satisfied, participates_in_readiness,
}
use clientkit.Health.{
  HealthState, health_unknown, health_healthy, health_degraded, health_unhealthy, health_other,
  is_healthy_state,
}
use clientkit.Snapshot.{ClientSnapshot}
use clientkit.Opskit.{Opskit}
use clientkit.Projection.{
  StatusFlags, is_unknown_state, status_round, status_loop, status_of_flags, no_flags, status,
  item_ready, ReadinessRun, readiness_round, readiness_loop, readiness_start, readiness_of_run,
  readiness, check_verdict,
}

-- The client's health satisfies its policy; it does and is healthy; it does not for a known reason.
abbrev pub satisfied : ClientSnapshot → Bool
satisfied c = readiness_satisfied c.readiness_policy c.health.state

abbrev pub is_healthy : ClientSnapshot → Bool
is_healthy c = is_healthy_state c.health.state

abbrev pub not_known_failing : ClientSnapshot → Bool
not_known_failing c = satisfied c || is_unknown_state c.health.state

abbrev not_unknown_failing : ClientSnapshot → Bool
not_unknown_failing c = satisfied c || not (is_unknown_state c.health.state)

abbrev not_degraded : ClientSnapshot → Bool
not_degraded c = not (satisfied c) || is_healthy c

abbrev pub HasPolicy : ClientSnapshot → Type 0
HasPolicy c = validate_readiness_policy c.readiness_policy ≡ true

-- What the status loop leaves in each flag.
abbrev flags_after : StatusFlags → List ClientSnapshot → StatusFlags
flags_after flags cs = record {
  blocking_unhealthy = flags.blocking_unhealthy || not (every not_known_failing cs);
  blocking_unknown = flags.blocking_unknown || not (every not_unknown_failing cs);
  degraded = flags.degraded || not (every not_degraded cs);
}

round-flags_after :
    (flags : StatusFlags) (c : ClientSnapshot) (cs : List ClientSnapshot)
    → flags_after (status_round flags c) cs ≡ flags_after flags (c ∷ cs)
unfolding status_round
round-flags_after flags c cs = ground arith

status_loop_flags :
    (flags : StatusFlags) (cs : List ClientSnapshot) → status_loop flags cs ≡ flags_after flags cs
unfolding status_loop
status_loop_flags flags [] = ground arith
status_loop_flags flags (c ∷ cs) =
    status_loop_flags (status_round flags c) cs ∙ round-flags_after flags c cs

failing-split :
    (cs : List ClientSnapshot)
    → every satisfied cs ≡ (every not_known_failing cs && every not_unknown_failing cs)
failing-split [] = refl
failing-split (c ∷ cs) = ground (arith, failing-split cs)

healthy-split :
    (cs : List ClientSnapshot)
    → (every satisfied cs && every not_degraded cs) ≡ (every satisfied cs && every is_healthy cs)
healthy-split [] = refl
healthy-split (c ∷ cs) = ground (arith, healthy-split cs)

-- The readiness loop under valid policies.
satisfied_unless_blocking :
    (policy : ReadinessPolicy) (state : HealthState)
    → validate_readiness_policy policy ≡ true
    → blocks_readiness policy ≡ false
    → readiness_satisfied policy state ≡ true
unfolding validate_readiness_policy normalize_readiness_policy blocks_readiness readiness_satisfied
satisfied_unless_blocking readiness_unset state v b = refl
satisfied_unless_blocking readiness_required state v b = cc
satisfied_unless_blocking readiness_optional state v b = refl
satisfied_unless_blocking readiness_degraded_allowed state v b = cc
satisfied_unless_blocking readiness_informational state v b = refl
satisfied_unless_blocking (readiness_other text) state v b = cc

module _ (o : Opskit) where
  item_ready-satisfied :
      (c : ClientSnapshot)
      → HasPolicy c
      → (not (blocks_readiness c.readiness_policy) || item_ready o c) ≡ satisfied c
  unfolding item_ready
  item_ready-satisfied c v =
      ground (arith, satisfied_unless_blocking c.readiness_policy c.health.state v)

  -- A client that takes no part satisfies its policy.
  satisfied_unless_participating :
      (policy : ReadinessPolicy) (state : HealthState)
      → validate_readiness_policy policy ≡ true
      → participates_in_readiness policy ≡ false
      → readiness_satisfied policy state ≡ true
  unfolding validate_readiness_policy normalize_readiness_policy participates_in_readiness
      readiness_satisfied
  satisfied_unless_participating readiness_informational state v b = refl
  satisfied_unless_participating readiness_unset state v b = refl
  satisfied_unless_participating readiness_required state v b = cc
  satisfied_unless_participating readiness_optional state v b = refl
  satisfied_unless_participating readiness_degraded_allowed state v b = cc
  satisfied_unless_participating (readiness_other text) state v b = cc

  ready-readiness_round :
      (run : ReadinessRun o) (c : ClientSnapshot)
      → HasPolicy c
      → (readiness_round o run c).ready ≡ (run.ready && satisfied c)
  unfolding readiness_round
  ready-readiness_round run c v = ground (
    arith,
    item_ready-satisfied c v,
    satisfied_unless_participating c.readiness_policy c.health.state v,
  )

  unblocked-readiness_round :
      (run : ReadinessRun o) (c : ClientSnapshot)
      → HasPolicy c
      → (run.blocking ≡ 0 → run.ready ≡ true)
      → (readiness_round o run c).blocking ≡ 0
      → (readiness_round o run c).ready ≡ true
  unfolding readiness_round
  unblocked-readiness_round run c v h b = ground arith

  ready-readiness_loop :
      (run : ReadinessRun o) (cs : List ClientSnapshot)
      → All HasPolicy cs
      → (run.blocking ≡ 0 → run.ready ≡ true)
      → ((readiness_loop o run cs).ready ≡ (run.ready && every satisfied cs))
        × ((readiness_loop o run cs).blocking ≡ 0 → (readiness_loop o run cs).ready ≡ true)
  unfolding readiness_loop
  ready-readiness_loop run [] v h = ground arith
  ready-readiness_loop run (c ∷ cs) v h =
      let rest =
        ready-readiness_loop (readiness_round o run c) cs v.1
          (unblocked-readiness_round run c v.0 h) in
      ground (arith, rest, ready-readiness_round run c v.0)

  ready-readiness :
      (c : ClientSnapshot) (cs : List ClientSnapshot)
      → All HasPolicy (c ∷ cs)
      → (readiness o (c ∷ cs)).ready ≡ every satisfied (c ∷ cs)
  unfolding readiness readiness_of_run
  ready-readiness c cs v =
      let loop = ready-readiness_loop (readiness_start o) (c ∷ cs) v (λ _. refl) in
      ground (arith, loop)

  -- The status that the clients' health and policies call for.
  abbrev pub status_verdict : List ClientSnapshot → o.Status
  status_verdict cs =
      if every satisfied cs
      then (if every is_healthy cs
          then o.ready_status (codes "clients healthy")
          else o.degraded_status (codes "clients degraded but ready"))
      else (if every not_known_failing cs
          then o.unknown_status (codes "one or more readiness-blocking clients have unknown health")
          else o.not_ready_status (codes "one or more readiness-blocking clients are not ready"))

  status_of_flags-after :
      (cs : List ClientSnapshot) → status_of_flags o (flags_after no_flags cs) ≡ status_verdict cs
  unfolding status_of_flags
  status_of_flags-after cs = ground (arith, failing-split cs, healthy-split cs)

  -- The status and the readiness of at least one client, whose policies are valid. The readiness
  -- report is ready exactly when every client's health satisfies its policy; then the status is
  -- ready or degraded as all clients are healthy or not; otherwise it is unknown as long as every
  -- client that falls short has unknown health, and not ready as soon as one is known to.
  pub status-readiness_agree :
      (c : ClientSnapshot) (cs : List ClientSnapshot)
      → All HasPolicy (c ∷ cs)
      → ((readiness o (c ∷ cs)).ready ≡ every satisfied (c ∷ cs))
        × (status o (c ∷ cs) ≡ status_verdict (c ∷ cs))
  unfolding status
  status-readiness_agree c cs v = (
    ready-readiness c cs v,
    ap (status_of_flags o) (status_loop_flags no_flags (c ∷ cs)) ∙ status_of_flags-after (c ∷ cs),
  )

  -- A completed check of a client is ready exactly when its health satisfies the client's policy, which is
  -- a valid one.
  pub check_verdict-satisfied :
      (policy : ReadinessPolicy) (state : HealthState)
      → validate_readiness_policy policy ≡ true
      → (check_verdict o policy state).1 ≡ readiness_satisfied policy state
  unfolding check_verdict blocks_readiness readiness_satisfied validate_readiness_policy
      normalize_readiness_policy
  check_verdict-satisfied readiness_unset health_healthy v = refl
  check_verdict-satisfied readiness_required health_healthy v = refl
  check_verdict-satisfied readiness_optional health_healthy v = refl
  check_verdict-satisfied readiness_degraded_allowed health_healthy v = refl
  check_verdict-satisfied readiness_informational health_healthy v = refl
  check_verdict-satisfied readiness_unset health_degraded v = refl
  check_verdict-satisfied readiness_required health_degraded v = refl
  check_verdict-satisfied readiness_optional health_degraded v = refl
  check_verdict-satisfied readiness_degraded_allowed health_degraded v = refl
  check_verdict-satisfied readiness_informational health_degraded v = refl
  check_verdict-satisfied readiness_unset health_unhealthy v = refl
  check_verdict-satisfied readiness_required health_unhealthy v = refl
  check_verdict-satisfied readiness_optional health_unhealthy v = refl
  check_verdict-satisfied readiness_degraded_allowed health_unhealthy v = refl
  check_verdict-satisfied readiness_informational health_unhealthy v = refl
  check_verdict-satisfied readiness_unset health_unknown v = refl
  check_verdict-satisfied readiness_required health_unknown v = refl
  check_verdict-satisfied readiness_optional health_unknown v = refl
  check_verdict-satisfied readiness_degraded_allowed health_unknown v = refl
  check_verdict-satisfied readiness_informational health_unknown v = refl
  check_verdict-satisfied readiness_unset (health_other text) v = refl
  check_verdict-satisfied readiness_required (health_other text) v = refl
  check_verdict-satisfied readiness_optional (health_other text) v = refl
  check_verdict-satisfied readiness_degraded_allowed (health_other text) v = refl
  check_verdict-satisfied readiness_informational (health_other text) v = refl
  check_verdict-satisfied (readiness_other other) state v = cc
