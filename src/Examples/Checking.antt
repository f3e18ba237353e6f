-- ===== src/Examples/Checking.antt =====
-- Examples for CheckAll: two calls that overlap on a registry of two clients, the second of which
-- ends early.
use mathlib.Core.Option.{some-injective}
use clientkit.Prelude.{
  subst, ℕ, ◌*◌, ◌≤◌, ◌≡◌, ◌⊎◌, refl, true, false, Option, some, List, [], ◌∷◌, length, total, pos,
  arith,
}
use clientkit.Text.{Text, text_eq, text_ltb}
use clientkit.Failure.{failure_none}
use clientkit.Health.{Health, health_healthy}
use clientkit.Dict.{NodupKeys}
use clientkit.Registry.{Registry, normalized_max_concurrent_checks}
use clientkit.Registry.Consistent.{IsConsistent}
use clientkit.Sort.{sort_by_name}
use clientkit.Opskit.{NamedCheck, CheckSummary}
use clientkit.Check.Concurrent.{
  Job, System, Run, begin, go_on, end_call, move, drop_job, take_job, take_slot, take_permit, idle,
  waiting, granted, check_capacity, jobs_of, workers_of, replicate, begin_checks,
}
use clientkit.Check.Concurrent.Safe.{in_checker, holds, at_result, CheckAll-exclusive}
use clientkit.Check.Concurrent.Ends.{IsOver, CanGoOn}
use clientkit.Check.Concurrent.Complete.{NoneLost, CheckAll-complete}
use clientkit.Check.Group.{
  NamedHealthChecker, health_checkers_snapshot, enabled_checkers, check_all, bound_summary,
  completed_checks,
}
use clientkit.Check.Group.Ready.{IsComplete, check_all-ready}
use clientkit.Examples.Registering.{a_name, b_name, a_then_b, a_then_b-IsConsistent}
use clientkit.Examples.Values.{counting_opskit}

abbrev calls : List (List Text)
calls = (a_name ∷ []) ∷ (a_name ∷ b_name ∷ []) ∷ []

overlapping : (s : System) × Run (check_capacity a_then_b) (begin_checks a_then_b calls) 4 s
unfolding begin_checks check_capacity normalized_max_concurrent_checks jobs_of workers_of replicate
overlapping = (
  _,
  go_on
      (end_call 1 (
        go_on
          (go_on
            (go_on begin (
              move [] _ 0 idle refl
                (take_job a_name [] ((1, a_name) ∷ (1, b_name) ∷ []) refl refl tt)))
            (move [] _ 0 (waiting a_name) refl (take_slot a_name refl)))
          (move [] _ 0 (granted a_name) refl (take_permit a_name (omega arith)))))
      (drop_job 1 a_name [] ((1, b_name) ∷ []) refl refl),
)

abbrev reached : System
reached = overlapping.0

CheckAll-exclusive_example :
    (total in_checker reached.workers ≤ check_capacity a_then_b)
    × ((name : Text) → total (holds name) reached.workers ≤ 1)
    × IsConsistent reached.shared.registry
CheckAll-exclusive_example = CheckAll-exclusive a_then_b calls a_then_b-IsConsistent overlapping.1

CheckAll-complete_example :
    (4 ≤ 5 * length (jobs_of 0 calls))
    × (IsOver reached ⊎ CanGoOn (check_capacity a_then_b) reached)
    × NoneLost reached.ended reached.shared.results
    × (IsOver reached
        → (weight : Job → ℕ)
        → total (at_result weight) reached.shared.results ≡ total weight (jobs_of 0 calls))
CheckAll-complete_example = CheckAll-complete a_then_b calls a_then_b-IsConsistent overlapping.1

abbrev all_ready : Text → ℕ → List (NamedCheck counting_opskit) → CheckSummary counting_opskit
all_ready name started_at checks = record {
  state = 0;
  ready = true;
  message = [];
  checked_at = some started_at;
  duration = pos 0;
  checks = checks;
}

abbrev healthy_slots : NamedHealthChecker → Option Health
healthy_slots c = some (record {
  state = health_healthy;
  failure_class = failure_none;
  checked_at = 7;
  duration = pos 1;
  message = [];
})

both_ready :
    (check_all counting_opskit all_ready (some a_then_b) healthy_slots false 5 9).ready ≡ true
unfolding check_all health_checkers_snapshot sort_by_name enabled_checkers text_ltb bound_summary
    completed_checks
both_ready = refl

check_all-ready_example :
    (false ≡ false)
    × ((r : Registry) × (some a_then_b ≡ some r)
        × IsComplete counting_opskit healthy_slots r 5 all_ready
            (check_all counting_opskit all_ready (some a_then_b) healthy_slots false 5 9))
check_all-ready_example =
    check_all-ready counting_opskit healthy_slots all_ready (some a_then_b) false 5 9
      (λ r e.
        subst (λ (s : Registry). NodupKeys s.clients) (some-injective a_then_b r e)
          a_then_b-IsConsistent.nodup)
      both_ready
