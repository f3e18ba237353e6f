-- ===== src/Check/Group.antt =====
-- The registry as an opskit.CheckGroup: which clients CheckAll of opskit.go checks, and the summary
-- that it makes of their results. `slots` is what the workers leave for each checker, and
-- opskit.SummarizeChecks is a parameter.
pub mod Ready
pub mod Roster
use clientkit.Prelude.{
  elapsed, ℕ, Bool, true, false, ◌&&◌, ◌||◌, Option, none, some, List, [], ◌∷◌, map, length, ltb, ℤ,
  pos, negsuc, ◌-◌, if◌then◌else◌, leb,
}
use clientkit.Text.{Text, codes}
use clientkit.Health.{Health}
use clientkit.Readiness.{ReadinessPolicy}
use clientkit.Registration.{RegisteredClient}
use clientkit.Registry.{RegisteredClientEntry, Registry}
use clientkit.Sort.{sort_by_name}
use clientkit.Opskit.{Opskit, NamedCheck, CheckSummary}
use clientkit.Projection.{opskit_named_client_check}

pub record NamedHealthChecker : Type 0 where
  pub name : Text
  pub protocol : Text
  pub checker : RegisteredClient
  pub policy : ReadinessPolicy

abbrev pub is_enabled : RegisteredClientEntry → Bool
is_enabled entry = entry.health_check_enabled && entry.registrant.is_health_checker

-- The loop of healthCheckersSnapshot.
unfoldable pub enabled_checkers : List (Text × RegisteredClientEntry) → List NamedHealthChecker
enabled_checkers [] = []
enabled_checkers ((name, entry) ∷ clients) =
    let rest = enabled_checkers clients in
    if is_enabled entry
    then record {
      name = name;
      protocol = entry.protocol;
      checker = entry.registrant;
      policy = entry.policy;
    }
      ∷ rest
    else rest

unfoldable pub health_checkers_snapshot : Option Registry → List NamedHealthChecker
health_checkers_snapshot none = []
health_checkers_snapshot (some r) =
    sort_by_name (λ (c : NamedHealthChecker). c.name) (enabled_checkers r.clients)

module _ (o : Opskit) where
  unfoldable pub unavailable_client_checks : Text → ℕ → ℕ → CheckSummary o
  unavailable_client_checks message started_at checked_at = record {
    state = o.state_unknown;
    ready = false;
    message = message;
    checked_at = some checked_at;
    duration = o.new_duration (elapsed started_at checked_at);
    checks = [];
  }

  abbrev pub and_completed :
      NamedHealthChecker → Option Health → List (NamedCheck o) → List (NamedCheck o)
  and_completed c none results = results
  and_completed c (some health) results =
      opskit_named_client_check o c.name c.protocol c.policy health ∷ results

  -- The loop over the slots.
  unfoldable pub completed_checks :
      (NamedHealthChecker → Option Health) → List NamedHealthChecker → List (NamedCheck o)
  completed_checks slots [] = []
  completed_checks slots (c ∷ checkers) =
      and_completed c (slots c) (completed_checks slots checkers)

  -- The last if of CheckAll; `ended` is whether ctx.Err() is not nil there.
  unfoldable pub bound_summary : Bool → ℕ → List (NamedCheck o) → CheckSummary o → CheckSummary o
  bound_summary ended expected results summary =
      if ended || ltb (length results) expected
      then record summary {
        state = o.state_failed;
        ready = false;
        message = codes "client checks incomplete";
      }
      else summary

module _ (o : Opskit) (summarize_checks : Text → ℕ → List (NamedCheck o) → CheckSummary o) where
  abbrev pub check_enabled :
      List NamedHealthChecker → (NamedHealthChecker → Option Health) → Bool → ℕ → ℕ → CheckSummary o
  check_enabled [] slots ended started_at now =
      unavailable_client_checks o (codes "no enabled client checks") started_at now
  check_enabled (c ∷ checkers) slots ended started_at now =
      let results = completed_checks o slots (c ∷ checkers) in
      bound_summary o ended (length (c ∷ checkers)) results (summarize_checks [] started_at results)

  unfoldable pub check_all :
      Option Registry → (NamedHealthChecker → Option Health) → Bool → ℕ → ℕ → CheckSummary o
  check_all none slots ended started_at now =
      unavailable_client_checks o (codes "client registry is missing") started_at now
  check_all (some r) slots ended started_at now =
      check_enabled (health_checkers_snapshot (some r)) slots ended started_at now
