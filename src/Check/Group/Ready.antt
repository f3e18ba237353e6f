-- ===== src/Check/Group/Ready.antt =====
-- When CheckAll of opskit.go reports the registry ready.
use clientkit.Prelude.{
  ℕ, suc, ◌≤◌, ◌≡◌, ◌≢◌, refl, Bool, true, false, Option, none, some, List, [], ◌∷◌, length, ltb,
  Bool-cases, inl, inr, arith, if◌then◌else◌,
}
use clientkit.Text.{Text, text_eq, codes}
use clientkit.Health.{Health}
use clientkit.Dict.{NodupKeys}
use clientkit.Registry.{Registry}
use clientkit.Check.Group.Roster.{IsRoster, health_checkers_snapshot-IsRoster}
use clientkit.Opskit.{Opskit, NamedCheck, CheckSummary}
use clientkit.Projection.{opskit_named_client_check}
use clientkit.Check.Group.{
  NamedHealthChecker, health_checkers_snapshot, completed_checks, and_completed, bound_summary,
  check_enabled, check_all, unavailable_client_checks,
}

module _ (o : Opskit) (slots : NamedHealthChecker → Option Health) where
  -- The results of checkers: one for each, in their order, of the health that its slot has.
  abbrev pub AreResultsOf : List NamedHealthChecker → List (NamedCheck o) → Type 0
  AreResultsOf [] [] = Unit
  AreResultsOf (c ∷ checkers) (result ∷ results) =
      ((health : Health) × (slots c ≡ some health)
        × (result ≡ opskit_named_client_check o c.name c.protocol c.policy health))
      × AreResultsOf checkers results
  AreResultsOf _ _ = ⊥

  length-completed :
      (checkers : List NamedHealthChecker)
      → length (completed_checks o slots checkers) ≤ length checkers
  unfolding completed_checks
  length-completed [] = omega arith
  length-completed (c ∷ checkers) = ground (arith, length-completed checkers)

  completed_checks-AreResultsOf :
      (checkers : List NamedHealthChecker)
      → length checkers ≤ length (completed_checks o slots checkers)
      → AreResultsOf checkers (completed_checks o slots checkers)
  unfolding completed_checks
  completed_checks-AreResultsOf [] h = tt
  completed_checks-AreResultsOf (c ∷ checkers) h =
      counted (slots c) refl h (λ k. completed_checks-AreResultsOf checkers k)
    where
      counted :
          (slot : Option Health)
          → slots c ≡ slot
          → suc (length checkers)
            ≤ length (and_completed o c slot (completed_checks o slots checkers))
          → (length checkers ≤ length (completed_checks o slots checkers)
              → AreResultsOf checkers (completed_checks o slots checkers))
          → AreResultsOf (c ∷ checkers) (and_completed o c slot (completed_checks o slots checkers))
      counted none e h rest = absurd (omega (arith, h, length-completed checkers))
      counted (some health) e h rest = ((health, e, refl), rest (omega arith))

  -- What a ready summary shows of a registry: the clients whose check is enabled, of which there is
  -- one, all have results, and the summary is the one that SummarizeChecks makes of these, in the
  -- order of the names.
  pub record IsComplete (r : Registry) (started_at : ℕ)
      (summarize_checks : Text → ℕ → List (NamedCheck o) → CheckSummary o)
      (summary : CheckSummary o) : Type 0 where
    pub checkers : List NamedHealthChecker
    pub roster : IsRoster r.clients checkers
    pub some_checker : checkers ≢ []
    pub results : List (NamedCheck o)
    pub each : AreResultsOf checkers results
    pub summarized : summary ≡ summarize_checks [] started_at results

  bound_summary-ready :
      (ended : Bool) (expected : ℕ) (results : List (NamedCheck o)) (summary : CheckSummary o)
      → (bound_summary o ended expected results summary).ready ≡ true
      → (ended ≡ false)
        × (expected ≤ length results)
        × (bound_summary o ended expected results summary ≡ summary)
  unfolding bound_summary
  bound_summary-ready true expected results summary h = cc
  bound_summary-ready false expected results summary h =
      elim (Bool-cases (ltb (length results) expected)) [
        | inl fewer ↦ absurd (fewer_not_ready (ltb (length results) expected) fewer h)
        | inr enough ↦ (refl, ground arith, rw enough refl)
      ]
    where
      fewer_not_ready :
          (b : Bool)
          → b ≡ true
          → (if b
              then record summary {
                state = o.state_failed;
                ready = false;
                message = codes "client checks incomplete";
              }
              else summary).ready
            ≡ true
          → ⊥
      fewer_not_ready true e k = cc
      fewer_not_ready false e k = cc

  check_enabled-ready :
      (summarize_checks : Text → ℕ → List (NamedCheck o) → CheckSummary o)
      (checkers : List NamedHealthChecker) (ended : Bool) (started_at now : ℕ)
      → let summary = check_enabled o summarize_checks checkers slots ended started_at now in
        summary.ready ≡ true
        → (ended ≡ false)
          × (checkers ≢ [])
          × AreResultsOf checkers (completed_checks o slots checkers)
          × (summary ≡ summarize_checks [] started_at (completed_checks o slots checkers))
  unfolding unavailable_client_checks
  check_enabled-ready summarize_checks [] ended started_at now h = cc
  check_enabled-ready summarize_checks (c ∷ checkers) ended started_at now h =
      let results = completed_checks o slots (c ∷ checkers) in
      let (lasts, enough, same) =
        bound_summary-ready ended (length (c ∷ checkers)) results
          (summarize_checks [] started_at results) h in
      (lasts, (λ e. cc), completed_checks-AreResultsOf (c ∷ checkers) enough, same)

  -- Where CheckAll reports a registry, whose map has each name once, ready, the context had not
  -- ended and the registry is there. The clients whose check is enabled and that can check
  -- themselves are at least one, each of them was checked, and the summary is what SummarizeChecks
  -- makes of their results, one for each of them and by strictly rising name.
  pub check_all-ready :
      (summarize_checks : Text → ℕ → List (NamedCheck o) → CheckSummary o) (on : Option Registry)
      (ended : Bool) (started_at now : ℕ)
      → ((r : Registry) → on ≡ some r → NodupKeys r.clients)
      → (check_all o summarize_checks on slots ended started_at now).ready ≡ true
      → (ended ≡ false)
        × ((r : Registry) × (on ≡ some r)
            × IsComplete r started_at summarize_checks
                (check_all o summarize_checks on slots ended started_at now))
  unfolding check_all unavailable_client_checks
  check_all-ready summarize_checks none ended started_at now u h = cc
  check_all-ready summarize_checks (some r) ended started_at now u h =
      let checkers = health_checkers_snapshot (some r) in
      let (lasts, some_checker, each, same) =
        check_enabled-ready summarize_checks checkers ended started_at now h in
      (
        lasts,
        (
          r,
          refl,
          record {
            checkers = checkers;
            roster = health_checkers_snapshot-IsRoster r (u r refl);
            some_checker = some_checker;
            results = completed_checks o slots checkers;
            each = each;
            summarized = same;
          },
        ),
      )
