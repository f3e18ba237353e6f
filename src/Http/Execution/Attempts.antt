-- ===== src/Http/Execution/Attempts.antt =====
-- The attempts that the loop makes.
use clientkit.Prelude.{
  ℕ, zero, suc, ◌≤◌, ◌≡◌, refl, sym, ◌∙◌, ap, subst, Bool, true, false, ◌&&◌, Option, none, some,
  List, [], ◌∷◌, ◌++◌, map, length, ltb, arith, Bool-cases, Option-cases, inl, inr, ℤ,
}
use mathlib.Core.List.{append_assoc, append-nil}
use clientkit.Failure.{is_failure_policy}
use clientkit.Fault.{Error}
use clientkit.Http.Response.{Response, is_nil}
use clientkit.Http.Outcome.{Outcome, is_request_policy_error}
use clientkit.Http.Outcome.Agreement.{agree}
use clientkit.Http.Safety.{allows_retry}
use clientkit.Http.Retry.{should_retry}
use clientkit.Http.Meeting.{
  Meeting, Attempt, ExecutionResult, Effect, cancel_attempt, cancel_operation, observe_retry, wait,
  Policy, request_body_is_replayable, Exchange, exchange,
}
use clientkit.Http.Execution.{
  Round, finished, again, is_success, retries, finish, delay_round, delay_with, waiting, opening,
  conclude_attempt, replay_effects, prepared_round, attempt_round, round, followed_by, run_rounds,
  execute_attempts, max_attempts_of, attaches,
}
use clientkit.Http.Execution.Trace.{collect-append, pick_sent, pick_observed, sent, observed}
use clientkit.Http.Execution.Verdicts.{verdict-Agrees}

-- What the loop checks before it tries again.
pub record IsRepeatable (policy : Policy) (attempt : Attempt) : Type 0 where
  pub failed : is_success attempt.outcome ≡ false
  pub no_policy_failure : is_failure_policy attempt.failure_class ≡ false
  pub no_policy_error : is_request_policy_error attempt.error ≡ false
  pub authorized : allows_retry policy.authorization ≡ true
  pub replayable : request_body_is_replayable policy.body ≡ true
  pub eligible :
      should_retry policy.retry policy.method attempt.outcome attempt.failure_class
        attempt.status_code attempt.error
      ≡ true

-- The attempts are numbered one by one, the outcome and the class of each agree, and each one but
-- the last was repeatable.
abbrev pub Series : Policy → ℕ → List Attempt → Type 0
Series policy number [] = Unit
Series policy number (a ∷ []) = (a.number ≡ number) × (agree a.outcome a.failure_class ≡ true)
Series policy number (a ∷ b ∷ more) =
    (a.number ≡ number)
    × (agree a.outcome a.failure_class ≡ true)
    × IsRepeatable policy a
    × Series policy (suc number) (b ∷ more)

abbrev pub numbers : List Attempt → List ℕ
numbers attempts = map (λ (a : Attempt). a.number) attempts

-- What a run from `number` on adds to the attempts on record.
abbrev Adds : Policy → ℕ → ℕ → List Attempt → List Effect × ExecutionResult → Type 0
Adds policy number left before (effects, result) =
    (new : List Attempt) × (result.attempts ≡ before ++ new)
    × (observed effects ≡ new)
    × (sent effects ≡ numbers new)
    × (length new ≤ left)
    × Series policy number new

-- The same of one round, which goes on only below the policy's limit.
abbrev pub RoundAdds : Policy → ℕ → List Attempt → Round → Type 0
RoundAdds policy number before (finished effects result) =
    Adds policy number 1 before (effects, result)
RoundAdds policy number before (again effects attempts) =
    (a : Attempt) × (attempts ≡ before ++ a ∷ [])
    × (observed effects ≡ a ∷ [])
    × (sent effects ≡ number ∷ [])
    × (a.number ≡ number)
    × (agree a.outcome a.failure_class ≡ true)
    × IsRepeatable policy a
    × (ltb number (max_attempts_of policy.retry) ≡ true)

pub retries-IsRepeatable :
    (policy : Policy) (number : ℕ) (error : Option Error) (a : Attempt)
    → retries policy number error a ≡ true
    → IsRepeatable policy a × (ltb number (max_attempts_of policy.retry) ≡ true)
unfolding retries
retries-IsRepeatable policy number error a h = (
  record {
    failed = ground arith;
    no_policy_failure = ground arith;
    no_policy_error = ground arith;
    authorized = ground arith;
    replayable = ground arith;
    eligible = ground arith;
  },
  ground arith,
)

opening-shows :
    (number : ℕ) (x : Exchange) (attempt : Attempt) (rest : List Effect)
    → (observed (opening number x attempt ++ rest) ≡ attempt ∷ observed rest)
      × (sent (opening number x attempt ++ rest) ≡ number ∷ sent rest)
opening-shows number x attempt rest = elim (Bool-cases x.closed) [
  | inl e ↦ rw e (refl, refl)
  | inr e ↦ rw e (refl, refl)
]

finish-shows :
    (number : ℕ) (attempt : Attempt) (response : Option Response)
    → (observed (finish number attempt response) ≡ [])
      × (sent (finish number attempt response) ≡ [])
unfolding finish
finish-shows number attempt response =
    elim (Bool-cases (is_nil attempt.error && attaches response)) [
      | inl e ↦ rw (e, finish) (refl, refl)
      | inr e ↦ rw (e, finish) (refl, refl)
    ]

waiting-shows :
    (number : ℕ) (response : Option Response) (number2 : ℕ) (delay : ℤ) (by_server : Bool)
    (cause : Outcome)
    → let effects =
        waiting number response (observe_retry number2 delay by_server cause) (wait delay) in
      (observed effects ≡ []) × (sent effects ≡ [])
waiting-shows number none number2 delay by_server cause = (refl, refl)
waiting-shows number (some response) number2 delay by_server cause = (refl, refl)

delay_with-RoundAdds :
    (policy : Policy) (number : ℕ) (m : Meeting) (before : List Attempt) (x : Exchange)
    (a : Attempt) (choice : ℤ × Bool)
    → a.number ≡ number
    → agree a.outcome a.failure_class ≡ true
    → IsRepeatable policy a × (ltb number (max_attempts_of policy.retry) ≡ true)
    → RoundAdds policy number before
        (delay_with policy number m (opening number x a) (before ++ a ∷ []) a x.response choice)
delay_with-RoundAdds policy number m before x a (delay, by_server) numbered agreed
      (repeats, below) =
    let pause =
      waiting number x.response (observe_retry number delay by_server a.outcome) (wait delay) in
    let o = opening-shows number x a pause in
    let w = waiting-shows number x.response number delay by_server a.outcome in
    let shown : observed (opening number x a ++ pause) ≡ a ∷ [] = o.0 ∙ ap (◌∷◌ a) w.0 in
    let went : sent (opening number x a ++ pause) ≡ number ∷ [] = o.1 ∙ ap (◌∷◌ number) w.1 in
    elim (Option-cases m.wait_error) [
      | inl continues ↦ rw continues (a, refl, shown, went, numbered, agreed, repeats, below)
      | inr (error, stops) ↦ rw stops (
        a ∷ [],
        refl,
        collect-append pick_observed (opening number x a ++ pause) (cancel_operation ∷ [])
            ∙ (λ i. shown i ++ []),
        collect-append pick_sent (opening number x a ++ pause) (cancel_operation ∷ [])
            ∙ (λ i. went i ++ [])
            ∙ ap (λ n. n ∷ []) (sym numbered),
        omega arith,
        (numbered, agreed),
      )
    ]

conclude_attempt-RoundAdds :
    (policy : Policy) (number : ℕ) (m : Meeting) (before : List Attempt) (x : Exchange)
    (a : Attempt)
    → a.number ≡ number
    → agree a.outcome a.failure_class ≡ true
    → RoundAdds policy number before (conclude_attempt policy number m before x a)
unfolding conclude_attempt delay_round
conclude_attempt-RoundAdds policy number m before x a numbered agreed =
    let o = opening-shows number x a (finish number a x.response) in
    let f = finish-shows number a x.response in
    elim (Bool-cases (retries policy number m.operation_error_after a)) [
      | inl repeats ↦
          rw (repeats, conclude_attempt)
            (delay_with-RoundAdds policy number m before x a _ numbered agreed
              (retries-IsRepeatable policy number m.operation_error_after a repeats))
      | inr ends ↦
          rw (ends, conclude_attempt)
            (
              a ∷ [],
              refl,
              o.0 ∙ ap (◌∷◌ a) f.0,
              o.1 ∙ λ i. sym numbered i ∷ f.1 i,
              omega arith,
              (numbered, agreed),
            )
    ]

replay_effects-shows :
    (number : ℕ) (closes : Bool)
    → let effects = replay_effects closes ++ cancel_attempt number ∷ cancel_operation ∷ [] in
      (observed effects ≡ []) × (sent effects ≡ [])
replay_effects-shows number true = (refl, refl)
replay_effects-shows number false = (refl, refl)

prepared_round-RoundAdds :
    (policy : Policy) (number : ℕ) (m : Meeting) (before : List Attempt)
    (prepared : Option Error × Bool)
    → RoundAdds policy number before (prepared_round policy number m before prepared)
unfolding prepared_round attempt_round
prepared_round-RoundAdds policy number m before (none, closes) =
    conclude_attempt-RoundAdds policy number m before _ _ refl
      (verdict-Agrees policy.classifier (exchange m) m.classified_context_error)
prepared_round-RoundAdds policy number m before (some error, closes) =
    let s = replay_effects-shows number closes in
    ([], sym (append-nil before), s.0, s.1, omega arith, tt)

pub round-RoundAdds :
    (policy : Policy) (number : ℕ) (m : Meeting) (before : List Attempt)
    → RoundAdds policy number before (round policy number m before)
unfolding round
round-RoundAdds policy number m before = elim (Option-cases m.operation_error) [
  | inl e ↦ rw (e, round) (prepared_round-RoundAdds policy number m before _)
  | inr (error, e) ↦ rw (e, round) ([], sym (append-nil before), refl, refl, omega arith, tt)
]

Series-∷ :
    (policy : Policy) (number : ℕ) (a : Attempt) (new : List Attempt)
    → a.number ≡ number
    → agree a.outcome a.failure_class ≡ true
    → IsRepeatable policy a
    → Series policy (suc number) new
    → Series policy number (a ∷ new)
Series-∷ policy number a [] numbered agreed repeats s = (numbered, agreed)
Series-∷ policy number a (b ∷ new) numbered agreed repeats s = (numbered, agreed, repeats, s)

followed_by-Adds :
    (policy : Policy) (number left : ℕ) (before : List Attempt) (r : Round)
    (next : List Attempt → List Effect × ExecutionResult)
    → RoundAdds policy number before r
    → ((attempts : List Attempt) → Adds policy (suc number) left attempts (next attempts))
    → Adds policy number (suc left) before (followed_by r next)
followed_by-Adds policy number left before (finished effects result) next
      (new, grows, shown, went, few, series) later =
    (new, grows, shown, went, omega (arith, few), series)
followed_by-Adds policy number left before (again effects attempts) next
      (a, grows, shown, went, numbered, agreed, repeats, below) later =
    let (new, grows2, shown2, went2, few, series) = later attempts in
    let effects2 = (next attempts).0 in
    (
      a ∷ new,
      grows2 ∙ ap (λ xs. xs ++ new) grows ∙ append_assoc before (a ∷ []) new,
      collect-append pick_observed effects effects2 ∙ (λ i. shown i ++ shown2 i),
      collect-append pick_sent effects effects2
          ∙ (λ i. went i ++ went2 i)
          ∙ ap (λ n. n ∷ numbers new) (sym numbered),
      omega (arith, few),
      Series-∷ policy number a new numbered agreed repeats series,
    )

run_rounds-Adds :
    (policy : Policy) (meet : ℕ → Meeting) (left number : ℕ) (before : List Attempt)
    → Adds policy number left before (run_rounds policy meet left number before)
unfolding run_rounds
run_rounds-Adds policy meet zero number before =
    ([], sym (append-nil before), refl, refl, omega arith, tt)
run_rounds-Adds policy meet (suc left) number before =
    followed_by-Adds policy number left before (round policy number (meet number) before)
      (run_rounds policy meet left (suc number))
      (round-RoundAdds policy number (meet number) before)
      (run_rounds-Adds policy meet left (suc number))

-- The attempts of a result are those that were sent and those that were reported to the observer,
-- in this order, numbered from 1, and at most as many as the policy allows. The outcome and the
-- failure class of each agree. Every attempt but the last one failed otherwise than by policy, the
-- operation was authorized to be repeated, its body could be replayed, and the retry policy
-- selects its method and its failure.
pub execute_attempts-Series :
    (policy : Policy) (meet : ℕ → Meeting)
    → let (effects, result) = execute_attempts policy meet in
      (observed effects ≡ result.attempts)
      × (sent effects ≡ numbers result.attempts)
      × (length result.attempts ≤ (max_attempts_of policy.retry))
      × Series policy 1 result.attempts
unfolding execute_attempts
execute_attempts-Series policy meet =
    let (new, all, shown, went, few, series) =
      run_rounds-Adds policy meet (max_attempts_of policy.retry) 1 [] in
    (
      shown ∙ sym all,
      went ∙ ap numbers (sym all),
      subst (λ attempts. length attempts ≤ (max_attempts_of policy.retry)) (sym all) few,
      subst (Series policy 1) (sym all) series,
    )
