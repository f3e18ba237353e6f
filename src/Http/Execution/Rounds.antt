-- ===== src/Http/Execution/Rounds.antt =====
-- How the loop of attempts ends, and what a success is.
use clientkit.Prelude.{
  ℕ, zero, suc, ◌+◌, ◌≤◌, ◌<◌, ◌≡◌, refl, ap, Bool, true, Option, none, some, List, [], ◌∷◌, ◌++◌,
  arith, Bool-cases, Option-cases, inl, inr, ℤ,
}
use clientkit.Fault.{Error}
use clientkit.Http.Response.{Response}
use clientkit.Http.Outcome.{classify_outcome}
use clientkit.Http.Retry.{RetryConfig}
use clientkit.Http.Delay.{select_retry_delay}
use clientkit.Http.Meeting.{Meeting, Attempt, ExecutionResult, Effect, Policy, Exchange, exchange}
use clientkit.Http.Execution.{
  Round, finished, again, is_success, retries, opening, delay_round, delay_with, conclude_attempt,
  prepared_round, attempt_round, round, followed_by, run_rounds, execute_attempts, max_attempts_of,
}
use clientkit.Http.Execution.Attempts.{RoundAdds, round-RoundAdds}
use clientkit.Http.Execution.Verdicts.{verdict-IsAccepted, IsAccepted, no_success_after_error}

followed_by-agree :
    (policy : Policy) (number : ℕ) (before : List Attempt) (r : Round)
    (next next2 : List Attempt → List Effect × ExecutionResult)
    → RoundAdds policy number before r
    → (number < (max_attempts_of policy.retry)
        → (attempts : List Attempt) → next attempts ≡ next2 attempts)
    → followed_by r next ≡ followed_by r next2
followed_by-agree policy number before (finished effects result) next next2 adds same = refl
followed_by-agree policy number before (again effects attempts) next next2
      (a, grows, shown, went, numbered, agreed, repeats, below) same =
    ap (λ (later : List Effect × ExecutionResult). (effects ++ later.0, later.1))
      (same (ground arith) attempts)

run_rounds-agree :
    (policy : Policy) (meet : ℕ → Meeting) (left left2 number : ℕ) (before : List Attempt)
    → 0 < left
    → 0 < left2
    → (max_attempts_of policy.retry) < number + left
    → (max_attempts_of policy.retry) < number + left2
    → run_rounds policy meet left number before ≡ run_rounds policy meet left2 number before
unfolding run_rounds
run_rounds-agree policy meet zero left2 number before p p2 h h2 = absurd (omega (arith, p))
run_rounds-agree policy meet (suc left) zero number before p p2 h h2 = absurd (omega (arith, p2))
run_rounds-agree policy meet (suc left) (suc left2) number before p p2 h h2 =
    followed_by-agree policy number before (round policy number (meet number) before) _ _
      (round-RoundAdds policy number (meet number) before)
      λ below attempts.
        run_rounds-agree policy meet left left2 (suc number) attempts (omega (arith, below, h))
          (omega (arith, below, h2)) (omega (arith, h)) (omega (arith, h2))

max_attempts_of-positive : (cfg : RetryConfig) → 1 ≤ max_attempts_of cfg
unfolding max_attempts_of
max_attempts_of-positive cfg = ground arith

-- The loop ends by itself: any number of rounds that is at least the policy's limit of attempts
-- gives the same effects and the same result, so that the loop never runs out of rounds.
pub execute_attempts-enough :
    (policy : Policy) (meet : ℕ → Meeting) (rounds : ℕ)
    → max_attempts_of policy.retry ≤ rounds
    → run_rounds policy meet rounds 1 [] ≡ execute_attempts policy meet
unfolding execute_attempts
execute_attempts-enough policy meet rounds enough =
    let least = max_attempts_of-positive policy.retry in
    run_rounds-agree policy meet rounds (max_attempts_of policy.retry) 1 []
      (omega (arith, least, enough)) (omega (arith, least)) (omega (arith, enough)) (omega arith)

-- A result that is a success holds an accepted response.
abbrev IsHonest : Policy → ExecutionResult → Type 0
IsHonest policy result =
    is_success result.outcome ≡ true → IsAccepted policy.classifier result.response result.error

abbrev RoundIsHonest : Policy → Round → Type 0
RoundIsHonest policy (finished effects result) = IsHonest policy result
RoundIsHonest policy (again effects attempts) = Unit

stopped-IsHonest :
    {P : Type 0} (error : Error) → is_success (classify_outcome none (some error)) ≡ true → P
stopped-IsHonest error h = let no = no_success_after_error none error in cc

delay_with-IsHonest :
    (policy : Policy) (number : ℕ) (m : Meeting) (effects : List Effect) (attempts : List Attempt)
    (a : Attempt) (response : Option Response) (choice : ℤ × Bool)
    → RoundIsHonest policy (delay_with policy number m effects attempts a response choice)
delay_with-IsHonest policy number m effects attempts a response (delay, by_server) =
    elim (Option-cases m.wait_error) [
      | inl continues ↦ rw continues tt
      | inr (error, stops) ↦ rw stops (stopped-IsHonest error)
    ]

conclude_attempt-IsHonest :
    (policy : Policy) (number : ℕ) (m : Meeting) (before : List Attempt) (x : Exchange)
    (a : Attempt)
    → (is_success a.outcome ≡ true → IsAccepted policy.classifier x.response a.error)
    → RoundIsHonest policy (conclude_attempt policy number m before x a)
unfolding conclude_attempt delay_round
conclude_attempt-IsHonest policy number m before x a honest =
    elim (Bool-cases (retries policy number m.operation_error_after a)) [
      | inl repeats ↦
          rw (repeats, conclude_attempt)
            (delay_with-IsHonest policy number m (opening number x a) (before ++ a ∷ []) a
              x.response
              (select_retry_delay policy.parse_time policy.retry m.policy_delay a.outcome x.response
                m.ended_at))
      | inr ends ↦ rw (ends, conclude_attempt) honest
    ]

prepared_round-IsHonest :
    (policy : Policy) (number : ℕ) (m : Meeting) (before : List Attempt)
    (prepared : Option Error × Bool)
    → RoundIsHonest policy (prepared_round policy number m before prepared)
unfolding prepared_round attempt_round
prepared_round-IsHonest policy number m before (none, closes) =
    conclude_attempt-IsHonest policy number m before _ _
      (verdict-IsAccepted policy.classifier (exchange m) m.classified_context_error)
prepared_round-IsHonest policy number m before (some error, closes) = stopped-IsHonest error

round-IsHonest :
    (policy : Policy) (number : ℕ) (m : Meeting) (before : List Attempt)
    → RoundIsHonest policy (round policy number m before)
unfolding round
round-IsHonest policy number m before = elim (Option-cases m.operation_error) [
  | inl e ↦ rw (e, round) (prepared_round-IsHonest policy number m before _)
  | inr (error, e) ↦ rw (e, round) (stopped-IsHonest error)
]

followed_by-IsHonest :
    (policy : Policy) (r : Round) (next : List Attempt → List Effect × ExecutionResult)
    → RoundIsHonest policy r
    → ((attempts : List Attempt) → IsHonest policy (next attempts).1)
    → IsHonest policy (followed_by r next).1
followed_by-IsHonest policy (finished effects result) next here later = here
followed_by-IsHonest policy (again effects attempts) next here later = later attempts

run_rounds-IsHonest :
    (policy : Policy) (meet : ℕ → Meeting) (left number : ℕ) (before : List Attempt)
    → IsHonest policy (run_rounds policy meet left number before).1
unfolding run_rounds
run_rounds-IsHonest policy meet zero number before = λ h. cc
run_rounds-IsHonest policy meet (suc left) number before =
    followed_by-IsHonest policy (round policy number (meet number) before) _
      (round-IsHonest policy number (meet number) before)
      (run_rounds-IsHonest policy meet left (suc number))

-- A result whose outcome is success has a response that the policy's classifier accepts, and no
-- error.
pub execute_attempts-IsHonest :
    (policy : Policy) (meet : ℕ → Meeting)
    → is_success (execute_attempts policy meet).1.outcome ≡ true
    → IsAccepted policy.classifier
        (execute_attempts policy meet).1.response
        (execute_attempts policy meet).1.error
unfolding execute_attempts
execute_attempts-IsHonest policy meet =
    run_rounds-IsHonest policy meet (max_attempts_of policy.retry) 1 []
