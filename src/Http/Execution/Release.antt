-- ===== src/Http/Execution/Release.antt =====
-- What becomes of responses and contexts in the loop of attempts.
use clientkit.Prelude.{
  ℕ, zero, suc, ℤ, ◌≡◌, refl, ◌∙◌, ◌+◌, Bool, true, false, not, ◌&&◌, Option, none, some, List, [],
  ◌∷◌, ◌++◌, arith, if◌then◌else◌, Bool-cases, Option-cases, inl, inr,
}
use clientkit.Fault.{Error}
use clientkit.Http.Response.{Response, is_nil}
use clientkit.Http.Meeting.{
  Meeting, Attempt, ExecutionResult, Effect, cancel_operation, cancel_attempt, observe_retry, wait,
  Policy, Exchange, exchange, verdict, verdict_of,
}
use clientkit.Http.Outcome.{Outcome}
use clientkit.Http.Classifier.{ResponseClassifier}
use clientkit.Http.Execution.{
  Round, finished, again, finish, attaches, drain_effects, delay_round, delay_with, waiting,
  opening, conclude_attempt, replay_effects, prepared_round, attempt_round, retries, round,
  followed_by, run_rounds, execute_attempts, max_attempts_of,
}
use clientkit.Http.Execution.Trace.{
  count-append, weigh_release, weigh_end, weigh_receipt, one_if, released, received, ended,
}

-- Of the response that an attempt received, what was closed and what is left are one.
abbrev held : Exchange → ℕ
held x = (if x.closed then 1 else 0) + one_if x.response

closed_or_none : {A : Type 0} (o : Option A) → (if not (is_nil o) then 1 else 0) + 0 ≡ one_if o
closed_or_none none = refl
closed_or_none (some a) = refl

exchange-held : (m : Meeting) → held (exchange m) ≡ one_if m.response
unfolding exchange
exchange-held m = elim (Option-cases m.exchange_context_error) [
  | inl e ↦ rw (e, exchange) (omega arith)
  | inr (error, e) ↦ rw (e, exchange) (closed_or_none m.response)
]

-- An exchange with a closed response has none.
abbrev IsSettled : Exchange → Type 0
IsSettled x = x.closed ≡ true → x.response ≡ none

exchange-IsSettled : (m : Meeting) → IsSettled (exchange m)
unfolding exchange
exchange-IsSettled m = elim (Option-cases m.exchange_context_error) [
  | inl e ↦ rw (e, exchange) (λ h. cc)
  | inr (error, e) ↦ rw (e, exchange) (λ h. refl)
]

verdict_of-held :
    (classifier : ResponseClassifier) (x : Exchange) (response : Option Response)
    (error context_error : Option Error)
    → x.response ≡ response
    → IsSettled x
    → held (verdict_of classifier x response error context_error).exchange ≡ held x
verdict_of-held classifier x none error context_error same h = refl
verdict_of-held classifier x (some response) (some error) context_error same h = refl
verdict_of-held classifier x (some response) none none same h = refl
verdict_of-held classifier x (some response) none (some error) same h = elim (Bool-cases x.closed) [
  | inl e ↦ let gone = h e in cc
  | inr e ↦ rw (e, same) refl
]

verdict-held :
    (classifier : ResponseClassifier) (m : Meeting)
    → held (verdict classifier (exchange m) m.classified_context_error).exchange ≡ one_if m.response
unfolding verdict
verdict-held classifier m =
    verdict_of-held classifier (exchange m) (exchange m).response (exchange m).error
      m.classified_context_error refl (exchange-IsSettled m)
    ∙ exchange-held m

-- What a round receives it releases or returns, and it ends the operation's context if it is the
-- last one.
abbrev Balanced : (ℕ → Meeting) → Round → Type 0
Balanced meet (finished effects result) =
    (received meet effects ≡ released effects + one_if result.response) × (ended effects ≡ 1)
Balanced meet (again effects attempts) =
    (received meet effects ≡ released effects) × (ended effects ≡ 0)

finish-weights :
    (meet : ℕ → Meeting) (number : ℕ) (attempt : Attempt) (response : Option Response)
    → (received meet (finish number attempt response) ≡ 0)
      × (released (finish number attempt response) ≡ 0)
      × (ended (finish number attempt response) ≡ 1)
unfolding finish
finish-weights meet number attempt response =
    elim (Bool-cases (is_nil attempt.error && attaches response)) [
      | inl e ↦ rw (e, finish) (refl, refl, refl)
      | inr e ↦ rw (e, finish) (refl, refl, refl)
    ]

opening-weights :
    (meet : ℕ → Meeting) (number : ℕ) (x : Exchange) (attempt : Attempt)
    → (received meet (opening number x attempt) ≡ one_if (meet number).response)
      × (released (opening number x attempt) ≡ (if x.closed then 1 else 0))
      × (ended (opening number x attempt) ≡ 0)
opening-weights meet number x attempt = elim (Bool-cases x.closed) [
  | inl e ↦ rw e (omega arith, refl, refl)
  | inr e ↦ rw e (omega arith, refl, refl)
]

drain-weights :
    (meet : ℕ → Meeting) (number : ℕ) (response : Option Response) (rest : List Effect)
    → (received meet (drain_effects number response ++ rest) ≡ received meet rest)
      × (released (drain_effects number response ++ rest) ≡ one_if response + released rest)
      × (ended (drain_effects number response ++ rest) ≡ ended rest)
drain-weights meet number none rest = (refl, omega arith, refl)
drain-weights meet number (some response) rest = (omega arith, refl, omega arith)

waiting-weights :
    (meet : ℕ → Meeting) (number : ℕ) (response : Option Response) (number2 : ℕ) (delay : ℤ)
    (by_server : Bool) (cause : Outcome)
    → let effects =
        waiting number response (observe_retry number2 delay by_server cause) (wait delay) in
      (received meet effects ≡ 0) × (released effects ≡ one_if response) × (ended effects ≡ 0)
waiting-weights meet number none number2 delay by_server cause = (refl, refl, refl)
waiting-weights meet number (some response) number2 delay by_server cause = (refl, refl, refl)

delay_with-Balanced :
    (meet : ℕ → Meeting) (policy : Policy) (number : ℕ) (m : Meeting) (effects : List Effect)
    (attempts : List Attempt) (attempt : Attempt) (response : Option Response) (choice : ℤ × Bool)
    → received meet effects ≡ released effects + one_if response
    → ended effects ≡ 0
    → Balanced meet (delay_with policy number m effects attempts attempt response choice)
delay_with-Balanced meet policy number m effects attempts attempt response (delay, by_server) b e =
    let w = waiting-weights meet number response number delay by_server attempt.outcome in
    let pause =
      waiting number response (observe_retry number delay by_server attempt.outcome) (wait delay) in
    let r1 = count-append (weigh_receipt meet) effects pause in
    let r2 = count-append weigh_release effects pause in
    let r3 = count-append weigh_end effects pause in
    let s1 = count-append (weigh_receipt meet) (effects ++ pause) (cancel_operation ∷ []) in
    let s2 = count-append weigh_release (effects ++ pause) (cancel_operation ∷ []) in
    let s3 = count-append weigh_end (effects ++ pause) (cancel_operation ∷ []) in
    elim (Option-cases m.wait_error) [
      | inl continues ↦ rw continues (omega (arith, b, e, w, r1, r2), omega (arith, b, e, w, r3))
      | inr (error, stops) ↦
          rw stops (omega (arith, b, e, w, r1, r2, s1, s2), omega (arith, b, e, w, r3, s3))
    ]

conclude_attempt-Balanced :
    (meet : ℕ → Meeting) (policy : Policy) (number : ℕ) (attempts : List Attempt) (x : Exchange)
    (attempt : Attempt)
    → held x ≡ one_if (meet number).response
    → Balanced meet (conclude_attempt policy number (meet number) attempts x attempt)
unfolding conclude_attempt delay_round
conclude_attempt-Balanced meet policy number attempts x attempt h =
    let o = opening-weights meet number x attempt in
    let f = finish-weights meet number attempt x.response in
    let r1 =
      count-append (weigh_receipt meet) (opening number x attempt)
        (finish number attempt x.response) in
    let r2 =
      count-append weigh_release (opening number x attempt) (finish number attempt x.response) in
    let r3 = count-append weigh_end (opening number x attempt) (finish number attempt x.response) in
    elim (Bool-cases (retries policy number (meet number).operation_error_after attempt)) [
      | inl repeats ↦
          rw (repeats, conclude_attempt)
            (delay_with-Balanced meet policy number (meet number) (opening number x attempt) _
              attempt x.response _ (omega (arith, h, o)) o.2)
      | inr ends ↦
          rw (ends, conclude_attempt) (omega (arith, h, o, f, r1, r2), omega (arith, o, f, r3))
    ]

replay_effects-weights :
    (meet : ℕ → Meeting) (number : ℕ) (closes : Bool)
    → let effects = replay_effects closes ++ cancel_attempt number ∷ cancel_operation ∷ [] in
      (received meet effects ≡ 0) × (released effects ≡ 0) × (ended effects ≡ 1)
replay_effects-weights meet number true = (refl, refl, refl)
replay_effects-weights meet number false = (refl, refl, refl)

prepared_round-Balanced :
    (meet : ℕ → Meeting) (policy : Policy) (number : ℕ) (attempts : List Attempt)
    (prepared : Option Error × Bool)
    → Balanced meet (prepared_round policy number (meet number) attempts prepared)
unfolding prepared_round attempt_round
prepared_round-Balanced meet policy number attempts (none, closes) =
    conclude_attempt-Balanced meet policy number attempts _ _
      (verdict-held policy.classifier (meet number))
prepared_round-Balanced meet policy number attempts (some error, closes) =
    let w = replay_effects-weights meet number closes in (omega (arith, w), w.2)

round-Balanced :
    (meet : ℕ → Meeting) (policy : Policy) (number : ℕ) (attempts : List Attempt)
    → Balanced meet (round policy number (meet number) attempts)
unfolding round
round-Balanced meet policy number attempts = elim (Option-cases (meet number).operation_error) [
  | inl e ↦ rw (e, round) (prepared_round-Balanced meet policy number attempts _)
  | inr (error, e) ↦ rw (e, round) (refl, refl)
]

abbrev Ended : (ℕ → Meeting) → List Effect × ExecutionResult → Type 0
Ended meet (effects, result) =
    (received meet effects ≡ released effects + one_if result.response) × (ended effects ≡ 1)

followed_by-Ended :
    (meet : ℕ → Meeting) (r : Round) (next : List Attempt → List Effect × ExecutionResult)
    → Balanced meet r
    → ((attempts : List Attempt) → Ended meet (next attempts))
    → Ended meet (followed_by r next)
followed_by-Ended meet (finished effects result) next b later = b
followed_by-Ended meet (again effects attempts) next b later =
    let l = later attempts in
    let r1 = count-append (weigh_receipt meet) effects (next attempts).0 in
    let r2 = count-append weigh_release effects (next attempts).0 in
    let r3 = count-append weigh_end effects (next attempts).0 in
    (omega (arith, b, l, r1, r2), omega (arith, b, l, r3))

run_rounds-Ended :
    (meet : ℕ → Meeting) (policy : Policy) (left number : ℕ) (attempts : List Attempt)
    → Ended meet (run_rounds policy meet left number attempts)
unfolding run_rounds
run_rounds-Ended meet policy zero number attempts = (refl, refl)
run_rounds-Ended meet policy (suc left) number attempts =
    followed_by-Ended meet (round policy number (meet number) attempts)
      (run_rounds policy meet left (suc number)) (round-Balanced meet policy number attempts)
      (run_rounds-Ended meet policy left (suc number))

-- Whatever happens, the responses that the transport returns are as many as those that the loop
-- closes or drains and closes, plus one if the result hands one to the caller; and the operation's
-- context is cancelled, or handed to the body of a response, exactly once.
pub execute_attempts-released :
    (policy : Policy) (meet : ℕ → Meeting)
    → let (effects, result) = execute_attempts policy meet in
      (received meet effects ≡ released effects + one_if result.response) × (ended effects ≡ 1)
unfolding execute_attempts
execute_attempts-released policy meet =
    run_rounds-Ended meet policy (max_attempts_of policy.retry) 1 []
