-- ===== src/Http/Execution/Verdicts.antt =====
-- The verdict on one attempt.
use clientkit.Prelude.{◌≡◌, refl, true, false, Option, none, some, arith, ap, sym, ◌∙◌}
use clientkit.Fault.{Error}
use clientkit.Http.Response.{Response}
use clientkit.Http.Outcome.{classify_outcome}
use clientkit.Http.Outcome.Agreement.{agree, classify-agree}
use clientkit.Http.Classifier.{
  ResponseClassifier, ResponseClassification, response_not_classified, response_classified_accepted,
  response_classified_rejected, response_classification_invalid, classify_safely,
}
use clientkit.Http.Meeting.{Exchange, Verdict, verdict, verdict_of, classified}
use clientkit.Http.Execution.{is_success}

classified-agree : (c : ResponseClassification) → agree (classified c).0 (classified c).1 ≡ true
classified-agree response_not_classified = refl
classified-agree response_classified_accepted = refl
classified-agree response_classified_rejected = refl
classified-agree response_classification_invalid = refl

classified-success :
    (c : ResponseClassification)
    → is_success (classified c).0 ≡ true
    → c ≡ response_classified_accepted
classified-success response_not_classified h = cc
classified-success response_classified_accepted h = refl
classified-success response_classified_rejected h = cc
classified-success response_classification_invalid h = cc

absurd_of : {P : Type 0} → false ≡ true → P
absurd_of h = cc

abbrev Agrees : Verdict → Type 0
Agrees v = agree v.outcome v.failure_class ≡ true

verdict_of-Agrees :
    (classifier : ResponseClassifier) (x : Exchange) (response : Option Response)
    (error context_error : Option Error)
    → Agrees (verdict_of classifier x response error context_error)
verdict_of-Agrees classifier x none error context_error = classify-agree x.response x.error
verdict_of-Agrees classifier x (some response) (some error) context_error =
    classify-agree x.response x.error
verdict_of-Agrees classifier x (some response) none none =
    classified-agree (classify_safely classifier (some response))
verdict_of-Agrees classifier x (some response) none (some error) = classify-agree none (some error)

-- A success has a response that the classifier accepts, and no error.
abbrev pub IsAccepted : ResponseClassifier → Option Response → Option Error → Type 0
IsAccepted classifier response error =
    (r : Response) × (response ≡ some r)
    × (error ≡ none)
    × (classify_safely classifier (some r) ≡ response_classified_accepted)

pub no_success_after_error :
    (response : Option Response) (error : Error)
    → is_success (classify_outcome response (some error)) ≡ false
unfolding classify_outcome
no_success_after_error none error = ground arith
no_success_after_error (some response) error = refl

no_success_without_response :
    (error : Option Error) → is_success (classify_outcome none error) ≡ false
unfolding classify_outcome
no_success_without_response none = refl
no_success_without_response (some error) = ground arith

verdict_of-IsAccepted :
    (classifier : ResponseClassifier) (x : Exchange) (response : Option Response)
    (error context_error : Option Error)
    → x.response ≡ response
    → x.error ≡ error
    → is_success (verdict_of classifier x response error context_error).outcome ≡ true
    → IsAccepted classifier
        (verdict_of classifier x response error context_error).exchange.response
        (verdict_of classifier x response error context_error).exchange.error
verdict_of-IsAccepted classifier x none error context_error p q h =
    let no = no_success_without_response x.error in
    absurd_of (sym (ap (λ r. is_success (classify_outcome r x.error)) p ∙ no) ∙ h)
verdict_of-IsAccepted classifier x (some response) (some error) context_error p q h =
    let no = no_success_after_error x.response error in
    absurd_of (sym (ap (λ e. is_success (classify_outcome x.response e)) q ∙ no) ∙ h)
verdict_of-IsAccepted classifier x (some response) none none p q h =
    (response, p, q, classified-success (classify_safely classifier (some response)) h)
verdict_of-IsAccepted classifier x (some response) none (some error) p q h =
    let no = no_success_after_error none error in absurd_of (sym no ∙ h)

pub verdict-Agrees :
    (classifier : ResponseClassifier) (x : Exchange) (context_error : Option Error)
    → Agrees (verdict classifier x context_error)
unfolding verdict
verdict-Agrees classifier x context_error =
    verdict_of-Agrees classifier x x.response x.error context_error

pub verdict-IsAccepted :
    (classifier : ResponseClassifier) (x : Exchange) (context_error : Option Error)
    → is_success (verdict classifier x context_error).outcome ≡ true
    → IsAccepted classifier
        (verdict classifier x context_error).exchange.response
        (verdict classifier x context_error).exchange.error
unfolding verdict
verdict-IsAccepted classifier x context_error h =
    verdict_of-IsAccepted classifier x x.response x.error context_error refl refl h
