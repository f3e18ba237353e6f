-- ===== src/Http/Classifier.antt =====
-- httpclient/response_classifier.go: which responses a client accepts.
pub mod Statuses
use clientkit.Prelude.{
  ◌≡◌, ◌↔◌, refl, ℕ, ℤ, pos, ◌+◌, ◌*◌, Bool, true, false, not, ◌&&◌, ◌||◌, Option, none, some, List,
  [], ◌∷◌, All, ltb_ℤ, leb_ℤ, int_eq, ◌==◌, ◌≤ℤ◌, contains, Call, returned, panicked, Result, ok,
  err, ◌>>◌, refuse_if, if◌then◌else◌, arith,
}
use clientkit.Text.{Text}
use clientkit.Http.Response.{Response}

pub data ResponseDisposition : Type 0 where
  response_accepted : ResponseDisposition
  response_rejected : ResponseDisposition
  response_other : Text → ResponseDisposition

pub data ResponseClassification : Type 0 where
  response_not_classified : ResponseClassification
  response_classified_accepted : ResponseClassification
  response_classified_rejected : ResponseClassification
  response_classification_invalid : ResponseClassification

-- The classifiers of the package, a classifier of the caller, and a nil ResponseClassifierFunc.
pub data ResponseClassifier : Type 0 where
  exact_status : ℤ → ResponseClassifier
  status_range : (minimum maximum : ℤ) → ResponseClassifier
  any_status : List ℤ → ResponseClassifier
  nil_function : ResponseClassifier
  custom : (Option Response → Call ResponseDisposition) → ResponseClassifier

abbrev disposition : Bool → ResponseDisposition
disposition true = response_accepted
disposition false = response_rejected

-- The loop of anyStatusResponseClassifier.Classify is `contains`.
unfoldable pub classify : ResponseClassifier → Option Response → Call ResponseDisposition
classify (custom function) response = function response
classify nil_function response = returned response_rejected
classify _ none = returned response_rejected
classify (exact_status status) (some response) =
    returned (disposition (response.status_code == status))
classify (status_range minimum maximum) (some response) =
    returned
      (disposition (leb_ℤ minimum response.status_code && leb_ℤ response.status_code maximum))
classify (any_status statuses) (some response) =
    returned (disposition (contains statuses response.status_code))

abbrev pub default_response_classifier : ResponseClassifier
default_response_classifier = status_range (pos 200) (pos 299)

-- safeResponseClassifier holds a classifier; nil selects the default.
unfoldable pub normalize_response_classifier : Option ResponseClassifier → ResponseClassifier
normalize_response_classifier none = default_response_classifier
normalize_response_classifier (some classifier) = classifier

abbrev contained : Call ResponseDisposition → ResponseClassification
contained (returned response_accepted) = response_classified_accepted
contained (returned response_rejected) = response_classified_rejected
contained (returned (response_other text)) = response_classification_invalid
contained panicked = response_classification_invalid

-- safeResponseClassifier.classify.
unfoldable pub classify_safely : ResponseClassifier → Option Response → ResponseClassification
classify_safely nil_function response = response_classification_invalid
classify_safely classifier response = contained (classify classifier response)

pub data StatusError : Type 0 where
  invalid_status : ℤ → StatusError
  invalid_class : ℤ → StatusError
  statuses_required : StatusError
  duplicate_status : ℤ → StatusError
  range_minimum : ℤ → StatusError
  range_maximum : ℤ → StatusError
  minimum_exceeds_maximum : StatusError

abbrev pub is_status : ℤ → Bool
is_status status = not (ltb_ℤ status (pos 100) || ltb_ℤ (pos 599) status)

unfoldable pub validate_response_status : ℤ → (ℤ → StatusError) → Result StatusError (Unit {0})
validate_response_status status wrap = refuse_if (not (is_status status)) (wrap status)

unfoldable pub accept_status : ℤ → Result StatusError ResponseClassifier
accept_status status = validate_response_status status invalid_status >> ok (exact_status status)

-- A class of 1 to 5, times 100.
abbrev hundreds : ℤ → ResponseClassifier
hundreds (pos class) = status_range (pos (class * 100)) (pos (class * 100 + 99))
hundreds class = status_range (pos 0) (pos 0)

unfoldable pub accept_status_class : ℤ → Result StatusError ResponseClassifier
accept_status_class class =
    refuse_if (ltb_ℤ class (pos 1) || ltb_ℤ (pos 5) class) (invalid_class class)
    >> ok (hundreds class)

-- The loop of AcceptAnyStatus, with the map `seen` as a list.
unfoldable pub validate_statuses : List ℤ → List ℤ → Result StatusError (Unit {0})
validate_statuses seen [] = ok tt
validate_statuses seen (status ∷ statuses) =
    validate_response_status status invalid_status
    >> refuse_if (contains seen status) (duplicate_status status)
    >> validate_statuses (status ∷ seen) statuses

unfoldable pub accept_any_status : List ℤ → Result StatusError ResponseClassifier
accept_any_status [] = err statuses_required
accept_any_status (status ∷ statuses) =
    validate_statuses [] (status ∷ statuses) >> ok (any_status (status ∷ statuses))

unfoldable pub accept_status_range : ℤ → ℤ → Result StatusError ResponseClassifier
accept_status_range minimum maximum =
    validate_response_status minimum range_minimum
    >> validate_response_status maximum range_maximum
    >> refuse_if (ltb_ℤ maximum minimum) minimum_exceeds_maximum
    >> ok (status_range minimum maximum)
