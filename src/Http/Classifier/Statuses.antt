-- ===== src/Http/Classifier/Statuses.antt =====
-- The statuses that the package's classifiers accept.
use clientkit.Prelude.{
  ◌≡◌, refl, subst, ◌∙◌, sym, ℤ, pos, negsuc, ◌+◌, ◌*◌, Bool, true, false, not, ◌&&◌, ◌||◌, none,
  some, List, [], ◌∷◌, ltb_ℤ, leb_ℤ, int_eq, ◌==◌, contains, Result, ok, err, ◌>>◌, refuse_if,
  if◌then◌else◌, arith, every, Bool-cases, inl, inr,
}
use clientkit.Http.Response.{Response}
use clientkit.Http.Outcome.{
  outcome_success, classify_outcome, is_accepted_status, outcome_response_rejected,
}
use clientkit.Http.Classifier.{
  ResponseClassifier, response_classified_accepted, response_classified_rejected, exact_status,
  status_range, any_status, classify, normalize_response_classifier, classify_safely, StatusError,
  invalid_class, range_minimum, range_maximum, minimum_exceeds_maximum, is_status,
  validate_response_status, accept_status, accept_status_class, validate_statuses,
  accept_any_status, accept_status_range,
}

-- A classifier that answers every response by a test of its status.
abbrev pub Accepts : ResponseClassifier → (ℤ → Bool) → Type 0
Accepts classifier test =
    (response : Response)
    → classify_safely classifier (some response) ≡ (
        if test response.status_code
        then response_classified_accepted
        else response_classified_rejected)

-- With no classifier of the caller's, a response is accepted exactly when classifyOutcome calls it
-- a success, which is for the statuses 200 to 299; it is rejected otherwise.
pub default-classify_outcome :
    (response : Response)
    → (classify_safely (normalize_response_classifier none) (some response) ≡ (
        if is_accepted_status response.status_code
        then response_classified_accepted
        else response_classified_rejected))
      × (classify_outcome (some response) none ≡ (
          if is_accepted_status response.status_code
          then outcome_success
          else outcome_response_rejected))
unfolding classify_safely normalize_response_classifier classify classify_outcome
default-classify_outcome response = ground arith

range-Accepts : (lo hi : ℤ) → Accepts (status_range lo hi) (λ s. leb_ℤ lo s && leb_ℤ s hi)
unfolding classify_safely classify
range-Accepts lo hi response = ground arith

exact-Accepts : (status : ℤ) → Accepts (exact_status status) (λ s. s == status)
unfolding classify_safely classify
exact-Accepts status response = ground arith

any-Accepts : (statuses : List ℤ) → Accepts (any_status statuses) (contains statuses)
unfolding classify_safely classify
any-Accepts statuses response = elim (Bool-cases (contains statuses response.status_code)) [
  | inl e ↦ rw (e, classify_safely, classify) refl
  | inr e ↦ rw (e, classify_safely, classify) refl
]

-- The two ways that a constructor of classifiers ends: with an error, or with what it promises.
abbrev pub Promise : Result StatusError ResponseClassifier → Bool → (ℤ → Bool) → Type 0
Promise (err e) valid test = valid ≡ false
Promise (ok classifier) valid test = (valid ≡ true) × Accepts classifier test

guarded :
    (bad valid : Bool) (e : StatusError) (classifier : ResponseClassifier) (test : ℤ → Bool)
    → not bad ≡ valid
    → Accepts classifier test
    → Promise (refuse_if bad e >> ok classifier) valid test
guarded true false e classifier test h a = refl
guarded true true e classifier test h a = cc
guarded false true e classifier test h a = (refl, a)
guarded false false e classifier test h a = cc

guarded_thrice :
    (b1 b2 b3 valid : Bool) (e1 e2 e3 : StatusError) (classifier : ResponseClassifier)
    (test : ℤ → Bool)
    → (not b1 && not b2 && not b3) ≡ valid
    → Accepts classifier test
    → Promise (refuse_if b1 e1 >> refuse_if b2 e2 >> refuse_if b3 e3 >> ok classifier) valid test
guarded_thrice true b2 b3 valid e1 e2 e3 classifier test h a = sym h
guarded_thrice false true b3 valid e1 e2 e3 classifier test h a = sym h
guarded_thrice false false b3 valid e1 e2 e3 classifier test h a =
    guarded b3 valid e3 classifier test h a

accept_status-Promise :
    (status : ℤ) → Promise (accept_status status) (is_status status) (λ s. s == status)
unfolding accept_status validate_response_status
accept_status-Promise status = elim (Bool-cases (is_status status)) [
  | inl e ↦ rw (e, accept_status, validate_response_status) (refl, exact-Accepts status)
  | inr e ↦ rw (e, accept_status, validate_response_status) refl
]

abbrev pub class_bounds : ℤ → ℤ → Bool
class_bounds (pos class) s = leb_ℤ (pos (class * 100)) s && leb_ℤ s (pos (class * 100 + 99))
class_bounds class s = false

accept_status_class-Promise :
    (class : ℤ)
    → Promise
        (accept_status_class class)
        (leb_ℤ (pos 1) class && leb_ℤ class (pos 5))
        (class_bounds class)
unfolding accept_status_class
accept_status_class-Promise (negsuc n) = ground arith
accept_status_class-Promise (pos class) =
    guarded (ltb_ℤ (pos class) (pos 1) || ltb_ℤ (pos 5) (pos class)) _ (invalid_class (pos class)) _
      (class_bounds (pos class)) (ground arith)
      (range-Accepts (pos (class * 100)) (pos (class * 100 + 99)))

abbrev pub valid_range : ℤ → ℤ → Bool
valid_range minimum maximum = is_status minimum && is_status maximum && leb_ℤ minimum maximum

accept_status_range-Promise :
    (minimum maximum : ℤ)
    → Promise
        (accept_status_range minimum maximum)
        (valid_range minimum maximum)
        (λ s. leb_ℤ minimum s && leb_ℤ s maximum)
unfolding accept_status_range validate_response_status
accept_status_range-Promise minimum maximum =
    guarded_thrice (not (is_status minimum)) (not (is_status maximum)) (ltb_ℤ maximum minimum) _
      (range_minimum minimum) (range_maximum maximum) minimum_exceeds_maximum _ _ (ground arith)
      (range-Accepts minimum maximum)

-- No status stands twice, nor is one among those already seen.
abbrev pub distinct : List ℤ → List ℤ → Bool
distinct seen [] = true
distinct seen (s ∷ statuses) = not (contains seen s) && distinct (s ∷ seen) statuses

abbrev is_ok : Result StatusError (Unit {0}) → Bool
is_ok (ok u) = true
is_ok (err e) = false

head_is_ok :
    (valid seen : Bool) (e f : StatusError) (rest : Result StatusError (Unit {0}))
    → is_ok (refuse_if (not valid) e >> refuse_if seen f >> rest)
      ≡ (valid && not seen && is_ok rest)
head_is_ok true true e f rest = refl
head_is_ok true false e f rest = refl
head_is_ok false seen e f rest = refl

validate_statuses-distinct :
    (seen statuses : List ℤ)
    → is_ok (validate_statuses seen statuses) ≡ (every is_status statuses && distinct seen statuses)
unfolding validate_statuses validate_response_status
validate_statuses-distinct seen [] = refl
validate_statuses-distinct seen (s ∷ statuses) =
    head_is_ok (is_status s) (contains seen s) _ _ _
    ∙ ground (arith, validate_statuses-distinct (s ∷ seen) statuses)

after_validation :
    (m : Result StatusError (Unit {0})) (classifier : ResponseClassifier) (test : ℤ → Bool)
    → Accepts classifier test
    → Promise (m >> ok classifier) (is_ok m) test
after_validation (ok u) classifier test a = (refl, a)
after_validation (err e) classifier test a = refl

abbrev pub some_and_distinct : List ℤ → Bool
some_and_distinct [] = false
some_and_distinct (s ∷ statuses) = every is_status (s ∷ statuses) && distinct [] (s ∷ statuses)

accept_any_status-Promise :
    (statuses : List ℤ)
    → Promise (accept_any_status statuses) (some_and_distinct statuses) (contains statuses)
unfolding accept_any_status
accept_any_status-Promise [] = refl
accept_any_status-Promise (s ∷ statuses) =
    subst (λ valid. Promise (accept_any_status (s ∷ statuses)) valid (contains (s ∷ statuses)))
      (validate_statuses-distinct [] (s ∷ statuses))
      (after_validation (validate_statuses [] (s ∷ statuses)) _ _ (any-Accepts (s ∷ statuses)))

-- Each constructor of classifiers fails exactly on invalid arguments, which are a status outside
-- 100 to 599, a class outside 1 to 5, an empty range, and an empty or repetitive list; what it
-- makes otherwise accepts exactly the statuses that it was given and rejects every other.
pub constructors_lem :
    (status class minimum maximum : ℤ) (statuses : List ℤ)
    → Promise (accept_status status) (is_status status) (λ s. s == status)
      × Promise
          (accept_status_class class)
          (leb_ℤ (pos 1) class && leb_ℤ class (pos 5))
          (class_bounds class)
      × Promise
          (accept_status_range minimum maximum)
          (valid_range minimum maximum)
          (λ s. leb_ℤ minimum s && leb_ℤ s maximum)
      × Promise (accept_any_status statuses) (some_and_distinct statuses) (contains statuses)
constructors_lem status class minimum maximum statuses = (
  accept_status-Promise status,
  accept_status_class-Promise class,
  accept_status_range-Promise minimum maximum,
  accept_any_status-Promise statuses,
)
