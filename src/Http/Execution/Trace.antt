-- ===== src/Http/Execution/Trace.antt =====
-- What a list of effects shows: requests sent, attempts reported, responses and contexts released.
use clientkit.Prelude.{ℕ, ◌≡◌, refl, ◌+◌, Option, none, some, List, [], ◌∷◌, ◌++◌, arith, ap}
use clientkit.Http.Meeting.{
  Meeting, Attempt, Effect, send, close_response, drain_response, observe_attempt, cancel_operation,
  attach_lifecycle,
}

abbrev pub prepend {ℓ} : {A : Type ℓ} → Option A → List A → List A
prepend none xs = xs
prepend (some a) xs = a ∷ xs

abbrev pub collect {ℓ} : {A : Type ℓ} → (Effect → Option A) → List Effect → List A
collect pick [] = []
collect pick (effect ∷ effects) = prepend (pick effect) (collect pick effects)

abbrev pub count : (Effect → ℕ) → List Effect → ℕ
count weigh [] = 0
count weigh (effect ∷ effects) = weigh effect + count weigh effects

prepend-append {ℓ} :
    {A : Type ℓ} (o : Option A) (xs ys zs : List A)
    → xs ≡ (ys ++ zs)
    → prepend o xs ≡ (prepend o ys ++ zs)
prepend-append none xs ys zs h = h
prepend-append (some a) xs ys zs h = ap (◌∷◌ a) h

pub collect-append {ℓ} :
    {A : Type ℓ} (pick : Effect → Option A) (xs ys : List Effect)
    → collect pick (xs ++ ys) ≡ (collect pick xs ++ collect pick ys)
collect-append pick [] ys = refl
collect-append pick (x ∷ xs) ys = prepend-append (pick x) _ _ _ (collect-append pick xs ys)

pub count-append :
    (weigh : Effect → ℕ) (xs ys : List Effect)
    → count weigh (xs ++ ys) ≡ count weigh xs + count weigh ys
count-append weigh [] ys = omega arith
count-append weigh (x ∷ xs) ys = omega (arith, count-append weigh xs ys)

abbrev pub pick_sent : Effect → Option ℕ
pick_sent (send number) = some number
pick_sent _ = none

abbrev pub pick_observed : Effect → Option Attempt
pick_observed (observe_attempt attempt) = some attempt
pick_observed _ = none

abbrev pub weigh_release : Effect → ℕ
weigh_release (close_response number) = 1
weigh_release (drain_response number) = 1
weigh_release _ = 0

abbrev pub weigh_end : Effect → ℕ
weigh_end cancel_operation = 1
weigh_end (attach_lifecycle number) = 1
weigh_end _ = 0

-- 1 if there is one.
abbrev pub one_if {ℓ} : {A : Type ℓ} → Option A → ℕ
one_if none = 0
one_if (some a) = 1

abbrev pub weigh_receipt : (ℕ → Meeting) → Effect → ℕ
weigh_receipt meet (send number) = one_if (meet number).response
weigh_receipt meet _ = 0

-- The numbers of the attempts that were sent; the attempts that were reported to the observer.
abbrev pub sent : List Effect → List ℕ
sent effects = collect pick_sent effects

abbrev pub observed : List Effect → List Attempt
observed effects = collect pick_observed effects

-- How many responses were closed; how many the transport returned; how often the operation's
-- context was cancelled or handed to the response's body.
abbrev pub released : List Effect → ℕ
released effects = count weigh_release effects

abbrev pub received : (ℕ → Meeting) → List Effect → ℕ
received meet effects = count (weigh_receipt meet) effects

abbrev pub ended : List Effect → ℕ
ended effects = count weigh_end effects
