-- ===== src/Examples/Observing.antt =====
-- Examples for the observers: one that derives a context, one whose start panics, and one whose
-- observation panics.
use clientkit.Prelude.{
  ℕ, ◌≡◌, true, Option, none, some, List, [], ◌∷◌, ◌++◌, map, returned, panicked, ◌+◌,
}
use mathlib.Core.List.{flatten}
use clientkit.Text.{codes}
use clientkit.Observer.{
  operation_kind_logical, OperationStartEvent, OperationEndEvent, OperationObservation,
  ObserverValue, nop_observer, custom_observer, methods, contain_observer, compose_observers,
}
use clientkit.Observer.Brackets.{
  Mark, begun, over, Behaviour, logging, logging_observers, compose_observers-brackets,
}
use clientkit.Observer.Compose.{composed_group, compose_observers-flatten}
use clientkit.Observer.Contained.{IsContained, compose_observers-IsContained}

abbrev context_deriving : Behaviour ℕ
context_deriving = record {
  label = 1;
  start = λ context. returned (some (context + 10), true);
  finishing = returned tt;
}

abbrev failing : Behaviour ℕ
failing = record { label = 2; start = λ context. panicked; finishing = returned tt }

abbrev unfinished : Behaviour ℕ
unfinished = record { label = 3; start = λ context. returned (none, true); finishing = panicked }

abbrev three : List (Behaviour ℕ)
three = context_deriving ∷ failing ∷ unfinished ∷ []

abbrev start_event : OperationStartEvent
start_event = record {
  kind = operation_kind_logical;
  client = codes "billing";
  protocol = codes "http";
  operation = codes "get";
  started_at = 5;
  attributes = [];
}

compose_observers-brackets_example :
    (o : OperationObservation (List Mark) ℕ) × ((methods
          (compose_observers (logging_observers three))).start_operation
        7 start_event []
      ≡ (begun 1 ∷ begun 2 ∷ begun 3 ∷ [], returned (some 17, some o)))
    × ((last : ℕ) (end_event : OperationEndEvent) (later : List Mark)
        → o last end_event later ≡ (later ++ over 3 ∷ over 1 ∷ [], returned tt))
compose_observers-brackets_example = compose_observers-brackets three 7 start_event []

abbrev observer_groups : List (List (Option (ObserverValue (List Mark) ℕ)))
observer_groups =
    (some (custom_observer (logging context_deriving)) ∷ none ∷ [])
    ∷ []
    ∷ (some (custom_observer (logging failing))
        ∷ some nop_observer
        ∷ some (custom_observer (logging unfinished))
        ∷ [])
    ∷ []

compose_observers-flatten_example :
    methods (compose_observers (map composed_group observer_groups))
    ≡ methods (compose_observers (flatten observer_groups))
compose_observers-flatten_example = compose_observers-flatten observer_groups

compose_observers-IsContained_example :
    IsContained (methods (compose_observers (logging_observers three)))
    × IsContained (methods (contain_observer (some (custom_observer (logging failing)))))
compose_observers-IsContained_example =
    compose_observers-IsContained (logging_observers three)
      (some (custom_observer (logging failing)))
