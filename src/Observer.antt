-- ===== src/Observer.antt =====
-- observer.go: the events of a client, and the observers that receive them. An observer is code of
-- the caller: each of its methods changes a world and returns or panics. Attribute slices are values
-- here, so the copies that cloneObserverAttributes makes are the attributes themselves.
pub mod Closing
pub mod Compose
pub mod Contained
pub mod Brackets
use clientkit.Prelude.{
  ℕ, Bool, true, false, Option, none, some, List, [], ◌∷◌, map, ℤ, Call, returned, panicked,
}
use clientkit.Text.{Text}
use clientkit.Failure.{FailureClass}
use clientkit.Health.{HealthState}
use clientkit.Opskit.{Attribute}
use clientkit.Fault.{Error}

pub data OperationKind : Type 0 where
  operation_kind_logical : OperationKind
  operation_kind_remote : OperationKind

pub record OperationStartEvent : Type 0 where
  pub kind : OperationKind
  pub client : Text
  pub protocol : Text
  pub operation : Text
  pub started_at : ℕ
  pub attributes : List Attribute

pub record OperationEndEvent : Type 0 where
  pub client : Text
  pub protocol : Text
  pub operation : Text
  pub started_at : ℕ
  pub ended_at : ℕ
  pub duration : ℤ
  pub attempts : ℤ
  pub outcome : Text
  pub succeeded : Bool
  pub failure_class : FailureClass
  pub error : Option Error
  pub attributes : List Attribute

pub record AttemptEvent : Type 0 where
  pub client : Text
  pub protocol : Text
  pub operation : Text
  pub number : ℤ
  pub started_at : ℕ
  pub ended_at : ℕ
  pub duration : ℤ
  pub outcome : Text
  pub succeeded : Bool
  pub failure_class : FailureClass
  pub error : Option Error
  pub attributes : List Attribute

pub record RetryEvent : Type 0 where
  pub client : Text
  pub protocol : Text
  pub operation : Text
  pub after_attempt : ℤ
  pub at : ℕ
  pub delay : ℤ
  pub cause : Text
  pub failure_class : FailureClass
  pub attributes : List Attribute

pub record HealthEvent : Type 0 where
  pub client : Text
  pub protocol : Text
  pub state : HealthState
  pub failure_class : FailureClass
  pub checked_at : ℕ
  pub duration : ℤ
  pub message : Text
  pub attributes : List Attribute

-- W is what an observer can change, Context is context.Context.
module _ (W Context : Type 0) where
  abbrev pub Callback : Type 0 → Type 0
  Callback Event = Context → Event → W → W × Call (Unit {0})

  -- OperationObservation, by its method End.
  abbrev pub OperationObservation : Type 0
  OperationObservation = Callback OperationEndEvent

  -- The method table of an Observer. A context or an observation may be nil.
  pub record Observer : Type 0 where
    pub start_operation :
        Context → OperationStartEvent → W → W × Call (Option Context × Option OperationObservation)
    pub observe_attempt : Callback AttemptEvent
    pub observe_retry : Callback RetryEvent
    pub observe_health : Callback HealthEvent

  -- What startOperationSafely returns: next, observation and ok.
  abbrev pub Start : Type 0
  Start = Context × Option OperationObservation × Bool

  -- An Observer value by its dynamic type, which SafeObserver asks for.
  pub data ObserverValue : Type 0 where
    nop_observer : ObserverValue
    safe_observer : Observer → ObserverValue
    multi_observer : List Observer → ObserverValue
    custom_observer : Observer → ObserverValue

-- `defer func() { _ = recover() }()`.
abbrev world_after : {W : Type 0} → W × Call (Unit {0}) → W
world_after (w, call) = w

abbrev pub or_incoming : {Context : Type 0} → Context → Option Context → Context
or_incoming context none = context
or_incoming context (some next) = next

module _ {W Context : Type 0} where
  -- NopObserver and NopOperationObservation.
  unfoldable pub observe_nothing : {Event : Type 0} → Callback W Context Event
  observe_nothing context event w = (w, returned tt)

  abbrev pub nop : Observer W Context
  nop = record {
    start_operation = λ context event w. (w, returned (some context, some observe_nothing));
    observe_attempt = observe_nothing;
    observe_retry = observe_nothing;
    observe_health = observe_nothing;
  }

  -- endOperationSafely, observeAttemptSafely, observeRetrySafely and observeHealthSafely.
  unfoldable pub call_safely : {Event : Type 0} → Callback W Context Event → Context → Event → W → W
  call_safely callback context event w = world_after (callback context event w)

  abbrev pub contain_start :
      Context
      → W × Call (Option Context × Option (OperationObservation W Context))
      → W × Start W Context
  contain_start context (w, panicked) = (w, (context, none, false))
  contain_start context (w, returned (next, observation)) =
      (w, (or_incoming context next, observation, true))

  unfoldable pub start_operation_safely :
      Observer W Context → Context → OperationStartEvent → W → W × Start W Context
  start_operation_safely observer context event w =
      contain_start context (observer.start_operation context event w)

  -- A method that contains the panics of another observer's.
  unfoldable pub safe_callback :
      {Event : Type 0} → Callback W Context Event → Callback W Context Event
  safe_callback callback context event w = (call_safely callback context event w, returned tt)

  -- safeObserver.StartOperation after startOperationSafely.
  abbrev pub safe_start :
      Context
      → W × Start W Context
      → W × Call (Option Context × Option (OperationObservation W Context))
  safe_start context (w, (next, o, false)) = (w, returned (some context, some observe_nothing))
  safe_start context (w, (next, none, true)) =
      (w, returned (some next, some (safe_callback observe_nothing)))
  safe_start context (w, (next, some o, true)) = (w, returned (some next, some (safe_callback o)))

  abbrev pub safe : Observer W Context → Observer W Context
  safe observer = record {
    start_operation =
        λ context event w. safe_start context (start_operation_safely observer context event w);
    observe_attempt = safe_callback observer.observe_attempt;
    observe_retry = safe_callback observer.observe_retry;
    observe_health = safe_callback observer.observe_health;
  }

  -- The loop of multiObserver.StartOperation, with the observations in the order of their start.
  abbrev pub and_observation :
      Option (OperationObservation W Context)
      → W × Context × List (OperationObservation W Context)
      → W × Context × List (OperationObservation W Context)
  and_observation none rest = rest
  and_observation (some o) (w, context, os) = (w, context, o ∷ os)

  unfoldable pub start_all :
      List (Observer W Context)
      → Context
      → OperationStartEvent
      → W
      → W × Context × List (OperationObservation W Context)
  start_all [] current event w = (w, current, [])
  start_all (observer ∷ observers) current event w =
      let (v, (next, o, began)) = start_operation_safely observer current event w in
      elim began [
        | false ↦ start_all observers current event v
        | true ↦ and_observation o (start_all observers next event v)
      ]

  -- multiOperationObservation.End: from the last observation to the first.
  unfoldable pub end_all :
      List (OperationObservation W Context) → Context → OperationEndEvent → W → W
  end_all [] context event w = w
  end_all (o ∷ os) context event w = call_safely o context event (end_all os context event w)

  unfoldable pub end_multi : List (OperationObservation W Context) → OperationObservation W Context
  end_multi os context event w = (end_all os context event w, returned tt)

  abbrev pub multi_start :
      W × Context × List (OperationObservation W Context)
      → W × Call (Option Context × Option (OperationObservation W Context))
  multi_start (w, current, []) = (w, returned (some current, some observe_nothing))
  multi_start (w, current, o ∷ os) = (w, returned (some current, some (end_multi (o ∷ os))))

  -- The loops of ObserveAttempt, ObserveRetry and ObserveHealth.
  unfoldable pub call_all :
      {Event : Type 0} → List (Callback W Context Event) → Callback W Context Event
  call_all [] context event w = (w, returned tt)
  call_all (callback ∷ callbacks) context event w =
      call_all callbacks context event (call_safely callback context event w)

  abbrev pub attempt_method : Observer W Context → Callback W Context AttemptEvent
  attempt_method observer = observer.observe_attempt

  abbrev pub retry_method : Observer W Context → Callback W Context RetryEvent
  retry_method observer = observer.observe_retry

  abbrev pub health_method : Observer W Context → Callback W Context HealthEvent
  health_method observer = observer.observe_health

  abbrev pub multi : List (Observer W Context) → Observer W Context
  multi observers = record {
    start_operation = λ context event w. multi_start (start_all observers context event w);
    observe_attempt = call_all (map attempt_method observers);
    observe_retry = call_all (map retry_method observers);
    observe_health = call_all (map health_method observers);
  }

  -- What a method call on an Observer value runs.
  abbrev pub methods : ObserverValue W Context → Observer W Context
  methods nop_observer = nop
  methods (safe_observer observer) = safe observer
  methods (multi_observer observers) = multi observers
  methods (custom_observer observer) = observer

  -- SafeObserver.
  unfoldable pub contain_observer : Option (ObserverValue W Context) → ObserverValue W Context
  contain_observer none = nop_observer
  contain_observer (some (custom_observer observer)) = safe_observer observer
  contain_observer (some observer) = observer

  -- The loop of MultiObserver, which drops the nil observers.
  unfoldable pub usable : List (Option (ObserverValue W Context)) → List (ObserverValue W Context)
  usable [] = []
  usable (none ∷ observers) = usable observers
  usable (some observer ∷ observers) = observer ∷ usable observers

  abbrev pub compose_usable : List (ObserverValue W Context) → ObserverValue W Context
  compose_usable [] = nop_observer
  compose_usable (observer ∷ []) = contain_observer (some observer)
  compose_usable (first ∷ second ∷ others) =
      multi_observer (methods first ∷ methods second ∷ map methods others)

  -- MultiObserver.
  unfoldable pub compose_observers :
      List (Option (ObserverValue W Context)) → ObserverValue W Context
  compose_observers observers = compose_usable (usable observers)
