-- ===== src/Observer/Contained.antt =====
-- SafeObserver and MultiObserver of observer.go: no panic of an observer reaches the client.
use clientkit.Prelude.{◌≡◌, refl, sym, subst, Option, none, some, List, [], ◌∷◌, map, returned}
use clientkit.Observer.{
  OperationStartEvent, Callback, OperationObservation, Observer, ObserverValue, observe_nothing,
  start_all, end_multi, multi_start, call_all, call_safely, attempt_method, retry_method,
  health_method, multi, methods, contain_observer, compose_observers,
}
use clientkit.Observer.Compose.{nop-multi, methods-compose_observers, methods-contain_observer}

module _ {W Context : Type 0} where
  -- A method that returns wherever it is called.
  abbrev pub Returns : {Event : Type 0} → Callback W Context Event → Type 0
  Returns {Event} callback =
      (context : Context) (event : Event) (w : W)
      → (v : W) × (callback context event w ≡ (v, returned tt))

  -- An observer that never panics, and whose start gives a context and an observation that are not
  -- nil, of which the observation never panics either.
  pub record IsContained (observer : Observer W Context) : Type 0 where
    pub starts :
        (context : Context) (event : OperationStartEvent) (w : W)
        → (v : W) × (next : Context) × (o : OperationObservation W Context)
          × (observer.start_operation context event w ≡ (v, returned (some next, some o)))
          × Returns o
    pub attempts : Returns observer.observe_attempt
    pub retrying : Returns observer.observe_retry
    pub healths : Returns observer.observe_health

  call_all-Returns : {Event : Type 0} (fs : List (Callback W Context Event)) → Returns (call_all fs)
  unfolding call_all
  call_all-Returns [] context event w = (w, refl)
  call_all-Returns (f ∷ fs) context event w =
      call_all-Returns fs context event (call_safely f context event w)

  multi_start-Returns :
      (s : W × Context × List (OperationObservation W Context))
      → (v : W) × (next : Context) × (o : OperationObservation W Context) × (multi_start s
          ≡ (v, returned (some next, some o)))
        × Returns o
  unfolding end_multi observe_nothing
  multi_start-Returns (w, context, []) =
      (w, context, observe_nothing, refl, λ context event w. (w, refl))
  multi_start-Returns (w, context, o ∷ os) =
      (w, context, end_multi (o ∷ os), refl, λ context event w. (_, refl))

  multi-IsContained : (observers : List (Observer W Context)) → IsContained (multi observers)
  multi-IsContained observers = record {
    starts = λ context event w. multi_start-Returns (start_all observers context event w);
    attempts = call_all-Returns (map attempt_method observers);
    retrying = call_all-Returns (map retry_method observers);
    healths = call_all-Returns (map health_method observers);
  }

  -- What MultiObserver and SafeObserver make of any observers, nil ones and ones that panic
  -- included, never panics in any of its methods, and starts an operation with a context and an
  -- observation that are not nil and whose End does not panic.
  pub compose_observers-IsContained :
      (observers : List (Option (ObserverValue W Context)))
      (observer : Option (ObserverValue W Context))
      → IsContained (methods (compose_observers observers))
        × IsContained (methods (contain_observer observer))
  unfolding contain_observer
  compose_observers-IsContained observers observer = (
    subst IsContained (sym (methods-compose_observers observers)) (multi-IsContained _),
    single observer,
  )
    where
      single :
          (observer : Option (ObserverValue W Context))
          → IsContained (methods (contain_observer observer))
      single none = subst IsContained (sym nop-multi) (multi-IsContained [])
      single (some o) =
          subst IsContained (sym (methods-contain_observer o)) (multi-IsContained (methods o ∷ []))
