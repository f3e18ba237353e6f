-- ===== src/Observer/Compose.antt =====
-- MultiObserver of observer.go as a composition: observers that are composed in groups first.
use mathlib.Core.List.{flatten, append-nil}
use clientkit.Prelude.{
  ◌≡◌, refl, sym, ap, ◌∙◌, Bool, true, false, Option, none, some, List, [], ◌∷◌, ◌++◌, map,
}
use clientkit.Observer.{
  OperationObservation, Observer, ObserverValue, nop_observer, safe_observer, multi_observer,
  custom_observer, observe_nothing, nop, call_safely, start_operation_safely, safe_callback,
  safe_start, safe, and_observation, start_all, end_all, end_multi, multi_start, call_all, multi,
  methods, contain_observer, usable, compose_usable, compose_observers,
}
use clientkit.Observer.Closing.{map-append, multi-flatten}

module _ {W Context : Type 0} where
  pub nop-multi : nop ≡ multi {W = W} {Context = Context} []
  unfolding start_all call_all observe_nothing
  nop-multi = refl

  safe-multi : (observer : Observer W Context) → safe observer ≡ multi (observer ∷ [])
  unfolding start_all call_all safe_callback call_safely observe_nothing end_multi end_all
  safe-multi observer = λ i. record {
    start_operation =
        λ context event w. started context (start_operation_safely observer context event w) i;
    observe_attempt = safe_callback observer.observe_attempt;
    observe_retry = safe_callback observer.observe_retry;
    observe_health = safe_callback observer.observe_health;
  }
    where
      started :
          (context : Context) (s : W × (Context × Option (OperationObservation W Context) × Bool))
          → safe_start context s
            ≡ multi_start (
                let (v, (next, o, began)) = s in
                elim began [ false ↦ (v, context, []) | true ↦ and_observation o (v, next, []) ])
      started context (v, (next, o, false)) = refl
      started context (v, (next, none, true)) = refl
      started context (v, (next, some o, true)) = refl

  pub methods-contain_observer :
      (observer : ObserverValue W Context)
      → methods (contain_observer (some observer)) ≡ multi (methods observer ∷ [])
  unfolding contain_observer flatten
  methods-contain_observer nop_observer =
      nop-multi ∙ sym (multi-flatten ([] ∷ [])) ∙ ap (λ o. multi (o ∷ [])) (sym nop-multi)
  methods-contain_observer (custom_observer observer) = safe-multi observer
  methods-contain_observer (safe_observer observer) =
      safe-multi observer
      ∙ sym (multi-flatten ((observer ∷ []) ∷ []))
      ∙ ap (λ o. multi (o ∷ [])) (sym (safe-multi observer))
  methods-contain_observer (multi_observer observers) =
      ap multi (sym (append-nil observers)) ∙ sym (multi-flatten (observers ∷ []))

  -- Whatever shortcut MultiObserver takes, its result acts as the list of its observers.
  pub methods-compose_observers :
      (observers : List (Option (ObserverValue W Context)))
      → methods (compose_observers observers) ≡ multi (map methods (usable observers))
  unfolding compose_observers
  methods-compose_observers observers = composed (usable observers)
    where
      composed :
          (os : List (ObserverValue W Context))
          → methods (compose_usable os) ≡ multi (map methods os)
      composed [] = nop-multi
      composed (o ∷ []) = methods-contain_observer o
      composed (first ∷ second ∷ others) = refl

  abbrev pub composed_group :
      List (Option (ObserverValue W Context)) → Option (ObserverValue W Context)
  composed_group group = some (compose_observers group)

  usable-append :
      (xs ys : List (Option (ObserverValue W Context))) → usable (xs ++ ys) ≡ usable xs ++ usable ys
  unfolding usable
  usable-append [] ys = refl
  usable-append (none ∷ xs) ys = usable-append xs ys
  usable-append (some x ∷ xs) ys = ap (λ zs. x ∷ zs) (usable-append xs ys)

  abbrev members : List (Option (ObserverValue W Context)) → List (Observer W Context)
  members group = map methods (usable group)

  members-composed :
      (groups : List (List (Option (ObserverValue W Context))))
      → members (map composed_group groups) ≡ map multi (map members groups)
  unfolding usable
  members-composed [] = refl
  members-composed (group ∷ groups) =
      λ i. methods-compose_observers group i ∷ members-composed groups i

  members-flatten :
      (groups : List (List (Option (ObserverValue W Context))))
      → flatten (map members groups) ≡ members (flatten groups)
  unfolding flatten usable
  members-flatten [] = refl
  members-flatten (group ∷ groups) =
      ap (λ rest. members group ++ rest) (members-flatten groups)
      ∙ sym (
          ap (map methods) (usable-append group (flatten groups))
          ∙ map-append methods (usable group) (usable (flatten groups)))

  -- Composing observers in groups first, and then the composed groups, gives an observer whose four
  -- methods are those of all the observers composed at once: the same calls in the same order with the
  -- same contexts, whatever the observers do and whichever of them are nil.
  pub compose_observers-flatten :
      (groups : List (List (Option (ObserverValue W Context))))
      → methods (compose_observers (map composed_group groups))
        ≡ methods (compose_observers (flatten groups))
  compose_observers-flatten groups =
      methods-compose_observers (map composed_group groups)
      ∙ ap multi (members-composed groups)
      ∙ multi-flatten (map members groups)
      ∙ ap multi (members-flatten groups)
      ∙ sym (methods-compose_observers (flatten groups))
