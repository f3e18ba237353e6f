-- ===== src/Observer/Closing.antt =====
-- What a start of a multiObserver of observer.go leaves for its end, and a multiObserver among the
-- observers of another.
use mathlib.Core.List.{flatten}
use clientkit.Prelude.{
  ◌≡◌, refl, sym, ap, ◌∙◌, Bool, true, false, Option, none, some, List, [], ◌∷◌, ◌++◌, map, Call,
  returned,
}
use clientkit.Observer.{
  OperationStartEvent, OperationEndEvent, Callback, OperationObservation, Observer, observe_nothing,
  call_safely, start_operation_safely, contain_start, and_observation, start_all, end_all,
  end_multi, multi_start, call_all, attempt_method, retry_method, health_method, multi,
}

-- What a composed start leaves: the world, the context, and what its end will do.
abbrev pub Closing : Type 0 → Type 0 → Type 0
Closing W Context = W × Context × (Context → OperationEndEvent → W → W)

pub map-append {ℓ κ} :
    {A : Type ℓ} {B : Type κ} (f : A → B) (xs ys : List A) → map f (xs ++ ys) ≡ map f xs ++ map f ys
map-append f [] ys = refl
map-append f (x ∷ xs) ys = ap (λ zs. f x ∷ zs) (map-append f xs ys)

module _ {W Context : Type 0} where
  end_all-append :
      (os ps : List (OperationObservation W Context)) (context : Context)
      (event : OperationEndEvent) (w : W)
      → end_all (os ++ ps) context event w ≡ end_all os context event (end_all ps context event w)
  unfolding end_all
  end_all-append [] ps context event w = refl
  end_all-append (o ∷ os) ps context event w =
      ap (call_safely o context event) (end_all-append os ps context event w)

  call_all-append :
      {Event : Type 0} (fs gs : List (Callback W Context Event)) (context : Context) (event : Event)
      (w : W)
      → call_all (fs ++ gs) context event w
        ≡ call_all gs context event (call_safely (call_all fs) context event w)
  unfolding call_all call_safely
  call_all-append [] gs context event w = refl
  call_all-append (f ∷ fs) gs context event w = call_all-append fs gs context event _

  abbrev pub closing : W × Context × List (OperationObservation W Context) → Closing W Context
  closing (w, context, os) = (w, context, end_all os)

  abbrev close_with :
      Option (OperationObservation W Context) → Closing W Context → Closing W Context
  close_with none closed = closed
  close_with (some o) (w, context, f) =
      (w, context, λ last event u. call_safely o last event (f last event u))

  closing-and_observation :
      (o : Option (OperationObservation W Context))
      (s : W × Context × List (OperationObservation W Context))
      → closing (and_observation o s) ≡ close_with o (closing s)
  unfolding end_all
  closing-and_observation none s = refl
  closing-and_observation (some o) (w, context, os) = refl

  abbrev pub result_of :
      Closing W Context → W × Call (Option Context × Option (OperationObservation W Context))
  result_of (w, context, f) =
      (w, returned (some context, some (λ last event u. (f last event u, returned tt))))

  pub multi_start-closing :
      (s : W × Context × List (OperationObservation W Context))
      → multi_start s ≡ result_of (closing s)
  unfolding end_all end_multi observe_nothing
  multi_start-closing (w, context, []) = refl
  multi_start-closing (w, context, o ∷ os) = refl

  abbrev prepended :
      List (OperationObservation W Context)
      → W × Context × List (OperationObservation W Context)
      → W × Context × List (OperationObservation W Context)
  prepended os (w, context, ps) = (w, context, os ++ ps)

  abbrev continued :
      List (Observer W Context)
      → OperationStartEvent
      → W × Context × List (OperationObservation W Context)
      → W × Context × List (OperationObservation W Context)
  continued rest event (w, context, os) = prepended os (start_all rest context event w)

  continued-and_observation :
      (rest : List (Observer W Context)) (event : OperationStartEvent)
      (o : Option (OperationObservation W Context))
      (s : W × Context × List (OperationObservation W Context))
      → and_observation o (continued rest event s) ≡ continued rest event (and_observation o s)
  continued-and_observation rest event none s = refl
  continued-and_observation rest event (some o) (w, context, os) = refl

  start_all-append :
      (observers rest : List (Observer W Context)) (context : Context) (event : OperationStartEvent)
      (w : W)
      → start_all (observers ++ rest) context event w
        ≡ continued rest event (start_all observers context event w)
  unfolding start_all
  start_all-append [] rest context event w = refl
  start_all-append (observer ∷ observers) rest context event w =
      after (start_operation_safely observer context event w)
        (λ next v. start_all-append observers rest next event v)
    where
      after :
          (s : W × (Context × Option (OperationObservation W Context) × Bool))
          → ((next : Context) (v : W)
              → start_all (observers ++ rest) next event v
                ≡ continued rest event (start_all observers next event v))
          → (let (v, (next, o, began)) = s in
              elim began [
                | false ↦ start_all (observers ++ rest) context event v
                | true ↦ and_observation o (start_all (observers ++ rest) next event v)
              ])
            ≡ continued rest event (
                let (v, (next, o, began)) = s in
                elim began [
                  | false ↦ start_all observers context event v
                  | true ↦ and_observation o (start_all observers next event v)
                ])
      after (v, (next, o, false)) hyp = hyp context v
      after (v, (next, o, true)) hyp =
          ap (and_observation o) (hyp next v)
          ∙ continued-and_observation rest event o (start_all observers next event v)

  closing-spliced :
      (os : List (OperationObservation W Context))
      (t : W × Context × List (OperationObservation W Context))
      → closing (and_observation (some (end_multi os)) t) ≡ closing (prepended os t)
  unfolding end_all end_multi call_safely
  closing-spliced os (w, context, ps) =
      sym (λ i. (w, context, λ last event u. end_all-append os ps last event u i))

  closing-nothing :
      (t : W × Context × List (OperationObservation W Context))
      → closing (and_observation (some observe_nothing) t) ≡ closing (prepended [] t)
  unfolding end_all call_safely observe_nothing
  closing-nothing (w, context, ps) = refl

  -- One group at the head of a composition closes as its members do.
  start_all-multi :
      (group rest : List (Observer W Context)) (context : Context) (event : OperationStartEvent)
      (w : W)
      → closing (start_all (multi group ∷ rest) context event w)
        ≡ closing (start_all (group ++ rest) context event w)
  unfolding start_all start_operation_safely
  start_all-multi group rest context event w =
      joined (start_all group context event w)
      ∙ ap closing (sym (start_all-append group rest context event w))
    where
      joined :
          (s : W × Context × List (OperationObservation W Context))
          → closing (
              let (v, (next, o, began)) = contain_start context (multi_start s) in
              elim began [
                | false ↦ start_all rest context event v
                | true ↦ and_observation o (start_all rest next event v)
              ])
            ≡ closing (continued rest event s)
      joined (v, next, []) = closing-nothing (start_all rest next event v)
      joined (v, next, o ∷ os) = closing-spliced (o ∷ os) (start_all rest next event v)

  -- A member at the head keeps that two compositions close alike.
  start_all-congr :
      (observer : Observer W Context) (xs ys : List (Observer W Context))
      → ((context : Context) (event : OperationStartEvent) (w : W)
          → closing (start_all xs context event w) ≡ closing (start_all ys context event w))
      → (context : Context) (event : OperationStartEvent) (w : W)
      → closing (start_all (observer ∷ xs) context event w)
        ≡ closing (start_all (observer ∷ ys) context event w)
  unfolding start_all
  start_all-congr observer xs ys same context event w =
      after (start_operation_safely observer context event w)
    where
      after :
          (s : W × (Context × Option (OperationObservation W Context) × Bool))
          → closing (
              let (v, (next, o, began)) = s in
              elim began [
                | false ↦ start_all xs context event v
                | true ↦ and_observation o (start_all xs next event v)
              ])
            ≡ closing (
                let (v, (next, o, began)) = s in
                elim began [
                  | false ↦ start_all ys context event v
                  | true ↦ and_observation o (start_all ys next event v)
                ])
      after (v, (next, o, false)) = same context event v
      after (v, (next, o, true)) =
          closing-and_observation o (start_all xs next event v)
          ∙ ap (close_with o) (same next event v)
          ∙ sym (closing-and_observation o (start_all ys next event v))

  start_all-prefix :
      (group xs ys : List (Observer W Context))
      → ((context : Context) (event : OperationStartEvent) (w : W)
          → closing (start_all xs context event w) ≡ closing (start_all ys context event w))
      → (context : Context) (event : OperationStartEvent) (w : W)
      → closing (start_all (group ++ xs) context event w)
        ≡ closing (start_all (group ++ ys) context event w)
  start_all-prefix [] xs ys same = same
  start_all-prefix (observer ∷ group) xs ys same =
      start_all-congr observer (group ++ xs) (group ++ ys) (start_all-prefix group xs ys same)

  start_all-flatten :
      (groups : List (List (Observer W Context))) (context : Context) (event : OperationStartEvent)
      (w : W)
      → closing (start_all (map multi groups) context event w)
        ≡ closing (start_all (flatten groups) context event w)
  unfolding flatten
  start_all-flatten [] context event w = refl
  start_all-flatten (group ∷ groups) context event w =
      start_all-multi group (map multi groups) context event w
      ∙ start_all-prefix group (map multi groups) (flatten groups) (start_all-flatten groups)
          context event w

  -- The other three methods, each by its projection from an observer.
  call_all-flatten :
      {Event : Type 0} (method : Observer W Context → Callback W Context Event)
      → ((group : List (Observer W Context)) → method (multi group) ≡ call_all (map method group))
      → (groups : List (List (Observer W Context))) (context : Context) (event : Event) (w : W)
      → call_all (map method (map multi groups)) context event w
        ≡ call_all (map method (flatten groups)) context event w
  unfolding flatten call_all
  call_all-flatten method method-multi [] context event w = refl
  call_all-flatten method method-multi (group ∷ groups) context event w =
      ap
        (λ (f : Callback W Context _).
          call_all (map method (map multi groups)) context event (call_safely f context event w))
        (method-multi group)
      ∙ call_all-flatten method method-multi groups context event _
      ∙ sym (
          ap (λ fs. call_all fs context event w) (map-append method group (flatten groups))
          ∙ call_all-append (map method group) (map method (flatten groups)) context event w)

  pub multi-flatten :
      (groups : List (List (Observer W Context)))
      → multi (map multi groups) ≡ multi (flatten groups)
  multi-flatten groups = λ i. record {
    start_operation = λ context event w.
        (multi_start-closing (start_all (map multi groups) context event w)
            ∙ ap result_of (start_all-flatten groups context event w)
            ∙ sym (multi_start-closing (start_all (flatten groups) context event w)))
          i;
    observe_attempt =
        λ context event w. call_all-flatten attempt_method (λ group. refl) groups context event w i;
    observe_retry =
        λ context event w. call_all-flatten retry_method (λ group. refl) groups context event w i;
    observe_health =
        λ context event w. call_all-flatten health_method (λ group. refl) groups context event w i;
  }
