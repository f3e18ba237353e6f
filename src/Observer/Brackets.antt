-- ===== src/Observer/Brackets.antt =====
-- The order of the calls that a multiObserver of observer.go makes, on observers that write their
-- calls into a log.
use mathlib.Core.List.{append-nil, append_assoc}
use clientkit.Prelude.{
  ℕ, ◌≡◌, refl, sym, ap, ◌∙◌, Bool, true, false, Option, none, some, List, [], ◌∷◌, ◌++◌, map, Call,
  returned, panicked, if◌then◌else◌,
}
use clientkit.Observer.{
  OperationStartEvent, OperationEndEvent, OperationObservation, Observer, ObserverValue,
  custom_observer, observe_nothing, or_incoming, and_observation, contain_start,
  start_operation_safely, call_safely, start_all, end_all, methods, usable, multi,
  compose_observers,
}
use clientkit.Observer.Closing.{multi_start-closing}
use clientkit.Observer.Compose.{methods-compose_observers}

pub data Mark : Type 0 where
  begun : ℕ → Mark
  over : ℕ → Mark

module _ (Context : Type 0) where
  -- What one observer does: whether its start panics, the context that it derives, if any, whether
  -- it gives an observation, and whether that panics.
  pub record Behaviour : Type 0 where
    pub label : ℕ
    pub start : Context → Call (Option Context × Bool)
    pub finishing : Call (Unit {0})

abbrev derived : {Context : Type 0} → Context → Call (Option Context × Bool) → Context
derived context panicked = context
derived context (returned (next, o)) = or_incoming context next

abbrev observes : {Context : Type 0} → Call (Option Context × Bool) → Bool
observes panicked = false
observes (returned (next, o)) = o

module _ {Context : Type 0} where
  abbrev logging_end : Behaviour Context → OperationObservation (List Mark) Context
  logging_end b context event log = (log ++ over b.label ∷ [], b.finishing)

  abbrev with_observation :
      Behaviour Context
      → Call (Option Context × Bool)
      → Call (Option Context × Option (OperationObservation (List Mark) Context))
  with_observation b panicked = panicked
  with_observation b (returned (next, true)) = returned (next, some (logging_end b))
  with_observation b (returned (next, false)) = returned (next, none)

  abbrev pub logging : Behaviour Context → Observer (List Mark) Context
  logging b = record {
    start_operation =
        λ context event log. (log ++ begun b.label ∷ [], with_observation b (b.start context));
    observe_attempt = observe_nothing;
    observe_retry = observe_nothing;
    observe_health = observe_nothing;
  }

  -- The context that comes out of the chain.
  abbrev pub chained : List (Behaviour Context) → Context → Context
  chained [] context = context
  chained (b ∷ bs) context = chained bs (derived context (b.start context))

  -- The marks of the observers that gave an observation, the last one's first.
  abbrev pub closing_marks : List (Behaviour Context) → Context → List Mark
  closing_marks [] context = []
  closing_marks (b ∷ bs) context =
      let rest = closing_marks bs (derived context (b.start context)) in
      if observes (b.start context) then rest ++ over b.label ∷ [] else rest

  abbrev pub opening_marks : List (Behaviour Context) → List Mark
  opening_marks [] = []
  opening_marks (b ∷ bs) = begun b.label ∷ opening_marks bs

  -- What a start of all is, up to what its end does.
  record Starts (bs : List (Behaviour Context)) (context : Context) (log : List Mark)
      (s : List Mark × Context × List (OperationObservation (List Mark) Context)) : Type 0 where
    marks : s.0 ≡ log ++ opening_marks bs
    context_chained : s.1 ≡ chained bs context
    ends :
        (last : Context) (event : OperationEndEvent) (later : List Mark)
        → end_all s.2 last event later ≡ later ++ closing_marks bs context

  begins-later :
      (b : Behaviour Context) (bs : List (Behaviour Context)) (log w : List Mark)
      → w ≡ (log ++ begun b.label ∷ []) ++ opening_marks bs
      → w ≡ log ++ opening_marks (b ∷ bs)
  begins-later b bs log w h = h ∙ append_assoc log (begun b.label ∷ []) (opening_marks bs)

  -- A first observer that replied so, and the others from the context that it left.
  Starts-unobserved :
      (b : Behaviour Context) (bs : List (Behaviour Context)) (context : Context) (log : List Mark)
      (reply : Call (Option Context × Bool))
      → b.start context ≡ reply
      → observes reply ≡ false
      → (s : List Mark × Context × List (OperationObservation (List Mark) Context))
      → Starts bs (derived context reply) (log ++ begun b.label ∷ []) s
      → Starts (b ∷ bs) context log s
  Starts-unobserved b bs context log reply e silent s h = record {
    marks = begins-later b bs log s.0 h.marks;
    context_chained = rw e h.context_chained;
    ends = λ last event later. rw (e, silent) (h.ends last event later);
  }

  Starts-observed :
      (b : Behaviour Context) (bs : List (Behaviour Context)) (context : Context) (log : List Mark)
      (reply : Call (Option Context × Bool))
      → b.start context ≡ reply
      → observes reply ≡ true
      → (s : List Mark × Context × List (OperationObservation (List Mark) Context))
      → Starts bs (derived context reply) (log ++ begun b.label ∷ []) s
      → Starts (b ∷ bs) context log (and_observation (some (logging_end b)) s)
  unfolding end_all call_safely
  Starts-observed b bs context log reply e loud (w, next, os) h = record {
    marks = begins-later b bs log w h.marks;
    context_chained = rw e h.context_chained;
    ends = λ last event later.
        rw (e, loud)
          (ap (λ marks. marks ++ over b.label ∷ []) (h.ends last event later)
            ∙ append_assoc later (closing_marks bs (derived context reply)) (over b.label ∷ []));
  }

  start_all-Starts :
      (bs : List (Behaviour Context)) (context : Context) (event : OperationStartEvent)
      (log : List Mark)
      → Starts bs context log (start_all (map logging bs) context event log)
  unfolding start_all start_operation_safely end_all
  start_all-Starts [] context event log = record {
    marks = sym (append-nil log);
    context_chained = refl;
    ends = λ last event later. sym (append-nil later);
  }
  start_all-Starts (b ∷ bs) context event log =
      started (b.start context) refl
        (start_all-Starts bs (derived context (b.start context)) event (log ++ begun b.label ∷ []))
    where
      started :
          (reply : Call (Option Context × Bool))
          → b.start context ≡ reply
          → Starts bs
              (derived context reply)
              (log ++ begun b.label ∷ [])
              (start_all (map logging bs) (derived context reply) event (log ++ begun b.label ∷ []))
          → Starts (b ∷ bs) context log (
              let (v, (next, o, began)) =
                contain_start context (log ++ begun b.label ∷ [], with_observation b reply) in
              elim began [
                | false ↦ start_all (map logging bs) context event v
                | true ↦ and_observation o (start_all (map logging bs) next event v)
              ])
      started panicked e h = Starts-unobserved b bs context log panicked e refl _ h
      started (returned (next, true)) e h =
          Starts-observed b bs context log (returned (next, true)) e refl _ h
      started (returned (next, false)) e h =
          Starts-unobserved b bs context log (returned (next, false)) e refl _ h

  abbrev pub logging_observers :
      List (Behaviour Context) → List (Option (ObserverValue (List Mark) Context))
  logging_observers [] = []
  logging_observers (b ∷ bs) = some (custom_observer (logging b)) ∷ logging_observers bs

  logging-usable :
      (bs : List (Behaviour Context)) → map methods (usable (logging_observers bs)) ≡ map logging bs
  unfolding usable
  logging-usable [] = refl
  logging-usable (b ∷ bs) = ap (λ os. logging b ∷ os) (logging-usable bs)

  -- MultiObserver of observers that log their calls and otherwise do anything, panics included:
  -- a start calls them in their order, each with the context that those before it left, and gives the
  -- last context. The end of the observation that it gives calls exactly the observations that were
  -- given, in reverse order, even if one of them panics.
  pub compose_observers-brackets :
      (bs : List (Behaviour Context)) (context : Context) (event : OperationStartEvent)
      (log : List Mark)
      → (o : OperationObservation (List Mark) Context) × ((methods
              (compose_observers (logging_observers bs))).start_operation
            context event log
          ≡ (log ++ opening_marks bs, returned (some (chained bs context), some o)))
        × ((last : Context) (end_event : OperationEndEvent) (later : List Mark)
            → o last end_event later ≡ (later ++ closing_marks bs context, returned tt))
  compose_observers-brackets bs context event log =
      let s = start_all (map logging bs) context event log in
      let h = start_all-Starts bs context event log in
      (
        λ last end_event later. (end_all s.2 last end_event later, returned tt),
        ap (λ (m : Observer (List Mark) Context). m.start_operation context event log)
              (methods-compose_observers (logging_observers bs) ∙ ap multi (logging-usable bs))
            ∙ multi_start-closing s
            ∙ (λ i. (
              h.marks i,
              returned (
                some (h.context_chained i),
                some (λ last end_event later. (end_all s.2 last end_event later, returned tt)),
              ),
            )),
        λ last end_event later. ap (λ marks. (marks, returned tt)) (h.ends last end_event later),
      )
