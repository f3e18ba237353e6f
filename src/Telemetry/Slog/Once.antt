-- ===== src/Telemetry/Slog/Once.antt =====
-- How often an operation of slogobserver/observer.go is logged, and at what level.
use mathlib.Core.Option.{some-injective}
use clientkit.Prelude.{
  ℕ, ◌≡◌, ◌↔◌, Bool-cases, inl, inr, refl, ap, sym, ◌∙◌, arith, ◌&&◌, ◌==◌, nat_eq, Bool, true,
  false, Option, none, some, List, [], ◌∷◌, ◌++◌, ℤ, if◌then◌else◌,
}
use clientkit.Text.{Text, codes}
use clientkit.Fault.{Error}
use clientkit.Failure.{FailureClass, failure_none, is_failure_none}
use clientkit.Observer.{OperationStartEvent, OperationEndEvent}
use clientkit.Telemetry.Attributes.{event_attributes}
use clientkit.Telemetry.Slog.{
  LevelConfig, LogRecord, SlogObserver, SlogObservation, logs_at, log_event, start_slog_operation,
  end_slog_operation, operation_level, operation_attributes,
}
use clientkit.Telemetry.LogAttributes.{LogAttr, is_nil_error, operation_succeeded}

if-true : {A : Type 0} (b : Bool) (x y : A) → b ≡ true → (if b then x else y) ≡ x
if-true true x y h = refl
if-true false x y h = cc

if-false : {A : Type 0} (b : Bool) (x y : A) → b ≡ false → (if b then x else y) ≡ y
if-false true x y h = cc
if-false false x y h = refl

-- An event that claims success and carries no failure.
abbrev pub IsSuccess : OperationEndEvent → Type 0
IsSuccess event =
    (event.succeeded ≡ true) × (event.failure_class ≡ failure_none) × (event.error ≡ none)

operation_succeeded_iff :
    (event : OperationEndEvent) → (operation_succeeded event ≡ true) ↔ IsSuccess event
unfolding operation_succeeded
operation_succeeded_iff event =
    agrees event.succeeded event.failure_class event.error (nothing_failed event.failure_class)
  where
    nothing_failed :
        (class : FailureClass) → (is_failure_none class ≡ true) ↔ (class ≡ failure_none)
    nothing_failed failure_none = ((λ h. refl), λ h. refl)
    nothing_failed _ = ((λ h. cc), λ h. cc)

    agrees :
        (claim : Bool) (class : FailureClass) (error : Option Error)
        → (is_failure_none class ≡ true) ↔ (class ≡ failure_none)
        → (claim && is_failure_none class && is_nil_error error ≡ true)
          ↔ ((claim ≡ true) × (class ≡ failure_none) × (error ≡ none))
    agrees claim class none h = ground (arith, h)
    agrees claim class (some error) h = ground (arith, h)

-- The level is the one of success for an event that is one, and else the one of failure.
abbrev pub IsLevelOf : LevelConfig → OperationEndEvent → ℤ → Type 0
IsLevelOf levels event level =
    (IsSuccess event → level ≡ levels.operation_success)
    × (¬ IsSuccess event → level ≡ levels.operation_failure)

operation_level-IsLevelOf :
    (levels : LevelConfig) (event : OperationEndEvent)
    → IsLevelOf levels event (operation_level levels event)
operation_level-IsLevelOf levels event = (
  λ h. if-true (operation_succeeded event) _ _ ((operation_succeeded_iff event).1 h),
  λ h. elim (Bool-cases (operation_succeeded event)) [
    | inl succeeded ↦ absurd (h ((operation_succeeded_iff event).0 succeeded))
    | inr failed ↦ if-false (operation_succeeded event) _ _ failed
  ],
)

module _ {Attr : Type 0} where
  -- The observation's End, called with one event after another.
  abbrev pub end_each :
      SlogObservation Attr
      → List (ℕ × OperationEndEvent)
      → List (LogRecord Attr)
      → SlogObservation Attr × List (LogRecord Attr)
  end_each o [] log = (o, log)
  end_each o ((now, event) ∷ events) log =
      let (o', log') = end_slog_operation o now event log in end_each o' events log'

  end_slog_operation-done :
      (o : SlogObservation Attr) (now : ℕ) (event : OperationEndEvent) (log : List (LogRecord Attr))
      → o.once_done ≡ true
      → end_slog_operation o now event log ≡ (o, log)
  unfolding end_slog_operation
  end_slog_operation-done o now event log h = if-true o.once_done _ _ h

  end_each-done :
      (o : SlogObservation Attr) (events : List (ℕ × OperationEndEvent))
      (log : List (LogRecord Attr))
      → o.once_done ≡ true
      → (end_each o events log).1 ≡ log
  end_each-done o [] log h = refl
  end_each-done o ((now, event) ∷ events) log h =
      ap (λ (p : SlogObservation Attr × List (LogRecord Attr)). (end_each p.0 events p.1).1)
        (end_slog_operation-done o now event log h)
      ∙ end_each-done o events log h

  end_each-first :
      (o : SlogObservation Attr) (now : ℕ) (event : OperationEndEvent)
      (events : List (ℕ × OperationEndEvent)) (log : List (LogRecord Attr))
      → o.once_done ≡ false
      → (end_each o ((now, event) ∷ events) log).1
        ≡ log_event o.observer now event.ended_at
            (operation_level o.observer.levels event)
            (codes "clientkit operation completed")
            (operation_attributes o event)
            log
  unfolding end_slog_operation
  end_each-first o now event events log h =
      ap (λ (p : SlogObservation Attr × List (LogRecord Attr)). (end_each p.0 events p.1).1)
        (if-false o.once_done _ _ h)
      ∙ end_each-done (record o { once_done = true }) events _ refl

  start_slog_operation-fresh :
      (observer : SlogObserver Attr) (start : OperationStartEvent) (o : SlogObservation Attr)
      → start_slog_operation (some observer) start ≡ some o
      → (o.once_done ≡ false) × (o.observer ≡ observer)
  unfolding start_slog_operation
  start_slog_operation-fresh observer start o h = fresh observer.logger h
    where
      fresh :
          (logger : Option (Option (ℤ → Bool)))
          → (elim logger [
            | none ↦ none
            | some handler ↦ some (record {
              once_done = false;
              observer = observer;
              client = start.client;
              protocol = start.protocol;
              operation = start.operation;
              attributes = event_attributes start.attributes;
            })
          ])
            ≡ some o
          → (o.once_done ≡ false) × (o.observer ≡ observer)
      fresh none h = cc
      fresh (some handler) h =
          let e = some-injective _ o h in
          (
            sym (ap (λ (p : SlogObservation Attr). p.once_done) e),
            sym (ap (λ (p : SlogObservation Attr). p.observer) e),
          )

  -- What log_event does, by whether the handler is enabled.
  log_event-once :
      (observer : SlogObserver Attr) (now at : ℕ) (level : ℤ) (message : Text)
      (attributes : List LogAttr) (log : List (LogRecord Attr))
      → (logs_at observer.logger level ≡ false
          → log_event observer now at level message attributes log ≡ log)
        × (logs_at observer.logger level ≡ true
            → (r : LogRecord Attr) × (log_event observer now at level message attributes log
                ≡ log ++ r ∷ [])
              × (r.level ≡ level)
              × (r.common ≡ observer.attributes))
  unfolding log_event
  log_event-once observer now at level message attributes log = (
    (λ off. rw off refl),
    λ on. (
      record {
        at = if at == 0 then now else at;
        level = level;
        message = message;
        common = observer.attributes;
        clientkit_group = attributes;
      },
      rw on refl,
      refl,
      refl,
    ),
  )

  -- An observation that StartOperation gave, and that is then ended any number of times, logs one
  -- record if the logger's handler is enabled for the level of the first event, and none otherwise.
  -- That level is the observer's level of success if the first event claims success with no failure
  -- class and no error, and its level of failure if not. The record has that level and the
  -- observer's own attributes.
  pub end_each-once :
      (observer : SlogObserver Attr) (start : OperationStartEvent) (o : SlogObservation Attr)
      (now : ℕ) (event : OperationEndEvent) (events : List (ℕ × OperationEndEvent))
      (log : List (LogRecord Attr))
      → start_slog_operation (some observer) start ≡ some o
      → (level : ℤ) × IsLevelOf observer.levels event level
        × (logs_at observer.logger level ≡ false → (end_each o ((now, event) ∷ events) log).1 ≡ log)
        × (logs_at observer.logger level ≡ true
            → (r : LogRecord Attr) × ((end_each o ((now, event) ∷ events) log).1 ≡ log ++ r ∷ [])
              × (r.level ≡ level)
              × (r.common ≡ observer.attributes))
  end_each-once observer start o now event events log h =
      let (fresh, same) = start_slog_operation-fresh observer start o h in
      let first = end_each-first o now event events log fresh in
      let once =
        log_event-once observer now event.ended_at (operation_level observer.levels event)
          (codes "clientkit operation completed") (operation_attributes o event) log in
      let logged =
        first
        ∙ ap
            (λ (observed : SlogObserver Attr).
              log_event observed now event.ended_at (operation_level observed.levels event)
                (codes "clientkit operation completed") (operation_attributes o event) log)
            same in
      (
        operation_level observer.levels event,
        operation_level-IsLevelOf observer.levels event,
        (λ off. logged ∙ once.0 off),
        (λ on. let (r, e, level, common) = once.1 on in (r, logged ∙ e, level, common)),
      )
