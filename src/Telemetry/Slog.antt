-- ===== src/Telemetry/Slog.antt =====
-- slogobserver/observer.go and levels.go: the records that the observer hands to a
-- log/slog handler. slog.Attr, in which the application gives its own attributes, is a parameter; a
-- handler is what it says of Enabled, and the list of the records that its Handle got.
pub mod Once
use clientkit.Prelude.{
  ℕ, Bool, true, false, not, ◌&&◌, Option, none, some, List, [], ◌∷◌, ◌++◌, ◌==◌, nat_eq, ℤ, pos,
  negsuc, ltb_ℤ, if◌then◌else◌,
}
use clientkit.Text.{Text, text_eq, codes}
use clientkit.Failure.{FailureClass, failure_none, is_failure_none}
use clientkit.Health.{is_healthy_state}
use clientkit.Fault.{Error}
use clientkit.Opskit.{Attribute}
use clientkit.Projection.{class_text, state_text}
use clientkit.Observer.{
  OperationStartEvent, OperationEndEvent, AttemptEvent, RetryEvent, HealthEvent,
}
use clientkit.Telemetry.Attributes.{event_attributes}
use clientkit.Telemetry.LogAttributes.{
  LogValue, LogAttr, add_string, add_duration, add_failure_class, add_event_attribute_group,
  add_positive, add_error, is_nil_error, operation_succeeded, attempt_succeeded, event_name,
  attempt_attributes, retry_attributes, health_attributes, text_or, attributes_or, log_string,
  log_bool, log_int, log_duration, log_error, log_field, log_group,
}

-- slog.Level is an int.
pub record LevelConfig : Type 0 where
  pub operation_success : ℤ
  pub operation_failure : ℤ
  pub attempt : ℤ
  pub retry : ℤ
  pub health_healthy : ℤ
  pub health_unhealthy : ℤ

-- slog.LevelDebug is -4, LevelWarn is 4, LevelError is 8.
unfoldable pub default_level_config : LevelConfig
default_level_config = record {
  operation_success = negsuc 3;
  operation_failure = pos 8;
  attempt = negsuc 3;
  retry = pos 4;
  health_healthy = negsuc 3;
  health_unhealthy = pos 4;
}

module _ (Attr : Type 0) where
  pub record LogRecord : Type 0 where
    pub at : ℕ
    pub level : ℤ
    pub message : Text
    pub common : List Attr
    pub clientkit_group : List LogAttr

  -- A logger may be nil, and so may its handler; a handler is its method Enabled.
  pub record SlogObserver : Type 0 where
    pub logger : Option (Option (ℤ → Bool))
    pub levels : LevelConfig
    pub attributes : List Attr
    pub error_details : Bool

  pub record SlogConfig : Type 0 where
    pub levels : LevelConfig
    pub attributes : List Attr
    pub error_details : Bool

  -- WithLevels, WithAttributes and WithErrorDetails.
  pub data SlogOption : Type 0 where
    nil_option : SlogOption
    with_levels : LevelConfig → SlogOption
    with_attributes : List Attr → SlogOption
    with_error_details : SlogOption

  pub record SlogObservation : Type 0 where
    pub once_done : Bool
    pub observer : SlogObserver
    pub client : Text
    pub protocol : Text
    pub operation : Text
    pub attributes : List (Text × Text)

-- Whether the logger and its handler are there, and the handler is enabled for a level.
abbrev pub logs_at : Option (Option (ℤ → Bool)) → ℤ → Bool
logs_at none level = false
logs_at (some none) level = false
logs_at (some (some enabled)) level = enabled level

abbrev logger_or : Option (Option (ℤ → Bool)) → Option (ℤ → Bool) → Option (Option (ℤ → Bool))
logger_or none default = some default
logger_or logger default = logger

-- The level of an operation's record.
abbrev pub operation_level : LevelConfig → OperationEndEvent → ℤ
operation_level levels event =
    if operation_succeeded event then levels.operation_success else levels.operation_failure

module _ {Attr : Type 0} where
  -- Observer.log, where the handler is there and is asked.
  abbrev log_enabled :
      Bool
      → SlogObserver Attr
      → ℕ
      → ℕ
      → ℤ
      → Text
      → List LogAttr
      → List (LogRecord Attr)
      → List (LogRecord Attr)
  log_enabled false o now at level message attributes log = log
  log_enabled true o now at level message attributes log =
      log
      ++ record {
        at = if at == 0 then now else at;
        level = level;
        message = message;
        common = o.attributes;
        clientkit_group = attributes;
      }
        ∷ []

  unfoldable pub log_event :
      SlogObserver Attr
      → ℕ
      → ℕ
      → ℤ
      → Text
      → List LogAttr
      → List (LogRecord Attr)
      → List (LogRecord Attr)
  log_event o now at level message attributes log =
      log_enabled (logs_at o.logger level) o now at level message attributes log

  -- New, where a nil logger is slog.Default().
  abbrev apply_option : SlogOption Attr → SlogConfig Attr → SlogConfig Attr
  apply_option nil_option cfg = cfg
  apply_option (with_levels levels) cfg = record cfg { levels = levels }
  apply_option (with_attributes attributes) cfg = record cfg {
    attributes = cfg.attributes ++ attributes;
  }
  apply_option with_error_details cfg = record cfg { error_details = true }

  unfoldable pub apply_options : List (SlogOption Attr) → SlogConfig Attr → SlogConfig Attr
  apply_options [] cfg = cfg
  apply_options (o ∷ options) cfg = apply_options options (apply_option o cfg)

  unfoldable pub new_slog_observer :
      Option (ℤ → Bool) → Option (Option (ℤ → Bool)) → List (SlogOption Attr) → SlogObserver Attr
  new_slog_observer default logger options =
      let cfg =
        apply_options options
          (record { levels = default_level_config; attributes = []; error_details = false }) in
      record {
        logger = logger_or logger default;
        levels = cfg.levels;
        attributes = cfg.attributes;
        error_details = cfg.error_details;
      }

  -- StartOperation: none is the observation that does nothing.
  unfoldable pub start_slog_operation :
      Option (SlogObserver Attr) → OperationStartEvent → Option (SlogObservation Attr)
  start_slog_operation none event = none
  start_slog_operation (some o) event = elim o.logger [
    | none ↦ none
    | some handler ↦ some (record {
      once_done = false;
      observer = o;
      client = event.client;
      protocol = event.protocol;
      operation = event.operation;
      attributes = event_attributes event.attributes;
    })
  ]

  unfoldable pub observe_slog_attempt :
      Option (SlogObserver Attr) → ℕ → AttemptEvent → List (LogRecord Attr) → List (LogRecord Attr)
  observe_slog_attempt none now event log = log
  observe_slog_attempt (some o) now event log =
      log_event o now event.ended_at o.levels.attempt (codes "clientkit attempt completed")
        (attempt_attributes o.error_details event) log

  unfoldable pub observe_slog_retry :
      Option (SlogObserver Attr) → ℕ → RetryEvent → List (LogRecord Attr) → List (LogRecord Attr)
  observe_slog_retry none now event log = log
  observe_slog_retry (some o) now event log =
      log_event o now event.at o.levels.retry (codes "clientkit retry scheduled")
        (retry_attributes event) log

  unfoldable pub observe_slog_health :
      Option (SlogObserver Attr) → ℕ → HealthEvent → List (LogRecord Attr) → List (LogRecord Attr)
  observe_slog_health none now event log = log
  observe_slog_health (some o) now event log =
      log_event o now event.checked_at
        (if is_healthy_state event.state
          then o.levels.health_healthy
          else o.levels.health_unhealthy)
        (codes "clientkit health check completed") (health_attributes event) log

  unfoldable pub operation_attributes : SlogObservation Attr → OperationEndEvent → List LogAttr
  operation_attributes o event =
      event_name (codes "operation_completed")
      ∷ (add_string (codes "client") (text_or event.client o.client) (
          add_string (codes "protocol") (text_or event.protocol o.protocol) (
            add_string (codes "operation") (text_or event.operation o.operation) (
              add_string (codes "outcome") event.outcome (
                log_field (codes "succeeded") (log_bool (operation_succeeded event))
                ∷ add_failure_class event.failure_class (
                    add_duration (codes "duration") event.duration (
                      add_positive (codes "attempts") event.attempts (
                        add_error o.observer.error_details event.error (
                          add_event_attribute_group (
                            attributes_or (event_attributes event.attributes) o.attributes))))))))))

  -- operationObservation.End, where `once_done` is the state of its sync.Once.
  unfoldable pub end_slog_operation :
      SlogObservation Attr
      → ℕ
      → OperationEndEvent
      → List (LogRecord Attr)
      → SlogObservation Attr × List (LogRecord Attr)
  end_slog_operation o now event log = if o.once_done then (o, log) else (
    record o { once_done = true },
    log_event o.observer now event.ended_at (operation_level o.observer.levels event)
        (codes "clientkit operation completed") (operation_attributes o event) log,
  )
