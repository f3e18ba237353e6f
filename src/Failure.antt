-- ===== src/Failure.antt =====
-- failure.go and validFailureClass of health.go: the closed vocabulary of failure classes.
use clientkit.Prelude.{Bool, true, false}
use clientkit.Text.{Text}

-- A Go string type may hold any text: `failure_other` is one outside the vocabulary.
pub data FailureClass : Type 0 where
  failure_none : FailureClass
  failure_configuration : FailureClass
  failure_policy : FailureClass
  failure_request : FailureClass
  failure_canceled : FailureClass
  failure_timeout : FailureClass
  failure_name_resolution : FailureClass
  failure_connection_refused : FailureClass
  failure_connection_reset : FailureClass
  failure_connection_closed : FailureClass
  failure_tls : FailureClass
  failure_remote_response : FailureClass
  failure_transport : FailureClass
  failure_other : Text → FailureClass

unfoldable pub valid_failure_class : FailureClass → Bool
valid_failure_class (failure_other class) = false
valid_failure_class _ = true

-- class == FailureNone and class == FailurePolicy.
abbrev pub is_failure_none : FailureClass → Bool
is_failure_none failure_none = true
is_failure_none _ = false

abbrev pub is_failure_policy : FailureClass → Bool
is_failure_policy failure_policy = true
is_failure_policy _ = false
