-- ===== src/Opskit.antt =====
-- The names of package opskit, which is not part of this repository: its types and functions are a
-- parameter. The structs are those whose fields the code writes or reads.
use clientkit.Prelude.{ℕ, Bool, Option, List, ℤ}
use clientkit.Text.{Text}

pub record Attribute : Type 0 where
  pub key : Text
  pub value : Text

pub record Opskit : Type 1 where
  -- opskit.State and opskit.ReadinessImpact with their constants.
  pub State : Type 0
  pub state_ready : State
  pub state_degraded : State
  pub state_not_ready : State
  pub state_unknown : State
  pub state_failed : State
  pub ReadinessImpact : Type 0
  pub impact_blocking : ReadinessImpact
  pub impact_non_blocking : ReadinessImpact
  -- opskit.Status and its constructor functions.
  pub Status : Type 0
  pub not_ready_status : Text → Status
  pub unknown_status : Text → Status
  pub degraded_status : Text → Status
  pub ready_status : Text → Status
  -- opskit.NewDuration.
  pub Duration : Type 0
  pub new_duration : ℤ → Duration

module _ (o : Opskit) where
  pub record CheckResult : Type 0 where
    pub state : o.State
    pub ready : Bool
    pub message : Text
    pub checked_at : Option ℕ
    pub duration : o.Duration
    pub attributes : List Attribute

  pub record NamedCheck : Type 0 where
    pub name : Text
    pub kind : Text
    pub result : CheckResult

  pub record ReadinessItem : Type 0 where
    pub name : Text
    pub kind : Text
    pub impact : o.ReadinessImpact
    pub ready : Bool
    pub state : o.State
    pub reason : Text
    pub message : Text

  pub record Readiness : Type 0 where
    pub ready : Bool
    pub reason : Text
    pub items : List ReadinessItem

  pub record CheckSummary : Type 0 where
    pub state : o.State
    pub ready : Bool
    pub message : Text
    pub checked_at : Option ℕ
    pub duration : o.Duration
    pub checks : List NamedCheck
