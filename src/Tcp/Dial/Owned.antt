-- ===== src/Tcp/Dial/Owned.antt =====
-- Who owns the connection of tcpclient/dial.go, and how its outcome and its failure class agree.
use mathlib.Core.List.{append-nil}
use mathlib.Core.Option.{none-ne-some}
use clientkit.Prelude.{
  ◌≡◌, ◌≢◌, refl, sym, ap, ◌∙◌, Bool, true, false, Option, none, some, List, [], ◌∷◌, ◌++◌, arith,
  true-ne-false,
}
use clientkit.Failure
use clientkit.Failure.{FailureClass, is_failure_none, failure_transport}
use clientkit.Fault.{Error, network}
use clientkit.Tcp.Dial.{
  DialOutcome, outcome_success, outcome_timeout, outcome_canceled, outcome_dial_error,
  outcome_tls_error, Connection, ConnectionMetadata, DialMeeting, ConnectEffect, opened, closed,
  dial_connection, Established, established_from, establish_connection, classify_dial_failure,
  failed_outcome, classify_dial_outcome, dial_observed,
}

abbrev pub opened_by : List ConnectEffect → List Connection
opened_by [] = []
opened_by (opened c ∷ effects) = c ∷ opened_by effects
opened_by (closed c ∷ effects) = opened_by effects

abbrev pub closed_by : List ConnectEffect → List Connection
closed_by [] = []
closed_by (opened c ∷ effects) = closed_by effects
closed_by (closed c ∷ effects) = c ∷ closed_by effects

abbrev pub to_list : Option Connection → List Connection
to_list none = []
to_list (some c) = c ∷ []

-- The failure classes that an outcome may come with.
abbrev pub dial_agree : DialOutcome → FailureClass → Bool
dial_agree outcome_success Failure.failure_none = true
dial_agree outcome_timeout Failure.failure_timeout = true
dial_agree outcome_canceled Failure.failure_canceled = true
dial_agree outcome_tls_error Failure.failure_tls = true
dial_agree outcome_dial_error Failure.failure_name_resolution = true
dial_agree outcome_dial_error Failure.failure_connection_refused = true
dial_agree outcome_dial_error Failure.failure_connection_reset = true
dial_agree outcome_dial_error Failure.failure_connection_closed = true
dial_agree outcome_dial_error Failure.failure_transport = true
dial_agree _ _ = false

network-agree :
    (error : Error) (metadata : ConnectionMetadata)
    → let class = network error metadata.tls_handshake_failed in
      dial_agree (failed_outcome error metadata class) class ≡ true
unfolding network
network-agree error metadata = ground arith

-- A connection or an error, and not both.
abbrev pub ExactlyOne : Option Connection → Option Error → Type 0
ExactlyOne (some c) none = Unit
ExactlyOne none (some e) = Unit
ExactlyOne _ _ = ⊥

-- What the dialer gave is balanced.
abbrev IsBalanced : Option Connection → List ConnectEffect → Type 0
IsBalanced connection effects = opened_by effects ≡ closed_by effects ++ to_list connection

record IsOwned (e : Established) : Type 0 where
  one : ExactlyOne e.connection e.error
  balanced : IsBalanced e.connection e.effects

dial_connection-IsBalanced :
    (m : DialMeeting) → IsBalanced (dial_connection m).0 (dial_connection m).2
unfolding dial_connection
dial_connection-IsBalanced m = met m.custom m.before m.after m.dialed
  where
    met :
        (custom : Bool) (before after : Option Error) (dialed : Option Connection)
        → let t = record m { custom = custom; before = before; after = after; dialed = dialed } in
          IsBalanced (dial_connection t).0 (dial_connection t).2
    met false before after none = refl
    met false before after (some c) = refl
    met true (some ended) after dialed = refl
    met true none none none = refl
    met true none none (some c) = refl
    met true none (some ended) none = refl
    met true none (some ended) (some c) = refl

pub opened_by-closed :
    (effects : List ConnectEffect) (c : Connection)
    → opened_by (effects ++ closed c ∷ []) ≡ opened_by effects
opened_by-closed [] c = refl
opened_by-closed (opened d ∷ effects) c = ap (λ cs. d ∷ cs) (opened_by-closed effects c)
opened_by-closed (closed d ∷ effects) c = opened_by-closed effects c

pub closed_by-closed :
    (effects : List ConnectEffect) (c : Connection)
    → closed_by (effects ++ closed c ∷ []) ≡ closed_by effects ++ c ∷ []
closed_by-closed [] c = refl
closed_by-closed (opened d ∷ effects) c = closed_by-closed effects c
closed_by-closed (closed d ∷ effects) c = ap (λ cs. d ∷ cs) (closed_by-closed effects c)

-- To close the connection that one has.
close-IsBalanced :
    (effects : List ConnectEffect) (c : Connection)
    → IsBalanced (some c) effects
    → IsBalanced none (effects ++ closed c ∷ [])
close-IsBalanced effects c h =
    opened_by-closed effects c
    ∙ h
    ∙ sym (closed_by-closed effects c)
    ∙ sym (append-nil (closed_by (effects ++ closed c ∷ [])))

established_from-IsOwned :
    (tls : Bool) (m : DialMeeting) (connection : Option Connection) (error : Option Error)
    (effects : List ConnectEffect)
    → IsBalanced connection effects
    → IsOwned (established_from tls m (connection, error, effects))
established_from-IsOwned tls m (some c) (some e) effects h = record {
  one = tt;
  balanced = close-IsBalanced effects c h;
}
established_from-IsOwned tls m none (some e) effects h = record { one = tt; balanced = h }
established_from-IsOwned tls m none none effects h = record { one = tt; balanced = h }
established_from-IsOwned false m (some c) none effects h = record { one = tt; balanced = h }
established_from-IsOwned true m (some c) none effects h = shaken m.handshake_error
  where
    shaken :
        (handshake_error : Option Error)
        → IsOwned (
            established_from true
              (record m { handshake_error = handshake_error })
              (some c, none, effects))
    shaken none = record { one = tt; balanced = h }
    shaken (some e) = record { one = tt; balanced = close-IsBalanced effects c h }

-- The outcome and the class agree where there is a connection or an error, and not both.
classify-dial_agree :
    (connection : Option Connection) (error : Option Error) (metadata : ConnectionMetadata)
    → ExactlyOne connection error
    → let class = classify_dial_failure connection error metadata in
      dial_agree (classify_dial_outcome connection error metadata class) class ≡ true
unfolding classify_dial_failure classify_dial_outcome
classify-dial_agree (some c) none metadata h = refl
classify-dial_agree none (some e) metadata h = network-agree e metadata
classify-dial_agree (some c) (some e) metadata h = absurd h
classify-dial_agree none none metadata h = absurd h

-- Dialing, whatever it meets, ends with a connection or with an error and not with both. Each
-- connection that was opened was closed, in that order, but the one that is returned. The outcome
-- agrees with the failure class.
pub dial_observed_lem :
    (tls : Bool) (m : DialMeeting)
    → let r = dial_observed tls m in
      ExactlyOne r.connection r.error
      × (opened_by r.effects ≡ closed_by r.effects ++ to_list r.connection)
      × (dial_agree r.outcome r.failure_class ≡ true)
unfolding dial_observed establish_connection
dial_observed_lem tls m =
    let (connection, error, effects) = dial_connection m in
    let owned =
      established_from-IsOwned tls m connection error effects (dial_connection-IsBalanced m) in
    let e = establish_connection tls m in
    (owned.one, owned.balanced, classify-dial_agree e.connection e.error e.metadata owned.one)

abbrev pub is_success : DialOutcome → Bool
is_success outcome_success = true
is_success _ = false

failed_outcome-fails :
    (error : Error) (metadata : ConnectionMetadata) (class : FailureClass)
    → is_success (failed_outcome error metadata class) ≡ false
failed_outcome-fails error metadata class = ground arith

-- A dial that succeeds has a connection.
pub dial_observed-success :
    (tls : Bool) (m : DialMeeting)
    → is_success (dial_observed tls m).outcome ≡ true
    → (dial_observed tls m).connection ≢ none
unfolding dial_observed classify_dial_outcome classify_dial_failure
dial_observed-success tls m h none_is =
    let e = establish_connection tls m in lacking e.connection e.error e.metadata none_is h
  where
    lacking :
        (connection : Option Connection) (error : Option Error) (metadata : ConnectionMetadata)
        → connection ≡ none
        → is_success (
            classify_dial_outcome connection error metadata
              (classify_dial_failure connection error metadata))
          ≡ true
        → ⊥
    lacking (some c) error metadata none_is k = none-ne-some c (sym none_is)
    lacking none none metadata none_is k =
        true-ne-false k (failed_outcome-fails [] metadata failure_transport)
    lacking none (some e) metadata none_is k =
        let class = network e metadata.tls_handshake_failed in
        true-ne-false k (failed_outcome-fails e metadata class)
