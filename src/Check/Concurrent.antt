-- ===== src/Check/Concurrent.antt =====
-- CheckAll of opskit.go on one registry, any number of calls at once: the workers of each call, the
-- jobs that the calls have not handed out, the permits of acquireCheckPermit and the clients' slots,
-- as a step relation. A step is what one goroutine does between two waits; the calls of other code
-- in it are those of check_client_health.
pub mod Safe
pub mod Progress
pub mod Ends
pub mod Complete
use clientkit.Prelude.{
  ℕ, zero, suc, ◌+◌, ◌-◌, ◌<◌, ◌≡◌, Bool, true, false, not, Option, none, some, List, [], ◌∷◌, ◌++◌,
  map, length, min, All, pos_part, ◌==◌, nat_eq, if◌then◌else◌,
}
use clientkit.Text.{Text, text_eq}
use clientkit.Health.{Health}
use clientkit.Registry.{Registry, normalized_max_concurrent_checks}
use clientkit.Check.{CheckMeeting, check_client_health}

-- A client to check, for the call of this number.
abbrev pub Job : Type 0
Job = ℕ × Text

-- Where a worker of CheckAll is: at the channel of jobs, at the client's slot, with the slot at the
-- permits, with both in the checker, and with the slot alone once checkHealthSafely has returned. The
-- flag is false if the context ended the wait for the permit.
pub data Stage : Type 0 where
  idle : Stage
  waiting : Text → Stage
  granted : Text → Stage
  checking : Text → Stage
  checked : Text → Bool → Stage

abbrev pub Worker : Type 0
Worker = ℕ × Stage

-- `permits` counts what the channel checkPermits holds. `free` tells of which clients the slot's
-- token is there. A result is none for a job that no worker checked.
pub record Shared : Type 0 where
  pub permits : ℕ
  pub free : Text → Bool
  pub pending : List Job
  pub results : List (Job × Option Health)
  pub registry : Registry

-- `ended` tells of which calls the context has ended.
pub record System : Type 0 where
  pub shared : Shared
  pub ended : ℕ → Bool
  pub workers : List Worker

abbrev pub with_free : Text → Bool → (Text → Bool) → Text → Bool
with_free name token free other = if name == other then token else free other

abbrev pub is_none {ℓ} : {A : Type ℓ} → Option A → Bool
is_none none = true
is_none (some a) = false

-- While the context lasts, the check of a client meets no error of it.
pub record Lasts (m : CheckMeeting) : Type 0 where
  pub at_check : m.check_error ≡ none
  pub at_sanitize : m.sanitize_error ≡ none
  pub at_accept : m.accept_error ≡ none

-- The outcome of a check of this client is applied to the registry, and is the job's result.
unfoldable pub publish : Job → CheckMeeting → Shared → Shared
publish (call, name) m s =
    let (registry, health) = check_client_health s.registry name m in
    record s { registry = registry; results = ((call, name), some health) ∷ s.results }

-- One worker of a call goes on. `cap` is the capacity of the channel of permits, `over` is whether
-- the call's context has ended.
pub data Move (cap : ℕ) (over : Bool) (call : ℕ) (s : Shared)
    : Stage → Shared → Stage → Type 0 where
  take_job :
      (name : Text) (ahead behind : List Job)
      → over ≡ false
      → s.pending ≡ ahead ++ (call, name) ∷ behind
      → All (λ (job : Job). (job.0 == call) ≡ false) ahead
      → Move cap over call s idle (record s { pending = ahead ++ behind }) (waiting name)
  take_slot :
      (name : Text)
      → s.free name ≡ true
      → Move cap over call s
          (waiting name)
          (record s { free = with_free name false s.free })
          (granted name)
  leave_slot :
      (name : Text) (m : CheckMeeting)
      → over ≡ true
      → is_none m.slot_error ≡ false
      → Move cap over call s (waiting name) (publish (call, name) m s) idle
  take_permit :
      (name : Text)
      → s.permits < cap
      → Move cap over call s (granted name) (record s { permits = suc s.permits }) (checking name)
  leave_permit :
      (name : Text) → over ≡ true → Move cap over call s (granted name) s (checked name false)
  release_permit :
      (name : Text)
      → Move cap over call s
          (checking name)
          (record s { permits = s.permits - 1 })
          (checked name true)
  publish_result :
      (name : Text) (permitted : Bool) (m : CheckMeeting)
      → m.slot_error ≡ none
      → is_none m.permit_error ≡ permitted
      → (over ≡ false → Lasts m)
      → Move cap over call s
          (checked name permitted)
          (publish (call, name) m (record s { free = with_free name true s.free }))
          idle

-- A job of a call whose context has ended is dropped: the loop `scheduling` breaks, or a worker that
-- has received the job continues.
pub data Step (cap : ℕ) (s : System) : System → Type 0 where
  move :
      (before after : List Worker) (call : ℕ) (from : Stage) {to : Stage} {shared : Shared}
      → s.workers ≡ before ++ (call, from) ∷ after
      → Move cap (s.ended call) call s.shared from shared to
      → Step cap s (record s { shared = shared; workers = before ++ (call, to) ∷ after })
  drop_job :
      (call : ℕ) (name : Text) (ahead behind : List Job)
      → s.ended call ≡ true
      → s.shared.pending ≡ ahead ++ (call, name) ∷ behind
      → Step cap s (record s {
        shared = record s.shared {
          pending = ahead ++ behind;
          results = ((call, name), none) ∷ s.shared.results;
        };
      })

abbrev pub end_context : ℕ → System → System
end_context call s = record s { ended = λ other. if call == other then true else s.ended other }

-- Any interleaving, in which contexts end at any time, with the number of its steps.
pub data Run (cap : ℕ) (first : System) : ℕ → System → Type 0 where
  begin : Run cap first 0 first
  go_on : {n : ℕ} {s t : System} → Run cap first n s → Step cap s t → Run cap first (suc n) t
  end_call :
      {n : ℕ} {s : System} (call : ℕ) → Run cap first n s → Run cap first n (end_context call s)

-- The capacity of the channel that acquireCheckPermit makes.
unfoldable pub check_capacity : Registry → ℕ
check_capacity r = pos_part (normalized_max_concurrent_checks (some r))

unfoldable pub replicate {ℓ} : {A : Type ℓ} → ℕ → A → List A
replicate zero a = []
replicate (suc n) a = a ∷ replicate n a

-- Calls of these checkers, numbered from `call` on, before any worker has received a job.
unfoldable pub jobs_of : ℕ → List (List Text) → List Job
jobs_of call [] = []
jobs_of call (names ∷ calls) = map (λ name. (call, name)) names ++ jobs_of (suc call) calls

unfoldable pub workers_of : ℕ → ℕ → List (List Text) → List Worker
workers_of cap call [] = []
workers_of cap call (names ∷ calls) =
    replicate (min cap (length names)) (call, idle) ++ workers_of cap (suc call) calls

unfoldable pub begin_checks : Registry → List (List Text) → System
begin_checks r calls = record {
  shared = record {
    permits = 0;
    free = λ name. true;
    pending = jobs_of 0 calls;
    results = [];
    registry = r;
  };
  ended = λ call. false;
  workers = workers_of (check_capacity r) 0 calls;
}
