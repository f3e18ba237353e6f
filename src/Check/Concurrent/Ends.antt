-- ===== src/Check/Concurrent/Ends.antt =====
-- That concurrent calls of CheckAll of opskit.go end: until all is over some goroutine can go on,
-- without any context's help.
use clientkit.Prelude.{
  ℕ, ◌<◌, ◌≤◌, ◌≡◌, ◌⊎◌, refl, sym, ap, Bool, true, false, none, some, List, [], ◌∷◌, ◌++◌, total,
  All, find_passing, ◌==◌, if◌then◌else◌, nat_eq, Bool-cases, inl, inr, arith, panicked,
}
use clientkit.Text.{Text, text_eq}
use clientkit.Check.{CheckMeeting, canceled}
use clientkit.Check.Concurrent.{
  Job, idle, waiting, granted, checking, checked, Worker, System, is_none, take_job, take_slot,
  take_permit, release_permit, publish_result, Step, move, drop_job,
}
use clientkit.Check.Concurrent.Safe.{IsSafe, in_checker, holds}
use clientkit.Check.Concurrent.Progress.{of_call, Staffed}

abbrev is_checked : Worker → Bool
is_checked (call, checked name permitted) = true
is_checked (call, _) = false

abbrev is_checking : Worker → Bool
is_checking (call, checking name) = true
is_checking (call, _) = false

abbrev is_granted : Worker → Bool
is_granted (call, granted name) = true
is_granted (call, _) = false

abbrev is_waiting : Worker → Bool
is_waiting (call, waiting name) = true
is_waiting (call, _) = false

abbrev pub is_idle : Worker → Bool
is_idle (call, idle) = true
is_idle (call, _) = false

-- A call is over when its jobs are handed out and its workers have ended.
pub record IsOver (s : System) : Type 0 where
  pub none_pending : s.shared.pending ≡ []
  pub all_idle : All (λ w. is_idle w ≡ true) s.workers

-- A check that meets no error but the one that its worker met already.
abbrev meeting : Bool → CheckMeeting
meeting permitted = record {
  slot_error = none;
  permit_error = if permitted then none else some canceled;
  check = panicked;
  check_error = none;
  sanitize_error = none;
  accept_error = none;
  now = 0;
  sanitized_at = 0;
}

module _ (cap : ℕ) (s : System) where
  abbrev pub CanGoOn : Type 0
  CanGoOn = (t : System) × Step cap s t

  checked-goes_on :
      (before after : List Worker) (w : Worker)
      → s.workers ≡ before ++ w ∷ after
      → is_checked w ≡ true
      → CanGoOn
  checked-goes_on before after (call, checked name permitted) e h = (
    _,
    move before after call (checked name permitted) e (
        publish_result name permitted (meeting permitted) refl (granted_or permitted)
          λ lasts. record { at_check = refl; at_sanitize = refl; at_accept = refl }),
  )
    where
      granted_or : (b : Bool) → is_none (meeting b).permit_error ≡ b
      granted_or true = refl
      granted_or false = refl
  checked-goes_on before after (call, idle) e h = cc
  checked-goes_on before after (call, waiting name) e h = cc
  checked-goes_on before after (call, granted name) e h = cc
  checked-goes_on before after (call, checking name) e h = cc

  checking-goes_on :
      (before after : List Worker) (w : Worker)
      → s.workers ≡ before ++ w ∷ after
      → is_checking w ≡ true
      → CanGoOn
  checking-goes_on before after (call, checking name) e h =
      (_, move before after call (checking name) e (release_permit name))
  checking-goes_on before after (call, idle) e h = cc
  checking-goes_on before after (call, waiting name) e h = cc
  checking-goes_on before after (call, granted name) e h = cc
  checking-goes_on before after (call, checked name permitted) e h = cc

  granted-goes_on :
      s.shared.permits < cap
      → (before after : List Worker) (w : Worker) → s.workers ≡ before ++ w ∷ after
      → is_granted w ≡ true
      → CanGoOn
  granted-goes_on room before after (call, granted name) e h =
      (_, move before after call (granted name) e (take_permit name room))
  granted-goes_on room before after (call, idle) e h = cc
  granted-goes_on room before after (call, waiting name) e h = cc
  granted-goes_on room before after (call, checking name) e h = cc
  granted-goes_on room before after (call, checked name permitted) e h = cc

  waiting-goes_on :
      ((name : Text) → s.shared.free name ≡ true)
      → (before after : List Worker) (w : Worker) → s.workers ≡ before ++ w ∷ after
      → is_waiting w ≡ true
      → CanGoOn
  waiting-goes_on all_free before after (call, waiting name) e h =
      (_, move before after call (waiting name) e (take_slot name (all_free name)))
  waiting-goes_on all_free before after (call, idle) e h = cc
  waiting-goes_on all_free before after (call, granted name) e h = cc
  waiting-goes_on all_free before after (call, checking name) e h = cc
  waiting-goes_on all_free before after (call, checked name permitted) e h = cc

none_holds :
    (name : Text) (workers : List Worker)
    → All (λ w. is_checked w ≡ false) workers
    → All (λ w. is_checking w ≡ false) workers
    → All (λ w. is_granted w ≡ false) workers
    → total (holds name) workers ≡ 0
none_holds name [] a b c = refl
none_holds name ((call, idle) ∷ workers) a b c = omega (arith, none_holds name workers a.1 b.1 c.1)
none_holds name ((call, waiting other) ∷ workers) a b c =
    omega (arith, none_holds name workers a.1 b.1 c.1)
none_holds name ((call, granted other) ∷ workers) a b c = cc
none_holds name ((call, checking other) ∷ workers) a b c = cc
none_holds name ((call, checked other permitted) ∷ workers) a b c = cc

none_in_checker :
    (workers : List Worker)
    → All (λ w. is_checking w ≡ false) workers
    → total in_checker workers ≡ 0
none_in_checker [] h = refl
none_in_checker ((call, idle) ∷ workers) h = omega (arith, none_in_checker workers h.1)
none_in_checker ((call, waiting name) ∷ workers) h = omega (arith, none_in_checker workers h.1)
none_in_checker ((call, granted name) ∷ workers) h = omega (arith, none_in_checker workers h.1)
none_in_checker ((call, checking name) ∷ workers) h = cc
none_in_checker ((call, checked name permitted) ∷ workers) h =
    omega (arith, none_in_checker workers h.1)

rest_idle :
    (workers : List Worker)
    → All (λ w. is_checked w ≡ false) workers
    → All (λ w. is_checking w ≡ false) workers
    → All (λ w. is_granted w ≡ false) workers
    → All (λ w. is_waiting w ≡ false) workers
    → All (λ w. is_idle w ≡ true) workers
rest_idle [] a b c d = tt
rest_idle ((call, idle) ∷ workers) a b c d = (refl, rest_idle workers a.1 b.1 c.1 d.1)
rest_idle ((call, waiting name) ∷ workers) a b c d = cc
rest_idle ((call, granted name) ∷ workers) a b c d = cc
rest_idle ((call, checking name) ∷ workers) a b c d = cc
rest_idle ((call, checked name permitted) ∷ workers) a b c d = cc

-- An idle worker of a call that has one, where all are idle.
idle_of_call :
    (call : ℕ) (workers : List Worker)
    → All (λ w. is_idle w ≡ true) workers
    → 1 ≤ total (of_call call) workers
    → (before after : List Worker) × (workers ≡ before ++ (call, idle) ∷ after)
idle_of_call call [] h some_worker = absurd (omega arith)
idle_of_call call ((other, idle) ∷ workers) h some_worker = elim (Bool-cases (call == other)) [
  | inl same ↦
      ([], workers, ap (λ c. (c, idle) ∷ workers) (sym ((nat_eq.beq_iff call other).0 same)))
  | inr differ ↦
      let (before, after, e) = idle_of_call call workers h.1 (ground arith) in
      ((other, idle) ∷ before, after, ap (λ ws. (other, idle) ∷ ws) e)
]
idle_of_call call ((other, waiting name) ∷ workers) h some_worker = cc
idle_of_call call ((other, granted name) ∷ workers) h some_worker = cc
idle_of_call call ((other, checking name) ∷ workers) h some_worker = cc
idle_of_call call ((other, checked name permitted) ∷ workers) h some_worker = cc

module _ (cap : ℕ) (s : System) where
  idle-goes_on :
      (jobs : List Job)
      → s.shared.pending ≡ jobs
      → Staffed s.workers jobs
      → All (λ w. is_idle w ≡ true) s.workers
      → IsOver s ⊎ CanGoOn cap s
  idle-goes_on [] e staffed all_idle = inl (record { none_pending = e; all_idle = all_idle })
  idle-goes_on ((call, name) ∷ jobs) e staffed all_idle =
      let (before, after, cut) = idle_of_call call s.workers all_idle staffed.0 in
      elim (Bool-cases (s.ended call)) [
        | inl over ↦ inr (_, drop_job call name [] jobs over e)
        | inr lasts ↦ inr (_, move before after call idle cut (take_job name [] jobs lasts e tt))
      ]

  -- Some goroutine can go on, or all is over.
  pub goes_on :
      {jobs : List Job}
      → 0 < cap
      → IsSafe cap jobs s
      → Staffed s.workers s.shared.pending
      → IsOver s ⊎ CanGoOn cap s
  goes_on room i staffed = elim (find_passing is_checked s.workers) [
    | inr (before, w, after, e, h) ↦ inr (checked-goes_on cap s before after w e h)
    | inl a ↦ elim (find_passing is_checking s.workers) [
      | inr (before, w, after, e, h) ↦ inr (checking-goes_on cap s before after w e h)
      | inl b ↦ elim (find_passing is_granted s.workers) [
        | inr (before, w, after, e, h) ↦
            let free_permit : s.shared.permits < cap =
              omega (arith, i.permits_counted, none_in_checker s.workers b) in
            inr (granted-goes_on cap s free_permit before after w e h)
        | inl c ↦ elim (find_passing is_waiting s.workers) [
          | inr (before, w, after, e, h) ↦ inr (
              waiting-goes_on cap s
                (λ name. ground (arith, i.slot_counted name, none_holds name s.workers a b c))
                before after w e h)
          | inl d ↦ idle-goes_on s.shared.pending refl staffed (rest_idle s.workers a b c d)
        ]
      ]
    ]
  ]
