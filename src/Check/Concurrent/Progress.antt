-- ===== src/Check/Concurrent/Progress.antt =====
-- What each step of concurrent calls of CheckAll of opskit.go brings nearer to its end, and the
-- workers that a call keeps until then.
use clientkit.Prelude.{
  ℕ, suc, ◌+◌, ◌*◌, ◌≤◌, ap, subst, Bool, List, [], ◌∷◌, ◌++◌, length, length-append, total,
  total-middle, All, All-imp, ◌==◌, if◌then◌else◌, nat_eq, arith,
}
use clientkit.Text.{text_eq}
use clientkit.Check.Concurrent.{
  Job, Stage, idle, waiting, granted, checking, checked, Worker, Shared, System, publish, Move,
  take_job, take_slot, leave_slot, take_permit, leave_permit, release_permit, publish_result, Step,
  move, drop_job, Run, begin, go_on, end_call,
}

-- How many steps a worker is from being idle, at most.
abbrev pub rank : Worker → ℕ
rank (call, idle) = 0
rank (call, checked name permitted) = 1
rank (call, checking name) = 2
rank (call, granted name) = 3
rank (call, waiting name) = 4

abbrev pub remaining : System → ℕ
remaining s = total rank s.workers + 5 * length s.shared.pending

module _ {cap : ℕ} where
  Move-remaining :
      {over : Bool} {call : ℕ} {s t : Shared} {from to : Stage}
      → Move cap over call s from t to
      → suc (rank (call, to) + 5 * length t.pending) ≤ rank (call, from) + 5 * length s.pending
  unfolding publish
  Move-remaining {call} (take_job name ahead behind lasts e none_ahead) =
      omega (
        arith,
        ap length e,
        length-append ahead ((call, name) ∷ behind),
        length-append ahead behind,
      )
  Move-remaining (take_slot name free) = omega arith
  Move-remaining (leave_slot name m over error) = ground arith
  Move-remaining (take_permit name room) = omega arith
  Move-remaining (leave_permit name over) = omega arith
  Move-remaining (release_permit name) = omega arith
  Move-remaining (publish_result name permitted m slot permit lasts) = ground arith

  Step-remaining : {s t : System} → Step cap s t → suc (remaining t) ≤ remaining s
  Step-remaining (move before after call from {to} e m) = omega (
    arith,
    Move-remaining m,
    ap (total rank) e,
    total-middle rank before (call, from) after,
    total-middle rank before (call, to) after,
  )
  Step-remaining (drop_job call name ahead behind over e) =
      omega (
        arith,
        ap length e,
        length-append ahead ((call, name) ∷ behind),
        length-append ahead behind,
      )

  pub Run-remaining :
      {first s : System} {n : ℕ} → Run cap first n s → n + remaining s ≤ remaining first
  Run-remaining begin = omega arith
  Run-remaining (go_on run step) = omega (arith, Run-remaining run, Step-remaining step)
  Run-remaining (end_call call run) = Run-remaining run

abbrev pub of_call : ℕ → Worker → ℕ
of_call call (other, stage) = if call == other then 1 else 0

-- Every job that is pending has a worker of its call.
abbrev pub Staffed : List Worker → List Job → Type 0
Staffed workers = All (λ (job : Job). 1 ≤ total (of_call job.0) workers)

All-without {ℓ κ} :
    {A : Type ℓ} (P : A → Type κ) (ahead : List A) (x : A) (behind : List A)
    → All P (ahead ++ x ∷ behind)
    → All P (ahead ++ behind)
All-without P [] x behind h = h.1
All-without P (y ∷ ahead) x behind h = (h.0, All-without P ahead x behind h.1)

module _ {cap : ℕ} where
  Move-pending {ℓ} :
      (P : Job → Type ℓ) {over : Bool} {call : ℕ} {s t : Shared} {from to : Stage}
      → Move cap over call s from t to
      → All P s.pending
      → All P t.pending
  unfolding publish
  Move-pending P {call} (take_job name ahead behind lasts e none_ahead) h =
      All-without P ahead (call, name) behind (subst (All P) e h)
  Move-pending P (take_slot name free) h = h
  Move-pending P (leave_slot name m over error) h = h
  Move-pending P (take_permit name room) h = h
  Move-pending P (leave_permit name over) h = h
  Move-pending P (release_permit name) h = h
  Move-pending P (publish_result name permitted m slot permit lasts) h = h

  Step-Staffed :
      {s t : System}
      → Step cap s t
      → Staffed s.workers s.shared.pending
      → Staffed t.workers t.shared.pending
  Step-Staffed {s} {t} (move before after call from {to} e m) h =
      All-imp t.shared.pending
        (λ job staffed. omega (
          arith,
          staffed,
          ap (total (of_call job.0)) e,
          total-middle (of_call job.0) before (call, from) after,
          total-middle (of_call job.0) before (call, to) after,
        ))
        (Move-pending (λ (job : Job). 1 ≤ total (of_call job.0) s.workers) m h)
  Step-Staffed {s} (drop_job call name ahead behind over e) h =
      All-without _ ahead (call, name) behind
        (subst (All (λ (job : Job). 1 ≤ total (of_call job.0) s.workers)) e h)

  pub Run-Staffed :
      {first s : System} {n : ℕ}
      → Staffed first.workers first.shared.pending
      → Run cap first n s
      → Staffed s.workers s.shared.pending
  Run-Staffed h begin = h
  Run-Staffed h (go_on run step) = Step-Staffed step (Run-Staffed h run)
  Run-Staffed h (end_call call run) = Run-Staffed h run
