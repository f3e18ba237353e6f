-- ===== src/Check/Concurrent/Safe.antt =====
-- What holds of concurrent calls of CheckAll of opskit.go in every state that they reach.
use clientkit.Prelude.{
  ℕ, zero, suc, ◌+◌, ◌≤◌, ◌≡◌, refl, sym, ap, ◌∙◌, Bool, true, false, Option, List, [], ◌∷◌, ◌++◌,
  length, min, total, total-append, total-middle, ◌==◌, arith,
}
use clientkit.Text.{Text, text_eq}
use clientkit.Health.{Health}
use clientkit.Registry.{Registry}
use clientkit.Registry.Consistent.{IsConsistent, apply_health_check_outcome-IsConsistent}
use clientkit.Check.{CheckMeeting, check_client_health}
use clientkit.Check.Concurrent.{
  Job, Stage, idle, waiting, granted, checking, checked, Worker, Shared, System, with_free, publish,
  Move, take_job, take_slot, leave_slot, take_permit, leave_permit, release_permit, publish_result,
  Step, move, drop_job, Run, begin, go_on, end_call, check_capacity, replicate, jobs_of, workers_of,
  begin_checks,
}

abbrev pub in_checker : Worker → ℕ
in_checker (call, checking name) = 1
in_checker (call, _) = 0

abbrev one_if : Bool → ℕ
one_if true = 1
one_if false = 0

-- Whether a worker has the slot of this client.
abbrev pub holds : Text → Worker → ℕ
holds name (call, granted other) = one_if (other == name)
holds name (call, checking other) = one_if (other == name)
holds name (call, checked other permitted) = one_if (other == name)
holds name (call, _) = 0

-- What a job weighs in the worker that is at it.
abbrev pub at_work : (Job → ℕ) → Worker → ℕ
at_work weight (call, idle) = 0
at_work weight (call, waiting name) = weight (call, name)
at_work weight (call, granted name) = weight (call, name)
at_work weight (call, checking name) = weight (call, name)
at_work weight (call, checked name permitted) = weight (call, name)

abbrev pub at_result : (Job → ℕ) → Job × Option Health → ℕ
at_result weight (job, health) = weight job

pub record IsSafe (cap : ℕ) (jobs : List Job) (s : System) : Type 0 where
  pub permits_counted : s.shared.permits ≡ total in_checker s.workers
  pub permits_bounded : s.shared.permits ≤ cap
  pub slot_counted : (name : Text) → total (holds name) s.workers + one_if (s.shared.free name) ≡ 1
  pub jobs_kept :
      (weight : Job → ℕ)
      → total weight s.shared.pending
          + (total (at_work weight) s.workers + total (at_result weight) s.shared.results)
        ≡ total weight jobs
  pub consistent : IsConsistent s.shared.registry

publish-IsConsistent :
    (job : Job) (m : CheckMeeting) (s : Shared)
    → IsConsistent s.registry
    → IsConsistent (publish job m s).registry
unfolding publish check_client_health
publish-IsConsistent (call, name) m s c =
    apply_health_check_outcome-IsConsistent s.registry name _ _ _ c

-- The same facts where one worker of them, at a cut of the list, is at a stage.
record Cut (cap : ℕ) (jobs : List Job) (before after : List Worker) (worker : Worker) (s : Shared)
    : Type 0 where
  permits_counted :
      s.permits ≡ in_checker worker + (total in_checker before + total in_checker after)
  permits_bounded : s.permits ≤ cap
  slot_counted :
      (name : Text)
      → (holds name worker + (total (holds name) before + total (holds name) after))
          + one_if (s.free name)
        ≡ 1
  jobs_kept :
      (weight : Job → ℕ)
      → total weight s.pending
          + ((at_work weight worker
                + (total (at_work weight) before + total (at_work weight) after))
              + total (at_result weight) s.results)
        ≡ total weight jobs
  consistent : IsConsistent s.registry

module _ (cap : ℕ) (jobs : List Job) (before after : List Worker) where
  Cut-Move :
      {over : Bool} (call : ℕ) {s t : Shared} {from to : Stage}
      → Move cap over call s from t to
      → Cut cap jobs before after (call, from) s
      → Cut cap jobs before after (call, to) t
  unfolding publish
  Cut-Move call {s} (take_job name ahead behind lasts e none_ahead) c = record {
    permits_counted = c.permits_counted;
    permits_bounded = c.permits_bounded;
    slot_counted = c.slot_counted;
    jobs_kept = λ weight. ground (
      arith,
      c.jobs_kept weight,
      ap (total weight) e,
      total-middle weight ahead (call, name) behind,
      total-append weight ahead behind,
    );
    consistent = c.consistent;
  }
  Cut-Move call {s} (take_slot name free) c = record {
    permits_counted = c.permits_counted;
    permits_bounded = c.permits_bounded;
    slot_counted = λ other. ground (arith, c.slot_counted other, text_eq.beq_iff name other);
    jobs_kept = c.jobs_kept;
    consistent = c.consistent;
  }
  Cut-Move call {s} (leave_slot name m over error) c = record {
    permits_counted = c.permits_counted;
    permits_bounded = c.permits_bounded;
    slot_counted = c.slot_counted;
    jobs_kept = λ weight. ground (arith, c.jobs_kept weight);
    consistent = publish-IsConsistent (call, name) m s c.consistent;
  }
  Cut-Move call {s} (take_permit name room) c = record {
    permits_counted = ground (arith, c.permits_counted);
    permits_bounded = ground arith;
    slot_counted = c.slot_counted;
    jobs_kept = c.jobs_kept;
    consistent = c.consistent;
  }
  Cut-Move call {s} (leave_permit name over) c = record {
    permits_counted = c.permits_counted;
    permits_bounded = c.permits_bounded;
    slot_counted = c.slot_counted;
    jobs_kept = c.jobs_kept;
    consistent = c.consistent;
  }
  Cut-Move call {s} (release_permit name) c = record {
    permits_counted = ground (arith, c.permits_counted);
    permits_bounded = ground (arith, c.permits_bounded);
    slot_counted = c.slot_counted;
    jobs_kept = c.jobs_kept;
    consistent = c.consistent;
  }
  Cut-Move call {s} (publish_result name permitted m slot permit lasts) c = record {
    permits_counted = c.permits_counted;
    permits_bounded = c.permits_bounded;
    slot_counted = λ other. ground (arith, c.slot_counted other, text_eq.beq_iff name other);
    jobs_kept = λ weight. ground (arith, c.jobs_kept weight);
    consistent =
        publish-IsConsistent (call, name) m (record s { free = with_free name true s.free })
          c.consistent;
  }

  cut :
      (worker : Worker) (s : System)
      → s.workers ≡ before ++ worker ∷ after
      → IsSafe cap jobs s
      → Cut cap jobs before after worker s.shared
  cut worker s e i = record {
    permits_counted =
        i.permits_counted ∙ ap (total in_checker) e ∙ total-middle in_checker before worker after;
    permits_bounded = i.permits_bounded;
    slot_counted = λ name. omega (
      arith,
      i.slot_counted name,
      ap (total (holds name)) e,
      total-middle (holds name) before worker after,
    );
    jobs_kept = λ weight. omega (
      arith,
      i.jobs_kept weight,
      ap (total (at_work weight)) e,
      total-middle (at_work weight) before worker after,
    );
    consistent = i.consistent;
  }

  joined :
      (worker : Worker) (s : Shared) (ended : ℕ → Bool)
      → Cut cap jobs before after worker s
      → IsSafe cap jobs (record { shared = s; ended = ended; workers = before ++ worker ∷ after })
  joined worker s ended c = record {
    permits_counted = omega (arith, c.permits_counted, total-middle in_checker before worker after);
    permits_bounded = c.permits_bounded;
    slot_counted =
        λ name. omega (arith, c.slot_counted name, total-middle (holds name) before worker after);
    jobs_kept = λ weight.
        omega (arith, c.jobs_kept weight, total-middle (at_work weight) before worker after);
    consistent = c.consistent;
  }

module _ {cap : ℕ} {jobs : List Job} where
  Step-IsSafe : {s t : System} → Step cap s t → IsSafe cap jobs s → IsSafe cap jobs t
  Step-IsSafe {s} (move before after call from e m) i =
      joined cap jobs before after (call, _) _ s.ended
        (Cut-Move cap jobs before after call m (cut cap jobs before after (call, from) s e i))
  Step-IsSafe {s} (drop_job call name ahead behind over e) i = record {
    permits_counted = i.permits_counted;
    permits_bounded = i.permits_bounded;
    slot_counted = i.slot_counted;
    jobs_kept = λ weight. ground (
      arith,
      i.jobs_kept weight,
      ap (total weight) e,
      total-middle weight ahead (call, name) behind,
      total-append weight ahead behind,
    );
    consistent = i.consistent;
  }

  pub Run-IsSafe :
      {first s : System} {n : ℕ} → IsSafe cap jobs first → Run cap first n s → IsSafe cap jobs s
  Run-IsSafe i begin = i
  Run-IsSafe i (go_on run step) = Step-IsSafe step (Run-IsSafe i run)
  Run-IsSafe i (end_call call run) =
      let j = Run-IsSafe i run in
      record {
        permits_counted = j.permits_counted;
        permits_bounded = j.permits_bounded;
        slot_counted = j.slot_counted;
        jobs_kept = j.jobs_kept;
        consistent = j.consistent;
      }

pub total-idle :
    (weight : Worker → ℕ)
    → ((call : ℕ) → weight (call, idle) ≡ 0)
    → (cap call : ℕ) (calls : List (List Text)) → total weight (workers_of cap call calls) ≡ 0
unfolding workers_of replicate
total-idle weight none_idle cap call [] = refl
total-idle weight none_idle cap call (names ∷ calls) = omega (
  arith,
  total-append weight (replicate (min cap (length names)) (call, idle))
      (workers_of cap (suc call) calls),
  crew (min cap (length names)),
  total-idle weight none_idle cap (suc call) calls,
)
  where
    crew : (n : ℕ) → total weight (replicate n (call, idle)) ≡ 0
    crew zero = refl
    crew (suc n) = omega (arith, none_idle call, crew n)

pub begin_checks-IsSafe :
    (r : Registry) (calls : List (List Text))
    → IsConsistent r
    → IsSafe (check_capacity r) (jobs_of 0 calls) (begin_checks r calls)
unfolding begin_checks
begin_checks-IsSafe r calls c = record {
  permits_counted = sym (total-idle in_checker (λ call. refl) (check_capacity r) 0 calls);
  permits_bounded = omega arith;
  slot_counted =
      λ name. omega (arith, total-idle (holds name) (λ call. refl) (check_capacity r) 0 calls);
  jobs_kept = λ weight.
      omega (arith, total-idle (at_work weight) (λ call. refl) (check_capacity r) 0 calls);
  consistent = c;
}

-- Calls of CheckAll on one consistent registry, however they interleave and whenever their contexts
-- end: never more checkers run than the registry's bound allows, over all the calls together; no
-- client's slot is with two workers; and the registry stays consistent.
pub CheckAll-exclusive :
    (r : Registry) (calls : List (List Text)) {n : ℕ} {s : System}
    → IsConsistent r
    → Run (check_capacity r) (begin_checks r calls) n s
    → (total in_checker s.workers ≤ check_capacity r)
      × ((name : Text) → total (holds name) s.workers ≤ 1)
      × IsConsistent s.shared.registry
CheckAll-exclusive r calls c run =
    let i = Run-IsSafe (begin_checks-IsSafe r calls c) run in
    (
      omega (arith, i.permits_counted, i.permits_bounded),
      (λ name. omega (arith, i.slot_counted name)),
      i.consistent,
    )
