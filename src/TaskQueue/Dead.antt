-- ===== src/TaskQueue/Dead.antt =====
-- The runs of a task whose handler always raises.
use dse_auto.Common.{
  ℕ, ◌+◌, ◌*◌, ◌≤◌, ◌≡◌, refl, sym, ap, true, false, none, some, List, [], ◌∷◌, arith, length,
  if◌then◌else◌, raise, Error,
}
use mathlib.Core.Path.{subst}
use dse_auto.Common.Keys.{Json}
use dse_auto.TaskQueue.{
  retry, dead_letter, is_open, TaskRecord, TaskSession, Broker, push, find_task, claimable,
}
use dse_auto.TaskQueue.Worker.{Handler, TaskWorker, Run, fail, exhausted, backoff, run_once}
use dse_auto.TaskQueue.Retries.{claimed, claim_session, failed_run, run_failed, failed_found}

-- Runs at the given times, each the time of a claim and of the recovery.
unfoldable pub run_all : List (ℕ × ℕ) → TaskWorker → Broker → TaskSession → Broker × TaskSession
unfolding run_once
run_all [] w q s = (q, s)
run_all ((now, later) ∷ rest) w q s =
    run_all rest w (run_once now later w q s).1 (run_once now later w q s).2

-- Each claim comes when the backoff after the run before it is over.
abbrev pub IsDue : ℕ → ℕ → List (ℕ × ℕ) → Type 0
IsDue attempts earliest [] = Unit
IsDue attempts earliest ((now, later) ∷ rest) =
    (earliest ≤ now) × IsDue (attempts + 1) (later + backoff (attempts + 1) * 1000000) rest

-- The handler raises, and commits no change of the tasks.
abbrev pub IsFailing : Error → Handler → Type 0
IsFailing e h =
    (s : TaskSession) (payload : Json)
    → (s' : TaskSession) × (h s payload ≡ (raise e, s')) × (s'.durable.tasks ≡ s.durable.tasks)

-- The task waits without a lease.
abbrev pub IsWaiting : TaskRecord → Type 0
IsWaiting t = (is_open t.state ≡ true) × (t.lease_expires_at ≡ none)

-- The task lies dead in the committed tables, and the broker is empty.
abbrev pub IsBuried : ℕ → ℕ → Broker × TaskSession → Type 0
IsBuried id attempts r =
    (r.0 ≡ [])
    × ((d : TaskRecord) × (find_task id r.1.durable.tasks ≡ some d)
        × (d.state ≡ dead_letter)
        × (d.attempts ≡ attempts))

module _ (id : ℕ) (w : TaskWorker) (h : Handler) (e : Error) (failing : IsFailing e h) where
  waiting-claimable :
      (now : ℕ) (t : TaskRecord) → IsWaiting t → t.available_at ≤ now → claimable now t ≡ true
  waiting-claimable now t waiting due = rw (waiting.0, waiting.1) (ground (arith, due))

  module _ (now later : ℕ) (s : TaskSession) (t : TaskRecord)
      (found : find_task id s.work.tasks ≡ some t) (waiting : IsWaiting t)
      (known : w.handlers t.task_name ≡ some h) (due : t.available_at ≤ now) where
    -- The session of the handler, the row that it fails on, and the run.
    abbrev left_over : TaskSession
    left_over = (failing (claim_session now w id s) t.payload).0

    abbrev tried : TaskRecord
    tried = claimed now w t

    abbrev failure : Run
    failure = failed_run later id e tried [] left_over

    failure_ran : run_once now later w (id ∷ []) s ≡ failure
    failure_ran =
        run_failed now later id w [] s left_over t h e found (waiting-claimable now t waiting due)
          known (failing (claim_session now w id s) t.payload).1
          (failing (claim_session now w id s) t.payload).2

    failure_found : find_task id failure.2.work.tasks ≡ some (fail later e tried)
    failure_found =
        failed_found now later id w [] s left_over t h e found (waiting-claimable now t waiting due)
          known (failing (claim_session now w id s) t.payload).1
          (failing (claim_session now w id s) t.payload).2

    last-IsBuried : exhausted tried ≡ true → IsBuried id (t.attempts + 1) (failure.1, failure.2)
    last-IsBuried over = (
      ap (λ b. if b then [] else push id []) over,
      (fail later e tried, failure_found, ap (λ b. if b then dead_letter else retry) over, refl),
    )

    again-IsWaiting : exhausted tried ≡ false → IsWaiting (fail later e tried)
    again-IsWaiting more = (ap (λ b. is_open (if b then dead_letter else retry)) more, refl)

  burying :
      (times : List (ℕ × ℕ)) (now later : ℕ) (s : TaskSession) (t : TaskRecord)
      → find_task id s.work.tasks ≡ some t
      → IsWaiting t
      → w.handlers t.task_name ≡ some h
      → t.attempts + 1 + length times ≡ t.max_attempts
      → IsDue t.attempts t.available_at ((now, later) ∷ times)
      → IsBuried id t.max_attempts (run_all ((now, later) ∷ times) w (id ∷ []) s)
  unfolding run_all
  burying [] now later s t found waiting known left due =
      subst (λ (r : Run). IsBuried id t.max_attempts (r.1, r.2))
        (sym (failure_ran now later s t found waiting known due.0))
        (subst (λ n. IsBuried id n (result.1, result.2)) (ground arith)
          (last-IsBuried now later s t found waiting known due.0 (ground arith)))
    where
      result : Run
      result = failure now later s t found waiting known due.0
  burying ((now', later') ∷ times) now later s t found waiting known left due =
      subst (λ (r : Run). IsBuried id t.max_attempts (run_all ((now', later') ∷ times) w r.1 r.2))
        (sym (failure_ran now later s t found waiting known due.0))
        (subst
          (λ b.
            IsBuried id t.max_attempts
              (run_all ((now', later') ∷ times) w (if b then [] else id ∷ []) result.2))
          (sym more)
          (burying times now' later' result.2 (fail later e (claimed now w t))
            (failure_found now later s t found waiting known due.0)
            (again-IsWaiting now later s t found waiting known due.0 more) known (ground arith)
            (subst
              (λ b.
                IsDue (t.attempts + 1)
                  (if b then t.available_at else later + backoff (t.attempts + 1) * 1000000)
                  ((now', later') ∷ times))
              (sym more) due.1)))
    where
      result : Run
      result = failure now later s t found waiting known due.0

      more : exhausted (claimed now w t) ≡ false
      more = ground arith

-- Where the only task of a broker waits in the tables without a lease, its handler always raises
-- without committing a change of the tasks, and as many runs follow one another as attempts are left,
-- each when the backoff of the one before is over, the task ends as a dead letter in the committed tables, with exactly the
-- maximum of attempts used, and the broker is empty.
pub run_all-IsBuried :
    (id : ℕ) (w : TaskWorker) (h : Handler) (e : Error) (times : List (ℕ × ℕ)) (now later : ℕ)
    (s : TaskSession) (t : TaskRecord)
    → IsFailing e h
    → find_task id s.work.tasks ≡ some t
    → IsWaiting t
    → w.handlers t.task_name ≡ some h
    → t.attempts + 1 + length times ≡ t.max_attempts
    → IsDue t.attempts t.available_at ((now, later) ∷ times)
    → IsBuried id t.max_attempts (run_all ((now, later) ∷ times) w (id ∷ []) s)
run_all-IsBuried id w h e times now later s t failing found waiting known left due =
    burying id w h e failing times now later s t found waiting known left due
