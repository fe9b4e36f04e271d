-- ===== src/TaskQueue/Retries.antt =====
-- A run whose handler raises, and the run after it.
use dse_auto.Common.{
  ℕ, ◌+◌, ◌-◌, ◌*◌, ◌^◌, ◌<◌, ◌≡◌, refl, sym, ap, ◌∙◌, true, false, none, some, [], ◌∷◌, arith, leb,
  if◌then◌else◌, ok, raise, Error,
}
use mathlib.Core.Path.{subst}
use dse_auto.TaskQueue.{
  retry, dead_letter, TaskRecord, TaskSession, save, undo, set_tasks, Broker, push, find_task,
  modify_task, claimable, lease,
}
use dse_auto.TaskQueue.Worker.{
  Handler, TaskWorker, Run, fail, exhausted, backoff, error_text, record_failure, finish,
  run_claimed, run_task, run_once,
}
use dse_auto.TaskQueue.Leases.{find_task-modify, find_task-id, claim_found, claim_refused}

-- The claimed row, and the session of the claim.
abbrev pub claimed : ℕ → TaskWorker → TaskRecord → TaskRecord
claimed now w t = lease now w.worker_id w.lease_seconds t

abbrev pub claim_session : ℕ → TaskWorker → ℕ → TaskSession → TaskSession
claim_session now w id s =
    save (set_tasks (modify_task id (lease now w.worker_id w.lease_seconds) s.work.tasks) s)

-- The run after a handler that raised: the failure is written to the tables as last committed.
abbrev pub failed_run : ℕ → ℕ → Error → TaskRecord → Broker → TaskSession → Run
failed_run later id e u q s = (
  ok (some (fail later e u)),
  (if exhausted u then q else push id q),
  save (set_tasks (modify_task id (fail later e) s.durable.tasks) (undo s)),
)

module _ (now later id : ℕ) (w : TaskWorker) (q : Broker) (s s' : TaskSession) (t : TaskRecord)
    (h : Handler) (e : Error) (found : find_task id s.work.tasks ≡ some t)
    (may : claimable now t ≡ true) (known : w.handlers t.task_name ≡ some h)
    (raised : h (claim_session now w id s) t.payload ≡ (raise e, s'))
    (kept : s'.durable.tasks ≡ (claim_session now w id s).work.tasks) where
  claimed_found : find_task id (claim_session now w id s).work.tasks ≡ some (claimed now w t)
  claimed_found = find_task-modify id _ s.work.tasks (λ r. refl) found

  failure : record_failure later id e q (undo s') ≡ failed_run later id e (claimed now w t) q s'
  unfolding record_failure
  failure = rw (ap (find_task id) kept ∙ claimed_found, record_failure) refl

  pub run_failed : run_once now later w (id ∷ q) s ≡ failed_run later id e (claimed now w t) q s'
  unfolding run_once run_task run_claimed finish
  run_failed =
      rw (claim_found now id w.lease_seconds w.worker_id s found may, known, raised)
        (ap (λ i. finish later i (raise e) q s') (find_task-id id s.work.tasks found) ∙ failure)

  pub failed_found :
      find_task id (failed_run later id e (claimed now w t) q s').2.work.tasks
      ≡ some (fail later e (claimed now w t))
  failed_found =
      find_task-modify id (fail later e) s'.durable.tasks (λ r. refl)
        (ap (find_task id) kept ∙ claimed_found)

-- The row after a failed run: one attempt more, no lease, and either a dead letter or due for a retry
-- when the backoff is over.
pub record IsFailed (later : ℕ) (e : Error) (t r : TaskRecord) : Type 0 where
  pub identity : r.id ≡ t.id
  pub counted : r.attempts ≡ t.attempts + 1
  pub unowned : r.lease_owner ≡ none
  pub unleased : r.lease_expires_at ≡ none
  pub explained : r.last_error ≡ some (error_text e)
  pub state : r.state ≡ (if leb t.max_attempts (t.attempts + 1) then dead_letter else retry)
  pub due : r.available_at ≡ (
      if leb t.max_attempts (t.attempts + 1)
      then t.available_at
      else later + 2 ^ t.attempts * 1000000)

-- Where a worker claims a task and its handler raises, having committed no change of the tasks, the
-- task is stored, committed, with one attempt more, the error and no lease: as a dead letter if no
-- attempt is left, and else for a retry, available when the backoff is over, with its identifier pushed to the
-- broker again. The statement is for every session that the handler may leave.
pub run_once-IsFailed :
    (now later id : ℕ) (w : TaskWorker) (q : Broker) (s s' : TaskSession) (t : TaskRecord)
    (h : Handler) (e : Error)
    → find_task id s.work.tasks ≡ some t
    → claimable now t ≡ true
    → w.handlers t.task_name ≡ some h
    → h (claim_session now w id s) t.payload ≡ (raise e, s')
    → s'.durable.tasks ≡ (claim_session now w id s).work.tasks
    → ((r : TaskRecord) × (find_task id (run_once now later w (id ∷ q) s).2.durable.tasks ≡ some r)
        × IsFailed later e t r)
      × ((run_once now later w (id ∷ q) s).1
          ≡ (if leb t.max_attempts (t.attempts + 1) then q else push id q))
run_once-IsFailed now later id w q s s' t h e found may known raised kept = (
  (
    fail later e (claimed now w t),
    ap (λ (r : Run). find_task id r.2.durable.tasks) ran
        ∙ failed_found now later id w q s s' t h e found may known raised kept,
    record {
      identity = refl;
      counted = refl;
      unowned = refl;
      unleased = refl;
      explained = refl;
      state = refl;
      due =
          ap
            (λ n.
              if leb t.max_attempts (t.attempts + 1)
              then t.available_at
              else later + 2 ^ n * 1000000)
            last;
    },
  ),
  ap (λ (r : Run). r.1) ran,
)
  where
    last : t.attempts + 1 - 1 ≡ t.attempts
    last = omega arith

    ran : run_once now later w (id ∷ q) s ≡ failed_run later id e (claimed now w t) q s'
    ran = run_failed now later id w q s s' t h e found may known raised kept

-- A run that pops a task before the time at which it is available.
run_early :
    (now later id : ℕ) (w : TaskWorker) (q : Broker) (s : TaskSession) {t : TaskRecord}
    → find_task id s.work.tasks ≡ some t
    → now < t.available_at
    → run_once now later w (id ∷ q) s ≡ (ok none, q, s)
unfolding run_once run_task
run_early now later id w q s {t} found early =
    rw (claim_refused now id w.lease_seconds w.worker_id s found too_early) refl
  where
    too_early : claimable now t ≡ false
    too_early = ground arith

-- Where the only task of a broker fails with attempts left, and a worker runs again before the
-- backoff is over, the second run returns nothing and changes no table, but empties the broker: the
-- task stands in the tables for a retry and no broker holds it.
pub run_once-forgets :
    (now later id : ℕ) (w : TaskWorker) (s s' : TaskSession) (t : TaskRecord) (h : Handler)
    (e : Error) (soon soon' : ℕ) (w' : TaskWorker)
    → find_task id s.work.tasks ≡ some t
    → claimable now t ≡ true
    → w.handlers t.task_name ≡ some h
    → h (claim_session now w id s) t.payload ≡ (raise e, s')
    → s'.durable.tasks ≡ (claim_session now w id s).work.tasks
    → t.attempts + 1 < t.max_attempts
    → soon < later + backoff (t.attempts + 1) * 1000000
    → (let r = run_once now later w (id ∷ []) s in
        (run_once soon soon' w' r.1 r.2 ≡ (ok none, [], r.2))
        × (find_task id r.2.durable.tasks ≡ some (fail later e (claimed now w t)))
        × ((fail later e (claimed now w t)).state ≡ retry))
run_once-forgets now later id w s s' t h e soon soon' w' found may known raised kept left early = (
  subst (λ (r : Run). run_once soon soon' w' r.1 r.2 ≡ (ok none, [], r.2)) (sym ran) again,
  ap (λ (r : Run). find_task id r.2.durable.tasks) ran
      ∙ failed_found now later id w [] s s' t h e found may known raised kept,
  ap (λ b. if b then dead_letter else retry) more,
)
  where
    ran : run_once now later w (id ∷ []) s ≡ failed_run later id e (claimed now w t) [] s'
    ran = run_failed now later id w [] s s' t h e found may known raised kept

    more : exhausted (claimed now w t) ≡ false
    more = ground arith

    waits : soon < (fail later e (claimed now w t)).available_at
    waits =
        subst
          (λ b. soon < (if b then t.available_at else later + backoff (t.attempts + 1) * 1000000))
          (sym more) early

    again :
        run_once soon soon' w'
          (if exhausted (claimed now w t) then [] else push id [])
          (failed_run later id e (claimed now w t) [] s').2
        ≡ (ok none, [], (failed_run later id e (claimed now w t) [] s').2)
    again =
        ap
          (λ b.
            run_once soon soon' w' (if b then [] else id ∷ [])
              (failed_run later id e (claimed now w t) [] s').2)
          more
        ∙ run_early soon soon' id w' [] _
            (failed_found now later id w [] s s' t h e found may known raised kept) waits
