-- ===== src/TaskQueue/Worker.antt =====
-- `TaskWorker`: its heartbeat and one run. A handler is given the session and the payload and
-- returns a result or raises; `run_forever` repeats `run_once`.
use dse_auto.Common.{
  ℕ, ◌+◌, ◌-◌, ◌*◌, ◌^◌, Bool, Option, none, some, List, [], ◌∷◌, String, str_eq, leb,
  if◌then◌else◌, Result, ok, raise, Error, value_error, runtime_error, key_error, provider_error,
  permission_error, http_error, other_error,
}
use dse_auto.Common.Keys.{Key, Json, letters, num}
use dse_auto.TaskQueue.{
  retry, succeeded, dead_letter, TaskRecord, WorkerState, starting, running, stopped, stale,
  WorkerHeartbeat, TaskSession, save, undo, set_tasks, Broker, push, find_task, modify_task,
  claim_task,
}

abbrev pub Handler : Type 0
Handler = TaskSession → Json → Result Json × TaskSession

pub record TaskWorker : Type 0 where
  pub worker_id : String
  pub process_id : ℕ
  pub queue : String
  pub lease_seconds : ℕ
  pub handlers : String → Option Handler

-- heartbeat.shutdown_at = now if state == "stopped" else None
abbrev pub shutdown_time : WorkerState → ℕ → Option ℕ
shutdown_time stopped now = some now
shutdown_time starting now = none
shutdown_time running now = none
shutdown_time stale now = none

abbrev pub beat : ℕ → WorkerState → WorkerHeartbeat → WorkerHeartbeat
beat now state w = record w {
  state = state;
  heartbeat_at = now;
  shutdown_at = shutdown_time state now;
}

abbrev pub new_heartbeat : ℕ → TaskWorker → WorkerState → WorkerHeartbeat
new_heartbeat now w state = record {
  worker_id = w.worker_id;
  process_id = w.process_id;
  state = state;
  queues = w.queue ∷ [];
  started_at = now;
  heartbeat_at = now;
  shutdown_at = none;
}

-- The row of the worker with the new beat, or a new row behind the others.
abbrev pub put_heartbeat :
    ℕ → TaskWorker → WorkerState → List WorkerHeartbeat → List WorkerHeartbeat
put_heartbeat now w state [] = new_heartbeat now w state ∷ []
put_heartbeat now w state (h ∷ hs) =
    let rest = put_heartbeat now w state hs in
    if str_eq h.worker_id w.worker_id then beat now state h ∷ hs else h ∷ rest

unfoldable pub heartbeat : ℕ → TaskWorker → WorkerState → TaskSession → TaskSession
heartbeat now w state s = save (record {
  work = record {
    tasks = s.work.tasks;
    heartbeats = put_heartbeat now w state s.work.heartbeats;
    rest = s.work.rest;
  };
  durable = s.durable;
})

-- f"{type(error).__name__}: {error}"
abbrev pub error_text : Error → Key
error_text (value_error m) = letters "ValueError: " ∷ letters m ∷ []
error_text (runtime_error m) = letters "RuntimeError: " ∷ letters m ∷ []
error_text (key_error m) = letters "KeyError: " ∷ letters m ∷ []
error_text (provider_error m) = letters "ProviderError: " ∷ letters m ∷ []
error_text (permission_error m) = letters "PermissionError: " ∷ letters m ∷ []
error_text (http_error code m) =
    letters "HTTPException: " ∷ num code ∷ letters ": " ∷ letters m ∷ []
error_text other_error = letters "Exception: " ∷ []

abbrev pub succeed : Json → TaskRecord → TaskRecord
succeed result t = record t {
  result = result;
  state = succeeded;
  lease_owner = none;
  lease_expires_at = none;
  last_error = none;
}

-- The seconds before the next attempt: 2 ** max(attempts - 1, 0).
abbrev pub backoff : ℕ → ℕ
backoff attempts = 2 ^ (attempts - 1)

abbrev pub exhausted : TaskRecord → Bool
exhausted t = leb t.max_attempts t.attempts

abbrev pub fail : ℕ → Error → TaskRecord → TaskRecord
fail now e t = record t {
  last_error = some (error_text e);
  lease_owner = none;
  lease_expires_at = none;
  state = if exhausted t then dead_letter else retry;
  available_at = if exhausted t then t.available_at else now + backoff t.attempts * 1000000;
}

-- What a run leaves behind: what it returns or raises, the broker, and the session.
abbrev pub Run : Type 0
Run = Result (Option TaskRecord) × Broker × TaskSession

-- The recovery after an error, at the time that the failed task is read again.
unfoldable pub record_failure : ℕ → ℕ → Error → Broker → TaskSession → Run
record_failure now id e q s = elim (find_task id s.work.tasks) [
  | none ↦ (raise (runtime_error "Task disappeared during failure recovery"), q, s)
  | some t ↦ (
    ok (some (fail now e t)),
    (if exhausted t then q else push id q),
    save (set_tasks (modify_task id (fail now e) s.work.tasks) s),
  )
]

-- What follows the handler: an error or a vanished task rolls the session back.
unfoldable pub finish : ℕ → ℕ → Result Json → Broker → TaskSession → Run
unfolding record_failure
finish now id (raise e) q s = record_failure now id e q (undo s)
finish now id (ok result) q s = elim (find_task id s.work.tasks) [
  | none ↦ record_failure now id (runtime_error "Task disappeared during execution") q (undo s)
  | some t ↦ (
    ok (some (succeed result t)),
    q,
    save (set_tasks (modify_task id (succeed result) s.work.tasks) s),
  )
]

-- The handler of the task's name, if there is one. The message leaves the name of the task out.
unfoldable pub run_claimed : ℕ → TaskRecord → Option Handler → Broker → TaskSession → Run
unfolding finish record_failure
run_claimed now task none q s = record_failure now task.id (value_error "Unknown task") q s
run_claimed now task (some handler) q s =
    let (result, s') = handler s task.payload in finish now task.id result q s'

-- The claimed task, if the claim found one.
unfoldable pub run_task : ℕ → TaskWorker → Option TaskRecord → Broker → TaskSession → Run
unfolding run_claimed
run_task now w none q s = (ok none, q, s)
run_task now w (some task) q s = run_claimed now task (w.handlers task.task_name) q s

-- The claim reads the clock as `now`, the recovery as `later`.
unfoldable pub run_once : ℕ → ℕ → TaskWorker → Broker → TaskSession → Run
unfolding run_task claim_task
run_once now later w [] s = (ok none, [], s)
run_once now later w (id ∷ q) s =
    let (claimed, s1) = claim_task now id w.worker_id w.lease_seconds s in
    run_task later w claimed q s1
