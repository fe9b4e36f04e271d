-- ===== src/Examples/Queue.antt =====
-- The task queue.
use dse_auto.Common.{
  ◌+◌, ◌-◌, ◌*◌, ◌≤◌, ◌≡◌, refl, none, some, [], ◌∷◌, ok, other_error, arith, if◌then◌else◌, leb,
  All,
}
use dse_auto.TaskQueue.{
  TaskRecord, TaskTables, TaskSession, running, retry, find_task, claim_task, lease, push,
}
use dse_auto.TaskQueue.Recover.{recover_stale_workers}
use dse_auto.TaskQueue.Worker.{run_once, fail}
use dse_auto.TaskQueue.Leases.{IsLeased, claim_task-exclusive}
use dse_auto.TaskQueue.Settled.{
  IsSilent, IsHeld, recover_stale_workers-settles, recover_stale_workers-claim,
}
use dse_auto.TaskQueue.Retries.{
  IsFailed, run_once-IsFailed, run_once-forgets, claimed, claim_session,
}
use dse_auto.Examples.Samples.{task0, queue_with, worker0, failing}

claim_task-exclusive_example :
    ((r : TaskRecord) × ((claim_task 10 3 "worker" 60 (queue_with task0)).0 ≡ some r)
      × (find_task 3 (claim_task 10 3 "worker" 60 (queue_with task0)).1.durable.tasks ≡ some r)
      × IsLeased 10 60 "worker" task0 r)
    × (claim_task 20 3 "other" 60 (claim_task 10 3 "worker" 60 (queue_with task0)).1
        ≡ (none, (claim_task 10 3 "worker" 60 (queue_with task0)).1))
claim_task-exclusive_example =
    claim_task-exclusive 10 20 3 60 60 "worker" "other" (queue_with task0) {t = task0} refl refl
      (ground arith)

-- A task under a lease that ran out.
abbrev abandoned0 : TaskRecord
abandoned0 = lease 10 "worker" 60 task0

-- A worker whose heartbeat has stopped, beside a task that it leases without an end.
abbrev silent0 : TaskSession
silent0 =
    let stuck : TaskRecord = record abandoned0 { lease_expires_at = none } in
    let t : TaskTables = record (queue_with stuck).work {
      heartbeats =
          (record {
            worker_id = "worker";
            process_id = 7;
            state = running;
            queues = [];
            started_at = 1;
            heartbeat_at = 10;
            shutdown_at = none;
          })
          ∷ [];
    } in
    record { work = t; durable = t }

recover_stale_workers-settles_example :
    All
      (IsHeld 90000000 (90000000 - 30 * 1000000) silent0.work.heartbeats)
      (recover_stale_workers 30 90000000 silent0).1.durable.tasks
    × All
        (λ h. IsSilent (90000000 - 30 * 1000000) h → ⊥)
        (recover_stale_workers 30 90000000 silent0).1.durable.heartbeats
recover_stale_workers-settles_example = recover_stale_workers-settles 30 90000000 silent0

recover_stale_workers-claim_example :
    (r : TaskRecord) × ((claim_task 90000000 3 "other" 60
        (recover_stale_workers 30 90000000 (queue_with abandoned0)).1).0
      ≡ some r)
    × IsLeased 90000000 60 "other" abandoned0 r
recover_stale_workers-claim_example =
    recover_stale_workers-claim 30 90000000 3 60 "other" (queue_with abandoned0) {t = abandoned0}
      refl ran_out
  where
    ran_out :
        IsHeld 90000000 (90000000 - 30 * 1000000) (queue_with abandoned0).work.heartbeats abandoned0
        → ⊥
    ran_out held = late ((held refl).1 (10 + 60 * 1000000) refl)
      where
        late : 90000000 ≤ 10 + 60 * 1000000 → ⊥
        late h = omega (arith, h)

run_once-IsFailed_example :
    ((r : TaskRecord) × (find_task 3
          (run_once 10 11 worker0 (3 ∷ []) (queue_with task0)).2.durable.tasks
        ≡ some r)
      × IsFailed 11 other_error task0 r)
    × ((run_once 10 11 worker0 (3 ∷ []) (queue_with task0)).1
        ≡ (if leb task0.max_attempts (task0.attempts + 1) then [] else push 3 []))
run_once-IsFailed_example =
    run_once-IsFailed 10 11 3 worker0 [] (queue_with task0)
      (claim_session 10 worker0 3 (queue_with task0)) task0 failing other_error refl refl refl refl
      refl

run_once-forgets_example :
    (let r = run_once 10 11 worker0 (3 ∷ []) (queue_with task0) in
      (run_once 12 13 worker0 r.1 r.2 ≡ (ok none, [], r.2))
      × (find_task 3 r.2.durable.tasks ≡ some (fail 11 other_error (claimed 10 worker0 task0)))
      × ((fail 11 other_error (claimed 10 worker0 task0)).state ≡ retry))
run_once-forgets_example =
    run_once-forgets 10 11 3 worker0 (queue_with task0)
      (claim_session 10 worker0 3 (queue_with task0)) task0 failing other_error 12 13 worker0 refl
      refl refl refl refl (ground arith) (ground arith)
