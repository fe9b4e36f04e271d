-- ===== src/TaskQueue/Recover.antt =====
-- `recover_stale_workers` and `requeue_ready_tasks`.
use dse_auto.Common.{
  ℕ, ◌-◌, ◌*◌, Bool, true, false, ◌&&◌, ◌||◌, Option, none, some, List, [], ◌∷◌, String, str_eq,
  ltb, leb, if◌then◌else◌, any, keep, map, length,
}
use dse_auto.Common.Keys.{letters}
use dse_auto.Store.Rows.{opt_lt}
use dse_auto.TaskQueue.{
  TaskState, queued, leased, retry, succeeded, dead_letter, TaskRecord, WorkerState, starting,
  running, stopped, stale, WorkerHeartbeat, TaskSession, save, Broker, push,
}

abbrev pub is_active : WorkerState → Bool
is_active starting = true
is_active running = true
is_active stopped = false
is_active stale = false

abbrev pub is_stale : ℕ → WorkerHeartbeat → Bool
is_stale before w = is_active w.state && ltb w.heartbeat_at before

abbrev pub mark_stale : ℕ → WorkerHeartbeat → WorkerHeartbeat
mark_stale before w = if is_stale before w then record w { state = stale } else w

-- TaskRecord.lease_owner.in_(worker_ids), where the column may be null
abbrev pub owned_by : List String → Option String → Bool
owned_by ids none = false
owned_by ids (some w) = any (λ id. str_eq id w) ids

abbrev pub is_leased : TaskState → Bool
is_leased leased = true
is_leased queued = false
is_leased retry = false
is_leased succeeded = false
is_leased dead_letter = false

abbrev pub is_abandoned : ℕ → List String → TaskRecord → Bool
is_abandoned current ids t =
    is_leased t.state && (owned_by ids t.lease_owner || opt_lt t.lease_expires_at current)

abbrev pub release : ℕ → TaskRecord → TaskRecord
release current t = record t {
  state = retry;
  lease_owner = none;
  lease_expires_at = none;
  available_at = current;
  last_error = some (letters "Recovered after stale worker lease" ∷ []);
}

abbrev pub recover_task : ℕ → List String → TaskRecord → TaskRecord
recover_task current ids t = if is_abandoned current ids t then release current t else t

-- The workers whose heartbeat is before the limit (0 where the source has a time before the epoch).
abbrev pub stale_workers : ℕ → List WorkerHeartbeat → List String
stale_workers before ws = map (λ w. w.worker_id) (keep (is_stale before) ws)

unfoldable pub recover_stale_workers : ℕ → ℕ → TaskSession → List String × TaskSession
recover_stale_workers stale_after current s =
    let before = current - stale_after * 1000000 in
    let ids = stale_workers before s.work.heartbeats in
    (
      ids,
      save (record {
        work = record {
          tasks = map (recover_task current ids) s.work.tasks;
          heartbeats = map (mark_stale before) s.work.heartbeats;
          rest = s.work.rest;
        };
        durable = s.durable;
      }),
    )

abbrev pub is_waiting : TaskState → Bool
is_waiting queued = true
is_waiting retry = true
is_waiting leased = false
is_waiting succeeded = false
is_waiting dead_letter = false

abbrev pub is_ready : ℕ → TaskRecord → Bool
is_ready current t = is_waiting t.state && leb t.available_at current

abbrev pub push_all : List TaskRecord → Broker → Broker
push_all [] q = q
push_all (t ∷ ts) q = push_all ts (push t.id q)

unfoldable pub requeue_ready_tasks : ℕ → Broker → TaskSession → ℕ × Broker
requeue_ready_tasks current q s =
    let tasks = keep (is_ready current) s.work.tasks in (length tasks, push_all tasks q)
