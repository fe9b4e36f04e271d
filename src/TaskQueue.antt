-- ===== src/TaskQueue.antt =====
-- backend/app/services/task_queue.py: the rows, the session over them, the broker and the
-- operations on the queue. `updated_at` of a task, which the database sets, is not modelled.
pub mod Recover
pub mod Worker
pub mod Handlers
pub mod Leases
pub mod Retries
pub mod Settled
pub mod Dead
use dse_auto.Common.{
  ℕ, ◌+◌, ◌*◌, Bool, true, false, ◌&&◌, Option, none, some, List, [], ◌∷◌, ◌++◌, String, leb, ◌==◌,
  if◌then◌else◌,
}
use dse_auto.Common.Keys.{Key, Json, key_eq, obj, done}
use dse_auto.Store.{Tables}
use dse_auto.Store.Rows.{none_or_lt}

-- TaskRecord.state
pub data TaskState : Type 0 where
  queued leased retry succeeded dead_letter : TaskState

pub record TaskRecord : Type 0 where
  pub id : ℕ
  pub task_name : String
  pub queue : String
  pub payload : Json
  pub idempotency_key : Key
  pub state : TaskState
  pub attempts : ℕ
  pub max_attempts : ℕ
  pub available_at : ℕ
  pub lease_owner : Option String
  pub lease_expires_at : Option ℕ
  pub last_error : Option Key
  pub result : Json
  pub correlation_id : Option Key
  pub created_at : ℕ

-- WorkerHeartbeat.state
pub data WorkerState : Type 0 where
  starting running stopped stale : WorkerState

pub record WorkerHeartbeat : Type 0 where
  pub worker_id : String
  pub process_id : ℕ
  pub state : WorkerState
  pub queues : List String
  pub started_at : ℕ
  pub heartbeat_at : ℕ
  pub shutdown_at : Option ℕ

-- The tables of the queue beside those of the trading core, which a task's handler also reaches.
pub record TaskTables : Type 0 where
  pub tasks : List TaskRecord
  pub heartbeats : List WorkerHeartbeat
  pub rest : Tables

pub record TaskSession : Type 0 where
  pub work : TaskTables
  pub durable : TaskTables

abbrev pub save : TaskSession → TaskSession
save s = record { work = s.work; durable = s.work }

abbrev pub undo : TaskSession → TaskSession
undo s = record { work = s.durable; durable = s.durable }

abbrev pub set_tasks : List TaskRecord → TaskSession → TaskSession
set_tasks ts s = record {
  work = record { tasks = ts; heartbeats = s.work.heartbeats; rest = s.work.rest };
  durable = s.durable;
}

-- The identifiers in a broker, the next one first (InMemoryBroker, and the Redis list alike).
abbrev pub Broker : Type 0
Broker = List ℕ

-- self._items.append(task_id)
abbrev pub push : ℕ → Broker → Broker
push id q = q ++ id ∷ []

-- self._items.popleft() if self._items else None
abbrev pub pop : Broker → Option ℕ × Broker
pop [] = (none, [])
pop (id ∷ q) = (some id, q)

abbrev pub find_task : ℕ → List TaskRecord → Option TaskRecord
find_task id [] = none
find_task id (t ∷ ts) = if t.id == id then some t else find_task id ts

abbrev pub find_task_key : Key → List TaskRecord → Option TaskRecord
find_task_key key [] = none
find_task_key key (t ∷ ts) = if key_eq t.idempotency_key key then some t else find_task_key key ts

abbrev pub modify_task : ℕ → (TaskRecord → TaskRecord) → List TaskRecord → List TaskRecord
modify_task id f [] = []
modify_task id f (t ∷ ts) = (if t.id == id then f t else t) ∷ modify_task id f ts

-- The arguments of `enqueue_task`, with the values of the settings.
pub record TaskArgs : Type 0 where
  pub task_name : String
  pub queue : String
  pub payload : Json
  pub idempotency_key : Key
  pub correlation_id : Option Key
  pub max_attempts : Option ℕ
  pub default_max_attempts : ℕ
  pub commits : Bool

-- max_attempts or settings.TASK_MAX_ATTEMPTS
abbrev pub attempts_or : Option ℕ → ℕ → ℕ
attempts_or none n = n
attempts_or (some m) n = if m == 0 then n else m

abbrev pub new_task : ℕ → ℕ → TaskArgs → TaskRecord
new_task now id a = record {
  id = id;
  task_name = a.task_name;
  queue = a.queue;
  payload = a.payload;
  idempotency_key = a.idempotency_key;
  state = queued;
  attempts = 0;
  max_attempts = attempts_or a.max_attempts a.default_max_attempts;
  available_at = now;
  lease_owner = none;
  lease_expires_at = none;
  last_error = none;
  result = obj done;
  correlation_id = a.correlation_id;
  created_at = now;
}

-- db.add(task); db.flush()
abbrev pub add_task : TaskRecord → TaskSession → TaskSession
add_task t s = record {
  work = record {
    tasks = s.work.tasks ++ t ∷ [];
    heartbeats = s.work.heartbeats;
    rest = record s.work.rest {
      trail = record s.work.rest.trail { next_id = s.work.rest.trail.next_id + 1 };
    };
  };
  durable = s.durable;
}

unfoldable pub enqueue_task :
    ℕ → TaskArgs → Broker → TaskSession → TaskRecord × Broker × TaskSession
enqueue_task now a q s =
    let task = new_task now s.work.rest.trail.next_id a in
    let added = add_task task s in
    elim (find_task_key a.idempotency_key s.work.tasks) [
      | some existing ↦ (existing, q, s)
      | none ↦ (task, push task.id q, (if a.commits then save added else added))
    ]

-- TaskRecord.state.in_(("queued", "retry", "leased"))
abbrev pub is_open : TaskState → Bool
is_open queued = true
is_open retry = true
is_open leased = true
is_open succeeded = false
is_open dead_letter = false

abbrev pub claimable : ℕ → TaskRecord → Bool
claimable current t =
    is_open t.state && leb t.available_at current && none_or_lt t.lease_expires_at current

-- The row that the query of `claim_task` finds, if any.
abbrev pub claim_query : ℕ → Option TaskRecord → Option TaskRecord
claim_query current none = none
claim_query current (some t) = if claimable current t then some t else none

abbrev pub lease : ℕ → String → ℕ → TaskRecord → TaskRecord
lease current worker seconds t = record t {
  state = leased;
  lease_owner = some worker;
  lease_expires_at = some (current + seconds * 1000000);
  attempts = t.attempts + 1;
}

-- The claim is committed.
unfoldable pub claim_task : ℕ → ℕ → String → ℕ → TaskSession → Option TaskRecord × TaskSession
claim_task current id worker seconds s = elim (claim_query current (find_task id s.work.tasks)) [
  | none ↦ (none, s)
  | some t ↦ (
    some (lease current worker seconds t),
    save (set_tasks (modify_task id (lease current worker seconds) s.work.tasks) s),
  )
]
