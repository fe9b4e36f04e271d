-- ===== src/TaskQueue/Settled.antt =====
-- What `recover_stale_workers` leaves: no lease of a stale worker and none that has run out; and the
-- claim of a task that it has taken back.
use dse_auto.Common.{
  ℕ, ◌-◌, ◌*◌, ◌≤◌, ◌<◌, ◌≡◌, ◌≢◌, refl, sym, ap, ◌∙◌, ◌⊎◌, Bool, true, false, ◌||◌, Option, some,
  List, [], ◌∷◌, String, str_eq, eq_iff, arith, All, Bool-cases, inl, inr, any, keep, map, if_rule,
}
use dse_auto.Store.Rows.{opt_lt}
use dse_auto.TaskQueue.{
  find_task, claim_task, leased, TaskRecord, WorkerHeartbeat, TaskSession, starting, running, stale,
}
use dse_auto.TaskQueue.Leases.{IsLeased, recovered_claim}
use dse_auto.TaskQueue.Recover.{
  recover_stale_workers, recover_task, release, is_abandoned, stale_workers, is_stale, mark_stale,
  owned_by, is_active,
}

-- A worker that counts as alive, though its last heartbeat is before the limit.
abbrev pub IsSilent : ℕ → WorkerHeartbeat → Type 0
IsSilent before h = ((h.state ≡ starting) ⊎ (h.state ≡ running)) × (h.heartbeat_at < before)

-- The row is not leased to a silent worker, and its lease runs until the time at least.
abbrev pub IsHeld : ℕ → ℕ → List WorkerHeartbeat → TaskRecord → Type 0
IsHeld current before hs t =
    t.state ≡ leased
    → All (λ h. IsSilent before h → t.lease_owner ≢ some h.worker_id) hs
      × ((n : ℕ) → t.lease_expires_at ≡ some n → current ≤ n)

silent-stale : (before : ℕ) (h : WorkerHeartbeat) → IsSilent before h → is_stale before h ≡ true
silent-stale before h (inl e, late) = ground (arith, ap is_active e)
silent-stale before h (inr e, late) = ground (arith, ap is_active e)

named :
    (ids : List String) (o : Option String) (w : String)
    → owned_by ids o ≡ false
    → o ≡ some w
    → any (λ id. str_eq id w) ids ≡ false
named ids o w h e = sym (ap (owned_by ids) e) ∙ h

-- The owner of a row that is kept is none of the stale workers.
not-IsSilent :
    (before : ℕ) (o : Option String) (hs : List WorkerHeartbeat)
    → owned_by (stale_workers before hs) o ≡ false
    → All (λ h. IsSilent before h → o ≢ some h.worker_id) hs
not-IsSilent before o hs h = each hs (λ w e. named (stale_workers before hs) o w h e)
  where
    Missing : List WorkerHeartbeat → Type 0
    Missing l =
        (w : String) → o ≡ some w → any (λ id. str_eq id w) (map (λ x. x.worker_id) l) ≡ false

    each :
        (l : List WorkerHeartbeat)
        → Missing (keep (is_stale before) l)
        → All (λ x. IsSilent before x → o ≢ some x.worker_id) l
    each [] = λ _. tt
    each (x ∷ xs) =
        if_rule (λ l. Missing l → All (λ y. IsSilent before y → o ≢ some y.worker_id) (x ∷ xs))
          (is_stale before x) (x ∷ keep (is_stale before) xs) (keep (is_stale before) xs)
          (λ gone m. (λ silent e. own _ (m x.worker_id e), each xs (λ w e. others _ _ (m w e))))
          (λ alive m. ((λ silent e. two alive (silent-stale before x silent)), each xs m))
      where
        own : (b : Bool) → (str_eq x.worker_id x.worker_id || b) ≡ false → ⊥
        own b h = ground (arith, (eq_iff x.worker_id x.worker_id).1 refl)

        others : (a b : Bool) → (a || b) ≡ false → b ≡ false
        others a b h = ground arith

        two : {b : Bool} → b ≡ false → b ≡ true → ⊥
        two f t = ground arith

module _ (current before : ℕ) (hs : List WorkerHeartbeat) where
  kept-IsHeld :
      (t : TaskRecord)
      → is_abandoned current (stale_workers before hs) t ≡ false
      → IsHeld current before hs t
  kept-IsHeld t h state = (
    not-IsSilent before t.lease_owner hs (ground (arith, state)),
    λ n e. in_time n (sym (ap (λ o. opt_lt o current) e) ∙ unexpired),
  )
    where
      unexpired : opt_lt t.lease_expires_at current ≡ false
      unexpired = ground (arith, state)

      in_time : (n : ℕ) → opt_lt (some n) current ≡ false → current ≤ n
      in_time n k = ground arith

  recover_task-IsHeld :
      (t : TaskRecord) → IsHeld current before hs (recover_task current (stale_workers before hs) t)
  recover_task-IsHeld t =
      if_rule (IsHeld current before hs) (is_abandoned current (stale_workers before hs) t)
        (release current t) t (λ _ state. absurd (cc)) (λ held. kept-IsHeld t held)

  All-IsHeld :
      (ts : List TaskRecord)
      → All (IsHeld current before hs) (map (recover_task current (stale_workers before hs)) ts)
  All-IsHeld [] = tt
  All-IsHeld (t ∷ ts) = (recover_task-IsHeld t, All-IsHeld ts)

mark_stale-alive : (before : ℕ) (h : WorkerHeartbeat) → IsSilent before (mark_stale before h) → ⊥
mark_stale-alive before h =
    if_rule (λ x. IsSilent before x → ⊥) (is_stale before h) (record h { state = stale }) h
      (λ _ silent. gone silent.0) (λ alive silent. two alive (silent-stale before h silent))
  where
    gone : (stale ≡ starting) ⊎ (stale ≡ running) → ⊥
    gone (inl e) = cc
    gone (inr e) = cc

    two : {b : Bool} → b ≡ false → b ≡ true → ⊥
    two f t = ground arith

All-alive :
    (before : ℕ) (hs : List WorkerHeartbeat)
    → All (λ h. IsSilent before h → ⊥) (map (mark_stale before) hs)
All-alive before [] = tt
All-alive before (h ∷ hs) = (mark_stale-alive before h, All-alive before hs)

-- After `recover_stale_workers` no task is leased to a worker that was starting or running with its
-- last heartbeat before the limit, no leased task has a lease that ended before the present, and no
-- worker counts as alive with a heartbeat before the limit; and this is committed.
pub recover_stale_workers-settles :
    (stale_after current : ℕ) (s : TaskSession)
    → All
        (IsHeld current (current - stale_after * 1000000) s.work.heartbeats)
        (recover_stale_workers stale_after current s).1.durable.tasks
      × All
          (λ h. IsSilent (current - stale_after * 1000000) h → ⊥)
          (recover_stale_workers stale_after current s).1.durable.heartbeats
unfolding recover_stale_workers
recover_stale_workers-settles stale_after current s = (
  All-IsHeld current (current - stale_after * 1000000) s.work.heartbeats s.work.tasks,
  All-alive (current - stale_after * 1000000) s.work.heartbeats,
)

-- A task that was leased to a worker that was starting or running with its last heartbeat before the
-- limit, or under a lease that ended before the present, may be claimed at once after
-- `recover_stale_workers`: the claim returns its row, leased by the new worker until the end of the new
-- lease, with one attempt more than before.
pub recover_stale_workers-claim :
    (stale_after current id seconds : ℕ) (w : String) (s : TaskSession) {t : TaskRecord}
    → find_task id s.work.tasks ≡ some t
    → (IsHeld current (current - stale_after * 1000000) s.work.heartbeats t → ⊥)
    → (r : TaskRecord) × ((claim_task current id w seconds
          (recover_stale_workers stale_after current s).1).0
        ≡ some r)
      × IsLeased current seconds w t r
unfolding recover_stale_workers
recover_stale_workers-claim stale_after current id seconds w s {t} found lost =
    elim (Bool-cases (is_abandoned current ids t)) [
      | inl gone ↦ recovered_claim stale_after current id seconds w s found gone
      | inr stays ↦
          absurd
            (lost (kept-IsHeld current (current - stale_after * 1000000) s.work.heartbeats t stays))
    ]
  where
    ids : List String
    ids = stale_workers (current - stale_after * 1000000) s.work.heartbeats
