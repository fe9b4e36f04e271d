-- ===== src/TaskQueue/Leases.antt =====
-- Claims of a task while its lease runs, and after a recovery.
use dse_auto.Common.{
  ℕ, ◌+◌, ◌-◌, ◌*◌, ◌≤◌, ◌≡◌, refl, sym, ◌⊎◌, ap, ◌∙◌, true, false, Option, none, some, List, [],
  ◌∷◌, String, arith, Bool-cases, inl, inr, map, ==_iff, if◌then◌else◌, if_rule, ◌==◌,
}
use mathlib.Core.Path.{subst}
use dse_auto.TaskQueue.{
  leased, TaskRecord, TaskSession, save, set_tasks, find_task, modify_task, claimable, lease,
  claim_task,
}
use dse_auto.TaskQueue.Recover.{
  recover_stale_workers, recover_task, release, is_abandoned, stale_workers,
}

-- A lookup finds the first row, or goes past it.
find_task-cases :
    (id : ℕ) (x : TaskRecord) (xs : List TaskRecord) {t : TaskRecord}
    → find_task id (x ∷ xs) ≡ some t
    → (((x.id == id) ≡ true) × (x ≡ t)) ⊎ (((x.id == id) ≡ false) × (find_task id xs ≡ some t))
find_task-cases id x xs {t} h = elim (Bool-cases (x.id == id)) [
  | inl here ↦
      inl (here, unwrap (subst (λ b. (if b then some x else find_task id xs) ≡ some t) here h))
  | inr there ↦ inr (there, subst (λ b. (if b then some x else find_task id xs) ≡ some t) there h)
]
  where
    unwrap : some x ≡ some t → x ≡ t
    unwrap e = ground arith

-- A row of the given identifier stands in front.
find_task-here :
    (id : ℕ) (x : TaskRecord) (xs : List TaskRecord)
    → (x.id == id) ≡ true
    → find_task id (x ∷ xs) ≡ some x
find_task-here id x xs here = rw here refl

find_task-there :
    (id : ℕ) (x : TaskRecord) (xs : List TaskRecord)
    → (x.id == id) ≡ false
    → find_task id (x ∷ xs) ≡ find_task id xs
find_task-there id x xs there = rw there refl

pub find_task-id :
    (id : ℕ) (ts : List TaskRecord) {t : TaskRecord} → find_task id ts ≡ some t → t.id ≡ id
find_task-id id [] h = absurd (ground arith)
find_task-id id (x ∷ xs) {t} h = elim (find_task-cases id x xs h) [
  | inl (here, e) ↦ sym (ap (λ (r : TaskRecord). r.id) e) ∙ (==_iff x.id id).0 here
  | inr (there, e) ↦ find_task-id id xs e
]

-- A change of the rows that keeps the identifiers changes what a lookup finds.
find_task-map :
    (id : ℕ) (f : TaskRecord → TaskRecord) (ts : List TaskRecord) {t : TaskRecord}
    → ((r : TaskRecord) → (f r).id ≡ r.id)
    → find_task id ts ≡ some t
    → find_task id (map f ts) ≡ some (f t)
find_task-map id f [] same h = absurd (ground arith)
find_task-map id f (x ∷ xs) same h = elim (find_task-cases id x xs h) [
  | inl (here, e) ↦
      find_task-here id (f x) (map f xs) (ap (λ n. n == id) (same x) ∙ here)
      ∙ ap (λ r. some (f r)) e
  | inr (there, e) ↦
      find_task-there id (f x) (map f xs) (ap (λ n. n == id) (same x) ∙ there)
      ∙ find_task-map id f xs same e
]

pub find_task-modify :
    (id : ℕ) (f : TaskRecord → TaskRecord) (ts : List TaskRecord) {t : TaskRecord}
    → ((r : TaskRecord) → (f r).id ≡ r.id)
    → find_task id ts ≡ some t
    → find_task id (modify_task id f ts) ≡ some (f t)
find_task-modify id f [] same h = absurd (ground arith)
find_task-modify id f (x ∷ xs) {t} same h = elim (find_task-cases id x xs h) [
  | inl (here, e) ↦
      ap (λ b. find_task id ((if b then f x else x) ∷ modify_task id f xs)) here
      ∙ find_task-here id (f x) (modify_task id f xs) (ap (λ n. n == id) (same x) ∙ here)
      ∙ ap (λ r. some (f r)) e
  | inr (there, e) ↦
      ap (λ b. find_task id ((if b then f x else x) ∷ modify_task id f xs)) there
      ∙ find_task-there id x (modify_task id f xs) there
      ∙ find_task-modify id f xs same e
]

-- A claim of a row that may be claimed.
pub claim_found :
    (current id seconds : ℕ) (w : String) (s : TaskSession) {t : TaskRecord}
    → find_task id s.work.tasks ≡ some t
    → claimable current t ≡ true
    → claim_task current id w seconds s ≡ (
      some (lease current w seconds t),
      save (set_tasks (modify_task id (lease current w seconds) s.work.tasks) s),
    )
unfolding claim_task
claim_found current id seconds w s found may = rw (found, may, claim_task) refl

-- A claim of a row that may not be claimed.
pub claim_refused :
    (current id seconds : ℕ) (w : String) (s : TaskSession) {t : TaskRecord}
    → find_task id s.work.tasks ≡ some t
    → claimable current t ≡ false
    → claim_task current id w seconds s ≡ (none, s)
unfolding claim_task
claim_refused current id seconds w s found not_now = rw (found, not_now, claim_task) refl

lease-claimable :
    (current later seconds : ℕ) (w : String) (t : TaskRecord)
    → later ≤ current + seconds * 1000000
    → claimable later (lease current w seconds t) ≡ false
lease-claimable current later seconds w t in_time = ground arith

-- The row after a claim: leased by the worker until the end of the lease, with one attempt more.
pub record IsLeased (current seconds : ℕ) (w : String) (t r : TaskRecord) : Type 0 where
  pub identity : r.id ≡ t.id
  pub state : r.state ≡ leased
  pub owner : r.lease_owner ≡ some w
  pub expires : r.lease_expires_at ≡ some (current + seconds * 1000000)
  pub counted : r.attempts ≡ t.attempts + 1

lease-IsLeased :
    (current seconds : ℕ) (w : String) (t : TaskRecord)
    → IsLeased current seconds w t (lease current w seconds t)
lease-IsLeased current seconds w t = record {
  identity = refl;
  state = refl;
  owner = refl;
  expires = refl;
  counted = refl;
}

-- Where the task of an identifier may be claimed, `claim_task` returns its row, leased by the worker
-- until the end of the lease and with one attempt more, and the row is committed; and up to the end of the lease every further claim of it, by any worker, finds nothing
-- and leaves the session as it is.
pub claim_task-exclusive :
    (current later id seconds seconds' : ℕ) (w w' : String) (s : TaskSession) {t : TaskRecord}
    → find_task id s.work.tasks ≡ some t
    → claimable current t ≡ true
    → later ≤ current + seconds * 1000000
    → ((r : TaskRecord) × ((claim_task current id w seconds s).0 ≡ some r)
        × (find_task id (claim_task current id w seconds s).1.durable.tasks ≡ some r)
        × IsLeased current seconds w t r)
      × (claim_task later id w' seconds' (claim_task current id w seconds s).1
          ≡ (none, (claim_task current id w seconds s).1))
claim_task-exclusive current later id seconds seconds' w w' s {t} found may in_time =
    subst
      (λ (r : Option TaskRecord × TaskSession).
        ((l : TaskRecord) × (r.0 ≡ some l)
          × (find_task id r.1.durable.tasks ≡ some l)
          × IsLeased current seconds w t l)
        × (claim_task later id w' seconds' r.1 ≡ (none, r.1)))
      (sym (claim_found current id seconds w s found may))
      (
        (lease current w seconds t, refl, now_leased, lease-IsLeased current seconds w t),
        claim_refused later id seconds' w' _ now_leased
            (lease-claimable current later seconds w t in_time),
      )
  where
    now_leased :
        find_task id (modify_task id (lease current w seconds) s.work.tasks)
        ≡ some (lease current w seconds t)
    now_leased = find_task-modify id (lease current w seconds) s.work.tasks (λ r. refl) found

recover_task-id :
    (current : ℕ) (ids : List String) (t : TaskRecord) → (recover_task current ids t).id ≡ t.id
recover_task-id current ids t =
    if_rule (λ (r : TaskRecord). r.id ≡ t.id) (is_abandoned current ids t) _ _ (λ _. refl)
      (λ _. refl)

-- The claim of a task that the recovery has released.
pub recovered_claim :
    (stale_after current id seconds : ℕ) (w : String) (s : TaskSession) {t : TaskRecord}
    → find_task id s.work.tasks ≡ some t
    → is_abandoned current (recover_stale_workers stale_after current s).0 t ≡ true
    → (r : TaskRecord) × ((claim_task current id w seconds
          (recover_stale_workers stale_after current s).1).0
        ≡ some r)
      × IsLeased current seconds w t r
unfolding recover_stale_workers
recovered_claim stale_after current id seconds w s {t} found gone = (
  lease current w seconds (release current t),
  ap (λ (r : Option TaskRecord × TaskSession). r.0)
      (claim_found current id seconds w _ released (ground arith)),
  record { identity = refl; state = refl; owner = refl; expires = refl; counted = refl },
)
  where
    ids : List String
    ids = stale_workers (current - stale_after * 1000000) s.work.heartbeats

    released : find_task id (map (recover_task current ids) s.work.tasks) ≡ some (release current t)
    released =
        find_task-map id (recover_task current ids) s.work.tasks (recover_task-id current ids) found
        ∙ ap some (ap (λ b. if b then release current t else t) gone)
