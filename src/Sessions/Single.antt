-- ===== src/Sessions/Single.antt =====
-- The active sessions of an account.
use dse_auto.Common.{
  ℕ, ◌≡◌, Bool, false, not, ◌&&◌, List, [], ◌∷◌, String, arith, Bool-cases, inl, inr, if_rule, ◌==◌,
  Result, ok, raise, any,
}
use dse_auto.Common.Single.{IsSingleBy, FitsBy, put-IsSingleBy}
use dse_auto.Env.{Env}
use dse_auto.Sessions.{
  SessionState, PaperSession, SessionDb, is_active, is_rival, moved, transition_session,
  write_transition, may_move, recover_all, recover_stale_sessions, reconciliation_required,
}

abbrev pub session_id : PaperSession → ℕ
session_id s = s.id

-- Two active sessions of one account.
abbrev pub both_active : PaperSession → PaperSession → Bool
both_active x y = x.account_id == y.account_id && is_active x.state && is_active y.state

-- No two rows have one identifier or are active sessions of one account.
abbrev pub IsSingle : List PaperSession → Type 0
IsSingle = IsSingleBy session_id both_active

both_active_comm : (x y : PaperSession) → both_active x y ≡ both_active y x
both_active_comm x y = ground arith

-- The new row clashes with no row but the one that it replaces.
abbrev Fits : PaperSession → List PaperSession → Type 0
Fits = FitsBy session_id both_active

inactive-Fits :
    (now : ℕ) (target : SessionState) (session : PaperSession) (ss : List PaperSession)
    → is_active target ≡ false
    → Fits (moved now target session) ss
inactive-Fits now target session [] idle = tt
inactive-Fits now target session (y ∷ ss) idle =
    (λ other. ground arith, inactive-Fits now target session ss idle)

alone-Fits :
    (now : ℕ) (target : SessionState) (session : PaperSession) (ss : List PaperSession)
    → any (is_rival session) ss ≡ false
    → Fits (moved now target session) ss
alone-Fits now target session [] none_other = tt
alone-Fits now target session (y ∷ ss) none_other =
    (λ other. ground arith, alone-Fits now target session ss (ground arith))

-- Where no two rows of the table have one identifier or are active sessions of one account, the same
-- holds after `transition_session`, whether it moves the session or raises.
pub transition_session-IsSingle :
    (env : Env) (now : ℕ) (session : PaperSession) (target : SessionState) (reason actor : String)
    (db : SessionDb)
    → IsSingle db.work.sessions
    → IsSingle (transition_session env now session target reason actor db).1.work.sessions
unfolding transition_session write_transition
transition_session-IsSingle env now session target reason actor db h =
    if_rule Kept (not (may_move session.state target)) _ _ (λ _. h)
      (λ _.
        if_rule Kept (is_active target && any (is_rival session) db.work.sessions) _ _ (λ _. h)
          (λ free.
            put-IsSingleBy session_id both_active both_active_comm (moved now target session)
              db.work.sessions h (fitting free)))
  where
    Kept : Result PaperSession × SessionDb → Type 0
    Kept r = IsSingle r.1.work.sessions

    fitting :
        (is_active target && any (is_rival session) db.work.sessions) ≡ false
        → Fits (moved now target session) db.work.sessions
    fitting free = elim (Bool-cases (is_active target)) [
      | inl live ↦ alone-Fits now target session db.work.sessions (ground arith)
      | inr idle ↦ inactive-Fits now target session db.work.sessions idle
    ]

recover_all-IsSingle :
    (env : Env) (now : ℕ) (sessions : List PaperSession) (db : SessionDb)
    → IsSingle db.work.sessions
    → IsSingle (recover_all env now sessions db).1.work.sessions
unfolding recover_all
recover_all-IsSingle env now [] db h = h
recover_all-IsSingle env now (session ∷ rest) db h =
    by_result moved_on.0 (recover_all-IsSingle env now rest moved_on.1 kept)
  where
    moved_on : Result PaperSession × SessionDb
    moved_on =
        transition_session env now session reconciliation_required "stale_session_recovered"
          "startup_recovery" db

    kept : IsSingle moved_on.1.work.sessions
    kept =
        transition_session-IsSingle env now session reconciliation_required
          "stale_session_recovered" "startup_recovery" db h

    by_result :
        (r : Result PaperSession)
        → IsSingle (recover_all env now rest moved_on.1).1.work.sessions
        → IsSingle
            (elim r as (λ _. Result (Unit {0}) × SessionDb) [
              | raise e ↦ (raise e, moved_on.1)
              | ok _ ↦ recover_all env now rest moved_on.1
            ]).1.work.sessions
    by_result (raise e) later = kept
    by_result (ok _) later = later

-- Where no two rows of the table have one identifier or are active sessions of one account, the same
-- holds after `recover_stale_sessions`, however it ends.
pub recover_stale_sessions-IsSingle :
    (env : Env) (now stale_after : ℕ) (db : SessionDb)
    → IsSingle db.work.sessions
    → IsSingle (recover_stale_sessions env now stale_after db).1.work.sessions
unfolding recover_stale_sessions
recover_stale_sessions-IsSingle env now stale_after db h = recover_all-IsSingle env now _ db h
