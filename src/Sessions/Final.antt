-- ===== src/Sessions/Final.antt =====
-- Transitions of a session that is over.
use dse_auto.Common.{ℕ, ◌≡◌, refl, true, false, String, arith, raise, value_error}
use dse_auto.Env.{Env}
use dse_auto.Sessions.{
  SessionState, PaperSession, SessionDb, is_over, transition_session, may_move, configured,
  warming_up, running, paused, degraded, reconciliation_required, stopped, completed, failed,
}

over-still : (a target : SessionState) → is_over a ≡ true → may_move a target ≡ false
over-still stopped target h = refl
over-still completed target h = refl
over-still failed target h = refl
over-still configured target h = absurd (ground arith)
over-still warming_up target h = absurd (ground arith)
over-still running target h = absurd (ground arith)
over-still paused target h = absurd (ground arith)
over-still degraded target h = absurd (ground arith)
over-still reconciliation_required target h = absurd (ground arith)

-- A session that is stopped, completed or failed is moved nowhere: every transition of it raises and
-- leaves the tables as they were.
pub transition_session-over :
    (env : Env) (now : ℕ) (session : PaperSession) (target : SessionState) (reason actor : String)
    (db : SessionDb)
    → is_over session.state ≡ true
    → transition_session env now session target reason actor db
      ≡ (raise (value_error "Invalid paper-session transition"), db)
unfolding transition_session
transition_session-over env now session target reason actor db h =
    rw (over-still session.state target h, transition_session) refl
