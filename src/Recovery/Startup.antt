-- ===== src/Recovery/Startup.antt =====
-- The whole of `run_startup_recovery`: the sessions, the campaigns, and then the orders, the cash and
-- the kill switch. It starts in a new session, in which nothing is uncommitted.
use dse_auto.Common.{ℕ, Result, ok, raise}
use dse_auto.Store.{Session}
use dse_auto.Env.{Env}
use dse_auto.Governance.{GovernanceDb, set_core}
use dse_auto.Sessions.{SessionDb, recover_stale_sessions}
use dse_auto.Campaigns.Restart.{
  CampaignDb, with_rest, recover_campaigns_after_restart, set_governance,
}
use dse_auto.Recovery.{recover_books}

-- The sessions of the paper accounts, and the tables as that part leaves them.
abbrev pub session_db : GovernanceDb → SessionDb
session_db g = record { work = g.work.core; durable = g.durable.core }

abbrev pub with_sessions : SessionDb → CampaignDb → CampaignDb
with_sessions s db =
    set_governance
      (record {
        work = set_core s.work db.governance.work;
        durable = set_core s.durable db.governance.durable;
      })
      db

-- The tables of the trading core, and the rest as a session of theirs leaves it.
abbrev pub core_session : GovernanceDb → Session
core_session g = record { work = g.work.core.rest; durable = g.durable.core.rest }

abbrev pub with_core : Session → CampaignDb → CampaignDb
with_core s db =
    set_governance
      (record {
        work = with_rest s db.governance.work;
        durable =
            with_rest (record { work = s.durable; durable = s.durable }) db.governance.durable;
      })
      db

-- After the recovery of sessions.
unfoldable pub recover_rest : Env → ℕ → ℕ → Result ℕ → CampaignDb → Result (Unit {0}) × CampaignDb
recover_rest env now as_of (raise e) db = (raise e, db)
recover_rest env now as_of (ok n) db =
    let db' = (recover_campaigns_after_restart env now as_of db).1 in
    (ok tt, with_core (recover_books env now (core_session db'.governance)) db')

unfoldable pub run_startup_recovery : Env → ℕ → ℕ → ℕ → CampaignDb → Result (Unit {0}) × CampaignDb
unfolding recover_rest
run_startup_recovery env now stale_after as_of db =
    let (r, s) = recover_stale_sessions env now stale_after (session_db db.governance) in
    recover_rest env now as_of r (with_sessions s db)
