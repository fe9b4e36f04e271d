-- ===== src/Recovery/Recovered.antt =====
-- The tables after the whole startup recovery.
use dse_auto.Common.{ℕ, ◌≡◌, false, true, All, Result, ok, raise, arith}
use dse_auto.Store.{Session}
use dse_auto.Env.{Env}
use dse_auto.Campaigns.Restart.{CampaignDb, recover_campaigns_after_restart}
use dse_auto.Campaigns.Restarted.{IsFlagged, recover_campaigns_after_restart-IsFlagged}
use dse_auto.Common.{is_ok}
use dse_auto.Sessions.{recover_stale_sessions}
use dse_auto.Recovery.{is_in_market}
use dse_auto.Recovery.Outcome.{IsSettled, is_healthy, switch, recover_books-healthy_iff}
use dse_auto.Recovery.Startup.{
  session_db, with_sessions, core_session, recover_rest, run_startup_recovery,
}

-- What a run that ends leaves.
pub record IsRecovered (now as_of : ℕ) (db : CampaignDb) : Type 0 where
  pub flagged : All (IsFlagged as_of db.governance.durable.days) db.governance.durable.campaigns
  pub settled : All (IsSettled now) (core_session db.governance).work.books.orders
  pub quiet :
      is_healthy (switch (core_session db.governance)) ≡ true
      → All (λ o. is_in_market o.status ≡ false) (core_session db.governance).work.books.orders

rest-IsRecovered :
    (env : Env) (now as_of : ℕ) (r : Result ℕ) (db : CampaignDb)
    → is_ok (recover_rest env now as_of r db).0 ≡ true
    → IsRecovered now as_of (recover_rest env now as_of r db).1
unfolding recover_rest
rest-IsRecovered env now as_of (raise e) db h = absurd (ground arith)
rest-IsRecovered env now as_of (ok n) db h = record {
  flagged = recover_campaigns_after_restart-IsFlagged env now as_of db;
  settled = (recover_books-healthy_iff env now before).0;
  quiet = λ healthy. ((recover_books-healthy_iff env now before).1.0 healthy).1;
}
  where
    before : Session
    before = core_session (recover_campaigns_after_restart env now as_of db).1.governance

-- Where the startup recovery returns, every campaign of the committed tables that controls its account
-- and has, before the date, a day that was begun and not completed requires reconciliation; no order
-- is proposed or awaits approval, and none that is unfinished is past its time; and if the kill switch
-- is healthy, no order is submitted or partially filled.
pub run_startup_recovery-IsRecovered :
    (env : Env) (now stale_after as_of : ℕ) (db : CampaignDb)
    → is_ok (run_startup_recovery env now stale_after as_of db).0 ≡ true
    → IsRecovered now as_of (run_startup_recovery env now stale_after as_of db).1
unfolding run_startup_recovery
run_startup_recovery-IsRecovered env now stale_after as_of db h =
    rest-IsRecovered env now as_of
      (recover_stale_sessions env now stale_after (session_db db.governance)).0
      (with_sessions (recover_stale_sessions env now stale_after (session_db db.governance)).1 db) h
