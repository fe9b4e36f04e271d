-- ===== src/Examples/Runs.antt =====
-- Paper sessions.
use dse_auto.Common.{ℕ, refl, none, some, [], ◌∷◌}
use dse_auto.Common.Int.{pos}
use dse_auto.Common.Keys.{obj, done}
use dse_auto.Sessions.{
  SessionState, running, configured, completed, PaperSession, SessionTables, SessionDb,
  transition_session,
}
use dse_auto.Sessions.Single.{IsSingle, transition_session-IsSingle}
use dse_auto.Examples.Samples.{env0, chain0, tables_with}

abbrev session_in : ℕ → SessionState → PaperSession
session_in id state = record {
  id = id;
  name = "session";
  account_id = 1;
  state = state;
  starting_cash = pos 10000000;
  approved_universe = "GP" ∷ [];
  strategies = [];
  risk_profile = obj done;
  fill_model = "pessimistic";
  started_at = none;
  stopped_at = none;
  heartbeat_at = some 1;
  market_rule_set_id = none;
  fee_profile_id = none;
}

-- A running session, a new one and a completed one on one account.
abbrev sessions0 : SessionDb
sessions0 =
    let t : SessionTables = record {
      sessions = session_in 1 running ∷ session_in 2 configured ∷ session_in 3 completed ∷ [];
      runs = [];
      rest = tables_with (some chain0) [] [];
    } in
    record { work = t; durable = t }

single0 : IsSingle sessions0.work.sessions
single0 = ((refl, (refl, tt)), ((refl, tt), (tt, tt)))

transition_session-IsSingle_example :
    IsSingle
      (transition_session env0 5
        (session_in 1 running)
        completed
        "done"
        "operator"
        sessions0).1.work.sessions
transition_session-IsSingle_example =
    transition_session-IsSingle env0 5 (session_in 1 running) completed "done" "operator" sessions0
      single0
