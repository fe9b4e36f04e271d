-- ===== src/Sessions/Create.antt =====
-- `create_session`. The tables of rule sets and fee profiles are represented by the identifiers that
-- the two queries find. With an active audit chain `append_audit` has committed before the last
-- commit, which changes nothing.
use Prim.Native.String.{compare}
use Prim.Native.Nat.{Ordering, lt, eq, gt}
use dse_auto.Common.{
  ℕ, ◌+◌, Bool, true, false, not, ◌||◌, Option, none, some, List, [], ◌∷◌, ◌++◌, String, str_eq,
  any, if◌then◌else◌, Result, ok, raise, value_error,
}
use dse_auto.Common.Keys.{Json, num, int, dict, opt_json, str}
use dse_auto.Common.Sorted.{order_by}
use dse_auto.Store.{PaperAccount}
use dse_auto.Env.{Env}
use dse_auto.Audit.{Entry, append_event}
use dse_auto.Broker.Submit.{text_json}
use dse_auto.Sessions.{PaperSession, SessionTables, SessionDb, configured}

abbrev pub is_not_after : Ordering → Bool
is_not_after lt = true
is_not_after eq = true
is_not_after gt = false

-- a <= b on texts
abbrev pub text_le : String → String → Bool
text_le a b = is_not_after (compare a b)

-- set(texts), with the last of equal texts kept
abbrev pub distinct : List String → List String
distinct [] = []
distinct (t ∷ ts) = let rest = distinct ts in if any (λ u. str_eq u t) ts then rest else t ∷ rest

-- sorted(set(texts))
abbrev pub sorted_set : List String → List String
sorted_set ts = order_by text_le (distinct ts)

abbrev pub is_fill_model : String → Bool
is_fill_model m = str_eq m "pessimistic" || str_eq m "balanced" || str_eq m "optimistic"

-- The arguments of `create_session`, and what its two queries find.
pub record SessionArgs : Type 0 where
  pub name : String
  pub universe : List String
  pub strategies : List String
  pub risk_profile : Json
  pub fill_model : String
  pub account_id : ℕ
  pub market_rule_set_id : Option ℕ
  pub fee_profile_id : Option ℕ

abbrev pub new_session : ℕ → SessionArgs → PaperAccount → PaperSession
new_session id a account = record {
  id = id;
  name = a.name;
  account_id = a.account_id;
  state = configured;
  starting_cash = account.cash;
  approved_universe = sorted_set a.universe;
  strategies = sorted_set a.strategies;
  risk_profile = a.risk_profile;
  fill_model = a.fill_model;
  started_at = none;
  stopped_at = none;
  heartbeat_at = none;
  market_rule_set_id = a.market_rule_set_id;
  fee_profile_id = a.fee_profile_id;
}

-- The identifier of the row is still missing when the audit record is written: it is a default that
-- the flush sets.
abbrev pub configured_entry : SessionArgs → Entry
configured_entry a = record {
  actor = "operator";
  event_type = "paper_session.configured";
  entity_type = "paper_session";
  entity_id = none;
  previous_state = none;
  new_state = some (
      dict (
        ("name", text_json a.name)
        ∷ ("account_id", int a.account_id)
        ∷ ("fill_model", text_json a.fill_model)
        ∷ ("market_rule_set_id", opt_json (λ id. str (num id ∷ [])) a.market_rule_set_id)
        ∷ ("fee_profile_id", opt_json (λ id. str (num id ∷ [])) a.fee_profile_id)
        ∷ []));
  metadata = none;
}

unfoldable pub write_session : Env → ℕ → SessionArgs → PaperAccount → SessionTables → SessionTables
write_session env now a account t =
    let id = t.rest.trail.next_id in
    record {
      sessions = t.sessions ++ new_session id a account ∷ [];
      runs = t.runs;
      rest = record t.rest {
        trail =
            append_event env now (configured_entry a) (record t.rest.trail { next_id = id + 1 });
      };
    }

unfoldable pub create_session : Env → ℕ → SessionArgs → SessionDb → Result PaperSession × SessionDb
unfolding write_session
create_session env now a db =
    if not (is_fill_model a.fill_model)
    then (raise (value_error "Unknown fill model"), db)
    else elim (db.work.rest.books.accounts a.account_id) [
      | none ↦ (raise (value_error "Paper account is not initialized"), db)
      | some account ↦
          (let t = write_session env now a account db.work in
            (
              ok (new_session db.work.rest.trail.next_id a account),
              record { work = t; durable = t },
            ))
    ]
