-- ===== src/Env.antt =====
-- Code outside the repository that the core calls: `hashlib.sha256` over `json.dumps`,
-- `model_dump` of Pydantic, and Python's `int` of a text. It is a parameter of every operation that uses it.
use dse_auto.Common.{ℕ, Option, List, String}
use dse_auto.Common.Keys.{Key, Json}
use dse_auto.Store.{AuditEvent}
use dse_auto.Schemas.{OrderProposal, RiskDecision}

-- The payload that `_canonical` gives to `json.dumps`; `generation` holds the two entries that
-- only a canonical chain has.
pub record Canonical : Type 0 where
  pub actor : String
  pub event_type : String
  pub entity_type : String
  pub entity_id : Option Key
  pub previous_state : Option Json
  pub new_state : Option Json
  pub metadata : Json
  pub previous_hash : String
  pub generation : Option (Option ℕ × Option ℕ)

pub record Env : Type 0 where
  -- sha256(json.dumps(payload, sort_keys=True, …).encode()).hexdigest()
  pub sha256 : Canonical → String
  -- proposal.model_dump(mode="json"), as the entries of a dictionary
  pub dump_proposal : OrderProposal → List (String × Json)
  -- decision.model_dump(mode="json")
  pub dump_decision : RiskDecision → Json
  -- sha256(json.dumps(payload, sort_keys=True, …).encode()).hexdigest() of a dictionary
  pub sha256_json : Json → String
  -- the digest of the archive that `initialize_canonical_chain` writes
  pub archive_sha256 : List AuditEvent → String
  -- int() of a text; `none` where it raises ValueError, 0 for a negative number
  pub int_text : Key → Option ℕ
