-- ===== src/Security.antt =====
-- backend/app/core/security.py: principals, their sessions and the throttle of logins.
-- `hashlib.sha256` and `secrets.token_urlsafe` are outside the repository: the digest is a parameter,
-- and so is the token that is drawn. Times are in microseconds.
pub mod Tokens
use dse_auto.Common.{
  ℕ, ◌+◌, ◌-◌, ◌*◌, Bool, true, false, not, ◌&&◌, ◌||◌, Option, none, some, List, [], ◌∷◌, ◌++◌,
  String, str_eq, ltb, leb, ◌==◌, count_if, if◌then◌else◌, is_none, Result, ok, raise, value_error,
  permission_error, http_error, other_error, all,
}
use dse_auto.Common.Text.{Text, strip, text_eq}

pub record Principal : Type 0 where
  pub actor : String
  pub role : String
  pub session_id : Option ℕ

pub record AuthSession : Type 0 where
  pub id : ℕ
  pub token_hash : String
  pub role : String
  pub actor : String
  pub expires_at : ℕ
  pub revoked_at : Option ℕ
  pub created_at : ℕ

pub record LoginAttempt : Type 0 where
  pub id : ℕ
  pub fingerprint : String
  pub role : String
  pub succeeded : Bool
  pub attempted_at : ℕ

pub record AuthTables : Type 0 where
  pub sessions : List AuthSession
  pub attempts : List LoginAttempt
  pub next_id : ℕ

pub record AuthDb : Type 0 where
  pub work : AuthTables
  pub durable : AuthTables

-- db.commit() of tables
abbrev pub stored : AuthTables → AuthDb
stored t = record { work = t; durable = t }

-- The settings that the module reads.
pub record Settings : Type 0 where
  pub api_secret_key : Text
  pub reviewer_api_secret_key : Text
  pub session_ttl_seconds : ℕ
  pub login_max_attempts : ℕ
  pub login_window_seconds : ℕ

-- `_token_hash`
abbrev pub Digest : Type 0
Digest = Text → String

-- Whether a text is not empty.
abbrev pub is_given : Text → Bool
is_given [] = false
is_given (c ∷ cs) = true

-- The letters of "bearer ", each in either case.
abbrev pub bearer_prefix : List (ℕ × ℕ)
bearer_prefix = (98, 66) ∷ (101, 69) ∷ (97, 65) ∷ (114, 82) ∷ (101, 69) ∷ (114, 82) ∷ (32, 32) ∷ []

-- What follows a prefix, where the text has it.
abbrev pub after_prefix : List (ℕ × ℕ) → Text → Option Text
after_prefix [] cs = some cs
after_prefix ((lower, upper) ∷ rest) [] = none
after_prefix ((lower, upper) ∷ rest) (c ∷ cs) =
    let found = after_prefix rest cs in if c == lower || c == upper then found else none

abbrev pub find_session : String → List AuthSession → Option AuthSession
find_session hash [] = none
find_session hash (s ∷ ss) = if str_eq s.token_hash hash then some s else find_session hash ss

abbrev pub is_valid : ℕ → AuthSession → Bool
is_valid now s = is_none s.revoked_at && ltb now s.expires_at

abbrev pub unauthorized : Result Principal
unauthorized = raise (http_error 401 "Invalid credentials")

abbrev pub session_principal : ℕ → Option AuthSession → Result Principal
session_principal now none = unauthorized
session_principal now (some s) =
    if is_valid now s
    then ok (record { actor = s.actor; role = s.role; session_id = some s.id })
    else unauthorized

abbrev pub bearer_principal : Digest → ℕ → Option Text → List AuthSession → Result Principal
bearer_principal hash now none ss = unauthorized
bearer_principal hash now (some token) ss =
    session_principal now (find_session (hash (strip token)) ss)

-- Whether hmac.compare_digest takes a text: it raises TypeError on other letters than ASCII.
abbrev pub is_ascii : Text → Bool
is_ascii t = all (λ c. ltb c 128) t

-- hmac.compare_digest of two texts
abbrev pub compare_digest : Text → Text → Result Bool
compare_digest a b = if is_ascii a && is_ascii b then ok (text_eq a b) else raise other_error

-- The principal of a key that agrees, and what follows for one that does not.
abbrev pub key_principal : Principal → Result Principal → Result Bool → Result Principal
key_principal p rest (raise e) = raise e
key_principal p rest (ok b) = if b then ok p else rest

abbrev pub operator_principal : Principal
operator_principal = record { actor = "operator-api-key"; role = "operator"; session_id = none }

abbrev pub reviewer_principal : Principal
reviewer_principal = record { actor = "reviewer-api-key"; role = "reviewer"; session_id = none }

-- `_principal`
unfoldable pub principal : Settings → Digest → ℕ → Text → Text → AuthTables → Result Principal
principal settings hash now api_key authorization t =
    let by_token =
      bearer_principal hash now (after_prefix bearer_prefix authorization) t.sessions in
    let by_reviewer =
      key_principal reviewer_principal by_token
        (compare_digest api_key settings.reviewer_api_secret_key) in
    if is_given api_key
    then key_principal operator_principal by_reviewer
        (compare_digest api_key settings.api_secret_key)
    else by_token

abbrev pub with_role : (String → Bool) → String → Result Principal → Result Principal
with_role allowed detail (raise e) = raise e
with_role allowed detail (ok p) = if allowed p.role then ok p else raise (http_error 403 detail)

unfoldable pub require_operator :
    Settings → Digest → ℕ → Text → Text → AuthTables → Result Principal
unfolding principal
require_operator settings hash now api_key authorization t =
    with_role (λ role. str_eq role "operator") "Operator role required"
      (principal settings hash now api_key authorization t)

unfoldable pub require_reviewer :
    Settings → Digest → ℕ → Text → Text → AuthTables → Result Principal
unfolding principal
require_reviewer settings hash now api_key authorization t =
    with_role (λ role. str_eq role "operator" || str_eq role "reviewer") "Reviewer role required"
      (principal settings hash now api_key authorization t)

-- The failed attempts of a fingerprint in the window.
abbrev pub is_recent_failure : String → ℕ → LoginAttempt → Bool
is_recent_failure fingerprint since a =
    str_eq a.fingerprint fingerprint && not a.succeeded && leb since a.attempted_at

abbrev pub recent_failures : Settings → ℕ → String → List LoginAttempt → ℕ
recent_failures settings now fingerprint attempts =
    count_if (is_recent_failure fingerprint (now - settings.login_window_seconds * 1000000))
      attempts

abbrev pub attempt_row : ℕ → ℕ → String → String → Bool → LoginAttempt
attempt_row id now fingerprint role succeeded = record {
  id = id;
  fingerprint = fingerprint;
  role = role;
  succeeded = succeeded;
  attempted_at = now;
}

abbrev pub add_attempt : ℕ → String → String → Bool → AuthTables → AuthTables
add_attempt now fingerprint role succeeded t = record {
  sessions = t.sessions;
  attempts = t.attempts ++ attempt_row t.next_id now fingerprint role succeeded ∷ [];
  next_id = t.next_id + 1;
}

abbrev pub session_row : Settings → ℕ → ℕ → String → String → String → AuthSession
session_row settings id now token_hash role actor = record {
  id = id;
  token_hash = token_hash;
  role = role;
  actor = actor;
  expires_at = now + settings.session_ttl_seconds * 1000000;
  revoked_at = none;
  created_at = now;
}

abbrev pub add_session : AuthSession → AuthTables → AuthTables
add_session s t = record {
  sessions = t.sessions ++ s ∷ [];
  attempts = t.attempts;
  next_id = t.next_id + 1;
}

-- settings.API_SECRET_KEY if role == "operator" else settings.REVIEWER_API_SECRET_KEY
abbrev pub expected_key : Settings → String → Text
expected_key settings role =
    if str_eq role "operator" then settings.api_secret_key else settings.reviewer_api_secret_key

-- What a caller supplies.
pub record Login : Type 0 where
  pub role : String
  pub supplied_key : Text
  pub actor : String
  pub fingerprint : Text

-- After the comparison of the keys: nothing is written where it raises.
abbrev pub login_compared :
    Settings
    → Digest
    → ℕ
    → Text
    → Login
    → AuthDb
    → Result Bool
    → Result (Text × AuthSession) × AuthDb
login_compared settings hash now token a db (raise e) = (raise e, db)
login_compared settings hash now token a db (ok succeeded) =
    let t = db.work in
    let fingerprint = hash a.fingerprint in
    let session = session_row settings (t.next_id + 1) now (hash token) a.role a.actor in
    if succeeded
    then (
      ok (token, session),
      stored (add_session session (add_attempt now fingerprint a.role true t)),
    )
    else (
      raise (permission_error "Invalid credentials"),
      stored (add_attempt now fingerprint a.role false t),
    )

unfoldable pub authenticate_and_create_session :
    Settings → Digest → ℕ → Text → Login → AuthDb → Result (Text × AuthSession) × AuthDb
authenticate_and_create_session settings hash now token a db =
    let compared =
      login_compared settings hash now token a db
        (compare_digest a.supplied_key (expected_key settings a.role)) in
    if not (str_eq a.role "operator" || str_eq a.role "reviewer")
    then (raise (value_error "Unknown authentication role"), db)
    else if leb settings.login_max_attempts
        (recent_failures settings now (hash a.fingerprint) db.work.attempts)
    then (raise (permission_error "Login throttled"), db)
    else compared
