-- ===== src/Security/Tokens.antt =====
-- The tokens of the sessions.
use dse_auto.Common.{
  ℕ, ◌+◌, ◌*◌, ◌≡◌, refl, sym, ap, ◌∙◌, true, not, ◌&&◌, ◌||◌, Option, none, some, List, [], ◌∷◌,
  ◌++◌, str_eq, ltb, leb, arith, if_rule, if◌then◌else◌, Result, ok, raise, false, Bool, is_none,
}
use mathlib.Core.Path.{subst}
use text.Mathlib.TextPositions.{eq_refl}
use dse_auto.Common.Text.{Text, strip}
use dse_auto.Security.{
  Principal, AuthSession, AuthTables, AuthDb, Settings, Digest, Login, find_session, unauthorized,
  session_principal, principal, session_row, add_session, add_attempt, expected_key,
  recent_failures, authenticate_and_create_session, stored, compare_digest, login_compared,
}

-- f"Bearer {token}"
abbrev pub bearer : Text → Text
bearer token = 66 ∷ 101 ∷ 97 ∷ 114 ∷ 101 ∷ 114 ∷ 32 ∷ token

find-added :
    (s : AuthSession) (ss : List AuthSession)
    → find_session s.token_hash ss ≡ none
    → find_session s.token_hash (ss ++ s ∷ []) ≡ some s
find-added s [] = λ _. ap (λ b. if b then some s else none) (eq_refl s.token_hash)
find-added s (x ∷ ss) =
    if_rule
      (λ o.
        o ≡ none
        → (if str_eq x.token_hash s.token_hash
            then some x
            else find_session s.token_hash (ss ++ s ∷ []))
          ≡ some s)
      (str_eq x.token_hash s.token_hash) (some x) (find_session s.token_hash ss)
      (λ _ h. absurd (ground arith))
      (λ other h.
        ap (λ b. if b then some x else find_session s.token_hash (ss ++ s ∷ [])) other
        ∙ find-added s ss h)

-- The principal of a session, until it expires.
abbrev pub until : ℕ → AuthSession → Result Principal
until later s =
    if ltb later s.expires_at
    then ok (record { actor = s.actor; role = s.role; session_id = some s.id })
    else unauthorized

module _ (settings : Settings) (hash : Digest) (later : ℕ) where
  -- A new session, not revoked, is found by its token.
  added-until :
      (token : Text) (s : AuthSession) (t : AuthTables)
      → s.token_hash ≡ hash token
      → s.revoked_at ≡ none
      → strip token ≡ token
      → find_session s.token_hash t.sessions ≡ none
      → principal settings hash later [] (bearer token) (add_session s t) ≡ until later s
  unfolding principal
  added-until token s t hashed live plain fresh =
      ap (λ h. session_principal later (find_session h (t.sessions ++ s ∷ [])))
        (ap hash plain ∙ sym hashed)
      ∙ ap (session_principal later) (find-added s t.sessions fresh)
      ∙ ap
          (λ (o : Option ℕ).
            if is_none o && ltb later s.expires_at
            then ok (record { actor = s.actor; role = s.role; session_id = some s.id })
            else unauthorized)
          live

-- Where a login returns a token and a session, and the token has no blanks at its ends and no other
-- session its digest, a later request with the token as its bearer is the principal of the session,
-- with the actor and the role of the login, until the session expires, and is refused from then on.
pub authenticate_and_create_session-principal :
    (settings : Settings) (hash : Digest) (now later : ℕ) (token given : Text) (a : Login)
    (db : AuthDb) (session : AuthSession)
    → (authenticate_and_create_session settings hash now token a db).0 ≡ ok (given, session)
    → strip token ≡ token
    → find_session (hash token) db.work.sessions ≡ none
    → (principal settings hash later []
          (bearer given)
          (authenticate_and_create_session settings hash now token a db).1.durable
        ≡ until later session)
      × (session.actor ≡ a.actor)
      × (session.role ≡ a.role)
      × (session.expires_at ≡ now + settings.session_ttl_seconds * 1000000)
unfolding authenticate_and_create_session
authenticate_and_create_session-principal settings hash now later token given a db session =
    if_rule Opens (not (str_eq a.role "operator" || str_eq a.role "reviewer")) _ _
      (λ _ e plain fresh. absurd (ground arith))
      (λ _.
        if_rule Opens
          (leb settings.login_max_attempts
            (recent_failures settings now (hash a.fingerprint) db.work.attempts))
          _ _ (λ _ e plain fresh. absurd (ground arith))
          (λ _. compared (compare_digest a.supplied_key (expected_key settings a.role))))
  where
    IsOpen : Text → AuthSession → AuthTables → Type 0
    IsOpen t s tables =
        (principal settings hash later [] (bearer t) tables ≡ until later s)
        × (s.actor ≡ a.actor)
        × (s.role ≡ a.role)
        × (s.expires_at ≡ now + settings.session_ttl_seconds * 1000000)

    Opens : Result (Text × AuthSession) × AuthDb → Type 0
    Opens r =
        r.0 ≡ ok (given, session)
        → strip token ≡ token
        → find_session (hash token) db.work.sessions ≡ none
        → IsOpen given session r.1.durable

    row : AuthSession
    row = session_row settings (db.work.next_id + 1) now (hash token) a.role a.actor

    tables : AuthTables
    tables = add_attempt now (hash a.fingerprint) a.role true db.work

    issued : Text × AuthSession
    issued = (token, row)

    returned : Text × AuthSession
    returned = (given, session)

    pair : ok issued ≡ ok returned → issued ≡ returned
    pair e = cc

    opened : Opens (ok (token, row), stored (add_session row tables))
    opened e plain fresh =
        subst (λ p. IsOpen p.0 p.1 (add_session row tables)) (pair e)
          (added-until settings hash later token row tables refl refl plain fresh, refl, refl, refl)

    compared : (c : Result Bool) → Opens (login_compared settings hash now token a db c)
    compared (raise exc) e plain fresh = absurd (ground arith)
    compared (ok false) e plain fresh = absurd (ground arith)
    compared (ok true) e plain fresh = opened e plain fresh
