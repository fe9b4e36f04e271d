-- ===== src/Audit/Tamper.antt =====
-- Chains that end in the same hash.
use dse_auto.Common.{
  ℕ, ◌+◌, ◌≡◌, ◌≢◌, sym, ap, true, List, [], ◌∷◌, String, arith, length, eq_iff, ◌∙◌, ◌⊎◌, inl, inr,
  Bool-cases, str_eq, Option, none, some,
}
use native.Mathlib.Decide.{ℕ_discrete}
use dse_auto.Common.Int.{ℤ}
use dse_auto.Common.Keys.{Part, Json}
use dse_auto.Store.{AuditEvent}
use dse_auto.Env.{Env, Canonical}
use dse_auto.Audit.{canonical, verify_from, verify_events, event_ok, zero_hash}
use dse_auto.Audit.Verify.{end_hash, verify_from-cons}

String-discrete : Discrete String
String-discrete s t = elim (Bool-cases (str_eq s t)) [
  | inl e ↦ yes ((eq_iff s t).0 e)
  | inr e ↦ no (λ p. ground (arith, (eq_iff s t).1 p))
]

Part-discrete : Discrete Part
Part-discrete = hlevel (ℕ_discrete, String-discrete)

ℤ-discrete : Discrete ℤ
ℤ-discrete = hlevel ℕ_discrete

Json-discrete : Discrete Json
Json-discrete = hlevel (ℕ_discrete, String-discrete, Part-discrete, ℤ-discrete)

Canonical-discrete : Discrete Canonical
Canonical-discrete = hlevel (ℕ_discrete, String-discrete, Part-discrete, Json-discrete)

-- Two rows whose payloads differ and have one digest.
abbrev pub CollidesAt : Env → AuditEvent → AuditEvent → Type 0
CollidesAt env x y =
    (canonical x true ≢ canonical y true)
    × (env.sha256 (canonical x true) ≡ env.sha256 (canonical y true))

-- Two chains of which two rows at one position collide.
abbrev pub Collides : Env → List AuditEvent → List AuditEvent → Type 0
Collides env [] ys = ⊥
Collides env (x ∷ xs) [] = ⊥
Collides env (x ∷ xs) (y ∷ ys) = CollidesAt env x y ⊎ Collides env xs ys

-- Two rows that agree in everything but the identifier and the time, which no digest covers.
pub record IsSame (x y : AuditEvent) : Type 0 where
  pub actor : x.actor ≡ y.actor
  pub event_type : x.event_type ≡ y.event_type
  pub entity_type : x.entity_type ≡ y.entity_type
  pub entity_id : x.entity_id ≡ y.entity_id
  pub previous_state : x.previous_state ≡ y.previous_state
  pub new_state : x.new_state ≡ y.new_state
  pub event_metadata : x.event_metadata ≡ y.event_metadata
  pub previous_hash : x.previous_hash ≡ y.previous_hash
  pub integrity_hash : x.integrity_hash ≡ y.integrity_hash
  pub chain_id : x.chain_id ≡ y.chain_id
  pub sequence : x.sequence ≡ y.sequence

-- Row for row.
abbrev pub AreSame : List AuditEvent → List AuditEvent → Type 0
AreSame [] [] = Unit
AreSame [] (y ∷ ys) = ⊥
AreSame (x ∷ xs) [] = ⊥
AreSame (x ∷ xs) (y ∷ ys) = IsSame x y × AreSame xs ys

-- The two facts that one verified row gives.
row_facts :
    (env : Env) (previous : String) (n : ℕ) (x : AuditEvent)
    → event_ok env true previous n x ≡ true
    → (x.previous_hash ≡ previous) × (env.sha256 (canonical x true) ≡ x.integrity_hash)
row_facts env previous n x h = ground (
  arith,
  (eq_iff x.previous_hash previous).0,
  (eq_iff (env.sha256 (canonical x true)) x.integrity_hash).0,
)

canonical-IsSame :
    (x y : AuditEvent)
    → canonical x true ≡ canonical y true
    → x.integrity_hash ≡ y.integrity_hash
    → IsSame x y
unfolding canonical
canonical-IsSame x y e sealed = record {
  actor = ap (λ (c : Canonical). c.actor) e;
  event_type = ap (λ (c : Canonical). c.event_type) e;
  entity_type = ap (λ (c : Canonical). c.entity_type) e;
  entity_id = ap (λ (c : Canonical). c.entity_id) e;
  previous_state = ap (λ (c : Canonical). c.previous_state) e;
  new_state = ap (λ (c : Canonical). c.new_state) e;
  event_metadata = ap (λ (c : Canonical). c.metadata) e;
  previous_hash = ap (λ (c : Canonical). c.previous_hash) e;
  integrity_hash = sealed;
  chain_id = ap (λ (c : Canonical). first c.generation) e;
  sequence = ap (λ (c : Canonical). second c.generation) e;
}
  where
    first : Option (Option ℕ × Option ℕ) → Option ℕ
    first none = none
    first (some (a, b)) = a

    second : Option (Option ℕ × Option ℕ) → Option ℕ
    second none = none
    second (some (a, b)) = b

Agrees : Env → String → String → List AuditEvent → List AuditEvent → Type 0
Agrees env p q xs ys = (p ≡ q) × AreSame xs ys ⊎ Collides env xs ys

heads_agree :
    (env : Env) (p q : String) (n : ℕ) (x y : AuditEvent) (xs ys : List AuditEvent)
    → event_ok env true p n x ≡ true
    → event_ok env true q n y ≡ true
    → Agrees env x.integrity_hash y.integrity_hash xs ys
    → Agrees env p q (x ∷ xs) (y ∷ ys)
unfolding Agrees
heads_agree env p q n x y xs ys hx hy (inr c) = inr (inr c)
heads_agree env p q n x y xs ys hx hy (inl (same, rest)) =
    let (px, dx) = row_facts env p n x hx in
    let (py, dy) = row_facts env q n y hy in
    elim (Canonical-discrete (canonical x true) (canonical y true)) [
      | yes e ↦
          let rows = canonical-IsSame x y e same in
          inl (sym px ∙ rows.previous_hash ∙ py, (rows, rest))
      | no differ ↦ inr (inl (differ, dx ∙ same ∙ sym dy))
    ]

agree_from :
    (env : Env) (p q : String) (n : ℕ) (xs ys : List AuditEvent)
    → length xs ≡ length ys
    → verify_from env true p n xs ≡ true
    → verify_from env true q n ys ≡ true
    → end_hash p xs ≡ end_hash q ys
    → Agrees env p q xs ys
unfolding Agrees
agree_from env p q n [] [] l vx vy h = inl (h, tt)
agree_from env p q n [] (y ∷ ys) l vx vy h = absurd (omega arith)
agree_from env p q n (x ∷ xs) [] l vx vy h = absurd (omega arith)
agree_from env p q n (x ∷ xs) (y ∷ ys) l vx vy h =
    let (hx, rx) = verify_from-cons env true p n x xs vx in
    let (hy, ry) = verify_from-cons env true q n y ys vy in
    heads_agree env p q n x y xs ys hx hy
      (agree_from env x.integrity_hash y.integrity_hash (n + 1) xs ys (omega arith) rx ry h)

-- Two chains of the same length that both verify, that differ in some row in another field than the
-- identifier and the time, and of which no two rows at one position have different payloads with one
-- digest, end in different hashes.
pub tamper_evident :
    (env : Env) (xs ys : List AuditEvent)
    → length xs ≡ length ys
    → verify_events env true xs ≡ true
    → verify_events env true ys ≡ true
    → (Collides env xs ys → ⊥)
    → (AreSame xs ys → ⊥)
    → end_hash zero_hash xs ≢ end_hash zero_hash ys
unfolding verify_events Agrees
tamper_evident env xs ys l vx vy apart differ h =
    elim (agree_from env zero_hash zero_hash 1 xs ys l vx vy h) [
      | inl (_, same) ↦ differ same
      | inr c ↦ apart c
    ]
