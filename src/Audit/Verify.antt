-- ===== src/Audit/Verify.antt =====
-- What a successful run of `_verify_events` says of the list that it went through.
use dse_auto.Common.{
  ℕ, suc, ◌+◌, ◌≤◌, ◌≡◌, refl, Bool, true, some, List, [], ◌∷◌, ◌++◌, String, arith, length,
  and_parts, and_intro, All, ◌∙◌,
}
use dse_auto.Common.Sorted.{last?}
use dse_auto.Store.{AuditEvent}
use dse_auto.Env.{Env}
use dse_auto.Audit.{
  verify_from, event_ok, hash_of, sequence_of, by_sequence, next_sequence, zero_hash,
}

-- The variable `previous` after the loop.
abbrev pub end_hash : String → List AuditEvent → String
end_hash previous [] = previous
end_hash previous (event ∷ events) = end_hash event.integrity_hash events

hash_of-last_cons :
    (event : AuditEvent) (events : List AuditEvent)
    → hash_of (last? (event ∷ events)) ≡ end_hash event.integrity_hash events
hash_of-last_cons event [] = refl
hash_of-last_cons event (e ∷ es) = hash_of-last_cons e es

-- The hash that the next event takes is the one that the verifier holds at the end.
pub hash_of-last : (events : List AuditEvent) → hash_of (last? events) ≡ end_hash zero_hash events
hash_of-last [] = refl
hash_of-last (e ∷ es) = hash_of-last_cons e es

-- The first round of a run that succeeds, and the rest of it.
pub verify_from-cons :
    (env : Env) (g : Bool) (previous : String) (n : ℕ) (x : AuditEvent) (es : List AuditEvent)
    → verify_from env g previous n (x ∷ es) ≡ true
    → (event_ok env g previous n x ≡ true) × (verify_from env g x.integrity_hash (n + 1) es ≡ true)
unfolding verify_from
verify_from-cons env g previous n x es v = and_parts _ _ v

pub verify_from-append :
    (env : Env) (g : Bool) (previous : String) (n : ℕ) (es : List AuditEvent) (e : AuditEvent)
    → verify_from env g previous n es ≡ true
    → event_ok env g (end_hash previous es) (n + length es) e ≡ true
    → verify_from env g previous n (es ++ e ∷ []) ≡ true
unfolding verify_from
verify_from-append env g previous n [] e v h =
    and_intro _ _ (let k : n ≡ n + 0 = omega arith in rw k h) refl
verify_from-append env g previous n (x ∷ es) e v h =
    let (first, rest) = verify_from-cons env g previous n x es v in
    and_intro _ _ first (
      verify_from-append env g x.integrity_hash (n + 1) es e rest
        (let k : n + 1 + length es ≡ n + suc (length es) = omega arith in rw k h))

-- The sequence numbers of a verified chain count up from the first expected one.
pub next_sequence-verified :
    (env : Env) (c : ℕ) (previous : String) (n : ℕ) (x : AuditEvent) (es : List AuditEvent)
    → verify_from env true previous n (x ∷ es) ≡ true
    → next_sequence (some c) (last? (x ∷ es)) ≡ some (n + suc (length es))
unfolding verify_from
next_sequence-verified env c previous n x [] v =
    let (first, _) = verify_from-cons env true previous n x [] v in ground arith
next_sequence-verified env c previous n x (y ∷ es) v =
    let (_, rest) = verify_from-cons env true previous n x (y ∷ es) v in
    next_sequence-verified env c x.integrity_hash (n + 1) y es rest
    ∙ (let k : n + 1 + suc (length es) ≡ n + suc (suc (length es)) = omega arith in rw k)

pub sequences_below :
    (env : Env) (previous : String) (n : ℕ) (es : List AuditEvent) (e : AuditEvent)
    → verify_from env true previous n es ≡ true
    → n + length es ≤ sequence_of e
    → All (λ x. by_sequence x e ≡ true) es
unfolding verify_from
sequences_below env previous n [] e v h = tt
sequences_below env previous n (x ∷ es) e v h =
    let (first, rest) = verify_from-cons env true previous n x es v in
    (ground arith, sequences_below env x.integrity_hash (n + 1) es e rest (omega arith))
