-- ===== src/Common/Keys.antt =====
-- Texts that the program composes: an f-string such as f"fill:{order.id}:{n}" is the list of its
-- parts, and a JSON payload is a tree.
use Prim.Native.Nat.{ℕ}
use Prim.Native.String.{String}
use mathlib.Core.Path.{◌≡◌, refl, sym, ap}
use mathlib.Core.Logic.{◌↔◌, inl, inr}
use mathlib.Core.Bool.{Bool, true, false, ◌&&◌}
use mathlib.Core.Option.{Option, none, some}
use mathlib.Core.List.{List, [], ◌∷◌}
use native.Mathlib.Omega.{arith}
use text.Mathlib.Text.{◌==◌ as str_eq}
use text.Mathlib.TextEquality.{eq_iff}
use dse_auto.Common.Tests.{◌==◌, Bool-cases}
use dse_auto.Common.Int.{ℤ}
use dse_auto.Common.Text.{Text, text_eq, text_eq_iff}

-- A part of a text: letters, the text of a number or of a generated identifier, or code points.
pub data Part : Type 0 where
  letters : String → Part
  num : ℕ → Part
  points : Text → Part

-- The parts of a composed text, from left to right.
abbrev pub Key : Type 0
Key = List Part

abbrev pub part_eq : Part → Part → Bool
part_eq (letters s) (letters t) = str_eq s t
part_eq (num m) (num n) = m == n
part_eq (points s) (points t) = text_eq s t
part_eq (letters _) (num _) = false
part_eq (num _) (letters _) = false
part_eq (letters _) (points _) = false
part_eq (points _) (letters _) = false
part_eq (num _) (points _) = false
part_eq (points _) (num _) = false

abbrev pub key_eq : Key → Key → Bool
key_eq [] [] = true
key_eq [] (_ ∷ _) = false
key_eq (_ ∷ _) [] = false
key_eq (p ∷ ps) (q ∷ qs) = part_eq p q && key_eq ps qs

pub part_eq_iff : (p q : Part) → (part_eq p q ≡ true) ↔ (p ≡ q)
part_eq_iff (letters s) (letters t) =
    (λ h. ground (arith, eq_iff s t), λ h. ground (arith, eq_iff s t))
part_eq_iff (num m) (num n) = (λ h. ground arith, λ h. ground arith)
part_eq_iff (points s) (points t) =
    (λ h. ap points ((text_eq_iff s t).0 h), λ h. (text_eq_iff s t).1 (points_inj h))
  where
    points_inj : points s ≡ points t → s ≡ t
    points_inj e = cc
part_eq_iff (letters s) (num n) = (λ h. cc, λ h. cc)
part_eq_iff (num m) (letters t) = (λ h. cc, λ h. cc)
part_eq_iff (letters s) (points t) = (λ h. cc, λ h. cc)
part_eq_iff (points s) (letters t) = (λ h. cc, λ h. cc)
part_eq_iff (num m) (points t) = (λ h. cc, λ h. cc)
part_eq_iff (points s) (num n) = (λ h. cc, λ h. cc)

pub key_eq_iff : (k j : Key) → (key_eq k j ≡ true) ↔ (k ≡ j)
key_eq_iff [] [] = (λ _. refl, λ _. refl)
key_eq_iff [] (_ ∷ _) = (λ h. cc, λ h. cc)
key_eq_iff (_ ∷ _) [] = (λ h. cc, λ h. cc)
key_eq_iff (p ∷ ps) (q ∷ qs) = (
  λ h. ground (arith, part_eq_iff p q, key_eq_iff ps qs),
  λ h. ground (arith, part_eq_iff p q, key_eq_iff ps qs),
)

pub key_eq_refl : (k : Key) → key_eq k k ≡ true
key_eq_refl k = (key_eq_iff k k).1 refl

pub key_eq_symm : (k j : Key) → key_eq k j ≡ key_eq j k
key_eq_symm k j = elim (Bool-cases (key_eq k j)) [
  | inl e ↦ rw (e, (key_eq_iff k j).0 e) (sym (key_eq_refl j))
  | inr e ↦ elim (Bool-cases (key_eq j k)) [ inl d ↦ absurd (not_both e d) | inr d ↦ rw (e, d) ]
]
  where
    not_both : key_eq k j ≡ false → key_eq j k ≡ true → ⊥
    not_both e d = ground (arith, (key_eq_iff j k).0 d, key_eq_refl k)

mutual
  -- What `json.dumps` is given. `amount` is the text of a decimal with four places.
  pub data Json : Type 0 where
    null : Json
    str : Key → Json
    int : ℕ → Json
    amount : ℤ → Json
    bool : Bool → Json
    arr : Items → Json
    obj : Fields → Json

  pub data Items : Type 0 where
    end : Items
    item : Json → Items → Items

  pub data Fields : Type 0 where
    done : Fields
    field : String → Json → Fields → Fields

-- A dictionary of texts and numbers, as the events and audit records carry.
abbrev pub fields_of : List (String × Json) → Fields
fields_of [] = done
fields_of ((k, v) ∷ r) = field k v (fields_of r)

abbrev pub dict : List (String × Json) → Json
dict l = obj (fields_of l)

abbrev pub items_of : List Json → Items
items_of [] = end
items_of (x ∷ xs) = item x (items_of xs)

abbrev pub opt_json {ℓ} : {A : Type ℓ} → (A → Json) → Option A → Json
opt_json f none = null
opt_json f (some a) = f a
