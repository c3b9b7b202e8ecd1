-- ===== src/Prelude/Tests.antt =====
-- Boolean tests on the native numbers and on texts, the conditional, and case lemmas.
use Prim.Native.Nat.{ℕ, ◌≤◌, ◌<◌, compare, Ordering}
use Prim.Native.String.{String}
use mathlib.Core.Path.{◌≡◌, refl}
use mathlib.Core.Logic.{◌↔◌, ◌⊎◌, ◌≢◌, inl, inr}
use mathlib.Core.Bool.{Bool, true, false, ◌&&◌}
use mathlib.Core.Option.{Option, none, some}
use native.Mathlib.Omega.{arith}
use text.Mathlib.Text.{◌==◌ as text_eq}
use text.Mathlib.TextEquality.{eq_iff}

abbrev pub ltb : ℕ → ℕ → Bool
ltb a b = elim (compare a b) [ Ordering.lt ↦ true | _ ↦ false ]

abbrev pub leb : ℕ → ℕ → Bool
leb a b = elim (compare a b) [ Ordering.gt ↦ false | _ ↦ true ]

infix 50 ◌==◌
abbrev pub ◌==◌ : ℕ → ℕ → Bool
a == b = elim (compare a b) [ Ordering.eq ↦ true | _ ↦ false ]

infix 1 if◌then◌else◌
abbrev pub if◌then◌else◌ {ℓ} : {A : Type ℓ} → Bool → A → A → A
if true then x else y = x
if false then x else y = y

pub ltb→lt : (a b : ℕ) → ltb a b ≡ true → a < b
ltb→lt a b h = ground arith

pub lt→ltb : (a b : ℕ) → a < b → ltb a b ≡ true
lt→ltb a b h = ground arith

pub leb→le : (a b : ℕ) → leb a b ≡ true → a ≤ b
leb→le a b h = ground arith

pub le→leb : (a b : ℕ) → a ≤ b → leb a b ≡ true
le→leb a b h = ground arith

pub ==_iff : (a b : ℕ) → ((a == b) ≡ true) ↔ (a ≡ b)
==_iff a b = ground arith

pub ruleset tests = (arith, ltb→lt, lt→ltb, leb→le, le→leb)

-- To split on a computed value and keep the equation.
pub Bool-cases : (b : Bool) → (b ≡ true) ⊎ (b ≡ false)
Bool-cases true = inl refl
Bool-cases false = inr refl

pub Option-cases {ℓ} : {A : Type ℓ} (o : Option A) → (o ≡ none) ⊎ ((a : A) × (o ≡ some a))
Option-cases none = inl refl
Option-cases (some a) = inr (a, refl)

-- Equality of texts, JavaScript's `===` on strings and SQL's `=` on TEXT columns. It is shut,
-- so that it is known by its law alone.
infix 50 ◌===◌
unfoldable pub ◌===◌ : String → String → Bool
s === t = text_eq s t

pub ===_iff : (s t : String) → ((s === t) ≡ true) ↔ (s ≡ t)
unfolding ◌===◌
===_iff s t = eq_iff s t

pub ===_refl : (s : String) → (s === s) ≡ true
===_refl s = (===_iff s s).1 refl

pub ===_ne : (s t : String) → s ≢ t → (s === t) ≡ false
===_ne s t h = elim (Bool-cases (s === t)) [ inl e ↦ absurd (h ((===_iff s t).0 e)) | inr e ↦ e ]

pub ===_comm : (s t : String) → (s === t) ≡ (t === s)
===_comm s t = ground (arith, ===_iff s t, ===_iff t s)

pub &&_true : (a b : Bool) → a ≡ true → b ≡ true → (a && b) ≡ true
&&_true a b p q = cc

pub Bool-eq : (a b : Bool) → (a ≡ true → b ≡ true) → (b ≡ true → a ≡ true) → a ≡ b
Bool-eq true true p q = refl
Bool-eq true false p q = cc (p refl)
Bool-eq false true p q = cc (q refl)
Bool-eq false false p q = refl
