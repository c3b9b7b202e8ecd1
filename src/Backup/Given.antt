-- ===== src/Backup/Given.antt =====
-- What holds of all that a loop of `importUserBackup` reads, in
-- apps/desktop/src/main/storage/domains/backup.ts.
use aion2_hub.Prelude.{
  ◌≡◌, refl, subst, inl, inr, String, Bool, true, false, Bool-cases, Option, none, some, List, [],
  ◌∷◌,
}
use aion2_hub.Prelude.Sort.{All}
use aion2_hub.Json.{Json, is_object}
use aion2_hub.Backup.{with_text, when, push_read, read_each}

module _ {A : Type 0} (P : A → Type 0) where
  -- If something is read, it holds of that.
  abbrev pub Given : Option A → Type 0
  Given o = (a : A) → o ≡ some a → P a

  pub some-Given : {a : A} → P a → Given (some a)
  some-Given p b e = subst P (some_injective e) p
    where
      some_injective : {x y : A} → some x ≡ some y → x ≡ y
      some_injective e = cc

  pub none-Given : Given none
  none-Given a e = cc

  pub with_text-Given :
      (o : Option String) (k : String → Option A)
      → ((s : String) → Given (k s))
      → Given (with_text o k)
  unfolding with_text
  with_text-Given none k h = none-Given
  with_text-Given (some s) k h = h s

  pub when-Given : {b : Bool} {r : Option A} → (b ≡ true → Given r) → Given (when b r)
  unfolding when
  when-Given {b = true} h = h refl
  when-Given {b = false} h = none-Given

  push_read-All : (o : Option A) (rest : List A) → Given o → All P rest → All P (push_read o rest)
  push_read-All none rest g a = a
  push_read-All (some x) rest g a = (g x refl, a)

  pub read_each-All :
      (f : Json → Option A) → ((v : Json) → Given (f v)) → (vs : List Json) → All P (read_each f vs)
  unfolding read_each
  read_each-All f g [] = tt
  read_each-All f g (v ∷ vs) = elim (Bool-cases (is_object v)) [
    | inl e ↦ rw e (push_read-All (f v) (read_each f vs) (g v) (read_each-All f g vs))
    | inr e ↦ rw e (read_each-All f g vs)
  ]
