-- ===== src/Notices/Lines/Splits.antt =====
-- The lines of texts that are put end to end: `splitLines` of apps/desktop/src/main/notices/diff.ts.
use Prim.Native.Char.{Char, code}
use Prim.Native.String.append
use mathlib.Core.List.{append-nil}
use aion2_hub.Prelude.{
  ◌≡◌, refl, ap, ◌∙◌, inl, inr, String, true, false, ◌&&◌, ◌==◌, Bool-cases, List, [], ◌∷◌, ◌++◌,
  if◌then◌else◌, arith,
}
use aion2_hub.Text.{◌<+>◌, is_empty}
use aion2_hub.Notices.Lines.{
  starts_with_lf, crlf_to_lf, cr_to_lf, normalized_lines, split_lf, pop_empty, split_lines,
  ends_with_lf,
}

pub cons-append : (c : Char) (s t : String) → (String.◌∷◌ c s <+> t) ≡ String.◌∷◌ c (s <+> t)
unfolding ◌<+>◌
cons-append c s t = append.cons c s t

pub empty-append : (t : String) → (String.[] <+> t) ≡ t
unfolding ◌<+>◌
empty-append t = append.nil t

ends_with_lf-cons :
    (c : Char) (s : String) → ends_with_lf s ≡ true → ends_with_lf (String.◌∷◌ c s) ≡ true
unfolding ends_with_lf
ends_with_lf-cons c String.[] e = cc
ends_with_lf-cons c (String.◌∷◌ d s) e = e

crlf_to_lf-step :
    (c : Char) (s b : String)
    → starts_with_lf (s <+> b) ≡ starts_with_lf s
    → crlf_to_lf (s <+> b) ≡ (crlf_to_lf s <+> crlf_to_lf b)
    → crlf_to_lf (String.◌∷◌ c s <+> b) ≡ (crlf_to_lf (String.◌∷◌ c s) <+> crlf_to_lf b)
unfolding crlf_to_lf
crlf_to_lf-step c s b starts ih = elim (Bool-cases (code c == 13 && starts_with_lf s)) [
  | inl e ↦ rw (cons-append c s b, starts, e) ih
  | inr e ↦ rw (cons-append c s b, starts, e, cons-append c (crlf_to_lf s) (crlf_to_lf b), ih) refl
]

-- A "\r\n" does not lie across the end of a line.
crlf_to_lf-append :
    (a b : String) → ends_with_lf a ≡ true → crlf_to_lf (a <+> b) ≡ (crlf_to_lf a <+> crlf_to_lf b)
unfolding ends_with_lf crlf_to_lf
crlf_to_lf-append String.[] b e = cc
crlf_to_lf-append (String.◌∷◌ c String.[]) b e =
    let no_cr : (code c == 13) ≡ false = ground (arith, e) in
    rw
      (
        cons-append c String.[] b,
        empty-append b,
        no_cr,
        cons-append c String.[] (crlf_to_lf b),
        empty-append (crlf_to_lf b),
      )
      refl
crlf_to_lf-append (String.◌∷◌ c (String.◌∷◌ d s)) b e =
    crlf_to_lf-step c (String.◌∷◌ d s) b (rw (cons-append d s b) refl)
      (crlf_to_lf-append (String.◌∷◌ d s) b e)

cr_to_lf-append : (a b : String) → cr_to_lf (a <+> b) ≡ (cr_to_lf a <+> cr_to_lf b)
unfolding cr_to_lf
cr_to_lf-append String.[] b = rw (empty-append b, empty-append (cr_to_lf b)) refl
cr_to_lf-append (String.◌∷◌ c s) b =
    rw
      (
        cons-append c s b,
        cons-append (if code c == 13 then "\n" else c) (cr_to_lf s) (cr_to_lf b),
        cr_to_lf-append s b,
      )
      refl

cr_to_lf-ends : (a : String) → ends_with_lf a ≡ true → ends_with_lf (cr_to_lf a) ≡ true
unfolding cr_to_lf ends_with_lf
cr_to_lf-ends String.[] e = cc
cr_to_lf-ends (String.◌∷◌ c String.[]) e =
    let no_cr : (code c == 13) ≡ false = ground (arith, e) in rw no_cr e
cr_to_lf-ends (String.◌∷◌ c (String.◌∷◌ d s)) e = cr_to_lf-ends (String.◌∷◌ d s) e

crlf_to_lf-ends : (a : String) → ends_with_lf a ≡ true → ends_with_lf (crlf_to_lf a) ≡ true
unfolding crlf_to_lf ends_with_lf
crlf_to_lf-ends String.[] e = cc
crlf_to_lf-ends (String.◌∷◌ c String.[]) e =
    let no_cr : (code c == 13) ≡ false = ground (arith, e) in rw no_cr e
crlf_to_lf-ends (String.◌∷◌ c (String.◌∷◌ d s)) e =
    let ih = crlf_to_lf-ends (String.◌∷◌ d s) e in
    elim (Bool-cases (code c == 13 && code d == 10)) [
      | inl h ↦ rw h ih
      | inr h ↦ rw h (ends_with_lf-cons c (crlf_to_lf (String.◌∷◌ d s)) ih)
    ]

pub split_lf-cons : (s : String) → (x : String) × (rest : List String) × (split_lf s ≡ x ∷ rest)
unfolding split_lf
split_lf-cons String.[] = (String.[], [], refl)
split_lf-cons (String.◌∷◌ c s) = elim (Bool-cases (code c == 10)) [
  | inl e ↦ (String.[], split_lf s, rw e refl)
  | inr e ↦ let (x, rest, h) = split_lf-cons s in (String.◌∷◌ c x, rest, rw (e, h) refl)
]

-- A text of whole lines: its parts, and those of what is put behind it.
abbrev SplitsAs : String → String → List String → Type 0
SplitsAs a x rest =
    (split_lf a ≡ x ∷ rest ++ String.[] ∷ [])
    × ((b : String) → split_lf (a <+> b) ≡ x ∷ rest ++ split_lf b)

abbrev Splits : String → Type 0
Splits a = (x : String) × (rest : List String) × SplitsAs a x rest

Splits-step : (c : Char) (s : String) → Splits s → Splits (String.◌∷◌ c s)
unfolding split_lf
Splits-step c s (x, rest, (h, k)) = elim (Bool-cases (code c == 10)) [
  | inl e ↦ (String.[], x ∷ rest, (rw (e, h) refl, λ b. rw (cons-append c s b, e, k b) refl))
  | inr e ↦ (String.◌∷◌ c x, rest, (rw (e, h) refl, λ b. rw (cons-append c s b, e, k b) refl))
]

one_line : (c : Char) → (code c == 10) ≡ true → Splits (String.◌∷◌ c String.[])
unfolding split_lf
one_line c e =
    (String.[], [], (rw e refl, λ b. rw (cons-append c String.[] b, empty-append b, e) refl))

split_lf-append : (a : String) → ends_with_lf a ≡ true → Splits a
unfolding ends_with_lf
split_lf-append String.[] e = cc
split_lf-append (String.◌∷◌ c String.[]) e = one_line c e
split_lf-append (String.◌∷◌ c (String.◌∷◌ d s)) e =
    Splits-step c (String.◌∷◌ d s) (split_lf-append (String.◌∷◌ d s) e)

pop_empty-append :
    (xs : List String) (y : String) (ys : List String)
    → pop_empty (xs ++ y ∷ ys) ≡ xs ++ pop_empty (y ∷ ys)
unfolding pop_empty
pop_empty-append [] y ys = refl
pop_empty-append (x ∷ []) y ys = refl
pop_empty-append (x ∷ z ∷ xs) y ys = ap (λ l. x ∷ l) (pop_empty-append (z ∷ xs) y ys)

nothing_left : (xs : List String) → xs ++ pop_empty (String.[] ∷ []) ≡ xs
unfolding pop_empty is_empty
nothing_left xs = append-nil xs

-- The lines of a text of whole lines, and of one that is put behind it.
pub split_lines-append :
    (a b : String) → ends_with_lf a ≡ true → split_lines (a <+> b) ≡ split_lines a ++ split_lines b
unfolding split_lines
split_lines-append a b e =
    let whole = cr_to_lf-ends (crlf_to_lf a) (crlf_to_lf-ends a e) in
    let (x, rest, (h, k)) = split_lf-append (normalized_lines a) whole in
    let (y, ys, g) = split_lf-cons (normalized_lines b) in
    let both : normalized_lines (a <+> b) ≡ (normalized_lines a <+> normalized_lines b) =
      rw (crlf_to_lf-append a b e) (cr_to_lf-append (crlf_to_lf a) (crlf_to_lf b)) in
    let left : pop_empty (split_lf (normalized_lines a)) ≡ x ∷ rest =
      rw h (pop_empty-append (x ∷ rest) String.[] [] ∙ nothing_left (x ∷ rest)) in
    rw (both, k (normalized_lines b), left, g) (pop_empty-append (x ∷ rest) y ys)

pub split_lines-empty : split_lines String.[] ≡ []
unfolding split_lines split_lf pop_empty is_empty crlf_to_lf cr_to_lf
split_lines-empty = refl
