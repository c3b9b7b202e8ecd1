-- ===== src/Text/Trims.antt =====
-- `trim` takes all white space off both ends: a second `trim` changes nothing.
use Prim.Native.Char.{Char, code}
use aion2_hub.Prelude.{◌≡◌, refl, ap, ◌∙◌, inl, inr, String, false, Bool-cases}
use aion2_hub.Text.{is_space, trim_start, trim_end, cons_unless_blank, trim}

cons_unless_blank_end :
    (c : Char) (s : String)
    → trim_end s ≡ s
    → trim_end (cons_unless_blank c s) ≡ cons_unless_blank c s
unfolding trim_end
cons_unless_blank_end c String.[] h = elim (Bool-cases (is_space (code c))) [
  | inl e ↦ rw (e, cons_unless_blank) refl
  | inr e ↦ rw (e, cons_unless_blank) (rw (e, cons_unless_blank) refl)
]
cons_unless_blank_end c (String.◌∷◌ d s) h = rw h refl

trim_end-trim_end : (s : String) → trim_end (trim_end s) ≡ trim_end s
unfolding trim_end
trim_end-trim_end String.[] = refl
trim_end-trim_end (String.◌∷◌ c s) = cons_unless_blank_end c (trim_end s) (trim_end-trim_end s)

cons_unless_blank_filled :
    (c : Char) (s : String) → is_space (code c) ≡ false → cons_unless_blank c s ≡ String.◌∷◌ c s
unfolding cons_unless_blank
cons_unless_blank_filled c String.[] e = rw e refl
cons_unless_blank_filled c (String.◌∷◌ d s) e = refl

trim_start-trim : (s : String) → trim_start (trim s) ≡ trim s
unfolding trim trim_start trim_end
trim_start-trim String.[] = refl
trim_start-trim (String.◌∷◌ c s) = elim (Bool-cases (is_space (code c))) [
  | inl e ↦ rw e (trim_start-trim s)
  | inr e ↦ rw e (rw (cons_unless_blank_filled c (trim_end s) e) (rw e refl))
]

pub trim-trim : (s : String) → trim (trim s) ≡ trim s
unfolding trim
trim-trim s = ap trim_end (trim_start-trim s) ∙ trim_end-trim_end (trim_start s)
