-- ===== src/Dates/Keys.antt =====
-- Two days have one date key only if they are one day.
use Prim.Native.Char.{Char, code}
use Prim.Native.String.{count}
use text.Mathlib.TextLemmas.{append_inj, append_cancel_left, length-append, length-cons, length-nil}
use aion2_hub.Prelude.{
  ℕ, zero, suc, ◌+◌, ◌-◌, ◌*◌, ◌/◌, ◌%◌, ◌<◌, ◌≡◌, refl, sym, ap, ◌∙◌, String, inl, inr, arith, ltb,
  Bool-cases, lt→ltb,
}
use aion2_hub.Text.{◌<+>◌, digit, show_into, show, pad2}
use aion2_hub.Dates.{Civil, day_of, format_civil, format_local_date_key}
use aion2_hub.Dates.Civils.{civil-IsDate, civil_inj, IsDate}

-- The number that a text of digits stands for, after `acc`.
value : ℕ → String → ℕ
value acc String.[] = acc
value acc (String.◌∷◌ c s) = value (acc * 10 + (code c - 48)) s

code-digit : (n : ℕ) → n < 10 → code (digit n) - 48 ≡ n
unfolding digit
code-digit zero h = refl
code-digit (suc zero) h = refl
code-digit (suc (suc zero)) h = refl
code-digit (suc (suc (suc zero))) h = refl
code-digit (suc (suc (suc (suc zero)))) h = refl
code-digit (suc (suc (suc (suc (suc zero))))) h = refl
code-digit (suc (suc (suc (suc (suc (suc zero)))))) h = refl
code-digit (suc (suc (suc (suc (suc (suc (suc zero))))))) h = refl
code-digit (suc (suc (suc (suc (suc (suc (suc (suc zero)))))))) h = refl
code-digit (suc (suc (suc (suc (suc (suc (suc (suc (suc n))))))))) h = omega arith

value-digit :
    (acc n : ℕ) (s : String) → n < 10 → value acc (String.◌∷◌ (digit n) s) ≡ value (acc * 10 + n) s
unfolding value
value-digit acc n s h = ap (λ (k : ℕ). value (acc * 10 + k) s) (code-digit n h)

value-show_into : (f n : ℕ) (rest : String) → n < f → value 0 (show_into f n rest) ≡ value n rest
unfolding show_into
value-show_into zero n rest h = elim h [ ]
value-show_into (suc f) n rest h = elim (Bool-cases (ltb n 10)) [
  | inl e ↦ rw e (value-digit 0 n rest (ground arith) ∙ ap (λ (k : ℕ). value k rest) (omega arith))
  | inr e ↦ rw e (
      value-show_into f (n / 10) (String.◌∷◌ (digit (n % 10)) rest) (ground arith)
      ∙ value-digit (n / 10) (n % 10) rest (omega arith)
      ∙ ap (λ (k : ℕ). value k rest) (omega arith))
]

value-show : (n : ℕ) → value 0 (show n) ≡ n
unfolding show value
value-show n = value-show_into (suc n) n String.[] (omega arith)

value-pad2 : (n : ℕ) → value 0 (pad2 n) ≡ n
unfolding pad2 digit
value-pad2 n = elim (Bool-cases (ltb n 10)) [
  | inl e ↦ rw e (value-digit 0 0 (show n) (omega arith) ∙ value-show n)
  | inr e ↦ rw e (value-show n)
]

show_into_small :
    (f n : ℕ) (rest : String) → 0 < f → n < 10 → show_into f n rest ≡ String.◌∷◌ (digit n) rest
unfolding show_into
show_into_small zero n rest h k = elim h [ ]
show_into_small (suc f) n rest h k = rw (lt→ltb n 10 k)

count_two : (c d : Char) → count (String.◌∷◌ c (String.◌∷◌ d String.[])) ≡ 2
count_two c d = length-cons c _ ∙ ap suc (length-cons d _ ∙ ap suc length-nil)

-- A number below 100 fills two places.
count-pad2 : (n : ℕ) → n < 100 → count (pad2 n) ≡ 2
unfolding pad2 show show_into
count-pad2 n h = elim (Bool-cases (ltb n 10)) [
  | inl e ↦ rw e (count_two _ _)
  | inr e ↦ rw e (
      ap count (
        show_into_small n (n / 10) (String.◌∷◌ (digit (n % 10)) String.[]) (ground arith)
          (omega arith))
      ∙ count_two _ _)
]

-- Texts that end in tails of one length split in one way.
append_inj_right : (s t u v : String) → s <+> u ≡ t <+> v → count u ≡ count v → (s ≡ t) × (u ≡ v)
unfolding ◌<+>◌
append_inj_right s t u v e h =
    append_inj e (omega (arith, ap count e, length-append s u, length-append t v))

-- The part of the key behind the year, six characters.
tail_of : Civil → String
tail_of c = "-" <+> pad2 c.month <+> "-" <+> pad2 c.day

count-<+> : (s t : String) → count (s <+> t) ≡ count s + count t
unfolding ◌<+>◌
count-<+> s t = length-append s t

count-dash : count "-" ≡ 1
count-dash = refl

count-tail_of : (c : Civil) → IsDate c → count (tail_of c) ≡ 6
unfolding tail_of
count-tail_of c v =
    omega (
      arith,
      count-<+>,
      count-dash,
      count-pad2 c.month (omega arith),
      count-pad2 c.day (omega arith),
    )

show_inj : (m n : ℕ) → show m ≡ show n → m ≡ n
show_inj m n e = sym (value-show m) ∙ ap (value 0) e ∙ value-show n

pad2_inj : (m n : ℕ) → pad2 m ≡ pad2 n → m ≡ n
pad2_inj m n e = sym (value-pad2 m) ∙ ap (value 0) e ∙ value-pad2 n

dash_inj : (s t : String) → "-" <+> s ≡ "-" <+> t → s ≡ t
unfolding ◌<+>◌
dash_inj s t e = append_cancel_left "-" s t e

tail_inj :
    (m n d e : ℕ)
    → d < 100
    → e < 100
    → "-" <+> pad2 m <+> "-" <+> pad2 d ≡ "-" <+> pad2 n <+> "-" <+> pad2 e
    → (m ≡ n) × (d ≡ e)
tail_inj m n d e hd he h =
    let (months, days) =
      append_inj_right (pad2 m) (pad2 n) ("-" <+> pad2 d) ("-" <+> pad2 e) (dash_inj _ _ h)
        (omega (arith, count-<+>, count-pad2 d hd, count-pad2 e he)) in
    (pad2_inj m n months, pad2_inj d e (dash_inj _ _ days))

pub format_civil_inj : (c e : Civil) → IsDate c → IsDate e → format_civil c ≡ format_civil e → c ≡ e
unfolding format_civil tail_of
format_civil_inj c e vc ve h =
    let (years, tails) =
      append_inj_right (show c.year) (show e.year) (tail_of c) (tail_of e) h
        (count-tail_of c vc ∙ sym (count-tail_of e ve)) in
    let (months, days) = tail_inj c.month e.month c.day e.day (omega arith) (omega arith) tails in
    ground (arith, show_inj c.year e.year years)

-- Two moments have one date key only if they lie on one day.
pub date_key_inj :
    (a b : ℕ) → format_local_date_key a ≡ format_local_date_key b → day_of a ≡ day_of b
unfolding format_local_date_key
date_key_inj a b h =
    civil_inj (day_of a) (day_of b)
      (format_civil_inj _ _ (civil-IsDate (day_of a)) (civil-IsDate (day_of b)) h)
