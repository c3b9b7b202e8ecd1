-- ===== src/Text.antt =====
-- Texts as JavaScript uses them: `trim`, `String(n)` of a whole number, `padStart(2, "0")`.
pub mod Trims
use Prim.Native.Char.{Char, code}
use Prim.Native.String.{◌++◌ as text_append}
use aion2_hub.Prelude.{
  ℕ, zero, suc, List, [], ◌∷◌, ◌/◌, ◌%◌, String, Bool, true, false, ◌&&◌, ◌||◌, leb, ltb, ◌==◌,
  if◌then◌else◌,
}

infixr 67 ◌<+>◌
-- A template literal puts texts end to end.
unfoldable pub ◌<+>◌ : String → String → String
s <+> t = text_append s t

-- The white space and line terminators that `trim` removes.
unfoldable pub is_space : ℕ → Bool
is_space c =
    (leb 9 c && leb c 13)
    || c == 32
    || c == 160
    || c == 0x1680
    || (leb 0x2000 c && leb c 0x200a)
    || c == 0x2028
    || c == 0x2029
    || c == 0x202f
    || c == 0x205f
    || c == 0x3000
    || c == 0xfeff

unfoldable pub trim_start : String → String
trim_start String.[] = String.[]
trim_start (String.◌∷◌ c s) =
    let rest = trim_start s in if is_space (code c) then rest else String.◌∷◌ c s

-- The end is trimmed from the right: a space stays if something other than space follows it.
cons_unless_blank : Char → String → String
cons_unless_blank c String.[] = if is_space (code c) then String.[] else String.◌∷◌ c String.[]
cons_unless_blank c (String.◌∷◌ d s) = String.◌∷◌ c (String.◌∷◌ d s)

unfoldable pub trim_end : String → String
unfolding cons_unless_blank
trim_end String.[] = String.[]
trim_end (String.◌∷◌ c s) = cons_unless_blank c (trim_end s)

unfoldable pub trim : String → String
unfolding trim_start trim_end is_space
trim s = trim_end (trim_start s)

unfoldable pub is_empty : String → Bool
is_empty String.[] = true
is_empty (String.◌∷◌ c s) = false

unfoldable pub digit : ℕ → Char
digit zero = "0"
digit (suc zero) = "1"
digit (suc (suc zero)) = "2"
digit (suc (suc (suc zero))) = "3"
digit (suc (suc (suc (suc zero)))) = "4"
digit (suc (suc (suc (suc (suc zero))))) = "5"
digit (suc (suc (suc (suc (suc (suc zero)))))) = "6"
digit (suc (suc (suc (suc (suc (suc (suc zero))))))) = "7"
digit (suc (suc (suc (suc (suc (suc (suc (suc zero)))))))) = "8"
digit _ = "9"

-- The digits of `n`, the last one first dropped into `acc`; the fuel is a number above `n`.
unfoldable pub show_into : ℕ → ℕ → String → String
show_into zero n acc = acc
show_into (suc f) n acc =
    let rest = show_into f (n / 10) (String.◌∷◌ (digit (n % 10)) acc) in
    if ltb n 10 then String.◌∷◌ (digit n) acc else rest

-- `String(n)`.
unfoldable pub show : ℕ → String
unfolding show_into digit
show n = show_into (suc n) n String.[]

-- `String(n).padStart(2, "0")`.
unfoldable pub pad2 : ℕ → String
pad2 n = if ltb n 10 then String.◌∷◌ "0" (show n) else show n

-- The code points of a text.
unfoldable pub codes : String → List ℕ
codes String.[] = []
codes (String.◌∷◌ c s) = code c ∷ codes s
