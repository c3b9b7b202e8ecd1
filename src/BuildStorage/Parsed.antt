-- ===== src/BuildStorage/Parsed.antt =====
-- The parsers of apps/desktop/src/main/storage/domains/buildScore.ts give back what they have
-- accepted, and accept it again.
use aion2_hub.Prelude.{
  ◌≡◌, refl, ap, inl, inr, String, ◌===◌, false, Bool-cases, List, [], ◌∷◌, map, Option, none, some,
}
use aion2_hub.Prelude.Int.{ℤ}
use aion2_hub.Prelude.Sort.{All}
use aion2_hub.Text.{trim, is_empty}
use aion2_hub.Text.Trims.{trim-trim}
use aion2_hub.BuildScore.{BuildScoreUnit, BuildScoreStat, BuildScoreSet, BuildScoreState}
use aion2_hub.Json.{
  Json, field_of, get, as_text, as_array, is_object, items, items_list, fields, fields_list,
}
use aion2_hub.BuildStorage.{
  as_build_score_unit, unit_text, as_stat, as_stat_of, push_stat, stats_loop, stats_of_array,
  as_build_score_stats, number_entries, as_build_score_set, trimmed_or, state_of, is_version_1,
  as_build_score_state, stat_json, stats_json, value_json, set_json, state_json,
}

-- What the parser of a stat, of a set and of a state lets through.
abbrev pub StatOk : BuildScoreStat → Type 0
StatOk s = (is_empty s.id ≡ false) × (is_empty s.label ≡ false)

abbrev pub SetOk : BuildScoreSet → Type 0
SetOk s = (is_empty s.name ≡ false) × (trim s.name ≡ s.name)

pub record IsParsed (s : BuildScoreState) : Type 0 where
  pub stats_ok : All StatOk s.stats
  pub a_ok : SetOk s.set_a
  pub b_ok : SetOk s.set_b

unit_round : (u : BuildScoreUnit) → as_build_score_unit (some (unit_text u)) ≡ u
unfolding ◌===◌
unit_round BuildScoreUnit.flat = refl
unit_round BuildScoreUnit.percent = refl

stat_round : (s : BuildScoreStat) → StatOk s → as_stat (stat_json s) ≡ some s
unfolding get field_of ◌===◌
stat_round s (e, f) = rw (e, f, unit_round s.unit) refl

items_round : (xs : List Json) → items_list (items xs) ≡ xs
items_round [] = refl
items_round (x ∷ xs) = ap (λ ys. x ∷ ys) (items_round xs)

fields_round : (fs : List (String × Json)) → fields_list (fields fs) ≡ fs
fields_round [] = refl
fields_round ((k, v) ∷ fs) = ap (λ rest. (k, v) ∷ rest) (fields_round fs)

loop_round :
    (stats : List BuildScoreStat) → All StatOk stats → stats_loop (map stat_json stats) ≡ some stats
unfolding stats_loop
loop_round [] h = refl
loop_round (s ∷ stats) h = rw (stat_round s h.0, loop_round stats h.1) refl

-- The text of accepted stats is accepted, and gives the same stats.
pub stats_round :
    (stats : List BuildScoreStat)
    → All StatOk stats
    → as_build_score_stats (some (stats_json stats)) ≡ some stats
unfolding as_build_score_stats
stats_round stats h = rw (items_round (map stat_json stats)) (loop_round stats h)

numbers_round : (vs : List (String × ℤ)) → number_entries (map value_json vs) ≡ vs
unfolding number_entries
numbers_round [] = refl
numbers_round ((k, n) ∷ vs) = ap (λ rest. (k, n) ∷ rest) (numbers_round vs)

set_round :
    (s : BuildScoreSet) (other : String)
    → SetOk s
    → as_build_score_set (some (set_json s)) other ≡ some s
unfolding as_build_score_set get field_of ◌===◌
set_round s other (e, f) =
    rw (f, e, fields_round (map value_json s.values), numbers_round s.values) refl

-- A state that was accepted once is accepted again from its JSON value, unchanged.
pub state_round :
    (now : String) (s : BuildScoreState)
    → IsParsed s
    → as_build_score_state now (state_json s) ≡ some s
unfolding as_build_score_state get field_of ◌===◌
state_round now s h =
    let stats = stats_round s.stats h.stats_ok in
    let a = set_round s.set_a "세팅 A" h.a_ok in
    let b = set_round s.set_b "세팅 B" h.b_ok in λ i. state_of s.updated_at (stats i) (a i) (b i)

-- What holds of an accepted value.
abbrev pub OnSome {ℓ} : {A : Type 0} → (A → Type ℓ) → Option A → Type ℓ
OnSome P none = Unit
OnSome P (some a) = P a

stat_of-StatOk : (id label : Option String) (v : Json) → OnSome StatOk (as_stat_of id label v)
stat_of-StatOk none label v = tt
stat_of-StatOk (some id) none v = tt
stat_of-StatOk (some id) (some label) v = elim (Bool-cases (is_empty id)) [
  | inl e ↦ rw e tt
  | inr e ↦ elim (Bool-cases (is_empty label)) [ inl f ↦ rw (e, f) tt | inr f ↦ rw (e, f) (e, f) ]
]

stat-StatOk : (v : Json) → OnSome StatOk (as_stat v)
stat-StatOk v = elim (Bool-cases (is_object v)) [
  | inl e ↦ rw e (stat_of-StatOk (as_text (get v "id")) (as_text (get v "label")) v)
  | inr e ↦ rw e tt
]

push-StatOk :
    (s : Option BuildScoreStat) (rest : Option (List BuildScoreStat))
    → OnSome StatOk s
    → OnSome (All StatOk) rest
    → OnSome (All StatOk) (push_stat s rest)
push-StatOk none rest h k = tt
push-StatOk (some s) none h k = tt
push-StatOk (some s) (some rest) h k = (h, k)

loop-StatOk : (vs : List Json) → OnSome (All StatOk) (stats_loop vs)
unfolding stats_loop
loop-StatOk [] = tt
loop-StatOk (v ∷ vs) = push-StatOk (as_stat v) (stats_loop vs) (stat-StatOk v) (loop-StatOk vs)

array-StatOk : (vs : Option (List Json)) → OnSome (All StatOk) (stats_of_array vs)
array-StatOk none = tt
array-StatOk (some vs) = loop-StatOk vs

pub stats-StatOk : (v : Option Json) → OnSome (All StatOk) (as_build_score_stats v)
unfolding as_build_score_stats
stats-StatOk v = array-StatOk (as_array v)

name-ok :
    (name : Option String) (other : String)
    → is_empty other ≡ false
    → trim other ≡ other
    → (is_empty (trimmed_or name other) ≡ false)
      × (trim (trimmed_or name other) ≡ trimmed_or name other)
name-ok none other e f = (e, f)
name-ok (some s) other e f = elim (Bool-cases (is_empty (trim s))) [
  | inl g ↦ rw g (e, f)
  | inr g ↦ rw g (g, trim-trim s)
]

set-SetOk :
    (v : Option Json) (other : String)
    → is_empty other ≡ false
    → trim other ≡ other
    → OnSome SetOk (as_build_score_set v other)
unfolding as_build_score_set
set-SetOk none other e f = tt
set-SetOk (some v) other e f = elim (Bool-cases (is_object v)) [
  | inl g ↦ rw g (name-ok (as_text (get v "name")) other e f)
  | inr g ↦ rw g tt
]

state_of-IsParsed :
    (at : String) (stats : Option (List BuildScoreStat)) (a b : Option BuildScoreSet)
    → OnSome (All StatOk) stats
    → OnSome SetOk a
    → OnSome SetOk b
    → OnSome IsParsed (state_of at stats a b)
state_of-IsParsed at none a b h k l = tt
state_of-IsParsed at (some stats) none b h k l = tt
state_of-IsParsed at (some stats) (some a) none h k l = tt
state_of-IsParsed at (some stats) (some a) (some b) h k l = record {
  stats_ok = h;
  a_ok = k;
  b_ok = l;
}

-- What the parser of a state accepts has stats with an identity and a label, and sets with
-- trimmed names.
pub state-IsParsed : (now : String) (v : Json) → OnSome IsParsed (as_build_score_state now v)
unfolding as_build_score_state
state-IsParsed now v = elim (Bool-cases (is_object v)) [
  | inr e ↦ rw e tt
  | inl e ↦ elim (Bool-cases (is_version_1 (get v "version"))) [
    | inr f ↦ rw (e, f) tt
    | inl f ↦
        rw (e, f)
          (state_of-IsParsed _ _ _ _ (stats-StatOk (get v "stats"))
            (set-SetOk (get v "setA") "세팅 A" (unfold is_empty in refl) (unfold trim in refl))
            (set-SetOk (get v "setB") "세팅 B" (unfold is_empty in refl) (unfold trim in refl)))
  ]
]
