-- ===== src/BuildScore/Presets.antt =====
-- What a preset does to the score: `applyUserPreset` and `applyClassPreset` of
-- apps/desktop/src/renderer/src/pages/buildScore/model.ts.
use aion2_hub.Prelude.{
  ◌≡◌, sym, ap, ◌∙◌, inl, inr, List, [], ◌∷◌, ◌++◌, String, ◌===◌, Bool-cases, some, Option-cases,
  if◌then◌else◌,
}
use aion2_hub.Prelude.Int.{ℤ, pos, ◌+ℤ◌, ◌*ℤ◌, +ℤ_assoc, +ℤ_comm, eq_of_parts, int_laws}
use aion2_hub.BuildScore.{
  BuildScoreStat, BuildScoreState, Which, value_of, score_loop, values_of, compute_score, map_get,
  map_delete, map_of, user_loop, apply_user_preset,
}

zero_left : (a : ℤ) → pos 0 +ℤ a ≡ a
zero_left a = eq_of_parts (pos 0 +ℤ a) a (omega int_laws)

zero_right : (a : ℤ) → a +ℤ pos 0 ≡ a
zero_right a = +ℤ_comm a (pos 0) ∙ zero_left a

swap : (a b c : ℤ) → a +ℤ (b +ℤ c) ≡ b +ℤ (a +ℤ c)
swap a b c = sym (+ℤ_assoc a b c) ∙ ap (λ x. x +ℤ c) (+ℤ_comm a b) ∙ +ℤ_assoc b a c

module _ (values : List (String × ℤ)) where
  -- What one stat adds.
  abbrev share : BuildScoreStat → ℤ
  share s = if s.enabled then s.weight *ℤ value_of values s.id else pos 0

  abbrev score : List BuildScoreStat → ℤ
  score [] = pos 0
  score (s ∷ rest) = share s +ℤ score rest

  score_loop_sum :
      (stats : List BuildScoreStat) (sum : ℤ) → score_loop values stats sum ≡ sum +ℤ score stats
  unfolding score_loop
  score_loop_sum [] sum = sym (zero_right sum)
  score_loop_sum (s ∷ rest) sum = elim (Bool-cases s.enabled) [
    | inl e ↦
        rw (e) (score_loop_sum rest (sum +ℤ s.weight *ℤ value_of values s.id) ∙ +ℤ_assoc sum _ _)
    | inr e ↦ rw (e) (score_loop_sum rest sum ∙ sym (ap (λ x. sum +ℤ x) (zero_left _)))
  ]

  score-append : (xs ys : List BuildScoreStat) → score (xs ++ ys) ≡ score xs +ℤ score ys
  score-append [] ys = sym (zero_left (score ys))
  score-append (x ∷ xs) ys =
      ap (λ a. share x +ℤ a) (score-append xs ys) ∙ sym (+ℤ_assoc (share x) (score xs) (score ys))

  score-delete :
      (left : List BuildScoreStat) (id : String) (s : BuildScoreStat)
      → map_get left id ≡ some s
      → score left ≡ share s +ℤ score (map_delete left id)
  unfolding map_get map_delete
  score-delete [] id s e = cc
  score-delete (t ∷ left) id s e = elim (Bool-cases (t.id === id)) [
    | inl f ↦
        let same : some t ≡ some s = rw (f) at e in
        let eq : t ≡ s = cc in rw f (ap (λ r. share r +ℤ score left) eq)
    | inr f ↦ rw f (
        ap (λ a. share t +ℤ a) (score-delete left id s (rw (f) at e))
        ∙ swap (share t) (share s) (score (map_delete left id)))
  ]

  -- The stats after the loop count as much as the entries that it starts with.
  score-user_loop :
      (stats left : List BuildScoreStat)
      → score (user_loop stats left).0 +ℤ score (user_loop stats left).1 ≡ score left
  unfolding user_loop
  score-user_loop [] left = zero_left (score left)
  score-user_loop (s ∷ rest) left = elim (Option-cases (map_get left s.id)) [
    | inl e ↦
        let (done, last) = user_loop rest left in
        rw (e, user_loop)
          (ap (λ a. a +ℤ score last) (zero_left (score done)) ∙ score-user_loop rest left)
    | inr (ps, e) ↦
        let after = map_delete left s.id in
        let (done, last) = user_loop rest after in
        rw (e, user_loop)
          (+ℤ_assoc (share ps) (score done) (score last)
            ∙ ap (λ a. share ps +ℤ a) (score-user_loop rest after)
            ∙ sym (score-delete left s.id ps e))
  ]

-- A preset of the user takes the whole score over: whatever stats there were, after it is applied
-- the score is that of the preset's own stats, of which the last of an id counts.
pub apply_user_preset-score :
    (state : BuildScoreState) (preset : List BuildScoreStat) (which : Which)
    → compute_score (apply_user_preset state preset) which
      ≡ compute_score (record state { stats = map_of preset [] }) which
unfolding compute_score apply_user_preset
apply_user_preset-score state preset which =
    let values = values_of state which in
    let entries = map_of preset [] in
    let (done, last) = user_loop state.stats entries in
    score_loop_sum values (done ++ last) (pos 0)
    ∙ ap (λ a. pos 0 +ℤ a)
        (score-append values done last ∙ score-user_loop values state.stats entries)
    ∙ sym (score_loop_sum values entries (pos 0))
