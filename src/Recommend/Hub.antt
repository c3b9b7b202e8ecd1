-- ===== src/Recommend/Hub.antt =====
-- What `recommendForBudget` of the web planner promises: packages/modules/planner/lib/recommend.ts.
use mathlib.Core.List.{append-nil, append_assoc}
use aion2_hub.Prelude.{
  ℕ, zero, suc, ◌+◌, ◌-◌, ◌≤◌, ◌≡◌, refl, inl, inr, true, false, Bool-cases, ltb, Option, none,
  some, List, [], ◌∷◌, ◌++◌, length, arith,
}
use aion2_hub.Prelude.Int.{ℤ, pos, negsuc, ◌-ℤ◌}
use aion2_hub.Prelude.Sort.{
  All, Selection, Selection-All, Selection-trans, Selection-sort_by, All-sort_by, sort_by, total,
}
use aion2_hub.Recommend.{
  RecommendCandidate, seconds_of, is_usable, usable, select_loop, at_least_zero,
  recommend_for_budget,
}
use aion2_hub.Recommend.Greedy.{greedy, greedy-Selection, total-greedy, greedy_sorted-max}

-- The finite estimate of a candidate.
abbrev pub estimate : RecommendCandidate → ℕ
estimate c = elim c.estimated_seconds [ some (pos n) ↦ n | _ ↦ 0 ]

-- The estimate is finite and positive.
abbrev pub IsPositive : RecommendCandidate → Type 0
IsPositive c = (n : ℕ) × (c.estimated_seconds ≡ some (pos (suc n)))

-- The loop is the greedy choice from what remains.
select_loop-greedy :
    (xs selected : List RecommendCandidate) (remaining : ℕ)
    → select_loop xs selected remaining ≡ (
      selected ++ greedy seconds_of remaining xs,
      remaining - total seconds_of (greedy seconds_of remaining xs),
    )
unfolding select_loop greedy
select_loop-greedy [] selected remaining = ground (arith, append-nil selected)
select_loop-greedy (c ∷ rest) selected remaining =
    let m = seconds_of c in
    ground (
      arith,
      select_loop-greedy rest selected remaining,
      select_loop-greedy rest (selected ++ c ∷ []) (remaining - m),
      append_assoc selected (c ∷ []) (greedy seconds_of (remaining - m) rest),
    )

module _ (candidates : List RecommendCandidate) (budget_seconds : ℤ) where
  chosen : List RecommendCandidate
  chosen = greedy seconds_of (at_least_zero budget_seconds) (sort_by seconds_of (usable candidates))

  result : recommend_for_budget candidates budget_seconds ≡ record {
    selected = chosen;
    total_seconds = budget_seconds -ℤ pos (at_least_zero budget_seconds - total seconds_of chosen);
    remaining_seconds = at_least_zero budget_seconds - total seconds_of chosen;
  }
  unfolding recommend_for_budget chosen
  result = rw (
      select_loop-greedy (sort_by seconds_of (usable candidates)) [] (at_least_zero budget_seconds))

positive_of :
    (o : Option ℤ)
    → elim o [ some (pos n) ↦ ltb 0 n | _ ↦ false ] ≡ true
    → (n : ℕ) × (o ≡ some (pos (suc n)))
positive_of none e = absurd cc
positive_of (some (pos zero)) e = absurd cc
positive_of (some (pos (suc n))) e = (n, refl)
positive_of (some (negsuc n)) e = absurd cc

IsPositive-is_usable : (c : RecommendCandidate) → IsPositive c → is_usable c ≡ true
unfolding is_usable
IsPositive-is_usable c (n, e) = rw e (ground arith)

usable-IsPositive : (cs : List RecommendCandidate) → All IsPositive (usable cs)
unfolding usable is_usable
usable-IsPositive [] = tt
usable-IsPositive (c ∷ cs) = elim (Bool-cases (is_usable c)) [
  | inl e ↦ rw e (positive_of c.estimated_seconds e, usable-IsPositive cs)
  | inr e ↦ rw e (usable-IsPositive cs)
]

usable-Selection : (cs : List RecommendCandidate) → Selection (usable cs) cs
unfolding usable
usable-Selection [] = Selection.nothing
usable-Selection (c ∷ cs) = elim (Bool-cases (is_usable c)) [
  | inl e ↦ rw e (Selection.take c (usable-Selection cs))
  | inr e ↦ rw e (Selection.skip c (usable-Selection cs))
]

-- What has positive estimates only is selected from the usable candidates.
Selection-usable :
    {s cs : List RecommendCandidate} → Selection s cs → All IsPositive s → Selection s (usable cs)
unfolding usable
Selection-usable Selection.nothing h = Selection.nothing
Selection-usable (Selection.skip c r) h = elim (Bool-cases (is_usable c)) [
  | inl e ↦ rw e (Selection.skip c (Selection-usable r h))
  | inr e ↦ rw e (Selection-usable r h)
]
Selection-usable (Selection.take c r) h =
    rw (IsPositive-is_usable c h.0) (Selection.take c (Selection-usable r h.1))

-- Nothing positive fits into nothing.
greedy_nothing : (cs : List RecommendCandidate) → All IsPositive cs → greedy seconds_of 0 cs ≡ []
unfolding greedy seconds_of
greedy_nothing [] h = refl
greedy_nothing (c ∷ cs) ((n, e), h) =
    rw (e, greedy, seconds_of) (ground (arith, greedy_nothing cs h))

chosen-IsPositive :
    (cs : List RecommendCandidate) (budget : ℕ)
    → All IsPositive (greedy seconds_of budget (sort_by seconds_of (usable cs)))
chosen-IsPositive cs budget =
    Selection-All IsPositive (greedy-Selection seconds_of budget (sort_by seconds_of (usable cs)))
      (All-sort_by seconds_of IsPositive (usable cs) (usable-IsPositive cs))

-- With a budget that is not negative, the selected items are candidates in the order of their
-- estimates, each with a positive finite estimate; the total is the sum of their estimates, and
-- what remains makes it up to the budget. No other choice of candidates with positive finite
-- estimates that fits into the budget has more items.
pub recommend_for_budget_lem :
    (candidates : List RecommendCandidate) (budget : ℕ)
    → let r = recommend_for_budget candidates (pos budget) in
      Selection r.selected (sort_by estimate candidates)
      × All IsPositive r.selected
      × (r.total_seconds ≡ pos (total estimate r.selected))
      × (total estimate r.selected + r.remaining_seconds ≡ budget)
      × ((s : List RecommendCandidate)
          → Selection s candidates
          → All IsPositive s
          → total estimate s ≤ budget
          → length s ≤ length r.selected)
unfolding chosen ◌-ℤ◌ seconds_of
recommend_for_budget_lem candidates budget =
    let sorted = sort_by seconds_of (usable candidates) in
    let fits = total-greedy seconds_of budget sorted in
    rw (result candidates (pos budget)) (
      Selection-trans (greedy-Selection seconds_of budget sorted)
          (Selection-sort_by seconds_of (usable-Selection candidates)),
      chosen-IsPositive candidates budget,
      ground (arith, fits),
      omega (arith, fits),
      λ s r h le. greedy_sorted-max seconds_of budget (usable candidates) (Selection-usable r h) le,
    )

-- With a negative budget nothing is selected and nothing remains, and the total that is reported is
-- the budget itself, a negative number, and not the sum of no seconds.
pub recommend_for_budget_negative :
    (candidates : List RecommendCandidate) (n : ℕ)
    → let r = recommend_for_budget candidates (negsuc n) in
      (r.selected ≡ []) × (r.total_seconds ≡ negsuc n) × (r.remaining_seconds ≡ 0)
unfolding chosen ◌-ℤ◌
recommend_for_budget_negative candidates n =
    let none_fits =
      greedy_nothing (sort_by seconds_of (usable candidates))
        (All-sort_by seconds_of IsPositive (usable candidates) (usable-IsPositive candidates)) in
    rw (result candidates (negsuc n)) (none_fits, rw none_fits (ground arith), rw none_fits refl)
