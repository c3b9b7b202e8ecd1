-- ===== src/Recommend/Renderer.antt =====
-- What `recommendPlannerItems` of the renderer promises.
use mathlib.Core.List.{append-nil, append_assoc}
use aion2_hub.Prelude.{
  ℕ, ◌+◌, ◌-◌, ◌≤◌, ◌≡◌, refl, inl, inr, List, [], ◌∷◌, ◌++◌, String, Option, none, some, map,
  length, arith, Option-cases,
}
use aion2_hub.Prelude.Int.{ℤ, pos, negsuc}
use aion2_hub.Prelude.Number.{Number, finite, not_finite, floor_at_zero}
use aion2_hub.Prelude.Sort.{Selection, sort_by, total}
use aion2_hub.Recommend.{
  PlannerRecommendItem, PlannerRecommendPick, clamp_minutes, avg_minutes, base_minutes,
  to_candidate, pick_loop, recommend_planner_items,
}
use aion2_hub.Recommend.Greedy.{greedy, greedy-Selection, total-greedy, greedy_sorted-max}

abbrev pub minutes : PlannerRecommendPick → ℕ
minutes c = c.estimate_minutes

-- The loop is the greedy choice from what is left of the budget.
pub pick_loop-greedy :
    (budget : ℕ) (xs picked : List PlannerRecommendPick) (sum : ℕ)
    → sum ≤ budget
    → pick_loop budget xs picked sum ≡ (
      picked ++ greedy minutes (budget - sum) xs,
      sum + total minutes (greedy minutes (budget - sum) xs),
    )
unfolding pick_loop greedy
pick_loop-greedy budget [] picked sum h = ground (arith, append-nil picked)
pick_loop-greedy budget (it ∷ rest) picked sum h =
    let m = it.estimate_minutes in
    let less : budget - (sum + m) ≡ budget - sum - m = omega arith in
    ground (
      arith,
      less,
      pick_loop-greedy budget rest picked sum h,
      pick_loop-greedy budget rest (picked ++ it ∷ []) (sum + m),
      append_assoc picked (it ∷ []) (greedy minutes (budget - sum - m) rest),
    )

-- The minutes of a candidate are those of a day's length at most, and never none.
clamp_minutes_bounds : (n d m : ℕ) → (1 ≤ clamp_minutes n d m) × (clamp_minutes n d m ≤ 240)
unfolding clamp_minutes
clamp_minutes_bounds n d m = omega arith

abbrev IsMinutes : ℕ → Type 0
IsMinutes m = (1 ≤ m) × (m ≤ 240)

base_minutes-IsMinutes : (x : Number) → IsMinutes (base_minutes x)
unfolding base_minutes
base_minutes-IsMinutes (finite (pos n) d) = ground (arith, clamp_minutes_bounds n d 1)
base_minutes-IsMinutes (finite (negsuc n) d) = omega arith
base_minutes-IsMinutes not_finite = omega arith

avg_minutes-IsMinutes : (o : Option Number) {m : ℕ} → avg_minutes o ≡ some m → IsMinutes m
unfolding avg_minutes
avg_minutes-IsMinutes (some (finite (pos n) d)) e = ground (arith, clamp_minutes_bounds n d 60)
avg_minutes-IsMinutes (some (finite (negsuc n) d)) e = cc
avg_minutes-IsMinutes (some not_finite) e = cc
avg_minutes-IsMinutes none e = cc

to_candidate_bounds :
    (avg_seconds : String → Option Number) (it : PlannerRecommendItem)
    → IsMinutes (to_candidate avg_seconds it).estimate_minutes
unfolding to_candidate
to_candidate_bounds avg_seconds it =
    elim (Option-cases (avg_minutes (avg_seconds it.template_id))) [
      | inl e ↦ rw (e, to_candidate) (base_minutes-IsMinutes it.estimate_minutes)
      | inr (m, e) ↦ rw (e, to_candidate) (avg_minutes-IsMinutes (avg_seconds it.template_id) e)
    ]

module _ (n : ℤ) (d : ℕ) (items : List PlannerRecommendItem)
    (avg_seconds : String → Option Number) where
  abbrev pub candidates : List PlannerRecommendPick
  candidates = map (to_candidate avg_seconds) items

  picks : List PlannerRecommendPick
  picks = greedy minutes (floor_at_zero n d) (sort_by minutes candidates)

  plan :
      recommend_planner_items n d items avg_seconds
      ≡ record { picked = picks; total_minutes = total minutes picks }
  unfolding recommend_planner_items picks
  plan =
      rw (pick_loop-greedy (floor_at_zero n d) (sort_by minutes candidates) [] 0 (omega arith))
        (ground arith)

-- The plan's total is the sum of its picks and at most the whole minutes of the budget, and the
-- picks are the candidates, shortest first, less those that are left out.
pub recommend_planner_items_fits :
    (n : ℤ) (d : ℕ) (items : List PlannerRecommendItem) (avg_seconds : String → Option Number)
    → let r = recommend_planner_items n d items avg_seconds in
      (r.total_minutes ≡ total minutes r.picked)
      × (r.total_minutes ≤ floor_at_zero n d)
      × Selection r.picked (sort_by minutes (map (to_candidate avg_seconds) items))
unfolding picks
recommend_planner_items_fits n d items avg_seconds =
    let ordered = sort_by minutes (candidates n d items avg_seconds) in
    rw (plan n d items avg_seconds) (
      refl,
      total-greedy minutes (floor_at_zero n d) ordered,
      greedy-Selection minutes (floor_at_zero n d) ordered,
    )

-- No choice of candidates whose minutes fit into the budget has more items than the plan.
pub recommend_planner_items_max :
    (n : ℤ) (d : ℕ) (items : List PlannerRecommendItem) (avg_seconds : String → Option Number)
    {s : List PlannerRecommendPick}
    → Selection s (map (to_candidate avg_seconds) items)
    → total minutes s ≤ floor_at_zero n d
    → length s ≤ length (recommend_planner_items n d items avg_seconds).picked
unfolding picks
recommend_planner_items_max n d items avg_seconds r le =
    rw (plan n d items avg_seconds)
      (greedy_sorted-max minutes (floor_at_zero n d) (candidates n d items avg_seconds) r le)
