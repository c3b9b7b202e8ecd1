-- ===== src/Tests/Plans.antt =====
-- The recommenders on concrete items.
use aion2_hub.Prelude.{◌+◌, ◌≤◌, ◌≡◌, length, map, List, [], ◌∷◌, String, Option, none, some, arith}
use aion2_hub.Prelude.Int.{pos, negsuc}
use aion2_hub.Prelude.Number.{Number, whole}
use aion2_hub.Prelude.Sort.{All, Selection, total, sort_by}
use aion2_hub.Recommend.{
  PlannerRecommendItem, to_candidate, recommend_planner_items, RecommendCandidate,
  recommend_for_budget,
}
use aion2_hub.Recommend.Renderer.{
  minutes, recommend_planner_items_fits, recommend_planner_items_max,
}
use aion2_hub.Recommend.Hub.{
  estimate, IsPositive, recommend_for_budget_lem, recommend_for_budget_negative,
}

abbrev long_item : PlannerRecommendItem
long_item = record { template_id = "long"; estimate_minutes = whole 50 }

abbrev short_item : PlannerRecommendItem
short_item = record { template_id = "short"; estimate_minutes = whole 10 }

abbrev two_items : List PlannerRecommendItem
two_items = long_item ∷ short_item ∷ []

abbrev no_average : String → Option Number
no_average id = none

recommend_planner_items_fits_example :
    let r = recommend_planner_items (pos 30) 0 two_items no_average in
    (r.total_minutes ≡ total minutes r.picked)
    × (r.total_minutes ≤ 30)
    × Selection r.picked (sort_by minutes (map (to_candidate no_average) two_items))
recommend_planner_items_fits_example = recommend_planner_items_fits (pos 30) 0 two_items no_average

recommend_planner_items_max_example :
    1 ≤ length (recommend_planner_items (pos 30) 0 two_items no_average).picked
unfolding to_candidate
recommend_planner_items_max_example =
    recommend_planner_items_max (pos 30) 0 two_items no_average
      (Selection.skip (to_candidate no_average long_item)
        (Selection.take (to_candidate no_average short_item) Selection.nothing))
      (omega arith)

abbrev two_candidates : List RecommendCandidate
two_candidates =
    record { id = "a"; estimated_seconds = some (pos 900) }
    ∷ record { id = "b"; estimated_seconds = none }
    ∷ []

recommend_for_budget_lem_example :
    let r = recommend_for_budget two_candidates (pos 1000) in
    Selection r.selected (sort_by estimate two_candidates)
    × All IsPositive r.selected
    × (r.total_seconds ≡ pos (total estimate r.selected))
    × (total estimate r.selected + r.remaining_seconds ≡ 1000)
    × ((s : List RecommendCandidate)
        → Selection s two_candidates
        → All IsPositive s
        → total estimate s ≤ 1000
        → length s ≤ length r.selected)
recommend_for_budget_lem_example = recommend_for_budget_lem two_candidates 1000

recommend_for_budget_negative_example :
    let r = recommend_for_budget two_candidates (negsuc 4) in
    (r.selected ≡ []) × (r.total_seconds ≡ negsuc 4) × (r.remaining_seconds ≡ 0)
recommend_for_budget_negative_example = recommend_for_budget_negative two_candidates 4
