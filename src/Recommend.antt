-- ===== src/Recommend.antt =====
-- The two greedy recommenders: apps/desktop/src/renderer/src/planner/recommend.ts, and
-- packages/modules/planner/lib/recommend.ts. Both take the shortest items first, as long as
-- they fit into a budget.
pub mod Greedy
pub mod Renderer
pub mod Hub
use aion2_hub.Prelude.{
  ℕ, ◌+◌, ◌-◌, ◌<◌, ◌≡◌, List, [], ◌∷◌, ◌++◌, String, Bool, true, false, ◌&&◌, Option, none, some,
  leb, ltb, if◌then◌else◌, map, max, min,
}
use aion2_hub.Prelude.Int.{ℤ, pos, negsuc, ◌-ℤ◌}
use aion2_hub.Prelude.Number.{Number, finite, not_finite, floor_at_zero, round_div, is_positive}
use aion2_hub.Prelude.Sort.{sort_by}

pub data Source : Type 0 where
  avg estimate : Source

pub record PlannerRecommendItem : Type 0 where
  pub template_id : String
  pub estimate_minutes : Number

pub record PlannerRecommendPick : Type 0 where
  pub template_id : String
  pub estimate_minutes : ℕ
  pub source : Source

-- `Math.min(240, Math.max(1, Math.round(x / m)))`.
unfoldable pub clamp_minutes : ℕ → ℕ → ℕ → ℕ
clamp_minutes n d m = min 240 (max 1 (round_div n d m))

-- The average of a template in minutes, where it is a positive finite number.
unfoldable pub avg_minutes : Option Number → Option ℕ
unfolding clamp_minutes
avg_minutes (some (finite (pos n) d)) = if ltb 0 n then some (clamp_minutes n d 60) else none
avg_minutes _ = none

unfoldable pub base_minutes : Number → ℕ
unfolding clamp_minutes
base_minutes (finite (pos n) d) = if ltb 0 n then clamp_minutes n d 1 else 5
base_minutes _ = 5

unfoldable pub to_candidate : (String → Option Number) → PlannerRecommendItem → PlannerRecommendPick
unfolding avg_minutes base_minutes
to_candidate avg_seconds it = elim (avg_minutes (avg_seconds it.template_id)) [
  | some m ↦ record { template_id = it.template_id; estimate_minutes = m; source = avg }
  | none ↦ record {
    template_id = it.template_id;
    estimate_minutes = base_minutes it.estimate_minutes;
    source = estimate;
  }
]

-- The loop over the ordered candidates, with what is picked and its sum.
unfoldable pub pick_loop :
    ℕ → List PlannerRecommendPick → List PlannerRecommendPick → ℕ → List PlannerRecommendPick × ℕ
pick_loop budget [] picked sum = (picked, sum)
pick_loop budget (it ∷ rest) picked sum =
    let skipped = pick_loop budget rest picked sum in
    let taken = pick_loop budget rest (picked ++ it ∷ []) (sum + it.estimate_minutes) in
    if ltb budget (sum + it.estimate_minutes) then skipped else taken

pub record RecommendPlan : Type 0 where
  pub picked : List PlannerRecommendPick
  pub total_minutes : ℕ

unfoldable pub recommend_planner_items :
    ℤ → ℕ → List PlannerRecommendItem → (String → Option Number) → RecommendPlan
recommend_planner_items n d items avg_seconds =
    let candidates = map (to_candidate avg_seconds) items in
    let ordered = sort_by (λ (c : PlannerRecommendPick). c.estimate_minutes) candidates in
    let (picked, sum) = pick_loop (floor_at_zero n d) ordered [] 0 in
    record { picked = picked; total_minutes = sum }

-- The web planner. Finite estimates and a finite budget are counted in a unit that all of them are
-- multiples of: a second, or a fraction of it, since the code only compares and subtracts. `none` is
-- a NaN or an infinity. Subtraction is exact, without the rounding of large or small numbers.
pub record RecommendCandidate : Type 0 where
  pub id : String
  pub estimated_seconds : Option ℤ

pub record RecommendResult : Type 0 where
  pub selected : List RecommendCandidate
  pub total_seconds : ℤ
  pub remaining_seconds : ℕ

-- A candidate's seconds once the filter has let it through.
unfoldable pub seconds_of : RecommendCandidate → ℕ
seconds_of c = elim c.estimated_seconds [ some (pos n) ↦ n | _ ↦ 0 ]

unfoldable pub is_usable : RecommendCandidate → Bool
is_usable c = elim c.estimated_seconds [ some (pos n) ↦ ltb 0 n | _ ↦ false ]

unfoldable pub usable : List RecommendCandidate → List RecommendCandidate
unfolding is_usable
usable [] = []
usable (c ∷ cs) = let rest = usable cs in if is_usable c then c ∷ rest else rest

unfoldable pub select_loop :
    List RecommendCandidate → List RecommendCandidate → ℕ → List RecommendCandidate × ℕ
select_loop [] selected remaining = (selected, remaining)
select_loop (c ∷ rest) selected remaining =
    let taken = select_loop rest (selected ++ c ∷ []) (remaining - seconds_of c) in
    let skipped = select_loop rest selected remaining in
    if leb (seconds_of c) remaining then taken else skipped

abbrev pub at_least_zero : ℤ → ℕ
at_least_zero (pos n) = n
at_least_zero (negsuc n) = 0

unfoldable pub recommend_for_budget : List RecommendCandidate → ℤ → RecommendResult
recommend_for_budget candidates budget_seconds =
    let sorted = sort_by seconds_of (usable candidates) in
    let (selected, remaining) = select_loop sorted [] (at_least_zero budget_seconds) in
    record {
      selected = selected;
      total_seconds = budget_seconds -ℤ pos remaining;
      remaining_seconds = remaining;
    }
