-- ===== src/Tests/Services.antt =====
-- The scheduler and the loading of pages on concrete input.
use aion2_hub.Prelude.{ℕ, suc, ◌≡◌, ◌≢◌, refl, String, ◌===◌, false, [], ◌∷◌, Option, none, some}
use aion2_hub.Sql.{one_where}
use aion2_hub.Scheduler.{Reason, initial_scheduler, run, start_notices_scheduler}
use aion2_hub.Scheduler.Runs.{Step, Reach, IsSingle, Reach-IsSingle, run-stuck}
use aion2_hub.Modules.{
  HubModule, LoadCache, Loading, cached, load_key, load_fails, load_module_page,
  resolve_module_page, get_module_by_id, find_page,
}
use aion2_hub.Modules.Loads.{load_module_page-once}

Reach-IsSingle_example : IsSingle (run Reason.manual none (start_notices_scheduler none))
Reach-IsSingle_example =
    Reach-IsSingle
      (Reach.then Reach.started (Step.runs Reason.manual (start_notices_scheduler none)))

run-stuck_example :
    let after = run Reason.startup (some ("no network", 5)) initial_scheduler in
    (after.status.running ≡ false)
    × (after.calls ≡ suc initial_scheduler.calls)
    × ((next : Reason) (thrown : Option (String × ℕ)) → run next thrown after ≡ after)
run-stuck_example = run-stuck Reason.startup "no network" 5 initial_scheduler refl

abbrev planner_module : HubModule
planner_module = record {
  id = "planner";
  name = "Planner";
  version = "1";
  pages = record { id = "today"; title = "Today"; href = "/today" } ∷ [];
  widgets = [];
}

abbrev no_loads : LoadCache
no_loads = record { entries = []; calls = 0 }

load_module_page-once_example :
    let key = load_key "planner" "today" in
    let (loading, after) = load_module_page (planner_module ∷ []) "planner" "today" no_loads in
    (n : ℕ) × (loading ≡ Loading.promise n)
    × (load_module_page (planner_module ∷ []) "planner" "today" after ≡ (loading, after))
    × ((other : String) → key ≢ other → cached after.entries other ≡ cached no_loads.entries other)
    × ((load_module_page (planner_module ∷ []) "planner" "today" (load_fails key after)).0
        ≡ Loading.promise after.calls)
unfolding resolve_module_page find_page get_module_by_id one_where ◌===◌
load_module_page-once_example =
    load_module_page-once (planner_module ∷ []) "planner" "today" no_loads refl
