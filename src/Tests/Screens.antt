-- ===== src/Tests/Screens.antt =====
-- The economy, the overlay and the build score on concrete input.
use aion2_hub.Prelude.{
  ◌≡◌, refl, String, Bool, true, false, ◌&&◌, ◌||◌, ◌===◌, [], ◌∷◌, ◌++◌, Option, none, some,
  length, if◌then◌else◌, arith, ◌==◌,
}
use aion2_hub.Prelude.Int.{pos, ◌≤ℤ◌}
use aion2_hub.Text.{trim, is_empty, codes}
use aion2_hub.Sql.{ok, err, statement_failed, exists_where, one_where}
use aion2_hub.Economy.{
  EconomyItem, EconomyPriceWatch, EconomyPriceWatchOp, EconomyDb, list_economy_items,
  upsert_economy_item_by_name,
}
use aion2_hub.Economy.Prices.{TriggerInput, trigger_watches_for_price}
use aion2_hub.Economy.Upserts.{has_name, upsert_economy_item_by_name-again}
use aion2_hub.Economy.Triggers.{hits, alerts_of, trigger_watches_for_price-alerts}
use aion2_hub.Economy.Search.{Refuses, list_economy_items-fails}
use aion2_hub.Overlay.{
  WindowBounds, Overlay, initial, min_window, clamp_bounds_to_display, set_enabled, on_focus,
  on_change, on_unavailable, resume_with, is_game_title,
}
use aion2_hub.Overlay.Bounds.{IsInside, clamp_bounds_to_display-IsInside}
use aion2_hub.Overlay.Visibility.{has_window, is_visible}
use aion2_hub.Overlay.Reachable.{Step, Reach, IsConsistent, Reach-IsConsistent}
use aion2_hub.Overlay.Shown.{is_shown, on_event-shown}
use aion2_hub.BuildScore.{
  BuildScoreUnit, BuildScoreStat, BuildScoreState, Which, ClassStat, compute_score, map_of,
  apply_user_preset, apply_class_preset,
}
use aion2_hub.BuildScore.Presets.{apply_user_preset-score}
use aion2_hub.BuildScore.ClassPresets.{last_of, stat_of, counts, set_to, apply_class_preset-counts}
use aion2_hub.Tests.Data.{tally, tally_inj}

abbrev ore : EconomyItem
ore = record {
  id = "i1";
  name = "Ore";
  category = some "Material";
  note = none;
  created_at = "2026-01-01";
  updated_at = "2026-01-01";
}

abbrev cheap : EconomyPriceWatch
cheap = record {
  id = "w1";
  server = "Siel";
  item_id = "i1";
  op = EconomyPriceWatchOp.le;
  threshold = 100;
  active = true;
  created_at = "2026-01-02";
  updated_at = "2026-01-02";
}

abbrev market : EconomyDb
market = record { items = ore ∷ []; prices = []; watches = cheap ∷ []; alerts = [] }

upsert_economy_item_by_name-again_example :
    (item : EconomyItem) × (after : EconomyDb) × (upsert_economy_item_by_name market " Ore " none
        none "i2" "2026-01-03"
      ≡ ok (item, after))
    × (item.name ≡ trim " Ore ")
    × (one_where (has_name (trim " Ore ")) after.items ≡ some item)
    × ((id' now' : String)
        → (last : EconomyDb) × (upsert_economy_item_by_name after " Ore " none none id' now'
            ≡ ok (record item { updated_at = now' }, last))
          × (length last.items ≡ length after.items))
unfolding exists_where ◌===◌ trim is_empty
upsert_economy_item_by_name-again_example =
    upsert_economy_item_by_name-again market " Ore " none none "i2" "2026-01-03" refl refl

abbrev seen : TriggerInput
seen = record {
  server = "Siel";
  item_id = "i1";
  item_name = "Ore";
  price = 90;
  triggered_at = "2026-01-03";
}

trigger_watches_for_price-alerts_example :
    let fired = alerts_of tally seen 0 (hits seen market.watches) in
    trigger_watches_for_price tally market seen
    ≡ ok (fired, record market { alerts = market.alerts ++ fired })
unfolding exists_where ◌===◌
trigger_watches_for_price-alerts_example =
    trigger_watches_for_price-alerts tally market seen tally_inj (λ k. refl)

-- A `LIKE` that finds nothing and refuses what SQLite refuses.
abbrev no_match : String → String → String → Option Bool
no_match pattern escape text = if length (codes escape) == 1 then some false else none

no_match-Refuses : Refuses no_match
no_match-Refuses pattern escape text h = ground (arith, h)

list_economy_items-fails_example :
    list_economy_items no_match market (some "or") none ≡ err statement_failed
unfolding trim is_empty
list_economy_items-fails_example =
    list_economy_items-fails no_match market "or" none ore [] no_match-Refuses refl refl

abbrev screen_area : WindowBounds
screen_area = record { x = pos 0; y = pos 0; width = pos 1920; height = pos 1040 }

abbrev off_screen : WindowBounds
off_screen = record { x = pos 1800; y = pos 20; width = pos 380; height = pos 620 }

clamp_bounds_to_display-IsInside_example :
    IsInside screen_area (clamp_bounds_to_display (λ b. screen_area) off_screen)
    × (IsInside screen_area off_screen
        → min_window ≤ℤ off_screen.width
        → min_window ≤ℤ off_screen.height
        → clamp_bounds_to_display (λ b. screen_area) off_screen ≡ off_screen)
clamp_bounds_to_display-IsInside_example =
    clamp_bounds_to_display-IsInside (λ b. screen_area) off_screen

abbrev lower_none : String → String
lower_none s = s

abbrev waiting : Overlay
waiting = set_enabled true off_screen (initial none)

Reach-IsConsistent_example : IsConsistent waiting
Reach-IsConsistent_example =
    Reach-IsConsistent lower_none none
      (Reach.then Reach.here (Step.enabled true off_screen (initial none)))

on_event-shown_example :
    (is_visible (on_focus true waiting) ≡ (
      has_window waiting && is_shown waiting.enabled waiting.auto_mode waiting.game_focused true))
    × (is_visible (on_change lower_none "aion2" waiting) ≡ (
        has_window waiting
        && is_shown waiting.enabled waiting.auto_mode
            (is_game_title lower_none "aion2")
            waiting.overlay_focused))
    × (is_visible (on_unavailable waiting) ≡ (has_window waiting && waiting.enabled))
    × (is_visible (resume_with true waiting.window true waiting) ≡ (
        has_window waiting
        && is_shown waiting.enabled
            (waiting.watcher || true)
            waiting.game_focused
            waiting.overlay_focused))
on_event-shown_example =
    on_event-shown lower_none none waiting true "aion2"
      (Reach.then Reach.here (Step.enabled true off_screen (initial none)))

abbrev power : BuildScoreStat
power = record {
  id = "power";
  label = "Power";
  unit = BuildScoreUnit.flat;
  enabled = true;
  weight = pos 3;
}

abbrev build : BuildScoreState
build = record {
  updated_at = "2026-01-01";
  stats = power ∷ record power { id = "speed" } ∷ [];
  set_a = record { name = "A"; values = ("power", pos 10) ∷ ("speed", pos 5) ∷ [] };
  set_b = record { name = "B"; values = [] };
}

apply_user_preset-score_example :
    compute_score (apply_user_preset build (record power { weight = pos 2 } ∷ [])) Which.a
    ≡ compute_score
        (record build { stats = map_of (record power { weight = pos 2 } ∷ []) [] })
        Which.a
apply_user_preset-score_example =
    apply_user_preset-score build (record power { weight = pos 2 } ∷ []) Which.a

abbrev fast : ClassStat
fast = record { id = "speed"; enabled = true; weight = pos 7 }

apply_class_preset-counts_example :
    counts (stat_of (apply_class_preset [] build (fast ∷ [])).stats "speed")
    ≡ set_to (last_of (fast ∷ []) "speed") (stat_of build.stats "speed")
unfolding exists_where ◌===◌
apply_class_preset-counts_example =
    apply_class_preset-counts [] build (fast ∷ []) "speed" (refl, (refl, tt))
