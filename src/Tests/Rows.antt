-- ===== src/Tests/Rows.antt =====
-- The planner's tables on concrete rows.
use aion2_hub.Prelude.{
  ℕ, ◌+◌, ◌≤◌, ◌<◌, ◌≡◌, ◌≢◌, refl, min, length, map, List, [], ◌∷◌, String, true, false, ◌===◌,
  Option, none, some, if◌then◌else◌, arith, ◌⊎◌,
}
use aion2_hub.Prelude.Int.{pos}
use aion2_hub.Prelude.Sort.{All}
use aion2_hub.Text.{trim, is_empty}
use aion2_hub.Sql.{ok, exists_where, one_where, select_where}
use aion2_hub.Planner.{AppCharacter, TemplateType, PlannerTemplate, Database, resolve_date}
use aion2_hub.Planner.Characters.{CharacterInput, new_character, get_character, create_character}
use aion2_hub.Planner.Templates.{TemplateInput, new_template, create_planner_template}
use aion2_hub.Planner.Assigned.{
  is_assigned, create_character-IsAssigned, create_planner_template-IsAssigned,
}
use aion2_hub.Planner.Keys.History.{empty_database}
use aion2_hub.Planner.Progress.{CompletionInput, set_planner_completion, use_charge, undo_charge}
use aion2_hub.Planner.Progress.Undo.{use_charge-undo_charge}
use aion2_hub.Planner.Overview.{is_done, sort_rows, checklist_item, charge_item}
use aion2_hub.Planner.Overview.Checklist.{
  of_type, same_key, set_planner_completion-is_done, sort_rows-select,
}
use aion2_hub.Planner.Overview.Charges.{charge_item-next}
use aion2_hub.Planner.Presets.{
  Mode, RawTemplate, PresetCounts, prepared, normalized_templates, apply_planner_preset,
}
use aion2_hub.Planner.Presets.Counts.{apply_planner_preset-again}
use aion2_hub.Planner.Settings.{
  SettingsInput, PlannerSettingsScope, set_planner_settings_for_server,
  clear_planner_settings_for_server,
}
use aion2_hub.Planner.Settings.Reads.{settings_of}
use aion2_hub.Planner.Settings.Effective.{in_force, set_planner_settings_for_server-effective}
use aion2_hub.Tests.Data.{tally, tally_inj, arena, small}

abbrev bert : CharacterInput
bert = record { name = "Bert"; server = none; class = none }

create_character-IsAssigned_example :
    (after : Database) × (create_character small bert "c2" 7 ≡ ok after)
    × (get_character after "c2"
        ≡ some (record {
          id = "c2";
          name = "Bert";
          server = none;
          class = none;
          created_at = 7;
          updated_at = 7;
        }))
    × All (λ (t : PlannerTemplate). is_assigned after.assignments "c2" t.id ≡ true) small.templates
    × ((c t : String)
        → is_assigned small.assignments c t ≡ true
        → is_assigned after.assignments c t ≡ true)
unfolding exists_where ◌===◌
create_character-IsAssigned_example = create_character-IsAssigned small bert "c2" 7 refl (λ t. refl)

abbrev weekly_raid : TemplateInput
weekly_raid = record {
  title = "Raid";
  type = TemplateType.weekly;
  estimate_minutes = some (pos 90, 0);
  recharge_hours = none;
  max_stacks = none;
}

create_planner_template-IsAssigned_example :
    (after : Database) × (create_planner_template small weekly_raid "t3" 7 ≡ ok after)
    × (one_where (λ (t : PlannerTemplate). t.id === "t3") after.templates
        ≡ some (new_template weekly_raid "t3" 7))
    × All (λ (c : AppCharacter). is_assigned after.assignments c.id "t3" ≡ true) small.characters
    × ((c t : String)
        → is_assigned small.assignments c t ≡ true
        → is_assigned after.assignments c t ≡ true)
unfolding exists_where ◌===◌
create_planner_template-IsAssigned_example =
    create_planner_template-IsAssigned small weekly_raid "t3" 7 refl (λ c. refl)

abbrev one_character : Database
one_character = record empty_database { characters = new_character bert "c2" 7 ∷ [] }

abbrev no_dates : String → Option ℕ
no_dates s = none

abbrev done_today : CompletionInput
done_today = record {
  character_id = "c1";
  template_id = "t1";
  period_key = "D:2026-01-10";
  completed = true;
  at_iso = none;
}

set_planner_completion-is_done_example :
    (after : Database) × (set_planner_completion no_dates small done_today 50 "d1" ≡ ok after)
    × ((c p t : String)
        → is_done after c p t ≡ (if same_key done_today c p t then true else is_done small c p t))
unfolding exists_where ◌===◌
set_planner_completion-is_done_example =
    set_planner_completion-is_done no_dates small done_today 50 "d1" refl

sort_rows-select_example :
    let s = sort_rows small "c1" "D:2026-01-10" "W:2026-01-05" 5000 small.templates in
    (s.daily
      ≡ map
          (λ (t : PlannerTemplate). checklist_item t (is_done small "c1" "D:2026-01-10" t.id))
          (select_where (of_type TemplateType.daily) small.templates))
    × (s.weekly
        ≡ map
            (λ (t : PlannerTemplate). checklist_item t (is_done small "c1" "W:2026-01-05" t.id))
            (select_where (of_type TemplateType.weekly) small.templates))
    × (s.charges
        ≡ map
            (charge_item small "c1" 5000)
            (select_where (of_type TemplateType.charge) small.templates))
sort_rows-select_example =
    sort_rows-select small "c1" "D:2026-01-10" "W:2026-01-05" 5000 small.templates

charge_item-next_example :
    let item = charge_item small "c1" 5000 arena in
    (item.available + min item.used_count_in_window item.max_stacks ≡ item.max_stacks)
    × (((item.next_recharge_at ≡ none) × (item.available ≡ item.max_stacks))
        ⊎ ((at : ℕ) × (item.next_recharge_at ≡ some at)
            × (5000 < at)
            × (item.available < item.max_stacks)
            × ((later : ℕ)
                → 5000 ≤ later
                → later < at
                → (charge_item small "c1" later arena).used_count_in_window
                  ≡ item.used_count_in_window)
            × ((charge_item small "c1" at arena).used_count_in_window < item.used_count_in_window)))
charge_item-next_example = charge_item-next small "c1" 5000 arena

use_charge-undo_charge_example :
    (after : Database) × (use_charge no_dates small "c1" "t2" none 5000 "u2" ≡ ok after)
    × (undo_charge after "c1" "t2" ≡ (some "u2", small))
unfolding exists_where ◌===◌ select_where resolve_date
use_charge-undo_charge_example =
    use_charge-undo_charge no_dates small "c1" "t2" none 5000 "u2" refl (omega arith, tt)

abbrev lower_none : String → String
lower_none s = s

abbrev one_entry : List (Option RawTemplate)
one_entry =
    some (record {
      title = some " Raid ";
      type = some TemplateType.weekly;
      estimate_minutes = none;
      recharge_hours = none;
      max_stacks = none;
    })
    ∷ none
    ∷ []

apply_planner_preset-again_example :
    (n : PresetCounts) × (after : Database) × (apply_planner_preset lower_none tally
        (λ k. 7)
        one_character
        Mode.merge
        one_entry
      ≡ ok (n, after))
    × (n.created + n.skipped ≡ length (normalized_templates one_entry))
    × (length after.templates ≡ length (prepared Mode.merge one_character).templates + n.created)
    × ((fresh' : ℕ → String) (clock' : ℕ → ℕ)
        → apply_planner_preset lower_none fresh' clock' after Mode.merge one_entry
          ≡ ok (record { created = 0; skipped = length (normalized_templates one_entry) }, after))
unfolding exists_where
apply_planner_preset-again_example =
    apply_planner_preset-again lower_none tally (λ k. 7) one_character Mode.merge one_entry
      tally_inj (λ k. refl)

abbrev noon : SettingsInput
noon = record { daily_reset_hhmm = "12:00"; weekly_reset_day = pos 3 }

set_planner_settings_for_server-effective_example :
    let after = set_planner_settings_for_server small " Siel" noon 7 in
    (in_force after (some " Siel") 9 ≡ (settings_of noon 7, PlannerSettingsScope.server_scope))
    × ((other : String)
        → is_empty (trim other) ≡ false
        → trim " Siel" ≢ trim other
        → in_force after (some other) 9 ≡ in_force small (some other) 9)
    × (in_force after none 9 ≡ in_force small none 9)
    × (in_force (clear_planner_settings_for_server after " Siel") (some " Siel") 9
        ≡ in_force small none 9)
unfolding trim is_empty
set_planner_settings_for_server-effective_example =
    set_planner_settings_for_server-effective small " Siel" noon 7 9 refl
