-- ===== src/Backup/Entries.antt =====
-- What `importUserBackup` of apps/desktop/src/main/storage/domains/backup.ts reads of the logbook
-- and of the planner's rows that refer to characters and templates. A negative number of seconds of
-- a duration is taken for 0.
use aion2_hub.Prelude.{
  List, String, Bool, false, not, ◌||◌, ◌===◌, ◌==◌, Option, none, some, if◌then◌else◌,
}
use aion2_hub.Text.{is_empty}
use aion2_hub.Planner.{PlannerAssignment, PlannerCompletion, PlannerChargeUse, PlannerDuration}
use aion2_hub.Economy.{trimmed}
use aion2_hub.Loot.{LootRunCostKind, LootRun, LootRunDrop, LootRunCost}
use aion2_hub.Json.{Json, get, truthy_or_undefined}
use aion2_hub.Backup.{
  World, text_at, text_or_now, amount_at, array_at, with_text, when, read_each, is_member,
}

abbrev pub read_run_entry : String → List String → Json → Option LootRun
read_run_entry now character_ids r = with_text (text_at r "id") λ id.
    with_text (text_at r "characterId") λ character_id.
      when (is_member character_ids character_id) (
        with_text (trimmed (text_at r "content")) λ content. some (record {
          id = id;
          character_id = character_id;
          server = text_at r "server";
          content = content;
          role = text_at r "role";
          power_bracket = text_at r "powerBracket";
          started_at = text_at r "startedAt";
          ended_at = text_at r "endedAt";
          seconds = amount_at r "seconds";
          created_at = text_or_now (text_at r "createdAt") now;
          updated_at = text_or_now (text_at r "updatedAt") now;
        }))

unfoldable pub read_runs : String → List String → Json → List LootRun
unfolding get read_each trimmed
read_runs now character_ids loot =
    read_each (read_run_entry now character_ids) (array_at loot "runs")

-- An item that the backup has.
abbrev pub known_item : List String → Option String → Option String
known_item item_ids none = none
known_item item_ids (some id) = if is_member item_ids id then some id else none

abbrev pub read_drop_entry : String → List String → List String → Json → Option LootRunDrop
read_drop_entry now run_ids item_ids d = with_text (text_at d "id") λ id.
    with_text (text_at d "runId") λ run_id. when (is_member run_ids run_id) (
      with_text (trimmed (text_at d "itemName")) λ item_name. when (not (amount_at d "qty" == 0)) (
        some (record {
          id = id;
          run_id = run_id;
          item_id = known_item item_ids (text_at d "itemId");
          item_name = item_name;
          qty = amount_at d "qty";
          note = text_at d "note";
          created_at = text_or_now (text_at d "createdAt") now;
          updated_at = text_or_now (text_at d "updatedAt") now;
        })))

unfoldable pub read_drops : String → List String → List String → Json → List LootRunDrop
unfolding get read_each trimmed
read_drops now run_ids item_ids loot =
    read_each (read_drop_entry now run_ids item_ids) (array_at loot "drops")

abbrev pub cost_kind : Option String → Option LootRunCostKind
cost_kind none = none
cost_kind (some s) =
    if s === "KINAH"
    then some LootRunCostKind.kinah
    else if s === "ITEM"
    then some LootRunCostKind.item
    else none

-- `kind === "ITEM" ? itemId : null`.
abbrev pub if_item : LootRunCostKind → Option String → Option String
if_item LootRunCostKind.kinah id = none
if_item LootRunCostKind.item id = id

abbrev pub cost_entry :
    String → List String → Json → String → String → Option LootRunCostKind → Option LootRunCost
cost_entry now item_ids c id run_id none = none
cost_entry now item_ids c id run_id (some kind) = some (record {
  id = id;
  run_id = run_id;
  kind = kind;
  item_id = if_item kind (known_item item_ids (text_at c "itemId"));
  item_name = text_at c "itemName";
  qty = amount_at c "qty";
  kinah = amount_at c "kinah";
  note = text_at c "note";
  created_at = text_or_now (text_at c "createdAt") now;
  updated_at = text_or_now (text_at c "updatedAt") now;
})

abbrev pub read_cost_entry : String → List String → List String → Json → Option LootRunCost
read_cost_entry now run_ids item_ids c = with_text (text_at c "id") λ id.
    with_text (text_at c "runId") λ run_id.
      when (is_member run_ids run_id)
        (cost_entry now item_ids c id run_id (cost_kind (text_at c "kind")))

unfoldable pub read_costs : String → List String → List String → Json → List LootRunCost
unfolding get read_each
read_costs now run_ids item_ids loot =
    read_each (read_cost_entry now run_ids item_ids) (array_at loot "costs")

-- The identities of a row that refers to a character and a template of the backup.
abbrev pub with_pair :
    {A : Type 0}
    → List String
    → List String
    → Json
    → (String → String → String → Option A)
    → Option A
with_pair character_ids template_ids v k = with_text (text_at v "id") λ id.
    with_text (text_at v "characterId") λ character_id.
      with_text (text_at v "templateId") λ template_id.
        when (not (is_empty character_id || is_empty template_id)) (
          when (is_member character_ids character_id)
            (when (is_member template_ids template_id) (k id character_id template_id)))

-- `templateId && !templateIds.has(templateId)`.
abbrev pub unknown_template : List String → Option String → Bool
unknown_template template_ids none = false
unknown_template template_ids (some t) =
    if is_empty t then false else not (is_member template_ids t)

module _ (w : World) (now : String) (character_ids template_ids : List String) where
  abbrev pub read_assignment_entry : Json → Option PlannerAssignment
  read_assignment_entry a = with_pair character_ids template_ids a λ id character_id template_id.
      some (record {
        id = id;
        character_id = character_id;
        template_id = template_id;
        enabled = truthy_or_undefined (get a "enabled");
        created_at = w.of_iso (text_or_now (text_at a "createdAt") now);
      })

  unfoldable pub read_assignments : Json → List PlannerAssignment
  unfolding get read_each
  read_assignments planner = read_each read_assignment_entry (array_at planner "assignments")

  abbrev pub read_completion_entry : Json → Option PlannerCompletion
  read_completion_entry c = with_pair character_ids template_ids c λ id character_id template_id.
      with_text (text_at c "periodKey") λ period_key.
        with_text (text_at c "completedAt") λ completed_at. some (record {
          id = id;
          character_id = character_id;
          template_id = template_id;
          period_key = period_key;
          completed_at = w.of_iso completed_at;
        })

  unfoldable pub read_completions : Json → List PlannerCompletion
  unfolding get read_each
  read_completions planner = read_each read_completion_entry (array_at planner "completions")

  abbrev pub read_charge_entry : Json → Option PlannerChargeUse
  read_charge_entry u = with_pair character_ids template_ids u λ id character_id template_id.
      with_text (text_at u "usedAt") λ used_at. some (record {
        id = id;
        character_id = character_id;
        template_id = template_id;
        used_at = w.of_iso used_at;
      })

  unfoldable pub read_charge_uses : Json → List PlannerChargeUse
  unfolding get read_each
  read_charge_uses planner = read_each read_charge_entry (array_at planner "chargeUses")

  abbrev pub read_duration_entry : Json → Option PlannerDuration
  read_duration_entry d = with_text (text_at d "id") λ id.
      with_text (text_at d "characterId") λ character_id. when (not (is_empty character_id)) (
        when (is_member character_ids character_id) (
          when (not (unknown_template template_ids (text_at d "templateId"))) (
            with_text (text_at d "startedAt") λ started_at.
              with_text (text_at d "endedAt") λ ended_at. some (record {
                id = id;
                character_id = character_id;
                template_id = text_at d "templateId";
                started_at = w.of_iso started_at;
                ended_at = w.of_iso ended_at;
                seconds = amount_at d "seconds";
              }))))

  unfoldable pub read_durations : Json → List PlannerDuration
  unfolding get read_each
  read_durations planner = read_each read_duration_entry (array_at planner "durations")
