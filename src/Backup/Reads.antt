-- ===== src/Backup/Reads.antt =====
-- What `importUserBackup` of apps/desktop/src/main/storage/domains/backup.ts reads of settings,
-- characters, templates, build scores and the economy, before it writes. A negative number of
-- hours or stacks is taken for 0.
use aion2_hub.Prelude.{ℕ, List, [], String, Bool, ◌===◌, Option, none, some, if◌then◌else◌}
use aion2_hub.Prelude.Int.{ℤ, pos, pos_part}
use aion2_hub.Planner.{TemplateType, AppCharacter, PlannerTemplate, PlannerSettingsRow}
use aion2_hub.Planner.Settings.{planner_settings_id_for_server}
use aion2_hub.Economy.{EconomyPriceWatchOp, EconomyItem, EconomyPrice, EconomyPriceWatch, trimmed}
use aion2_hub.BuildScore.{BuildScoreStat}
use aion2_hub.Json.{Json, get, as_number, truthy_or_undefined}
use aion2_hub.BuildStorage.{ScoreRow, PresetRow, as_build_score_stats, stats_json}
use aion2_hub.Backup.{
  World, text_at, text_or_now, amount_at, array_at, object_at, with_text, when, read_each,
  is_member,
}

-- The default settings of a backup, of the first version or of a later one.
pub record BackupSettings : Type 0 where
  pub daily_reset_hhmm : String
  pub weekly_reset_day : ℤ

abbrev pub hhmm_or : Option String → String → String
hhmm_or none other = other
hhmm_or (some s) other = s

abbrev pub day_or : Option ℤ → ℤ → ℤ
day_or none other = other
day_or (some n) other = n

abbrev pub read_settings : Json → BackupSettings
read_settings v = record {
  daily_reset_hhmm = hhmm_or (text_at v "dailyResetHhmm") "09:00";
  weekly_reset_day = day_or (as_number (get v "weeklyResetDay")) (pos 1);
}

unfoldable pub default_settings : Bool → Json → BackupSettings
unfolding get
default_settings first_version planner =
    let container = object_at planner "settings" in
    if first_version then read_settings container else read_settings (object_at container "default")

abbrev pub server_row : World → String → BackupSettings → Json → Option PlannerSettingsRow
server_row w now base s = with_text (trimmed (text_at s "server")) λ server. some (record {
  id = planner_settings_id_for_server server;
  daily_reset_hhmm = hhmm_or (text_at s "dailyResetHhmm") base.daily_reset_hhmm;
  weekly_reset_day = day_or (as_number (get s "weeklyResetDay")) base.weekly_reset_day;
  updated_at = w.of_iso (text_or_now (text_at s "updatedAt") now);
})

unfoldable pub server_settings :
    World → String → Bool → BackupSettings → Json → List PlannerSettingsRow
unfolding get read_each trimmed planner_settings_id_for_server
server_settings w now first_version base planner =
    if first_version
    then []
    else read_each (server_row w now base) (array_at (object_at planner "settings") "perServer")

abbrev pub read_character_entry : World → String → Json → Option AppCharacter
read_character_entry w now c = with_text (text_at c "id") λ id. with_text (text_at c "name") λ name.
    some (record {
      id = id;
      name = name;
      server = text_at c "server";
      class = text_at c "class";
      created_at = w.of_iso (text_or_now (text_at c "createdAt") now);
      updated_at = w.of_iso (text_or_now (text_at c "updatedAt") now);
    })

unfoldable pub read_characters : World → String → Json → List AppCharacter
unfolding get read_each
read_characters w now backup = read_each (read_character_entry w now) (array_at backup "characters")

abbrev pub template_type : Option String → Option TemplateType
template_type none = none
template_type (some s) =
    if s === "DAILY"
    then some TemplateType.daily
    else if s === "WEEKLY"
    then some TemplateType.weekly
    else if s === "CHARGE"
    then some TemplateType.charge
    else none

abbrev pub amount : Option ℤ → Option ℕ
amount none = none
amount (some n) = some (pos_part n)

-- `t.type === "CHARGE" ? (value ?? null) : null`, as the statement has it.
abbrev pub if_charge : TemplateType → Option ℕ → Option ℕ
if_charge TemplateType.charge n = n
if_charge TemplateType.daily n = none
if_charge TemplateType.weekly n = none

abbrev pub template_of :
    World → String → Json → String → String → Option TemplateType → Option PlannerTemplate
template_of w now t id title none = none
template_of w now t id title (some type) = some (record {
  id = id;
  title = title;
  type = type;
  estimate_minutes = amount_at t "estimateMinutes";
  recharge_hours = if_charge type (amount (as_number (get t "rechargeHours")));
  max_stacks = if_charge type (amount (as_number (get t "maxStacks")));
  created_at = w.of_iso (text_or_now (text_at t "createdAt") now);
  updated_at = w.of_iso (text_or_now (text_at t "updatedAt") now);
})

abbrev pub read_template_entry : World → String → Json → Option PlannerTemplate
read_template_entry w now t = with_text (text_at t "id") λ id.
    with_text (text_at t "title")
      λ title. template_of w now t id title (template_type (text_at t "type"))

unfoldable pub read_templates : World → String → Json → List PlannerTemplate
unfolding get read_each
read_templates w now planner = read_each (read_template_entry w now) (array_at planner "templates")

-- `JSON.stringify(b.state ?? null)`.
abbrev pub state_or_null : Option Json → Json
state_or_null none = Json.null
state_or_null (some v) = v

abbrev pub read_score_entry : World → String → Json → Option ScoreRow
read_score_entry w now b = with_text (text_at b "characterId") λ character_id. some (record {
  character_id = character_id;
  data_json = w.json.stringify (state_or_null (get b "state"));
  updated_at = text_or_now (text_at b "updatedAt") now;
})

unfoldable pub read_scores : World → String → Json → List ScoreRow
unfolding get read_each
read_scores w now builds = read_each (read_score_entry w now) (array_at builds "perCharacter")

abbrev pub preset_entry :
    World
    → String
    → Json
    → String
    → String
    → String
    → Option (List BuildScoreStat)
    → Option PresetRow
preset_entry w now p id character_id name none = none
preset_entry w now p id character_id name (some stats) = some (record {
  id = id;
  character_id = character_id;
  name = name;
  description = text_at p "description";
  stats_json = w.json.stringify (stats_json stats);
  created_at = text_or_now (text_at p "createdAt") now;
  updated_at = text_or_now (text_at p "updatedAt") now;
})

abbrev pub read_preset_entry : World → String → Json → Option PresetRow
read_preset_entry w now p = with_text (text_at p "id") λ id.
    with_text (text_at p "characterId") λ character_id.
      with_text (trimmed (text_at p "name"))
        λ name. preset_entry w now p id character_id name (as_build_score_stats (get p "stats"))

unfoldable pub read_presets : World → String → Json → List PresetRow
unfolding get read_each trimmed as_build_score_stats
read_presets w now builds = read_each (read_preset_entry w now) (array_at builds "presets")

abbrev pub read_item_entry : String → Json → Option EconomyItem
read_item_entry now i = with_text (text_at i "id") λ id.
    with_text (trimmed (text_at i "name")) λ name. some (record {
      id = id;
      name = name;
      category = text_at i "category";
      note = text_at i "note";
      created_at = text_or_now (text_at i "createdAt") now;
      updated_at = text_or_now (text_at i "updatedAt") now;
    })

unfoldable pub read_items : String → Json → List EconomyItem
unfolding get read_each trimmed
read_items now economy = read_each (read_item_entry now) (array_at economy "items")

abbrev pub read_price_entry : String → List String → Json → Option EconomyPrice
read_price_entry now item_ids p = with_text (text_at p "id") λ id.
    with_text (text_at p "itemId") λ item_id. when (is_member item_ids item_id) (
      with_text (trimmed (text_at p "server")) λ server. some (record {
        id = id;
        server = server;
        item_id = item_id;
        price = amount_at p "price";
        recorded_at = text_or_now (text_at p "recordedAt") now;
        created_at = text_or_now (text_at p "createdAt") now;
        updated_at = text_or_now (text_at p "updatedAt") now;
      }))

unfoldable pub read_prices : String → List String → Json → List EconomyPrice
unfolding get read_each trimmed
read_prices now item_ids economy =
    read_each (read_price_entry now item_ids) (array_at economy "prices")

abbrev pub watch_op : Option String → Option EconomyPriceWatchOp
watch_op none = none
watch_op (some s) =
    if s === "<"
    then some EconomyPriceWatchOp.lt
    else if s === "<="
    then some EconomyPriceWatchOp.le
    else if s === ">"
    then some EconomyPriceWatchOp.gt
    else if s === ">="
    then some EconomyPriceWatchOp.ge
    else none

abbrev pub watch_of :
    String → Json → String → String → String → Option EconomyPriceWatchOp → Option EconomyPriceWatch
watch_of now p id item_id server none = none
watch_of now p id item_id server (some op) = some (record {
  id = id;
  server = server;
  item_id = item_id;
  op = op;
  threshold = amount_at p "threshold";
  active = truthy_or_undefined (get p "active");
  created_at = text_or_now (text_at p "createdAt") now;
  updated_at = text_or_now (text_at p "updatedAt") now;
})

abbrev pub read_watch_entry : String → List String → Json → Option EconomyPriceWatch
read_watch_entry now item_ids p = with_text (text_at p "id") λ id.
    with_text (text_at p "itemId") λ item_id. when (is_member item_ids item_id) (
      with_text (trimmed (text_at p "server"))
        λ server. watch_of now p id item_id server (watch_op (text_at p "op")))

unfoldable pub read_watches : String → List String → Json → List EconomyPriceWatch
unfolding get read_each trimmed
read_watches now item_ids economy =
    read_each (read_watch_entry now item_ids) (array_at economy "watches")
