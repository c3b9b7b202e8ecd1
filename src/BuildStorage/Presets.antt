-- ===== src/BuildStorage/Presets.antt =====
-- The presets of build scores in apps/desktop/src/main/storage/domains/buildScore.ts. An import
-- that throws midway, which keeps what it has stored so far, gives only the error.
use aion2_hub.Prelude.{
  ℕ, suc, ◌+◌, List, [], ◌∷◌, map, length, String, Bool, ◌===◌, Option, none, some, if◌then◌else◌,
}
use aion2_hub.Text.{◌<+>◌, trim, is_empty, show}
use aion2_hub.Sql.{
  Result, ok, err, ◌>>=◌, bad_build_score, bad_request, not_found, select_where, delete_where,
  update_where, one_where, insert_row, order_by,
}
use aion2_hub.Economy.{text_leb}
use aion2_hub.BuildScore.{BuildScoreStat, BuildScoreState}
use aion2_hub.Json.{
  Json, JsonText, truthy_or_undefined, is_object, get, as_text, as_array, safe_json_parse,
}
use aion2_hub.BuildStorage.{
  PresetRow, BuildDb, as_build_score_stats, as_build_score_state, stats_json, text_else,
}

pub record BuildScorePresetListItem : Type 0 where
  pub id : String
  pub name : String
  pub description : Option String
  pub stat_count : ℕ
  pub created_at : String
  pub updated_at : String

pub record BuildScorePreset : Type 0 where
  pub id : String
  pub character_id : String
  pub name : String
  pub description : Option String
  pub stats : List BuildScoreStat
  pub created_at : String
  pub updated_at : String

abbrev pub or_no_stats : Option (List BuildScoreStat) → List BuildScoreStat
or_no_stats none = []
or_no_stats (some stats) = stats

unfoldable pub row_stats : JsonText → PresetRow → Option (List BuildScoreStat)
unfolding as_build_score_stats safe_json_parse
row_stats json r = as_build_score_stats (some (safe_json_parse json r.stats_json))

abbrev pub list_item_of : JsonText → PresetRow → BuildScorePresetListItem
list_item_of json r = record {
  id = r.id;
  name = r.name;
  description = r.description;
  stat_count = length (or_no_stats (row_stats json r));
  created_at = r.created_at;
  updated_at = r.updated_at;
}

abbrev pub preset_of : PresetRow → List BuildScoreStat → BuildScorePreset
preset_of r stats = record {
  id = r.id;
  character_id = r.character_id;
  name = r.name;
  description = r.description;
  stats = stats;
  created_at = r.created_at;
  updated_at = r.updated_at;
}

-- `WHERE character_id = $c ORDER BY updated_at DESC, created_at DESC`.
abbrev pub preset_before : PresetRow → PresetRow → Bool
preset_before a b =
    if a.updated_at === b.updated_at
    then text_leb b.created_at a.created_at
    else text_leb b.updated_at a.updated_at

unfoldable pub presets_for : BuildDb → String → List PresetRow
unfolding text_leb
presets_for db character_id =
    order_by preset_before
      (select_where (λ (p : PresetRow). p.character_id === character_id) db.presets)

unfoldable pub list_build_score_presets :
    JsonText → BuildDb → String → List BuildScorePresetListItem
unfolding presets_for row_stats
list_build_score_presets json db character_id =
    map (list_item_of json) (presets_for db character_id)

abbrev pub push_preset :
    PresetRow → Option (List BuildScoreStat) → List BuildScorePreset → List BuildScorePreset
push_preset r none out = out
push_preset r (some stats) out = preset_of r stats ∷ out

unfoldable pub full_loop : JsonText → List PresetRow → List BuildScorePreset
unfolding row_stats
full_loop json [] = []
full_loop json (r ∷ rs) = push_preset r (row_stats json r) (full_loop json rs)

unfoldable pub list_build_score_presets_full : JsonText → BuildDb → String → List BuildScorePreset
unfolding presets_for full_loop
list_build_score_presets_full json db character_id = full_loop json (presets_for db character_id)

abbrev pub found_preset : JsonText → Option PresetRow → Option BuildScorePreset
found_preset json none = none
found_preset json (some r) =
    if is_empty r.id then none else some (preset_of r (or_no_stats (row_stats json r)))

unfoldable pub get_build_score_preset : JsonText → BuildDb → String → Option BuildScorePreset
unfolding row_stats
get_build_score_preset json db preset_id =
    found_preset json (one_where (λ (p : PresetRow). p.id === preset_id) db.presets)

unfoldable pub insert_preset : PresetRow → BuildDb → Result BuildDb
insert_preset row db = insert_row (λ (p : PresetRow). p.id === row.id) row db.presets >>= λ presets.
    ok (record db { presets = presets })

-- `typeof description === "string" ? description.trim() : null`.
abbrev pub trim_text : Option String → Option String
trim_text none = none
trim_text (some s) = some (trim s)

abbrev pub preset_row :
    JsonText
    → String
    → String
    → String
    → Option String
    → List BuildScoreStat
    → String
    → String
    → PresetRow
preset_row json id character_id name description stats created_at updated_at = record {
  id = id;
  character_id = character_id;
  name = name;
  description = description;
  stats_json = json.stringify (stats_json stats);
  created_at = created_at;
  updated_at = updated_at;
}

abbrev pub item_of_row : ℕ → PresetRow → BuildScorePresetListItem
item_of_row count r = record {
  id = r.id;
  name = r.name;
  description = r.description;
  stat_count = count;
  created_at = r.created_at;
  updated_at = r.updated_at;
}

unfoldable pub store_preset :
    JsonText
    → String
    → String
    → String
    → Option String
    → List BuildScoreStat
    → String
    → String
    → BuildDb
    → Result (BuildScorePresetListItem × BuildDb)
unfolding insert_preset
store_preset json id character_id name description stats created_at updated_at db =
    let row = preset_row json id character_id name description stats created_at updated_at in
    insert_preset row db >>= λ after. ok (item_of_row (length stats) row, after)

abbrev pub create_parsed :
    JsonText
    → BuildDb
    → String
    → String
    → Option String
    → Option BuildScoreState
    → String
    → String
    → Result (BuildScorePresetListItem × BuildDb)
create_parsed json db character_id name description none id now = err bad_build_score
create_parsed json db character_id name description (some parsed) id now =
    if is_empty (trim name)
    then err bad_request
    else store_preset json id character_id (trim name) (trim_text description) parsed.stats now now
        db

unfoldable pub create_build_score_preset :
    JsonText
    → BuildDb
    → String
    → String
    → Option String
    → Json
    → String
    → String
    → Result (BuildScorePresetListItem × BuildDb)
unfolding as_build_score_state store_preset
create_build_score_preset json db character_id name description state id now =
    create_parsed json db character_id name description (as_build_score_state now state) id now

unfoldable pub create_build_score_preset_from_stats :
    JsonText
    → BuildDb
    → String
    → String
    → Option String
    → List BuildScoreStat
    → Option String
    → Option String
    → String
    → String
    → Result (BuildScorePresetListItem × BuildDb)
unfolding store_preset
create_build_score_preset_from_stats json db character_id raw_name description stats created_at
      updated_at id now =
    let name = trim raw_name in
    let created = text_else created_at now in
    if is_empty name
    then err bad_request
    else store_preset json id character_id name (trim_text description) stats created
        (text_else updated_at created) db

-- The objects among the elements.
abbrev pub objects : List Json → List Json
objects [] = []
objects (v ∷ vs) = if is_object v then v ∷ objects vs else objects vs

-- The payload itself, if it has a name and stats.
abbrev pub own_item : Json → List Json
own_item payload =
    if truthy_or_undefined (get payload "name")
    then if truthy_or_undefined (get payload "stats") then payload ∷ [] else []
    else []

abbrev pub single_item : Option Json → Json → List Json
single_item none payload = own_item payload
single_item (some preset) payload = if is_object preset then preset ∷ [] else own_item payload

abbrev pub items_of : Option (List Json) → Json → List Json
items_of (some presets) payload = objects presets
items_of none payload = single_item (get payload "preset") payload

-- A payload with a `meta` is read like one without.
unfoldable pub import_items : Json → List Json
unfolding get
import_items payload = items_of (as_array (get payload "presets")) payload

abbrev pub imported_name : Option String → ℕ → String
imported_name none count = "가져온 프리셋 (" <+> show (count + 1) <+> ")"
imported_name (some s) count =
    if is_empty (trim s) then "가져온 프리셋 (" <+> show (count + 1) <+> ")" else trim s

abbrev pub import_one :
    JsonText
    → BuildDb
    → String
    → Json
    → ℕ
    → List BuildScoreStat
    → String
    → String
    → Result (BuildScorePresetListItem × BuildDb)
import_one json db character_id it count stats id now =
    create_build_score_preset_from_stats json db character_id
      (imported_name (as_text (get it "name")) count) (as_text (get it "description")) stats
      (some (text_else (as_text (get it "createdAt")) now))
      (some (text_else (as_text (get it "updatedAt")) now)) id now

-- `created` counts the presets that are stored; each takes the next new identity.
unfoldable pub import_loop :
    JsonText
    → String
    → (ℕ → String)
    → String
    → ℕ
    → List Json
    → BuildDb
    → Result (List BuildScorePresetListItem × BuildDb)
unfolding create_build_score_preset_from_stats as_build_score_stats get
import_loop json character_id fresh now created [] db = ok ([], db)
import_loop json character_id fresh now created (it ∷ its) db =
    let skip = import_loop json character_id fresh now created its db in
    elim (as_build_score_stats (get it "stats")) [
      | none ↦ skip
      | some stats ↦ import_one json db character_id it created stats (fresh created) now >>= λ r.
          import_loop json character_id fresh now (suc created) its r.1 >>= λ rest.
          ok (r.0 ∷ rest.0, rest.1)
    ]

abbrev pub some_items :
    List Json
    → Result (List BuildScorePresetListItem × BuildDb)
    → Result (List BuildScorePresetListItem × BuildDb)
some_items [] r = err bad_request
some_items (it ∷ its) r = r

unfoldable pub import_build_score_presets_from_json :
    JsonText
    → BuildDb
    → String
    → Json
    → (ℕ → String)
    → String
    → Result (List BuildScorePresetListItem × BuildDb)
unfolding import_items import_loop
import_build_score_presets_from_json json db character_id payload fresh now =
    if is_object payload
    then some_items (import_items payload)
        (import_loop json character_id fresh now 0 (import_items payload) db)
    else err bad_request

-- `undefined` is `none`, and a description that is `null` is `some none`.
pub record PresetChange : Type 0 where
  pub name : Option String
  pub description : Option (Option String)

abbrev pub changed_name : Option String → String → String
changed_name none name = name
changed_name (some s) name = trim s

abbrev pub changed_description : Option (Option String) → Option String → Option String
changed_description none description = description
changed_description (some d) description = trim_text d

abbrev pub update_found :
    BuildDb
    → String
    → Option BuildScorePreset
    → PresetChange
    → String
    → Result (BuildScorePresetListItem × BuildDb)
update_found db preset_id none input now = err not_found
update_found db preset_id (some e) input now =
    let name = changed_name input.name e.name in
    let description = changed_description input.description e.description in
    if is_empty name
    then err bad_request
    else ok (
      record {
        id = preset_id;
        name = name;
        description = description;
        stat_count = length e.stats;
        created_at = e.created_at;
        updated_at = now;
      },
      record db {
        presets =
            update_where (λ (p : PresetRow). p.id === preset_id)
              (λ p. record p { name = name; description = description; updated_at = now })
              db.presets;
      },
    )

unfoldable pub update_build_score_preset :
    JsonText
    → BuildDb
    → String
    → PresetChange
    → String
    → Result (BuildScorePresetListItem × BuildDb)
unfolding get_build_score_preset
update_build_score_preset json db preset_id input now =
    update_found db preset_id (get_build_score_preset json db preset_id) input now

abbrev pub clone_name : Option String → String → String
clone_name none name = name <+> " (복사)"
clone_name (some s) name = if is_empty (trim s) then name <+> " (복사)" else trim s

abbrev pub clone_found :
    JsonText
    → BuildDb
    → Option BuildScorePreset
    → Option String
    → String
    → String
    → Result (BuildScorePresetListItem × BuildDb)
clone_found json db none new_name id now = err not_found
clone_found json db (some e) new_name id now =
    store_preset json id e.character_id (clone_name new_name e.name) e.description e.stats now now
      db

unfoldable pub clone_build_score_preset :
    JsonText
    → BuildDb
    → String
    → Option String
    → String
    → String
    → Result (BuildScorePresetListItem × BuildDb)
unfolding get_build_score_preset store_preset
clone_build_score_preset json db preset_id new_name id now =
    clone_found json db (get_build_score_preset json db preset_id) new_name id now

unfoldable pub delete_build_score_preset : BuildDb → String → BuildDb
delete_build_score_preset db preset_id = record db {
  presets = delete_where (λ (p : PresetRow). p.id === preset_id) db.presets;
}
