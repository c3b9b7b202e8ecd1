-- ===== src/BuildStorage.antt =====
-- The build scores of the desktop database: apps/desktop/src/main/storage/domains/buildScore.ts.
-- A time is the text that the code stores.
pub mod Presets
pub mod Parsed
pub mod Stored
use aion2_hub.Prelude.{
  ℕ, List, [], ◌∷◌, ◌++◌, map, String, Bool, true, false, ◌===◌, ◌==◌, Option, none, some,
  if◌then◌else◌,
}
use aion2_hub.Prelude.Int.{ℤ, pos, negsuc}
use aion2_hub.Text.{trim, is_empty}
use aion2_hub.Sql.{
  Result, ok, err, ◌>>=◌, bad_build_score, constraint_failed, delete_where, update_where,
  exists_where, one_where,
}
use aion2_hub.Planner.{Database}
use aion2_hub.Planner.Characters.{delete_character}
use aion2_hub.BuildScore.{BuildScoreUnit, BuildScoreStat, BuildScoreSet, BuildScoreState}
use aion2_hub.Json.{
  Json, JsonText, truthy_or_undefined, is_object, get, as_text, as_number, as_array, entries, items,
  fields, safe_json_parse,
}

pub record ScoreRow : Type 0 where
  pub character_id : String
  pub data_json : String
  pub updated_at : String

pub record PresetRow : Type 0 where
  pub id : String
  pub character_id : String
  pub name : String
  pub description : Option String
  pub stats_json : String
  pub created_at : String
  pub updated_at : String

pub record BuildDb : Type 0 where
  pub planner : Database
  pub scores : List ScoreRow
  pub presets : List PresetRow

abbrev pub builtin : String → String → BuildScoreUnit → Bool → BuildScoreStat
builtin id label unit enabled = record {
  id = id;
  label = label;
  unit = unit;
  enabled = enabled;
  weight = pos 1;
}

abbrev pub builtin_stats : List BuildScoreStat
builtin_stats =
    builtin "builtin:power" "위력" BuildScoreUnit.flat true
    ∷ builtin "builtin:combatSpeed" "전투 속도" BuildScoreUnit.percent true
    ∷ builtin "builtin:pveAmp" "PvE 피해 증폭" BuildScoreUnit.percent true
    ∷ builtin "builtin:pvpAmp" "PvP 피해 증폭" BuildScoreUnit.percent false
    ∷ builtin "builtin:crit" "치명타" BuildScoreUnit.flat false
    ∷ builtin "builtin:critDmgAmp" "치명타 피해 증폭" BuildScoreUnit.percent false
    ∷ builtin "builtin:double" "강타" BuildScoreUnit.percent false
    ∷ builtin "builtin:perfect" "완벽" BuildScoreUnit.percent false
    ∷ builtin "builtin:accuracy" "명중" BuildScoreUnit.percent false
    ∷ builtin "builtin:evasion" "회피" BuildScoreUnit.percent false
    ∷ builtin "builtin:block" "막기" BuildScoreUnit.percent false
    ∷ builtin "builtin:ccHit" "상태이상 적중" BuildScoreUnit.percent false
    ∷ builtin "builtin:ccResist" "상태이상 저항" BuildScoreUnit.percent false
    ∷ builtin "builtin:hp" "생명력" BuildScoreUnit.flat false
    ∷ builtin "builtin:defense" "방어력" BuildScoreUnit.percent false
    ∷ []

unfoldable pub default_build_score_state : String → BuildScoreState
default_build_score_state now = record {
  updated_at = now;
  stats = builtin_stats;
  set_a = record { name = "세팅 A"; values = [] };
  set_b = record { name = "세팅 B"; values = [] };
}

abbrev pub as_build_score_unit : Option String → BuildScoreUnit
as_build_score_unit none = BuildScoreUnit.flat
as_build_score_unit (some s) =
    if s === "percent" then BuildScoreUnit.percent else BuildScoreUnit.flat

abbrev pub number_or_zero : Option ℤ → ℤ
number_or_zero none = pos 0
number_or_zero (some n) = n

-- One element of the loop in `asBuildScoreStats`.
abbrev pub as_stat_of : Option String → Option String → Json → Option BuildScoreStat
as_stat_of none label s = none
as_stat_of (some id) none s = none
as_stat_of (some id) (some label) s =
    if is_empty id
    then none
    else if is_empty label
    then none
    else some (record {
      id = id;
      label = label;
      unit = as_build_score_unit (as_text (get s "unit"));
      enabled = truthy_or_undefined (get s "enabled");
      weight = number_or_zero (as_number (get s "weight"));
    })

abbrev pub as_stat : Json → Option BuildScoreStat
as_stat s =
    if is_object s then as_stat_of (as_text (get s "id")) (as_text (get s "label")) s else none

abbrev pub push_stat :
    Option BuildScoreStat → Option (List BuildScoreStat) → Option (List BuildScoreStat)
push_stat none rest = none
push_stat (some s) none = none
push_stat (some s) (some rest) = some (s ∷ rest)

unfoldable pub stats_loop : List Json → Option (List BuildScoreStat)
unfolding get
stats_loop [] = some []
stats_loop (v ∷ vs) = push_stat (as_stat v) (stats_loop vs)

abbrev pub stats_of_array : Option (List Json) → Option (List BuildScoreStat)
stats_of_array none = none
stats_of_array (some vs) = stats_loop vs

-- `undefined` is no array.
unfoldable pub as_build_score_stats : Option Json → Option (List BuildScoreStat)
unfolding stats_loop
as_build_score_stats value = stats_of_array (as_array value)

-- `typeof name === "string" && name.trim() ? name.trim() : fallbackName`.
abbrev pub trimmed_or : Option String → String → String
trimmed_or none other = other
trimmed_or (some s) other = if is_empty (trim s) then other else trim s

-- The entries that are finite numbers.
abbrev pub number_entry : String → Option ℤ → List (String × ℤ) → List (String × ℤ)
number_entry k none rest = rest
number_entry k (some n) rest = (k, n) ∷ rest

unfoldable pub number_entries : List (String × Json) → List (String × ℤ)
number_entries [] = []
number_entries ((k, v) ∷ rest) = number_entry k (as_number (some v)) (number_entries rest)

abbrev pub entries_of : Option Json → List (String × Json)
entries_of none = []
entries_of (some v) = entries v

abbrev pub as_set : Json → String → Option BuildScoreSet
as_set value fallback_name =
    if is_object value
    then some (record {
      name = trimmed_or (as_text (get value "name")) fallback_name;
      values = number_entries (entries_of (get value "values"));
    })
    else none

unfoldable pub as_build_score_set : Option Json → String → Option BuildScoreSet
unfolding number_entries get
as_build_score_set none fallback_name = none
as_build_score_set (some value) fallback_name = as_set value fallback_name

abbrev pub text_else : Option String → String → String
text_else none now = now
text_else (some s) now = s

abbrev pub state_of :
    String
    → Option (List BuildScoreStat)
    → Option BuildScoreSet
    → Option BuildScoreSet
    → Option BuildScoreState
state_of updated_at none a b = none
state_of updated_at (some stats) none b = none
state_of updated_at (some stats) (some a) none = none
state_of updated_at (some stats) (some a) (some b) =
    some (record { updated_at = updated_at; stats = stats; set_a = a; set_b = b })

-- `value.version !== 1`.
abbrev pub is_one : Option ℤ → Bool
is_one none = false
is_one (some (pos n)) = n == 1
is_one (some (negsuc n)) = false

abbrev pub is_version_1 : Option Json → Bool
is_version_1 version = is_one (as_number version)

unfoldable pub as_build_score_state : String → Json → Option BuildScoreState
unfolding as_build_score_stats as_build_score_set get
as_build_score_state now value =
    if is_object value
    then if is_version_1 (get value "version")
      then state_of (text_else (as_text (get value "updatedAt")) now)
          (as_build_score_stats (get value "stats")) (as_build_score_set (get value "setA") "세팅 A")
          (as_build_score_set (get value "setB") "세팅 B")
      else none
    else none

abbrev pub state_or_default : String → Option BuildScoreState → BuildScoreState
state_or_default now none = default_build_score_state now
state_or_default now (some state) = state

abbrev pub score_of_row : JsonText → String → Option ScoreRow → BuildScoreState
score_of_row json now none = default_build_score_state now
score_of_row json now (some r) =
    if is_empty r.data_json
    then default_build_score_state now
    else state_or_default now (as_build_score_state now (safe_json_parse json r.data_json))

abbrev pub score_for : String → ScoreRow → Bool
score_for character_id r = r.character_id === character_id

unfoldable pub get_build_score : JsonText → BuildDb → String → String → BuildScoreState
unfolding default_build_score_state as_build_score_state safe_json_parse
get_build_score json db character_id now =
    score_of_row json now (one_where (score_for character_id) db.scores)

-- The value that `JSON.stringify` is given.
abbrev pub unit_text : BuildScoreUnit → String
unit_text BuildScoreUnit.flat = "flat"
unit_text BuildScoreUnit.percent = "percent"

abbrev pub stat_json : BuildScoreStat → Json
stat_json s = Json.obj (
    fields (
      ("id", Json.str s.id)
      ∷ ("label", Json.str s.label)
      ∷ ("unit", Json.str (unit_text s.unit))
      ∷ ("enabled", Json.bool s.enabled)
      ∷ ("weight", Json.num s.weight)
      ∷ []))

abbrev pub stats_json : List BuildScoreStat → Json
stats_json stats = Json.arr (items (map stat_json stats))

abbrev pub value_json : String × ℤ → String × Json
value_json e = (e.0, Json.num e.1)

abbrev pub set_json : BuildScoreSet → Json
set_json s = Json.obj (
    fields
      (("name", Json.str s.name) ∷ ("values", Json.obj (fields (map value_json s.values))) ∷ []))

abbrev pub state_json : BuildScoreState → Json
state_json s = Json.obj (
    fields (
      ("version", Json.num (pos 1))
      ∷ ("updatedAt", Json.str s.updated_at)
      ∷ ("stats", stats_json s.stats)
      ∷ ("setA", set_json s.set_a)
      ∷ ("setB", set_json s.set_b)
      ∷ []))

-- `INSERT … ON CONFLICT(character_id) DO UPDATE`.
unfoldable pub upsert_score : ScoreRow → BuildDb → BuildDb
upsert_score row db = record db {
  scores =
      if exists_where (score_for row.character_id) db.scores
      then update_where (score_for row.character_id) (λ r. row) db.scores
      else db.scores ++ row ∷ [];
}

abbrev pub set_parsed :
    JsonText → BuildDb → String → String → Option BuildScoreState → Result BuildDb
set_parsed json db character_id now none = err bad_build_score
set_parsed json db character_id now (some parsed) = ok (
    upsert_score
      (record {
        character_id = character_id;
        data_json = json.stringify (state_json (record parsed { updated_at = now }));
        updated_at = now;
      })
      db)

-- `now` is read twice, by the parser and after it.
unfoldable pub set_build_score :
    JsonText → BuildDb → String → Json → String → String → Result BuildDb
unfolding as_build_score_state upsert_score
set_build_score json db character_id raw parse_now now =
    set_parsed json db character_id now (as_build_score_state parse_now raw)

unfoldable pub delete_build_score : BuildDb → String → BuildDb
delete_build_score db character_id = record db {
  scores = delete_where (score_for character_id) db.scores;
}
