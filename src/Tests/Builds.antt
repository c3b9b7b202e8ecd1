-- ===== src/Tests/Builds.antt =====
-- Stored build scores on concrete input.
use aion2_hub.Prelude.{◌≡◌, refl, String, ◌===◌, true, [], ◌∷◌, some}
use aion2_hub.Prelude.Int.{pos}
use aion2_hub.Text.{trim, is_empty}
use aion2_hub.Sql.{ok, exists_where}
use aion2_hub.Planner.Keys.History.{empty_database}
use aion2_hub.BuildScore.{BuildScoreUnit, BuildScoreState}
use aion2_hub.Json.{Json, JsonText, items, fields, field_of, get}
use aion2_hub.BuildStorage.{
  BuildDb, state_json, as_build_score_state, get_build_score, set_build_score,
}
use aion2_hub.BuildStorage.Stored.{set_build_score-get_build_score}
use aion2_hub.Tests.Logbook.{hero}

-- A state from outside: a weight that is no number, and a value that is none.
abbrev raw_state : Json
raw_state = Json.obj (
    fields (
      ("version", Json.num (pos 1))
      ∷ (
        "stats",
        Json.arr (
            items (
              Json.obj (
                fields (
                  ("id", Json.str "s1")
                  ∷ ("label", Json.str "Power")
                  ∷ ("enabled", Json.num (pos 2))
                  ∷ ("weight", Json.nan)
                  ∷ []))
              ∷ [])),
      )
      ∷ ("setA", Json.obj (fields (("name", Json.str " Mine ") ∷ [])))
      ∷ (
        "setB",
        Json.obj (
            fields (
              ("values", Json.obj (fields (("s1", Json.num (pos 4)) ∷ ("s2", Json.null) ∷ [])))
              ∷ [])),
      )
      ∷ []))

abbrev read_state : String → BuildScoreState
read_state at = record {
  updated_at = at;
  stats =
      record {
        id = "s1";
        label = "Power";
        unit = BuildScoreUnit.flat;
        enabled = true;
        weight = pos 0;
      }
      ∷ [];
  set_a = record { name = "Mine"; values = [] };
  set_b = record { name = "세팅 B"; values = ("s1", pos 4) ∷ [] };
}

raw_state_run : as_build_score_state "1" raw_state ≡ some (read_state "1")
unfolding as_build_score_state get field_of ◌===◌ is_empty trim
raw_state_run = refl

abbrev one_text : JsonText
one_text = record { stringify = λ v. "{…}"; parse = λ t. some (state_json (read_state "2")) }

abbrev one_build_hero : BuildDb
one_build_hero = record {
  planner = record empty_database { characters = hero ∷ [] };
  scores = [];
  presets = [];
}

abbrev build_stored : BuildDb
build_stored = record one_build_hero {
  scores = record { character_id = "c1"; data_json = "{…}"; updated_at = "2" } ∷ [];
}

build_stored_run : set_build_score one_text one_build_hero "c1" raw_state "1" "2" ≡ ok build_stored
unfolding set_build_score get field_of ◌===◌ is_empty trim exists_where
build_stored_run = refl

set_build_score-get_build_score_example :
    get_build_score one_text build_stored "c1" "9" ≡ read_state "2"
set_build_score-get_build_score_example =
    set_build_score-get_build_score one_text one_build_hero build_stored "c1" raw_state "1" "2" "9"
      (read_state "1") raw_state_run refl (unfold is_empty in refl) build_stored_run
