-- ===== src/BuildStorage/Stored.antt =====
-- What is stored is read back: apps/desktop/src/main/storage/domains/buildScore.ts.
use aion2_hub.Prelude.{◌≡◌, ap, inl, inr, String, ===_refl, false, Bool-cases, some}
use aion2_hub.Text.{is_empty}
use aion2_hub.Sql.{Result, ok, err, one_where, exists_where}
use aion2_hub.Sql.Laws.{one_where-snoc}
use aion2_hub.Sql.Appends.{one_where-replaced}
use aion2_hub.BuildScore.{BuildScoreState}
use aion2_hub.Json.{Json, JsonText, safe_json_parse}
use aion2_hub.BuildStorage.{
  ScoreRow, BuildDb, score_for, as_build_score_state, state_json, state_or_default, get_build_score,
  upsert_score, set_build_score,
}
use aion2_hub.BuildStorage.Parsed.{IsParsed, state_round, state-IsParsed}

-- The row of the character is the new one.
upsert_score-one :
    (row : ScoreRow) (db : BuildDb)
    → one_where (score_for row.character_id) (upsert_score row db).scores ≡ some row
unfolding upsert_score
upsert_score-one row db = elim (Bool-cases (exists_where (score_for row.character_id) db.scores)) [
  | inl g ↦
      rw g (
        one_where-replaced (score_for row.character_id) row db.scores (===_refl row.character_id) g)
  | inr g ↦
      rw g (one_where-snoc (score_for row.character_id) db.scores row g (===_refl row.character_id))
]

build_db : BuildDb → Result BuildDb → BuildDb
build_db other (ok db) = db
build_db other (err e) = other

-- The row for a state.
abbrev pub row_for : JsonText → String → BuildScoreState → ScoreRow
row_for json character_id s = record {
  character_id = character_id;
  data_json = json.stringify (state_json s);
  updated_at = s.updated_at;
}

read_back :
    (json : JsonText) (db : BuildDb) (character_id later : String) (s : BuildScoreState)
    → json.parse (json.stringify (state_json s)) ≡ some (state_json s)
    → is_empty (json.stringify (state_json s)) ≡ false
    → IsParsed s
    → one_where (score_for character_id) db.scores ≡ some (row_for json character_id s)
    → get_build_score json db character_id later ≡ s
unfolding get_build_score safe_json_parse
read_back json db character_id later s exact filled p found =
    rw (found, filled)
      (rw (exact, safe_json_parse) (ap (state_or_default later) (state_round later s p)))

-- A value that the parser accepts, stored without an error, is read back as the parser gave it,
-- with the time of the call and at whatever time it is read; in particular the parser accepts
-- what was written. This is said where `JSON.parse` of what `JSON.stringify` makes of the stored
-- state is the same value, and that text is not empty.
pub set_build_score-get_build_score :
    (json : JsonText) (db after : BuildDb) (character_id : String) (raw : Json)
    (parse_now now later : String) (parsed : BuildScoreState)
    → as_build_score_state parse_now raw ≡ some parsed
    → json.parse (json.stringify (state_json (record parsed { updated_at = now })))
      ≡ some (state_json (record parsed { updated_at = now }))
    → is_empty (json.stringify (state_json (record parsed { updated_at = now }))) ≡ false
    → set_build_score json db character_id raw parse_now now ≡ ok after
    → get_build_score json after character_id later ≡ record parsed { updated_at = now }
unfolding set_build_score build_db
set_build_score-get_build_score json db after character_id raw parse_now now later parsed f exact
      filled e =
    let s : BuildScoreState = record parsed { updated_at = now } in
    let p : IsParsed parsed = rw f at (state-IsParsed parse_now raw) in
    let same : upsert_score (row_for json character_id s) db ≡ after =
      ap (build_db db) (rw f at e) in
    let found : one_where (score_for character_id) after.scores
        ≡ some (row_for json character_id s) =
      rw (← same) (upsert_score-one (row_for json character_id s) db) in
    read_back json after character_id later s exact filled
      (record { stats_ok = p.stats_ok; a_ok = p.a_ok; b_ok = p.b_ok }) found
