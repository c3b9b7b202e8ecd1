-- ===== src/Tests/Backups.antt =====
-- The import of a backup on concrete input.
use aion2_hub.Prelude.{List, String, false, ◌≡◌, refl, ◌===◌, [], ◌∷◌, none}
use aion2_hub.Prelude.Int.{pos}
use aion2_hub.Text.{trim, is_empty}
use aion2_hub.Sql.{ok, exists_where, delete_where, select_where}
use aion2_hub.Tests.Logbook.{empty_logbook}
use aion2_hub.Json.{Json, items, fields}
use aion2_hub.Backup.{UserDb, World, with_text, when}
use aion2_hub.Backup.Rows.{read_backup}
use aion2_hub.Backup.Import.{import_user_backup}
use aion2_hub.Backup.Sound.{IsClosed, read_backup-IsClosed}

abbrev test_world : World
test_world = record {
  of_iso = λ s. 7;
  to_iso = λ t. "now";
  json = record { stringify = λ v. "{…}"; parse = λ s. none };
}

-- Two characters, a template, an item with a price, and a run; the second assignment has no
-- template of the backup, and is passed over.
abbrev entry : List (String × Json) → Json
entry kvs = Json.obj (fields kvs)

abbrev list_of : List Json → Json
list_of vs = Json.arr (items vs)

abbrev small_planner : Json
small_planner = entry (
    (
      "templates",
      list_of (
          entry
            (("id", Json.str "t1") ∷ ("title", Json.str "Daily") ∷ ("type", Json.str "DAILY") ∷ [])
          ∷ []),
    )
    ∷ (
      "assignments",
      list_of (
          entry (
            ("id", Json.str "a1")
            ∷ ("characterId", Json.str "c1")
            ∷ ("templateId", Json.str "t1")
            ∷ [])
          ∷ entry (
              ("id", Json.str "a2")
              ∷ ("characterId", Json.str "c1")
              ∷ ("templateId", Json.str "t9")
              ∷ [])
          ∷ []),
    )
    ∷ (
      "durations",
      list_of (
          entry (
            ("id", Json.str "d1")
            ∷ ("characterId", Json.str "c2")
            ∷ ("startedAt", Json.str "x")
            ∷ ("endedAt", Json.str "y")
            ∷ ("seconds", Json.num (pos 9))
            ∷ [])
          ∷ []),
    )
    ∷ [])

abbrev small_backup : Json
small_backup = entry (
    ("schemaVersion", Json.num (pos 4))
    ∷ (
      "characters",
      list_of (
          entry (("id", Json.str "c1") ∷ ("name", Json.str "Ari") ∷ [])
          ∷ entry (("id", Json.str "c2") ∷ ("name", Json.str "Bo") ∷ [])
          ∷ []),
    )
    ∷ ("planner", small_planner)
    ∷ (
      "economy",
      entry (
          ("items", list_of (entry (("id", Json.str "i1") ∷ ("name", Json.str " Ore ") ∷ []) ∷ []))
          ∷ (
            "prices",
            list_of (
                entry (
                  ("id", Json.str "p1")
                  ∷ ("itemId", Json.str "i1")
                  ∷ ("server", Json.str "S")
                  ∷ ("price", Json.num (pos 5))
                  ∷ [])
                ∷ []),
          )
          ∷ []),
    )
    ∷ (
      "loot",
      entry (
          (
            "runs",
            list_of (
                entry (
                  ("id", Json.str "r1")
                  ∷ ("characterId", Json.str "c1")
                  ∷ ("content", Json.str "Cave")
                  ∷ [])
                ∷ []),
          )
          ∷ []),
    )
    ∷ [])

abbrev empty_user : UserDb
empty_user = record { logbook = empty_logbook; scores = []; presets = [] }

small_backup_run : (import_user_backup test_world empty_user small_backup 7).0 ≡ ok tt
unfolding import_user_backup ◌===◌ is_empty trim exists_where with_text when delete_where
    select_where
small_backup_run = refl

read_backup-IsClosed_example : IsClosed (read_backup test_world "now" false small_backup)
read_backup-IsClosed_example = read_backup-IsClosed test_world "now" false small_backup
