-- ===== src/Backup.antt =====
-- Backups of the user's data: apps/desktop/src/main/storage/domains/backup.ts. A backup is a JSON
-- value, whose numbers are finite and whole here. The planner's times are numbers, which stand for
-- their ISO texts.
pub mod Reads
pub mod Entries
pub mod Rows
pub mod Writes
pub mod Import
pub mod Given
pub mod Known
pub mod Sound
pub mod Keys
pub mod Restored
use aion2_hub.Prelude.{
  ℕ, List, [], ◌∷◌, String, Bool, true, false, ◌===◌, Option, none, some, if◌then◌else◌,
}
use aion2_hub.Prelude.Int.{ℤ, pos, pos_part}
use aion2_hub.Text.{is_empty}
use aion2_hub.Sql.{exists_where}
use aion2_hub.Json.{
  Json, Fields, JsonText, get, is_object, as_text, as_number, as_array, truthy_or_undefined,
}
use aion2_hub.Loot.{LootDb}
use aion2_hub.BuildStorage.{ScoreRow, PresetRow}

-- The tables that a backup is about: those of the planner, of the economy and of the logbook, and
-- those of the build scores.
pub record UserDb : Type 0 where
  pub logbook : LootDb
  pub scores : List ScoreRow
  pub presets : List PresetRow

-- The times of ISO texts and back, and `JSON`.
pub record World : Type 0 where
  pub of_iso : String → ℕ
  pub to_iso : ℕ → String
  pub json : JsonText

-- `typeof value.key === "string"`, and the text.
abbrev pub text_at : Json → String → Option String
text_at value key = as_text (get value key)

abbrev pub text_or_now : Option String → String → String
text_or_now none now = now
text_or_now (some s) now = s

-- `typeof value.key === "number" ? Math.max(0, Math.floor(value.key)) : 0`.
abbrev pub amount_or_zero : Option ℤ → ℕ
amount_or_zero none = 0
amount_or_zero (some n) = pos_part n

abbrev pub amount_at : Json → String → ℕ
amount_at value key = amount_or_zero (as_number (get value key))

-- `Array.isArray(value.key) ? value.key : []`.
abbrev pub or_no_items : Option (List Json) → List Json
or_no_items none = []
or_no_items (some vs) = vs

abbrev pub array_at : Json → String → List Json
array_at value key = or_no_items (as_array (get value key))

-- The object, or one without keys.
abbrev pub or_empty_object : Option Json → Json
or_empty_object none = Json.obj Fields.end
or_empty_object (some v) = if is_object v then v else Json.obj Fields.end

abbrev pub object_at : Json → String → Json
object_at value key = or_empty_object (get value key)

-- `continue` where a text is missing.
unfoldable pub with_text {ℓ} : {A : Type ℓ} → Option String → (String → Option A) → Option A
with_text none k = none
with_text (some s) k = k s

-- `continue` where a test fails.
unfoldable pub when {ℓ} : {A : Type ℓ} → Bool → Option A → Option A
when true r = r
when false r = none

abbrev pub push_read {ℓ} : {A : Type ℓ} → Option A → List A → List A
push_read none rest = rest
push_read (some a) rest = a ∷ rest

-- A loop that reads the elements that are objects, and pushes what is not passed over.
unfoldable pub read_each {ℓ} : {A : Type ℓ} → (Json → Option A) → List Json → List A
read_each f [] = []
read_each f (v ∷ vs) = if is_object v then push_read (f v) (read_each f vs) else read_each f vs

-- `new Set(ids).has(id)`.
abbrev pub is_member : List String → String → Bool
is_member ids id = exists_where (λ s. s === id) ids
