-- ===== src/Backup/Import.antt =====
-- `importUserBackup` of apps/desktop/src/main/storage/domains/backup.ts. All that throws between
-- BEGIN and COMMIT ends in ROLLBACK, so a failure gives its error and the database as it was. That
-- ROLLBACK does not throw itself.
use aion2_hub.Prelude.{ℕ, ◌||◌, ◌==◌, Option, none, some, if◌then◌else◌}
use aion2_hub.Prelude.Int.{ℤ, pos, negsuc}
use aion2_hub.Sql.{Result, ok, err, bad_backup, unsupported_backup_version}
use aion2_hub.Json.{Json, get, is_object, as_number}
use aion2_hub.Backup.{UserDb, World}
use aion2_hub.Backup.Rows.{read_backup}
use aion2_hub.Backup.Writes.{write_backup}

-- `schemaVersion` is one of the four.
abbrev pub version_of : Option ℤ → Option ℕ
version_of none = none
version_of (some (negsuc n)) = none
version_of (some (pos n)) = if n == 1 || n == 2 || n == 3 || n == 4 then some n else none

abbrev pub import_version : World → UserDb → ℕ → Json → Option ℕ → Result UserDb
import_version w db now raw none = err unsupported_backup_version
import_version w db now raw (some version) =
    write_backup now (read_backup w (w.to_iso now) (version == 1) raw) db

-- COMMIT, or ROLLBACK.
abbrev pub committed : UserDb → Result UserDb → Result (Unit {0}) × UserDb
committed before (ok db) = (ok tt, db)
committed before (err e) = (err e, before)

unfoldable pub import_user_backup : World → UserDb → Json → ℕ → Result (Unit {0}) × UserDb
unfolding read_backup write_backup get
import_user_backup w db raw now =
    if is_object raw
    then committed db
        (import_version w db now raw (version_of (as_number (get raw "schemaVersion"))))
    else (err bad_backup, db)
