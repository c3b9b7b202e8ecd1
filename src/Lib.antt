-- ===== src/Lib.antt =====
-- Verification of AION2 HUB: a desktop application (apps/desktop) that plans the daily and weekly
-- tasks of a game's characters, and a web application with its packages.
--
-- The parts and their files:
--   Text, Dates: strings and `Date` as the code uses them.
--   Period: apps/desktop/src/main/planner/period.ts, the keys of a planner day and week.
--   Reset: apps/desktop/src/renderer/src/planner/reset.ts, when the renderer says that they end.
--   HubPeriod: packages/modules/planner/lib/period.ts, the same for the web planner.
--   Recommend: apps/desktop/src/renderer/src/planner/recommend.ts (`recommendPlannerItems`) and
--     packages/modules/planner/lib/recommend.ts (`recommendForBudget`).
--   Sql: statements on tables, the lists of their rows: apps/desktop/src/main/storage/sql.ts, and
--     what the domains ask of SQLite.
--   Planner: the tables of apps/desktop/src/main/storage/schema.ts and the operations of
--     apps/desktop/src/main/storage/domains: Planner.Characters (characters.ts, appSettings.ts),
--     and of planner.ts Planner.Settings, Planner.Templates, Planner.Presets
--     (`applyPlannerPreset`), Planner.Progress (completions, charges, durations) and
--     Planner.Overview (`getPlannerOverview`, which reads through the settings, the periods
--     and all of these tables). Planner.Keys has the keys over any history of calls.
--   Economy: domains/economy.ts there; a price that is added triggers the watches.
--   Overlay: apps/desktop/src/main/overlay/overlayManager.ts, the window and its visibility.
--   Notices: domains/notices.ts there, and in Notices.Sync the loop over the articles of a source in
--     apps/desktop/src/main/notices/sync.ts, which stores items, texts and differences.
--     Notices.Lines is diff.ts there, and the same file of apps/worker: the blocks of lines from
--     what `diffLines` gives.
--   Loot: domains/loot.ts there: runs with their drops and costs in one transaction (Loot.Runs), the
--     weekly report (Loot.Report), which reads the prices of Economy.
--   Json: values of `unknown` type, as the parsers look at them.
--   BuildStorage: domains/buildScore.ts there: stored scores and presets (BuildStorage.Presets).
--   Backup: `importUserBackup` of domains/backup.ts there: what it reads (Backup.Rows, from
--     Backup.Reads and Backup.Entries), what it writes to the tables of Planner, Economy, Loot and
--     BuildStorage (Backup.Writes), and the transaction (Backup.Import).
--   BuildScore: apps/desktop/src/renderer/src/pages/buildScore/model.ts.
--   Scheduler: apps/desktop/src/main/scheduler.ts, at most one synchronization at a time.
--   Modules: packages/core/src, the registry of modules and the caches of loads.
--   Tests: each result on concrete input.
--
-- The correspondence. A function has the source's name in snake case, a record its type's. A
-- table is a list of rows in the order of insertion, a database a record of tables, and an
-- operation takes the database and returns the new one; what throws returns an error. The
-- primary and unique keys of the schema are in the operations. Its foreign keys are not: `init` of
-- apps/desktop/src/main/storage/db.ts turns them on, but `openDesktopDb` writes the file right
-- after it, and `export` of sql.js, which it calls, opens the database again with the pragma off.
-- So no reference is checked and no deletion cascades. What the code takes from outside is an
-- argument: the texts of `randomUUID`, the clock, the parser of `Date`, `toLowerCase`, `JSON`,
-- SQLite's `LIKE`, `diffLines`, the work area of a display, whether a watcher starts.
--
-- Bounds. A time of the planner is a number of milliseconds, which stands for its ISO text; ISO
-- texts of one length compare as the times do. The economy keeps the texts, since there callers
-- hand them in. Local time has a fixed offset from UTC and starts in 1970, so a change to
-- summer time is not modelled. Windows do not move by themselves. A number that the code rounds
-- or tests is a quotient n / (d + 1) or not finite; seconds and budget of `recommendForBudget` are
-- counted in a unit that all of them are multiples of, and subtract exactly. Weights and values of
-- a build, the numbers of a backup and the reset day that is stored are whole numbers; the keys of
-- Period take any number as the reset day. Counters are natural numbers without an upper bound. The
-- only fuel is in the digits of a number (Text.show), which has
-- more of it than digits. Rows that ORDER BY leaves tied keep an order that SQL leaves open.
--
-- Not modelled: the list of the notices; the export of a backup; the writing of the database file;
-- the web stores; the user interface and the requests to remote services. Columns that no modelled
-- operation reads (`target_count`, `updated_at` of an assignment) are left out. A preset that
-- throws midway, which leaves what it has made so far, is no step of the history.
pub mod Prelude
pub mod Text
pub mod Dates
pub mod Period
pub mod Reset
pub mod HubPeriod
pub mod Recommend
pub mod Sql
pub mod Planner
pub mod Economy
pub mod Overlay
pub mod BuildScore
pub mod Tests
pub mod Scheduler
pub mod Modules
pub mod Notices
pub mod Loot
pub mod Json
pub mod BuildStorage
pub mod Backup
