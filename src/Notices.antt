-- ===== src/Notices.antt =====
-- The notices' tables of the desktop database: apps/desktop/src/main/storage/domains/notices.ts.
-- The times that the database sets are numbers of milliseconds; those of a notice are texts.
pub mod Sync
pub mod Lines
pub mod Snapshots
pub mod Skips
use aion2_hub.Prelude.{
  ℕ, List, [], ◌∷◌, String, Bool, true, false, ◌&&◌, ◌||◌, ◌===◌, leb, Option, none, some,
  if◌then◌else◌,
}
use aion2_hub.Sql.{
  Result, ok, err, ◌>>=◌, exists_where, one_where, select_where, update_where, insert_row,
}

pub data NoticeSource : Type 0 where
  notice update : NoticeSource

abbrev pub same_source : NoticeSource → NoticeSource → Bool
same_source NoticeSource.notice NoticeSource.notice = true
same_source NoticeSource.update NoticeSource.update = true
same_source a b = false

pub record NoticeItem : Type 0 where
  pub id : String
  pub source : NoticeSource
  pub external_id : String
  pub url : String
  pub title : String
  pub published_at : Option String
  pub created_at : ℕ
  pub updated_at : String

pub record NoticeSnapshot : Type 0 where
  pub id : String
  pub notice_item_id : String
  pub fetched_at : ℕ
  pub content_hash : String
  pub normalized_text : String

pub record NoticeDiff : Type 0 where
  pub id : String
  pub notice_item_id : String
  pub from_snapshot_id : String
  pub to_snapshot_id : String
  pub diff_json : String
  pub created_at : ℕ

pub record NoticeDb : Type 0 where
  pub items : List NoticeItem
  pub snapshots : List NoticeSnapshot
  pub diffs : List NoticeDiff

abbrev pub is_article : NoticeSource → String → NoticeItem → Bool
is_article source external_id i = same_source source i.source && i.external_id === external_id

pub record NoticeInput : Type 0 where
  pub source : NoticeSource
  pub external_id : String
  pub url : String
  pub title : String
  pub published_at : Option String
  pub updated_at : Option String

abbrev pub text_else : Option String → String → String
text_else none now = now
text_else (some s) now = s

abbrev pub new_notice : NoticeInput → String → ℕ → String → NoticeItem
new_notice input id now now_iso = record {
  id = id;
  source = input.source;
  external_id = input.external_id;
  url = input.url;
  title = input.title;
  published_at = input.published_at;
  created_at = now;
  updated_at = text_else input.updated_at now_iso;
}

abbrev pub changed_notice : NoticeInput → String → NoticeItem → NoticeItem
changed_notice input now_iso i = record i {
  url = input.url;
  title = input.title;
  published_at = input.published_at;
  updated_at = text_else input.updated_at now_iso;
}

-- With the existing row, if there is one. `now_iso` is `toISOString` of `now`.
unfoldable pub upsert_notice_found :
    NoticeDb → Option NoticeItem → NoticeInput → String → ℕ → String → Result (String × NoticeDb)
upsert_notice_found db (some e) input id now now_iso = ok (
  e.id,
  record db {
    items =
        update_where (λ (i : NoticeItem). i.id === e.id) (changed_notice input now_iso) db.items;
  },
)
upsert_notice_found db none input id now now_iso =
    insert_row (λ (i : NoticeItem). i.id === id || is_article input.source input.external_id i)
      (new_notice input id now now_iso) db.items
    >>= λ items. ok (id, record db { items = items })

unfoldable pub upsert_notice_item :
    NoticeDb → NoticeInput → String → ℕ → String → Result (String × NoticeDb)
unfolding upsert_notice_found
upsert_notice_item db input id now now_iso =
    upsert_notice_found db (one_where (is_article input.source input.external_id) db.items) input id
      now now_iso

unfoldable pub get_notice_item_by_external_id : NoticeDb → NoticeSource → String → Option NoticeItem
get_notice_item_by_external_id db source external_id =
    one_where (is_article source external_id) db.items

-- `ORDER BY fetched_at DESC LIMIT 1`; of two with one time the one inserted last.
unfoldable pub latest_snapshot : List NoticeSnapshot → Option NoticeSnapshot
latest_snapshot [] = none
latest_snapshot (s ∷ ss) = elim (latest_snapshot ss) [
  | none ↦ some s
  | some t ↦ if leb s.fetched_at t.fetched_at then some t else some s
]

abbrev pub is_of : String → NoticeSnapshot → Bool
is_of item_id s = s.notice_item_id === item_id

unfoldable pub get_latest_snapshot : NoticeDb → String → Option NoticeSnapshot
unfolding latest_snapshot
get_latest_snapshot db item_id = latest_snapshot (select_where (is_of item_id) db.snapshots)

abbrev pub same_content : String → String → NoticeSnapshot → Bool
same_content item_id content_hash s = is_of item_id s && s.content_hash === content_hash

pub record SnapshotResult : Type 0 where
  pub id : String
  pub fetched_at : ℕ
  pub inserted : Bool

abbrev pub new_snapshot : String → String → String → String → ℕ → NoticeSnapshot
new_snapshot id item_id content_hash normalized_text now = record {
  id = id;
  notice_item_id = item_id;
  fetched_at = now;
  content_hash = content_hash;
  normalized_text = normalized_text;
}

unfoldable pub upsert_snapshot_found :
    NoticeDb
    → Option NoticeSnapshot
    → String
    → String
    → String
    → String
    → ℕ
    → Result (SnapshotResult × NoticeDb)
upsert_snapshot_found db (some e) item_id content_hash text id now =
    ok (record { id = e.id; fetched_at = e.fetched_at; inserted = false }, db)
upsert_snapshot_found db none item_id content_hash text id now =
    insert_row (λ (s : NoticeSnapshot). s.id === id || same_content item_id content_hash s)
      (new_snapshot id item_id content_hash text now) db.snapshots
    >>= λ snapshots.
        ok (
          record { id = id; fetched_at = now; inserted = true },
          record db { snapshots = snapshots },
        )

unfoldable pub upsert_snapshot :
    NoticeDb → String → String → String → String → ℕ → Result (SnapshotResult × NoticeDb)
unfolding upsert_snapshot_found
upsert_snapshot db item_id content_hash text id now =
    upsert_snapshot_found db (one_where (same_content item_id content_hash) db.snapshots) item_id
      content_hash text id now

abbrev pub is_diff : String → String → NoticeDiff → Bool
is_diff from to d = d.from_snapshot_id === from && d.to_snapshot_id === to

unfoldable pub upsert_diff_found :
    NoticeDb → Option NoticeDiff → NoticeDiff → Result ((String × Bool) × NoticeDb)
upsert_diff_found db (some e) row = ok (
  (e.id, false),
  record db {
    diffs =
        update_where (λ (d : NoticeDiff). d.id === e.id)
          (λ d. record d { diff_json = row.diff_json }) db.diffs;
  },
)
upsert_diff_found db none row =
    insert_row
      (λ (d : NoticeDiff). d.id === row.id || is_diff row.from_snapshot_id row.to_snapshot_id d) row
      db.diffs
    >>= λ diffs. ok ((row.id, true), record db { diffs = diffs })

-- `row` has the new `randomUUID()` and the time.
unfoldable pub upsert_diff : NoticeDb → NoticeDiff → Result ((String × Bool) × NoticeDb)
unfolding upsert_diff_found
upsert_diff db row =
    upsert_diff_found db (one_where (is_diff row.from_snapshot_id row.to_snapshot_id) db.diffs) row

-- `ORDER BY created_at DESC LIMIT 1`.
unfoldable pub latest_diff : List NoticeDiff → Option NoticeDiff
latest_diff [] = none
latest_diff (d ∷ ds) = elim (latest_diff ds) [
  | none ↦ some d
  | some e ↦ if leb d.created_at e.created_at then some e else some d
]

unfoldable pub get_latest_diff : NoticeDb → String → Option NoticeDiff
unfolding latest_diff
get_latest_diff db item_id =
    latest_diff (select_where (λ (d : NoticeDiff). d.notice_item_id === item_id) db.diffs)

unfoldable pub get_notice : NoticeDb → String → Option NoticeItem
get_notice db item_id = one_where (λ (i : NoticeItem). i.id === item_id) db.items
