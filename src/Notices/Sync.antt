-- ===== src/Notices/Sync.antt =====
-- The loop over the articles of apps/desktop/src/main/notices/sync.ts.
use aion2_hub.Prelude.{
  ℕ, suc, List, [], ◌∷◌, String, Bool, true, false, ◌===◌, Option, none, some, if◌then◌else◌,
}
use aion2_hub.Text.{is_empty}
use aion2_hub.Sql.{Result, ok, ◌>>=◌}
use aion2_hub.Notices.{
  NoticeSource, NoticeItem, NoticeSnapshot, NoticeDiff, NoticeDb, NoticeInput, SnapshotResult,
  upsert_notice_item, get_notice_item_by_external_id, get_latest_snapshot, upsert_snapshot,
  upsert_diff,
}

pub record PlayncArticleMeta : Type 0 where
  pub id : String
  pub published_at : Option String
  pub updated_at : Option String

pub record PlayncArticleDetail : Type 0 where
  pub id : String
  pub url : String
  pub title : String
  pub published_at : Option String
  pub posted_at : Option String
  pub updated_at : Option String
  pub content_html : String

pub record Totals : Type 0 where
  pub details_fetched : ℕ
  pub items_upserted : ℕ
  pub snapshots_inserted : ℕ
  pub diffs_inserted : ℕ
  pub skipped : ℕ

-- What the loop takes from outside: the parser of dates with `toISOString`, the text and the hash of
-- a page, the JSON of the difference of two texts, and the text of a time.
pub record World : Type 0 where
  pub parse_date : String → Option String
  pub normalized_text : String → String
  pub content_hash : String → String
  pub diff_json : String → String → String
  pub to_iso : ℕ → String

-- The identities and the time that one article takes.
pub record Fresh : Type 0 where
  pub item_id : String
  pub snapshot_id : String
  pub diff_id : String
  pub now : ℕ

-- `a ?? b`.
abbrev pub either : Option String → Option String → Option String
either none b = b
either (some a) b = some a

unfoldable pub parse_iso_date : World → Option String → Option String
parse_iso_date w none = none
parse_iso_date w (some s) = if is_empty s then none else w.parse_date s

unfoldable pub effective_updated_at : World → PlayncArticleMeta → Option String
unfolding parse_iso_date
effective_updated_at w meta =
    either (parse_iso_date w meta.updated_at) (parse_iso_date w meta.published_at)

abbrev pub is_there {ℓ} : {A : Type ℓ} → Option A → Bool
is_there none = false
is_there (some a) = true

-- Is the article known with this time, and is there a snapshot of it?
unfoldable pub is_current : NoticeDb → Option NoticeItem → Option String → Bool
is_current db none updated = false
is_current db (some e) none = false
is_current db (some e) (some u) =
    if e.updated_at === u then is_there (get_latest_snapshot db e.id) else false

abbrev pub input_of : World → NoticeSource → Option String → PlayncArticleDetail → NoticeInput
input_of w source updated detail = record {
  source = source;
  external_id = detail.id;
  url = detail.url;
  title = detail.title;
  published_at = parse_iso_date w (either detail.published_at detail.posted_at);
  updated_at = either updated (parse_iso_date w detail.updated_at);
}

abbrev pub diff_of : World → Fresh → String → NoticeSnapshot → SnapshotResult → String → NoticeDiff
diff_of w f item_id before snapshot text = record {
  id = f.diff_id;
  notice_item_id = item_id;
  from_snapshot_id = before.id;
  to_snapshot_id = snapshot.id;
  diff_json = w.diff_json before.normalized_text text;
  created_at = f.now;
}

abbrev pub count_if : Bool → ℕ → ℕ
count_if true n = suc n
count_if false n = n

-- What follows the snapshot, with the one before it.
unfoldable pub store_diff :
    World
    → Fresh
    → String
    → Option NoticeSnapshot
    → SnapshotResult
    → String
    → Totals
    → NoticeDb
    → Result (Totals × NoticeDb)
store_diff w f item_id none snapshot html totals db = ok (totals, db)
store_diff w f item_id (some before) snapshot html totals db =
    let store =
      upsert_diff db (diff_of w f item_id before snapshot (w.normalized_text html)) >>= λ r.
      ok (record totals { diffs_inserted = count_if r.0.1 totals.diffs_inserted }, r.1) in
    if before.content_hash === w.content_hash html
    then ok (totals, db)
    else if before.id === snapshot.id
    then ok (totals, db)
    else store

unfoldable pub store_content :
    World → Fresh → String → String → Totals → NoticeDb → Result (Totals × NoticeDb)
unfolding store_diff
store_content w f item_id html totals db =
    upsert_snapshot db item_id (w.content_hash html) (w.normalized_text html) f.snapshot_id f.now
    >>= λ r.
        store_diff w f item_id (get_latest_snapshot db item_id) r.0 html
          (record totals { snapshots_inserted = count_if r.0.inserted totals.snapshots_inserted })
          r.1

unfoldable pub store_article :
    World
    → Fresh
    → NoticeSource
    → Option String
    → PlayncArticleDetail
    → Totals
    → NoticeDb
    → Result (Totals × NoticeDb)
unfolding store_content
store_article w f source updated detail totals db =
    upsert_notice_item db (input_of w source updated detail) f.item_id f.now (w.to_iso f.now)
    >>= λ r.
        store_content w f r.0 detail.content_html
          (record totals {
            details_fetched = suc totals.details_fetched;
            items_upserted = suc totals.items_upserted;
          })
          r.1

-- One article; `detail` is what `fetchArticleDetail` gives for it.
unfoldable pub sync_article :
    World
    → Fresh
    → NoticeSource
    → PlayncArticleMeta
    → PlayncArticleDetail
    → Totals
    → NoticeDb
    → Result (Totals × NoticeDb)
unfolding is_current store_article effective_updated_at
sync_article w f source meta detail totals db =
    let updated = effective_updated_at w meta in
    let stored = store_article w f source updated detail totals db in
    if is_current db (get_notice_item_by_external_id db source meta.id) updated
    then ok (record totals { skipped = suc totals.skipped }, db)
    else stored

-- The articles of one source, in order, each with its detail and what it takes.
unfoldable pub sync_articles :
    World
    → NoticeSource
    → List (PlayncArticleMeta × PlayncArticleDetail × Fresh)
    → Totals
    → NoticeDb
    → Result (Totals × NoticeDb)
unfolding sync_article
sync_articles w source [] totals db = ok (totals, db)
sync_articles w source ((meta, detail, f) ∷ rest) totals db =
    sync_article w f source meta detail totals db >>= λ r. sync_articles w source rest r.0 r.1
