-- ===== src/Tests/Articles.antt =====
-- The texts of notices on concrete input.
use aion2_hub.Prelude.{ℕ, ◌≡◌, refl, String, true, false, ◌===◌, [], ◌∷◌, none, some}
use aion2_hub.Sql.{ok, one_where, exists_where, insert_row, update_where, select_where}
use aion2_hub.Text.{is_empty}
use aion2_hub.Notices.{
  NoticeSource, NoticeItem, NoticeDb, get_notice_item_by_external_id, upsert_notice_item,
  get_latest_snapshot, upsert_diff, upsert_snapshot,
}
use aion2_hub.Notices.Snapshots.{upsert_snapshot-again}
use aion2_hub.Notices.Sync.{
  PlayncArticleMeta, PlayncArticleDetail, Totals, World, Fresh, effective_updated_at, sync_article,
}
use aion2_hub.Notices.Skips.{sync_article-again}

abbrev patch_item : NoticeItem
patch_item = record {
  id = "i1";
  source = NoticeSource.update;
  external_id = "e1";
  url = "/e1";
  title = "Patch";
  published_at = none;
  created_at = 3;
  updated_at = "2026-01-01";
}

abbrev one_item : NoticeDb
one_item = record { items = patch_item ∷ []; snapshots = []; diffs = [] }

abbrev with_text : NoticeDb
with_text = record one_item {
  snapshots =
      record {
        id = "s1";
        notice_item_id = "i1";
        fetched_at = 5;
        content_hash = "h";
        normalized_text = "t";
      }
      ∷ [];
}

one_item_run :
    upsert_snapshot one_item "i1" "h" "t" "s1" 5
    ≡ ok (record { id = "s1"; fetched_at = 5; inserted = true }, with_text)
unfolding upsert_snapshot insert_row one_where exists_where ◌===◌
one_item_run = refl

upsert_snapshot-again_example :
    upsert_snapshot with_text "i1" "h" "t" "s2" 9
    ≡ ok (record { id = "s1"; fetched_at = 5; inserted = false }, with_text)
upsert_snapshot-again_example =
    upsert_snapshot-again one_item with_text "i1" "h" "t" "s1" 5
      (record { id = "s1"; fetched_at = 5; inserted = true }) one_item_run "t" "s2" 9

abbrev plain_world : World
plain_world = record {
  parse_date = some;
  normalized_text = λ s. s;
  content_hash = λ s. s;
  diff_json = λ a b. a;
  to_iso = λ n. "now";
}

abbrev meta : PlayncArticleMeta
meta = record { id = "e1"; published_at = none; updated_at = some "2026-01-02" }

abbrev page : String → PlayncArticleDetail
page text = record {
  id = "e1";
  url = "/e1";
  title = "Patch";
  published_at = none;
  posted_at = none;
  updated_at = none;
  content_html = text;
}

abbrev zeros : Totals
zeros = record {
  details_fetched = 0;
  items_upserted = 0;
  snapshots_inserted = 0;
  diffs_inserted = 0;
  skipped = 0;
}

abbrev ids : ℕ → Fresh
ids n = record { item_id = "i2"; snapshot_id = "s2"; diff_id = "d2"; now = n }

-- The article has changed: the row, a second text and the difference.
abbrev changed : NoticeDb
changed = record {
  items = record patch_item { updated_at = "2026-01-02" } ∷ [];
  snapshots =
      record {
        id = "s1";
        notice_item_id = "i1";
        fetched_at = 5;
        content_hash = "h";
        normalized_text = "t";
      }
      ∷ record {
        id = "s2";
        notice_item_id = "i1";
        fetched_at = 7;
        content_hash = "new";
        normalized_text = "new";
      }
      ∷ [];
  diffs =
      record {
        id = "d2";
        notice_item_id = "i1";
        from_snapshot_id = "s1";
        to_snapshot_id = "s2";
        diff_json = "t";
        created_at = 7;
      }
      ∷ [];
}

abbrev ones : Totals
ones = record {
  details_fetched = 1;
  items_upserted = 1;
  snapshots_inserted = 1;
  diffs_inserted = 1;
  skipped = 0;
}

changed_run :
    sync_article plain_world (ids 7) NoticeSource.update meta (page "new") zeros with_text
    ≡ ok (ones, changed)
unfolding sync_article get_notice_item_by_external_id one_where ◌===◌ is_empty upsert_notice_item
    upsert_snapshot insert_row exists_where update_where get_latest_snapshot select_where
    upsert_diff
changed_run = refl

updated_at_run : effective_updated_at plain_world meta ≡ some "2026-01-02"
unfolding effective_updated_at is_empty
updated_at_run = refl

sync_article-again_example :
    sync_article plain_world (ids 9) NoticeSource.update meta (page "newer") ones changed
    ≡ ok (record ones { skipped = 1 }, changed)
sync_article-again_example =
    sync_article-again plain_world (ids 7) NoticeSource.update meta (page "new") zeros ones
      with_text changed "2026-01-02" updated_at_run refl changed_run (ids 9) (page "newer") ones
