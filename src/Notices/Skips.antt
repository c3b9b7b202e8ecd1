-- ===== src/Notices/Skips.antt =====
-- An article that is stored is skipped afterwards: apps/desktop/src/main/notices/sync.ts.
use aion2_hub.Prelude.{
  ℕ, suc, ◌≡◌, refl, sym, ◌∙◌, inl, inr, String, ◌===◌, ===_refl, true, ◌||◌, Bool-cases, List, [],
  ◌∷◌, Option, none, some, Option-cases, leb, arith,
}
use aion2_hub.Sql.{Result, ok, err, ◌>>=◌, exists_where, one_where, select_where}
use aion2_hub.Sql.Laws.{
  insert_row_cases, one_where-snoc, exists-snoc_new, one_where-exists, exists_mono,
}
use aion2_hub.Sql.Keys.{one_where-none, one_where-updated}
use aion2_hub.Notices.{
  NoticeSource, NoticeItem, NoticeSnapshot, NoticeDiff, NoticeDb, NoticeInput, SnapshotResult,
  same_source, is_article, new_notice, changed_notice, upsert_notice_found, upsert_notice_item,
  get_notice_item_by_external_id, latest_snapshot, is_of, get_latest_snapshot, same_content,
  new_snapshot, upsert_snapshot_found, upsert_snapshot, is_diff, upsert_diff_found, upsert_diff,
}
use aion2_hub.Notices.Sync.{
  PlayncArticleMeta, PlayncArticleDetail, Totals, World, Fresh, effective_updated_at, is_there,
  is_current, input_of, diff_of, store_diff, store_content, store_article, sync_article,
}

same_source_refl : (s : NoticeSource) → same_source s s ≡ true
same_source_refl NoticeSource.notice = refl
same_source_refl NoticeSource.update = refl

some_latest :
    (s : NoticeSnapshot) (ss : List NoticeSnapshot) → is_there (latest_snapshot (s ∷ ss)) ≡ true
unfolding latest_snapshot
some_latest s ss = elim (Option-cases (latest_snapshot ss)) [
  | inl f ↦ rw f refl
  | inr (t, f) ↦ elim (Bool-cases (leb s.fetched_at t.fetched_at)) [
    | inl g ↦ rw (f, g) refl
    | inr g ↦ rw (f, g) refl
  ]
]

latest_there :
    (item_id : String) (ss : List NoticeSnapshot)
    → exists_where (is_of item_id) ss ≡ true
    → is_there (latest_snapshot (select_where (is_of item_id) ss)) ≡ true
unfolding exists_where select_where
latest_there item_id [] e = cc
latest_there item_id (s ∷ ss) e = elim (Bool-cases (is_of item_id s)) [
  | inl h ↦ rw h (some_latest s (select_where (is_of item_id) ss))
  | inr h ↦ rw h (latest_there item_id ss (rw h at e))
]

-- The article is known with the time `u` under the identity `id`.
record Known (source : NoticeSource) (external_id u id : String) (db : NoticeDb) : Type 0 where
  item : NoticeItem
  found : one_where (is_article source external_id) db.items ≡ some item
  same_id : item.id ≡ id
  same_time : item.updated_at ≡ u

-- It has a text, too.
abbrev Current : NoticeSource → String → String → String → NoticeDb → Type 0
Current source external_id u id db =
    Known source external_id u id db × (exists_where (is_of id) db.snapshots ≡ true)

-- What a call leaves when it does not throw.
abbrev After : {A : Type 0} → (A → NoticeDb → Type 0) → Result (A × NoticeDb) → Type 0
After P (ok (a, db)) = P a db
After P (err e) = Unit {0}

After-bind :
    {A B : Type 0} (P : A → NoticeDb → Type 0) (Q : B → NoticeDb → Type 0)
    (r : Result (A × NoticeDb)) (f : A × NoticeDb → Result (B × NoticeDb))
    → After P r
    → ((a : A) (db : NoticeDb) → P a db → After Q (f (a, db)))
    → After Q (r >>= f)
After-bind P Q (ok (a, db)) f p k = k a db p
After-bind P Q (err e) f p k = tt

After-map :
    {A : Type 0} (P Q : A → NoticeDb → Type 0) (r : Result (A × NoticeDb))
    → ((a : A) (db : NoticeDb) → P a db → Q a db)
    → After P r
    → After Q r
After-map P Q (ok (a, db)) h p = h a db p
After-map P Q (err e) h p = tt

After-ok :
    {A : Type 0} (P : A → NoticeDb → Type 0) {r : Result (A × NoticeDb)} {a : A} {db : NoticeDb}
    → After P r
    → r ≡ ok (a, db)
    → P a db
After-ok P h e = rw e at h

Current-is_current :
    (source : NoticeSource) (external_id u id : String) (db : NoticeDb)
    → Current source external_id u id db
    → is_current db (get_notice_item_by_external_id db source external_id) (some u) ≡ true
unfolding is_current get_notice_item_by_external_id get_latest_snapshot
Current-is_current source external_id u id db (k, e) =
    rw (k.found, k.same_time, ===_refl u, k.same_id) (latest_there id db.snapshots e)

upsert_notice_item-Known :
    (db : NoticeDb) (input : NoticeInput) (u id : String) (now : ℕ) (now_iso : String)
    → input.updated_at ≡ some u
    → After
        (λ i after. Known input.source input.external_id u i after)
        (upsert_notice_item db input id now now_iso)
unfolding upsert_notice_item upsert_notice_found
upsert_notice_item-Known db input u id now now_iso e =
    elim (Option-cases (one_where (is_article input.source input.external_id) db.items)) [
      | inr (x, f) ↦ rw f (record {
        item = changed_notice input now_iso x;
        found =
            one_where-updated _ _ (changed_notice input now_iso) db.items x (λ y. refl) f
              (===_refl x.id);
        same_id = refl;
        same_time = rw e refl;
      })
      | inl f ↦
          elim (insert_row_cases
            (λ (i : NoticeItem). i.id === id || is_article input.source input.external_id i)
            (new_notice input id now now_iso) db.items) [
              | inl g ↦ rw (f, g) tt
              | inr (k, g) ↦
                  rw (f, g)
                    (record {
                      item = new_notice input id now now_iso;
                      found =
                          one_where-snoc (is_article input.source input.external_id) db.items
                            (new_notice input id now now_iso) (one_where-none _ db.items f)
                            (rw (same_source_refl input.source, ===_refl input.external_id) refl);
                      same_id = refl;
                      same_time = rw e refl;
                    })
            ]
    ]

upsert_snapshot-Current :
    (db : NoticeDb) (source : NoticeSource) (external_id u item_id hash text id : String) (now : ℕ)
    → Known source external_id u item_id db
    → After
        (λ r after. Current source external_id u item_id after)
        (upsert_snapshot db item_id hash text id now)
unfolding upsert_snapshot upsert_snapshot_found
upsert_snapshot-Current db source external_id u item_id hash text id now k =
    elim (Option-cases (one_where (same_content item_id hash) db.snapshots)) [
      | inr (s, f) ↦
          rw f (
            k,
            exists_mono _ _ db.snapshots (λ t. ground arith) (one_where-exists _ db.snapshots f),
          )
      | inl f ↦
          elim (insert_row_cases
            (λ (t : NoticeSnapshot). t.id === id || same_content item_id hash t)
            (new_snapshot id item_id hash text now) db.snapshots) [
              | inl g ↦ rw (f, g) tt
              | inr (c, g) ↦
                  rw (f, g)
                    (
                      record {
                        item = k.item;
                        found = k.found;
                        same_id = k.same_id;
                        same_time = k.same_time;
                      },
                      exists-snoc_new (is_of item_id) db.snapshots
                          (new_snapshot id item_id hash text now) (===_refl item_id),
                    )
            ]
    ]

diffs-Current :
    (db : NoticeDb) (source : NoticeSource) (external_id u id : String) (diffs : List NoticeDiff)
    → Current source external_id u id db
    → Current source external_id u id (record db { diffs = diffs })
diffs-Current db source external_id u id diffs (k, e) =
    (record { item = k.item; found = k.found; same_id = k.same_id; same_time = k.same_time }, e)

upsert_diff-Current :
    (db : NoticeDb) (source : NoticeSource) (external_id u id : String) (row : NoticeDiff)
    → Current source external_id u id db
    → After (λ r after. Current source external_id u id after) (upsert_diff db row)
unfolding upsert_diff upsert_diff_found
upsert_diff-Current db source external_id u id row c =
    let keep = λ (diffs : List NoticeDiff). diffs-Current db source external_id u id diffs c in
    let pair = is_diff row.from_snapshot_id row.to_snapshot_id in
    elim (Option-cases (one_where pair db.diffs)) [
      | inr (d, f) ↦ rw f (keep _)
      | inl f ↦
          elim (insert_row_cases (λ (d : NoticeDiff). d.id === row.id || pair d) row db.diffs) [
            | inl g ↦ rw (f, g) tt
            | inr (_, g) ↦ rw (f, g) (keep _)
          ]
    ]

store_diff-Current :
    (db : NoticeDb) (source : NoticeSource) (external_id u id : String) (w : World) (f : Fresh)
    (before : Option NoticeSnapshot) (snapshot : SnapshotResult) (html : String) (totals : Totals)
    → Current source external_id u id db
    → After
        (λ t after. Current source external_id u id after)
        (store_diff w f id before snapshot html totals db)
unfolding store_diff
store_diff-Current db source external_id u id w f none snapshot html totals c = c
store_diff-Current db source external_id u id w f (some b) snapshot html totals c =
    let stored =
      After-bind (λ r after. Current source external_id u id after)
        (λ t after. Current source external_id u id after)
        (upsert_diff db (diff_of w f id b snapshot (w.normalized_text html))) _
        (upsert_diff-Current db source external_id u id
          (diff_of w f id b snapshot (w.normalized_text html)) c)
        (λ r after d. d) in
    elim (Bool-cases (b.content_hash === w.content_hash html)) [
      | inl h ↦ rw h c
      | inr h ↦ elim (Bool-cases (b.id === snapshot.id)) [
        | inl g ↦ rw (h, g) c
        | inr g ↦ rw (h, g) stored
      ]
    ]

store_content-Current :
    (db : NoticeDb) (source : NoticeSource) (external_id u id : String) (w : World) (f : Fresh)
    (html : String) (totals : Totals)
    → Known source external_id u id db
    → After (λ t after. Current source external_id u id after) (store_content w f id html totals db)
unfolding store_content
store_content-Current db source external_id u id w f html totals k =
    After-bind (λ r after. Current source external_id u id after)
      (λ t after. Current source external_id u id after)
      (upsert_snapshot db id (w.content_hash html) (w.normalized_text html) f.snapshot_id f.now) _
      (upsert_snapshot-Current db source external_id u id (w.content_hash html)
        (w.normalized_text html) f.snapshot_id f.now k)
      (λ r after c.
        store_diff-Current after source external_id u id w f (get_latest_snapshot db id) r html _ c)

-- The state after an article is stored.
abbrev Stored : NoticeSource → String → String → NoticeDb → Type 0
Stored source external_id u db = (id : String) × Current source external_id u id db

store_article-Stored :
    (db : NoticeDb) (source : NoticeSource) (u : String) (w : World) (f : Fresh)
    (detail : PlayncArticleDetail) (totals : Totals)
    → After
        (λ t after. Stored source detail.id u after)
        (store_article w f source (some u) detail totals db)
unfolding store_article
store_article-Stored db source u w f detail totals =
    After-bind (λ i after. Known source detail.id u i after)
      (λ t after. Stored source detail.id u after)
      (upsert_notice_item db (input_of w source (some u) detail) f.item_id f.now (w.to_iso f.now)) _
      (upsert_notice_item-Known db (input_of w source (some u) detail) u f.item_id f.now
        (w.to_iso f.now) refl)
      (λ i after k.
        After-map (λ t db. Current source detail.id u i db) (λ t db. Stored source detail.id u db) _
          (λ t db c. (i, c))
          (store_content-Current after source detail.id u i w f detail.content_html _ k))

skips_current :
    (w : World) (f : Fresh) (source : NoticeSource) (meta : PlayncArticleMeta)
    (detail : PlayncArticleDetail) (totals : Totals) (db : NoticeDb) {u : String}
    → effective_updated_at w meta ≡ some u
    → is_current db (get_notice_item_by_external_id db source meta.id) (some u) ≡ true
    → sync_article w f source meta detail totals db
      ≡ ok (record totals { skipped = suc totals.skipped }, db)
unfolding sync_article
skips_current w f source meta detail totals db e h = rw (e, h) refl

-- When an article whose list entry has a readable time is processed without an error, whether it is
-- new, changed or skipped, and its page names the identity of the entry, every later processing of
-- the same entry on the database that this leaves skips it, whatever the page holds by then: the
-- count of the skipped grows by one, no other count grows, and the database stays as it is.
pub sync_article-again :
    (w : World) (f : Fresh) (source : NoticeSource) (meta : PlayncArticleMeta)
    (detail : PlayncArticleDetail) (totals counted : Totals) (db after : NoticeDb) (u : String)
    → effective_updated_at w meta ≡ some u
    → detail.id ≡ meta.id
    → sync_article w f source meta detail totals db ≡ ok (counted, after)
    → (later : Fresh) (page : PlayncArticleDetail) (totals2 : Totals)
    → sync_article w later source meta page totals2 after
      ≡ ok (record totals2 { skipped = suc totals2.skipped }, after)
unfolding sync_article
sync_article-again w f source meta detail totals counted db after u e same run later page totals2 =
    elim (Bool-cases (is_current db (get_notice_item_by_external_id db source meta.id) (some u))) [
      | inl h ↦
          let kept : ◌≡◌ {A = Result (Totals × NoticeDb)}
              (ok (record totals { skipped = suc totals.skipped }, db)) (ok (counted, after)) =
            sym (skips_current w f source meta detail totals db e h) ∙ run in
          let there : db ≡ after = cc in
          skips_current w later source meta page totals2 after e (rw there at h)
      | inr h ↦
          let stored =
            After-ok _ (store_article-Stored db source u w f detail totals) (rw (e, h) at run) in
          skips_current w later source meta page totals2 after e
            (Current-is_current source meta.id u stored.0 after (rw same at stored.1))
    ]
