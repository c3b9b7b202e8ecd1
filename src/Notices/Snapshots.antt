-- ===== src/Notices/Snapshots.antt =====
-- A text of a notice is stored once: apps/desktop/src/main/storage/domains/notices.ts.
use aion2_hub.Prelude.{
  ℕ, ◌≡◌, refl, sym, inl, inr, String, ◌===◌, ===_refl, Bool, true, false, ◌||◌, [], ◌∷◌, ◌++◌,
  some, Option-cases,
}
use aion2_hub.Sql.{Result, ok, err, constraint_failed, one_where}
use aion2_hub.Sql.Laws.{insert_row_cases, one_where-snoc}
use aion2_hub.Sql.Keys.{one_where-none}
use aion2_hub.Notices.{
  NoticeSnapshot, NoticeDb, SnapshotResult, same_content, new_snapshot, upsert_snapshot_found,
  upsert_snapshot,
}

same_content_refl :
    (id item_id hash text : String) (now : ℕ)
    → same_content item_id hash (new_snapshot id item_id hash text now) ≡ true
same_content_refl id item_id hash text now = rw (===_refl item_id, ===_refl hash) refl

abbrev kept_as : NoticeSnapshot → Bool → SnapshotResult
kept_as s b = record { id = s.id; fetched_at = s.fetched_at; inserted = b }

given_again :
    (db after : NoticeDb) (s : NoticeSnapshot) (r : SnapshotResult) (b : Bool)
    (item_id hash : String)
    → one_where (same_content item_id hash) db.snapshots ≡ some s
    → ◌≡◌ {A = Result (SnapshotResult × NoticeDb)} (ok (kept_as s b, db)) (ok (r, after))
    → (text id : String) (now : ℕ)
    → upsert_snapshot after item_id hash text id now ≡ ok (record r { inserted = false }, after)
unfolding upsert_snapshot upsert_snapshot_found
given_again db after s r b item_id hash f e text id now =
    let p : db ≡ after = cc in let q : kept_as s b ≡ r = cc in rw (sym p, sym q, f) refl

-- When a text of a notice is stored, whether it was there before or not, storing a text with the
-- same hash for the same notice again, at any time and with any new identity, inserts nothing,
-- leaves the database as it is, and gives the identity and the time of the first.
pub upsert_snapshot-again :
    (db after : NoticeDb) (item_id hash text id : String) (now : ℕ) (r : SnapshotResult)
    → upsert_snapshot db item_id hash text id now ≡ ok (r, after)
    → (text2 id2 : String) (now2 : ℕ)
    → upsert_snapshot after item_id hash text2 id2 now2 ≡ ok (record r { inserted = false }, after)
unfolding upsert_snapshot upsert_snapshot_found
upsert_snapshot-again db after item_id hash text id now r e text2 id2 now2 =
    elim (Option-cases (one_where (same_content item_id hash) db.snapshots)) [
      | inr (s, f) ↦ given_again db after s r false item_id hash f (rw f at e) text2 id2 now2
      | inl f ↦
          let s = new_snapshot id item_id hash text now in
          let same = λ (t : NoticeSnapshot). t.id === id || same_content item_id hash t in
          elim (insert_row_cases same s db.snapshots) [
            | inl k ↦
                let g : ◌≡◌ {A = Result (SnapshotResult × NoticeDb)} (err constraint_failed)
                    (ok (r, after)) =
                  rw (f, k) at e in
                cc
            | inr (k, l) ↦
                given_again (record db { snapshots = db.snapshots ++ s ∷ [] }) after s r true
                  item_id hash
                  (one_where-snoc (same_content item_id hash) db.snapshots s
                    (one_where-none (same_content item_id hash) db.snapshots f)
                    (same_content_refl id item_id hash text now))
                  (rw (f, l) at e) text2 id2 now2
          ]
    ]
