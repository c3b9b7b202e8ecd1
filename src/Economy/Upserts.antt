-- ===== src/Economy/Upserts.antt =====
-- Properties of `upsertEconomyItemByName` of apps/desktop/src/main/storage/domains/economy.ts.
use aion2_hub.Prelude.{
  suc, ◌≡◌, refl, ap, ◌∙◌, String, ◌===◌, ===_refl, ===_iff, Bool, false, ◌||◌, Option, none, some,
  List, [], ◌∷◌, ◌++◌, length, arith,
}
use aion2_hub.Text.{trim, is_empty}
use aion2_hub.Sql.{ok, exists_where, one_where, update_where, insert_row}
use aion2_hub.Sql.Laws.{one_where-snoc, exists-or, exists_congr}
use aion2_hub.Sql.Keys.{one_where-none, one_where-holds, one_where-updated}
use aion2_hub.Economy.{
  EconomyItem, EconomyDb, trimmed, or_else, same_item, new_item, upsert_found,
  upsert_economy_item_by_name,
}

abbrev pub has_name : String → EconomyItem → Bool
has_name name i = i.name === name

length-update {ℓ} :
    {A : Type ℓ} (p : A → Bool) (f : A → A) (xs : List A) → length (update_where p f xs) ≡ length xs
unfolding update_where
length-update p f [] = refl
length-update p f (x ∷ xs) = ap suc (length-update p f xs)

-- No item has the identity or the name.
fresh_item :
    (id name : String) (items : List EconomyItem)
    → exists_where (λ (i : EconomyItem). i.id === id) items ≡ false
    → exists_where (has_name name) items ≡ false
    → exists_where (same_item id name) items ≡ false
fresh_item id name items e f =
    exists_congr (same_item id name) (λ i. i.id === id || i.name === name) items (λ i. ground arith)
    ∙ ground (arith, exists-or (λ (i : EconomyItem). i.id === id) (has_name name) items, e, f)

-- The item is the first of its name, and has it.
abbrev Holds : EconomyDb → String → EconomyItem → Type 0
Holds db name item = (one_where (has_name name) db.items ≡ some item) × (item.name ≡ name)

upsert_found-Holds :
    (db : EconomyDb) (o : Option EconomyItem) (name : String) (category note : Option String)
    (id now : String)
    → one_where (has_name name) db.items ≡ o
    → exists_where (λ (i : EconomyItem). i.id === id) db.items ≡ false
    → (item : EconomyItem) × (after : EconomyDb) × (upsert_found db o name category note id now
        ≡ ok (item, after))
      × Holds after name item
unfolding upsert_found insert_row
upsert_found-Holds db none name category note id now e fresh =
    let absent = one_where-none (has_name name) db.items e in
    let row = new_item id name category note now in
    (
      row,
      record db { items = db.items ++ row ∷ [] },
      rw (fresh_item id name db.items fresh absent) refl,
      (one_where-snoc (has_name name) db.items row absent (===_refl name), refl),
    )
upsert_found-Holds db (some i) name category note id now e fresh =
    let change = λ (j : EconomyItem). record j {
      category = or_else category i.category;
      note = or_else note i.note;
      updated_at = now;
    } in
    let named = (===_iff i.name name).0 (one_where-holds (has_name name) db.items e) in
    (
      _,
      _,
      refl,
      (
        one_where-updated (has_name name) (λ (j : EconomyItem). j.id === i.id) change db.items i
            (λ j. refl) e (===_refl i.id),
        named,
      ),
    )

-- The rows after an item is put in again.
abbrev touched : EconomyDb → EconomyItem → String → EconomyDb
touched db item now = record db {
  items =
      update_where (λ (i : EconomyItem). i.id === item.id)
        (λ (i : EconomyItem). record i {
          category = item.category;
          note = item.note;
          updated_at = now;
        })
        db.items;
}

-- To put in an item by a name that is not blank, with an unused new identity, succeeds and gives
-- the item of that name, without the white space around it. To put it in by this name again gives
-- the same item, with its category and its note, if none are given, and the new time, and
-- adds no row.
pub upsert_economy_item_by_name-again :
    (db : EconomyDb) (raw_name : String) (category note : Option String) (id now : String)
    → is_empty (trim raw_name) ≡ false
    → exists_where (λ (i : EconomyItem). i.id === id) db.items ≡ false
    → (item : EconomyItem) × (after : EconomyDb) × (upsert_economy_item_by_name db raw_name category
          note id now
        ≡ ok (item, after))
      × (item.name ≡ trim raw_name)
      × (one_where (has_name (trim raw_name)) after.items ≡ some item)
      × ((id' now' : String)
          → (last : EconomyDb) × (upsert_economy_item_by_name after raw_name none none id' now'
              ≡ ok (record item { updated_at = now' }, last))
            × (length last.items ≡ length after.items))
unfolding upsert_economy_item_by_name upsert_found trimmed
upsert_economy_item_by_name-again db raw_name category note id now filled fresh =
    let name = trim raw_name in
    let (item, after, r, (found, named)) =
      upsert_found-Holds db (one_where (has_name name) db.items) name (trimmed category)
        (trimmed note) id now refl fresh in
    (
      item,
      after,
      rw filled r,
      named,
      found,
      λ id' now'. (
        touched after item now',
        rw (filled, found) refl,
        length-update (λ (i : EconomyItem). i.id === item.id) _ after.items,
      ),
    )
