-- ===== src/Economy.antt =====
-- The economy tables of the desktop database and their items:
-- apps/desktop/src/main/storage/domains/economy.ts, with the rows of types.ts and schema.ts. A
-- time is the text that the code stores, and the clock a text that it is given.
pub mod Prices
pub mod Watches
pub mod Upserts
pub mod Search
pub mod Triggers
use Prim.Native.Char.{Char, code}
use Prim.Native.String.{compare}
use text.Mathlib.Text.{is_le}
use aion2_hub.Prelude.{
  ℕ, ◌==◌, min, max, List, [], ◌∷◌, String, Bool, true, false, not, ◌===◌, ltb, leb, Option, none,
  some, if◌then◌else◌,
}
use aion2_hub.Prelude.Int.{ℤ, pos_part}
use aion2_hub.Text.{◌<+>◌, trim, is_empty}
use aion2_hub.Sql.{
  Result, ok, err, ◌>>=◌, bad_request, constraint_failed, statement_failed, delete_where,
  update_where, exists_where, one_where, insert_row, order_by, limit,
}

pub data EconomyPriceWatchOp : Type 0 where
  lt le gt ge : EconomyPriceWatchOp

pub record EconomyItem : Type 0 where
  pub id : String
  pub name : String
  pub category : Option String
  pub note : Option String
  pub created_at : String
  pub updated_at : String

pub record EconomyPrice : Type 0 where
  pub id : String
  pub server : String
  pub item_id : String
  pub price : ℕ
  pub recorded_at : String
  pub created_at : String
  pub updated_at : String

pub record EconomyPriceWatch : Type 0 where
  pub id : String
  pub server : String
  pub item_id : String
  pub op : EconomyPriceWatchOp
  pub threshold : ℕ
  pub active : Bool
  pub created_at : String
  pub updated_at : String

pub record EconomyAlertEvent : Type 0 where
  pub id : String
  pub server : String
  pub item_id : String
  pub item_name : String
  pub op : EconomyPriceWatchOp
  pub threshold : ℕ
  pub price : ℕ
  pub triggered_at : String
  pub read_at : Option String

pub record EconomyDb : Type 0 where
  pub items : List EconomyItem
  pub prices : List EconomyPrice
  pub watches : List EconomyPriceWatch
  pub alerts : List EconomyAlertEvent

-- Texts compare by their bytes, the least first or last.
unfoldable pub text_leb : String → String → Bool
text_leb a b = is_le (compare a b)

-- `compare(price, op, threshold)`.
unfoldable pub compare_price : ℕ → EconomyPriceWatchOp → ℕ → Bool
compare_price price EconomyPriceWatchOp.lt threshold = ltb price threshold
compare_price price EconomyPriceWatchOp.le threshold = leb price threshold
compare_price price EconomyPriceWatchOp.gt threshold = ltb threshold price
compare_price price EconomyPriceWatchOp.ge threshold = leb threshold price

-- `typeof s === "string" && s.trim() ? s.trim() : null`.
unfoldable pub trimmed : Option String → Option String
trimmed none = none
trimmed (some s) = if is_empty (trim s) then none else some (trim s)

-- A whole `limit` between 1 and 500, and 100 where it is missing or not finite.
unfoldable pub row_limit : Option ℤ → ℕ
row_limit none = 100
row_limit (some n) = max 1 (min 500 (pos_part n))

-- `q.replaceAll("%", "\\%").replaceAll("_", "\\_")`.
unfoldable pub escape_like : String → String
escape_like String.[] = String.[]
escape_like (String.◌∷◌ c s) =
    let rest = String.◌∷◌ c (escape_like s) in
    if code c == 37 then "\\" <+> rest else if code c == 95 then "\\" <+> rest else rest

abbrev pub text_of : Option String → String
text_of none = String.[]
text_of (some s) = s

-- `WHERE name LIKE $q ESCAPE …`: an error in one of the rows is the statement's.
unfoldable pub select_like : (String → Option Bool) → List EconomyItem → Result (List EconomyItem)
select_like test [] = ok []
select_like test (r ∷ rs) = elim (test r.name) [
  | none ↦ err statement_failed
  | some b ↦ select_like test rs >>= λ rest. ok (if b then r ∷ rest else rest)
]

-- `like pattern escape text` stands for SQLite's `text LIKE pattern ESCAPE escape`, `none` for its
-- error. The template literal makes two backslashes of the four in `ESCAPE '\\\\'`.
unfoldable pub list_economy_items :
    (String → String → String → Option Bool)
    → EconomyDb
    → Option String
    → Option ℤ
    → Result (List EconomyItem)
unfolding row_limit escape_like select_like text_leb
list_economy_items like db q limit_input =
    let text = trim (text_of q) in
    let pattern = "%" <+> escape_like text <+> "%" in
    let found = if is_empty text then ok db.items else select_like (like pattern "\\\\") db.items in
    found >>= λ rows.
    ok (
      limit (row_limit limit_input) (order_by (λ (a b : EconomyItem). text_leb a.name b.name) rows))

unfoldable pub get_economy_item_by_id : EconomyDb → String → Option EconomyItem
get_economy_item_by_id db item_id = one_where (λ (i : EconomyItem). i.id === item_id) db.items

-- `a ?? b` on texts that may be missing.
abbrev pub or_else : Option String → Option String → Option String
or_else none b = b
or_else (some a) b = some a

-- The key of an item and its unique name.
abbrev pub same_item : String → String → EconomyItem → Bool
same_item id name i = if i.id === id then true else i.name === name

abbrev pub new_item : String → String → Option String → Option String → String → EconomyItem
new_item id name category note now = record {
  id = id;
  name = name;
  category = category;
  note = note;
  created_at = now;
  updated_at = now;
}

-- The `existing` item with what is given, or a new one.
unfoldable pub upsert_found :
    EconomyDb
    → Option EconomyItem
    → String
    → Option String
    → Option String
    → String
    → String
    → Result (EconomyItem × EconomyDb)
upsert_found db none name category note id now =
    insert_row (same_item id name) (new_item id name category note now) db.items >>= λ items.
    ok (new_item id name category note now, record db { items = items })
upsert_found db (some e) name category note id now =
    let change = λ (i : EconomyItem). record i {
      category = or_else category e.category;
      note = or_else note e.note;
      updated_at = now;
    } in
    ok (
      change e,
      record db { items = update_where (λ (i : EconomyItem). i.id === e.id) change db.items },
    )

unfoldable pub upsert_economy_item_by_name :
    EconomyDb
    → String
    → Option String
    → Option String
    → String
    → String
    → Result (EconomyItem × EconomyDb)
unfolding trimmed upsert_found
upsert_economy_item_by_name db raw_name category note id now =
    let name = trim raw_name in
    if is_empty name
    then err bad_request
    else upsert_found db (one_where (λ (i : EconomyItem). i.name === name) db.items) name
        (trimmed category) (trimmed note) id now

-- The name is to be the item's own, where the item is there.
unfoldable pub update_economy_item :
    EconomyDb → String → String → Option String → Option String → String → Result EconomyDb
unfolding trimmed
update_economy_item db id raw_name category note now =
    let name = trim raw_name in
    let taken =
      exists_where (λ (i : EconomyItem). if i.id === id then false else i.name === name) db.items in
    let found = exists_where (λ (i : EconomyItem). i.id === id) db.items in
    let change = λ (i : EconomyItem). record i {
      name = name;
      category = trimmed category;
      note = trimmed note;
      updated_at = now;
    } in
    if is_empty id
    then err bad_request
    else if is_empty name
    then err bad_request
    else if found
    then if taken
      then err constraint_failed
      else ok
          (record db { items = update_where (λ (i : EconomyItem). i.id === id) change db.items })
    else ok db

-- The item's prices, watches and alerts stay.
unfoldable pub delete_economy_item : EconomyDb → String → EconomyDb
delete_economy_item db item_id = record db {
  items = delete_where (λ (i : EconomyItem). i.id === item_id) db.items;
}
