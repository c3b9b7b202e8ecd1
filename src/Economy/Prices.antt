-- ===== src/Economy/Prices.antt =====
-- Prices, watches and alerts of apps/desktop/src/main/storage/domains/economy.ts.
use aion2_hub.Prelude.{
  ℕ, suc, List, [], ◌∷◌, String, Bool, ◌&&◌, ◌===◌, Option, none, some, if◌then◌else◌,
}
use aion2_hub.Prelude.Number.{Number, finite, not_finite, floor_at_zero}
use aion2_hub.Text.{trim, is_empty}
use aion2_hub.Sql.{
  Result, ok, err, ◌>>=◌, bad_request, select_where, exists_where, insert_row, order_by,
}
use aion2_hub.Economy.{
  EconomyItem, EconomyPrice, EconomyPriceWatch, EconomyAlertEvent, EconomyDb, compare_price,
  text_leb, upsert_economy_item_by_name,
}

abbrev pub has_item : EconomyDb → String → Bool
has_item db id = exists_where (λ (i : EconomyItem). i.id === id) db.items

-- `Number.isFinite(x) ? Math.max(0, Math.floor(x)) : 0`.
unfoldable pub floor_or_zero : Number → ℕ
floor_or_zero (finite n d) = floor_at_zero n d
floor_or_zero not_finite = 0

pub record TriggerInput : Type 0 where
  pub server : String
  pub item_id : String
  pub item_name : String
  pub price : ℕ
  pub triggered_at : String

abbrev pub new_alert : TriggerInput → String → EconomyPriceWatch → EconomyAlertEvent
new_alert input id w = record {
  id = id;
  server = input.server;
  item_id = input.item_id;
  item_name = input.item_name;
  op = w.op;
  threshold = w.threshold;
  price = input.price;
  triggered_at = input.triggered_at;
  read_at = none;
}

abbrev pub is_watching : TriggerInput → EconomyPriceWatch → Bool
is_watching input w = (w.server === input.server && w.item_id === input.item_id) && w.active

-- `fresh` numbers the texts of `randomUUID`, of which `n` are used.
unfoldable pub trigger_loop :
    (ℕ → String)
    → TriggerInput
    → ℕ
    → List EconomyPriceWatch
    → EconomyDb
    → Result (List EconomyAlertEvent × EconomyDb)
trigger_loop fresh input n [] db = ok ([], db)
trigger_loop fresh input n (w ∷ ws) db =
    let alert = new_alert input (fresh n) w in
    let skip = trigger_loop fresh input n ws db in
    let fire =
      insert_row (λ (a : EconomyAlertEvent). a.id === alert.id) alert db.alerts >>= λ alerts.
      trigger_loop fresh input (suc n) ws (record db { alerts = alerts }) >>= λ rest.
      ok (alert ∷ rest.0, rest.1) in
    if compare_price input.price w.op w.threshold then fire else skip

-- `WHERE server = $server AND item_id = $itemId AND active = 1 ORDER BY created_at DESC`.
unfoldable pub watching : EconomyDb → TriggerInput → List EconomyPriceWatch
watching db input =
    order_by (λ (a b : EconomyPriceWatch). text_leb b.created_at a.created_at)
      (select_where (is_watching input) db.watches)

unfoldable pub trigger_watches_for_price :
    (ℕ → String) → EconomyDb → TriggerInput → Result (List EconomyAlertEvent × EconomyDb)
unfolding trigger_loop watching
trigger_watches_for_price fresh db input = trigger_loop fresh input 0 (watching db input) db

pub record PriceInput : Type 0 where
  pub server : String
  pub item_name : String
  pub price : Number
  pub recorded_at : Option String

-- `typeof s === "string" && s ? s : now`.
unfoldable pub text_or : Option String → String → String
text_or none now = now
text_or (some s) now = if is_empty s then now else s

abbrev pub new_price : String → String → String → ℕ → String → String → EconomyPrice
new_price id server item_id price recorded_at now = record {
  id = id;
  server = server;
  item_id = item_id;
  price = price;
  recorded_at = recorded_at;
  created_at = now;
  updated_at = now;
}

abbrev pub trigger_input : String → EconomyItem → ℕ → String → TriggerInput
trigger_input server item price at = record {
  server = server;
  item_id = item.id;
  item_name = item.name;
  price = price;
  triggered_at = at;
}

pub record PriceAdded : Type 0 where
  pub price_id : String
  pub item : EconomyItem
  pub triggered : List EconomyAlertEvent

-- The insertion of the price and what it triggers, once the item is known.
unfoldable pub insert_price :
    (ℕ → String)
    → String
    → String
    → ℕ
    → String
    → String
    → EconomyItem × EconomyDb
    → Result (PriceAdded × EconomyDb)
unfolding trigger_watches_for_price
insert_price fresh price_id server price recorded_at now (item, db) = do
  prices ←
      insert_row (λ (p : EconomyPrice). p.id === price_id)
        (new_price price_id server item.id price recorded_at now) db.prices
  (triggered, after) ←
      trigger_watches_for_price fresh (record db { prices = prices })
        (trigger_input server item price recorded_at)
  ok (record { price_id = price_id; item = item; triggered = triggered }, after)

unfoldable pub add_economy_price :
    (ℕ → String)
    → String
    → String
    → EconomyDb
    → PriceInput
    → String
    → Result (PriceAdded × EconomyDb)
unfolding floor_or_zero text_or insert_price
add_economy_price fresh item_id price_id db input now =
    if is_empty (trim input.server)
    then err bad_request
    else upsert_economy_item_by_name db input.item_name none none item_id now
      >>= insert_price fresh price_id (trim input.server) (floor_or_zero input.price)
          (text_or input.recorded_at now) now
