-- ===== src/Economy/Watches.antt =====
-- The price lists, the watches and the alerts of
-- apps/desktop/src/main/storage/domains/economy.ts.
use aion2_hub.Prelude.{
  ℕ, List, [], ◌∷◌, ◌++◌, map, String, Bool, true, false, not, ◌&&◌, ◌||◌, ◌===◌, Option, none,
  some, if◌then◌else◌,
}
use aion2_hub.Prelude.Int.{ℤ}
use aion2_hub.Prelude.Number.{Number}
use aion2_hub.Text.{trim, is_empty}
use aion2_hub.Sql.{
  Result, ok, err, ◌>>=◌, bad_request, select_where, delete_where, update_where, exists_where,
  insert_row, order_by, limit,
}
use aion2_hub.Economy.{
  EconomyItem, EconomyPrice, EconomyPriceWatch, EconomyPriceWatchOp, EconomyAlertEvent, EconomyDb,
  text_leb, row_limit, text_of, upsert_economy_item_by_name,
}
use aion2_hub.Economy.Prices.{floor_or_zero}

-- `ORDER BY recorded_at DESC, created_at DESC`.
unfoldable pub price_before : EconomyPrice → EconomyPrice → Bool
price_before a b =
    if a.recorded_at === b.recorded_at
    then text_leb b.created_at a.created_at
    else text_leb b.recorded_at a.recorded_at

unfoldable pub list_economy_prices :
    EconomyDb → String → String → Option ℤ → Result (List EconomyPrice)
unfolding price_before
list_economy_prices db raw_server item_id limit_input =
    let server = trim raw_server in
    let rows =
      select_where (λ (p : EconomyPrice). p.server === server && p.item_id === item_id) db.prices in
    if is_empty server || is_empty item_id
    then err bad_request
    else ok (limit (row_limit limit_input) (order_by price_before rows))

-- The first price of each item of the rows; `out` has those that are taken.
unfoldable pub first_prices : List EconomyPrice → List (String × ℕ) → List (String × ℕ)
first_prices [] out = out
first_prices (p ∷ ps) out =
    if exists_where (λ (e : String × ℕ). e.0 === p.item_id) out
    then first_prices ps out
    else first_prices ps (out ++ (p.item_id, p.price) ∷ [])

unfoldable pub get_latest_prices_by_item_id :
    EconomyDb → String → List String → Result (List (String × ℕ))
unfolding price_before first_prices
get_latest_prices_by_item_id db raw_server item_ids =
    let server = trim raw_server in
    let ids = delete_where is_empty item_ids in
    let rows =
      select_where
        (λ (p : EconomyPrice). p.server === server && exists_where (λ id. id === p.item_id) ids)
        db.prices in
    if is_empty server then err bad_request else ok (first_prices (order_by price_before rows) [])

-- `JOIN economy_item i ON i.id = w.item_id … ORDER BY i.name ASC`.
unfoldable pub with_names :
    List EconomyItem → List EconomyPriceWatch → List (EconomyPriceWatch × String)
with_names items [] = []
with_names items (w ∷ ws) =
    map (λ (i : EconomyItem). (w, i.name))
      (select_where (λ (i : EconomyItem). i.id === w.item_id) items)
    ++ with_names items ws

unfoldable pub list_economy_watches :
    EconomyDb → String → Result (List (EconomyPriceWatch × String))
unfolding with_names
list_economy_watches db raw_server =
    let server = trim raw_server in
    if is_empty server
    then err bad_request
    else ok (
        order_by (λ (a b : EconomyPriceWatch × String). text_leb a.1 b.1)
          (with_names db.items
            (select_where (λ (w : EconomyPriceWatch). w.server === server) db.watches)))

abbrev pub new_watch :
    String → String → String → EconomyPriceWatchOp → ℕ → String → EconomyPriceWatch
new_watch id server item_id op threshold now = record {
  id = id;
  server = server;
  item_id = item_id;
  op = op;
  threshold = threshold;
  active = true;
  created_at = now;
  updated_at = now;
}

-- `none` for an operator that is none of the four.
unfoldable pub create_economy_watch :
    String
    → String
    → EconomyDb
    → String
    → String
    → Option EconomyPriceWatchOp
    → Number
    → String
    → Result (EconomyPriceWatch × EconomyDb)
create_economy_watch item_id id db raw_server item_name none threshold now = err bad_request
create_economy_watch item_id id db raw_server item_name (some op) threshold now =
    let server = trim raw_server in
    if is_empty server then err bad_request else (do
      (item, db') ← upsert_economy_item_by_name db item_name none none item_id now
      watches ←
          insert_row (λ (w : EconomyPriceWatch). w.id === id)
            (new_watch id server item.id op (floor_or_zero threshold) now) db'.watches
      ok (
        new_watch id server item.id op (floor_or_zero threshold) now,
        record db' { watches = watches },
      ))

unfoldable pub set_economy_watch_active : EconomyDb → String → Bool → String → Result EconomyDb
set_economy_watch_active db id active now =
    let change = λ (w : EconomyPriceWatch). record w { active = active; updated_at = now } in
    if is_empty id
    then err bad_request
    else ok (record db {
      watches = update_where (λ (w : EconomyPriceWatch). w.id === id) change db.watches;
    })

unfoldable pub delete_economy_watch : EconomyDb → String → EconomyDb
delete_economy_watch db watch_id = record db {
  watches = delete_where (λ (w : EconomyPriceWatch). w.id === watch_id) db.watches;
}

abbrev pub is_unread : EconomyAlertEvent → Bool
is_unread a = elim a.read_at [ none ↦ true | some t ↦ false ]

unfoldable pub list_economy_alert_events :
    EconomyDb → Option String → Bool → Option ℤ → List EconomyAlertEvent
list_economy_alert_events db raw_server unread_only limit_input =
    let server = trim (text_of raw_server) in
    limit (row_limit limit_input) (
      order_by (λ (a b : EconomyAlertEvent). text_leb b.triggered_at a.triggered_at)
        (select_where
          (λ (a : EconomyAlertEvent).
            (is_empty server || a.server === server) && (not unread_only || is_unread a))
          db.alerts))

unfoldable pub mark_economy_alert_read : EconomyDb → String → String → Result EconomyDb
mark_economy_alert_read db id now =
    let change = λ (a : EconomyAlertEvent). record a { read_at = some now } in
    if is_empty id
    then err bad_request
    else ok (record db {
      alerts = update_where (λ (a : EconomyAlertEvent). a.id === id) change db.alerts;
    })
