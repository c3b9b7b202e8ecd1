-- ===== src/Economy/Triggers.antt =====
-- Properties of `triggerWatchesForPrice` of apps/desktop/src/main/storage/domains/economy.ts.
use Prim.Native.String.{compare}
use text.Mathlib.Text.{is_le}
use aion2_hub.Prelude.{
  ℕ, suc, ◌≤◌, ◌≡◌, refl, ◌∙◌, sym, ap, subst, not, ltb, ◌&&◌, none, if◌then◌else◌, inl, inr,
  String, ◌===◌, ===_ne, Bool, false, Bool-cases, List, [], ◌∷◌, ◌++◌, arith,
}
use aion2_hub.Sql.{ok, exists_where, select_where, insert_row, order_by}
use aion2_hub.Sql.Laws.{exists-snoc, select_congr}
use aion2_hub.Economy.{
  EconomyPriceWatchOp, text_leb, EconomyPriceWatch, EconomyAlertEvent, EconomyDb, compare_price,
}
use aion2_hub.Economy.Prices.{
  TriggerInput, new_alert, is_watching, watching, trigger_loop, trigger_watches_for_price,
}

-- Is it an active watch of the server and the item?
abbrev pub watches_it : String → String → EconomyPriceWatch → Bool
watches_it server item_id w =
    if w.active then w.server === server && w.item_id === item_id else false

-- Is the price below, at most, above, or at least the threshold, as the watch asks?
abbrev pub meets : ℕ → EconomyPriceWatchOp → ℕ → Bool
meets price EconomyPriceWatchOp.lt threshold = ltb price threshold
meets price EconomyPriceWatchOp.le threshold = not (ltb threshold price)
meets price EconomyPriceWatchOp.gt threshold = ltb threshold price
meets price EconomyPriceWatchOp.ge threshold = not (ltb price threshold)

-- The watches of the server and the item that the price meets, the newest first.
abbrev pub hits : TriggerInput → List EconomyPriceWatch → List EconomyPriceWatch
hits input watches =
    select_where (λ (w : EconomyPriceWatch). meets input.price w.op w.threshold)
      (order_by (λ (a b : EconomyPriceWatch). is_le (compare b.created_at a.created_at))
        (select_where (watches_it input.server input.item_id) watches))

-- One unread alert for each watch, with identities from the `n`th on.
abbrev pub alerts_of :
    (ℕ → String) → TriggerInput → ℕ → List EconomyPriceWatch → List EconomyAlertEvent
alerts_of fresh input n [] = []
alerts_of fresh input n (w ∷ ws) =
    record {
      id = fresh n;
      server = input.server;
      item_id = input.item_id;
      item_name = input.item_name;
      op = w.op;
      threshold = w.threshold;
      price = input.price;
      triggered_at = input.triggered_at;
      read_at = none;
    }
    ∷ alerts_of fresh input (suc n) ws

-- Does the code fire for the watch?
abbrev is_met : TriggerInput → EconomyPriceWatch → Bool
is_met input w = compare_price input.price w.op w.threshold

append_assoc {ℓ} :
    {A : Type ℓ} (xs : List A) (y : A) (ys : List A) → (xs ++ y ∷ []) ++ ys ≡ xs ++ y ∷ ys
append_assoc [] y ys = refl
append_assoc (x ∷ xs) y ys = ap (λ zs. x ∷ zs) (append_assoc xs y ys)

append_nil {ℓ} : {A : Type ℓ} (xs : List A) → xs ++ [] ≡ xs
append_nil [] = refl
append_nil (x ∷ xs) = ap (λ zs. x ∷ zs) (append_nil xs)

module _ (fresh : ℕ → String) (input : TriggerInput)
    (inj : (i j : ℕ) → fresh i ≡ fresh j → i ≡ j) where
  -- No alert has a new identity from the `n`th on.
  Unused : ℕ → List EconomyAlertEvent → Type 0
  Unused n alerts =
      (k : ℕ) → n ≤ k → exists_where (λ (a : EconomyAlertEvent). a.id === fresh k) alerts ≡ false

  Unused-after :
      (n : ℕ) (w : EconomyPriceWatch) (alerts : List EconomyAlertEvent)
      → Unused n alerts
      → Unused (suc n) (alerts ++ new_alert input (fresh n) w ∷ [])
  unfolding Unused
  Unused-after n w alerts h k le =
      let e =
        exists-snoc (λ (a : EconomyAlertEvent). a.id === fresh k) alerts
          (new_alert input (fresh n) w) in
      let f = h k (omega arith) in
      let g = ===_ne (fresh n) (fresh k) (λ p. absurd (omega (arith, inj n k p))) in
      ground (arith, e, f, g)

  loop_alerts :
      (n : ℕ) (ws : List EconomyPriceWatch) (db : EconomyDb)
      → Unused n db.alerts
      → let fired = alerts_of fresh input n (select_where (is_met input) ws) in
        trigger_loop fresh input n ws db ≡ ok (fired, record db { alerts = db.alerts ++ fired })
  unfolding trigger_loop select_where insert_row Unused
  loop_alerts n [] db unused =
      ap (λ rows. ok ([], record db { alerts = rows })) (sym (append_nil db.alerts))
  loop_alerts n (w ∷ ws) db unused = elim (Bool-cases (is_met input w)) [
    | inl e ↦
        let alert = new_alert input (fresh n) w in
        let db' = record db { alerts = db.alerts ++ alert ∷ [] } in
        let rest = alerts_of fresh input (suc n) (select_where (is_met input) ws) in
        rw
          (
            e,
            unused n (omega arith),
            loop_alerts (suc n) ws db' (Unused-after n w db.alerts unused),
          )
          (ap (λ rows. ok (alert ∷ rest, record db { alerts = rows }))
            (append_assoc db.alerts alert rest))
    | inr e ↦ rw e (loop_alerts n ws db unused)
  ]

compare-meets :
    (price : ℕ) (op : EconomyPriceWatchOp) (threshold : ℕ)
    → compare_price price op threshold ≡ meets price op threshold
unfolding compare_price
compare-meets price EconomyPriceWatchOp.lt threshold = refl
compare-meets price EconomyPriceWatchOp.le threshold = ground arith
compare-meets price EconomyPriceWatchOp.gt threshold = refl
compare-meets price EconomyPriceWatchOp.ge threshold = ground arith

watching-watches_it :
    (input : TriggerInput) (w : EconomyPriceWatch)
    → is_watching input w ≡ watches_it input.server input.item_id w
watching-watches_it input w = ground arith

watching-hits :
    (db : EconomyDb) (input : TriggerInput)
    → select_where (is_met input) (watching db input) ≡ hits input db.watches
unfolding watching text_leb
watching-hits db input =
    select_congr (is_met input) _ (watching db input)
      (λ w. compare-meets input.price w.op w.threshold)
    ∙ ap
        (λ ws.
          select_where (λ (w : EconomyPriceWatch). meets input.price w.op w.threshold)
            (order_by (λ (a b : EconomyPriceWatch). is_le (compare b.created_at a.created_at)) ws))
        (select_congr (is_watching input) _ db.watches (watching-watches_it input))

-- Where the new identities are all different and none of them an alert's, a price triggers exactly
-- the active watches with its server and its item whose threshold it is below, at most, above or at
-- least, as the watch asks, the newest first: each gives one unread alert with the watch's
-- comparison and threshold and the price, and all of these are stored after the other alerts.
pub trigger_watches_for_price-alerts :
    (fresh : ℕ → String) (db : EconomyDb) (input : TriggerInput)
    → ((i j : ℕ) → fresh i ≡ fresh j → i ≡ j)
    → ((k : ℕ) → exists_where (λ (a : EconomyAlertEvent). a.id === fresh k) db.alerts ≡ false)
    → let fired = alerts_of fresh input 0 (hits input db.watches) in
      trigger_watches_for_price fresh db input
      ≡ ok (fired, record db { alerts = db.alerts ++ fired })
unfolding trigger_watches_for_price Unused
trigger_watches_for_price-alerts fresh db input inj unused =
    subst
      (λ ws.
        let fired = alerts_of fresh input 0 ws in
        trigger_loop fresh input 0 (watching db input) db
        ≡ ok (fired, record db { alerts = db.alerts ++ fired }))
      (watching-hits db input)
      (loop_alerts fresh input inj 0 (watching db input) db (λ k h. unused k))
