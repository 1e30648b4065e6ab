-- ===== src/Views/Open.antt =====
-- The list of the open alerts after an acknowledgement.
use insider_threat_detection.Common.{
  ℕ, zero, suc, String, ◌≡◌, refl, ap, ◌∙◌, Bool, true, false, ◌&&◌, ◌||◌, Option, none, some, List,
  [], ◌∷◌, arith, ◌==◌, nat_eq, length, take, select, any, any-select, update_where, sort_desc,
  insert_desc,
}
use insider_threat_detection.Database.{Db, AlertRow}
use insider_threat_detection.Database.Alerts.{
  matches_host, matches_ack, list_alerts, is_open, acknowledge_alert, closed_after,
}
use insider_threat_detection.Views.{
  ArgReading, QueryArgs, Page, alerts, limit_or, limited, non_empty, ack_of, list_alerts_page,
}

module _ {ℓ} {A : Type ℓ} where
  any-take : (p : A → Bool) (n : ℕ) (xs : List A) → any p xs ≡ false → any p (take n xs) ≡ false
  any-take p zero xs e = refl
  any-take p (suc n) [] e = refl
  any-take p (suc n) (x ∷ xs) e = ground (arith, e, any-take p n xs)

  any-insert_desc :
      (f : A → ℕ) (p : A → Bool) (x : A) (xs : List A)
      → any p (insert_desc f x xs) ≡ (p x || any p xs)
  any-insert_desc f p x [] = refl
  any-insert_desc f p x (y ∷ xs) = ground (arith, any-insert_desc f p x xs)

  any-sort_desc : (f : A → ℕ) (p : A → Bool) (xs : List A) → any p (sort_desc f xs) ≡ any p xs
  any-sort_desc f p [] = refl
  any-sort_desc f p (x ∷ xs) =
      any-insert_desc f p x (sort_desc f xs) ∙ ground (arith, any-sort_desc f p xs)

  any_weaker :
      (p q : A → Bool)
      → ((x : A) → p x ≡ true → q x ≡ true)
      → (xs : List A) → any q xs ≡ false
      → any p xs ≡ false
  any_weaker p q h [] e = refl
  any_weaker p q h (x ∷ xs) e = ground (arith, e, h x, any_weaker p q h xs)

abbrev pub has_id : ℕ → AlertRow → Bool
has_id alert_id r = nat_eq r.id alert_id

open_rows :
    (alert_id : ℕ) (host : Option String) (rows : List AlertRow)
    → any (is_open alert_id) rows ≡ false
    → any (has_id alert_id) (select (λ r. matches_host host r && matches_ack (some false) r) rows)
      ≡ false
open_rows alert_id host rows closed =
    any-select (has_id alert_id) (λ r. matches_host host r && matches_ack (some false) r) rows
    ∙ any_weaker (λ r. (matches_host host r && matches_ack (some false) r) && has_id alert_id r)
        (is_open alert_id) (λ r e. ground (arith, e)) rows closed

list_alerts-acknowledged :
    (alert_id : ℕ) (host : Option String) (limit : ℕ) (db : Db)
    → any (has_id alert_id) (list_alerts host (some false) limit (acknowledge_alert alert_id db).1)
      ≡ false
unfolding list_alerts acknowledge_alert
list_alerts-acknowledged alert_id host limit db =
    let rows : List AlertRow =
      update_where (is_open alert_id) (λ r. record r { acknowledged = true }) db.alerts in
    let picked : List AlertRow =
      select (λ r. matches_host host r && matches_ack (some false) r) rows in
    any-take (has_id alert_id) limit (sort_desc (λ r. r.created_at) picked) (
      any-sort_desc (λ r. r.created_at) (has_id alert_id) picked
      ∙ open_rows alert_id host rows (closed_after alert_id db.alerts))

abbrev rows_of : Page → List AlertRow
rows_of (alerts rows n) = rows
rows_of _ = []

page_rows :
    (limit : Option ℕ) (f : ℕ → List AlertRow) (rows : List AlertRow) (n : ℕ) (p : AlertRow → Bool)
    → limited limit (λ k. alerts (f k) (length (f k))) ≡ alerts rows n
    → ((k : ℕ) → any p (f k) ≡ false)
    → any p rows ≡ false
page_rows none f rows n p e h = cc
page_rows (some k) f rows n p e h = let same : f k ≡ rows = ap rows_of e in rw (← same) (h k)

-- After an alert is acknowledged, no list of the open alerts has it, whichever host and limit the
-- request names: a list is one of the open alerts if its parameter ack is there and is not "true" in
-- small letters.
pub list_alerts_page-acknowledged :
    (r : ArgReading) (args : QueryArgs) (alert_id : ℕ) (db : Db) (text : String)
    (rows : List AlertRow) (n : ℕ)
    → args.ack ≡ some text
    → (r.lower text == "true") ≡ false
    → list_alerts_page r args (acknowledge_alert alert_id db).1 ≡ alerts rows n
    → any (has_id alert_id) rows ≡ false
unfolding list_alerts_page
list_alerts_page-acknowledged r args alert_id db text rows n ack not_true page =
    page_rows (limit_or r 200 args.limit)
      (λ limit.
        list_alerts (non_empty args.hostname) (ack_of r args.ack) limit
          (acknowledge_alert alert_id db).1)
      rows n (has_id alert_id) page
      (λ limit.
        rw (ack, not_true) (list_alerts-acknowledged alert_id (non_empty args.hostname) limit db))
