-- ===== src/A2a/Push/Count.antt =====
-- The posts of `_notify` in s13code/core/a2a_adapter/server.py, counted by their keys.
use s14code.Prelude.{
  ℕ, suc, ◌+◌, ◌≤◌, String, ◌≡◌, Bool, not, none, some, List, [], ◌∷◌, ◌++◌, ◌==◌, arith, first,
  first-append, select, if◌then◌else◌, eq_iff,
}
use s14code.A2a.Push.{
  DeliveryRow, delivery, record_delivery, PushAction, callback, post, sleep, Pushed,
}

-- The posts with a key, and those that raised nothing.
abbrev pub posts_of : String → List PushAction → ℕ
posts_of ev [] = 0
posts_of ev (post id url headers body error ∷ as') =
    if id == ev then suc (posts_of ev as') else posts_of ev as'
posts_of ev (callback event ∷ as') = posts_of ev as'
posts_of ev (sleep factor ∷ as') = posts_of ev as'

abbrev pub deliveries_of : String → List PushAction → ℕ
deliveries_of ev [] = 0
deliveries_of ev (post id url headers body none ∷ as') =
    if id == ev then suc (deliveries_of ev as') else deliveries_of ev as'
deliveries_of ev (post id url headers body (some error) ∷ as') = deliveries_of ev as'
deliveries_of ev (callback event ∷ as') = deliveries_of ev as'
deliveries_of ev (sleep factor ∷ as') = deliveries_of ev as'

posts_of-append :
    (ev : String) (xs ys : List PushAction)
    → posts_of ev (xs ++ ys) ≡ posts_of ev xs + posts_of ev ys
posts_of-append ev [] ys = omega arith
posts_of-append ev (post id url headers body error ∷ xs) ys =
    ground (arith, posts_of-append ev xs ys)
posts_of-append ev (callback event ∷ xs) ys = posts_of-append ev xs ys
posts_of-append ev (sleep factor ∷ xs) ys = posts_of-append ev xs ys

deliveries_of-append :
    (ev : String) (xs ys : List PushAction)
    → deliveries_of ev (xs ++ ys) ≡ deliveries_of ev xs + deliveries_of ev ys
deliveries_of-append ev [] ys = omega arith
deliveries_of-append ev (post id url headers body none ∷ xs) ys =
    ground (arith, deliveries_of-append ev xs ys)
deliveries_of-append ev (post id url headers body (some error) ∷ xs) ys =
    deliveries_of-append ev xs ys
deliveries_of-append ev (callback event ∷ xs) ys = deliveries_of-append ev xs ys
deliveries_of-append ev (sleep factor ∷ xs) ys = deliveries_of-append ev xs ys

abbrev pub flag : Bool → ℕ
flag b = if b then 1 else 0

-- The table counts the posts with a key, and says whether one was delivered.
pub record Counted (ev : String) (n : ℕ) (rows : List DeliveryRow) (p : Pushed) : Type 0 where
  pub counted : (delivery ev p.ledger).1 ≡ (delivery ev rows).1 + posts_of ev p.actions
  pub bounded : (delivery ev rows).1 ≤ n → (delivery ev p.ledger).1 ≤ n
  pub delivers :
      flag (delivery ev p.ledger).0 ≡ flag (delivery ev rows).0 + deliveries_of ev p.actions

-- Nothing is posted, and the table stays.
pub still :
    (ev : String) (n : ℕ) (rows : List DeliveryRow) (as' : List PushAction)
    → posts_of ev as' ≡ 0
    → deliveries_of ev as' ≡ 0
    → Counted ev n rows (record { ledger = rows; actions = as' })
still ev n rows as' h k = record {
  counted = omega (arith, h);
  bounded = λ b. b;
  delivers = omega (arith, k);
}

first_of_others :
    (x id : String) (rows : List DeliveryRow)
    → first (λ r. r.event_id == x) (select (λ r. not (r.event_id == id)) rows)
      ≡ (if id == x then none else first (λ r. r.event_id == x) rows)
first_of_others x id [] = ground arith
first_of_others x id (r ∷ rows) =
    ground
      (arith, eq_iff r.event_id id, eq_iff id x, eq_iff r.event_id x, first_of_others x id rows)

pub delivery-record_delivery :
    (x : String) (row : DeliveryRow) (rows : List DeliveryRow)
    → delivery x (record_delivery row rows)
      ≡ (if row.event_id == x then (row.delivered, row.attempts) else delivery x rows)
unfolding delivery record_delivery
delivery-record_delivery x row rows = ground (
  arith,
  first-append (λ r. r.event_id == x) (select (λ r. not (r.event_id == row.event_id)) rows)
      (row ∷ []),
  first_of_others x row.event_id rows,
)

pub joined-Counted :
    (ev : String) (n : ℕ) (rows : List DeliveryRow) (p q : Pushed)
    → Counted ev n rows p
    → Counted ev n p.ledger q
    → Counted ev n rows (record { ledger = q.ledger; actions = p.actions ++ q.actions })
joined-Counted ev n rows p q h k = record {
  counted = omega (arith, h.counted, k.counted, posts_of-append ev p.actions q.actions);
  bounded = λ b. k.bounded (h.bounded b);
  delivers = omega (arith, h.delivers, k.delivers, deliveries_of-append ev p.actions q.actions);
}
