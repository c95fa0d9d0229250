-- ===== src/A2a/Push/Bound.antt =====
-- How often `_notify` of s13code/core/a2a_adapter/server.py posts one event.
use s14code.Prelude.{
  ℕ, zero, suc, ◌-◌, ◌^◌, ◌≤◌, String, ◌≡◌, refl, ap, subst, sym, ◌∙◌, Bool, true, false, not,
  Option, none, some, List, [], ◌∷◌, ◌==◌, arith, if◌then◌else◌, eq_iff, Bool-cases, inl, inr, ltb,
  if_both, eq_refl,
}
use s14code.Json.{Json, Dict, truthy}
use s14code.A2a.{Task}
use s14code.A2a.Push.{
  DeliveryRow, delivery, record_delivery, PushSettings, Hashes, callback, post, sleep, Pushed,
  with_action, push_headers, event_payload, event_id_of, event_of, delivery_row, post_event, notify,
  notify_all,
}
use s14code.A2a.Push.Count.{
  posts_of, deliveries_of, Counted, still, joined-Counted, delivery-record_delivery,
}

module _ (ev : String) (n : ℕ) (id task_id : String) (url : Json) (headers body : Dict) (number : ℕ)
    (rows : List DeliveryRow) (h : delivery id rows ≡ (false, number)) (b : suc number ≤ n) where
  at_ev : (id == ev) ≡ true → delivery ev rows ≡ (false, number)
  at_ev same = ap (λ y. delivery y rows) (sym ((eq_iff id ev).0 same)) ∙ h

  delivered-Counted : Counted ev n rows (record {
    ledger = record_delivery (delivery_row id task_id (suc number) none) rows;
    actions = post id url headers body none ∷ [];
  })
  delivered-Counted = elim (Bool-cases (id == ev)) [
    | inl same ↦ record {
      counted = rw (written, same, at_ev same) (omega arith);
      bounded = λ old. rw (written, same) b;
      delivers = rw (written, same, at_ev same) refl;
    }
    | inr other ↦ record {
      counted = rw (written, other) (omega arith);
      bounded = λ old. rw (written, other) old;
      delivers = rw (written, other) (omega arith);
    }
  ]
    where
      written :
          delivery ev (record_delivery (delivery_row id task_id (suc number) none) rows)
          ≡ (if id == ev then (true, suc number) else delivery ev rows)
      written = delivery-record_delivery ev (delivery_row id task_id (suc number) none) rows

  module _ (error : String) where
    abbrev after_failure : List DeliveryRow
    after_failure = record_delivery (delivery_row id task_id (suc number) (some error)) rows

    failed-Counted :
        (later : Pushed)
        → Counted ev n after_failure later
        → Counted ev n rows (with_action (post id url headers body (some error)) later)
    failed-Counted later k = elim (Bool-cases (id == ev)) [
      | inl same ↦ record {
        counted = rw same (ground (arith, k.counted, written, same, at_ev same));
        bounded = λ old. k.bounded (rw (written, same) b);
        delivers = ground (arith, k.delivers, written, same, at_ev same);
      }
      | inr other ↦ record {
        counted = rw other (ground (arith, k.counted, written, other));
        bounded = λ old. k.bounded (rw (written, other) old);
        delivers = ground (arith, k.delivers, written, other);
      }
    ]
      where
        written :
            delivery ev after_failure ≡ (if id == ev then (false, suc number) else delivery ev rows)
        written =
            delivery-record_delivery ev (delivery_row id task_id (suc number) (some error)) rows

slept-Counted :
    (ev : String) (n factor : ℕ) (rows : List DeliveryRow) (p : Pushed)
    → Counted ev n rows p
    → Counted ev n rows (with_action (sleep factor) p)
slept-Counted ev n factor rows p k = record {
  counted = k.counted;
  bounded = k.bounded;
  delivers = k.delivers;
}

-- One attempt, before the ones that follow a failure.
attempt-Counted :
    (ev : String) (n : ℕ) (id task_id : String) (url : Json) (headers body : Dict) (number : ℕ)
    (wait : Bool) (factor : ℕ) (result : Option String) (rows rows' : List DeliveryRow)
    (later : Pushed)
    → delivery id rows ≡ (false, number)
    → suc number ≤ n
    → rows' ≡ record_delivery (delivery_row id task_id (suc number) result) rows
    → ((error : String) → result ≡ some error → Counted ev n rows' later)
    → Counted ev n rows (
        with_action (post id url headers body result) (elim result [
          | none ↦ record { ledger = rows'; actions = [] }
          | some error ↦ if wait then with_action (sleep factor) later else later
        ]))
attempt-Counted ev n id task_id url headers body number wait factor none rows rows' later h b e k =
    rw e (delivered-Counted ev n id task_id url headers body number rows h b)
attempt-Counted ev n id task_id url headers body number wait factor (some error) rows rows' later h
      b e k =
    failed-Counted ev n id task_id url headers body number rows h b error
      (if wait then with_action (sleep factor) later else later)
      (if_both
        (Counted ev n (record_delivery (delivery_row id task_id (suc number) (some error)) rows))
        wait
        (slept-Counted ev n factor
          (record_delivery (delivery_row id task_id (suc number) (some error)) rows) later kept)
        kept)
  where
    kept :
        Counted ev n
          (record_delivery (delivery_row id task_id (suc number) (some error)) rows)
          later
    kept = subst (λ rs. Counted ev n rs later) e (k error refl)

first_of-record :
    (id task_id : String) (number : ℕ) (error : String) (rows : List DeliveryRow)
    → delivery id (record_delivery (delivery_row id task_id number (some error)) rows)
      ≡ (false, number)
first_of-record id task_id number error rows =
    rw (delivery-record_delivery id (delivery_row id task_id number (some error)) rows, eq_refl id)
      refl

post_event-Counted :
    (ev : String) (n : ℕ) (e : Hashes) (c : PushSettings) (t : Task) (answers : ℕ → Option String)
    (number remaining : ℕ) (rows : List DeliveryRow)
    → delivery (event_id_of e t) rows ≡ (false, number)
    → remaining ≤ n - number
    → Counted ev n rows (post_event e c t answers number remaining rows)
unfolding post_event
post_event-Counted ev n e c t answers number zero rows h b = still ev n rows [] refl refl
post_event-Counted ev n e c t answers number (suc remaining) rows h b =
    let id = event_id_of e t in
    let rows' = record_delivery (delivery_row id t.id (suc number) (answers (suc number))) rows in
    attempt-Counted ev n id t.id t.callback_url (push_headers e c t) (event_payload t) number
      (ltb (suc number) c.push_attempts) (2 ^ number) (answers (suc number)) rows rows'
      (post_event e c t answers (suc number) remaining rows') h (omega arith) refl
      (λ error q.
        post_event-Counted ev n e c t answers (suc number) remaining rows'
          (rw q (first_of-record id t.id (suc number) error rows)) (omega arith))

notify-Counted :
    (ev : String) (e : Hashes) (c : PushSettings) (t : Task) (answers : ℕ → Option String)
    (rows : List DeliveryRow)
    → Counted ev c.push_attempts rows (notify e c t answers rows)
unfolding notify
notify-Counted ev e c t answers rows =
    if_both P (not (truthy t.callback_url)) (still ev n rows [] refl refl) (
      if_both P c.has_callback (still ev n rows (callback (event_of t) ∷ []) refl refl) (
        if_both P (not c.has_http) (still ev n rows [] refl refl) (
          open_event ((delivery (event_id_of e t) rows).0) ((delivery (event_id_of e t) rows).1)
            refl)))
  where
    n : ℕ
    n = c.push_attempts

    P : Pushed → Type 0
    P = Counted ev n rows

    open_event :
        (delivered : Bool) (attempts : ℕ)
        → delivery (event_id_of e t) rows ≡ (delivered, attempts)
        → P (
            if delivered
            then record { ledger = rows; actions = [] }
            else post_event e c t answers attempts (n - attempts) rows)
    open_event true attempts h = still ev n rows [] refl refl
    open_event false attempts h =
        post_event-Counted ev n e c t answers attempts (n - attempts) rows h (omega arith)

notify_all-Counted :
    (ev : String) (e : Hashes) (c : PushSettings) (calls : List (Task × (ℕ → Option String)))
    (rows : List DeliveryRow)
    → Counted ev c.push_attempts rows (notify_all e c calls rows)
unfolding notify_all
notify_all-Counted ev e c [] rows = still ev c.push_attempts rows [] refl refl
notify_all-Counted ev e c ((t, answers) ∷ calls) rows =
    joined-Counted ev c.push_attempts rows (notify e c t answers rows)
      (notify_all e c calls (notify e c t answers rows).ledger)
      (notify-Counted ev e c t answers rows)
      (notify_all-Counted ev e c calls (notify e c t answers rows).ledger)

-- Over any calls of `_notify`, one after the other on a new table, the posts with one key are at
-- most `push_attempts`, and at most one of them raises nothing.
pub notify_all-bounded :
    (ev : String) (e : Hashes) (c : PushSettings) (calls : List (Task × (ℕ → Option String)))
    → (posts_of ev (notify_all e c calls []).actions ≤ c.push_attempts)
      × (deliveries_of ev (notify_all e c calls []).actions ≤ 1)
unfolding delivery
notify_all-bounded ev e c calls =
    (omega (arith, all.counted, all.bounded start), ground (arith, all.delivers))
  where
    all : Counted ev c.push_attempts [] (notify_all e c calls [])
    all = notify_all-Counted ev e c calls []

    start : (delivery ev []).1 ≤ c.push_attempts
    start = omega arith
