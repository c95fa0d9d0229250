-- ===== src/A2a/Push.antt =====
-- `_notify` of s13code/core/a2a_adapter/server.py and the table a2a_push_delivery. The hashes, and
-- what a post to the callback gives, are arguments; `push_attempts` is not negative.
pub mod Count
pub mod Bound
use s14code.Prelude.{
  ℕ, zero, suc, ◌+◌, ◌-◌, ◌^◌, String, Bool, true, false, not, Option, none, some, List, [], ◌∷◌,
  ◌++◌, ◌==◌, concat, first, ltb, select, if◌then◌else◌,
}
use s14code.Json.{Json, str, obj, Dict, empty, entry, truthy}
use s14code.A2a.{state_value, Task, wire}
use s14code.A2a.Calls.{text_of}

pub record DeliveryRow : Type 0 where
  pub event_id : String
  pub task_id : String
  pub delivered : Bool
  pub attempts : ℕ
  pub last_error : String

-- `delivery`
unfoldable pub delivery : String → List DeliveryRow → Bool × ℕ
delivery id rows = elim (first (λ r. r.event_id == id) rows) [
  | none ↦ (false, 0)
  | some r ↦ (r.delivered, r.attempts)
]

-- `record_delivery`
unfoldable pub record_delivery : DeliveryRow → List DeliveryRow → List DeliveryRow
record_delivery row rows = select (λ r. not (r.event_id == row.event_id)) rows ++ row ∷ []

-- The push settings of a server: which of the two ways it has, its secret, and its attempts.
pub record PushSettings : Type 0 where
  pub has_callback : Bool
  pub has_http : Bool
  pub secret : Option String
  pub push_attempts : ℕ

-- `sha256(…).hexdigest()`, the signature of a payload under a secret, and the text of a JSON value.
pub record Hashes : Type 0 where
  pub digest : String → String
  pub sign : String → Dict → String
  pub repr : Json → String

-- A post has the key, the address, the headers, the payload and the error, if one was raised; a
-- sleep has its factor of `push_backoff`.
pub data PushAction : Type 0 where
  callback : Dict → PushAction
  post : String → Json → Dict → Dict → Option String → PushAction
  sleep : ℕ → PushAction

pub record Pushed : Type 0 where
  pub ledger : List DeliveryRow
  pub actions : List PushAction

abbrev pub event_id_of : Hashes → Task → String
event_id_of e t =
    e.digest (concat t.id (concat ":" (concat (state_value t.state) (concat ":" t.updated_at))))

-- `event` without its url.
abbrev pub event_payload : Task → Dict
event_payload t =
    entry "jsonrpc" (str "2.0")
      (entry "method" (str "tasks/statusUpdate") (entry "params" (obj (wire t)) empty))

abbrev pub event_of : Task → Dict
event_of t = entry "jsonrpc" (str "2.0") (
    entry "method" (str "tasks/statusUpdate")
      (entry "params" (obj (wire t)) (entry "url" t.callback_url empty)))

abbrev pub signature_header : Hashes → PushSettings → Task → Dict
signature_header e c t = elim c.secret [
  | none ↦ empty
  | some secret ↦
      if secret == ""
      then empty
      else entry "A2A-Signature" (str (concat "sha256=" (e.sign secret (event_payload t)))) empty
]

abbrev pub push_headers : Hashes → PushSettings → Task → Dict
push_headers e c t = entry "Content-Type" (str "application/json") (
    entry "Idempotency-Key" (str (event_id_of e t)) (
      entry "A2A-Task-ID" (str t.id) (
        if truthy t.callback_token
        then entry "Authorization" (str (concat "Bearer " (text_of e.repr t.callback_token)))
            (signature_header e c t)
        else signature_header e c t)))

abbrev pub with_action : PushAction → Pushed → Pushed
with_action a p = record p { actions = a ∷ p.actions }

abbrev pub delivery_row : String → String → ℕ → Option String → DeliveryRow
delivery_row event_id task_id number none = record {
  event_id = event_id;
  task_id = task_id;
  delivered = true;
  attempts = number;
  last_error = "";
}
delivery_row event_id task_id number (some error) = record {
  event_id = event_id;
  task_id = task_id;
  delivered = false;
  attempts = number;
  last_error = error;
}

-- The loop over `range(attempts + 1, push_attempts + 1)`, after `number` attempts and with
-- `remaining` ahead. `answers` gives the error of the attempt of a number, if there is one.
unfoldable pub post_event :
    Hashes → PushSettings → Task → (ℕ → Option String) → ℕ → ℕ → List DeliveryRow → Pushed
unfolding record_delivery
post_event e c t answers number zero rows = record { ledger = rows; actions = [] }
post_event e c t answers number (suc remaining) rows =
    let result = answers (suc number) in
    let rows' = record_delivery (delivery_row (event_id_of e t) t.id (suc number) result) rows in
    let later = post_event e c t answers (suc number) remaining rows' in
    with_action
      (post (event_id_of e t) t.callback_url (push_headers e c t) (event_payload t) result)
      (elim result [
        | none ↦ record { ledger = rows'; actions = [] }
        | some error ↦
            if ltb (suc number) c.push_attempts
            then with_action (sleep (2 ^ number)) later
            else later
      ])

-- `_notify`
unfoldable pub notify :
    Hashes → PushSettings → Task → (ℕ → Option String) → List DeliveryRow → Pushed
unfolding delivery post_event
notify e c t answers rows =
    if not (truthy t.callback_url)
    then record { ledger = rows; actions = [] }
    else if c.has_callback
    then record { ledger = rows; actions = callback (event_of t) ∷ [] }
    else if not c.has_http
    then record { ledger = rows; actions = [] }
    else let (delivered, attempts) = delivery (event_id_of e t) rows in
      if delivered
      then record { ledger = rows; actions = [] }
      else post_event e c t answers attempts (c.push_attempts - attempts) rows

-- Calls of `_notify`, one after the other.
unfoldable pub notify_all :
    Hashes → PushSettings → List (Task × (ℕ → Option String)) → List DeliveryRow → Pushed
unfolding notify
notify_all e c [] rows = record { ledger = rows; actions = [] }
notify_all e c ((t, answers) ∷ calls) rows =
    let now = notify e c t answers rows in
    let later = notify_all e c calls now.ledger in
    record { ledger = later.ledger; actions = now.actions ++ later.actions }
