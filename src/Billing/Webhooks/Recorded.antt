-- ===== src/Billing/Webhooks/Recorded.antt =====
-- What the processing of an event leaves in the event table, and what a repeated delivery does.
use text.Mathlib.Text.{◌==◌ as str_eq}
use text.Mathlib.TextPositions.{eq_refl}
use saasmint.Base.{
  ◌≡◌, refl, ap, ◌∙◌, Bool, true, false, Option, none, some, List, [], ◌∷◌, String, arith, inl, inr,
  Option-cases, find, find-append, update_where, if◌then◌else◌,
}
use saasmint.Domain.{Uuid, Time, StripeEvent, ErrorText, plain, with_class}
use saasmint.Json.{Value}
use saasmint.Database.{Db}
use saasmint.Database.Result.{Result, ok, err, Error, Result-cases}
use saasmint.Billing.Env.{Env}
use saasmint.Billing.Repositories.Distinct.{IsDistinct}
use saasmint.Billing.Webhooks.Process.{WebhookRepos, dispatch, stored_message, process_stored_event}
use saasmint.Billing.Webhooks.Endpoint.{
  Request, is_event, read_event, store_event, accept_event, stripe_webhook,
}
use saasmint.Billing.Webhooks.Frame.{IsSoundRepos, dispatch-IsSound}
use saasmint.Billing.Webhooks.Sync.Replay.{later}

-- Whether the docstring of `process_stored_event` names the exception: a WebhookDataError, a StripeError of any
-- kind, or a ConnectionError.
abbrev pub is_named : Error → Bool
is_named Error.webhook_data_error = true
is_named Error.stripe_error = true
is_named Error.resource_missing = true
is_named Error.connection_error = true
is_named other = false

-- The text of a failure: an exception that is not named comes with its class.
abbrev pub failure_text : (Error → String) → Error → ErrorText
failure_text message x = if is_named x then plain (message x) else with_class (message x)

stored_message-failure_text :
    (message : Error → String) (x : Error) → stored_message message x ≡ failure_text message x
unfolding stored_message
stored_message-failure_text message Error.webhook_data_error = refl
stored_message-failure_text message Error.stripe_error = refl
stored_message-failure_text message Error.resource_missing = refl
stored_message-failure_text message Error.connection_error = refl
stored_message-failure_text message other = refl

-- The row of an event once its processing ended so.
abbrev pub settled : Env → (Error → String) → Result (Unit {0}) → StripeEvent → StripeEvent
settled e message (ok _) row = record row { processed_at = some e.now; error = none }
settled e message (err x) row = record row { error = some (failure_text message x) }

abbrev pub settled_row :
    Env → (Error → String) → String → Result (Unit {0}) → Option StripeEvent → Option StripeEvent
settled_row e message t result none = none
settled_row e message t result (some row) =
    some (if str_eq row.stripe_id t then settled e message result row else row)

settle_rows :
    (e : Env) (message : Error → String) (t t' : String) (result : Result (Unit {0}))
    (rows : List StripeEvent)
    → find (is_event t') (update_where (λ r. str_eq r.stripe_id t) (settled e message result) rows)
      ≡ settled_row e message t result (find (is_event t') rows)
settle_rows e message t t' result [] = refl
settle_rows e message t t' (ok _) (row ∷ rows) =
    ground (arith, settle_rows e message t t' (ok tt) rows)
settle_rows e message t t' (err x) (row ∷ rows) =
    ground (arith, settle_rows e message t t' (err x) rows)

-- Processing ends as the dispatch does, whatever that is, and leaves the row of the event settled in just
-- that way: processed with no error after a success, and after a raise with the message of the exception, which
-- comes with its class unless it is a WebhookDataError, a StripeError or a ConnectionError.
-- The rows of all other events, and the distinct keys of the subscription table, are kept. The callbacks
-- have to keep the event table and the keys.
pub process_stored_event-settles :
    (message : Error → String) (e : Env) (r : WebhookRepos) (event : Value) (t : String) (db : Db)
    → IsSoundRepos r
    → let (result, db') = process_stored_event message e r event t db in
      (result ≡ (dispatch e r event db).0)
      × ((t' : String)
          → find (is_event t') db'.events
            ≡ settled_row e message t result (find (is_event t') db.events))
      × (IsDistinct db.subscriptions → IsDistinct db'.subscriptions)
unfolding process_stored_event
process_stored_event-settles message e r event t db h =
    let s = dispatch-IsSound e r h event db in
    elim (Result-cases (dispatch e r event db).0) [
      | inl (_, done) ↦
          rw (process_stored_event, done)
            (
              refl,
              λ t'.
                  settle_rows e message t t' (ok tt) (dispatch e r event db).1.events
                  ∙ ap (λ rows. settled_row e message t (ok tt) (find (is_event t') rows)) s.events,
              s.distinct,
            )
      | inr (x, raised) ↦
          rw (process_stored_event, raised, stored_message-failure_text message x)
            (
              refl,
              λ t'.
                  settle_rows e message t t' (err x) (dispatch e r event db).1.events
                  ∙ ap (λ rows. settled_row e message t (err x) (find (is_event t') rows)) s.events,
              s.distinct,
            )
    ]

-- Once an event is stored, it is found, and is not stored again.
store_event-again :
    (e : Env) (now' : Time) (id' : Uuid) (t type : String) (livemode : Bool) (event : Value)
    (db : Db)
    → let db' = store_event e t type livemode event db in
      store_event (later e now' id') t type livemode event db' ≡ db'
unfolding store_event
store_event-again e now' id' t type livemode event db =
    elim (Option-cases (find (is_event t) db.events)) [
      | inr (row, stored) ↦ ground (arith, stored)
      | inl absent ↦ ground (
        arith,
        absent,
        eq_refl t,
        find-append (is_event t) db.events (
            (record {
              id = e.fresh_id;
              stripe_id = t;
              type = type;
              livemode = livemode;
              payload = event;
              processed_at = none;
              error = none;
              created_at = e.now;
            })
            ∷ []),
      )
    ]

accept_event-again :
    (e : Env) (now' : Time) (id' : Uuid) (key_is_live : Bool) (payload : Option Value) (db : Db)
    → let (status, db') = accept_event e key_is_live payload db in
      accept_event (later e now' id') key_is_live payload db' ≡ (status, db')
unfolding accept_event
accept_event-again e now' id' key_is_live none db = refl
accept_event-again e now' id' key_is_live (some event) db =
    elim (Result-cases (read_event e.texts event)) [
      | inr (x, failed) ↦ ground (arith, failed)
      | inl (parts, read) ↦
          ground (arith, read, store_event-again e now' id' parts.0 parts.1 parts.2 event db)
    ]

-- A request that is delivered again, at any later time, gets the same status and changes nothing: no second
-- row, and no second task.
pub stripe_webhook-again :
    (e : Env) (now' : Time) (id' : Uuid) (key_is_live : Bool) (request : Request) (db : Db)
    → let (status, db') = stripe_webhook e key_is_live request db in
      stripe_webhook (later e now' id') key_is_live request db' ≡ (status, db')
unfolding stripe_webhook
stripe_webhook-again e now' id' key_is_live request db =
    ground (arith, accept_event-again e now' id' key_is_live request.payload db)
