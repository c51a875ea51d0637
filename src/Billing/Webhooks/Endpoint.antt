-- ===== src/Billing/Webhooks/Endpoint.antt =====
-- The endpoint that verifies and stores an event (core/apps/billing/webhook.py), and the Celery task
-- that processes it (`process_stripe_webhook` of core/apps/billing/tasks.py).
use text.Mathlib.Text.{◌==◌ as str_eq}
use saasmint.Base.{
  ℕ, ◌^◌, ◌*◌, ◌||◌, Bool, true, false, not, ◌&&◌, Option, none, some, [], ◌∷◌, ◌++◌, String, ltb,
  ◌==◌, if◌then◌else◌, find, get_or,
}
use saasmint.Domain.{Uuid, StripeEvent}
use saasmint.Json.{Value}
use saasmint.Json.Access.{index, truthy}
use saasmint.Database.{Db, Task}
use saasmint.Database.Result.{Result, ok, err, Error, ◌>>=◌}
use saasmint.Billing.Env.{Env, Texts, to_text}
use saasmint.Billing.Webhooks.Process.{WebhookRepos, process_stored_event}

-- What `stripe.Webhook.construct_event` finds.
pub data SignatureCheck : Type 0 where
  verified signature_error invalid_payload : SignatureCheck

-- A request: the `Content-Length` header (`none` where it is no number), the length of the body, what
-- the Stripe SDK says of its signature, and its decoded JSON (`none` where it is no JSON).
pub record Request : Type 0 where
  pub content_length : Option ℕ
  pub body_length : ℕ
  pub check : SignatureCheck
  pub payload : Option Value

abbrev pub max_webhook_body : ℕ
max_webhook_body = 256 * 1024

-- `_id`, `type` and `livemode` of the event, each of which must be there.
unfoldable pub read_event : Texts → Value → Result (String × String × Bool)
unfolding index truthy to_text
read_event t event = do
  stripe_id ← index "id" event
  event_type ← index "type" event
  livemode ← index "livemode" event
  ok (to_text t stripe_id, to_text t event_type, truthy livemode)

abbrev pub is_event : String → StripeEvent → Bool
is_event t r = str_eq r.stripe_id t

-- `get_or_create`, and the dispatch of the task for a row that was created.
unfoldable pub store_event : Env → String → String → Bool → Value → Db → Db
store_event e stripe_id event_type livemode event db = elim (find (is_event stripe_id) db.events) [
  | some row ↦ db
  | none ↦ record db {
    events =
        db.events
        ++ (record {
          id = e.fresh_id;
          stripe_id = stripe_id;
          type = event_type;
          livemode = livemode;
          payload = event;
          processed_at = none;
          error = none;
          created_at = e.now;
        })
          ∷ [];
    queue = db.queue ++ Task.process_stripe_webhook e.fresh_id ∷ [];
  }
]

-- The part of `stripe_webhook` behind the signature check: the status of the response, and the tables.
unfoldable pub accept_event : Env → (key_is_live : Bool) → Option Value → Db → ℕ × Db
unfolding read_event store_event
accept_event e key_is_live none db = (400, db)
accept_event e key_is_live (some event) db = elim (read_event e.texts event) [
  | err x ↦ (400, db)
  | ok (stripe_id, event_type, livemode) ↦
      if (livemode && key_is_live) || (not livemode && not key_is_live)
      then (202, store_event e stripe_id event_type livemode event db)
      else (202, db)
]

-- `stripe_webhook`
unfoldable pub stripe_webhook : Env → (key_is_live : Bool) → Request → Db → ℕ × Db
unfolding accept_event
stripe_webhook e key_is_live r db =
    if ltb max_webhook_body (get_or r.content_length 0)
    then (413, db)
    else if ltb max_webhook_body r.body_length
    then (413, db)
    else elim r.check [
      | signature_error ↦ (400, db)
      | invalid_payload ↦ (400, db)
      | verified ↦ accept_event e key_is_live r.payload db
    ]

-- How a run of the task ends: `retry` asks Celery for another run after so many seconds.
pub data Outcome : Type 0 where
  done : Outcome
  failed : Error → Outcome
  retry : (countdown : ℕ) → Outcome

abbrev pub is_transient : Error → Bool
is_transient Error.stripe_error = true
is_transient Error.resource_missing = true
is_transient Error.connection_error = true
is_transient Error.operational_error = true
is_transient _ = false

abbrev pub outcome_of : (retries : ℕ) → Result (Unit {0}) → Outcome
outcome_of retries (ok _) = done
outcome_of retries (err x) = if is_transient x then retry (2 ^ retries) else failed x

-- `process_stripe_webhook`
unfoldable pub run_stripe_webhook :
    (Error → String) → Env → WebhookRepos → (retries : ℕ) → Uuid → Db → Outcome × Db
unfolding process_stored_event
run_stripe_webhook message e r retries event_id db =
    elim (find (λ (row : StripeEvent). row.id == event_id) db.events) [
      | none ↦ (failed Error.does_not_exist, db)
      | some row ↦
          let (result, db') = process_stored_event message e r row.payload row.stripe_id db in
          (outcome_of retries result, db')
    ]
