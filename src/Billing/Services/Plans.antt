-- ===== src/Billing/Services/Plans.antt =====
-- core/core/saasmint_core/services/subscriptions.py: plan changes and seat counts.
use saasmint.Base.{
  ℕ, Bool, true, false, Option, none, some, List, [], ◌∷◌, String, ◌==◌, ltb, if◌then◌else◌, get_or,
}
use saasmint.Domain.{Subscription}
use saasmint.Json.{Value, str}
use saasmint.Json.Access.{index, truthy}
use saasmint.Database.Result.{Result, Error}
use saasmint.Stripe.{
  Stripe, Service, Call, Proration, create_prorations, no_proration, Phase, subscription_retrieve,
  subscription_modify_items, schedule_release, schedule_create_from, schedule_modify,
  price_retrieve, request, attribute, safe_get, pure, raise, lift, on_db, ◌>>=◌, ◌>>◌,
}
use saasmint.Billing.Env.{Env, to_text}
use saasmint.Billing.Repositories.{save}
use saasmint.Billing.Services.{
  PlanItem, read_plan_item, first_item_of, DowngradeTerms, read_downgrade_terms, lower_text,
  currencies_differ, read_seat_item,
}

-- The two phases: the current price to the end of the period, and then the new one.
unfoldable pub two_phases : DowngradeTerms → (new_price : String) (quantity : ℕ) → List Phase
two_phases terms new_price quantity =
    (record {
      price = terms.current_price_id;
      quantity = quantity;
      start_date = terms.period_start;
      end_date = some terms.period_end;
    })
    ∷ (record {
      price = new_price;
      quantity = quantity;
      start_date = terms.period_end;
      end_date = none;
    })
    ∷ []

abbrev pub proration_if : Bool → Proration
proration_if true = create_prorations
proration_if false = no_proration

module _ (e : Env) (stripe : Stripe) (object_get : String → Value → Result Value) where
  -- The schedule that pins the subscription, or a new one made from it.
  unfoldable pub schedule_for : Value → Service Value
  unfolding safe_get truthy index to_text request
  schedule_for sub = do
    existing_id ← lift (safe_get "schedule" sub)
    let create : Service Value = do
      sub_value ← lift (index "id" sub)
      schedule ← request stripe (schedule_create_from (to_text e.texts sub_value))
      lift (index "id" schedule)
    if truthy existing_id then pure (str (to_text e.texts existing_id)) else create

  -- `_schedule_downgrade_at_period_end`
  unfoldable pub schedule_downgrade_at_period_end :
      (sub : Value) (new_price : String) (quantity : ℕ) → Service (Unit {0})
  unfolding read_downgrade_terms request attribute lower_text currencies_differ schedule_for
      two_phases
  schedule_downgrade_at_period_end sub new_price quantity = do
    terms ← lift (read_downgrade_terms e.texts object_get sub)
    price ← request stripe (price_retrieve new_price)
    currency ← lift (attribute "currency" price)
    let schedule : Service (Unit {0}) = do
      schedule_id ← schedule_for sub
      _answer ← request stripe (schedule_modify schedule_id (two_phases terms new_price quantity))
      pure tt
    let differ = currencies_differ terms.current_currency (lower_text e.texts currency)
    if differ then raise Error.value_error else schedule

  -- The release of a pinning schedule, after which the item is read again.
  unfoldable pub released_item : (sub : Value) (stripe_id item_id : String) → Service String
  unfolding safe_get truthy index to_text request first_item_of
  released_item sub stripe_id item_id = do
    existing_id ← lift (safe_get "schedule" sub)
    let release : Service String = do
      _answer ← request stripe (schedule_release (to_text e.texts existing_id))
      fresh ← request stripe (subscription_retrieve stripe_id)
      first_item ← lift (first_item_of fresh)
      item_value ← lift (index "id" first_item)
      pure (to_text e.texts item_value)
    if truthy existing_id then release else pure item_id

  -- `_apply_immediate_plan_change`
  unfoldable pub apply_immediate_plan_change :
      (sub : Value) (stripe_id item_id new_price : String) (prorate : Bool) (quantity : ℕ)
      → Service (Unit {0})
  unfolding released_item request
  apply_immediate_plan_change sub stripe_id item_id new_price prorate quantity = do
    current_item ← released_item sub stripe_id item_id
    _answer ← request stripe (
        subscription_modify_items stripe_id
          (record { item_id = current_item; price = some new_price; quantity = quantity })
          (proration_if prorate))
    pure tt

  -- The choice of `change_plan` between the two.
  unfoldable pub apply_plan_change :
      (stripe_id new_price : String) (prorate : Bool) (quantity : Option ℕ) (sub : Value)
      → PlanItem
      → Service (Unit {0})
  unfolding schedule_downgrade_at_period_end apply_immediate_plan_change
  apply_plan_change stripe_id new_price prorate quantity sub plan =
      if plan.is_downgrade
      then schedule_downgrade_at_period_end sub new_price (get_or quantity plan.current_quantity)
      else apply_immediate_plan_change sub stripe_id plan.item_id new_price prorate
          (get_or quantity plan.current_quantity)

  -- `change_plan`
  unfoldable pub change_plan :
      (stripe_id new_price : String) (new_price_amount : Option ℕ) (prorate : Bool)
      → (quantity : Option ℕ) → Service (Unit {0})
  unfolding request read_plan_item apply_plan_change
  change_plan stripe_id new_price new_price_amount prorate quantity = do
    sub ← request stripe (subscription_retrieve stripe_id)
    plan ← lift (read_plan_item e.texts new_price_amount sub)
    apply_plan_change stripe_id new_price prorate quantity sub plan

abbrev pub seats_call : ℕ → String → String × Bool → Call
seats_call quantity stripe_id (item_id, more) =
    subscription_modify_items stripe_id
      (record { item_id = item_id; price = none; quantity = quantity }) (proration_if more)

module _ (e : Env) (stripe : Stripe) where
  abbrev pub mirror_seats : Subscription → ℕ → Service (Unit {0})
  mirror_seats active quantity =
      if active.seat_limit == quantity
      then pure tt
      else on_db (save e (record active { seat_limit = quantity }))

  -- The request for the new number of seats, and the mirror.
  abbrev pub modify_seats : Subscription → ℕ → String → String × Bool → Service (Unit {0})
  modify_seats active quantity stripe_id item =
      request stripe (seats_call quantity stripe_id item) >> mirror_seats active quantity

  abbrev pub update_seats_at : Subscription → ℕ → String → Service (Unit {0})
  update_seats_at active quantity stripe_id =
      request stripe (subscription_retrieve stripe_id) >>= λ sub.
      lift (read_seat_item e.texts quantity sub) >>= modify_seats active quantity stripe_id

  -- `update_seat_count`
  unfoldable pub update_seat_count : Subscription → ℕ → Service (Unit {0})
  update_seat_count active quantity =
      if ltb quantity 1 then raise Error.value_error else elim active.stripe_id [
        | none ↦ raise Error.value_error
        | some t ↦ update_seats_at active quantity t
      ]
