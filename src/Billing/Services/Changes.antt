-- ===== src/Billing/Services/Changes.antt =====
-- What a plan change asks of Stripe.
use saasmint.Base.{
  ℕ, ◌≡◌, refl, Bool, true, false, not, ◌&&◌, Option, List, [], ◌∷◌, String, ◌==◌, get_or, ◌++◌,
  inl, inr, Bool-cases, ==_refl, arith,
}
use saasmint.Json.{Value}
use saasmint.Database.Result.{Result, ok}
use saasmint.Stripe.{
  Stripe, Call, World, Phase, subscription_retrieve, subscription_modify_items, schedule_release,
  schedule_create_from, schedule_modify, price_retrieve, request, lift, ◌>>=◌,
}
use saasmint.Stripe.Log.{Asks, Reads, Extends, Extends-trans, asking, reading}
use saasmint.Billing.Env.{Env}
use saasmint.Billing.Services.{PlanItem, read_plan_item, DowngradeTerms}
use saasmint.Billing.Services.Plans.{
  two_phases, schedule_for, schedule_downgrade_at_period_end, released_item,
  apply_immediate_plan_change, apply_plan_change, change_plan,
}

abbrev pub phases_have : ℕ → List Phase → Bool
phases_have q [] = true
phases_have q (p ∷ ps) = p.quantity == q && phases_have q ps

-- The requests that belong to a plan change with `q` seats: one that is deferred writes to schedules alone,
-- and one that is not writes to the subscription, at most after the release of a schedule. Each write has
-- the `q` seats. Both may read.
abbrev pub fits : (deferred : Bool) (q : ℕ) → Call → Bool
fits deferred q (subscription_modify_items s item p) = not deferred && item.quantity == q
fits deferred q (schedule_release s) = not deferred
fits deferred q (schedule_create_from s) = deferred
fits deferred q (schedule_modify s phases) = deferred && phases_have q phases
fits deferred q (subscription_retrieve s) = true
fits deferred q (price_retrieve s) = true
fits deferred q _ = false

module _ (e : Env) (stripe : Stripe) (object_get : String → Value → Result Value) where
  schedule_for-Asks :
      (q : ℕ) (sub : Value) → Asks (fits true q) (schedule_for e stripe object_get sub)
  unfolding schedule_for
  schedule_for-Asks q sub = search asking

  phases_have-two_phases :
      (terms : DowngradeTerms) (new_price : String) (q : ℕ)
      → phases_have q (two_phases terms new_price q) ≡ true
  unfolding two_phases
  phases_have-two_phases terms new_price q = ground (arith, ==_refl q)

  schedule_downgrade-Asks :
      (sub : Value) (new_price : String) (q : ℕ)
      → Asks (fits true q) (schedule_downgrade_at_period_end e stripe object_get sub new_price q)
  unfolding schedule_downgrade_at_period_end
  schedule_downgrade-Asks sub new_price q =
      search (asking, schedule_for-Asks, phases_have-two_phases) depth 12

  released_item-Asks :
      (q : ℕ) (sub : Value) (stripe_id item_id : String)
      → Asks (fits false q) (released_item e stripe object_get sub stripe_id item_id)
  unfolding released_item
  released_item-Asks q sub stripe_id item_id = search asking depth 12

  apply_immediate-Asks :
      (sub : Value) (stripe_id item_id new_price : String) (prorate : Bool) (q : ℕ)
      → Asks (fits false q) (
          apply_immediate_plan_change e stripe object_get sub stripe_id item_id new_price prorate q)
  unfolding apply_immediate_plan_change
  apply_immediate-Asks sub stripe_id item_id new_price prorate q =
      search (asking, released_item-Asks, ==_refl)

  apply_plan_change-Asks :
      (stripe_id new_price : String) (prorate : Bool) (quantity : Option ℕ) (sub : Value)
      → (plan : PlanItem)
      → Asks
          (fits plan.is_downgrade (get_or quantity plan.current_quantity))
          (apply_plan_change e stripe object_get stripe_id new_price prorate quantity sub plan)
  unfolding apply_plan_change
  apply_plan_change-Asks stripe_id new_price prorate quantity sub plan =
      elim (Bool-cases plan.is_downgrade) [
        | inl below ↦ rw below (schedule_downgrade-Asks sub new_price _)
        | inr above ↦ rw above (apply_immediate-Asks sub stripe_id plan.item_id new_price prorate _)
      ]

  change_plan-Reads :
      (stripe_id new_price : String) (amount : Option ℕ) (prorate : Bool) (quantity : Option ℕ)
      → Reads (change_plan e stripe object_get stripe_id new_price amount prorate quantity)
  unfolding change_plan apply_plan_change apply_immediate_plan_change released_item
      schedule_downgrade_at_period_end schedule_for
  change_plan-Reads stripe_id new_price amount prorate quantity = search reading depth 20 fits 5000

  -- After the subscription is read, and the seats and the price of its item: a plan change keeps the tables,
  -- which it leaves to the webhooks, and each of its further requests fits it, on every branch and whether or
  -- not it fails. Where the new price is given and below
  -- the current one it writes to schedules alone; otherwise it writes to the subscription alone, at most after
  -- the release of a schedule. Each write has the seats asked for, else those that the item has.
  pub change_plan-fits :
      (stripe_id new_price : String) (amount : Option ℕ) (prorate : Bool) (quantity : Option ℕ)
      → (sub : Value) (plan : PlanItem) (w : World)
      → stripe w.calls (subscription_retrieve stripe_id) ≡ ok sub
      → read_plan_item e.texts amount sub ≡ ok plan
      → let (result, w') =
          change_plan e stripe object_get stripe_id new_price amount prorate quantity w in
        Extends (fits plan.is_downgrade (get_or quantity plan.current_quantity)) w w'
        × (w'.db ≡ w.db)
  unfolding change_plan request ◌>>=◌ lift
  change_plan-fits stripe_id new_price amount prorate quantity sub plan w answered read =
      let p = fits plan.is_downgrade (get_or quantity plan.current_quantity) in
      let v : World = record w { calls = w.calls ++ subscription_retrieve stripe_id ∷ [] } in
      let rest = (apply_plan_change-Asks stripe_id new_price prorate quantity sub plan).asks v in
      let first : Extends p w v = (subscription_retrieve stripe_id ∷ [], refl, refl) in
      let u =
        (apply_plan_change e stripe object_get stripe_id new_price prorate quantity sub plan v).1 in
      (
        rw (answered, read) (Extends-trans p w v u first rest),
        (change_plan-Reads stripe_id new_price amount prorate quantity).reads w,
      )
