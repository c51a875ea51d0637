-- ===== src/Billing/Services/Steps.antt =====
-- The requests of the two kinds of plan change, in their order.
use saasmint.Base.{
  ℕ, ◌<◌, ◌≡◌, refl, sym, ap, ◌∙◌, Bool, true, false, Option, none, some, List, [], ◌∷◌, String,
  ◌++◌, ◌⊎◌, inl, inr, Bool-cases, append_assoc, append_nil,
}
use saasmint.Json.{Value}
use saasmint.Json.Access.{index, truthy, as_int}
use saasmint.Database.Result.{Result, ok, Error}
use saasmint.Stripe.{
  Stripe, Call, World, Phase, subscription_retrieve, subscription_modify_items, schedule_release,
  schedule_create_from, schedule_modify, price_retrieve, safe_get, attribute,
}
use saasmint.Stripe.Run.{request_bind-ok, lift_bind-ok, bind-ok, pure-ok, lift-ok, raise-err}
use saasmint.Billing.Env.{Env, to_text}
use saasmint.Billing.Services.{first_item_of, read_downgrade_terms, lower_text, currencies_differ}
use saasmint.Billing.Services.Plans.{
  two_phases, proration_if, schedule_for, schedule_downgrade_at_period_end, released_item,
  apply_immediate_plan_change,
}

-- The amount is given and below the integer that the price of the first item has.
abbrev pub IsDowngrade : Option ℕ → (sub : Value) → Type 0
IsDowngrade amount sub =
    (n : ℕ) × (m : ℕ) × (item : Value) × (price : Value) × (current : Value) × (amount ≡ some n)
    × (first_item_of sub ≡ ok item)
    × (safe_get "price" item ≡ ok price)
    × (safe_get "unit_amount" price ≡ ok current)
    × (as_int current ≡ some m)
    × (n < m)

-- The creation of a schedule, where the subscription is pinned by none.
abbrev pub Made : (sub : Value) → List Call → Type 0
Made sub cs =
    (v : Value) × (safe_get "schedule" sub ≡ ok v)
    × (((truthy v ≡ true) × (cs ≡ []))
        ⊎ ((truthy v ≡ false) × ((id : String) × (cs ≡ schedule_create_from id ∷ []))))

-- The release of the schedule that pins the subscription, if any, and another read of the subscription.
abbrev pub Freed : Env → (sub : Value) (stripe_id : String) → List Call → Type 0
Freed e sub stripe_id cs =
    (v : Value) × (safe_get "schedule" sub ≡ ok v)
    × (((truthy v ≡ false) × (cs ≡ []))
        ⊎ ((truthy v ≡ true)
            × (cs ≡ schedule_release (to_text e.texts v) ∷ subscription_retrieve stripe_id ∷ [])))

-- The requests of a change at the end of the period: the schedule gets two phases, of which the second, with
-- the new price, starts where the first ends, and both have `q` seats.
abbrev pub SchedulesLater : (sub : Value) (new_price : String) (q : ℕ) → List Call → Type 0
SchedulesLater sub new_price q cs =
    (made : List Call) × (schedule : Value) × (first : Phase) × (second : Phase) × Made sub made
    × (cs
        ≡ price_retrieve new_price ∷ (made ++ schedule_modify schedule (first ∷ second ∷ []) ∷ []))
    × (first.quantity ≡ q)
    × (second.quantity ≡ q)
    × (second.price ≡ new_price)
    × (first.end_date ≡ some second.start_date)

-- The requests of a change at once: the subscription gets the new price with `q` seats, after the release.
abbrev pub ModifiesNow :
    Env → (sub : Value) (stripe_id new_price : String) (prorate : Bool) (q : ℕ) → List Call → Type 0
ModifiesNow e sub stripe_id new_price prorate q cs =
    (freed : List Call) × (item : String) × Freed e sub stripe_id freed
    × (cs
        ≡ freed
          ++ subscription_modify_items stripe_id
              (record { item_id = item; price = some new_price; quantity = q })
              (proration_if prorate)
            ∷ [])

module _ (e : Env) (stripe : Stripe) (object_get : String → Value → Result Value) where
  schedule_for-Made :
      (sub schedule : Value) (w w' : World)
      → schedule_for e stripe object_get sub w ≡ (ok schedule, w')
      → (made : List Call) × Made sub made × (w'.calls ≡ w.calls ++ made)
  unfolding schedule_for
  schedule_for-Made sub schedule w w' h =
      let (v, there, rest) = lift_bind-ok (safe_get "schedule" sub) _ w schedule w' h in
      elim (Bool-cases (truthy v)) [
        | inl pinned ↦
            let (_, same) = pure-ok _ schedule w w' (rw pinned at rest) in
            ([], (v, there, inl (pinned, refl)), same ∙ sym (append_nil w.calls))
        | inr free ↦
            let (i, _, rest) = lift_bind-ok (index "id" sub) _ w schedule w' (rw free at rest) in
            let (made, _, rest) =
              request_bind-ok stripe (schedule_create_from (to_text e.texts i)) _ w schedule w'
                rest in
            let (_, same) = lift-ok (index "id" made) schedule _ w' rest in
            (
              schedule_create_from (to_text e.texts i) ∷ [],
              (v, there, inr (free, (to_text e.texts i, refl))),
              same,
            )
      ]

  pub schedule_downgrade-SchedulesLater :
      (sub : Value) (new_price : String) (q : ℕ) (w w' : World)
      → schedule_downgrade_at_period_end e stripe object_get sub new_price q w ≡ (ok tt, w')
      → (cs : List Call) × SchedulesLater sub new_price q cs × (w'.calls ≡ w.calls ++ cs)
  unfolding schedule_downgrade_at_period_end two_phases
  schedule_downgrade-SchedulesLater sub new_price q w w' h =
      let (terms, _, rest) =
        lift_bind-ok (read_downgrade_terms e.texts object_get sub) _ w tt w' h in
      let (price, _, rest) = request_bind-ok stripe (price_retrieve new_price) _ w tt w' rest in
      let w1 : World = record w { calls = w.calls ++ price_retrieve new_price ∷ [] } in
      let (currency, _, rest) = lift_bind-ok (attribute "currency" price) _ w1 tt w' rest in
      elim (Bool-cases (currencies_differ terms.current_currency (lower_text e.texts currency))) [
        | inl differ ↦
            let raised = raise-err Error.value_error (ok tt) w1 w' (rw differ at rest) in absurd cc
        | inr same ↦
            let (schedule, w2, scheduled, rest) =
              bind-ok (schedule_for e stripe object_get sub) _ w1 tt w' (rw same at rest) in
            let (made, is_made, logged) = schedule_for-Made sub schedule w1 w2 scheduled in
            let (_, _, rest) =
              request_bind-ok stripe (schedule_modify schedule (two_phases terms new_price q)) _ w2
                tt w' rest in
            let (_, last) = pure-ok tt tt _ w' rest in
            let modify = schedule_modify schedule (two_phases terms new_price q) in
            (
              price_retrieve new_price ∷ (made ++ modify ∷ []),
              (
                made,
                schedule,
                record {
                  price = terms.current_price_id;
                  quantity = q;
                  start_date = terms.period_start;
                  end_date = some terms.period_end;
                },
                record {
                  price = new_price;
                  quantity = q;
                  start_date = terms.period_end;
                  end_date = none;
                },
                is_made,
                refl,
                refl,
                refl,
                refl,
                refl,
              ),
              last
                  ∙ (ap (λ l. l ++ modify ∷ []) logged
                      ∙ (append_assoc w1.calls made (modify ∷ [])
                          ∙ append_assoc w.calls (price_retrieve new_price ∷ [])
                              (made ++ modify ∷ []))),
            )
      ]

  released_item-Freed :
      (sub : Value) (stripe_id item_id item : String) (w w' : World)
      → released_item e stripe object_get sub stripe_id item_id w ≡ (ok item, w')
      → (freed : List Call) × Freed e sub stripe_id freed × (w'.calls ≡ w.calls ++ freed)
  unfolding released_item
  released_item-Freed sub stripe_id item_id item w w' h =
      let (v, there, rest) = lift_bind-ok (safe_get "schedule" sub) _ w item w' h in
      elim (Bool-cases (truthy v)) [
        | inr free ↦
            let (_, same) = pure-ok _ item w w' (rw free at rest) in
            ([], (v, there, inl (free, refl)), same ∙ sym (append_nil w.calls))
        | inl pinned ↦
            let release = schedule_release (to_text e.texts v) in
            let (_, _, rest) = request_bind-ok stripe release _ w item w' (rw pinned at rest) in
            let w1 : World = record w { calls = w.calls ++ release ∷ [] } in
            let (fresh, _, rest) =
              request_bind-ok stripe (subscription_retrieve stripe_id) _ w1 item w' rest in
            let (first, _, rest) = lift_bind-ok (first_item_of fresh) _ _ item w' rest in
            let (i, _, rest) = lift_bind-ok (index "id" first) _ _ item w' rest in
            let (_, last) = pure-ok _ item _ w' rest in
            (
              release ∷ subscription_retrieve stripe_id ∷ [],
              (v, there, inr (pinned, refl)),
              last ∙ append_assoc w.calls (release ∷ []) (subscription_retrieve stripe_id ∷ []),
            )
      ]

  pub apply_immediate-ModifiesNow :
      (sub : Value) (stripe_id item_id new_price : String) (prorate : Bool) (q : ℕ) (w w' : World)
      → apply_immediate_plan_change e stripe object_get sub stripe_id item_id new_price prorate q w
        ≡ (ok tt, w')
      → (cs : List Call) × ModifiesNow e sub stripe_id new_price prorate q cs
        × (w'.calls ≡ w.calls ++ cs)
  unfolding apply_immediate_plan_change
  apply_immediate-ModifiesNow sub stripe_id item_id new_price prorate q w w' h =
      let (item, w1, released, rest) =
        bind-ok (released_item e stripe object_get sub stripe_id item_id) _ w tt w' h in
      let (freed, is_freed, logged) =
        released_item-Freed sub stripe_id item_id item w w1 released in
      let modify =
        subscription_modify_items stripe_id
          (record { item_id = item; price = some new_price; quantity = q })
          (proration_if prorate) in
      let (_, _, rest) = request_bind-ok stripe modify _ w1 tt w' rest in
      let (_, last) = pure-ok tt tt _ w' rest in
      (
        freed ++ modify ∷ [],
        (freed, item, is_freed, refl),
        last ∙ (ap (λ l. l ++ modify ∷ []) logged ∙ append_assoc w.calls freed (modify ∷ [])),
      )
