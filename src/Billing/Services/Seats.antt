-- ===== src/Billing/Services/Seats.antt =====
-- The mirror of the seats and of the pending change: what an update of the seat count and the release of a
-- scheduled change leave in the tables.
use mathlib.Core.Path.{subst}
use saasmint.Base.{
  ℕ, ◌≤◌, ◌≡◌, refl, ap, sym, Bool, some, [], ◌∷◌, ◌++◌, String, ◌==◌, ltb, arith, inl, inr,
  Bool-cases, eq_of_==,
}
use saasmint.Domain.{Uuid, Subscription}
use saasmint.Json.{Value}
use saasmint.Database.{Db}
use saasmint.Database.Result.{ok, Result-cases}
use saasmint.Stripe.{Stripe, World, subscription_retrieve, pure, raise, lift, gets, on_db, ◌>>=◌}
use saasmint.Stripe.Run.{request_bind-ok, lift_bind-ok, on_db-ok}
use saasmint.Billing.Env.{Env}
use saasmint.Billing.Repositories.{save}
use saasmint.Billing.Repositories.Distinct.{IsDistinct}
use saasmint.Billing.Repositories.Update.{Rewrites}
use saasmint.Billing.Services.{read_seat_item}
use saasmint.Billing.Webhooks.Schedule.{without_pending}
use saasmint.Billing.Services.Cancel.{
  active_at_stripe, release_pending_schedule, has_pending, clear_mirror, release_active,
  release_pending_schedule_for_customer,
}
use saasmint.Billing.Services.Plans.{
  mirror_seats, seats_call, modify_seats, update_seats_at, update_seat_count,
}
use saasmint.Billing.Services.Active.{
  IsActiveRow, active_at_stripe-IsActiveRow, save-active-Rewrites,
}
use saasmint.Billing.Services.Mirror.{release_pending_schedule-db}

-- A table in which the row stands as it should be already.
unchanged-Rewrites :
    (t : String) (active : Subscription) (db : Db)
    → IsActiveRow t active db
    → Rewrites t active db (ok tt, db)
unchanged-Rewrites t active db a = record {
  succeeds = refl;
  rewritten = a.found;
  others = λ t' other. refl;
}

module _ (e : Env) (stripe : Stripe) where
  mirror_seats-Rewrites :
      (active : Subscription) (q : ℕ) (t : String) (w w' : World)
      → IsDistinct w.db.subscriptions
      → IsActiveRow t active w.db
      → mirror_seats e stripe active q w ≡ (ok tt, w')
      → Rewrites t (record active { seat_limit = q }) w.db (ok tt, w'.db)
  unfolding pure on_db
  mirror_seats-Rewrites active q t w w' d a h = elim (Bool-cases (active.seat_limit == q)) [
    | inl same ↦
        let at : w.db ≡ w'.db = ground arith in
        let now : active ≡ record active { seat_limit = q } =
          ap (λ n. record active { seat_limit = n }) (eq_of_== active.seat_limit q same) in
        subst (λ db. Rewrites t (record active { seat_limit = q }) w.db (ok tt, db)) at
          (subst (λ s. Rewrites t s w.db (ok tt, w.db)) now (unchanged-Rewrites t active w.db a))
    | inr other ↦
        save-active-Rewrites e t active (record active { seat_limit = q }) w.db w'.db d a refl refl
          refl refl (on_db-ok (save e (record active { seat_limit = q })) w tt w' (ground arith)).0
  ]

  mirror_seats-calls :
      (active : Subscription) (q : ℕ) (w w' : World)
      → mirror_seats e stripe active q w ≡ (ok tt, w')
      → w'.calls ≡ w.calls
  unfolding pure on_db
  mirror_seats-calls active q w w' h = elim (Bool-cases (active.seat_limit == q)) [
    | inl same ↦ ground arith
    | inr other ↦ ground arith
  ]

  modified-Rewrites :
      (active : Subscription) (q : ℕ) (t item : String) (more : Bool) (w w' : World)
      → IsDistinct w.db.subscriptions
      → IsActiveRow t active w.db
      → modify_seats e stripe active q t (item, more) w ≡ (ok tt, w')
      → (w'.calls ≡ w.calls ++ seats_call q t (item, more) ∷ [])
        × Rewrites t (record active { seat_limit = q }) w.db (ok tt, w'.db)
  modified-Rewrites active q t item more w w' d a h =
      let (answer, modified, rest) =
        request_bind-ok stripe (seats_call q t (item, more))
          (λ _answer. mirror_seats e stripe active q) w tt w' h in
      let v : World = record w { calls = w.calls ++ seats_call q t (item, more) ∷ [] } in
      (mirror_seats-calls active q v w' rest, mirror_seats-Rewrites active q t v w' d a rest)

  at_stripe-mirrors :
      (active : Subscription) (q : ℕ) (t : String) (w w' : World)
      → IsDistinct w.db.subscriptions
      → IsActiveRow t active w.db
      → update_seats_at e stripe active q t w ≡ (ok tt, w')
      → ((sub : Value) × (item : String) × (more : Bool) × (stripe w.calls (subscription_retrieve t)
            ≡ ok sub)
          × (read_seat_item e.texts q sub ≡ ok (item, more))
          × (w'.calls
              ≡ (w.calls ++ subscription_retrieve t ∷ []) ++ seats_call q t (item, more) ∷ []))
        × Rewrites t (record active { seat_limit = q }) w.db (ok tt, w'.db)
  at_stripe-mirrors active q t w w' d a h =
      let (sub, answered, rest) =
        request_bind-ok stripe (subscription_retrieve t)
          (λ sub. lift (read_seat_item e.texts q sub) >>= modify_seats e stripe active q t) w tt w'
          h in
      let v : World = record w { calls = w.calls ++ subscription_retrieve t ∷ [] } in
      let ((item, more), read, rest') =
        lift_bind-ok (read_seat_item e.texts q sub) (modify_seats e stripe active q t) v tt w'
          rest in
      let (logged, mirrored) = modified-Rewrites active q t item more v w' d a rest' in
      ((sub, item, more, answered, read, logged), mirrored)

  -- An update of the seat count that succeeds was for one seat at least. It asked Stripe for the subscription,
  -- and then to modify an item of it to these seats, with prorations where there are more of them than before;
  -- the row of the subscription has these seats then, and every other row is as it was.
  pub update_seat_count-mirrors :
      (active : Subscription) (q : ℕ) (t : String) (w w' : World)
      → IsDistinct w.db.subscriptions
      → IsActiveRow t active w.db
      → update_seat_count e stripe active q w ≡ (ok tt, w')
      → (1 ≤ q)
        × ((sub : Value) × (item : String) × (more : Bool) × (stripe w.calls
                (subscription_retrieve t)
              ≡ ok sub)
            × (read_seat_item e.texts q sub ≡ ok (item, more))
            × (w'.calls
                ≡ (w.calls ++ subscription_retrieve t ∷ []) ++ seats_call q t (item, more) ∷ []))
        × Rewrites t (record active { seat_limit = q }) w.db (ok tt, w'.db)
  unfolding update_seat_count raise
  update_seat_count-mirrors active q t w w' d a h = elim (Bool-cases (ltb q 1)) [
    | inl few ↦ ground arith
    | inr enough ↦
        let (asked, mirrored) =
          at_stripe-mirrors active q t w w' d a (rw (update_seat_count, enough, a.has_id) at h) in
        (ground arith, asked, mirrored)
  ]

  clear_mirror-Rewrites :
      (active : Subscription) (t : String) (w w' : World)
      → IsDistinct w.db.subscriptions
      → IsActiveRow t active w.db
      → clear_mirror e stripe active w ≡ (ok tt, w')
      → Rewrites t (without_pending active) w.db (ok tt, w'.db)
  unfolding pure on_db
  clear_mirror-Rewrites active t w w' d a h = elim (Bool-cases (has_pending e stripe active)) [
    | inr clear ↦
        let at : w.db ≡ w'.db = ground arith in
        let now : active ≡ without_pending active = ground arith in
        subst (λ db. Rewrites t (without_pending active) w.db (ok tt, db)) at
          (subst (λ s. Rewrites t s w.db (ok tt, w.db)) now (unchanged-Rewrites t active w.db a))
    | inl pending ↦
        save-active-Rewrites e t active (without_pending active) w.db w'.db d a refl refl refl refl
          (on_db-ok (save e (without_pending active)) w tt w' (ground arith)).0
  ]

  -- When the release of a customer's scheduled change succeeds, the row of the customer's active subscription
  -- has no pending change and is else as it was, and every other row is as it was.
  pub release_pending_schedule_for_customer-clears :
      (customer : Uuid) (active : Subscription) (t : String) (w w' : World)
      → IsDistinct w.db.subscriptions
      → active_at_stripe customer w.db ≡ some (active, t)
      → release_pending_schedule_for_customer e stripe customer w ≡ (ok tt, w')
      → Rewrites t (without_pending active) w.db (ok tt, w'.db)
  unfolding release_pending_schedule_for_customer gets ◌>>=◌
  release_pending_schedule_for_customer-clears customer active t w w' d there h =
      let a = active_at_stripe-IsActiveRow customer w.db active t d there in
      let v = (release_pending_schedule e stripe t w).1 in
      let same : v.db ≡ w.db = release_pending_schedule-db e stripe t w in
      let steps : release_active e stripe (some (active, t)) w ≡ (ok tt, w') = rw there at h in
      elim (Result-cases (release_pending_schedule e stripe t w).0) [
        | inr (x, failed) ↦ ground arith
        | inl (done, released) ↦
            subst (λ db. Rewrites t (without_pending active) db (ok tt, w'.db)) same
              (clear_mirror-Rewrites active t v w'
                (subst (λ db. IsDistinct db.subscriptions) (sym same) d)
                (subst (λ db. IsActiveRow t active db) (sym same) a) (ground arith))
      ]
