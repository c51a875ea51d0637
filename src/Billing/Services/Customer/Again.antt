-- ===== src/Billing/Services/Customer/Again.antt =====
-- `get_or_create_customer` makes one customer for an owner.
use mathlib.Core.Path.{subst}
use saasmint.Base.{
  ◌≡◌, refl, ap, sym, ◌∙◌, ℕ, Bool, true, false, Option, none, some, List, [], ◌∷◌, ◌++◌, String,
  ==_refl, find, is_some_of, find-append, not-any-of-find, arith, inl, inr, Bool-cases,
  Option-cases,
}
use saasmint.Domain.{Uuid, StripeCustomer}
use saasmint.Json.{end}
use saasmint.Database.{Db}
use saasmint.Database.Result.{ok}
use saasmint.Stripe.{Stripe, World, customer_create, attribute, pure, raise, gets, Service, ◌>>=◌}
use saasmint.Stripe.Run.{request_bind-ok, lift_bind-ok, on_db-ok}
use saasmint.Billing.Customers
use saasmint.Billing.Customers.{is_row_of, is_refused_customer}
use saasmint.Billing.Env.{Env}
use saasmint.Billing.Services.Customer.{
  as_text, as_flag, existing_customer, create_customer, get_or_create_customer, owner_entry,
  saved_customer,
}

-- The row that a save for a new owner inserts is found under that owner.
save-found :
    (row_id now : ℕ) (c c' : StripeCustomer) (db db' : Db)
    → find (is_row_of c) db.customers ≡ none
    → is_row_of c (record c { id = row_id; created_at = now }) ≡ true
    → Customers.save row_id now c db ≡ (ok c', db')
    → (c ≡ c')
      × (find (is_row_of c) db'.customers ≡ some (record c { id = row_id; created_at = now }))
unfolding Customers.save
save-found row_id now c c' db db' new own h =
    elim (Bool-cases (is_refused_customer c db.customers)) [
      | inl refused ↦ ground arith
      | inr fine ↦
          let absent = not-any-of-find (is_row_of c) db.customers new in
          let rows : db'.customers
              ≡ db.customers ++ (record c { id = row_id; created_at = now }) ∷ [] =
            ground arith in
          (
            ground arith,
            rw
                (
                  rows,
                  find-append (is_row_of c) db.customers
                      ((record c { id = row_id; created_at = now }) ∷ []),
                  new,
                  own,
                )
                refl,
          )
    ]

-- What a creation leaves: a row with the given owner, found under that owner, and it has the `stripe_id` of the
-- customer that is returned.
module _ (e : Env) (stripe : Stripe) (row_id : Uuid) where
  created :
      (user_id org_id : Option Uuid) (email : String) (name : Option String) (locale : String)
      → (w w' : World) (c : StripeCustomer)
      → create_customer e stripe row_id user_id org_id email name locale w ≡ (ok c, w')
      → (stripe_id : String) × (livemode : Bool) × (Customers.save row_id e.now
            (saved_customer e stripe_id user_id org_id livemode)
            w.db
          ≡ (ok c, w'.db))
  unfolding create_customer
  created user_id org_id email name locale w w' c h =
      let call =
        customer_create email name locale
          (owner_entry e.texts "user_id" user_id (owner_entry e.texts "org_id" org_id end)) in
      let (answer, answered, rest) = request_bind-ok stripe call _ w c w' h in
      let (i, has_id, rest) = lift_bind-ok (attribute "id" answer) _ _ c w' rest in
      let (l, has_mode, rest) = lift_bind-ok (attribute "livemode" answer) _ _ c w' rest in
      let (stripe_id, text, rest) = lift_bind-ok (as_text i) _ _ c w' rest in
      let (livemode, flag, rest) = lift_bind-ok (as_flag l) _ _ c w' rest in
      (
        stripe_id,
        livemode,
        (on_db-ok (Customers.save row_id e.now (saved_customer e stripe_id user_id org_id livemode))
            _ c w' rest).0,
      )

abbrev owner_key : (user_id org_id : Option Uuid) → StripeCustomer → Bool
owner_key (some u) org_id r = is_some_of r.user_id u
owner_key none (some o) r = is_some_of r.org_id o
owner_key none none r = false

nobody : (rows : List StripeCustomer) → find (owner_key none none) rows ≡ none
nobody [] = refl
nobody (r ∷ rows) = nobody rows

module _ (e : Env) (stripe : Stripe) (row_id : Uuid) (email : String) (name : Option String)
    (locale : String) where
  run : (user_id org_id : Option Uuid) → Service StripeCustomer
  run user_id org_id = get_or_create_customer e stripe row_id user_id org_id email name locale

  -- With a customer for the owner, that is the result, and nothing else happens.
  present :
      (user_id org_id : Option Uuid) (w : World) (r : StripeCustomer)
      → find (owner_key user_id org_id) w.db.customers ≡ some r
      → run user_id org_id w ≡ (ok r, w)
  unfolding run get_or_create_customer existing_customer ◌>>=◌ gets pure Customers.get_by_user_id
      Customers.get_by_org_id
  present (some u) org_id w r h = rw h refl
  present none (some o) w r h = rw h refl
  present none none w r h = ground (arith, nobody w.db.customers)

  absent :
      (user_id org_id : Option Uuid) (w w' : World) (c : StripeCustomer)
      → find (owner_key user_id org_id) w.db.customers ≡ none
      → run user_id org_id w ≡ (ok c, w')
      → create_customer e stripe row_id user_id org_id email name locale w ≡ (ok c, w')
  unfolding run get_or_create_customer existing_customer ◌>>=◌ gets raise Customers.get_by_user_id
      Customers.get_by_org_id
  absent (some u) org_id w w' c new h = rw new at h
  absent none (some o) w w' c new h = rw new at h
  absent none none w w' c new h = ground arith

  made_key :
      (user_id org_id : Option Uuid) (w w' : World) (c : StripeCustomer)
      → find (owner_key user_id org_id) w.db.customers ≡ none
      → run user_id org_id w ≡ (ok c, w')
      → (r : StripeCustomer) × (find (owner_key user_id org_id) w'.db.customers ≡ some r)
        × (r.stripe_id ≡ c.stripe_id)
  unfolding run get_or_create_customer existing_customer ◌>>=◌ raise
  made_key (some u) org_id w w' c new h =
      let (stripe_id, livemode, saved) =
        created e stripe row_id (some u) org_id email name locale w w' c
          (absent (some u) org_id w w' c new h) in
      let (same, there) =
        save-found row_id e.now (saved_customer e stripe_id (some u) org_id livemode) c w.db w'.db
          new (==_refl u) saved in
      (_, there, ap (λ (x : StripeCustomer). x.stripe_id) same)
  made_key none (some o) w w' c new h =
      let (stripe_id, livemode, saved) =
        created e stripe row_id none (some o) email name locale w w' c
          (absent none (some o) w w' c new h) in
      let (same, there) =
        save-found row_id e.now (saved_customer e stripe_id none (some o) livemode) c w.db w'.db new
          (==_refl o) saved in
      (_, there, ap (λ (x : StripeCustomer). x.stripe_id) same)
  made_key none none w w' c new h = ground arith

-- A customer that was found or made for a user or an org is found by the next call for the same owner, at any
-- other time and with any answers of Stripe: that call asks Stripe for nothing, changes no row, and returns a
-- customer with the same `stripe_id`.
pub get_or_create_customer-again :
    (e e' : Env) (stripe stripe' : Stripe) (row_id row_id' : Uuid) (user_id org_id : Option Uuid)
    → (email : String) (name : Option String) (locale : String) (w w' : World) (c : StripeCustomer)
    → get_or_create_customer e stripe row_id user_id org_id email name locale w ≡ (ok c, w')
    → (r : StripeCustomer) × (get_or_create_customer e' stripe' row_id' user_id org_id email name
          locale w'
        ≡ (ok r, w'))
      × (r.stripe_id ≡ c.stripe_id)
unfolding run
get_or_create_customer-again e e' stripe stripe' row_id row_id' user_id org_id email name locale w
      w' c h =
    elim (Option-cases (find (owner_key user_id org_id) w.db.customers)) [
      | inl new ↦
          let (r, there, same) =
            made_key e stripe row_id email name locale user_id org_id w w' c new h in
          (r, present e' stripe' row_id' email name locale user_id org_id w' r there, same)
      | inr (r, there) ↦
          let before = present e stripe row_id email name locale user_id org_id w r there in
          let same : (ok r, w) ≡ (ok c, w') = sym before ∙ h in
          (
            r,
            subst (λ v. run e' stripe' row_id' email name locale user_id org_id v ≡ (ok r, v))
                (ap (λ p. p.1) same)
                (present e' stripe' row_id' email name locale user_id org_id w r there),
            ground arith,
          )
    ]
