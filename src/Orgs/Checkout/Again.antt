-- ===== src/Orgs/Checkout/Again.antt =====
-- A second delivery of a team checkout finds what the first one made.
use mathlib.Core.Path.{subst}
use text.Mathlib.Text.{◌==◌ as str_eq}
use saasmint.Base.{
  ◌≡◌, refl, ap, sym, ◌∙◌, Bool, false, ◌||◌, Option, none, some, [], ◌∷◌, ◌++◌, String, ◌==◌, find,
  any, find-append, find-of-not-any, any-or, arith, inl, inr, Bool-cases, Option-cases, str_eq_refl,
  ==_refl,
}
use saasmint.Domain.{Uuid, Org, OrgMember, StripeCustomer}
use saasmint.Database.{Db}
use saasmint.Database.Result.{ok}
use saasmint.Billing.Customers
use saasmint.Billing.Customers.{clashes_with, same_key}
use saasmint.Orgs.Invitations.{insert_member}
use saasmint.Orgs.Members.{is_membership}
use saasmint.Orgs.Slugs.{generate_unique_slug}
use saasmint.Orgs.Checkout.{
  Fresh, insert_org, already_created, new_org, first_member, org_customer, create_rows, member_of,
  create_org_with_owner,
}

module _ (f : Fresh) (user_id : Uuid) (name : String) (t : String) (livemode : Bool) where
  -- What the three inserts leave, when they succeed.
  inserted :
      (slug : Option String) (db db' : Db) (made : Org × OrgMember)
      → create_rows f user_id name slug (some t) livemode db ≡ (ok made, db')
      → (s : String) × (slug ≡ some s)
        × (made ≡ (new_org f user_id name s, first_member f user_id))
        × (any (λ (o : Org). o.id == f.org_id) db.orgs ≡ false)
        × (any (is_membership f.org_id user_id) db.members ≡ false)
        × (any (λ (c : StripeCustomer). str_eq c.stripe_id t) db.customers ≡ false)
        × (db'.orgs ≡ db.orgs ++ new_org f user_id name s ∷ [])
        × (db'.members ≡ db.members ++ first_member f user_id ∷ [])
        × (db'.customers ≡ db.customers ++ org_customer f t livemode ∷ [])
  unfolding create_rows insert_org insert_member Customers.insert_customer
  inserted none db db' made h = ground arith
  inserted (some s) db db' made h =
      elim (Bool-cases (any (λ (r : Org). r.id == f.org_id || str_eq r.slug s) db.orgs)) [
        | inl clash ↦ ground arith
        | inr free ↦ elim (Bool-cases (any (is_membership f.org_id user_id) db.members)) [
          | inl joined ↦ ground arith
          | inr new ↦
              elim (Bool-cases (any (clashes_with (org_customer f t livemode)) db.customers)) [
                | inl linked ↦ ground arith
                | inr unlinked ↦ (
                  s,
                  refl,
                  ground arith,
                  (any-or (λ (r : Org). r.id == f.org_id) (λ r. str_eq r.slug s) db.orgs free).0,
                  new,
                  (any-or (λ (c : StripeCustomer). str_eq c.stripe_id t)
                      (λ c. same_key none c.user_id || same_key (some f.org_id) c.org_id)
                      db.customers unlinked).0,
                  ground arith,
                  ground arith,
                  ground arith,
                )
              ]
        ]
      ]

  -- They are found by the Stripe customer and the user.
  found_again :
      (slug : Option String) (db db' : Db) (made : Org × OrgMember)
      → create_rows f user_id name slug (some t) livemode db ≡ (ok made, db')
      → already_created (some t) user_id db' ≡ some made
  unfolding already_created Customers.get_by_stripe_id
  found_again slug db db' made h =
      let (s, slugged, same, no_org, no_member, no_customer, orgs, members, customers) =
        inserted slug db db' made h in
      let customer : find (λ (c : StripeCustomer). str_eq c.stripe_id t) db'.customers
          ≡ some (org_customer f t livemode) =
        rw
          (
            customers,
            find-append (λ (c : StripeCustomer). str_eq c.stripe_id t) db.customers
                (org_customer f t livemode ∷ []),
            find-of-not-any (λ (c : StripeCustomer). str_eq c.stripe_id t) db.customers no_customer,
            str_eq_refl t,
          )
          refl in
      let org : find (λ (o : Org). o.id == f.org_id) db'.orgs ≡ some (new_org f user_id name s) =
        rw
          (
            orgs,
            find-append (λ (o : Org). o.id == f.org_id) db.orgs (new_org f user_id name s ∷ []),
            find-of-not-any (λ (o : Org). o.id == f.org_id) db.orgs no_org,
            ==_refl f.org_id,
          )
          refl in
      let member : find (is_membership f.org_id user_id) db'.members
          ≡ some (first_member f user_id) =
        rw
          (
            members,
            find-append (is_membership f.org_id user_id) db.members (first_member f user_id ∷ []),
            find-of-not-any (is_membership f.org_id user_id) db.members no_member,
            ==_refl f.org_id,
            ==_refl user_id,
          )
          refl in
      rw (already_created, Customers.get_by_stripe_id, customer, org, member_of, member)
        (ap some (sym same))

-- When the creation of an org for a team checkout has succeeded, a second delivery for the same Stripe customer
-- and user, at any later time and with any name, returns the same org and membership and changes nothing.
pub create_org_with_owner-again :
    (f f' : Fresh) (user_id : Uuid) (name name' t : String) (livemode livemode' : Bool)
    → (db db' : Db) (made : Org × OrgMember)
    → create_org_with_owner f user_id name (some t) livemode db ≡ (ok made, db')
    → create_org_with_owner f' user_id name' (some t) livemode' db' ≡ (ok made, db')
unfolding create_org_with_owner
create_org_with_owner-again f f' user_id name name' t livemode livemode' db db' made h =
    elim (Option-cases (already_created (some t) user_id db)) [
      | inr (found, before) ↦
          let steps : (ok found, db) ≡ (ok made, db') = rw (create_org_with_owner, before) at h in
          let same : found ≡ made = ground arith in
          let kept : db ≡ db' = ap (λ p. p.1) steps in
          let again : already_created (some t) user_id db' ≡ some made =
            subst (λ d. already_created (some t) user_id d ≡ some made) kept
              (before ∙ ap some same) in
          rw (create_org_with_owner, again) refl
      | inl new ↦
          let again =
            found_again f user_id name t livemode (generate_unique_slug f.slugify name db) db db'
              made (rw (create_org_with_owner, new) at h) in
          rw (create_org_with_owner, again) refl
    ]
