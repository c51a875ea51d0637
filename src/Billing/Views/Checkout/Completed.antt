-- ===== src/Billing/Views/Checkout/Completed.antt =====
-- From a checkout to its webhook: what the completed session of a checkout carries back to its callback.
use saasmint.Base.{true, false, ap, sym, ◌≡◌, refl, Bool, Option, none, some, String}
use saasmint.Domain.{Uuid, team}
use saasmint.Json.{Value, str, obj, Entries, end, entry}
use saasmint.Json.Access.{get, get_default, truthy, or_else, equals_text, lookup}
use saasmint.Database.{Db}
use saasmint.Database.Result.{Result, ok}
use saasmint.Billing.Env.{Env, to_text, to_uuid}
use saasmint.Billing.Views.Checkout.{purchase_metadata, build_checkout_metadata}
use saasmint.Billing.Webhooks.Checkout.{
  OnTeamCheckout, OnProductCheckout, on_checkout_completed, on_product_checkout_completed,
  read_product_checkout, read_team_checkout,
}

-- The session of a `checkout.session.completed` event, with the metadata that its creation sent.
abbrev pub completed :
    (mode id client : String) → (customer subscription livemode : Value) → Entries → Value
completed mode id client customer subscription livemode metadata = obj (
    entry "mode" (str mode) (
      entry "id" (str id) (
        entry "client_reference_id" (str client) (
          entry "customer" customer (
            entry "subscription" subscription
              (entry "livemode" livemode (entry "metadata" (obj metadata) end)))))))

-- The entries that were sent.
abbrev entries_of : Entries → Result (Option Entries) → Entries
entries_of d (ok (some r)) = r
entries_of d r = d

module _ (e : Env) (round : (v : Uuid) → e.texts.parse_uuid (e.texts.show_uuid v) ≡ some v)
    (shown : (v : Uuid) → truthy (str (e.texts.show_uuid v)) ≡ true) where
  -- Where the texts of UUIDs are read back as them and are not empty, the completed session of a product
  -- checkout, whose metadata is the one that the checkout sent, gives the callback for products the session,
  -- the product, the user and the org, if any, of the checkout.
  pub on_checkout_completed-purchase_metadata :
      (on_team : Option OnTeamCheckout) (f : OnProductCheckout) (id : String)
      → (customer subscription livemode : Value) (u p : Uuid) (org : Option Uuid) (db : Db)
      → truthy (str id) ≡ true
      → on_checkout_completed e on_team
          (some f)
          (completed "payment" id
            (e.texts.show_uuid u)
            customer
            subscription
            livemode
            (purchase_metadata e.texts p org))
          db
        ≡ f (record { stripe_session_id = id; product_id = p; user_id = u; org_id = org }) db
  unfolding truthy on_checkout_completed on_product_checkout_completed read_product_checkout get
      get_default lookup or_else to_uuid to_text equals_text purchase_metadata
  on_checkout_completed-purchase_metadata on_team f id customer subscription livemode u p none db
        i =
      rw (i, shown p, shown u, to_uuid, round p, round u) refl
  on_checkout_completed-purchase_metadata on_team f id customer subscription livemode u p (some o)
        db i =
      rw (i, shown p, shown u, to_uuid, round p, round u, shown o, round o) refl

  -- Where the texts of UUIDs are read back as them and are not empty, the completed session of a team
  -- checkout with a name and a customer that are not empty, whose metadata is the one that the checkout
  -- sent, gives the callback for teams the user, the name and the choice about the personal subscription
  -- that were sent, with the customer, the subscription and the mode of the session.
  pub on_checkout_completed-build_checkout_metadata :
      (on_product : Option OnProductCheckout) (f : OnTeamCheckout)
      → (id name cus : String) (subscription livemode : Value) (u : Uuid) (kept : Bool) (db : Db)
      → (sent : Entries) → build_checkout_metadata team (some name) kept ≡ ok (some sent)
      → truthy (str name) ≡ true
      → truthy (str cus) ≡ true
      → on_checkout_completed e
          (some f)
          on_product
          (completed "subscription" id (e.texts.show_uuid u) (str cus) subscription livemode sent)
          db
        ≡ f
            (record {
              user_id = u;
              org_name = str name;
              stripe_customer_id = cus;
              livemode = livemode;
              subscription_id = subscription;
              keep_personal = kept;
            })
            db
  unfolding truthy on_checkout_completed read_team_checkout get get_default lookup or_else to_uuid
      to_text equals_text build_checkout_metadata
  on_checkout_completed-build_checkout_metadata on_product f id name cus subscription livemode u
        true db sent b n c =
      rw (sym (ap (entries_of end) b), n, shown u, to_uuid, round u, c) refl
  on_checkout_completed-build_checkout_metadata on_product f id name cus subscription livemode u
        false db sent b n c =
      rw (sym (ap (entries_of end) b), n, shown u, to_uuid, round u, c) refl
