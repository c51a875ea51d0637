-- ===== src/Samples.antt =====
-- Concrete tables, environments and payloads for the examples.
use saasmint.Base.{true, false, none, some, List, [], ◌∷◌}
use saasmint.Domain.{
  Uuid, PlanPrice, Subscription, active, StripeCustomer, Org, OrgMember, owner, admin, member,
  Invitation, pending, User,
}
use saasmint.Json.{Value, num, str, arr, obj, nil, cons, end, entry}
use saasmint.Database.{Db}
use saasmint.Billing.Env.{Texts, Env}

abbrev pub texts : Texts
texts = record {
  parse_uuid = λ t. some 11;
  text_of = λ v. "";
  show_uuid = λ u. "11";
  lower = λ t. t;
}

abbrev pub env : Env
env = record { now = 100; fresh_id = 50; texts = texts }

abbrev pub empty : Db
empty = record {
  plan_prices = [];
  subscriptions = [];
  customers = [];
  events = [];
  products = [];
  credit_transactions = [];
  credit_balances = [];
  orgs = [];
  members = [];
  invitations = [];
  users = [];
  refresh_tokens = [];
  one_time_tokens = [];
  reset_tokens = [];
  social_accounts = [];
  queue = [];
}

abbrev pub customer : StripeCustomer
customer = record {
  id = 3;
  stripe_id = "cus_1";
  user_id = none;
  org_id = some 1;
  livemode = false;
  created_at = 0;
}

abbrev pub subscription : Subscription
subscription = record {
  id = 5;
  stripe_id = some "sub_1";
  stripe_customer_id = some 3;
  user_id = none;
  status = active;
  plan_id = 7;
  seat_limit = 3;
  trial_ends_at = none;
  current_period_start = 10;
  current_period_end = 20;
  canceled_at = none;
  cancel_at = none;
  scheduled_plan_id = none;
  scheduled_change_at = none;
  currency = "usd";
  created_at = 1;
}

abbrev pub plan_price : PlanPrice
plan_price = record { id = 2; plan_id = 7; stripe_price_id = "price_1"; amount = 900 }

abbrev pub org : Org
org = record { id = 1; name = "Acme"; slug = "acme"; created_by = some 11 }

abbrev pub org_member : Uuid → OrgMember
org_member u = record { org_id = 1; user_id = u; role = member; is_billing = false }

-- An org with its owner 11 and its admin 12, and another org that has 12 as a member.
abbrev pub members : List OrgMember
members =
    record (org_member 11) { role = owner; is_billing = true }
    ∷ record (org_member 12) { role = admin }
    ∷ record (org_member 12) { org_id = 2 }
    ∷ org_member 13
    ∷ []

abbrev pub user : Uuid → User
user i = record {
  id = i;
  email = "user@example.com";
  full_name = "A User";
  is_verified = true;
  is_active = true;
  has_password = true;
  password_changed_at = none;
}

abbrev pub invitation : Invitation
invitation = record {
  id = 30;
  org_id = 1;
  email = "new@example.com";
  role = member;
  token = "invite";
  status = pending;
  invited_by = some 11;
  expires_at = 200;
}

abbrev pub db : Db
db = record empty {
  plan_prices = plan_price ∷ [];
  subscriptions = record subscription { seat_limit = 5 } ∷ [];
  customers = customer ∷ [];
  orgs = org ∷ [];
  members = members;
  invitations = invitation ∷ [];
  users = user 11 ∷ user 12 ∷ user 13 ∷ [];
  refresh_tokens =
      record { user_id = 11; token_hash = 6; expires_at = 500; revoked_at = none } ∷ [];
  one_time_tokens = record { user_id = 11; token_hash = 6; expires_at = 500; used_at = none } ∷ [];
}

-- A `customer.subscription.updated` object for the subscription of the table.
abbrev pub subscription_data : Value
subscription_data = obj (
    entry "id" (str "sub_1") (
      entry "customer" (str "cus_1") (
        entry "status" (str "active") (
          entry "items"
            (obj (
              entry "data"
                (arr (
                  cons
                    (obj (
                      entry "price" (obj (entry "id" (str "price_1") end)) (
                        entry "quantity" (num 4) (
                          entry "current_period_start" (num 20)
                            (entry "current_period_end" (num 30) end)))))
                    nil))
                end))
            end))))
