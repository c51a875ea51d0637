-- ===== src/Billing/Events.antt =====
-- `DjangoStripeEventRepository` of core/apps/billing/repositories.py.
use text.Mathlib.Text.{◌==◌ as str_eq}
use saasmint.Base.{none, some, String, update_where}
use saasmint.Domain.{StripeEvent, ErrorText}
use saasmint.Database.{Action}
use saasmint.Database.Result.{ok}
use saasmint.Billing.Env.{Env}

unfoldable pub mark_processed : Env → String → Action (Unit {0})
mark_processed e t db = (
  ok tt,
  record db {
    events =
        update_where (λ (r : StripeEvent). str_eq r.stripe_id t)
          (λ r. record r { processed_at = some e.now; error = none }) db.events;
  },
)

unfoldable pub mark_failed : String → ErrorText → Action (Unit {0})
mark_failed t message db = (
  ok tt,
  record db {
    events =
        update_where (λ (r : StripeEvent). str_eq r.stripe_id t)
          (λ r. record r { error = some message }) db.events;
  },
)
