-- ===== src/Orgs/Checkout/Examples.antt =====
-- The theorems about slugs and team checkouts at the small tables.
use saasmint.Orgs.Slugs.{candidate}
use saasmint.Orgs.Slugs.{matches}
use saasmint.Base.{◌≡◌, refl, true, false, some, String}
use saasmint.Database.{Db}
use saasmint.Database.Result.{ok}
use saasmint.Samples.{db}
use saasmint.Orgs.Slugs.{generate_unique_slug}
use saasmint.Orgs.Slugs.Unique.{generate_unique_slug-returns}
use saasmint.Orgs.Checkout.{Fresh, new_org, first_member, create_org_with_owner}
use saasmint.Orgs.Checkout.Again.{create_org_with_owner-again}

abbrev fresh : Fresh
fresh = record { org_id = 40; customer_id = 41; now = 100; slugify = λ t. t }

generate_unique_slug-returns_example :
    (s : String) × (generate_unique_slug (λ t. t) "acme" db ≡ some s)
generate_unique_slug-returns_example = generate_unique_slug-returns (λ t. t) "acme" db

abbrev created : Db
created = (create_org_with_owner fresh 14 "acme" (some "cus_9") false db).1

create_org_with_owner-again_example :
    create_org_with_owner (record fresh { org_id = 60 }) 14 "Other" (some "cus_9") true created
    ≡ (ok (new_org fresh 14 "acme" "acme-2", first_member fresh 14), created)
unfolding create_org_with_owner matches candidate
create_org_with_owner-again_example =
    create_org_with_owner-again fresh (record fresh { org_id = 60 }) 14 "acme" "Other" "cus_9" false
      true db created (new_org fresh 14 "acme" "acme-2", first_member fresh 14) refl
