-- ===== src/Billing/Views/Context.antt =====
-- The context and the org that `_resolve_mutation_context` returns are ones that the user may change.
use mathlib.Core.Path.{subst}
use saasmint.Base.{
  ◌≡◌, refl, ap, sym, ◌∙◌, Bool, true, ◌&&◌, Option, none, some, List, [], ◌∷◌, String, keep, any,
  arith, ◌⊎◌, inl, inr, Bool-cases, Option-cases, ◌==◌,
}
use saasmint.Domain.{PlanContext, personal, team, Uuid, OrgMember}
use saasmint.Database.{Db}
use saasmint.Database.Result.{ok, Result-cases}
use saasmint.Billing.Views.{
  Keys, first, is_of_user, is_billing_of_user, default_mutation_context, require_billing_authority,
  validate_subscription_context, resolve_mutation_context,
}

-- Whether the user is a billing member of the org.
abbrev pub bills : (org_id user_id : Uuid) → List OrgMember → Bool
bills o u = any (λ (m : OrgMember). m.org_id == o && is_billing_of_user u m)

-- It is the first of the rows, or the one of the others.
first-first :
    (key : Keys) (p : OrgMember → Bool) (r : OrgMember) (rows : List OrgMember) (m : OrgMember)
    → first key (keep p (r ∷ rows)) ≡ some m
    → ((r ≡ m) × (p r ≡ true)) ⊎ (first key (keep p rows) ≡ some m)
unfolding first
first-first key p r rows m h = elim (Option-cases (first key (keep p rows))) [
  | inl empty ↦ ground arith
  | inr (x, there) ↦ ground arith
]

first-holds :
    (key : Keys) (p : OrgMember → Bool) (rows : List OrgMember) (m : OrgMember)
    → first key (keep p rows) ≡ some m
    → p m ≡ true
unfolding first
first-holds key p [] m h = ground arith
first-holds key p (r ∷ rows) m h = elim (first-first key p r rows m h) [
  | inl (same, its) ↦ ap p (sym same) ∙ its
  | inr there ↦ first-holds key p rows m there
]

-- It is a row of the table.
first-any :
    (key : Keys) (p q : OrgMember → Bool) (rows : List OrgMember) (m : OrgMember)
    → first key (keep p rows) ≡ some m
    → q m ≡ true
    → any q rows ≡ true
unfolding first
first-any key p q [] m h holds = ground arith
first-any key p q (r ∷ rows) m h holds = elim (first-first key p r rows m h) [
  | inl (same, its) ↦ let here : q r ≡ true = ap q same ∙ holds in rw here refl
  | inr there ↦ let found = first-any key p q rows m there holds in ground arith
]

first-bills :
    (key : Keys) (p : OrgMember → Bool) (u : Uuid) (rows : List OrgMember) (m : OrgMember)
    → first key (keep p rows) ≡ some m
    → (m.user_id == u) ≡ true
    → m.is_billing ≡ true
    → bills m.org_id u rows ≡ true
first-bills key p u rows m h its pays =
    first-any key p (λ x. x.org_id == m.org_id && is_billing_of_user u x) rows m h (ground arith)

-- The context is personal, or the org is one that the user is a billing member of.
abbrev pub MayMutate : Uuid → Db → PlanContext × Option Uuid → Type 0
MayMutate u db (context, org) =
    (context ≡ personal)
    ⊎ ((o : Uuid) × (context ≡ team) × (org ≡ some o) × (bills o u db.members ≡ true))

require_billing_authority-MayMutate :
    (key : Keys) (u : Uuid) (context : PlanContext) (org : Option Uuid) (db : Db)
    → require_billing_authority key u context db ≡ ok org
    → MayMutate u db (context, org)
unfolding require_billing_authority
require_billing_authority-MayMutate key u personal org db h = inl refl
require_billing_authority-MayMutate key u team org db h =
    elim (Option-cases (first key (keep (is_billing_of_user u) db.members))) [
      | inl missing ↦ ground arith
      | inr (m, there) ↦
          let its = first-holds key (is_billing_of_user u) db.members m there in
          inr (
            m.org_id,
            refl,
            ground arith,
            first-bills key (is_billing_of_user u) u db.members m there (ground arith)
                (ground arith),
          )
    ]

default_mutation_context-MayMutate :
    (key : Keys) (u : Uuid) (out : PlanContext × Option Uuid) (db : Db)
    → default_mutation_context (first key (keep (is_of_user u) db.members)) ≡ ok out
    → MayMutate u db out
unfolding default_mutation_context
default_mutation_context-MayMutate key u (context, org) db h =
    elim (Option-cases (first key (keep (is_of_user u) db.members))) [
      | inl missing ↦ inl (ground arith)
      | inr (m, there) ↦
          let its = first-holds key (is_of_user u) db.members m there in
          elim (Bool-cases m.is_billing) [
            | inr unpaid ↦ ground arith
            | inl pays ↦ inr (
              m.org_id,
              ground arith,
              ground arith,
              first-bills key (is_of_user u) u db.members m there its pays,
            )
          ]
    ]

pub resolve_mutation_context-MayMutate :
    (key : Keys) (u : Uuid) (query : Option String) (out : PlanContext × Option Uuid) (db : Db)
    → resolve_mutation_context key u query db ≡ ok out
    → MayMutate u db out
unfolding resolve_mutation_context
resolve_mutation_context-MayMutate key u query out db h =
    elim (Result-cases (validate_subscription_context query)) [
      | inr (x, invalid) ↦ ground arith
      | inl (none, absent) ↦ default_mutation_context-MayMutate key u out db (ground arith)
      | inl (some c, given) ↦ elim (Result-cases (require_billing_authority key u c db)) [
        | inr (x, refused) ↦ ground arith
        | inl (org, allowed) ↦
            let same : (c, org) ≡ out = ground arith in
            subst (MayMutate u db) same (require_billing_authority-MayMutate key u c org db allowed)
      ]
    ]
