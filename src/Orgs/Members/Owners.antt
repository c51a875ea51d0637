-- ===== src/Orgs/Members/Owners.antt =====
-- The owners of the orgs under the operations of Orgs/Members: what a change of one membership row does
-- to a count, and the number of the owners of an org.
use saasmint.Base.{
  ℕ, ◌+◌, ◌≡◌, refl, ◌∙◌, inl, inr, Bool, false, ◌&&◌, Option, none, some, List, [], ◌∷◌, ◌==◌,
  if◌then◌else◌, find, any, count, update_where, one_if, arith, Bool-cases, Option-cases,
  find-eq-some, update_where-not-any, find-update_where,
}
use saasmint.Domain.{Uuid, OrgMember, OrgRole}
use saasmint.Orgs.Roles.{is_owner}
use saasmint.Orgs.Members.{is_membership}

-- No two rows with one org and one user: the constraint `org_members_org_user_uniq`.
unfoldable pub IsDistinct : List OrgMember → Type 0
IsDistinct [] = Unit
IsDistinct (m ∷ rows) = (any (is_membership m.org_id m.user_id) rows ≡ false) × IsDistinct rows

abbrev pub owns_org : Uuid → OrgMember → Bool
owns_org o m = m.org_id == o && is_owner m.role

-- The number of the owners of an org.
unfoldable pub owners : Uuid → List OrgMember → ℕ
owners o rows = count (owns_org o) rows

pub count-update_member :
    (p : OrgMember → Bool) (f : OrgMember → OrgMember) (o u : Uuid) (rows : List OrgMember)
    (a : OrgMember)
    → IsDistinct rows
    → find (is_membership o u) rows ≡ some a
    → count p (update_where (is_membership o u) f rows) + one_if (p a)
      ≡ count p rows + one_if (p (f a))
unfolding IsDistinct
count-update_member p f o u [] a d e = ground arith
count-update_member p f o u (x ∷ rows) a (h, d) e = elim (Bool-cases (is_membership o u x)) [
  | inl found ↦
      let here : x ≡ a = ground arith in
      let same_org : x.org_id ≡ o = ground arith in
      let same_user : x.user_id ≡ u = ground arith in
      let alone : any (is_membership o u) rows ≡ false = rw (same_org, same_user) at h in
      rw (found, update_where-not-any (is_membership o u) f rows alone, ← here) (ground arith)
  | inr other ↦ ground (arith, count-update_member p f o u rows a d)
]

-- The row that `save_member` writes.
abbrev pub with_role : OrgRole → Bool → OrgMember → OrgMember
with_role r b m = record m { role = r; is_billing = b }

pub any-with_role :
    (o u v w : Uuid) (r : OrgRole) (b : Bool) (rows : List OrgMember)
    → any (is_membership v w) (update_where (is_membership o u) (with_role r b) rows)
      ≡ any (is_membership v w) rows
any-with_role o u v w r b [] = refl
any-with_role o u v w r b (x ∷ rows) = ground (arith, any-with_role o u v w r b rows)

pub with_role-IsDistinct :
    (o u : Uuid) (r : OrgRole) (b : Bool) (rows : List OrgMember)
    → IsDistinct rows
    → IsDistinct (update_where (is_membership o u) (with_role r b) rows)
unfolding IsDistinct
with_role-IsDistinct o u r b [] d = tt
with_role-IsDistinct o u r b (x ∷ rows) (h, d) = elim (Bool-cases (is_membership o u x)) [
  | inl found ↦
      rw found
        ((any-with_role o u x.org_id x.user_id r b rows ∙ h), with_role-IsDistinct o u r b rows d)
  | inr other ↦
      rw other
        ((any-with_role o u x.org_id x.user_id r b rows ∙ h), with_role-IsDistinct o u r b rows d)
]

pub find-with_role :
    (o u v w : Uuid) (r : OrgRole) (b : Bool) (rows : List OrgMember)
    → find (is_membership v w) (update_where (is_membership o u) (with_role r b) rows)
      ≡ (elim (find (is_membership v w) rows) as (λ _. Option OrgMember) [
        | none ↦ none
        | some m ↦ some (if is_membership o u m then with_role r b m else m)
      ])
find-with_role o u v w r b rows =
    find-update_where (is_membership v w) (is_membership o u) (with_role r b) rows λ x. refl

pub with_role-other :
    (o u v w : Uuid) (r : OrgRole) (b : Bool) (rows : List OrgMember)
    → (v == o && w == u) ≡ false
    → find (is_membership v w) (update_where (is_membership o u) (with_role r b) rows)
      ≡ find (is_membership v w) rows
with_role-other o u v w r b rows other = elim (Option-cases (find (is_membership v w) rows)) [
  | inl missing ↦ rw (find-with_role o u v w r b rows, missing) refl
  | inr (m, found) ↦
      let key = find-eq-some (is_membership v w) rows m found in
      rw (find-with_role o u v w r b rows, found) (ground arith)
]
