-- ===== src/Billing/Credits/Ledger.antt =====
-- The balances are the sums of the ledger, and each session is granted once.
use text.Mathlib.Text.{◌==◌ as str_eq}
use text.Mathlib.TextPositions.{eq_refl}
use mathlib.Core.Path.{subst}
use saasmint.Base.{
  ℕ, ◌+◌, ◌≡◌, refl, Bool, true, false, Option, none, some, List, [], ◌∷◌, ◌++◌, String, ◌==◌,
  if◌then◌else◌, is_some, any, any-append, find, find-append, arith, inl, inr, Bool-cases,
  Option-cases, ==_refl, eq_of_==, ap, ◌&&◌, find-update_where, find-eq-some, find-not-any, ◌≢◌,
}
use saasmint.Domain.{Uuid, CreditTransaction, CreditBalance}
use saasmint.Database.{Db}
use saasmint.Database.Result.{ok, Result-cases}
use saasmint.Billing.Credits.{
  Owner, user, org, owns, user_of, org_of, owner_of, has_session, balance_of_owner, new_balance,
  with_balance, add_to_balance, grant_in_transaction, grant_credits_for_session,
}

abbrev pub balance_of : Owner → List CreditBalance → ℕ
balance_of w rows = elim (find (balance_of_owner w) rows) [ none ↦ 0 | some b ↦ b.balance ]

abbrev pub granted_to : Owner → List CreditTransaction → ℕ
granted_to w [] = 0
granted_to w (t ∷ rows) = (if owns w t.user_id t.org_id then t.amount else 0) + granted_to w rows

-- Every owner's balance is what the ledger grants.
abbrev pub IsBalanced : Db → Type 0
IsBalanced db = (w : Owner) → balance_of w db.credit_balances ≡ granted_to w db.credit_transactions

-- No balance row has both a user and an org, as the table's check constraint has it.
abbrev pub two_owners : CreditBalance → Bool
two_owners b = is_some b.user_id && is_some b.org_id

abbrev pub HaveOneOwner : List CreditBalance → Type 0
HaveOneOwner rows = any two_owners rows ≡ false

granted_to-append :
    (w : Owner) (xs ys : List CreditTransaction)
    → granted_to w (xs ++ ys) ≡ granted_to w xs + granted_to w ys
granted_to-append w [] ys = omega arith
granted_to-append w (t ∷ xs) ys = omega (arith, granted_to-append w xs ys)

abbrev share : Owner → Owner → ℕ → ℕ
share w v amount = if owns v (user_of w) (org_of w) then amount else 0

share-same : (w v : Owner) → owns v (user_of w) (org_of w) ≡ true → w ≡ v
share-same (user u) (user u') h = ap user (eq_of_== u u' h)
share-same (user u) (org o) h = cc
share-same (org o) (user u) h = cc
share-same (org o) (org o') h = ap org (eq_of_== o o' h)

share_self : (w : Owner) → owns w (user_of w) (org_of w) ≡ true
share_self (user u) = ==_refl u
share_self (org o) = ==_refl o

-- A row of `v` is no row of another owner.
one_owner :
    (w v : Owner) (b : CreditBalance)
    → two_owners b ≡ false
    → owns v (user_of w) (org_of w) ≡ false
    → balance_of_owner v b ≡ true
    → balance_of_owner w b ≡ false
one_owner (user u) (user u') b one h k = ground arith
one_owner (user u) (org o) b one h k = ground arith
one_owner (org o) (user u) b one h k = ground arith
one_owner (org o) (org o') b one h k = ground arith

find-with_balance_self :
    (w : Owner) (rows : List CreditBalance)
    → (b : CreditBalance) × (find (balance_of_owner w) (with_balance w rows) ≡ some b)
      × (b.balance ≡ balance_of w rows)
unfolding with_balance
find-with_balance_self w rows = elim (Option-cases (find (balance_of_owner w) rows)) [
  | inr (b, there) ↦ (b, ground (arith, there), ground (arith, there))
  | inl absent ↦ (
    new_balance w,
    ground
        (arith, absent, share_self w, find-append (balance_of_owner w) rows (new_balance w ∷ [])),
    ground (arith, absent),
  )
]

find-with_balance_other :
    (w v : Owner) (rows : List CreditBalance)
    → owns v (user_of w) (org_of w) ≡ false
    → find (balance_of_owner v) (with_balance w rows) ≡ find (balance_of_owner v) rows
unfolding with_balance
find-with_balance_other w v rows h = ground (
  arith,
  find-append (balance_of_owner v) rows (new_balance w ∷ []),
  Option-cases (find (balance_of_owner v) rows),
)

abbrev raised : ℕ → CreditBalance → CreditBalance
raised amount b = record b { balance = b.balance + amount }

balance_of-grant_self :
    (w : Owner) (amount : ℕ) (rows : List CreditBalance)
    → balance_of w (add_to_balance w amount (with_balance w rows)) ≡ balance_of w rows + amount
unfolding add_to_balance
balance_of-grant_self w amount rows =
    let shift =
      find-update_where (balance_of_owner w) (balance_of_owner w) (raised amount)
        (with_balance w rows) (λ b. refl) in
    let (b, there, old) = find-with_balance_self w rows in
    let mine = find-eq-some (balance_of_owner w) (with_balance w rows) b there in
    ground (arith, shift, there, old, mine)

balance_of-grant_other :
    (w v : Owner) (amount : ℕ) (rows : List CreditBalance)
    → HaveOneOwner rows
    → owns v (user_of w) (org_of w) ≡ false
    → balance_of v (add_to_balance w amount (with_balance w rows)) ≡ balance_of v rows
unfolding add_to_balance
balance_of-grant_other w v amount rows one other =
    let shift =
      find-update_where (balance_of_owner v) (balance_of_owner w) (raised amount)
        (with_balance w rows) (λ b. refl) in
    let kept = find-with_balance_other w v rows other in
    elim (Option-cases (find (balance_of_owner v) rows)) [
      | inl absent ↦ ground (arith, shift, kept, absent)
      | inr (b, there) ↦
          let mine = find-eq-some (balance_of_owner v) rows b there in
          let single = find-not-any (balance_of_owner v) two_owners rows b there one in
          ground (arith, shift, kept, there, one_owner w v b single other mine)
    ]

-- A grant raises the balance of its owner by its amount, and no other.
balance_of-grant :
    (w v : Owner) (amount : ℕ) (rows : List CreditBalance)
    → HaveOneOwner rows
    → balance_of v (add_to_balance w amount (with_balance w rows))
      ≡ balance_of v rows + share w v amount
balance_of-grant w v amount rows one = elim (Bool-cases (owns v (user_of w) (org_of w))) [
  | inl same ↦
      let e : w ≡ v = share-same w v same in
      rw same (
        subst
          (λ u.
            balance_of u (add_to_balance w amount (with_balance w rows))
            ≡ balance_of u rows + amount)
          e (balance_of-grant_self w amount rows))
  | inr other ↦ ground (arith, other, balance_of-grant_other w v amount rows one other)
]

HaveOneOwner-grant :
    (w : Owner) (amount : ℕ) (rows : List CreditBalance)
    → HaveOneOwner rows
    → HaveOneOwner (add_to_balance w amount rows)
unfolding add_to_balance
HaveOneOwner-grant w amount [] one = refl
HaveOneOwner-grant w amount (b ∷ rows) one = ground (arith, HaveOneOwner-grant w amount rows)

HaveOneOwner-with_balance :
    (w : Owner) (rows : List CreditBalance) → HaveOneOwner rows → HaveOneOwner (with_balance w rows)
unfolding with_balance
HaveOneOwner-with_balance (user u) rows one =
    ground (arith, any-append two_owners rows (new_balance (user u) ∷ []))
HaveOneOwner-with_balance (org o) rows one =
    ground (arith, any-append two_owners rows (new_balance (org o) ∷ []))

-- The ledger agrees with the balances.
pub record IsAudited (db : Db) : Type 0 where
  pub balanced : IsBalanced db
  pub one_owner : HaveOneOwner db.credit_balances

grant_in_transaction-IsAudited :
    (session : String) (amount : ℕ) (reason : String) (w : Owner) (db : Db)
    → IsAudited db
    → IsAudited (grant_in_transaction session amount reason w db).1
unfolding grant_in_transaction
grant_in_transaction-IsAudited session amount reason w db h =
    elim (Bool-cases (has_session session db.credit_transactions)) [
      | inl old ↦ rw (grant_in_transaction, old) h
      | inr new ↦
          rw (grant_in_transaction, new)
            (record {
              balanced = λ v. omega (
                arith,
                balance_of-grant w v amount db.credit_balances h.one_owner,
                h.balanced v,
                granted_to-append v db.credit_transactions (
                    (record {
                      user_id = user_of w;
                      org_id = org_of w;
                      amount = amount;
                      reason = reason;
                      stripe_session_id = session;
                    })
                    ∷ []),
              );
              one_owner =
                  HaveOneOwner-grant w amount (with_balance w db.credit_balances)
                    (HaveOneOwner-with_balance w db.credit_balances h.one_owner);
            })
    ]

owner_of-names : (w : Owner) → owner_of (user_of w) (org_of w) ≡ ok w
unfolding owner_of
owner_of-names (user u) = refl
owner_of-names (org o) = refl

grant_in_transaction-records :
    (session : String) (amount : ℕ) (reason : String) (w : Owner) (db db' : Db)
    → grant_in_transaction session amount reason w db ≡ (ok true, db')
    → has_session session db'.credit_transactions ≡ true
unfolding grant_in_transaction
grant_in_transaction-records session amount reason w db db' h = ground (
  arith,
  eq_refl session,
  any-append (λ (t : CreditTransaction). str_eq t.stripe_session_id session) db.credit_transactions
      ((record {
        user_id = user_of w;
        org_id = org_of w;
        amount = amount;
        reason = reason;
        stripe_session_id = session;
      })
        ∷ []),
)

grant_in_transaction-skips :
    (session : String) (amount : ℕ) (reason : String) (w : Owner) (db : Db)
    → has_session session db.credit_transactions ≡ true
    → grant_in_transaction session amount reason w db ≡ (ok false, db)
unfolding grant_in_transaction
grant_in_transaction-skips session amount reason w db h = rw (grant_in_transaction, h)

-- Whatever the arguments are, and whether it grants, skips or raises, `grant_credits_for_session` keeps
-- every balance equal to the sum of its owner's ledger rows.
pub grant_credits_for_session-IsAudited :
    (session : String) (amount : ℕ) (reason : String) (user_id org_id : Option Uuid) (db : Db)
    → IsAudited db
    → IsAudited (grant_credits_for_session session amount reason user_id org_id db).1
unfolding grant_credits_for_session
grant_credits_for_session-IsAudited session amount reason user_id org_id db h =
    elim (Result-cases (owner_of user_id org_id)) [
      | inr (x, failed) ↦ rw (grant_credits_for_session, failed) h
      | inl (w, named) ↦ elim (Bool-cases (amount == 0)) [
        | inl nothing ↦ rw (grant_credits_for_session, named, nothing) h
        | inr some_amount ↦
            rw (grant_credits_for_session, named, some_amount)
              (grant_in_transaction-IsAudited session amount reason w db h)
      ]
    ]

-- Once a session was granted, a second grant for it, of whatever amount that is not zero and to whatever owner,
-- is skipped: it returns false and changes nothing.
pub grant_credits_for_session-again :
    (session : String) (amount amount' : ℕ) (reason reason' : String) (w w' : Owner) (db db' : Db)
    → grant_credits_for_session session amount reason (user_of w) (org_of w) db ≡ (ok true, db')
    → amount' ≢ 0
    → grant_credits_for_session session amount' reason' (user_of w') (org_of w') db'
      ≡ (ok false, db')
unfolding grant_credits_for_session
grant_credits_for_session-again session amount amount' reason reason' w w' db db' h pos = ground (
  arith,
  owner_of-names w,
  owner_of-names w',
  grant_in_transaction-records session amount reason w db db',
  grant_in_transaction-skips session amount' reason' w' db',
)
