-- ===== src/Users/Tokens/Redeeming.antt =====
-- `_consume_one_time_token` of core/apps/users/authentication.py under concurrent requests. Of a request's
-- two statements only the conditional UPDATE writes, so an interleaving of requests is a sequence of claims.
use saasmint.Base.{
  ℕ, ◌+◌, ◌≤◌, ◌≡◌, refl, inl, inr, Bool, true, false, not, ◌&&◌, some, List, [], ◌∷◌, ◌==◌,
  is_some, any, count, update_where, arith, Bool-cases, one_if, eq_of_==,
}
use saasmint.Domain.{Time, OneTimeToken}
use saasmint.Database.{Db}
use saasmint.Database.Result.{ok, err, Error}
use saasmint.Users.Tokens.{is_claimable, claim_one_time_token}

abbrev is_unused : ℕ → OneTimeToken → Bool
is_unused h t = t.token_hash == h && not (is_some t.used_at)

-- The instant at which each request reads its clock, and the hash of the token that it presents.
abbrev pub Claim : Type 0
Claim = Time × ℕ

-- Which claims of a sequence succeed, for one token.
unfoldable pub claims_won : ℕ → List Claim → Db → ℕ
unfolding claim_one_time_token
claims_won h [] db = 0
claims_won h ((now, g) ∷ claims) db =
    let (r, db') = claim_one_time_token now g db in
    let rest = claims_won h claims db' in elim r [ err x ↦ rest | ok _ ↦ one_if (g == h) + rest ]

claim_keeps_used :
    (h g : ℕ) (now : Time) (rows : List OneTimeToken)
    → any (is_unused h) rows ≡ false
    → any
        (is_unused h)
        (update_where (is_claimable now g) (λ t. record t { used_at = some now }) rows)
      ≡ false
claim_keeps_used h g now [] e = refl
claim_keeps_used h g now (t ∷ rows) e = ground (arith, claim_keeps_used h g now rows)

no_claim :
    (h : ℕ) (now : Time) (rows : List OneTimeToken)
    → any (is_unused h) rows ≡ false
    → any (is_claimable now h) rows ≡ false
no_claim h now [] e = refl
no_claim h now (t ∷ rows) e = ground (arith, no_claim h now rows)

none_left :
    (h : ℕ) (rows : List OneTimeToken)
    → count (λ (t : OneTimeToken). t.token_hash == h) rows ≡ 0
    → any (is_unused h) rows ≡ false
none_left h [] e = refl
none_left h (t ∷ rows) e = ground (arith, none_left h rows)

claim_uses :
    (h : ℕ) (now : Time) (rows : List OneTimeToken)
    → count (λ (t : OneTimeToken). t.token_hash == h) rows ≤ 1
    → any (is_claimable now h) rows ≡ true
    → any
        (is_unused h)
        (update_where (is_claimable now h) (λ t. record t { used_at = some now }) rows)
      ≡ false
claim_uses h now [] c e = refl
claim_uses h now (t ∷ rows) c e = elim (Bool-cases (t.token_hash == h)) [
  | inl same ↦
      let rest = none_left h rows (ground arith) in
      ground (arith, no_claim h now rows, claim_keeps_used h h now rows)
  | inr other ↦ ground (arith, claim_uses h now rows)
]

claim_count :
    (h g : ℕ) (now : Time) (rows : List OneTimeToken)
    → count
        (λ (t : OneTimeToken). t.token_hash == h)
        (update_where (is_claimable now g) (λ t. record t { used_at = some now }) rows)
      ≡ count (λ (t : OneTimeToken). t.token_hash == h) rows
claim_count h g now [] = refl
claim_count h g now (t ∷ rows) = ground (arith, claim_count h g now rows)

abbrev claimed_db : ℕ → Time → Db → Db
claimed_db g now db = record db {
  one_time_tokens =
      update_where (is_claimable now g) (λ t. record t { used_at = some now }) db.one_time_tokens;
}

claim_won :
    (g : ℕ) (now : Time) (db : Db)
    → any (is_claimable now g) db.one_time_tokens ≡ true
    → claim_one_time_token now g db ≡ (ok tt, claimed_db g now db)
unfolding claim_one_time_token
claim_won g now db h = rw h refl

claim_lost :
    (g : ℕ) (now : Time) (db : Db)
    → any (is_claimable now g) db.one_time_tokens ≡ false
    → claim_one_time_token now g db ≡ (err Error.token_used, db)
unfolding claim_one_time_token
claim_lost g now db h = rw h refl

used_never :
    (h : ℕ) (claims : List Claim) (db : Db)
    → any (is_unused h) db.one_time_tokens ≡ false
    → claims_won h claims db ≡ 0
unfolding claims_won
used_never h [] db e = refl
used_never h ((now, g) ∷ claims) db e =
    elim (Bool-cases (any (is_claimable now g) db.one_time_tokens)) [
      | inr no_ ↦
          let rest : claims_won h claims (claim_one_time_token now g db).1 ≡ 0 =
            rw (claim_lost g now db no_) (used_never h claims db e) in
          rw (claims_won, claim_lost g now db no_) rest
      | inl claimed ↦
          let rest : claims_won h claims (claim_one_time_token now g db).1 ≡ 0 =
            rw (claim_won g now db claimed) (
              used_never h claims (claimed_db g now db)
                (claim_keeps_used h g now db.one_time_tokens e)) in
          elim (Bool-cases (g == h)) [
            | inr other ↦ rw (claims_won, claim_won g now db claimed, other) (ground arith)
            | inl same ↦
                let never = no_claim h now db.one_time_tokens e in
                let one : g ≡ h = eq_of_== g h same in
                let yes_ : any (is_claimable now h) db.one_time_tokens ≡ true =
                  rw (← one) claimed in
                ground arith
          ]
    ]

-- However many requests present a token, and in whatever order their updates run, at most one claims it.
pub claims_won-at_most_one :
    (h : ℕ) (claims : List Claim) (db : Db)
    → count (λ (t : OneTimeToken). t.token_hash == h) db.one_time_tokens ≤ 1
    → claims_won h claims db ≤ 1
unfolding claims_won
claims_won-at_most_one h [] db c = omega arith
claims_won-at_most_one h ((now, g) ∷ claims) db c =
    elim (Bool-cases (any (is_claimable now g) db.one_time_tokens)) [
      | inr no_ ↦
          let rest : claims_won h claims (claim_one_time_token now g db).1 ≤ 1 =
            rw (claim_lost g now db no_) (claims_won-at_most_one h claims db c) in
          rw (claims_won, claim_lost g now db no_) rest
      | inl claimed ↦ elim (Bool-cases (g == h)) [
        | inr other ↦
            let rest : claims_won h claims (claim_one_time_token now g db).1 ≤ 1 =
              rw (claim_won g now db claimed) (
                claims_won-at_most_one h claims (claimed_db g now db)
                  (rw (claim_count h g now db.one_time_tokens) c)) in
            rw (claims_won, claim_won g now db claimed, other) (ground arith)
        | inl same ↦
            let one : g ≡ h = eq_of_== g h same in
            let yes_ : any (is_claimable now h) db.one_time_tokens ≡ true = rw (← one) claimed in
            let gone : any (is_unused h) (claimed_db g now db).one_time_tokens ≡ false =
              rw one (claim_uses h now db.one_time_tokens c yes_) in
            let rest : claims_won h claims (claim_one_time_token now g db).1 ≡ 0 =
              rw (claim_won g now db claimed) (used_never h claims (claimed_db g now db) gone) in
            rw (claims_won, claim_won g now db claimed, same) (ground arith)
      ]
    ]
