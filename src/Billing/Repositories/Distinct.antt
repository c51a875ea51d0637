-- ===== src/Billing/Repositories/Distinct.antt =====
-- The keys of the subscription table: no two rows share an id or a `stripe_id`, and `save` keeps it so.
use text.Mathlib.Text.{◌==◌ as str_eq}
use text.Mathlib.TextEquality.{eq_iff}
use text.Mathlib.TextPositions.{eq_refl}
use mathlib.Core.Path.{subst}
use saasmint.Base.{
  ◌≡◌, refl, Bool, true, false, not, ◌&&◌, Option, none, some, List, [], ◌∷◌, ◌++◌, String, ◌==◌,
  if◌then◌else◌, any, find, update_where, arith, inl, inr, Bool-cases, eq_of_==, any-append,
}
use saasmint.Domain.{Uuid, Time, Subscription}
use saasmint.Billing.Repositories.{has_text, clashes, put_row}

abbrev pub has_id : Uuid → Subscription → Bool
has_id i r = r.id == i

abbrev pub clashes_with : Subscription → Subscription → Bool
clashes_with s r = clashes s.stripe_id r.stripe_id

-- The clash that `save` looks for: with a row other than the one to be replaced.
abbrev pub clashes_elsewhere : Subscription → Subscription → Bool
clashes_elsewhere s r = not (r.id == s.id) && clashes_with s r

abbrev pub IsDistinct : List Subscription → Type 0
IsDistinct [] = Unit {0}
IsDistinct (r ∷ rows) =
    (any (has_id r.id) rows ≡ false) × (any (clashes_with r) rows ≡ false) × IsDistinct rows

str_eq_comm : (a b : String) → str_eq a b ≡ str_eq b a
str_eq_comm a b = ground (arith, eq_iff a b, eq_iff b a)

pub clashes_comm : (a b : Option String) → clashes a b ≡ clashes b a
clashes_comm none none = refl
clashes_comm none (some b) = refl
clashes_comm (some a) none = refl
clashes_comm (some a) (some b) = str_eq_comm b a

-- The creation time of the row with this id, or `now` where there is none.
unfoldable pub created_time : Time → Uuid → List Subscription → Time
created_time now i [] = now
created_time now i (r ∷ rows) = if has_id i r then r.created_at else created_time now i rows

-- The row that `save` leaves behind: the given one, with the creation time of the row that it replaces.
abbrev pub stored : Time → Subscription → List Subscription → Subscription
stored now s rows = record s { created_at = created_time now s.id rows }

module _ (now : Time) (s : Subscription) where
  abbrev replace : Subscription → Subscription
  replace r = record s { created_at = r.created_at }

  abbrev replaced : List Subscription → List Subscription
  replaced rows = update_where (has_id s.id) replace rows

  -- An update of no row changes nothing.
  replaced-absent :
      (rows : List Subscription) → any (has_id s.id) rows ≡ false → replaced rows ≡ rows
  replaced-absent [] h = refl
  replaced-absent (r ∷ rows) h = ground (arith, replaced-absent rows)

  any-has_id-replaced :
      (i : Uuid) (rows : List Subscription) → any (has_id i) (replaced rows) ≡ any (has_id i) rows
  any-has_id-replaced i [] = refl
  any-has_id-replaced i (r ∷ rows) = ground (arith, any-has_id-replaced i rows)

  clashes-replaced :
      (y : Subscription) (rows : List Subscription)
      → any (clashes_with y) rows ≡ false
      → clashes_with s y ≡ false
      → any (clashes_with y) (replaced rows) ≡ false
  clashes-replaced y [] h k = refl
  clashes-replaced y (r ∷ rows) h k =
      ground (arith, clashes-replaced y rows, clashes_comm s.stripe_id y.stripe_id)

  no_clash :
      (rows : List Subscription)
      → any (has_id s.id) rows ≡ false
      → any (clashes_elsewhere s) rows ≡ false
      → any (clashes_with s) rows ≡ false
  no_clash [] h k = refl
  no_clash (r ∷ rows) h k = ground (arith, no_clash rows)

  replaced-IsDistinct :
      (rows : List Subscription)
      → IsDistinct rows
      → any (clashes_elsewhere s) rows ≡ false
      → IsDistinct (replaced rows)
  replaced-IsDistinct [] d k = tt
  replaced-IsDistinct (r ∷ rows) d k = elim (Bool-cases (has_id s.id r)) [
    | inl same ↦
        let gone = subst (λ i. any (has_id i) rows ≡ false) (eq_of_== r.id s.id same) d.0 in
        ground (arith, replaced-absent rows gone, no_clash rows gone)
    | inr other ↦ ground (
      arith,
      any-has_id-replaced r.id rows,
      clashes-replaced r rows d.1,
      clashes_comm s.stripe_id r.stripe_id,
      replaced-IsDistinct rows d.2,
    )
  ]

  appended-IsDistinct :
      (rows : List Subscription)
      → IsDistinct rows
      → any (has_id s.id) rows ≡ false
      → any (clashes_elsewhere s) rows ≡ false
      → IsDistinct (rows ++ (record s { created_at = now }) ∷ [])
  appended-IsDistinct [] d h k = (refl, refl, tt)
  appended-IsDistinct (r ∷ rows) d h k = ground (
    arith,
    any-append (has_id r.id) rows ((record s { created_at = now }) ∷ []),
    any-append (clashes_with r) rows ((record s { created_at = now }) ∷ []),
    clashes_comm s.stripe_id r.stripe_id,
    appended-IsDistinct rows d.2,
  )

  pub put_row-IsDistinct :
      (rows : List Subscription)
      → IsDistinct rows
      → any (clashes_elsewhere s) rows ≡ false
      → IsDistinct (put_row now s rows)
  unfolding put_row
  put_row-IsDistinct rows d k = elim (Bool-cases (any (has_id s.id) rows)) [
    | inl old ↦ rw old (replaced-IsDistinct rows d k)
    | inr new ↦ rw new (appended-IsDistinct rows d new k)
  ]

  find-replaced :
      (t : String) (rows : List Subscription)
      → s.stripe_id ≡ some t
      → any (has_id s.id) rows ≡ true
      → IsDistinct rows
      → any (clashes_elsewhere s) rows ≡ false
      → find (λ r. has_text t r.stripe_id) (replaced rows) ≡ some (stored now s rows)
  unfolding created_time
  find-replaced t [] e old d k = ground arith
  find-replaced t (r ∷ rows) e old d k =
      ground (arith, find-replaced t rows e, clashes_comm s.stripe_id r.stripe_id, eq_refl t)

  find-appended :
      (t : String) (rows : List Subscription)
      → s.stripe_id ≡ some t
      → any (has_id s.id) rows ≡ false
      → any (clashes_elsewhere s) rows ≡ false
      → find (λ r. has_text t r.stripe_id) (rows ++ (record s { created_at = now }) ∷ [])
        ≡ some (stored now s rows)
  unfolding created_time
  find-appended t [] e new k = ground (arith, eq_refl t)
  find-appended t (r ∷ rows) e new k =
      ground (arith, find-appended t rows e, clashes_comm s.stripe_id r.stripe_id, eq_refl t)

  -- The saved row is the one that its `stripe_id` finds.
  pub find-put_row :
      (t : String) (rows : List Subscription)
      → s.stripe_id ≡ some t
      → IsDistinct rows
      → any (clashes_elsewhere s) rows ≡ false
      → find (λ r. has_text t r.stripe_id) (put_row now s rows) ≡ some (stored now s rows)
  unfolding put_row
  find-put_row t rows e d k = elim (Bool-cases (any (has_id s.id) rows)) [
    | inl old ↦ rw old (find-replaced t rows e old d k)
    | inr new ↦ rw new (find-appended t rows e new k)
  ]

  replaced-again :
      (rows : List Subscription)
      → update_where (has_id s.id) replace (replaced rows) ≡ replaced rows
  replaced-again [] = refl
  replaced-again (r ∷ rows) = ground (arith, replaced-again rows)

  any-has_id-put_row : (rows : List Subscription) → any (has_id s.id) (put_row now s rows) ≡ true
  unfolding put_row
  any-has_id-put_row rows = ground (
    arith,
    any-has_id-replaced s.id rows,
    any-append (has_id s.id) rows ((record s { created_at = now }) ∷ []),
  )

  appended-again :
      (rows : List Subscription)
      → any (has_id s.id) rows ≡ false
      → replaced (rows ++ (record s { created_at = now }) ∷ [])
        ≡ rows ++ (record s { created_at = now }) ∷ []
  appended-again [] new = ground arith
  appended-again (r ∷ rows) new = ground (arith, appended-again rows)

  -- To save a saved row again changes nothing, whatever the clock says.
  pub put_row-put_row :
      (now' t : Time) (rows : List Subscription)
      → put_row now' (record s { created_at = t }) (put_row now s rows) ≡ put_row now s rows
  unfolding put_row
  put_row-put_row now' t rows = elim (Bool-cases (any (has_id s.id) rows)) [
    | inl old ↦ rw (old, any-has_id-replaced s.id rows, old) (replaced-again rows)
    | inr new ↦ ground (arith, any-has_id-put_row rows, appended-again rows new)
  ]

  replaced-no_clash :
      (rows : List Subscription)
      → any (clashes_elsewhere s) rows ≡ false
      → any (clashes_elsewhere s) (replaced rows) ≡ false
  replaced-no_clash [] k = refl
  replaced-no_clash (r ∷ rows) k = ground (arith, replaced-no_clash rows)

  -- A saved row clashes with no other.
  pub put_row-no_clash :
      (rows : List Subscription)
      → any (clashes_elsewhere s) rows ≡ false
      → any (clashes_elsewhere s) (put_row now s rows) ≡ false
  unfolding put_row
  put_row-no_clash rows k = ground (
    arith,
    replaced-no_clash rows k,
    any-append (clashes_elsewhere s) rows ((record s { created_at = now }) ∷ []),
  )
