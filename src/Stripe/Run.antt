-- ===== src/Stripe/Run.antt =====
-- A composed step that succeeds is a sequence of steps that succeed.
use saasmint.Base.{◌≡◌, refl, ap, sym, [], ◌∷◌, ◌++◌, arith}
use saasmint.Json.{Value}
use saasmint.Database.{Action}
use saasmint.Database.Result.{Result, ok, err, Error}
use saasmint.Stripe.{Stripe, Call, World, Service, after, request, lift, pure, raise, on_db, ◌>>=◌}

module _ {ℓ} {B : Type ℓ} where
  after-ok {κ} :
      {A : Type κ} (r : Result A) (v : World) (f : A → Service B) (b : B) (w' : World)
      → after (r, v) f ≡ (ok b, w')
      → (a : A) × (r ≡ ok a) × (f a v ≡ (ok b, w'))
  after-ok (ok a) v f b w' h = (a, refl, h)
  after-ok (err x) v f b w' h = ground arith

  pub request_bind-ok :
      (stripe : Stripe) (c : Call) (f : Value → Service B) (w : World) (b : B) (w' : World)
      → (request stripe c >>= f) w ≡ (ok b, w')
      → (a : Value) × (stripe w.calls c ≡ ok a)
        × (f a (record w { calls = w.calls ++ c ∷ [] }) ≡ (ok b, w'))
  unfolding request ◌>>=◌
  request_bind-ok stripe c f w b w' h =
      after-ok (stripe w.calls c) (record w { calls = w.calls ++ c ∷ [] }) f b w' h

  pub lift_bind-ok {κ} :
      {A : Type κ} (r : Result A) (f : A → Service B) (w : World) (b : B) (w' : World)
      → (lift r >>= f) w ≡ (ok b, w')
      → (a : A) × (r ≡ ok a) × (f a w ≡ (ok b, w'))
  unfolding lift ◌>>=◌
  lift_bind-ok r f w b w' h = after-ok r w f b w' h

module _ {ℓ} {B : Type ℓ} where
  pub bind-ok {κ} :
      {A : Type κ} (m : Service A) (f : A → Service B) (w : World) (b : B) (w' : World)
      → (m >>= f) w ≡ (ok b, w')
      → (a : A) × (v : World) × (m w ≡ (ok a, v)) × (f a v ≡ (ok b, w'))
  unfolding ◌>>=◌
  bind-ok m f w b w' h =
      let (a, answered, rest) = after-ok (m w).0 (m w).1 f b w' h in
      (a, (m w).1, ap (λ r. (r, (m w).1)) answered, rest)

  pub pure-ok : (a b : B) (w w' : World) → pure a w ≡ (ok b, w') → (a ≡ b) × (w'.calls ≡ w.calls)
  unfolding pure
  pure-ok a b w w' h = (
    ap (λ (r : Result B × World). elim r.0 [ ok x ↦ x | err e ↦ a ]) h,
    ap (λ (r : Result B × World). r.1.calls) (sym h),
  )

  pub lift-ok :
      (r : Result B) (b : B) (w w' : World)
      → lift r w ≡ (ok b, w')
      → (r ≡ ok b) × (w'.calls ≡ w.calls)
  unfolding lift
  lift-ok r b w w' h =
      (ap (λ (x : Result B × World). x.0) h, ap (λ (x : Result B × World). x.1.calls) (sym h))

  pub raise-err : (x : Error) (r : Result B) (w w' : World) → raise x w ≡ (r, w') → r ≡ err x
  unfolding raise
  raise-err x r w w' h = ap (λ (p : Result B × World). p.0) (sym h)

module _ {ℓ} {A : Type ℓ} where
  pub on_db-ok :
      (m : Action A) (w : World) (a : A) (v : World)
      → on_db m w ≡ (ok a, v)
      → (m w.db ≡ (ok a, v.db)) × (v.calls ≡ w.calls)
  unfolding on_db
  on_db-ok m w a v h = (
    ap (λ (p : Result A × World). (p.0, p.1.db)) h,
    ap (λ (p : Result A × World). p.1.calls) (sym h),
  )
