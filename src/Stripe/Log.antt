-- ===== src/Stripe/Log.antt =====
-- Steps that make only requests of a kind, and steps that leave the tables alone; both by the composition of
-- the step.
use saasmint.Base.{
  ◌≡◌, refl, ◌∙◌, Bool, true, false, ◌&&◌, List, [], ◌∷◌, ◌++◌, if◌then◌else◌, arith, inl, inr,
  Bool-cases, append_assoc, append_nil,
}
use saasmint.Database.{Action}
use saasmint.Database.Result.{Result, ok, err, Error}
use saasmint.Stripe.{Stripe, Call, World, Service, request, pure, raise, lift, on_db, ◌>>=◌}

abbrev pub every : (Call → Bool) → List Call → Bool
every p [] = true
every p (c ∷ cs) = p c && every p cs

every-append :
    (p : Call → Bool) (xs ys : List Call) → every p (xs ++ ys) ≡ (every p xs && every p ys)
every-append p [] ys = refl
every-append p (x ∷ xs) ys = ground (arith, every-append p xs ys)

-- The requests between two worlds all satisfy a condition.
abbrev pub Extends : (Call → Bool) → (w w' : World) → Type 0
Extends p w w' = (added : List Call) × (w'.calls ≡ w.calls ++ added) × (every p added ≡ true)

-- From every world, a step makes only requests that satisfy the condition, whatever its outcome.
pub record Asks {ℓ} {A : Type ℓ} (p : Call → Bool) (m : Service A) : Type 0 where
  pub asks : (w : World) → Extends p w (m w).1

-- From every world, a step keeps the tables, whatever its outcome.
pub record Reads {ℓ} {A : Type ℓ} (m : Service A) : Type 0 where
  pub reads : (w : World) → (m w).1.db ≡ w.db

pub Extends-trans :
    (p : Call → Bool) (u v w : World) → Extends p u v → Extends p v w → Extends p u w
Extends-trans p u v w (xs, ex, hx) (ys, ey, hy) =
    (xs ++ ys, rw (ey, ex) (append_assoc u.calls xs ys), rw (every-append p xs ys, hx) hy)

Extends-refl : (p : Call → Bool) (w : World) → Extends p w w
Extends-refl p w = ([], rw (append_nil w.calls) refl, refl)

module _ {ℓ κ} {A : Type ℓ} {B : Type κ} where
  bind-Asks :
      (p : Call → Bool) (m : Service A) (f : A → Service B) (w : World) (r : Result A) (v : World)
      → m w ≡ (r, v)
      → Extends p w v
      → ((a : A) → Asks p (f a))
      → Extends p w ((m >>= f) w).1
  unfolding ◌>>=◌
  bind-Asks p m f w (ok a) v e h hf = rw e (Extends-trans p w v (f a v).1 h ((hf a).asks v))
  bind-Asks p m f w (err x) v e h hf = rw e h

  pub Asks-bind :
      (p : Call → Bool) (m : Service A) (f : A → Service B)
      → Asks p m
      → ((a : A) → Asks p (f a))
      → Asks p (m >>= f)
  Asks-bind p m f hm hf = record {
    asks = λ w. bind-Asks p m f w (m w).0 (m w).1 refl (hm.asks w) hf;
  }

  bind-Reads :
      (m : Service A) (f : A → Service B) (w : World) (r : Result A) (v : World)
      → m w ≡ (r, v)
      → v.db ≡ w.db
      → ((a : A) → Reads (f a))
      → ((m >>= f) w).1.db ≡ w.db
  unfolding ◌>>=◌
  bind-Reads m f w (ok a) v e h hf = rw e ((hf a).reads v ∙ h)
  bind-Reads m f w (err x) v e h hf = rw e h

  pub Reads-bind :
      (m : Service A) (f : A → Service B) → Reads m → ((a : A) → Reads (f a)) → Reads (m >>= f)
  Reads-bind m f hm hf = record {
    reads = λ w. bind-Reads m f w (m w).0 (m w).1 refl (hm.reads w) hf;
  }

module _ {ℓ} {A : Type ℓ} where
  pub Asks-lift : (p : Call → Bool) (r : Result A) → Asks p (lift r)
  unfolding lift
  Asks-lift p r = record { asks = Extends-refl p }

  pub Reads-lift : (r : Result A) → Reads (lift r)
  unfolding lift
  Reads-lift r = record { reads = λ w. refl }

  pub Asks-pure : (p : Call → Bool) (a : A) → Asks p (pure a)
  unfolding pure
  Asks-pure p a = record { asks = Extends-refl p }

  pub Reads-pure : (a : A) → Reads (pure a)
  unfolding pure
  Reads-pure a = record { reads = λ w. refl }

  pub Asks-raise : (p : Call → Bool) (x : Error) → Asks {A = A} p (raise x)
  unfolding raise
  Asks-raise p x = record { asks = Extends-refl p }

  pub Reads-raise : (x : Error) → Reads {A = A} (raise x)
  unfolding raise
  Reads-raise x = record { reads = λ w. refl }

  pub Asks-on_db : (p : Call → Bool) (m : Action A) → Asks p (on_db m)
  unfolding on_db
  Asks-on_db p m = record { asks = λ w. ([], rw (append_nil w.calls) refl, refl) }

  pub Asks-if :
      (p : Call → Bool) (b : Bool) (m n : Service A)
      → (b ≡ true → Asks p m)
      → (b ≡ false → Asks p n)
      → Asks p (if b then m else n)
  Asks-if p true m n hm hn = hm refl
  Asks-if p false m n hm hn = hn refl

  pub Reads-if : (b : Bool) (m n : Service A) → Reads m → Reads n → Reads (if b then m else n)
  Reads-if true m n hm hn = hm
  Reads-if false m n hm hn = hn

pub Asks-request :
    (p : Call → Bool) (stripe : Stripe) (c : Call) → p c ≡ true → Asks p (request stripe c)
unfolding request
Asks-request p stripe c h = record { asks = λ w. (c ∷ [], refl, ground arith) }

pub Reads-request : (stripe : Stripe) (c : Call) → Reads (request stripe c)
unfolding request
Reads-request stripe c = record { reads = λ w. refl }

pub ruleset asking =
    (Asks-bind, Asks-lift, Asks-pure, Asks-raise, Asks-if, Asks-request, Asks-on_db, arith)

pub ruleset reading = (Reads-bind, Reads-lift, Reads-pure, Reads-raise, Reads-if, Reads-request)
