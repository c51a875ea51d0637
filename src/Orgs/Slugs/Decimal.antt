-- ===== src/Orgs/Slugs/Decimal.antt =====
-- The decimals of different numbers differ, and so do the candidates for a slug.
use Prim.Native.Char.{code}
use Prim.Native.String.{◌++◌ as join}
use text.Mathlib.TextLemmas.{
  append_cancel_left, tail-eq_of_cons-eq, nil-append, cons-append, append-nil,
}
use saasmint.Base.{
  ℕ, zero, suc, ◌+◌, ◌*◌, ◌-◌, ◌/◌, ◌%◌, ◌<◌, ◌≡◌, refl, ap, sym, ◌∙◌, true, String, ltb, some,
  ==_refl, arith, inl, inr, Bool-cases,
}
use saasmint.Orgs.Slugs.{
  digit, show_digits, decimal, candidate, is_digit, all_digits, some_digits, strip_prefix, matches,
}

-- The number that a text of digits denotes after a number that stands in front of it.
value : String → ℕ → ℕ
value String.[] n = n
value (String.◌∷◌ c s) n = value s (n * 10 + (code c - 48))

code-digit : (n : ℕ) → n < 10 → code (digit n) ≡ 48 + n
code-digit zero h = refl
code-digit (suc zero) h = refl
code-digit (suc (suc zero)) h = refl
code-digit (suc (suc (suc zero))) h = refl
code-digit (suc (suc (suc (suc zero)))) h = refl
code-digit (suc (suc (suc (suc (suc zero))))) h = refl
code-digit (suc (suc (suc (suc (suc (suc zero)))))) h = refl
code-digit (suc (suc (suc (suc (suc (suc (suc zero))))))) h = refl
code-digit (suc (suc (suc (suc (suc (suc (suc (suc zero)))))))) h = refl
code-digit (suc (suc (suc (suc (suc (suc (suc (suc (suc zero))))))))) h = refl
code-digit (suc (suc (suc (suc (suc (suc (suc (suc (suc (suc n)))))))))) h = absurd (omega arith)

value-show_digits :
    (fuel n : ℕ) (s : String) → n < fuel → value (show_digits fuel n s) 0 ≡ value s n
unfolding show_digits value
value-show_digits zero n s h = absurd (omega arith)
value-show_digits (suc fuel) n s h = elim (Bool-cases (ltb n 10)) [
  | inl small ↦
      let last : 0 * 10 + (code (digit n) - 48) ≡ n =
        rw (code-digit n (ground arith)) (omega arith) in
      rw small (ap (value s) last)
  | inr large ↦
      let last : n / 10 * 10 + (code (digit (n % 10)) - 48) ≡ n =
        rw (code-digit (n % 10) (omega arith)) (omega arith) in
      rw large (
        value-show_digits fuel (n / 10) (String.◌∷◌ (digit (n % 10)) s) (ground arith)
        ∙ ap (value s) last)
]

value-decimal : (n : ℕ) → value (decimal n) 0 ≡ n
unfolding decimal value
value-decimal n = value-show_digits (suc n) n "" (omega arith)

decimal_injective : (m n : ℕ) → decimal m ≡ decimal n → m ≡ n
decimal_injective m n h = sym (value-decimal m) ∙ (ap (λ s. value s 0) h ∙ value-decimal n)

pub candidate_injective : (base : String) (m n : ℕ) → candidate base m ≡ candidate base n → m ≡ n
unfolding candidate
candidate_injective base m n h =
    decimal_injective m n (tail-eq_of_cons-eq (append_cancel_left base _ _ h))

is_digit-digit : (n : ℕ) → n < 10 → is_digit (digit n) ≡ true
is_digit-digit n h = rw (code-digit n h) (ground arith)

all_digits-show_digits :
    (fuel n : ℕ) (s : String) → all_digits s ≡ true → all_digits (show_digits fuel n s) ≡ true
unfolding show_digits all_digits
all_digits-show_digits zero n s h = h
all_digits-show_digits (suc fuel) n s h = elim (Bool-cases (ltb n 10)) [
  | inl small ↦ rw (small, is_digit-digit n (ground arith)) h
  | inr large ↦ rw large (
      all_digits-show_digits fuel (n / 10) (String.◌∷◌ (digit (n % 10)) s)
        (rw (is_digit-digit (n % 10) (omega arith)) h))
]

some_digits-show_digits :
    (fuel n : ℕ) (s : String)
    → all_digits s ≡ true
    → some_digits (show_digits (suc fuel) n s) ≡ true
unfolding show_digits all_digits
some_digits-show_digits zero n s h = elim (Bool-cases (ltb n 10)) [
  | inl small ↦ rw (small, is_digit-digit n (ground arith)) h
  | inr large ↦ rw (large, is_digit-digit (n % 10) (omega arith)) h
]
some_digits-show_digits (suc fuel) n s h = elim (Bool-cases (ltb n 10)) [
  | inl small ↦ rw (small, is_digit-digit n (ground arith)) h
  | inr large ↦ rw large (
      some_digits-show_digits fuel (n / 10) (String.◌∷◌ (digit (n % 10)) s)
        (rw (is_digit-digit (n % 10) (omega arith)) h))
]

strip_prefix-join : (p s : String) → strip_prefix p (join p s) ≡ some s
unfolding strip_prefix
strip_prefix-join String.[] s = rw (nil-append s) refl
strip_prefix-join (String.◌∷◌ c p) s =
    rw (cons-append c p s, ==_refl (code c)) (strip_prefix-join p s)

-- Every candidate for a base is one of the slugs to avoid where it is in use.
pub matches-candidate : (base : String) (n : ℕ) → matches base (candidate base n) ≡ true
unfolding matches candidate decimal
matches-candidate base n =
    rw (strip_prefix-join base (String.◌∷◌ "-" (decimal n))) (some_digits-show_digits n n "" refl)

pub matches_base : (base : String) → matches base base ≡ true
unfolding matches
matches_base base =
    let whole : strip_prefix base base ≡ some "" =
      ap (strip_prefix base) (sym (append-nil base)) ∙ strip_prefix-join base "" in
    rw whole refl
