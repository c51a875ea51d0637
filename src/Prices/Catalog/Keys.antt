-- ===== src/Prices/Catalog/Keys.antt =====
-- The equality of keys decides their equality.
use mathlib.Core.Path.{subst}
use saasmint.Base.{
  ◌≡◌, refl, sym, ap, ◌∙◌, true, arith, inl, inr, Bool-cases, path_of_str_eq, str_eq_refl, eq_of_==,
  ==_refl,
}
use saasmint.Prices.Catalog.{PriceOwner, plan_price, product_price, same_owner, PriceKey, same_key}

pub path_of_same_owner : (a b : PriceOwner) → same_owner a b ≡ true → a ≡ b
path_of_same_owner (plan_price a) (plan_price b) h = ap plan_price (eq_of_== a b h)
path_of_same_owner (product_price a) (product_price b) h = ap product_price (eq_of_== a b h)
path_of_same_owner a b h = ground arith

pub same_owner_refl : (a : PriceOwner) → same_owner a a ≡ true
same_owner_refl (plan_price a) = ==_refl a
same_owner_refl (product_price a) = ==_refl a

pub path_of_same_key : (a b : PriceKey) → same_key a b ≡ true → a ≡ b
path_of_same_key a b h =
    let owners = path_of_same_owner a.owner b.owner (ground arith) in
    let currencies = path_of_str_eq a.currency b.currency (ground arith) in ground arith

pub same_key_refl : (a : PriceKey) → same_key a a ≡ true
same_key_refl a = ground (arith, str_eq_refl a.currency, same_owner_refl a.owner)

pub same_key_comm : (a b : PriceKey) → same_key a b ≡ same_key b a
same_key_comm a b = elim (Bool-cases (same_key a b)) [
  | inl here ↦
      let same = path_of_same_key a b here in
      here ∙ sym (subst (λ x. same_key b x ≡ true) (sym same) (same_key_refl b))
  | inr other ↦ elim (Bool-cases (same_key b a)) [
    | inl here ↦
        let same = path_of_same_key b a here in
        subst (λ x. same_key a x ≡ same_key x a) (sym same) refl
    | inr neither ↦ other ∙ sym neither
  ]
]
